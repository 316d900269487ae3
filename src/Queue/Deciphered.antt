-- ===== src/Queue/Deciphered.antt =====
-- src/common/communication.ts, `createDecipheredQueue`: the loop that takes packets from the queue of
-- ciphered ones and gives them to the queue that decrypts, which holds a bounded number. `f` is the
-- decryption, and `size` is `decryptQueueSize`. A turn of the loop is an event, and so is each call
-- or turn of the decrypting queue by others.
use web_tether.Common.{ℕ, Bool, true, false, none, List, [], ◌∷◌, ◌==◌, leb, if◌then◌else◌}
use web_tether.Queue.{
  Outcome, Queue, Effect, settled, rejected, notified, dequeued, dropped, Call, dequeue, queue_step,
  push_item, wait_event, abort_queue,
}

-- Where the loop stands: it waits for a packet, or, with one in hand, for the event `dequeue` by the
-- promise with a number, or that promise is settled; or it has ended.
pub data Phase (I : Type 0) : Type 0 where
  taking : Phase I
  blocked : ℕ → I → Phase I
  woken : I → Phase I
  over : Phase I

pub record Deciphering (I O : Type 0) : Type 0 where
  pub phase : Phase I
  pub decrypt_queue : Queue I O

-- The first three are the loop's: `queue.shift` gives a packet, the wait is over, or something
-- rejects; `decryptQueue.abortWith` gets a reason. The last one is a call by others.
pub data LoopEvent (I : Type 0) : Type 0 where
  taken : I → LoopEvent I
  resumed : LoopEvent I
  failed : ℕ → LoopEvent I
  called : Call I → LoopEvent I

-- Whether the effects settle a promise of `waitFor`.
unfoldable pub is_notified : {I O : Type 0} → ℕ → List (Effect I O) → Bool
is_notified p [] = false
is_notified p (settled n o ∷ es) = is_notified p es
is_notified p (rejected n r ∷ es) = is_notified p es
is_notified p (notified n ∷ es) = let rest = is_notified p es in if n == p then true else rest
is_notified p (dequeued i ∷ es) = is_notified p es
is_notified p (dropped i r ∷ es) = is_notified p es

module _ {I O : Type 0} where
  -- `if (decryptQueue.queued() >= decryptQueueSize) await …`, then `push`.
  unfoldable pub take_packet : ℕ → I → Queue I O → Deciphering I O
  take_packet size packet q =
      if leb size q.queued
      then record {
        phase = blocked q.next_promise packet;
        decrypt_queue = (wait_event dequeue none q).0;
      }
      else record { phase = taking; decrypt_queue = (push_item packet q).0 }

  unfoldable pub on_taken : ℕ → I → Phase I → Queue I O → Deciphering I O
  unfolding take_packet
  on_taken size packet taking q = take_packet size packet q
  on_taken size packet (blocked p held) q = record { phase = blocked p held; decrypt_queue = q }
  on_taken size packet (woken held) q = record { phase = woken held; decrypt_queue = q }
  on_taken size packet over q = record { phase = over; decrypt_queue = q }

  unfoldable pub on_resumed : Phase I → Queue I O → Deciphering I O
  on_resumed taking q = record { phase = taking; decrypt_queue = q }
  on_resumed (blocked p held) q = record { phase = blocked p held; decrypt_queue = q }
  on_resumed (woken held) q = record { phase = taking; decrypt_queue = (push_item held q).0 }
  on_resumed over q = record { phase = over; decrypt_queue = q }

  -- The promise of the loop's `waitFor`, where a call settles it.
  unfoldable pub wake : Phase I → List (Effect I O) → Phase I
  wake taking es = taking
  wake (blocked p held) es = if is_notified p es then woken held else blocked p held
  wake (woken held) es = woken held
  wake over es = over

  unfoldable pub loop_step : (I → Outcome O) → ℕ → LoopEvent I → Deciphering I O → Deciphering I O
  unfolding on_taken on_resumed
  loop_step f size (taken packet) d = on_taken size packet d.phase d.decrypt_queue
  loop_step f size resumed d = on_resumed d.phase d.decrypt_queue
  loop_step f size (failed reason) d = record {
    phase = over;
    decrypt_queue = (abort_queue reason d.decrypt_queue).0;
  }
  loop_step f size (called c) d =
      let (q, es) = queue_step f c d.decrypt_queue in
      record { phase = wake d.phase es; decrypt_queue = q }

  unfoldable pub loop_run :
      (I → Outcome O) → ℕ → List (LoopEvent I) → Deciphering I O → Deciphering I O
  loop_run f size [] d = d
  loop_run f size (e ∷ es) d = loop_run f size es (loop_step f size e d)
