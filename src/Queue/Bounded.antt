-- ===== src/Queue/Bounded.antt =====
-- The decrypting queue never holds more than its size.
use web_tether.Common.{ℕ, ◌≤◌, ◌<◌, none, List, [], ◌∷◌, leb, arith, Bool-cases, inl, inr, All}
use web_tether.Queue.{
  Outcome, Queue, Effect, dequeue, queue_step, push_item, wait_event, abort_queue, reason_of,
}
use web_tether.Queue.Deciphered.{
  Phase, taking, blocked, woken, over, Deciphering, LoopEvent, taken, resumed, failed, called,
  is_notified, take_packet, on_taken, on_resumed, wake, loop_step, loop_run,
}
use web_tether.Queue.Shrinking.{
  Shrinking, IsTaking, wait_unless-Shrinking, abort_from-Shrinking, queue_step-Shrinking,
  push_from-queued,
}

-- What is queued, by where the loop stands: with a wait over there is room for the packet in hand.
abbrev pub Fits : {I : Type 0} → ℕ → Phase I → ℕ → Type 0
Fits size taking n = n ≤ size
Fits size (blocked p held) n = n ≤ size
Fits size (woken held) n = n < size
Fits size over n = n ≤ size

Fits-bound : {I : Type 0} {size : ℕ} → (phase : Phase I) (n : ℕ) → Fits size phase n → n ≤ size
Fits-bound taking n h = h
Fits-bound (blocked p held) n h = h
Fits-bound (woken held) n h = omega (arith, h)
Fits-bound over n h = h

-- Others push nothing into the decrypting queue.
abbrev pub IsLoopEvent : {I : Type 0} → LoopEvent I → Type 0
IsLoopEvent (taken packet) = Unit
IsLoopEvent resumed = Unit
IsLoopEvent (failed reason) = Unit
IsLoopEvent (called c) = IsTaking c

module _ {I O : Type 0} (f : I → Outcome O) (size : ℕ) (room : 1 ≤ size) where
  take_packet-Fits :
      (packet : I) (q : Queue I O)
      → q.queued ≤ size
      → let d = take_packet size packet q in Fits size d.phase d.decrypt_queue.queued
  unfolding take_packet wait_event push_item
  take_packet-Fits packet q h = elim (Bool-cases (leb size q.queued)) [
    | inl full ↦
        rw full
          (omega (arith, h, (wait_unless-Shrinking (reason_of none q.aborted) dequeue q).at_most))
    | inr free ↦ rw free (ground (arith, free, push_from-queued q.aborted packet q))
  ]

  wake-Fits :
      (phase : Phase I) (q : Queue I O) (r : Queue I O × List (Effect I O))
      → Fits size phase q.queued
      → Shrinking q r
      → Fits size (wake phase r.1) r.0.queued
  unfolding wake
  wake-Fits taking q r h s = omega (arith, h, s.at_most)
  wake-Fits (blocked p held) q r h s = elim (Bool-cases (is_notified p r.1)) [
    | inl now ↦ rw now (omega (arith, h, room, s.one_less p now))
    | inr later ↦ rw later (omega (arith, h, s.at_most))
  ]
  wake-Fits (woken held) q r h s = omega (arith, h, s.at_most)
  wake-Fits over q r h s = omega (arith, h, s.at_most)

  on_taken-Fits :
      (packet : I) (phase : Phase I) (q : Queue I O)
      → Fits size phase q.queued
      → let d = on_taken size packet phase q in Fits size d.phase d.decrypt_queue.queued
  unfolding on_taken
  on_taken-Fits packet taking q h = take_packet-Fits packet q h
  on_taken-Fits packet (blocked p held) q h = h
  on_taken-Fits packet (woken held) q h = h
  on_taken-Fits packet over q h = h

  on_resumed-Fits :
      (phase : Phase I) (q : Queue I O)
      → Fits size phase q.queued
      → let d = on_resumed phase q in Fits size d.phase d.decrypt_queue.queued
  unfolding on_resumed push_item
  on_resumed-Fits taking q h = h
  on_resumed-Fits (blocked p held) q h = h
  on_resumed-Fits (woken held) q h = omega (arith, h, push_from-queued q.aborted held q)
  on_resumed-Fits over q h = h

  loop_step-Fits :
      (e : LoopEvent I) (d : Deciphering I O)
      → IsLoopEvent e
      → Fits size d.phase d.decrypt_queue.queued
      → let d' = loop_step f size e d in Fits size d'.phase d'.decrypt_queue.queued
  unfolding loop_step abort_queue
  loop_step-Fits (taken packet) d k h = on_taken-Fits packet d.phase d.decrypt_queue h
  loop_step-Fits resumed d k h = on_resumed-Fits d.phase d.decrypt_queue h
  loop_step-Fits (failed reason) d k h = omega (
    arith,
    Fits-bound d.phase d.decrypt_queue.queued h,
    (abort_from-Shrinking d.decrypt_queue.aborted reason d.decrypt_queue).at_most,
  )
  loop_step-Fits (called c) d k h =
      wake-Fits d.phase d.decrypt_queue (queue_step f c d.decrypt_queue) h
        (queue_step-Shrinking f c d.decrypt_queue k)

  -- For a size of at least one: whatever the loop does and others call, in any order, the queue holds
  -- no more than the size, and less where the loop has a packet in hand whose wait is over. Others may
  -- call anything but push.
  pub loop_run-Fits :
      (es : List (LoopEvent I)) (d : Deciphering I O)
      → All IsLoopEvent es
      → Fits size d.phase d.decrypt_queue.queued
      → let d' = loop_run f size es d in
        (d'.decrypt_queue.queued ≤ size) × Fits size d'.phase d'.decrypt_queue.queued
  unfolding loop_run
  loop_run-Fits [] d k h = (Fits-bound d.phase d.decrypt_queue.queued h, h)
  loop_run-Fits (e ∷ es) d (k, ks) h =
      loop_run-Fits es (loop_step f size e d) ks (loop_step-Fits e d k h)
