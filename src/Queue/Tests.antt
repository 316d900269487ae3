-- ===== src/Queue/Tests.antt =====
-- The queue at concrete calls: the theorems, and runs of it.
use web_tether.Common.{ℕ, ◌+◌, ◌≤◌, ◌≡◌, ◌⊎◌, refl, inl, none, some, List, [], ◌∷◌, ◌++◌, arith}
use web_tether.Queue.{
  Outcome, content, Queue, settled, dequeued, rejected, enqueue, Call, push, process, shift,
  wait_for, cancel_shift, queue_step, run_queue, shift_item, push_item, process_next,
  cancel_waiting, is_in, remove,
}
use web_tether.Queue.Effects.{delivered, served}
use web_tether.Queue.Invariant.{IsOrderly, run_queue-IsOrderly}
use web_tether.Queue.View.{view, contents}
use web_tether.Queue.Fifo.{Moves, all_added, run_queue-Moves}
use web_tether.Queue.Order.{all_asked, run_queue-Serves}
use web_tether.Queue.Delivery.{turns-deliver}
use web_tether.Queue.Deciphered.{
  Deciphering, LoopEvent, taken, resumed, failed, called, taking, loop_run,
}
use web_tether.Queue.Bounded.{Fits, loop_run-Fits}
use web_tether.Queue.Closed.{refusals, run_queue-refusals}

abbrev Numbers : Type 0
Numbers = Queue ℕ ℕ

abbrev next_number : ℕ → Outcome ℕ
next_number n = content (n + 1)

-- Two pushes, a shift that waits, a shift that is given up and one that is served at once.
abbrev calls : List (Call ℕ)
calls = shift none ∷ push 4 ∷ process ∷ shift none ∷ cancel_shift 1 99 ∷ push 7 ∷ process ∷ []

abbrev patient_calls : List (Call ℕ)
patient_calls = shift none ∷ push 4 ∷ wait_for enqueue none ∷ process ∷ shift none ∷ []

abbrev empty_queue : Numbers
empty_queue = record {
  aborted = none;
  queued = 0;
  processing = [];
  pending = [];
  waiting = [];
  enqueue_listeners = [];
  dequeue_listeners = [];
  next_promise = 0;
}

empty_queue-IsOrderly : IsOrderly empty_queue
empty_queue-IsOrderly = record {
  exclusive = inl refl;
  counted = λ e. refl;
  shut = λ h. absurd (h refl);
}

-- Two items in process, and one promise that waits.
abbrev busy_queue : Numbers
busy_queue = record (empty_queue) {
  queued = 2;
  processing = 4 ∷ 7 ∷ [];
  waiting = 0 ∷ [];
  next_promise = 1;
}

busy_queue-IsOrderly : IsOrderly busy_queue
busy_queue-IsOrderly = record {
  exclusive = inl refl;
  counted = λ e. refl;
  shut = λ h. absurd (h refl);
}

abbrev closed_queue : Numbers
closed_queue = record (empty_queue) { aborted = some 13; next_promise = 5 }

closed_queue-IsOrderly : IsOrderly closed_queue
closed_queue-IsOrderly = record {
  exclusive = inl refl;
  counted = λ e. absurd (cc);
  shut = λ h. (refl, refl, refl, refl, refl);
}

run_queue-calls :
    (run_queue next_number calls empty_queue).1
    ≡ dequeued 4 ∷ settled 0 (content 5) ∷ rejected 1 99 ∷ []
unfolding run_queue queue_step shift_item push_item process_next cancel_waiting is_in remove
run_queue-calls = refl

run_queue-IsOrderly_example : IsOrderly (run_queue next_number calls empty_queue).0
run_queue-IsOrderly_example =
    run_queue-IsOrderly next_number calls empty_queue empty_queue-IsOrderly

run_queue-Moves_example :
    Moves
      (view next_number empty_queue)
      (all_added next_number calls)
      (delivered (run_queue next_number calls empty_queue).1)
      (view next_number (run_queue next_number calls empty_queue).0)
run_queue-Moves_example = run_queue-Moves next_number calls empty_queue empty_queue-IsOrderly

run_queue-Serves_example :
    let r = run_queue next_number patient_calls empty_queue in
    (empty_queue.waiting ++ all_asked patient_calls 0 ≡ served r.1 ++ r.0.waiting)
    × (r.0.aborted ≡ none)
run_queue-Serves_example =
    run_queue-Serves next_number patient_calls empty_queue (tt, (tt, (tt, (tt, (tt, tt)))))
      empty_queue-IsOrderly refl

turns-deliver_example :
    let r = run_queue next_number (process ∷ process ∷ []) busy_queue in
    ((contents next_number r.0 ≡ []) ⊎ (r.0.waiting ≡ []))
    × (contents next_number busy_queue ≡ delivered r.1 ++ contents next_number r.0)
    × (busy_queue.waiting ≡ served r.1 ++ r.0.waiting)
turns-deliver_example =
    turns-deliver next_number 2 busy_queue busy_queue-IsOrderly refl (omega arith)

run_queue-refusals_example :
    let cs : List (Call ℕ) = push 1 ∷ shift (some 6) ∷ wait_for enqueue none ∷ [] in
    ((run_queue next_number cs closed_queue).1 ≡ refusals cs 13 5)
    × ((run_queue next_number cs closed_queue).0.aborted ≡ some 13)
run_queue-refusals_example =
    run_queue-refusals next_number (push 1 ∷ shift (some 6) ∷ wait_for enqueue none ∷ []) 13
      closed_queue closed_queue-IsOrderly refl

abbrev loop_events : List (LoopEvent ℕ)
loop_events =
    taken 4 ∷ taken 7 ∷ called (shift none) ∷ called process ∷ resumed ∷ taken 9 ∷ failed 2 ∷ []

abbrev idle : Deciphering ℕ ℕ
idle = record { phase = taking; decrypt_queue = empty_queue }

loop_run-Fits_example :
    let d = loop_run next_number 1 loop_events idle in
    (d.decrypt_queue.queued ≤ 1) × Fits 1 d.phase d.decrypt_queue.queued
loop_run-Fits_example =
    loop_run-Fits next_number 1 (omega arith) loop_events idle
      (tt, (tt, (tt, (tt, (tt, (tt, (tt, tt))))))) (omega arith)
