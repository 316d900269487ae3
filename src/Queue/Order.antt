-- ===== src/Queue/Order.antt =====
-- The promises of `shift` are served in the order in which they were asked for.
use web_tether.Common.{
  ℕ, ◌+◌, ◌≡◌, ◌⊎◌, inl, inr, refl, sym, ap, ◌∙◌, Option, none, some, List, [], ◌∷◌, ◌++◌,
  append_assoc, append-nil, All,
}
use web_tether.Queue.{
  Outcome, Value, Queue, Effect, settled, notified, dequeued, QueueEvent, enqueue, dequeue, Call,
  push, process, shift, cancel_shift, wait_for, cancel_wait, abort_with, push_from, push_item,
  hand_over, deliver_to, process_from, process_items, process_next, count_promise, shift_from,
  shift_unless, shift_item, listen, wait_unless, wait_event, queue_step, run_queue, notify_all,
  reason_of,
}
use web_tether.Queue.Effects.{promise_of, served, collect, collect-append, collect-map}
use web_tether.Queue.Invariant.{IsOrderly, queue_step-IsOrderly}

-- The calls that neither abort the queue nor give up a promise.
abbrev pub IsPatient : {I : Type 0} → Call I → Type 0
IsPatient (push item) = Unit
IsPatient process = Unit
IsPatient (shift none) = Unit
IsPatient (shift (some reason)) = ⊥
IsPatient (cancel_shift p reason) = ⊥
IsPatient (wait_for event none) = Unit
IsPatient (wait_for event (some reason)) = Unit
IsPatient (cancel_wait p reason) = ⊥
IsPatient (abort_with reason) = ⊥

-- The promises of `shift` that a call asks for, and all of those of a run, from the next number on.
unfoldable pub asked : {I : Type 0} → Call I → ℕ → List ℕ
asked (push item) n = []
asked process n = []
asked (shift signal) n = n ∷ []
asked (cancel_shift p reason) n = []
asked (wait_for event signal) n = []
asked (cancel_wait p reason) n = []
asked (abort_with reason) n = []

unfoldable pub numbered : {I : Type 0} → Call I → ℕ → ℕ
numbered (push item) n = n
numbered process n = n
numbered (shift signal) n = n + 1
numbered (cancel_shift p reason) n = n
numbered (wait_for event signal) n = n + 1
numbered (cancel_wait p reason) n = n
numbered (abort_with reason) n = n

unfoldable pub all_asked : {I : Type 0} → List (Call I) → ℕ → List ℕ
all_asked [] n = []
all_asked (c ∷ cs) n = asked c n ++ all_asked cs (numbered c n)

-- What a call leaves as it is, and what it does to the promises.
pub record Serves {I O : Type 0} (waiting new : List ℕ) (n : ℕ) (r : Queue I O × List (Effect I O))
    : Type 0 where
  pub in_order : waiting ++ new ≡ served r.1 ++ r.0.waiting
  pub next : r.0.next_promise ≡ n
  pub still_open : r.0.aborted ≡ none

module _ {I O : Type 0} where
  push_from-Serves :
      (a : Option ℕ) (item : I) (q : Queue I O)
      → q.aborted ≡ none
      → q.aborted ≡ a
      → Serves q.waiting [] q.next_promise (push_from a item q)
  unfolding push_from collect
  push_from-Serves (some r) item q e e' = absurd (cc)
  push_from-Serves none item q e e' = record {
    in_order =
        rw
          (
            append-nil,
            collect-map {B = ℕ} (promise_of {I = I} {O = O}) notified (λ p. refl)
                q.enqueue_listeners,
          )
          refl;
    next = refl;
    still_open = e;
  }

  hand_over-served : (p : ℕ) (v : Value I O) (q : Queue I O) → served (hand_over p v q).1 ≡ p ∷ []
  unfolding hand_over collect
  hand_over-served p v q =
      rw
        (
          collect-append (promise_of {I = I} {O = O})
              (notify_all {I = I} {O = O} q.dequeue_listeners)
              (dequeued v.input ∷ settled p v.outcome ∷ []),
          collect-map {B = ℕ} (promise_of {I = I} {O = O}) notified (λ x. refl) q.dequeue_listeners,
        )
        refl

  deliver_to-Serves :
      (waiting : List ℕ) (v : Value I O) (q : Queue I O)
      → q.aborted ≡ none
      → q.waiting ≡ waiting
      → Serves q.waiting [] q.next_promise (deliver_to waiting v q)
  unfolding deliver_to collect
  deliver_to-Serves [] v q e back = record {
    in_order = append-nil q.waiting;
    next = refl;
    still_open = e;
  }
  deliver_to-Serves (p ∷ ps) v q e back = record {
    in_order =
        rw (back, append-nil, hand_over-served p v (record q { waiting = ps }))
          (unfold hand_over in refl);
    next = unfold hand_over in refl;
    still_open = unfold hand_over in e;
  }

  process_from-Serves :
      (a : Option ℕ) (f : I → Outcome O) (item : I) (q : Queue I O)
      → q.aborted ≡ none
      → q.aborted ≡ a
      → Serves q.waiting [] q.next_promise (process_from a f item q)
  unfolding process_from
  process_from-Serves (some r) f item q e e' = absurd (cc)
  process_from-Serves none f item q e e' = deliver_to-Serves q.waiting _ q e refl

  process_items-Serves :
      (items : List I) (f : I → Outcome O) (q : Queue I O)
      → q.aborted ≡ none
      → Serves q.waiting [] q.next_promise (process_items items f q)
  unfolding process_items collect
  process_items-Serves [] f q e = record {
    in_order = append-nil q.waiting;
    next = refl;
    still_open = e;
  }
  process_items-Serves (item ∷ items) f q e =
      process_from-Serves q.aborted f item (record q { processing = items }) e refl

  shift_from-Serves :
      (pending : List (Value I O)) (p : ℕ) (q : Queue I O)
      → q.pending ≡ pending
      → q.aborted ≡ none
      → (q.pending ≡ []) ⊎ (q.waiting ≡ [])
      → Serves q.waiting (p ∷ []) q.next_promise (shift_from pending p q)
  unfolding shift_from collect
  shift_from-Serves [] p q front e one = record { in_order = refl; next = refl; still_open = e }
  shift_from-Serves (v ∷ pending) p q front e (inl no_value) = absurd (cc)
  shift_from-Serves (v ∷ pending) p q front e (inr no_one) = record {
    in_order =
        ap (λ l. l ++ (p ∷ [])) no_one
        ∙ rw (hand_over-served p v (record q { pending = pending }))
            (unfold hand_over in ap (λ l. p ∷ l) (sym no_one));
    next = unfold hand_over in refl;
    still_open = unfold hand_over in e;
  }

  shift_unless-Serves :
      (r : Option ℕ) (q : Queue I O)
      → r ≡ none
      → q.aborted ≡ none
      → (q.pending ≡ []) ⊎ (q.waiting ≡ [])
      → Serves q.waiting (q.next_promise ∷ []) (q.next_promise + 1) (shift_unless r q)
  unfolding shift_unless count_promise
  shift_unless-Serves (some reason) q e e' one = absurd (cc)
  shift_unless-Serves none q e e' one =
      shift_from-Serves q.pending q.next_promise (record q { next_promise = q.next_promise + 1 })
        refl e' one

  wait_unless-Serves :
      (r : Option ℕ) (event : QueueEvent) (q : Queue I O)
      → q.aborted ≡ none
      → Serves q.waiting [] (q.next_promise + 1) (wait_unless r event q)
  unfolding wait_unless listen count_promise collect
  wait_unless-Serves (some reason) event q e = record {
    in_order = append-nil q.waiting;
    next = refl;
    still_open = e;
  }
  wait_unless-Serves none enqueue q e = record {
    in_order = append-nil q.waiting;
    next = refl;
    still_open = e;
  }
  wait_unless-Serves none dequeue q e = record {
    in_order = append-nil q.waiting;
    next = refl;
    still_open = e;
  }

  pub queue_step-Serves :
      (f : I → Outcome O) (c : Call I) (q : Queue I O)
      → IsPatient c
      → IsOrderly q
      → q.aborted ≡ none
      → Serves q.waiting (asked c q.next_promise) (numbered c q.next_promise) (queue_step f c q)
  unfolding queue_step push_item process_next shift_item wait_event asked numbered
  queue_step-Serves f (push item) q k h e = push_from-Serves q.aborted item q e refl
  queue_step-Serves f process q k h e = process_items-Serves q.processing f q e
  queue_step-Serves f (shift none) q k h e = shift_unless-Serves q.aborted q e e h.exclusive
  queue_step-Serves f (shift (some reason)) q k h e = absurd k
  queue_step-Serves f (cancel_shift p reason) q k h e = absurd k
  queue_step-Serves f (wait_for event signal) q k h e =
      wait_unless-Serves (reason_of signal q.aborted) event q e
  queue_step-Serves f (cancel_wait p reason) q k h e = absurd k
  queue_step-Serves f (abort_with reason) q k h e = absurd k

  -- First asked, first served: in an open orderly queue, over calls and turns that neither abort it
  -- nor give up a promise nor `shift` with a signal that is already aborted, the promises that get an outcome are, in order, the first ones of those that waited
  -- followed by those that `shift` made; the others still wait, and the queue is open.
  pub run_queue-Serves :
      (f : I → Outcome O) (cs : List (Call I)) (q : Queue I O)
      → All IsPatient cs
      → IsOrderly q
      → q.aborted ≡ none
      → let r = run_queue f cs q in
        (q.waiting ++ all_asked cs q.next_promise ≡ served r.1 ++ r.0.waiting)
        × (r.0.aborted ≡ none)
  unfolding run_queue all_asked
  run_queue-Serves f [] q k h e = (unfold collect in append-nil q.waiting, e)
  run_queue-Serves f (c ∷ cs) q (k, ks) h e =
      let s = queue_step-Serves f c q k h e in
      let (m, o) =
        run_queue-Serves f cs (queue_step f c q).0 ks (queue_step-IsOrderly f c q h) s.still_open in
      (
        sym (append_assoc q.waiting (asked c q.next_promise) _)
            ∙ ap (λ l. l ++ all_asked cs (numbered c q.next_promise)) s.in_order
            ∙ append_assoc (served (queue_step f c q).1) _ _
            ∙ ap
                (λ n.
                  served (queue_step f c q).1 ++ ((queue_step f c q).0.waiting ++ all_asked cs n))
                (sym s.next)
            ∙ ap (λ l. served (queue_step f c q).1 ++ l) m
            ∙ sym (append_assoc (served (queue_step f c q).1) _ _)
            ∙ ap (λ l. l ++ (run_queue f cs (queue_step f c q).0).0.waiting)
                (sym (collect-append promise_of (queue_step f c q).1 _)),
        o,
      )
