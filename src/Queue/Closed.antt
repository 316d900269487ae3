-- ===== src/Queue/Closed.antt =====
-- The queue once it is aborted.
use web_tether.Common.{
  ℕ, ◌+◌, ◌≡◌, ◌≢◌, refl, ap, ◌∙◌, false, Option, none, some, List, [], ◌∷◌, ◌++◌,
}
use web_tether.Queue.{
  Outcome, Queue, Effect, rejected, QueueEvent, Call, push, process, shift, cancel_shift, wait_for,
  cancel_wait, abort_with, push_from, push_item, process_from, process_items, process_next,
  count_promise, shift_unless, shift_item, wait_unless, wait_event, queue_step, run_queue,
  reason_of, is_in, cancel_waiting, cancel_listener, abort_from, abort_queue,
}
use web_tether.Queue.Order.{numbered}
use web_tether.Queue.Invariant.{IsOrderly, queue_step-IsOrderly}

is_in-nil : (p : ℕ) (xs : List ℕ) → xs ≡ [] → is_in p xs ≡ false
unfolding is_in
is_in-nil p [] e = refl
is_in-nil p (x ∷ xs) e = absurd (cc)

some-ne-none : (a : Option ℕ) (r : ℕ) → a ≡ some r → a ≢ none
some-ne-none a r e f = cc

module _ {I O : Type 0} where
  -- What an aborted queue answers to a call: a promise is rejected at once, with the reason of its own
  -- signal where that is aborted, else with the queue's.
  unfoldable pub refusal : Call I → ℕ → ℕ → List (Effect I O)
  refusal (push item) reason n = []
  refusal process reason n = []
  refusal (shift none) reason n = rejected n reason ∷ []
  refusal (shift (some r)) reason n = rejected n r ∷ []
  refusal (cancel_shift p r) reason n = []
  refusal (wait_for event none) reason n = rejected n reason ∷ []
  refusal (wait_for event (some r)) reason n = rejected n r ∷ []
  refusal (cancel_wait p r) reason n = []
  refusal (abort_with r) reason n = []

  unfoldable pub refusals : List (Call I) → ℕ → ℕ → List (Effect I O)
  refusals [] reason n = []
  refusals (c ∷ cs) reason n = refusal c reason n ++ refusals cs reason (numbered c n)

  record Refuses (reason n : ℕ) (es : List (Effect I O)) (r : Queue I O × List (Effect I O))
      : Type 0 where
    effects : r.1 ≡ es
    still_closed : r.0.aborted ≡ some reason
    next : r.0.next_promise ≡ n

  push_from-Refuses :
      (a : Option ℕ) (item : I) (reason : ℕ) (q : Queue I O)
      → q.aborted ≡ some reason
      → q.aborted ≡ a
      → Refuses reason q.next_promise [] (push_from a item q)
  unfolding push_from
  push_from-Refuses none item reason q e e' = absurd (cc)
  push_from-Refuses (some r) item reason q e e' = record {
    effects = refl;
    still_closed = e;
    next = refl;
  }

  process_from-Refuses :
      (a : Option ℕ) (f : I → Outcome O) (item : I) (reason : ℕ) (q : Queue I O)
      → q.aborted ≡ some reason
      → q.aborted ≡ a
      → Refuses reason q.next_promise [] (process_from a f item q)
  unfolding process_from
  process_from-Refuses none f item reason q e e' = absurd (cc)
  process_from-Refuses (some r) f item reason q e e' = record {
    effects = refl;
    still_closed = e;
    next = refl;
  }

  process_items-Refuses :
      (items : List I) (f : I → Outcome O) (reason : ℕ) (q : Queue I O)
      → q.aborted ≡ some reason
      → Refuses reason q.next_promise [] (process_items items f q)
  unfolding process_items
  process_items-Refuses [] f reason q e = record { effects = refl; still_closed = e; next = refl }
  process_items-Refuses (item ∷ items) f reason q e =
      process_from-Refuses q.aborted f item reason (record q { processing = items }) e refl

  abort_from-Refuses :
      (a : Option ℕ) (r reason : ℕ) (q : Queue I O)
      → q.aborted ≡ some reason
      → q.aborted ≡ a
      → Refuses reason q.next_promise [] (abort_from a r q)
  unfolding abort_from
  abort_from-Refuses none r reason q e e' = absurd (cc)
  abort_from-Refuses (some s) r reason q e e' = record {
    effects = refl;
    still_closed = e;
    next = refl;
  }

  shift_unless-Refuses :
      (signal a : Option ℕ) (reason : ℕ) (q : Queue I O)
      → q.aborted ≡ some reason
      → a ≡ some reason
      → Refuses reason
          (q.next_promise + 1)
          (refusal (shift signal) reason q.next_promise)
          (shift_unless (reason_of signal a) q)
  unfolding shift_unless count_promise refusal
  shift_unless-Refuses (some r) a reason q e e' = record {
    effects = refl;
    still_closed = e;
    next = refl;
  }
  shift_unless-Refuses none none reason q e e' = absurd (cc)
  shift_unless-Refuses none (some r) reason q e e' = record {
    effects = ap (λ s. rejected q.next_promise s ∷ []) (cc);
    still_closed = e;
    next = refl;
  }

  wait_unless-Refuses :
      (signal a : Option ℕ) (event : QueueEvent) (reason : ℕ) (q : Queue I O)
      → q.aborted ≡ some reason
      → a ≡ some reason
      → Refuses reason
          (q.next_promise + 1)
          (refusal (wait_for event signal) reason q.next_promise)
          (wait_unless (reason_of signal a) event q)
  unfolding wait_unless count_promise refusal
  wait_unless-Refuses (some r) a event reason q e e' = record {
    effects = refl;
    still_closed = e;
    next = refl;
  }
  wait_unless-Refuses none none event reason q e e' = absurd (cc)
  wait_unless-Refuses none (some r) event reason q e e' = record {
    effects = ap (λ s. rejected q.next_promise s ∷ []) (cc);
    still_closed = e;
    next = refl;
  }

  cancel_waiting-Refuses :
      (p r reason : ℕ) (q : Queue I O)
      → q.aborted ≡ some reason
      → q.waiting ≡ []
      → Refuses reason q.next_promise [] (cancel_waiting p r q)
  unfolding cancel_waiting
  cancel_waiting-Refuses p r reason q e no_one =
      rw (is_in-nil p q.waiting no_one) (record { effects = refl; still_closed = e; next = refl })

  cancel_listener-Refuses :
      (p r reason : ℕ) (q : Queue I O)
      → q.aborted ≡ some reason
      → q.enqueue_listeners ≡ []
      → q.dequeue_listeners ≡ []
      → Refuses reason q.next_promise [] (cancel_listener p r q)
  unfolding cancel_listener
  cancel_listener-Refuses p r reason q e no_one no_other =
      rw (is_in-nil p q.enqueue_listeners no_one, is_in-nil p q.dequeue_listeners no_other)
        (record { effects = refl; still_closed = e; next = refl })

  queue_step-Refuses :
      (f : I → Outcome O) (c : Call I) (reason : ℕ) (q : Queue I O)
      → IsOrderly q
      → q.aborted ≡ some reason
      → Refuses reason
          (numbered c q.next_promise)
          (refusal c reason q.next_promise)
          (queue_step f c q)
  unfolding queue_step push_item process_next shift_item wait_event abort_queue numbered
  queue_step-Refuses f (push item) reason q h e =
      unfold refusal in push_from-Refuses q.aborted item reason q e refl
  queue_step-Refuses f process reason q h e =
      unfold refusal in process_items-Refuses q.processing f reason q e
  queue_step-Refuses f (shift signal) reason q h e =
      shift_unless-Refuses signal q.aborted reason q e e
  queue_step-Refuses f (cancel_shift p r) reason q h e =
      let (n, e₁, e₂, e₃, e₄) = h.shut (some-ne-none q.aborted reason e) in
      unfold refusal in cancel_waiting-Refuses p r reason q e e₂
  queue_step-Refuses f (wait_for event signal) reason q h e =
      wait_unless-Refuses signal q.aborted event reason q e e
  queue_step-Refuses f (cancel_wait p r) reason q h e =
      let (n, e₁, e₂, e₃, e₄) = h.shut (some-ne-none q.aborted reason e) in
      unfold refusal in cancel_listener-Refuses p r reason q e e₃ e₄
  queue_step-Refuses f (abort_with r) reason q h e =
      unfold refusal in abort_from-Refuses q.aborted r reason q e refl

  -- An orderly queue that is aborted stays so, with its first reason: no call or turn hands anything
  -- over, and what comes back is exactly that every `shift` and `waitFor` is rejected at once, with
  -- the reason of its own signal where that is aborted, else with the queue's.
  pub run_queue-refusals :
      (f : I → Outcome O) (cs : List (Call I)) (reason : ℕ) (q : Queue I O)
      → IsOrderly q
      → q.aborted ≡ some reason
      → ((run_queue f cs q).1 ≡ refusals cs reason q.next_promise)
        × ((run_queue f cs q).0.aborted ≡ some reason)
  unfolding run_queue refusals
  run_queue-refusals f [] reason q h e = (refl, e)
  run_queue-refusals f (c ∷ cs) reason q h e =
      let s = queue_step-Refuses f c reason q h e in
      let (m, o) =
        run_queue-refusals f cs reason (queue_step f c q).0 (queue_step-IsOrderly f c q h)
          s.still_closed in
      (λ i. s.effects i ++ (m ∙ ap (refusals cs reason) s.next) i, o)
