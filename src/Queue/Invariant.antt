-- ===== src/Queue/Invariant.antt =====
-- What the queue's fields say of each other.
use web_tether.Common.{
  ℕ, suc, ◌+◌, ◌≡◌, ◌≢◌, ◌⊎◌, inl, inr, refl, ap, ◌∙◌, arith, Bool, true, false, Option, none, some,
  List, [], ◌∷◌, length, length-append, if◌then◌else◌,
}
use web_tether.Queue.{
  Outcome, Value, Queue, Effect, QueueEvent, enqueue, dequeue, Call, push, process, shift,
  cancel_shift, wait_for, cancel_wait, abort_with, remove, is_in, new_queue, abort_from,
  abort_queue, push_from, push_item, hand_over, deliver_to, process_from, process_items,
  process_next, count_promise, shift_from, shift_unless, reason_of, shift_item, cancel_waiting,
  listen, wait_unless, wait_event, cancel_listener, queue_step, run_queue,
}

pub remove-nil : (p : ℕ) (xs : List ℕ) → xs ≡ [] → remove p xs ≡ []
unfolding remove
remove-nil p [] e = refl
remove-nil p (x ∷ xs) e = absurd (cc)

pub reason_of-none : (signal aborted : Option ℕ) → reason_of signal aborted ≡ none → aborted ≡ none
reason_of-none (some reason) aborted e = absurd (cc)
reason_of-none none aborted e = e

module _ {I O : Type 0} where
  -- Nobody waits while a value is pending; `queued` counts the items that are pushed and not handed
  -- over; and an aborted queue holds and owes nothing.
  pub record IsOrderly (q : Queue I O) : Type 0 where
    pub exclusive : (q.pending ≡ []) ⊎ (q.waiting ≡ [])
    pub counted : q.aborted ≡ none → q.queued ≡ length q.pending + length q.processing
    pub shut :
        q.aborted ≢ none
        → (q.queued ≡ 0)
          × (q.pending ≡ [])
          × (q.waiting ≡ [])
          × (q.enqueue_listeners ≡ [])
          × (q.dequeue_listeners ≡ [])

  pub new_queue-IsOrderly : IsOrderly new_queue
  unfolding new_queue
  new_queue-IsOrderly = record {
    exclusive = inl refl;
    counted = λ e. refl;
    shut = λ h. absurd (h refl);
  }

  abort_from-IsOrderly :
      (a : Option ℕ) (reason : ℕ) (q : Queue I O)
      → q.aborted ≡ a
      → IsOrderly q
      → IsOrderly (abort_from a reason q).0
  unfolding abort_from
  abort_from-IsOrderly (some r) reason q e h = h
  abort_from-IsOrderly none reason q e h = record {
    exclusive = inl refl;
    counted = λ f. absurd (cc);
    shut = λ f. (refl, refl, refl, refl, refl);
  }

  push_from-IsOrderly :
      (a : Option ℕ) (item : I) (q : Queue I O)
      → q.aborted ≡ a
      → IsOrderly q
      → IsOrderly (push_from a item q).0
  unfolding push_from
  push_from-IsOrderly (some r) item q e h = h
  push_from-IsOrderly none item q e h = record {
    exclusive = h.exclusive;
    counted = λ f. omega (arith, h.counted e, length-append q.processing (item ∷ []));
    shut = λ f. absurd (f e);
  }

  -- `q` is orderly with the item in front of it.
  deliver_to-IsOrderly :
      (waiting : List ℕ) (v : Value I O) (q : Queue I O)
      → q.waiting ≡ waiting
      → q.aborted ≡ none
      → (q.pending ≡ []) ⊎ (q.waiting ≡ [])
      → q.queued ≡ length q.pending + suc (length q.processing)
      → IsOrderly (deliver_to waiting v q).0
  unfolding deliver_to hand_over
  deliver_to-IsOrderly [] v q none_waits open_q one n = record {
    exclusive = inr none_waits;
    counted = λ f. omega (arith, n, length-append q.pending (v ∷ []));
    shut = λ f. absurd (f open_q);
  }
  deliver_to-IsOrderly (p ∷ ps) v q some_waits open_q (inr e) n = absurd (cc)
  deliver_to-IsOrderly (p ∷ ps) v q some_waits open_q (inl e) n = record {
    exclusive = inl e;
    counted = λ f. omega (arith, n);
    shut = λ f. absurd (f open_q);
  }

  process_from-IsOrderly :
      (a : Option ℕ) (f : I → Outcome O) (item : I) (items : List I) (q : Queue I O)
      → q.aborted ≡ a
      → q.processing ≡ item ∷ items
      → IsOrderly q
      → IsOrderly (process_from a f item (record q { processing = items })).0
  unfolding process_from
  process_from-IsOrderly (some r) f item items q e front h = record {
    exclusive = h.exclusive;
    counted = λ g. absurd (cc);
    shut = h.shut;
  }
  process_from-IsOrderly none f item items q e front h =
      deliver_to-IsOrderly q.waiting _ _ refl e h.exclusive
        (h.counted e ∙ ap (λ l. length q.pending + length l) front)

  process_items-IsOrderly :
      (items : List I) (f : I → Outcome O) (q : Queue I O)
      → q.processing ≡ items
      → IsOrderly q
      → IsOrderly (process_items items f q).0
  unfolding process_items
  process_items-IsOrderly [] f q front h = h
  process_items-IsOrderly (item ∷ items) f q front h =
      process_from-IsOrderly q.aborted f item items q refl front h

  shift_from-IsOrderly :
      (pending : List (Value I O)) (p : ℕ) (q : Queue I O)
      → q.pending ≡ pending
      → q.aborted ≡ none
      → IsOrderly q
      → IsOrderly (shift_from pending p q).0
  unfolding shift_from hand_over
  shift_from-IsOrderly [] p q front open_q h = record {
    exclusive = inl front;
    counted = h.counted;
    shut = λ f. absurd (f open_q);
  }
  shift_from-IsOrderly (v ∷ pending) p q front open_q h = record {
    exclusive = elim h.exclusive [ inl e ↦ absurd (cc) | inr e ↦ inr e ];
    counted = λ f. omega (arith, h.counted open_q, ap length front);
    shut = λ f. absurd (f open_q);
  }

  count_promise-IsOrderly : (q : Queue I O) → IsOrderly q → IsOrderly (count_promise q)
  unfolding count_promise
  count_promise-IsOrderly q h = record {
    exclusive = h.exclusive;
    counted = h.counted;
    shut = h.shut;
  }

  shift_unless-IsOrderly :
      (r : Option ℕ) (q : Queue I O)
      → (r ≡ none → q.aborted ≡ none)
      → IsOrderly q
      → IsOrderly (shift_unless r q).0
  unfolding shift_unless
  shift_unless-IsOrderly (some reason) q none_r h = count_promise-IsOrderly q h
  shift_unless-IsOrderly none q none_r h =
      unfold count_promise in
      shift_from-IsOrderly q.pending q.next_promise (count_promise q) refl (none_r refl)
        (count_promise-IsOrderly q h)

  either-IsOrderly :
      (b : Bool) (x y : Queue I O × List (Effect I O))
      → IsOrderly x.0
      → IsOrderly y.0
      → IsOrderly (if b then x else y).0
  either-IsOrderly true x y hx hy = hx
  either-IsOrderly false x y hx hy = hy

  cancel_waiting-IsOrderly :
      (p reason : ℕ) (q : Queue I O) → IsOrderly q → IsOrderly (cancel_waiting p reason q).0
  unfolding cancel_waiting
  cancel_waiting-IsOrderly p reason q h =
      either-IsOrderly (is_in p q.waiting) _ _
        (record {
          exclusive = elim h.exclusive [ inl e ↦ inl e | inr e ↦ inr (remove-nil p q.waiting e) ];
          counted = h.counted;
          shut =
              λ f. let (n, e₁, e₂, e₃, e₄) = h.shut f in (n, e₁, remove-nil p q.waiting e₂, e₃, e₄);
        })
        h

  wait_unless-IsOrderly :
      (r : Option ℕ) (event : QueueEvent) (q : Queue I O)
      → (r ≡ none → q.aborted ≡ none)
      → IsOrderly q
      → IsOrderly (wait_unless r event q).0
  unfolding wait_unless listen count_promise
  wait_unless-IsOrderly (some reason) event q none_r h = count_promise-IsOrderly q h
  wait_unless-IsOrderly none enqueue q none_r h = record {
    exclusive = h.exclusive;
    counted = h.counted;
    shut = λ f. absurd (f (none_r refl));
  }
  wait_unless-IsOrderly none dequeue q none_r h = record {
    exclusive = h.exclusive;
    counted = h.counted;
    shut = λ f. absurd (f (none_r refl));
  }

  cancel_listener-IsOrderly :
      (p reason : ℕ) (q : Queue I O) → IsOrderly q → IsOrderly (cancel_listener p reason q).0
  unfolding cancel_listener
  cancel_listener-IsOrderly p reason q h =
      either-IsOrderly (is_in p q.enqueue_listeners) _ _
        (record {
          exclusive = h.exclusive;
          counted = h.counted;
          shut = λ f. let (n, e₁, e₂, e₃, e₄) = h.shut f in (n, e₁, e₂, remove-nil p _ e₃, e₄);
        })
        (either-IsOrderly (is_in p q.dequeue_listeners) _ _
          (record {
            exclusive = h.exclusive;
            counted = h.counted;
            shut = λ f. let (n, e₁, e₂, e₃, e₄) = h.shut f in (n, e₁, e₂, e₃, remove-nil p _ e₄);
          })
          h)

  pub queue_step-IsOrderly :
      (f : I → Outcome O) (c : Call I) (q : Queue I O)
      → IsOrderly q
      → IsOrderly (queue_step f c q).0
  unfolding queue_step push_item process_next shift_item wait_event abort_queue
  queue_step-IsOrderly f (push item) q h = push_from-IsOrderly q.aborted item q refl h
  queue_step-IsOrderly f process q h = process_items-IsOrderly q.processing f q refl h
  queue_step-IsOrderly f (shift signal) q h =
      shift_unless-IsOrderly (reason_of signal q.aborted) q (reason_of-none signal q.aborted) h
  queue_step-IsOrderly f (cancel_shift p reason) q h = cancel_waiting-IsOrderly p reason q h
  queue_step-IsOrderly f (wait_for event signal) q h =
      wait_unless-IsOrderly (reason_of signal q.aborted) event q (reason_of-none signal q.aborted) h
  queue_step-IsOrderly f (cancel_wait p reason) q h = cancel_listener-IsOrderly p reason q h
  queue_step-IsOrderly f (abort_with reason) q h = abort_from-IsOrderly q.aborted reason q refl h

  -- A queue that is orderly, as a new one is, stays so under any sequence of calls and turns: nobody
  -- waits while a value is pending, `queued` counts what is pushed and not handed over, and an aborted
  -- queue holds and owes nothing.
  pub run_queue-IsOrderly :
      (f : I → Outcome O) (cs : List (Call I)) (q : Queue I O)
      → IsOrderly q
      → IsOrderly (run_queue f cs q).0
  unfolding run_queue
  run_queue-IsOrderly f [] q h = h
  run_queue-IsOrderly f (c ∷ cs) q h =
      run_queue-IsOrderly f cs (queue_step f c q).0 (queue_step-IsOrderly f c q h)
