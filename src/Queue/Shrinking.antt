-- ===== src/Queue/Shrinking.antt =====
-- What the calls that push nothing do to the number that is queued.
use web_tether.Common.{
  ℕ, ◌+◌, ◌-◌, ◌≤◌, ◌≡◌, refl, Bool, true, false, Option, none, some, List, [], ◌∷◌, ◌++◌,
  if◌then◌else◌, arith, map,
}
use web_tether.Queue.{
  Outcome, Value, Queue, Effect, settled, rejected, notified, dequeued, dropped, Call, push,
  process, shift, cancel_shift, wait_for, cancel_wait, abort_with, QueueEvent, enqueue, dequeue,
  queue_step, wait_event, abort_queue, push_from, hand_over, deliver_to, process_from,
  process_items, process_next, count_promise, shift_from, shift_unless, reason_of, shift_item,
  is_in, cancel_waiting, listen, wait_unless, cancel_listener, abort_from,
}
use web_tether.Queue.Deciphered.{is_notified}

-- A call that pushes nothing: it takes nothing in, and where it settles a wait it hands something over.
pub record Shrinking {I O : Type 0} (q : Queue I O) (r : Queue I O × List (Effect I O))
    : Type 0 where
  pub at_most : r.0.queued ≤ q.queued
  pub one_less : (p : ℕ) → is_notified p r.1 ≡ true → r.0.queued ≤ q.queued - 1

abbrev pub IsTaking : {I : Type 0} → Call I → Type 0
IsTaking (push item) = ⊥
IsTaking process = Unit
IsTaking (shift signal) = Unit
IsTaking (cancel_shift p reason) = Unit
IsTaking (wait_for event signal) = Unit
IsTaking (cancel_wait p reason) = Unit
IsTaking (abort_with reason) = Unit

quiet-rejected :
    (I O : Type 0) (p reason : ℕ) (xs : List ℕ)
    → is_notified {I = I} {O = O} p (map (λ x. rejected x reason) xs) ≡ false
unfolding is_notified
quiet-rejected I O p reason [] = refl
quiet-rejected I O p reason (x ∷ xs) = quiet-rejected I O p reason xs

module _ {I O : Type 0} where
  quiet-append :
      (p : ℕ) (es ds : List (Effect I O))
      → is_notified p es ≡ false
      → is_notified p (es ++ ds) ≡ is_notified p ds
  unfolding is_notified
  quiet-append p [] ds h = refl
  quiet-append p (settled n o ∷ es) ds h = quiet-append p es ds h
  quiet-append p (rejected n r ∷ es) ds h = quiet-append p es ds h
  quiet-append p (notified n ∷ es) ds h = ground (arith, quiet-append p es ds)
  quiet-append p (dequeued i ∷ es) ds h = quiet-append p es ds h
  quiet-append p (dropped i r ∷ es) ds h = quiet-append p es ds h

  quiet-dropped :
      (p reason : ℕ) (vs : List (Value I O))
      → is_notified {I = I} {O = O} p (map (λ v. dropped v.input reason) vs) ≡ false
  unfolding is_notified
  quiet-dropped p reason [] = refl
  quiet-dropped p reason (v ∷ vs) = quiet-dropped p reason vs

  -- Nothing happens to what is queued.
  still :
      (q r : Queue I O) (es : List (Effect I O))
      → r.queued ≡ q.queued
      → ((p : ℕ) → is_notified p es ≡ false)
      → Shrinking q (r, es)
  still q r es same quiet = record {
    at_most = omega (arith, same);
    one_less = λ p h. absurd (cc (quiet p, h));
  }

  hand_over-Shrinking : (n : ℕ) (v : Value I O) (q : Queue I O) → Shrinking q (hand_over n v q)
  unfolding hand_over
  hand_over-Shrinking n v q = record { at_most = omega arith; one_less = λ p h. omega arith }

  deliver_to-Shrinking :
      (ws : List ℕ) (v : Value I O) (q : Queue I O) → Shrinking q (deliver_to ws v q)
  unfolding deliver_to is_notified
  deliver_to-Shrinking [] v q = still q _ [] refl (λ p. refl)
  deliver_to-Shrinking (w ∷ ws) v q =
      let s : Shrinking (record q { waiting = ws }) _ =
        hand_over-Shrinking w v (record q { waiting = ws }) in
      record { at_most = s.at_most; one_less = s.one_less }

  process_from-Shrinking :
      (a : Option ℕ) (f : I → Outcome O) (item : I) (q : Queue I O)
      → Shrinking q (process_from a f item q)
  unfolding process_from is_notified
  process_from-Shrinking (some r) f item q = still q q [] refl (λ p. refl)
  process_from-Shrinking none f item q = deliver_to-Shrinking q.waiting _ q

  process_items-Shrinking :
      (items : List I) (f : I → Outcome O) (q : Queue I O) → Shrinking q (process_items items f q)
  unfolding process_items is_notified
  process_items-Shrinking [] f q = still q q [] refl (λ p. refl)
  process_items-Shrinking (item ∷ items) f q =
      let s = process_from-Shrinking q.aborted f item (record q { processing = items }) in
      record { at_most = s.at_most; one_less = s.one_less }

  shift_from-Shrinking :
      (vs : List (Value I O)) (n : ℕ) (q : Queue I O) → Shrinking q (shift_from vs n q)
  unfolding shift_from is_notified
  shift_from-Shrinking [] n q = still q _ [] refl (λ p. refl)
  shift_from-Shrinking (v ∷ vs) n q =
      let s = hand_over-Shrinking n v (record q { pending = vs }) in
      record { at_most = s.at_most; one_less = s.one_less }

  shift_unless-Shrinking : (r : Option ℕ) (q : Queue I O) → Shrinking q (shift_unless r q)
  unfolding shift_unless count_promise is_notified
  shift_unless-Shrinking (some reason) q = still q _ _ refl (λ p. refl)
  shift_unless-Shrinking none q =
      let s =
        shift_from-Shrinking q.pending q.next_promise
          (record q { next_promise = q.next_promise + 1 }) in
      record { at_most = s.at_most; one_less = s.one_less }

  pub wait_unless-Shrinking :
      (r : Option ℕ) (event : QueueEvent) (q : Queue I O) → Shrinking q (wait_unless r event q)
  unfolding wait_unless count_promise listen is_notified
  wait_unless-Shrinking (some reason) event q = still q _ _ refl (λ p. refl)
  wait_unless-Shrinking none enqueue q = still q _ _ refl (λ p. refl)
  wait_unless-Shrinking none dequeue q = still q _ _ refl (λ p. refl)

  either-Shrinking :
      (b : Bool) (q : Queue I O) (x y : Queue I O × List (Effect I O))
      → Shrinking q x
      → Shrinking q y
      → Shrinking q (if b then x else y)
  either-Shrinking true q x y hx hy = hx
  either-Shrinking false q x y hx hy = hy

  pub abort_from-Shrinking :
      (a : Option ℕ) (reason : ℕ) (q : Queue I O) → Shrinking q (abort_from a reason q)
  unfolding abort_from is_notified
  abort_from-Shrinking (some r) reason q = still q q [] refl (λ p. refl)
  abort_from-Shrinking none reason q = record {
    at_most = omega arith;
    one_less = λ p h. omega arith;
  }

  pub queue_step-Shrinking :
      (f : I → Outcome O) (c : Call I) (q : Queue I O) → IsTaking c → Shrinking q (queue_step f c q)
  unfolding queue_step process_next shift_item cancel_waiting wait_event cancel_listener abort_queue
      is_notified
  queue_step-Shrinking f (push item) q k = absurd k
  queue_step-Shrinking f process q k = process_items-Shrinking q.processing f q
  queue_step-Shrinking f (shift signal) q k = shift_unless-Shrinking (reason_of signal q.aborted) q
  queue_step-Shrinking f (cancel_shift p reason) q k =
      either-Shrinking (is_in p q.waiting) q _ _ (still q _ _ refl (λ p. refl))
        (still q q [] refl (λ p. refl))
  queue_step-Shrinking f (wait_for event signal) q k =
      wait_unless-Shrinking (reason_of signal q.aborted) event q
  queue_step-Shrinking f (cancel_wait p reason) q k =
      either-Shrinking (is_in p q.enqueue_listeners) q _ _ (still q _ _ refl (λ p. refl)) (
        either-Shrinking (is_in p q.dequeue_listeners) q _ _ (still q _ _ refl (λ p. refl))
          (still q q [] refl (λ p. refl)))
  queue_step-Shrinking f (abort_with reason) q k = abort_from-Shrinking q.aborted reason q

  pub push_from-queued :
      (a : Option ℕ) (item : I) (q : Queue I O) → (push_from a item q).0.queued ≤ q.queued + 1
  unfolding push_from
  push_from-queued (some r) item q = omega arith
  push_from-queued none item q = omega arith
