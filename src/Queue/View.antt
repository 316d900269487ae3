-- ===== src/Queue/View.antt =====
-- The queue against its abstract view, call by call: a first-in first-out list of outcomes, or
-- nothing once it is aborted.
use web_tether.Common.{
  ℕ, ◌+◌, ◌≡◌, ◌⊎◌, inl, inr, refl, sym, ap, subst, ◌∙◌, Bool, true, false, Option, none, some,
  List, [], ◌∷◌, ◌++◌, map, if◌then◌else◌, append_assoc,
}
use mathlib.Core.List.{map-append}
use web_tether.Queue.{
  Outcome, Value, Queue, Effect, settled, rejected, notified, dequeued, dropped, QueueEvent,
  enqueue, dequeue, Call, push, process, shift, cancel_shift, wait_for, cancel_wait, abort_with,
  is_in, abort_from, push_from, hand_over, deliver_to, process_from, process_items, count_promise,
  shift_from, shift_unless, cancel_waiting, listen, wait_unless, cancel_listener, notify_all,
}
use web_tether.Queue.Effects.{outcome_of, collect, delivered, collect-append, collect-map}

-- The abstract queue: `none` is closed. A move adds and removes outcomes.
pub data Move {O : Type 0} (s : Option (List (Outcome O))) (added removed : List (Outcome O))
    (t : Option (List (Outcome O))) : Type 0 where
  puts :
      (x : Outcome O) (xs : List (Outcome O))
      → s ≡ some xs
      → added ≡ x ∷ []
      → removed ≡ []
      → t ≡ some (xs ++ (x ∷ []))
      → Move s added removed t
  takes :
      (x : Outcome O) (xs : List (Outcome O))
      → s ≡ some (x ∷ xs)
      → added ≡ []
      → removed ≡ x ∷ []
      → t ≡ some xs
      → Move s added removed t
  stays : added ≡ [] → removed ≡ [] → t ≡ s → Move s added removed t
  closes : added ≡ [] → removed ≡ [] → t ≡ none → Move s added removed t
  refuses : s ≡ none → removed ≡ [] → t ≡ none → Move s added removed t

abbrev pub view_from : {O : Type 0} → Option ℕ → List (Outcome O) → Option (List (Outcome O))
view_from none xs = some xs
view_from (some reason) xs = none

module _ {I O : Type 0} where
  -- What the queue still has to hand over.
  unfoldable pub contents : (I → Outcome O) → Queue I O → List (Outcome O)
  contents f q = map (λ v. v.outcome) q.pending ++ map f q.processing

  unfoldable pub view : (I → Outcome O) → Queue I O → Option (List (Outcome O))
  view f q = view_from q.aborted (contents f q)

  -- What a call adds.
  unfoldable pub added : (I → Outcome O) → Call I → List (Outcome O)
  added f (push item) = f item ∷ []
  added f process = []
  added f (shift signal) = []
  added f (cancel_shift p reason) = []
  added f (wait_for event signal) = []
  added f (cancel_wait p reason) = []
  added f (abort_with reason) = []

  pub open_view :
      (f : I → Outcome O) (q : Queue I O) → q.aborted ≡ none → view f q ≡ some (contents f q)
  unfolding view
  open_view f q e = ap (λ a. view_from a (contents f q)) e

  closed_view : (f : I → Outcome O) (q : Queue I O) (r : ℕ) → q.aborted ≡ some r → view f q ≡ none
  unfolding view
  closed_view f q r e = ap (λ a. view_from a (contents f q)) e

  same_view :
      (f : I → Outcome O) (q r : Queue I O)
      → r.aborted ≡ q.aborted
      → contents f r ≡ contents f q
      → view f r ≡ view f q
  unfolding view
  same_view f q r e c = λ i. view_from (e i) (c i)

  pub push_from-Move :
      (a : Option ℕ) (f : I → Outcome O) (item : I) (q : Queue I O)
      → q.aborted ≡ a
      → let r = push_from a item q in
        Move (view f q) (added f (push item)) (delivered r.1) (view f r.0)
  unfolding push_from added collect
  push_from-Move (some r) f item q e = refuses (closed_view f q r e) refl (closed_view f q r e)
  push_from-Move none f item q e =
      puts (f item) (contents f q) (open_view f q e) refl
        (collect-map outcome_of notified (λ p. refl) q.enqueue_listeners)
        (open_view f _ e ∙ ap some (unfold contents in rw (map-append, append_assoc) refl))

  hand_over-delivered :
      (p : ℕ) (v : Value I O) (q : Queue I O) → delivered (hand_over p v q).1 ≡ v.outcome ∷ []
  unfolding hand_over collect
  hand_over-delivered p v q =
      rw
        (
          collect-append outcome_of (notify_all {I = I} {O = O} q.dequeue_listeners)
              (dequeued v.input ∷ settled p v.outcome ∷ []),
          collect-map {B = ℕ} outcome_of notified (λ x. refl) q.dequeue_listeners,
        )
        refl

  pub deliver_to-Move :
      (waiting : List ℕ) (f : I → Outcome O) (item : I) (items : List I) (q : Queue I O)
      → q.aborted ≡ none
      → q.processing ≡ item ∷ items
      → q.waiting ≡ waiting
      → (q.pending ≡ []) ⊎ (q.waiting ≡ [])
      → let r =
          deliver_to waiting
            (record { input = item; outcome = f item })
            (record q { processing = items }) in
        Move (view f q) [] (delivered r.1) (view f r.0)
  unfolding deliver_to collect
  deliver_to-Move [] f item items q e front back one =
      stays refl refl
        (same_view f q _ refl (unfold contents in rw (front, map-append, append_assoc) refl))
  deliver_to-Move (p ∷ ps) f item items q e front back (inr no_one) = absurd (cc)
  deliver_to-Move (p ∷ ps) f item items q e front back (inl no_value) =
      takes (f item) (map f items)
        (open_view f q e ∙ ap some (unfold contents in rw (front, no_value) refl)) refl
        (hand_over-delivered p (record { input = item; outcome = f item })
          (record q { processing = items; waiting = ps }))
        (unfold hand_over in open_view f _ e ∙ ap some (unfold contents in rw no_value refl))

  pub process_from-Move :
      (a : Option ℕ) (f : I → Outcome O) (item : I) (items : List I) (q : Queue I O)
      → q.aborted ≡ a
      → q.processing ≡ item ∷ items
      → (q.pending ≡ []) ⊎ (q.waiting ≡ [])
      → let r = process_from a f item (record q { processing = items }) in
        Move (view f q) [] (delivered r.1) (view f r.0)
  unfolding process_from collect
  process_from-Move (some r) f item items q e front one =
      stays refl refl (closed_view f _ r e ∙ sym (closed_view f q r e))
  process_from-Move none f item items q e front one =
      deliver_to-Move q.waiting f item items q e front refl one

  pub shift_from-Move :
      (pending : List (Value I O)) (f : I → Outcome O) (p : ℕ) (q : Queue I O)
      → q.pending ≡ pending
      → q.aborted ≡ none
      → let r = shift_from pending p q in Move (view f q) [] (delivered r.1) (view f r.0)
  unfolding shift_from collect
  shift_from-Move [] f p q front e =
      stays refl refl (same_view f q _ refl (unfold contents in refl))
  shift_from-Move (v ∷ pending) f p q front e =
      takes v.outcome (map (λ v. v.outcome) pending ++ map f q.processing)
        (open_view f q e ∙ ap some (unfold contents in rw front refl)) refl
        (hand_over-delivered p v (record q { pending = pending }))
        (unfold hand_over in open_view f _ e ∙ ap some (unfold contents in refl))

  pub shift_unless-Move :
      (r : Option ℕ) (f : I → Outcome O) (q : Queue I O)
      → (r ≡ none → q.aborted ≡ none)
      → let s = shift_unless r q in Move (view f q) [] (delivered s.1) (view f s.0)
  unfolding shift_unless count_promise collect
  shift_unless-Move (some reason) f q e =
      stays refl refl (same_view f q _ refl (unfold contents in refl))
  shift_unless-Move none f q e =
      let counted : view f (record q { next_promise = q.next_promise + 1 }) ≡ view f q =
        same_view f q _ refl (unfold contents in refl) in
      subst
        (λ v.
          let s =
            shift_from q.pending q.next_promise (record q { next_promise = q.next_promise + 1 }) in
          Move v [] (delivered s.1) (view f s.0))
        counted (shift_from-Move q.pending f q.next_promise _ refl (e refl))

  pub wait_unless-Move :
      (r : Option ℕ) (event : QueueEvent) (f : I → Outcome O) (q : Queue I O)
      → let s = wait_unless r event q in Move (view f q) [] (delivered s.1) (view f s.0)
  unfolding wait_unless listen count_promise collect
  wait_unless-Move (some reason) event f q =
      stays refl refl (same_view f q _ refl (unfold contents in refl))
  wait_unless-Move none enqueue f q =
      stays refl refl (same_view f q _ refl (unfold contents in refl))
  wait_unless-Move none dequeue f q =
      stays refl refl (same_view f q _ refl (unfold contents in refl))

  pub either-Move :
      (b : Bool) (f : I → Outcome O) (q : Queue I O) (x y : Queue I O × List (Effect I O))
      → (x.0.aborted ≡ q.aborted) × (contents f x.0 ≡ contents f q) × (delivered x.1 ≡ [])
      → Move (view f q) [] (delivered y.1) (view f y.0)
      → let s = if b then x else y in Move (view f q) [] (delivered s.1) (view f s.0)
  either-Move true f q x y (e, c, d) m = stays refl d (same_view f q x.0 e c)
  either-Move false f q x y h m = m

  pub cancel_waiting-Move :
      (p reason : ℕ) (f : I → Outcome O) (q : Queue I O)
      → let s = cancel_waiting p reason q in Move (view f q) [] (delivered s.1) (view f s.0)
  unfolding cancel_waiting collect contents
  cancel_waiting-Move p reason f q =
      either-Move (is_in p q.waiting) f q _ _ (refl, refl, refl) (stays refl refl refl)

  pub cancel_listener-Move :
      (p reason : ℕ) (f : I → Outcome O) (q : Queue I O)
      → let s = cancel_listener p reason q in Move (view f q) [] (delivered s.1) (view f s.0)
  unfolding cancel_listener collect contents
  cancel_listener-Move p reason f q =
      either-Move (is_in p q.enqueue_listeners) f q _ _ (refl, refl, refl)
        (either-Move (is_in p q.dequeue_listeners) f q _ _ (refl, refl, refl)
          (stays refl refl refl))

  pub abort_from-Move :
      (a : Option ℕ) (reason : ℕ) (f : I → Outcome O) (q : Queue I O)
      → q.aborted ≡ a
      → let s = abort_from a reason q in Move (view f q) [] (delivered s.1) (view f s.0)
  unfolding abort_from collect
  abort_from-Move (some r) reason f q e = stays refl refl refl
  abort_from-Move none reason f q e =
      closes refl
        (rw
          (
            collect-append,
            collect-append,
            collect-append,
            collect-map {B = Value I O} outcome_of (λ v. dropped v.input reason) (λ v. refl)
                q.pending,
            collect-map {B = ℕ} outcome_of (λ p. rejected p reason) (λ p. refl) q.waiting,
            collect-map {B = ℕ} outcome_of (λ p. rejected p reason) (λ p. refl) q.enqueue_listeners,
            collect-map {B = ℕ} outcome_of (λ p. rejected p reason) (λ p. refl) q.dequeue_listeners,
          )
          refl)
        (closed_view f _ reason refl)

  pub process_items-Move :
      (items : List I) (f : I → Outcome O) (q : Queue I O)
      → q.processing ≡ items
      → (q.pending ≡ []) ⊎ (q.waiting ≡ [])
      → let s = process_items items f q in Move (view f q) [] (delivered s.1) (view f s.0)
  unfolding process_items collect
  process_items-Move [] f q front one = stays refl refl refl
  process_items-Move (item ∷ items) f q front one =
      process_from-Move q.aborted f item items q refl front one
