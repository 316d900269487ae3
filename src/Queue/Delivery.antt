-- ===== src/Queue/Delivery.antt =====
-- What the queue's turns get done.
use web_tether.Common.{
  ℕ, zero, suc, ◌-◌, ◌≤◌, ◌≡◌, ◌⊎◌, inl, inr, refl, sym, ap, ◌∙◌, Option, none, some, List, [], ◌∷◌,
  ◌++◌, append-nil, arith, All, length, replicate,
}
use web_tether.Queue.{
  Outcome, Value, Queue, Effect, process, hand_over, deliver_to, process_from, process_items,
  process_next, queue_step, run_queue,
}
use web_tether.Queue.Effects.{served, delivered}
use web_tether.Queue.View.{contents, added}
use web_tether.Queue.Fifo.{all_added, run_queue-in_order}
use web_tether.Queue.Order.{IsPatient, asked, numbered, all_asked, run_queue-Serves}
use web_tether.Queue.Invariant.{IsOrderly, run_queue-IsOrderly}

nil_of_length-zero : {A : Type 0} (xs : List A) → length xs ≤ 0 → xs ≡ []
nil_of_length-zero [] h = refl
nil_of_length-zero (x ∷ xs) h = absurd (omega (arith, h))

turns-all_asked : (I : Type 0) (n p : ℕ) → all_asked {I = I} (replicate n process) p ≡ []
unfolding all_asked asked numbered
turns-all_asked I zero p = refl
turns-all_asked I (suc n) p = turns-all_asked I n p

turns-IsPatient : (I : Type 0) (n : ℕ) → All (IsPatient {I = I}) (replicate n process)
turns-IsPatient I zero = tt
turns-IsPatient I (suc n) = (tt, turns-IsPatient I n)

module _ {I O : Type 0} where
  deliver_to-processing :
      (waiting : List ℕ) (v : Value I O) (q : Queue I O)
      → (deliver_to waiting v q).0.processing ≡ q.processing
  unfolding deliver_to hand_over
  deliver_to-processing [] v q = refl
  deliver_to-processing (p ∷ ps) v q = refl

  process_from-processing :
      (a : Option ℕ) (f : I → Outcome O) (item : I) (q : Queue I O)
      → (process_from a f item q).0.processing ≡ q.processing
  unfolding process_from
  process_from-processing (some r) f item q = refl
  process_from-processing none f item q = deliver_to-processing q.waiting _ q

  process_items-processing :
      (items : List I) (f : I → Outcome O) (q : Queue I O)
      → q.processing ≡ items
      → length (process_items items f q).0.processing ≡ length items - 1
  unfolding process_items
  process_items-processing [] f q front = ap length front
  process_items-processing (item ∷ items) f q front = omega (
    arith,
    ap length (process_from-processing q.aborted f item (record q { processing = items })),
  )

  turns-processing :
      (f : I → Outcome O) (n : ℕ) (q : Queue I O)
      → length q.processing ≤ n
      → (run_queue f (replicate n process) q).0.processing ≡ []
  unfolding run_queue queue_step process_next
  turns-processing f zero q h = nil_of_length-zero q.processing h
  turns-processing f (suc n) q h =
      turns-processing f n (process_items q.processing f q).0
        (omega (arith, h, process_items-processing q.processing f q refl))

  turns-all_added : (f : I → Outcome O) (n : ℕ) → all_added f (replicate n process) ≡ []
  unfolding all_added added
  turns-all_added f zero = refl
  turns-all_added f (suc n) = turns-all_added f n

  -- No promise waits for what is there: once an open orderly queue has had a turn for each item in
  -- process, either all that it held is handed over or nobody waits any more; the outcomes that are
  -- handed over are the first ones that it held, and the promises that get them the first that waited.
  pub turns-deliver :
      (f : I → Outcome O) (n : ℕ) (q : Queue I O)
      → IsOrderly q
      → q.aborted ≡ none
      → length q.processing ≤ n
      → let r = run_queue f (replicate n process) q in
        ((contents f r.0 ≡ []) ⊎ (r.0.waiting ≡ []))
        × (contents f q ≡ delivered r.1 ++ contents f r.0)
        × (q.waiting ≡ served r.1 ++ r.0.waiting)
  turns-deliver f n q h e enough =
      let r : Queue I O × List (Effect I O) = run_queue f (replicate n process) q in
      let (kept, m, k) = run_queue-in_order f (replicate n process) q h e in
      let (s, o) = run_queue-Serves f (replicate n process) q (turns-IsPatient I n) h e in
      let after : IsOrderly r.0 = run_queue-IsOrderly f (replicate n process) q h in
      (
        elim after.exclusive [
          | inl no_value ↦
              inl (unfold contents in rw (no_value, turns-processing f n q enough) refl)
          | inr no_one ↦ inr no_one
        ],
        sym (append-nil (contents f q))
            ∙ ap (λ l. contents f q ++ l) (sym (turns-all_added f n))
            ∙ m
            ∙ ap (λ l. delivered r.1 ++ l) (k o),
        sym (append-nil q.waiting)
            ∙ ap (λ l. q.waiting ++ l) (sym (turns-all_asked I n q.next_promise))
            ∙ s,
      )
