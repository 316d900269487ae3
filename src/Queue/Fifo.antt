-- ===== src/Queue/Fifo.antt =====
-- What the queue hands over against its abstract view, over whole runs.
use web_tether.Common.{
  ◌≡◌, refl, sym, ap, ◌∙◌, Option, none, some, List, [], ◌∷◌, ◌++◌, append_assoc, append-nil,
}
use web_tether.Queue.{
  Outcome, Queue, Call, push, process, shift, cancel_shift, wait_for, cancel_wait, abort_with,
  abort_queue, push_item, process_next, reason_of, shift_item, wait_event, queue_step, run_queue,
}
use web_tether.Queue.Effects.{outcome_of, collect, delivered, collect-append}
use web_tether.Queue.Invariant.{IsOrderly, reason_of-none, queue_step-IsOrderly}
use web_tether.Queue.View.{
  Move, puts, takes, stays, closes, refuses, view, contents, added, open_view, push_from-Move,
  process_items-Move, shift_unless-Move, wait_unless-Move, cancel_waiting-Move,
  cancel_listener-Move, abort_from-Move,
}

-- Moves one after the other.
pub data Moves {O : Type 0}
    : Option (List (Outcome O))
      → List (Outcome O)
      → List (Outcome O)
      → Option (List (Outcome O))
      → Type 0 where
  done : {s : Option (List (Outcome O))} → Moves s [] [] s
  more :
      {s t u : Option (List (Outcome O))} {a r b d : List (Outcome O)}
      → Move s a r t
      → Moves t b d u
      → Moves s (a ++ b) (r ++ d) u

module _ {I O : Type 0} where
  -- Each call and each turn of an orderly queue is a move of its view, and adds and delivers what
  -- the move says.
  pub queue_step-Move :
      (f : I → Outcome O) (c : Call I) (q : Queue I O)
      → IsOrderly q
      → Move (view f q) (added f c) (delivered (queue_step f c q).1) (view f (queue_step f c q).0)
  unfolding queue_step push_item process_next shift_item wait_event abort_queue added
  queue_step-Move f (push item) q h = push_from-Move q.aborted f item q refl
  queue_step-Move f process q h = process_items-Move q.processing f q refl h.exclusive
  queue_step-Move f (shift signal) q h =
      shift_unless-Move (reason_of signal q.aborted) f q (reason_of-none signal q.aborted)
  queue_step-Move f (cancel_shift p reason) q h = cancel_waiting-Move p reason f q
  queue_step-Move f (wait_for event signal) q h =
      wait_unless-Move (reason_of signal q.aborted) event f q
  queue_step-Move f (cancel_wait p reason) q h = cancel_listener-Move p reason f q
  queue_step-Move f (abort_with reason) q h = abort_from-Move q.aborted reason f q refl

  unfoldable pub all_added : (I → Outcome O) → List (Call I) → List (Outcome O)
  all_added f [] = []
  all_added f (c ∷ cs) = added f c ++ all_added f cs

  -- Any run of an orderly queue refines the abstract queue: it is a sequence of moves of the view
  -- that adds what is pushed and removes what is handed to the promises.
  pub run_queue-Moves :
      (f : I → Outcome O) (cs : List (Call I)) (q : Queue I O)
      → IsOrderly q
      → Moves
          (view f q)
          (all_added f cs)
          (delivered (run_queue f cs q).1)
          (view f (run_queue f cs q).0)
  unfolding run_queue all_added
  run_queue-Moves f [] q h = unfold collect in done
  run_queue-Moves f (c ∷ cs) q h =
      rw (collect-append outcome_of (queue_step f c q).1 (run_queue f cs (queue_step f c q).0).1) (
        more (queue_step-Move f c q h)
          (run_queue-Moves f cs (queue_step f c q).0 (queue_step-IsOrderly f c q h)))

module _ {O : Type 0} where
  Moves-closed :
      {s t : Option (List (Outcome O))} {a r : List (Outcome O)}
      → Moves s a r t
      → s ≡ none
      → (r ≡ []) × (t ≡ none)
  Moves-closed done e = (refl, e)
  Moves-closed (more (puts x xs e₁ e₂ e₃ e₄) ms) e = absurd (cc)
  Moves-closed (more (takes x xs e₁ e₂ e₃ e₄) ms) e = absurd (cc)
  Moves-closed (more (stays e₁ e₂ e₃) ms) e =
      let (l, m) = Moves-closed ms (e₃ ∙ e) in (rw (e₂, l) refl, m)
  Moves-closed (more (closes e₁ e₂ e₃) ms) e =
      let (l, m) = Moves-closed ms e₃ in (rw (e₂, l) refl, m)
  Moves-closed (more (refuses e₁ e₂ e₃) ms) e =
      let (l, m) = Moves-closed ms e₃ in (rw (e₂, l) refl, m)

  all_kept :
      {t : Option (List (Outcome O))} {r : List (Outcome O)}
      → (xs a : List (Outcome O)) → r ≡ []
      → t ≡ none
      → (kept : List (Outcome O)) × (xs ++ a ≡ r ++ kept)
        × ((ys : List (Outcome O)) → t ≡ some ys → kept ≡ ys)
  all_kept xs a e₁ e₂ = (xs ++ a, rw e₁ refl, λ ys e'. absurd (cc))

  Moves-in_order :
      {s t : Option (List (Outcome O))} {a r : List (Outcome O)}
      → Moves s a r t
      → (xs : List (Outcome O)) → s ≡ some xs
      → (kept : List (Outcome O)) × (xs ++ a ≡ r ++ kept)
        × ((ys : List (Outcome O)) → t ≡ some ys → kept ≡ ys)
  Moves-in_order done xs e = (xs, append-nil xs, λ ys e'. cc)
  Moves-in_order (more (puts x xs' e₁ e₂ e₃ e₄) ms) xs e =
      let (kept, m, n) = Moves-in_order ms _ e₄ in
      let same : xs ≡ xs' = cc in
      (kept, rw (e₂, e₃, same) (sym (append_assoc xs' (x ∷ []) _) ∙ m), n)
  Moves-in_order (more (takes x xs' e₁ e₂ e₃ e₄) ms) xs e =
      let (kept, m, n) = Moves-in_order ms _ e₄ in
      let same : xs ≡ x ∷ xs' = cc in (kept, rw (e₂, e₃, same) (ap (λ l. x ∷ l) m), n)
  Moves-in_order (more (stays e₁ e₂ e₃) ms) xs e =
      let (kept, m, n) = Moves-in_order ms xs (e₃ ∙ e) in (kept, rw (e₁, e₂) m, n)
  Moves-in_order (more (closes e₁ e₂ e₃) ms) xs e =
      let (l, m) = Moves-closed ms e₃ in all_kept xs _ (rw (e₂, l) refl) m
  Moves-in_order (more (refuses e₁ e₂ e₃) ms) xs e = absurd (cc)

-- First in, first out: from an open orderly queue, whatever the calls and turns, the outcomes that
-- are handed to promises are, in order, the first ones of what the queue held followed by what was
-- pushed; while the queue is open, what is left is what it holds.
pub run_queue-in_order :
    {I O : Type 0} (f : I → Outcome O) (cs : List (Call I)) (q : Queue I O)
    → IsOrderly q
    → q.aborted ≡ none
    → let r = run_queue f cs q in
      (kept : List (Outcome O)) × (contents f q ++ all_added f cs ≡ delivered r.1 ++ kept)
      × (r.0.aborted ≡ none → kept ≡ contents f r.0)
run_queue-in_order f cs q h e =
    let (kept, m, n) = Moves-in_order (run_queue-Moves f cs q h) (contents f q) (open_view f q e) in
    (kept, m, λ g. n _ (open_view f _ g))
