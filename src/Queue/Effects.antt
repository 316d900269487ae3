-- ===== src/Queue/Effects.antt =====
-- What the effects of a queue hand over: the outcomes, and the promises that get them.
use web_tether.Common.{ℕ, ◌≡◌, refl, List, [], ◌∷◌, ◌++◌, map, append_assoc}
use web_tether.Queue.{Outcome, Effect, settled, rejected, notified, dequeued, dropped}

abbrev pub outcome_of : {I O : Type 0} → Effect I O → List (Outcome O)
outcome_of (settled p o) = o ∷ []
outcome_of (rejected p reason) = []
outcome_of (notified p) = []
outcome_of (dequeued i) = []
outcome_of (dropped i reason) = []

abbrev pub promise_of : {I O : Type 0} → Effect I O → List ℕ
promise_of (settled p o) = p ∷ []
promise_of (rejected p reason) = []
promise_of (notified p) = []
promise_of (dequeued i) = []
promise_of (dropped i reason) = []

unfoldable pub collect : {E A : Type 0} → (E → List A) → List E → List A
collect g [] = []
collect g (e ∷ es) = g e ++ collect g es

-- The outcomes that are handed to promises, and these promises, in order.
abbrev pub delivered : {I O : Type 0} → List (Effect I O) → List (Outcome O)
delivered = collect outcome_of

abbrev pub served : {I O : Type 0} → List (Effect I O) → List ℕ
served = collect promise_of

module _ {E A : Type 0} where
  pub collect-append :
      (g : E → List A) (es ds : List E) → collect g (es ++ ds) ≡ collect g es ++ collect g ds
  unfolding collect
  collect-append g [] ds = refl
  collect-append g (e ∷ es) ds = rw (collect-append g es ds, append_assoc) refl

  pub collect-map :
      {B : Type 0} (g : E → List A) (h : B → E)
      → ((x : B) → g (h x) ≡ [])
      → (xs : List B) → collect g (map h xs) ≡ []
  unfolding collect
  collect-map g h none_of [] = refl
  collect-map g h none_of (x ∷ xs) = rw (none_of x, collect-map g h none_of xs) refl
