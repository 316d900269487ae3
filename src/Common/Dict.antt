-- ===== src/Common/Dict.antt =====
-- A JavaScript `Map` as an association list in insertion order, over any type of keys with `===`.
use web_tether.Common.Tests.{if◌then◌else◌, ◌==◌, ==_iff, list_beq, list_beq_sound, list_beq_refl}
use web_tether.Common.Int.{ℤ, ℤ_beq, ℤ_beq_iff}
use Prim.Native.Nat.{ℕ}
use mathlib.Core.Path.{◌≡◌, refl, subst}
use mathlib.Core.Logic.{◌↔◌}
use mathlib.Core.Bool.{Bool, true, false}
use mathlib.Core.Option.{Option, none, some}
use mathlib.Core.List.{List, [], ◌∷◌}
use native.Mathlib.Omega.{arith}

pub record Eq (A : Type 0) : Type 0 where
  pub beq : A → A → Bool
  pub beq_iff : (x y : A) → (beq x y ≡ true) ↔ (x ≡ y)

pub list_beq_iff : (a b : List ℕ) → (list_beq a b ≡ true) ↔ (a ≡ b)
list_beq_iff a b = (list_beq_sound a b, λ e. subst (λ c. list_beq a c ≡ true) e (list_beq_refl a))

instance abbrev pub nat_eq : Eq ℕ
nat_eq = record { beq = λ a b. a == b; beq_iff = ==_iff }

instance abbrev pub int_eq : Eq ℤ
int_eq = record { beq = ℤ_beq; beq_iff = ℤ_beq_iff }

instance abbrev pub text_eq : Eq (List ℕ)
text_eq = record { beq = list_beq; beq_iff = list_beq_iff }

abbrev pub Dict : Type 0 → Type 0 → Type 0
Dict K V = List (K × V)

module _ {K : Type 0} ⦃e : Eq K⦄ where
  unfoldable pub contains : K → List K → Bool
  contains k [] = false
  contains k (j ∷ ks) = if e.beq j k then true else contains k ks

  pub beq_refl : (k : K) → e.beq k k ≡ true
  beq_refl k = (e.beq_iff k k).1 refl

module _ {K V : Type 0} ⦃e : Eq K⦄ where
  unfoldable pub get : K → Dict K V → Option V
  get k [] = none
  get k ((j, v) ∷ m) = if e.beq j k then some v else get k m

  unfoldable pub set : K → V → Dict K V → Dict K V
  set k v [] = (k, v) ∷ []
  set k v ((j, w) ∷ m) = if e.beq j k then (k, v) ∷ m else (j, w) ∷ set k v m

  -- Keys are unique in a `Map`, so that removing every entry of the key removes the one there is.
  unfoldable pub delete : K → Dict K V → Dict K V
  delete k [] = []
  delete k ((j, w) ∷ m) = if e.beq j k then delete k m else (j, w) ∷ delete k m

  unfoldable pub has : K → Dict K V → Bool
  unfolding get
  has k m = elim (get k m) [ none ↦ false | some _ ↦ true ]

  unfoldable pub keys_where : (V → Bool) → Dict K V → List K
  keys_where p [] = []
  keys_where p ((j, w) ∷ m) = if p w then j ∷ keys_where p m else keys_where p m

  unfoldable pub delete_all : List K → Dict K V → Dict K V
  delete_all [] m = m
  delete_all (k ∷ ks) m = delete_all ks (delete k m)

  -- No key is listed twice.
  abbrev pub IsDistinct : Dict K V → Type 0
  IsDistinct [] = Unit
  IsDistinct ((k, _) ∷ m) = (get k m ≡ none) × IsDistinct m

  pub get-set :
      (j k : K) (v : V) (m : Dict K V) → get j (set k v m) ≡ (if e.beq k j then some v else get j m)
  unfolding get set
  get-set j k v [] = refl
  get-set j k v ((i, w) ∷ m) =
      ground (arith, e.beq_iff i k, e.beq_iff i j, e.beq_iff k j, get-set j k v m)

  pub get-delete :
      (j k : K) (m : Dict K V) → get j (delete k m) ≡ (if e.beq k j then none else get j m)
  unfolding get delete
  get-delete j k [] = ground arith
  get-delete j k ((i, w) ∷ m) =
      ground (arith, e.beq_iff i k, e.beq_iff i j, e.beq_iff k j, get-delete j k m)

  pub get-delete_all :
      (j : K) (ks : List K) (m : Dict K V)
      → get j (delete_all ks m) ≡ (if contains j ks then none else get j m)
  unfolding delete_all contains
  get-delete_all j [] m = refl
  get-delete_all j (k ∷ ks) m = ground (arith, get-delete_all j ks (delete k m), get-delete j k m)

  pub contains-keys_where :
      (p : V → Bool) (j : K) (v : V) (m : Dict K V)
      → get j m ≡ some v
      → p v ≡ true
      → contains j (keys_where p m) ≡ true
  unfolding get contains keys_where
  contains-keys_where p j v [] g h = cc
  contains-keys_where p j v ((i, w) ∷ m) g h =
      ground (arith, contains-keys_where p j v m, e.beq_iff i j)

  contains-keys_where-none :
      (p : V → Bool) (j : K) (m : Dict K V) → get j m ≡ none → contains j (keys_where p m) ≡ false
  unfolding get contains keys_where
  contains-keys_where-none p j [] g = refl
  contains-keys_where-none p j ((i, w) ∷ m) g = ground (arith, contains-keys_where-none p j m)

  pub contains-keys_where-false :
      (p : V → Bool) (j : K) (v : V) (m : Dict K V)
      → IsDistinct m
      → get j m ≡ some v
      → p v ≡ false
      → contains j (keys_where p m) ≡ false
  unfolding get contains keys_where
  contains-keys_where-false p j v [] d g h = cc
  contains-keys_where-false p j v ((i, w) ∷ m) d g h =
      ground (
        arith,
        contains-keys_where-false p j v m d.1,
        contains-keys_where-none p j m,
        e.beq_iff i j,
      )

  pub set-IsDistinct : (k : K) (v : V) (m : Dict K V) → IsDistinct m → IsDistinct (set k v m)
  unfolding set get
  set-IsDistinct k v [] d = (refl, tt)
  set-IsDistinct k v ((i, w) ∷ m) d =
      ground (arith, set-IsDistinct k v m d.1, get-set i k v m, e.beq_iff i k, e.beq_iff k i)

  pub delete-IsDistinct : (k : K) (m : Dict K V) → IsDistinct m → IsDistinct (delete k m)
  unfolding delete get
  delete-IsDistinct k [] d = tt
  delete-IsDistinct k ((i, w) ∷ m) d = ground (arith, delete-IsDistinct k m d.1, get-delete i k m)

  pub delete_all-IsDistinct :
      (ks : List K) (m : Dict K V) → IsDistinct m → IsDistinct (delete_all ks m)
  unfolding delete_all
  delete_all-IsDistinct [] m d = d
  delete_all-IsDistinct (k ∷ ks) m d =
      delete_all-IsDistinct ks (delete k m) (delete-IsDistinct k m d)
