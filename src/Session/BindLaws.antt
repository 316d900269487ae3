-- ===== src/Session/BindLaws.antt =====
-- A bind request changes the relay by one `bind` at most, and binds only what it may.
use web_tether.Common.{
  ℕ, ◌≡◌, ◌≢◌, refl, inl, inr, Bool, true, false, Option, none, some, List, [], ◌∷◌, zero, suc, ◌+◌,
  arith, Option-cases, Bool-cases, All, ◌++◌, subst, ◌==◌,
}
use web_tether.Common.Dict.{text_eq, nat_eq}
use web_tether.Common.Result.{Result, ok, err, ◌>>=◌, or_throw}
use web_tether.SafeBuffer.{Bytes, SafeReader, uint8, sized16}
use web_tether.Protocol.{RelayServiceType, service_of}
use web_tether.Relay.{Text, Relay, RelayService, RelayError, service, some_bound, bind}
use web_tether.Relay.Ends.{counter_of}
use web_tether.Relay.Invariant.{IsConsistent}
use web_tether.Relay.Steps.{Act}
use web_tether.Session.{Context, Session, Next, disabled, enabled}
use web_tether.Session.Bind.{
  Scan, no_services, place_service, check_service, scan, found_by_checks, finish_bind, bind_with,
  handle_bind,
}
use web_tether.Session.Laws.{
  Moves, IsExpected, reading-Moves, calling-Moves, refuse-Moves, service_total,
}

-- What the loop has established of the services that it has collected: each is permitted, and was
-- not bound in a relay that the loop has looked at.
abbrev pub AllPermitted : (Text → Bool) → List RelayService → Type 0
AllPermitted allowed = All (λ service. allowed service.service ≡ true)

All-snoc :
    {A : Type 0} (P : A → Type 0) (xs : List A) (x : A) → All P xs → P x → All P (xs ++ (x ∷ []))
All-snoc P [] x h p = (p, tt)
All-snoc P (y ∷ xs) x h p = (h.0, All-snoc P xs x h.1 p)

-- A result whose value, if it has one, satisfies `P`.
abbrev pub Yields : {A : Type 0} → (A → Type 0) → Result RelayError A → Type 0
Yields {A} P m = (a : A) → m ≡ ok a → P a

-- A result whose error, if it has one, is expected of a packet.
abbrev pub Expects : {A : Type 0} → Result RelayError A → Type 0
Expects m = (e : RelayError) → m ≡ err e → IsExpected (Next.throw e)

Yields-ok : {A : Type 0} (P : A → Type 0) (a : A) → P a → Yields P (ok a)
Yields-ok P a p = λ b e. subst P (cc) p

Expects-ok : {A : Type 0} (a : A) → Expects (ok a)
Expects-ok a = λ e h. absurd (cc)

Yields-bind :
    {A B : Type 0} (Q : B → Type 0) (m : Result RelayError A) (k : A → Result RelayError B)
    → ((a : A) → m ≡ ok a → Yields Q (k a))
    → Yields Q (m >>= k)
Yields-bind Q (ok a) k next = next a refl
Yields-bind Q (err e) k next = λ b p. absurd (cc)

Expects-bind :
    {A B : Type 0} (m : Result RelayError A) (k : A → Result RelayError B)
    → Expects m
    → ((a : A) → Expects (k a))
    → Expects (m >>= k)
Expects-bind (ok a) k h next = next a
Expects-bind (err e) k h next = λ e' p. h e' (cc)

err_injective :
    {A : Type 0} {e e' : RelayError} → ◌≡◌ {A = Result RelayError A} (err e) (err e') → e ≡ e'
err_injective h = cc

-- A read of the packet.
Expects-read : {A : Type 0} (o : Option A) → Expects (or_throw RelayError.buffer_too_short o)
Expects-read none = λ e h. subst (λ x. IsExpected (Next.throw x)) (err_injective h) tt
Expects-read (some a) = λ e h. absurd (cc)

place_service-AllPermitted :
    (allowed : Text → Bool) (name : Text) (t : RelayServiceType) (acc : Scan)
    (o : Option (Text × RelayServiceType))
    → allowed name ≡ true
    → AllPermitted allowed acc.services
    → AllPermitted allowed (place_service name t acc o).services
place_service-AllPermitted allowed name t acc none fine h = All-snoc _ _ _ h fine
place_service-AllPermitted allowed name t acc (some p) fine h = h

check_service-Yields :
    (allowed : Text → Bool) (view : Relay) (type : ℕ) (name : Text) (acc : Scan)
    → AllPermitted allowed acc.services
    → Yields
        (λ found. AllPermitted allowed found.services)
        (check_service allowed view type name acc)
unfolding check_service
check_service-Yields allowed view type name acc h = elim (Option-cases (service_of type)) [
  | inl unknown ↦ rw (unknown, check_service) (Yields-ok _ _ h)
  | inr (t, member) ↦
      rw (member, check_service)
        (elim (Bool-cases (allowed name)) [
          | inr refused ↦ rw refused (Yields-ok _ _ h)
          | inl fine ↦ rw fine (
              Yields-bind _ (service name view) _
                λ o there. Yields-ok _ _ (place_service-AllPermitted allowed name t acc o fine h))
        ])
]

check_service-Expects :
    (allowed : Text → Bool) (view : Relay) (type : ℕ) (name : Text) (acc : Scan)
    → IsConsistent view
    → Expects (check_service allowed view type name acc)
unfolding check_service
check_service-Expects allowed view type name acc good = elim (Option-cases (service_of type)) [
  | inl unknown ↦ rw (unknown, check_service) (Expects-ok _)
  | inr (t, member) ↦
      rw (member, check_service)
        (elim (Bool-cases (allowed name)) [
          | inr refused ↦ rw refused (Expects-ok _)
          | inl fine ↦
              let (o, there) = service_total name view good in rw (fine, there) (Expects-ok _)
        ])
]

-- Whatever relays the checks find, what the loop collects is permitted.
pub scan-Yields :
    (decode : Bytes → Text) (allowed : Text → Bool) (view : ℕ → Relay) (left i : ℕ) (r : SafeReader)
    (acc : Scan)
    → AllPermitted allowed acc.services
    → Yields (λ found. AllPermitted allowed found.services) (scan decode allowed view left i r acc)
unfolding scan
scan-Yields decode allowed view zero i r acc h = Yields-ok _ acc h
scan-Yields decode allowed view (suc left) i r acc h =
    Yields-bind _ (or_throw RelayError.buffer_too_short (uint8 false r)) _ λ (type, r₁) _.
      Yields-bind _ (or_throw RelayError.buffer_too_short (sized16 r₁)) _ λ (name, r₂) _.
        Yields-bind _ (check_service allowed (view i) type (decode name) acc) _ λ acc' e.
          scan-Yields decode allowed view left (i + 1) r₂ acc'
            (check_service-Yields allowed (view i) type (decode name) acc h acc' e)

scan-Expects :
    (decode : Bytes → Text) (allowed : Text → Bool) (view : ℕ → Relay) (left i : ℕ) (r : SafeReader)
    (acc : Scan)
    → ((j : ℕ) → IsConsistent (view j))
    → Expects (scan decode allowed view left i r acc)
unfolding scan
scan-Expects decode allowed view zero i r acc good = Expects-ok acc
scan-Expects decode allowed view (suc left) i r acc good =
    Expects-bind _ _ (Expects-read (uint8 false r)) λ (type, r₁).
      Expects-bind _ _ (Expects-read (sized16 r₁)) λ (name, r₂).
        Expects-bind _ _ (check_service-Expects allowed (view i) type (decode name) acc (good i))
          λ acc'. scan-Expects decode allowed view left (i + 1) r₂ acc' good

found_by_checks-IsConsistent :
    (count : ℕ) (now : Relay) (view : ℕ → Relay)
    → IsConsistent now
    → ((j : ℕ) → IsConsistent (view j))
    → (j : ℕ) → IsConsistent (found_by_checks count now view j)
found_by_checks-IsConsistent count now view good views j = elim (Bool-cases (j + 1 == count)) [
  | inl last ↦ rw last good
  | inr before ↦ rw before (views j)
]

module _ (ctx : Context) (s : Session) (good : IsConsistent s.relay)
    (known : counter_of ctx.socket s.relay ≢ none) where
  bind-IsExpected :
      (services : List RelayService) (e : RelayError)
      → bind ctx.socket services s.relay ≡ err e
      → IsExpected (Next.throw e)
  unfolding bind
  bind-IsExpected services e h = elim (Bool-cases (some_bound services s.relay)) [
    | inl taken ↦
        let fault : RelayError.already_bound ≡ e = ground (arith, taken) in
        subst (λ x. IsExpected (Next.throw x)) fault tt
    | inr free ↦ absurd (ground (arith, free))
  ]

  finish_bind-Moves : (found : Scan) → Moves ctx s.relay (finish_bind ctx s found)
  unfolding finish_bind
  finish_bind-Moves found = elim (Bool-cases found.invalid) [
    | inl yes₁ ↦ rw (yes₁, finish_bind) (refuse-Moves ctx s good known _ _)
    | inr no₁ ↦
        rw (no₁, finish_bind)
          (elim (Bool-cases found.unauthorized) [
            | inl yes₂ ↦ rw yes₂ (refuse-Moves ctx s good known _ _)
            | inr no₂ ↦ rw no₂ (elim (Bool-cases found.unavailable) [
              | inl yes₃ ↦ rw yes₃ (refuse-Moves ctx s good known _ _)
              | inr no₃ ↦ rw no₃ (
                  calling-Moves ctx s good known _ _ _ (bind-IsExpected found.services) λ r h.
                    record {
                      change = inr (Act.binds ctx.socket found.services known h);
                      expected = tt;
                    })
            ])
          ])
  ]

pub handle_bind-Moves :
    (ctx : Context) (view : ℕ → Relay) (r : SafeReader) (s : Session)
    → IsConsistent s.relay
    → counter_of ctx.socket s.relay ≢ none
    → ((i : ℕ) → IsConsistent (view i))
    → Moves ctx s.relay (handle_bind ctx view r s)
unfolding handle_bind
handle_bind-Moves ctx view r s good known views =
    elim ctx.bind as (λ p. Moves ctx s.relay (bind_with ctx view r s p)) [
      | disabled ↦ refuse-Moves ctx s good known _ _
      | enabled allowed ↦ elim (Bool-cases s.service_bound) [
        | inl again ↦ simp again (refuse-Moves ctx s good known _ _)
        | inr first ↦
            let s' : Session = record s { service_bound = true } in
            simp first (
              reading-Moves ctx s' good known _ _ λ count r₁.
                calling-Moves ctx s' good known _ _ _
                  (scan-Expects ctx.decode allowed (found_by_checks count s.relay view) count 0 r₁
                    no_services (found_by_checks-IsConsistent count s.relay view good views))
                  λ found h. finish_bind-Moves ctx s' good known found)
      ]
    ]
