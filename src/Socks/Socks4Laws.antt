-- ===== src/Socks/Socks4Laws.antt =====
-- src/proxy/socks4.handler.ts: what a stream must hold for the handler to dial when users are
-- validated.
use web_tether.Common.{
  ℕ, ◌-◌, ◌≡◌, refl, inl, inr, Option, some, [], ◌∷◌, ◌++◌, ◌==◌, arith, Bool-cases, Option-cases,
  get_or, length, length-append, take-append_length,
}
use web_tether.SafeBuffer.{Bytes}
use web_tether.Socks.{Script, Tunnel}
use web_tether.Socks.Gate.{SilentOr, at_finish, at_raise, at_send, at_ask_size, at_ask_until}
use web_tether.Socks.Text.{Text}
use web_tether.Socks.Socks4.{
  UserValidation, enabled, judged, authenticate, handle_socks4, without_last,
}

-- A stream that begins with a connect request whose user identifier the validation accepts.
pub record IsUser (validate : Text → Option UserValidation) (decode : Bytes → Text) (stream : Bytes)
    : Type 0 where
  pub head : Bytes
  pub user : Bytes
  pub more : Bytes
  pub starts : stream ≡ head ++ (user ++ (0 ∷ more))
  pub eight : length head ≡ 8
  pub connects : (get_or head 0 0 ≡ 4) × (get_or head 1 0 ≡ 1)
  pub accepted : validate (decode user) ≡ some UserValidation.valid

without_last-append : (b : Bytes) (z : ℕ) → without_last (b ++ (z ∷ [])) ≡ b
without_last-append b z =
    let n : length (b ++ (z ∷ [])) - 1 ≡ length b = rw (length-append b (z ∷ [])) (omega arith) in
    rw (n, take-append_length b (z ∷ [])) refl

module _ (validate : Text → Option UserValidation) (decode : Bytes → Text) (tunnel : Tunnel)
    (stream : Bytes) where
  unfoldable pub UserGuarded : Script → Bytes → Type 0
  UserGuarded s rest = SilentOr tunnel (IsUser validate decode stream) s rest

  judged-Guarded :
      (user rest : Bytes) (next : Script)
      → (validate (decode user) ≡ some UserValidation.valid → IsUser validate decode stream)
      → UserGuarded (judged (validate (decode user)) next) rest
  unfolding UserGuarded judged
  judged-Guarded user rest next h = elim (Option-cases (validate (decode user))) [
    | inl e ↦ rw e (at_raise tunnel _ rest)
    | inr (UserValidation.valid, e) ↦ inr (h e)
    | inr (UserValidation.no_provider, e) ↦
        rw e (at_send tunnel _ _ _ rest (at_finish tunnel _ rest))
    | inr (UserValidation.no_match, e) ↦ rw e (at_send tunnel _ _ _ rest (at_finish tunnel _ rest))
  ]

  pub handle_socks4-Guarded : UserGuarded (handle_socks4 (enabled validate) decode) stream
  unfolding UserGuarded handle_socks4 authenticate
  handle_socks4-Guarded = at_ask_size tunnel _ _ 8 _ stream (λ head rest1 e1 l1.
      elim (Bool-cases (get_or head 0 0 == 4)) [
        | inr v ↦ rw v (at_finish tunnel _ rest1)
        | inl v ↦ elim (Bool-cases (get_or head 1 0 == 1)) [
          | inr c ↦ rw (v, c) (at_send tunnel _ _ _ rest1 (at_finish tunnel _ rest1))
          | inl c ↦
              rw (v, c)
                (at_ask_until tunnel _ _ 0 _ rest1 (λ user rest2 e2.
                  rw (without_last-append user 0) (
                    judged-Guarded user rest2 _ (λ accepted. record {
                      head = head;
                      user = user;
                      more = rest2;
                      starts = rw (e1, e2) refl;
                      eight = l1;
                      connects = (ground (arith, v), ground (arith, c));
                      accepted = accepted;
                    }))))
        ]
      ])
