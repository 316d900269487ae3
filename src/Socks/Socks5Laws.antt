-- ===== src/Socks/Socks5Laws.antt =====
-- src/proxy/socks5.handler.ts: what a stream must hold for the handler to dial when authentication is
-- required.
use web_tether.Common.{
  ◌≡◌, refl, ap, ◌∙◌, inl, inr, Bool, true, false, Option, some, [], ◌∷◌, ◌++◌, ◌==◌, arith,
  Bool-cases, Option-cases, get_or, length,
}
use web_tether.SafeBuffer.{Bytes}
use web_tether.Socks.{Script, Tunnel}
use web_tether.Socks.Gate.{
  SilentOr, at_finish, at_raise, at_send, at_ask_size, length-one, length-two,
}
use web_tether.Socks.Text.{Text}
use web_tether.Socks.Socks5.{
  enabled, includes, choose_method, authenticated, authentication, negotiated, handle_socks5,
}

-- A stream that begins with a greeting which offers the password, and with credentials that the
-- validation accepts.
pub record IsLogin (validate : Text → Text → Option Bool) (decode : Bytes → Text) (stream : Bytes)
    : Type 0 where
  pub methods : Bytes
  pub username : Bytes
  pub password : Bytes
  pub request_bytes : Bytes
  pub starts :
      stream
      ≡ (5 ∷ length methods ∷ methods)
        ++ ((1 ∷ length username ∷ username) ++ ((length password ∷ password) ++ request_bytes))
  pub offered : includes 2 methods ≡ true
  pub accepted : validate (decode username) (decode password) ≡ some true

credentials_of :
    (b username n password rest rest1 rest2 rest3 rest4 : Bytes)
    → rest ≡ b ++ rest1
    → length b ≡ 2
    → get_or b 0 0 ≡ 1
    → rest1 ≡ username ++ rest2
    → length username ≡ get_or b 1 0
    → rest2 ≡ n ++ rest3
    → length n ≡ 1
    → rest3 ≡ password ++ rest4
    → length password ≡ get_or n 0 0
    → rest ≡ (1 ∷ length username ∷ username) ++ ((length password ∷ password) ++ rest4)
credentials_of b username n password rest rest1 rest2 rest3 rest4 e1 l1 v e2 l2 e3 l3 e4 l4 =
    let two : b ≡ 1 ∷ length username ∷ [] = length-two b l1 ∙ rw (v, l2) refl in
    let one : n ≡ length password ∷ [] = length-one n l3 ∙ rw l4 refl in
    rw (e1, two, e2, e3, one, e4) refl

module _ (validate : Text → Text → Option Bool) (decode : Bytes → Text) (tunnel : Tunnel)
    (stream : Bytes) where
  unfoldable pub LoginGuarded : Script → Bytes → Type 0
  LoginGuarded s rest = SilentOr tunnel (IsLogin validate decode stream) s rest

  authenticated-Guarded :
      (username password rest : Bytes)
      → (validate (decode username) (decode password) ≡ some true → IsLogin validate decode stream)
      → LoginGuarded (authenticated decode (validate (decode username) (decode password))) rest
  unfolding LoginGuarded authenticated
  authenticated-Guarded username password rest login =
      elim (Option-cases (validate (decode username) (decode password))) [
        | inl e ↦ rw e (at_raise tunnel _ rest)
        | inr (true, e) ↦ inr (login e)
        | inr (false, e) ↦ rw e (at_send tunnel _ _ _ rest (at_finish tunnel _ rest))
      ]

  authentication-Guarded :
      (methods rest : Bytes)
      → stream ≡ (5 ∷ length methods ∷ methods) ++ rest
      → includes 2 methods ≡ true
      → LoginGuarded (authentication (enabled true validate) decode) rest
  unfolding LoginGuarded authentication
  authentication-Guarded methods rest so_far offered =
      at_ask_size tunnel _ _ 2 _ rest (λ b rest1 e1 l1. elim (Bool-cases (get_or b 0 0 == 1)) [
        | inl v ↦ rw v (
            at_ask_size tunnel _ _ _ _ rest1 (λ username rest2 e2 l2.
              at_ask_size tunnel _ _ 1 _ rest2 (λ n rest3 e3 l3.
                at_ask_size tunnel _ _ _ _ rest3 (λ password rest4 e4 l4.
                  authenticated-Guarded username password rest4 (λ accepted. record {
                    methods = methods;
                    username = username;
                    password = password;
                    request_bytes = rest4;
                    starts =
                        so_far
                        ∙ ap (λ l. (5 ∷ length methods ∷ methods) ++ l)
                            (credentials_of b username n password rest rest1 rest2 rest3 rest4 e1 l1
                              (ground (arith, v)) e2 l2 e3 l3 e4 l4);
                    offered = offered;
                    accepted = accepted;
                  })))))
        | inr v ↦ rw v (at_finish tunnel _ rest1)
      ])

  pub handle_socks5-Guarded : LoginGuarded (handle_socks5 (enabled true validate) decode) stream
  unfolding LoginGuarded handle_socks5 negotiated choose_method
  handle_socks5-Guarded = at_ask_size tunnel _ _ 2 _ stream (λ b rest1 e1 l1.
      elim (Bool-cases (get_or b 0 0 == 5)) [
        | inl v ↦ rw v (
            at_ask_size tunnel _ _ _ _ rest1 (λ methods rest2 e2 l2.
              at_send tunnel _ _ _ rest2 (elim (Bool-cases (includes 2 methods)) [
                | inl m ↦
                    let five : get_or b 0 0 ≡ 5 = ground (arith, v) in
                    let two : b ≡ 5 ∷ length methods ∷ [] = length-two b l1 ∙ rw (five, l2) refl in
                    rw m (authentication-Guarded methods rest2 (rw (e1, two, e2) refl) m)
                | inr m ↦ rw m (at_finish tunnel _ rest2)
              ])))
        | inr v ↦ rw v (at_finish tunnel _ rest1)
      ])
