-- ===== src/Session/ConnectLaws.antt =====
-- A connect request changes the relay by one link at most, and only if it is permitted.
use web_tether.Common.{
  ◌≡◌, ◌≢◌, inl, inr, Bool, true, none, some, not, arith, Option-cases, Bool-cases,
}
use web_tether.Common.Int.{ℤ, is_positive}
use web_tether.Common.Dict.{get, text_eq, nat_eq}
use web_tether.Common.Result.{ok, err}
use web_tether.SafeBuffer.{Bytes, SafeReader}
use web_tether.Protocol.{RelayServiceType, service_of, service_beq}
use web_tether.Relay.{Text, RelayError, BoundService, connection, link}
use web_tether.Relay.Ends.{counter_of}
use web_tether.Relay.Invariant.{IsConsistent}
use web_tether.Relay.Steps.{Act, link-IsOk}
use web_tether.Session.{Context, Session, disabled, enabled}
use web_tether.Session.Connect.{handle_connect, connect_with, connect_service, connect_found}
use web_tether.Session.Laws.{
  Moves, reading-Moves, calling-Moves, refuse-Moves, connection_never, service_never,
  service-eq-some,
}

module _ (ctx : Context) (s : Session) (good : IsConsistent s.relay)
    (known : counter_of ctx.socket s.relay ≢ none) where
  link_never :
      (name : Text) (uid : ℤ) (metadata : Bytes) (b : BoundService) (e : RelayError)
      → get name s.relay.bound_services ≡ some b
      → link ctx.encode ctx.socket name uid metadata s.relay ≡ err e
      → ⊥
  link_never name uid metadata b e bound h =
      let (x, there, linked) =
        link-IsOk ctx.encode ctx.socket name uid metadata s.relay b good known bound in
      cc (linked, h)

  connect_found-Moves :
      (encoded : Bytes) (uid : ℤ) (t : RelayServiceType) (name : Text) (r : SafeReader)
      → is_positive uid ≡ true
      → connection ctx.socket uid s.relay ≡ ok none
      → Moves ctx s.relay (connect_found ctx encoded uid t name r s)
  unfolding connect_found
  connect_found-Moves encoded uid t name r positive unused =
      calling-Moves ctx s good known _ _ _ (service_never ctx s good known name) (elim [
        | none ↦ λ e. refuse-Moves ctx s good known _ _
        | some (remote, kind) ↦ λ e. elim (Bool-cases (not (service_beq kind t))) [
          | inl differ ↦ rw differ (refuse-Moves ctx s good known _ _)
          | inr same ↦
              let (b, bound) = service-eq-some name s.relay (remote, kind) e in
              rw same (
                calling-Moves ctx s good known _ _ _
                  (λ err h. absurd (link_never name uid _ b err bound h))
                  λ result h. record {
                    change = inr (Act.links ctx.socket name uid _ result.1 positive unused h);
                    expected = tt;
                  })
        ]
      ])

  connect_service-Moves :
      (allowed : Text → Bool) (encoded : Bytes) (uid : ℤ) (r : SafeReader)
      → is_positive uid ≡ true
      → connection ctx.socket uid s.relay ≡ ok none
      → Moves ctx s.relay (connect_service ctx allowed encoded uid r s)
  unfolding connect_service
  connect_service-Moves allowed encoded uid r positive unused =
      reading-Moves ctx s good known _ _ λ type r₁. elim (Option-cases (service_of type)) [
        | inl unknown ↦ rw unknown (refuse-Moves ctx s good known _ _)
        | inr (t, member) ↦ rw member (
            reading-Moves ctx s good known _ _ λ name r₂.
              elim (Bool-cases (not (allowed (ctx.decode name)))) [
                | inl refused ↦ rw refused (refuse-Moves ctx s good known _ _)
                | inr fine ↦
                    rw fine (connect_found-Moves encoded uid t (ctx.decode name) r₂ positive unused)
              ])
      ]

  pub handle_connect-Moves : (r : SafeReader) → Moves ctx s.relay (handle_connect ctx r s)
  unfolding handle_connect
  handle_connect-Moves r = reading-Moves ctx s good known _ _ λ encoded _.
      reading-Moves ctx s good known _ _ λ uid r₁.
        elim ctx.connect as (λ p. Moves ctx s.relay (connect_with ctx encoded uid r₁ s p)) [
          | disabled ↦ refuse-Moves ctx s good known _ _
          | enabled allowed ↦ elim (Bool-cases (not (is_positive uid))) [
            | inl bad ↦ rw bad (refuse-Moves ctx s good known _ _)
            | inr positive ↦ rw positive (
                calling-Moves ctx s good known _ _ _ (connection_never ctx s good known uid) (elim [
                  | none ↦
                      λ unused. connect_service-Moves allowed encoded uid r₁ (ground arith) unused
                  | some c ↦ λ used. refuse-Moves ctx s good known _ _
                ]))
          ]
        ]
