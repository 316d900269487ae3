-- ===== src/Socks/Gate.antt =====
-- Handshakes that dial nothing: what must have come for a script to go on.
use web_tether.Common.{
  ℕ, suc, ◌+◌, ◌≡◌, ◌≢◌, refl, sym, ap, ◌⊎◌, inl, inr, arith, true, false, none, some, List, [],
  ◌∷◌, ◌++◌, Option-cases, Bool-cases, ◌==◌, leb, leb→le, length, length-take, take, drop,
  take-append-drop, get_or,
}
use web_tether.SafeBuffer.{Bytes}
use web_tether.Socks.{
  SocksHandlerBufferRequest, Script, finish, raise, ask, send, Want, Tunnel, Read, Ending, Outcome,
  ended, index_of, read_to, run, ask_size, ask_until,
}
use web_tether.Socks.Asking.{run-met, run-unmet, fetch-whole, fetch-short, run-peek}

-- Nothing is dialled and no tunnel comes of it.
pub record IsSilent (o : Outcome) : Type 0 where
  pub dials_nothing : o.dialled ≡ []
  pub yields_nothing : (t : ℕ) → o.ending ≢ Ending.tunnelled (some t)

ended-IsSilent :
    (how : Ending) (buffer : Bytes) (reads : List Read)
    → ((t : ℕ) → how ≢ Ending.tunnelled (some t))
    → IsSilent (ended how buffer reads)
ended-IsSilent how buffer reads h = record { dials_nothing = refl; yields_nothing = h }

-- Up to the first `z`.
record Parted (z i : ℕ) (stream : Bytes) : Type 0 where
  before : Bytes
  after : Bytes
  splits : stream ≡ before ++ (z ∷ after)
  taken : take (suc i) stream ≡ before ++ (z ∷ [])
  dropped : drop (suc i) stream ≡ after

index_of-Parted : (z : ℕ) (stream : Bytes) (i : ℕ) → index_of z stream ≡ some i → Parted z i stream
unfolding index_of
index_of-Parted z [] i h = absurd (cc)
index_of-Parted z (x ∷ xs) i h = elim (Bool-cases (x == z)) [
  | inl e ↦
      let same : x ≡ z = ground (arith, e) in
      let first : i ≡ 0 = ground (arith, e, h) in
      record {
        before = [];
        after = xs;
        splits = ap (λ y. y ∷ xs) same;
        taken = rw (first, same) refl;
        dropped = rw first refl;
      }
  | inr e ↦ elim (Option-cases (index_of z xs)) [
    | inl absent ↦ absurd (ground (arith, e, absent, h))
    | inr (j, here) ↦
        let next : i ≡ suc j = ground (arith, e, here, h) in
        let p = index_of-Parted z xs j here in
        record {
          before = x ∷ p.before;
          after = p.after;
          splits = ap (λ l. x ∷ l) p.splits;
          taken = rw next (ap (λ l. x ∷ l) p.taken);
          dropped = rw next p.dropped;
        }
  ]
]

abbrev consuming : ℕ → Want → SocksHandlerBufferRequest
consuming timeout w = record { timeout = timeout; want = w; do_not_consume = false }

abbrev peeking : ℕ → SocksHandlerBufferRequest
peeking timeout = record { timeout = timeout; want = Want.size 1; do_not_consume = true }

module _ (tunnel : Tunnel) (Q : Type 0) where
  -- The script `s` dials nothing on `stream`, or `Q`.
  abbrev pub SilentOr : Script → Bytes → Type 0
  SilentOr s stream = IsSilent (run tunnel s stream []) ⊎ Q

  pub at_finish : (stream : Bytes) → SilentOr (finish none) stream
  unfolding run
  at_finish stream = inl (ended-IsSilent _ _ _ (λ t e. absurd (cc)))

  pub at_raise : (stream : Bytes) → SilentOr raise stream
  unfolding run
  at_raise stream = inl (ended-IsSilent _ _ _ (λ t e. absurd (cc)))

  pub at_send :
      (b : Bytes) (s : Script) (stream : Bytes) → SilentOr s stream → SilentOr (send b s) stream
  unfolding run
  at_send b s stream (inl h) =
      inl (record { dials_nothing = h.dials_nothing; yields_nothing = h.yields_nothing })
  at_send b s stream (inr q) = inr q

  short_read :
      (w : Want) (timeout : ℕ) (k : Bytes → Script) (stream : Bytes)
      → read_to w stream ≡ none
      → SilentOr (ask (consuming timeout w) k) stream
  short_read w timeout k stream e = inl (
      rw (run-unmet tunnel (consuming timeout w) k stream _ _ _ _ (fetch-short w stream e))
        (ended-IsSilent _ _ _ (λ t h. absurd (cc))))

  long_read :
      (w : Want) (timeout n : ℕ) (k : Bytes → Script) (stream : Bytes)
      → read_to w stream ≡ some n
      → SilentOr (k (take n stream)) (drop n stream)
      → SilentOr (ask (consuming timeout w) k) stream
  long_read w timeout n k stream e h =
      rw (run-met tunnel (consuming timeout w) k stream _ _ _ _ (fetch-whole w stream n e)) h

  pub at_ask_size :
      (timeout n : ℕ) (k : Bytes → Script) (stream : Bytes)
      → ((b rest : Bytes) → stream ≡ b ++ rest → length b ≡ n → SilentOr (k b) rest)
      → SilentOr (ask_size timeout n k) stream
  unfolding read_to
  at_ask_size timeout n k stream h = elim (Bool-cases (leb n (length stream))) [
    | inl e ↦ long_read (Want.size n) timeout n k stream (rw e refl) (
        h (take n stream) (drop n stream) (sym (take-append-drop n stream))
          (length-take n stream (leb→le _ _ e)))
    | inr e ↦ short_read (Want.size n) timeout k stream (rw e refl)
  ]

  pub at_ask_until :
      (timeout z : ℕ) (k : Bytes → Script) (stream : Bytes)
      → ((b rest : Bytes) → stream ≡ b ++ (z ∷ rest) → SilentOr (k (b ++ (z ∷ []))) rest)
      → SilentOr (ask_until timeout z k) stream
  unfolding read_to
  at_ask_until timeout z k stream h = elim (Option-cases (index_of z stream)) [
    | inl e ↦ short_read (Want.until z) timeout k stream (rw (e, read_to) refl)
    | inr (i, e) ↦
        let p = index_of-Parted z stream i e in
        long_read (Want.until z) timeout (i + 1) k stream (rw (e, read_to) refl) (
          let one : i + 1 ≡ suc i = omega arith in
          rw (one, p.taken, p.dropped) (h p.before p.after p.splits))
  ]

  -- The look at the first byte.
  pub at_peek :
      (timeout : ℕ) (k : Bytes → Script) (stream : Bytes)
      → ((x : ℕ) → SilentOr (k (x ∷ [])) stream)
      → SilentOr
          (ask (record { timeout = timeout; want = Want.size 1; do_not_consume = true }) k)
          stream
  unfolding read_to
  at_peek timeout k [] h = inl (
      rw (run-unmet tunnel (peeking timeout) k [] _ _ _ _ (fetch-short (Want.size 1) [] refl))
        (ended-IsSilent _ _ _ (λ t e. absurd (cc))))
  at_peek timeout k (x ∷ rest) h = rw (run-peek tunnel timeout x k rest) (h x)

-- A buffer of one or two bytes, byte by byte.
pub length-one : (b : Bytes) → length b ≡ 1 → b ≡ get_or b 0 0 ∷ []
length-one [] h = absurd (omega arith)
length-one (x ∷ []) h = refl
length-one (x ∷ y ∷ b) h = absurd (omega arith)

pub length-two : (b : Bytes) → length b ≡ 2 → b ≡ get_or b 0 0 ∷ get_or b 1 0 ∷ []
length-two [] h = absurd (omega arith)
length-two (x ∷ b) h = ap (λ l. x ∷ l) (length-one b (omega arith))
