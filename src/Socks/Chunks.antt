-- ===== src/Socks/Chunks.antt =====
-- How the network cuts the stream into chunks makes no difference to a handshake.
use web_tether.Common.{
  ℕ, ◌+◌, ◌≤◌, ◌≡◌, ◌∙◌, sym, ap, refl, subst, inl, inr, Option, none, some, List, [], ◌∷◌, ◌++◌,
  arith, Option-cases, Bool-cases, length, take, take-append, drop-append, length-append,
  append_assoc, append-nil,
}
use web_tether.SafeBuffer.{Bytes}
use web_tether.Socks.Asking.{rest_of, run-met, run-unmet, fetch-whole, fetch-short}
use web_tether.Socks.{
  Tunnel, SocksDestinationAddress, SocksTunnelResponse, dial, Want, Script, finish, raise, ask,
  send, SocksHandlerBufferRequest, Read, Ending, Outcome, index_of, read_to, Fetch, got, stopped,
  fetch, run,
}

-- The bytes of a list of chunks; nothing else is delivered.
abbrev pub flatten : List Bytes → Bytes
flatten [] = []
flatten (c ∷ cs) = c ++ flatten cs

abbrev pub chunks : List Bytes → List Read
chunks [] = []
chunks (c ∷ cs) = Read.chunk c ∷ chunks cs

index_of-append :
    (b : ℕ) (xs ys : Bytes) (i : ℕ)
    → index_of b xs ≡ some i
    → (index_of b (xs ++ ys) ≡ some i) × (i + 1 ≤ length xs)
unfolding index_of
index_of-append b [] ys i h = absurd (cc)
index_of-append b (x ∷ xs) ys i h = elim (Option-cases (index_of b xs)) [
  | inl absent ↦ (ground (arith, absent), ground (arith, absent))
  | inr (j, here) ↦
      let (later, low) = index_of-append b xs ys j here in
      (ground (arith, here, later), ground (arith, here, low))
]

-- A request that the buffer can meet is met by the same bytes when more have come.
read_to-append :
    (w : Want) (buffer more : Bytes) (n : ℕ)
    → read_to w buffer ≡ some n
    → (read_to w (buffer ++ more) ≡ some n) × (n ≤ length buffer)
unfolding read_to
read_to-append (Want.size k) buffer more n h =
    (ground (arith, length-append buffer more), ground arith)
read_to-append (Want.until b) buffer more n h = elim (Option-cases (index_of b buffer)) [
  | inl absent ↦ absurd (ground (arith, absent))
  | inr (i, here) ↦
      let (later, low) = index_of-append b buffer more i here in
      (ground (arith, here, later), ground (arith, here, low))
]

-- What fetching from chunks comes to, by what the whole stream can meet.
data Fetched (w : Want) (stream : Bytes) (f : Fetch) : Type 0 where
  met :
      (n : ℕ) (b : Bytes) (cs : List Bytes)
      → f ≡ got n b (chunks cs)
      → read_to w stream ≡ some n
      → n ≤ length b
      → b ++ flatten cs ≡ stream
      → Fetched w stream f
  unmet : f ≡ stopped Ending.thrown stream [] → read_to w stream ≡ none → Fetched w stream f

fetch-Fetched :
    (w : Want) (buffer : Bytes) (cs : List Bytes)
    → Fetched w (buffer ++ flatten cs) (fetch w buffer (chunks cs))
unfolding fetch
fetch-Fetched w buffer [] = elim (Option-cases (read_to w buffer)) [
  | inl e ↦ rw (append-nil buffer) (unmet (rw (e, fetch)) e)
  | inr (n, e) ↦
      rw (append-nil buffer)
        (met n buffer [] (rw (e, fetch)) e (read_to-append w buffer [] n e).1 (append-nil buffer))
]
fetch-Fetched w buffer (c ∷ cs) = elim (Option-cases (read_to w buffer)) [
  | inl e ↦
      subst (λ s. Fetched w s (fetch w buffer (chunks (c ∷ cs))))
        (append_assoc buffer c (flatten cs)) (rw (e, fetch) (fetch-Fetched w (buffer ++ c) cs))
  | inr (n, e) ↦
      met n buffer (c ∷ cs) (rw (e, fetch)) (read_to-append w buffer (c ++ flatten cs) n e).0
        (read_to-append w buffer [] n e).1 refl
]

-- The same handshake on the whole stream at once.
abbrev pub Agree : Outcome → Outcome → Type 0
Agree o whole =
    (o.sent ≡ whole.sent)
    × (o.dialled ≡ whole.dialled)
    × (o.ending ≡ whole.ending)
    × ((cs : List Bytes) × (o.unread ≡ chunks cs)
        × (o.working_buffer ++ flatten cs ≡ whole.working_buffer))

rest_of-append :
    (q : SocksHandlerBufferRequest) (n : ℕ) (b more : Bytes)
    → n ≤ length b
    → rest_of q n b ++ more ≡ rest_of q n (b ++ more)
rest_of-append q n b more low = elim (Bool-cases q.do_not_consume) [
  | inl e ↦ rw e refl
  | inr e ↦ rw e (sym (drop-append n b more low))
]

run-finish :
    (tunnel : Tunnel) (t : Option ℕ) (buffer : Bytes) (cs : List Bytes)
    → Agree
        (run tunnel (finish t) buffer (chunks cs))
        (run tunnel (finish t) (buffer ++ flatten cs) [])
unfolding run
run-finish tunnel t buffer cs = (refl, refl, refl, (cs, refl, refl))

run-raise :
    (tunnel : Tunnel) (buffer : Bytes) (cs : List Bytes)
    → Agree (run tunnel raise buffer (chunks cs)) (run tunnel raise (buffer ++ flatten cs) [])
unfolding run
run-raise tunnel buffer cs = (refl, refl, refl, (cs, refl, refl))

run-send :
    (tunnel : Tunnel) (b : Bytes) (k : Script) (buffer : Bytes) (cs : List Bytes)
    → Agree (run tunnel k buffer (chunks cs)) (run tunnel k (buffer ++ flatten cs) [])
    → Agree
        (run tunnel (send b k) buffer (chunks cs))
        (run tunnel (send b k) (buffer ++ flatten cs) [])
unfolding run
run-send tunnel b k buffer cs (s, d, e, r) = (ap (λ l. b ∷ l) s, d, e, r)

run-dial :
    (tunnel : Tunnel) (to : SocksDestinationAddress) (k : SocksTunnelResponse → Script)
    (buffer : Bytes) (cs : List Bytes)
    → Agree
        (run tunnel (k (tunnel to)) buffer (chunks cs))
        (run tunnel (k (tunnel to)) (buffer ++ flatten cs) [])
    → Agree
        (run tunnel (dial to k) buffer (chunks cs))
        (run tunnel (dial to k) (buffer ++ flatten cs) [])
unfolding run
run-dial tunnel to k buffer cs (s, d, e, r) = (s, ap (λ l. to ∷ l) d, e, r)

-- For every script, however the bytes behind the buffer are cut into chunks: the messages sent, the
-- destinations dialled and the end are those of a run that has all of them in the buffer at once, and
-- what is left over, in the buffer and unread, is the same bytes.
pub run-chunks :
    (tunnel : Tunnel) (s : Script) (buffer : Bytes) (cs : List Bytes)
    → Agree (run tunnel s buffer (chunks cs)) (run tunnel s (buffer ++ flatten cs) [])
run-chunks tunnel (finish t) buffer cs = run-finish tunnel t buffer cs
run-chunks tunnel raise buffer cs = run-raise tunnel buffer cs
run-chunks tunnel (send b k) buffer cs =
    run-send tunnel b k buffer cs (run-chunks tunnel k buffer cs)
run-chunks tunnel (dial to k) buffer cs =
    run-dial tunnel to k buffer cs (run-chunks tunnel (k (tunnel to)) buffer cs)
run-chunks tunnel (ask q k) buffer cs = elim (fetch-Fetched q.want buffer cs) [
  | unmet here e ↦
      rw
        (
          run-unmet tunnel q k _ _ _ _ _ here,
          run-unmet tunnel q k _ _ _ _ _ (fetch-short q.want _ e),
        )
        (refl, refl, refl, ([], refl, append-nil _))
  | met n b ds here e low whole ↦
      let t : take n (buffer ++ flatten cs) ≡ take n b =
        sym (ap (take n) whole) ∙ take-append n b (flatten ds) low in
      let left : rest_of q n b ++ flatten ds ≡ rest_of q n (buffer ++ flatten cs) =
        rest_of-append q n b (flatten ds) low ∙ ap (rest_of q n) whole in
      rw
        (
          run-met tunnel q k _ _ _ _ _ here,
          run-met tunnel q k _ _ _ _ _ (fetch-whole q.want _ n e),
          t,
          sym left,
        )
        (run-chunks tunnel (k (take n b)) (rest_of q n b) ds)
]
