-- ===== src/Socks/Asking.antt =====
-- What a request gets: from any reader, and from a buffer that begins with what it asks for.
use web_tether.Common.{
  ℕ, ◌≡◌, ◌≢◌, refl, sym, ◌∙◌, true, none, some, List, [], ◌∷◌, ◌++◌, arith, length, take, drop,
  length-append, take-append_length, drop-append_length, leb, le→leb, append_assoc, All,
  if◌then◌else◌,
}
use web_tether.SafeBuffer.{Bytes}
use web_tether.Socks.{
  Script, ask, Want, SocksHandlerBufferRequest, Tunnel, Read, Ending, got, stopped, ended, fetch,
  read_to, index_of, run, ask_size, ask_until,
}

-- What a request leaves in the buffer.
abbrev pub rest_of : SocksHandlerBufferRequest → ℕ → Bytes → Bytes
rest_of q n b = if q.do_not_consume then b else drop n b

pub run-met :
    (tunnel : Tunnel) (q : SocksHandlerBufferRequest) (k : Bytes → Script) (buffer b : Bytes)
    (reads rest : List Read) (n : ℕ)
    → fetch q.want buffer reads ≡ got n b rest
    → run tunnel (ask q k) buffer reads ≡ run tunnel (k (take n b)) (rest_of q n b) rest
unfolding run
run-met tunnel q k buffer b reads rest n e = rw (e, run) refl

pub run-unmet :
    (tunnel : Tunnel) (q : SocksHandlerBufferRequest) (k : Bytes → Script) (buffer b : Bytes)
    (reads rest : List Read) (how : Ending)
    → fetch q.want buffer reads ≡ stopped how b rest
    → run tunnel (ask q k) buffer reads ≡ ended how b rest
unfolding run
run-unmet tunnel q k buffer b reads rest how e = rw (e, run) refl

pub fetch-whole :
    (w : Want) (stream : Bytes) (n : ℕ)
    → read_to w stream ≡ some n
    → fetch w stream [] ≡ got n stream []
unfolding fetch
fetch-whole w stream n e = rw (e, fetch)

pub fetch-short :
    (w : Want) (stream : Bytes)
    → read_to w stream ≡ none
    → fetch w stream [] ≡ stopped Ending.thrown stream []
unfolding fetch
fetch-short w stream e = rw (e, fetch)

-- A request of `n` bytes gets the first `n`.
pub run-ask_size :
    (tunnel : Tunnel) (timeout n : ℕ) (k : Bytes → Script) (b rest : Bytes)
    → length b ≡ n
    → run tunnel (ask_size timeout n k) (b ++ rest) [] ≡ run tunnel (k b) rest []
unfolding read_to
run-ask_size tunnel timeout n k b rest e =
    let fits : leb (length b) (length (b ++ rest)) ≡ true =
      le→leb _ _ (rw (length-append b rest) (omega arith)) in
    let reads : read_to (Want.size n) (b ++ rest) ≡ some (length b) = rw (sym e, fits) refl in
    run-met tunnel _ k _ _ _ _ _ (fetch-whole (Want.size n) (b ++ rest) (length b) reads)
    ∙ rw (take-append_length b rest, drop-append_length b rest) refl

pub index_of-first :
    (z : ℕ) (b rest : Bytes) → All (λ x. x ≢ z) b → index_of z (b ++ (z ∷ rest)) ≡ some (length b)
unfolding index_of
index_of-first z [] rest h = ground arith
index_of-first z (x ∷ b) rest (h, hs) = let ih = index_of-first z b rest hs in ground (arith, ih, h)

-- A request up to `z` gets all up to the first `z`.
pub run-ask_until :
    (tunnel : Tunnel) (timeout z : ℕ) (k : Bytes → Script) (b rest : Bytes)
    → All (λ x. x ≢ z) b
    → run tunnel (ask_until timeout z k) (b ++ (z ∷ rest)) []
      ≡ run tunnel (k (b ++ (z ∷ []))) rest []
unfolding read_to
run-ask_until tunnel timeout z k b rest h =
    let whole : b ++ (z ∷ rest) ≡ (b ++ (z ∷ [])) ++ rest = sym (append_assoc b (z ∷ []) rest) in
    let reads : read_to (Want.until z) (b ++ (z ∷ rest)) ≡ some (length (b ++ (z ∷ []))) =
      rw (index_of-first z b rest h, read_to, length-append b (z ∷ [])) refl in
    run-met tunnel _ k _ _ _ _ _ (fetch-whole (Want.until z) (b ++ (z ∷ rest)) _ reads)
    ∙ rw (whole, take-append_length (b ++ (z ∷ [])) rest, drop-append_length (b ++ (z ∷ [])) rest)
        refl

-- A request that consumes nothing.
pub run-peek :
    (tunnel : Tunnel) (timeout x : ℕ) (k : Bytes → Script) (rest : Bytes)
    → run tunnel
        (ask (record { timeout = timeout; want = Want.size 1; do_not_consume = true }) k)
        (x ∷ rest)
        []
      ≡ run tunnel (k (x ∷ [])) (x ∷ rest) []
unfolding read_to
run-peek tunnel timeout x k rest =
    let reads : read_to (Want.size 1) (x ∷ rest) ≡ some 1 = ground arith in
    run-met tunnel _ k _ _ _ _ _ (fetch-whole (Want.size 1) (x ∷ rest) 1 reads)
