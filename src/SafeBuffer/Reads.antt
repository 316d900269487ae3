-- ===== src/SafeBuffer/Reads.antt =====
-- What every read of the safe reader does: it stays within the buffer, it throws exactly where the
-- bytes run out, and a read ahead returns what the consuming read returns.
use web_tether.Common.{
  ℕ, ◌+◌, ◌≤◌, ◌≡◌, ◌⊎◌, Bool, false, Option, none, some, arith, length, ltb, Bool-cases, inl, inr,
  ◌<◌, ap, ◌∙◌, get_or, get_or-drop, length-drop, drop-add, drop, refl,
}
use web_tether.SafeBuffer.{
  Bytes, SafeReader, ensure_length, advance, uint8, uint16, uint32, int8, int16, int32, data_of,
  safe_reader, ◌>>◌,
}

-- The offset never passes the end of the buffer.
abbrev pub IsInside : SafeReader → Type 0
IsInside r = r.offset ≤ length r.buffer

-- How a read of `n` bytes ends: it throws exactly where fewer than `n` are left, and otherwise
-- it leaves the buffer alone and moves the offset by `n`, or by nothing if it reads ahead.
abbrev pub Reads : {A : Type 0} → ℕ → Bool → SafeReader → Option (A × SafeReader) → Type 0
Reads {A} n ahead r o =
    ((o ≡ none) × (length r.buffer + 1 ≤ r.offset + n))
    ⊎ ((a : A) × (o ≡ some (a, advance ahead n r)) × (r.offset + n ≤ length r.buffer))

reads_lem :
    {A : Type 0} (n : ℕ) (ahead : Bool) (r : SafeReader) (a : A)
    → Reads n ahead r (ensure_length r.buffer (r.offset + n) >> some (a, advance ahead n r))
unfolding ensure_length
reads_lem n ahead r a = elim (Bool-cases (ltb (length r.buffer) (r.offset + n))) [
  | inl short ↦ inl (rw short, ground arith)
  | inr fits ↦ inr (a, rw fits, ground arith)
]

-- Every sized read throws exactly where fewer bytes are left than it takes; otherwise it keeps
-- the buffer and moves the offset by the bytes taken, or by none if it reads ahead.
pub Reads-all :
    (n : ℕ) (ahead : Bool) (r : SafeReader)
    → Reads 1 ahead r (uint8 ahead r)
      × Reads 2 ahead r (uint16 ahead r)
      × Reads 4 ahead r (uint32 ahead r)
      × Reads 1 ahead r (int8 ahead r)
      × Reads 2 ahead r (int16 ahead r)
      × Reads 4 ahead r (int32 ahead r)
      × Reads n ahead r (data_of n ahead r)
unfolding uint8 uint16 uint32 int8 int16 int32 data_of
Reads-all n ahead r = (
  reads_lem 1 ahead r _,
  reads_lem 2 ahead r _,
  reads_lem 4 ahead r _,
  reads_lem 1 ahead r _,
  reads_lem 2 ahead r _,
  reads_lem 4 ahead r _,
  reads_lem n ahead r _,
)

-- The bytes that a reader has in front of it.
abbrev pub Left : SafeReader → Bytes → Type 0
Left r bytes = IsInside r × (drop r.offset r.buffer ≡ bytes)

-- A read that returns `a` and has `after` in front of it then.
abbrev pub Takes : {A : Type 0} → A → Bytes → Option (A × SafeReader) → Type 0
Takes {A} a after o = (r : SafeReader) × (o ≡ some (a, r)) × Left r after

pub safe_reader-Left : (source : Bytes) → Left (safe_reader source) source
unfolding safe_reader
safe_reader-Left source = (omega arith, refl)

module _ (r : SafeReader) (bytes : Bytes) (left : Left r bytes) where
  pub byte-Left : (i : ℕ) → get_or r.buffer (r.offset + i) 0 ≡ get_or bytes i 0
  byte-Left i = get_or-drop r.offset i r.buffer 0 ∙ ap (λ b. get_or b i 0) left.1

  pub length-Left : r.offset + length bytes ≡ length r.buffer
  length-Left = omega (arith, length-drop r.offset r.buffer, ap length left.1, left.0)

  pub ensure-Left : (n : ℕ) → n ≤ length bytes → ensure_length r.buffer (r.offset + n) ≡ some tt
  unfolding ensure_length
  ensure-Left n h = ground (arith, length-Left)

  pub advance-Left : (n : ℕ) → n ≤ length bytes → Left (advance false n r) (drop n bytes)
  advance-Left n h = (omega (arith, length-Left), drop-add r.offset n r.buffer ∙ ap (drop n) left.1)

  -- A read of more bytes than are left throws.
  pub ensure-Left_none : (n : ℕ) → length bytes < n → ensure_length r.buffer (r.offset + n) ≡ none
  unfolding ensure_length
  ensure-Left_none n h = ground (arith, length-Left)
