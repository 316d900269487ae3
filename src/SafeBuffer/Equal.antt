-- ===== src/SafeBuffer/Equal.antt =====
-- `areBuffersEqual` decides equality.
use web_tether.Common.{ℕ, zero, suc, ◌+◌, ◌≡◌, ◌↔◌, true, [], ◌∷◌, length, arith, refl}
use web_tether.SafeBuffer.{Bytes, are_buffers_equal, bytes_agree}

-- The loop from index `i` sees what the loop from 0 sees in the buffers without their first bytes.
bytes_agree-cons :
    (left i x y : ℕ) (a b : Bytes)
    → bytes_agree left (suc i) (x ∷ a) (y ∷ b) ≡ bytes_agree left i a b
unfolding bytes_agree
bytes_agree-cons zero i x y a b = refl
bytes_agree-cons (suc left) i x y a b =
    let e : suc i + 1 ≡ suc (i + 1) = omega arith in
    rw e (rw (bytes_agree-cons left (i + 1) x y a b))

bytes_agree_sound :
    (a b : Bytes) → length a ≡ length b → bytes_agree (length a) 0 a b ≡ true → a ≡ b
unfolding bytes_agree
bytes_agree_sound [] [] e h = refl
bytes_agree_sound [] (y ∷ b) e h = absurd (omega arith)
bytes_agree_sound (x ∷ a) [] e h = absurd (omega arith)
bytes_agree_sound (x ∷ a) (y ∷ b) e h =
    ground (arith, bytes_agree_sound a b (omega arith), bytes_agree-cons (length a) 0 x y a b)

bytes_agree_refl : (a : Bytes) → bytes_agree (length a) 0 a a ≡ true
unfolding bytes_agree
bytes_agree_refl [] = refl
bytes_agree_refl (x ∷ a) = ground (arith, bytes_agree_refl a, bytes_agree-cons (length a) 0 x x a a)

are_buffers_equal_refl : (a : Bytes) → are_buffers_equal a a ≡ true
unfolding are_buffers_equal
are_buffers_equal_refl a = ground (arith, bytes_agree_refl a)

-- Two buffers compare as equal exactly where they hold the same bytes.
pub are_buffers_equal_iff : (a b : Bytes) → (are_buffers_equal a b ≡ true) ↔ (a ≡ b)
unfolding are_buffers_equal
are_buffers_equal_iff a b = (
  λ h. bytes_agree_sound a b (ground arith) (ground arith),
  λ e. rw (← e) (are_buffers_equal_refl a),
)
