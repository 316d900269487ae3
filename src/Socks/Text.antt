-- ===== src/Socks/Text.antt =====
-- The strings that the socks handlers build from bytes: `join(".")`, `toString(16)` and `join(":")`. A
-- string is the list of its character codes.
use web_tether.Common.{ℕ, zero, suc, ◌+◌, ◌/◌, ◌%◌, List, [], ◌∷◌, ◌++◌, ltb, if◌then◌else◌}

-- A string of the source.
abbrev pub Text : Type 0
Text = List ℕ

-- `'0'` to `'9'`, then `'a'` on.
abbrev digit : ℕ → ℕ
digit n = if ltb n 10 then 48 + n else 87 + n

-- `n.toString(b)` for a number of at most `fuel + 1` digits.
digits : ℕ → ℕ → ℕ → Text
digits zero b n = digit n ∷ []
digits (suc fuel) b n =
    let high = digits fuel b (n / b) in
    if ltb n b then digit n ∷ [] else high ++ (digit (n % b) ∷ [])

-- `x.toString(10)` for a byte and `x.toString(16)` for 16 bits.
unfoldable pub decimal : ℕ → Text
unfolding digits
decimal n = digits 2 10 n

unfoldable pub hexadecimal : ℕ → Text
unfolding digits
hexadecimal n = digits 3 16 n

-- `parts.join(separator)`
unfoldable pub join : ℕ → List Text → Text
join separator [] = []
join separator (t ∷ []) = t
join separator (t ∷ u ∷ ts) = t ++ (separator ∷ join separator (u ∷ ts))
