-- ===== src/Security/Vectors.antt =====
-- No initialisation vector is used twice with a key.
use web_tether.Common.{ℕ, ◌/◌, ◌%◌, ◌<◌, ◌≡◌, refl, sym, ap, ◌∙◌, arith, get_or}
use web_tether.SafeBuffer.{Bytes}
use web_tether.Security.{TunnelSecurityRole, relay, client, role_byte, encode_iv}

byte_at : {a b : Bytes} (i : ℕ) → a ≡ b → get_or a i 0 ≡ get_or b i 0
byte_at i e = ap (λ l. get_or l i 0) e

role_byte_injective : (a b : TunnelSecurityRole) → role_byte a ≡ role_byte b → a ≡ b
role_byte_injective relay relay e = refl
role_byte_injective client client e = refl
role_byte_injective relay client e = absurd (omega arith)
role_byte_injective client relay e = absurd (omega arith)

-- Two numbers below 2 ^ 32 with the same four bytes.
words_agree :
    (a b : ℕ)
    → a < 4294967296
    → b < 4294967296
    → a / 16777216 % 256 ≡ b / 16777216 % 256
    → a / 65536 % 256 ≡ b / 65536 % 256
    → a / 256 % 256 ≡ b / 256 % 256
    → a % 256 ≡ b % 256
    → a ≡ b
words_agree a b low high e₀ e₁ e₂ e₃ = omega arith

-- The same four bytes say the same of any two numbers modulo 2 ^ 32.
words_agree_mod :
    (a b : ℕ)
    → a / 16777216 % 256 ≡ b / 16777216 % 256
    → a / 65536 % 256 ≡ b / 65536 % 256
    → a / 256 % 256 ≡ b / 256 % 256
    → a % 256 ≡ b % 256
    → a % 4294967296 ≡ b % 4294967296
words_agree_mod a b e₀ e₁ e₂ e₃ = omega arith

-- A counter below 2 ^ 88 from its three parts.
parts_agree :
    (a b : ℕ)
    → a < 309485009821345068724781056
    → b < 309485009821345068724781056
    → a / 18446744073709551616 ≡ b / 18446744073709551616
    → a % 18446744073709551616 / 4294967296 ≡ b % 18446744073709551616 / 4294967296
    → a % 18446744073709551616 % 4294967296 ≡ b % 18446744073709551616 % 4294967296
    → a ≡ b
parts_agree a b low high e₀ e₁ e₂ = omega arith

reduced : (a : ℕ) → a < 309485009821345068724781056 → a % 309485009821345068724781056 ≡ a
reduced a h = omega arith

-- The highest part of a counter below 2 ^ 88 has three bytes.
small : (x : ℕ) → x < 309485009821345068724781056 → x / 18446744073709551616 < 4294967296
small x h = omega arith

top :
    (x y : ℕ)
    → x < 309485009821345068724781056
    → y < 309485009821345068724781056
    → x / 18446744073709551616 / 16777216 % 256 ≡ y / 18446744073709551616 / 16777216 % 256
top x y h k = omega arith

-- Two messages have the same initialisation vector only if they have the same direction and the same
-- counter, for counters below 2 ^ 88.
pub encode_iv_injective :
    (a b : TunnelSecurityRole) (m n : ℕ)
    → m < 309485009821345068724781056
    → n < 309485009821345068724781056
    → encode_iv a m ≡ encode_iv b n
    → (a ≡ b) × (m ≡ n)
unfolding encode_iv
encode_iv_injective a b m n hm hn e =
    let x : ℕ = m % 309485009821345068724781056 in
    let y : ℕ = n % 309485009821345068724781056 in
    let high =
      words_agree (x / 18446744073709551616) (y / 18446744073709551616) (small x (omega arith))
        (small y (omega arith)) (top x y (omega arith) (omega arith)) (byte_at 1 e) (byte_at 2 e)
        (byte_at 3 e) in
    let middle =
      words_agree (x % 18446744073709551616 / 4294967296) (y % 18446744073709551616 / 4294967296)
        (omega arith) (omega arith) (byte_at 4 e) (byte_at 5 e) (byte_at 6 e) (byte_at 7 e) in
    let low =
      words_agree_mod (x % 18446744073709551616) (y % 18446744073709551616) (byte_at 8 e)
        (byte_at 9 e) (byte_at 10 e) (byte_at 11 e) in
    (
      role_byte_injective a b (byte_at 0 e),
      sym (reduced m hm)
          ∙ parts_agree x y (omega arith) (omega arith) high middle low
          ∙ reduced n hn,
    )
