-- ===== src/Prelude/Words.antt =====
-- Machine words: a w-bit unsigned integer is a number below 2^w, kept there by `%`.
use scope_analyser.Prelude.{
  ℕ, ◌+◌, ◌-◌, ◌*◌, ◌/◌, ◌%◌, ◌<◌, ◌≡◌, ap, arith, false, ltb, if◌then◌else◌,
}
use scope_analyser.Prelude.Int.{ℤ, pos, negsuc, ◌*ℤ◌, leb_ℤ}

abbrev pub u32_mod : ℕ
u32_mod = 4294967296

abbrev pub u16_mod : ℕ
u16_mod = 65536

abbrev pub u64_mod : ℕ
u64_mod = 18446744073709551616

-- `a + b` on `std::uint32_t`.
unfoldable pub add32 : ℕ → ℕ → ℕ
add32 a b = (a + b) % u32_mod

-- `a * b` on `std::uint32_t`.
unfoldable pub mul32 : ℕ → ℕ → ℕ
mul32 a b = (a * b) % u32_mod

pub add32_lt : (a b : ℕ) → add32 a b < u32_mod
unfolding add32
add32_lt a b = omega arith

pub add32_exact : (a b : ℕ) → a + b < u32_mod → add32 a b ≡ a + b
unfolding add32
add32_exact a b h = omega arith

-- A signed 64-bit integer is the one between -2^63 and 2^63 - 1 that differs from the exact result by
-- a multiple of 2^64.
abbrev pub i64_half : ℕ
i64_half = 9223372036854775808

abbrev residue : ℤ → ℕ
residue (pos n) = n % u64_mod
residue (negsuc n) = u64_mod - 1 - n % u64_mod

abbrev signed64 : ℕ → ℤ
signed64 n = if ltb n i64_half then pos n else negsuc (u64_mod - 1 - n)

unfoldable pub wrap64 : ℤ → ℤ
wrap64 z = signed64 (residue z)

-- A product on `long long`.
unfoldable pub mul64 : ℤ → ℤ → ℤ
unfolding ◌*ℤ◌
mul64 a b = wrap64 (a *ℤ b)

-- A wrapped product of natural numbers that is positive is the remainder of the product.
pub mul64_pos :
    (a b : ℕ)
    → leb_ℤ (mul64 (pos a) (pos b)) (pos 0) ≡ false
    → (mul64 (pos a) (pos b) ≡ pos (a * b % u64_mod))
      × (0 < a * b % u64_mod)
      × (a * b % u64_mod < i64_half)
unfolding mul64 wrap64 ◌*ℤ◌
mul64_pos a b h = (ground arith, ground arith, ground arith)

spread : (r q b : ℕ) → (r + u64_mod * q) * b ≡ r * b + u64_mod * (q * b)
spread r q b = grind arith

split : (a : ℕ) → a ≡ a % u64_mod + u64_mod * (a / u64_mod)
split a = omega arith

-- A factor may be reduced first.
pub mod-mul : (a b : ℕ) → (a % u64_mod) * b % u64_mod ≡ a * b % u64_mod
mod-mul a b = omega (arith, spread (a % u64_mod) (a / u64_mod) b, ap (λ n. n * b) (split a))
