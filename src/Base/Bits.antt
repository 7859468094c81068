-- ===== src/Base/Bits.antt =====
-- `&` with a byte of ones and `|` of separate fields, as arithmetic.
use Prim.Native.Nat.{
  ℕ, zero, suc, ◌+◌, ◌*◌, ◌/◌, ◌%◌, ◌^◌, ◌≤◌, ◌<◌, min, max, digits, bitwise, bit_and, bit_or,
  bit_and-bitwise, bit_or-bitwise,
}
use mathlib.Core.Path.{◌≡◌, refl, ap, ◌∙◌, sym}
use native.Mathlib.Omega.{arith}
use native.Mathlib.Nat.{pow-suc, div-div-eq-div-mul, mul-div_cancel, one-le-pow}

module _ (end : ℕ → ℕ) (op : ℕ → ℕ → ℕ) where
  -- Any two counts that are not less than the number give the same digits.
  digits_count : (a b m n : ℕ) → a ≤ m → a ≤ n → digits end op m a b ≡ digits end op n a b
  digits_count zero b zero zero p q = refl
  digits_count zero b zero (suc n) p q = refl
  digits_count zero b (suc m) zero p q = refl
  digits_count zero b (suc m) (suc n) p q = refl
  digits_count (suc a) b zero n p q = absurd (omega arith)
  digits_count (suc a) b (suc m) zero p q = absurd (omega arith)
  digits_count (suc a) b (suc m) (suc n) p q =
      ap (λ t. t * 2 + op (suc a % 2) (b % 2))
        (digits_count (suc a / 2) (b / 2) m n (omega arith) (omega arith))

  low_digit :
      (a b : ℕ)
      → bitwise end op (suc a) b ≡ bitwise end op (suc a / 2) (b / 2) * 2 + op (suc a % 2) (b % 2)
  low_digit a b =
      ap (λ t. t * 2 + op (suc a % 2) (b % 2))
        (digits_count (suc a / 2) (b / 2) a (suc a / 2) (omega arith) (omega arith))

bit_and_halves : (a b : ℕ) → bit_and a b ≡ bit_and (a / 2) (b / 2) * 2 + min (a % 2) (b % 2)
bit_and_halves zero b = omega (arith, bit_and-bitwise zero b, bit_and-bitwise zero (b / 2))
bit_and_halves (suc a) b = omega (
  arith,
  bit_and-bitwise (suc a) b,
  bit_and-bitwise (suc a / 2) (b / 2),
  low_digit (λ t. zero) min a b,
)

bit_or_halves : (a b : ℕ) → bit_or a b ≡ bit_or (a / 2) (b / 2) * 2 + max (a % 2) (b % 2)
bit_or_halves zero b = omega (arith, bit_or-bitwise zero b, bit_or-bitwise zero (b / 2))
bit_or_halves (suc a) b = omega (
  arith,
  bit_or-bitwise (suc a) b,
  bit_or-bitwise (suc a / 2) (b / 2),
  low_digit (λ t. t) max a b,
)

bit_and_nothing : (bound a : ℕ) → a ≤ bound → bit_and a 0 ≡ 0
bit_and_nothing bound zero h = bit_and-bitwise zero 0
bit_and_nothing zero (suc a) h = absurd (omega arith)
bit_and_nothing (suc bound) (suc a) h =
    omega (arith, bit_and_halves (suc a) 0, bit_and_nothing bound (suc a / 2) (omega arith))

bit_or_nothing : (bound a : ℕ) → a ≤ bound → bit_or a 0 ≡ a
bit_or_nothing bound zero h = bit_or-bitwise zero 0
bit_or_nothing zero (suc a) h = absurd (omega arith)
bit_or_nothing (suc bound) (suc a) h =
    omega (arith, bit_or_halves (suc a) 0, bit_or_nothing bound (suc a / 2) (omega arith))

-- A field above `k` bits joins what fits in them.
pub bit_or_join : (k q r : ℕ) → r < 2 ^ k → bit_or (q * 2 ^ k) r ≡ q * 2 ^ k + r
bit_or_join zero q r h = ground (arith, bit_or_nothing q q (omega arith))
bit_or_join (suc k) q r h = ground (
  arith,
  bit_or_halves (q * 2 ^ suc k) r,
  doubled,
  bit_or_join k q (r / 2) (omega (arith, pow-suc 2 k)),
)
  where
    doubled : q * 2 ^ suc k ≡ 2 * (q * 2 ^ k)
    doubled = omega (arith, ap (λ (t : ℕ). q * t) (pow-suc 2 k))

one_more : (a m : ℕ) → bit_and a (2 * m + 1) ≡ bit_and (a / 2) m * 2 + a % 2
one_more a m =
    bit_and_halves a (2 * m + 1)
    ∙ ap (λ t. bit_and (a / 2) t * 2 + min (a % 2) ((2 * m + 1) % 2)) half
    ∙ ap (λ t. bit_and (a / 2) m * 2 + t) low
  where
    half : (2 * m + 1) / 2 ≡ m
    half = omega arith

    low : min (a % 2) ((2 * m + 1) % 2) ≡ a % 2
    low = omega arith

bit_and_nibble : (a : ℕ) → bit_and a 15 ≡ a % 16
bit_and_nibble a = omega (
  arith,
  one_more a 7,
  one_more (a / 2) 3,
  one_more (a / 2 / 2) 1,
  one_more (a / 2 / 2 / 2) 0,
  bit_and_nothing a (a / 2 / 2 / 2 / 2) (omega arith),
)

bit_and_byte : (a : ℕ) → bit_and a 255 ≡ a % 256
bit_and_byte a = omega (
  arith,
  one_more a 127,
  one_more (a / 2) 63,
  one_more (a / 2 / 2) 31,
  one_more (a / 2 / 2 / 2) 15,
  bit_and_nibble (a / 2 / 2 / 2 / 2),
)

moved : (x p : ℕ) → x * p * 2 + 0 ≡ x * (2 * p)
moved x p = grind arith

two_pow-suc : (k : ℕ) → 2 ^ suc k ≡ 2 * 2 ^ k
two_pow-suc k = omega (arith, pow-suc 2 k)

-- A byte of ones above `k` bits cuts out that byte.
pub bit_and_field : (k a : ℕ) → bit_and a (255 * 2 ^ k) ≡ a / 2 ^ k % 256 * 2 ^ k
bit_and_field zero a = ground (arith, bit_and_byte a)
bit_and_field (suc k) a =
    bit_and_halves a (255 * 2 ^ suc k)
    ∙ ap (λ t. bit_and (a / 2) t * 2 + min (a % 2) (255 * 2 ^ suc k % 2)) half
    ∙ ap (λ t. bit_and (a / 2) (255 * 2 ^ k) * 2 + t) low
    ∙ ap (λ t. t * 2 + 0) (bit_and_field k (a / 2))
    ∙ regroup
  where
    half : 255 * 2 ^ suc k / 2 ≡ 255 * 2 ^ k
    half = omega (arith, pow-suc 2 k)

    low : min (a % 2) (255 * 2 ^ suc k % 2) ≡ 0
    low = omega (arith, pow-suc 2 k)

    regroup : a / 2 / 2 ^ k % 256 * 2 ^ k * 2 + 0 ≡ a / 2 ^ suc k % 256 * 2 ^ suc k
    regroup =
        ap (λ d. d % 256 * 2 ^ k * 2 + 0) (div-div-eq-div-mul a 2 (2 ^ k))
        ∙ moved (a / (2 * 2 ^ k) % 256) (2 ^ k)
        ∙ ap (λ (p : ℕ). a / p % 256 * p) (sym (two_pow-suc k))

-- The byte above `k` bits.
pub bit_and_shift : (k a : ℕ) → bit_and a (255 * 2 ^ k) / 2 ^ k ≡ a / 2 ^ k % 256
bit_and_shift k a =
    ap (λ t. t / 2 ^ k) (bit_and_field k a)
    ∙ mul-div_cancel (a / 2 ^ k % 256) (one-le-pow k 2 (omega arith))
