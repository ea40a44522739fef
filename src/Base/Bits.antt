-- ===== src/Base/Bits.antt =====
-- Laws of `&` and `|` with a power of two, or with a mask of the lowest bits, for every number.
pub mod Shifts
use Prim.Native.Nat.{
  ℕ, zero, suc, ◌+◌, ◌-◌, ◌*◌, ◌/◌, ◌%◌, ◌^◌, ◌≤◌, ◌<◌, min, max, bit_and, bit_or, digits,
  bit_and-bitwise, bit_or-bitwise,
}
use mathlib.Core.Path.{◌≡◌, refl, sym, ap, ap₂, ◌∙◌}
use native.Mathlib.Omega.{arith}
use native.Mathlib.Nat.{
  pow-suc, div-div-eq-div-mul, mod-lt, mod-eq_of_lt, div-add-mod, add-mul-mod_self_right,
}

-- A bitwise operation `bit`, with `rest` for what is left once the first number has run out: any count
-- of digits that reaches the first number gives the same result, and so do its digits one by one.
module _ (rest : ℕ → ℕ) (bit : ℕ → ℕ → ℕ) where
  ended : (count y : ℕ) → digits rest bit count 0 y ≡ rest y
  ended zero y = refl
  ended (suc count) y = refl

  enough :
      (x y spare count : ℕ)
      → x ≤ count
      → digits rest bit (count + spare) x y ≡ digits rest bit count x y
  enough zero y spare count reach = ended (count + spare) y ∙ sym (ended count y)
  enough (suc x) y spare zero reach = absurd (omega arith)
  enough (suc x) y spare (suc count) reach =
      let one_more : suc count + spare ≡ suc (count + spare) = omega arith in
      ap (λ (c : ℕ). digits rest bit c (suc x) y) one_more
      ∙ ap (λ (r : ℕ). r * 2 + bit (suc x % 2) (y % 2))
          (enough (suc x / 2) (y / 2) spare count (omega arith))

  halves :
      (x y : ℕ)
      → digits rest bit x (suc x / 2) (y / 2) ≡ digits rest bit (suc x / 2) (suc x / 2) (y / 2)
  halves x y =
      ap (λ (c : ℕ). digits rest bit c (suc x / 2) (y / 2)) (omega arith)
      ∙ enough (suc x / 2) (y / 2) (x - suc x / 2) (suc x / 2) (omega arith)

pub zero-bit_and : (n : ℕ) → bit_and 0 n ≡ 0
zero-bit_and n = bit_and-bitwise 0 n

pub bit_and_step : (a b : ℕ) → bit_and a b ≡ bit_and (a / 2) (b / 2) * 2 + min (a % 2) (b % 2)
bit_and_step zero n = omega (arith, zero-bit_and n, zero-bit_and (n / 2))
bit_and_step (suc x) n =
    omega (
      arith,
      halves (λ _. 0) min x n,
      bit_and-bitwise (suc x / 2) (n / 2),
      bit_and-bitwise (suc x) n,
    )

vanishes : (bound x : ℕ) → x ≤ bound → bit_and x 0 ≡ 0
vanishes bound zero below = zero-bit_and 0
vanishes (suc bound) (suc x) below =
    bit_and_step (suc x) 0 ∙ omega (arith, vanishes bound (suc x / 2) (omega arith))
vanishes zero (suc x) below = absurd (omega arith)

pub bit_and-zero : (a : ℕ) → bit_and a 0 ≡ 0
bit_and-zero x = vanishes x x (omega arith)

pub pow-pos : (k : ℕ) → 1 ≤ 2 ^ k
pow-pos zero = omega arith
pow-pos (suc k) = rw pow-suc (omega (arith, pow-pos k))

-- The remainder by an even number, from the digits.
double_mod : (a p : ℕ) → 1 ≤ p → a % (p * 2) ≡ a / 2 % p * 2 + a % 2
double_mod a p h =
    ap (λ (n : ℕ). n % (p * 2)) split
    ∙ add-mul-mod_self_right (a / 2 % p * 2 + a % 2) (a / 2 / p) (p * 2)
    ∙ mod-eq_of_lt (omega (arith, mod-lt (a / 2) {m = p} h))
  where
    split : a ≡ (a / 2 % p * 2 + a % 2) + a / 2 / p * (p * 2)
    split = omega (arith, div-add-mod (a / 2) p)

-- `x & (2^k - 1)` is the remainder by 2^k.
pub bit_and_mask : (k a : ℕ) → bit_and a (2 ^ k - 1) ≡ a % 2 ^ k
bit_and_mask zero a = omega (arith, bit_and-zero a)
bit_and_mask (suc k) a = omega (
  arith,
  bit_and_step a (2 ^ suc k - 1),
  bit_and_mask k (a / 2),
  double_mod a (2 ^ k) (pow-pos k),
  halved,
  odd,
  ap (λ (p : ℕ). a % p) (pow-suc 2 k),
  ap (λ (p : ℕ). bit_and (a / 2) p) halved,
)
  where
    halved : (2 ^ suc k - 1) / 2 ≡ 2 ^ k - 1
    halved = rw pow-suc (omega (arith, pow-pos k))

    odd : (2 ^ suc k - 1) % 2 ≡ 1
    odd = rw pow-suc (omega (arith, pow-pos k))

-- `x & (1 << k)` keeps the one bit.
pub bit_and_power : (k a : ℕ) → bit_and a (2 ^ k) ≡ 2 ^ k * (a / 2 ^ k % 2)
bit_and_power zero a = omega (arith, bit_and_step a 1, bit_and-zero (a / 2))
bit_and_power (suc k) a = omega (
  arith,
  bit_and_step a (2 ^ suc k),
  bit_and_power k (a / 2),
  halved,
  even,
  ap (λ (p : ℕ). bit_and (a / 2) p) halved,
  ap (λ (n : ℕ). 2 ^ k * (n % 2)) shifted,
  ap (λ (p : ℕ). p * (a / 2 ^ suc k % 2)) (pow-suc 2 k),
)
  where
    halved : 2 ^ suc k / 2 ≡ 2 ^ k
    halved = rw pow-suc (omega arith)

    even : 2 ^ suc k % 2 ≡ 0
    even = rw pow-suc (omega arith)

    shifted : a / 2 / 2 ^ k ≡ a / 2 ^ suc k
    shifted = div-div-eq-div-mul a 2 (2 ^ k) ∙ ap (λ (p : ℕ). a / p) (omega (arith, pow-suc 2 k))

pub zero-bit_or : (b : ℕ) → bit_or 0 b ≡ b
zero-bit_or b = bit_or-bitwise 0 b

pub bit_or_step : (a b : ℕ) → bit_or a b ≡ bit_or (a / 2) (b / 2) * 2 + max (a % 2) (b % 2)
bit_or_step zero b = omega (arith, zero-bit_or b, zero-bit_or (b / 2))
bit_or_step (suc x) n =
    omega
      (arith, halves (λ m. m) max x n, bit_or-bitwise (suc x / 2) (n / 2), bit_or-bitwise (suc x) n)

-- A bit that `|` sets is set.
pub bit_and-bit_or : (k a : ℕ) → bit_and (bit_or a (2 ^ k)) (2 ^ k) ≡ 2 ^ k
bit_and-bit_or zero a =
    omega (arith, bit_and_step (bit_or a 1) 1, bit_or_step a 1, bit_and-zero (bit_or a 1 / 2))
bit_and-bit_or (suc k) a = omega (
  arith,
  bit_and_step (bit_or a (2 ^ suc k)) (2 ^ suc k),
  bit_or_step a (2 ^ suc k),
  bit_and-bit_or k (a / 2),
  pow-suc 2 k,
  ap (λ (p : ℕ). bit_or (a / 2) p) halved,
  ap₂ bit_and lowered halved,
)
  where
    halved : 2 ^ suc k / 2 ≡ 2 ^ k
    halved = rw pow-suc (omega arith)

    lowered : bit_or a (2 ^ suc k) / 2 ≡ bit_or (a / 2) (2 ^ k)
    lowered = omega (arith, bit_or_step a (2 ^ suc k), ap (λ (p : ℕ). bit_or (a / 2) p) halved)

halve_power : (k : ℕ) → (2 ^ suc k / 2 ≡ 2 ^ k) × (2 ^ suc k % 2 ≡ 0)
halve_power k = rw pow-suc (omega arith)

-- Below 2^k a number shares no bit with 2^k, and a mask counts only by its low bits.
pub bit_and-bit_or_low : (k x m : ℕ) → x < 2 ^ k → bit_and x (bit_or m (2 ^ k)) ≡ bit_and x m
bit_and-bit_or_low zero zero m h = zero-bit_and (bit_or m 1) ∙ sym (zero-bit_and m)
bit_and-bit_or_low zero (suc x) m h = absurd (omega arith)
bit_and-bit_or_low (suc k) x m h = omega (
  arith,
  bit_and_step x (bit_or m (2 ^ suc k)),
  bit_and_step x m,
  bit_or_step m (2 ^ suc k),
  halve_power k,
  bit_and-bit_or_low k (x / 2) (m / 2) (omega (arith, h, pow-suc 2 k)),
  ap (bit_and (x / 2)) lowered,
)
  where
    lowered : bit_or m (2 ^ suc k) / 2 ≡ bit_or (m / 2) (2 ^ k)
    lowered =
        omega
          (arith, bit_or_step m (2 ^ suc k), halve_power k, ap (bit_or (m / 2)) (halve_power k).0)

pub bit_and-mod_low : (k x m : ℕ) → x < 2 ^ k → bit_and x (m % 2 ^ k) ≡ bit_and x m
bit_and-mod_low zero zero m h = zero-bit_and (m % 1) ∙ sym (zero-bit_and m)
bit_and-mod_low zero (suc x) m h = absurd (omega arith)
bit_and-mod_low (suc k) x m h = omega (
  arith,
  bit_and_step x (m % 2 ^ suc k),
  bit_and_step x m,
  remainder,
  bit_and-mod_low k (x / 2) (m / 2) (omega (arith, h, pow-suc 2 k)),
  ap (bit_and (x / 2)) lowered,
)
  where
    remainder : m % 2 ^ suc k ≡ m / 2 % 2 ^ k * 2 + m % 2
    remainder = rw pow-suc (double_mod m (2 ^ k) (pow-pos k))

    lowered : m % 2 ^ suc k / 2 ≡ m / 2 % 2 ^ k
    lowered = omega (arith, remainder)

pub bit_or_low : (k x : ℕ) → x < 2 ^ k → bit_or x (2 ^ k) ≡ x + 2 ^ k
bit_or_low zero zero h = zero-bit_or 1
bit_or_low zero (suc x) h = absurd (omega arith)
bit_or_low (suc k) x h = omega (
  arith,
  bit_or_step x (2 ^ suc k),
  halve_power k,
  pow-suc 2 k,
  bit_or_low k (x / 2) (omega (arith, h, pow-suc 2 k)),
  ap (bit_or (x / 2)) (halve_power k).0,
)

-- Shifting right commutes with `&`.
pub bit_and-div : (k a b : ℕ) → bit_and a b / 2 ^ k ≡ bit_and (a / 2 ^ k) (b / 2 ^ k)
bit_and-div zero a b = omega (arith, ap₂ bit_and whole_a whole_b)
  where
    whole_a : a / 1 ≡ a
    whole_a = omega arith

    whole_b : b / 1 ≡ b
    whole_b = omega arith
bit_and-div (suc k) a b =
    sym (shift (bit_and a b))
    ∙ ap (λ (n : ℕ). n / 2 ^ k) (omega (arith, bit_and_step a b))
    ∙ bit_and-div k (a / 2) (b / 2)
    ∙ ap₂ bit_and (shift a) (shift b)
  where
    double : 2 ^ suc k ≡ 2 * 2 ^ k
    double = omega (arith, pow-suc 2 k)

    shift : (n : ℕ) → n / 2 / 2 ^ k ≡ n / 2 ^ suc k
    shift n = div-div-eq-div-mul n 2 (2 ^ k) ∙ ap (λ (p : ℕ). n / p) (sym double)
