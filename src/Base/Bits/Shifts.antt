-- ===== src/Base/Bits/Shifts.antt =====
-- `&` and `|` of numbers in two parts: the digits below a place, and those from it on.
use Prim.Native.Nat.{ℕ, zero, suc, ◌+◌, ◌*◌, ◌/◌, ◌%◌, ◌^◌, ◌≤◌, ◌<◌, bit_and, bit_or}
use mathlib.Core.Path.{◌≡◌, ap, ap₂, ◌∙◌}
use native.Mathlib.Omega.{arith}
use native.Mathlib.Nat.{pow-suc}
use rtcan_bb.Base.Bits.{bit_and_step, bit_or_step, zero-bit_or, zero-bit_and, pow-pos}

-- The last digit of a number in two parts, and the number without it.
peeled :
    (k a b : ℕ) → ((a * 2 ^ suc k + b) / 2 ≡ a * 2 ^ k + b / 2) × ((a * 2 ^ suc k + b) % 2 ≡ b % 2)
peeled k a b =
    let doubled : a * 2 ^ suc k ≡ a * 2 ^ k * 2 =
      omega (arith, ap (λ (p : ℕ). a * p) (pow-suc 2 k)) in
    (omega (arith, doubled), omega (arith, doubled))

at_zero : (a b : ℕ) → b < 2 ^ 0 → a * 2 ^ 0 + b ≡ a
at_zero a b h = omega arith

below : (b : ℕ) → b < 2 ^ 0 → b ≡ 0
below b h = omega arith

pub bit_or_split :
    (k a b c d : ℕ)
    → b < 2 ^ k
    → d < 2 ^ k
    → bit_or (a * 2 ^ k + b) (c * 2 ^ k + d) ≡ bit_or a c * 2 ^ k + bit_or b d
bit_or_split zero a b c d h h' = omega (
  arith,
  ap₂ bit_or (at_zero a b h) (at_zero c d h'),
  ap₂ bit_or (below b h) (below d h'),
  zero-bit_or 0,
)
bit_or_split (suc k) a b c d h h' = omega (
  arith,
  bit_or_step (a * 2 ^ suc k + b) (c * 2 ^ suc k + d),
  bit_or_step b d,
  ap₂ bit_or (peeled k a b).0 (peeled k c d).0,
  (peeled k a b).1,
  (peeled k c d).1,
  bit_or_split k a (b / 2) c (d / 2) (omega (arith, pow-suc 2 k)) (omega (arith, pow-suc 2 k)),
  ap (λ (p : ℕ). bit_or a c * p) (pow-suc 2 k),
)

pub bit_and_split :
    (k a b c d : ℕ)
    → b < 2 ^ k
    → d < 2 ^ k
    → bit_and (a * 2 ^ k + b) (c * 2 ^ k + d) ≡ bit_and a c * 2 ^ k + bit_and b d
bit_and_split zero a b c d h h' = omega (
  arith,
  ap₂ bit_and (at_zero a b h) (at_zero c d h'),
  ap₂ bit_and (below b h) (below d h'),
  zero-bit_and 0,
)
bit_and_split (suc k) a b c d h h' = omega (
  arith,
  bit_and_step (a * 2 ^ suc k + b) (c * 2 ^ suc k + d),
  bit_and_step b d,
  ap₂ bit_and (peeled k a b).0 (peeled k c d).0,
  (peeled k a b).1,
  (peeled k c d).1,
  bit_and_split k a (b / 2) c (d / 2) (omega (arith, pow-suc 2 k)) (omega (arith, pow-suc 2 k)),
  ap (λ (p : ℕ). bit_and a c * p) (pow-suc 2 k),
)

or_zero : (n a : ℕ) → a ≤ n → bit_or a 0 ≡ a
or_zero n zero h = zero-bit_or 0
or_zero zero (suc a) h = absurd (omega arith)
or_zero (suc n) (suc a) h =
    bit_or_step (suc a) 0 ∙ omega (arith, or_zero n (suc a / 2) (omega arith))

pub bit_or-zero : (a : ℕ) → bit_or a 0 ≡ a
bit_or-zero a = or_zero a a (omega arith)

-- A field and what stands below it, in either order.
pub bit_or-add : (k a b : ℕ) → b < 2 ^ k → bit_or (a * 2 ^ k) b ≡ a * 2 ^ k + b
bit_or-add k a b h =
    ap (λ (n : ℕ). bit_or n b) {x = a * 2 ^ k} {y = a * 2 ^ k + 0} (omega arith)
    ∙ ap (λ (n : ℕ). bit_or (a * 2 ^ k + 0) n) {x = b} {y = 0 * 2 ^ k + b} (omega arith)
    ∙ bit_or_split k a 0 0 b (pow-pos k) h
    ∙ omega (arith, ap (λ (n : ℕ). n * 2 ^ k) (bit_or-zero a), zero-bit_or b)

pub add-bit_or : (k a b : ℕ) → b < 2 ^ k → bit_or b (a * 2 ^ k) ≡ a * 2 ^ k + b
add-bit_or k a b h =
    ap (λ (n : ℕ). bit_or n (a * 2 ^ k)) {x = b} {y = 0 * 2 ^ k + b} (omega arith)
    ∙ ap (λ (n : ℕ). bit_or (0 * 2 ^ k + b) n) {x = a * 2 ^ k} {y = a * 2 ^ k + 0} (omega arith)
    ∙ bit_or_split k 0 b a 0 h (pow-pos k)
    ∙ omega (arith, ap (λ (n : ℕ). n * 2 ^ k) (zero-bit_or a), bit_or-zero b)
