-- ===== src/Mscan/Frames/Fields.antt =====
-- The fields of an identifier in the bytes of a message buffer of the MSCAN.
use rtcan_bb.Base.{
  ℕ, ◌+◌, ◌-◌, ◌*◌, ◌/◌, ◌%◌, ◌^◌, ◌<◌, ◌≡◌, sym, ap, ap₂, ◌∙◌, arith, bit_and, bit_or,
}
use rtcan_bb.Base.Bits.{bit_and_mask, bit_or_low, pow-pos, bit_and-zero}
use rtcan_bb.Base.Bits.Shifts.{bit_and_split, bit_or-add, bit_or_split, bit_or-zero}
use native.Mathlib.Nat.{div-add-mod', mod-lt}

-- A mask of `w` bits from `k` on takes the field there out of a number.
pub bit_and_field : (k w a : ℕ) → bit_and a ((2 ^ w - 1) * 2 ^ k) ≡ a / 2 ^ k % 2 ^ w * 2 ^ k
bit_and_field k w a =
    ap₂ bit_and {x = a} {y = a / 2 ^ k * 2 ^ k + a % 2 ^ k} {u = (2 ^ w - 1) * 2 ^ k}
      {v = (2 ^ w - 1) * 2 ^ k + 0} (sym (div-add-mod' a (2 ^ k))) (omega arith)
    ∙ bit_and_split k (a / 2 ^ k) (a % 2 ^ k) (2 ^ w - 1) 0 (mod-lt a (pow-pos k)) (pow-pos k)
    ∙ omega
        (arith, ap (λ (n : ℕ). n * 2 ^ k) (bit_and_mask w (a / 2 ^ k)), bit_and-zero (a % 2 ^ k))

-- The second byte of an extended identifier: two fields of three bits and two fixed bits between.
pub second_byte :
    (hi lo : ℕ)
    → hi < 2 ^ 3
    → lo < 2 ^ 3
    → bit_or (bit_or (hi * 2 ^ 5) lo) 0x18 ≡ hi * 2 ^ 5 + 0x18 + lo
second_byte hi lo h h' =
    ap (λ (n : ℕ). bit_or n 0x18) {y = hi * 2 ^ 2 * 2 ^ 3 + lo}
      (bit_or-add 5 hi lo (omega arith) ∙ omega arith)
    ∙ bit_or_split 3 (hi * 2 ^ 2) lo 3 0 h' (omega arith)
    ∙ omega (arith, ap (λ (n : ℕ). n * 2 ^ 3) (bit_or-add 2 hi 3 (omega arith)), bit_or-zero lo)

-- The identifier from its fields, as the reception joins them.
pub joined :
    (a b c d e : ℕ)
    → b < 2 ^ 3
    → c < 2 ^ 3
    → d < 2 ^ 8
    → e < 2 ^ 7
    → a < 2 ^ 8
    → bit_or
        (bit_or (bit_or (bit_or (bit_or (a * 2 ^ 21) (b * 2 ^ 18)) (c * 2 ^ 15)) (d * 2 ^ 7)) e)
        (2 ^ 31)
      ≡ 2 ^ 31 + a * 2 ^ 21 + b * 2 ^ 18 + c * 2 ^ 15 + d * 2 ^ 7 + e
joined a b c d e hb hc hd he ha =
    ap (λ (n : ℕ). bit_or (bit_or (bit_or (bit_or n (c * 2 ^ 15)) (d * 2 ^ 7)) e) (2 ^ 31))
      {y = (a * 2 ^ 3 + b) * 2 ^ 18} (bit_or-add 21 a (b * 2 ^ 18) (omega arith) ∙ omega arith)
    ∙ ap (λ (n : ℕ). bit_or (bit_or (bit_or n (d * 2 ^ 7)) e) (2 ^ 31))
        {y = ((a * 2 ^ 3 + b) * 2 ^ 3 + c) * 2 ^ 15}
        (bit_or-add 18 (a * 2 ^ 3 + b) (c * 2 ^ 15) (omega arith) ∙ omega arith)
    ∙ ap (λ (n : ℕ). bit_or (bit_or n e) (2 ^ 31))
        {y = (((a * 2 ^ 3 + b) * 2 ^ 3 + c) * 2 ^ 8 + d) * 2 ^ 7}
        (bit_or-add 15 ((a * 2 ^ 3 + b) * 2 ^ 3 + c) (d * 2 ^ 7) (omega arith) ∙ omega arith)
    ∙ ap (λ (n : ℕ). bit_or n (2 ^ 31))
        {y = (((a * 2 ^ 3 + b) * 2 ^ 3 + c) * 2 ^ 8 + d) * 2 ^ 7 + e}
        (bit_or-add 7 (((a * 2 ^ 3 + b) * 2 ^ 3 + c) * 2 ^ 8 + d) e (omega arith))
    ∙ bit_or_low 31 ((((a * 2 ^ 3 + b) * 2 ^ 3 + c) * 2 ^ 8 + d) * 2 ^ 7 + e) (omega arith)
    ∙ omega arith
