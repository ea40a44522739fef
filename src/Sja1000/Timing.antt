-- ===== src/Sja1000/Timing.antt =====
-- The bit timing registers: `rtcan_sja_set_bit_time` of can/sja1000/rtcan_sja1000.c, with its macros
-- BTR0_SET_* and BTR1_SET_*.
use rtcan_bb.Base.{
  ℕ, ◌+◌, ◌-◌, ◌*◌, ◌/◌, ◌%◌, ◌^◌, ◌≤◌, ◌<◌, ◌≢◌, bit_and, bit_or, ◌≡◌, refl, sym, subst, ap, ap₂,
  ◌∙◌, arith, some,
}
use rtcan_bb.Base.Bits.{bit_and_mask, zero-bit_and}
use rtcan_bb.Base.Bits.Shifts.{bit_and_split, add-bit_or}
use native.Mathlib.Nat.{mod-eq_of_lt}
use rtcan_bb.Rtcan.Device.{Bittime, std, btr, BittimeStd, BittimingConst}
use rtcan_bb.BitTiming.{sub32, u32, segments, cia_sample_point, calc_with, timed}
use rtcan_bb.BitTiming.Result.{IsController, IsUsable, calc_with-IsUsable}
use rtcan_bb.Sja1000.Frames.Wire.{registers}
use rtcan_bb.Sja1000.{Port, put, Sja, sja_btr0, sja_btr1}

-- BTR0_SET_BRP and the others. An `int` below 0 is its pattern in 32 bits.
abbrev pub btr0_set_brp : ℕ → ℕ
btr0_set_brp brp = bit_and (sub32 brp 1) 0x3f

abbrev pub btr0_set_sjw : ℕ → ℕ
btr0_set_sjw sjw = bit_and (u32 (sub32 sjw 1 * 2 ^ 6)) (3 * 2 ^ 6)

abbrev pub btr1_set_tseg1 : ℕ → ℕ
btr1_set_tseg1 tseg1 = bit_and (sub32 tseg1 1) 0xf

abbrev pub btr1_set_tseg2 : ℕ → ℕ
btr1_set_tseg2 tseg2 = bit_and (u32 (sub32 tseg2 1 * 2 ^ 4)) (7 * 2 ^ 4)

abbrev pub btr1_set_sam : ℕ → ℕ
btr1_set_sam sam = bit_and sam 1 * 2 ^ 7

-- The limits that `rtcan_calc_bit_time` gets.
abbrev pub sja1000_bittiming_const : BittimingConst
sja1000_bittiming_const = record {
  tseg1_min = 1;
  tseg1_max = 16;
  tseg2_min = 1;
  tseg2_max = 8;
  sjw_max = 4;
  brp_min = 1;
  brp_max = 64;
  brp_inc = 1;
}

-- The two registers.
unfoldable pub btr_of : Bittime → ℕ × ℕ
btr_of (btr btr0 btr1) = (btr0, btr1)
btr_of (std bt) = (
  bit_or (btr0_set_brp bt.brp) (btr0_set_sjw bt.sjw),
  bit_or (bit_or (btr1_set_tseg1 (bt.prop_seg + bt.phase_seg1)) (btr1_set_tseg2 bt.phase_seg2))
      (btr1_set_sam bt.sam),
)

-- `rtcan_sja_set_bit_time`, for the two types of bit time: it returns 0.
unfoldable pub sja_set_bit_time : {B : Type 0} → Port B → Sja B → Bittime → Sja B
unfolding btr_of
sja_set_bit_time port st bit_time = record st {
  bus = put port (put port st.bus sja_btr0 (btr_of bit_time).0) sja_btr1 (btr_of bit_time).1;
}

-- What the chip takes from the two registers, by its data sheet: the prescaler, the jump width, the
-- two segments and whether it samples three times.
abbrev pub Programmed : ℕ → ℕ → BittimeStd → Type 0
Programmed btr0 btr1 bt =
    (btr0 % 2 ^ 6 + 1 ≡ bt.brp)
    × (btr0 / 2 ^ 6 + 1 ≡ bt.sjw)
    × (btr1 % 2 ^ 4 + 1 ≡ bt.prop_seg + bt.phase_seg1)
    × (btr1 / 2 ^ 4 % 2 ^ 3 + 1 ≡ bt.phase_seg2)
    × (btr1 / 2 ^ 7 ≡ bt.sam)

-- A bit time within the limits of the controller.
abbrev pub IsInLimits : BittimeStd → Type 0
IsInLimits bt =
    ((1 ≤ bt.brp) × (bt.brp ≤ 64))
    × ((1 ≤ bt.sjw) × (bt.sjw ≤ 4))
    × ((1 ≤ bt.prop_seg + bt.phase_seg1) × (bt.prop_seg + bt.phase_seg1 ≤ 16))
    × ((1 ≤ bt.phase_seg2) × (bt.phase_seg2 ≤ 8))
    × (bt.sam ≤ 1)

-- A predecessor in 32 bits, and a field of the registers.
pred32 : (n : ℕ) → 1 ≤ n → n ≤ 64 → sub32 n 1 ≡ n - 1
pred32 n h h' = omega arith

field : (k w n : ℕ) → n < 2 ^ w → 1 ≤ 2 ^ k → bit_and (n * 2 ^ k) ((2 ^ w - 1) * 2 ^ k) ≡ n * 2 ^ k
field k w n h h' =
    ap₂ bit_and {x = n * 2 ^ k} {y = n * 2 ^ k + 0} {u = (2 ^ w - 1) * 2 ^ k}
      {v = (2 ^ w - 1) * 2 ^ k + 0} (omega arith) (omega arith)
    ∙ bit_and_split k n 0 (2 ^ w - 1) 0 h' h'
    ∙ omega (arith, ap (λ (m : ℕ). m * 2 ^ k) (bit_and_mask w n ∙ mod-eq_of_lt h), zero-bit_and 0)

low_field : (w n : ℕ) → n < 2 ^ w → bit_and n (2 ^ w - 1) ≡ n
low_field w n h = bit_and_mask w n ∙ mod-eq_of_lt h

set_brp : (brp : ℕ) → 1 ≤ brp → brp ≤ 64 → btr0_set_brp brp ≡ brp - 1
set_brp brp h h' =
    ap (λ (n : ℕ). bit_and n 0x3f) (pred32 brp h h') ∙ low_field 6 (brp - 1) (omega arith)

set_sjw : (sjw : ℕ) → 1 ≤ sjw → sjw ≤ 4 → btr0_set_sjw sjw ≡ (sjw - 1) * 2 ^ 6
set_sjw sjw h h' =
    ap (λ (n : ℕ). bit_and n (3 * 2 ^ 6)) {x = u32 (sub32 sjw 1 * 2 ^ 6)} {y = (sjw - 1) * 2 ^ 6}
      (omega arith)
    ∙ field 6 2 (sjw - 1) (omega arith) (omega arith)

set_tseg1 : (tseg1 : ℕ) → 1 ≤ tseg1 → tseg1 ≤ 16 → btr1_set_tseg1 tseg1 ≡ tseg1 - 1
set_tseg1 tseg1 h h' =
    ap (λ (n : ℕ). bit_and n 0xf) (pred32 tseg1 h (omega arith))
    ∙ low_field 4 (tseg1 - 1) (omega arith)

set_tseg2 : (tseg2 : ℕ) → 1 ≤ tseg2 → tseg2 ≤ 8 → btr1_set_tseg2 tseg2 ≡ (tseg2 - 1) * 2 ^ 4
set_tseg2 tseg2 h h' =
    ap (λ (n : ℕ). bit_and n (7 * 2 ^ 4)) {x = u32 (sub32 tseg2 1 * 2 ^ 4)}
      {y = (tseg2 - 1) * 2 ^ 4} (omega arith)
    ∙ field 4 3 (tseg2 - 1) (omega arith) (omega arith)

set_sam : (sam : ℕ) → sam ≤ 1 → btr1_set_sam sam ≡ sam * 2 ^ 7
set_sam sam h = ap (λ (n : ℕ). n * 2 ^ 7) (low_field 1 sam (omega arith))

-- The registers of a bit time within the limits, as sums of their fields.
btr0-fields :
    (bt : BittimeStd) → IsInLimits bt → (btr_of (std bt)).0 ≡ (bt.sjw - 1) * 2 ^ 6 + (bt.brp - 1)
unfolding btr_of
btr0-fields bt ((b, b'), (j, j'), t1, t2, s) =
    ap₂ bit_or (set_brp bt.brp b b') (set_sjw bt.sjw j j')
    ∙ add-bit_or 6 (bt.sjw - 1) (bt.brp - 1) (omega arith)

btr1-fields :
    (bt : BittimeStd)
    → IsInLimits bt
    → (btr_of (std bt)).1
      ≡ bt.sam * 2 ^ 7 + ((bt.phase_seg2 - 1) * 2 ^ 4 + (bt.prop_seg + bt.phase_seg1 - 1))
unfolding btr_of
btr1-fields bt (b, j, (t, t'), (u, u'), s) =
    ap₂ bit_or
      (ap₂ bit_or (set_tseg1 (bt.prop_seg + bt.phase_seg1) t t') (set_tseg2 bt.phase_seg2 u u')
        ∙ add-bit_or 4 (bt.phase_seg2 - 1) (bt.prop_seg + bt.phase_seg1 - 1) (omega arith))
      (set_sam bt.sam s)
    ∙ add-bit_or 7 bt.sam ((bt.phase_seg2 - 1) * 2 ^ 4 + (bt.prop_seg + bt.phase_seg1 - 1))
        (omega arith)

decoded :
    (bt : BittimeStd)
    → IsInLimits bt
    → Programmed
        (((bt.sjw - 1) * 2 ^ 6 + (bt.brp - 1)) % 2 ^ 8)
        ((bt.sam * 2 ^ 7 + ((bt.phase_seg2 - 1) * 2 ^ 4 + (bt.prop_seg + bt.phase_seg1 - 1)))
          % 2 ^ 8)
        bt
decoded bt h = (omega arith, omega arith, omega arith, omega arith, omega arith)

-- For a bit time in its parts within the limits of the controller, the two registers that
-- `rtcan_sja_set_bit_time` writes to a chip that stores what is written hold, field by field, the
-- prescaler, the jump width, the two segments and the sampling that were asked for, each less one
-- but the last; every other register is left as it was, and the device too.
pub set_bit_time-Programmed :
    (st : Sja (ℕ → ℕ)) (bt : BittimeStd)
    → IsInLimits bt
    → Programmed
        ((sja_set_bit_time registers st (std bt)).bus sja_btr0)
        ((sja_set_bit_time registers st (std bt)).bus sja_btr1)
        bt
      × ((reg : ℕ)
          → reg ≢ sja_btr0
          → reg ≢ sja_btr1
          → (sja_set_bit_time registers st (std bt)).bus reg ≡ st.bus reg)
      × ((sja_set_bit_time registers st (std bt)).dev ≡ st.dev)
unfolding sja_set_bit_time
set_bit_time-Programmed st bt h = (
  subst (λ (x : ℕ × ℕ). Programmed (x.0 % 2 ^ 8) (x.1 % 2 ^ 8) bt)
      (sym (ap₂ (λ (a b : ℕ). (a, b)) (btr0-fields bt h) (btr1-fields bt h))) (decoded bt h),
  λ reg p q. ground (arith, p, q),
  refl,
)

-- The first segment is never empty: what the sample point asks for.
tseg1-pos :
    (bitrate tseg : ℕ)
    → 2 ≤ tseg
    → tseg ≤ 24
    → 1 ≤ (segments sja1000_bittiming_const (cia_sample_point bitrate) tseg).tseg1
unfolding segments
tseg1-pos bitrate tseg h h' = ground arith

sja-IsController : IsController sja1000_bittiming_const
sja-IsController = record {
  some_quanta = omega arith;
  tseg1_order = omega arith;
  tseg2_order = omega arith;
  few_quanta = (omega arith, omega arith);
}

usable-IsInLimits :
    (clock bitrate : ℕ) (bt : BittimeStd)
    → IsUsable clock sja1000_bittiming_const bitrate bt
    → bt.sam ≤ 1
    → IsInLimits bt
usable-IsInLimits clock bitrate bt u s = (
  (u.brp_limits.0, u.brp_limits.1),
  (omega (arith, u.jump), omega (arith, u.jump)),
  (first, u.tseg1_limit),
  (u.tseg2_limits.0, u.tseg2_limits.1),
  s,
)
  where
    first : 1 ≤ bt.prop_seg + bt.phase_seg1
    first = omega (arith, u.split.3, tseg1-pos bitrate u.split.0 u.split.1 u.split.2)

-- For a bit rate other than 0 in 32 bits: when the bit timing calculated with the limits of the
-- SJA1000 succeeds, and its sampling field holds one bit, the registers that `rtcan_sja_set_bit_time`
-- then writes give the calculated prescaler, jump width, segments and sampling back.
pub calc_with-Programmed :
    (clock bitrate : ℕ) (bt bt' : BittimeStd) (st : Sja (ℕ → ℕ))
    → 1 ≤ bitrate
    → bitrate < 2 ^ 32
    → calc_with clock sja1000_bittiming_const bitrate bt ≡ some (timed bt')
    → bt'.sam ≤ 1
    → Programmed
        ((sja_set_bit_time registers st (std bt')).bus sja_btr0)
        ((sja_set_bit_time registers st (std bt')).bus sja_btr1)
        bt'
calc_with-Programmed clock bitrate bt bt' st h h' e s =
    (set_bit_time-Programmed st bt' (
      usable-IsInLimits clock bitrate bt'
        (calc_with-IsUsable clock sja1000_bittiming_const bitrate bt bt' sja-IsController h h' e)
        s)).0
