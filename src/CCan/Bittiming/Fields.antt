-- ===== src/CCan/Bittiming/Fields.antt =====
-- What the bit timing registers of a C_CAN controller hold.
use rtcan_bb.Base.{
  ℕ, ◌+◌, ◌-◌, ◌*◌, ◌/◌, ◌%◌, ◌^◌, ◌≤◌, ◌<◌, ◌≢◌, ◌≡◌, bit_and, bit_or, sym, subst, ap, ap₂, ◌∙◌,
  arith, none, some, update,
}
use rtcan_bb.Base.Bits.{bit_and_mask}
use rtcan_bb.Base.Bits.Shifts.{add-bit_or}
use rtcan_bb.Rtcan.Device.{BittimeStd}
use rtcan_bb.BitTiming.{sub32, segments, cia_sample_point, calc_with, timed}
use rtcan_bb.BitTiming.Result.{IsController, IsUsable, calc_with-IsUsable}
use rtcan_bb.CCan.{CPort, c_can_ctrl_reg, c_can_btr_reg, c_can_brpext_reg}
use rtcan_bb.CCan.Bittiming.{c_can_bittiming_const, pred8, reg_btr, reg_brpe, c_can_set_bittiming}

-- Registers that keep what is written, without power management.
abbrev pub c_can_registers : CPort (ℕ → ℕ)
c_can_registers = record {
  read_reg = λ bus reg. (bus reg, bus);
  write_reg = update;
  raminit = none;
  runtime = none;
}

-- A bit time within the limits of the controller.
abbrev pub IsWithin : BittimeStd → Type 0
IsWithin bt =
    ((1 ≤ bt.brp) × (bt.brp ≤ 1024))
    × ((1 ≤ bt.sjw) × (bt.sjw ≤ 4))
    × ((1 ≤ bt.prop_seg + bt.phase_seg1) × (bt.prop_seg + bt.phase_seg1 ≤ 16))
    × ((1 ≤ bt.phase_seg2) × (bt.phase_seg2 ≤ 8))

-- What the chip takes from the two registers, by its manual: a prescaler of ten bits, the jump
-- width and the two segments.
abbrev pub IsTimed : (btr brpe : ℕ) → BittimeStd → Type 0
IsTimed btr brpe bt =
    (brpe % 2 ^ 4 * 2 ^ 6 + btr % 2 ^ 6 + 1 ≡ bt.brp)
    × (btr / 2 ^ 6 % 2 ^ 2 + 1 ≡ bt.sjw)
    × (btr / 2 ^ 8 % 2 ^ 4 + 1 ≡ bt.prop_seg + bt.phase_seg1)
    × (btr / 2 ^ 12 % 2 ^ 3 + 1 ≡ bt.phase_seg2)

pred8-eq : (n : ℕ) → 1 ≤ n → n ≤ 16 → pred8 n ≡ n - 1
pred8-eq n h h' = omega arith

low_bits : (brp : ℕ) → 1 ≤ brp → brp ≤ 1024 → bit_and (sub32 brp 1) 0x3f ≡ (brp - 1) % 2 ^ 6
low_bits brp h h' = bit_and_mask 6 (sub32 brp 1) ∙ omega arith

reg_brpe-eq : (bt : BittimeStd) → 1 ≤ bt.brp → bt.brp ≤ 1024 → reg_brpe bt ≡ (bt.brp - 1) / 2 ^ 6
unfolding reg_brpe
reg_brpe-eq bt h h' = bit_and_mask 4 (sub32 bt.brp 1 / 2 ^ 6 % 2 ^ 8) ∙ omega arith

reg_btr-fields :
    (bt : BittimeStd)
    → IsWithin bt
    → reg_btr bt
      ≡ (bt.phase_seg2 - 1) * 2 ^ 12
        + ((bt.prop_seg + bt.phase_seg1 - 1) * 2 ^ 8
            + ((bt.sjw - 1) * 2 ^ 6 + (bt.brp - 1) % 2 ^ 6))
unfolding reg_btr
reg_btr-fields bt ((b, b'), (j, j'), (t, t'), (u, u')) =
    ap₂ bit_or
      (ap₂ bit_or
          (ap₂ bit_or (low_bits bt.brp b b')
              (ap (λ (n : ℕ). n * 2 ^ 6) (pred8-eq bt.sjw j (omega arith)))
            ∙ add-bit_or 6 (bt.sjw - 1) ((bt.brp - 1) % 2 ^ 6) (omega arith))
          (ap (λ (n : ℕ). n * 2 ^ 8) (pred8-eq (bt.prop_seg + bt.phase_seg1) t t'))
        ∙ add-bit_or 8 (bt.prop_seg + bt.phase_seg1 - 1)
            ((bt.sjw - 1) * 2 ^ 6 + (bt.brp - 1) % 2 ^ 6) (omega arith))
      (ap (λ (n : ℕ). n * 2 ^ 12) (pred8-eq bt.phase_seg2 u (omega arith)))
    ∙ add-bit_or 12 (bt.phase_seg2 - 1)
        ((bt.prop_seg + bt.phase_seg1 - 1) * 2 ^ 8 + ((bt.sjw - 1) * 2 ^ 6 + (bt.brp - 1) % 2 ^ 6))
        (omega arith)

fields-IsTimed :
    (bt : BittimeStd)
    → IsWithin bt
    → IsTimed
        (((bt.phase_seg2 - 1) * 2 ^ 12
            + ((bt.prop_seg + bt.phase_seg1 - 1) * 2 ^ 8
                + ((bt.sjw - 1) * 2 ^ 6 + (bt.brp - 1) % 2 ^ 6)))
          % 2 ^ 16)
        ((bt.brp - 1) / 2 ^ 6 % 2 ^ 16)
        bt
fields-IsTimed bt h = (omega arith, omega arith, omega arith, omega arith)

-- For a bit time within the limits of the controller, on a chip that stores what is written to its
-- registers of 16 bits: after `c_can_set_bittiming` the bit timing register and the prescaler
-- extension hold, field by field, the prescaler, the jump width and the segments asked for, and
-- every other register, the control register too, is as it was.
pub set_bittiming-IsTimed :
    (bt : BittimeStd) (bus : ℕ → ℕ)
    → IsWithin bt
    → bus c_can_ctrl_reg < 2 ^ 16
    → IsTimed
        (c_can_set_bittiming c_can_registers bt bus c_can_btr_reg)
        (c_can_set_bittiming c_can_registers bt bus c_can_brpext_reg)
        bt
      × ((reg : ℕ)
          → reg ≢ c_can_btr_reg
          → reg ≢ c_can_brpext_reg
          → c_can_set_bittiming c_can_registers bt bus reg ≡ bus reg)
unfolding c_can_set_bittiming
set_bittiming-IsTimed bt bus h h' = (
  subst (λ (x : ℕ × ℕ). IsTimed (x.0 % 2 ^ 16) (x.1 % 2 ^ 16) bt)
      (sym (ap₂ (λ (a b : ℕ). (a, b)) (reg_btr-fields bt h) (reg_brpe-eq bt h.0.0 h.0.1)))
      (fields-IsTimed bt h),
  λ reg p q. restored reg p q,
)
  where
    restored :
        (reg : ℕ)
        → reg ≢ c_can_btr_reg
        → reg ≢ c_can_brpext_reg
        → c_can_set_bittiming c_can_registers bt bus reg ≡ bus reg
    restored reg p q = ground (arith, p, q, h', ap bus)

-- The first segment keeps its minimum: what the sample point asks for.
c_can_tseg1-min :
    (bitrate tseg : ℕ)
    → 3 ≤ tseg
    → tseg ≤ 24
    → 1 ≤ (segments c_can_bittiming_const (cia_sample_point bitrate) tseg).tseg1
unfolding segments
c_can_tseg1-min bitrate tseg h h' = ground arith

c_can-IsController : IsController c_can_bittiming_const
c_can-IsController = record {
  some_quanta = omega arith;
  tseg1_order = omega arith;
  tseg2_order = omega arith;
  few_quanta = (omega arith, omega arith);
}

usable-IsWithin :
    (clock bitrate : ℕ) (bt : BittimeStd)
    → IsUsable clock c_can_bittiming_const bitrate bt
    → IsWithin bt
usable-IsWithin clock bitrate bt u = (
  (u.brp_limits.0, u.brp_limits.1),
  (omega (arith, u.jump), omega (arith, u.jump)),
  (omega (arith, u.split.3, c_can_tseg1-min bitrate u.split.0 u.split.1 u.split.2), u.tseg1_limit),
  (u.tseg2_limits.0, u.tseg2_limits.1),
)

-- For a bit rate other than 0 in 32 bits: when the bit timing calculated with the limits of the
-- C_CAN controller succeeds, the registers that `c_can_set_bittiming` then writes give the
-- calculated prescaler, jump width and segments back.
pub calc_with-IsTimed :
    (clock bitrate : ℕ) (bt bt' : BittimeStd) (bus : ℕ → ℕ)
    → 1 ≤ bitrate
    → bitrate < 2 ^ 32
    → bus c_can_ctrl_reg < 2 ^ 16
    → calc_with clock c_can_bittiming_const bitrate bt ≡ some (timed bt')
    → IsTimed
        (c_can_set_bittiming c_can_registers bt' bus c_can_btr_reg)
        (c_can_set_bittiming c_can_registers bt' bus c_can_brpext_reg)
        bt'
calc_with-IsTimed clock bitrate bt bt' bus h h' c e =
    (set_bittiming-IsTimed bt' bus
      (usable-IsWithin clock bitrate bt'
        (calc_with-IsUsable clock c_can_bittiming_const bitrate bt bt' c_can-IsController h h' e))
      c).0
