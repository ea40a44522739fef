-- ===== src/CCan/Bittiming.antt =====
-- `c_can_set_bittiming`, `c_can_save_bit_time` and the limits `c_can_bittiming_const` of
-- rtcan_c_can.c.
pub mod Fields
use rtcan_bb.Base.{ℕ, ◌+◌, ◌-◌, ◌*◌, ◌/◌, ◌%◌, ◌^◌, bit_and, bit_or}
use rtcan_bb.Rtcan.Device.{BittimeStd, BittimingConst}
use rtcan_bb.BitTiming.{sub32}
use rtcan_bb.CCan.{CPort, CCan, c_can_ctrl_reg, c_can_btr_reg, c_can_brpext_reg, c_can_write}

abbrev pub c_can_bittiming_const : BittimingConst
c_can_bittiming_const = record {
  tseg1_min = 2;
  tseg1_max = 16;
  tseg2_min = 1;
  tseg2_max = 8;
  sjw_max = 4;
  brp_min = 1;
  brp_max = 1024;
  brp_inc = 1;
}

-- `x - 1` in a `u8`.
abbrev pub pred8 : ℕ → ℕ
pred8 x = sub32 x 1 % 2 ^ 8

-- The bit timing register, and the extension of the prescaler.
unfoldable pub reg_btr : BittimeStd → ℕ
reg_btr bt =
    bit_or
      (bit_or (bit_or (bit_and (sub32 bt.brp 1) 0x3f) (pred8 bt.sjw * 2 ^ 6))
        (pred8 (bt.prop_seg + bt.phase_seg1) * 2 ^ 8))
      (pred8 bt.phase_seg2 * 2 ^ 12)

unfoldable pub reg_brpe : BittimeStd → ℕ
reg_brpe bt = bit_and (sub32 bt.brp 1 / 2 ^ 6 % 2 ^ 8) 0x0f

-- `c_can_set_bittiming`, with CONTROL_CCE | CONTROL_INIT while the registers change.
unfoldable pub c_can_set_bittiming : {B : Type 0} → CPort B → BittimeStd → B → B
unfolding reg_btr reg_brpe
c_can_set_bittiming port bt bus =
    let (ctrl_save, bus1) = port.read_reg bus c_can_ctrl_reg in
    let opened = c_can_write port c_can_ctrl_reg (bit_or ctrl_save (2 ^ 6 + 2 ^ 0)) bus1 in
    let timed = c_can_write port c_can_btr_reg (reg_btr bt) opened in
    let extended = c_can_write port c_can_brpext_reg (reg_brpe bt) timed in
    c_can_write port c_can_ctrl_reg ctrl_save extended

-- `c_can_save_bit_time`, for a bit time in its parts: it returns 0.
abbrev pub c_can_save_bit_time : {B : Type 0} → CCan B → BittimeStd → CCan B
c_can_save_bit_time st bt = record st { bit_time = bt }
