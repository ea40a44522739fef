-- ===== src/Flexcan/Timing.antt =====
-- The bit timing: `flexcan_save_bit_time` and `flexcan_set_bit_time` of can/rtcan_flexcan.c.
use rtcan_bb.Base.{ℕ, ◌+◌, ◌*◌, ◌^◌, bit_and, bit_or, if◌then◌else◌}
use rtcan_bb.Rtcan.Abi.{Ret, ok, err, einval, can_ctrlmode_listenonly, can_ctrlmode_loopback}
use rtcan_bb.Rtcan.Device.{Bittime, std, btr, BittimeStd, BittimingConst}
use rtcan_bb.BitTiming.{sub32}
use rtcan_bb.Sja1000.Errors.{has}
use rtcan_bb.Flexcan.Regs
use rtcan_bb.Flexcan.{FlexcanPort, Flexcan, bit, not32, flexcan_change}

-- The limits that `rtcan_calc_bit_time` gets.
abbrev pub flexcan_bittiming_const : BittimingConst
flexcan_bittiming_const = record {
  tseg1_min = 4;
  tseg1_max = 16;
  tseg2_min = 2;
  tseg2_max = 8;
  sjw_max = 4;
  brp_min = 1;
  brp_max = 256;
  brp_inc = 1;
}

-- CAN_CTRLMODE_3_SAMPLES
abbrev pub can_ctrlmode_3_samples : ℕ
can_ctrlmode_3_samples = 4

-- The fields of the control register.
abbrev pub flexcan_ctrl_presdiv : ℕ → ℕ
flexcan_ctrl_presdiv x = bit_and x 0xff * 2 ^ 24

abbrev pub flexcan_ctrl_rjw : ℕ → ℕ
flexcan_ctrl_rjw x = bit_and x 0x03 * 2 ^ 22

abbrev pub flexcan_ctrl_pseg1 : ℕ → ℕ
flexcan_ctrl_pseg1 x = bit_and x 0x07 * 2 ^ 19

abbrev pub flexcan_ctrl_pseg2 : ℕ → ℕ
flexcan_ctrl_pseg2 x = bit_and x 0x07 * 2 ^ 16

abbrev pub flexcan_ctrl_propseg : ℕ → ℕ
flexcan_ctrl_propseg x = bit_and x 0x07

abbrev pub flexcan_ctrl_lpb : ℕ
flexcan_ctrl_lpb = bit 12

abbrev pub flexcan_ctrl_smp : ℕ
flexcan_ctrl_smp = bit 7

abbrev pub flexcan_ctrl_lom : ℕ
flexcan_ctrl_lom = bit 3

-- All of them, which the new value replaces; its parts do not overlap.
abbrev pub flexcan_ctrl_timing : ℕ
flexcan_ctrl_timing =
    0xff * 2 ^ 24 + 0x3 * 2 ^ 22 + 0x7 * 2 ^ 19 + 0x7 * 2 ^ 16 + 0x7 + bit 12 + bit 7 + bit 3

unfoldable pub flexcan_ctrl_of : BittimeStd → ℕ → ℕ
flexcan_ctrl_of bt reg =
    let cleared = bit_and reg (not32 flexcan_ctrl_timing) in
    let presdiv = flexcan_ctrl_presdiv (sub32 bt.brp 1) in
    let segments =
      bit_or (bit_or presdiv (flexcan_ctrl_pseg1 (sub32 bt.phase_seg1 1)))
        (flexcan_ctrl_pseg2 (sub32 bt.phase_seg2 1)) in
    bit_or cleared (
      bit_or (bit_or segments (flexcan_ctrl_rjw (sub32 bt.sjw 1)))
        (flexcan_ctrl_propseg (sub32 bt.prop_seg 1)))

-- `if (dev->ctrl_mode & …) reg |= …`
abbrev pub flexcan_follow : ℕ → ℕ → ℕ → ℕ → ℕ
flexcan_follow ctrl_mode flag mask reg = if has ctrl_mode flag then bit_or reg mask else reg

unfoldable pub flexcan_mode_bits : ℕ → ℕ → ℕ
flexcan_mode_bits ctrl_mode reg = flexcan_follow ctrl_mode can_ctrlmode_3_samples flexcan_ctrl_smp (
    flexcan_follow ctrl_mode can_ctrlmode_listenonly flexcan_ctrl_lom
      (flexcan_follow ctrl_mode can_ctrlmode_loopback flexcan_ctrl_lpb reg))

-- `flexcan_save_bit_time`: it returns 0.
unfoldable pub flexcan_save_bit_time : {B : Type 0} → Flexcan B → Bittime → Flexcan B
flexcan_save_bit_time st bit_time = record st { bit_time = bit_time }

-- `flexcan_set_bit_time`
unfoldable pub flexcan_set_bit_time : {B : Type 0} → FlexcanPort B → Flexcan B → Ret × Flexcan B
unfolding flexcan_ctrl_of flexcan_mode_bits
flexcan_set_bit_time port st = elim st.bit_time [
  | btr btr0 btr1 ↦ (err einval, st)
  | std bt ↦ (
    ok 0,
    flexcan_change port (λ reg. flexcan_mode_bits st.dev.ctrl_mode (flexcan_ctrl_of bt reg))
        Regs.ctrl st,
  )
]
