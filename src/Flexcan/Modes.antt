-- ===== src/Flexcan/Modes.antt =====
-- Operating modes: `flexcan_chip_start`, `flexcan_chip_stop`, `flexcan_mode_stop`,
-- `flexcan_mode_start` and `flexcan_set_mode` of can/rtcan_flexcan.c.
pub mod Held
pub mod Kept
use rtcan_bb.Base.{
  ℕ, zero, suc, ◌+◌, ◌-◌, ◌*◌, ◌^◌, bit_and, bit_or, Bool, true, false, not, Option, none, some,
  ◌==◌, if◌then◌else◌,
}
use rtcan_bb.Rtcan.Abi.{Errno, enodev, eopnotsupp, Ret, ok, err, CanState, is_operating, CanMode}
use rtcan_bb.Rtcan.Socket.{sem_init, sem_destroy}
use rtcan_bb.Sja1000.Errors.{has}
use rtcan_bb.Flexcan.Regs
use rtcan_bb.Flexcan.{
  FlexcanPort, Flexcan, bit, not32, mb_ctrl, mb_id, mb_data, flexcan_mcr_mdis, flexcan_read,
  flexcan_write, flexcan_change, flexcan_chip_enable, flexcan_chip_disable, flexcan_clk_enable,
  flexcan_clk_disable, flexcan_set_state, flexcan_call_sem, flexcan_transceiver_switch,
}
use rtcan_bb.Flexcan.Frames.{
  flexcan_mb_cnt_code, flexcan_iflag_rx_fifo_available, flexcan_tx_buf_id,
}
use rtcan_bb.Flexcan.Errors.{flexcan_iflag_rx_fifo_overflow}
use rtcan_bb.Flexcan.Timing.{flexcan_set_bit_time}

abbrev pub flexcan_mcr_softrst : ℕ
flexcan_mcr_softrst = bit 25

abbrev pub flexcan_mcr_halt : ℕ
flexcan_mcr_halt = bit 28

abbrev pub flexcan_mcr_fen : ℕ
flexcan_mcr_fen = bit 29

-- FLEXCAN_MCR_FRZ | … | FLEXCAN_MCR_SRX_DIS, as a start sets them; FLEXCAN_MCR_IDAM_C is 2 << 8.
abbrev pub flexcan_mcr_config : ℕ
flexcan_mcr_config = bit 30 + bit 29 + bit 28 + bit 23 + bit 21 + 2 * 2 ^ 8 + bit 17

abbrev pub flexcan_ctrl_tsyn : ℕ
flexcan_ctrl_tsyn = bit 5

-- FLEXCAN_CTRL_BOFF_REC | FLEXCAN_CTRL_LBUF | FLEXCAN_CTRL_ERR_STATE
abbrev pub flexcan_ctrl_config : ℕ
flexcan_ctrl_config = bit 6 + bit 4 + (bit 11 + bit 10 + bit 15)

abbrev pub flexcan_ctrl_err_msk : ℕ
flexcan_ctrl_err_msk = bit 14

abbrev pub flexcan_has_v10_features : ℕ
flexcan_has_v10_features = bit 1

abbrev pub flexcan_has_broken_err_state : ℕ
flexcan_has_broken_err_state = bit 2

abbrev pub flexcan_iflag_default : ℕ
flexcan_iflag_default =
    flexcan_iflag_rx_fifo_overflow + flexcan_iflag_rx_fifo_available + bit flexcan_tx_buf_id

module _ {B : Type 0} (port : FlexcanPort B) where
  -- The loop over the message buffers, with `n` left from `i` on.
  unfoldable pub flexcan_clear_buffers : (i n : ℕ) → Flexcan B → Flexcan B
  flexcan_clear_buffers i zero st = st
  flexcan_clear_buffers i (suc n) st =
      let st1 = flexcan_write port (flexcan_write port st (mb_ctrl i) 0) (mb_id i) 0 in
      let st2 = flexcan_write port (flexcan_write port st1 (mb_data i 0) 0) (mb_data i 1) 0 in
      flexcan_clear_buffers (suc i) n (flexcan_write port st2 (mb_ctrl i) (flexcan_mb_cnt_code 0x4))

  -- The control register of a start.
  unfoldable pub flexcan_set_ctrl : Flexcan B → Flexcan B
  flexcan_set_ctrl st =
      let (reg, st1) = flexcan_read port st Regs.ctrl in
      let basic = bit_or (bit_and reg (not32 flexcan_ctrl_tsyn)) flexcan_ctrl_config in
      let reg_ctrl =
        (if has st.features flexcan_has_broken_err_state
          then bit_or basic flexcan_ctrl_err_msk
          else basic) in
      flexcan_write port (record st1 { reg_ctrl_default = reg_ctrl }) Regs.ctrl reg_ctrl

  -- The acceptance masks.
  unfoldable pub flexcan_accept_all : Flexcan B → Flexcan B
  flexcan_accept_all st =
      let st1 = flexcan_write port (flexcan_write port st Regs.rxgmask 0) Regs.rx14mask 0 in
      let st2 = flexcan_write port st1 Regs.rx15mask 0 in
      if has st.features flexcan_has_v10_features
      then flexcan_write port st2 Regs.rxfgmask 0
      else st2

  -- `flexcan_chip_start` between the reset and the new state. What setting the bit time returns is
  -- not looked at.
  unfoldable pub flexcan_halt : Flexcan B → Flexcan B
  flexcan_halt st =
      flexcan_change port (λ reg. bit_or reg flexcan_mcr_config) Regs.mcr
        (flexcan_set_bit_time port st).1

  unfoldable pub flexcan_prepare : Flexcan B → Flexcan B
  unfolding flexcan_halt flexcan_clear_buffers flexcan_set_ctrl flexcan_accept_all
  flexcan_prepare st =
      flexcan_change port (λ reg. bit_and reg (not32 flexcan_mcr_halt)) Regs.mcr
        (flexcan_transceiver_switch port true
          (flexcan_accept_all (flexcan_clear_buffers 0 64 (flexcan_set_ctrl (flexcan_halt st)))))

  -- The rest of it.
  unfoldable pub flexcan_configure : Flexcan B → Flexcan B
  unfolding flexcan_prepare
  flexcan_configure st =
      flexcan_write port (flexcan_set_state (flexcan_prepare st) CanState.active) Regs.imask1
        flexcan_iflag_default

  -- `flexcan_chip_start`
  unfoldable pub flexcan_chip_start : Flexcan B → Ret × Flexcan B
  unfolding flexcan_configure
  flexcan_chip_start st =
      let reset = flexcan_write port (flexcan_chip_enable port st) Regs.mcr flexcan_mcr_softrst in
      let (mcr, st1) = flexcan_read port reset Regs.mcr in
      if has mcr flexcan_mcr_softrst
      then (err enodev, flexcan_chip_disable port st1)
      else (ok 0, flexcan_configure st1)

  -- `flexcan_chip_stop`
  unfoldable pub flexcan_chip_stop : Flexcan B → Flexcan B
  flexcan_chip_stop st =
      let masked = flexcan_write port st Regs.imask1 0 in
      let halted =
        flexcan_change port (λ reg. bit_or reg (flexcan_mcr_mdis + flexcan_mcr_halt)) Regs.mcr
          masked in
      flexcan_set_state (flexcan_transceiver_switch port false halted) CanState.stopped

  -- `flexcan_mode_stop`: it returns 0.
  unfoldable pub flexcan_mode_stop : Flexcan B → Flexcan B
  unfolding flexcan_chip_stop
  flexcan_mode_stop st =
      let stopped = flexcan_call_sem (flexcan_chip_stop st) sem_destroy in
      if is_operating st.dev.state
      then flexcan_clk_disable (record stopped { irq_held = false })
      else st

  -- The cases CAN_STATE_STOPPED and CAN_STATE_BUS_OFF of the switch, after the chip was started.
  unfoldable pub flexcan_started : Ret × Flexcan B → Ret × Flexcan B
  flexcan_started (ok n, st) = (ok 0, flexcan_call_sem st (sem_init 1))
  flexcan_started (err e, st) = (err e, flexcan_clk_disable (record st { irq_held = false }))

  -- The switch of `flexcan_mode_start`; `irq` is what `rtdm_irq_request` returns: `none` for 0, else
  -- the error.
  unfoldable pub flexcan_start_from : CanState → Option Errno → Flexcan B → Ret × Flexcan B
  unfolding flexcan_started
  flexcan_start_from CanState.active irq st = (ok 0, st)
  flexcan_start_from CanState.bus_warning irq st = (ok 0, st)
  flexcan_start_from CanState.bus_passive irq st = (ok 0, st)
  flexcan_start_from CanState.stopped (some e) st =
      (err e, flexcan_clk_disable (flexcan_clk_enable st))
  flexcan_start_from CanState.stopped none st =
      flexcan_started (flexcan_chip_start (record (flexcan_clk_enable st) { irq_held = true }))
  flexcan_start_from CanState.bus_off irq st = flexcan_chip_start (flexcan_call_sem st (sem_init 1))
  flexcan_start_from CanState.sleeping irq st = (ok 0, st)
  flexcan_start_from CanState.scanning_baudrate irq st = (ok 0, st)

  -- `flexcan_mode_start`
  unfoldable pub flexcan_mode_start : Option Errno → Flexcan B → Ret × Flexcan B
  unfolding flexcan_start_from
  flexcan_mode_start irq st = flexcan_start_from st.dev.state irq st

  -- `flexcan_set_mode`
  unfoldable pub flexcan_set_mode : Option Errno → Flexcan B → CanMode → Ret × Flexcan B
  unfolding flexcan_mode_stop flexcan_mode_start
  flexcan_set_mode irq st CanMode.stop = (ok 0, flexcan_mode_stop st)
  flexcan_set_mode irq st CanMode.start = flexcan_mode_start irq st
  flexcan_set_mode irq st CanMode.sleep = (err eopnotsupp, st)
