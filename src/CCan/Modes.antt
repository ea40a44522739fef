-- ===== src/CCan/Modes.antt =====
-- `c_can_chip_config`, `c_can_mode_start`, `c_can_mode_stop` and `c_can_set_mode` of rtcan_c_can.c.
use rtcan_bb.Base.{
  ℕ, ◌+◌, ◌^◌, bit_and, true, false, not, ◌&&◌, Option, none, some, ◌∷◌, ◌==◌, if◌then◌else◌,
}
use rtcan_bb.Rtcan.Abi.{
  Errno, eopnotsupp, Ret, ok, err, CanState, CanMode, is_operating, can_ctrlmode_listenonly,
  can_ctrlmode_loopback,
}
use rtcan_bb.Rtcan.Socket.{SemCall, sem_init, sem_destroy}
use rtcan_bb.CCan.{
  CPort, CCan, c_can_write, c_can_ctrl_reg, c_can_sts_reg, c_can_test_reg, lec_unused,
  c_can_msg_obj_tx_num, c_can_enable_all_interrupts, c_can_reset_ram, c_can_pm_runtime,
}
use rtcan_bb.CCan.Bittiming.{c_can_set_bittiming}
use rtcan_bb.CCan.Objects.{c_can_configure_msg_objects}

-- A store to `dev->state`, and a call on the semaphore of the senders.
abbrev pub c_can_set_state : {B : Type 0} → CCan B → CanState → CCan B
c_can_set_state st state = record st { dev = record st.dev { state = state } }

abbrev pub c_can_sem : {B : Type 0} → CCan B → SemCall → CCan B
c_can_sem st call = record st { dev = record st.dev { tx_sem = call ∷ st.dev.tx_sem } }

abbrev pub on_bus : {B : Type 0} → CCan B → (B → B) → CCan B
on_bus st f = record st { bus = f st.bus }

module _ {B : Type 0} (port : CPort B) where
  -- The control register, and the test register where one is set.
  unfoldable pub configure_mode : ℕ → B → B
  configure_mode ctrl_mode bus =
      let loopback = not (bit_and ctrl_mode can_ctrlmode_loopback == 0) in
      let listenonly = not (bit_and ctrl_mode can_ctrlmode_listenonly == 0) in
      let testing = c_can_write port c_can_ctrl_reg (2 ^ 3 + 2 ^ 2 + 2 ^ 1 + 2 ^ 7) bus in
      if listenonly && loopback
      then c_can_write port c_can_test_reg (2 ^ 4 + 2 ^ 3) testing
      else (if loopback
          then c_can_write port c_can_test_reg (2 ^ 4) testing
          else (if listenonly
              then c_can_write port c_can_test_reg (2 ^ 3) testing
              else c_can_write port c_can_ctrl_reg (2 ^ 3 + 2 ^ 2 + 2 ^ 1) bus))

  -- `c_can_chip_config`
  unfoldable pub c_can_chip_config : CCan B → B → B
  unfolding configure_mode
  c_can_chip_config st bus =
      let configured =
        c_can_configure_msg_objects port
          (configure_mode st.dev.ctrl_mode (c_can_write port c_can_ctrl_reg 0 bus)) in
      c_can_set_bittiming port st.bit_time (c_can_write port c_can_sts_reg lec_unused configured)

  -- The chip is started, and the counters of the transmit objects are reset.
  unfoldable pub start_chip : CCan B → CCan B
  unfolding c_can_chip_config
  start_chip st =
      let ready = c_can_reset_ram port true (c_can_pm_runtime port true st.bus) in
      let running =
        c_can_set_state (record st { bus = c_can_chip_config st ready }) CanState.active in
      on_bus (record running { tx_next = 0; tx_echo = 0 }) (c_can_enable_all_interrupts port true)

  -- The switch of `c_can_mode_start`; `irq` is what `rtdm_irq_request` returns: `none` for 0.
  unfoldable pub c_can_start_from : Option Errno → CanState → CCan B → Ret × CCan B
  unfolding start_chip
  c_can_start_from irq CanState.active st = (ok 0, st)
  c_can_start_from irq CanState.bus_warning st = (ok 0, st)
  c_can_start_from irq CanState.bus_passive st = (ok 0, st)
  c_can_start_from (some e) CanState.stopped st = (err e, on_bus st (c_can_pm_runtime port false))
  c_can_start_from none CanState.stopped st = (
    ok 0,
    c_can_sem (start_chip (record st { irq_requested = true })) (sem_init c_can_msg_obj_tx_num),
  )
  c_can_start_from irq CanState.bus_off st =
      (ok 0, start_chip (c_can_sem st (sem_init c_can_msg_obj_tx_num)))
  c_can_start_from irq CanState.sleeping st = (ok 0, st)
  c_can_start_from irq CanState.scanning_baudrate st = (ok 0, st)

  -- `c_can_mode_stop`
  unfoldable pub c_can_mode_stop : CCan B → CCan B
  c_can_mode_stop st =
      let disabled = on_bus st (c_can_enable_all_interrupts port false) in
      let stopped = c_can_sem (c_can_set_state disabled CanState.stopped) sem_destroy in
      if is_operating st.dev.state
      then on_bus (record stopped { irq_requested = false }) (c_can_pm_runtime port false)
      else st

  -- `c_can_set_mode`
  unfoldable pub c_can_set_mode : Option Errno → CCan B → CanMode → Ret × CCan B
  unfolding c_can_start_from c_can_mode_stop
  c_can_set_mode irq st CanMode.stop = (ok 0, c_can_mode_stop st)
  c_can_set_mode irq st CanMode.start = c_can_start_from irq st.dev.state st
  c_can_set_mode irq st CanMode.sleep = (err eopnotsupp, st)
