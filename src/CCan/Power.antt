-- ===== src/CCan/Power.antt =====
-- `c_can_power_down`, `c_can_power_up` and `unregister_c_candev` of rtcan_c_can.c.
use rtcan_bb.Base.{
  ℕ, zero, suc, ◌-◌, ◌^◌, bit_and, bit_or, Bool, true, false, not, Option, some, List, ◌==◌,
  if◌then◌else◌, ◌>>=◌,
}
use rtcan_bb.Rtcan.Abi.{etimedout, Ret, ok, err, CanState}
use rtcan_bb.Rtcan.Device.{Devices}
use rtcan_bb.Registry.{dev_unregister}
use rtcan_bb.CCan.{
  CPort, CCan, c_can_ctrl_reg, c_can_ctrl_ex_reg, c_can_sts_reg, c_can_write,
  c_can_enable_all_interrupts, c_can_reset_ram, c_can_pm_runtime,
}
use rtcan_bb.CCan.Modes.{c_can_set_state, c_can_mode_stop, on_bus}

-- CONTROL_EX_PDR and STATUS_PDA.
abbrev pub control_ex_pdr : ℕ
control_ex_pdr = 2 ^ 8

abbrev pub status_pda : ℕ
status_pda = 2 ^ 10

module _ {B : Type 0} (port : CPort B) where
  -- The wait for STATUS_PDA, to be set or clear; there is time for `n` more reads after this one.
  unfoldable pub await_pda : Bool → ℕ → B → B
  await_pda set zero bus = (port.read_reg bus c_can_sts_reg).1
  await_pda set (suc n) bus =
      let (status, bus') = port.read_reg bus c_can_sts_reg in
      let rest = await_pda set n bus' in
      let clear = bit_and status status_pda == 0 in
      if (if set then not clear else clear) then bus' else rest

  -- A register with other bits.
  abbrev pub change_reg : ℕ → (ℕ → ℕ) → B → B
  change_reg reg f bus =
      let (val, bus') = port.read_reg bus reg in c_can_write port reg (f val) bus'

  -- `c_can_power_down`; `late` is the test of the time behind the wait.
  unfoldable pub c_can_power_down : ℕ → Bool → CCan B → Ret × CCan B
  unfolding await_pda
  c_can_power_down n late st =
      let waited = on_bus st (λ bus.
        await_pda true n (change_reg c_can_ctrl_ex_reg (λ val. bit_or val control_ex_pdr) bus)) in
      let stopped =
        c_can_set_state (on_bus waited (c_can_enable_all_interrupts port false)) CanState.stopped in
      if late then (err etimedout, waited) else (
        ok 0,
        on_bus stopped (λ bus. c_can_pm_runtime port false (c_can_reset_ram port false bus)),
      )

  -- `c_can_power_up`, with CONTROL_INIT cleared too.
  unfoldable pub c_can_power_up : ℕ → Bool → CCan B → Ret × CCan B
  unfolding await_pda
  c_can_power_up n late st =
      let powered = on_bus st (λ bus. c_can_reset_ram port true (c_can_pm_runtime port true bus)) in
      let awake =
        on_bus powered
          (change_reg c_can_ctrl_ex_reg (λ val. bit_and val (2 ^ 32 - 1 - control_ex_pdr))) in
      let running =
        on_bus awake (change_reg c_can_ctrl_reg (λ val. bit_and val (2 ^ 32 - 1 - 1))) in
      let waited = on_bus running (await_pda false n) in
      if late then (err etimedout, waited) else (ok 0, waited)

  -- `unregister_c_candev`; `polls` are the reference counts that the wait for users reads.
  unfoldable pub unregister_c_candev : Devices → List ℕ → CCan B → Option (Devices × CCan B)
  unregister_c_candev devs polls st =
      let stopped = c_can_mode_stop port st in
      dev_unregister devs stopped.dev polls >>= λ r. some (r.1, stopped)
