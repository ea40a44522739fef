-- ===== src/Mscan/Modes.antt =====
-- Operating modes: `rtcan_mscan_mode_stop`, `rtcan_mscan_mode_start` and `rtcan_mscan_set_mode` of
-- can/mscan/rtcan_mscan.c.
pub mod Stop
pub mod Start
use rtcan_bb.Base.{
  ℕ, zero, suc, ◌+◌, ◌*◌, ◌^◌, bit_and, bit_or, Bool, true, false, not, ◌||◌, Option, none, some,
  ltb, leb, ◌==◌, if◌then◌else◌,
}
use rtcan_bb.Rtcan.Abi.{
  Errno, enodev, enetdown, Ret, ok, err, CanState, is_operating, CanMode, can_ctrlmode_listenonly,
  can_ctrlmode_loopback,
}
use rtcan_bb.Rtcan.Socket.{sem_init, sem_destroy}
use rtcan_bb.Sja1000.Errors.{has, state_number}
use rtcan_bb.Mscan.{
  MscanPort, Mscan, canctl0, canctl1, canrier, cantier, mscan_set_state, mscan_call_sem, mscan_in,
  mscan_out, mscan_set, mscan_clr,
}

-- Bits of the control registers, and the interrupts that are enabled.
abbrev pub mscan_wupe : ℕ
mscan_wupe = 0x04

abbrev pub mscan_slprq : ℕ
mscan_slprq = 0x02

abbrev pub mscan_initrq : ℕ
mscan_initrq = 0x01

abbrev pub mscan_loopb : ℕ
mscan_loopb = 0x20

abbrev pub mscan_listen : ℕ
mscan_listen = 0x10

abbrev pub mscan_slpak : ℕ
mscan_slpak = 0x02

abbrev pub mscan_initak : ℕ
mscan_initak = 0x01

abbrev pub mscan_wupie : ℕ
mscan_wupie = 0x80

abbrev pub mscan_rier : ℕ
mscan_rier = 0x02 + 0x01 + 0x80 + 0x40 + 0x10 + 0x20 + 0x04 + 0x08

abbrev pub mscan_set_mode_retries : ℕ
mscan_set_mode_retries = 255

-- A call that returns 0, when it returns.
unfoldable pub mscan_returned : {B : Type 0} → Option (Mscan B) → Option (Ret × Mscan B)
mscan_returned none = none
mscan_returned (some st) = some (ok 0, st)

-- What follows the wait for the initialisation mode.
unfoldable pub mscan_end_stop : {B : Type 0} → Bool × Mscan B → Ret × Mscan B
mscan_end_stop (seen, st) = (
  if seen then ok 0 else err enodev,
  mscan_call_sem (mscan_set_state st CanState.stopped) sem_destroy,
)

module _ {B : Type 0} (port : MscanPort B) where
  -- What follows the wait for the sleep mode.
  unfoldable pub mscan_asleep : Bool × Mscan B → Mscan B
  mscan_asleep (seen, st) =
      mscan_set port (if seen then mscan_set_state st CanState.sleeping else st) canctl0
        mscan_initrq

  -- The test of the loop of `rtcan_mscan_mode_start`: the second read only follows a clear bit.
  unfoldable pub mscan_is_inactive : Mscan B → Bool × Mscan B
  mscan_is_inactive st =
      let (reg, st1) = mscan_in port st canctl1 in
      let (reg', st2) = mscan_in port st1 canctl1 in
      if has reg mscan_initak then (true, st1) else (has reg' mscan_slpak, st2)

  -- One bit of the control register 1 follows a bit of the control mode.
  abbrev pub mscan_follow : ℕ → ℕ → Mscan B → Mscan B
  mscan_follow ctrl_mode_bit bit st =
      if has st.dev.ctrl_mode ctrl_mode_bit
      then mscan_set port st canctl1 bit
      else mscan_clr port st canctl1 bit

  -- The request of the normal mode.
  unfoldable pub mscan_request_normal : Mscan B → Mscan B
  mscan_request_normal st =
      let ready = mscan_call_sem st (sem_init 1) in
      let listening = mscan_follow can_ctrlmode_listenonly mscan_listen ready in
      let looped = mscan_follow can_ctrlmode_loopback mscan_loopb listening in
      mscan_clr port (mscan_clr port looped canctl0 mscan_initrq) canctl0 mscan_slprq

  -- What follows the wait of a start.
  unfoldable pub mscan_enable : Option (Mscan B) → Option (Mscan B)
  mscan_enable none = none
  mscan_enable (some st) =
      some (mscan_set_state (mscan_set port st canrier mscan_rier) CanState.active)

-- `nap` is a microsecond of waiting, in which the lock is free.
module _ {B : Type 0} (port : MscanPort B) (nap : Mscan B → Mscan B) where
  -- A wait of `rtcan_mscan_mode_stop`, with `n` rounds left: whether an acknowledgement bit ended it
  -- before the rounds ran out. The register is read once more after the last round.
  unfoldable pub mscan_await : ℕ → ℕ → Mscan B → Bool × Mscan B
  mscan_await bit zero st = (false, (mscan_in port st canctl1).1)
  mscan_await bit (suc n) st =
      let (reg, st1) = mscan_in port st canctl1 in
      let rest = mscan_await bit n (nap st1) in if has reg bit then (true, st1) else rest

  -- `rtcan_mscan_mode_stop`
  unfoldable pub mscan_mode_stop : Mscan B → Ret × Mscan B
  unfolding mscan_await mscan_asleep mscan_end_stop
  mscan_mode_stop st =
      let requested = mscan_set port st canctl0 mscan_slprq in
      let slept = mscan_asleep port (mscan_await mscan_slpak mscan_set_mode_retries requested) in
      let ended = mscan_end_stop (mscan_await mscan_initak mscan_set_mode_retries slept) in
      if is_operating st.dev.state then ended else (ok 0, st)

  -- The loop, with `n` tests allowed; `none` is a wait that has not ended.
  unfoldable pub mscan_await_normal : ℕ → Mscan B → Option (Mscan B)
  unfolding mscan_is_inactive
  mscan_await_normal zero st = none
  mscan_await_normal (suc n) st =
      let (inactive, st1) = mscan_is_inactive port st in
      let rest = mscan_await_normal n (nap st1) in if inactive then rest else some st1

  -- The cases CAN_STATE_SLEEPING and CAN_STATE_STOPPED of the switch.
  unfoldable pub mscan_start_up : ℕ → Mscan B → Option (Mscan B)
  unfolding mscan_await_normal mscan_request_normal mscan_enable
  mscan_start_up n st = mscan_enable port (mscan_await_normal n (mscan_request_normal port st))

  -- The switch of `rtcan_mscan_mode_start`, which returns 0.
  unfoldable pub mscan_start_from : CanState → ℕ → Mscan B → Option (Mscan B)
  unfolding mscan_start_up
  mscan_start_from CanState.active n st = some st
  mscan_start_from CanState.bus_warning n st = some st
  mscan_start_from CanState.bus_passive n st = some st
  mscan_start_from CanState.scanning_baudrate n st = some st
  mscan_start_from CanState.sleeping n st = mscan_start_up n st
  mscan_start_from CanState.stopped n st = mscan_start_up n st
  mscan_start_from CanState.bus_off n st = some (
      mscan_set_state (mscan_call_sem (mscan_out port st canrier mscan_rier) (sem_init 1))
        CanState.active)

  -- `rtcan_mscan_mode_start`
  unfoldable pub mscan_mode_start : ℕ → Mscan B → Option (Mscan B)
  unfolding mscan_start_from
  mscan_mode_start n st = mscan_start_from st.dev.state n st

  -- The two waits of the case CAN_MODE_SLEEP, which share the count `retries`: `n` is what is left
  -- of it until the test after a nap gives up. A wait goes on while `bit` is not as wanted.
  unfoldable pub mscan_doze : ℕ → (wanted : Bool) → ℕ → Mscan B → ℕ × Mscan B
  mscan_doze bit wanted zero st =
      let (reg, st1) = mscan_in port st canctl1 in
      if has reg bit
      then (0, if wanted then st1 else nap st1)
      else (0, if wanted then nap st1 else st1)
  mscan_doze bit wanted (suc n) st =
      let (reg, st1) = mscan_in port st canctl1 in
      let rest = mscan_doze bit wanted n (nap st1) in
      if has reg bit
      then (if wanted then (suc n, st1) else rest)
      else (if wanted then rest else (suc n, st1))

  -- The request of the sleep mode with its wait, and the end of the initialisation mode with its.
  unfoldable pub mscan_go_to_sleep : Mscan B → ℕ × Mscan B
  unfolding mscan_doze
  mscan_go_to_sleep st =
      let remembered = record st { state_before_sleep = st.dev.state } in
      let quiet = mscan_out port (mscan_out port remembered canrier 0) cantier 0 in
      mscan_doze mscan_slpak true 1000
        (mscan_set port quiet canctl0 (bit_or mscan_slprq mscan_wupe))

  unfoldable pub mscan_leave_init : ℕ × Mscan B → Mscan B
  unfolding mscan_doze
  mscan_leave_init (left, st) =
      (mscan_doze mscan_initak false left (mscan_clr port st canctl0 mscan_initrq)).1

  -- The case CAN_MODE_SLEEP, for an operating controller.
  unfoldable pub mscan_fall_asleep : Mscan B → Mscan B
  unfolding mscan_go_to_sleep mscan_leave_init
  mscan_fall_asleep st =
      mscan_set_state (mscan_out port (mscan_leave_init (mscan_go_to_sleep st)) canrier mscan_wupie)
        CanState.sleeping

  unfoldable pub mscan_mode_sleep : Mscan B → Ret × Mscan B
  unfolding mscan_fall_asleep
  mscan_mode_sleep st =
      if not (is_operating st.dev.state)
      then (err enetdown, st)
      else (if state_number st.dev.state == state_number CanState.sleeping
          then (ok 0, st)
          else (ok 0, mscan_fall_asleep st))

  -- `rtcan_mscan_set_mode`, with `n` tests for a start.
  unfoldable pub mscan_set_mode : ℕ → Mscan B → CanMode → Option (Ret × Mscan B)
  unfolding mscan_mode_stop mscan_mode_start mscan_mode_sleep mscan_returned
  mscan_set_mode n st CanMode.stop = some (mscan_mode_stop st)
  mscan_set_mode n st CanMode.start = mscan_returned (mscan_mode_start n st)
  mscan_set_mode n st CanMode.sleep = some (mscan_mode_sleep st)
