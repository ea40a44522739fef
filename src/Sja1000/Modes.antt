-- ===== src/Sja1000/Modes.antt =====
-- Operating modes: `rtcan_sja_is_operating`, `rtcan_sja_mode_stop`, `rtcan_sja_mode_start`,
-- `rtcan_sja_get_state`, `rtcan_sja_set_mode` and `rtcan_sja_enable_bus_err` of
-- can/sja1000/rtcan_sja1000.c.
pub mod Stop
use rtcan_bb.Base.{
  ℕ, zero, suc, ◌+◌, ◌*◌, ◌^◌, bit_and, bit_or, Bool, true, false, not, ◌&&◌, ◌||◌, List, ◌∷◌, ltb,
  leb, ◌==◌, if◌then◌else◌,
}
use rtcan_bb.Rtcan.Abi.{
  Errno, eagain, enetdown, Ret, ok, err, CanState, CanMode, can_ctrlmode_listenonly,
  can_ctrlmode_loopback,
}
use rtcan_bb.Rtcan.Socket.{SemCall, sem_init, sem_destroy}
use rtcan_bb.Rtcan.Device.{Device}
use rtcan_bb.Sja1000.{Port, put, Sja, sja_mod, sja_ier, sja_rxerr, sja_txerr, sja_ecc}
use rtcan_bb.Sja1000.Errors.{has, sja1000_ier}

-- Bits of the mode register.
abbrev pub sja_mod_rm : ℕ
sja_mod_rm = 2 ^ 0

abbrev pub sja_mod_lom : ℕ
sja_mod_lom = 2 ^ 1

abbrev pub sja_mod_stm : ℕ
sja_mod_stm = 2 ^ 2

abbrev pub sja_mod_sm : ℕ
sja_mod_sm = 2 ^ 4

-- STATE_RESET; STATE_OPERATING is its negation.
abbrev pub is_reset : CanState → Bool
is_reset CanState.stopped = true
is_reset CanState.bus_off = true
is_reset CanState.active = false
is_reset CanState.bus_warning = false
is_reset CanState.bus_passive = false
is_reset CanState.scanning_baudrate = false
is_reset CanState.sleeping = false

-- `dev->state = …`, and a call on the semaphore of the senders.
abbrev pub set_state : {B : Type 0} → Sja B → CanState → Sja B
set_state st state = record st { dev = record st.dev { state = state } }

abbrev pub call_sem : {B : Type 0} → Sja B → SemCall → Sja B
call_sem st call = record st { dev = record st.dev { tx_sem = call ∷ st.dev.tx_sem } }

-- `bus_err_on < 2` and `bus_err_on < 1` for a signed byte.
abbrev pub signed_below : ℕ → ℕ → Bool
signed_below n bound = leb (2 ^ 7) n || ltb n bound

module _ {B : Type 0} (port : Port B) where
  -- Accesses to the registers of a device.
  abbrev pub sja_read : Sja B → ℕ → ℕ × Sja B
  sja_read st reg = let (v, bus') = port.read_reg st.bus reg in (v, record st { bus = bus' })

  abbrev pub sja_write : Sja B → ℕ → ℕ → Sja B
  sja_write st reg v = record st { bus = put port st.bus reg v }

  -- `rtcan_sja_is_operating`: whether it is, the local `*state`, and the device.
  unfoldable pub sja_is_operating : Sja B → CanState → Bool × CanState × Sja B
  sja_is_operating st state =
      let (mod_reg, st1) = sja_read st sja_mod in
      if is_reset state
      then (false, state, st)
      else (if has mod_reg sja_mod_rm
          then (false, CanState.stopped, call_sem (sja_write st1 sja_ier 0) sem_destroy)
          else (true, state, st1))

  -- The loop of `rtcan_sja_mode_stop` with `wait_loop` tests left: whether the reset mode was seen.
  -- `nap` is what happens elsewhere while the lock is free.
  unfoldable pub await_reset : (Sja B → Sja B) → ℕ → Sja B → Bool × Sja B
  await_reset nap zero st = (false, st)
  await_reset nap (suc n) st =
      let (mod_reg, st1) = sja_read st sja_mod in
      let rest = await_reset nap n (nap st1) in if has mod_reg sja_mod_rm then (true, st1) else rest

  -- What follows the wait.
  unfoldable pub end_stop : Bool × Sja B → Ret × Sja B
  end_stop (true, st) = (ok 0, call_sem (set_state st CanState.stopped) sem_destroy)
  end_stop (false, st) = (err eagain, sja_write st sja_ier sja1000_ier)

  -- `rtcan_sja_mode_stop`
  unfoldable pub mode_stop : (Sja B → Sja B) → Sja B → Ret × Sja B
  unfolding await_reset end_stop
  mode_stop nap st =
      if is_reset st.dev.state
      then (ok 0, st)
      else end_stop (await_reset nap 50 (sja_write (sja_write st sja_ier 0) sja_mod sja_mod_rm))

  -- The mode register for a control mode.
  unfoldable pub mod_of : ℕ → ℕ
  mod_of ctrl_mode =
      let listen = (if bit_and ctrl_mode can_ctrlmode_listenonly == 0 then 0 else sja_mod_lom) in
      if bit_and ctrl_mode can_ctrlmode_loopback == 0 then listen else bit_or listen sja_mod_stm

  -- The switch of `rtcan_sja_mode_start`. For a sleeping controller `nap` holds the wake-up interrupt.
  unfoldable pub start_from : (Sja B → Sja B) → CanState → ℕ → Sja B → Sja B
  start_from nap CanState.active mod_reg st = st
  start_from nap CanState.bus_warning mod_reg st = st
  start_from nap CanState.bus_passive mod_reg st = st
  start_from nap CanState.scanning_baudrate mod_reg st = st
  start_from nap CanState.stopped mod_reg st =
      let cleared = (sja_read (sja_write (sja_write st sja_rxerr 0) sja_txerr 0) sja_ecc).1 in
      let active = call_sem (set_state cleared CanState.active) (sem_init 1) in
      sja_write (sja_write active sja_ier sja1000_ier) sja_mod mod_reg
  start_from nap CanState.sleeping mod_reg st = nap (sja_write st sja_mod mod_reg)
  start_from nap CanState.bus_off mod_reg st =
      set_state (call_sem (sja_write st sja_mod mod_reg) (sem_init 1)) CanState.active

  -- `rtcan_sja_mode_start`: it returns 0.
  unfoldable pub mode_start : (Sja B → Sja B) → Sja B → Sja B
  unfolding mod_of start_from
  mode_start nap st = start_from nap st.dev.state (mod_of st.dev.ctrl_mode) st

  -- `rtcan_sja_get_state`: the state, which the caller stores, and the device.
  unfoldable pub get_state : Sja B → CanState × Sja B
  unfolding sja_is_operating
  get_state st = let (operating, state, st') = sja_is_operating st st.dev.state in (state, st')

  abbrev pub is_asleep : CanState → Bool
  is_asleep state = elim state [
    | CanState.sleeping ↦ true
    | CanState.active ↦ false
    | CanState.bus_warning ↦ false
    | CanState.bus_passive ↦ false
    | CanState.bus_off ↦ false
    | CanState.scanning_baudrate ↦ false
    | CanState.stopped ↦ false
  ]

  -- The case CAN_MODE_SLEEP of `rtcan_sja_set_mode`.
  unfoldable pub mode_sleep : Sja B → Ret × Sja B
  unfolding sja_is_operating
  mode_sleep st =
      let (operating, state, st1) = sja_is_operating st st.dev.state in
      let (mod_reg, st2) = sja_read (record st1 { state_before_sleep = state }) sja_mod in
      if not operating
      then (err enetdown, set_state st1 state)
      else (if is_asleep state then (ok 0, set_state st1 state) else (
        ok 0,
        set_state (sja_write st2 sja_mod (bit_or mod_reg sja_mod_sm)) CanState.sleeping,
      ))

  -- `rtcan_sja_set_mode`
  unfoldable pub set_mode : (Sja B → Sja B) → Sja B → CanMode → Ret × Sja B
  unfolding mode_stop mode_start mode_sleep
  set_mode nap st CanMode.stop = mode_stop nap st
  set_mode nap st CanMode.start = (ok 0, mode_start nap st)
  set_mode nap st CanMode.sleep = mode_sleep st

  -- `rtcan_sja_enable_bus_err`
  unfoldable pub sja_enable_bus_err : Sja B → Sja B
  sja_enable_bus_err st =
      let captured = (if signed_below st.bus_err_on 1 then (sja_read st sja_ecc).1 else st) in
      if signed_below st.bus_err_on 2 then record captured { bus_err_on = 2 } else st
