-- ===== src/CCan/Senders.antt =====
-- The semaphore of the senders and the interrupt line, next to the state of a C_CAN controller.
pub mod Recovery
use rtcan_bb.Base.{
  ℕ, ◌≡◌, ◌≢◌, bit_and, Bool, true, false, not, Option, none, some, refl, ap, ◌∙◌, arith,
}
use rtcan_bb.Rtcan.Abi.{Errno, CanState, CanMode, is_operating}
use rtcan_bb.Rtcan.Socket.{sem_exists, Config, Skb}
use rtcan_bb.Receive.{rcv}
use rtcan_bb.Sja1000.Modes.{is_reset}
use rtcan_bb.CCan.{CPort, CCan, c_can_sts_reg}
use rtcan_bb.CCan.Errors.{
  BusError, c_can_bus_off, c_can_error_warning, c_can_error_passive, enter_state,
  c_can_handle_state_change, c_can_handle_bus_err,
}
use rtcan_bb.CCan.Interrupt.{Stack, status_boff, serve_status}
use rtcan_bb.CCan.Modes.{start_chip, c_can_start_from, c_can_mode_stop, c_can_set_mode}
use rtcan_bb.CCan.Receive.{Service, pass_on}

abbrev pub is_stopped : CanState → Bool
is_stopped CanState.stopped = true
is_stopped CanState.active = false
is_stopped CanState.bus_warning = false
is_stopped CanState.bus_passive = false
is_stopped CanState.bus_off = false
is_stopped CanState.scanning_baudrate = false
is_stopped CanState.sleeping = false

-- The senders can wait exactly while the controller takes part in the traffic, and the interrupt is
-- held exactly while it is not stopped.
pub record IsCoherent {B : Type 0} (st : CCan B) : Type 0 where
  pub senders : sem_exists st.dev.tx_sem ≡ not (is_reset st.dev.state)
  pub line : st.irq_requested ≡ not (is_stopped st.dev.state)

module _ {B : Type 0} (port : CPort B) where
  start_from-IsCoherent :
      (irq : Option Errno) (state : CanState) (st : CCan B)
      → st.dev.state ≡ state
      → IsCoherent st
      → IsCoherent (c_can_start_from port irq state st).1
  unfolding c_can_start_from start_chip sem_exists
  start_from-IsCoherent irq CanState.active st e c = c
  start_from-IsCoherent irq CanState.bus_warning st e c = c
  start_from-IsCoherent irq CanState.bus_passive st e c = c
  start_from-IsCoherent irq CanState.sleeping st e c = c
  start_from-IsCoherent irq CanState.scanning_baudrate st e c = c
  start_from-IsCoherent (some x) CanState.stopped st e c = record {
    senders = c.senders;
    line = c.line;
  }
  start_from-IsCoherent none CanState.stopped st e c = record { senders = refl; line = refl }
  start_from-IsCoherent irq CanState.bus_off st e c = record {
    senders = refl;
    line = c.line ∙ ap (λ (s : CanState). not (is_stopped s)) e;
  }

  mode_stop-IsCoherent : (st : CCan B) → IsCoherent st → IsCoherent (c_can_mode_stop port st)
  unfolding c_can_mode_stop sem_exists
  mode_stop-IsCoherent st c = record {
    senders = ground (arith, c.senders);
    line = ground (arith, c.line);
  }

  -- A change of mode, whether the interrupt can be had or not, keeps the device coherent: the
  -- semaphore of the senders exists exactly outside the states stopped and bus-off, and the
  -- interrupt is held exactly outside the state stopped.
  pub set_mode-IsCoherent :
      (irq : Option Errno) (st : CCan B) (mode : CanMode)
      → IsCoherent st
      → IsCoherent (c_can_set_mode port irq st mode).1
  unfolding c_can_set_mode
  set_mode-IsCoherent irq st CanMode.stop c = mode_stop-IsCoherent st c
  set_mode-IsCoherent irq st CanMode.start c = start_from-IsCoherent irq st.dev.state st refl c
  set_mode-IsCoherent irq st CanMode.sleep c = c

module _ {B : Type 0} (port : CPort B) (now : B → ℕ × B) (cfg : Config) where
  enter_state-IsCoherent :
      (error_type : BusError) (st : CCan B)
      → is_operating st.dev.state ≡ true
      → IsCoherent st
      → IsCoherent (enter_state port now cfg error_type st)
  unfolding enter_state sem_exists
  enter_state-IsCoherent c_can_error_warning st o c = record {
    senders = ground (arith, o, c.senders);
    line = ground (arith, o, c.line);
  }
  enter_state-IsCoherent c_can_error_passive st o c = record {
    senders = ground (arith, o, c.senders);
    line = ground (arith, o, c.line);
  }
  enter_state-IsCoherent c_can_bus_off st o c = record {
    senders = refl;
    line = ground (arith, o, c.line);
  }

  -- An error that changes the state of an operating controller keeps the device coherent.
  handle_state_change-IsCoherent :
      (error_type : BusError) (stack : Skb) (h : Service B)
      → is_operating h.chip.dev.state ≡ true
      → IsCoherent h.chip
      → IsCoherent (c_can_handle_state_change port now cfg error_type stack h).chip
  unfolding c_can_handle_state_change pass_on rcv
  handle_state_change-IsCoherent error_type stack h o c =
      let entered =
        enter_state-IsCoherent error_type (record h.chip { bus = (port.read_reg h.chip.bus 3).1 }) o
          (record { senders = c.senders; line = c.line }) in
      record { senders = entered.senders; line = entered.line }
