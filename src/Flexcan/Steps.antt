-- ===== src/Flexcan/Steps.antt =====
-- Sequences of steps of a FlexCAN device (can/rtcan_flexcan.c), in which calls and interrupts are
-- mixed.
use rtcan_bb.Base.{ℕ, Option, some, ◌≡◌}
use rtcan_bb.Base.Partial.{Post-some}
use rtcan_bb.Rtcan.Abi.{Errno, CanMode, CanFrame}
use rtcan_bb.Rtcan.Socket.{sem_exists, Config, sem_up, sem_timeddown}
use rtcan_bb.Rtcan.Device.{Bittime}
use rtcan_bb.Flexcan.{FlexcanPort, Flexcan, flexcan_call_sem}
use rtcan_bb.Flexcan.Frames.{flexcan_start_xmit}
use rtcan_bb.Flexcan.Timing.{flexcan_save_bit_time}
use rtcan_bb.Flexcan.Errors.{flexcan_get_state}
use rtcan_bb.Flexcan.Modes.{flexcan_set_mode}
use rtcan_bb.Flexcan.Modes.Held.{IsHeld}
use rtcan_bb.Flexcan.Modes.Kept.{flexcan_set_mode-IsHeld}
use rtcan_bb.Flexcan.Interrupt.{FlexcanHandler, flexcan_interrupt}
use rtcan_bb.Flexcan.Interrupt.Reports.{IsReport}
use rtcan_bb.Flexcan.Interrupt.Rounds.{read_esr, flexcan_interrupt-IsHeld}

module _ {B : Type 0} (port : FlexcanPort B) (now : B → ℕ × B) (cfg : Config) where
  -- What happens to a device, one step at a time: the calls of the driver, with what the request for
  -- the interrupt returns, the calls on the semaphore that the stack makes, and the interrupt
  -- routine when it ends within `n` rounds of its loop. An interrupt comes while the device operates;
  -- in bus-off the status that it reads still says so, since the chip is told not to recover.
  pub data FlexcanStep : Flexcan B → Flexcan B → Type 0 where
    mode_set :
        (irq : Option Errno) (st : Flexcan B) (mode : CanMode)
        → FlexcanStep st (flexcan_set_mode port irq st mode).1
    frame_sent :
        (st : Flexcan B) (frame : CanFrame)
        → FlexcanStep st (record st { bus = (flexcan_start_xmit port frame st.bus).1 })
    bit_time_saved :
        (st : Flexcan B) (bit_time : Bittime) → FlexcanStep st (flexcan_save_bit_time st bit_time)
    waited : (st : Flexcan B) → FlexcanStep st (flexcan_call_sem st sem_timeddown)
    released : (st : Flexcan B) → FlexcanStep st (flexcan_call_sem st sem_up)
    interrupted :
        (n : ℕ) (h h' : FlexcanHandler B)
        → IsReport (flexcan_get_state (read_esr port now cfg h.chip)) h.chip.dev.state
        → flexcan_interrupt port now cfg n h ≡ some h'
        → FlexcanStep h.chip h'.chip

  pub data FlexcanHistory : Flexcan B → Flexcan B → Type 0 where
    here : (st : Flexcan B) → FlexcanHistory st st
    later :
        (st st1 st2 : Flexcan B)
        → FlexcanStep st st1
        → FlexcanHistory st1 st2
        → FlexcanHistory st st2

  step-IsHeld : {st st' : Flexcan B} → FlexcanStep st st' → IsHeld st → IsHeld st'
  unfolding sem_exists flexcan_save_bit_time
  step-IsHeld (mode_set irq st mode) s = flexcan_set_mode-IsHeld port irq st mode s
  step-IsHeld (frame_sent st frame) s = record { irq = s.irq; clock = s.clock; senders = s.senders }
  step-IsHeld (bit_time_saved st bit_time) s = record {
    irq = s.irq;
    clock = s.clock;
    senders = s.senders;
  }
  step-IsHeld (waited st) s = record { irq = s.irq; clock = s.clock; senders = s.senders }
  step-IsHeld (released st) s = record { irq = s.irq; clock = s.clock; senders = s.senders }
  step-IsHeld (interrupted n h h' c e) s =
      Post-some (λ (h : FlexcanHandler B). IsHeld h.chip) (flexcan_interrupt port now cfg n h) h'
        (flexcan_interrupt-IsHeld port now cfg n h c s) e

  -- Every sequence of steps of a FlexCAN device, among them interrupts that end and that come while it
  -- operates or, in bus-off, still read bus-off, keeps what the device holds: the interrupt is
  -- requested exactly while the device is not stopped, the clock is enabled once for a registered
  -- device and once more while it is not stopped, and the senders' semaphore exists while it operates.
  pub flexcan_run-IsHeld : {st st' : Flexcan B} → FlexcanHistory st st' → IsHeld st → IsHeld st'
  flexcan_run-IsHeld (here st) s = s
  flexcan_run-IsHeld (later st st1 st2 step run) s = flexcan_run-IsHeld run (step-IsHeld step s)
