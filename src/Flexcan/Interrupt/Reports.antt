-- ===== src/Flexcan/Interrupt/Reports.antt =====
-- What `flexcan_err_interrupt` (can/rtcan_flexcan.c) does to what a device holds.
use rtcan_bb.Base.{ℕ, Bool, true, false, not, ◌≡◌, ap, ◌∙◌, ◌⊎◌, inl, inr, arith, if◌then◌else◌}
use rtcan_bb.Base.Memory.{Bytes}
use rtcan_bb.Rtcan.Abi.{CanState, is_operating}
use rtcan_bb.Rtcan.Socket.{sem_exists, Skb}
use rtcan_bb.Sja1000.Errors.{blank_error}
use rtcan_bb.Flexcan.{FlexcanPort, Flexcan, flexcan_set_state}
use rtcan_bb.Flexcan.Errors.{
  flexcan_get_state, flexcan_enter_state, flexcan_do_state, flexcan_change_state,
  flexcan_note_overflow, flexcan_err_interrupt, is_same_state,
}
use rtcan_bb.Flexcan.Modes.Held.{IsHeld, is_stopped, operating-running}
use rtcan_bb.Flexcan.Interrupt.Unmoved.{IsUnmoved, kept-IsHeld}

IsHeld-if :
    {B : Type 0} (c : Bool) (r r' : Bytes × Flexcan B)
    → IsHeld r.1
    → IsHeld r'.1
    → IsHeld (if c then r else r').1
IsHeld-if true r r' s s' = s
IsHeld-if false r r' s s' = s'

-- Whether a change to a state is one that the chip can report: it comes from an operating state, or
-- nothing changes.
abbrev pub IsReport : CanState → CanState → Type 0
IsReport new_state state =
    (is_operating state ≡ true)
    ⊎ ((is_same_state new_state state ≡ true) × (state ≡ CanState.bus_off))

module _ {B : Type 0} (port : FlexcanPort B) where
  -- A change to a state that the chip reports, from an operating state.
  entered-IsHeld :
      (new_state : CanState) (frame : Bytes) (st : Flexcan B) (bus : B)
      → is_stopped new_state ≡ false
      → is_operating st.dev.state ≡ true
      → IsHeld st
      → IsHeld (
          flexcan_set_state
            (flexcan_enter_state new_state (frame, record st { bus = bus })).1
            new_state)
  unfolding flexcan_enter_state sem_exists
  entered-IsHeld new_state frame st bus r o s = by_state new_state r
    where
      requested : st.irq_held ≡ true
      requested = s.irq ∙ ap not (operating-running st.dev.state o)

      enabled : st.clocks ≡ 2
      enabled = s.clock ∙ ap (λ (b : Bool). if b then 1 else 2) (operating-running st.dev.state o)

      by_state :
          (new_state : CanState)
          → is_stopped new_state ≡ false
          → IsHeld (
              flexcan_set_state
                (flexcan_enter_state new_state (frame, record st { bus = bus })).1
                new_state)
      by_state CanState.active r = record {
        irq = requested;
        clock = enabled;
        senders = λ h. s.senders o;
      }
      by_state CanState.bus_warning r = record {
        irq = requested;
        clock = enabled;
        senders = λ h. s.senders o;
      }
      by_state CanState.bus_passive r = record {
        irq = requested;
        clock = enabled;
        senders = λ h. s.senders o;
      }
      by_state CanState.bus_off r = record {
        irq = requested;
        clock = enabled;
        senders = λ h. absurd (ground arith);
      }
      by_state CanState.scanning_baudrate r = record {
        irq = requested;
        clock = enabled;
        senders = λ h. s.senders o;
      }
      by_state CanState.stopped r = absurd (ground arith)
      by_state CanState.sleeping r = record {
        irq = requested;
        clock = enabled;
        senders = λ h. s.senders o;
      }

  change_state-IsHeld :
      (new_state : CanState) (frame : Bytes) (st : Flexcan B)
      → is_stopped new_state ≡ false
      → IsReport new_state st.dev.state
      → IsHeld st
      → IsHeld (flexcan_change_state port new_state frame st).1
  unfolding flexcan_change_state flexcan_do_state
  change_state-IsHeld new_state frame st r (inr (e, off)) s = rw e s
  change_state-IsHeld new_state frame st r (inl o) s =
      IsHeld-if (is_same_state new_state st.dev.state) _ _ s (entered-IsHeld new_state _ st _ r o s)

  note_overflow-IsUnmoved :
      (iflag1 : ℕ) (frame : Bytes) (st : Flexcan B)
      → IsUnmoved st (flexcan_note_overflow port iflag1 frame st).1
  unfolding flexcan_note_overflow
  note_overflow-IsUnmoved iflag1 frame st = record {
    state = ground arith;
    sem = ground arith;
    clocks = ground arith;
    irq = ground arith;
  }

  -- The states that the chip reports.
  pub get_state-running : (esr : ℕ) → is_stopped (flexcan_get_state esr) ≡ false
  unfolding flexcan_get_state
  get_state-running esr = ground arith

  pub err_interrupt-IsHeld :
      (st : Flexcan B) (skb : Skb) (iflag1 esr : ℕ)
      → IsReport (flexcan_get_state esr) st.dev.state
      → IsHeld st
      → IsHeld (flexcan_err_interrupt port st skb iflag1 esr (flexcan_get_state esr)).0
  unfolding flexcan_err_interrupt
  err_interrupt-IsHeld st skb iflag1 esr c s =
      let blank = blank_error skb.rb_frame in
      let changed = flexcan_change_state port (flexcan_get_state esr) blank st in
      kept-IsHeld _ _ (note_overflow-IsUnmoved iflag1 changed.0 changed.1)
        (change_state-IsHeld (flexcan_get_state esr) blank st (get_state-running esr) c s)
