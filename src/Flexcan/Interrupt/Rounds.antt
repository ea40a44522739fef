-- ===== src/Flexcan/Interrupt/Rounds.antt =====
-- The interrupt routine of the FlexCAN driver (can/rtcan_flexcan.c) keeps what a device holds.
use rtcan_bb.Base.{ℕ, Bool, true, false, not, ◌||◌, Option, none, some, sym, subst, if◌then◌else◌}
use rtcan_bb.Base.Partial.{Post}
use rtcan_bb.Rtcan.Abi.{CanState}
use rtcan_bb.Rtcan.Socket.{Config}
use rtcan_bb.Receive.{rcv}
use rtcan_bb.Sja1000.Errors.{has}
use rtcan_bb.Flexcan.Regs
use rtcan_bb.Flexcan.{FlexcanPort, Flexcan, flexcan_read}
use rtcan_bb.Flexcan.Errors.{
  flexcan_esr_err_bus, flexcan_iflag_rx_fifo_overflow, flexcan_get_state, flexcan_err_interrupt,
  is_same_state,
}
use rtcan_bb.Flexcan.Interrupt.{
  FlexcanHandler, flexcan_hand_over, flexcan_acknowledge, flexcan_serve_transmit,
  flexcan_serve_errors, flexcan_finish, flexcan_interrupt,
}
use rtcan_bb.Flexcan.Modes.Held.{IsHeld}
use rtcan_bb.Flexcan.Interrupt.Unmoved.{
  IsUnmoved, kept-IsHeld, then_kept, acknowledge-IsUnmoved, serve_transmit-IsUnmoved,
  serve_receive-IsUnmoved,
}
use rtcan_bb.Flexcan.Interrupt.Reports.{IsReport, err_interrupt-IsHeld}

module _ {B : Type 0} (port : FlexcanPort B) (now : B → ℕ × B) (cfg : Config) where
  serve_errors-IsHeld :
      (iflag1 esr : ℕ) (h : FlexcanHandler B)
      → IsReport (flexcan_get_state esr) h.chip.dev.state
      → IsHeld h.chip
      → IsHeld (flexcan_serve_errors port now cfg iflag1 esr h).chip
  unfolding flexcan_serve_errors flexcan_hand_over rcv
  serve_errors-IsHeld iflag1 esr h c s =
      chosen
        (not (is_same_state (flexcan_get_state esr) h.chip.dev.state)
          || has iflag1 flexcan_iflag_rx_fifo_overflow
          || has esr flexcan_esr_err_bus)
        _ h (record { irq = after.irq; clock = after.clock; senders = after.senders }) s
    where
      after : IsHeld (flexcan_err_interrupt port h.chip h.skb iflag1 esr (flexcan_get_state esr)).0
      after = err_interrupt-IsHeld port h.chip h.skb iflag1 esr c s

      chosen :
          (b : Bool) (h h' : FlexcanHandler B)
          → IsHeld h.chip
          → IsHeld h'.chip
          → IsHeld (if b then h else h').chip
      chosen true h h' s s' = s
      chosen false h h' s s' = s'

  finish-IsHeld :
      (esr : ℕ) (a : Flexcan B) (r : Option (ℕ × FlexcanHandler B))
      → Post (λ (r : ℕ × FlexcanHandler B). IsUnmoved a r.1.chip) r
      → IsReport (flexcan_get_state esr) a.dev.state
      → IsHeld a
      → Post (λ (h : FlexcanHandler B). IsHeld h.chip) (flexcan_finish port now cfg esr r)
  unfolding flexcan_finish
  finish-IsHeld esr a none k c s = tt
  finish-IsHeld esr a (some (iflag1, h)) k c s =
      serve_errors-IsHeld iflag1 esr h
        (subst (λ (state : CanState). IsReport (flexcan_get_state esr) state) (sym k.state) c)
        (kept-IsHeld a h.chip k s)

  -- The status that the routine reads.
  abbrev pub read_esr : Flexcan B → ℕ
  read_esr st = (flexcan_read port (flexcan_read port st Regs.iflag1).1 Regs.esr).0

  -- An interrupt keeps what a device holds, when the status it reads is one that the chip can report.
  pub flexcan_interrupt-IsHeld :
      (n : ℕ) (h : FlexcanHandler B)
      → IsReport (flexcan_get_state (read_esr h.chip)) h.chip.dev.state
      → IsHeld h.chip
      → Post (λ (h' : FlexcanHandler B). IsHeld h'.chip) (flexcan_interrupt port now cfg n h)
  unfolding flexcan_interrupt
  flexcan_interrupt-IsHeld n h c s =
      finish-IsHeld (read_esr h.chip) served.chip _
        (serve_receive-IsUnmoved port now cfg n iflag1 served)
        (subst (λ (state : CanState). IsReport (flexcan_get_state (read_esr h.chip)) state)
          (sym kept.state) c)
        (kept-IsHeld h.chip served.chip kept s)
    where
      iflag1 : ℕ
      iflag1 = (flexcan_read port h.chip Regs.iflag1).0

      looked : FlexcanHandler B
      looked = record h {
        chip = (flexcan_read port (flexcan_read port h.chip Regs.iflag1).1 Regs.esr).1;
        handled = false;
      }

      acknowledged : FlexcanHandler B
      acknowledged = flexcan_acknowledge port now cfg (read_esr h.chip) looked

      served : FlexcanHandler B
      served = flexcan_serve_transmit port now cfg iflag1 acknowledged

      first : IsUnmoved h.chip acknowledged.chip
      first =
          let k = acknowledge-IsUnmoved port now cfg (read_esr h.chip) looked in
          record { state = k.state; sem = k.sem; clocks = k.clocks; irq = k.irq }

      kept : IsUnmoved h.chip served.chip
      kept = then_kept first (serve_transmit-IsUnmoved port now cfg iflag1 acknowledged)
