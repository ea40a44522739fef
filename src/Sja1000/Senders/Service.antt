-- ===== src/Sja1000/Senders/Service.antt =====
-- A round of the interrupt routine keeps the semaphore of the senders in step with the state.
use rtcan_bb.Base.{
  ℕ, Bool, true, false, not, ◌&&◌, ◌≡◌, sym, ap, ◌∙◌, arith, if◌then◌else◌, ◌==◌, bit_and,
}
use rtcan_bb.Base.Memory.{Bytes}
use rtcan_bb.Rtcan.Abi.{CanState}
use rtcan_bb.Rtcan.Socket.{sem_exists, Config, Skb}
use rtcan_bb.Rtcan.Device.{Device}
use rtcan_bb.Receive.{rcv, loopback}
use rtcan_bb.Sja1000.{Port, Sja, sja_sr}
use rtcan_bb.Sja1000.Errors.{
  err_interrupt, after_epi, after_ei, serve_ei, has, sja_sr_bs, sja_ir_ei, sja_ir_bei, sja_ir_ri,
}
use rtcan_bb.Sja1000.Interrupt.{
  Handler, serve, serve_wakeup, serve_errors, serve_transmit, serve_receive, hand_over,
  count_bus_err, sja_ir_errors,
}
use rtcan_bb.Sja1000.Modes.{is_reset, signed_below}
use rtcan_bb.Sja1000.Senders.{IsSound, bus-IsSound}

-- The state after an error interrupt, found outside reset mode.
after_epi-running :
    (irq : ℕ) (state : CanState) → is_reset state ≡ false → is_reset (after_epi irq state) ≡ false
unfolding after_epi
after_epi-running irq CanState.active h = ground (arith, h)
after_epi-running irq CanState.bus_warning h = ground (arith, h)
after_epi-running irq CanState.bus_passive h = ground (arith, h)
after_epi-running irq CanState.bus_off h = ground (arith, h)
after_epi-running irq CanState.scanning_baudrate h = ground (arith, h)
after_epi-running irq CanState.stopped h = ground (arith, h)
after_epi-running irq CanState.sleeping h = ground (arith, h)

after_ei-running :
    (irq status : ℕ) (state : CanState)
    → is_reset state ≡ false
    → is_reset (after_ei irq status state) ≡ (has irq sja_ir_ei && has status sja_sr_bs)
unfolding after_ei
after_ei-running irq status CanState.active h = ground (arith, h)
after_ei-running irq status CanState.bus_warning h = ground (arith, h)
after_ei-running irq status CanState.bus_passive h = ground (arith, h)
after_ei-running irq status CanState.bus_off h = ground (arith, h)
after_ei-running irq status CanState.scanning_baudrate h = ground (arith, h)
after_ei-running irq status CanState.stopped h = ground (arith, h)
after_ei-running irq status CanState.sleeping h = ground (arith, h)

-- The passive and warning states only move within the operating ones, so the semaphore goes exactly
-- with the change to bus-off.
serve_ei-sem :
    {B : Type 0} (port : Port B) (irq status : ℕ) (state : CanState) (dev : Device) (frame : Bytes)
    (bus : B)
    → sem_exists dev.tx_sem ≡ true
    → sem_exists (serve_ei port irq status state dev frame bus).0.tx_sem
      ≡ not (has irq sja_ir_ei && has status sja_sr_bs)
unfolding serve_ei sem_exists
serve_ei-sem port irq status state dev frame bus h = ground (arith, h)

module _ {B : Type 0} (port : Port B) where
  err_interrupt-IsSound :
      (st : Sja B) (skb : Skb) (irq : ℕ)
      → is_reset st.dev.state ≡ false
      → IsSound st
      → IsSound (err_interrupt port st skb irq).0
  unfolding err_interrupt
  err_interrupt-IsSound st skb irq h s = record {
    senders =
        serve_ei-sem port irq (port.read_reg st.bus sja_sr).0 (after_epi irq st.dev.state) st.dev _
          _ (s.senders ∙ ap not h)
        ∙ ap not (
            sym (
              after_ei-running irq (port.read_reg st.bus sja_sr).0 (after_epi irq st.dev.state)
                (after_epi-running irq st.dev.state h)));
    wakes = s.wakes;
  }

module _ {B : Type 0} (port : Port B) (now : B → ℕ × B) (cfg : Config) where
  hand_over-IsSound : (h : Handler B) → IsSound h.chip → IsSound (hand_over port now cfg h).chip
  unfolding hand_over rcv
  hand_over-IsSound h s = record { senders = s.senders; wakes = s.wakes }

  serve_wakeup-IsSound :
      (irq : ℕ) (h : Handler B)
      → is_reset h.chip.dev.state ≡ false
      → IsSound h.chip
      → (is_reset (serve_wakeup irq h).chip.dev.state ≡ false) × IsSound (serve_wakeup irq h).chip
  unfolding serve_wakeup
  serve_wakeup-IsSound irq h r s = (
    ground (arith, r, s.wakes),
    record { senders = ground (arith, r, s.senders, s.wakes); wakes = ground (arith, s.wakes) },
  )

  chosen-IsSound :
      (c : Bool) (h h' : Handler B)
      → IsSound h.chip
      → IsSound h'.chip
      → IsSound (if c then h else h').chip
  chosen-IsSound true h h' s s' = s
  chosen-IsSound false h h' s s' = s'

  counted-IsSound :
      (c : Bool) (st : Sja B)
      → is_reset st.dev.state ≡ false
      → IsSound st
      → (is_reset (if c then count_bus_err st else st).dev.state ≡ false)
        × IsSound (if c then count_bus_err st else st)
  counted-IsSound true st r s = (r, record { senders = s.senders; wakes = s.wakes })
  counted-IsSound false st r s = (r, s)

  serve_errors-IsSound :
      (irq : ℕ) (h : Handler B)
      → is_reset h.chip.dev.state ≡ false
      → IsSound h.chip
      → IsSound (serve_errors port now cfg irq h).chip
  unfolding serve_errors
  serve_errors-IsSound irq h r s =
      let counted = counted-IsSound (has irq sja_ir_bei) h.chip r s in
      chosen-IsSound (bit_and irq sja_ir_errors == 0) h _ s (
        chosen-IsSound (has irq sja_ir_bei && signed_below h.chip.bus_err_on 2) _ _ counted.1
          (hand_over-IsSound _ (err_interrupt-IsSound port _ h.skb irq counted.0 counted.1)))

  serve_transmit-IsSound :
      (irq : ℕ) (h : Handler B) → IsSound h.chip → IsSound (serve_transmit port now cfg irq h).chip
  unfolding serve_transmit loopback sem_exists
  serve_transmit-IsSound irq h s = record {
    senders = ground (arith, s.senders);
    wakes = ground (arith, s.wakes);
  }

  serve_receive-IsSound :
      (irq : ℕ) (h : Handler B) → IsSound h.chip → IsSound (serve_receive port now cfg irq h).chip
  unfolding serve_receive
  serve_receive-IsSound irq h s =
      chosen-IsSound (has irq sja_ir_ri) _ h (hand_over-IsSound _ (bus-IsSound h.chip _ s)) s

  pub serve-IsSound :
      (irq : ℕ) (h : Handler B)
      → is_reset h.chip.dev.state ≡ false
      → IsSound h.chip
      → IsSound (serve port now cfg irq h).chip
  unfolding serve
  serve-IsSound irq h r s =
      let woken = serve_wakeup-IsSound irq h r s in
      serve_receive-IsSound irq _ (
        serve_transmit-IsSound irq _
          (serve_errors-IsSound irq (serve_wakeup irq h) woken.0 woken.1))
