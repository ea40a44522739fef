-- ===== src/Flexcan/Interrupt.antt =====
-- The interrupt service routine: `flexcan_interrupt` of can/rtcan_flexcan.c.
pub mod Unmoved
pub mod Reports
pub mod Rounds
use rtcan_bb.Base.{
  ℕ, zero, suc, ◌+◌, ◌*◌, ◌^◌, bit_and, Bool, true, false, not, ◌||◌, Option, none, some, ◌==◌,
  if◌then◌else◌,
}
use rtcan_bb.Rtcan.Socket.{Config, Skb, Sockets, sem_up}
use rtcan_bb.Rtcan.Abi.{CanState}
use rtcan_bb.Receive.{rcv, loopback}
use rtcan_bb.Virt.{is_pending}
use rtcan_bb.Sja1000.Errors.{has}
use rtcan_bb.Flexcan.Regs
use rtcan_bb.Flexcan.{FlexcanPort, Flexcan, bit, flexcan_read, flexcan_write, flexcan_call_sem}
use rtcan_bb.Flexcan.Frames.{
  flexcan_tx_buf_id, flexcan_iflag_rx_fifo_available, flexcan_rx_interrupt,
}
use rtcan_bb.Flexcan.Errors.{
  flexcan_esr_all_int, flexcan_esr_err_bus, flexcan_iflag_rx_fifo_overflow, flexcan_get_state,
  flexcan_err_interrupt, is_same_state,
}

-- What the routine works on: the device, the sockets, the local `skb`, and whether `ret` is
-- RTDM_IRQ_HANDLED.
pub record FlexcanHandler (B : Type 0) : Type 0 where
  pub chip : Flexcan B
  pub sockets : Sockets
  pub skb : Skb
  pub handled : Bool

-- `now` is `rtdm_clock_read`.
module _ {B : Type 0} (port : FlexcanPort B) (now : B → ℕ × B) (cfg : Config) where
  -- `rtcan_rcv` on the device.
  unfoldable pub flexcan_hand_over : FlexcanHandler B → FlexcanHandler B
  flexcan_hand_over h =
      let (timestamp, bus) = now h.chip.bus in
      let (dev, socks, skb) = rcv cfg timestamp h.chip.dev h.sockets h.skb in
      record {
        chip = record h.chip { bus = bus; dev = dev };
        sockets = socks;
        skb = skb;
        handled = true;
      }

  -- The acknowledgement of the error sources.
  unfoldable pub flexcan_acknowledge : ℕ → FlexcanHandler B → FlexcanHandler B
  flexcan_acknowledge esr h =
      if has esr flexcan_esr_all_int
      then record h { chip = flexcan_write port h.chip Regs.esr (bit_and esr flexcan_esr_all_int) }
      else h

  -- The transmission complete interrupt.
  unfoldable pub flexcan_serve_transmit : ℕ → FlexcanHandler B → FlexcanHandler B
  flexcan_serve_transmit iflag1 h =
      let written = flexcan_write port h.chip Regs.iflag1 (bit flexcan_tx_buf_id) in
      let up = flexcan_call_sem written sem_up in
      let (timestamp, bus) = now up.bus in
      let (dev, socks) = loopback cfg timestamp up.dev h.sockets in
      if not (has iflag1 (bit flexcan_tx_buf_id))
      then h
      else (if is_pending up.dev
          then record h {
            chip = record up { bus = bus; dev = dev };
            sockets = socks;
            handled = true;
          }
          else record h { chip = up; handled = true })

  -- The body of the loop of the receive interrupt, with the flags for its next test.
  unfoldable pub flexcan_receive_one : FlexcanHandler B → ℕ × FlexcanHandler B
  unfolding flexcan_hand_over
  flexcan_receive_one h =
      let (skb, bus) = flexcan_rx_interrupt port h.chip.dev h.chip.bus h.skb in
      let (iflag1, chip) = flexcan_read port (record h.chip { bus = bus }) Regs.iflag1 in
      (iflag1, flexcan_hand_over (record h { chip = chip; skb = skb }))

  -- The loop, with `n` rounds allowed; `none` is a loop that has not ended.
  unfoldable pub flexcan_serve_receive : ℕ → ℕ → FlexcanHandler B → Option (ℕ × FlexcanHandler B)
  unfolding flexcan_receive_one
  flexcan_serve_receive zero iflag1 h =
      if has iflag1 flexcan_iflag_rx_fifo_available then none else some (iflag1, h)
  flexcan_serve_receive (suc n) iflag1 h =
      let (iflag1', h') = flexcan_receive_one h in
      let rest = flexcan_serve_receive n iflag1' h' in
      if has iflag1 flexcan_iflag_rx_fifo_available then rest else some (iflag1, h)

  -- The error or state change interrupt.
  unfoldable pub flexcan_serve_errors : (iflag1 esr : ℕ) → FlexcanHandler B → FlexcanHandler B
  unfolding flexcan_hand_over
  flexcan_serve_errors iflag1 esr h =
      let new_state = flexcan_get_state esr in
      let (chip, skb) = flexcan_err_interrupt port h.chip h.skb iflag1 esr new_state in
      if not (is_same_state new_state h.chip.dev.state)
        || has iflag1 flexcan_iflag_rx_fifo_overflow
        || has esr flexcan_esr_err_bus
      then flexcan_hand_over (record h { chip = chip; skb = skb })
      else h

  -- What follows the loop.
  unfoldable pub flexcan_finish : ℕ → Option (ℕ × FlexcanHandler B) → Option (FlexcanHandler B)
  unfolding flexcan_serve_errors
  flexcan_finish esr none = none
  flexcan_finish esr (some (iflag1, h)) = some (flexcan_serve_errors iflag1 esr h)

  -- `flexcan_interrupt`, with `n` rounds of the loop allowed.
  unfoldable pub flexcan_interrupt : ℕ → FlexcanHandler B → Option (FlexcanHandler B)
  unfolding flexcan_acknowledge flexcan_serve_transmit flexcan_serve_receive flexcan_finish
  flexcan_interrupt n h =
      let (iflag1, chip1) = flexcan_read port h.chip Regs.iflag1 in
      let (esr, chip2) = flexcan_read port chip1 Regs.esr in
      let acknowledged = flexcan_acknowledge esr (record h { chip = chip2; handled = false }) in
      flexcan_finish esr
        (flexcan_serve_receive n iflag1 (flexcan_serve_transmit iflag1 acknowledged))
