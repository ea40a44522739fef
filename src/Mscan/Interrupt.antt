-- ===== src/Mscan/Interrupt.antt =====
-- The interrupt service routine: `rtcan_mscan_interrupt` of can/mscan/rtcan_mscan.c.
use rtcan_bb.Base.{ℕ, ◌+◌, Bool, false, ◌==◌, if◌then◌else◌}
use rtcan_bb.Rtcan.Socket.{Config, Skb, Sockets, sem_up}
use rtcan_bb.Receive.{rcv, loopback}
use rtcan_bb.Virt.{is_pending}
use rtcan_bb.Sja1000.Errors.{has}
use rtcan_bb.Mscan.{
  MscanPort, Mscan, canrflg, cantflg, cantier, mscan_call_sem, mscan_in, mscan_out,
}
use rtcan_bb.Mscan.Errors.{mscan_cscif, mscan_ovrif, mscan_rxf, mscan_err_interrupt}
use rtcan_bb.Mscan.Frames.{mscan_txe0, mscan_txie0, mscan_rx_interrupt}

-- What the routine works on: the device, the sockets, and the local `skb`.
pub record MscanHandler (B : Type 0) : Type 0 where
  pub chip : Mscan B
  pub sockets : Sockets
  pub skb : Skb

-- `now` is `rtdm_clock_read`.
module _ {B : Type 0} (port : MscanPort B) (now : B → ℕ × B) (cfg : Config) where
  -- `rtcan_rcv` on the device.
  unfoldable pub mscan_hand_over : MscanHandler B → MscanHandler B
  mscan_hand_over h =
      let (timestamp, bus) = now h.chip.bus in
      let (dev, socks, skb) = rcv cfg timestamp h.chip.dev h.sockets h.skb in
      record { chip = record h.chip { bus = bus; dev = dev }; sockets = socks; skb = skb }

  -- The test for a transmit interrupt: the second register is only read when the first one allows.
  unfoldable pub mscan_is_sent : Mscan B → Bool × Mscan B
  mscan_is_sent st =
      let (enabled, st1) = mscan_in port st cantier in
      let (flags, st2) = mscan_in port st1 cantflg in
      if has enabled mscan_txie0 then (has flags mscan_txe0, st2) else (false, st1)

  -- The transmit interrupt, when there is one.
  unfoldable pub mscan_sent : MscanHandler B → MscanHandler B
  mscan_sent h =
      let up = mscan_call_sem (mscan_out port h.chip cantier 0) sem_up in
      let (timestamp, bus) = now up.bus in
      let (dev, socks) = loopback cfg timestamp up.dev h.sockets in
      if is_pending up.dev
      then record h { chip = record up { bus = bus; dev = dev }; sockets = socks }
      else record h { chip = up }

  unfoldable pub mscan_serve_transmit : MscanHandler B → MscanHandler B
  unfolding mscan_is_sent mscan_sent
  mscan_serve_transmit h =
      let (is_sent, chip) = mscan_is_sent h.chip in
      if is_sent then mscan_sent (record h { chip = chip }) else record h { chip = chip }

  -- The receive interrupt.
  unfoldable pub mscan_serve_receive : ℕ → MscanHandler B → MscanHandler B
  unfolding mscan_hand_over
  mscan_serve_receive flags h =
      let (skb, bus) = mscan_rx_interrupt port h.chip.dev h.chip.bus h.skb in
      if has flags mscan_rxf
      then mscan_hand_over (record h { chip = record h.chip { bus = bus }; skb = skb })
      else h

  -- The error interrupt.
  unfoldable pub mscan_serve_errors : ℕ → MscanHandler B → MscanHandler B
  unfolding mscan_hand_over
  mscan_serve_errors flags h =
      let (chip, skb) = mscan_err_interrupt port h.chip h.skb flags in
      if has flags (mscan_cscif + mscan_ovrif)
      then mscan_hand_over (record h { chip = chip; skb = skb })
      else h

  -- The acknowledgement.
  unfoldable pub mscan_acknowledge : ℕ → MscanHandler B → MscanHandler B
  mscan_acknowledge flags h =
      if flags == 0 then h else record h { chip = mscan_out port h.chip canrflg flags }

  -- `rtcan_mscan_interrupt`: it returns RTDM_IRQ_HANDLED.
  unfoldable pub mscan_interrupt : MscanHandler B → MscanHandler B
  unfolding mscan_serve_transmit mscan_serve_receive mscan_serve_errors mscan_acknowledge
  mscan_interrupt h =
      let (flags, chip) = mscan_in port h.chip canrflg in
      mscan_acknowledge flags (
        mscan_serve_errors flags
          (mscan_serve_receive flags (mscan_serve_transmit (record h { chip = chip }))))
