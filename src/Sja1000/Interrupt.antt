-- ===== src/Sja1000/Interrupt.antt =====
-- The interrupt service routine: `rtcan_sja_interrupt` of can/sja1000/rtcan_sja1000.c.
use rtcan_bb.Base.{
  ℕ, zero, suc, ◌+◌, ◌-◌, ◌%◌, ◌^◌, bit_and, Bool, true, false, not, ◌&&◌, Option, none, some, ◌==◌,
  if◌then◌else◌,
}
use rtcan_bb.Rtcan.Socket.{Config, Skb, Sockets, sem_up}
use rtcan_bb.Receive.{rcv, loopback}
use rtcan_bb.Virt.{is_pending}
use rtcan_bb.Sja1000.{Port, Sja, sja_ir}
use rtcan_bb.Sja1000.Errors.{has, sja_ir_ri, sja_ir_ti, sja_ir_wui, sja_ir_bei, err_interrupt}
use rtcan_bb.Sja1000.Frames.{rx_interrupt}
use rtcan_bb.Sja1000.Modes.{set_state, call_sem, signed_below, sja_read}

-- What the routine works on: the device, the sockets, and the local `skb`.
pub record Handler (B : Type 0) : Type 0 where
  pub chip : Sja B
  pub sockets : Sockets
  pub skb : Skb

-- SJA_IR_EI | SJA_IR_DOI | SJA_IR_EPI | SJA_IR_ALI | SJA_IR_BEI
abbrev pub sja_ir_errors : ℕ
sja_ir_errors = 4 + 8 + 32 + 64 + 128

-- `chip->bus_err_on--`, of a signed byte.
abbrev pub count_bus_err : {B : Type 0} → Sja B → Sja B
count_bus_err st = record st { bus_err_on = (st.bus_err_on + 2 ^ 8 - 1) % 2 ^ 8 }

-- The wake-up interrupt.
unfoldable pub serve_wakeup : {B : Type 0} → ℕ → Handler B → Handler B
serve_wakeup irq h =
    if has irq sja_ir_wui then record h { chip = set_state h.chip h.chip.state_before_sleep } else h

-- `now` is `rtdm_clock_read`.
module _ {B : Type 0} (port : Port B) (now : B → ℕ × B) (cfg : Config) where
  -- `rtcan_rcv` on the device.
  unfoldable pub hand_over : Handler B → Handler B
  hand_over h =
      let (timestamp, bus) = now h.chip.bus in
      let (dev, socks, skb) = rcv cfg timestamp h.chip.dev h.sockets h.skb in
      record { chip = record h.chip { bus = bus; dev = dev }; sockets = socks; skb = skb }

  -- The error interrupts. Bus errors are passed on as long as their count has not run out.
  unfoldable pub serve_errors : ℕ → Handler B → Handler B
  unfolding hand_over
  serve_errors irq h =
      let counted = (if has irq sja_ir_bei then count_bus_err h.chip else h.chip) in
      let (chip, skb) = err_interrupt port counted h.skb irq in
      if bit_and irq sja_ir_errors == 0
      then h
      else (if has irq sja_ir_bei && signed_below h.chip.bus_err_on 2
          then record h { chip = counted }
          else hand_over (record h { chip = chip; skb = skb }))

  -- The transmit interrupt.
  unfoldable pub serve_transmit : ℕ → Handler B → Handler B
  serve_transmit irq h =
      let up = call_sem h.chip sem_up in
      let (timestamp, bus) = now up.bus in
      let (dev, socks) = loopback cfg timestamp up.dev h.sockets in
      if not (has irq sja_ir_ti)
      then h
      else (if is_pending up.dev
          then record h { chip = record up { bus = bus; dev = dev }; sockets = socks }
          else record h { chip = up })

  -- The receive interrupt.
  unfoldable pub serve_receive : ℕ → Handler B → Handler B
  unfolding hand_over
  serve_receive irq h =
      let (skb, bus) = rx_interrupt port h.chip.dev h.chip.bus h.skb in
      if has irq sja_ir_ri
      then hand_over (record h { chip = record h.chip { bus = bus }; skb = skb })
      else h

  -- The body of the loop.
  unfoldable pub serve : ℕ → Handler B → Handler B
  unfolding serve_wakeup serve_errors serve_transmit serve_receive
  serve irq h = serve_receive irq (serve_transmit irq (serve_errors irq (serve_wakeup irq h)))

  -- `chip->irq_ack(dev)`, where there is one.
  unfoldable pub acknowledge : Handler B → Handler B
  acknowledge h = elim port.irq_ack [
    | none ↦ h
    | some irq_ack ↦ record h { chip = record h.chip { bus = irq_ack h.chip.bus } }
  ]

  abbrev pub read_source : Handler B → ℕ × Handler B
  read_source h = let (irq, chip) = sja_read port h.chip sja_ir in (irq, record h { chip = chip })

  -- The loop, with `n` reads of the interrupt register allowed; `handled` is RTDM_IRQ_HANDLED.
  unfoldable pub serve_all : ℕ → Bool → Handler B → Option (Bool × Handler B)
  unfolding serve acknowledge
  serve_all zero handled h = none
  serve_all (suc n) handled h =
      let (irq, h') = read_source h in
      elim (irq == 0) [
        | true ↦ some (handled, acknowledge h')
        | false ↦ serve_all n true (serve irq h')
      ]

  -- `rtcan_sja_interrupt`
  unfoldable pub interrupt : ℕ → Handler B → Option (Bool × Handler B)
  unfolding serve_all
  interrupt n h = serve_all n false h
