-- ===== src/Flexcan/Interrupt/Unmoved.antt =====
-- The acknowledgement and the transmit and receive parts of `flexcan_interrupt`
-- (can/rtcan_flexcan.c) leave what a device holds.
use rtcan_bb.Base.{
  ℕ, zero, suc, not, Option, none, some, ◌≡◌, refl, sym, ap, ◌∙◌, arith, if◌then◌else◌,
}
use rtcan_bb.Base.Partial.{Post, Post-if}
use rtcan_bb.Rtcan.Abi.{CanState, is_operating}
use rtcan_bb.Rtcan.Socket.{sem_exists, Config}
use rtcan_bb.Receive.{rcv, loopback}
use rtcan_bb.Sja1000.Errors.{has}
use rtcan_bb.Flexcan.{FlexcanPort, Flexcan}
use rtcan_bb.Flexcan.Frames.{flexcan_iflag_rx_fifo_available}
use rtcan_bb.Flexcan.Interrupt.{
  FlexcanHandler, flexcan_hand_over, flexcan_acknowledge, flexcan_serve_transmit,
  flexcan_receive_one, flexcan_serve_receive,
}
use rtcan_bb.Flexcan.Modes.Held.{IsHeld, is_stopped}

-- The state, the existence of the semaphore, the clock and the interrupt are those before.
pub record IsUnmoved {B : Type 0} (a b : Flexcan B) : Type 0 where
  pub state : b.dev.state ≡ a.dev.state
  pub sem : sem_exists b.dev.tx_sem ≡ sem_exists a.dev.tx_sem
  pub clocks : b.clocks ≡ a.clocks
  pub irq : b.irq_held ≡ a.irq_held

pub kept-IsHeld : {B : Type 0} (a b : Flexcan B) → IsUnmoved a b → IsHeld a → IsHeld b
kept-IsHeld a b k s = record {
  irq = k.irq ∙ s.irq ∙ ap (λ (state : CanState). not (is_stopped state)) (sym k.state);
  clock =
      k.clocks
      ∙ s.clock
      ∙ ap (λ (state : CanState). if is_stopped state then 1 else 2) (sym k.state);
  senders = λ h. k.sem ∙ s.senders (sym (ap is_operating k.state) ∙ h);
}

pub then_kept : {B : Type 0} {a b c : Flexcan B} → IsUnmoved a b → IsUnmoved b c → IsUnmoved a c
then_kept p q = record {
  state = q.state ∙ p.state;
  sem = q.sem ∙ p.sem;
  clocks = q.clocks ∙ p.clocks;
  irq = q.irq ∙ p.irq;
}

pub still : {B : Type 0} (a : Flexcan B) → IsUnmoved a a
still a = record { state = refl; sem = refl; clocks = refl; irq = refl }

module _ {B : Type 0} (port : FlexcanPort B) (now : B → ℕ × B) (cfg : Config) where
  pub acknowledge-IsUnmoved :
      (esr : ℕ) (h : FlexcanHandler B)
      → IsUnmoved h.chip (flexcan_acknowledge port now cfg esr h).chip
  unfolding flexcan_acknowledge
  acknowledge-IsUnmoved esr h = record {
    state = ground arith;
    sem = ground arith;
    clocks = ground arith;
    irq = ground arith;
  }

  pub serve_transmit-IsUnmoved :
      (iflag1 : ℕ) (h : FlexcanHandler B)
      → IsUnmoved h.chip (flexcan_serve_transmit port now cfg iflag1 h).chip
  unfolding flexcan_serve_transmit loopback sem_exists
  serve_transmit-IsUnmoved iflag1 h = record {
    state = ground arith;
    sem = ground arith;
    clocks = ground arith;
    irq = ground arith;
  }

  receive_one-IsUnmoved :
      (h : FlexcanHandler B) → IsUnmoved h.chip (flexcan_receive_one port now cfg h).1.chip
  unfolding flexcan_receive_one flexcan_hand_over rcv
  receive_one-IsUnmoved h = record { state = refl; sem = refl; clocks = refl; irq = refl }

  pub serve_receive-IsUnmoved :
      (n iflag1 : ℕ) (h : FlexcanHandler B)
      → Post
          (λ (r : ℕ × FlexcanHandler B). IsUnmoved h.chip r.1.chip)
          (flexcan_serve_receive port now cfg n iflag1 h)
  unfolding flexcan_serve_receive
  serve_receive-IsUnmoved zero iflag1 h =
      Post-if (λ (r : ℕ × FlexcanHandler B). IsUnmoved h.chip r.1.chip)
        (has iflag1 flexcan_iflag_rx_fifo_available) _ _ (λ e. tt) (λ e. still h.chip)
  serve_receive-IsUnmoved (suc n) iflag1 h =
      let (iflag1', h') = flexcan_receive_one port now cfg h in
      Post-if (λ (r : ℕ × FlexcanHandler B). IsUnmoved h.chip r.1.chip)
        (has iflag1 flexcan_iflag_rx_fifo_available) _ _
        (λ e. onward (receive_one-IsUnmoved h) _ (serve_receive-IsUnmoved n iflag1' h'))
        (λ e. still h.chip)
    where
      onward :
          {a b : Flexcan B}
          → IsUnmoved a b
          → (r : Option (ℕ × FlexcanHandler B))
          → Post (λ (r : ℕ × FlexcanHandler B). IsUnmoved b r.1.chip) r
          → Post (λ (r : ℕ × FlexcanHandler B). IsUnmoved a r.1.chip) r
      onward k none p = tt
      onward k (some r) p = then_kept k p
