-- ===== src/Flexcan/Modes/Held.antt =====
-- What a FlexCAN device holds in each state: its interrupt, its clock and the semaphore of its
-- senders (can/rtcan_flexcan.c).
use rtcan_bb.Base.{
  ℕ, zero, suc, Bool, true, false, not, Option, none, some, ◌≡◌, refl, ap, ◌∙◌, ◌⊎◌, inl, inr,
  arith, if◌then◌else◌,
}
use rtcan_bb.Rtcan.Abi.{Errno, Ret, ok, err, enodev, CanState, is_operating}
use rtcan_bb.Rtcan.Socket.{sem_exists}
use rtcan_bb.Rtcan.Device.{Device, Bittime, std, btr}
use rtcan_bb.Sja1000.Errors.{has}
use rtcan_bb.Flexcan.Regs
use rtcan_bb.Flexcan.{
  FlexcanPort, Flexcan, flexcan_set_state, flexcan_read, flexcan_transceiver_switch, flexcan_write,
  flexcan_chip_enable, flexcan_chip_disable,
}
use rtcan_bb.Flexcan.Timing.{flexcan_set_bit_time}
use rtcan_bb.Flexcan.Modes.{
  flexcan_clear_buffers, flexcan_set_ctrl, flexcan_accept_all, flexcan_halt, flexcan_prepare,
  flexcan_configure, flexcan_chip_start, flexcan_mcr_softrst,
}

abbrev pub is_stopped : CanState → Bool
is_stopped CanState.stopped = true
is_stopped CanState.active = false
is_stopped CanState.bus_warning = false
is_stopped CanState.bus_passive = false
is_stopped CanState.bus_off = false
is_stopped CanState.scanning_baudrate = false
is_stopped CanState.sleeping = false

-- A registered device has its clock enabled once, and once more while it is not stopped; its
-- interrupt is requested while it is not stopped; and while it operates, its senders can wait.
pub record IsHeld {B : Type 0} (st : Flexcan B) : Type 0 where
  pub irq : st.irq_held ≡ not (is_stopped st.dev.state)
  pub clock : st.clocks ≡ (if is_stopped st.dev.state then 1 else 2)
  pub senders : is_operating st.dev.state ≡ true → sem_exists st.dev.tx_sem ≡ true

-- Only the hardware and the saved control register have changed.
pub record IsSameBut {B : Type 0} (st st' : Flexcan B) : Type 0 where
  pub dev : st'.dev ≡ st.dev
  pub clocks : st'.clocks ≡ st.clocks
  pub irq : st'.irq_held ≡ st.irq_held

same : {B : Type 0} (st : Flexcan B) → IsSameBut st st
same st = record { dev = refl; clocks = refl; irq = refl }

then_same : {B : Type 0} {a b c : Flexcan B} → IsSameBut a b → IsSameBut b c → IsSameBut a c
then_same p q = record { dev = q.dev ∙ p.dev; clocks = q.clocks ∙ p.clocks; irq = q.irq ∙ p.irq }

pub operating-running : (state : CanState) → is_operating state ≡ true → is_stopped state ≡ false
operating-running CanState.active e = refl
operating-running CanState.bus_warning e = refl
operating-running CanState.bus_passive e = refl
operating-running CanState.bus_off e = refl
operating-running CanState.scanning_baudrate e = refl
operating-running CanState.stopped e = absurd (ground arith)
operating-running CanState.sleeping e = refl

module _ {B : Type 0} (port : FlexcanPort B) where
  -- The parts of a start.
  set_bit_time-IsSameBut : (st : Flexcan B) → IsSameBut st (flexcan_set_bit_time port st).1
  unfolding flexcan_set_bit_time
  set_bit_time-IsSameBut st = by_type st.bit_time
    where
      by_type :
          (bt : Bittime) → IsSameBut st (flexcan_set_bit_time port (record st { bit_time = bt })).1
      by_type (std bt) = record { dev = refl; clocks = refl; irq = refl }
      by_type (btr btr0 btr1) = record { dev = refl; clocks = refl; irq = refl }

  clear_buffers-IsSameBut :
      (i n : ℕ) (st : Flexcan B) → IsSameBut st (flexcan_clear_buffers port i n st)
  unfolding flexcan_clear_buffers
  clear_buffers-IsSameBut i zero st = same st
  clear_buffers-IsSameBut i (suc n) st =
      let rest = clear_buffers-IsSameBut (suc i) n _ in
      record { dev = rest.dev; clocks = rest.clocks; irq = rest.irq }

  set_ctrl-IsSameBut : (st : Flexcan B) → IsSameBut st (flexcan_set_ctrl port st)
  unfolding flexcan_set_ctrl
  set_ctrl-IsSameBut st = record { dev = refl; clocks = refl; irq = refl }

  accept_all-IsSameBut : (st : Flexcan B) → IsSameBut st (flexcan_accept_all port st)
  unfolding flexcan_accept_all
  accept_all-IsSameBut st = record { dev = ground arith; clocks = ground arith; irq = ground arith }

  pub switch-IsSameBut :
      (on : Bool) (st : Flexcan B) → IsSameBut st (flexcan_transceiver_switch port on st)
  unfolding flexcan_transceiver_switch
  switch-IsSameBut on st = by_platform port.transceiver_switch
    where
      by_platform :
          (switch : Option (Bool → B → B))
          → IsSameBut st
              (flexcan_transceiver_switch (record port { transceiver_switch = switch }) on st)
      by_platform none = same st
      by_platform (some switch) = record { dev = refl; clocks = refl; irq = refl }

  bus-IsSameBut : (st : Flexcan B) (bus : B) → IsSameBut st (record st { bus = bus })
  bus-IsSameBut st bus = record { dev = refl; clocks = refl; irq = refl }

  halt-IsSameBut : (st : Flexcan B) → IsSameBut st (flexcan_halt port st)
  unfolding flexcan_halt
  halt-IsSameBut st = then_same (set_bit_time-IsSameBut st) (bus-IsSameBut _ _)

  prepare-IsSameBut : (st : Flexcan B) → IsSameBut st (flexcan_prepare port st)
  unfolding flexcan_prepare
  prepare-IsSameBut st =
      let set = then_same (halt-IsSameBut st) (set_ctrl-IsSameBut (flexcan_halt port st)) in
      let cleared = then_same set (clear_buffers-IsSameBut 0 64 _) in
      let accepting = then_same cleared (accept_all-IsSameBut _) in
      then_same (then_same accepting (switch-IsSameBut true _)) (bus-IsSameBut _ _)

  -- A start of the chip leaves the state when it fails and makes it active when it succeeds; it
  -- touches neither the interrupt nor the clock nor the senders.
  abbrev pub IsBegun : Flexcan B → Ret × Flexcan B → Type 0
  IsBegun st r =
      ((r.0 ≡ ok 0) × IsSameBut (flexcan_set_state st CanState.active) r.1)
      ⊎ (((e : Errno) × (r.0 ≡ err e)) × IsSameBut st r.1)

  configure-IsSameBut :
      (st : Flexcan B)
      → IsSameBut (flexcan_set_state st CanState.active) (flexcan_configure port st)
  unfolding flexcan_configure
  configure-IsSameBut st =
      let p = prepare-IsSameBut st in
      record {
        dev = ap (λ (dev : Device). record dev { state = CanState.active }) p.dev;
        clocks = p.clocks;
        irq = p.irq;
      }

  pub chip_start-IsBegun : (st : Flexcan B) → IsBegun st (flexcan_chip_start port st)
  unfolding flexcan_chip_start
  chip_start-IsBegun st = by_reset (has (flexcan_read port reset Regs.mcr).0 flexcan_mcr_softrst)
    where
      reset : Flexcan B
      reset = flexcan_write port (flexcan_chip_enable port st) Regs.mcr flexcan_mcr_softrst

      by_reset :
          (b : Bool)
          → IsBegun st (
              if b
              then (err enodev, flexcan_chip_disable port (flexcan_read port reset Regs.mcr).1)
              else (ok 0, flexcan_configure port (flexcan_read port reset Regs.mcr).1))
      by_reset true = inr ((enodev, refl), record { dev = refl; clocks = refl; irq = refl })
      by_reset false =
          let p = configure-IsSameBut (flexcan_read port reset Regs.mcr).1 in
          inl (refl, record { dev = p.dev; clocks = p.clocks; irq = p.irq })
