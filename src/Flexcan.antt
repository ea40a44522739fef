-- ===== src/Flexcan.antt =====
-- The driver of the FlexCAN controller, can/rtcan_flexcan.c: its registers and what its functions
-- share.
pub mod Regs
pub mod Frames
pub mod Errors
pub mod Timing
pub mod Modes
pub mod Interrupt
pub mod Steps
pub mod Probe
use rtcan_bb.Base.{
  ℕ, ◌+◌, ◌-◌, ◌*◌, ◌^◌, bit_and, bit_or, Bool, true, false, Option, none, some, List, ◌∷◌, update,
}
use rtcan_bb.Rtcan.Abi.{CanState}
use rtcan_bb.Rtcan.Socket.{SemCall}
use rtcan_bb.Rtcan.Device.{Device, Bittime}
use rtcan_bb.Flexcan.Regs

-- The accesses to registers that the architecture offers, on whatever the state of the hardware is,
-- and the function of the platform that switches the transceiver, where there is one. A register
-- has 32 bits.
pub record FlexcanPort (B : Type 0) : Type 0 where
  pub readl : B → ℕ → ℕ × B
  pub writel : B → ℕ → ℕ → B
  pub transceiver_switch : Option (Bool → B → B)

-- Registers that keep what is written.
abbrev pub flexcan_memory : FlexcanPort (ℕ → ℕ)
flexcan_memory = record {
  readl = λ bus reg. (bus reg, bus);
  writel = update;
  transceiver_switch = none;
}

-- The message buffers, by the offsets of the fields of `struct flexcan_mb`.
abbrev pub mb_ctrl : ℕ → ℕ
mb_ctrl i = 0x80 + 16 * i

abbrev pub mb_id : ℕ → ℕ
mb_id i = 0x84 + 16 * i

abbrev pub mb_data : ℕ → ℕ → ℕ
mb_data i word = 0x88 + 16 * i + 4 * word

-- BIT, and `~` of 32 bits.
abbrev pub bit : ℕ → ℕ
bit n = 2 ^ n

abbrev pub not32 : ℕ → ℕ
not32 mask = 2 ^ 32 - 1 - mask

abbrev pub flexcan_mcr_mdis : ℕ
flexcan_mcr_mdis = bit 31

-- A device with this driver: the hardware is `bus`, and the clock counts how often it has been
-- enabled and not yet disabled.
pub record Flexcan (B : Type 0) : Type 0 where
  pub bus : B
  pub dev : Device
  pub bit_time : Bittime
  pub reg_ctrl_default : ℕ
  pub features : ℕ
  pub clocks : ℕ
  pub irq_held : Bool

-- `dev->state = …`, and a call on the semaphore of the senders.
abbrev pub flexcan_set_state : {B : Type 0} → Flexcan B → CanState → Flexcan B
flexcan_set_state st state = record st { dev = record st.dev { state = state } }

abbrev pub flexcan_call_sem : {B : Type 0} → Flexcan B → SemCall → Flexcan B
flexcan_call_sem st call = record st { dev = record st.dev { tx_sem = call ∷ st.dev.tx_sem } }

-- `flexcan_clk_enable` and `flexcan_clk_disable`.
abbrev pub flexcan_clk_enable : {B : Type 0} → Flexcan B → Flexcan B
flexcan_clk_enable st = record st { clocks = st.clocks + 1 }

abbrev pub flexcan_clk_disable : {B : Type 0} → Flexcan B → Flexcan B
flexcan_clk_disable st = record st { clocks = st.clocks - 1 }

module _ {B : Type 0} (port : FlexcanPort B) where
  -- `flexcan_read` and `flexcan_write`
  abbrev pub flexcan_read : Flexcan B → ℕ → ℕ × Flexcan B
  flexcan_read st reg = let (v, bus') = port.readl st.bus reg in (v, record st { bus = bus' })

  abbrev pub flexcan_write : Flexcan B → ℕ → ℕ → Flexcan B
  flexcan_write st reg v = record st { bus = port.writel st.bus reg v }

  unfoldable pub flexcan_transceiver_switch : Bool → Flexcan B → Flexcan B
  flexcan_transceiver_switch on st = elim port.transceiver_switch [
    | none ↦ st
    | some switch ↦ record st { bus = switch on st.bus }
  ]

  -- A register is read, and written again with bits of it cleared or set.
  abbrev pub flexcan_change : (ℕ → ℕ) → ℕ → Flexcan B → Flexcan B
  flexcan_change f reg st = let (v, st') = flexcan_read st reg in flexcan_write st' reg (f v)

  abbrev pub flexcan_chip_enable : Flexcan B → Flexcan B
  flexcan_chip_enable = flexcan_change (λ reg. bit_and reg (not32 flexcan_mcr_mdis)) Regs.mcr

  abbrev pub flexcan_chip_disable : Flexcan B → Flexcan B
  flexcan_chip_disable = flexcan_change (λ reg. bit_or reg flexcan_mcr_mdis) Regs.mcr
