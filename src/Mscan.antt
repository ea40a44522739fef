-- ===== src/Mscan.antt =====
-- The driver of the MSCAN controller of Freescale's processors: its registers,
-- can/mscan/rtcan_mscan_regs.h, and what its functions share.
pub mod Frames
pub mod Errors
pub mod Modes
pub mod Timing
pub mod Interrupt
pub mod Senders
pub mod Probe
use rtcan_bb.Base.{ℕ, ◌+◌, ◌-◌, ◌*◌, ◌/◌, ◌%◌, ◌^◌, bit_and, bit_or, List, ◌∷◌, update}
use rtcan_bb.Rtcan.Abi.{CanState}
use rtcan_bb.Rtcan.Socket.{SemCall}
use rtcan_bb.Rtcan.Device.{Device}

-- The accesses to registers that the architecture offers, on whatever the state of the hardware is.
-- A register is one byte; `setbits8` and `clrbits8` set and clear the bits of a mask.
pub record MscanPort (B : Type 0) : Type 0 where
  pub in_8 : B → ℕ → ℕ × B
  pub out_8 : B → ℕ → ℕ → B
  pub setbits8 : B → ℕ → ℕ → B
  pub clrbits8 : B → ℕ → ℕ → B

-- Registers that keep what is written.
abbrev pub mscan_memory : MscanPort (ℕ → ℕ)
mscan_memory = record {
  in_8 = λ bus reg. (bus reg, bus);
  out_8 = λ bus reg v. update bus reg (v % 2 ^ 8);
  setbits8 = λ bus reg mask. update bus reg (bit_or (bus reg) mask);
  clrbits8 = λ bus reg mask. update bus reg (bit_and (bus reg) (2 ^ 8 - 1 - mask));
}

-- `struct mscan_regs`, by the offsets of its fields.
abbrev pub canctl0 : ℕ
canctl0 = 0

abbrev pub canctl1 : ℕ
canctl1 = 1

abbrev pub canbtr0 : ℕ
canbtr0 = 4

abbrev pub canbtr1 : ℕ
canbtr1 = 5

abbrev pub canrflg : ℕ
canrflg = 8

abbrev pub canrier : ℕ
canrier = 9

abbrev pub cantflg : ℕ
cantflg = 0x0c

abbrev pub cantier : ℕ
cantier = 0x0d

abbrev pub cantbsel : ℕ
cantbsel = 0x14

abbrev pub canidac : ℕ
canidac = 0x15

-- canidar0 to canidar7 and canidmr0 to canidmr7.
abbrev pub canidar : ℕ → ℕ
canidar n = 0x20 + n / 4 * 0x10 + n / 2 % 2 * 4 + n % 2

abbrev pub canidmr : ℕ → ℕ
canidmr n = 0x28 + n / 4 * 0x10 + n / 2 % 2 * 4 + n % 2

-- `canrxfg` and `cantxfg`, and the fields of the `struct mscan_msgbuf` at an offset.
abbrev pub canrxfg : ℕ
canrxfg = 0x40

abbrev pub cantxfg : ℕ
cantxfg = 0x60

abbrev pub idr : ℕ → ℕ → ℕ
idr buf i = buf + i

abbrev pub dlr : ℕ → ℕ
dlr buf = buf + 0x18

abbrev pub tbpr : ℕ → ℕ
tbpr buf = buf + 0x19

-- `dsr[i + (i / 2) * 2]`, where byte `i` of the payload is.
abbrev pub dsr_of : ℕ → ℕ → ℕ
dsr_of buf i = buf + 8 + (i + i / 2 * 2)

-- A device with this driver; the hardware is `bus`.
pub record Mscan (B : Type 0) : Type 0 where
  pub bus : B
  pub dev : Device
  pub state_before_sleep : CanState

-- `dev->state = …`, and a call on the semaphore of the senders.
abbrev pub mscan_set_state : {B : Type 0} → Mscan B → CanState → Mscan B
mscan_set_state st state = record st { dev = record st.dev { state = state } }

abbrev pub mscan_call_sem : {B : Type 0} → Mscan B → SemCall → Mscan B
mscan_call_sem st call = record st { dev = record st.dev { tx_sem = call ∷ st.dev.tx_sem } }

module _ {B : Type 0} (port : MscanPort B) where
  -- Accesses to the registers of a device.
  abbrev pub mscan_in : Mscan B → ℕ → ℕ × Mscan B
  mscan_in st reg = let (v, bus') = port.in_8 st.bus reg in (v, record st { bus = bus' })

  abbrev pub mscan_out : Mscan B → ℕ → ℕ → Mscan B
  mscan_out st reg v = record st { bus = port.out_8 st.bus reg v }

  abbrev pub mscan_set : Mscan B → ℕ → ℕ → Mscan B
  mscan_set st reg mask = record st { bus = port.setbits8 st.bus reg mask }

  abbrev pub mscan_clr : Mscan B → ℕ → ℕ → Mscan B
  mscan_clr st reg mask = record st { bus = port.clrbits8 st.bus reg mask }
