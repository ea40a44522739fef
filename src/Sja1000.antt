-- ===== src/Sja1000.antt =====
-- The driver of the SJA1000: the state of a device, can/sja1000/rtcan_sja1000.h, and the registers
-- of the chip, can/sja1000/rtcan_sja1000_regs.h. The board's functions that access them are
-- parameters.
pub mod Frames
pub mod Errors
pub mod Modes
pub mod Timing
pub mod Interrupt
pub mod Senders
pub mod Probe
use rtcan_bb.Base.{ℕ, ◌+◌, ◌*◌, ◌%◌, ◌^◌, Bool, true, false, Option, none, some}
use rtcan_bb.Rtcan.Abi.{CanState}
use rtcan_bb.Rtcan.Device.{Device}

-- `read_reg`, `write_reg` and `irq_ack` of `struct rtcan_sja1000`, on whatever the state of the
-- hardware is. A register is one byte.
pub record Port (B : Type 0) : Type 0 where
  pub read_reg : B → ℕ → ℕ × B
  pub write_reg : B → ℕ → ℕ → B
  pub irq_ack : Option (B → B)

-- The registers, in PeliCAN mode.
abbrev pub sja_mod : ℕ
sja_mod = 0

abbrev pub sja_cmr : ℕ
sja_cmr = 1

abbrev pub sja_sr : ℕ
sja_sr = 2

abbrev pub sja_ir : ℕ
sja_ir = 3

abbrev pub sja_ier : ℕ
sja_ier = 4

abbrev pub sja_btr0 : ℕ
sja_btr0 = 6

abbrev pub sja_btr1 : ℕ
sja_btr1 = 7

abbrev pub sja_ocr : ℕ
sja_ocr = 8

abbrev pub sja_alc : ℕ
sja_alc = 11

abbrev pub sja_ecc : ℕ
sja_ecc = 12

abbrev pub sja_rxerr : ℕ
sja_rxerr = 14

abbrev pub sja_txerr : ℕ
sja_txerr = 15

abbrev pub sja_fir : ℕ
sja_fir = 16

-- SJA_ID1 to SJA_ID4.
abbrev pub sja_id : ℕ → ℕ
sja_id n = 16 + n

abbrev pub sja_amr : ℕ → ℕ
sja_amr n = 20 + n

abbrev pub sja_cdr : ℕ
sja_cdr = 31

-- SJA_DATA_SFF and SJA_DATA_EFF.
abbrev pub sja_data_sff : ℕ → ℕ
sja_data_sff x = 19 + x

abbrev pub sja_data_eff : ℕ → ℕ
sja_data_eff x = 21 + x

-- A write, of the lowest byte of a value.
abbrev pub put : {B : Type 0} → Port B → B → ℕ → ℕ → B
put port bus reg v = port.write_reg bus reg (v % 2 ^ 8)

-- A device with this driver: `bus_err_on` is a signed byte's pattern, and the hardware is `bus`.
pub record Sja (B : Type 0) : Type 0 where
  pub bus : B
  pub dev : Device
  pub state_before_sleep : CanState
  pub bus_err_on : ℕ
