-- ===== src/CCan.antt =====
-- The driver of the C_CAN and D_CAN controllers, rtcan_c_can.c: its registers and the state of a
-- device. The functions that access the hardware are parameters.
pub mod Objects
pub mod Bittiming
pub mod Modes
pub mod Transmit
pub mod Receive
pub mod Errors
pub mod Interrupt
pub mod Platform
pub mod Power
pub mod Senders
pub mod Probe
use rtcan_bb.Base.{
  ℕ, ◌+◌, ◌-◌, ◌*◌, ◌%◌, ◌^◌, bit_and, bit_or, Bool, true, false, not, Option, none, some, ◌==◌,
  if◌then◌else◌,
}
use rtcan_bb.Rtcan.Device.{BittimeStd, Device}

-- `read_reg`, `write_reg` and `raminit` of `struct c_can_priv`, and the runtime power management of
-- the platform device (its argument is whether power is taken); `none` is NULL.
pub record CPort (B : Type 0) : Type 0 where
  pub read_reg : B → ℕ → ℕ × B
  pub write_reg : B → ℕ → ℕ → B
  pub raminit : Option (Bool → B → B)
  pub runtime : Option (Bool → B → B)

-- `enum reg`
abbrev pub c_can_ctrl_reg : ℕ
c_can_ctrl_reg = 0

abbrev pub c_can_ctrl_ex_reg : ℕ
c_can_ctrl_ex_reg = 1

abbrev pub c_can_sts_reg : ℕ
c_can_sts_reg = 2

abbrev pub c_can_err_cnt_reg : ℕ
c_can_err_cnt_reg = 3

abbrev pub c_can_btr_reg : ℕ
c_can_btr_reg = 4

abbrev pub c_can_int_reg : ℕ
c_can_int_reg = 5

abbrev pub c_can_test_reg : ℕ
c_can_test_reg = 6

abbrev pub c_can_brpext_reg : ℕ
c_can_brpext_reg = 7

-- C_CAN_IFACE: a register of interface `iface`.
abbrev pub comreq_reg : ℕ → ℕ
comreq_reg iface = 8 + iface * 11

abbrev pub commsk_reg : ℕ → ℕ
commsk_reg iface = 9 + iface * 11

abbrev pub mask1_reg : ℕ → ℕ
mask1_reg iface = 10 + iface * 11

abbrev pub mask2_reg : ℕ → ℕ
mask2_reg iface = 11 + iface * 11

abbrev pub arb1_reg : ℕ → ℕ
arb1_reg iface = 12 + iface * 11

abbrev pub arb2_reg : ℕ → ℕ
arb2_reg iface = 13 + iface * 11

abbrev pub msgctrl_reg : ℕ → ℕ
msgctrl_reg iface = 14 + iface * 11

abbrev pub data1_reg : ℕ → ℕ
data1_reg iface = 15 + iface * 11

abbrev pub c_can_txrqst1_reg : ℕ
c_can_txrqst1_reg = 30

abbrev pub c_can_intpnd1_reg : ℕ
c_can_intpnd1_reg = 34

-- The message objects: 1 to 16 receive, 17 to 32 transmit.
abbrev pub c_can_msg_obj_rx_first : ℕ
c_can_msg_obj_rx_first = 1

abbrev pub c_can_msg_obj_rx_last : ℕ
c_can_msg_obj_rx_last = 16

abbrev pub c_can_msg_obj_tx_first : ℕ
c_can_msg_obj_tx_first = 17

abbrev pub c_can_msg_obj_tx_last : ℕ
c_can_msg_obj_tx_last = 32

abbrev pub c_can_msg_obj_tx_num : ℕ
c_can_msg_obj_tx_num = 16

abbrev pub c_can_msg_rx_low_last : ℕ
c_can_msg_rx_low_last = 8

abbrev pub c_can_no_of_objects : ℕ
c_can_no_of_objects = 32

-- LEC_UNUSED
abbrev pub lec_unused : ℕ
lec_unused = 7

-- A device with this driver: `bus` is the hardware.
pub record CCan (B : Type 0) : Type 0 where
  pub bus : B
  pub dev : Device
  pub bit_time : BittimeStd
  pub last_status : ℕ
  pub tx_next : ℕ
  pub tx_echo : ℕ
  pub irq_requested : Bool

module _ {B : Type 0} (port : CPort B) where
  abbrev pub c_can_write : ℕ → ℕ → B → B
  c_can_write reg v bus = port.write_reg bus reg (v % 2 ^ 16)

  -- `c_can_read_reg32`
  unfoldable pub c_can_read_reg32 : ℕ → B → ℕ × B
  c_can_read_reg32 index bus =
      let (low, bus1) = port.read_reg bus index in
      let (high, bus2) = port.read_reg bus1 (index + 1) in
      (bit_or low (high * 2 ^ 16 % 2 ^ 32), bus2)

  -- `c_can_enable_all_interrupts`: CONTROL_SIE | CONTROL_EIE | CONTROL_IE.
  unfoldable pub c_can_enable_all_interrupts : Bool → B → B
  c_can_enable_all_interrupts enable bus =
      let (cntrl_save, bus') = port.read_reg bus c_can_ctrl_reg in
      c_can_write c_can_ctrl_reg
        (if enable then bit_or cntrl_save 14 else bit_and cntrl_save (2 ^ 32 - 1 - 14)) bus'

  -- `c_can_reset_ram`, and `c_can_pm_runtime_get_sync` or `c_can_pm_runtime_put_sync`.
  abbrev pub c_can_reset_ram : Bool → B → B
  c_can_reset_ram enable bus = elim port.raminit [ none ↦ bus | some raminit ↦ raminit enable bus ]

  abbrev pub c_can_pm_runtime : Bool → B → B
  c_can_pm_runtime get bus = elim port.runtime [ none ↦ bus | some runtime ↦ runtime get bus ]
