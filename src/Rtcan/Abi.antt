-- ===== src/Rtcan/Abi.antt =====
-- Values of the public interface: flags and masks of identifiers, error codes, states and modes of
-- a controller, frames and filters.
use rtcan_bb.Base.{ℕ, ◌^◌, ◌-◌, Bool, true, false}
use rtcan_bb.Base.Memory.{Bytes}

-- Bits of a CAN identifier, CAN_EFF_FLAG, CAN_RTR_FLAG, CAN_ERR_FLAG, and the masks.
abbrev pub can_eff_flag : ℕ
can_eff_flag = 2 ^ 31

abbrev pub can_rtr_flag : ℕ
can_rtr_flag = 2 ^ 30

abbrev pub can_err_flag : ℕ
can_err_flag = 2 ^ 29

abbrev pub can_eff_mask : ℕ
can_eff_mask = 2 ^ 29 - 1

abbrev pub can_sff_mask : ℕ
can_sff_mask = 2 ^ 11 - 1

-- CAN_INV_FILTER is CAN_EFF_FLAG, and the other mask is its complement in 32 bits.
abbrev pub can_inv_filter : ℕ
can_inv_filter = 2 ^ 31

abbrev pub not_can_inv_filter : ℕ
not_can_inv_filter = 2 ^ 31 - 1

-- The kernel's error codes; `err e` below is the return value `-e`.
pub data Errno : Type 0 where
  einval enodev ebadf enospc enomem efault enoprotoopt eopnotsupp eprotonosupport : Errno
  emsgsize eagain enxio enetdown ecomm edom enotsupp eexist ebusy eidrm ewouldblock : Errno
  etimedout eintr eio : Errno

-- The int that a function returns.
pub data Ret : Type 0 where
  ok : ℕ → Ret
  err : Errno → Ret

-- `can_state_t`
pub data CanState : Type 0 where
  active bus_warning bus_passive bus_off scanning_baudrate stopped sleeping : CanState

-- CAN_STATE_OPERATING: the states before bus-off.
abbrev pub is_operating : CanState → Bool
is_operating CanState.active = true
is_operating CanState.bus_warning = true
is_operating CanState.bus_passive = true
is_operating CanState.bus_off = false
is_operating CanState.scanning_baudrate = false
is_operating CanState.stopped = false
is_operating CanState.sleeping = false

-- `can_mode_t`
pub data CanMode : Type 0 where
  stop start sleep : CanMode

-- `can_filter_t`
pub record Filter : Type 0 where
  pub can_id : ℕ
  pub can_mask : ℕ

-- `can_frame_t`
pub record CanFrame : Type 0 where
  pub can_id : ℕ
  pub can_dlc : ℕ
  pub payload : Bytes

-- `sizeof(can_frame_t)` and `sizeof(struct can_filter)`
abbrev pub can_frame_size : ℕ
can_frame_size = 16

abbrev pub can_filter_size : ℕ
can_filter_size = 8

-- CAN_CTRLMODE_LISTENONLY and CAN_CTRLMODE_LOOPBACK
abbrev pub can_ctrlmode_listenonly : ℕ
can_ctrlmode_listenonly = 1

abbrev pub can_ctrlmode_loopback : ℕ
can_ctrlmode_loopback = 2
