-- ===== src/System.antt =====
-- The state that the calls of the stack share, and what they reach outside it: the functions of a
-- controller's driver, and the memory of a caller in user space.
use rtcan_bb.Base.{ℕ, Bool, false, not, Option, none, some, List, [], ◌∷◌, if◌then◌else◌}
use rtcan_bb.Rtcan.Abi.{Errno, Ret, CanState, CanMode, CanFrame}
use rtcan_bb.Rtcan.Socket.{FlistPtr, Sockets}
use rtcan_bb.Rtcan.Device.{Bittime, Device, Devices}

-- `rtcan_devices`, the sockets by number, `rtcan_socket_list`, and the pointers that `rtdm_free` was
-- called with, the latest first.
pub record System : Type 0 where
  pub devices : Devices
  pub sockets : Sockets
  pub socket_list : List ℕ
  pub freed : List FlistPtr

-- The function pointers of `struct rtcan_device`; `none` is NULL. A driver is a parameter.
pub record DeviceOps : Type 0 where
  pub hard_start_xmit : ℕ → CanFrame → System → Ret × System
  pub do_set_mode : Option (Device → CanMode → Ret × Device)
  pub do_get_state : Option (Device → CanState)
  pub do_set_bit_time : Option (Device → Bittime → Ret × Device)
  pub do_enable_bus_err : Option (Device → Device)

-- The accesses to user memory that a call makes: the check of RTDM and the copy.
pub data Site : Type 0 where
  arg_read arg_write name_read name_write iov_read iov_write base_read base_write : Site
  control_read control_write optval_read : Site

-- `user_info`: NULL for a caller in the kernel, else which accesses succeed.
pub data Caller : Type 0 where
  kernel : Caller
  user : (Site → Bool) → Caller

abbrev pub fails : Caller → Site → Bool
fails kernel site = false
fails (user succeeds) site = not (succeeds site)

-- Tests that end a call with an error, in their order.
abbrev pub first_error : List (Bool × Errno) → Option Errno
first_error [] = none
first_error ((test, e) ∷ tests) = if test then some e else first_error tests

-- `struct sockaddr_can`: whether the family is AF_CAN, and the index as its 32-bit pattern.
pub record SockaddrCan : Type 0 where
  pub is_af_can : Bool
  pub can_ifindex : ℕ

-- What `rtdm_sem_timeddown` returns.
pub data Down : Type 0 where
  down : Down
  down_err : Errno → Down
