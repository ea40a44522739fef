-- ===== src/Rtcan/Socket.antt =====
-- `struct rtcan_socket` with the flags of its RTDM context, `struct rtcan_skb` and the layout of
-- `struct rtcan_rb_frame` (can/rtcan_socket.h), and the build's limits.
pub mod RbFrame
use rtcan_bb.Base.{ℕ, ◌^◌, ◌-◌, Bool, true, false, Option, List, [], ◌∷◌}
use rtcan_bb.Base.Memory.{Bytes}
use rtcan_bb.Rtcan.Abi.{Filter}

-- The Kconfig values: the ring buffer holds 2^rxbuf_bits bytes.
pub record Config : Type 0 where
  pub rxbuf_bits : ℕ
  pub max_devices : ℕ
  pub max_receivers : ℕ

abbrev pub rxbuf_size : Config → ℕ
rxbuf_size cfg = 2 ^ cfg.rxbuf_bits

-- EMPTY_RB_FRAME_SIZE and RTCAN_TIMESTAMP_SIZE
abbrev pub empty_rb_frame_size : ℕ
empty_rb_frame_size = 6

abbrev pub timestamp_size : ℕ
timestamp_size = 8

-- RTCAN_HAS_TIMESTAMP and RTCAN_HAS_NO_TIMESTAMP
abbrev pub has_timestamp : ℕ
has_timestamp = 0x80

abbrev pub has_no_timestamp : ℕ
has_no_timestamp = 0x7f

-- `struct rtcan_skb`, its frame as the memory that it is.
pub record Skb : Type 0 where
  pub rb_frame_size : ℕ
  pub rb_frame : Bytes

-- Calls on an RTDM semaphore. What RTDM does on them is not part of this program: a semaphore is
-- the calls made on it, the latest first.
pub data SemCall : Type 0 where
  sem_init : ℕ → SemCall
  sem_up sem_timeddown sem_destroy : SemCall

-- Whether a semaphore exists, from the calls on it, the latest first.
unfoldable pub sem_exists : List SemCall → Bool
sem_exists [] = false
sem_exists (sem_init n ∷ calls) = true
sem_exists (sem_destroy ∷ calls) = false
sem_exists (sem_up ∷ calls) = sem_exists calls
sem_exists (sem_timeddown ∷ calls) = sem_exists calls

-- The pointer `flist`: NULL, RTCAN_FLIST_NO_FILTER, or an allocated list.
pub data FlistPtr : Type 0 where
  null no_filter : FlistPtr
  list : List Filter → FlistPtr

-- Sockets go by numbers, and NULL is `none`. `flistlen` is `none` for RTCAN_SOCK_UNBOUND, -1.
pub record Socket : Type 0 where
  pub tx_timeout : ℕ
  pub rx_timeout : ℕ
  pub recv_head : ℕ
  pub recv_tail : ℕ
  pub recv_buf : Bytes
  pub recv_sem : List SemCall
  pub tx_wait_head : List ℕ
  pub ifindex : ℕ
  pub flistlen : Option ℕ
  pub err_mask : ℕ
  pub rx_buf_full : ℕ
  pub flist : FlistPtr
  pub loopback : ℕ
  pub get_timestamp : Bool
  pub closing : Bool

abbrev pub Sockets : Type 0
Sockets = ℕ → Socket

-- RTDM_TIMEOUT_INFINITE is 0, and RTDM_TIMEOUT_NONE is -1 in 64 bits.
abbrev pub timeout_infinite : ℕ
timeout_infinite = 0

abbrev pub timeout_none : ℕ
timeout_none = 2 ^ 64 - 1
