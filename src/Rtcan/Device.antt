-- ===== src/Rtcan/Device.antt =====
-- `struct rtcan_device` and `struct can_bittiming_const` (can/rtcan_dev.h), `struct rtcan_recv`
-- (can/rtcan_list.h).
use rtcan_bb.Base.{ℕ, Bool, Option, List}
use rtcan_bb.Rtcan.Abi.{Filter, CanState}
use rtcan_bb.Rtcan.Socket.{Skb, SemCall}

-- An entry of a reception list. The chain of `next` pointers is the list that holds it.
pub record Recv : Type 0 where
  pub can_filter : Filter
  pub match_count : ℕ
  pub sock : ℕ

pub record BittimingConst : Type 0 where
  pub tseg1_min : ℕ
  pub tseg1_max : ℕ
  pub tseg2_min : ℕ
  pub tseg2_max : ℕ
  pub sjw_max : ℕ
  pub brp_min : ℕ
  pub brp_max : ℕ
  pub brp_inc : ℕ

-- `struct can_bittime_std`, and `struct can_bittime` with its two kinds.
pub record BittimeStd : Type 0 where
  pub brp : ℕ
  pub prop_seg : ℕ
  pub phase_seg1 : ℕ
  pub phase_seg2 : ℕ
  pub sjw : ℕ
  pub sam : ℕ

pub data Bittime : Type 0 where
  std : BittimeStd → Bittime
  btr : ℕ → ℕ → Bittime

-- `recv_list` and `empty_list` are the entries that each pointer leads to, in order. The name is
-- its text, up to the terminating zero.
pub record Device : Type 0 where
  pub name : List ℕ
  pub ifindex : ℕ
  pub refcount : ℕ
  pub tx_sem : List SemCall
  pub can_sys_clock : ℕ
  pub baudrate : ℕ
  pub bit_time : Bittime
  pub bittiming_const : Option BittimingConst
  pub state : CanState
  pub ctrl_mode : ℕ
  pub recv_list : List Recv
  pub empty_list : List Recv
  pub free_entries : ℕ
  pub tx_count : ℕ
  pub rx_count : ℕ
  pub err_count : ℕ
  pub tx_skb : Skb
  pub tx_socket : Option ℕ
  pub bus_err_enabled : Bool

-- `rtcan_devices`: the slot `ifindex - 1`.
abbrev pub Devices : Type 0
Devices = ℕ → Option Device
