-- ===== src/Tests.antt =====
-- Concrete devices, sockets and frames at which the theorems are applied.
pub mod Binding
pub mod Queue
pub mod Control
pub mod Chip
pub mod Bosch
pub mod Freescale
use rtcan_bb.Base.{
  ℕ, zero, suc, ◌+◌, ◌≡◌, refl, sym, subst, Bool, true, false, Option, none, some, List, [], ◌∷◌,
  arith, update, inl, inr, ◌⊎◌,
}
use rtcan_bb.Base.Memory.{Bytes, zeroed}
use rtcan_bb.Rtcan.Abi.{Filter, CanFrame, CanState}
use rtcan_bb.Rtcan.Socket.{Config, Skb, Socket, null, list}
use rtcan_bb.Rtcan.Device.{Recv, BittimingConst, BittimeStd, std, btr, Device, Devices}
use rtcan_bb.System.{System, SockaddrCan}

-- Ring buffers of 64 bytes, two devices of four entries each.
abbrev pub config : Config
config = record { rxbuf_bits = 6; max_devices = 2; max_receivers = 4 }

abbrev pub filter : Filter
filter = record { can_id = 0x123; can_mask = 0x7ff }

abbrev pub entry_of : ℕ → Recv
entry_of s = record { can_filter = record { can_id = 0; can_mask = 0 }; match_count = 0; sock = s }

abbrev pub socket : Socket
socket = record {
  tx_timeout = 0;
  rx_timeout = 0;
  recv_head = 60;
  recv_tail = 60;
  recv_buf = zeroed;
  recv_sem = [];
  tx_wait_head = 7 ∷ 8 ∷ [];
  ifindex = 0;
  flistlen = none;
  err_mask = 0;
  rx_buf_full = 0;
  flist = null;
  loopback = 1;
  get_timestamp = true;
  closing = false;
}

-- Bound to the first device, with one entry.
abbrev pub bound_socket : Socket
bound_socket = record socket { ifindex = 1; flistlen = some 1 }

-- A device with these entries in its reception list, and this many empty ones.
abbrev pub device : List Recv → List Recv → ℕ → Device
device recv_list empty_list free_entries = record {
  name = b'r' ∷ b't' ∷ [];
  ifindex = 1;
  refcount = 0;
  tx_sem = [];
  can_sys_clock = 8000000;
  baudrate = 0;
  bit_time = btr 0 0;
  bittiming_const = none;
  state = CanState.stopped;
  ctrl_mode = 0;
  recv_list = recv_list;
  empty_list = empty_list;
  free_entries = free_entries;
  tx_count = 0;
  rx_count = 0;
  err_count = 0;
  tx_skb = record { rb_frame_size = 6; rb_frame = zeroed };
  tx_socket = some 5;
  bus_err_enabled = false;
}

-- One entry, of socket 3.
abbrev pub used_device : Device
used_device = device (entry_of 3 ∷ []) (entry_of 0 ∷ entry_of 0 ∷ entry_of 0 ∷ []) 3

-- No entry.
abbrev pub free_device : Device
free_device = device [] (entry_of 0 ∷ entry_of 0 ∷ entry_of 0 ∷ entry_of 0 ∷ []) 4

abbrev pub one_device : Device → Devices
one_device dev zero = some dev
one_device dev (suc j) = none

-- Socket 3 bound to the only device.
abbrev pub system : System
system = record {
  devices = one_device used_device;
  sockets = λ _. bound_socket;
  socket_list = 3 ∷ [];
  freed = [];
}

abbrev pub frame : CanFrame
frame = record { can_id = 0x123; can_dlc = 2; payload = λ i. 0x40 + i }

abbrev pub skb : Skb
skb = record { rb_frame_size = 6; rb_frame = zeroed }
