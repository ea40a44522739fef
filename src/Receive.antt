-- ===== src/Receive.antt =====
-- The way of a frame to the sockets: `rtcan_rcv`, `rtcan_tx_push` and `rtcan_loopback` of
-- can/rtcan_raw.c, with loopback configured.
pub mod Delivery
use rtcan_bb.Base.{
  ℕ, ◌+◌, ◌-◌, ◌%◌, ◌^◌, bit_and, Bool, true, false, not, ◌&&◌, Option, none, some, List, [], ◌∷◌,
  ◌==◌, if◌then◌else◌, update, length,
}
use rtcan_bb.Base.Memory.{Bytes, memcpy, put_byte, load32, store32, store64}
use rtcan_bb.Rtcan.Abi.{can_err_flag, can_rtr_flag, CanFrame}
use rtcan_bb.Rtcan.Socket.RbFrame
use rtcan_bb.Rtcan.Socket.{Config, empty_rb_frame_size, Skb, Sockets}
use rtcan_bb.Rtcan.Device.{Recv, Device}
use rtcan_bb.Ring.{mark, rcv_deliver}
use rtcan_bb.Filter.{accept_msg}

-- The walk along the reception list: the entries, the sockets and the frame after it.
unfoldable pub deliver_each :
    Config → (Recv → Sockets → Bool) → List Recv → Sockets → Skb → List Recv × Sockets × Skb
deliver_each cfg accepts [] socks skb = ([], socks, skb)
deliver_each cfg accepts (e ∷ entries) socks skb =
    let hit = accepts e socks in
    let sock = socks e.sock in
    let e' = (if hit then record e { match_count = (e.match_count + 1) % 2 ^ 32 } else e) in
    let (entries', socks', skb') =
      deliver_each cfg accepts entries
        (if hit then update socks e.sock (rcv_deliver cfg sock skb) else socks)
        (if hit then mark sock skb else skb) in
    (e' ∷ entries', socks', skb')

-- The test on an entry: for an error frame, for any other, and for the sender's own frame.
abbrev pub accepts_error : ℕ → Recv → Sockets → Bool
accepts_error can_id e socks = not (bit_and can_id (socks e.sock).err_mask == 0)

abbrev pub accepts_frame : ℕ → Recv → Sockets → Bool
accepts_frame can_id e socks = accept_msg can_id e.can_filter

abbrev pub is_sender : Option ℕ → ℕ → Bool
is_sender none s = false
is_sender (some sender) s = sender == s

abbrev pub accepts_looped : Option ℕ → ℕ → Recv → Sockets → Bool
accepts_looped sender can_id e socks =
    not (is_sender sender e.sock) && accept_msg can_id e.can_filter

-- The timestamp behind the frame.
unfoldable pub stamp : ℕ → Skb → Skb
stamp timestamp skb = record skb { rb_frame = store64 skb.rb_frame skb.rb_frame_size timestamp }

-- `rtcan_rcv`, at the time that `rtdm_clock_read` returns.
unfoldable pub rcv : Config → ℕ → Device → Sockets → Skb → Device × Sockets × Skb
unfolding deliver_each stamp
rcv cfg timestamp dev socks skb =
    let stamped = stamp timestamp skb in
    let can_id = load32 stamped.rb_frame RbFrame.can_id_offset in
    let is_error = not (bit_and can_id can_err_flag == 0) in
    let accepts = (if is_error then accepts_error can_id else accepts_frame can_id) in
    let (entries, socks', skb') = deliver_each cfg accepts dev.recv_list socks stamped in
    (
      record dev {
        recv_list = entries;
        err_count = (if is_error then (dev.err_count + 1) % 2 ^ 32 else dev.err_count);
        rx_count = (if is_error then dev.rx_count else (dev.rx_count + 1) % 2 ^ 32);
      },
      socks',
      skb',
    )

-- `rtcan_tx_push`
unfoldable pub tx_push : Device → ℕ → CanFrame → Device
tx_push dev s frame =
    let has_data = not (frame.can_dlc == 0) && bit_and frame.can_id can_rtr_flag == 0 in
    let head =
      put_byte (store32 dev.tx_skb.rb_frame RbFrame.can_id_offset frame.can_id)
        RbFrame.can_dlc_offset (frame.can_dlc % 2 ^ 8) in
    let body =
      (if has_data
        then memcpy head RbFrame.payload_offset frame.payload 0 frame.can_dlc
        else head) in
    record dev {
      tx_skb = record {
        rb_frame_size =
            (if has_data then empty_rb_frame_size + frame.can_dlc else empty_rb_frame_size);
        rb_frame = put_byte body RbFrame.can_ifindex_offset (dev.ifindex % 2 ^ 8);
      };
      tx_socket = some s;
    }

-- `rtcan_loopback`; `rx_count` goes up for each entry of the list.
unfoldable pub loopback : Config → ℕ → Device → Sockets → Device × Sockets
unfolding deliver_each stamp
loopback cfg timestamp dev socks =
    let stamped = stamp timestamp dev.tx_skb in
    let can_id = load32 stamped.rb_frame RbFrame.can_id_offset in
    let (entries, socks', skb') =
      deliver_each cfg (accepts_looped dev.tx_socket can_id) dev.recv_list socks stamped in
    (
      record dev {
        recv_list = entries;
        rx_count = (dev.rx_count + length dev.recv_list) % 2 ^ 32;
        tx_skb = skb';
        tx_socket = none;
      },
      socks',
    )
