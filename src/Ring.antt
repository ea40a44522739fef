-- ===== src/Ring.antt =====
-- The ring buffer of a socket: `rtcan_rcv_deliver` (can/rtcan_raw.c) writes a frame at its tail, and
-- MEMCPY_FROM_RING_BUF reads at an index.
pub mod Bytewise
pub mod Fifo
use rtcan_bb.Base.{ℕ, ◌+◌, ◌-◌, ◌%◌, ◌^◌, bit_and, bit_or, Bool, ◌∷◌, ltb, leb, if◌then◌else◌}
use rtcan_bb.Base.Memory.{Bytes, memcpy, put_byte}
use rtcan_bb.Rtcan.Socket.RbFrame
use rtcan_bb.Rtcan.Socket.{
  Config, rxbuf_size, timestamp_size, has_timestamp, has_no_timestamp, Skb, sem_up, Socket,
}

-- `recv_head - recv_tail`, and a whole turn more if that is not positive.
unfoldable pub size_free : Config → Socket → ℕ
size_free cfg sock =
    if leb sock.recv_head sock.recv_tail
    then sock.recv_head + rxbuf_size cfg - sock.recv_tail
    else sock.recv_head - sock.recv_tail

-- `(index + len) & (RTCAN_RXBUF_SIZE - 1)`
unfoldable pub advance : Config → ℕ → ℕ → ℕ
advance cfg index len = bit_and (index + len) (rxbuf_size cfg - 1)

-- The copy into the buffer, in two parts where it goes round the end.
unfoldable pub copy_in : Config → Bytes → ℕ → Bytes → ℕ → Bytes
copy_in cfg recv_buf recv_tail frame cpy_size =
    let first_part_size = rxbuf_size cfg - recv_tail in
    if ltb (rxbuf_size cfg) (recv_tail + cpy_size)
    then memcpy (memcpy recv_buf recv_tail frame 0 first_part_size) 0 frame first_part_size
        (cpy_size - first_part_size)
    else memcpy recv_buf recv_tail frame 0 cpy_size

-- MEMCPY_FROM_RING_BUF(&to[at], len): what is read, and the index after it is `advance`.
unfoldable pub copy_out : Config → Bytes → ℕ → Bytes → ℕ → ℕ → Bytes
copy_out cfg to at recv_buf recv_buf_index len =
    let first_part_size = rxbuf_size cfg - recv_buf_index in
    if ltb (rxbuf_size cfg) (recv_buf_index + len)
    then memcpy (memcpy to at recv_buf recv_buf_index first_part_size) (at + first_part_size)
        recv_buf 0 (len - first_part_size)
    else memcpy to at recv_buf recv_buf_index len

-- What `rtcan_rcv_deliver` copies: the frame, and the timestamp if the socket wants it.
unfoldable pub cpy_size : Socket → Skb → ℕ
cpy_size sock skb =
    if sock.get_timestamp then skb.rb_frame_size + timestamp_size else skb.rb_frame_size

-- The mark on the frame itself, which the next receiver finds there.
unfoldable pub mark : Socket → Skb → Skb
mark sock skb =
    let dlc = skb.rb_frame RbFrame.can_dlc_offset in
    record skb {
      rb_frame =
          put_byte skb.rb_frame RbFrame.can_dlc_offset
            (if sock.get_timestamp then bit_or dlc has_timestamp else bit_and dlc has_no_timestamp);
    }

-- `rtcan_rcv_deliver`, on the frame that `mark` has marked.
unfoldable pub store : Config → Socket → Bytes → ℕ → Socket
store cfg sock frame size =
    if ltb size (size_free cfg sock)
    then record sock {
      recv_buf = copy_in cfg sock.recv_buf sock.recv_tail frame size;
      recv_tail = advance cfg sock.recv_tail size;
      recv_sem = sem_up ∷ sock.recv_sem;
    }
    else record sock { rx_buf_full = (sock.rx_buf_full + 1) % 2 ^ 32 }

unfoldable pub rcv_deliver : Config → Socket → Skb → Socket
rcv_deliver cfg sock skb = store cfg sock (mark sock skb).rb_frame (cpy_size sock skb)
