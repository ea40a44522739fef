-- ===== src/Tests/Queue.antt =====
-- The theorems on ring buffers at a socket whose buffer is about to go round its end.
use rtcan_bb.Base.{◌<◌, ◌≡◌, refl, true, false, [], ◌∷◌, arith}
use rtcan_bb.Base.Memory.{bytes, zeroed}
use rtcan_bb.Rtcan.Socket.{Skb, Socket}
use rtcan_bb.Ring.{mark, cpy_size, size_free, rcv_deliver}
use rtcan_bb.Ring.Bytewise.{IsValid, used}
use rtcan_bb.Ring.Fifo.{Queued}
use rtcan_bb.Raw.Recvmsg.{read_frame, consume}
use rtcan_bb.Raw.Recvmsg.Frame.{Reads, read_size}
use rtcan_bb.Raw.Recvmsg.Queue.{
  message, IsFrame, rcv_deliver-Queued, read-Queued, read_size-message, unread_timestamp_stays,
}
use rtcan_bb.Receive.{stamp, deliver_each, rcv}
use rtcan_bb.Virt.{virt_skb, virt_deliver}
use rtcan_bb.Virt.Bus.{Way, received, Arrives, virtual_roundtrip}
use rtcan_bb.Tests.{config, socket, frame, system}

-- A frame 0x123 with two data bytes.
abbrev two_bytes : Skb
two_bytes = record {
  rb_frame_size = 8;
  rb_frame = bytes (0x23 ∷ 0x01 ∷ 0 ∷ 0 ∷ 1 ∷ 2 ∷ 0x40 ∷ 0x41 ∷ []);
}

two_bytes-IsFrame : IsFrame two_bytes
two_bytes-IsFrame = record { byte = omega arith; sized = refl }

socket-IsValid : IsValid config socket
socket-IsValid = record { head_in = omega arith; tail_in = omega arith }

room : cpy_size socket two_bytes < size_free config socket
unfolding cpy_size size_free
room = omega arith

rcv_deliver-Queued_example :
    IsValid config (rcv_deliver config socket two_bytes)
    × Queued config (rcv_deliver config socket two_bytes) 0 (message socket two_bytes ∷ [])
rcv_deliver-Queued_example = rcv_deliver-Queued config socket two_bytes [] socket-IsValid room refl

abbrev filled : Socket
filled = rcv_deliver config socket two_bytes

filled_queue : IsValid config filled × Queued config filled 0 (message socket two_bytes ∷ [])
filled_queue = rcv_deliver-Queued config socket two_bytes [] socket-IsValid room refl

sixteen : read_size true (message socket two_bytes).content ≡ (message socket two_bytes).size
sixteen = read_size-message socket two_bytes true two_bytes-IsFrame (λ e. refl)

read-Queued_example :
    let got = read_frame config filled true in
    let s' = consume filled false got.recv_buf_index in
    Reads config filled (message socket two_bytes).content true got
    × IsValid config s'
    × Queued config s' 0 []
read-Queued_example =
    read-Queued config filled (message socket two_bytes) [] true filled_queue.0 filled_queue.1
      sixteen

unread_timestamp_stays_example :
    used config (consume filled false (read_frame config filled false).recv_buf_index) ≡ 8
unfolding mark
unread_timestamp_stays_example =
    unread_timestamp_stays config filled (message socket two_bytes) filled_queue.0 filled_queue.1
      refl sixteen

-- The second device of a bus; a socket of it that wants timestamps has been served before.
abbrev way : Way
way = record {
  tx = 2;
  before = 1 ∷ [];
  sys = system;
  ifindex = 1;
  timestamp = 99;
  accepts = λ e socks. true;
  earlier =
      record { can_filter = record { can_id = 0; can_mask = 0 }; match_count = 0; sock = 3 } ∷ [];
  socks = λ s. record socket { get_timestamp = true };
}

virtual_roundtrip_example :
    let s' = rcv_deliver config socket (received config way zeroed frame) in
    let got = read_frame config s' true in
    Arrives frame got × Queued config (consume s' false got.recv_buf_index) 0 []
unfolding cpy_size size_free virt_skb stamp virt_deliver deliver_each mark rcv
virtual_roundtrip_example =
    virtual_roundtrip config socket way zeroed frame true
      (record { identifier = omega arith; few = omega arith }) socket-IsValid refl (omega arith)
      (λ e. refl)
