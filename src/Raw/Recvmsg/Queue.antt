-- ===== src/Raw/Recvmsg/Queue.antt =====
-- `rtcan_rcv_deliver` and `rtcan_raw_recvmsg` together: the messages of a socket are a queue.
use rtcan_bb.Base.{
  ℕ, zero, suc, ◌*◌, ◌/◌, ◌+◌, ◌%◌, ◌^◌, ◌≤◌, ◌<◌, bit_and, bit_or, ◌≡◌, refl, sym, ap, ap₂, ◌∙◌,
  subst, Bool, true, false, not, ◌&&◌, arith, ltb, ◌==◌, if◌then◌else◌, Bool-cases, inl, inr, List,
  [], ◌∷◌, ◌++◌,
}
use rtcan_bb.Base.Bits.{bit_and_mask, bit_and_power}
use rtcan_bb.Base.Bits.Shifts.{bit_or_split, bit_or-zero}
use rtcan_bb.Base.Memory.{load32}
use rtcan_bb.Rtcan.Abi.{can_rtr_flag}
use rtcan_bb.Rtcan.Socket.{Config, rxbuf_size, Skb, Socket}
use rtcan_bb.Ring.{size_free, store, mark, cpy_size, rcv_deliver}
use rtcan_bb.Ring.Bytewise.{IsValid, used, pending, wrap, store-Appended}
use rtcan_bb.Ring.Fifo.{
  Message, Queued, Queued-le, store-Queued, drop_bytes, drop_bytes-Queued, drop_bytes-IsValid,
  used-drop_bytes,
}
use rtcan_bb.Raw.Recvmsg.{read_frame, consume}
use rtcan_bb.Raw.Recvmsg.Frame.{Reads, read_frame_lem, read_size, data_size, dlc_of, is_stamped}

-- The message that a socket gets of a frame.
abbrev pub message : Socket → Skb → Message
message s skb = record { content = (mark s skb).rb_frame; size = cpy_size s skb }

-- A frame in a receive buffer of a driver, marked or not: a length code of one byte, and as many
-- data bytes as its size says.
pub record IsFrame (skb : Skb) : Type 0 where
  pub byte : skb.rb_frame 5 < 2 ^ 8
  pub sized : skb.rb_frame_size ≡ 6 + data_size skb.rb_frame

-- The bit of the timestamp in a length code of one byte.
pub marked_byte : (d : ℕ) → d < 2 ^ 8 → bit_or d 0x80 ≡ 128 + d % 128
marked_byte d h =
    ap (λ (n : ℕ). bit_or n 0x80) {x = d} {y = d / 128 * 2 ^ 7 + d % 128} (omega arith)
    ∙ bit_or_split 7 (d / 128) (d % 128) 1 0 (omega arith) (omega arith)
    ∙ omega (arith, top (d / 128) (omega (arith, h)), bit_or-zero (d % 128))
  where
    top : (n : ℕ) → n < 2 → bit_or n 1 ≡ 1
    top zero e = refl
    top (suc zero) e = refl
    top (suc (suc n)) e = absurd (omega arith)

set_mark :
    (d : ℕ)
    → d < 2 ^ 8
    → (bit_and (bit_or d 0x80) 0x7f ≡ bit_and d 0x7f) × (bit_and (bit_or d 0x80) 0x80 ≡ 128)
set_mark d h = omega (
  arith,
  bit_and_mask 7 (bit_or d 0x80),
  bit_and_mask 7 d,
  bit_and_power 7 (bit_or d 0x80),
  marked_byte d h,
)

clear_mark :
    (d : ℕ) → (bit_and (bit_and d 0x7f) 0x7f ≡ bit_and d 0x7f) × (bit_and (bit_and d 0x7f) 0x80 ≡ 0)
clear_mark d =
    omega
      (arith, bit_and_mask 7 (bit_and d 0x7f), bit_and_mask 7 d, bit_and_power 7 (bit_and d 0x7f))

-- The mark changes the timestamp bit only.
pub mark_lem :
    (s : Socket) (skb : Skb)
    → IsFrame skb
    → (dlc_of (mark s skb).rb_frame ≡ dlc_of skb.rb_frame)
      × (is_stamped (mark s skb).rb_frame ≡ s.get_timestamp)
      × (load32 (mark s skb).rb_frame 0 ≡ load32 skb.rb_frame 0)
unfolding mark
mark_lem s skb f = elim (Bool-cases s.get_timestamp) [
  | inl e ↦ (
    rw e (set_mark (skb.rb_frame 5) f.byte).0,
    rw (e, (set_mark (skb.rb_frame 5) f.byte).1) refl,
    refl,
  )
  | inr e ↦
      (rw e (clear_mark (skb.rb_frame 5)).0, rw (e, (clear_mark (skb.rb_frame 5)).1) refl, refl)
]

-- The number of data bytes, from the identifier and the length code.
sized_by : ℕ → ℕ → ℕ
sized_by can_id dlc =
    let size = (if ltb 8 dlc then 8 else dlc) in
    if bit_and can_id can_rtr_flag == 0 && not (size == 0) then size else 0

data_size-mark :
    (s : Socket) (skb : Skb)
    → IsFrame skb
    → data_size (mark s skb).rb_frame ≡ data_size skb.rb_frame
unfolding sized_by
data_size-mark s skb f = ap₂ sized_by (mark_lem s skb f).2 (mark_lem s skb f).0

head_size :
    (s : Socket) (skb : Skb) → IsFrame skb → 6 + data_size (mark s skb).rb_frame ≡ skb.rb_frame_size
head_size s skb f = ap (λ (n : ℕ). 6 + n) (data_size-mark s skb f) ∙ sym f.sized

unasked : (b : Bool) (n : ℕ) → n + (if b && false then 8 else 0) ≡ n
unasked true n = omega arith
unasked false n = omega arith

-- For a frame of a driver, the number of bytes that a delivery
-- stores is the number that a reader takes, who asks for the timestamp if the socket has it
-- stored.
pub read_size-message :
    (s : Socket) (skb : Skb) (interested : Bool)
    → IsFrame skb
    → (s.get_timestamp ≡ true → interested ≡ true)
    → read_size interested (message s skb).content ≡ (message s skb).size
unfolding cpy_size
read_size-message s skb interested f asks = elim (Bool-cases s.get_timestamp) [
  | inl e ↦
      ap₂ (λ (i b : Bool). 6 + data_size (mark s skb).rb_frame + (if i && b then 8 else 0)) (asks e)
        ((mark_lem s skb f).1 ∙ e)
      ∙ ap (λ (n : ℕ). n + 8) (head_size s skb f)
      ∙ ap (λ (b : Bool). if b then skb.rb_frame_size + 8 else skb.rb_frame_size) (sym e)
  | inr e ↦
      ap (λ (b : Bool). 6 + data_size (mark s skb).rb_frame + (if interested && b then 8 else 0))
        ((mark_lem s skb f).1 ∙ e)
      ∙ unasked interested (6 + data_size (mark s skb).rb_frame)
      ∙ head_size s skb f
      ∙ ap (λ (b : Bool). if b then skb.rb_frame_size + 8 else skb.rb_frame_size) (sym e)
]

-- In a valid ring buffer that holds a queue of messages, a frame that is smaller than the free
-- space becomes the last message by its delivery, the messages that were there stay in their
-- order, and the ring buffer stays valid.
pub rcv_deliver-Queued :
    (cfg : Config) (s : Socket) (skb : Skb) (ms : List Message)
    → IsValid cfg s
    → cpy_size s skb < size_free cfg s
    → Queued cfg s 0 ms
    → IsValid cfg (rcv_deliver cfg s skb)
      × Queued cfg (rcv_deliver cfg s skb) 0 (ms ++ message s skb ∷ [])
unfolding rcv_deliver
rcv_deliver-Queued cfg s skb ms v room q = (
  (store-Appended cfg s (mark s skb).rb_frame (cpy_size s skb) v room).valid,
  store-Queued cfg s (message s skb) ms v room q,
)

-- A frame at least as large as the free space is dropped whole and counted: nothing else of the
-- socket changes.
pub rcv_deliver_overflow :
    (cfg : Config) (s : Socket) (skb : Skb)
    → size_free cfg s ≤ cpy_size s skb
    → rcv_deliver cfg s skb ≡ record s { rx_buf_full = (s.rx_buf_full + 1) % 2 ^ 32 }
unfolding rcv_deliver store
rcv_deliver_overflow cfg s skb h = ground arith

-- In a valid ring buffer that holds a queue of messages, the first of which is as long as the
-- reader takes, reading without peeking gives the fields of the first message, keeps the ring
-- buffer valid, and leaves exactly the other messages, in their order.
pub read-Queued :
    (cfg : Config) (s : Socket) (m : Message) (ms : List Message) (interested : Bool)
    → IsValid cfg s
    → Queued cfg s 0 (m ∷ ms)
    → read_size interested m.content ≡ m.size
    → let got = read_frame cfg s interested in
      let s' = consume s false got.recv_buf_index in
      Reads cfg s m.content interested got × IsValid cfg s' × Queued cfg s' 0 ms
unfolding consume
read-Queued cfg s m ms interested v q sized = (
  reads,
  rw moved (drop_bytes-IsValid cfg s m.size v fits),
  subst (λ t. Queued cfg t 0 ms) (sym moved) (drop_bytes-Queued cfg s m ms v q),
)
  where
    fits : m.size ≤ used cfg s
    fits = omega (arith, Queued-le cfg s (0 + m.size) ms q.1)

    reads : Reads cfg s m.content interested (read_frame cfg s interested)
    reads =
        read_frame_lem cfg s m.content interested v (rw sized fits)
          (λ i h. ap (pending cfg s) (omega arith) ∙ q.0 i (rw sized at h))

    moved :
        record s { recv_head = (read_frame cfg s interested).recv_buf_index }
        ≡ drop_bytes cfg s m.size
    moved =
        ap (λ (n : ℕ). record s { recv_head = n })
          (reads.next ∙ ap (λ (n : ℕ). wrap (rxbuf_size cfg) (s.recv_head + n)) sized)

-- A peek leaves the ring buffer alone, so that the next reader gets the same message.
pub peek_again :
    (cfg : Config) (s : Socket) (interested : Bool)
    → let got = read_frame cfg s interested in
      read_frame cfg (consume s true got.recv_buf_index) interested ≡ got
unfolding consume read_frame
peek_again cfg s interested = refl

-- If the only message of a valid ring buffer has a timestamp, a reader who does not ask for it
-- leaves eight bytes in the ring buffer.
pub unread_timestamp_stays :
    (cfg : Config) (s : Socket) (m : Message)
    → IsValid cfg s
    → Queued cfg s 0 (m ∷ [])
    → is_stamped m.content ≡ true
    → read_size true m.content ≡ m.size
    → used cfg (consume s false (read_frame cfg s false).recv_buf_index) ≡ 8
unfolding consume
unread_timestamp_stays cfg s m v q stamped sized =
    ap (used cfg) moved ∙ omega (arith, used-drop_bytes cfg s left v fits, longer, q.1)
  where
    left : ℕ
    left = read_size false m.content

    longer : left + 8 ≡ m.size
    longer =
        ap (λ (n : ℕ). n + 8) (unasked true (6 + data_size m.content))
        ∙ ap (λ (b : Bool). 6 + data_size m.content + (if true && b then 8 else 0)) (sym stamped)
        ∙ sized

    fits : left ≤ used cfg s
    fits = omega (arith, longer, q.1)

    reads : Reads cfg s m.content false (read_frame cfg s false)
    reads =
        read_frame_lem cfg s m.content false v fits
          (λ i h. ap (pending cfg s) (omega arith) ∙ q.0 i (omega (arith, longer, h)))

    moved : consume s false (read_frame cfg s false).recv_buf_index ≡ drop_bytes cfg s left
    moved = ap (λ (n : ℕ). record s { recv_head = n }) reads.next
