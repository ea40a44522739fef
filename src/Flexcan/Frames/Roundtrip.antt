-- ===== src/Flexcan/Frames/Roundtrip.antt =====
-- A frame that one FlexCAN has in its transmit buffer is what another one makes of it that finds the
-- same words at the head of its receive queue (can/rtcan_flexcan.c).
use rtcan_bb.Base.{
  ℕ, ◌+◌, ◌/◌, ◌%◌, ◌^◌, ◌<◌, ◌≡◌, refl, sym, ap, ap₂, ◌∙◌, subst, bit_and, Bool, true, false,
  arith, if◌then◌else◌,
}
use rtcan_bb.Base.Memory.{Bytes, put_byte, store32, load32, load32-bytes_of}
use rtcan_bb.Rtcan.Socket.{Skb, empty_rb_frame_size}
use rtcan_bb.Rtcan.Device.{Device}
use rtcan_bb.Sja1000.Errors.{has}
use rtcan_bb.Sja1000.Frames.{payload_of}
use rtcan_bb.Sja1000.Frames.Wire.{Wire, IsWire, frame_of}
use rtcan_bb.Sja1000.Frames.Sent.{wire}
use rtcan_bb.Sja1000.Frames.Roundtrip.{IsRead, wire-lt}
use rtcan_bb.Flexcan.{flexcan_memory}
use rtcan_bb.Flexcan.Frames.{
  be32, put_be32, flexcan_start_xmit, flexcan_rx_id, flexcan_rx_data, flexcan_rx_interrupt,
}
use rtcan_bb.Flexcan.Frames.Words.{id_word}
use rtcan_bb.Flexcan.Frames.Sent.{IsMailed, start_xmit-IsMailed}
use rtcan_bb.Flexcan.Frames.Fields.{id_with, rx_with, cut, id_lem, data_lem, kind_lem}

-- The reception of a frame.
rx_with-IsRead :
    (dev : Device) (e r : Bool) (id dlc : ℕ) (payload : Bytes) (data0 data1 : ℕ) (skb : Skb)
    → IsWire (wire e r id dlc payload)
    → (0 < payload_of dlc → data0 ≡ be32 payload 0)
    → (4 < payload_of dlc → data1 ≡ be32 payload 4)
    → IsRead
        (cut (wire e r id dlc payload))
        (rx_with dev e r (payload_of dlc) (id_word (wire e r id dlc payload)) data0 data1 skb)
rx_with-IsRead dev e r id dlc payload data0 data1 skb v h h' = record {
  can_id = the_id r v;
  can_dlc = the_length r;
  payload = the_data r;
  size = the_size r;
}
  where
    twice : payload_of (payload_of dlc) ≡ payload_of dlc
    twice = ground arith

    read_head : Bool → Bytes
    read_head r =
        put_byte (store32 skb.rb_frame 0 (id_with e r (id_word (wire e r id dlc payload)))) 5
          (payload_of dlc)

    the_id :
        (r : Bool)
        → IsWire (wire e r id dlc payload)
        → load32
            (rx_with dev e r
              (payload_of dlc)
              (id_word (wire e r id dlc payload))
              data0
              data1
              skb).rb_frame
            0
          ≡ (frame_of (wire e r id dlc payload)).can_id
    the_id true v =
        load32-bytes_of (id_with e true (id_word (wire e true id dlc payload)))
          (omega (arith, id_lem e true id dlc payload v, wire-lt e true id dlc payload v))
        ∙ id_lem e true id dlc payload v
    the_id false v =
        load32-bytes_of (id_with e false (id_word (wire e false id dlc payload)))
          (omega (arith, id_lem e false id dlc payload v, wire-lt e false id dlc payload v))
        ∙ id_lem e false id dlc payload v

    the_length :
        (r : Bool)
        → (rx_with dev e r
              (payload_of dlc)
              (id_word (wire e r id dlc payload))
              data0
              data1
              skb).rb_frame
            5
          ≡ payload_of dlc
    the_length true = refl
    the_length false = refl

    the_data :
        (r : Bool)
        → r ≡ false
        → (i : ℕ) → i < payload_of (payload_of dlc)
        → (rx_with dev e r
              (payload_of dlc)
              (id_word (wire e r id dlc payload))
              data0
              data1
              skb).rb_frame
            (6 + i)
          ≡ payload i
    the_data true q i b = absurd (ground arith)
    the_data false q i b =
        data_lem (read_head false) payload dlc (dev.ifindex % 2 ^ 8) v.bytes data0 data1 h h' i
          (omega (arith, twice))

    the_size :
        (r : Bool)
        → (rx_with dev e r
            (payload_of dlc)
            (id_word (wire e r id dlc payload))
            data0
            data1
            skb).rb_frame_size
          ≡ 6 + (if r then 0 else payload_of (payload_of dlc))
    the_size true = omega arith
    the_size false = omega (arith, twice)

rx_interrupt-IsRead :
    (dev : Device) (w : Wire) (rx : ℕ → ℕ) (skb : Skb)
    → IsWire w
    → IsMailed (rx 0x80) (rx 0x84) (rx 0x88) (rx 0x8c) w
    → IsRead (cut w) (flexcan_rx_interrupt flexcan_memory dev rx skb).0
unfolding flexcan_rx_interrupt flexcan_rx_id flexcan_rx_data
rx_interrupt-IsRead dev w rx skb v m =
    let (e, r, length) = kind_lem w (rx 0x80) m.kind in
    subst (λ (read : Skb). IsRead (cut w) read) (sym (by_tests e r length))
      (rx_with-IsRead dev w.extended w.remote w.id w.dlc w.payload (rx 0x88) (rx 0x8c) skb v m.low
        m.high)
  where
    seen : Skb
    seen = (flexcan_rx_interrupt flexcan_memory dev rx skb).0

    dlc : ℕ
    dlc = payload_of (bit_and (rx 0x80 / 2 ^ 16) 15)

    raw : Bool → Bool → ℕ → ℕ → Skb
    raw e r dlc id =
        let head = put_byte (store32 skb.rb_frame 0 (id_with e r id)) 5 dlc in
        let read =
          (if◌then◌else◌ {A = Bytes × (ℕ → ℕ)} r (head, rx)
            (put_be32 (put_be32 head 6 (rx 0x88)) 10 (rx 0x8c), rx)) in
        record {
          rb_frame_size = (if r then empty_rb_frame_size else empty_rb_frame_size + dlc);
          rb_frame = put_byte read.0 4 (dev.ifindex % 2 ^ 8);
        }

    by_remote :
        (r : Bool)
        → raw w.extended r (payload_of w.dlc) (id_word w)
          ≡ rx_with dev w.extended r (payload_of w.dlc) (id_word w) (rx 0x88) (rx 0x8c) skb
    by_remote true = refl
    by_remote false = refl

    by_tests :
        has (rx 0x80) (2 ^ 21) ≡ w.extended
        → has (rx 0x80) (2 ^ 20) ≡ w.remote
        → payload_of (bit_and (rx 0x80 / 2 ^ 16) 15) ≡ payload_of w.dlc
        → seen
          ≡ rx_with dev w.extended w.remote (payload_of w.dlc) (id_word w) (rx 0x88) (rx 0x8c) skb
    by_tests e r length =
        ap (λ (e : Bool). raw e (has (rx 0x80) (2 ^ 20)) dlc (rx 0x84)) e
        ∙ ap (λ (r : Bool). raw w.extended r dlc (rx 0x84)) r
        ∙ ap₂ (λ (dlc id : ℕ). raw w.extended w.remote dlc id) length m.identifier
        ∙ by_remote w.remote

-- A controller that finds at the head of its receive queue the words that `flexcan_start_xmit` wrote
-- for a frame the bus can carry - of the control word only the length, the remote bit and the bit for
-- an extended frame - reads the same identifier with its flags, the length cut to at most eight, all
-- data bytes of that length and the size that belongs to them, for standard and extended frames, with
-- data or remote. The sender's own frame has its length cut in the same way.
pub flexcan_xmit-rx_lem :
    (dev : Device) (w : Wire) (bus rx : ℕ → ℕ) (skb : Skb)
    → IsWire w
    → rx 0x80 / 2 ^ 16 % 2 ^ 6
      ≡ (flexcan_start_xmit flexcan_memory (frame_of w) bus).1 0x100 / 2 ^ 16 % 2 ^ 6
    → rx 0x84 ≡ (flexcan_start_xmit flexcan_memory (frame_of w) bus).1 0x104
    → rx 0x88 ≡ (flexcan_start_xmit flexcan_memory (frame_of w) bus).1 0x108
    → rx 0x8c ≡ (flexcan_start_xmit flexcan_memory (frame_of w) bus).1 0x10c
    → IsRead (cut w) (flexcan_rx_interrupt flexcan_memory dev rx skb).0
      × ((flexcan_start_xmit flexcan_memory (frame_of w) bus).0 ≡ frame_of (cut w))
unfolding flexcan_start_xmit
flexcan_xmit-rx_lem dev w bus rx skb v kind id low high =
    let m = start_xmit-IsMailed w bus v in
    (
      rx_interrupt-IsRead dev w rx skb v (record {
        kind = kind ∙ m.kind;
        identifier = id ∙ m.identifier;
        low = λ h. low ∙ m.low h;
        high = λ h. high ∙ m.high h;
      }),
      refl,
    )
