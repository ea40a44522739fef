-- ===== src/Virt/Bus.antt =====
-- A frame on the virtual bus, from the sender's `can_frame_t` to what a receiver reads.
use rtcan_bb.Base.{
  ℕ, ◌+◌, ◌-◌, ◌^◌, ◌<◌, ◌≤◌, ◌≡◌, refl, sym, ap, ap₂, ◌∙◌, subst, bit_and, Bool, true, false, not,
  ◌&&◌, arith, ltb, ◌==◌, if◌then◌else◌, Option, none, some, List, [], ◌∷◌, inl, inr, Bool-cases,
}
use rtcan_bb.Base.Bits.{bit_and_mask}
use rtcan_bb.Base.Memory.{Bytes, bytes_of, load32, load32-bytes_of}
use rtcan_bb.Rtcan.Abi.{CanFrame, can_rtr_flag}
use rtcan_bb.Rtcan.Socket.{Config, Skb, Socket, Sockets}
use rtcan_bb.Ring.{size_free, mark, cpy_size, rcv_deliver}
use rtcan_bb.Ring.Bytewise.{IsValid}
use rtcan_bb.Ring.Fifo.{Queued}
use rtcan_bb.Raw.Recvmsg.{Received, read_frame, consume}
use rtcan_bb.Raw.Recvmsg.Frame.{data_size, dlc_of}
use rtcan_bb.Raw.Recvmsg.Queue.{
  message, IsFrame, mark_lem, marked_byte, rcv_deliver-Queued, read_size-message, read-Queued,
}
use rtcan_bb.Receive.{stamp, deliver_each, rcv}
use rtcan_bb.Rtcan.Device.{Recv, Device}
use rtcan_bb.System.{System}
use rtcan_bb.Virt.{
  virt_skb, set_ifindex, is_active, is_pending, virt_receive, virt_visit, virt_deliver,
}

-- A frame with at most eight data bytes, its identifier in 32 bits.
pub record IsSendable (frame : CanFrame) : Type 0 where
  pub identifier : frame.can_id < 2 ^ 32
  pub few : frame.can_dlc ≤ 8

-- The number of data bytes, from the identifier and the length code.
sized : ℕ → ℕ → ℕ
sized can_id dlc =
    let size = (if ltb 8 dlc then 8 else dlc) in
    if bit_and can_id can_rtr_flag == 0 && not (size == 0) then size else 0

load32-cong :
    (b c : Bytes) → b 0 ≡ c 0 → b 1 ≡ c 1 → b 2 ≡ c 2 → b 3 ≡ c 3 → load32 b 0 ≡ load32 c 0
load32-cong b c h0 h1 h2 h3 = omega (arith, h0, h1, h2, h3)

kept_byte : (s : Socket) (skb : Skb) (i : ℕ) → 5 < i → (mark s skb).rb_frame i ≡ skb.rb_frame i
unfolding mark
kept_byte s skb i h = ground arith

mark_size : (s : Socket) (skb : Skb) → (mark s skb).rb_frame_size ≡ skb.rb_frame_size
unfolding mark
mark_size s skb = refl

stamp_size : (timestamp : ℕ) (skb : Skb) → (stamp timestamp skb).rb_frame_size ≡ skb.rb_frame_size
unfolding stamp
stamp_size timestamp skb = refl

-- The timestamp stands behind the frame.
stamp_below :
    (timestamp : ℕ) (skb : Skb) (i : ℕ)
    → i < skb.rb_frame_size
    → (stamp timestamp skb).rb_frame i ≡ skb.rb_frame i
unfolding stamp
stamp_below timestamp skb i h = ground arith

-- A length code stays in one byte.
mark_byte : (s : Socket) (skb : Skb) → skb.rb_frame 5 < 2 ^ 8 → (mark s skb).rb_frame 5 < 2 ^ 8
unfolding mark
mark_byte s skb h = elim (Bool-cases s.get_timestamp) [
  | inl e ↦ rw e (omega (arith, marked_byte (skb.rb_frame 5) h))
  | inr e ↦ rw e (omega (arith, bit_and_mask 7 (skb.rb_frame 5)))
]

-- A frame as a receiver finds it in the local memory of the sender's driver, whatever marks earlier
-- receivers have left on its length code.
pub record Carries (frame : CanFrame) (skb : Skb) : Type 0 where
  pub identifier : load32 skb.rb_frame 0 ≡ frame.can_id
  pub byte : skb.rb_frame 5 < 2 ^ 8
  pub length : dlc_of skb.rb_frame ≡ frame.can_dlc
  pub payload :
      (i : ℕ)
      → i < frame.can_dlc
      → bit_and frame.can_id can_rtr_flag ≡ 0
      → skb.rb_frame (6 + i) ≡ frame.payload i
  pub size :
      skb.rb_frame_size
      ≡ 6
        + (if bit_and frame.can_id can_rtr_flag == 0 && not (frame.can_dlc == 0)
            then frame.can_dlc
            else 0)

Carries-if :
    {frame : CanFrame} (b : Bool) (skb skb' : Skb)
    → Carries frame skb
    → Carries frame skb'
    → Carries frame (if b then skb else skb')
Carries-if true skb skb' c c' = c
Carries-if false skb skb' c c' = c'

module _ (frame : CanFrame) (sendable : IsSendable frame) where
  virt_skb-Carries : (stack : Bytes) → Carries frame (virt_skb stack frame)
  unfolding virt_skb
  virt_skb-Carries stack = record {
    identifier =
        load32-cong (virt_skb stack frame).rb_frame (bytes_of frame.can_id) (ground arith)
          (ground arith) (ground arith) (ground arith)
        ∙ load32-bytes_of frame.can_id sendable.identifier;
    byte = subst (λ (d : ℕ). d < 2 ^ 8) (sym dlc) (omega (arith, sendable.few));
    length =
        ap (λ (d : ℕ). bit_and d 0x7f) dlc
        ∙ omega (arith, bit_and_mask 7 frame.can_dlc, sendable.few);
    payload = λ i h p. ground (arith, p, sendable.few);
    size = ground arith;
  }
    where
      dlc : (virt_skb stack frame).rb_frame 5 ≡ frame.can_dlc
      dlc = ground (arith, sendable.few)

  data_size-Carries :
      (skb : Skb)
      → Carries frame skb
      → data_size skb.rb_frame ≡ (
          if bit_and frame.can_id can_rtr_flag == 0 && not (frame.can_dlc == 0)
          then frame.can_dlc
          else 0)
  unfolding sized
  data_size-Carries skb c = ap₂ sized c.identifier c.length ∙ ground (arith, sendable.few)

  Carries-IsFrame : (skb : Skb) → Carries frame skb → IsFrame skb
  Carries-IsFrame skb c = record {
    byte = c.byte;
    sized = c.size ∙ ap (λ (n : ℕ). 6 + n) (sym (data_size-Carries skb c));
  }

  set_ifindex-Carries :
      (skb : Skb) (ifindex : ℕ) → Carries frame skb → Carries frame (set_ifindex skb ifindex)
  set_ifindex-Carries skb ifindex c = record {
    identifier = c.identifier;
    byte = c.byte;
    length = c.length;
    payload = λ i h p. ground (arith, c.payload i h p);
    size = c.size;
  }

  stamp-Carries :
      (skb : Skb) (timestamp : ℕ) → Carries frame skb → Carries frame (stamp timestamp skb)
  stamp-Carries skb timestamp c = record {
    identifier =
        load32-cong (stamp timestamp skb).rb_frame skb.rb_frame (below 0 (omega (arith, c.size)))
          (below 1 (omega (arith, c.size))) (below 2 (omega (arith, c.size)))
          (below 3 (omega (arith, c.size)))
        ∙ c.identifier;
    byte = subst (λ (d : ℕ). d < 2 ^ 8) (sym (below 5 (omega (arith, c.size)))) c.byte;
    length = ap (λ (d : ℕ). bit_and d 0x7f) (below 5 (omega (arith, c.size))) ∙ c.length;
    payload = λ i h p. below (6 + i) (ground (arith, c.size, p, h)) ∙ c.payload i h p;
    size = stamp_size timestamp skb ∙ c.size;
  }
    where
      below : (i : ℕ) → i < skb.rb_frame_size → (stamp timestamp skb).rb_frame i ≡ skb.rb_frame i
      below = stamp_below timestamp skb

  mark-Carries : (s : Socket) (skb : Skb) → Carries frame skb → Carries frame (mark s skb)
  mark-Carries s skb c =
      let m = mark_lem s skb (Carries-IsFrame skb c) in
      record {
        identifier = m.2 ∙ c.identifier;
        byte = mark_byte s skb c.byte;
        length = m.0 ∙ c.length;
        payload = λ i h p. kept_byte s skb (6 + i) (omega arith) ∙ c.payload i h p;
        size = mark_size s skb ∙ c.size;
      }

  -- The walks along the reception lists, and along the bus.
  deliver_each-Carries :
      (cfg : Config) (accepts : Recv → Sockets → Bool) (entries : List Recv) (socks : Sockets)
      (skb : Skb)
      → Carries frame skb
      → Carries frame (deliver_each cfg accepts entries socks skb).2
  unfolding deliver_each
  deliver_each-Carries cfg accepts [] socks skb c = c
  deliver_each-Carries cfg accepts (e ∷ entries) socks skb c =
      deliver_each-Carries cfg accepts entries _ _ (
        Carries-if (accepts e socks) (mark (socks e.sock) skb) skb
          (mark-Carries (socks e.sock) skb c) c)

  rcv-Carries :
      (cfg : Config) (timestamp : ℕ) (dev : Device) (socks : Sockets) (skb : Skb)
      → Carries frame skb
      → Carries frame (rcv cfg timestamp dev socks skb).2
  unfolding rcv
  rcv-Carries cfg timestamp dev socks skb c =
      deliver_each-Carries cfg _ dev.recv_list socks (stamp timestamp skb)
        (stamp-Carries skb timestamp c)

  virt_visit-Carries :
      (cfg : Config) (timestamp tx i : ℕ) (sys : System) (skb : Skb)
      → Carries frame skb
      → Carries frame (virt_visit cfg timestamp tx i sys skb).1
  unfolding virt_visit virt_receive
  virt_visit-Carries cfg timestamp tx i sys skb c = by_slot (sys.devices (i - 1))
    where
      by_tests :
          (inactive other pending : Bool) (skb' : Skb) (sys1 sys2 : System)
          → Carries frame skb'
          → (let r : System × Skb =
                if inactive
                then (sys, skb)
                else (if other
                    then (sys1, skb')
                    else (if pending then (sys2, skb) else (sys, skb))) in
              Carries frame r.1)
      by_tests true other pending skb' sys1 sys2 c' = c
      by_tests false true pending skb' sys1 sys2 c' = c'
      by_tests false false true skb' sys1 sys2 c' = c
      by_tests false false false skb' sys1 sys2 c' = c

      by_slot :
          (slot : Option Device)
          → (let r : System × Skb = elim slot [
            | none ↦ (sys, skb)
            | some dev ↦ virt_receive cfg timestamp tx i dev sys skb
          ] in
              Carries frame r.1)
      by_slot none = c
      by_slot (some dev) =
          by_tests (not (is_active dev.state)) (not (i == tx)) (is_pending dev) _ _ _ (
            rcv-Carries cfg timestamp dev sys.sockets (set_ifindex skb dev.ifindex)
              (set_ifindex-Carries skb dev.ifindex c))

  virt_deliver-Carries :
      (cfg : Config) (timestamp tx : ℕ) (bus : List ℕ) (sys : System) (skb : Skb)
      → Carries frame skb
      → Carries frame (virt_deliver cfg timestamp tx bus sys skb).1
  unfolding virt_deliver
  virt_deliver-Carries cfg timestamp tx [] sys skb c = c
  virt_deliver-Carries cfg timestamp tx (i ∷ bus) sys skb c =
      virt_deliver-Carries cfg timestamp tx bus _ _
        (virt_visit-Carries cfg timestamp tx i sys skb c)

-- The frame as a socket gets it: after the devices `before` on the bus, with the index of the
-- receiving device, stamped, and after the entries `earlier` of that device's reception list.
pub record Way : Type 0 where
  pub tx : ℕ
  pub before : List ℕ
  pub sys : System
  pub ifindex : ℕ
  pub timestamp : ℕ
  pub accepts : Recv → Sockets → Bool
  pub earlier : List Recv
  pub socks : Sockets

abbrev pub received : Config → Way → Bytes → CanFrame → Skb
received cfg way stack frame =
    let (sys, skb) =
      virt_deliver cfg way.timestamp way.tx way.before way.sys (virt_skb stack frame) in
    let (entries, socks, skb') =
      deliver_each cfg way.accepts way.earlier way.socks
        (stamp way.timestamp (set_ifindex skb way.ifindex)) in
    skb'

received-Carries :
    (cfg : Config) (way : Way) (stack : Bytes) (frame : CanFrame)
    → IsSendable frame
    → Carries frame (received cfg way stack frame)
received-Carries cfg way stack frame sendable =
    deliver_each-Carries frame sendable cfg way.accepts way.earlier way.socks _ (
      stamp-Carries frame sendable _ way.timestamp (
        set_ifindex-Carries frame sendable _ way.ifindex (
          virt_deliver-Carries frame sendable cfg way.timestamp way.tx way.before way.sys _
            (virt_skb-Carries frame sendable stack))))

-- What a receiver reads of a frame.
pub record Arrives (frame : CanFrame) (got : Received) : Type 0 where
  pub can_id : got.frame.can_id ≡ frame.can_id
  pub can_dlc : got.frame.can_dlc ≡ frame.can_dlc
  pub payload :
      (i : ℕ)
      → i < frame.can_dlc
      → bit_and frame.can_id can_rtr_flag ≡ 0
      → got.frame.payload i ≡ frame.payload i

-- A frame with a 32-bit identifier and at most eight data bytes that the virtual bus hands to a
-- socket whose ring buffer is valid and empty and has room for it is read back by the next read:
-- the identifier, the length and, unless it is a remote request, all its data bytes are the
-- sender's, and the ring buffer is empty again. This holds whatever the local memory of the
-- sender's driver held, and after deliveries of the same memory to any other devices on the bus and
-- any other sockets of this device, which have left their marks for timestamps on it. The reader
-- asks for the timestamp if the socket has it stored.
pub virtual_roundtrip :
    (cfg : Config) (s : Socket) (way : Way) (stack : Bytes) (frame : CanFrame) (interested : Bool)
    → IsSendable frame
    → IsValid cfg s
    → Queued cfg s 0 []
    → cpy_size s (received cfg way stack frame) < size_free cfg s
    → (s.get_timestamp ≡ true → interested ≡ true)
    → let s' = rcv_deliver cfg s (received cfg way stack frame) in
      let got = read_frame cfg s' interested in
      Arrives frame got × Queued cfg (consume s' false got.recv_buf_index) 0 []
unfolding sized
virtual_roundtrip cfg s way stack frame interested sendable v empty room asks =
    let skb : Skb = received cfg way stack frame in
    let c : Carries frame skb = received-Carries cfg way stack frame sendable in
    let f : IsFrame skb = Carries-IsFrame frame sendable skb c in
    let marked = mark-Carries frame sendable s skb c in
    let after = rcv_deliver-Queued cfg s skb [] v room empty in
    let read =
      read-Queued cfg (rcv_deliver cfg s skb) (message s skb) [] interested after.0 after.1
        (read_size-message s skb interested f asks) in
    (
      record {
        can_id = read.0.can_id ∙ marked.identifier;
        can_dlc = read.0.can_dlc.1 ∙ marked.length;
        payload = λ i h p.
            read.0.payload i (
              subst (λ (n : ℕ). i < n) (sym (data_size-Carries frame sendable (mark s skb) marked))
                (ground (arith, p, h)))
            ∙ marked.payload i h p;
      },
      read.2,
    )
