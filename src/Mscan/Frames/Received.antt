-- ===== src/Mscan/Frames/Received.antt =====
-- What `rtcan_mscan_rx_interrupt` makes of a receive buffer that holds a frame.
use rtcan_bb.Base.{
  ℕ, ◌+◌, ◌-◌, ◌*◌, ◌/◌, ◌%◌, ◌^◌, ◌≤◌, ◌<◌, ◌≡◌, refl, sym, ap, ap₂, ◌∙◌, subst, bit_and, bit_or,
  Bool, true, false, arith, if◌then◌else◌,
}
use rtcan_bb.Base.Bits.{bit_and_mask, bit_and_power, bit_or_low}
use rtcan_bb.Base.Bits.Shifts.{bit_or-add}
use rtcan_bb.Base.Memory.{Bytes, put_byte, store32, load32-bytes_of}
use rtcan_bb.Rtcan.Abi.{can_rtr_flag}
use rtcan_bb.Rtcan.Socket.{Skb, empty_rb_frame_size}
use rtcan_bb.Rtcan.Device.{Device}
use rtcan_bb.Sja1000.Errors.{has}
use rtcan_bb.Sja1000.Frames.{payload_of}
use rtcan_bb.Sja1000.Frames.Wire.{Wire, IsWire, frame_of, set_below}
use rtcan_bb.Sja1000.Frames.Sent.{wire}
use rtcan_bb.Sja1000.Frames.Roundtrip.{IsRead, wire-lt}
use rtcan_bb.Mscan.{mscan_memory, dsr_of, canrxfg}
use rtcan_bb.Mscan.Frames.{
  mscan_read_data, mscan_read_ext, mscan_read_std, mscan_rx_interrupt, rtr_bit, rtr_idr,
}
use rtcan_bb.Mscan.Frames.Fields.{bit_and_field, joined}
use rtcan_bb.Mscan.Frames.Data.{mscan_read_data_lem}
use rtcan_bb.Mscan.Frames.Sent.{IsBuffered}

-- The reception, for each outcome of its tests.
abbrev rx_with : Device → Bool → Bool → ℕ → (ℕ → ℕ) → Skb → Skb
rx_with dev e r dlc bus skb =
    let (can_id, bus3) =
      (if e then mscan_read_ext mscan_memory bus else mscan_read_std mscan_memory bus) in
    let head = put_byte skb.rb_frame 5 dlc in
    let (body, bus5) =
      (if r then (head, bus3) else mscan_read_data mscan_memory 0 (payload_of dlc) head bus3) in
    let id = (if r then bit_or can_id can_rtr_flag else can_id) in
    record {
      rb_frame_size = (if r then empty_rb_frame_size else empty_rb_frame_size + payload_of dlc);
      rb_frame = put_byte (store32 body 0 id) 4 (dev.ifindex % 2 ^ 8);
    }

abbrev the_id : Bool → Bool → (ℕ → ℕ) → ℕ
the_id e r bus =
    let can_id =
      (if e then mscan_read_ext mscan_memory bus else mscan_read_std mscan_memory bus).0 in
    if r then bit_or can_id can_rtr_flag else can_id

module _ (bus : ℕ → ℕ) (id dlc : ℕ) (payload : Bytes) where
  ext_id :
      (r : Bool)
      → IsWire (wire true r id dlc payload)
      → IsBuffered canrxfg bus (wire true r id dlc payload)
      → (mscan_read_ext mscan_memory bus).0 ≡ 2 ^ 31 + id
  unfolding mscan_read_ext
  ext_id r v h =
      let (a, b, c, d) = h.ext refl in
      ap₂
        (λ (x y : ℕ).
          bit_or
            (bit_or (bit_or (bit_or (bit_or (bus 0x40 * 2 ^ 21) x) y) (bus 0x44 * 2 ^ 7))
              (bus 0x45 / 2))
            (2 ^ 31))
        {y = id / 2 ^ 18 % 2 ^ 3 * 2 ^ 18} {v = id / 2 ^ 15 % 2 ^ 3 * 2 ^ 15}
        (omega (arith, bit_and_field 5 3 (bus 0x41), b))
        (omega (arith, bit_and_mask 3 (bus 0x41), b))
      ∙ joined (bus 0x40) (id / 2 ^ 18 % 2 ^ 3) (id / 2 ^ 15 % 2 ^ 3) (bus 0x44) (bus 0x45 / 2)
          (omega arith) (omega arith) (omega (arith, c)) (omega (arith, low r, d))
          (omega (arith, a, v.fits))
      ∙ omega (arith, a, c, d, low r, v.fits)
    where
      low : (r : Bool) → (if r then 1 else 0) ≤ 1
      low r = ground arith

  std_id :
      (r : Bool)
      → IsWire (wire false r id dlc payload)
      → IsBuffered canrxfg bus (wire false r id dlc payload)
      → (mscan_read_std mscan_memory bus).0 ≡ id
  unfolding mscan_read_std
  std_id r v h =
      let (a, b) = h.std refl in
      bit_or-add 3 (bus 0x40) (bus 0x41 / 2 ^ 5) (omega (arith, b, low r))
      ∙ omega (arith, a, b, low r, v.fits)
    where
      low : (r : Bool) → (if r then 0x10 else 0) ≤ 0x10
      low r = ground arith

  the_id_lem :
      (e r : Bool)
      → IsWire (wire e r id dlc payload)
      → IsBuffered canrxfg bus (wire e r id dlc payload)
      → the_id e r bus ≡ (frame_of (wire e r id dlc payload)).can_id
  the_id_lem true true v h =
      ap (λ (n : ℕ). bit_or n (2 ^ 30)) (ext_id true v h)
      ∙ set_below 31 30 id (omega (arith, v.fits)) (omega (arith, v.fits)) (omega arith)
  the_id_lem true false v h = omega (arith, ext_id false v h)
  the_id_lem false true v h =
      ap (λ (n : ℕ). bit_or n (2 ^ 30)) (std_id true v h)
      ∙ omega (arith, bit_or_low 30 id (omega (arith, v.fits)))
  the_id_lem false false v h = omega (arith, std_id false v h)

module _ (dev : Device) (bus : ℕ → ℕ) (skb : Skb) (dlc : ℕ) where
  rx_dlc : (e r : Bool) → (rx_with dev e r dlc bus skb).rb_frame 5 ≡ dlc
  unfolding mscan_read_ext mscan_read_std
  rx_dlc true true = refl
  rx_dlc false true = refl
  rx_dlc true false =
      (mscan_read_data_lem 0 (payload_of dlc) (put_byte skb.rb_frame 5 dlc) bus).1 5 ∙ ground arith
  rx_dlc false false =
      (mscan_read_data_lem 0 (payload_of dlc) (put_byte skb.rb_frame 5 dlc) bus).1 5 ∙ ground arith

  rx_data :
      (e : Bool) (i : ℕ)
      → i < payload_of dlc
      → (rx_with dev e false dlc bus skb).rb_frame (6 + i) ≡ bus (dsr_of canrxfg i)
  unfolding mscan_read_ext mscan_read_std
  rx_data e i h = by_kind e
    where
      there : bus (dsr_of canrxfg (6 + i - 6)) ≡ bus (dsr_of canrxfg i)
      there = ap (λ (x : ℕ). bus (dsr_of canrxfg x)) (omega arith)

      found :
          (mscan_read_data mscan_memory 0 (payload_of dlc) (put_byte skb.rb_frame 5 dlc) bus).0
            (6 + i)
          ≡ bus (dsr_of canrxfg i)
      found =
          (mscan_read_data_lem 0 (payload_of dlc) (put_byte skb.rb_frame 5 dlc) bus).1 (6 + i)
          ∙ ground (arith, h, there)

      by_kind :
          (e : Bool) → (rx_with dev e false dlc bus skb).rb_frame (6 + i) ≡ bus (dsr_of canrxfg i)
      by_kind true = ground (arith, found)
      by_kind false = ground (arith, found)

  rx_size :
      (e r : Bool)
      → (rx_with dev e r dlc bus skb).rb_frame_size ≡ 6 + (if r then 0 else payload_of dlc)
  rx_size e true = omega arith
  rx_size e false = refl

rx_with-IsRead :
    (dev : Device) (bus : ℕ → ℕ) (skb : Skb) (e r : Bool) (id dlc : ℕ) (payload : Bytes)
    → IsWire (wire e r id dlc payload)
    → IsBuffered canrxfg bus (wire e r id dlc payload)
    → IsRead (wire e r id dlc payload) (rx_with dev e r dlc bus skb)
rx_with-IsRead dev bus skb e r id dlc payload v h = record {
  can_id =
      load32-bytes_of (the_id e r bus)
        (omega (arith, the_id_lem bus id dlc payload e r v h, wire-lt e r id dlc payload v))
      ∙ the_id_lem bus id dlc payload e r v h;
  can_dlc = rx_dlc dev bus skb dlc e r;
  payload = the_data r h;
  size = rx_size dev bus skb dlc e r;
}
  where
    the_data :
        (r' : Bool)
        → IsBuffered canrxfg bus (wire e r' id dlc payload)
        → r' ≡ false
        → (i : ℕ) → i < payload_of dlc
        → (rx_with dev e r' dlc bus skb).rb_frame (6 + i) ≡ payload i
    the_data true h' ee i hi = absurd (ground arith)
    the_data false h' ee i hi = rx_data dev bus skb dlc e i hi ∙ h'.data_bytes refl i hi

-- What the tests of the reception see.
kind_lem :
    (e r : Bool) (id dlc : ℕ) (payload : Bytes) (bus : ℕ → ℕ)
    → IsBuffered canrxfg bus (wire e r id dlc payload)
    → has (bus 0x41) 8 ≡ e
kind_lem true r id dlc payload bus h = ground (arith, bit_and_power 3 (bus 0x41), (h.ext refl).1)
kind_lem false true id dlc payload bus h =
    ground (arith, bit_and_power 3 (bus 0x41), (h.std refl).1)
kind_lem false false id dlc payload bus h =
    ground (arith, bit_and_power 3 (bus 0x41), (h.std refl).1)

remote_lem :
    (e r : Bool) (id dlc : ℕ) (payload : Bytes) (bus : ℕ → ℕ)
    → IsBuffered canrxfg bus (wire e r id dlc payload)
    → has (bus (0x40 + rtr_idr e)) (rtr_bit e) ≡ r
remote_lem true true id dlc payload bus h =
    ground (arith, bit_and_power 0 (bus 0x45), (h.ext refl).3)
remote_lem true false id dlc payload bus h =
    ground (arith, bit_and_power 0 (bus 0x45), (h.ext refl).3)
remote_lem false true id dlc payload bus h =
    ground (arith, bit_and_power 4 (bus 0x41), (h.std refl).1)
remote_lem false false id dlc payload bus h =
    ground (arith, bit_and_power 4 (bus 0x41), (h.std refl).1)

length_lem :
    (w : Wire) (bus : ℕ → ℕ) → IsWire w → IsBuffered canrxfg bus w → bit_and (bus 0x58) 15 ≡ w.dlc
length_lem w bus v h = omega (arith, bit_and_mask 4 (bus 0x58), h.length, v.coded)

-- The reception, for the outcome of its first test.
abbrev rx_of : Device → Bool → ℕ → (ℕ → ℕ) → Skb → Skb
rx_of dev e dlc bus skb =
    let (can_id, bus3) =
      (if e then mscan_read_ext mscan_memory bus else mscan_read_std mscan_memory bus) in
    let r = has (bus3 (0x40 + rtr_idr e)) (rtr_bit e) in
    let head = put_byte skb.rb_frame 5 dlc in
    let (body, bus5) =
      (if r then (head, bus3) else mscan_read_data mscan_memory 0 (payload_of dlc) head bus3) in
    let id = (if r then bit_or can_id can_rtr_flag else can_id) in
    record {
      rb_frame_size = (if r then empty_rb_frame_size else empty_rb_frame_size + payload_of dlc);
      rb_frame = put_byte (store32 body 0 id) 4 (dev.ifindex % 2 ^ 8);
    }

rx_of_lem :
    (dev : Device) (e : Bool) (dlc : ℕ) (bus : ℕ → ℕ) (skb : Skb)
    → rx_of dev e dlc bus skb ≡ rx_with dev e (has (bus (0x40 + rtr_idr e)) (rtr_bit e)) dlc bus skb
unfolding mscan_read_ext mscan_read_std
rx_of_lem dev true dlc bus skb = refl
rx_of_lem dev false dlc bus skb = refl

pub mscan_rx-IsRead :
    (dev : Device) (w : Wire) (bus : ℕ → ℕ) (skb : Skb)
    → IsWire w
    → IsBuffered canrxfg bus w
    → IsRead w (mscan_rx_interrupt mscan_memory dev bus skb).0
unfolding mscan_rx_interrupt
mscan_rx-IsRead dev w bus skb v h =
    subst (λ (e : Bool). IsRead w (rx_of dev e (bit_and (bus 0x58) 15) bus skb))
      (sym (kind_lem w.extended w.remote w.id w.dlc w.payload bus h))
      (subst (λ (dlc : ℕ). IsRead w (rx_of dev w.extended dlc bus skb)) (sym (length_lem w bus v h))
        (subst (λ (read : Skb). IsRead w read) (sym (rx_of_lem dev w.extended w.dlc bus skb))
          (subst (λ (r : Bool). IsRead w (rx_with dev w.extended r w.dlc bus skb))
            (sym (remote_lem w.extended w.remote w.id w.dlc w.payload bus h))
            (rx_with-IsRead dev bus skb w.extended w.remote w.id w.dlc w.payload v h))))
