-- ===== src/Sja1000/Frames/Roundtrip.antt =====
-- A frame that is written to the registers is read from them again, as a chip hands it over that
-- receives its own transmission.
use rtcan_bb.Base.{
  ℕ, zero, suc, ◌+◌, ◌-◌, ◌/◌, ◌%◌, ◌^◌, ◌<◌, ◌≡◌, refl, sym, ap, ◌∙◌, subst, bit_and, bit_or, Bool,
  true, false, not, ◌&&◌, arith, ltb, leb, ◌==◌, if◌then◌else◌,
}
use rtcan_bb.Base.Bits.{bit_or_low}
use rtcan_bb.Base.Bits.Shifts.{bit_or-add}
use rtcan_bb.Base.Memory.{Bytes, put_byte, store32, load32, load32-bytes_of}
use rtcan_bb.Rtcan.Abi.{can_rtr_flag}
use rtcan_bb.Rtcan.Socket.{Skb, empty_rb_frame_size}
use rtcan_bb.Rtcan.Device.{Device}
use rtcan_bb.Sja1000.{sja_data_sff, sja_data_eff}
use rtcan_bb.Sja1000.Frames.{read_data, read_eff, read_sff, payload_of, rx_interrupt, start_xmit}
use rtcan_bb.Sja1000.Frames.Wire.{
  Holds, IsWire, Wire, eff_joined, fir_dlc, fir_extended, fir_of, fir_remote, frame_of, registers,
  set_below,
}
use rtcan_bb.Sja1000.Frames.Sent.{start_xmit-Holds, w, wire}

read_data_lem :
    (reg : ℕ → ℕ) (i n : ℕ) (frame : Bytes) (bus : ℕ → ℕ)
    → ((read_data registers reg i n frame bus).1 ≡ bus)
      × ((p : ℕ)
          → (read_data registers reg i n frame bus).0 p
            ≡ (if leb (6 + i) p && ltb p (6 + i + n) then bus (reg (p - 6)) else frame p))
unfolding read_data
read_data_lem reg i zero frame bus = (refl, λ p. ground arith)
read_data_lem reg i (suc n) frame bus =
    let rest = read_data_lem reg (suc i) n (put_byte frame (6 + i) (bus (reg i))) bus in
    (rest.0, λ p. rest.1 p ∙ ground (arith, found p))
  where
    found : (p : ℕ) → p ≡ 6 + i → bus (reg (p - 6)) ≡ bus (reg i)
    found p e = ap (λ (x : ℕ). bus (reg x)) (omega arith)

-- What the driver makes of registers that hold a frame.
pub record IsRead (w : Wire) (skb : Skb) : Type 0 where
  pub can_id : load32 skb.rb_frame 0 ≡ (frame_of w).can_id
  pub can_dlc : skb.rb_frame 5 ≡ w.dlc
  pub payload :
      w.remote ≡ false → (i : ℕ) → i < payload_of w.dlc → skb.rb_frame (6 + i) ≡ w.payload i
  pub size : skb.rb_frame_size ≡ 6 + (if w.remote then 0 else payload_of w.dlc)

-- The reception, for each outcome of its tests.
abbrev rx_with : Device → Bool → Bool → ℕ → (ℕ → ℕ) → Skb → Skb
rx_with dev is_eff is_rtr dlc bus skb =
    let (can_id, bus2) = (if is_eff then read_eff registers bus else read_sff registers bus) in
    let head = put_byte skb.rb_frame 5 dlc in
    let (body, bus3) =
      (if is_rtr
        then (head, bus2)
        else read_data registers (if is_eff then sja_data_eff else sja_data_sff) 0 (payload_of dlc)
            head bus2) in
    let id = (if is_rtr then bit_or can_id can_rtr_flag else can_id) in
    record {
      rb_frame_size =
          (if is_rtr then empty_rb_frame_size else empty_rb_frame_size + payload_of dlc);
      rb_frame = put_byte (store32 body 0 id) 4 (dev.ifindex % 2 ^ 8);
    }

abbrev the_id : Bool → Bool → (ℕ → ℕ) → ℕ
the_id is_eff is_rtr bus =
    let can_id = (if is_eff then read_eff registers bus else read_sff registers bus).0 in
    if is_rtr then bit_or can_id can_rtr_flag else can_id

module _ (bus : ℕ → ℕ) (id dlc : ℕ) (payload : Bytes) where
  eff_id :
      (r : Bool)
      → IsWire (wire true r id dlc payload)
      → Holds bus (wire true r id dlc payload)
      → (read_eff registers bus).0 ≡ 2 ^ 31 + id
  unfolding read_eff
  eff_id r v h =
      let (a, b, c, d) = h.id_eff refl in
      eff_joined (bus 17) (bus 18) (bus 19) (bus 20) (omega (arith, a, v.fits)) (omega (arith, b))
        (omega (arith, c)) (omega (arith, d))
      ∙ omega (arith, a, b, c, d, v.fits)

  sff_id :
      (r : Bool)
      → IsWire (wire false r id dlc payload)
      → Holds bus (wire false r id dlc payload)
      → (read_sff registers bus).0 ≡ id
  unfolding read_sff
  sff_id r v h =
      let (a, b) = h.id_sff refl in
      bit_or-add 3 (bus 17) (bus 18 / 2 ^ 5) (omega (arith, b)) ∙ omega (arith, a, b, v.fits)

  the_id_lem :
      (e r : Bool)
      → IsWire (wire e r id dlc payload)
      → Holds bus (wire e r id dlc payload)
      → the_id e r bus ≡ (frame_of (wire e r id dlc payload)).can_id
  the_id_lem true true v h =
      ap (λ (n : ℕ). bit_or n (2 ^ 30)) (eff_id true v h)
      ∙ set_below 31 30 id (omega (arith, v.fits)) (omega (arith, v.fits)) (omega arith)
  the_id_lem true false v h = omega (arith, eff_id false v h)
  the_id_lem false true v h =
      ap (λ (n : ℕ). bit_or n (2 ^ 30)) (sff_id true v h)
      ∙ omega (arith, bit_or_low 30 id (omega (arith, v.fits)))
  the_id_lem false false v h = omega (arith, sff_id false v h)

module _ (dev : Device) (bus : ℕ → ℕ) (skb : Skb) (dlc : ℕ) where
  rx_dlc : (e r : Bool) → (rx_with dev e r dlc bus skb).rb_frame 5 ≡ dlc
  unfolding read_eff read_sff
  rx_dlc true true = refl
  rx_dlc false true = refl
  rx_dlc true false =
      (read_data_lem sja_data_eff 0 (payload_of dlc) (put_byte skb.rb_frame 5 dlc) bus).1 5
      ∙ ground arith
  rx_dlc false false =
      (read_data_lem sja_data_sff 0 (payload_of dlc) (put_byte skb.rb_frame 5 dlc) bus).1 5
      ∙ ground arith

  rx_data :
      (e : Bool) (i : ℕ)
      → i < payload_of dlc
      → (rx_with dev e false dlc bus skb).rb_frame (6 + i)
        ≡ bus ((if e then sja_data_eff else sja_data_sff) i)
  unfolding read_eff read_sff
  rx_data true i h = ground (
    arith,
    (read_data_lem sja_data_eff 0 (payload_of dlc) (put_byte skb.rb_frame 5 dlc) bus).1 (6 + i),
    ap (λ (x : ℕ). bus (21 + x)) (there i),
  )
    where
      there : (i : ℕ) → 6 + i - 6 ≡ i
      there i = omega arith
  rx_data false i h = ground (
    arith,
    (read_data_lem sja_data_sff 0 (payload_of dlc) (put_byte skb.rb_frame 5 dlc) bus).1 (6 + i),
    ap (λ (x : ℕ). bus (19 + x)) (there i),
  )
    where
      there : (i : ℕ) → 6 + i - 6 ≡ i
      there i = omega arith

  rx_size :
      (e r : Bool)
      → (rx_with dev e r dlc bus skb).rb_frame_size ≡ 6 + (if r then 0 else payload_of dlc)
  rx_size e true = omega arith
  rx_size e false = refl

pub wire-lt :
    (e r : Bool) (id dlc : ℕ) (payload : Bytes)
    → IsWire (wire e r id dlc payload)
    → (frame_of (wire e r id dlc payload)).can_id < 2 ^ 32
wire-lt e r id dlc payload v = ground (arith, v.fits)

rx_with-IsRead :
    (dev : Device) (bus : ℕ → ℕ) (skb : Skb) (e r : Bool) (id dlc : ℕ) (payload : Bytes)
    → IsWire (wire e r id dlc payload)
    → Holds bus (wire e r id dlc payload)
    → IsRead (wire e r id dlc payload) (rx_with dev e r dlc bus skb)
rx_with-IsRead dev bus skb e r id dlc payload v h = record {
  can_id = stored ∙ the_id_lem bus id dlc payload e r v h;
  can_dlc = rx_dlc dev bus skb dlc e r;
  payload = the_data r h;
  size = rx_size dev bus skb dlc e r;
}
  where
    stored : load32 (rx_with dev e r dlc bus skb).rb_frame 0 ≡ the_id e r bus
    stored =
        load32-bytes_of (the_id e r bus)
          (omega (arith, the_id_lem bus id dlc payload e r v h, wire-lt e r id dlc payload v))

    the_data :
        (r' : Bool)
        → Holds bus (wire e r' id dlc payload)
        → r' ≡ false
        → (i : ℕ) → i < payload_of dlc
        → (rx_with dev e r' dlc bus skb).rb_frame (6 + i) ≡ payload i
    the_data true h' ee i hi = absurd (ground arith)
    the_data false h' ee i hi = rx_data dev bus skb dlc e i hi ∙ h'.data_bytes refl i hi

rx_interrupt-IsRead :
    (dev : Device) (w : Wire) (bus : ℕ → ℕ) (skb : Skb)
    → IsWire w
    → Holds bus w
    → IsRead w (rx_interrupt registers dev bus skb).0
unfolding rx_interrupt
rx_interrupt-IsRead dev w bus skb v h =
    subst
      (λ (fir : ℕ). IsRead w (
        rx_with dev (not (bit_and fir (2 ^ 7) == 0)) (not (bit_and fir (2 ^ 6) == 0))
          (bit_and fir 15) bus skb))
      (sym h.fir)
      (subst
        (λ (dlc : ℕ). IsRead w (
          rx_with dev (not (bit_and (fir_of w) (2 ^ 7) == 0))
            (not (bit_and (fir_of w) (2 ^ 6) == 0)) dlc bus skb))
        (sym (fir_dlc w v))
        (subst
          (λ (e : Bool).
            IsRead w (rx_with dev e (not (bit_and (fir_of w) (2 ^ 6) == 0)) w.dlc bus skb))
          (sym (fir_extended w v))
          (subst (λ (r : Bool). IsRead w (rx_with dev w.extended r w.dlc bus skb))
            (sym (fir_remote w v))
            (rx_with-IsRead dev bus skb w.extended w.remote w.id w.dlc w.payload v h))))

-- A frame with an identifier of its format and a length code of at most 15, written to registers
-- that keep what is written, is read from them again: identifier and flags, length code, data bytes
-- unless it is a remote request, and the size of the frame in the receive buffer, whatever the
-- registers and the memory held before.
pub xmit_roundtrip :
    (dev rx_dev : Device) (w : Wire) (bus : ℕ → ℕ) (skb : Skb)
    → IsWire w
    → IsRead w (rx_interrupt registers rx_dev (start_xmit registers dev (frame_of w) bus) skb).0
xmit_roundtrip dev rx_dev w bus skb v =
    rx_interrupt-IsRead rx_dev w (start_xmit registers dev (frame_of w) bus) skb v
      (start_xmit-Holds dev w bus v)
