-- ===== src/Sja1000/Frames/Sent.antt =====
-- `rtcan_sja_start_xmit` puts a frame into the registers.
use rtcan_bb.Base.{
  ℕ, zero, suc, ◌+◌, ◌-◌, ◌*◌, ◌/◌, ◌%◌, ◌^◌, ◌<◌, ◌≡◌, sym, ap, ap₂, ◌∙◌, subst, bit_and, bit_or,
  Bool, true, false, ◌&&◌, arith, ltb, leb, ◌==◌, if◌then◌else◌, update,
}
use rtcan_bb.Base.Memory.{Bytes}
use rtcan_bb.Rtcan.Abi.{CanFrame}
use rtcan_bb.Rtcan.Device.{Device}
use rtcan_bb.Sja1000.{put, sja_fir, sja_data_sff, sja_data_eff}
use rtcan_bb.Sja1000.Frames.{write_data, write_eff, write_sff, payload_of, start_xmit}
use rtcan_bb.Sja1000.Frames.Wire.{
  Holds, IsWire, Wire, fir_of, fir_set, frame_of, is_extended, is_remote, registers,
}

write_data_lem :
    (base i n : ℕ) (payload : Bytes) (bus : ℕ → ℕ) (r : ℕ)
    → write_data registers (λ x. base + x) i n payload bus r
      ≡ (if leb (base + i) r && ltb r (base + i + n) then payload (r - base) % 2 ^ 8 else bus r)
unfolding write_data
write_data_lem base i zero payload bus r = ground arith
write_data_lem base i (suc n) payload bus r =
    write_data_lem base (suc i) n payload (update bus (base + i) (payload i % 2 ^ 8)) r
    ∙ ground (arith, found)
  where
    found : r ≡ base + i → payload (r - base) ≡ payload i
    found e = ap payload (omega arith)

-- The transmission, for each outcome of its tests.
abbrev xmit_with : Bool → Bool → Bool → CanFrame → (ℕ → ℕ) → ℕ → ℕ
xmit_with is_eff is_rtr plain frame bus =
    let dlc = frame.can_dlc % 2 ^ 8 in
    let fir = (if is_eff then bit_or dlc (2 ^ 7) else dlc) in
    let fir' = (if is_rtr then bit_or fir (2 ^ 6) else fir) in
    let bus1 =
      (if is_eff
        then write_eff registers frame.can_id bus
        else write_sff registers frame.can_id bus) in
    let bus2 =
      (if is_rtr
        then bus1
        else write_data registers (if is_eff then sja_data_eff else sja_data_sff) 0 (payload_of dlc)
            frame.payload bus1) in
    let bus3 = put registers bus2 sja_fir fir' in
    if plain then put registers bus3 1 1 else put registers bus3 1 16

abbrev pub wire : Bool → Bool → ℕ → ℕ → Bytes → Wire
wire e r id dlc payload = record { extended = e; remote = r; id = id; dlc = dlc; payload = payload }

module _ (e r plain : Bool) (id dlc : ℕ) (payload : Bytes) (bus : ℕ → ℕ) where
  abbrev pub w : Wire
  w = wire e r id dlc payload

  sent_fir : IsWire w → xmit_with e r plain (frame_of w) bus 16 ≡ fir_of w
  unfolding write_eff write_sff
  sent_fir v = ground (arith, fir_set e r (dlc % 2 ^ 8) (omega (arith, v.coded)), v.coded)

  sent_eff :
      IsWire w
      → e ≡ true
      → (xmit_with e r plain (frame_of w) bus 17 ≡ id / 2 ^ 21)
        × (xmit_with e r plain (frame_of w) bus 18 ≡ id / 2 ^ 13 % 2 ^ 8)
        × (xmit_with e r plain (frame_of w) bus 19 ≡ id / 2 ^ 5 % 2 ^ 8)
        × (xmit_with e r plain (frame_of w) bus 20 ≡ id % 2 ^ 5 * 2 ^ 3)
  unfolding write_eff
  sent_eff v ee = (
    ground (arith, v.fits, ee, kept 17),
    ground (arith, v.fits, ee, kept 18),
    ground (arith, v.fits, ee, kept 19),
    ground (arith, v.fits, ee, kept 20),
  )
    where
      kept :
          (reg : ℕ)
          → write_data registers sja_data_eff 0
              (payload_of (dlc % 2 ^ 8))
              payload
              (write_eff registers (frame_of w).can_id bus)
              reg
            ≡ (if leb 21 reg && ltb reg (21 + payload_of (dlc % 2 ^ 8))
                then payload (reg - 21) % 2 ^ 8
                else write_eff registers (frame_of w).can_id bus reg)
      kept reg =
          write_data_lem 21 0 (payload_of (dlc % 2 ^ 8)) payload
            (write_eff registers (frame_of w).can_id bus) reg
          ∙ ground arith

  sent_sff :
      IsWire w
      → e ≡ false
      → (xmit_with e r plain (frame_of w) bus 17 ≡ id / 2 ^ 3)
        × (xmit_with e r plain (frame_of w) bus 18 ≡ id % 2 ^ 3 * 2 ^ 5)
  unfolding write_sff
  sent_sff v ee = (ground (arith, v.fits, ee, kept 17), ground (arith, v.fits, ee, kept 18))
    where
      kept :
          (reg : ℕ)
          → write_data registers sja_data_sff 0
              (payload_of (dlc % 2 ^ 8))
              payload
              (write_sff registers (frame_of w).can_id bus)
              reg
            ≡ (if leb 19 reg && ltb reg (19 + payload_of (dlc % 2 ^ 8))
                then payload (reg - 19) % 2 ^ 8
                else write_sff registers (frame_of w).can_id bus reg)
      kept reg =
          write_data_lem 19 0 (payload_of (dlc % 2 ^ 8)) payload
            (write_sff registers (frame_of w).can_id bus) reg
          ∙ ground arith

pub written :
    (base n : ℕ) (payload : Bytes) (bus : ℕ → ℕ) (i : ℕ)
    → i < n
    → payload i < 2 ^ 8
    → write_data registers (λ x. base + x) 0 n payload bus (base + i) ≡ payload i
written base n payload bus i h byte =
    write_data_lem base 0 n payload bus (base + i) ∙ ground (arith, ap payload same)
  where
    same : base + i - base ≡ i
    same = omega arith

sent_data :
    (e plain : Bool) (id dlc : ℕ) (payload : Bytes) (bus : ℕ → ℕ)
    → IsWire (wire e false id dlc payload)
    → (i : ℕ) → i < payload_of dlc
    → xmit_with e false plain
        (frame_of (wire e false id dlc payload))
        bus
        ((if e then sja_data_eff else sja_data_sff) i)
      ≡ payload i
sent_data true plain id dlc payload bus v i h =
    let there =
      written 21 (payload_of (dlc % 2 ^ 8)) payload
        (write_eff registers (frame_of (wire true false id dlc payload)).can_id bus) i
        (ground (arith, v.coded, h)) (v.bytes i) in
    ground (arith, there)
sent_data false plain id dlc payload bus v i h =
    let there =
      written 19 (payload_of (dlc % 2 ^ 8)) payload (write_sff registers id bus) i
        (ground (arith, v.coded, h)) (v.bytes i) in
    ground (arith, there)

pub start_xmit-Holds :
    (dev : Device) (w : Wire) (bus : ℕ → ℕ)
    → IsWire w
    → Holds (start_xmit registers dev (frame_of w) bus) w
unfolding start_xmit
start_xmit-Holds dev w bus v =
    subst (λ b. Holds b w)
      (ap₂ (λ (e r : Bool). xmit_with e r plain (frame_of w) bus) (sym (is_extended w v))
        (sym (is_remote w v)))
      (record {
        fir = sent_fir w.extended w.remote plain w.id w.dlc w.payload bus v;
        id_eff = sent_eff w.extended w.remote plain w.id w.dlc w.payload bus v;
        id_sff = sent_sff w.extended w.remote plain w.id w.dlc w.payload bus v;
        data_bytes = sent w.remote v;
      })
  where
    plain : Bool
    plain = bit_and dev.ctrl_mode 2 == 0

    sent :
        (r : Bool)
        → IsWire (wire w.extended r w.id w.dlc w.payload)
        → r ≡ false
        → (i : ℕ) → i < payload_of w.dlc
        → xmit_with w.extended r plain
            (frame_of (wire w.extended r w.id w.dlc w.payload))
            bus
            ((if w.extended then sja_data_eff else sja_data_sff) i)
          ≡ w.payload i
    sent true v' e = absurd (ground arith)
    sent false v' e = sent_data w.extended plain w.id w.dlc w.payload bus v'
