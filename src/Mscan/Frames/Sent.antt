-- ===== src/Mscan/Frames/Sent.antt =====
-- `rtcan_mscan_start_xmit` puts a frame into the transmit buffer.
use rtcan_bb.Base.{
  ℕ, ◌+◌, ◌*◌, ◌/◌, ◌%◌, ◌^◌, ◌≤◌, ◌<◌, ◌≡◌, refl, sym, ap, ap₂, ◌∙◌, subst, bit_and, bit_or, Bool,
  true, false, arith, if◌then◌else◌,
}
use rtcan_bb.Base.Bits.{bit_and_mask, zero-bit_and}
use rtcan_bb.Base.Bits.Shifts.{bit_or-add, bit_and_split}
use rtcan_bb.Base.Memory.{Bytes}
use rtcan_bb.Rtcan.Abi.{CanFrame}
use rtcan_bb.Sja1000.Frames.{payload_of}
use rtcan_bb.Sja1000.Frames.Wire.{Wire, IsWire, frame_of, is_extended, is_remote}
use rtcan_bb.Sja1000.Frames.Sent.{wire}
use rtcan_bb.Mscan.{mscan_memory, dsr_of, idr, cantxfg}
use rtcan_bb.Mscan.Frames.{
  mscan_write_data, mscan_write_ext, mscan_write_std, mscan_write_body, mscan_write_frame, rtr_idr,
  rtr_bit,
}
use rtcan_bb.Mscan.Frames.Fields.{bit_and_field, second_byte}
use rtcan_bb.Mscan.Frames.Data.{write_data-before, write_data-there}

-- A message buffer holds a frame, by the layout that the data sheet gives.
pub record IsBuffered (buf : ℕ) (bus : ℕ → ℕ) (w : Wire) : Type 0 where
  pub length : bus (buf + 0x18) ≡ w.dlc
  pub ext :
      w.extended ≡ true
      → (bus (buf + 0) ≡ w.id / 2 ^ 21)
        × (bus (buf + 1) ≡ w.id / 2 ^ 18 % 2 ^ 3 * 2 ^ 5 + 0x18 + w.id / 2 ^ 15 % 2 ^ 3)
        × (bus (buf + 4) ≡ w.id / 2 ^ 7 % 2 ^ 8)
        × (bus (buf + 5) ≡ w.id % 2 ^ 7 * 2 + (if w.remote then 1 else 0))
  pub std :
      w.extended ≡ false
      → (bus (buf + 0) ≡ w.id / 2 ^ 3)
        × (bus (buf + 1) ≡ w.id % 2 ^ 3 * 2 ^ 5 + (if w.remote then 0x10 else 0))
  pub data_bytes :
      w.remote ≡ false → (i : ℕ) → i < payload_of w.dlc → bus (dsr_of buf i) ≡ w.payload i

-- The buffer, for each outcome of the tests of the flags.
abbrev write_with : (e r : Bool) → CanFrame → (ℕ → ℕ) → ℕ → ℕ
write_with e r frame bus =
    let bus1 =
      (if e
        then mscan_write_ext mscan_memory frame.can_id bus
        else mscan_write_std mscan_memory frame.can_id bus) in
    let bus2 =
      mscan_write_body mscan_memory e r (payload_of (frame.can_dlc % 2 ^ 8)) frame.payload bus1 in
    mscan_memory.out_8 (mscan_memory.out_8 bus2 0x78 (frame.can_dlc % 2 ^ 8)) 0x79 0

-- The bytes before the data: the one with the remote bit may have changed.
body_head :
    (e r : Bool) (size : ℕ) (payload : Bytes) (bus : ℕ → ℕ) (reg : ℕ)
    → reg < 0x68
    → mscan_write_body mscan_memory e r size payload bus reg
      ≡ (if r
            then mscan_memory.setbits8 bus (idr cantxfg (rtr_idr e)) (rtr_bit e)
            else mscan_memory.clrbits8 bus (idr cantxfg (rtr_idr e)) (rtr_bit e))
          reg
unfolding mscan_write_body
body_head e true size payload bus reg h = refl
body_head e false size payload bus reg h = write_data-before 0 size payload _ reg h

-- The byte with the remote bit, when it is cleared in a standard frame.
remote_clear : (x : ℕ) → x < 2 ^ 3 → bit_and (x * 2 ^ 5) 239 ≡ x * 2 ^ 5
remote_clear x h =
    ap (λ (n : ℕ). bit_and n 239) {y = x * 2 ^ 5 + 0} (omega arith)
    ∙ bit_and_split 5 x 0 7 15 (omega arith) (omega arith)
    ∙ omega (arith, ap (λ (n : ℕ). n * 2 ^ 5) (bit_and_mask 3 x), zero-bit_and 15)

-- The second byte of an extended identifier.
ext_second :
    (n : ℕ)
    → bit_or (bit_or (bit_and n 0x001c0000 / 2 ^ 13) (bit_and n 0x00038000 / 2 ^ 15)) 0x18 % 2 ^ 8
      ≡ n / 2 ^ 18 % 2 ^ 3 * 2 ^ 5 + 0x18 + n / 2 ^ 15 % 2 ^ 3
ext_second n =
    ap₂ (λ (a b : ℕ). bit_or (bit_or a b) 0x18 % 2 ^ 8) {y = n / 2 ^ 18 % 2 ^ 3 * 2 ^ 5}
      {v = n / 2 ^ 15 % 2 ^ 3} (omega (arith, bit_and_field 18 3 n))
      (omega (arith, bit_and_field 15 3 n))
    ∙ omega
        (arith, second_byte (n / 2 ^ 18 % 2 ^ 3) (n / 2 ^ 15 % 2 ^ 3) (omega arith) (omega arith))

module _ (id dlc : ℕ) (payload : Bytes) (bus : ℕ → ℕ) where
  abbrev size : ℕ
  size = payload_of (dlc % 2 ^ 8)

  abbrev sent : Bool → Bool → ℕ → ℕ
  sent e r = write_with e r (frame_of (wire e r id dlc payload)) bus

  abbrev ext_bus : Bool → ℕ → ℕ
  ext_bus r = mscan_write_ext mscan_memory (frame_of (wire true r id dlc payload)).can_id bus

  abbrev std_bus : Bool → ℕ → ℕ
  std_bus r = mscan_write_std mscan_memory (frame_of (wire false r id dlc payload)).can_id bus

  ext_first :
      (r : Bool)
      → id < 2 ^ 29
      → (sent true r 0x60 ≡ id / 2 ^ 21)
        × (sent true r 0x61 ≡ id / 2 ^ 18 % 2 ^ 3 * 2 ^ 5 + 0x18 + id / 2 ^ 15 % 2 ^ 3)
        × (sent true r 0x64 ≡ id / 2 ^ 7 % 2 ^ 8)
  unfolding mscan_write_ext
  ext_first r h = (
    head 0x60 (omega arith) (omega arith) ∙ first r,
    head 0x61 (omega arith) (omega arith) ∙ second r,
    head 0x64 (omega arith) (omega arith) ∙ third r,
  )
    where
      head : (reg : ℕ) → reg < 0x65 → 0x60 ≤ reg → sent true r reg ≡ ext_bus r reg
      head reg h h' = ground (arith, body_head true r size payload (ext_bus r) reg (omega arith))

      first : (r : Bool) → ext_bus r 0x60 ≡ id / 2 ^ 21
      first true = omega (arith, bit_and_field 21 8 (2 ^ 31 + 2 ^ 30 + id), h)
      first false = omega (arith, bit_and_field 21 8 (2 ^ 31 + 0 + id), h)

      second :
          (r : Bool) → ext_bus r 0x61 ≡ id / 2 ^ 18 % 2 ^ 3 * 2 ^ 5 + 0x18 + id / 2 ^ 15 % 2 ^ 3
      second true = ext_second (2 ^ 31 + 2 ^ 30 + id) ∙ omega (arith, h)
      second false = ext_second (2 ^ 31 + 0 + id) ∙ omega (arith, h)

      third : (r : Bool) → ext_bus r 0x64 ≡ id / 2 ^ 7 % 2 ^ 8
      third true = omega (arith, bit_and_field 7 8 (2 ^ 31 + 2 ^ 30 + id), h)
      third false = omega (arith, bit_and_field 7 8 (2 ^ 31 + 0 + id), h)

  ext_last : (r : Bool) → id < 2 ^ 29 → sent true r 0x65 ≡ id % 2 ^ 7 * 2 + (if r then 1 else 0)
  unfolding mscan_write_ext
  ext_last true h =
      body_head true true size payload (ext_bus true) 0x65 (omega arith)
      ∙ ap (λ (n : ℕ). bit_or n 1) {y = id % 2 ^ 7 * 2 ^ 1}
          (omega (arith, bit_and_mask 7 (2 ^ 31 + 2 ^ 30 + id), h))
      ∙ bit_or-add 1 (id % 2 ^ 7) 1 (omega arith)
      ∙ omega arith
  ext_last false h =
      body_head true false size payload (ext_bus false) 0x65 (omega arith)
      ∙ ap (λ (n : ℕ). bit_and n 254) {y = id % 2 ^ 7 * 2}
          (omega (arith, bit_and_mask 7 (2 ^ 31 + 0 + id), h))
      ∙ omega (arith, bit_and_field 1 7 (id % 2 ^ 7 * 2))

  std_first : (r : Bool) → id < 2 ^ 11 → sent false r 0x60 ≡ id / 2 ^ 3
  unfolding mscan_write_std
  std_first true h =
      body_head false true size payload (std_bus true) 0x60 (omega arith)
      ∙ omega (arith, bit_and_field 3 8 (0 + 2 ^ 30 + id), h)
  std_first false h =
      body_head false false size payload (std_bus false) 0x60 (omega arith)
      ∙ omega (arith, bit_and_field 3 8 (0 + 0 + id), h)

  std_second :
      (r : Bool) → id < 2 ^ 11 → sent false r 0x61 ≡ id % 2 ^ 3 * 2 ^ 5 + (if r then 0x10 else 0)
  unfolding mscan_write_std
  std_second true h =
      body_head false true size payload (std_bus true) 0x61 (omega arith)
      ∙ ap (λ (n : ℕ). bit_or n 0x10) {y = id % 2 ^ 3 * 2 ^ 5}
          (omega (arith, bit_and_mask 3 (0 + 2 ^ 30 + id), h))
      ∙ bit_or-add 5 (id % 2 ^ 3) 0x10 (omega arith)
  std_second false h =
      body_head false false size payload (std_bus false) 0x61 (omega arith)
      ∙ ap (λ (n : ℕ). bit_and n 239) {y = id % 2 ^ 3 * 2 ^ 5}
          (omega (arith, bit_and_mask 3 (0 + 0 + id), h))
      ∙ remote_clear (id % 2 ^ 3) (omega arith)
      ∙ omega arith

  sent_data :
      (e : Bool)
      → dlc ≤ 15
      → ((i : ℕ) → payload i < 2 ^ 8)
      → (i : ℕ) → i < payload_of dlc
      → sent e false (dsr_of cantxfg i) ≡ payload i
  unfolding mscan_write_body
  sent_data e coded bytes i h =
      behind (dsr_of cantxfg i) (omega (arith, few))
      ∙ write_data-there 0 size payload
          (mscan_memory.clrbits8 (if e then ext_bus false else std_bus false)
            (idr cantxfg (rtr_idr e)) (rtr_bit e))
          i (omega arith) (ground (arith, h, coded))
      ∙ omega (arith, bytes i)
    where
      few : i < 8
      few = ground (arith, h)

      behind :
          (reg : ℕ)
          → reg < 0x78
          → sent e false reg
            ≡ mscan_write_data mscan_memory 0 size payload
                (mscan_memory.clrbits8
                  (if e then ext_bus false else std_bus false)
                  (idr cantxfg (rtr_idr e))
                  (rtr_bit e))
                reg
      behind reg h = ground (arith, h)

  the_data :
      (e r : Bool)
      → IsWire (wire e r id dlc payload)
      → r ≡ false
      → (i : ℕ) → i < payload_of dlc
      → sent e r (dsr_of cantxfg i) ≡ payload i
  the_data e true v h i below = absurd (ground arith)
  the_data e false v h i below = sent_data e v.coded v.bytes i below

  write_with-IsBuffered :
      (e r : Bool)
      → IsWire (wire e r id dlc payload)
      → IsBuffered cantxfg (sent e r) (wire e r id dlc payload)
  write_with-IsBuffered true r v =
      let (a, b, c) = ext_first r v.fits in
      record {
        length = omega (arith, v.coded);
        ext = λ h. (a, b, c, ext_last r v.fits);
        std = λ h. absurd (ground arith);
        data_bytes = the_data true r v;
      }
  write_with-IsBuffered false r v = record {
    length = omega (arith, v.coded);
    ext = λ h. absurd (ground arith);
    std = λ h. (std_first r v.fits, std_second r v.fits);
    data_bytes = the_data false r v;
  }

-- The same for a frame with its flags.
pub write_frame-IsBuffered :
    (w : Wire) (bus : ℕ → ℕ)
    → IsWire w
    → IsBuffered cantxfg (mscan_write_frame mscan_memory (frame_of w) bus) w
unfolding mscan_write_frame
write_frame-IsBuffered w bus v =
    subst (λ b. IsBuffered cantxfg b w)
      (ap₂ (λ (e r : Bool). write_with e r (frame_of w) bus) (sym (is_extended w v))
        (sym (is_remote w v)))
      (write_with-IsBuffered w.id w.dlc w.payload bus w.extended w.remote v)
