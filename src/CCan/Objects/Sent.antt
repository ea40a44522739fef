-- ===== src/CCan/Objects/Sent.antt =====
-- What the interface registers hold after `c_can_write_msg_object` of rtcan_c_can.c.
use rtcan_bb.Base.{
  ℕ, zero, suc, ◌+◌, ◌-◌, ◌*◌, ◌/◌, ◌%◌, ◌^◌, ◌<◌, ◌≤◌, ◌≡◌, bit_and, bit_or, Bool, true, false,
  not, ◌&&◌, refl, ap, ap₂, ◌∙◌, arith, ltb, leb, ◌==◌, if◌then◌else◌, update,
}
use rtcan_bb.Base.Bits.{bit_and_mask, bit_and-div}
use rtcan_bb.Base.Bits.Shifts.{bit_or-add, add-bit_or}
use rtcan_bb.Base.Memory.{Bytes}
use rtcan_bb.Rtcan.Abi.{can_eff_flag, can_rtr_flag}
use rtcan_bb.CCan.Bittiming.Fields.{c_can_registers}
use rtcan_bb.CCan.Objects.{
  if_arb_msgval, if_arb_msgxtd, if_arb_transmit, arb_id, arb_flags, ifx_write_low_16bit,
  ifx_write_high_16bit, write_words, c_can_msg_obj_is_busy, c_can_object_put,
  c_can_write_msg_object, if_comm_all,
}
use rtcan_bb.Sja1000.Frames.Wire.{Wire, IsWire, frame_of, is_extended, is_remote}

-- Polling does not change what is stored.
busy_lem :
    (iface count : ℕ) (bus : ℕ → ℕ)
    → (c_can_msg_obj_is_busy c_can_registers iface count bus).1 ≡ bus
unfolding c_can_msg_obj_is_busy
busy_lem iface zero bus = refl
busy_lem iface (suc count) bus =
    by_busy (bit_and (bus (8 + iface * 11)) (2 ^ 15) == 0) (busy_lem iface count bus)
  where
    by_busy :
        (c : Bool)
        → (c_can_msg_obj_is_busy c_can_registers iface count bus).1 ≡ bus
        → (if c then (false, bus) else c_can_msg_obj_is_busy c_can_registers iface count bus).1
          ≡ bus
    by_busy true e = refl
    by_busy false e = e

write_words_lem :
    (k n : ℕ) (payload : Bytes) (bus : ℕ → ℕ) (r : ℕ)
    → write_words c_can_registers 0 k n payload bus r ≡ (
        if leb (15 + k) r && ltb r (15 + k + n)
        then bit_or (payload (2 * (r - 15))) (payload (2 * (r - 15) + 1) * 2 ^ 8) % 2 ^ 16
        else bus r)
unfolding write_words
write_words_lem k zero payload bus r = ground arith
write_words_lem k (suc n) payload bus r =
    write_words_lem (suc k) n payload _ r ∙ ground (arith, found)
  where
    found : r ≡ 15 + k → r - 15 ≡ k
    found e = omega arith

low_half : (id : ℕ) → ifx_write_low_16bit id ≡ id % 2 ^ 16
low_half id = bit_and_mask 16 id

high_half : (id : ℕ) → ifx_write_high_16bit id ≡ id / 2 ^ 16 % 2 ^ 16
high_half id = bit_and-div 16 id 0xffff0000 ∙ bit_and_mask 16 (id / 2 ^ 16)

-- A frame of at most eight bytes, and the message that the registers hold, by the chip's manual.
pub record IsSent (bus : ℕ → ℕ) (objno : ℕ) (w : Wire) : Type 0 where
  pub number : bus 8 ≡ objno % 2 ^ 16
  pub valid : bus 13 / 2 ^ 15 ≡ 1
  pub format : bus 13 / 2 ^ 14 % 2 ≡ (if w.extended then 1 else 0)
  pub direction : bus 13 / 2 ^ 13 % 2 ≡ (if w.remote then 0 else 1)
  pub identifier :
      (if w.extended then bus 13 % 2 ^ 13 * 2 ^ 16 + bus 12 else bus 13 % 2 ^ 13 / 2 ^ 2) ≡ w.id
  pub length_code : bus 14 % 2 ^ 4 ≡ w.dlc
  pub even_bytes : (k : ℕ) → 2 * k < w.dlc → bus (15 + k) % 2 ^ 8 ≡ w.payload (2 * k)
  pub odd_bytes : (k : ℕ) → 2 * k + 1 < w.dlc → bus (15 + k) / 2 ^ 8 ≡ w.payload (2 * k + 1)

-- The two arbitration registers, from the kind of the frame.
flags_of : Bool → Bool → ℕ
flags_of e r = 4 + (if e then 2 else 0) + (if r then 0 else 1)

arb_flags-eq :
    (w : Wire) → IsWire w → arb_flags (frame_of w).can_id ≡ flags_of w.extended w.remote * 2 ^ 13
unfolding arb_flags flags_of
arb_flags-eq w v =
    by_kind (bit_and (frame_of w).can_id can_eff_flag == 0)
      (bit_and (frame_of w).can_id can_rtr_flag == 0) w.extended w.remote (is_extended w v)
      (is_remote w v)
  where
    by_kind :
        (no_eff no_rtr e r : Bool)
        → not no_eff ≡ e
        → not no_rtr ≡ r
        → (let transmit = (if no_rtr then if_arb_transmit else 0) in
            bit_or (if no_eff then transmit else bit_or transmit if_arb_msgxtd) if_arb_msgval)
          ≡ flags_of e r * 2 ^ 13
    by_kind true true e r p q = ground (arith, p, q)
    by_kind true false e r p q = ground (arith, p, q)
    by_kind false true e r p q = ground (arith, p, q)
    by_kind false false e r p q = ground (arith, p, q)

arb_id-eq :
    (w : Wire)
    → IsWire w
    → arb_id (frame_of w).can_id ≡ (if w.extended then w.id else w.id * 2 ^ 18)
unfolding arb_id
arb_id-eq w v = ground (
  arith,
  is_extended w v,
  v.fits,
  bit_and_mask 29 (frame_of w).can_id,
  bit_and_mask 11 (frame_of w).can_id,
)

module _ (w : Wire) (objno : ℕ) (bus : ℕ → ℕ) where
  abbrev sent : ℕ → ℕ
  sent = c_can_write_msg_object c_can_registers 0 (frame_of w) objno bus

  abbrev arbitrated : ℕ → ℕ
  arbitrated =
      let id = arb_id (frame_of w).can_id in
      update (update bus 12 (ifx_write_low_16bit id % 2 ^ 16)) 13
        (bit_or (arb_flags (frame_of w).can_id) (ifx_write_high_16bit id) % 2 ^ 16)

  abbrev filled : ℕ → ℕ
  filled = write_words c_can_registers 0 0 ((w.dlc + 1) / 2) w.payload arbitrated

  abbrev requested : ℕ → ℕ
  requested =
      update
        (update (update filled 14 (bit_or (2 ^ 11 + 2 ^ 8 + 2 ^ 7) w.dlc % 2 ^ 16)) 9
          (bit_or (2 ^ 7) (ifx_write_low_16bit if_comm_all) % 2 ^ 16))
        8 (ifx_write_low_16bit objno % 2 ^ 16)

  sent_lem : (r : ℕ) → sent r ≡ requested r
  unfolding c_can_write_msg_object c_can_object_put
  sent_lem r = ap (λ (b : ℕ → ℕ). b r) (busy_lem 0 6 requested)

  sent_low : sent 12 ≡ ifx_write_low_16bit (arb_id (frame_of w).can_id) % 2 ^ 16
  sent_low = sent_lem 12 ∙ write_words_lem 0 ((w.dlc + 1) / 2) w.payload arbitrated 12

  sent_high :
      sent 13
      ≡ bit_or (arb_flags (frame_of w).can_id) (ifx_write_high_16bit (arb_id (frame_of w).can_id))
        % 2 ^ 16
  sent_high = sent_lem 13 ∙ write_words_lem 0 ((w.dlc + 1) / 2) w.payload arbitrated 13

  sent_ctrl : sent 14 ≡ bit_or (2 ^ 11 + 2 ^ 8 + 2 ^ 7) w.dlc % 2 ^ 16
  sent_ctrl = sent_lem 14

  in_words :
      (k : ℕ)
      → 2 * k < w.dlc
      → filled (15 + k) ≡ bit_or (w.payload (2 * k)) (w.payload (2 * k + 1) * 2 ^ 8) % 2 ^ 16
  in_words k h =
      write_words_lem 0 ((w.dlc + 1) / 2) w.payload arbitrated (15 + k) ∙ ground (arith, same)
    where
      same : 15 + k - 15 ≡ k
      same = omega arith

  outside : (k : ℕ) → requested (15 + k) ≡ filled (15 + k)
  outside k = ground arith

  sent_word :
      (k : ℕ)
      → 2 * k < w.dlc
      → sent (15 + k) ≡ bit_or (w.payload (2 * k)) (w.payload (2 * k + 1) * 2 ^ 8) % 2 ^ 16
  sent_word k h = sent_lem (15 + k) ∙ outside k ∙ in_words k h

  behind : w.dlc ≤ 8 → (k : ℕ) → 4 ≤ k → sent (15 + k) ≡ bus (15 + k)
  behind few k h =
      sent_lem (15 + k)
      ∙ outside k
      ∙ write_words_lem 0 ((w.dlc + 1) / 2) w.payload arbitrated (15 + k)
      ∙ ground (arith, few, h)

  abbrev placed : ℕ
  placed = if w.extended then w.id else w.id * 2 ^ 18

  placed-lt : IsWire w → placed < 2 ^ 29
  placed-lt v = ground (arith, v.fits)

  low_part : IsWire w → sent 12 ≡ placed % 2 ^ 16
  low_part v =
      sent_low
      ∙ ap (λ (n : ℕ). ifx_write_low_16bit n % 2 ^ 16) (arb_id-eq w v)
      ∙ omega (arith, low_half placed)

  high_part : IsWire w → sent 13 ≡ flags_of w.extended w.remote * 2 ^ 13 + placed / 2 ^ 16
  unfolding flags_of
  high_part v =
      sent_high
      ∙ ap₂ (λ (a b : ℕ). bit_or a b % 2 ^ 16) (arb_flags-eq w v)
          (ap ifx_write_high_16bit (arb_id-eq w v) ∙ high_half placed)
      ∙ omega (
        arith,
        bit_or-add 13 (flags_of w.extended w.remote) (placed / 2 ^ 16 % 2 ^ 16)
            (omega (arith, placed-lt v)),
        placed-lt v,
        flags-lt w.extended w.remote,
      )
    where
      flags-lt : (e r : Bool) → flags_of e r < 8
      flags-lt e r = ground arith

  word_parts :
      IsWire w
      → (k : ℕ) → 2 * k < w.dlc
      → sent (15 + k) ≡ w.payload (2 * k + 1) * 2 ^ 8 + w.payload (2 * k)
  word_parts v k h =
      sent_word k h
      ∙ omega (
        arith,
        add-bit_or 8 (w.payload (2 * k + 1)) (w.payload (2 * k)) (v.bytes (2 * k)),
        v.bytes (2 * k),
        v.bytes (2 * k + 1),
      )

  -- For a frame with an identifier of its format and at most eight data bytes, on registers that
  -- keep what is written, `c_can_write_msg_object` on the first interface leaves a valid message:
  -- the arbitration registers say its format and direction and hold its identifier, the control
  -- register holds its length code, and the data registers its bytes, the even ones in their low
  -- halves and the odd ones in their high halves; and the request names the message object. The registers behind
  -- the four data registers, the second interface's among them, are left alone.
  pub c_can_write_msg_object-IsSent :
      IsWire w → w.dlc ≤ 8 → IsSent sent objno w × ((k : ℕ) → 4 ≤ k → sent (15 + k) ≡ bus (15 + k))
  unfolding flags_of
  c_can_write_msg_object-IsSent v few = (
    record {
      number = sent_lem 8 ∙ omega (arith, low_half objno);
      valid = ground (arith, high_part v, placed-lt v);
      format = ground (arith, high_part v, placed-lt v);
      direction = ground (arith, high_part v, placed-lt v);
      identifier = ground (arith, high_part v, low_part v, placed-lt v);
      length_code =
          omega (arith, sent_ctrl, bit_or-add 7 19 w.dlc (omega (arith, v.coded)), v.coded);
      even_bytes = λ k h. omega (arith, word_parts v k h, v.bytes (2 * k));
      odd_bytes = λ k h.
          omega (arith, word_parts v k (omega (arith, h)), v.bytes (2 * k), v.bytes (2 * k + 1));
    },
    behind few,
  )
