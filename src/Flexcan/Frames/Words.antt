-- ===== src/Flexcan/Frames/Words.antt =====
-- The control word and the identifier word of a frame in a message buffer of the FlexCAN
-- (can/rtcan_flexcan.c).
use rtcan_bb.Base.{
  ℕ, ◌+◌, ◌-◌, ◌*◌, ◌/◌, ◌%◌, ◌^◌, ◌≤◌, ◌<◌, ◌≡◌, ap, ap₂, ◌∙◌, bit_and, bit_or, Bool, true, false,
  arith, if◌then◌else◌,
}
use rtcan_bb.Base.Bits.{bit_and_mask}
use rtcan_bb.Base.Bits.Shifts.{bit_or-add, bit_or_split, bit_or-zero}
use rtcan_bb.Sja1000.Frames.{payload_of}
use rtcan_bb.Sja1000.Frames.Wire.{Wire, IsWire, frame_of, is_extended, is_remote}
use rtcan_bb.Flexcan.Frames.{flexcan_tx_ctrl, flexcan_tx_id}

-- Bits are set above what a number has below a place.
or_above :
    (k a c b : ℕ)
    → b < 2 ^ k
    → 1 ≤ 2 ^ k
    → bit_or (a * 2 ^ k + b) (c * 2 ^ k) ≡ bit_or a c * 2 ^ k + b
or_above k a c b h h' =
    ap (λ (n : ℕ). bit_or (a * 2 ^ k + b) n) {y = c * 2 ^ k + 0} (omega arith)
    ∙ bit_or_split k a b c 0 h h'
    ∙ omega (arith, bit_or-zero b)

-- The control word, for each outcome of the tests of the flags.
abbrev ctrl_with : Bool → Bool → ℕ → ℕ
ctrl_with e r dlc =
    let ctrl = bit_or 0xc000000 (dlc * 2 ^ 16) in
    let ctrl' = (if e then bit_or ctrl 0x600000 else ctrl) in
    if r then bit_or ctrl' (2 ^ 20) else ctrl'

-- What a receiver takes from it: the length, the remote bit and the bit for an extended frame.
abbrev pub kind_and_length : Wire → ℕ
kind_and_length w =
    payload_of w.dlc + (if w.remote then 2 ^ 4 else 0) + (if w.extended then 2 ^ 5 else 0)

basic : (dlc : ℕ) → dlc ≤ 8 → bit_or 0xc000000 (dlc * 2 ^ 16) ≡ 0xc000000 + dlc * 2 ^ 16
basic dlc h = bit_or-add 24 0xc (dlc * 2 ^ 16) (omega arith)

extended :
    (dlc : ℕ)
    → dlc ≤ 8
    → bit_or (bit_or 0xc000000 (dlc * 2 ^ 16)) 0x600000 ≡ 0xc600000 + dlc * 2 ^ 16
extended dlc h =
    ap (λ (n : ℕ). bit_or n 0x600000) {y = 0x60 * 2 ^ 21 + dlc * 2 ^ 16}
      (omega (arith, basic dlc h))
    ∙ or_above 21 0x60 3 (dlc * 2 ^ 16) (omega arith) (omega arith)
    ∙ omega arith

ctrl_fields :
    (e r : Bool) (dlc : ℕ)
    → dlc ≤ 8
    → ctrl_with e r dlc
      ≡ 0xc000000 + (if e then 0x600000 else 0) + (if r then 2 ^ 20 else 0) + dlc * 2 ^ 16
ctrl_fields false false dlc h = omega (arith, basic dlc h)
ctrl_fields false true dlc h =
    ap (λ (n : ℕ). bit_or n (2 ^ 20)) {y = 0xc0 * 2 ^ 20 + dlc * 2 ^ 16}
      (omega (arith, basic dlc h))
    ∙ or_above 20 0xc0 1 (dlc * 2 ^ 16) (omega arith) (omega arith)
    ∙ omega arith
ctrl_fields true false dlc h = omega (arith, extended dlc h)
ctrl_fields true true dlc h =
    ap (λ (n : ℕ). bit_or n (2 ^ 20)) {y = 0xc6 * 2 ^ 20 + dlc * 2 ^ 16}
      (omega (arith, extended dlc h))
    ∙ or_above 20 0xc6 1 (dlc * 2 ^ 16) (omega arith) (omega arith)
    ∙ omega arith

pub few : (dlc : ℕ) → payload_of dlc ≤ 8
few dlc = ground arith

pub tx_ctrl_lem :
    (w : Wire)
    → IsWire w
    → flexcan_tx_ctrl (frame_of w).can_id (payload_of w.dlc) / 2 ^ 16 % 2 ^ 6 ≡ kind_and_length w
unfolding flexcan_tx_ctrl
tx_ctrl_lem w v =
    ap₂ (λ (e r : Bool). ctrl_with e r (payload_of w.dlc) / 2 ^ 16 % 2 ^ 6) (is_extended w v)
      (is_remote w v)
    ∙ ap (λ (n : ℕ). n / 2 ^ 16 % 2 ^ 6)
        (ctrl_fields w.extended w.remote (payload_of w.dlc) (few w.dlc))
    ∙ by_kind w.extended w.remote
  where
    by_kind :
        (e r : Bool)
        → (0xc000000
              + (if e then 0x600000 else 0)
              + (if r then 2 ^ 20 else 0)
              + payload_of w.dlc * 2 ^ 16)
            / 2 ^ 16
            % 2 ^ 6
          ≡ payload_of w.dlc + (if r then 2 ^ 4 else 0) + (if e then 2 ^ 5 else 0)
    by_kind true true = omega (arith, few w.dlc)
    by_kind true false = omega (arith, few w.dlc)
    by_kind false true = omega (arith, few w.dlc)
    by_kind false false = omega (arith, few w.dlc)

-- The identifier word.
abbrev pub id_word : Wire → ℕ
id_word w = if w.extended then w.id else w.id * 2 ^ 18

abbrev id_with : Bool → ℕ → ℕ
id_with e n = if e then bit_and n (2 ^ 29 - 1) else bit_and n (2 ^ 11 - 1) * 2 ^ 18

pub tx_id_lem : (w : Wire) → IsWire w → flexcan_tx_id (frame_of w).can_id ≡ id_word w
unfolding flexcan_tx_id
tx_id_lem w v =
    ap (λ (e : Bool). id_with e (frame_of w).can_id) (is_extended w v)
    ∙ by_kind w.extended w.remote v.fits
  where
    by_kind :
        (e r : Bool)
        → w.id < (if e then 2 ^ 29 else 2 ^ 11)
        → id_with e ((if e then 2 ^ 31 else 0) + (if r then 2 ^ 30 else 0) + w.id)
          ≡ (if e then w.id else w.id * 2 ^ 18)
    by_kind true true h = omega (arith, bit_and_mask 29 (2 ^ 31 + 2 ^ 30 + w.id))
    by_kind true false h = omega (arith, bit_and_mask 29 (2 ^ 31 + 0 + w.id))
    by_kind false true h = omega (arith, bit_and_mask 11 (0 + 2 ^ 30 + w.id))
    by_kind false false h = omega (arith, bit_and_mask 11 (0 + 0 + w.id))
