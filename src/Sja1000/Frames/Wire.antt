-- ===== src/Sja1000/Frames/Wire.antt =====
-- A frame in the registers: what the registers of a chip that stores what is written hold.
use rtcan_bb.Base.{
  ℕ, ◌+◌, ◌*◌, ◌/◌, ◌%◌, ◌^◌, ◌≤◌, ◌<◌, ◌≡◌, ap, ◌∙◌, bit_and, bit_or, Bool, true, false, not,
  arith, ◌==◌, if◌then◌else◌, none, update,
}
use rtcan_bb.Base.Bits.{bit_and_mask, bit_and_power, bit_or_low}
use rtcan_bb.Base.Bits.Shifts.{bit_or-add, bit_or-zero, bit_or_split}
use rtcan_bb.Base.Memory.{Bytes}
use rtcan_bb.Rtcan.Abi.{CanFrame, can_eff_flag, can_rtr_flag}
use rtcan_bb.Sja1000.{Port, sja_fir, sja_data_sff, sja_data_eff}
use rtcan_bb.Sja1000.Frames.{payload_of}

-- Registers that keep what is written.
abbrev pub registers : Port (ℕ → ℕ)
registers = record { read_reg = λ bus reg. (bus reg, bus); write_reg = update; irq_ack = none }

-- A frame as the bus knows it.
pub record Wire : Type 0 where
  pub extended : Bool
  pub remote : Bool
  pub id : ℕ
  pub dlc : ℕ
  pub payload : Bytes

abbrev flag : Bool → ℕ → ℕ
flag b n = if b then n else 0

-- Its identifier with the flags of an application, and its frame information register.
abbrev pub frame_of : Wire → CanFrame
frame_of w = record {
  can_id = flag w.extended (2 ^ 31) + flag w.remote (2 ^ 30) + w.id;
  can_dlc = w.dlc;
  payload = w.payload;
}

abbrev pub fir_of : Wire → ℕ
fir_of w = flag w.extended (2 ^ 7) + flag w.remote (2 ^ 6) + w.dlc

pub record IsWire (w : Wire) : Type 0 where
  pub fits : w.id < (if w.extended then 2 ^ 29 else 2 ^ 11)
  pub coded : w.dlc ≤ 15
  pub bytes : (i : ℕ) → w.payload i < 2 ^ 8

-- A higher bit is there, a lower one is set.
pub set_below :
    (k j x : ℕ)
    → x < 2 ^ j
    → 2 ^ j + x < 2 ^ k
    → 2 ^ j < 2 ^ k
    → bit_or (2 ^ k + x) (2 ^ j) ≡ 2 ^ k + 2 ^ j + x
set_below k j x h h' h'' =
    ap (λ (n : ℕ). bit_or n (2 ^ j)) {x = 2 ^ k + x} {y = 1 * 2 ^ k + x} (omega arith)
    ∙ ap (λ (n : ℕ). bit_or (1 * 2 ^ k + x) n) {x = 2 ^ j} {y = 0 * 2 ^ k + 2 ^ j} (omega arith)
    ∙ bit_or_split k 1 x 0 (2 ^ j) (omega arith) h''
    ∙ omega (arith, ap (λ (n : ℕ). n * 2 ^ k) (bit_or-zero 1), bit_or_low j x h)

id-lt : (w : Wire) → IsWire w → w.id < 2 ^ 29
id-lt w v = ground (arith, v.fits)

-- The flags of the identifier and of the register tell the kind of frame.
pub is_extended :
    (w : Wire) → IsWire w → not (bit_and (frame_of w).can_id can_eff_flag == 0) ≡ w.extended
is_extended w v = ground (arith, bit_and_power 31 (frame_of w).can_id, id-lt w v)

pub is_remote :
    (w : Wire) → IsWire w → not (bit_and (frame_of w).can_id can_rtr_flag == 0) ≡ w.remote
is_remote w v = ground (arith, bit_and_power 30 (frame_of w).can_id, id-lt w v)

pub fir_set :
    (e r : Bool) (dlc : ℕ)
    → dlc ≤ 15
    → (if r
        then bit_or (if e then bit_or dlc (2 ^ 7) else dlc) (2 ^ 6)
        else (if e then bit_or dlc (2 ^ 7) else dlc))
      ≡ flag e (2 ^ 7) + flag r (2 ^ 6) + dlc
fir_set true true dlc h =
    ap (λ (n : ℕ). bit_or n (2 ^ 6)) {x = bit_or dlc (2 ^ 7)} {y = 2 ^ 7 + dlc}
      (omega (arith, bit_or_low 7 dlc (omega arith)))
    ∙ set_below 7 6 dlc (omega arith) (omega arith) (omega arith)
fir_set true false dlc h = omega (arith, bit_or_low 7 dlc (omega arith))
fir_set false true dlc h = omega (arith, bit_or_low 6 dlc (omega arith))
fir_set false false dlc h = omega arith

pub fir_extended : (w : Wire) → IsWire w → not (bit_and (fir_of w) (2 ^ 7) == 0) ≡ w.extended
fir_extended w v = ground (arith, bit_and_power 7 (fir_of w), v.coded)

pub fir_remote : (w : Wire) → IsWire w → not (bit_and (fir_of w) (2 ^ 6) == 0) ≡ w.remote
fir_remote w v = ground (arith, bit_and_power 6 (fir_of w), v.coded)

pub fir_dlc : (w : Wire) → IsWire w → bit_and (fir_of w) 15 ≡ w.dlc
fir_dlc w v = ground (arith, bit_and_mask 4 (fir_of w), v.coded)

-- The identifier from its bytes.
pub eff_joined :
    (a b c d : ℕ)
    → a < 2 ^ 8
    → b < 2 ^ 8
    → c < 2 ^ 8
    → d < 2 ^ 8
    → bit_or (bit_or (bit_or (bit_or (2 ^ 31) (a * 2 ^ 21)) (b * 2 ^ 13)) (c * 2 ^ 5)) (d / 2 ^ 3)
      ≡ 2 ^ 31 + a * 2 ^ 21 + b * 2 ^ 13 + c * 2 ^ 5 + d / 2 ^ 3
eff_joined a b c d ha hb hc hd =
    ap (λ (n : ℕ). bit_or (bit_or (bit_or n (b * 2 ^ 13)) (c * 2 ^ 5)) (d / 2 ^ 3))
      {y = (2 ^ 10 + a) * 2 ^ 21} (bit_or-add 31 1 (a * 2 ^ 21) (omega arith) ∙ omega arith)
    ∙ ap (λ (n : ℕ). bit_or (bit_or n (c * 2 ^ 5)) (d / 2 ^ 3))
        {y = ((2 ^ 10 + a) * 2 ^ 8 + b) * 2 ^ 13}
        (bit_or-add 21 (2 ^ 10 + a) (b * 2 ^ 13) (omega arith) ∙ omega arith)
    ∙ ap (λ (n : ℕ). bit_or n (d / 2 ^ 3)) {y = (((2 ^ 10 + a) * 2 ^ 8 + b) * 2 ^ 8 + c) * 2 ^ 5}
        (bit_or-add 13 ((2 ^ 10 + a) * 2 ^ 8 + b) (c * 2 ^ 5) (omega arith) ∙ omega arith)
    ∙ bit_or-add 5 (((2 ^ 10 + a) * 2 ^ 8 + b) * 2 ^ 8 + c) (d / 2 ^ 3) (omega arith)
    ∙ omega arith

-- The registers hold a frame.
pub record Holds (bus : ℕ → ℕ) (w : Wire) : Type 0 where
  pub fir : bus sja_fir ≡ fir_of w
  pub id_eff :
      w.extended ≡ true
      → (bus 17 ≡ w.id / 2 ^ 21)
        × (bus 18 ≡ w.id / 2 ^ 13 % 2 ^ 8)
        × (bus 19 ≡ w.id / 2 ^ 5 % 2 ^ 8)
        × (bus 20 ≡ w.id % 2 ^ 5 * 2 ^ 3)
  pub id_sff : w.extended ≡ false → (bus 17 ≡ w.id / 2 ^ 3) × (bus 18 ≡ w.id % 2 ^ 3 * 2 ^ 5)
  pub data_bytes :
      w.remote ≡ false
      → (i : ℕ) → i < payload_of w.dlc
      → bus ((if w.extended then sja_data_eff else sja_data_sff) i) ≡ w.payload i
