-- ===== src/Flexcan/Frames/Fields.antt =====
-- The fields that `flexcan_rx_interrupt` (can/rtcan_flexcan.c) takes out of a message buffer.
use rtcan_bb.Base.{
  ℕ, zero, suc, ◌+◌, ◌-◌, ◌*◌, ◌/◌, ◌%◌, ◌^◌, ◌<◌, ◌≡◌, ap, ◌∙◌, bit_and, bit_or, Bool, true, false,
  arith, if◌then◌else◌,
}
use rtcan_bb.Base.Bits.{bit_and_mask, bit_and_power, bit_or_low}
use rtcan_bb.Base.Memory.{Bytes, put_byte, store32}
use rtcan_bb.Rtcan.Socket.{Skb, empty_rb_frame_size}
use rtcan_bb.Rtcan.Device.{Device}
use rtcan_bb.Sja1000.Errors.{has}
use rtcan_bb.Sja1000.Frames.{payload_of}
use rtcan_bb.Sja1000.Frames.Wire.{Wire, IsWire, frame_of, set_below}
use rtcan_bb.Sja1000.Frames.Sent.{wire}
use rtcan_bb.Flexcan.Frames.{be32, put_be32}
use rtcan_bb.Flexcan.Frames.Words.{kind_and_length, id_word, few}

-- The reception, for each outcome of its tests.
abbrev pub id_with : Bool → Bool → ℕ → ℕ
id_with e r reg_id =
    let can_id =
      (if e
        then bit_or (bit_and reg_id (2 ^ 29 - 1)) (2 ^ 31)
        else bit_and (reg_id / 2 ^ 18) (2 ^ 11 - 1)) in
    if r then bit_or can_id (2 ^ 30) else can_id

abbrev pub rx_with : Device → Bool → Bool → ℕ → ℕ → ℕ → ℕ → Skb → Skb
rx_with dev e r dlc reg_id data0 data1 skb =
    let head = put_byte (store32 skb.rb_frame 0 (id_with e r reg_id)) 5 dlc in
    let body = (if r then head else put_be32 (put_be32 head 6 data0) 10 data1) in
    record {
      rb_frame_size = (if r then empty_rb_frame_size else empty_rb_frame_size + dlc);
      rb_frame = put_byte body 4 (dev.ifindex % 2 ^ 8);
    }

-- A frame whose length has been cut to what it carries.
abbrev pub cut : Wire → Wire
cut w = record w { dlc = payload_of w.dlc }

pub ext_lem : (id : ℕ) → id < 2 ^ 29 → bit_or (bit_and id (2 ^ 29 - 1)) (2 ^ 31) ≡ 2 ^ 31 + id
ext_lem id h =
    ap (λ (n : ℕ). bit_or n (2 ^ 31)) {y = id} (omega (arith, bit_and_mask 29 id))
    ∙ omega (arith, bit_or_low 31 id (omega arith))

pub std_lem : (id : ℕ) → id < 2 ^ 11 → bit_and (id * 2 ^ 18 / 2 ^ 18) (2 ^ 11 - 1) ≡ id
std_lem id h = omega (arith, bit_and_mask 11 (id * 2 ^ 18 / 2 ^ 18))

pub id_lem :
    (e r : Bool) (id dlc : ℕ) (payload : Bytes)
    → IsWire (wire e r id dlc payload)
    → id_with e r (id_word (wire e r id dlc payload)) ≡ (frame_of (wire e r id dlc payload)).can_id
id_lem true true id dlc payload v =
    ap (λ (n : ℕ). bit_or n (2 ^ 30)) (ext_lem id v.fits)
    ∙ set_below 31 30 id (omega (arith, v.fits)) (omega (arith, v.fits)) (omega arith)
id_lem true false id dlc payload v = ext_lem id v.fits ∙ omega arith
id_lem false true id dlc payload v =
    ap (λ (n : ℕ). bit_or n (2 ^ 30)) (std_lem id v.fits)
    ∙ omega (arith, bit_or_low 30 id (omega (arith, v.fits)))
id_lem false false id dlc payload v = std_lem id v.fits ∙ omega arith

-- The data bytes.
pub data_lem :
    (head : Bytes) (payload : Bytes) (dlc idx : ℕ)
    → ((i : ℕ) → payload i < 2 ^ 8)
    → (data0 data1 : ℕ) → (0 < payload_of dlc → data0 ≡ be32 payload 0)
    → (4 < payload_of dlc → data1 ≡ be32 payload 4)
    → (i : ℕ) → i < payload_of dlc
    → put_byte (put_be32 (put_be32 head 6 data0) 10 data1) 4 idx (6 + i) ≡ payload i
data_lem head p dlc idx byte data0 data1 h h' zero b =
    omega (arith, h (omega arith), byte 0, byte 1, byte 2, byte 3)
data_lem head p dlc idx byte data0 data1 h h' (suc zero) b =
    omega (arith, h (omega arith), byte 0, byte 1, byte 2, byte 3)
data_lem head p dlc idx byte data0 data1 h h' (suc (suc zero)) b =
    omega (arith, h (omega arith), byte 0, byte 1, byte 2, byte 3)
data_lem head p dlc idx byte data0 data1 h h' (suc (suc (suc zero))) b =
    omega (arith, h (omega arith), byte 0, byte 1, byte 2, byte 3)
data_lem head p dlc idx byte data0 data1 h h' (suc (suc (suc (suc zero)))) b =
    omega (arith, h' b, byte 4, byte 5, byte 6, byte 7)
data_lem head p dlc idx byte data0 data1 h h' (suc (suc (suc (suc (suc zero))))) b =
    omega (arith, h' (omega arith), byte 4, byte 5, byte 6, byte 7)
data_lem head p dlc idx byte data0 data1 h h' (suc (suc (suc (suc (suc (suc zero)))))) b =
    omega (arith, h' (omega arith), byte 4, byte 5, byte 6, byte 7)
data_lem head p dlc idx byte data0 data1 h h' (suc (suc (suc (suc (suc (suc (suc zero))))))) b =
    omega (arith, h' (omega arith), byte 4, byte 5, byte 6, byte 7)
data_lem head p dlc idx byte data0 data1 h h' (suc (suc (suc (suc (suc (suc (suc (suc i)))))))) b =
    absurd (omega (arith, few dlc))

-- What the tests of the reception see.
pub kind_lem :
    (w : Wire) (ctrl : ℕ)
    → ctrl / 2 ^ 16 % 2 ^ 6 ≡ kind_and_length w
    → (has ctrl (2 ^ 21) ≡ w.extended)
      × (has ctrl (2 ^ 20) ≡ w.remote)
      × (payload_of (bit_and (ctrl / 2 ^ 16) 15) ≡ payload_of w.dlc)
kind_lem w ctrl h = (
  ground (arith, bit_and_power 21 ctrl, h, few w.dlc),
  ground (arith, bit_and_power 20 ctrl, h, few w.dlc),
  ap payload_of length ∙ ground arith,
)
  where
    length : bit_and (ctrl / 2 ^ 16) 15 ≡ payload_of w.dlc
    length = bit_and_mask 4 (ctrl / 2 ^ 16) ∙ ground (arith, h, few w.dlc)
