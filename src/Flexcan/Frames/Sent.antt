-- ===== src/Flexcan/Frames/Sent.antt =====
-- What `flexcan_start_xmit` (can/rtcan_flexcan.c) leaves in the transmit buffer.
use rtcan_bb.Base.{ℕ, ◌/◌, ◌%◌, ◌^◌, ◌<◌, ◌≡◌, arith}
use rtcan_bb.Sja1000.Frames.{payload_of}
use rtcan_bb.Sja1000.Frames.Wire.{Wire, IsWire, frame_of}
use rtcan_bb.Flexcan.{flexcan_memory}
use rtcan_bb.Flexcan.Frames.{be32, flexcan_start_xmit}
use rtcan_bb.Flexcan.Frames.Words.{kind_and_length, id_word, tx_ctrl_lem, tx_id_lem}

-- A message buffer, given by its four words, holds a frame: as far as a receiver looks at it.
pub record IsMailed (ctrl id data0 data1 : ℕ) (w : Wire) : Type 0 where
  pub kind : ctrl / 2 ^ 16 % 2 ^ 6 ≡ kind_and_length w
  pub identifier : id ≡ id_word w
  pub low : 0 < payload_of w.dlc → data0 ≡ be32 w.payload 0
  pub high : 4 < payload_of w.dlc → data1 ≡ be32 w.payload 4

pub start_xmit-IsMailed :
    (w : Wire) (bus : ℕ → ℕ)
    → IsWire w
    → IsMailed
        ((flexcan_start_xmit flexcan_memory (frame_of w) bus).1 0x100)
        ((flexcan_start_xmit flexcan_memory (frame_of w) bus).1 0x104)
        ((flexcan_start_xmit flexcan_memory (frame_of w) bus).1 0x108)
        ((flexcan_start_xmit flexcan_memory (frame_of w) bus).1 0x10c)
        w
unfolding flexcan_start_xmit
start_xmit-IsMailed w bus v = record {
  kind = tx_ctrl_lem w v;
  identifier = tx_id_lem w v;
  low = λ h. ground (arith, h);
  high = λ h. ground (arith, h);
}
