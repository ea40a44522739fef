-- ===== src/Flexcan/Frames.antt =====
-- Frames in the message buffers: `flexcan_start_xmit` and `flexcan_rx_interrupt` of
-- can/rtcan_flexcan.c.
pub mod Words
pub mod Sent
pub mod Fields
pub mod Roundtrip
use rtcan_bb.Base.{
  ℕ, ◌+◌, ◌*◌, ◌/◌, ◌%◌, ◌^◌, bit_and, bit_or, Bool, true, false, ltb, if◌then◌else◌,
}
use rtcan_bb.Base.Memory.{Bytes, put_byte, store32}
use rtcan_bb.Rtcan.Abi.{CanFrame, can_eff_flag, can_rtr_flag, can_eff_mask, can_sff_mask}
use rtcan_bb.Rtcan.Socket.RbFrame
use rtcan_bb.Rtcan.Socket.{Skb, empty_rb_frame_size}
use rtcan_bb.Rtcan.Device.{Device}
use rtcan_bb.Sja1000.Errors.{has}
use rtcan_bb.Sja1000.Frames.{payload_of}
use rtcan_bb.Flexcan.Regs
use rtcan_bb.Flexcan.{FlexcanPort, mb_ctrl, mb_id, mb_data, bit}

abbrev pub flexcan_tx_buf_id : ℕ
flexcan_tx_buf_id = 8

abbrev pub flexcan_iflag_rx_fifo_available : ℕ
flexcan_iflag_rx_fifo_available = bit 5

abbrev pub flexcan_mb_cnt_code : ℕ → ℕ
flexcan_mb_cnt_code x = bit_and x 0xf * 2 ^ 24

abbrev pub flexcan_mb_cnt_srr : ℕ
flexcan_mb_cnt_srr = bit 22

abbrev pub flexcan_mb_cnt_ide : ℕ
flexcan_mb_cnt_ide = bit 21

abbrev pub flexcan_mb_cnt_rtr : ℕ
flexcan_mb_cnt_rtr = bit 20

-- Four bytes as a word in big-endian order, and a word put into four bytes.
abbrev pub be32 : Bytes → ℕ → ℕ
be32 b i = b i * 2 ^ 24 + b (i + 1) * 2 ^ 16 + b (i + 2) * 2 ^ 8 + b (i + 3)

abbrev pub put_be32 : Bytes → ℕ → ℕ → Bytes
put_be32 b i word =
    put_byte
      (put_byte (put_byte (put_byte b i (word / 2 ^ 24 % 2 ^ 8)) (i + 1) (word / 2 ^ 16 % 2 ^ 8))
        (i + 2) (word / 2 ^ 8 % 2 ^ 8))
      (i + 3) (word % 2 ^ 8)

-- `ctrl` and `can_id` of a transmission, for a length of at most eight.
unfoldable pub flexcan_tx_ctrl : ℕ → ℕ → ℕ
flexcan_tx_ctrl frame_id dlc =
    let ctrl = bit_or (flexcan_mb_cnt_code 0xc) (dlc * 2 ^ 16) in
    let ctrl' =
      (if has frame_id can_eff_flag
        then bit_or ctrl (bit_or flexcan_mb_cnt_ide flexcan_mb_cnt_srr)
        else ctrl) in
    if has frame_id can_rtr_flag then bit_or ctrl' flexcan_mb_cnt_rtr else ctrl'

unfoldable pub flexcan_tx_id : ℕ → ℕ
flexcan_tx_id frame_id =
    if has frame_id can_eff_flag
    then bit_and frame_id can_eff_mask
    else bit_and frame_id can_sff_mask * 2 ^ 18

module _ {B : Type 0} (port : FlexcanPort B) where
  -- `flexcan_start_xmit`: the frame, which the caller keeps, and the hardware. It returns 0.
  unfoldable pub flexcan_start_xmit : CanFrame → B → CanFrame × B
  unfolding flexcan_tx_ctrl flexcan_tx_id
  flexcan_start_xmit frame bus =
      let dlc = payload_of frame.can_dlc in
      let bus1 =
        (if ltb 0 dlc
          then port.writel bus (mb_data flexcan_tx_buf_id 0) (be32 frame.payload 0)
          else bus) in
      let bus2 =
        (if ltb 3 dlc
          then port.writel bus1 (mb_data flexcan_tx_buf_id 1) (be32 frame.payload 4)
          else bus1) in
      let bus3 = port.writel bus2 (mb_id flexcan_tx_buf_id) (flexcan_tx_id frame.can_id) in
      (
        record frame { can_dlc = dlc },
        port.writel bus3 (mb_ctrl flexcan_tx_buf_id) (flexcan_tx_ctrl frame.can_id dlc),
      )

  -- The identifier of a reception, without the remote flag.
  unfoldable pub flexcan_rx_id : ℕ → ℕ → ℕ
  flexcan_rx_id reg_ctrl reg_id =
      if has reg_ctrl flexcan_mb_cnt_ide
      then bit_or (bit_and reg_id can_eff_mask) can_eff_flag
      else bit_and (reg_id / 2 ^ 18) can_sff_mask

  -- The data bytes, always eight of them.
  unfoldable pub flexcan_rx_data : Bytes → B → Bytes × B
  flexcan_rx_data frame bus =
      let (word, bus1) = port.readl bus (mb_data 0 0) in
      let (word', bus2) = port.readl bus1 (mb_data 0 1) in
      (
        put_be32 (put_be32 frame RbFrame.payload_offset word) (RbFrame.payload_offset + 4) word',
        bus2,
      )

  -- `flexcan_rx_interrupt`, on the memory of the local `skb`.
  unfoldable pub flexcan_rx_interrupt : Device → B → Skb → Skb × B
  unfolding flexcan_rx_id flexcan_rx_data
  flexcan_rx_interrupt dev bus skb =
      let (reg_ctrl, bus1) = port.readl bus (mb_ctrl 0) in
      let (reg_id, bus2) = port.readl bus1 (mb_id 0) in
      let can_id = flexcan_rx_id reg_ctrl reg_id in
      let dlc = payload_of (bit_and (reg_ctrl / 2 ^ 16) 0xf) in
      let is_rtr = has reg_ctrl flexcan_mb_cnt_rtr in
      let id = (if is_rtr then bit_or can_id can_rtr_flag else can_id) in
      let head =
        put_byte (store32 skb.rb_frame RbFrame.can_id_offset id) RbFrame.can_dlc_offset dlc in
      let (body, bus3) = (if is_rtr then (head, bus2) else flexcan_rx_data head bus2) in
      (
        record {
          rb_frame_size = (if is_rtr then empty_rb_frame_size else empty_rb_frame_size + dlc);
          rb_frame = put_byte body RbFrame.can_ifindex_offset (dev.ifindex % 2 ^ 8);
        },
        (port.readl (port.writel bus3 Regs.iflag1 flexcan_iflag_rx_fifo_available) Regs.timer).1,
      )
