-- ===== src/Mscan/Frames.antt =====
-- Frames in the message buffers: `rtcan_mscan_rx_interrupt` and `rtcan_mscan_start_xmit` of
-- can/mscan/rtcan_mscan.c.
pub mod Fields
pub mod Data
pub mod Sent
pub mod Received
pub mod Roundtrip
use rtcan_bb.Base.{
  ℕ, zero, suc, ◌+◌, ◌*◌, ◌/◌, ◌%◌, ◌^◌, bit_and, bit_or, Bool, true, false, not, ◌==◌,
  if◌then◌else◌,
}
use rtcan_bb.Base.Memory.{Bytes, put_byte, store32}
use rtcan_bb.Rtcan.Abi.{CanFrame, can_eff_flag, can_rtr_flag, Ret, ok, err, eio}
use rtcan_bb.Rtcan.Socket.RbFrame
use rtcan_bb.Rtcan.Socket.{Skb, empty_rb_frame_size}
use rtcan_bb.Rtcan.Device.{Device}
use rtcan_bb.Sja1000.Errors.{has}
use rtcan_bb.Sja1000.Frames.{payload_of}
use rtcan_bb.Mscan.{MscanPort, idr, dlr, tbpr, dsr_of, canrxfg, cantxfg, cantflg, cantier, cantbsel}

abbrev pub mscan_buf_std_rtr : ℕ
mscan_buf_std_rtr = 0x10

abbrev pub mscan_buf_ext_rtr : ℕ
mscan_buf_ext_rtr = 0x01

abbrev pub mscan_buf_extended : ℕ
mscan_buf_extended = 0x08

-- Bits of the transmitter flag register and of its interrupt enable register.
abbrev pub mscan_txe0 : ℕ
mscan_txe0 = 1

abbrev pub mscan_txie0 : ℕ
mscan_txie0 = 1

-- The byte of the message buffer with the remote bit, and the bit.
abbrev pub rtr_idr : Bool → ℕ
rtr_idr is_eff = if is_eff then 5 else 1

abbrev pub rtr_bit : Bool → ℕ
rtr_bit is_eff = if is_eff then mscan_buf_ext_rtr else mscan_buf_std_rtr

module _ {B : Type 0} (port : MscanPort B) where
  -- The loops over the data bytes, with `n` rounds left from `i` on.
  unfoldable pub mscan_read_data : (i n : ℕ) → Bytes → B → Bytes × B
  mscan_read_data i zero frame bus = (frame, bus)
  mscan_read_data i (suc n) frame bus =
      let (v, bus') = port.in_8 bus (dsr_of canrxfg i) in
      mscan_read_data (suc i) n (put_byte frame (RbFrame.payload_offset + i) v) bus'

  unfoldable pub mscan_write_data : (i n : ℕ) → Bytes → B → B
  mscan_write_data i zero payload bus = bus
  mscan_write_data i (suc n) payload bus =
      mscan_write_data (suc i) n payload (port.out_8 bus (dsr_of cantxfg i) (payload i))

  -- The identifier, with the hardware after the reads.
  unfoldable pub mscan_read_ext : B → ℕ × B
  mscan_read_ext bus =
      let (id0, bus1) = port.in_8 bus (idr canrxfg 0) in
      let (id1, bus2) = port.in_8 bus1 (idr canrxfg 1) in
      let (id1', bus3) = port.in_8 bus2 (idr canrxfg 1) in
      let (id4, bus4) = port.in_8 bus3 (idr canrxfg 4) in
      let (id5, bus5) = port.in_8 bus4 (idr canrxfg 5) in
      let upper = bit_or (id0 * 2 ^ 21) (bit_and id1 0xe0 * 2 ^ 13) in
      let lower = bit_or (bit_or upper (bit_and id1' 0x07 * 2 ^ 15)) (id4 * 2 ^ 7) in
      (bit_or (bit_or lower (id5 / 2)) can_eff_flag, bus5)

  unfoldable pub mscan_read_std : B → ℕ × B
  mscan_read_std bus =
      let (id0, bus1) = port.in_8 bus (idr canrxfg 0) in
      let (id1, bus2) = port.in_8 bus1 (idr canrxfg 1) in (bit_or (id0 * 2 ^ 3) (id1 / 2 ^ 5), bus2)

  -- `rtcan_mscan_rx_interrupt`, on the memory of the local `skb`.
  unfoldable pub mscan_rx_interrupt : Device → B → Skb → Skb × B
  unfolding mscan_read_data mscan_read_ext mscan_read_std
  mscan_rx_interrupt dev bus skb =
      let (length, bus1) = port.in_8 bus (dlr canrxfg) in
      let dlc = bit_and length 0x0f in
      let head = put_byte skb.rb_frame RbFrame.can_dlc_offset dlc in
      let (kind, bus2) = port.in_8 bus1 (idr canrxfg 1) in
      let is_eff = has kind mscan_buf_extended in
      let (can_id, bus3) = (if is_eff then mscan_read_ext bus2 else mscan_read_std bus2) in
      let (remote, bus4) = port.in_8 bus3 (idr canrxfg (rtr_idr is_eff)) in
      let is_rtr = has remote (rtr_bit is_eff) in
      let (body, bus5) =
        (if is_rtr then (head, bus4) else mscan_read_data 0 (payload_of dlc) head bus4) in
      let id = (if is_rtr then bit_or can_id can_rtr_flag else can_id) in
      (
        record {
          rb_frame_size =
              (if is_rtr then empty_rb_frame_size else empty_rb_frame_size + payload_of dlc);
          rb_frame =
              put_byte (store32 body RbFrame.can_id_offset id) RbFrame.can_ifindex_offset
                (dev.ifindex % 2 ^ 8);
        },
        bus5,
      )

  -- The identifier in the transmit buffer.
  unfoldable pub mscan_write_ext : ℕ → B → B
  mscan_write_ext id bus =
      let bus1 = port.out_8 bus (idr cantxfg 0) (bit_and id 0x1fe00000 / 2 ^ 21) in
      let second =
        bit_or (bit_or (bit_and id 0x001c0000 / 2 ^ 13) (bit_and id 0x00038000 / 2 ^ 15)) 0x18 in
      let bus2 = port.out_8 bus1 (idr cantxfg 1) second in
      let bus3 = port.out_8 bus2 (idr cantxfg 4) (bit_and id 0x00007f80 / 2 ^ 7) in
      port.out_8 bus3 (idr cantxfg 5) (bit_and id 0x0000007f * 2)

  unfoldable pub mscan_write_std : ℕ → B → B
  mscan_write_std id bus =
      let bus1 = port.out_8 bus (idr cantxfg 0) (bit_and id 0x000007f8 / 2 ^ 3) in
      port.out_8 bus1 (idr cantxfg 1) (bit_and id 0x00000007 * 2 ^ 5)

  -- What follows the identifier: the remote bit, or the data bytes.
  unfoldable pub mscan_write_body : (is_eff is_rtr : Bool) → ℕ → Bytes → B → B
  unfolding mscan_write_data
  mscan_write_body is_eff is_rtr size payload bus =
      let reg = idr cantxfg (rtr_idr is_eff) in
      if is_rtr
      then port.setbits8 bus reg (rtr_bit is_eff)
      else mscan_write_data 0 size payload (port.clrbits8 bus reg (rtr_bit is_eff))

  -- The whole buffer.
  unfoldable pub mscan_write_frame : CanFrame → B → B
  unfolding mscan_write_ext mscan_write_std mscan_write_body
  mscan_write_frame frame bus =
      let is_eff = has frame.can_id can_eff_flag in
      let size = payload_of (frame.can_dlc % 2 ^ 8) in
      let bus1 =
        (if is_eff then mscan_write_ext frame.can_id bus else mscan_write_std frame.can_id bus) in
      let bus2 = mscan_write_body is_eff (has frame.can_id can_rtr_flag) size frame.payload bus1 in
      port.out_8 (port.out_8 bus2 (dlr cantxfg) (frame.can_dlc % 2 ^ 8)) (tbpr cantxfg) 0

  -- `rtcan_mscan_start_xmit`
  unfoldable pub mscan_start_xmit : CanFrame → B → Ret × B
  unfolding mscan_write_frame
  mscan_start_xmit frame bus =
      let (flags, bus1) = port.in_8 bus cantflg in
      let bus2 = mscan_write_frame frame (port.out_8 bus1 cantbsel mscan_txe0) in
      let bus3 = port.out_8 bus2 cantflg mscan_txe0 in
      if not (has flags mscan_txe0)
      then (err eio, bus1)
      else (ok 0, port.setbits8 bus3 cantier mscan_txie0)
