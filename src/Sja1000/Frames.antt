-- ===== src/Sja1000/Frames.antt =====
-- Frames in the registers: `rtcan_sja_rx_interrupt` and `rtcan_sja_start_xmit` of
-- can/sja1000/rtcan_sja1000.c.
pub mod Wire
pub mod Sent
pub mod Roundtrip
use rtcan_bb.Base.{
  ℕ, zero, suc, ◌+◌, ◌-◌, ◌*◌, ◌/◌, ◌%◌, ◌^◌, bit_and, bit_or, Bool, true, false, not, ltb, ◌==◌,
  if◌then◌else◌,
}
use rtcan_bb.Base.Memory.{Bytes, put_byte, store32}
use rtcan_bb.Rtcan.Abi.{CanFrame, can_eff_flag, can_rtr_flag, can_ctrlmode_loopback}
use rtcan_bb.Rtcan.Socket.RbFrame
use rtcan_bb.Rtcan.Socket.{Skb, empty_rb_frame_size}
use rtcan_bb.Rtcan.Device.{Device}
use rtcan_bb.Sja1000.{Port, put, sja_fir, sja_id, sja_data_sff, sja_data_eff, sja_cmr}

-- Bits of the frame information register and of the command register.
abbrev pub sja_fir_dlc_mask : ℕ
sja_fir_dlc_mask = 15

abbrev pub sja_fir_rtr : ℕ
sja_fir_rtr = 2 ^ 6

abbrev pub sja_fir_eff : ℕ
sja_fir_eff = 2 ^ 7

abbrev pub sja_cmr_tr : ℕ
sja_cmr_tr = 1

abbrev pub sja_cmr_rrb : ℕ
sja_cmr_rrb = 2 ^ 2

abbrev pub sja_cmr_srr : ℕ
sja_cmr_srr = 2 ^ 4

-- The number of data bytes for a length code.
abbrev pub payload_of : ℕ → ℕ
payload_of dlc = if ltb 8 dlc then 8 else dlc

module _ {B : Type 0} (port : Port B) where
  -- `for (i = 0; i < size; i++) frame->data[i] = read_reg(…)`, with `n` rounds left from `i` on.
  unfoldable pub read_data : (ℕ → ℕ) → (i n : ℕ) → Bytes → B → Bytes × B
  read_data reg i zero frame bus = (frame, bus)
  read_data reg i (suc n) frame bus =
      let (v, bus') = port.read_reg bus (reg i) in
      read_data reg (suc i) n (put_byte frame (RbFrame.payload_offset + i) v) bus'

  unfoldable pub write_data : (ℕ → ℕ) → (i n : ℕ) → Bytes → B → B
  write_data reg i zero payload bus = bus
  write_data reg i (suc n) payload bus =
      write_data reg (suc i) n payload (put port bus (reg i) (payload i))

  -- The identifier, with the hardware after the reads.
  unfoldable pub read_eff : B → ℕ × B
  read_eff bus =
      let (id1, bus1) = port.read_reg bus (sja_id 1) in
      let (id2, bus2) = port.read_reg bus1 (sja_id 2) in
      let (id3, bus3) = port.read_reg bus2 (sja_id 3) in
      let (id4, bus4) = port.read_reg bus3 (sja_id 4) in
      (
        bit_or (bit_or (bit_or (bit_or can_eff_flag (id1 * 2 ^ 21)) (id2 * 2 ^ 13)) (id3 * 2 ^ 5))
            (id4 / 2 ^ 3),
        bus4,
      )

  unfoldable pub read_sff : B → ℕ × B
  read_sff bus =
      let (id1, bus1) = port.read_reg bus (sja_id 1) in
      let (id2, bus2) = port.read_reg bus1 (sja_id 2) in (bit_or (id1 * 2 ^ 3) (id2 / 2 ^ 5), bus2)

  -- `rtcan_sja_rx_interrupt`, on the memory of the local `skb`.
  unfoldable pub rx_interrupt : Device → B → Skb → Skb × B
  unfolding read_data read_eff read_sff
  rx_interrupt dev bus skb =
      let (fir, bus1) = port.read_reg bus sja_fir in
      let dlc = bit_and fir sja_fir_dlc_mask in
      let is_eff = not (bit_and fir sja_fir_eff == 0) in
      let is_rtr = not (bit_and fir sja_fir_rtr == 0) in
      let (can_id, bus2) = (if is_eff then read_eff bus1 else read_sff bus1) in
      let head = put_byte skb.rb_frame RbFrame.can_dlc_offset dlc in
      let (body, bus3) =
        (if is_rtr
          then (head, bus2)
          else read_data (if is_eff then sja_data_eff else sja_data_sff) 0 (payload_of dlc) head
              bus2) in
      let id = (if is_rtr then bit_or can_id can_rtr_flag else can_id) in
      (
        record {
          rb_frame_size =
              (if is_rtr then empty_rb_frame_size else empty_rb_frame_size + payload_of dlc);
          rb_frame =
              put_byte (store32 body RbFrame.can_id_offset id) RbFrame.can_ifindex_offset
                (dev.ifindex % 2 ^ 8);
        },
        put port bus3 sja_cmr sja_cmr_rrb,
      )

  unfoldable pub write_eff : ℕ → B → B
  write_eff can_id bus =
      put port
        (put port
          (put port (put port bus (sja_id 1) (can_id / 2 ^ 21)) (sja_id 2) (can_id / 2 ^ 13))
          (sja_id 3) (can_id / 2 ^ 5))
        (sja_id 4) (can_id * 2 ^ 3)

  unfoldable pub write_sff : ℕ → B → B
  write_sff can_id bus =
      put port (put port bus (sja_id 1) (can_id / 2 ^ 3)) (sja_id 2) (can_id * 2 ^ 5)

  -- `rtcan_sja_start_xmit`: it returns 0.
  unfoldable pub start_xmit : Device → CanFrame → B → B
  unfolding write_data write_eff write_sff
  start_xmit dev frame bus =
      let is_eff = not (bit_and frame.can_id can_eff_flag == 0) in
      let is_rtr = not (bit_and frame.can_id can_rtr_flag == 0) in
      let dlc = frame.can_dlc % 2 ^ 8 in
      let fir = (if is_eff then bit_or dlc sja_fir_eff else dlc) in
      let fir' = (if is_rtr then bit_or fir sja_fir_rtr else fir) in
      let bus1 = (if is_eff then write_eff frame.can_id bus else write_sff frame.can_id bus) in
      let bus2 =
        (if is_rtr
          then bus1
          else write_data (if is_eff then sja_data_eff else sja_data_sff) 0 (payload_of dlc)
              frame.payload bus1) in
      let bus3 = put port bus2 sja_fir fir' in
      if bit_and dev.ctrl_mode can_ctrlmode_loopback == 0
      then put port bus3 sja_cmr sja_cmr_tr
      else put port bus3 sja_cmr sja_cmr_srr
