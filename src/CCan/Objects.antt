-- ===== src/CCan/Objects.antt =====
-- Message objects and the interface registers that reach them, of rtcan_c_can.c.
pub mod Sent
use rtcan_bb.Base.{
  ℕ, zero, suc, ◌+◌, ◌-◌, ◌*◌, ◌/◌, ◌%◌, ◌^◌, bit_and, bit_or, Bool, true, false, not, ltb, ◌==◌,
  if◌then◌else◌,
}
use rtcan_bb.Base.Memory.{Bytes, put_byte, store32}
use rtcan_bb.Rtcan.Abi.{CanFrame, can_eff_flag, can_rtr_flag, can_eff_mask, can_sff_mask}
use rtcan_bb.Rtcan.ErrorFrame.{can_err_dlc}
use rtcan_bb.Rtcan.Socket.RbFrame
use rtcan_bb.Rtcan.Socket.{Skb, empty_rb_frame_size}
use rtcan_bb.CCan.{
  CPort, comreq_reg, commsk_reg, mask1_reg, mask2_reg, arb1_reg, arb2_reg, msgctrl_reg, data1_reg,
  c_can_write, c_can_msg_obj_rx_first, c_can_msg_obj_rx_last, c_can_msg_rx_low_last,
  c_can_no_of_objects,
}

-- IF_COMM_CONTROL, IF_COMM_ARB, IF_COMM_ALL and IF_COMM_ALL without IF_COMM_TXRQST.
abbrev pub if_comm_control : ℕ
if_comm_control = 2 ^ 4

abbrev pub if_comm_arb : ℕ
if_comm_arb = 2 ^ 5

abbrev pub if_comm_all : ℕ
if_comm_all = 2 ^ 6 + 2 ^ 5 + 2 ^ 4 + 2 ^ 2 + 2 ^ 1 + 2 ^ 0

abbrev pub if_comm_rx : ℕ
if_comm_rx = 2 ^ 6 + 2 ^ 5 + 2 ^ 4 + 2 ^ 1 + 2 ^ 0

-- IF_ARB_MSGVAL, IF_ARB_MSGXTD and IF_ARB_TRANSMIT.
abbrev pub if_arb_msgval : ℕ
if_arb_msgval = 2 ^ 15

abbrev pub if_arb_msgxtd : ℕ
if_arb_msgxtd = 2 ^ 14

abbrev pub if_arb_transmit : ℕ
if_arb_transmit = 2 ^ 13

-- IFX_WRITE_LOW_16BIT and IFX_WRITE_HIGH_16BIT
abbrev pub ifx_write_low_16bit : ℕ → ℕ
ifx_write_low_16bit x = bit_and x 0xffff

abbrev pub ifx_write_high_16bit : ℕ → ℕ
ifx_write_high_16bit x = bit_and x 0xffff0000 / 2 ^ 16

-- `get_can_dlc`
abbrev pub get_can_dlc : ℕ → ℕ
get_can_dlc dlc = if ltb dlc 8 then dlc else 8

-- The identifier in the arbitration registers, and their flags.
unfoldable pub arb_id : ℕ → ℕ
arb_id can_id =
    if bit_and can_id can_eff_flag == 0
    then bit_and can_id can_sff_mask * 2 ^ 18
    else bit_and can_id can_eff_mask

unfoldable pub arb_flags : ℕ → ℕ
arb_flags can_id =
    let transmit = (if bit_and can_id can_rtr_flag == 0 then if_arb_transmit else 0) in
    let extended =
      (if bit_and can_id can_eff_flag == 0 then transmit else bit_or transmit if_arb_msgxtd) in
    bit_or extended if_arb_msgval

module _ {B : Type 0} (port : CPort B) where
  -- The loop of `c_can_msg_obj_is_busy` with `count` reads left: whether it ran out.
  unfoldable pub c_can_msg_obj_is_busy : ℕ → ℕ → B → Bool × B
  c_can_msg_obj_is_busy iface zero bus = (true, bus)
  c_can_msg_obj_is_busy iface (suc count) bus =
      let (comreq, bus') = port.read_reg bus (comreq_reg iface) in
      let rest = c_can_msg_obj_is_busy iface count bus' in
      if bit_and comreq (2 ^ 15) == 0 then (false, bus') else rest

  -- `c_can_object_get` and `c_can_object_put`. What runs out is only reported.
  unfoldable pub c_can_object_get : (iface objno mask : ℕ) → B → B
  unfolding c_can_msg_obj_is_busy
  c_can_object_get iface objno mask bus =
      let masked = c_can_write port (commsk_reg iface) (ifx_write_low_16bit mask) bus in
      (c_can_msg_obj_is_busy iface 6
        (c_can_write port (comreq_reg iface) (ifx_write_low_16bit objno) masked)).1

  unfoldable pub c_can_object_put : (iface objno mask : ℕ) → B → B
  unfolding c_can_msg_obj_is_busy
  c_can_object_put iface objno mask bus =
      let masked =
        c_can_write port (commsk_reg iface) (bit_or (2 ^ 7) (ifx_write_low_16bit mask)) bus in
      (c_can_msg_obj_is_busy iface 6
        (c_can_write port (comreq_reg iface) (ifx_write_low_16bit objno) masked)).1

  -- `for (i = 0; i < dlc; i += 2)`, with `n` words left from word `k` on. The payload is the memory
  -- from `frame->data` on: with a length code above 8 the loop reads behind the array of eight bytes,
  -- and for the first interface it writes the registers behind DATA4, the command registers of the
  -- second one.
  unfoldable pub write_words : (iface k n : ℕ) → Bytes → B → B
  write_words iface k zero payload bus = bus
  write_words iface k (suc n) payload bus = write_words iface (suc k) n payload (
      c_can_write port (data1_reg iface + k)
        (bit_or (payload (2 * k)) (payload (2 * k + 1) * 2 ^ 8)) bus)

  -- `c_can_write_msg_object`: IF_MCONT_TXIE | IF_MCONT_TXRQST | IF_MCONT_EOB.
  unfoldable pub c_can_write_msg_object : ℕ → CanFrame → ℕ → B → B
  unfolding arb_id arb_flags write_words c_can_object_put
  c_can_write_msg_object iface frame objno bus =
      let id = arb_id frame.can_id in
      let low = c_can_write port (arb1_reg iface) (ifx_write_low_16bit id) bus in
      let high =
        c_can_write port (arb2_reg iface)
          (bit_or (arb_flags frame.can_id) (ifx_write_high_16bit id)) low in
      let filled = write_words iface 0 ((frame.can_dlc + 1) / 2) frame.payload high in
      c_can_object_put iface objno if_comm_all (
        c_can_write port (msgctrl_reg iface) (bit_or (2 ^ 11 + 2 ^ 8 + 2 ^ 7) frame.can_dlc) filled)

  -- `c_can_mark_rx_msg_obj`: without IF_MCONT_MSGLST and IF_MCONT_INTPND.
  unfoldable pub c_can_mark_rx_msg_obj : (iface ctrl_mask obj : ℕ) → B → B
  unfolding c_can_object_put
  c_can_mark_rx_msg_obj iface ctrl_mask obj bus = c_can_object_put iface obj if_comm_control (
      c_can_write port (msgctrl_reg iface) (bit_and ctrl_mask (2 ^ 32 - 1 - (2 ^ 14 + 2 ^ 13))) bus)

  -- `c_can_activate_rx_msg_obj`: without IF_MCONT_NEWDAT too.
  unfoldable pub c_can_activate_rx_msg_obj : (iface ctrl_mask obj : ℕ) → B → B
  unfolding c_can_object_put
  c_can_activate_rx_msg_obj iface ctrl_mask obj bus = c_can_object_put iface obj if_comm_control (
      c_can_write port (msgctrl_reg iface)
        (bit_and ctrl_mask (2 ^ 32 - 1 - (2 ^ 15 + 2 ^ 14 + 2 ^ 13))) bus)

  -- `n` message objects from `obj` on, one after the other.
  unfoldable pub each_object : (ℕ → B → B) → (obj n : ℕ) → B → B
  each_object f obj zero bus = bus
  each_object f obj (suc n) bus = each_object f (suc obj) n (f obj bus)

  -- `c_can_activate_all_lower_rx_msg_obj`
  unfoldable pub c_can_activate_all_lower_rx_msg_obj : (iface ctrl_mask : ℕ) → B → B
  unfolding each_object c_can_activate_rx_msg_obj
  c_can_activate_all_lower_rx_msg_obj iface ctrl_mask bus =
      each_object (c_can_activate_rx_msg_obj iface ctrl_mask) c_can_msg_obj_rx_first
        c_can_msg_rx_low_last bus

  -- `for (i = 0; i < dlc; i += 2)` of a reception.
  unfoldable pub read_words : (iface k n : ℕ) → Bytes → B → Bytes × B
  read_words iface k zero frame bus = (frame, bus)
  read_words iface k (suc n) frame bus =
      let (word, bus') = port.read_reg bus (data1_reg iface + k) in
      read_words iface (suc k) n
        (put_byte (put_byte frame (RbFrame.payload_offset + 2 * k) (word % 2 ^ 8))
          (RbFrame.payload_offset + (2 * k + 1)) (word / 2 ^ 8))
        bus'

  -- `c_can_read_msg_object`, on the caller's `skb`.
  unfoldable pub c_can_read_msg_object : (iface ctrl : ℕ) → Skb → B → Skb × B
  unfolding read_words
  c_can_read_msg_object iface ctrl skb bus =
      let dlc = get_can_dlc (bit_and ctrl 0x0f) in
      let (flags, bus1) = port.read_reg bus (arb2_reg iface) in
      let (arb1, bus2) = port.read_reg bus1 (arb1_reg iface) in
      let val = bit_or arb1 (flags * 2 ^ 16) in
      let id =
        (if bit_and flags if_arb_msgxtd == 0
          then bit_and (val / 2 ^ 18) can_sff_mask
          else bit_or (bit_and val can_eff_mask) can_eff_flag) in
      let is_rtr = not (bit_and flags if_arb_transmit == 0) in
      let head =
        store32 (put_byte skb.rb_frame RbFrame.can_dlc_offset dlc) RbFrame.can_id_offset
          (if is_rtr then bit_or id can_rtr_flag else id) in
      let (frame, bus3) =
        (if is_rtr then (head, bus2) else read_words iface 0 ((dlc + 1) / 2) head bus2) in
      (record { rb_frame_size = empty_rb_frame_size + can_err_dlc; rb_frame = frame }, bus3)

  -- `c_can_setup_receive_object`
  unfoldable pub c_can_setup_receive_object : (iface mask id mcont objno : ℕ) → B → B
  unfolding c_can_object_put
  c_can_setup_receive_object iface mask id mcont objno bus =
      let masked =
        c_can_write port (mask2_reg iface) (bit_or (ifx_write_high_16bit mask) (2 ^ 13))
          (c_can_write port (mask1_reg iface) (ifx_write_low_16bit mask) bus) in
      let arbitrated =
        c_can_write port (arb2_reg iface) (bit_or if_arb_msgval (ifx_write_high_16bit id))
          (c_can_write port (arb1_reg iface) (ifx_write_low_16bit id) masked) in
      c_can_object_put iface objno if_comm_rx
        (c_can_write port (msgctrl_reg iface) mcont arbitrated)

  -- `c_can_inval_msg_object`
  unfoldable pub c_can_inval_msg_object : (iface objno : ℕ) → B → B
  unfolding c_can_object_put
  c_can_inval_msg_object iface objno bus =
      c_can_object_put iface objno (bit_or if_comm_arb if_comm_control) (
        c_can_write port (msgctrl_reg iface) 0
          (c_can_write port (arb2_reg iface) 0 (c_can_write port (arb1_reg iface) 0 bus)))

  -- `c_can_configure_msg_objects`: IF_MCONT_UMASK | IF_MCONT_RXIE, and IF_MCONT_EOB for the last.
  unfoldable pub c_can_configure_msg_objects : B → B
  unfolding each_object c_can_inval_msg_object c_can_setup_receive_object
  c_can_configure_msg_objects bus =
      let cleared =
        each_object (c_can_inval_msg_object 0) c_can_msg_obj_rx_first c_can_no_of_objects bus in
      c_can_setup_receive_object 0 0 0 (2 ^ 12 + 2 ^ 10 + 2 ^ 7) c_can_msg_obj_rx_last (
        each_object (c_can_setup_receive_object 0 0 0 (2 ^ 12 + 2 ^ 10)) c_can_msg_obj_rx_first 15
          cleared)
