-- ===== src/Flexcan/Errors.antt =====
-- Error interrupts: `flexcan_do_bus_err`, `flexcan_get_state`, `flexcan_do_state` and
-- `flexcan_err_interrupt` of can/rtcan_flexcan.c.
pub mod Index
use rtcan_bb.Base.{
  ℕ, ◌+◌, ◌-◌, ◌*◌, ◌/◌, ◌%◌, ◌^◌, bit_and, bit_or, Bool, true, false, not, ◌&&◌, ltb, leb, ◌==◌,
  if◌then◌else◌,
}
use rtcan_bb.Base.Memory.{Bytes}
use rtcan_bb.Rtcan.Abi.{CanState}
use rtcan_bb.Rtcan.ErrorFrame.{
  can_err_dlc, can_err_crtl, can_err_prot, can_err_busoff, can_err_buserror, can_err_ack,
  can_err_crtl_rx_overflow, can_err_crtl_rx_warning, can_err_crtl_tx_warning,
  can_err_crtl_rx_passive, can_err_crtl_tx_passive, can_err_prot_bit, can_err_prot_form,
  can_err_prot_stuff, can_err_prot_bit0, can_err_prot_bit1,
}
use rtcan_bb.Rtcan.Socket.{Skb, empty_rb_frame_size, sem_destroy}
use rtcan_bb.Sja1000.Errors.{has, add_id, put_data, or_data, blank_error, state_number}
use rtcan_bb.Flexcan.Regs
use rtcan_bb.Flexcan.{
  FlexcanPort, Flexcan, bit, flexcan_read, flexcan_write, flexcan_set_state, flexcan_call_sem,
}

-- Bits of the error and status register.
abbrev pub flexcan_esr_bit1_err : ℕ
flexcan_esr_bit1_err = bit 15

abbrev pub flexcan_esr_bit0_err : ℕ
flexcan_esr_bit0_err = bit 14

abbrev pub flexcan_esr_ack_err : ℕ
flexcan_esr_ack_err = bit 13

abbrev pub flexcan_esr_crc_err : ℕ
flexcan_esr_crc_err = bit 12

abbrev pub flexcan_esr_frm_err : ℕ
flexcan_esr_frm_err = bit 11

abbrev pub flexcan_esr_stf_err : ℕ
flexcan_esr_stf_err = bit 10

abbrev pub flexcan_esr_warnings : ℕ
flexcan_esr_warnings = bit 9 + bit 8

abbrev pub flexcan_esr_flt_conf_mask : ℕ
flexcan_esr_flt_conf_mask = 3 * 2 ^ 4

abbrev pub flexcan_esr_flt_conf_passive : ℕ
flexcan_esr_flt_conf_passive = 1 * 2 ^ 4

abbrev pub flexcan_esr_err_bus : ℕ
flexcan_esr_err_bus = bit 15 + bit 14 + bit 13 + bit 12 + bit 11 + bit 10

abbrev pub flexcan_esr_all_int : ℕ
flexcan_esr_all_int = bit 17 + bit 16 + bit 2 + bit 1

abbrev pub flexcan_iflag_rx_fifo_overflow : ℕ
flexcan_iflag_rx_fifo_overflow = bit 7

-- CAN_ERR_PROT_ACTIVE, CAN_ERR_PROT_LOC_ACK and CAN_ERR_PROT_LOC_CRC_SEQ.
abbrev pub can_err_prot_active : ℕ
can_err_prot_active = 0x40

abbrev pub can_err_prot_loc_ack_slot : ℕ
can_err_prot_loc_ack_slot = 0x19

abbrev pub can_err_prot_loc_crc_seq : ℕ
can_err_prot_loc_crc_seq = 0x08

-- A change under a test of a bit.
abbrev pub when : ℕ → ℕ → (Bytes → Bytes) → Bytes → Bytes
when reg mask change frame = if has reg mask then change frame else frame

-- `flexcan_do_bus_err`
unfoldable pub flexcan_do_bus_err : ℕ → Bytes → Bytes
flexcan_do_bus_err esr frame =
    let frame1 = add_id (bit_or can_err_prot can_err_buserror) frame in
    let frame2 = when esr flexcan_esr_bit1_err (or_data 2 can_err_prot_bit1) frame1 in
    let frame3 = when esr flexcan_esr_bit0_err (or_data 2 can_err_prot_bit0) frame2 in
    let frame4 =
      when esr flexcan_esr_ack_err (λ f. or_data 3 can_err_prot_loc_ack_slot (add_id can_err_ack f))
        frame3 in
    let frame5 =
      when esr flexcan_esr_crc_err
        (λ f. or_data 3 can_err_prot_loc_crc_seq (or_data 2 can_err_prot_bit f)) frame4 in
    let frame6 = when esr flexcan_esr_frm_err (or_data 2 can_err_prot_form) frame5 in
    when esr flexcan_esr_stf_err (or_data 2 can_err_prot_stuff) frame6

-- `flexcan_get_state`
unfoldable pub flexcan_get_state : ℕ → CanState
flexcan_get_state esr =
    let flt = bit_and esr flexcan_esr_flt_conf_mask in
    if flt == 0
    then (if has esr flexcan_esr_warnings then CanState.bus_warning else CanState.active)
    else (if flt == flexcan_esr_flt_conf_passive then CanState.bus_passive else CanState.bus_off)

-- `new_state >= from && new_state <= CAN_STATE_BUS_OFF`
abbrev pub is_between : CanState → CanState → Bool
is_between low state =
    leb (state_number low) (state_number state)
    && leb (state_number state) (state_number CanState.bus_off)

-- The branches of the first switch of `flexcan_do_state`; the first one falls into the second.
unfoldable pub flexcan_note_passive : Bool → CanState → Bytes → Bytes
flexcan_note_passive tx_worse new_state frame =
    if is_between CanState.bus_passive new_state
    then put_data 1 (if tx_worse then can_err_crtl_tx_passive else can_err_crtl_rx_passive)
        (add_id can_err_crtl frame)
    else frame

unfoldable pub flexcan_note_warning : Bool → CanState → Bytes → Bytes
flexcan_note_warning tx_worse new_state frame =
    if is_between CanState.bus_warning new_state
    then put_data 1 (if tx_worse then can_err_crtl_tx_warning else can_err_crtl_rx_warning)
        (add_id can_err_crtl frame)
    else frame

unfoldable pub flexcan_leave_state : CanState → Bool → CanState → Bytes → Bytes
unfolding flexcan_note_passive flexcan_note_warning
flexcan_leave_state CanState.active tx_worse new_state frame =
    flexcan_note_passive tx_worse new_state (flexcan_note_warning tx_worse new_state frame)
flexcan_leave_state CanState.bus_warning tx_worse new_state frame =
    flexcan_note_passive tx_worse new_state frame
flexcan_leave_state CanState.bus_passive tx_worse new_state frame = frame
flexcan_leave_state CanState.bus_off tx_worse new_state frame = frame
flexcan_leave_state CanState.scanning_baudrate tx_worse new_state frame = frame
flexcan_leave_state CanState.stopped tx_worse new_state frame = frame
flexcan_leave_state CanState.sleeping tx_worse new_state frame = frame

-- The second switch.
unfoldable pub flexcan_enter_state : {B : Type 0} → CanState → Bytes × Flexcan B → Bytes × Flexcan B
flexcan_enter_state CanState.active (frame, st) =
    (put_data 2 can_err_prot_active (add_id can_err_prot frame), st)
flexcan_enter_state CanState.bus_off (frame, st) =
    (add_id can_err_busoff frame, flexcan_call_sem st sem_destroy)
flexcan_enter_state CanState.bus_warning r = r
flexcan_enter_state CanState.bus_passive r = r
flexcan_enter_state CanState.scanning_baudrate r = r
flexcan_enter_state CanState.stopped r = r
flexcan_enter_state CanState.sleeping r = r

abbrev pub is_same_state : CanState → CanState → Bool
is_same_state a b = state_number a == state_number b

module _ {B : Type 0} (port : FlexcanPort B) where
  -- `flexcan_do_state`
  unfoldable pub flexcan_do_state : CanState → Bytes → Flexcan B → Bytes × Flexcan B
  unfolding flexcan_leave_state flexcan_enter_state
  flexcan_do_state new_state frame st =
      let (reg, st1) = flexcan_read port st Regs.ecr in
      let tx_worse = ltb (reg / 2 ^ 8 % 2 ^ 8) (reg % 2 ^ 8) in
      flexcan_enter_state new_state (flexcan_leave_state st.dev.state tx_worse new_state frame, st1)

  -- What `flexcan_err_interrupt` does about a change of state, and about an overflow of the FIFO.
  unfoldable pub flexcan_change_state : CanState → Bytes → Flexcan B → Bytes × Flexcan B
  unfolding flexcan_do_state
  flexcan_change_state new_state frame st =
      let (frame', st') = flexcan_do_state new_state frame st in
      if is_same_state new_state st.dev.state
      then (frame, st)
      else (frame', flexcan_set_state st' new_state)

  unfoldable pub flexcan_note_overflow : ℕ → Bytes → Flexcan B → Bytes × Flexcan B
  flexcan_note_overflow iflag1 frame st =
      if has iflag1 flexcan_iflag_rx_fifo_overflow
      then (
        put_data 1 can_err_crtl_rx_overflow (add_id can_err_crtl frame),
        flexcan_write port st Regs.iflag1 flexcan_iflag_rx_fifo_overflow,
      )
      else (frame, st)

  -- `flexcan_err_interrupt`, on the memory of the local `skb`.
  unfoldable pub flexcan_err_interrupt :
      Flexcan B → Skb → (iflag1 esr : ℕ) → CanState → Flexcan B × Skb
  unfolding flexcan_change_state flexcan_note_overflow flexcan_do_bus_err
  flexcan_err_interrupt st skb iflag1 esr new_state =
      let (frame1, st1) = flexcan_change_state new_state (blank_error skb.rb_frame) st in
      let (frame2, st2) = flexcan_note_overflow iflag1 frame1 st1 in
      (
        st2,
        record {
          rb_frame_size = empty_rb_frame_size + can_err_dlc;
          rb_frame =
              (if has esr flexcan_esr_err_bus then flexcan_do_bus_err esr frame2 else frame2);
        },
      )
