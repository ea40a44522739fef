-- ===== src/Flexcan/Errors/Index.antt =====
-- The interface index of an error frame of the FlexCAN (can/rtcan_flexcan.c).
use rtcan_bb.Base.{ℕ, Bool, true, false, ◌≡◌, refl, ◌∙◌, bit_or, if◌then◌else◌}
use rtcan_bb.Base.Memory.{Bytes}
use rtcan_bb.Rtcan.Abi.{CanState}
use rtcan_bb.Rtcan.ErrorFrame.{
  can_err_prot, can_err_buserror, can_err_ack, can_err_prot_bit, can_err_prot_form,
  can_err_prot_stuff, can_err_prot_bit0, can_err_prot_bit1,
}
use rtcan_bb.Rtcan.Socket.{Skb}
use rtcan_bb.Sja1000.Errors.{has, add_id, or_data, blank_error}
use rtcan_bb.Flexcan.{FlexcanPort, Flexcan}
use rtcan_bb.Flexcan.Errors.{
  when, is_between, is_same_state, flexcan_do_bus_err, flexcan_note_passive, flexcan_note_warning,
  flexcan_leave_state, flexcan_enter_state, flexcan_do_state, flexcan_change_state,
  flexcan_note_overflow, flexcan_err_interrupt, flexcan_esr_err_bus, flexcan_esr_bit1_err,
  flexcan_esr_bit0_err, flexcan_esr_ack_err, flexcan_esr_crc_err, flexcan_esr_frm_err,
  flexcan_esr_stf_err, flexcan_iflag_rx_fifo_overflow, can_err_prot_loc_ack_slot,
  can_err_prot_loc_crc_seq,
}

-- A change under a test, of a change that keeps the byte with the index.
if_index :
    (b : Bool) (f g frame : Bytes)
    → f 4 ≡ frame 4
    → g 4 ≡ frame 4
    → (if b then f else g) 4 ≡ frame 4
if_index true f g frame p q = p
if_index false f g frame p q = q

when_index :
    (reg mask : ℕ) (change : Bytes → Bytes) (frame : Bytes)
    → change frame 4 ≡ frame 4
    → when reg mask change frame 4 ≡ frame 4
when_index reg mask change frame p = if_index (has reg mask) (change frame) frame frame p refl

do_bus_err_index : (esr : ℕ) (frame : Bytes) → flexcan_do_bus_err esr frame 4 ≡ frame 4
unfolding flexcan_do_bus_err
do_bus_err_index esr frame =
    let frame1 = add_id (bit_or can_err_prot can_err_buserror) frame in
    let frame2 = when esr flexcan_esr_bit1_err (or_data 2 can_err_prot_bit1) frame1 in
    let frame3 = when esr flexcan_esr_bit0_err (or_data 2 can_err_prot_bit0) frame2 in
    let frame4 =
      when esr flexcan_esr_ack_err (λ f. or_data 3 can_err_prot_loc_ack_slot (add_id can_err_ack f))
        frame3 in
    let frame5 =
      when esr flexcan_esr_crc_err
        (λ f. or_data 3 can_err_prot_loc_crc_seq (or_data 2 can_err_prot_bit f)) frame4 in
    let frame6 = when esr flexcan_esr_frm_err (or_data 2 can_err_prot_form) frame5 in
    when_index esr flexcan_esr_stf_err (or_data 2 can_err_prot_stuff) frame6 refl
    ∙ when_index esr flexcan_esr_frm_err (or_data 2 can_err_prot_form) frame5 refl
    ∙ when_index esr flexcan_esr_crc_err
        (λ f. or_data 3 can_err_prot_loc_crc_seq (or_data 2 can_err_prot_bit f)) frame4 refl
    ∙ when_index esr flexcan_esr_ack_err
        (λ f. or_data 3 can_err_prot_loc_ack_slot (add_id can_err_ack f)) frame3 refl
    ∙ when_index esr flexcan_esr_bit0_err (or_data 2 can_err_prot_bit0) frame2 refl
    ∙ when_index esr flexcan_esr_bit1_err (or_data 2 can_err_prot_bit1) frame1 refl

note_passive_index :
    (worse : Bool) (state : CanState) (frame : Bytes)
    → flexcan_note_passive worse state frame 4 ≡ frame 4
unfolding flexcan_note_passive
note_passive_index worse state frame =
    if_index (is_between CanState.bus_passive state) _ frame frame refl refl

note_warning_index :
    (worse : Bool) (state : CanState) (frame : Bytes)
    → flexcan_note_warning worse state frame 4 ≡ frame 4
unfolding flexcan_note_warning
note_warning_index worse state frame =
    if_index (is_between CanState.bus_warning state) _ frame frame refl refl

leave_state_index :
    (old : CanState) (worse : Bool) (state : CanState) (frame : Bytes)
    → flexcan_leave_state old worse state frame 4 ≡ frame 4
unfolding flexcan_leave_state
leave_state_index CanState.active worse state frame =
    note_passive_index worse state (flexcan_note_warning worse state frame)
    ∙ note_warning_index worse state frame
leave_state_index CanState.bus_warning worse state frame = note_passive_index worse state frame
leave_state_index CanState.bus_passive worse state frame = refl
leave_state_index CanState.bus_off worse state frame = refl
leave_state_index CanState.scanning_baudrate worse state frame = refl
leave_state_index CanState.stopped worse state frame = refl
leave_state_index CanState.sleeping worse state frame = refl

enter_state_index :
    {B : Type 0} (state : CanState) (r : Bytes × Flexcan B)
    → (flexcan_enter_state state r).0 4 ≡ r.0 4
unfolding flexcan_enter_state
enter_state_index CanState.active (frame, st) = refl
enter_state_index CanState.bus_off (frame, st) = refl
enter_state_index CanState.bus_warning r = refl
enter_state_index CanState.bus_passive r = refl
enter_state_index CanState.scanning_baudrate r = refl
enter_state_index CanState.stopped r = refl
enter_state_index CanState.sleeping r = refl

-- A step under a test.
frame-if :
    {B : Type 0} (b : Bool) (r r' : Bytes × Flexcan B) (frame : Bytes)
    → r.0 4 ≡ frame 4
    → r'.0 4 ≡ frame 4
    → (if b then r else r').0 4 ≡ frame 4
frame-if true r r' frame p q = p
frame-if false r r' frame p q = q

module _ {B : Type 0} (port : FlexcanPort B) where
  change_state_index :
      (state : CanState) (frame : Bytes) (st : Flexcan B)
      → (flexcan_change_state port state frame st).0 4 ≡ frame 4
  unfolding flexcan_change_state flexcan_do_state
  change_state_index state frame st =
      frame-if (is_same_state state st.dev.state) _ _ frame refl
        (enter_state_index state _ ∙ leave_state_index st.dev.state _ state frame)

  note_overflow_index :
      (iflag1 : ℕ) (frame : Bytes) (st : Flexcan B)
      → (flexcan_note_overflow port iflag1 frame st).0 4 ≡ frame 4
  unfolding flexcan_note_overflow
  note_overflow_index iflag1 frame st =
      frame-if (has iflag1 flexcan_iflag_rx_fifo_overflow) _ _ frame refl refl

  -- The error frame that the FlexCAN driver builds has, as its interface index, the byte that was on
  -- the stack before; the index of the device is not stored in it.
  pub flexcan_err_interrupt_index :
      (st : Flexcan B) (skb : Skb) (iflag1 esr : ℕ) (new_state : CanState)
      → (flexcan_err_interrupt port st skb iflag1 esr new_state).1.rb_frame 4 ≡ skb.rb_frame 4
  unfolding flexcan_err_interrupt blank_error
  flexcan_err_interrupt_index st skb iflag1 esr new_state =
      let blank = blank_error skb.rb_frame in
      let (frame1, st1) = flexcan_change_state port new_state blank st in
      let frame2 = (flexcan_note_overflow port iflag1 frame1 st1).0 in
      if_index (has esr flexcan_esr_err_bus) (flexcan_do_bus_err esr frame2) frame2 frame2
        (do_bus_err_index esr frame2) refl
      ∙ note_overflow_index iflag1 frame1 st1
      ∙ change_state_index new_state blank st
