-- ===== src/CCan/Errors.antt =====
-- `c_can_handle_state_change` and `c_can_handle_bus_err` of rtcan_c_can.c.
use rtcan_bb.Base.{
  ℕ, ◌+◌, ◌*◌, ◌/◌, ◌^◌, bit_and, bit_or, Bool, false, not, ◌||◌, ltb, ◌==◌, if◌then◌else◌,
}
use rtcan_bb.Base.Memory.{Bytes}
use rtcan_bb.Rtcan.Abi.{CanState}
use rtcan_bb.Rtcan.ErrorFrame.{
  can_err_dlc, can_err_crtl, can_err_busoff, can_err_prot, can_err_buserror,
  can_err_crtl_rx_warning, can_err_crtl_tx_warning, can_err_crtl_rx_passive,
  can_err_crtl_tx_passive, can_err_prot_unspec, can_err_prot_stuff, can_err_prot_form,
  can_err_prot_bit0, can_err_prot_bit1, can_err_prot_loc_ack, can_err_prot_loc_crc,
}
use rtcan_bb.Rtcan.Socket.{Config, Skb, empty_rb_frame_size, sem_destroy}
use rtcan_bb.Sja1000.Errors.{add_id, put_data, or_data}
use rtcan_bb.CCan.{
  CPort, CCan, c_can_err_cnt_reg, c_can_sts_reg, lec_unused, c_can_write,
  c_can_enable_all_interrupts,
}
use rtcan_bb.CCan.Modes.{c_can_set_state, c_can_sem, on_bus}
use rtcan_bb.CCan.Receive.{Service, on_chip, pass_on}

-- The error types of `enum c_can_bus_error_types` that the calls name.
pub data BusError : Type 0 where
  c_can_bus_off c_can_error_warning c_can_error_passive : BusError

-- The frame for a change of state, on the memory of a local `skb`.
unfoldable pub state_frame : BusError → (txerr rxerr : ℕ) → Bool → Bytes → Bytes
state_frame c_can_error_warning txerr rxerr rx_err_passive frame = put_data 7 rxerr (
    put_data 6 txerr (
      put_data 1 (if ltb rxerr txerr then can_err_crtl_tx_warning else can_err_crtl_rx_warning)
        (add_id can_err_crtl frame)))
state_frame c_can_error_passive txerr rxerr rx_err_passive frame =
    let classed = add_id can_err_crtl frame in
    let rx = (if rx_err_passive then or_data 1 can_err_crtl_rx_passive classed else classed) in
    let tx = (if ltb 127 txerr then or_data 1 can_err_crtl_tx_passive rx else rx) in
    put_data 7 rxerr (put_data 6 txerr tx)
state_frame c_can_bus_off txerr rxerr rx_err_passive frame = add_id can_err_busoff frame

-- `c_can_handle_bus_err`: the details of the last error code.
unfoldable pub lec_frame : ℕ → Bytes → Bytes
lec_frame lec frame =
    let classed =
      or_data 2 can_err_prot_unspec (add_id (bit_or can_err_prot can_err_buserror) frame) in
    if lec == 1
    then or_data 2 can_err_prot_stuff classed
    else (if lec == 2
        then or_data 2 can_err_prot_form classed
        else (if lec == 3
            then or_data 3 can_err_prot_loc_ack classed
            else (if lec == 4
                then or_data 2 can_err_prot_bit1 classed
                else (if lec == 5
                    then or_data 2 can_err_prot_bit0 classed
                    else (if lec == 6 then or_data 3 can_err_prot_loc_crc classed else classed)))))

module _ {B : Type 0} (port : CPort B) (now : B → ℕ × B) (cfg : Config) where
  -- What an error type does to the device.
  unfoldable pub enter_state : BusError → CCan B → CCan B
  enter_state c_can_error_warning st = c_can_set_state st CanState.bus_warning
  enter_state c_can_error_passive st = c_can_set_state st CanState.bus_passive
  enter_state c_can_bus_off st =
      c_can_sem
        (on_bus (c_can_set_state st CanState.bus_off) (c_can_enable_all_interrupts port false))
        sem_destroy

  -- `c_can_handle_state_change`
  unfoldable pub c_can_handle_state_change : BusError → Skb → Service B → Service B
  unfolding state_frame enter_state
  c_can_handle_state_change error_type stack h =
      let (reg_err_counter, bus) = port.read_reg h.chip.bus c_can_err_cnt_reg in
      let rxerr = bit_and reg_err_counter (0x7f * 2 ^ 8) / 2 ^ 8 in
      let txerr = bit_and reg_err_counter 0xff in
      let rx_err_passive = not (bit_and reg_err_counter (2 ^ 15) / 2 ^ 15 == 0) in
      let chip = enter_state error_type (record h.chip { bus = bus }) in
      (pass_on port now cfg (record h { chip = chip })
        (record {
          rb_frame_size = empty_rb_frame_size + can_err_dlc;
          rb_frame = state_frame error_type txerr rxerr rx_err_passive stack.rb_frame;
        })).0

  -- `c_can_handle_bus_err`
  unfoldable pub c_can_handle_bus_err : ℕ → Skb → Service B → Service B
  unfolding lec_frame
  c_can_handle_bus_err lec_type stack h =
      let unused = on_chip h (c_can_write port c_can_sts_reg lec_unused) in
      if lec_type == lec_unused || lec_type == 0
      then h
      else (pass_on port now cfg unused (record {
        rb_frame_size = empty_rb_frame_size + can_err_dlc;
        rb_frame = lec_frame lec_type stack.rb_frame;
      })).0
