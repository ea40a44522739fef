-- ===== src/Mscan/Errors.antt =====
-- Error interrupts: `rtcan_mscan_err_interrupt` of can/mscan/rtcan_mscan.c.
pub mod Status
use rtcan_bb.Base.{
  ℕ, ◌+◌, ◌*◌, ◌/◌, ◌%◌, ◌^◌, bit_and, Bool, true, false, ◌∷◌, max, ltb, ◌==◌, if◌then◌else◌,
}
use rtcan_bb.Base.Memory.{Bytes, put_byte, store32, memcpy, zeroed}
use rtcan_bb.Rtcan.Abi.{CanState, can_err_flag}
use rtcan_bb.Rtcan.ErrorFrame.{
  can_err_dlc, can_err_crtl, can_err_busoff, can_err_crtl_rx_overflow, can_err_crtl_rx_warning,
  can_err_crtl_tx_warning, can_err_crtl_rx_passive, can_err_crtl_tx_passive,
}
use rtcan_bb.Rtcan.Socket.RbFrame
use rtcan_bb.Rtcan.Socket.{Skb, empty_rb_frame_size, sem_destroy}
use rtcan_bb.Sja1000.Errors.{has, add_id, put_data, blank_error}
use rtcan_bb.Mscan.{MscanPort, Mscan, canrier, mscan_set_state, mscan_call_sem, mscan_out}

-- Bits of the receiver flag register.
abbrev pub mscan_wupif : ℕ
mscan_wupif = 0x80

abbrev pub mscan_cscif : ℕ
mscan_cscif = 0x40

abbrev pub mscan_rstat : ℕ
mscan_rstat = 0x20 + 0x10

abbrev pub mscan_tstat : ℕ
mscan_tstat = 0x08 + 0x04

abbrev pub mscan_ovrif : ℕ
mscan_ovrif = 0x02

abbrev pub mscan_rxf : ℕ
mscan_rxf = 0x01

-- `mscan_stat_map`
abbrev pub mscan_stat_map : ℕ → CanState
mscan_stat_map n =
    if n == 0
    then CanState.active
    else (if n == 1
        then CanState.bus_warning
        else (if n == 2 then CanState.bus_passive else CanState.bus_off))

-- The locals `rstat` and `tstat`.
abbrev pub read_rstat : ℕ → ℕ
read_rstat r_status = bit_and (bit_and r_status mscan_tstat / 2 ^ 2) 0x3

abbrev pub read_tstat : ℕ → ℕ
read_tstat r_status = bit_and (bit_and r_status mscan_rstat / 2 ^ 4) 0x3

-- The frame in each case of the switch.
unfoldable pub mscan_note_state : CanState → (tx_worse : Bool) → Bytes → Bytes
mscan_note_state CanState.bus_off tx_worse frame = add_id can_err_busoff frame
mscan_note_state CanState.bus_passive tx_worse frame =
    put_data 1 (if tx_worse then can_err_crtl_tx_passive else can_err_crtl_rx_passive)
      (add_id can_err_crtl frame)
mscan_note_state CanState.bus_warning tx_worse frame =
    put_data 1 (if tx_worse then can_err_crtl_tx_warning else can_err_crtl_rx_warning)
      (add_id can_err_crtl frame)
mscan_note_state CanState.active tx_worse frame = frame
mscan_note_state CanState.scanning_baudrate tx_worse frame = frame
mscan_note_state CanState.stopped tx_worse frame = frame
mscan_note_state CanState.sleeping tx_worse frame = frame

module _ {B : Type 0} (port : MscanPort B) where
  -- The device in each case of the switch, whose state has been stored.
  unfoldable pub mscan_enter_state : CanState → Mscan B → Mscan B
  mscan_enter_state CanState.bus_off st =
      mscan_call_sem (mscan_out port (mscan_set_state st CanState.bus_off) canrier 0) sem_destroy
  mscan_enter_state CanState.bus_passive st = mscan_set_state st CanState.bus_passive
  mscan_enter_state CanState.bus_warning st = mscan_set_state st CanState.bus_warning
  mscan_enter_state CanState.active st = mscan_set_state st CanState.active
  mscan_enter_state CanState.scanning_baudrate st = mscan_set_state st CanState.scanning_baudrate
  mscan_enter_state CanState.stopped st = mscan_set_state st CanState.stopped
  mscan_enter_state CanState.sleeping st = mscan_set_state st CanState.sleeping

  -- The branches on the receiver flags: the frame and the device.
  unfoldable pub mscan_serve_status : ℕ → Bytes → Mscan B → Bytes × Mscan B
  unfolding mscan_note_state mscan_enter_state
  mscan_serve_status r_status frame st =
      let rstat = read_rstat r_status in
      let tstat = read_tstat r_status in
      let state = mscan_stat_map (max rstat tstat) in
      if has r_status mscan_ovrif
      then (put_data 1 can_err_crtl_rx_overflow (add_id can_err_crtl frame), st)
      else (if has r_status mscan_cscif
          then (mscan_note_state state (ltb rstat tstat) frame, mscan_enter_state state st)
          else (frame, st))

  -- `rtcan_mscan_err_interrupt`, on the memory of the local `skb`.
  unfoldable pub mscan_err_interrupt : Mscan B → Skb → ℕ → Mscan B × Skb
  unfolding blank_error mscan_serve_status
  mscan_err_interrupt st skb r_status =
      let (frame, st') = mscan_serve_status r_status (blank_error skb.rb_frame) st in
      (
        st',
        record {
          rb_frame_size = empty_rb_frame_size + can_err_dlc;
          rb_frame = put_byte frame RbFrame.can_ifindex_offset (st.dev.ifindex % 2 ^ 8);
        },
      )
