-- ===== src/Sja1000/Errors.antt =====
-- Error interrupts: `rtcan_sja_err_interrupt` of can/sja1000/rtcan_sja1000.c.
use rtcan_bb.Base.{
  ℕ, ◌+◌, ◌/◌, ◌%◌, ◌^◌, bit_and, bit_or, Bool, true, false, not, ◌&&◌, ◌||◌, ◌∷◌, ltb, ◌==◌,
  if◌then◌else◌,
}
use rtcan_bb.Base.Memory.{Bytes, put_byte, store32, load32, memcpy, zeroed}
use rtcan_bb.Rtcan.Abi.{CanState, can_err_flag}
use rtcan_bb.Rtcan.ErrorFrame.{
  can_err_dlc, can_err_lostarb, can_err_crtl, can_err_prot, can_err_busoff, can_err_buserror,
  can_err_crtl_rx_overflow, can_err_crtl_rx_warning, can_err_crtl_tx_warning, can_err_prot_unspec,
  can_err_prot_bit, can_err_prot_form, can_err_prot_stuff, can_err_prot_tx,
}
use rtcan_bb.Rtcan.Socket.RbFrame
use rtcan_bb.Rtcan.Socket.{Skb, empty_rb_frame_size, sem_destroy}
use rtcan_bb.Rtcan.Device.{Device}
use rtcan_bb.Sja1000.{Port, put, Sja, sja_sr, sja_txerr, sja_rxerr, sja_alc, sja_ecc, sja_ier}

-- Bits of the interrupt, status and error code capture registers.
abbrev pub sja_ir_ri : ℕ
sja_ir_ri = 2 ^ 0

abbrev pub sja_ir_ti : ℕ
sja_ir_ti = 2 ^ 1

abbrev pub sja_ir_ei : ℕ
sja_ir_ei = 2 ^ 2

abbrev pub sja_ir_doi : ℕ
sja_ir_doi = 2 ^ 3

abbrev pub sja_ir_wui : ℕ
sja_ir_wui = 2 ^ 4

abbrev pub sja_ir_epi : ℕ
sja_ir_epi = 2 ^ 5

abbrev pub sja_ir_ali : ℕ
sja_ir_ali = 2 ^ 6

abbrev pub sja_ir_bei : ℕ
sja_ir_bei = 2 ^ 7

abbrev pub sja_sr_es : ℕ
sja_sr_es = 2 ^ 6

abbrev pub sja_sr_bs : ℕ
sja_sr_bs = 2 ^ 7

abbrev pub sja_ier_eie : ℕ
sja_ier_eie = 2 ^ 2

-- SJA1000_IER: all eight interrupts.
abbrev pub sja1000_ier : ℕ
sja1000_ier = 0xff

-- Whether a bit of a register is set.
abbrev pub has : ℕ → ℕ → Bool
has value bit = not (bit_and value bit == 0)

-- `frame->can_id |= …`
abbrev pub add_id : ℕ → Bytes → Bytes
add_id bits frame =
    store32 frame RbFrame.can_id_offset (bit_or (load32 frame RbFrame.can_id_offset) bits)

abbrev pub put_data : ℕ → ℕ → Bytes → Bytes
put_data i v frame = put_byte frame (RbFrame.payload_offset + i) v

-- `frame->data[i] |= …`
abbrev pub or_data : ℕ → ℕ → Bytes → Bytes
or_data i v frame = put_data i (bit_or (frame (RbFrame.payload_offset + i)) v) frame

-- The frame before the sources are looked at.
unfoldable pub blank_error : Bytes → Bytes
blank_error stack =
    memcpy
      (put_byte (store32 stack RbFrame.can_id_offset can_err_flag) RbFrame.can_dlc_offset
        can_err_dlc)
      RbFrame.payload_offset zeroed 0 can_err_dlc

unfoldable pub note_overrun : ℕ → Bytes → Bytes
note_overrun irq frame =
    if has irq sja_ir_doi
    then put_data 1 can_err_crtl_rx_overflow (add_id can_err_crtl frame)
    else frame

-- The detail of a bus error, from the error code capture register.
unfoldable pub note_code : ℕ → Bytes → Bytes
note_code ecc frame =
    let kind = ecc / 2 ^ 6 % 4 in
    let detailed =
      (if kind == 0
        then or_data 2 can_err_prot_bit frame
        else (if kind == 1
            then or_data 2 can_err_prot_form frame
            else (if kind == 2
                then or_data 2 can_err_prot_stuff frame
                else put_data 3 (bit_and ecc 31) (or_data 2 can_err_prot_unspec frame)))) in
    if has ecc (2 ^ 5) then detailed else or_data 2 can_err_prot_tx detailed

-- `state` after an error passive interrupt, and after an error warning interrupt.
unfoldable pub after_epi : ℕ → CanState → CanState
after_epi irq CanState.bus_warning =
    if has irq sja_ir_epi then CanState.bus_passive else CanState.bus_warning
after_epi irq state = if has irq sja_ir_epi then CanState.bus_warning else state

abbrev pub is_warning : CanState → Bool
is_warning CanState.bus_warning = true
is_warning CanState.active = false
is_warning CanState.bus_passive = false
is_warning CanState.bus_off = false
is_warning CanState.scanning_baudrate = false
is_warning CanState.stopped = false
is_warning CanState.sleeping = false

unfoldable pub after_ei : ℕ → ℕ → CanState → CanState
after_ei irq status state =
    if not (has irq sja_ir_ei)
    then state
    else (if has status sja_sr_bs
        then CanState.bus_off
        else (if has status sja_sr_es
            then CanState.bus_warning
            else (if is_warning state then CanState.active else state)))

abbrev pub state_number : CanState → ℕ
state_number CanState.active = 0
state_number CanState.bus_warning = 1
state_number CanState.bus_passive = 2
state_number CanState.bus_off = 3
state_number CanState.scanning_baudrate = 4
state_number CanState.stopped = 5
state_number CanState.sleeping = 6

-- Whether a warning or a passive state has just been entered.
abbrev pub is_worse : CanState → CanState → Bool
is_worse old state =
    not (state_number state == state_number old)
    && (state_number state == 1 || state_number state == 2)

unfoldable pub note_state : CanState → CanState → ℕ → ℕ → Bytes → Bytes
note_state old state txerr rxerr frame =
    if is_worse old state
    then put_data 1 (if ltb rxerr txerr then can_err_crtl_tx_warning else can_err_crtl_rx_warning)
        (add_id can_err_prot frame)
    else frame

module _ {B : Type 0} (port : Port B) where
  -- An arbitration that was lost, and a bus error: their details are read from the chip.
  unfoldable pub read_lost : ℕ → Bytes → B → Bytes × B
  read_lost irq frame bus =
      let (alc, bus') = port.read_reg bus sja_alc in
      if has irq sja_ir_ali
      then (put_data 0 (bit_and alc 0x1f) (add_id can_err_lostarb frame), bus')
      else (frame, bus)

  unfoldable pub read_code : ℕ → Bytes → B → Bytes × B
  unfolding note_code
  read_code irq frame bus =
      let (ecc, bus') = port.read_reg bus sja_ecc in
      if has irq sja_ir_bei
      then (note_code ecc (add_id (bit_or can_err_prot can_err_buserror) frame), bus')
      else (frame, bus)

  -- What an error warning interrupt does to the chip and to the senders, from the `state` before it.
  unfoldable pub serve_ei : ℕ → ℕ → CanState → Device → Bytes → B → Device × Bytes × B
  serve_ei irq status state dev frame bus =
      if not (has irq sja_ir_ei)
      then (dev, frame, bus)
      else (if has status sja_sr_bs
          then (
            record dev { tx_sem = sem_destroy ∷ dev.tx_sem },
            add_id can_err_busoff frame,
            put port bus sja_ier sja_ier_eie,
          )
          else (if has status sja_sr_es || is_warning state
              then (dev, frame, bus)
              else (dev, frame, put port bus sja_ier sja1000_ier)))

  -- `rtcan_sja_err_interrupt`, on the memory of the local `skb`.
  unfoldable pub err_interrupt : Sja B → Skb → ℕ → Sja B × Skb
  unfolding blank_error note_overrun after_epi after_ei note_state read_lost read_code serve_ei
  err_interrupt st skb irq =
      let dev = st.dev in
      let (status, bus1) = port.read_reg st.bus sja_sr in
      let (txerr, bus2) = port.read_reg bus1 sja_txerr in
      let (rxerr, bus3) = port.read_reg bus2 sja_rxerr in
      let (lost, bus4) = read_lost irq (note_overrun irq (blank_error skb.rb_frame)) bus3 in
      let (coded, bus5) = read_code irq lost bus4 in
      let passive = after_epi irq dev.state in
      let (dev', served, bus6) = serve_ei irq status passive dev coded bus5 in
      let state = after_ei irq status passive in
      (
        record st { bus = bus6; dev = record dev' { state = state } },
        record {
          rb_frame_size = empty_rb_frame_size + can_err_dlc;
          rb_frame =
              put_byte (note_state dev.state state txerr rxerr served) RbFrame.can_ifindex_offset
                (dev.ifindex % 2 ^ 8);
        },
      )
