-- ===== src/CCan/Interrupt.antt =====
-- The interrupt service routine: `c_can_interrupt` of rtcan_c_can.c.
use rtcan_bb.Base.{
  ℕ, ◌-◌, ◌^◌, bit_and, Bool, true, false, not, ◌&&◌, Option, some, leb, ◌==◌, if◌then◌else◌, ◌>>=◌,
}
use rtcan_bb.Rtcan.Abi.{CanState}
use rtcan_bb.Rtcan.Socket.{Config, Skb}
use rtcan_bb.Receive.{loopback}
use rtcan_bb.Virt.{is_pending}
use rtcan_bb.CCan.{
  CPort, c_can_int_reg, c_can_sts_reg, c_can_write, c_can_enable_all_interrupts, lec_unused,
  c_can_msg_obj_rx_first, c_can_msg_obj_rx_last, c_can_msg_obj_tx_first, c_can_msg_obj_tx_last,
}
use rtcan_bb.CCan.Errors.{
  BusError, c_can_bus_off, c_can_error_warning, c_can_error_passive, c_can_handle_state_change,
  c_can_handle_bus_err,
}
use rtcan_bb.CCan.Modes.{c_can_set_state}
use rtcan_bb.CCan.Receive.{Service, on_chip, c_can_do_rx_poll}
use rtcan_bb.CCan.Transmit.{c_can_do_tx}

-- Bits of the status register.
abbrev pub status_boff : ℕ
status_boff = 2 ^ 7

abbrev pub status_ewarn : ℕ
status_ewarn = 2 ^ 6

abbrev pub status_epass : ℕ
status_epass = 2 ^ 5

abbrev pub status_rxok : ℕ
status_rxok = 2 ^ 4

abbrev pub status_txok : ℕ
status_txok = 2 ^ 3

-- A bit that a status has and another has not.
abbrev pub has_only : ℕ → ℕ → ℕ → Bool
has_only bit status other = not (bit_and status bit == 0) && bit_and other bit == 0

-- What the memory of the local `skb`s holds: of the state changes, of a bus error, of a poll and
-- of the objects that it finds lost.
pub record Stack : Type 0 where
  pub changed : BusError → Skb
  pub bus_err : Skb
  pub polled : Skb
  pub lost : ℕ → Skb

module _ {B : Type 0} (port : CPort B) (now : B → ℕ × B) (cfg : Config) (stack : Stack) where
  -- A status bit is written back without it.
  abbrev pub acknowledge_status : ℕ → ℕ → Service B → Service B
  acknowledge_status bit status h =
      if bit_and status bit == 0
      then h
      else on_chip h (c_can_write port c_can_sts_reg (bit_and status (2 ^ 32 - 1 - bit)))

  -- A state that the status has newly, and one that it has no more.
  abbrev pub enter_if : ℕ → BusError → (status last : ℕ) → Service B → Service B
  enter_if bit error_type status last h =
      if has_only bit status last
      then c_can_handle_state_change port now cfg error_type (stack.changed error_type) h
      else h

  abbrev pub leave_if : ℕ → (status last : ℕ) → Service B → Service B
  leave_if bit status last h =
      if has_only bit last status
      then record h { chip = c_can_set_state h.chip CanState.active }
      else h

  -- The changes of state that a status shows against the last one.
  unfoldable pub note_changes : (status last : ℕ) → Service B → Service B
  note_changes status last h = leave_if status_epass status last (
      leave_if status_boff status last (
        enter_if status_boff c_can_bus_off status last (
          enter_if status_epass c_can_error_passive status last
            (enter_if status_ewarn c_can_error_warning status last h))))

  -- The status events.
  unfoldable pub serve_status : Service B → Service B
  unfolding note_changes
  serve_status h =
      let (status, bus) = port.read_reg h.chip.bus c_can_sts_reg in
      let read = on_chip h (λ _. bus) in
      let acknowledged =
        acknowledge_status status_rxok status (acknowledge_status status_txok status read) in
      let changed = note_changes status h.chip.last_status acknowledged in
      let noted = record changed { chip = record changed.chip { last_status = status } } in
      let lec_type = bit_and status lec_unused in
      if lec_type == 0
      then noted
      else c_can_handle_bus_err port now cfg lec_type stack.bus_err noted

  -- The transmit events; `n` bounds the loop of `c_can_do_tx`.
  unfoldable pub serve_tx : ℕ → Service B → Option (Service B)
  serve_tx n h = c_can_do_tx port n h.chip >>= λ chip.
      let (timestamp, bus) = now chip.bus in
      let (dev, socks) = loopback cfg timestamp chip.dev h.sockets in
      if is_pending chip.dev
      then some (record { chip = record chip { bus = bus; dev = dev }; sockets = socks })
      else some (record h { chip = chip })

  -- By the source of the interrupt: whether it is handled.
  unfoldable pub serve_source : ℕ → ℕ → Service B → Option (Bool × Service B)
  unfolding serve_status serve_tx
  serve_source n irqstatus h =
      if irqstatus == 2 ^ 15
      then some (true, serve_status h)
      else (if leb c_can_msg_obj_rx_first irqstatus && leb irqstatus c_can_msg_obj_rx_last
          then some (true, (c_can_do_rx_poll port now cfg stack.lost stack.polled h).service)
          else (if leb c_can_msg_obj_tx_first irqstatus && leb irqstatus c_can_msg_obj_tx_last
              then (serve_tx n h >>= λ h'. some (true, h'))
              else some (false, h)))

  -- `c_can_interrupt`: whether it returns RTDM_IRQ_HANDLED.
  unfoldable pub c_can_interrupt : ℕ → Service B → Option (Bool × Service B)
  unfolding serve_source
  c_can_interrupt n h =
      let (irqstatus, bus) = port.read_reg h.chip.bus c_can_int_reg in
      let disabled = on_chip (on_chip h (λ _. bus)) (c_can_enable_all_interrupts port false) in
      if irqstatus == 0
      then some (false, on_chip h (λ _. bus))
      else (serve_source n irqstatus disabled >>= λ r.
          some (r.0, on_chip r.1 (c_can_enable_all_interrupts port true)))
