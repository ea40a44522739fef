-- ===== src/CCan/Receive.antt =====
-- `c_can_handle_lost_msg_obj` and `c_can_do_rx_poll` of rtcan_c_can.c.
pub mod Poll
use rtcan_bb.Base.{
  ℕ, zero, suc, ◌+◌, ◌-◌, ◌%◌, ◌^◌, bit_and, bit_or, Bool, true, false, not, ltb, ◌==◌,
  if◌then◌else◌,
}
use rtcan_bb.Base.Memory.{Bytes, put_byte, store32, load32}
use rtcan_bb.Rtcan.ErrorFrame.{can_err_crtl, can_err_crtl_rx_overflow}
use rtcan_bb.Rtcan.Socket.RbFrame
use rtcan_bb.Rtcan.Socket.{Config, Skb, Sockets}
use rtcan_bb.Receive.{rcv}
use rtcan_bb.CCan.{
  CPort, CCan, msgctrl_reg, c_can_write, c_can_intpnd1_reg, c_can_read_reg32,
  c_can_msg_obj_rx_first, c_can_msg_rx_low_last, c_can_msg_obj_rx_last,
}
use rtcan_bb.CCan.Modes.{on_bus}
use rtcan_bb.CCan.Objects.{
  if_comm_rx, if_comm_control, c_can_object_get, c_can_object_put, c_can_mark_rx_msg_obj,
  c_can_activate_rx_msg_obj, c_can_activate_all_lower_rx_msg_obj, c_can_read_msg_object,
}

-- What the interrupt routine works on.
pub record Service (B : Type 0) : Type 0 where
  pub chip : CCan B
  pub sockets : Sockets

abbrev pub on_chip : {B : Type 0} → Service B → (B → B) → Service B
on_chip h f = record h { chip = on_bus h.chip f }

-- Bits of the message control register.
abbrev pub if_mcont_newdat : ℕ
if_mcont_newdat = 2 ^ 15

abbrev pub if_mcont_msglst : ℕ
if_mcont_msglst = 2 ^ 14

abbrev pub if_mcont_eob : ℕ
if_mcont_eob = 2 ^ 7

-- The frame of a lost message, on the memory of a local `skb`.
abbrev pub lost_frame : Skb → Skb
lost_frame skb = record skb {
  rb_frame =
      put_byte
        (store32 skb.rb_frame RbFrame.can_id_offset
          (bit_or (load32 skb.rb_frame RbFrame.can_id_offset) can_err_crtl))
        (RbFrame.payload_offset + 1) can_err_crtl_rx_overflow;
}

-- A poll: the device and the sockets, the local `skb` and `num_rx_pkts`.
pub record Polled (B : Type 0) : Type 0 where
  pub service : Service B
  pub skb : Skb
  pub num_rx_pkts : ℕ

-- `now` is `rtdm_clock_read`, and `lost` the memory that the local `skb` of
-- `c_can_handle_lost_msg_obj` has for an object.
module _ {B : Type 0} (port : CPort B) (now : B → ℕ × B) (cfg : Config) where
  -- `rtcan_rcv` on the device: what it leaves, and the frame.
  unfoldable pub pass_on : Service B → Skb → Service B × Skb
  pass_on h skb =
      let (timestamp, bus) = now h.chip.bus in
      let (dev, socks, skb') = rcv cfg timestamp h.chip.dev h.sockets skb in
      (record { chip = record h.chip { bus = bus; dev = dev }; sockets = socks }, skb')

  -- `c_can_handle_lost_msg_obj`
  unfoldable pub c_can_handle_lost_msg_obj : (iface objno : ℕ) → Skb → Service B → Service B
  unfolding pass_on
  c_can_handle_lost_msg_obj iface objno stack h =
      let got = on_chip h (c_can_object_get port iface objno if_comm_rx) in
      let cleared = on_chip got (c_can_write port (msgctrl_reg iface) 0) in
      let put = on_chip cleared (c_can_object_put port 0 objno if_comm_control) in
      (pass_on put (lost_frame stack)).0

  -- An object is handed back to the chip, by its place.
  unfoldable pub reactivate : (ctrl msg_obj : ℕ) → B → B
  reactivate ctrl msg_obj bus =
      if ltb msg_obj c_can_msg_rx_low_last
      then c_can_mark_rx_msg_obj port 0 ctrl msg_obj bus
      else (if ltb c_can_msg_rx_low_last msg_obj
          then c_can_activate_rx_msg_obj port 0 ctrl msg_obj bus
          else c_can_activate_all_lower_rx_msg_obj port 0 ctrl bus)

  -- A new message is read, its object handed back, and the message passed on.
  unfoldable pub take_message : (ctrl msg_obj : ℕ) → Polled B → Polled B
  unfolding pass_on reactivate
  take_message ctrl msg_obj p =
      let (skb, bus) = c_can_read_msg_object port 0 ctrl p.skb p.service.chip.bus in
      let taken = on_chip p.service (λ _. reactivate ctrl msg_obj bus) in
      let (service, skb') = pass_on taken skb in
      record { service = service; skb = skb'; num_rx_pkts = p.num_rx_pkts + 1 }

  -- The body of the loop for an object that has an interrupt pending: whether it returns.
  unfoldable pub poll_object : (ℕ → Skb) → ℕ → Polled B → Bool × Polled B
  unfolding take_message c_can_handle_lost_msg_obj
  poll_object lost msg_obj p =
      let got = on_chip p.service (c_can_object_get port 0 msg_obj if_comm_rx) in
      let (ctrl, bus) = port.read_reg got.chip.bus (msgctrl_reg 0) in
      let read = record p { service = on_chip got (λ _. bus) } in
      if not (bit_and ctrl if_mcont_eob == 0)
      then (true, read)
      else (if not (bit_and ctrl if_mcont_msglst == 0)
          then (
            false,
            record read {
              service = c_can_handle_lost_msg_obj 0 msg_obj (lost msg_obj) read.service;
              num_rx_pkts = p.num_rx_pkts + 1;
            },
          )
          else (if bit_and ctrl if_mcont_newdat == 0
              then (false, read)
              else (false, take_message ctrl msg_obj read)))

  -- The body of the loop.
  unfoldable pub poll_one : (ℕ → Skb) → (msg_obj val : ℕ) → Polled B → Bool × Polled B
  unfolding poll_object
  poll_one lost msg_obj val p =
      if bit_and val (2 ^ (msg_obj - 1)) == 0 then (false, p) else poll_object lost msg_obj p

  -- The loop with `n` objects left from `msg_obj` on; `val` holds the pending interrupts.
  unfoldable pub poll_from : (ℕ → Skb) → (msg_obj n val : ℕ) → Polled B → Polled B
  unfolding poll_one
  poll_from lost msg_obj zero val p = p
  poll_from lost msg_obj (suc n) val p =
      let (done, p') = poll_one lost msg_obj val p in
      let (val', bus) = c_can_read_reg32 port c_can_intpnd1_reg p'.service.chip.bus in
      elim done [
        | true ↦ p'
        | false ↦
            poll_from lost (suc msg_obj) n val'
              (record p' { service = on_chip p'.service (λ _. bus) })
      ]

  -- `c_can_do_rx_poll`; `stack` is the memory of its `skb`.
  unfoldable pub c_can_do_rx_poll : (ℕ → Skb) → Skb → Service B → Polled B
  unfolding poll_from
  c_can_do_rx_poll lost stack h =
      let (val, bus) = c_can_read_reg32 port c_can_intpnd1_reg h.chip.bus in
      poll_from lost c_can_msg_obj_rx_first c_can_msg_obj_rx_last val
        (record { service = on_chip h (λ _. bus); skb = stack; num_rx_pkts = 0 })
