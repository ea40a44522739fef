-- ===== src/Tests/Bosch.antt =====
-- The theorems on the C_CAN at a concrete device, on registers that keep what is written.
use rtcan_bb.Base.{
  ℕ, ◌+◌, ◌^◌, ◌≤◌, ◌≡◌, refl, true, false, none, some, List, [], ◌∷◌, arith, update,
}
use rtcan_bb.Rtcan.Abi.{CanState, CanMode}
use rtcan_bb.Rtcan.Socket.{sem_init, sem_destroy, sem_exists}
use rtcan_bb.Rtcan.Device.{BittimeStd}
use rtcan_bb.BitTiming.{calc_with, timed}
use rtcan_bb.CCan.{CCan, c_can_btr_reg, c_can_brpext_reg}
use rtcan_bb.CCan.Bittiming.{c_can_bittiming_const, c_can_set_bittiming}
use rtcan_bb.CCan.Bittiming.Fields.{c_can_registers, IsTimed, calc_with-IsTimed}
use rtcan_bb.CCan.Interrupt.{Stack, serve_status}
use rtcan_bb.CCan.Objects.{c_can_write_msg_object}
use rtcan_bb.CCan.Objects.Sent.{IsSent, c_can_write_msg_object-IsSent}
use rtcan_bb.Sja1000.Frames.Wire.{Wire, IsWire, frame_of}
use rtcan_bb.CCan.Modes.{c_can_set_mode}
use rtcan_bb.CCan.Receive.{Service, c_can_do_rx_poll}
use rtcan_bb.CCan.Receive.Poll.{IsCounted, c_can_do_rx_poll_lem}
use rtcan_bb.CCan.Senders.{IsCoherent, set_mode-IsCoherent}
use rtcan_bb.CCan.Senders.Recovery.{recovery_keeps_senders}
use rtcan_bb.CCan.Transmit.{c_can_do_tx}
use rtcan_bb.CCan.Transmit.Outstanding.{IsEchoed, c_can_do_tx_total}
use rtcan_bb.CCan.Platform.{Mmio}
use rtcan_bb.CCan.Probe.{CPlatform, c_can_plat_probe}
use rtcan_bb.CCan.Probe.Outcome.{IsSeen, c_can_probe_outcome}
use rtcan_bb.Tests.{config, used_device, one_device, system, skb}

abbrev unset : BittimeStd
unset = record { brp = 0; prop_seg = 0; phase_seg1 = 0; phase_seg2 = 0; sjw = 0; sam = 0 }

abbrev half_megabit : BittimeStd
half_megabit = record { brp = 1; prop_seg = 6; phase_seg1 = 7; phase_seg2 = 2; sjw = 1; sam = 0 }

-- A stopped device, one in use, and one that is off the bus.
abbrev chip : CCan (ℕ → ℕ)
chip = record {
  bus = λ reg. 0;
  dev = used_device;
  bit_time = half_megabit;
  last_status = 0;
  tx_next = 0;
  tx_echo = 0;
  irq_requested = false;
}

abbrev in_use : CCan (ℕ → ℕ)
in_use = record chip {
  dev = record used_device { state = CanState.active; tx_sem = sem_init 16 ∷ [] };
  irq_requested = true;
}

abbrev off_bus : CCan (ℕ → ℕ)
off_bus = record in_use {
  dev = record used_device { state = CanState.bus_off; tx_sem = sem_destroy ∷ [] };
  last_status = 2 ^ 7;
}

abbrev service : CCan (ℕ → ℕ) → Service (ℕ → ℕ)
service st = record { chip = st; sockets = system.sockets }

abbrev clock : (ℕ → ℕ) → ℕ × (ℕ → ℕ)
clock bus = (5, bus)

abbrev stack : Stack
stack = record { changed = λ e. skb; bus_err = skb; polled = skb; lost = λ obj. skb }

found : calc_with 8000000 c_can_bittiming_const 500000 unset ≡ some (timed half_megabit)
unfolding calc_with
found = refl

calc_with-IsTimed_example :
    IsTimed
      (c_can_set_bittiming c_can_registers half_megabit (λ reg. 0) c_can_btr_reg)
      (c_can_set_bittiming c_can_registers half_megabit (λ reg. 0) c_can_brpext_reg)
      half_megabit
calc_with-IsTimed_example =
    calc_with-IsTimed 8000000 500000 unset half_megabit (λ reg. 0) (omega arith) (omega arith)
      (omega arith) found

-- One frame is outstanding, in object 17, and it is sent; or it is not.
abbrev one_sent : CCan (ℕ → ℕ)
one_sent = record in_use { tx_next = 1 }

abbrev one_waiting : CCan (ℕ → ℕ)
one_waiting = record one_sent { bus = update (λ reg. 0) 31 1 }

c_can_do_tx_total_example :
    (st' : CCan (ℕ → ℕ)) × (c_can_do_tx c_can_registers 2 one_sent ≡ some st')
    × IsEchoed c_can_registers one_sent st'
c_can_do_tx_total_example =
    c_can_do_tx_total c_can_registers 2 one_sent (omega arith, omega arith) (omega arith)

chip-IsCoherent : IsCoherent chip
unfolding sem_exists
chip-IsCoherent = record { senders = refl; line = refl }

set_mode-IsCoherent_example : IsCoherent (c_can_set_mode c_can_registers none chip CanMode.start).1
set_mode-IsCoherent_example =
    set_mode-IsCoherent c_can_registers none chip CanMode.start chip-IsCoherent

-- A standard frame of three bytes, for object 17.
abbrev message : Wire
message = record { extended = false; remote = false; id = 0x123; dlc = 3; payload = λ i. 0x42 }

message-IsWire : IsWire message
message-IsWire = record { fits = omega arith; coded = omega arith; bytes = λ i. omega arith }

c_can_write_msg_object-IsSent_example :
    IsSent (c_can_write_msg_object c_can_registers 0 (frame_of message) 17 (λ reg. 0)) 17 message
    × ((k : ℕ)
        → 4 ≤ k
        → c_can_write_msg_object c_can_registers 0 (frame_of message) 17 (λ reg. 0) (15 + k) ≡ 0)
c_can_write_msg_object-IsSent_example =
    c_can_write_msg_object-IsSent message 17 (λ reg. 0) message-IsWire (omega arith)

recovery_keeps_senders_example :
    ((serve_status c_can_registers clock config stack (service off_bus)).chip.dev.state
      ≡ CanState.active)
    × ((serve_status c_can_registers clock config stack (service off_bus)).chip.dev.tx_sem
        ≡ off_bus.dev.tx_sem)
recovery_keeps_senders_example =
    recovery_keeps_senders c_can_registers clock config stack (service off_bus) refl (omega arith)

-- Object 1 holds a new message of two bytes.
abbrev received_one : Service (ℕ → ℕ)
received_one = service (record in_use { bus = update (update (λ reg. 0) 34 1) 14 (2 ^ 15 + 2) })

c_can_do_rx_poll_lem_example :
    let p = c_can_do_rx_poll c_can_registers clock config (λ obj. skb) skb received_one in
    (p.num_rx_pkts ≤ 16) × IsCounted used_device p.service.chip.dev p.num_rx_pkts
c_can_do_rx_poll_lem_example =
    c_can_do_rx_poll_lem c_can_registers clock config (λ obj. skb) skb received_one

-- A D_CAN on registers that keep what is written, and a table with room for it.
abbrev words : Mmio (ℕ → ℕ)
words = record {
  readw = λ bus reg. (bus reg, bus);
  writew = update;
  readl = λ bus reg. (bus reg, bus);
  writel = update;
}

abbrev board : CPlatform
board = record {
  driver_data = some 2;
  clk = some 24000000;
  mem = true;
  is_32bit = false;
  irq = 52;
  region_free = true;
  mapping = some 0x1000;
  memory = true;
  raminit_ctrlreg = some 0x644;
  instance_number = 0;
}

abbrev first_name : List ℕ → ℕ → List ℕ
first_name mask i = b'r' ∷ (b'0' + i) ∷ []

c_can_probe_outcome_example : IsSeen config (one_device used_device) true (
    c_can_plat_probe words
      (λ get bus. bus)
      first_name
      config
      board
      (one_device used_device)
      (λ reg. 0))
c_can_probe_outcome_example =
    c_can_probe_outcome words (λ get bus. bus) first_name config board (one_device used_device)
      (λ reg. 0)
