-- ===== src/Tests/Freescale.antt =====
-- The theorems on the MSCAN and on the FlexCAN at concrete devices, on registers that keep what is
-- written.
use rtcan_bb.Base.{
  ℕ, ◌+◌, ◌^◌, ◌≡◌, ◌⊎◌, refl, ap, Bool, true, false, none, some, List, [], ◌∷◌, inr, arith, ltb,
  update, if◌then◌else◌,
}
use rtcan_bb.Base.Memory.{load32}
use rtcan_bb.Rtcan.Abi.{CanState, CanMode, is_operating, ok, err, eio, enodev}
use rtcan_bb.Rtcan.Socket.{sem_init, sem_destroy, sem_exists}
use rtcan_bb.Rtcan.Device.{Device, std}
use rtcan_bb.Registry.{no_bit_time, drained}
use rtcan_bb.Sja1000.Errors.{has}
use rtcan_bb.Sja1000.Frames.Wire.{Wire, IsWire, frame_of}
use rtcan_bb.Sja1000.Frames.Roundtrip.{IsRead}
use rtcan_bb.Mscan.{
  Mscan, mscan_memory, canctl0, cantflg, canrxfg, cantxfg, mscan_set, mscan_set_state,
  mscan_call_sem,
}
use rtcan_bb.Mscan.Frames.{mscan_start_xmit, mscan_rx_interrupt, mscan_txe0}
use rtcan_bb.Mscan.Frames.Roundtrip.{mscan_xmit-rx_lem}
use rtcan_bb.Mscan.Errors.{mscan_ovrif, mscan_cscif, mscan_err_interrupt}
use rtcan_bb.Mscan.Errors.Status.{
  IsReported, receiver_level, transmitter_level, worst_level, mscan_err_interrupt_outcome,
}
use rtcan_bb.Mscan.Modes.{
  mscan_slprq, mscan_slpak, mscan_initak, mscan_mode_stop, mscan_request_normal, mscan_set_mode,
}
use rtcan_bb.Mscan.Modes.Stop.{IsWaited, requested_init, mscan_mode_stop_outcome}
use rtcan_bb.Mscan.Senders.{IsServed}
use rtcan_bb.Mscan.Senders.Steps.{MscanHistory, mode_set, here, later, mscan_run-IsServed}
use rtcan_bb.Flexcan.{Flexcan, flexcan_memory}
use rtcan_bb.Flexcan.Frames.{flexcan_start_xmit, flexcan_rx_interrupt}
use rtcan_bb.Flexcan.Frames.Fields.{cut}
use rtcan_bb.Flexcan.Frames.Roundtrip.{flexcan_xmit-rx_lem}
use rtcan_bb.Flexcan.Modes.{flexcan_set_mode}
use rtcan_bb.Flexcan.Modes.Held.{IsHeld}
use rtcan_bb.Flexcan.Steps.{FlexcanStep, FlexcanHistory, flexcan_run-IsHeld}
use rtcan_bb.Flexcan.Probe.{Platform, flexcan_probe, flexcan_remove}
use rtcan_bb.Flexcan.Probe.Outcome.{IsSettled, flexcan_probe_outcome}
use rtcan_bb.Flexcan.Probe.Removal.{emptied, flexcan_remove_outcome}
use rtcan_bb.Tests.{config, used_device, one_device, skb}

-- An MSCAN that is stopped, with registers that read 0, and one that is active.
abbrev chip : Mscan (ℕ → ℕ)
chip = record { bus = λ reg. 0; dev = used_device; state_before_sleep = CanState.active }

abbrev active_device : Device
active_device = record used_device { state = CanState.active; tx_sem = sem_init 1 ∷ [] }

abbrev active_chip : Mscan (ℕ → ℕ)
active_chip = record chip { dev = active_device }

-- Nothing happens elsewhere, and the clock stands still.
abbrev no_nap : Mscan (ℕ → ℕ) → Mscan (ℕ → ℕ)
no_nap st = st

abbrev clock : (ℕ → ℕ) → ℕ × (ℕ → ℕ)
clock bus = (5, bus)

-- An extended frame of five bytes.
abbrev sent : Wire
sent = record { extended = true; remote = false; id = 0x1234567; dlc = 5; payload = λ i. 0x42 }

sent-IsWire : IsWire sent
sent-IsWire = record { fits = omega arith; coded = omega arith; bytes = λ i. omega arith }

-- The transmit buffer is empty, and another controller receives its bytes.
abbrev ready : ℕ → ℕ
ready = update (λ reg. 0) cantflg 1

abbrev copied_regs : ℕ → ℕ
copied_regs reg = (mscan_start_xmit mscan_memory (frame_of sent) ready).1 (reg + 0x20)

mscan_xmit-rx_lem_example :
    (has (ready cantflg) mscan_txe0 ≡ true
      → ((mscan_start_xmit mscan_memory (frame_of sent) ready).0 ≡ ok 0)
        × IsRead sent (mscan_rx_interrupt mscan_memory used_device copied_regs skb).0)
    × (has (ready cantflg) mscan_txe0 ≡ false
        → mscan_start_xmit mscan_memory (frame_of sent) ready ≡ (err eio, ready))
mscan_xmit-rx_lem_example =
    mscan_xmit-rx_lem used_device sent ready copied_regs skb sent-IsWire (λ i below.
      ap (mscan_start_xmit mscan_memory (frame_of sent) ready).1 {x = canrxfg + i + 0x20}
        {y = cantxfg + i} (omega arith))

mscan_mode_stop_outcome_example :
    (is_operating active_chip.dev.state ≡ true
      → (first second : Bool × Mscan (ℕ → ℕ)) × IsWaited mscan_memory no_nap mscan_slpak 255
          (mscan_set mscan_memory active_chip canctl0 mscan_slprq)
          first
        × IsWaited mscan_memory no_nap mscan_initak 255
            (requested_init mscan_memory no_nap first)
            second
        × (mscan_mode_stop mscan_memory no_nap active_chip ≡ (
          if second.0 then ok 0 else err enodev,
          mscan_call_sem (mscan_set_state second.1 CanState.stopped) sem_destroy,
        )))
    × (is_operating active_chip.dev.state ≡ false
        → mscan_mode_stop mscan_memory no_nap active_chip ≡ (ok 0, active_chip))
mscan_mode_stop_outcome_example = mscan_mode_stop_outcome mscan_memory no_nap active_chip

abbrev requested : Mscan (ℕ → ℕ)
requested = mscan_request_normal mscan_memory chip

-- A status change to the warning level of the receiver.
mscan_err_interrupt_outcome_example :
    (has 0x50 mscan_ovrif ≡ false
      → has 0x50 mscan_cscif ≡ true
      → IsReported active_chip
          (mscan_err_interrupt mscan_memory active_chip skb 0x50).0
          (ltb (transmitter_level 0x50) (receiver_level 0x50))
          (worst_level 0x50)
          (mscan_err_interrupt mscan_memory active_chip skb 0x50).1.rb_frame)
    × (has 0x50 mscan_ovrif ≡ true
        → ((mscan_err_interrupt mscan_memory active_chip skb 0x50).0 ≡ active_chip)
          × (load32 (mscan_err_interrupt mscan_memory active_chip skb 0x50).1.rb_frame 0
              ≡ 2 ^ 29 + 2 ^ 2)
          × ((mscan_err_interrupt mscan_memory active_chip skb 0x50).1.rb_frame 7 ≡ 1))
mscan_err_interrupt_outcome_example = mscan_err_interrupt_outcome mscan_memory active_chip skb 0x50

-- A stop of an active device.
abbrev halted : Mscan (ℕ → ℕ)
halted = (mscan_mode_stop mscan_memory no_nap active_chip).1

halt : MscanHistory mscan_memory clock config no_nap active_chip halted
unfolding mscan_set_mode
halt =
    later active_chip halted halted
      (mode_set 3 active_chip halted CanMode.stop
        (mscan_mode_stop mscan_memory no_nap active_chip).0 refl)
      (here halted)

active-IsServed : IsServed active_chip
unfolding sem_exists
active-IsServed = refl

mscan_run-IsServed_example : IsServed halted
mscan_run-IsServed_example =
    mscan_run-IsServed mscan_memory clock config no_nap (λ st h. h) halt active-IsServed

-- The same five bytes through a FlexCAN.
abbrev mailed : ℕ → ℕ
mailed reg = (flexcan_start_xmit flexcan_memory (frame_of sent) (λ reg. 0)).1 (reg + 0x80)

flexcan_xmit-rx_lem_example :
    IsRead (cut sent) (flexcan_rx_interrupt flexcan_memory used_device mailed skb).0
    × ((flexcan_start_xmit flexcan_memory (frame_of sent) (λ reg. 0)).0 ≡ frame_of (cut sent))
flexcan_xmit-rx_lem_example =
    flexcan_xmit-rx_lem used_device sent (λ reg. 0) mailed skb sent-IsWire refl refl refl refl

-- An active FlexCAN.
abbrev flexcan : Flexcan (ℕ → ℕ)
flexcan = record {
  bus = λ reg. 0;
  dev = active_device;
  bit_time = std no_bit_time;
  reg_ctrl_default = 0;
  features = 0;
  clocks = 2;
  irq_held = true;
}

flexcan-IsHeld : IsHeld flexcan
unfolding sem_exists
flexcan-IsHeld = record { irq = refl; clock = refl; senders = λ h. refl }

abbrev rested : Flexcan (ℕ → ℕ)
rested = (flexcan_set_mode flexcan_memory none flexcan CanMode.stop).1

flexcan_halt : FlexcanHistory flexcan_memory clock config flexcan rested
flexcan_halt =
    FlexcanHistory.later flexcan rested rested (FlexcanStep.mode_set none flexcan CanMode.stop)
      (FlexcanHistory.here rested)

flexcan_run-IsHeld_example : IsHeld rested
flexcan_run-IsHeld_example =
    flexcan_run-IsHeld flexcan_memory clock config flexcan_halt flexcan-IsHeld

-- A device that the device tree describes.
abbrev platform : Platform
platform = record {
  pins = none;
  of_match = some 2;
  id_entry = some 4;
  clock_frequency = 24000000;
  clk = inr 24000000;
  mem = true;
  irq = 17;
  region_free = true;
  mapped = true;
  memory = true;
}

abbrev print_name : List ℕ → ℕ → List ℕ
print_name mask i = b'r' ∷ (b'0' + i) ∷ []

flexcan_probe_outcome_example :
    IsSettled flexcan_memory print_name config
      (one_device used_device)
      (flexcan_probe flexcan_memory print_name config platform (one_device used_device) (λ reg. 0))
    × ((features : ℕ)
        → platform.pins ≡ none
        → platform.of_match ≡ some features
        → (flexcan_probe flexcan_memory print_name config platform
            (one_device used_device)
            (λ reg. 0)).code
          ≡ err enodev)
flexcan_probe_outcome_example =
    flexcan_probe_outcome flexcan_memory print_name config platform (one_device used_device)
      (λ reg. 0)

no_users : drained (0 ∷ []) ≡ true
unfolding drained
no_users = refl

flexcan_remove_outcome_example :
    (freed : Flexcan (ℕ → ℕ)) × (flexcan_remove flexcan_memory
        (one_device active_device)
        (0 ∷ [])
        flexcan
      ≡ some (emptied flexcan_memory (one_device active_device) flexcan.dev, freed))
    × ((is_operating flexcan.dev.state ≡ true) ⊎ (flexcan.dev.state ≡ CanState.stopped)
        → (freed.irq_held ≡ false) × (freed.clocks ≡ 1))
    × (flexcan.dev.state ≡ CanState.bus_off → (freed.irq_held ≡ true) × (freed.clocks ≡ 2))
flexcan_remove_outcome_example =
    flexcan_remove_outcome flexcan_memory (one_device active_device) (0 ∷ []) flexcan flexcan-IsHeld
      no_users
