-- ===== src/Tests/Chip.antt =====
-- The theorems on the SJA1000 at a concrete device, on registers that keep what is written.
use rtcan_bb.Base.{ℕ, ◌<◌, ◌≡◌, ◌⊎◌, refl, true, false, some, [], ◌∷◌, arith}
use rtcan_bb.Rtcan.Abi.{CanState, CanMode, ok, err, eagain}
use rtcan_bb.Rtcan.Socket.{sem_init, sem_destroy, sem_exists}
use rtcan_bb.Rtcan.Device.{Device, BittimeStd, std}
use rtcan_bb.BitTiming.{calc_with, timed}
use rtcan_bb.Sja1000.{Sja, sja_mod, sja_btr0, sja_btr1, sja_ier}
use rtcan_bb.Sja1000.Errors.{sja1000_ier}
use rtcan_bb.Sja1000.Frames.{start_xmit, rx_interrupt}
use rtcan_bb.Sja1000.Frames.Wire.{Wire, IsWire, frame_of, registers}
use rtcan_bb.Sja1000.Frames.Roundtrip.{IsRead, xmit_roundtrip}
use rtcan_bb.Sja1000.Modes.{call_sem, set_state, sja_read, sja_write, mode_stop, set_mode}
use rtcan_bb.Sja1000.Modes.Stop.{tested, shows_reset, started_stop, mode_stop_outcome}
use rtcan_bb.Sja1000.Senders.{IsSound}
use rtcan_bb.Sja1000.Senders.Steps.{Run, mode_set, here, later, run-IsSound}
use rtcan_bb.Sja1000.Timing.{
  Programmed, sja1000_bittiming_const, sja_set_bit_time, calc_with-Programmed,
}
use rtcan_bb.Tests.{config, used_device, skb}

-- A device that is stopped, with registers that read 0.
abbrev chip : Sja (ℕ → ℕ)
chip = record {
  bus = λ reg. 0;
  dev = used_device;
  state_before_sleep = CanState.active;
  bus_err_on = 1;
}

abbrev active_device : Device
active_device = record used_device { state = CanState.active; tx_sem = sem_init 1 ∷ [] }

abbrev active_chip : Sja (ℕ → ℕ)
active_chip = record chip { dev = active_device }

-- Nothing happens elsewhere, and the clock stands still.
abbrev no_nap : Sja (ℕ → ℕ) → Sja (ℕ → ℕ)
no_nap st = st

abbrev clock : (ℕ → ℕ) → ℕ × (ℕ → ℕ)
clock bus = (5, bus)

-- An extended frame of three bytes.
abbrev sent : Wire
sent = record { extended = true; remote = false; id = 0x1234567; dlc = 3; payload = λ i. 0x42 }

sent-IsWire : IsWire sent
sent-IsWire = record { fits = omega arith; coded = omega arith; bytes = λ i. omega arith }

xmit_roundtrip_example :
    IsRead sent
      (rx_interrupt registers used_device
        (start_xmit registers used_device (frame_of sent) (λ reg. 0))
        skb).0
xmit_roundtrip_example = xmit_roundtrip used_device used_device sent (λ reg. 0) skb sent-IsWire

abbrev unset : BittimeStd
unset = record { brp = 0; prop_seg = 0; phase_seg1 = 0; phase_seg2 = 0; sjw = 0; sam = 0 }

abbrev half_megabit : BittimeStd
half_megabit = record { brp = 1; prop_seg = 6; phase_seg1 = 7; phase_seg2 = 2; sjw = 1; sam = 0 }

found : calc_with 8000000 sja1000_bittiming_const 500000 unset ≡ some (timed half_megabit)
unfolding calc_with
found = refl

calc_with-Programmed_example :
    Programmed
      ((sja_set_bit_time registers chip (std half_megabit)).bus sja_btr0)
      ((sja_set_bit_time registers chip (std half_megabit)).bus sja_btr1)
      half_megabit
calc_with-Programmed_example =
    calc_with-Programmed 8000000 500000 unset half_megabit chip (omega arith) (omega arith) found
      (omega arith)

mode_stop_outcome_example :
    ((i : ℕ) × (i < 50)
      × (shows_reset registers no_nap
            (tested registers no_nap i (started_stop registers no_nap active_chip))
          ≡ true)
      × ((k : ℕ)
          → k < i
          → shows_reset registers no_nap
              (tested registers no_nap k (started_stop registers no_nap active_chip))
            ≡ false)
      × (mode_stop registers no_nap active_chip ≡ (
        ok 0,
        call_sem
            (set_state
              (sja_read registers
                (tested registers no_nap i (started_stop registers no_nap active_chip))
                sja_mod).1
              CanState.stopped)
            sem_destroy,
      )))
    ⊎ (((k : ℕ)
          → k < 50
          → shows_reset registers no_nap
              (tested registers no_nap k (started_stop registers no_nap active_chip))
            ≡ false)
        × (mode_stop registers no_nap active_chip ≡ (
          err eagain,
          sja_write registers
              (tested registers no_nap 50 (started_stop registers no_nap active_chip))
              sja_ier
              sja1000_ier,
        )))
mode_stop_outcome_example = mode_stop_outcome registers no_nap active_chip refl

-- A stopped device is started and stopped again.
abbrev started : Sja (ℕ → ℕ)
started = (set_mode registers no_nap chip CanMode.start).1

abbrev restopped : Sja (ℕ → ℕ)
restopped = (set_mode registers no_nap started CanMode.stop).1

restart : Run registers clock config no_nap chip restopped
restart =
    later chip started restopped (mode_set chip CanMode.start)
      (later started restopped restopped (mode_set started CanMode.stop) (here restopped))

chip-IsSound : IsSound chip
unfolding sem_exists
chip-IsSound = record { senders = refl; wakes = refl }

run-IsSound_example : IsSound restopped
run-IsSound_example = run-IsSound registers clock config no_nap (λ st s. s) restart chip-IsSound
