-- ===== src/Sja1000/Senders/Steps.antt =====
-- Sequences of steps of a device, in which calls and interrupts are mixed.
use rtcan_bb.Base.{ℕ, false, ◌≡◌, arith}
use rtcan_bb.Rtcan.Abi.{CanMode, CanFrame}
use rtcan_bb.Rtcan.Socket.{sem_exists, Config, Skb, Sockets, sem_up, sem_timeddown}
use rtcan_bb.Rtcan.Device.{Bittime}
use rtcan_bb.Sja1000.{Port, Sja}
use rtcan_bb.Sja1000.Interrupt.{serve}
use rtcan_bb.Sja1000.Frames.{start_xmit}
use rtcan_bb.Sja1000.Timing.{sja_set_bit_time}
use rtcan_bb.Sja1000.Modes.{sja_enable_bus_err, is_reset, call_sem, set_mode}
use rtcan_bb.Sja1000.Senders.{
  IsSound, bus-IsSound, set_mode-IsSound, get_state-IsSound, store_state,
}
use rtcan_bb.Sja1000.Senders.Service.{serve-IsSound}

-- What happens to a device, one step at a time: the calls of the driver, the calls on the
-- semaphore that the stack makes, and a round of the interrupt routine that finds the device
-- outside reset mode. Rounds in reset mode are left out, also one that follows a bus-off in the
-- same interrupt. `nap` is what happens while a change of mode has let go of the lock.
module _ {B : Type 0} (port : Port B) (now : B → ℕ × B) (cfg : Config) (nap : Sja B → Sja B) where
  pub data Step : Sja B → Sja B → Type 0 where
    mode_set : (st : Sja B) (mode : CanMode) → Step st (set_mode port nap st mode).1
    state_asked : (st : Sja B) → Step st (store_state port st)
    frame_sent :
        (st : Sja B) (frame : CanFrame)
        → Step st (record st { bus = start_xmit port st.dev frame st.bus })
    bit_time_set : (st : Sja B) (bit_time : Bittime) → Step st (sja_set_bit_time port st bit_time)
    bus_err_enabled : (st : Sja B) → Step st (sja_enable_bus_err port st)
    waited : (st : Sja B) → Step st (call_sem st sem_timeddown)
    released : (st : Sja B) → Step st (call_sem st sem_up)
    interrupted :
        (st : Sja B) (irq : ℕ) (socks : Sockets) (skb : Skb)
        → is_reset st.dev.state ≡ false
        → Step st (serve port now cfg irq (record { chip = st; sockets = socks; skb = skb })).chip

  pub data Run : Sja B → Sja B → Type 0 where
    here : (st : Sja B) → Run st st
    later : (st st1 st2 : Sja B) → Step st st1 → Run st1 st2 → Run st st2

  enable_bus_err-IsSound : (st : Sja B) → IsSound st → IsSound (sja_enable_bus_err port st)
  unfolding sja_enable_bus_err
  enable_bus_err-IsSound st s = record {
    senders = ground (arith, s.senders);
    wakes = ground (arith, s.wakes);
  }

  module _ (kept : (st : Sja B) → IsSound st → IsSound (nap st)) where
    step-IsSound : {st st' : Sja B} → Step st st' → IsSound st → IsSound st'
    unfolding sem_exists sja_set_bit_time
    step-IsSound (mode_set st mode) s = set_mode-IsSound port nap kept st mode s
    step-IsSound (state_asked st) s = get_state-IsSound port st s
    step-IsSound (frame_sent st frame) s = bus-IsSound st _ s
    step-IsSound (bit_time_set st bit_time) s = bus-IsSound st _ s
    step-IsSound (bus_err_enabled st) s = enable_bus_err-IsSound st s
    step-IsSound (waited st) s = record { senders = s.senders; wakes = s.wakes }
    step-IsSound (released st) s = record { senders = s.senders; wakes = s.wakes }
    step-IsSound (interrupted st irq socks skb running) s =
        serve-IsSound port now cfg irq (record { chip = st; sockets = socks; skb = skb }) running s

    -- When what happens while a change of mode has let go of the lock keeps the device sound, every
    -- sequence of calls and of rounds of the interrupt routine does, where each round finds the device
    -- neither stopped nor in bus-off (so none follows the round that has entered bus-off): the semaphore of the senders exists exactly while the controller is
    -- not in reset mode, and waking up leads into an operating state.
    pub run-IsSound : {st st' : Sja B} → Run st st' → IsSound st → IsSound st'
    run-IsSound (here st) s = s
    run-IsSound (later st st1 st2 step run) s = run-IsSound run (step-IsSound step s)
