-- ===== src/Mscan/Senders/Steps.antt =====
-- Sequences of steps of an MSCAN device, in which calls and interrupts are mixed.
use rtcan_bb.Base.{ℕ, some, false, ◌≡◌}
use rtcan_bb.Base.Partial.{Post-some}
use rtcan_bb.Rtcan.Abi.{CanMode, CanFrame, Ret}
use rtcan_bb.Rtcan.Socket.{sem_exists, Config, Skb, Sockets, sem_up, sem_timeddown}
use rtcan_bb.Rtcan.Device.{Bittime}
use rtcan_bb.Sja1000.Modes.{is_reset}
use rtcan_bb.Mscan.{MscanPort, Mscan, mscan_call_sem}
use rtcan_bb.Mscan.Frames.{mscan_start_xmit}
use rtcan_bb.Mscan.Timing.{mscan_set_bit_time}
use rtcan_bb.Mscan.Modes.{mscan_set_mode}
use rtcan_bb.Mscan.Interrupt.{mscan_interrupt}
use rtcan_bb.Mscan.Senders.{HasSem, IsServed, set_mode-IsServed}
use rtcan_bb.Mscan.Senders.Service.{interrupt-IsServed}

-- What happens to a device, one step at a time: the calls of the driver, the calls on the semaphore
-- that the stack makes, and the interrupt routine outside reset mode. A change of mode is a step
-- when it returns, within the tests `n` that its wait is allowed; `nap` is what happens while it has
-- let go of the lock.
module _ {B : Type 0} (port : MscanPort B) (now : B → ℕ × B) (cfg : Config)
    (nap : Mscan B → Mscan B) where
  pub data MscanStep : Mscan B → Mscan B → Type 0 where
    mode_set :
        (n : ℕ) (st st' : Mscan B) (mode : CanMode) (ret : Ret)
        → mscan_set_mode port nap n st mode ≡ some (ret, st')
        → MscanStep st st'
    frame_sent :
        (st : Mscan B) (frame : CanFrame)
        → MscanStep st (record st { bus = (mscan_start_xmit port frame st.bus).1 })
    bit_time_set :
        (st : Mscan B) (bit_time : Bittime) → MscanStep st (mscan_set_bit_time port st bit_time)
    waited : (st : Mscan B) → MscanStep st (mscan_call_sem st sem_timeddown)
    released : (st : Mscan B) → MscanStep st (mscan_call_sem st sem_up)
    interrupted :
        (st : Mscan B) (socks : Sockets) (skb : Skb)
        → is_reset st.dev.state ≡ false
        → MscanStep st
            (mscan_interrupt port now cfg (record { chip = st; sockets = socks; skb = skb })).chip

  pub data MscanHistory : Mscan B → Mscan B → Type 0 where
    here : (st : Mscan B) → MscanHistory st st
    later : (st st1 st2 : Mscan B) → MscanStep st st1 → MscanHistory st1 st2 → MscanHistory st st2

  module _ (kept : (st : Mscan B) → HasSem st → HasSem (nap st)) where
    step-IsServed : {st st' : Mscan B} → MscanStep st st' → IsServed st → IsServed st'
    unfolding sem_exists mscan_set_bit_time
    step-IsServed (mode_set n st st' mode ret e) s =
        Post-some (λ (r : Ret × Mscan B). IsServed r.1) (mscan_set_mode port nap n st mode)
          (ret, st') (set_mode-IsServed port nap kept n st mode s) e
    step-IsServed (frame_sent st frame) s = s
    step-IsServed (bit_time_set st bit_time) s = s
    step-IsServed (waited st) s = s
    step-IsServed (released st) s = s
    step-IsServed (interrupted st socks skb running) s =
        interrupt-IsServed port now cfg (record { chip = st; sockets = socks; skb = skb }) running s

    -- When what happens while a change of mode has let go of the lock leaves an existing semaphore of
    -- the senders in existence, every sequence of steps of an MSCAN device, with changes of mode that
    -- return and interrupts that come outside stop and bus-off, keeps that semaphore in step with the
    -- state: it exists exactly while the controller is neither stopped nor in bus-off.
    pub mscan_run-IsServed : {st st' : Mscan B} → MscanHistory st st' → IsServed st → IsServed st'
    mscan_run-IsServed (here st) s = s
    mscan_run-IsServed (later st st1 st2 step run) s = mscan_run-IsServed run (step-IsServed step s)
