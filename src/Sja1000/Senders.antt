-- ===== src/Sja1000/Senders.antt =====
-- The semaphore of the senders follows the state of the controller.
pub mod Service
pub mod Steps
use rtcan_bb.Base.{
  ℕ, zero, suc, ◌+◌, ◌-◌, ◌≤◌, Bool, true, false, not, ◌&&◌, ◌||◌, List, [], ◌∷◌, ◌≡◌, refl, sym,
  ap, ◌∙◌, arith, subst, if◌then◌else◌, Option, none, some, ◌==◌, bit_and,
}
use rtcan_bb.Base.Memory.{Bytes}
use rtcan_bb.Rtcan.Abi.{CanState, CanMode, CanFrame, Ret}
use rtcan_bb.Rtcan.Socket.{
  sem_exists, Config, Skb, Sockets, SemCall, sem_init, sem_up, sem_timeddown, sem_destroy,
}
use rtcan_bb.Rtcan.Device.{Device, Bittime}
use rtcan_bb.Receive.{rcv, loopback}
use rtcan_bb.Sja1000.{Port, Sja, sja_mod, sja_ier, sja_sr}
use rtcan_bb.Sja1000.Errors.{
  err_interrupt, after_epi, after_ei, serve_ei, has, sja_sr_bs, sja_sr_es, sja_ir_ei, sja_ir_epi,
  sja_ir_bei, sja_ir_ri, is_warning,
}
use rtcan_bb.Sja1000.Interrupt.{
  Handler, serve, serve_wakeup, serve_errors, serve_transmit, serve_receive, hand_over,
  count_bus_err, sja_ir_errors,
}
use rtcan_bb.Sja1000.Frames.{start_xmit}
use rtcan_bb.Sja1000.Timing.{sja_set_bit_time}
use rtcan_bb.Sja1000.Modes.{
  sja_enable_bus_err, is_reset, set_state, call_sem, sja_is_operating, await_reset, mode_stop,
  mode_start, end_stop, start_from, mode_sleep, set_mode, get_state, is_asleep, signed_below,
  sja_read, sja_write, sja_mod_rm,
}

-- The senders can wait exactly while the controller is not in reset mode, and waking up does not
-- lead into that mode.
pub record IsSound {B : Type 0} (st : Sja B) : Type 0 where
  pub senders : sem_exists st.dev.tx_sem ≡ not (is_reset st.dev.state)
  pub wakes : is_reset st.state_before_sleep ≡ false

-- Only the hardware has changed, and a step that is taken under a test.
pub bus-IsSound :
    {B : Type 0} (st : Sja B) (bus : B) → IsSound st → IsSound (record st { bus = bus })
bus-IsSound st bus s = record { senders = s.senders; wakes = s.wakes }

pub IsSound-if :
    {A B : Type 0} (c : Bool) (r r' : A × Sja B)
    → IsSound r.1
    → IsSound r'.1
    → IsSound (if c then r else r').1
IsSound-if true r r' s s' = s
IsSound-if false r r' s s' = s'

module _ {B : Type 0} (port : Port B) where
  -- A caller stores the state that `rtcan_sja_get_state` returns.
  abbrev pub store_state : Sja B → Sja B
  store_state st = let (state, st') = get_state port st in set_state st' state

  pub get_state-IsSound : (st : Sja B) → IsSound st → IsSound (store_state st)
  unfolding get_state sja_is_operating sem_exists
  get_state-IsSound st s = record {
    senders = ground (arith, s.senders);
    wakes = ground (arith, s.wakes);
  }

  mode_sleep-IsSound : (st : Sja B) → IsSound st → IsSound (mode_sleep port st).1
  unfolding mode_sleep sja_is_operating sem_exists
  mode_sleep-IsSound st s = record {
    senders = ground (arith, s.senders);
    wakes = ground (arith, s.wakes);
  }

  module _ (nap : Sja B → Sja B) (kept : (st : Sja B) → IsSound st → IsSound (nap st)) where
    await_reset-IsSound : (n : ℕ) (st : Sja B) → IsSound st → IsSound (await_reset port nap n st).1
    unfolding await_reset
    await_reset-IsSound zero st s = s
    await_reset-IsSound (suc n) st s =
        let st1 = (sja_read port st sja_mod).1 in
        IsSound-if (has (sja_read port st sja_mod).0 sja_mod_rm) _ _ (bus-IsSound st _ s)
          (await_reset-IsSound n (nap st1) (kept st1 (bus-IsSound st _ s)))

    end_stop-IsSound : (r : Bool × Sja B) → IsSound r.1 → IsSound (end_stop port r).1
    unfolding end_stop sem_exists
    end_stop-IsSound (true, st) s = record { senders = refl; wakes = s.wakes }
    end_stop-IsSound (false, st) s = bus-IsSound st _ s

    mode_stop-IsSound : (st : Sja B) → IsSound st → IsSound (mode_stop port nap st).1
    unfolding mode_stop
    mode_stop-IsSound st s =
        IsSound-if {A = Ret} (is_reset st.dev.state) _ _ s
          (end_stop-IsSound _ (await_reset-IsSound 50 _ (bus-IsSound st _ s)))

    start_from-IsSound :
        (state : CanState) (mod_reg : ℕ) (st : Sja B)
        → IsSound st
        → IsSound (start_from port nap state mod_reg st)
    unfolding start_from sem_exists
    start_from-IsSound CanState.active mod_reg st s = s
    start_from-IsSound CanState.bus_warning mod_reg st s = s
    start_from-IsSound CanState.bus_passive mod_reg st s = s
    start_from-IsSound CanState.scanning_baudrate mod_reg st s = s
    start_from-IsSound CanState.stopped mod_reg st s = record { senders = refl; wakes = s.wakes }
    start_from-IsSound CanState.sleeping mod_reg st s = kept _ (bus-IsSound st _ s)
    start_from-IsSound CanState.bus_off mod_reg st s = record { senders = refl; wakes = s.wakes }

    mode_start-IsSound : (st : Sja B) → IsSound st → IsSound (mode_start port nap st)
    unfolding mode_start
    mode_start-IsSound st s = start_from-IsSound st.dev.state _ st s

    pub set_mode-IsSound :
        (st : Sja B) (mode : CanMode) → IsSound st → IsSound (set_mode port nap st mode).1
    unfolding set_mode
    set_mode-IsSound st CanMode.stop s = mode_stop-IsSound st s
    set_mode-IsSound st CanMode.start s = mode_start-IsSound st s
    set_mode-IsSound st CanMode.sleep s = mode_sleep-IsSound st s
