-- ===== src/Mscan/Senders.antt =====
-- The semaphore of the senders follows the state of the controller.
pub mod Service
pub mod Steps
use rtcan_bb.Base.{
  ℕ, zero, suc, ◌+◌, Bool, true, false, not, Option, none, some, ◌∷◌, ◌≡◌, refl, sym, ap, ◌∙◌,
  subst, arith, if◌then◌else◌, ◌==◌,
}
use rtcan_bb.Base.Partial.{Post, Post-if}
use rtcan_bb.Rtcan.Abi.{CanState, is_operating, CanMode, Ret, ok, err}
use rtcan_bb.Rtcan.Socket.{sem_exists, sem_init, sem_destroy}
use rtcan_bb.Sja1000.Errors.{has}
use rtcan_bb.Sja1000.Modes.{is_reset}
use rtcan_bb.Mscan.{MscanPort, Mscan, canctl1, mscan_in, mscan_set_state}
use rtcan_bb.Mscan.Modes.{
  mscan_await, mscan_end_stop, mscan_mode_stop, mscan_is_inactive, mscan_await_normal,
  mscan_request_normal, mscan_enable, mscan_start_up, mscan_start_from, mscan_mode_start,
  mscan_doze, mscan_fall_asleep, mscan_mode_sleep, mscan_set_mode, mscan_returned, mscan_slpak,
  mscan_initak, mscan_go_to_sleep, mscan_leave_init,
}
use rtcan_bb.Mscan.Modes.Stop.{mscan_mode_stop_outcome}

-- The semaphore is there, and it is there exactly while the controller is neither stopped nor in
-- bus-off.
abbrev pub HasSem : {B : Type 0} → Mscan B → Type 0
HasSem st = sem_exists st.dev.tx_sem ≡ true

abbrev pub IsServed : {B : Type 0} → Mscan B → Type 0
IsServed st = sem_exists st.dev.tx_sem ≡ not (is_reset st.dev.state)

-- A state before bus-off is no reset state.
operating_lem : (state : CanState) → is_operating state ≡ true → is_reset state ≡ false
operating_lem CanState.active e = refl
operating_lem CanState.bus_warning e = refl
operating_lem CanState.bus_passive e = refl
operating_lem CanState.bus_off e = absurd (ground arith)
operating_lem CanState.scanning_baudrate e = refl
operating_lem CanState.stopped e = absurd (ground arith)
operating_lem CanState.sleeping e = refl

-- A step that is taken under a test.
pub IsServed-if :
    {A B : Type 0} (c : Bool) (r r' : A × Mscan B)
    → (c ≡ true → IsServed r.1)
    → (c ≡ false → IsServed r'.1)
    → IsServed (if c then r else r').1
IsServed-if true r r' s s' = s refl
IsServed-if false r r' s s' = s' refl

HasSem-if :
    {A B : Type 0} (c : Bool) (r r' : A × Mscan B)
    → HasSem r.1
    → HasSem r'.1
    → HasSem (if c then r else r').1
HasSem-if true r r' s s' = s
HasSem-if false r r' s s' = s'

-- `kept`: what happens while the lock is free leaves the semaphore there.
module _ {B : Type 0} (port : MscanPort B) (nap : Mscan B → Mscan B)
    (kept : (st : Mscan B) → HasSem st → HasSem (nap st)) where
  -- The waits.
  inactive-HasSem : (st : Mscan B) → HasSem st → HasSem (mscan_is_inactive port st).1
  unfolding mscan_is_inactive
  inactive-HasSem st h = ground (arith, h)

  await_normal-HasSem :
      (n : ℕ) (st : Mscan B) → HasSem st → Post HasSem (mscan_await_normal port nap n st)
  unfolding mscan_await_normal
  await_normal-HasSem zero st h = tt
  await_normal-HasSem (suc n) st h =
      let rested = inactive-HasSem st h in
      let st1 = (mscan_is_inactive port st).1 in
      Post-if HasSem (mscan_is_inactive port st).0 _ _
        (λ rests. await_normal-HasSem n (nap st1) (kept st1 rested)) (λ wakes. rested)

  doze-HasSem :
      (bit : ℕ) (wanted : Bool) (n : ℕ) (st : Mscan B)
      → HasSem st
      → HasSem (mscan_doze port nap bit wanted n st).1
  unfolding mscan_doze
  doze-HasSem bit true zero st h =
      HasSem-if (has (mscan_in port st canctl1).0 bit) _ _ h (kept (mscan_in port st canctl1).1 h)
  doze-HasSem bit false zero st h =
      HasSem-if (has (mscan_in port st canctl1).0 bit) _ _ (kept (mscan_in port st canctl1).1 h) h
  doze-HasSem bit true (suc n) st h = HasSem-if (has (mscan_in port st canctl1).0 bit) _ _ h (
      doze-HasSem bit true n (nap (mscan_in port st canctl1).1)
        (kept (mscan_in port st canctl1).1 h))
  doze-HasSem bit false (suc n) st h =
      HasSem-if (has (mscan_in port st canctl1).0 bit) _ _
        (doze-HasSem bit false n (nap (mscan_in port st canctl1).1)
          (kept (mscan_in port st canctl1).1 h))
        h

  -- A stop.
  mode_stop-IsServed :
      (st : Mscan B) (b : Bool)
      → is_operating st.dev.state ≡ b
      → IsServed st
      → IsServed (mscan_mode_stop port nap st).1
  unfolding sem_exists
  mode_stop-IsServed st true e s =
      let (first, second, waited, waited', outcome) = (mscan_mode_stop_outcome port nap st).0 e in
      subst (λ (r : Ret × Mscan B). IsServed r.1) (sym outcome) refl
  mode_stop-IsServed st false e s =
      subst (λ (r : Ret × Mscan B). IsServed r.1) (sym ((mscan_mode_stop_outcome port nap st).1 e))
        s

  -- A start.
  request-HasSem : (st : Mscan B) → HasSem (mscan_request_normal port st)
  unfolding mscan_request_normal sem_exists
  request-HasSem st = ground arith

  enable-IsServed : (r : Option (Mscan B)) → Post HasSem r → Post IsServed (mscan_enable port r)
  unfolding mscan_enable
  enable-IsServed none p = tt
  enable-IsServed (some st) p = p

  start_up-IsServed : (n : ℕ) (st : Mscan B) → Post IsServed (mscan_start_up port nap n st)
  unfolding mscan_start_up
  start_up-IsServed n st =
      enable-IsServed _ (await_normal-HasSem n (mscan_request_normal port st) (request-HasSem st))

  start_from-IsServed :
      (state : CanState) (n : ℕ) (st : Mscan B)
      → IsServed st
      → Post IsServed (mscan_start_from port nap state n st)
  unfolding mscan_start_from sem_exists
  start_from-IsServed CanState.active n st s = s
  start_from-IsServed CanState.bus_warning n st s = s
  start_from-IsServed CanState.bus_passive n st s = s
  start_from-IsServed CanState.scanning_baudrate n st s = s
  start_from-IsServed CanState.sleeping n st s = start_up-IsServed n st
  start_from-IsServed CanState.stopped n st s = start_up-IsServed n st
  start_from-IsServed CanState.bus_off n st s = refl

  -- A sleep.
  go_to_sleep-HasSem : (st : Mscan B) → HasSem st → HasSem (mscan_go_to_sleep port nap st).1
  unfolding mscan_go_to_sleep
  go_to_sleep-HasSem st h = doze-HasSem mscan_slpak true 1000 _ h

  leave_init-HasSem : (r : ℕ × Mscan B) → HasSem r.1 → HasSem (mscan_leave_init port nap r)
  unfolding mscan_leave_init
  leave_init-HasSem (left, st) h = doze-HasSem mscan_initak false left _ h

  fall_asleep-IsServed : (st : Mscan B) → HasSem st → IsServed (mscan_fall_asleep port nap st)
  unfolding mscan_fall_asleep
  fall_asleep-IsServed st h = leave_init-HasSem _ (go_to_sleep-HasSem st h)

  mode_sleep-IsServed : (st : Mscan B) → IsServed st → IsServed (mscan_mode_sleep port nap st).1
  unfolding mscan_mode_sleep
  mode_sleep-IsServed st s =
      IsServed-if (not (is_operating st.dev.state)) _ _ (λ e. s)
        (λ e. IsServed-if _ _ _ (λ e'. s) (λ e'. fall_asleep-IsServed st (operates e)))
    where
      operates : not (is_operating st.dev.state) ≡ false → HasSem st
      operates e = s ∙ ap not (operating_lem st.dev.state (ground (arith, e)))

  returned-IsServed :
      (r : Option (Mscan B))
      → Post IsServed r
      → Post (λ (r : Ret × Mscan B). IsServed r.1) (mscan_returned r)
  unfolding mscan_returned
  returned-IsServed none p = tt
  returned-IsServed (some st) p = p

  mode_start-IsServed :
      (n : ℕ) (st : Mscan B) → IsServed st → Post IsServed (mscan_mode_start port nap n st)
  unfolding mscan_mode_start
  mode_start-IsServed n st s = start_from-IsServed st.dev.state n st s

  pub set_mode-IsServed :
      (n : ℕ) (st : Mscan B) (mode : CanMode)
      → IsServed st
      → Post (λ (r : Ret × Mscan B). IsServed r.1) (mscan_set_mode port nap n st mode)
  unfolding mscan_set_mode
  set_mode-IsServed n st CanMode.stop s = mode_stop-IsServed st (is_operating st.dev.state) refl s
  set_mode-IsServed n st CanMode.start s = returned-IsServed _ (mode_start-IsServed n st s)
  set_mode-IsServed n st CanMode.sleep s = mode_sleep-IsServed st s
