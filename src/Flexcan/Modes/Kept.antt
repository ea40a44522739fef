-- ===== src/Flexcan/Modes/Kept.antt =====
-- The changes of mode of the FlexCAN driver (can/rtcan_flexcan.c) keep what a device holds.
use rtcan_bb.Base.{
  Bool, true, false, not, Option, none, some, ◌∷◌, ◌≡◌, refl, sym, ap, ◌∙◌, subst, inl, inr, arith,
  if◌then◌else◌,
}
use rtcan_bb.Rtcan.Abi.{Errno, Ret, ok, err, CanState, is_operating, CanMode}
use rtcan_bb.Rtcan.Socket.{SemCall, sem_exists, sem_init, sem_destroy}
use rtcan_bb.Rtcan.Device.{Device}
use rtcan_bb.Flexcan.{FlexcanPort, Flexcan, flexcan_set_state, flexcan_call_sem}
use rtcan_bb.Flexcan.Modes.{
  flexcan_chip_stop, flexcan_mode_stop, flexcan_started, flexcan_start_from, flexcan_mode_start,
  flexcan_set_mode,
}
use rtcan_bb.Flexcan.Modes.Held.{
  IsHeld, IsSameBut, IsBegun, is_stopped, operating-running, switch-IsSameBut, chip_start-IsBegun,
}

-- What a device holds depends on nothing else.
pub as-IsHeld : {B : Type 0} (a b : Flexcan B) → IsHeld a → IsSameBut a b → IsHeld b
as-IsHeld a b s p = record {
  irq = p.irq ∙ s.irq ∙ ap (λ (dev : Device). not (is_stopped dev.state)) (sym p.dev);
  clock =
      p.clocks ∙ s.clock ∙ ap (λ (dev : Device). if is_stopped dev.state then 1 else 2) (sym p.dev);
  senders =
      subst (λ (dev : Device). is_operating dev.state ≡ true → sem_exists dev.tx_sem ≡ true)
        (sym p.dev) s.senders;
}

call_sem-IsSameBut :
    {B : Type 0} (a b : Flexcan B) (call : SemCall)
    → IsSameBut a b
    → IsSameBut (flexcan_call_sem a call) (flexcan_call_sem b call)
call_sem-IsSameBut a b call p = record {
  dev = ap (λ (dev : Device). record dev { tx_sem = call ∷ dev.tx_sem }) p.dev;
  clocks = p.clocks;
  irq = p.irq;
}

-- A stopped device, and one that has just become active.
abbrev pub stopped_from : {B : Type 0} → Flexcan B → Flexcan B
stopped_from st = record (flexcan_call_sem (flexcan_set_state st CanState.stopped) sem_destroy) {
  irq_held = false;
  clocks = 1;
}

stopped_from-IsHeld : {B : Type 0} (st : Flexcan B) → IsHeld (stopped_from st)
stopped_from-IsHeld st = record { irq = refl; clock = refl; senders = λ h. absurd (ground arith) }

module _ {B : Type 0} (port : FlexcanPort B) where
  chip_stop-IsSameBut :
      (st : Flexcan B)
      → IsSameBut (flexcan_set_state st CanState.stopped) (flexcan_chip_stop port st)
  unfolding flexcan_chip_stop
  chip_stop-IsSameBut st =
      let p = switch-IsSameBut port false (record st { bus = _ }) in
      record {
        dev = ap (λ (dev : Device). record dev { state = CanState.stopped }) p.dev;
        clocks = p.clocks;
        irq = p.irq;
      }

  -- A stop of an operating controller gives up the interrupt, one enabling of the clock and the
  -- semaphore. A controller that does not operate is left alone.
  pub mode_stop-IsSameBut :
      (st : Flexcan B)
      → is_operating st.dev.state ≡ true
      → IsHeld st
      → IsSameBut (stopped_from st) (flexcan_mode_stop port st)
  unfolding flexcan_mode_stop
  mode_stop-IsSameBut st e s =
      let p = chip_stop-IsSameBut st in
      let two : st.clocks ≡ 2 =
        s.clock ∙ ap (λ (b : Bool). if b then 1 else 2) (operating-running st.dev.state e) in
      record {
        dev = rw e (ap (λ (dev : Device). record dev { tx_sem = sem_destroy ∷ dev.tx_sem }) p.dev);
        clocks = rw e (omega (arith, p.clocks, two));
        irq = rw e refl;
      }

  mode_stop-IsHeld :
      (st : Flexcan B) (b : Bool)
      → is_operating st.dev.state ≡ b
      → IsHeld st
      → IsHeld (flexcan_mode_stop port st)
  unfolding flexcan_mode_stop
  mode_stop-IsHeld st true e s = as-IsHeld _ _ (stopped_from-IsHeld st) (mode_stop-IsSameBut st e s)
  mode_stop-IsHeld st false e s = rw e s

  -- A start.
  started-IsHeld :
      (st : Flexcan B) (r : Ret × Flexcan B)
      → st.dev.state ≡ CanState.stopped
      → st.clocks ≡ 2
      → st.irq_held ≡ true
      → IsBegun port st r
      → IsHeld (flexcan_started port r).1
  unfolding flexcan_started sem_exists
  started-IsHeld st (ok n, st') e c i (inl (r, p)) =
      as-IsHeld (flexcan_call_sem (flexcan_set_state st CanState.active) (sem_init 1)) _
        (record { irq = i; clock = c; senders = λ h. refl })
        (call_sem-IsSameBut _ st' (sem_init 1) p)
  started-IsHeld st (ok n, st') e c i (inr ((x, r), p)) = absurd (ground arith)
  started-IsHeld st (err x, st') e c i (inl (r, p)) = absurd (ground arith)
  started-IsHeld st (err x, st') e c i (inr (r, p)) =
      let halted : st'.dev.state ≡ CanState.stopped = ap (λ (dev : Device). dev.state) p.dev ∙ e in
      record {
        irq = ap (λ state. not (is_stopped state)) (sym halted);
        clock =
            omega (arith, p.clocks, c)
            ∙ ap (λ (state : CanState). if is_stopped state then 1 else 2) (sym halted);
        senders = λ h. absurd (resting halted h);
      }
    where
      resting : {state : CanState} → state ≡ CanState.stopped → is_operating state ≡ true → ⊥
      resting e h = let never : false ≡ true = sym (ap is_operating e) ∙ h in ground (arith, never)

  recovered-IsHeld :
      (st : Flexcan B) (r : Ret × Flexcan B)
      → st.dev.state ≡ CanState.bus_off
      → sem_exists st.dev.tx_sem ≡ true
      → IsHeld st
      → IsBegun port st r
      → IsHeld r.1
  recovered-IsHeld st r e h s (inl (ret, p)) =
      as-IsHeld (flexcan_set_state st CanState.active) r.1
        (record {
          irq = s.irq ∙ ap (λ (state : CanState). not (is_stopped state)) e;
          clock = s.clock ∙ ap (λ (state : CanState). if is_stopped state then 1 else 2) e;
          senders = λ h'. h;
        })
        p
  recovered-IsHeld st r e h s (inr (ret, p)) = as-IsHeld st r.1 s p

  start_from-IsHeld :
      (state : CanState) (irq : Option Errno) (st : Flexcan B)
      → st.dev.state ≡ state
      → IsHeld st
      → IsHeld (flexcan_start_from port state irq st).1
  unfolding flexcan_start_from sem_exists
  start_from-IsHeld CanState.active irq st e s = s
  start_from-IsHeld CanState.bus_warning irq st e s = s
  start_from-IsHeld CanState.bus_passive irq st e s = s
  start_from-IsHeld CanState.sleeping irq st e s = s
  start_from-IsHeld CanState.scanning_baudrate irq st e s = s
  start_from-IsHeld CanState.stopped (some x) st e s =
      as-IsHeld st _ s (record { dev = refl; clocks = omega arith; irq = refl })
  start_from-IsHeld CanState.stopped none st e s =
      started-IsHeld _ _ e
        (omega (arith, s.clock ∙ ap (λ (state : CanState). if is_stopped state then 1 else 2) e))
        refl (chip_start-IsBegun port _)
  start_from-IsHeld CanState.bus_off irq st e s =
      recovered-IsHeld (flexcan_call_sem st (sem_init 1)) _ e refl
        (record { irq = s.irq; clock = s.clock; senders = λ h. refl })
        (chip_start-IsBegun port (flexcan_call_sem st (sem_init 1)))

  pub flexcan_set_mode-IsHeld :
      (irq : Option Errno) (st : Flexcan B) (mode : CanMode)
      → IsHeld st
      → IsHeld (flexcan_set_mode port irq st mode).1
  unfolding flexcan_set_mode flexcan_mode_start
  flexcan_set_mode-IsHeld irq st CanMode.stop s =
      mode_stop-IsHeld st (is_operating st.dev.state) refl s
  flexcan_set_mode-IsHeld irq st CanMode.start s = start_from-IsHeld st.dev.state irq st refl s
  flexcan_set_mode-IsHeld irq st CanMode.sleep s = s
