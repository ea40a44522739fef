-- ===== src/Mscan/Modes/Stop.antt =====
-- The two waits of `rtcan_mscan_mode_stop` (can/mscan/rtcan_mscan.c): what it returns and leaves.
use rtcan_bb.Base.{
  ℕ, zero, suc, ◌<◌, Bool, true, false, ◌≡◌, refl, ◌⊎◌, inl, inr, arith, if◌then◌else◌,
}
use rtcan_bb.Rtcan.Abi.{CanState, is_operating, ok, err, enodev}
use rtcan_bb.Rtcan.Socket.{sem_destroy}
use rtcan_bb.Sja1000.Errors.{has}
use rtcan_bb.Mscan.{
  MscanPort, Mscan, canctl0, canctl1, mscan_set_state, mscan_call_sem, mscan_in, mscan_set,
}
use rtcan_bb.Mscan.Modes.{
  mscan_slprq, mscan_initrq, mscan_slpak, mscan_initak, mscan_await, mscan_asleep, mscan_end_stop,
  mscan_mode_stop,
}

module _ {B : Type 0} (port : MscanPort B) (nap : Mscan B → Mscan B) where
  -- The device at test `i`, whether the chip shows a bit there, and the device after that.
  unfoldable pub at_test : ℕ → Mscan B → Mscan B
  at_test zero st = st
  at_test (suc i) st = at_test i (nap (mscan_in port st canctl1).1)

  abbrev pub shows : ℕ → Mscan B → Bool
  shows bit st = has (mscan_in port st canctl1).0 bit

  abbrev pub after_test : ℕ → Mscan B → Mscan B
  after_test i st = (mscan_in port (at_test i st) canctl1).1

  -- The first of `n` tests that shows the bit ends the wait; when none does, the register is read
  -- once more and the wait has failed.
  abbrev pub IsWaited : ℕ → ℕ → Mscan B → Bool × Mscan B → Type 0
  IsWaited bit n st r =
      ((i : ℕ) × (i < n)
        × (shows bit (at_test i st) ≡ true)
        × ((k : ℕ) → k < i → shows bit (at_test k st) ≡ false)
        × (r ≡ (true, after_test i st)))
      ⊎ (((k : ℕ) → k < n → shows bit (at_test k st) ≡ false) × (r ≡ (false, after_test n st)))

  -- One more test.
  by_test :
      (bit n : ℕ) (st : Mscan B) (b : Bool)
      → shows bit st ≡ b
      → IsWaited bit n
          (nap (mscan_in port st canctl1).1)
          (mscan_await port nap bit n (nap (mscan_in port st canctl1).1))
      → IsWaited bit (suc n) st (mscan_await port nap bit (suc n) st)
  unfolding at_test mscan_await
  by_test bit n st true e rest = inl (0, omega arith, e, (λ k p. absurd (omega arith)), rw e refl)
  by_test bit n st false e (inl (i, below, e', before, r)) =
      inl (suc i, omega arith, e', earlier, rw e r)
    where
      earlier : (k : ℕ) → k < suc i → shows bit (at_test k st) ≡ false
      earlier zero p = e
      earlier (suc k) p = before k (omega arith)
  by_test bit n st false e (inr (before, r)) = inr (earlier, rw e r)
    where
      earlier : (k : ℕ) → k < suc n → shows bit (at_test k st) ≡ false
      earlier zero p = e
      earlier (suc k) p = before k (omega arith)

  mscan_await-IsWaited :
      (bit n : ℕ) (st : Mscan B) → IsWaited bit n st (mscan_await port nap bit n st)
  unfolding at_test mscan_await
  mscan_await-IsWaited bit zero st = inr ((λ k p. absurd (omega arith)), refl)
  mscan_await-IsWaited bit (suc n) st =
      by_test bit n st (shows bit st) refl
        (mscan_await-IsWaited bit n (nap (mscan_in port st canctl1).1))

  -- The start of the second wait.
  abbrev pub requested_init : Bool × Mscan B → Mscan B
  requested_init (asleep, st) =
      mscan_set port (if asleep then mscan_set_state st CanState.sleeping else st) canctl0
        mscan_initrq

  -- For an operating controller, a stop asks for the sleep mode, waits for its acknowledgement for at
  -- most 255 rounds, and asks for the initialisation mode whether it came or not; the device is
  -- marked as sleeping in between only when it came. It then waits for the second acknowledgement in
  -- the same way and returns 0 when that came and -ENODEV when it did not. Either way the state is
  -- stopped and the semaphore of the senders destroyed. A controller that is not operating is left
  -- alone, with the result 0.
  pub mscan_mode_stop_outcome :
      (st : Mscan B)
      → (is_operating st.dev.state ≡ true
          → (first second : Bool × Mscan B) × IsWaited mscan_slpak 255
              (mscan_set port st canctl0 mscan_slprq)
              first
            × IsWaited mscan_initak 255 (requested_init first) second
            × (mscan_mode_stop port nap st ≡ (
              if second.0 then ok 0 else err enodev,
              mscan_call_sem (mscan_set_state second.1 CanState.stopped) sem_destroy,
            )))
        × (is_operating st.dev.state ≡ false → mscan_mode_stop port nap st ≡ (ok 0, st))
  unfolding mscan_mode_stop mscan_asleep mscan_end_stop
  mscan_mode_stop_outcome st = (
    λ e. (
      first,
      mscan_await port nap mscan_initak 255 (requested_init first),
      mscan_await-IsWaited mscan_slpak 255 (mscan_set port st canctl0 mscan_slprq),
      mscan_await-IsWaited mscan_initak 255 (requested_init first),
      rw e refl,
    ),
    λ e. rw e refl,
  )
    where
      first : Bool × Mscan B
      first = mscan_await port nap mscan_slpak 255 (mscan_set port st canctl0 mscan_slprq)
