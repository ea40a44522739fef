-- ===== src/Sja1000/Modes/Stop.antt =====
-- The wait of `rtcan_sja_mode_stop` (can/sja1000/rtcan_sja1000.c): what it returns and leaves.
use rtcan_bb.Base.{ℕ, zero, suc, ◌<◌, Bool, true, false, ◌≡◌, refl, ap, ◌⊎◌, inl, inr, arith}
use rtcan_bb.Rtcan.Abi.{CanState, ok, err, eagain}
use rtcan_bb.Rtcan.Socket.{sem_destroy}
use rtcan_bb.Sja1000.{Port, Sja, sja_mod, sja_ier}
use rtcan_bb.Sja1000.Errors.{has, sja1000_ier}
use rtcan_bb.Sja1000.Modes.{
  sja_mod_rm, is_reset, set_state, call_sem, sja_read, sja_write, await_reset, end_stop, mode_stop,
}

module _ {B : Type 0} (port : Port B) (nap : Sja B → Sja B) where
  -- The device at test `i`, whether the chip shows the reset mode there, and after the read.
  unfoldable pub tested : ℕ → Sja B → Sja B
  tested zero st = st
  tested (suc i) st = tested i (nap (sja_read port st sja_mod).1)

  abbrev pub shows_reset : Sja B → Bool
  shows_reset st = has (sja_read port st sja_mod).0 sja_mod_rm

  abbrev pub started_stop : Sja B → Sja B
  started_stop st = sja_write port (sja_write port st sja_ier 0) sja_mod sja_mod_rm

  -- The first of `n` tests that shows the reset mode, or that none does.
  abbrev IsWait : ℕ → Sja B → Type 0
  IsWait n st =
      ((i : ℕ) × (i < n)
        × (shows_reset (tested i st) ≡ true)
        × ((k : ℕ) → k < i → shows_reset (tested k st) ≡ false)
        × (await_reset port nap n st ≡ (true, (sja_read port (tested i st) sja_mod).1)))
      ⊎ (((k : ℕ) → k < n → shows_reset (tested k st) ≡ false)
          × (await_reset port nap n st ≡ (false, tested n st)))

  -- One more test.
  shown : (n : ℕ) (st : Sja B) → shows_reset st ≡ true → IsWait (suc n) st
  unfolding tested await_reset
  shown n st e = inl (0, omega arith, e, (λ k p. absurd (omega arith)), rw e refl)

  not_shown :
      (n : ℕ) (st : Sja B)
      → shows_reset st ≡ false
      → IsWait n (nap (sja_read port st sja_mod).1)
      → IsWait (suc n) st
  unfolding tested await_reset
  not_shown n st e (inl (i, below, e', before, r)) = inl (suc i, omega arith, e', earlier, rw e r)
    where
      earlier : (k : ℕ) → k < suc i → shows_reset (tested k st) ≡ false
      earlier zero p = e
      earlier (suc k) p = before k (omega arith)
  not_shown n st e (inr (before, r)) = inr (earlier, rw e r)
    where
      earlier : (k : ℕ) → k < suc n → shows_reset (tested k st) ≡ false
      earlier zero p = e
      earlier (suc k) p = before k (omega arith)

  by_test :
      (n : ℕ) (st : Sja B) (b : Bool)
      → shows_reset st ≡ b
      → IsWait n (nap (sja_read port st sja_mod).1)
      → IsWait (suc n) st
  by_test n st true e rest = shown n st e
  by_test n st false e rest = not_shown n st e rest

  await_reset-IsWait : (n : ℕ) (st : Sja B) → IsWait n st
  unfolding tested await_reset
  await_reset-IsWait zero st = inr ((λ k p. absurd (omega arith)), refl)
  await_reset-IsWait (suc n) st =
      by_test n st (shows_reset st) refl (await_reset-IsWait n (nap (sja_read port st sja_mod).1))

  -- For a controller that is not in reset mode, a stop switches the interrupts off, sets the reset
  -- mode bit and tests for it at most fifty times. At the first test that shows it the call returns
  -- 0, with the state stopped and the semaphore of the senders destroyed; when none of the fifty
  -- tests shows it, the call returns -EAGAIN, with the interrupts on again and the state and the
  -- semaphore as they were found after the last test.
  pub mode_stop_outcome :
      (st : Sja B)
      → is_reset st.dev.state ≡ false
      → ((i : ℕ) × (i < 50)
          × (shows_reset (tested i (started_stop st)) ≡ true)
          × ((k : ℕ) → k < i → shows_reset (tested k (started_stop st)) ≡ false)
          × (mode_stop port nap st ≡ (
            ok 0,
            call_sem
                (set_state (sja_read port (tested i (started_stop st)) sja_mod).1 CanState.stopped)
                sem_destroy,
          )))
        ⊎ (((k : ℕ) → k < 50 → shows_reset (tested k (started_stop st)) ≡ false)
            × (mode_stop port nap st
                ≡ (err eagain, sja_write port (tested 50 (started_stop st)) sja_ier sja1000_ier)))
  unfolding mode_stop end_stop
  mode_stop_outcome st h = elim (await_reset-IsWait 50 (started_stop st)) [
    | inl (i, below, e, before, r) ↦ inl (i, below, e, before, rw h (ap (end_stop port) r))
    | inr (before, r) ↦ inr (before, rw h (ap (end_stop port) r))
  ]
