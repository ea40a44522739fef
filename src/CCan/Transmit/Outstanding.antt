-- ===== src/CCan/Transmit/Outstanding.antt =====
-- The frames between `tx_echo` and `tx_next`: `c_can_do_tx` ends, and what it leaves outstanding.
use rtcan_bb.Base.{
  ℕ, zero, suc, ◌+◌, ◌%◌, ◌^◌, ◌≤◌, ◌<◌, ◌≡◌, ◌≢◌, bit_and, refl, ap₂, ◌∙◌, arith, Bool, true,
  false, not, ◌||◌, some, ◌==◌, if◌then◌else◌,
}
use native.Mathlib.Decide.{ℕ_discrete}
use rtcan_bb.Rtcan.Socket.{sem_up}
use rtcan_bb.BitTiming.{sub32}
use rtcan_bb.CCan.{CPort, CCan}
use rtcan_bb.CCan.Objects.{c_can_inval_msg_object}
use rtcan_bb.CCan.Modes.{c_can_sem}
use rtcan_bb.CCan.Transmit.{
  get_tx_echo_msg_obj, read_pending, echo_sent, restart_queue, c_can_do_tx,
}

module _ {B : Type 0} (port : CPort B) where
  abbrev pub outstanding : CCan B → ℕ
  outstanding st = sub32 st.tx_next st.tx_echo

  -- Whether the oldest frame waits still, and the device when it does and when it does not.
  abbrev pub is_waiting : CCan B → Bool
  is_waiting st = (read_pending port (get_tx_echo_msg_obj st) st.bus).0

  abbrev pub looked : CCan B → CCan B
  looked st = record st { bus = (read_pending port (get_tx_echo_msg_obj st) st.bus).1 }

  abbrev pub echoed : CCan B → CCan B
  echoed st = record st {
    bus = c_can_inval_msg_object port 0 (get_tx_echo_msg_obj st) (looked st).bus;
    tx_echo = (st.tx_echo + 1) % 2 ^ 32;
  }

  -- The result of the loop: `j` frames fewer outstanding.
  pub record IsEchoed (st st' : CCan B) : Type 0 where
    pub sent : ℕ
    pub bounded : sent ≤ outstanding st
    pub left : outstanding st' + sent ≡ outstanding st
    pub echo : st'.tx_echo ≡ (st.tx_echo + sent) % 2 ^ 32
    pub next : st'.tx_next ≡ st.tx_next

  -- One round, in its three cases.
  drained_lem :
      (n : ℕ) (st : CCan B) → (outstanding st == 0) ≡ true → echo_sent port (suc n) st ≡ some st
  unfolding echo_sent
  drained_lem n st e = rw (echo_sent, e) refl

  waiting_lem :
      (n : ℕ) (st : CCan B)
      → (outstanding st == 0) ≡ false
      → is_waiting st ≡ true
      → echo_sent port (suc n) st ≡ some (c_can_sem (looked st) sem_up)
  unfolding echo_sent
  waiting_lem n st e w = rw (echo_sent, e, w) refl

  sent_lem :
      (n : ℕ) (st : CCan B)
      → (outstanding st == 0) ≡ false
      → is_waiting st ≡ false
      → echo_sent port (suc n) st ≡ echo_sent port n (echoed st)
  unfolding echo_sent
  sent_lem n st e w = rw (echo_sent, e, w) refl

  -- The counters are 32-bit numbers.
  abbrev pub IsCounting : CCan B → Type 0
  IsCounting st = (st.tx_next < 2 ^ 32) × (st.tx_echo < 2 ^ 32)

  outstanding-echoed :
      (st : CCan B)
      → IsCounting st
      → outstanding st ≢ 0
      → outstanding (echoed st) + 1 ≡ outstanding st
  outstanding-echoed st (h, h') p = omega arith

  one_more :
      (st st' : CCan B)
      → IsCounting st
      → outstanding st ≢ 0
      → IsEchoed (echoed st) st'
      → IsEchoed st st'
  one_more st st' h p r =
      let round = outstanding-echoed st h p in
      record {
        sent = suc r.sent;
        bounded = omega (arith, r.bounded, round);
        left = omega (arith, r.left, round);
        echo = r.echo ∙ omega arith;
        next = r.next;
      }

  nothing_sent :
      (st st' : CCan B)
      → IsCounting st
      → st'.tx_echo ≡ st.tx_echo
      → st'.tx_next ≡ st.tx_next
      → IsEchoed st st'
  nothing_sent st st' (h, h') e e' = record {
    sent = 0;
    bounded = omega arith;
    left = omega (arith, ap₂ sub32 e' e);
    echo = e ∙ omega (arith, h');
    next = e';
  }

  -- A result of the loop that the counters account for.
  abbrev Ends : ℕ → CCan B → CCan B → Type 0
  Ends n st st' = (echo_sent port n st ≡ some st') × IsEchoed st st'

  by_chip :
      (n : ℕ) (st : CCan B)
      → IsCounting st
      → outstanding st ≢ 0
      → (w : Bool) → is_waiting st ≡ w
      → ((st' : CCan B) × Ends n (echoed st) st')
      → (st' : CCan B) × Ends (suc n) st st'
  by_chip n st h q true e rest = (
    c_can_sem (looked st) sem_up,
    (waiting_lem n st (ground (arith, q)) e, nothing_sent st _ h refl refl),
  )
  by_chip n st h q false e (st', (result, r)) =
      (st', (sent_lem n st (ground (arith, q)) e ∙ result, one_more st st' h q r))

  echo_sent_total :
      (n : ℕ) (st : CCan B) → IsCounting st → outstanding st < n → (st' : CCan B) × Ends n st st'
  echo_sent_total zero st h p = absurd (omega arith)
  echo_sent_total (suc n) st h p = elim (ℕ_discrete (outstanding st) 0) [
    | yes e ↦ (st, (drained_lem n st (ground (arith, e)), nothing_sent st st h refl refl))
    | no q ↦
        let rest =
          echo_sent_total n (echoed st) (h.0, omega arith)
            (omega (arith, p, outstanding-echoed st h q)) in
        by_chip n st h q (is_waiting st) refl rest
  ]

  restart-IsEchoed : (st st' : CCan B) → IsEchoed st st' → IsEchoed st (restart_queue port st')
  restart-IsEchoed st st' r =
      if_echoed (not (bit_and st'.tx_next 15 == 0) || bit_and st'.tx_echo 15 == 0)
    where
      if_echoed : (c : Bool) → IsEchoed st (if c then c_can_sem st' sem_up else st')
      if_echoed true = record {
        sent = r.sent;
        bounded = r.bounded;
        left = r.left;
        echo = r.echo;
        next = r.next;
      }
      if_echoed false = r

  -- For counters of 32 bits: when more tests of the loop are allowed than frames are outstanding,
  -- `c_can_do_tx` ends; it echoes some number of frames, no more than were outstanding, by which
  -- the outstanding ones become fewer and `tx_echo` grows, and it leaves `tx_next`.
  pub c_can_do_tx_total :
      (n : ℕ) (st : CCan B)
      → IsCounting st
      → outstanding st < n
      → (st' : CCan B) × (c_can_do_tx port n st ≡ some st') × IsEchoed st st'
  unfolding c_can_do_tx
  c_can_do_tx_total n st h p =
      let (st', (e, r)) = echo_sent_total n st h p in
      (restart_queue port st', rw e refl, restart-IsEchoed st st' r)
