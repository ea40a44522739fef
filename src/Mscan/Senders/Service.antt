-- ===== src/Mscan/Senders/Service.antt =====
-- The interrupt routine keeps the semaphore of the senders in step with the state.
use rtcan_bb.Base.{
  ℕ, ◌+◌, Bool, true, false, not, max, ◌≡◌, refl, sym, ap, ◌∙◌, arith, if◌then◌else◌, ◌==◌,
}
use rtcan_bb.Rtcan.Abi.{CanState}
use rtcan_bb.Rtcan.Socket.{sem_exists, Config, Skb}
use rtcan_bb.Rtcan.Device.{Device}
use rtcan_bb.Receive.{rcv, loopback}
use rtcan_bb.Sja1000.Errors.{has}
use rtcan_bb.Sja1000.Modes.{is_reset}
use rtcan_bb.Mscan.{MscanPort, Mscan, canrflg, cantier, mscan_in}
use rtcan_bb.Mscan.Errors.{
  mscan_stat_map, mscan_cscif, mscan_ovrif, mscan_rxf, read_rstat, read_tstat, mscan_enter_state,
  mscan_serve_status, mscan_err_interrupt,
}
use rtcan_bb.Mscan.Frames.{mscan_txie0}
use rtcan_bb.Mscan.Interrupt.{
  MscanHandler, mscan_hand_over, mscan_is_sent, mscan_sent, mscan_serve_transmit,
  mscan_serve_receive, mscan_serve_errors, mscan_acknowledge, mscan_interrupt,
}
use rtcan_bb.Mscan.Senders.{HasSem, IsServed, IsServed-if}

module _ {B : Type 0} (port : MscanPort B) where
  -- A status change, for a controller whose semaphore is there.
  enter_state-IsServed :
      (level : ℕ) (st : Mscan B)
      → HasSem st
      → IsServed (mscan_enter_state port (mscan_stat_map level) st)
  unfolding mscan_enter_state sem_exists
  enter_state-IsServed level st h = by_level (level == 0) (level == 1) (level == 2)
    where
      by_level :
          (a b c : Bool)
          → IsServed (
              mscan_enter_state port
                (if a
                  then CanState.active
                  else (if b
                      then CanState.bus_warning
                      else (if c then CanState.bus_passive else CanState.bus_off)))
                st)
      by_level true b c = h
      by_level false true c = h
      by_level false false true = h
      by_level false false false = refl

  err_interrupt-IsServed :
      (st : Mscan B) (skb : Skb) (flags : ℕ)
      → is_reset st.dev.state ≡ false
      → IsServed st
      → IsServed (mscan_err_interrupt port st skb flags).0
  unfolding mscan_err_interrupt mscan_serve_status
  err_interrupt-IsServed st skb flags r s =
      IsServed-if (has flags mscan_ovrif) _ _ (λ e. s)
        (λ e.
          IsServed-if (has flags mscan_cscif) _ _
            (λ e'.
              enter_state-IsServed (max (read_rstat flags) (read_tstat flags)) st (s ∙ ap not r))
            (λ e'. s))

-- The state is the one before, and so is the semaphore.
record Keeps {B : Type 0} (h h' : MscanHandler B) : Type 0 where
  pub state : h'.chip.dev.state ≡ h.chip.dev.state
  pub senders : sem_exists h'.chip.dev.tx_sem ≡ sem_exists h.chip.dev.tx_sem

module _ {B : Type 0} (port : MscanPort B) (now : B → ℕ × B) (cfg : Config) where
  chosen-IsServed :
      (c : Bool) (h h' : MscanHandler B)
      → IsServed h.chip
      → IsServed h'.chip
      → IsServed (if c then h else h').chip
  chosen-IsServed true h h' s s' = s
  chosen-IsServed false h h' s s' = s'

  Keeps-if :
      (c : Bool) (h a b : MscanHandler B) → Keeps h a → Keeps h b → Keeps h (if c then a else b)
  Keeps-if true h a b k k' = k
  Keeps-if false h a b k k' = k'

  serve_receive-Keeps :
      (flags : ℕ) (h : MscanHandler B) → Keeps h (mscan_serve_receive port now cfg flags h)
  unfolding mscan_serve_receive mscan_hand_over rcv
  serve_receive-Keeps flags h =
      Keeps-if (has flags mscan_rxf) h _ h (record { state = refl; senders = refl })
        (record { state = refl; senders = refl })

  -- The reads of the test for a transmit interrupt change only the hardware.
  is_sent_lem : (st : Mscan B) → (mscan_is_sent port now cfg st).1.dev ≡ st.dev
  unfolding mscan_is_sent
  is_sent_lem st = by_flag (has (mscan_in port st cantier).0 mscan_txie0) _ _ _ _
    where
      by_flag :
          (b x y : Bool) (bus bus' : B)
          → (if◌then◌else◌ {A = Bool × Mscan B} b
              (x, record st { bus = bus })
              (y, record st { bus = bus' })).1.dev
            ≡ st.dev
      by_flag true x y bus bus' = refl
      by_flag false x y bus bus' = refl

  sent-Keeps : (h : MscanHandler B) → Keeps h (mscan_sent port now cfg h)
  unfolding mscan_sent loopback sem_exists
  sent-Keeps h = record { state = ground arith; senders = ground arith }

  serve_transmit-Keeps : (h : MscanHandler B) → Keeps h (mscan_serve_transmit port now cfg h)
  unfolding mscan_serve_transmit
  serve_transmit-Keeps h =
      Keeps-if (mscan_is_sent port now cfg h.chip).0 h _ _
        (trans (looked h) (sent-Keeps (record h { chip = (mscan_is_sent port now cfg h.chip).1 })))
        (looked h)
    where
      looked :
          (h : MscanHandler B) → Keeps h (record h { chip = (mscan_is_sent port now cfg h.chip).1 })
      looked h = record {
        state = ap (λ (dev : Device). dev.state) (is_sent_lem h.chip);
        senders = ap (λ (dev : Device). sem_exists dev.tx_sem) (is_sent_lem h.chip);
      }

      trans : {a b c : MscanHandler B} → Keeps a b → Keeps b c → Keeps a c
      trans k k' = record { state = k'.state ∙ k.state; senders = k'.senders ∙ k.senders }

  serve_errors-IsServed :
      (flags : ℕ) (h : MscanHandler B)
      → is_reset h.chip.dev.state ≡ false
      → IsServed h.chip
      → IsServed (mscan_serve_errors port now cfg flags h).chip
  unfolding mscan_serve_errors mscan_hand_over rcv
  serve_errors-IsServed flags h r s =
      chosen-IsServed (has flags (mscan_cscif + mscan_ovrif)) _ h
        (err_interrupt-IsServed port h.chip h.skb flags r s) s

  acknowledge-IsServed :
      (flags : ℕ) (h : MscanHandler B)
      → IsServed h.chip
      → IsServed (mscan_acknowledge port now cfg flags h).chip
  unfolding mscan_acknowledge
  acknowledge-IsServed flags h s = chosen-IsServed (flags == 0) h _ s s

  -- What keeps the state and the semaphore keeps them in step.
  kept-IsServed :
      {h h' : MscanHandler B}
      → Keeps h h'
      → is_reset h.chip.dev.state ≡ false
      → IsServed h.chip
      → (is_reset h'.chip.dev.state ≡ false) × IsServed h'.chip
  kept-IsServed k r s =
      (ap is_reset k.state ∙ r, k.senders ∙ s ∙ ap (λ state. not (is_reset state)) (sym k.state))

  pub interrupt-IsServed :
      (h : MscanHandler B)
      → is_reset h.chip.dev.state ≡ false
      → IsServed h.chip
      → IsServed (mscan_interrupt port now cfg h).chip
  unfolding mscan_interrupt
  interrupt-IsServed h r s =
      let (flags, chip) = mscan_in port h.chip canrflg in
      let sent = kept-IsServed (serve_transmit-Keeps (record h { chip = chip })) r s in
      let received = kept-IsServed (serve_receive-Keeps flags _) sent.0 sent.1 in
      acknowledge-IsServed flags _ (serve_errors-IsServed flags _ received.0 received.1)
