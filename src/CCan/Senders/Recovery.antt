-- ===== src/CCan/Senders/Recovery.antt =====
-- The way out of bus-off in `c_can_interrupt` of rtcan_c_can.c.
use rtcan_bb.Base.{
  ℕ, ◌-◌, ◌^◌, ◌≡◌, ◌≢◌, bit_and, Bool, true, false, ◌||◌, refl, List, ◌∙◌, arith, ◌==◌,
  if◌then◌else◌,
}
use rtcan_bb.Rtcan.Abi.{CanState}
use rtcan_bb.Rtcan.Socket.{Config, Skb, SemCall}
use rtcan_bb.Receive.{rcv}
use rtcan_bb.CCan.{CPort, c_can_sts_reg, lec_unused, c_can_write}
use rtcan_bb.CCan.Errors.{
  c_can_bus_off, c_can_error_warning, c_can_error_passive, enter_state, c_can_handle_state_change,
  c_can_handle_bus_err,
}
use rtcan_bb.CCan.Interrupt.{
  Stack, has_only, status_boff, status_ewarn, status_epass, status_rxok, status_txok,
  acknowledge_status, enter_if, leave_if, note_changes, serve_status,
}
use rtcan_bb.CCan.Modes.{c_can_set_state}
use rtcan_bb.CCan.Receive.{Service, on_chip, pass_on}

-- The semaphore is as it was, and the state is active too.
abbrev Keeps : {B : Type 0} → List SemCall → Service B → Type 0
Keeps tx_sem h = h.chip.dev.tx_sem ≡ tx_sem

abbrev IsActive : {B : Type 0} → List SemCall → Service B → Type 0
IsActive tx_sem h = (h.chip.dev.state ≡ CanState.active) × (h.chip.dev.tx_sem ≡ tx_sem)

module _ {B : Type 0} (P : Service B → Type 0) where
  either : (c : Bool) (x y : Service B) → P x → P y → P (if c then x else y)
  either true x y p q = p
  either false x y p q = q

  taken : (c : Bool) (x y : Service B) → c ≡ true → P x → P (if c then x else y)
  taken true x y e p = p
  taken false x y e p = absurd (ground (arith, e))

  skipped : (c : Bool) (x y : Service B) → c ≡ false → P y → P (if c then x else y)
  skipped true x y e p = absurd (ground (arith, e))
  skipped false x y e p = p

module _ {B : Type 0} (port : CPort B) (now : B → ℕ × B) (cfg : Config) where
  warning-Keeps :
      (skb : Skb) (h : Service B)
      → (c_can_handle_state_change port now cfg c_can_error_warning skb h).chip.dev.tx_sem
        ≡ h.chip.dev.tx_sem
  unfolding c_can_handle_state_change enter_state pass_on rcv
  warning-Keeps skb h = refl

  passive-Keeps :
      (skb : Skb) (h : Service B)
      → (c_can_handle_state_change port now cfg c_can_error_passive skb h).chip.dev.tx_sem
        ≡ h.chip.dev.tx_sem
  unfolding c_can_handle_state_change enter_state pass_on rcv
  passive-Keeps skb h = refl

  bus_err-IsActive :
      (lec_type : ℕ) (skb : Skb) (h : Service B) (tx_sem : List SemCall)
      → IsActive tx_sem h
      → IsActive tx_sem (c_can_handle_bus_err port now cfg lec_type skb h)
  unfolding c_can_handle_bus_err pass_on rcv
  bus_err-IsActive lec_type skb h tx_sem a =
      either (IsActive tx_sem) (lec_type == lec_unused || lec_type == 0) h _ a (a.0, a.1)

  module _ (stack : Stack) where
    -- The changes of state, when the chip was in bus-off and is no more.
    note_changes-IsActive :
        (status last : ℕ) (h : Service B)
        → bit_and status status_boff ≡ 0
        → bit_and last status_boff ≢ 0
        → IsActive h.chip.dev.tx_sem (note_changes port now cfg stack status last h)
    unfolding note_changes
    note_changes-IsActive status last h e p =
        either (IsActive tx_sem) (has_only status_epass last status)
          (record gone { chip = c_can_set_state gone.chip CanState.active }) gone
          (refl, gone-IsActive.1) gone-IsActive
      where
        tx_sem : List SemCall
        tx_sem = h.chip.dev.tx_sem

        warned : Service B
        warned = enter_if port now cfg stack status_ewarn c_can_error_warning status last h

        warned-Keeps : Keeps tx_sem warned
        warned-Keeps =
            either (Keeps tx_sem) (has_only status_ewarn status last) _ h (warning-Keeps _ h) refl

        passive : Service B
        passive = enter_if port now cfg stack status_epass c_can_error_passive status last warned

        now_passive-Keeps : Keeps tx_sem passive
        now_passive-Keeps =
            either (Keeps tx_sem) (has_only status_epass status last) _ warned
              (passive-Keeps _ warned ∙ warned-Keeps) warned-Keeps

        on_bus : Service B
        on_bus = enter_if port now cfg stack status_boff c_can_bus_off status last passive

        on_bus-Keeps : Keeps tx_sem on_bus
        on_bus-Keeps =
            skipped (Keeps tx_sem) (has_only status_boff status last) _ passive (ground (arith, e))
              now_passive-Keeps

        gone : Service B
        gone = leave_if port now cfg stack status_boff status last on_bus

        gone-IsActive : IsActive tx_sem gone
        gone-IsActive =
            taken (IsActive tx_sem) (has_only status_boff last status)
              (record on_bus { chip = c_can_set_state on_bus.chip CanState.active }) on_bus
              (ground (arith, e, p)) (refl, on_bus-Keeps)

    -- A status event in which the chip reports that it has left bus-off makes the state active and
    -- leaves the semaphore of the senders as it was before.
    pub recovery_keeps_senders :
        (h : Service B)
        → bit_and (port.read_reg h.chip.bus c_can_sts_reg).0 status_boff ≡ 0
        → bit_and h.chip.last_status status_boff ≢ 0
        → ((serve_status port now cfg stack h).chip.dev.state ≡ CanState.active)
          × ((serve_status port now cfg stack h).chip.dev.tx_sem ≡ h.chip.dev.tx_sem)
    unfolding serve_status
    recovery_keeps_senders h e p =
        either (IsActive tx_sem) (bit_and status lec_unused == 0) noted _ noted-IsActive
          (bus_err-IsActive (bit_and status lec_unused) stack.bus_err noted tx_sem noted-IsActive)
      where
        tx_sem : List SemCall
        tx_sem = h.chip.dev.tx_sem

        status : ℕ
        status = (port.read_reg h.chip.bus c_can_sts_reg).0

        read : Service B
        read = on_chip h (λ _. (port.read_reg h.chip.bus c_can_sts_reg).1)

        sent : Service B
        sent = acknowledge_status port now cfg stack status_txok status read

        acknowledged : Service B
        acknowledged = acknowledge_status port now cfg stack status_rxok status sent

        sent-Keeps : Keeps tx_sem sent
        sent-Keeps =
            either (Keeps tx_sem) (bit_and status status_txok == 0) read
              (on_chip read
                (c_can_write port c_can_sts_reg (bit_and status (2 ^ 32 - 1 - status_txok))))
              refl refl

        acknowledged-Keeps : Keeps tx_sem acknowledged
        acknowledged-Keeps =
            either (Keeps tx_sem) (bit_and status status_rxok == 0) sent
              (on_chip sent
                (c_can_write port c_can_sts_reg (bit_and status (2 ^ 32 - 1 - status_rxok))))
              sent-Keeps sent-Keeps

        changed : Service B
        changed = note_changes port now cfg stack status h.chip.last_status acknowledged

        changed-IsActive : IsActive acknowledged.chip.dev.tx_sem changed
        changed-IsActive = note_changes-IsActive status h.chip.last_status acknowledged e p

        noted : Service B
        noted = record changed { chip = record changed.chip { last_status = status } }

        noted-IsActive : IsActive tx_sem noted
        noted-IsActive = (changed-IsActive.0, changed-IsActive.1 ∙ acknowledged-Keeps)
