-- ===== src/Sja1000/Probe.antt =====
-- Registering a controller: `sja1000_chip_config`, `rtcan_sja1000_register` and
-- `rtcan_sja1000_unregister` of can/sja1000/rtcan_sja1000.c.
use rtcan_bb.Base.{
  ℕ, ◌+◌, bit_and, Bool, true, false, not, Option, none, some, List, ◌≡◌, refl, ◌⊎◌, inl, inr, ◌==◌,
  if◌then◌else◌, arith, ◌>>=◌,
}
use rtcan_bb.Rtcan.Abi.{Errno, einval, enodev, enomem, eexist, CanState, Ret, ok, err}
use rtcan_bb.Rtcan.Socket.{Config}
use rtcan_bb.Rtcan.Device.{Device, Devices}
use rtcan_bb.Registry.{dev_register, dev_unregister}
use rtcan_bb.Registry.Register.{IsRegistration, dev_register_lem}
use rtcan_bb.Sja1000.{Port, Sja, sja_sr, sja_cdr, sja_ocr, sja_amr}
use rtcan_bb.Sja1000.Modes.{set_state, sja_read, sja_write, mode_stop}
use rtcan_bb.Sja1000.Timing.{sja1000_bittiming_const}

-- SJA_SR_RBS | SJA_SR_DOS | SJA_SR_TBS, and SJA_SR_TBS.
abbrev pub sja_sr_idle_mask : ℕ
sja_sr_idle_mask = 1 + 2 + 4

abbrev pub sja_sr_tbs : ℕ
sja_sr_tbs = 4

-- The fields of the chip that a board's driver sets: `cdr` and `ocr`.
pub record Board : Type 0 where
  pub cdr : ℕ
  pub ocr : ℕ

-- How a registration ends: the code, whether the interrupt is held, the table and the device.
pub record Registered (B : Type 0) : Type 0 where
  pub code : Ret
  pub irq_held : Bool
  pub devices : Devices
  pub chip : Sja B

module _ {B : Type 0} (port : Port B) where
  unfoldable pub chip_config : Board → Sja B → Sja B
  chip_config board st =
      let st1 = sja_write port (sja_write port st sja_cdr board.cdr) sja_ocr board.ocr in
      sja_write port
        (sja_write port (sja_write port (sja_write port st1 (sja_amr 0) 0xff) (sja_amr 1) 0xff)
          (sja_amr 2) 0xff)
        (sja_amr 3) 0xff

  -- What a device gets before its interrupt is requested.
  abbrev pub adopt : Sja B → Sja B
  adopt st = record st {
    dev = record st.dev { bittiming_const = some sja1000_bittiming_const };
    bus_err_on = 1;
  }

  module _ (snprintf : List ℕ → ℕ → List ℕ) (cfg : Config) where
    -- The interrupt is freed again when the device is refused.
    unfoldable pub enrolled : Sja B → Ret × Devices × Device → Registered B
    enrolled st (ok n, devs, dev) = record {
      code = ok n;
      irq_held = true;
      devices = devs;
      chip = record st { dev = dev };
    }
    enrolled st (err e, devs, dev) = record {
      code = err e;
      irq_held = false;
      devices = devs;
      chip = record st { dev = dev };
    }

    -- The registration of a device that has its interrupt.
    unfoldable pub enrol : Board → Devices → Sja B → Registered B
    unfolding chip_config enrolled
    enrol board devs st =
        let configured = chip_config board st in
        enrolled configured (dev_register snprintf cfg devs configured.dev)

    -- `rtcan_sja1000_register`, with what `rtdm_irq_request` returns: `none` for 0, else the error.
    -- `has_chip` is the test of `dev->priv`.
    unfoldable pub register :
        Option Errno → Board → Devices → (Sja B → Sja B) → Bool → Sja B → Registered B
    unfolding enrol
    register irq board devs nap has_chip st =
        let (status, st1) =
          sja_read port (mode_stop port nap (set_state st CanState.active)).1 sja_sr in
        if not has_chip
        then record { code = err einval; irq_held = false; devices = devs; chip = st }
        else (if not (bit_and status sja_sr_idle_mask == sja_sr_tbs)
            then record { code = err enodev; irq_held = false; devices = devs; chip = st1 }
            else elim irq [
              | some e ↦ record { code = err e; irq_held = false; devices = devs; chip = adopt st1 }
              | none ↦ enrol board devs (adopt st1)
            ])

  -- `rtcan_sja1000_unregister`, for a device of the table; `polls` are the reference counts that the
  -- wait for its users reads. `none` is a wait that has not ended.
  unfoldable pub unregister : (Sja B → Sja B) → Devices → List ℕ → Sja B → Option (Devices × Sja B)
  unregister nap devs polls st =
      let (stopped, st1) = mode_stop port nap st in
      dev_unregister devs st1.dev polls >>= λ r. some (r.1, st1)

  module _ (snprintf : List ℕ → ℕ → List ℕ) (cfg : Config) where
    -- A registration that went through, and one that did not.
    abbrev pub IsRegistered : Devices → Registered B → Type 0
    IsRegistered devs r =
        (r.code ≡ ok 0) × (r.irq_held ≡ true) × IsRegistration cfg devs r.devices r.chip.dev

    abbrev pub IsRefused : Devices → Registered B → Type 0
    IsRefused devs r = ((e : Errno) × (r.code ≡ err e)) × (r.irq_held ≡ false) × (r.devices ≡ devs)

    enrolled_outcome :
        (devs : Devices) (st : Sja B) (r : Ret × Devices × Device)
        → ((r.0 ≡ ok 0) × IsRegistration cfg devs r.1 r.2)
          ⊎ (((r.0 ≡ err enomem) ⊎ (r.0 ≡ err eexist)) × (r.1 ≡ devs))
        → IsRegistered devs (enrolled snprintf cfg st r)
          ⊎ IsRefused devs (enrolled snprintf cfg st r)
    unfolding enrolled
    enrolled_outcome devs st (ok n, devs', dev) (inl (e, filled)) = inl (e, refl, filled)
    enrolled_outcome devs st (ok n, devs', dev) (inr (inl e, same)) = absurd (ground arith)
    enrolled_outcome devs st (ok n, devs', dev) (inr (inr e, same)) = absurd (ground arith)
    enrolled_outcome devs st (err x, devs', dev) (inl (e, filled)) = absurd (ground arith)
    enrolled_outcome devs st (err x, devs', dev) (inr (e, same)) = inr ((x, refl), refl, same)

    enrol_outcome :
        (board : Board) (devs : Devices) (st : Sja B)
        → IsRegistered devs (enrol snprintf cfg board devs st)
          ⊎ IsRefused devs (enrol snprintf cfg board devs st)
    unfolding enrol
    enrol_outcome board devs st =
        enrolled_outcome devs (chip_config board st) _
          (dev_register_lem snprintf cfg devs (chip_config board st).dev)

    outcome_if :
        (c : Bool) (devs : Devices) (r r' : Registered B)
        → IsRegistered devs r ⊎ IsRefused devs r
        → IsRegistered devs r' ⊎ IsRefused devs r'
        → IsRegistered devs (if c then r else r') ⊎ IsRefused devs (if c then r else r')
    outcome_if true devs r r' h h' = h
    outcome_if false devs r r' h h' = h'

    -- The registration of a controller either returns 0, holds the interrupt and puts the device into
    -- a place of the table that was empty, with the index of that place and a name that no device of
    -- the table has; or it returns an error, holds no interrupt and leaves the table.
    pub register_outcome :
        (irq : Option Errno) (board : Board) (devs : Devices) (nap : Sja B → Sja B)
        (has_chip : Bool) (st : Sja B)
        → IsRegistered devs (register snprintf cfg irq board devs nap has_chip st)
          ⊎ IsRefused devs (register snprintf cfg irq board devs nap has_chip st)
    unfolding register
    register_outcome (some e) board devs nap has_chip st =
        outcome_if (not has_chip) devs _ _ (inr ((einval, refl), refl, refl))
          (outcome_if _ devs _ _ (inr ((enodev, refl), refl, refl)) (inr ((e, refl), refl, refl)))
    register_outcome none board devs nap has_chip st =
        outcome_if (not has_chip) devs _ _ (inr ((einval, refl), refl, refl))
          (outcome_if _ devs _ _ (inr ((enodev, refl), refl, refl)) (enrol_outcome board devs _))
