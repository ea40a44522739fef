-- ===== src/Mscan/Probe.antt =====
-- Registering a controller: `mscan_chip_config`, `rtcan_mscan_register` and `rtcan_mscan_unregister`
-- of can/mscan/rtcan_mscan.c.
use rtcan_bb.Base.{
  ℕ, zero, suc, ◌+◌, Bool, true, false, Option, none, some, List, ◌∷◌, [], ◌≡◌, refl, ◌⊎◌, inl, inr,
  if◌then◌else◌, arith, ◌>>=◌,
}
use rtcan_bb.Rtcan.Abi.{Errno, enomem, eexist, CanState, Ret, ok, err}
use rtcan_bb.Rtcan.Socket.{Config}
use rtcan_bb.Rtcan.Device.{Device, Devices}
use rtcan_bb.Registry.{dev_register, dev_unregister}
use rtcan_bb.Registry.Register.{IsRegistration, dev_register_lem}
use rtcan_bb.Mscan.{
  MscanPort, Mscan, canctl1, canidac, canidar, canidmr, mscan_set_state, mscan_set, mscan_clr,
  mscan_out,
}
use rtcan_bb.Mscan.Modes.{mscan_listen, mscan_mode_stop}
use rtcan_bb.Mscan.Timing.{mscan_bittiming_const}

-- MSCAN_CANE, MSCAN_CLKSRC, and MSCAN_IDAM0 | MSCAN_IDAM1.
abbrev pub mscan_cane : ℕ
mscan_cane = 0x80

abbrev pub mscan_clksrc_bit : ℕ
mscan_clksrc_bit = 0x40

abbrev pub mscan_idam : ℕ
mscan_idam = 0x10 + 0x20

-- RTCAN_DEV_NAME, `rtcan%d`.
abbrev pub mscan_dev_name : List ℕ
mscan_dev_name = 114 ∷ 116 ∷ 99 ∷ 97 ∷ 110 ∷ 37 ∷ 100 ∷ []

-- How a registration ends: the code, whether the interrupt is held, the table and the device.
pub record MscanRegistered (B : Type 0) : Type 0 where
  pub code : Ret
  pub irq_held : Bool
  pub devices : Devices
  pub chip : Mscan B

module _ {B : Type 0} (port : MscanPort B) where
  -- Eight of the registers of the acceptance filter: `n` of them from `i` on.
  abbrev mscan_fill : (ℕ → ℕ) → ℕ → (i n : ℕ) → Mscan B → Mscan B
  mscan_fill reg v i zero st = st
  mscan_fill reg v i (suc n) st = mscan_fill reg v (suc i) n (mscan_out port st (reg i) v)

  unfoldable pub mscan_chip_config : (clksrc : Bool) → Mscan B → Mscan B
  mscan_chip_config clksrc st =
      let clocked = (if clksrc then mscan_set port st canctl1 mscan_clksrc_bit else st) in
      let silent = mscan_clr port clocked canctl1 mscan_listen in
      let low = mscan_fill canidmr 0xff 0 4 (mscan_fill canidar 0x00 0 4 silent) in
      let high = mscan_fill canidmr 0xff 4 4 (mscan_fill canidar 0x00 4 4 low) in
      mscan_clr port high canidac mscan_idam

  -- What a device gets before its interrupt is requested.
  abbrev pub mscan_adopt : Mscan B → Mscan B
  mscan_adopt st = record st {
    dev = record st.dev { name = mscan_dev_name; bittiming_const = some mscan_bittiming_const };
  }

  -- The label `out_can_disable`.
  abbrev pub mscan_disable : Mscan B → Mscan B
  mscan_disable st = mscan_clr port st canctl1 mscan_cane

  module _ (snprintf : List ℕ → ℕ → List ℕ) (cfg : Config) where
    -- The interrupt is freed again when the device is refused.
    unfoldable pub mscan_enrolled : Mscan B → Ret × Devices × Device → MscanRegistered B
    mscan_enrolled st (ok n, devs, dev) = record {
      code = ok 0;
      irq_held = true;
      devices = devs;
      chip = record st { dev = dev };
    }
    mscan_enrolled st (err e, devs, dev) = record {
      code = err e;
      irq_held = false;
      devices = devs;
      chip = mscan_disable (record st { dev = dev });
    }

    -- The registration of a device that has its interrupt.
    unfoldable pub mscan_enrol : Bool → Devices → Mscan B → MscanRegistered B
    unfolding mscan_chip_config mscan_enrolled
    mscan_enrol clksrc devs st =
        let configured = mscan_chip_config clksrc st in
        mscan_enrolled configured (dev_register snprintf cfg devs configured.dev)

    -- `rtcan_mscan_register`, with what `rtdm_irq_request` returns: `none` for 0, else the error.
    unfoldable pub mscan_register :
        Option Errno → (clksrc : Bool) → Devices → (Mscan B → Mscan B) → Mscan B → MscanRegistered B
    unfolding mscan_enrol
    mscan_register irq clksrc devs nap st =
        let enabled = mscan_set_state (mscan_set port st canctl1 mscan_cane) CanState.active in
        let (ret, stopped) = mscan_mode_stop port nap enabled in
        elim irq [
          | some e ↦ record {
            code = err e;
            irq_held = false;
            devices = devs;
            chip = mscan_disable (mscan_adopt stopped);
          }
          | none ↦ mscan_enrol clksrc devs (mscan_adopt stopped)
        ]

  -- `rtcan_mscan_unregister`, for a device of the table; `polls` are the reference counts that the
  -- wait for its users reads. `none` is a wait that has not ended.
  unfoldable pub mscan_unregister :
      (Mscan B → Mscan B) → Devices → List ℕ → Mscan B → Option (Devices × Mscan B)
  mscan_unregister nap devs polls st =
      let (ret, stopped) = mscan_mode_stop port nap st in
      dev_unregister devs stopped.dev polls >>= λ r. some (r.1, mscan_disable stopped)

  module _ (snprintf : List ℕ → ℕ → List ℕ) (cfg : Config) where
    -- A registration that went through, and one that did not.
    abbrev pub IsAdmitted : Devices → MscanRegistered B → Type 0
    IsAdmitted devs r =
        (r.code ≡ ok 0) × (r.irq_held ≡ true) × IsRegistration cfg devs r.devices r.chip.dev

    abbrev pub IsTurnedAway : Devices → MscanRegistered B → Type 0
    IsTurnedAway devs r =
        ((e : Errno) × (r.code ≡ err e))
        × (r.irq_held ≡ false)
        × (r.devices ≡ devs)
        × ((st : Mscan B) × (r.chip ≡ mscan_disable st))

    enrolled_outcome :
        (devs : Devices) (st : Mscan B) (r : Ret × Devices × Device)
        → ((r.0 ≡ ok 0) × IsRegistration cfg devs r.1 r.2)
          ⊎ (((r.0 ≡ err enomem) ⊎ (r.0 ≡ err eexist)) × (r.1 ≡ devs))
        → IsAdmitted devs (mscan_enrolled snprintf cfg st r)
          ⊎ IsTurnedAway devs (mscan_enrolled snprintf cfg st r)
    unfolding mscan_enrolled
    enrolled_outcome devs st (ok n, devs', dev) (inl (e, filled)) = inl (refl, refl, filled)
    enrolled_outcome devs st (ok n, devs', dev) (inr (inl e, same)) = absurd (ground arith)
    enrolled_outcome devs st (ok n, devs', dev) (inr (inr e, same)) = absurd (ground arith)
    enrolled_outcome devs st (err x, devs', dev) (inl (e, filled)) = absurd (ground arith)
    enrolled_outcome devs st (err x, devs', dev) (inr (e, same)) =
        inr ((x, refl), refl, same, (record st { dev = dev }, refl))

    -- The device before its interrupt is requested.
    abbrev started : (Mscan B → Mscan B) → Mscan B → Mscan B
    started nap st =
        (mscan_mode_stop port nap
          (mscan_set_state (mscan_set port st canctl1 mscan_cane) CanState.active)).1

    -- The registration of an MSCAN either returns 0, holds the interrupt and puts the device into a
    -- place of the table that was empty, with the index of that place and a name that no device of
    -- the table has; or it returns an error, holds no interrupt, leaves the table, and the last thing
    -- it does to the hardware is to disable the module.
    pub mscan_register_outcome :
        (irq : Option Errno) (clksrc : Bool) (devs : Devices) (nap : Mscan B → Mscan B)
        (st : Mscan B)
        → IsAdmitted devs (mscan_register snprintf cfg irq clksrc devs nap st)
          ⊎ IsTurnedAway devs (mscan_register snprintf cfg irq clksrc devs nap st)
    unfolding mscan_register mscan_enrol
    mscan_register_outcome (some e) clksrc devs nap st =
        inr ((e, refl), refl, refl, (mscan_adopt (started nap st), refl))
    mscan_register_outcome none clksrc devs nap st =
        let configured = mscan_chip_config clksrc (mscan_adopt (started nap st)) in
        enrolled_outcome devs configured _ (dev_register_lem snprintf cfg devs configured.dev)
