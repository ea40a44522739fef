-- ===== src/CCan/Probe/Outcome.antt =====
-- What the probe of a C_CAN or D_CAN device (rtcan_c_can.c) leaves.
use rtcan_bb.Base.{
  ℕ, Bool, true, false, not, ◌&&◌, ◌||◌, Option, none, some, List, ◌≡◌, refl, ◌⊎◌, inl, inr, ◌==◌,
  if◌then◌else◌, arith,
}
use rtcan_bb.Rtcan.Abi.{Errno, einval, enodev, enomem, eexist, CanState, Ret, ok, err}
use rtcan_bb.Rtcan.Socket.{Config}
use rtcan_bb.Rtcan.Device.{Device, Devices}
use rtcan_bb.Registry.{dev_alloc}
use rtcan_bb.Registry.Register.{IsRegistration, dev_register_lem, dev_register-state}
use rtcan_bb.CCan.{CPort, CCan}
use rtcan_bb.CCan.Platform.{Mmio}
use rtcan_bb.CCan.Probe.{
  CPlatform, CProbed, exit, c_can_select, c_can_fill, register_c_candev, c_can_probed, c_can_set_up,
  c_can_acquire, c_can_plat_probe,
}

-- Whether a probe gets as far as memory for the device.
abbrev pub is_some : {A : Type 0} → Option A → Bool
is_some none = false
is_some (some x) = true

abbrev pub gets_memory : CPlatform → Bool
gets_memory p =
    is_some p.driver_data
    && is_some p.clk
    && p.mem
    && not (p.irq == 0)
    && p.region_free
    && is_some p.mapping
    && p.memory

module _ (cfg : Config) {B : Type 0} where
  -- A probe that went through, and one that did not.
  pub record IsBrought (devs : Devices) (r : CProbed B) : Type 0 where
    pub port : CPort B
    pub chip : CCan B
    pub code : r.code ≡ ok 0
    pub device : r.device ≡ some (port, chip)
    pub registered : IsRegistration cfg devs r.devices chip.dev
    pub stopped : chip.dev.state ≡ CanState.stopped
    pub line : chip.irq_requested ≡ false
    pub power : r.runtime_enabled ≡ true
    pub memory :
        (r.allocated ≡ true) × (r.clk_held ≡ true) × (r.region_held ≡ true) × (r.is_mapped ≡ true)

  pub record IsGivenUp (devs : Devices) (leaked : Bool) (r : CProbed B) : Type 0 where
    pub code : (e : Errno) × (r.code ≡ err e)
    pub devices : r.devices ≡ devs
    pub device : r.device ≡ none
    pub power : r.runtime_enabled ≡ false
    pub memory : (r.clk_held ≡ false) × (r.region_held ≡ false) × (r.is_mapped ≡ false)
    pub allocated : r.allocated ≡ leaked

  abbrev pub IsSeen : Devices → Bool → CProbed B → Type 0
  IsSeen devs leaked r = IsBrought devs r ⊎ IsGivenUp devs leaked r

module _ {B : Type 0} (mmio : Mmio B) (runtime : Bool → B → B) (snprintf : List ℕ → ℕ → List ℕ)
    (cfg : Config) where
  exit-IsSeen : (devs : Devices) (e : Errno) → IsSeen cfg devs false (exit {B = B} devs e)
  exit-IsSeen devs e = inr (record {
    code = (e, refl);
    devices = refl;
    device = refl;
    power = refl;
    memory = (refl, refl, refl);
    allocated = refl;
  })

  probed-IsSeen :
      (devs : Devices) (port : CPort B) (st : CCan B) (r : Ret × Devices × Device)
      → ((r.0 ≡ ok 0) × IsRegistration cfg devs r.1 r.2)
        ⊎ (((r.0 ≡ err enomem) ⊎ (r.0 ≡ err eexist)) × (r.1 ≡ devs))
      → r.2.state ≡ CanState.stopped
      → st.irq_requested ≡ false
      → IsSeen cfg devs true (
          c_can_probed mmio runtime snprintf cfg port st
            (elim r.0 [ ok n ↦ (ok 0, r.1, r.2, true) | err e ↦ (err e, r.1, r.2, false) ]))
  unfolding c_can_probed
  probed-IsSeen devs port st (ok n, devs', dev) (inl (o, filled)) s i = inl (record {
    port = port;
    chip = record st { dev = dev };
    code = refl;
    device = refl;
    registered = filled;
    stopped = s;
    line = i;
    power = refl;
    memory = (refl, refl, refl, refl);
  })
  probed-IsSeen devs port st (ok n, devs', dev) (inr (inl e, same)) s i = absurd (ground arith)
  probed-IsSeen devs port st (ok n, devs', dev) (inr (inr e, same)) s i = absurd (ground arith)
  probed-IsSeen devs port st (err x, devs', dev) (inl (e, filled)) s i = absurd (ground arith)
  probed-IsSeen devs port st (err x, devs', dev) (inr (e, same)) s i = inr (record {
    code = (x, refl);
    devices = same;
    device = refl;
    power = refl;
    memory = (refl, refl, refl);
    allocated = refl;
  })

  set_up-IsSeen :
      (p : CPlatform) (base type_number rate : ℕ) (devs : Devices) (bus : B) (dev : Device)
      → IsSeen cfg devs true
          (c_can_set_up mmio runtime snprintf cfg p base type_number rate devs bus dev)
  unfolding c_can_set_up register_c_candev
  set_up-IsSeen p base type_number rate devs bus dev =
      by_port (c_can_select mmio runtime p base type_number)
    where
      st : CCan B
      st = c_can_fill mmio runtime rate bus dev

      by_port :
          (found : Option (CPort B))
          → IsSeen cfg devs true (elim found [
            | none ↦ record (exit {B = B} devs einval) { allocated = true }
            | some port ↦
                c_can_probed mmio runtime snprintf cfg port st
                  (register_c_candev mmio runtime snprintf cfg devs st.dev)
          ])
      by_port none = inr (record {
        code = (einval, refl);
        devices = refl;
        device = refl;
        power = refl;
        memory = (refl, refl, refl);
        allocated = refl;
      })
      by_port (some port) =
          probed-IsSeen devs port st _ (dev_register_lem snprintf cfg devs st.dev)
            (dev_register-state snprintf cfg devs st.dev) refl

  allocated-IsSeen :
      (p : CPlatform) (base type_number rate : ℕ) (devs : Devices) (bus : B) (memory : Bool)
      → IsSeen cfg devs memory (elim (dev_alloc cfg memory) [
        | none ↦ exit {B = B} devs enomem
        | some dev ↦ c_can_set_up mmio runtime snprintf cfg p base type_number rate devs bus dev
      ])
  unfolding dev_alloc
  allocated-IsSeen p base type_number rate devs bus false = exit-IsSeen devs enomem
  allocated-IsSeen p base type_number rate devs bus true =
      set_up-IsSeen p base type_number rate devs bus _

  acquire-IsSeen :
      (p : CPlatform) (type_number rate : ℕ) (devs : Devices) (bus : B)
      → IsSeen cfg devs
          (p.mem && not (p.irq == 0) && p.region_free && is_some p.mapping && p.memory)
          (c_can_acquire mmio runtime snprintf cfg p type_number rate devs bus)
  unfolding c_can_acquire
  acquire-IsSeen p type_number rate devs bus = by_tests p.mem (p.irq == 0) p.region_free p.mapping
    where
      by_tests :
          (mem no_irq region : Bool) (mapping : Option ℕ)
          → IsSeen cfg devs (mem && not no_irq && region && is_some mapping && p.memory) (
              if not mem || no_irq || not region then exit {B = B} devs enodev else elim mapping [
                | none ↦ exit {B = B} devs enomem
                | some base ↦ elim (dev_alloc cfg p.memory) [
                  | none ↦ exit {B = B} devs enomem
                  | some dev ↦
                      c_can_set_up mmio runtime snprintf cfg p base type_number rate devs bus dev
                ]
              ])
      by_tests false no_irq region mapping = exit-IsSeen devs enodev
      by_tests true true region mapping = exit-IsSeen devs enodev
      by_tests true false false mapping = exit-IsSeen devs enodev
      by_tests true false true none = exit-IsSeen devs enomem
      by_tests true false true (some base) =
          allocated-IsSeen p base type_number rate devs bus p.memory

  -- A probe of a C_CAN or D_CAN device either returns 0, with the device registered under a free
  -- index and name, stopped, without its interrupt and with its power management enabled; or it
  -- returns an error, leaves the table, and gives back the clock, the memory region and the mapping.
  -- The memory of the device is not given back: after an error it is still allocated exactly when
  -- everything up to the allocation had gone well.
  pub c_can_probe_outcome :
      (p : CPlatform) (devs : Devices) (bus : B)
      → IsSeen cfg devs (gets_memory p) (c_can_plat_probe mmio runtime snprintf cfg p devs bus)
  unfolding c_can_plat_probe
  c_can_probe_outcome p devs bus = by_entry p.driver_data p.clk
    where
      by_entry :
          (entry clk : Option ℕ)
          → IsSeen cfg devs
              (is_some entry
                && is_some clk
                && p.mem
                && not (p.irq == 0)
                && p.region_free
                && is_some p.mapping
                && p.memory)
              (elim entry [
                | none ↦ exit {B = B} devs einval
                | some type_number ↦ elim clk [
                  | none ↦ exit {B = B} devs enodev
                  | some rate ↦ c_can_acquire mmio runtime snprintf cfg p type_number rate devs bus
                ]
              ])
      by_entry none clk = exit-IsSeen devs einval
      by_entry (some type_number) none = exit-IsSeen devs enodev
      by_entry (some type_number) (some rate) = acquire-IsSeen p type_number rate devs bus
