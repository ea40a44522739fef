-- ===== src/Flexcan/Probe/Outcome.antt =====
-- What the probe and the removal of a FlexCAN device (can/rtcan_flexcan.c) leave.
use rtcan_bb.Base.{
  ℕ, Bool, true, false, not, ◌||◌, Option, none, some, List, ◌≡◌, refl, sym, ap, ◌∙◌, ◌⊎◌, inl, inr,
  ◌==◌, if◌then◌else◌, arith, Option-cases,
}
use rtcan_bb.Rtcan.Abi.{Errno, enodev, enomem, eexist, ebusy, CanState, is_operating, Ret, ok, err}
use rtcan_bb.Rtcan.Socket.{Config}
use rtcan_bb.Rtcan.Device.{Device, Devices}
use rtcan_bb.Registry.{dev_alloc, dev_register}
use rtcan_bb.Registry.Register.{IsRegistration, dev_register_lem, dev_register-state}
use rtcan_bb.Sja1000.Errors.{has}
use rtcan_bb.Flexcan.Regs
use rtcan_bb.Flexcan.{FlexcanPort, Flexcan, flexcan_read}
use rtcan_bb.Flexcan.Modes.{flexcan_mcr_fen}
use rtcan_bb.Flexcan.Modes.Held.{IsHeld, is_stopped}
use rtcan_bb.Flexcan.Probe.{
  Platform, Probed, out_error, out_chip_disable, flexcan_devtype, flexcan_select_clock,
  flexcan_enrolled, register_flexcandev, flexcan_fill, flexcan_probed, flexcan_acquire,
  flexcan_get_clock, flexcan_probe,
}

module _ {B : Type 0} (port : FlexcanPort B) (snprintf : List ℕ → ℕ → List ℕ) (cfg : Config) where
  -- A probe that went through, and one that did not.
  pub record IsProbed (devs : Devices) (r : Probed B) : Type 0 where
    pub chip : Flexcan B
    pub code : r.code ≡ ok 0
    pub device : r.device ≡ some chip
    pub registered : IsRegistration cfg devs r.devices chip.dev
    pub stopped : chip.dev.state ≡ CanState.stopped
    pub held : IsHeld chip
    pub memory : (r.region_held ≡ true) × (r.is_mapped ≡ true)

  pub record IsReleased (devs : Devices) (r : Probed B) : Type 0 where
    pub code : (e : Errno) × (r.code ≡ err e)
    pub devices : r.devices ≡ devs
    pub device : r.device ≡ none
    pub memory : (r.clk_held ≡ false) × (r.region_held ≡ false) × (r.is_mapped ≡ false)

  abbrev pub IsSettled : Devices → Probed B → Type 0
  IsSettled devs r = IsProbed devs r ⊎ IsReleased devs r

  IsSettled-if :
      (c : Bool) (devs : Devices) (r r' : Probed B)
      → IsSettled devs r
      → IsSettled devs r'
      → IsSettled devs (if c then r else r')
  IsSettled-if true devs r r' s s' = s
  IsSettled-if false devs r r' s s' = s'

  failed-IsReleased : (devs : Devices) (e : Errno) → IsSettled devs (out_error devs e)
  failed-IsReleased devs e =
      inr (record { code = (e, refl); devices = refl; device = refl; memory = (refl, refl, refl) })

  enrolled-IsSettled :
      (clk_held : Bool) (devs : Devices) (st : Flexcan B) (r : Ret × Devices × Device)
      → ((r.0 ≡ ok 0) × IsRegistration cfg devs r.1 r.2)
        ⊎ (((r.0 ≡ err enomem) ⊎ (r.0 ≡ err eexist)) × (r.1 ≡ devs))
      → r.2.state ≡ CanState.stopped
      → st.clocks ≡ 1
      → st.irq_held ≡ false
      → IsSettled devs (flexcan_probed port snprintf cfg clk_held (flexcan_enrolled port st r))
  unfolding flexcan_probed flexcan_enrolled
  enrolled-IsSettled clk_held devs st (ok n, devs', dev) (inl (o, filled)) e c i = inl (record {
    chip = record st { dev = dev };
    code = refl;
    device = refl;
    registered = filled;
    stopped = e;
    held = record {
      irq = i ∙ ap (λ (state : CanState). not (is_stopped state)) (sym e);
      clock = c ∙ ap (λ (state : CanState). if is_stopped state then 1 else 2) (sym e);
      senders = λ h. absurd (resting e h);
    };
    memory = (refl, refl);
  })
    where
      resting : {state : CanState} → state ≡ CanState.stopped → is_operating state ≡ true → ⊥
      resting e h = let never : false ≡ true = sym (ap is_operating e) ∙ h in ground (arith, never)
  enrolled-IsSettled clk_held devs st (ok n, devs', dev) (inr (inl o, same)) e c i =
      absurd (ground arith)
  enrolled-IsSettled clk_held devs st (ok n, devs', dev) (inr (inr o, same)) e c i =
      absurd (ground arith)
  enrolled-IsSettled clk_held devs st (err x, devs', dev) (inl (o, filled)) e c i =
      absurd (ground arith)
  enrolled-IsSettled clk_held devs st (err x, devs', dev) (inr (o, same)) e c i =
      inr (record { code = (x, refl); devices = same; device = refl; memory = (refl, refl, refl) })

  register-IsSettled :
      (clk_held : Bool) (devs : Devices) (st : Flexcan B)
      → st.dev.state ≡ CanState.stopped
      → st.clocks ≡ 0
      → st.irq_held ≡ false
      → IsSettled devs (
          flexcan_probed port snprintf cfg clk_held (register_flexcandev port snprintf cfg devs st))
  unfolding register_flexcandev flexcan_select_clock flexcan_probed
  register-IsSettled clk_held devs st e c i = by_fifo (has read.0 flexcan_mcr_fen)
    where
      read : ℕ × Flexcan B
      read = flexcan_read port (flexcan_select_clock port st) Regs.mcr

      by_fifo :
          (b : Bool)
          → IsSettled devs (
              flexcan_probed port snprintf cfg clk_held (
                if b
                then flexcan_enrolled port read.1 (dev_register snprintf cfg devs read.1.dev)
                else (err enodev, devs, out_chip_disable port read.1)))
      by_fifo true =
          enrolled-IsSettled clk_held devs read.1 _ (dev_register_lem snprintf cfg devs read.1.dev)
            (dev_register-state snprintf cfg devs read.1.dev ∙ e) (omega (arith, c)) i
      by_fifo false = inr (record {
        code = (enodev, refl);
        devices = refl;
        device = refl;
        memory = (refl, refl, refl);
      })

  acquire-IsSettled :
      (p : Platform) (features clock_freq : ℕ) (clk_held : Bool) (devs : Devices) (bus : B)
      → IsSettled devs (flexcan_acquire port snprintf cfg p features clock_freq clk_held devs bus)
  unfolding flexcan_acquire
  acquire-IsSettled p features clock_freq clk_held devs bus =
      IsSettled-if (not p.mem || p.irq == 0) devs _ _ (released enodev) (
        IsSettled-if (not p.region_free) devs _ _ (released ebusy) (
          IsSettled-if (not p.mapped) devs _ _ (released enomem)
            (elim (Option-cases (dev_alloc cfg p.memory)) [
              | inl out ↦ rw out (released enomem)
              | inr (dev, there) ↦ rw there (
                  register-IsSettled clk_held devs
                    (flexcan_fill port snprintf cfg features clock_freq bus dev) refl refl refl)
            ])))
    where
      released : (e : Errno) → IsSettled devs (out_error devs e)
      released e = failed-IsReleased devs e

  get_clock-IsSettled :
      (p : Platform) (features : ℕ) (devs : Devices) (bus : B)
      → IsSettled devs (flexcan_get_clock port snprintf cfg p features devs bus)
  unfolding flexcan_get_clock
  get_clock-IsSettled p features devs bus =
      IsSettled-if (p.clock_frequency == 0) devs _ _ (by_clk p.clk)
        (acquire-IsSettled p features p.clock_frequency false devs bus)
    where
      by_clk :
          (clk : Errno ⊎ ℕ)
          → IsSettled devs (elim clk [
            | inl e ↦ out_error devs e
            | inr rate ↦ flexcan_acquire port snprintf cfg p features rate true devs bus
          ])
      by_clk (inl e) = failed-IsReleased devs e
      by_clk (inr rate) = acquire-IsSettled p features rate true devs bus

  -- A probe of a FlexCAN device either returns 0, with the device registered under a free index and
  -- name, stopped, without its interrupt and with its clock enabled once, and its memory mapped; or it
  -- returns an error, leaves the table, and has given back the device, the clock, the memory region
  -- and the mapping. With an entry of the device tree's table it always returns an error: -ENODEV,
  -- unless the selection of the pins had failed.
  pub flexcan_probe_outcome :
      (p : Platform) (devs : Devices) (bus : B)
      → IsSettled devs (flexcan_probe port snprintf cfg p devs bus)
        × ((features : ℕ)
            → p.pins ≡ none
            → p.of_match ≡ some features
            → (flexcan_probe port snprintf cfg p devs bus).code ≡ err enodev)
  unfolding flexcan_probe flexcan_devtype
  flexcan_probe_outcome p devs bus =
      (by_pins p.pins (flexcan_devtype p.of_match p.id_entry), λ features e e'. rw e (rw e' refl))
    where
      by_pins :
          (pins : Option Errno) (devtype : Option ℕ)
          → IsSettled devs (elim pins [
            | some e ↦ out_error devs e
            | none ↦ elim devtype [
              | none ↦ out_error devs enodev
              | some features ↦ flexcan_get_clock port snprintf cfg p features devs bus
            ]
          ])
      by_pins (some e) devtype = failed-IsReleased devs e
      by_pins none none = failed-IsReleased devs enodev
      by_pins none (some features) = get_clock-IsSettled p features devs bus
