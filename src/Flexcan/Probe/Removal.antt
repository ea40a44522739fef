-- ===== src/Flexcan/Probe/Removal.antt =====
-- What the removal of a FlexCAN device (can/rtcan_flexcan.c) leaves.
use rtcan_bb.Base.{
  ℕ, ◌-◌, Bool, true, false, not, none, some, List, ◌≡◌, refl, sym, ap, ◌∙◌, ◌⊎◌, inl, inr,
  if◌then◌else◌, arith, update,
}
use rtcan_bb.Rtcan.Abi.{CanState, is_operating, ok}
use rtcan_bb.Rtcan.Device.{Device, Devices}
use rtcan_bb.Registry.{dev_unregister, drained}
use rtcan_bb.Flexcan.{FlexcanPort, Flexcan}
use rtcan_bb.Flexcan.Modes.{flexcan_mode_stop}
use rtcan_bb.Flexcan.Modes.Held.{IsHeld, is_stopped}
use rtcan_bb.Flexcan.Modes.Kept.{mode_stop-IsSameBut}
use rtcan_bb.Flexcan.Probe.{Probed, unregister_flexcandev, flexcan_remove}

-- A device that does not operate leaves the table once its users are gone.
unregistered :
    (devs : Devices) (dev : Device) (polls : List ℕ)
    → is_operating dev.state ≡ false
    → drained polls ≡ true
    → dev_unregister devs dev polls ≡ some (ok 0, update devs (dev.ifindex - 1) none)
unfolding dev_unregister
unregistered devs dev polls e e' = rw e (rw e' refl)

module _ {B : Type 0} (port : FlexcanPort B) where
  -- The table without a device, and nothing held.
  abbrev pub emptied : Devices → Device → Probed B
  emptied devs dev = record {
    code = ok 0;
    devices = update devs (dev.ifindex - 1) none;
    device = none;
    clk_held = false;
    region_held = false;
    is_mapped = false;
  }

  removed :
      (devs : Devices) (polls : List ℕ) (st : Flexcan B)
      → is_operating (flexcan_mode_stop port st).dev.state ≡ false
      → drained polls ≡ true
      → flexcan_remove port devs polls st
        ≡ some (emptied devs (flexcan_mode_stop port st).dev, flexcan_mode_stop port st)
  unfolding flexcan_remove unregister_flexcandev
  removed devs polls st e e' =
      rw (unregistered devs (flexcan_mode_stop port st).dev polls e e') refl

  left_alone : (st : Flexcan B) → is_operating st.dev.state ≡ false → flexcan_mode_stop port st ≡ st
  unfolding flexcan_mode_stop
  left_alone st e = rw e refl

  -- The removal of a registered FlexCAN device whose users go away returns 0, empties its place in
  -- the table and gives back its memory. The device is freed with its interrupt given back and its
  -- clock still enabled once when it was operating or stopped; when it was in bus-off it is freed with
  -- its interrupt still requested and its clock enabled twice.
  pub flexcan_remove_outcome :
      (devs : Devices) (polls : List ℕ) (st : Flexcan B)
      → IsHeld st
      → drained polls ≡ true
      → (freed : Flexcan B) × (flexcan_remove port devs polls st
          ≡ some (emptied devs st.dev, freed))
        × ((is_operating st.dev.state ≡ true) ⊎ (st.dev.state ≡ CanState.stopped)
            → (freed.irq_held ≡ false) × (freed.clocks ≡ 1))
        × (st.dev.state ≡ CanState.bus_off → (freed.irq_held ≡ true) × (freed.clocks ≡ 2))
  flexcan_remove_outcome devs polls st s e = by_state (is_operating st.dev.state) refl
    where
      by_state :
          (b : Bool)
          → is_operating st.dev.state ≡ b
          → (freed : Flexcan B) × (flexcan_remove port devs polls st
              ≡ some (emptied devs st.dev, freed))
            × ((is_operating st.dev.state ≡ true) ⊎ (st.dev.state ≡ CanState.stopped)
                → (freed.irq_held ≡ false) × (freed.clocks ≡ 1))
            × (st.dev.state ≡ CanState.bus_off → (freed.irq_held ≡ true) × (freed.clocks ≡ 2))
      by_state true o =
          let p = mode_stop-IsSameBut port st o s in
          (
            flexcan_mode_stop port st,
            removed devs polls st (ap (λ (dev : Device). is_operating dev.state) p.dev) e
                ∙ ap (λ (dev : Device). some (emptied devs dev, flexcan_mode_stop port st)) p.dev,
            λ h. (p.irq, p.clocks),
            λ h. absurd (ground (arith, sym o ∙ ap is_operating h)),
          )
      by_state false o = (
        st,
        removed devs polls st
              (ap (λ (a : Flexcan B). is_operating a.dev.state) (left_alone st o) ∙ o) e
            ∙ ap (λ (a : Flexcan B). some (emptied devs a.dev, a)) (left_alone st o),
        λ h. elim h [
          | inl h' ↦ absurd (ground (arith, sym o ∙ h'))
          | inr h' ↦ (
            s.irq ∙ ap (λ (state : CanState). not (is_stopped state)) h',
            s.clock ∙ ap (λ (state : CanState). if is_stopped state then 1 else 2) h',
          )
        ],
        λ h. (
          s.irq ∙ ap (λ (state : CanState). not (is_stopped state)) h,
          s.clock ∙ ap (λ (state : CanState). if is_stopped state then 1 else 2) h,
        ),
      )
