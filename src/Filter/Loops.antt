-- ===== src/Filter/Loops.antt =====
-- The loops over the devices of an interface index: what they do to every slot of the table.
use rtcan_bb.Base.{
  ℕ, zero, suc, ◌+◌, ◌-◌, ◌≡◌, ◌≢◌, refl, sym, ap, ◌∙◌, subst, fun_ext, Bool, true, false, not,
  ◌&&◌, ◌||◌, Option, none, some, arith, inl, inr, ltb, leb, ◌==◌, if◌then◌else◌, update,
  Bool-cases, Option-cases,
}
use native.Mathlib.Decide.{ℕ_discrete}
use rtcan_bb.Rtcan.Socket.{Config}
use rtcan_bb.Rtcan.Device.{Device, Devices}
use rtcan_bb.Registry.{is_negative, get_by_index, put_device, reference, dereference}
use rtcan_bb.Filter.{visit, for_devices}

-- An index that `rtcan_dev_get_by_index` looks up.
abbrev pub is_visible : Config → ℕ → Bool
is_visible cfg i = not (is_negative i || (i == 0) || ltb cfg.max_devices i)

abbrev pub map_device : (Device → Device) → Option Device → Option Device
map_device g none = none
map_device g (some dev) = some (g dev)

-- The slots of the `n` indices from `i` on, changed by `g`.
abbrev pub in_range : Config → ℕ → ℕ → ℕ → Bool
in_range cfg n i j = leb i (suc j) && ltb (suc j) (i + n) && is_visible cfg (suc j)

abbrev pub on_range : Config → (Device → Device) → ℕ → ℕ → Devices → Devices
on_range cfg g n i devs j = if in_range cfg n i j then map_device g (devs j) else devs j

-- Giving back a reference that was taken.
pub dereference-reference : (dev : Device) → dereference (reference dev) ≡ dev
unfolding dereference reference
dereference-reference dev = ap (λ (n : ℕ). record dev { refcount = n }) (omega arith)

pub get_by_index_visible :
    (cfg : Config) (devs : Devices) (j : ℕ)
    → is_visible cfg (suc j) ≡ true
    → get_by_index cfg devs (suc j) ≡ map_device reference (devs j)
unfolding get_by_index
get_by_index_visible cfg devs j h = ground (arith, ap devs (predecessor j), Option-cases (devs j))
  where
    predecessor : (j : ℕ) → suc j - 1 ≡ j
    predecessor j = omega arith

pub get_by_index_hidden :
    (cfg : Config) (devs : Devices) (i : ℕ)
    → is_visible cfg i ≡ false
    → get_by_index cfg devs i ≡ none
unfolding get_by_index
get_by_index_hidden cfg devs i h = ground arith

-- A slot, written back.
abbrev set_slot : Devices → ℕ → Device → Devices
set_slot devs j dev = update devs j (some dev)

put_device-set_slot :
    (devs : Devices) (j : ℕ) (dev : Device) → put_device devs (suc j) dev ≡ set_slot devs j dev
unfolding put_device
put_device-set_slot devs j dev = ap (λ (k : ℕ). update devs k (some dev)) (omega arith)

visit_hidden :
    (cfg : Config) (step : Device → Option Device) (i : ℕ) (devs : Devices)
    → is_visible cfg i ≡ false
    → visit cfg step i devs ≡ some devs
unfolding visit
visit_hidden cfg step i devs h = rw (get_by_index_hidden cfg devs i h, visit) refl

visit_empty :
    (cfg : Config) (step : Device → Option Device) (j : ℕ) (devs : Devices)
    → is_visible cfg (suc j) ≡ true
    → devs j ≡ none
    → visit cfg step (suc j) devs ≡ some devs
unfolding visit
visit_empty cfg step j devs h e =
    rw (get_by_index_visible cfg devs j h ∙ ap (map_device reference) e, visit) refl

visit_there :
    (cfg : Config) (step : Device → Option Device) (j : ℕ) (devs : Devices) (dev new : Device)
    → is_visible cfg (suc j) ≡ true
    → devs j ≡ some dev
    → step (reference dev) ≡ some (reference new)
    → visit cfg step (suc j) devs ≡ some (set_slot devs j new)
unfolding visit
visit_there cfg step j devs dev new h e s =
    rw (get_by_index_visible cfg devs j h ∙ ap (map_device reference) e, visit)
      (rw s
        (ap some (put_device-set_slot devs j _ ∙ ap (set_slot devs j) (dereference-reference new))))

-- How the slots of a range change from one round to the next.
module _ (cfg : Config) (g : Device → Device) (n i : ℕ) where
  change : Bool → Option Device → Option Device
  change b o = if b then map_device g o else o

  range_later : (j : ℕ) → i ≢ j → in_range cfg n (suc (suc i)) j ≡ in_range cfg (suc n) (suc i) j
  range_later j ne = ground arith

  later :
      (devs : Devices) (j : ℕ)
      → i ≢ j
      → on_range cfg g n (suc (suc i)) devs j ≡ on_range cfg g (suc n) (suc i) devs j
  unfolding change
  later devs j ne = ap (λ (b : Bool). change b (devs j)) (range_later j ne)

  here : (devs : Devices) → on_range cfg g n (suc (suc i)) devs i ≡ devs i
  here devs = ground arith

  first :
      (devs : Devices)
      → on_range cfg g (suc n) (suc i) devs i ≡ change (is_visible cfg (suc i)) (devs i)
  unfolding change
  first devs = ap (λ (b : Bool). change b (devs i)) (ground arith)

  -- The first slot is as the round leaves it, and the others wait.
  skipped :
      (devs : Devices)
      → change (is_visible cfg (suc i)) (devs i) ≡ devs i
      → on_range cfg g n (suc (suc i)) devs ≡ on_range cfg g (suc n) (suc i) devs
  skipped devs h = fun_ext λ j. elim (ℕ_discrete i j) [
    | yes e ↦
        subst (λ k. on_range cfg g n (suc (suc i)) devs k ≡ on_range cfg g (suc n) (suc i) devs k) e
          (here devs ∙ sym (first devs ∙ h))
    | no ne ↦ later devs j ne
  ]

  changed :
      (devs : Devices) (new : Device)
      → change (is_visible cfg (suc i)) (devs i) ≡ some new
      → on_range cfg g n (suc (suc i)) (set_slot devs i new) ≡ on_range cfg g (suc n) (suc i) devs
  unfolding change
  changed devs new h = fun_ext λ j. elim (ℕ_discrete i j) [
    | yes e ↦
        subst
          (λ k.
            on_range cfg g n (suc (suc i)) (set_slot devs i new) k
            ≡ on_range cfg g (suc n) (suc i) devs k)
          e (here (set_slot devs i new) ∙ ground arith ∙ sym (first devs ∙ h))
    | no ne ↦
        later (set_slot devs i new) j ne
        ∙ ap (change (in_range cfg (suc n) (suc i) j)) (ground arith)
  ]

-- If each round of a loop over interface indices does the same change to the device it visits, as
-- it is with one more reference, the loop does that change to exactly the registered devices of
-- its range, and gives back every reference.
pub for_devices_lem :
    (cfg : Config) (step : Device → Option Device) (g : Device → Device) (n i : ℕ) (devs : Devices)
    → ((j : ℕ) (dev : Device)
        → in_range cfg n (suc i) j ≡ true
        → devs j ≡ some dev
        → step (reference dev) ≡ some (reference (g dev)))
    → for_devices cfg step n (suc i) devs ≡ some (on_range cfg g n (suc i) devs)
unfolding for_devices change
for_devices_lem cfg step g zero i devs h = ap some (fun_ext λ j. ground arith)
for_devices_lem cfg step g (suc n) i devs h = elim (Bool-cases (is_visible cfg (suc i))) [
  | inr hidden ↦ rw (visit_hidden cfg step (suc i) devs hidden) (
      for_devices_lem cfg step g n (suc i) devs (λ j dev r e. h j dev (ground arith) e)
      ∙ ap some (skipped cfg g n i devs (rw (hidden, change) refl)))
  | inl visible ↦ elim (Option-cases (devs i)) [
    | inl empty ↦ rw (visit_empty cfg step i devs visible empty) (
        for_devices_lem cfg step g n (suc i) devs (λ j dev r e. h j dev (ground arith) e)
        ∙ ap some (skipped cfg g n i devs (rw (empty, change) (ground arith))))
    | inr (dev, e) ↦
        rw (visit_there cfg step i devs dev (g dev) visible e (h i dev (ground arith) e)) (
          for_devices_lem cfg step g n (suc i) (set_slot devs i (g dev))
            (λ j d r e'. h j d (ground arith) (ground arith))
          ∙ ap some (changed cfg g n i devs (g dev) (rw (visible, e, change) refl)))
  ]
]
