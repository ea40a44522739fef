-- ===== src/Registry/Register.antt =====
-- The table of devices after `rtcan_dev_alloc` and `rtcan_dev_register` of can/rtcan_dev.c.
use rtcan_bb.Base.{
  ℕ, zero, suc, ◌+◌, ◌<◌, ◌≤◌, ◌≡◌, refl, sym, ap, ◌∙◌, subst, true, false, none, some, List, arith,
  Bool-cases, Option-cases, ◌⊎◌, inl, inr, update, length,
}
use native.Mathlib.Decide.{ℕ_discrete}
use rtcan_bb.Rtcan.Abi.{Ret, ok, err, eexist, enomem}
use rtcan_bb.Rtcan.Socket.{Config}
use rtcan_bb.Rtcan.Device.{Device, Devices}
use rtcan_bb.Registry.{
  has_name, find_name, new_index, fresh_entries, dev_alloc, named, alloc_name, get_by_name,
  put_device, dev_register, has_percent,
}
use rtcan_bb.Filter.Entries.{IsWellFormed}

length-fresh_entries : (n : ℕ) → length (fresh_entries n) ≡ n
unfolding fresh_entries
length-fresh_entries zero = refl
length-fresh_entries (suc n) = ap suc (length-fresh_entries n)

-- A device that has been allocated accounts for its entries: all of them are free.
pub dev_alloc-IsWellFormed :
    (cfg : Config) → (dev : Device) × (dev_alloc cfg true ≡ some dev) × IsWellFormed cfg dev
unfolding dev_alloc
dev_alloc-IsWellFormed cfg = (
  _,
  refl,
  record {
    counted = sym (length-fresh_entries cfg.max_receivers);
    total = omega (arith, length-fresh_entries cfg.max_receivers);
  },
)

-- A slot that `new_index` finds.
abbrev IsFree : Devices → ℕ → ℕ → ℕ → Type 0
IsFree devs i n k = (j : ℕ) × (k ≡ suc j) × (i ≤ j) × (j < i + n) × (devs j ≡ none)

new_index-IsFree : (devs : Devices) (i n k : ℕ) → new_index devs i n ≡ some k → IsFree devs i n k
unfolding new_index
new_index-IsFree devs i zero k e = absurd (ground arith)
new_index-IsFree devs i (suc n) k e = elim (Option-cases (devs i)) [
  | inl free ↦ (i, ground (arith, free, e), omega arith, omega arith, free)
  | inr (dev, taken) ↦
      let (j, is, lo, hi, free) = new_index-IsFree devs (suc i) n k (ground (arith, taken, e)) in
      (j, is, omega arith, omega arith, free)
]

find_name-none :
    (devs : Devices) (name : List ℕ) (i n : ℕ)
    → find_name devs name i n ≡ none
    → (j : ℕ) → i ≤ j
    → j < i + n
    → has_name name (devs j) ≡ false
unfolding find_name
find_name-none devs name i zero e j lo hi = absurd (omega arith)
find_name-none devs name i (suc n) e j lo hi = elim (Bool-cases (has_name name (devs i))) [
  | inl hit ↦ absurd (ground (arith, hit, e))
  | inr miss ↦ elim (ℕ_discrete i j) [
    | yes same ↦ subst (λ (k : ℕ). has_name name (devs k) ≡ false) same miss
    | no other ↦
        find_name-none devs name (suc i) n (ground (arith, miss, e)) j (omega (arith, other))
          (omega arith)
  ]
]

-- A registration that has succeeded, in a table, of the device as it is afterwards.
pub record IsRegistration (cfg : Config) (devs devs' : Devices) (dev : Device) : Type 0 where
  pub slot : ℕ
  pub in_table : slot < cfg.max_devices
  pub was_free : devs slot ≡ none
  pub filled : devs' ≡ update devs slot (some dev)
  pub index : dev.ifindex ≡ suc slot
  pub unique : (j : ℕ) → j < cfg.max_devices → has_name dev.name (devs j) ≡ false

module _ (snprintf : List ℕ → ℕ → List ℕ) (cfg : Config) (devs : Devices) where
  alloc_name_ifindex :
      (dev : Device) (mask : List ℕ) (i n : ℕ)
      → (alloc_name snprintf cfg devs dev mask i n).ifindex ≡ dev.ifindex
  unfolding alloc_name
  alloc_name_ifindex dev mask i zero = refl
  alloc_name_ifindex dev mask i (suc n) =
      elim (Option-cases (get_by_name cfg devs (snprintf mask i))) [
        | inl unused ↦ rw (unused, alloc_name) refl
        | inr (found, used) ↦ rw (used, alloc_name) (alloc_name_ifindex dev mask (suc i) n)
      ]

  named_ifindex : (dev : Device) → (named snprintf cfg devs dev).ifindex ≡ dev.ifindex
  unfolding named
  named_ifindex dev = elim (Bool-cases (has_percent dev.name)) [
    | inl mask ↦ rw (mask, named) (alloc_name_ifindex dev dev.name 0 cfg.max_devices)
    | inr plain ↦ rw (plain, named) refl
  ]

  abbrev Outcome : Ret × Devices × Device → Type 0
  Outcome r =
      ((r.0 ≡ ok 0) × IsRegistration cfg devs r.1 r.2)
      ⊎ (((r.0 ≡ err enomem) ⊎ (r.0 ≡ err eexist)) × (r.1 ≡ devs))

  entered :
      (i : ℕ) (dev : Device)
      → IsFree devs 0 cfg.max_devices i
      → dev.ifindex ≡ i
      → Outcome (elim (find_name devs dev.name 0 cfg.max_devices) [
        | some taken ↦ (err eexist, devs, dev)
        | none ↦ (ok 0, put_device devs i dev, dev)
      ])
  unfolding put_device
  entered i dev (j, is, lo, hi, free) same =
      elim (Option-cases (find_name devs dev.name 0 cfg.max_devices)) [
        | inr (taken, e) ↦ rw e (inr (inr refl, refl))
        | inl e ↦ rw e (
            inl (
              refl,
              record {
                slot = j;
                in_table = omega arith;
                was_free = free;
                filled = ap (λ (k : ℕ). update devs k (some dev)) (omega (arith, is));
                index = same ∙ is;
                unique = λ k h.
                    find_name-none devs dev.name 0 cfg.max_devices e k (omega arith) (omega arith);
              },
            ))
      ]

  -- A registration either returns 0 and puts the device into a place of the table that was empty,
  -- with the index of that place and a name that no device of the table has, or it returns -ENOMEM
  -- or -EEXIST and leaves the table.
  pub dev_register_lem :
      (dev : Device)
      → let r = dev_register snprintf cfg devs dev in
        ((r.0 ≡ ok 0) × IsRegistration cfg devs r.1 r.2)
        ⊎ (((r.0 ≡ err enomem) ⊎ (r.0 ≡ err eexist)) × (r.1 ≡ devs))
  unfolding dev_register
  dev_register_lem dev = elim (Option-cases (new_index devs 0 cfg.max_devices)) [
    | inl full ↦ rw (full, dev_register) (inr (inl refl, refl))
    | inr (i, found) ↦
        rw (found, dev_register)
          (entered i (named snprintf cfg devs (record dev { ifindex = i }))
            (new_index-IsFree devs 0 cfg.max_devices i found)
            (named_ifindex (record dev { ifindex = i })))
  ]

-- A registration does not touch the state of the device.
module _ (snprintf : List ℕ → ℕ → List ℕ) (cfg : Config) (devs : Devices) where
  alloc_name-state :
      (dev : Device) (mask : List ℕ) (i n : ℕ)
      → (alloc_name snprintf cfg devs dev mask i n).state ≡ dev.state
  unfolding alloc_name
  alloc_name-state dev mask i zero = refl
  alloc_name-state dev mask i (suc n) =
      elim (Option-cases (get_by_name cfg devs (snprintf mask i))) [
        | inl free ↦ rw (free, alloc_name) refl
        | inr (found, taken) ↦ rw (taken, alloc_name) (alloc_name-state dev mask (suc i) n)
      ]

  named-state : (dev : Device) → (named snprintf cfg devs dev).state ≡ dev.state
  unfolding named
  named-state dev = elim (Bool-cases (has_percent dev.name)) [
    | inl e ↦ rw e (alloc_name-state dev dev.name 0 cfg.max_devices)
    | inr e ↦ rw e refl
  ]

  abbrev KeepsState : Device → Ret × Devices × Device → Type 0
  KeepsState dev r = r.2.state ≡ dev.state

  entered-state :
      (i : ℕ) (dev : Device)
      → KeepsState dev (elim (find_name devs dev.name 0 cfg.max_devices) [
        | some taken ↦ (err eexist, devs, dev)
        | none ↦ (ok 0, put_device devs i dev, dev)
      ])
  entered-state i dev = elim (Option-cases (find_name devs dev.name 0 cfg.max_devices)) [
    | inl free ↦ rw free refl
    | inr (found, taken) ↦ rw taken refl
  ]

  pub dev_register-state : (dev : Device) → (dev_register snprintf cfg devs dev).2.state ≡ dev.state
  unfolding dev_register
  dev_register-state dev = elim (Option-cases (new_index devs 0 cfg.max_devices)) [
    | inl full ↦ rw (full, dev_register) refl
    | inr (i, free) ↦
        rw (free, dev_register)
          (entered-state i (named snprintf cfg devs (record dev { ifindex = i }))
            ∙ named-state (record dev { ifindex = i }))
  ]
