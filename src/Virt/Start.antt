-- ===== src/Virt/Start.antt =====
-- The start and the end of the module of virtual devices, can/rtcan_virt.c: what they leave in the
-- table of devices.
use rtcan_bb.Base.{
  ℕ, suc, ◌-◌, Bool, true, false, Option, none, some, List, [], ◌∷◌, ◌≡◌, refl, ap, ◌∙◌, subst, ◌⊎◌,
  inl, inr, update, arith, fun_ext, length, ltb, ap₂, ◌≤◌, ◌<◌, ◌+◌, ◌>>=◌, if◌then◌else◌,
}
use rtcan_bb.Rtcan.Abi.{Errno, CanState, stop, is_operating, Ret, ok, err, enomem, eexist}
use rtcan_bb.Rtcan.Socket.{Config}
use rtcan_bb.Rtcan.Device.{Device, Devices}
use rtcan_bb.Registry.{dev_free, put_device, drained, dev_alloc, dev_unregister}
use rtcan_bb.Registry.Register.{IsRegistration, dev_register_lem, dev_register-state}
use rtcan_bb.Virt.{
  Loading, rtcan_max_virt_devs, virt_set_mode, virt_init_one, virt_undo, virt_init, virt_exit,
}

-- The table with one more device, in a place that was empty.
pub record IsAdded (devs devs' : Devices) (dev : Device) : Type 0 where
  pub slot : ℕ
  pub was_free : devs slot ≡ none
  pub filled : devs' ≡ update devs slot (some dev)
  pub index : dev.ifindex ≡ suc slot
  pub stopped : dev.state ≡ CanState.stopped

-- The table with some more devices, the latest first, and the oldest first.
abbrev pub Stacked : Devices → List Device → Devices → Type 0
Stacked devs [] devs' = devs' ≡ devs
Stacked devs (dev ∷ made) devs' =
    (before : Devices) × Stacked devs made before × IsAdded before devs' dev

abbrev pub Queued : Devices → List Device → Devices → Type 0
Queued devs [] devs' = devs' ≡ devs
Queued devs (dev ∷ made) devs' =
    (after : Devices) × IsAdded devs after dev × Queued after made devs'

-- The slots of the bus.
abbrev pub indices : List Device → List ℕ
indices [] = []
indices (dev ∷ made) = dev.ifindex ∷ indices made

-- The devices in the order of the array.
abbrev pub onto : List Device → List Device → List Device
onto [] rest = rest
onto (dev ∷ made) rest = onto made (dev ∷ rest)

update_back :
    (devs : Devices) (i : ℕ) (dev : Device)
    → devs i ≡ none
    → update (update devs i (some dev)) i none ≡ devs
update_back devs i dev free = fun_ext (λ j. ground arith)

update_over :
    (devs : Devices) (i : ℕ) (v w : Option Device) → update (update devs i v) i w ≡ update devs i w
update_over devs i v w = fun_ext (λ j. ground arith)

update_swap :
    (devs : Devices) (i j : ℕ) (v w : Option Device)
    → ¬ (i ≡ j)
    → update (update devs i v) j w ≡ update (update devs j w) i v
update_swap devs i j v w other = fun_ext (λ k. ground arith)

-- The table without a device that was added to it is the one before.
taken_out :
    (before devs : Devices) (dev : Device)
    → (added : IsAdded before devs dev) → update devs (dev.ifindex - 1) none ≡ before
taken_out before devs dev added =
    ap (λ (i : ℕ). update devs i none) (omega (arith, added.index))
    ∙ ap (λ (d : Devices). update d added.slot none) added.filled
    ∙ update_back before added.slot dev added.was_free

-- A start that fails leaves the table as it was, and gives back the memory that it took.
undone :
    (polls : ℕ → List ℕ) (n : ℕ) (devs devs' : Devices) (made array : List Device)
    → ((i : ℕ) → drained (polls i) ≡ true)
    → Stacked devs made devs'
    → virt_undo polls made (record { devices = devs'; made = array; allocated = length made + n })
      ≡ some (record { devices = devs; made = array; allocated = n })
unfolding virt_undo dev_unregister
undone polls n devs devs' [] array e s =
    ap₂ (λ (d : Devices) (k : ℕ). some (record { devices = d; made = array; allocated = k })) s
      (omega arith)
undone polls n devs devs' (dev ∷ made) array e (before, s, added) =
    rw (ap is_operating added.stopped, e dev.ifindex)
      (ap₂
          (λ (d : Devices) (k : ℕ).
            virt_undo polls made (record { devices = d; made = array; allocated = k }))
          (taken_out before devs' dev added) (omega arith)
        ∙ undone polls n devs before made array e s)

-- Devices that were added are in the table, and stay there.
stays :
    (devs devs' : Devices) (made : List Device) (i : ℕ) (dev : Device)
    → Queued devs made devs'
    → devs i ≡ some dev
    → devs' i ≡ some dev
stays devs devs' [] i dev q e = ap (λ (d : Devices). d i) q ∙ e
stays devs devs' (new ∷ made) i dev (after, added, q) e =
    stays after devs' made i dev q
      (ap (λ (d : Devices). d i) added.filled ∙ ground (arith, e, added.was_free))

-- Two devices that were added one after the other are in different places.
apart :
    {devs devs1 devs2 : Devices} {dev new : Device} (added : IsAdded devs devs1 dev)
    (added' : IsAdded devs1 devs2 new)
    → (devs added'.slot ≡ none)
      × (update devs added'.slot (some new) added.slot ≡ none)
      × (devs2 ≡ update (update devs added'.slot (some new)) added.slot (some dev))
apart {devs} {devs1} {devs2} {dev} {new} added added' =
    (free, ground (arith, other, added.was_free), filled)
  where
    other : ¬ (added.slot ≡ added'.slot)
    other same =
        let at = ap (λ (d : Devices). d added'.slot) added.filled in
        absurd (ground (arith, at, same, added'.was_free))

    free : devs added'.slot ≡ none
    free =
        let at = ap (λ (d : Devices). d added'.slot) added.filled in
        ground (arith, at, other, added'.was_free)

    filled : devs2 ≡ update (update devs added'.slot (some new)) added.slot (some dev)
    filled =
        added'.filled
        ∙ ap (λ (d : Devices). update d added'.slot (some new)) added.filled
        ∙ update_swap devs added.slot added'.slot (some dev) (some new) other

-- The first of several devices that were added is taken out before the others.
commute :
    (devs devs1 devs' : Devices) (made : List Device) (dev : Device)
    → (added : IsAdded devs devs1 dev) → Queued devs1 made devs'
    → Queued devs made (update devs' (dev.ifindex - 1) none)
commute devs devs1 devs' [] dev added q =
    ap (λ (d : Devices). update d (dev.ifindex - 1) none) q ∙ taken_out devs devs1 dev added
commute devs devs1 devs' (new ∷ made) dev added (devs2, added', q) =
    let (free, free', filled) = apart added added' in
    let after = update devs added'.slot (some new) in
    (
      after,
      record {
        slot = added'.slot;
        was_free = free;
        filled = refl;
        index = added'.index;
        stopped = added'.stopped;
      },
      commute after devs2 devs' made dev
          (record {
            slot = added.slot;
            was_free = free';
            filled = filled;
            index = added.index;
            stopped = added.stopped;
          })
          q,
    )

-- The end of the module, after any use of the devices that leaves the table.
virt_exit_lem :
    (polls : ℕ → List ℕ) (n : ℕ) (devs devs' : Devices) (made array : List Device)
    → ((i : ℕ) → drained (polls i) ≡ true)
    → Queued devs made devs'
    → virt_exit polls
        (indices made)
        (record { devices = devs'; made = array; allocated = length made + n })
      ≡ some (record { devices = devs; made = array; allocated = n })
unfolding virt_exit virt_set_mode put_device dev_unregister
virt_exit_lem polls n devs devs' [] array e q =
    ap₂ (λ (d : Devices) (k : ℕ). some (record { devices = d; made = array; allocated = k })) q
      (omega arith)
virt_exit_lem polls n devs devs' (dev ∷ made) array e (devs1, added, q) =
    rw (present, e dev.ifindex)
      (ap₂
          (λ (d : Devices) (k : ℕ).
            virt_exit polls (indices made) (record { devices = d; made = array; allocated = k }))
          (update_over devs' (dev.ifindex - 1) (some stopped_dev) none) (omega arith)
        ∙ virt_exit_lem polls n devs (update devs' (dev.ifindex - 1) none) made array e
            (commute devs devs1 devs' made dev added q))
  where
    stopped_dev : Device
    stopped_dev = (virt_set_mode dev stop).1

    present : devs' (dev.ifindex - 1) ≡ some dev
    present = stays devs1 devs' made (dev.ifindex - 1) dev q (
        ap (λ (i : ℕ). devs1 i) (omega (arith, added.index))
        ∙ ap (λ (d : Devices). d added.slot) added.filled
        ∙ ground arith)

-- The devices of a start in the order of the array.
in_order :
    (devs devs1 devs' : Devices) (made rest : List Device)
    → Stacked devs made devs1
    → Queued devs1 rest devs'
    → Queued devs (onto made rest) devs'
in_order devs devs1 devs' [] rest s q = subst (λ (d : Devices). Queued d rest devs') s q
in_order devs devs1 devs' (dev ∷ made) rest (before, s, added) q =
    in_order devs before devs' made (dev ∷ rest) s (devs1, added, q)

length-onto : (made rest : List Device) → length (onto made rest) ≡ length made + length rest
length-onto [] rest = omega arith
length-onto (dev ∷ made) rest = length-onto made (dev ∷ rest) ∙ omega arith

-- What one device leaves of a start that has come so far.
abbrev IsMade : Loading → Option (Ret × Loading) → Type 0
IsMade st out =
    ((dev : Device) × (devs : Devices) × (out
        ≡ some
            (ok 0, record { devices = devs; made = dev ∷ st.made; allocated = st.allocated + 1 }))
      × IsAdded st.devices devs dev)
    ⊎ ((e : Errno) × (out ≡ some (err e, st)) × ((e ≡ enomem) ⊎ (e ≡ eexist)))

-- A start that went through, and one that did not.
abbrev pub IsLoaded : Loading → ℕ → Ret × Loading → Type 0
IsLoaded st count r =
    (r.0 ≡ ok 0)
    × (length r.1.made ≡ count)
    × Stacked st.devices r.1.made r.1.devices
    × (r.1.allocated ≡ length r.1.made + st.allocated)

abbrev pub IsWithdrawn : Loading → Ret × Loading → Type 0
IsWithdrawn st r =
    ((r.0 ≡ err enomem) ⊎ (r.0 ≡ err eexist))
    × (r.1.devices ≡ st.devices)
    × (r.1.allocated ≡ st.allocated)

module _ (snprintf : List ℕ → ℕ → List ℕ) (cfg : Config) where
  registered-IsMade :
      (st : Loading) (r : Ret × Devices × Device)
      → length st.made < rtcan_max_virt_devs
      → ((r.0 ≡ ok 0) × IsRegistration cfg st.devices r.1 r.2)
        ⊎ (((r.0 ≡ err enomem) ⊎ (r.0 ≡ err eexist)) × (r.1 ≡ st.devices))
      → r.2.state ≡ CanState.stopped
      → IsMade st (elim r.0 [
        | ok n ↦
            if ltb (length st.made) rtcan_max_virt_devs
            then some
                (ok 0, record { devices = r.1; made = r.2 ∷ st.made; allocated = st.allocated + 1 })
            else none
        | err e ↦ some (err e, record st { devices = r.1; allocated = dev_free (st.allocated + 1) })
      ])
  registered-IsMade st (ok n, devs, dev) room (inl (e, filled)) s = inl (
    dev,
    devs,
    rw below refl,
    record {
      slot = filled.slot;
      was_free = filled.was_free;
      filled = filled.filled;
      index = filled.index;
      stopped = s;
    },
  )
    where
      below : ltb (length st.made) rtcan_max_virt_devs ≡ true
      below = ground arith
  registered-IsMade st (ok n, devs, dev) room (inr (inl e, same)) s = absurd (ground arith)
  registered-IsMade st (ok n, devs, dev) room (inr (inr e, same)) s = absurd (ground arith)
  registered-IsMade st (err x, devs, dev) room (inl (e, filled)) s = absurd (ground arith)
  registered-IsMade st (err x, devs, dev) room (inr (e, same)) s = inr (
    x,
    ap₂ (λ (d : Devices) (k : ℕ). some (err x, record st { devices = d; allocated = k })) same
        (omega arith),
    which e,
  )
    where
      which : (err x ≡ err enomem) ⊎ (err x ≡ err eexist) → (x ≡ enomem) ⊎ (x ≡ eexist)
      which (inl e) = inl (ground (arith, e))
      which (inr e) = inr (ground (arith, e))

  one-IsMade :
      (available : Bool) (st : Loading)
      → length st.made < rtcan_max_virt_devs
      → IsMade st (virt_init_one snprintf cfg available st)
  unfolding virt_init_one dev_alloc virt_set_mode
  one-IsMade false st room = inr (enomem, refl, inl refl)
  one-IsMade true st room =
      registered-IsMade st _ room (dev_register_lem snprintf cfg st.devices _)
        (dev_register-state snprintf cfg st.devices _)

  module _ (polls : ℕ → List ℕ) (gone : (i : ℕ) → drained (polls i) ≡ true) where
    init_from :
        (available : List Bool) (st0 st : Loading)
        → Stacked st0.devices st.made st.devices
        → st.allocated ≡ length st.made + st0.allocated
        → length st.made + length available ≤ rtcan_max_virt_devs
        → (r : Ret × Loading) × (virt_init snprintf cfg polls available st ≡ some r)
          × (IsLoaded st0 (length st.made + length available) r ⊎ IsWithdrawn st0 r)
    unfolding virt_init
    init_from [] st0 st s k room = ((ok 0, st), refl, inl (refl, omega arith, s, k))
    init_from (a ∷ available) st0 st s k room = elim (one-IsMade a st (omega arith)) [
      | inl (dev, devs, e, added) ↦
          let (r, e', outcome) =
            init_from available st0
              (record { devices = devs; made = dev ∷ st.made; allocated = st.allocated + 1 })
              (st.devices, s, added) (omega (arith, k)) (omega (arith, room)) in
          (
            r,
            rw (e, virt_init) e',
            subst (λ (n : ℕ). IsLoaded st0 n r ⊎ IsWithdrawn st0 r) (omega arith) outcome,
          )
      | inr (e, out, code) ↦ (
        (err e, record { devices = st0.devices; made = st.made; allocated = st0.allocated }),
        rw (out, virt_init)
            (ap (λ (m : Option Loading). m >>= λ st'. some (err e, st'))
              (ap (λ (n : ℕ). virt_undo polls st.made (record st { allocated = n })) k
                ∙ undone polls st0.allocated st0.devices st.devices st.made st.made gone s)),
        inr (code_of e code, refl, refl),
      )
    ]
      where
        code_of :
            (e : Errno) → (e ≡ enomem) ⊎ (e ≡ eexist) → (err e ≡ err enomem) ⊎ (err e ≡ err eexist)
        code_of e (inl same) = inl (ap err same)
        code_of e (inr same) = inr (ap err same)

    -- The end of the module after a start.
    abbrev pub Unloaded : Loading → Ret × Loading → Type 0
    Unloaded st r =
        virt_exit polls (indices (onto r.1.made [])) r.1
        ≡ some (record { devices = st.devices; made = r.1.made; allocated = st.allocated })

    -- The start of the virtual driver, with at most the eight devices that its array has room for,
    -- returns when the users of each device go away. Either it returns 0 with as many devices as were
    -- asked for, and the end of the module then returns too and leaves the table of devices and the
    -- number of devices that have memory as they were before the start; or it returns -ENOMEM or
    -- -EEXIST, and leaves these two as they were at once.
    pub virt_init_outcome :
        (available : List Bool) (devs : Devices) (n : ℕ)
        → length available ≤ rtcan_max_virt_devs
        → let st : Loading = record { devices = devs; made = []; allocated = n } in
          (r : Ret × Loading) × (virt_init snprintf cfg polls available st ≡ some r)
          × (((r.0 ≡ ok 0) × (length r.1.made ≡ length available) × Unloaded st r)
              ⊎ IsWithdrawn st r)
    virt_init_outcome available devs n few =
        let st : Loading = record { devices = devs; made = []; allocated = n } in
        let (r, e, outcome) = init_from available st st refl (omega arith) (omega (arith, few)) in
        (
          r,
          e,
          elim outcome [
            | inl (code, count, s, k) ↦ inl (
              code,
              omega (arith, count),
              ap
                    (λ (m : ℕ).
                      virt_exit polls (indices (onto r.1.made [])) (record r.1 { allocated = m }))
                    (omega (arith, k, length-onto r.1.made []))
                  ∙ virt_exit_lem polls n devs r.1.devices (onto r.1.made []) r.1.made gone
                      (in_order devs r.1.devices r.1.devices r.1.made [] s refl),
            )
            | inr failed ↦ inr failed
          ],
        )
