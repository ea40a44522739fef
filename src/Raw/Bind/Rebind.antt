-- ===== src/Raw/Bind/Rebind.antt =====
-- A binding replaced: after a check that returns 0 neither half of it follows a NULL pointer, and
-- the devices hold the new filters of the socket and nothing else of it.
use rtcan_bb.Base.{
  ℕ, suc, ◌≤◌, ◌<◌, ◌≡◌, refl, sym, ap, ◌∙◌, subst, Bool, true, false, not, none, some, List, [],
  ◌∷◌, arith, inl, inr, ◌==◌, if◌then◌else◌, ◌>>=◌, length,
}
use rtcan_bb.Rtcan.Abi.{Filter}
use rtcan_bb.Rtcan.Socket.{Config, FlistPtr, null, no_filter, list, Socket}
use rtcan_bb.Rtcan.Device.{Device, Devices}
use rtcan_bb.Registry.{reference}
use rtcan_bb.Filter.{
  begin_of, rounds_of, held, check_length, check_filter, entry_count, add_to_device, add_filter,
  remove_filter, replace_filter, for_devices,
}
use rtcan_bb.Filter.Entries.{
  IsWellFormed, with_entries, add_to_device_lem, HasRun, All, IsNotOf, with_entries-IsWellFormed,
  with_entries-HasRun, entry_count-pos,
}
use rtcan_bb.Filter.Loops.{on_range}
use rtcan_bb.Raw.Bind.{
  covers, AllWellFormed, IsRegistered, for_index, on_range-some, check_index_sound, more_of,
}
use rtcan_bb.Raw.Bind.Removal.{Released, IsReleased, remove_filter_total}

-- The entries that a list takes on each device.
abbrev pub takes : FlistPtr → ℕ
takes null = 1
takes no_filter = 0
takes (list fs) = entry_count fs

-- A list that `rtcan_raw_setsockopt` makes is not empty.
abbrev pub IsProper : FlistPtr → Type 0
IsProper null = Unit
IsProper no_filter = Unit
IsProper (list fs) = 0 < length fs

module _ (cfg : Config) (devs : Devices) (s : ℕ) (sock : Socket) (ifindex : ℕ) where
  -- What the old binding gives back at a slot is what the check has counted.
  more_held :
      (j all old : ℕ)
      → all ≡ (if sock.ifindex == 0 then held sock else 0)
      → old ≡ (if not (held sock == 0) then sock.ifindex else 0)
      → covers cfg ifindex j ≡ true
      → more_of sock all old (suc j) ≤ (if covers cfg sock.ifindex j then held sock else 0)
  unfolding more_of
  more_held j all old ea eo c = ground (arith, ea, eo, c)

  room_length :
      (len : ℕ)
      → check_length cfg devs sock ifindex len ≡ none
      → (j : ℕ) (dev new : Device) → covers cfg ifindex j ≡ true
      → devs j ≡ some dev
      → Released cfg s (held sock) (covers cfg sock.ifindex j) dev new
      → len ≤ new.free_entries
  unfolding check_length
  room_length len c j dev new r e released = omega (
    arith,
    released.more,
    check_index_sound cfg devs sock (if sock.ifindex == 0 then held sock else 0)
        (if not (held sock == 0) then sock.ifindex else 0) len ifindex c j dev r e,
    more_held j (if sock.ifindex == 0 then held sock else 0)
        (if not (held sock == 0) then sock.ifindex else 0) refl refl r,
  )

-- The new entries, after the old ones are gone.
module _ (cfg : Config) (after : Devices) (s ifindex : ℕ) (fs : List Filter)
    (wf : AllWellFormed cfg after)
    (gone : (j : ℕ) (dev : Device) → after j ≡ some dev → All (IsNotOf s) dev.recv_list)
    (room : (j : ℕ) (dev : Device)
      → covers cfg ifindex j ≡ true
      → after j ≡ some dev
      → entry_count fs ≤ dev.free_entries) where
  added : Devices
  added = on_range cfg (with_entries s fs) (rounds_of cfg ifindex) (begin_of ifindex) after

  add_step :
      (j : ℕ) (dev : Device)
      → covers cfg ifindex j ≡ true
      → after j ≡ some dev
      → add_to_device s fs (reference dev) ≡ some (reference (with_entries s fs dev))
  unfolding reference
  add_step j dev c e =
      (add_to_device_lem s fs (reference dev)).0
        (omega (arith, room j dev c e, (wf j dev e).counted))

  added_loop :
      for_devices cfg (add_to_device s fs) (rounds_of cfg ifindex) (begin_of ifindex) after
      ≡ some added
  unfolding added
  added_loop = for_index cfg (add_to_device s fs) (with_entries s fs) ifindex after add_step

  -- A slot of the result, by whether the index covers it.
  slot_well :
      (j : ℕ) (dev : Device)
      → after j ≡ some dev
      → (b : Bool) → covers cfg ifindex j ≡ b
      → IsWellFormed cfg (if b then with_entries s fs dev else dev)
  slot_well j dev e true c = with_entries-IsWellFormed cfg s fs dev (wf j dev e) (room j dev c e)
  slot_well j dev e false c = wf j dev e

  added-well : AllWellFormed cfg added
  unfolding added
  added-well j new e =
      let (dev, there, now) = on_range-some cfg (with_entries s fs) ifindex j after new e in
      subst (IsWellFormed cfg) (sym now) (slot_well j dev there (covers cfg ifindex j) refl)

  added-registered : IsRegistered cfg added s ifindex (entry_count fs)
  unfolding added
  added-registered = record {
    runs = λ j new e c pos.
        (let (dev, there, now) = on_range-some cfg (with_entries s fs) ifindex j after new e in
          subst (λ d. HasRun s (entry_count fs) d.recv_list)
            (sym (now ∙ ap (λ (b : Bool). if b then with_entries s fs dev else dev) c))
            (with_entries-HasRun s fs dev (gone j dev there)));
    others = λ j new e c.
        (let (dev, there, now) = on_range-some cfg (with_entries s fs) ifindex j after new e in
          elim c [
            | inl outside ↦
                subst (λ d. All (IsNotOf s) d.recv_list)
                  (sym (now ∙ ap (λ (b : Bool). if b then with_entries s fs dev else dev) outside))
                  (gone j dev there)
            | inr zero_entries ↦ absurd (omega (arith, entry_count-pos fs))
          ]);
  }

entry_count-length : (fs : List Filter) → 0 < length fs → entry_count fs ≡ length fs
entry_count-length [] h = absurd (omega arith)
entry_count-length (f ∷ fs) h = refl

module _ (cfg : Config) (devs : Devices) (s : ℕ) (sock : Socket) (ifindex : ℕ)
    (wf : AllWellFormed cfg devs) (reg : IsRegistered cfg devs s sock.ifindex (held sock)) where
  -- How the entries of the socket come to stand on the devices.
  abbrev pub Replaced : FlistPtr → Type 0
  Replaced flist =
      (after : Devices) × (replace_filter cfg devs s sock flist ifindex ≡ some (takes flist, after))
      × AllWellFormed cfg after
      × IsRegistered cfg after s ifindex (takes flist)

  with_filters :
      (flist : FlistPtr) (fs : List Filter) (mid : Devices)
      → ((d : Devices)
          → add_filter cfg d s flist ifindex ≡ (
              for_devices cfg (add_to_device s fs) (rounds_of cfg ifindex) (begin_of ifindex) d
              >>= λ d'. some (entry_count fs, d')))
      → takes flist ≡ entry_count fs
      → check_length cfg devs sock ifindex (entry_count fs) ≡ none
      → remove_filter cfg devs s sock ≡ some mid
      → IsReleased cfg devs s sock wf reg mid
      → Replaced flist
  with_filters flist fs mid shape same c e rel = (
    added cfg mid s ifindex fs well gone room,
    rw e (
        shape mid
        ∙ rw (added_loop cfg mid s ifindex fs well gone room)
            (ap (λ (n : ℕ). some (n, added cfg mid s ifindex fs well gone room)) (sym same))),
    added-well cfg mid s ifindex fs well gone room,
    subst (IsRegistered cfg (added cfg mid s ifindex fs well gone room) s ifindex) (sym same)
        (added-registered cfg mid s ifindex fs well gone room),
  )
    where
      well : AllWellFormed cfg mid
      well = λ j new there. (rel j new there).2.well

      gone : (j : ℕ) (dev : Device) → mid j ≡ some dev → All (IsNotOf s) dev.recv_list
      gone = λ j new there. (rel j new there).2.none_left

      room :
          (j : ℕ) (dev : Device)
          → covers cfg ifindex j ≡ true
          → mid j ≡ some dev
          → entry_count fs ≤ dev.free_entries
      room = λ j new covered there.
          (let (dev, was, released) = rel j new there in
            room_length cfg devs s sock ifindex (entry_count fs) c j dev new covered was released)

  -- Where devices account for their entries and hold those of the socket as it is bound, if the
  -- check of a new list of at least one filter, or of no filter, returns 0, then removing the old
  -- entries and adding the new ones follows no NULL pointer; afterwards every device accounts for
  -- its entries, the devices that the index covers hold one run of as many entries of the socket
  -- as the list takes, and no other device holds any.
  pub replace_total :
      (flist : FlistPtr)
      → IsProper flist
      → check_filter cfg devs sock ifindex flist ≡ none
      → Replaced flist
  unfolding check_filter add_filter
  replace_total null p c =
      let (mid, e, rel) = remove_filter_total cfg devs s sock wf reg in
      with_filters null [] mid (λ d. refl) refl c e rel
  replace_total no_filter p c =
      let (mid, e, rel) = remove_filter_total cfg devs s sock wf reg in
      (
        mid,
        rw e refl,
        λ j new there. (rel j new there).2.well,
        record {
          runs = λ j new there c pos. absurd (omega arith);
          others = λ j new there c. (rel j new there).2.none_left;
        },
      )
  replace_total (list fs) p c =
      let (mid, e, rel) = remove_filter_total cfg devs s sock wf reg in
      with_filters (list fs) fs mid (λ d. refl) refl (rw (entry_count-length fs p) c) e rel
