-- ===== src/Raw/Bind/Removal.antt =====
-- `rtcan_raw_remove_filter` on a registered socket: it follows no NULL pointer, and what it leaves.
use rtcan_bb.Base.{
  ℕ, ◌+◌, ◌<◌, ◌≡◌, ◌≢◌, refl, sym, ap, ◌∙◌, subst, Bool, true, false, none, some, arith, inl, inr,
  if◌then◌else◌,
}
use native.Mathlib.Decide.{ℕ_discrete}
use rtcan_bb.Rtcan.Socket.{Config, Socket}
use rtcan_bb.Rtcan.Device.{Device, Devices}
use rtcan_bb.Registry.{reference}
use rtcan_bb.Filter.{begin_of, rounds_of, held, has_filter, remove_from_device, remove_filter}
use rtcan_bb.Filter.Entries.{
  IsWellFormed, without_entries, remove_from_device_lem, HasRun, All, IsNotOf,
  without_entries-IsWellFormed, without_entries-none_left,
}
use rtcan_bb.Filter.Loops.{on_range}
use rtcan_bb.Raw.Bind.{covers, AllWellFormed, IsRegistered, for_index, on_range-some}

-- A device after its round.
abbrev removed : ℕ → ℕ → Device → Device
removed s n dev = elim (remove_from_device s n dev) [ none ↦ dev | some d ↦ d ]

-- One device and its run.
module _ (s n : ℕ) (dev : Device) (pos : 0 < n) (r : HasRun s n dev.recv_list) where
  removed_lem : removed s n dev ≡ without_entries dev r.before r.mine r.after
  removed_lem = rw (remove_from_device_lem s n dev pos r, removed) refl

  removed_step : remove_from_device s n (reference dev) ≡ some (reference (removed s n dev))
  unfolding reference
  removed_step =
      remove_from_device_lem s n (reference dev) pos r
      ∙ ap (λ (d : Device). some (reference d)) (sym removed_lem)

-- What the removal leaves at a slot: the device that was there, well-formed, without an entry of the
-- socket, and with the entries that it held counted as free.
pub record Released (cfg : Config) (s n : ℕ) (gone : Bool) (dev new : Device) : Type 0 where
  pub well : IsWellFormed cfg new
  pub none_left : All (IsNotOf s) new.recv_list
  pub more : new.free_entries ≡ dev.free_entries + (if gone then n else 0)

removed-Released :
    (cfg : Config) (s n : ℕ) (dev : Device)
    → 0 < n
    → IsWellFormed cfg dev
    → (r : HasRun s n dev.recv_list) → Released cfg s n true dev (removed s n dev)
removed-Released cfg s n dev pos v r =
    subst (Released cfg s n true dev) (sym (removed_lem s n dev pos r)) (record {
      well = without_entries-IsWellFormed cfg s n dev v r;
      none_left = without_entries-none_left s n dev r;
      more = ap (λ (k : ℕ). dev.free_entries + k) r.size;
    })

kept-Released :
    (cfg : Config) (s n : ℕ) (gone : Bool) (dev : Device)
    → IsWellFormed cfg dev
    → All (IsNotOf s) dev.recv_list
    → (if gone then n else 0) ≡ 0
    → Released cfg s n gone dev dev
kept-Released cfg s n gone dev v h z = record { well = v; none_left = h; more = omega (arith, z) }

module _ (cfg : Config) (devs : Devices) (s : ℕ) (sock : Socket) (wf : AllWellFormed cfg devs)
    (reg : IsRegistered cfg devs s sock.ifindex (held sock)) where
  -- Every slot, as the removal leaves it.
  abbrev pub IsReleased : Devices → Type 0
  IsReleased after =
      (j : ℕ) (new : Device)
      → after j ≡ some new
      → (dev : Device) × (devs j ≡ some dev)
        × Released cfg s (held sock) (covers cfg sock.ifindex j) dev new

  nothing_held : held sock ≡ 0 → IsReleased devs
  nothing_held z j new e = (
    new,
    e,
    kept-Released cfg s (held sock) (covers cfg sock.ifindex j) new (wf j new e)
        (reg.others j new e (inr z)) (ground (arith, z)),
  )

  looped : Devices
  looped =
      on_range cfg (removed s (held sock)) (rounds_of cfg sock.ifindex) (begin_of sock.ifindex) devs

  slot-Released :
      (j : ℕ) (dev : Device)
      → 0 < held sock
      → devs j ≡ some dev
      → (b : Bool) → covers cfg sock.ifindex j ≡ b
      → Released cfg s (held sock) b dev (if b then removed s (held sock) dev else dev)
  slot-Released j dev pos e true c =
      removed-Released cfg s (held sock) dev pos (wf j dev e) (reg.runs j dev e c pos)
  slot-Released j dev pos e false c =
      kept-Released cfg s (held sock) false dev (wf j dev e) (reg.others j dev e (inl c)) refl

  all-IsReleased : 0 < held sock → IsReleased looped
  unfolding looped
  all-IsReleased pos j new e =
      let (dev, there, now) = on_range-some cfg (removed s (held sock)) sock.ifindex j devs new e in
      (
        dev,
        there,
        subst (Released cfg s (held sock) (covers cfg sock.ifindex j) dev) (sym now)
            (slot-Released j dev pos there (covers cfg sock.ifindex j) refl),
      )

  -- Where devices account for their entries and hold those of the socket as it is bound, the
  -- removal of its filters goes through; afterwards each device is one that was there, accounts
  -- for its entries, holds none of the socket, and has as many more free entries as it held of the
  -- socket.
  pub remove_filter_total :
      (after : Devices) × (remove_filter cfg devs s sock ≡ some after) × IsReleased after
  unfolding remove_filter looped
  remove_filter_total = elim (ℕ_discrete (held sock) 0) [
    | yes z ↦ (devs, ground (arith, z), nothing_held z)
    | no nz ↦ (
      looped,
      rw (held_some nz) (
          for_index cfg (remove_from_device s (held sock)) (removed s (held sock)) sock.ifindex devs
            (λ j dev c e.
              removed_step s (held sock) dev (omega (arith, nz))
                (reg.runs j dev e c (omega (arith, nz))))),
      all-IsReleased (omega (arith, nz)),
    )
  ]
    where
      held_some : held sock ≢ 0 → has_filter sock ≡ true
      held_some nz = ground (arith, nz)
