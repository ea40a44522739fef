-- ===== src/Raw/Bind.antt =====
-- Binding a socket: `rtcan_raw_check_filter` is enough for `rtcan_raw_remove_filter` and
-- `rtcan_raw_add_filter` to go through, and what the devices hold for the socket afterwards.
pub mod Removal
pub mod Rebind
pub mod Outcome
pub mod Closing
pub mod Late
use rtcan_bb.Base.{
  ℕ, zero, suc, ◌+◌, ◌-◌, ◌≤◌, ◌<◌, ◌≡◌, ◌≢◌, refl, sym, ap, ◌∙◌, subst, Bool, true, false, not,
  ◌&&◌, ◌||◌, Option, none, some, List, [], ◌∷◌, arith, ◌⊎◌, inl, inr, ltb, leb, ◌==◌,
  if◌then◌else◌, ◌>>=◌, Bool-cases, Option-cases, length,
}
use native.Mathlib.Decide.{ℕ_discrete}
use rtcan_bb.Rtcan.Abi.{Errno, Filter}
use rtcan_bb.Rtcan.Socket.{Config, FlistPtr, null, no_filter, list, Socket}
use rtcan_bb.Rtcan.Device.{Recv, Device, Devices}
use rtcan_bb.Registry.{get_by_index, reference}
use rtcan_bb.Filter.{
  begin_of, rounds_of, held, has_filter, check_device, check_loop, check_length, check_filter,
  filters_of, entry_count, add_to_device, remove_from_device, for_devices, add_filter,
  remove_filter,
}
use rtcan_bb.Filter.Entries.{
  IsWellFormed, with_entries, without_entries, add_to_device_lem, remove_from_device_lem, HasRun,
  All, IsNotOf, with_entries-IsWellFormed, without_entries-IsWellFormed, with_entries-HasRun,
  without_entries-none_left, entry_count-pos,
}
use rtcan_bb.Filter.Loops.{
  is_visible, in_range, on_range, map_device, for_devices_lem, get_by_index_visible,
  get_by_index_hidden,
}

-- The slots of an interface index.
abbrev pub covers : Config → ℕ → ℕ → Bool
covers cfg ifindex j = in_range cfg (rounds_of cfg ifindex) (begin_of ifindex) j

-- Every registered device keeps account of its entries.
abbrev pub AllWellFormed : Config → Devices → Type 0
AllWellFormed cfg devs = (j : ℕ) (dev : Device) → devs j ≡ some dev → IsWellFormed cfg dev

-- The devices that the socket is bound to hold one run of its entries each, and no other device
-- holds an entry of it.
pub record IsRegistered (cfg : Config) (devs : Devices) (s ifindex n : ℕ) : Type 0 where
  pub runs :
      (j : ℕ) (dev : Device)
      → devs j ≡ some dev
      → covers cfg ifindex j ≡ true
      → 0 < n
      → HasRun s n dev.recv_list
  pub others :
      (j : ℕ) (dev : Device)
      → devs j ≡ some dev
      → (covers cfg ifindex j ≡ false) ⊎ (n ≡ 0)
      → All (IsNotOf s) dev.recv_list

abbrev pub IsDetached : Devices → ℕ → Type 0
IsDetached devs s = (j : ℕ) (dev : Device) → devs j ≡ some dev → All (IsNotOf s) dev.recv_list

pub begin_of-suc : (ifindex : ℕ) → suc (begin_of ifindex - 1) ≡ begin_of ifindex
begin_of-suc ifindex = ground arith

-- The loop over the devices of an interface index.
pub for_index :
    (cfg : Config) (step : Device → Option Device) (g : Device → Device) (ifindex : ℕ)
    (devs : Devices)
    → ((j : ℕ) (dev : Device)
        → covers cfg ifindex j ≡ true
        → devs j ≡ some dev
        → step (reference dev) ≡ some (reference (g dev)))
    → for_devices cfg step (rounds_of cfg ifindex) (begin_of ifindex) devs
      ≡ some (on_range cfg g (rounds_of cfg ifindex) (begin_of ifindex) devs)
for_index cfg step g ifindex devs =
    subst
      (λ b.
        ((j : ℕ) (dev : Device)
          → in_range cfg (rounds_of cfg ifindex) b j ≡ true
          → devs j ≡ some dev
          → step (reference dev) ≡ some (reference (g dev)))
        → for_devices cfg step (rounds_of cfg ifindex) b devs
          ≡ some (on_range cfg g (rounds_of cfg ifindex) b devs))
      (begin_of-suc ifindex)
      (for_devices_lem cfg step g (rounds_of cfg ifindex) (begin_of ifindex - 1) devs)

-- A slot after such a loop.
pub on_range-some :
    (cfg : Config) (g : Device → Device) (ifindex j : ℕ) (devs : Devices) (new : Device)
    → on_range cfg g (rounds_of cfg ifindex) (begin_of ifindex) devs j ≡ some new
    → (dev : Device) × (devs j ≡ some dev) × (new ≡ (if covers cfg ifindex j then g dev else dev))
on_range-some cfg g ifindex j devs new e = elim (Option-cases (devs j)) [
  | inl empty ↦ absurd (ground (arith, empty))
  | inr (dev, there) ↦ (dev, there, ground (arith, there))
]

-- What the check has made sure of.
pub more_of : Socket → (all old i : ℕ) → ℕ
more_of sock all old i = all + (if i == old then held sock else 0)

check_device_sound :
    (more len : ℕ) (o : Option Device) (rest : Option Errno)
    → check_device more len o rest ≡ none
    → (rest ≡ none) × ((dev : Device) → o ≡ some dev → len ≤ dev.free_entries + more)
check_device_sound more len none rest c = (c, λ dev e. absurd (ground arith))
check_device_sound more len (some d) rest c = (ground arith, λ dev e. ground arith)

pub check_loop_sound :
    (cfg : Config) (devs : Devices) (sock : Socket) (all old len n i : ℕ)
    → check_loop cfg devs sock all old len n (suc i) ≡ none
    → (j : ℕ) (dev : Device) → in_range cfg n (suc i) j ≡ true
    → devs j ≡ some dev
    → len ≤ dev.free_entries + more_of sock all old (suc j)
unfolding check_loop more_of reference
check_loop_sound cfg devs sock all old len zero i c j dev r e = absurd (ground arith)
check_loop_sound cfg devs sock all old len (suc n) i c j dev r e = elim (ℕ_discrete i j) [
  | no later ↦ check_loop_sound cfg devs sock all old len n (suc i) sound.0 j dev (ground arith) e
  | yes now ↦
      subst (λ k. len ≤ dev.free_entries + more_of sock all old (suc k)) now
        (sound.1 (reference dev) (
          get_by_index_visible cfg devs i (ground arith)
          ∙ ap (map_device reference) (ap devs now ∙ e)))
]
  where
    sound :
        (check_loop cfg devs sock all old len n (suc (suc i)) ≡ none)
        × ((d : Device)
            → get_by_index cfg devs (suc i) ≡ some d
            → len ≤ d.free_entries + more_of sock all old (suc i))
    sound =
        check_device_sound (more_of sock all old (suc i)) len (get_by_index cfg devs (suc i)) _ c

-- The same for the devices of an interface index.
pub check_index_sound :
    (cfg : Config) (devs : Devices) (sock : Socket) (all old len ifindex : ℕ)
    → check_loop cfg devs sock all old len (rounds_of cfg ifindex) (begin_of ifindex) ≡ none
    → (j : ℕ) (dev : Device) → covers cfg ifindex j ≡ true
    → devs j ≡ some dev
    → len ≤ dev.free_entries + more_of sock all old (suc j)
check_index_sound cfg devs sock all old len ifindex =
    subst
      (λ b.
        check_loop cfg devs sock all old len (rounds_of cfg ifindex) b ≡ none
        → (j : ℕ) (dev : Device) → in_range cfg (rounds_of cfg ifindex) b j ≡ true
        → devs j ≡ some dev
        → len ≤ dev.free_entries + more_of sock all old (suc j))
      (begin_of-suc ifindex)
      (check_loop_sound cfg devs sock all old len (rounds_of cfg ifindex) (begin_of ifindex - 1))
