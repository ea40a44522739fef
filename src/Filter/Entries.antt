-- ===== src/Filter/Entries.antt =====
-- One device: what a round of `rtcan_raw_add_filter` and of `rtcan_raw_remove_filter` does to the
-- two lists of the device.
use rtcan_bb.Base.{
  ℕ, zero, suc, ◌+◌, ◌-◌, ◌≤◌, ◌<◌, ◌≡◌, ◌≢◌, refl, ap, ◌∙◌, none, some, List, [], ◌∷◌, ◌++◌, arith,
  length, length-append, ◌>>=◌,
}
use rtcan_bb.Rtcan.Abi.{Filter}
use rtcan_bb.Rtcan.Socket.{Config}
use rtcan_bb.Rtcan.Device.{Recv, Device}
use rtcan_bb.Filter.{
  mount_filter, mount_list, take_entries, entry_count, add_to_device, find_socket, detach,
  remove_from_device,
}

-- Every entry is in one of the two lists, and `free_entries` counts the empty ones.
pub record IsWellFormed (cfg : Config) (dev : Device) : Type 0 where
  pub counted : dev.free_entries ≡ length dev.empty_list
  pub total : length dev.recv_list + length dev.empty_list ≡ cfg.max_receivers

-- The entries of a socket with these filters, in the order of the filters.
abbrev pub entry : ℕ → Filter → Recv
entry s f = record { can_filter = f; match_count = 0; sock = s }

abbrev pub mounted_each : ℕ → List Filter → List Recv
mounted_each s [] = []
mounted_each s (f ∷ fs) = entry s (mount_filter f) ∷ mounted_each s fs

abbrev pub mounted : ℕ → List Filter → List Recv
mounted s [] = entry s (record { can_id = 0; can_mask = 0 }) ∷ []
mounted s (f ∷ fs) = mounted_each s (f ∷ fs)

pub entry_count-pos : (fs : List Filter) → 0 < entry_count fs
entry_count-pos [] = omega arith
entry_count-pos (f ∷ fs) = omega arith

module _ {ℓ} {A : Type ℓ} where
  abbrev pub drop : ℕ → List A → List A
  drop zero xs = xs
  drop (suc n) [] = []
  drop (suc n) (x ∷ xs) = drop n xs

  pub length-drop : (n : ℕ) (xs : List A) → length (drop n xs) ≡ length xs - n
  length-drop zero xs = omega arith
  length-drop (suc n) [] = omega arith
  length-drop (suc n) (x ∷ xs) = omega (arith, length-drop n xs)

length-mounted_each : (s : ℕ) (fs : List Filter) → length (mounted_each s fs) ≡ length fs
length-mounted_each s [] = refl
length-mounted_each s (f ∷ fs) = ap suc (length-mounted_each s fs)

pub length-mounted : (s : ℕ) (fs : List Filter) → length (mounted s fs) ≡ entry_count fs
length-mounted s [] = refl
length-mounted s (f ∷ fs) = length-mounted_each s (f ∷ fs)

mount_list_lem :
    (s : ℕ) (fs : List Filter) (es : List Recv)
    → length fs ≤ length es
    → mount_list s fs es ≡ some (mounted_each s fs, drop (length fs) es)
unfolding mount_list
mount_list_lem s [] es h = refl
mount_list_lem s (f ∷ fs) [] h = absurd (omega arith)
mount_list_lem s (f ∷ fs) (e ∷ es) h = rw (mount_list_lem s fs es (omega arith))

mount_list_short :
    (s : ℕ) (fs : List Filter) (es : List Recv) → length es < length fs → mount_list s fs es ≡ none
unfolding mount_list
mount_list_short s [] es h = absurd (omega arith)
mount_list_short s (f ∷ fs) [] h = refl
mount_list_short s (f ∷ fs) (e ∷ es) h = rw (mount_list_short s fs es (omega arith))

take_entries_lem :
    (s : ℕ) (fs : List Filter) (es : List Recv)
    → entry_count fs ≤ length es
    → take_entries s fs es ≡ some (mounted s fs, drop (entry_count fs) es)
unfolding take_entries
take_entries_lem s [] [] h = absurd (omega arith)
take_entries_lem s [] (e ∷ es) h = refl
take_entries_lem s (f ∷ fs) es h = mount_list_lem s (f ∷ fs) es h

take_entries_short :
    (s : ℕ) (fs : List Filter) (es : List Recv)
    → length es < entry_count fs
    → take_entries s fs es ≡ none
unfolding take_entries
take_entries_short s [] [] h = refl
take_entries_short s [] (e ∷ es) h = absurd (omega arith)
take_entries_short s (f ∷ fs) es h = mount_list_short s (f ∷ fs) es h

-- A device with the socket's entries at the head of its reception list.
abbrev pub with_entries : ℕ → List Filter → Device → Device
with_entries s fs dev = record dev {
  recv_list = mounted s fs ++ dev.recv_list;
  empty_list = drop (entry_count fs) dev.empty_list;
  free_entries = dev.free_entries - entry_count fs;
}

-- With enough empty entries a round of the addition puts the mounted filters of a socket, in their
-- order, at the head of the reception list, and with too few it follows a NULL pointer.
pub add_to_device_lem :
    (s : ℕ) (fs : List Filter) (dev : Device)
    → (entry_count fs ≤ length dev.empty_list
        → add_to_device s fs dev ≡ some (with_entries s fs dev))
      × (length dev.empty_list < entry_count fs → add_to_device s fs dev ≡ none)
unfolding add_to_device
add_to_device_lem s fs dev = (
  λ h. rw (take_entries_lem s fs dev.empty_list h),
  λ h. rw (take_entries_short s fs dev.empty_list h),
)

pub with_entries-IsWellFormed :
    (cfg : Config) (s : ℕ) (fs : List Filter) (dev : Device)
    → IsWellFormed cfg dev
    → entry_count fs ≤ dev.free_entries
    → IsWellFormed cfg (with_entries s fs dev)
with_entries-IsWellFormed cfg s fs dev v h = record {
  counted = omega (arith, v.counted, length-drop (entry_count fs) dev.empty_list);
  total = omega (
    arith,
    v.counted,
    v.total,
    length-drop (entry_count fs) dev.empty_list,
    length-mounted s fs,
    length-append (mounted s fs) dev.recv_list,
  );
}

-- Statements on each entry of a list.
abbrev pub All {ℓ κ} : {A : Type ℓ} → (A → Type κ) → List A → Type κ
All P [] = Unit
All P (x ∷ xs) = P x × All P xs

abbrev pub IsOf : ℕ → Recv → Type 0
IsOf s e = e.sock ≡ s

abbrev pub IsNotOf : ℕ → Recv → Type 0
IsNotOf s e = e.sock ≢ s

-- The socket has one run of `n` entries in the list, and no other entry.
pub record HasRun (s n : ℕ) (entries : List Recv) : Type 0 where
  pub before : List Recv
  pub mine : List Recv
  pub after : List Recv
  pub parts : entries ≡ before ++ (mine ++ after)
  pub size : length mine ≡ n
  pub before_other : All (IsNotOf s) before
  pub mine_own : All (IsOf s) mine
  pub after_other : All (IsNotOf s) after

detach_lem : (mine after : List Recv) → detach (length mine) (mine ++ after) ≡ some (mine, after)
unfolding detach
detach_lem [] after = refl
detach_lem (e ∷ mine) after = rw (detach_lem mine after)

find_socket_lem :
    (s : ℕ) (before : List Recv) (e : Recv) (rest : List Recv)
    → All (IsNotOf s) before
    → IsOf s e
    → find_socket s (before ++ (e ∷ rest)) ≡ some (before, e ∷ rest)
unfolding find_socket
find_socket_lem s [] e rest h o = ground arith
find_socket_lem s (b ∷ before) e rest h o = ground (arith, find_socket_lem s before e rest h.1 o)

find_run :
    (s : ℕ) (before mine after : List Recv)
    → 0 < length mine
    → All (IsNotOf s) before
    → All (IsOf s) mine
    → find_socket s (before ++ (mine ++ after)) ≡ some (before, mine ++ after)
find_run s before [] after h b m = absurd (omega arith)
find_run s before (e ∷ mine) after h b m = find_socket_lem s before e (mine ++ after) b m.0

-- A device without a run of entries.
abbrev pub without_entries : Device → List Recv → List Recv → List Recv → Device
without_entries dev before mine after = record dev {
  recv_list = before ++ after;
  empty_list = mine ++ dev.empty_list;
  free_entries = dev.free_entries + length mine;
}

-- On a device where the entries of a socket, at least one, stand in one run, a round of the
-- removal takes the run out of the reception list, wherever it stands, and puts it at the head of
-- the empty list, counted as free.
pub remove_from_device_lem :
    (s n : ℕ) (dev : Device)
    → 0 < n
    → (r : HasRun s n dev.recv_list)
    → remove_from_device s n dev ≡ some (without_entries dev r.before r.mine r.after)
unfolding remove_from_device
remove_from_device_lem s n dev h r = ground (
  arith,
  ap (find_socket s) r.parts
      ∙ find_run s r.before r.mine r.after (omega (arith, r.size)) r.before_other r.mine_own,
  ap (λ (k : ℕ). detach k (r.mine ++ r.after)) r.size,
  detach_lem r.mine r.after,
)

pub without_entries-IsWellFormed :
    (cfg : Config) (s n : ℕ) (dev : Device)
    → IsWellFormed cfg dev
    → (r : HasRun s n dev.recv_list)
    → IsWellFormed cfg (without_entries dev r.before r.mine r.after)
without_entries-IsWellFormed cfg s n dev v r = record {
  counted = omega (arith, v.counted, length-append r.mine dev.empty_list);
  total = omega (
    arith,
    v.total,
    ap length r.parts,
    length-append r.before (r.mine ++ r.after),
    length-append r.mine r.after,
    length-append r.before r.after,
    length-append r.mine dev.empty_list,
  );
}

mounted_each-own : (s : ℕ) (fs : List Filter) → All (IsOf s) (mounted_each s fs)
mounted_each-own s [] = tt
mounted_each-own s (f ∷ fs) = (refl, mounted_each-own s fs)

mounted-own : (s : ℕ) (fs : List Filter) → All (IsOf s) (mounted s fs)
mounted-own s [] = (refl, tt)
mounted-own s (f ∷ fs) = mounted_each-own s (f ∷ fs)

-- After a round the socket has a run of as many entries as it has filters.
pub with_entries-HasRun :
    (s : ℕ) (fs : List Filter) (dev : Device)
    → All (IsNotOf s) dev.recv_list
    → HasRun s (entry_count fs) (with_entries s fs dev).recv_list
with_entries-HasRun s fs dev h = record {
  before = [];
  mine = mounted s fs;
  after = dev.recv_list;
  parts = refl;
  size = length-mounted s fs;
  before_other = tt;
  mine_own = mounted-own s fs;
  after_other = h;
}

All-append :
    (s : ℕ) (xs ys : List Recv)
    → All (IsNotOf s) xs
    → All (IsNotOf s) ys
    → All (IsNotOf s) (xs ++ ys)
All-append s [] ys hx hy = hy
All-append s (x ∷ xs) ys hx hy = (hx.0, All-append s xs ys hx.1 hy)

-- Once its run is out, the socket has no entry left.
pub without_entries-none_left :
    (s n : ℕ) (dev : Device) (r : HasRun s n dev.recv_list)
    → All (IsNotOf s) (without_entries dev r.before r.mine r.after).recv_list
without_entries-none_left s n dev r = All-append s r.before r.after r.before_other r.after_other

-- On a device without an entry of the socket, with enough empty entries and the right count of
-- them, removing the filters that a round has added gives the reception list and the count back,
-- and the entries that were used stand first in the empty list.
pub remove-add_to_device :
    (s : ℕ) (fs : List Filter) (dev : Device)
    → All (IsNotOf s) dev.recv_list
    → entry_count fs ≤ length dev.empty_list
    → dev.free_entries ≡ length dev.empty_list
    → (add_to_device s fs dev >>= remove_from_device s (entry_count fs))
      ≡ some (record dev { empty_list = mounted s fs ++ drop (entry_count fs) dev.empty_list })
unfolding with_entries-HasRun
remove-add_to_device s fs dev other room counted = rw ((add_to_device_lem s fs dev).0 room) (
    remove_from_device_lem s (entry_count fs) (with_entries s fs dev) (entry_count-pos fs)
      (with_entries-HasRun s fs dev other)
    ∙ ap
        (λ (n : ℕ). some (record dev {
          empty_list = mounted s fs ++ drop (entry_count fs) dev.empty_list;
          free_entries = n;
        }))
        (omega (arith, length-mounted s fs)))
