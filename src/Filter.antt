-- ===== src/Filter.antt =====
-- Reception filters: can/rtcan_raw_filter.c, and `rtcan_accept_msg` of can/rtcan_raw.c. `none` is a
-- fault: the code follows a NULL pointer.
pub mod Accept
pub mod Entries
pub mod Loops
use rtcan_bb.Base.{
  ℕ, zero, suc, ◌+◌, ◌-◌, bit_and, bit_or, Bool, true, false, not, Option, none, some, List, [],
  ◌∷◌, ◌++◌, ltb, ◌==◌, if◌then◌else◌, ◌>>=◌, length,
}
use rtcan_bb.Rtcan.Abi.{Errno, enospc, Filter, can_inv_filter, not_can_inv_filter}
use rtcan_bb.Rtcan.Socket.{Config, FlistPtr, null, no_filter, list, Socket}
use rtcan_bb.Rtcan.Device.{Recv, Device, Devices}
use rtcan_bb.Registry.{get_by_index, put_device, dereference}

-- `rtcan_accept_msg`
unfoldable pub accept_msg : ℕ → Filter → Bool
accept_msg can_id filter =
    if bit_and filter.can_mask can_inv_filter == 0
    then bit_and can_id filter.can_mask == filter.can_id
    else not (bit_and can_id filter.can_mask == filter.can_id)

-- `rtcan_raw_mount_filter`
unfoldable pub mount_filter : Filter → Filter
mount_filter filter =
    if bit_and filter.can_id can_inv_filter == 0
    then (let mask = bit_and filter.can_mask not_can_inv_filter in
        record { can_id = bit_and filter.can_id mask; can_mask = mask })
    else (let mask = bit_or filter.can_mask can_inv_filter in
        record {
          can_id = bit_and (bit_and filter.can_id not_can_inv_filter) mask;
          can_mask = mask;
        })

-- The interfaces that an index stands for: the first, and how many (0 means all of them).
abbrev pub begin_of : ℕ → ℕ
begin_of ifindex = if ifindex == 0 then 1 else ifindex

abbrev pub rounds_of : Config → ℕ → ℕ
rounds_of cfg ifindex = if ifindex == 0 then cfg.max_devices else 1

-- `rtcan_sock_has_filter(sock) ? sock->flistlen : 0`
abbrev pub held : Socket → ℕ
held sock = elim sock.flistlen [ none ↦ 0 | some n ↦ n ]

-- `rtcan_sock_has_filter`, `rtcan_sock_is_bound`
abbrev pub has_filter : Socket → Bool
has_filter sock = not (held sock == 0)

abbrev pub is_bound : Socket → Bool
is_bound sock = elim sock.flistlen [ none ↦ false | some n ↦ true ]

-- A round of `rtcan_raw_check_filter`: `more` is what the old binding gives back there, and `rest`
-- the result of the rounds to come. The reference that it takes of a device it gives back.
abbrev pub check_device : ℕ → ℕ → Option Device → Option Errno → Option Errno
check_device more flistlen none rest = rest
check_device more flistlen (some dev) rest =
    if ltb (dev.free_entries + more) flistlen then some enospc else rest

unfoldable pub check_loop : Config → Devices → Socket → (all old flistlen n i : ℕ) → Option Errno
check_loop cfg devs sock all old flistlen zero i = none
check_loop cfg devs sock all old flistlen (suc n) i =
    check_device (all + (if i == old then held sock else 0)) flistlen (get_by_index cfg devs i)
      (check_loop cfg devs sock all old flistlen n (suc i))

-- `rtcan_raw_check_filter` for a list of the length; `none` is 0.
unfoldable pub check_length : Config → Devices → Socket → ℕ → ℕ → Option Errno
unfolding check_loop
check_length cfg devs sock ifindex flistlen =
    let all = if sock.ifindex == 0 then held sock else 0 in
    let old = if has_filter sock then sock.ifindex else 0 in
    check_loop cfg devs sock all old flistlen (rounds_of cfg ifindex) (begin_of ifindex)

unfoldable pub check_filter : Config → Devices → Socket → ℕ → FlistPtr → Option Errno
unfolding check_length
check_filter cfg devs sock ifindex no_filter = none
check_filter cfg devs sock ifindex null = check_length cfg devs sock ifindex 1
check_filter cfg devs sock ifindex (list fs) = check_length cfg devs sock ifindex (length fs)

-- Entries of the empty list, one for each filter, and what is left.
unfoldable pub mount_list : ℕ → List Filter → List Recv → Option (List Recv × List Recv)
mount_list s [] entries = some ([], entries)
mount_list s (f ∷ fs) [] = none
mount_list s (f ∷ fs) (e ∷ entries) = mount_list s fs entries >>= λ r.
    some (record { can_filter = mount_filter f; match_count = 0; sock = s } ∷ r.0, r.1)

-- The entry for all CAN identifiers.
unfoldable pub mount_all : ℕ → List Recv → Option (List Recv × List Recv)
mount_all s [] = none
mount_all s (e ∷ entries) = some (
  record { can_filter = record { can_id = 0; can_mask = 0 }; match_count = 0; sock = s } ∷ [],
  entries,
)

-- `sock->flist`, if there is one that is not empty.
abbrev pub filters_of : FlistPtr → List Filter
filters_of null = []
filters_of no_filter = []
filters_of (list fs) = fs

unfoldable pub take_entries : ℕ → List Filter → List Recv → Option (List Recv × List Recv)
unfolding mount_list mount_all
take_entries s [] entries = mount_all s entries
take_entries s (f ∷ fs) entries = mount_list s (f ∷ fs) entries

-- The number of entries that a list takes: the result of `rtcan_raw_add_filter`.
abbrev pub entry_count : List Filter → ℕ
entry_count [] = 1
entry_count (f ∷ fs) = suc (length fs)

-- One round of `rtcan_raw_add_filter`: the entries go to the head of the reception list.
unfoldable pub add_to_device : ℕ → List Filter → Device → Option Device
add_to_device s fs dev = take_entries s fs dev.empty_list >>= λ r. some (record dev {
  recv_list = r.0 ++ dev.recv_list;
  empty_list = r.1;
  free_entries = dev.free_entries - entry_count fs;
})

-- `while (next->sock != sock)`: what stands before the socket's first entry, and what from it on.
unfoldable pub find_socket : ℕ → List Recv → Option (List Recv × List Recv)
find_socket s [] = none
find_socket s (e ∷ entries) =
    let rest = find_socket s entries in
    if e.sock == s then some ([], e ∷ entries) else rest >>= λ r. some (e ∷ r.0, r.1)

-- The first `n` entries, and the rest.
unfoldable pub detach : ℕ → List Recv → Option (List Recv × List Recv)
detach zero entries = some ([], entries)
detach (suc n) [] = none
detach (suc n) (e ∷ entries) = detach n entries >>= λ r. some (e ∷ r.0, r.1)

-- One round of `rtcan_raw_remove_filter`, of `n` entries.
unfoldable pub remove_from_device : ℕ → ℕ → Device → Option Device
unfolding find_socket detach
remove_from_device s n dev = find_socket s dev.recv_list >>= λ f. detach n f.1 >>= λ r.
    some (record dev {
      recv_list = f.0 ++ r.1;
      empty_list = r.0 ++ dev.empty_list;
      free_entries = dev.free_entries + n;
    })

-- One round of such a loop: the device of the index, if there is one, is looked up, changed and
-- given back.
unfoldable pub visit : Config → (Device → Option Device) → ℕ → Devices → Option Devices
visit cfg step i devs = elim (get_by_index cfg devs i) [
  | none ↦ some devs
  | some dev ↦ step dev >>= λ dev'. some (put_device devs i (dereference dev'))
]

-- `for (i = begin; i <= end; i++)`, with `n` rounds left.
unfoldable pub for_devices :
    Config → (Device → Option Device) → (n i : ℕ) → Devices → Option Devices
unfolding visit
for_devices cfg step zero i devs = some devs
for_devices cfg step (suc n) i devs =
    visit cfg step i devs >>= λ devs'. for_devices cfg step n (suc i) devs'

-- `rtcan_raw_add_filter`: the new `flistlen`, and the devices.
unfoldable pub add_filter : Config → Devices → ℕ → FlistPtr → ℕ → Option (ℕ × Devices)
add_filter cfg devs s no_filter ifindex = some (0, devs)
add_filter cfg devs s flist ifindex =
    let fs = filters_of flist in
    for_devices cfg (add_to_device s fs) (rounds_of cfg ifindex) (begin_of ifindex) devs
    >>= λ devs'. some (entry_count fs, devs')

-- `rtcan_raw_remove_filter`
unfoldable pub remove_filter : Config → Devices → ℕ → Socket → Option Devices
remove_filter cfg devs s sock =
    if has_filter sock
    then for_devices cfg (remove_from_device s (held sock)) (rounds_of cfg sock.ifindex)
        (begin_of sock.ifindex) devs
    else some devs

-- The removal and the addition, one after the other, in `rtcan_raw_bind` and in
-- `rtcan_raw_setsockopt`: the new `flistlen`, and the devices.
abbrev pub replace_filter : Config → Devices → ℕ → Socket → FlistPtr → ℕ → Option (ℕ × Devices)
replace_filter cfg devs s sock flist ifindex =
    remove_filter cfg devs s sock >>= λ devs'. add_filter cfg devs' s flist ifindex
