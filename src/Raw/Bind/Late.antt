-- ===== src/Raw/Bind/Late.antt =====
-- A device that comes later: a socket that is bound to all interfaces has no entry on it, and its
-- removal follows a NULL pointer there.
use rtcan_bb.Base.{
  ℕ, zero, suc, ◌-◌, ◌<◌, ◌≡◌, ◌≢◌, refl, sym, ap, ◌∙◌, subst, true, false, Option, none, some,
  List, [], ◌∷◌, arith, inl, inr, ◌==◌, ◌>>=◌, Option-cases,
}
use native.Mathlib.Decide.{ℕ_discrete}
use rtcan_bb.Rtcan.Socket.{Config, Socket}
use rtcan_bb.Rtcan.Device.{Recv, Device, Devices}
use rtcan_bb.Registry.{get_by_index, put_device, reference, dereference}
use rtcan_bb.Filter.{
  begin_of, rounds_of, held, find_socket, remove_from_device, visit, for_devices, remove_filter,
}
use rtcan_bb.Filter.Entries.{All, IsNotOf}
use rtcan_bb.Filter.Loops.{in_range, map_device, get_by_index_visible}
use rtcan_bb.Raw.Bind.{covers, begin_of-suc}

find_socket_absent :
    (s : ℕ) (entries : List Recv) → All (IsNotOf s) entries → find_socket s entries ≡ none
unfolding find_socket
find_socket_absent s [] h = refl
find_socket_absent s (e ∷ entries) h = ground (arith, find_socket_absent s entries h.1)

remove_absent :
    (s n : ℕ) (dev : Device)
    → All (IsNotOf s) dev.recv_list
    → remove_from_device s n (reference dev) ≡ none
unfolding remove_from_device reference
remove_absent s n dev h = rw (find_socket_absent s dev.recv_list h) refl

-- A round at one index leaves the other slots.
put_other :
    (devs : Devices) (i j : ℕ) (dev : Device) → i ≢ j → put_device devs (suc i) dev j ≡ devs j
unfolding put_device
put_other devs i j dev ne = ground arith

visited :
    (i j : ℕ) (step : Device → Option Device) (devs devs' : Devices) (o : Option Device)
    → i ≢ j
    → (elim o [
      | none ↦ some devs
      | some dev ↦ step dev >>= λ dev'. some (put_device devs (suc i) (dereference dev'))
    ])
      ≡ some devs'
    → devs' j ≡ devs j
visited i j step devs devs' none ne e = ground arith
visited i j step devs devs' (some dev) ne e = elim (Option-cases (step dev)) [
  | inl fault ↦ absurd (ground (arith, fault))
  | inr (dev', there) ↦ ground (arith, there, put_other devs i j (dereference dev') ne)
]

visit_other :
    (cfg : Config) (step : Device → Option Device) (i j : ℕ) (devs devs' : Devices)
    → i ≢ j
    → visit cfg step (suc i) devs ≡ some devs'
    → devs' j ≡ devs j
unfolding visit
visit_other cfg step i j devs devs' ne e =
    visited i j step devs devs' (get_by_index cfg devs (suc i)) ne e

visit_fault :
    (cfg : Config) (step : Device → Option Device) (j : ℕ) (devs : Devices) (dev : Device)
    → in_range cfg 1 (suc j) j ≡ true
    → devs j ≡ some dev
    → step (reference dev) ≡ none
    → visit cfg step (suc j) devs ≡ none
unfolding visit
visit_fault cfg step j devs dev r e f =
    rw (get_by_index_visible cfg devs j (ground arith) ∙ ap (map_device reference) e, visit)
      (rw f refl)

-- One device at which a round faults makes the loop fault.
for_devices_fault :
    (cfg : Config) (step : Device → Option Device) (n i : ℕ) (devs : Devices) (j : ℕ) (dev : Device)
    → in_range cfg n (suc i) j ≡ true
    → devs j ≡ some dev
    → step (reference dev) ≡ none
    → for_devices cfg step n (suc i) devs ≡ none
unfolding for_devices
for_devices_fault cfg step zero i devs j dev r e f = absurd (ground arith)
for_devices_fault cfg step (suc n) i devs j dev r e f = elim (ℕ_discrete i j) [
  | yes now ↦
      subst
        (λ k. (visit cfg step (suc k) devs >>= λ d. for_devices cfg step n (suc (suc k)) d) ≡ none)
        (sym now) (rw (visit_fault cfg step j devs dev (ground arith) e f) refl)
  | no later ↦ elim (Option-cases (visit cfg step (suc i) devs)) [
    | inl fault ↦ rw fault refl
    | inr (devs', there) ↦ rw there (
        for_devices_fault cfg step n (suc i) devs' j dev (ground arith)
          (keeps devs' there later ∙ e) f)
  ]
]
  where
    keeps : (devs' : Devices) → visit cfg step (suc i) devs ≡ some devs' → i ≢ j → devs' j ≡ devs j
    keeps devs' there ne = visit_other cfg step i j devs devs' ne there

-- If some device that a socket with entries is bound to holds none of them, as one that was
-- registered after the bind does, the removal of the socket's filters follows a NULL pointer.
pub remove_filter_late :
    (cfg : Config) (devs : Devices) (s : ℕ) (sock : Socket) (j : ℕ) (dev : Device)
    → 0 < held sock
    → covers cfg sock.ifindex j ≡ true
    → devs j ≡ some dev
    → All (IsNotOf s) dev.recv_list
    → remove_filter cfg devs s sock ≡ none
unfolding remove_filter
remove_filter_late cfg devs s sock j dev pos c e absent =
    rw (has_some, remove_filter)
      (subst
        (λ b.
          in_range cfg (rounds_of cfg sock.ifindex) b j ≡ true
          → for_devices cfg (remove_from_device s (held sock)) (rounds_of cfg sock.ifindex) b devs
            ≡ none)
        (begin_of-suc sock.ifindex)
        (λ r.
          for_devices_fault cfg (remove_from_device s (held sock)) (rounds_of cfg sock.ifindex)
            (begin_of sock.ifindex - 1) devs j dev r e (remove_absent s (held sock) dev absent))
        c)
  where
    has_some : (held sock == 0) ≡ false
    has_some = ground arith
