-- ===== src/Raw/Bind/Closing.antt =====
-- `rtcan_raw_close`: what it leaves of a socket.
use rtcan_bb.Base.{
  ℕ, ◌≡◌, refl, sym, ap, ◌∙◌, subst, false, Option, none, some, List, [], ◌∷◌, arith, inl, inr,
  ◌>>=◌, Bool-cases, Option-cases, update,
}
use rtcan_bb.Rtcan.Abi.{Ret, ok}
use rtcan_bb.Rtcan.Socket.{Config, Socket, null}
use rtcan_bb.Rtcan.Device.{Devices}
use rtcan_bb.Filter.{held, is_bound, remove_filter}
use rtcan_bb.System.{System}
use rtcan_bb.Raw.{raw_unbind, raw_close, socket_cleanup, wake_senders, free_list}
use rtcan_bb.Raw.Bind.{AllWellFormed, IsDetached}
use rtcan_bb.Raw.Bind.Removal.{remove_filter_total}
use rtcan_bb.Raw.Bind.Outcome.{IsSound, update_self}

wake_senders_left : (tasks : List ℕ) → wake_senders tasks ≡ (tasks, [])
unfolding wake_senders
wake_senders_left [] = refl
wake_senders_left (t ∷ tasks) = rw (wake_senders_left tasks) refl

-- What a close leaves of the socket `s`: it returns 0, every device accounts for its entries and
-- holds none of the socket, and all waiting senders, and no others, have been woken.
abbrev pub Closed : Config → System → ℕ → Option (Ret × System × List ℕ) → Type 0
Closed cfg sys s out =
    (after : System) × (out ≡ some (ok 0, after, (sys.sockets s).tx_wait_head))
    × AllWellFormed cfg after.devices
    × IsDetached after.devices s
    × ((after.sockets s).tx_wait_head ≡ [])

cleaned :
    (cfg : Config) (sys mid : System) (s : ℕ)
    → AllWellFormed cfg mid.devices
    → IsDetached mid.devices s
    → (mid.sockets s).tx_wait_head ≡ (sys.sockets s).tx_wait_head
    → Closed cfg sys s (let (sys'', woken) = socket_cleanup mid s in some (ok 0, sys'', woken))
unfolding socket_cleanup
cleaned cfg sys mid s well none_left same = (
  (socket_cleanup mid s).0,
  ap (λ (w : List ℕ). some (ok 0, (socket_cleanup mid s).0, w))
      (ap (λ (p : List ℕ × List ℕ). p.0) (wake_senders_left (mid.sockets s).tx_wait_head) ∙ same),
  well,
  none_left,
  ap (λ (k : Socket). k.tx_wait_head) (update_self mid.sockets s _)
      ∙ ap (λ (p : List ℕ × List ℕ). p.1) (wake_senders_left (mid.sockets s).tx_wait_head),
)

-- The system behind `rtcan_raw_unbind`.
abbrev unbound_system : Config → System → ℕ → Devices → System
unbound_system cfg sys s after =
    let sock = sys.sockets s in
    record sys {
      devices = after;
      sockets = update sys.sockets s (record sock { flist = null; flistlen = none; ifindex = 0 });
      freed = free_list sock.flist sys.freed;
    }

raw_unbind_lem :
    (cfg : Config) (sys : System) (s : ℕ) (after : Devices)
    → remove_filter cfg sys.devices s (sys.sockets s) ≡ some after
    → raw_unbind cfg sys s ≡ some (unbound_system cfg sys s after)
unfolding raw_unbind
raw_unbind_lem cfg sys s after e = rw (e, raw_unbind) refl

nothing_held : (sock : Socket) → is_bound sock ≡ false → held sock ≡ 0
nothing_held sock h = ground (arith, Option-cases sock.flistlen)

module _ (cfg : Config) (sys : System) (s : ℕ) (sound : IsSound cfg s sys) where
  cleanup : System → Option (Ret × System × List ℕ)
  cleanup sys' = let (sys'', woken) = socket_cleanup sys' s in some (ok 0, sys'', woken)

  unbound : Closed cfg sys s (raw_unbind cfg sys s >>= cleanup)
  unfolding cleanup
  unbound =
      let (after, e, released) =
        remove_filter_total cfg sys.devices s (sys.sockets s) sound.well sound.registered in
      let sock = sys.sockets s in
      let new : Socket = record sock { flist = null; flistlen = none; ifindex = 0 } in
      let mid : System = record sys {
        devices = after;
        sockets = update sys.sockets s new;
        freed = free_list sock.flist sys.freed;
      } in
      subst (λ o. Closed cfg sys s (o >>= cleanup)) (sym (raw_unbind_lem cfg sys s after e))
        (cleaned cfg sys mid s (λ j d there. (released j d there).2.well)
          (λ j d there. (released j d there).2.none_left)
          (ap (λ (k : Socket). k.tx_wait_head) (update_self sys.sockets s new)))

  not_registered : is_bound (sys.sockets s) ≡ false → IsDetached sys.devices s
  not_registered b j dev e = sound.registered.others j dev e (inr (nothing_held (sys.sockets s) b))

  -- From a system whose devices account for their entries and hold those of the socket where it is
  -- bound, and where the socket's own filter list, if it has one, is not empty, a close of the
  -- socket returns 0 and wakes exactly the waiting senders; after it no device holds an entry of
  -- the socket, and every device accounts for its entries.
  pub raw_close_total : Closed cfg sys s (raw_close cfg sys s)
  unfolding raw_close cleanup
  raw_close_total = elim (Bool-cases (is_bound (sys.sockets s))) [
    | inl e ↦ rw (e, raw_close) unbound
    | inr e ↦ rw (e, raw_close) (cleaned cfg sys sys s sound.well (not_registered e) refl)
  ]
