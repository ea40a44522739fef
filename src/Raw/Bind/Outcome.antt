-- ===== src/Raw/Bind/Outcome.antt =====
-- The calls that change a binding, on every branch: `rtcan_raw_bind`, `rtcan_raw_setsockopt` with a
-- filter list, `rtcan_raw_close`.
use rtcan_bb.Base.{
  ℕ, ◌≡◌, refl, subst, Bool, true, false, not, Option, none, some, [], ◌∷◌, ◌||◌, arith, ltb,
  if◌then◌else◌, ◌>>=◌, update,
}
use rtcan_bb.Rtcan.Abi.{Errno, Ret, ok, err}
use rtcan_bb.Rtcan.Socket.{Config, FlistPtr, Socket}
use rtcan_bb.Rtcan.Device.{Devices}
use rtcan_bb.Registry.{is_negative}
use rtcan_bb.Filter.{held, is_bound, check_filter}
use rtcan_bb.System.{System, SockaddrCan, first_error}
use rtcan_bb.Raw.{rebind, raw_bind}
use rtcan_bb.Raw.Options.{set_flist, attach_bound, attach_unbound, free_old}
use rtcan_bb.Raw.Bind.{AllWellFormed, IsRegistered}
use rtcan_bb.Raw.Bind.Rebind.{takes, IsProper, Replaced, replace_total}

-- The devices account for their entries, and hold those of the socket where it is bound.
pub record IsSound (cfg : Config) (s : ℕ) (sys : System) : Type 0 where
  pub well : AllWellFormed cfg sys.devices
  pub registered : IsRegistered cfg sys.devices s (sys.sockets s).ifindex (held (sys.sockets s))
  pub proper : IsProper (sys.sockets s).flist

pub update_self : {A : Type 0} (f : ℕ → A) (s : ℕ) (v : A) → update f s v s ≡ v
update_self f s v = ground arith

-- The error of a bind, if it has one, from the address and the socket.
abbrev pub bind_error : Config → System → ℕ → SockaddrCan → Option Errno
bind_error cfg sys s scan =
    let sock = sys.sockets s in
    elim (first_error (
      (not scan.is_af_can, Errno.einval)
      ∷ (is_negative scan.can_ifindex || ltb cfg.max_devices scan.can_ifindex, Errno.enodev)
      ∷ (sock.closing, Errno.ebadf)
      ∷ [])) [
        | some e ↦ some e
        | none ↦ check_filter cfg sys.devices sock scan.can_ifindex sock.flist
      ]

-- A bind with an error that it has found, or without one.
abbrev pub BindReturns : Config → System → ℕ → ℕ → Option Errno → Option (Ret × System) → Type 0
BindReturns cfg sys s ifindex (some e) out = (out ≡ some (err e, sys)) × IsSound cfg s sys
BindReturns cfg sys s ifindex none out =
    let sock = sys.sockets s in
    (after : Devices) × (out
      ≡ some (
        ok 0,
        record sys {
          devices = after;
          sockets =
              update sys.sockets s
                (record sock { flistlen = some (takes sock.flist); ifindex = ifindex });
        },
      ))
    × AllWellFormed cfg after
    × IsRegistered cfg after s ifindex (takes sock.flist)

-- The error of a new filter list, if it has one: only a bound socket needs room for it.
abbrev pub list_error : Config → System → ℕ → FlistPtr → Option Errno
list_error cfg sys s flist =
    let sock = sys.sockets s in
    if is_bound sock then check_filter cfg sys.devices sock sock.ifindex flist else none

-- A new filter list with such an error, which is only given back; or without one.
abbrev pub ListReturns :
    Config → System → ℕ → FlistPtr → Option Errno → Option (Ret × System) → Type 0
ListReturns cfg sys s flist (some e) out =
    (out ≡ some (err e, record sys { freed = flist ∷ sys.freed })) × IsSound cfg s sys
ListReturns cfg sys s flist none out =
    let sock = sys.sockets s in
    let taken = (if is_bound sock then some (takes flist) else sock.flistlen) in
    (after : Devices) × (out
      ≡ some (
        ok 0,
        record sys {
          devices = after;
          sockets = update sys.sockets s (record sock { flist = flist; flistlen = taken });
          freed = free_old flist sock.flist sys.freed;
        },
      ))
    × AllWellFormed cfg after
    × IsRegistered cfg after s sock.ifindex (if is_bound sock then takes flist else 0)

-- A socket that is not bound holds no entries.
unbound-held : (sock : Socket) → is_bound sock ≡ false → held sock ≡ 0
unbound-held sock e = ground arith

module _ (cfg : Config) (sys : System) (s : ℕ) (sound : IsSound cfg s sys) where
  replaced :
      (ifindex : ℕ) (flist : FlistPtr)
      → IsProper flist
      → check_filter cfg sys.devices (sys.sockets s) ifindex flist ≡ none
      → Replaced cfg sys.devices s (sys.sockets s) ifindex sound.well sound.registered flist
  replaced ifindex =
      replace_total cfg sys.devices s (sys.sockets s) ifindex sound.well sound.registered

  rebind_total :
      (ifindex : ℕ)
      → check_filter cfg sys.devices (sys.sockets s) ifindex (sys.sockets s).flist ≡ none
      → BindReturns cfg sys s ifindex none (rebind cfg sys s ifindex >>= λ sys'. some (ok 0, sys'))
  unfolding rebind
  rebind_total ifindex c =
      let (after, e, well, reg) = replaced ifindex (sys.sockets s).flist sound.proper c in
      (after, rw e refl, well, reg)

  bind_checked :
      (ifindex : ℕ) (checked : Option Errno)
      → check_filter cfg sys.devices (sys.sockets s) ifindex (sys.sockets s).flist ≡ checked
      → BindReturns cfg sys s ifindex checked (elim checked [
        | some e ↦ some (err e, sys)
        | none ↦ rebind cfg sys s ifindex >>= λ sys'. some (ok 0, sys')
      ])
  bind_checked ifindex (some e) c = (refl, sound)
  bind_checked ifindex none c = rebind_total ifindex c

  bind_tests :
      (foreign negative above closing : Bool) (ifindex : ℕ) (checked : Option Errno)
      → check_filter cfg sys.devices (sys.sockets s) ifindex (sys.sockets s).flist ≡ checked
      → BindReturns cfg sys s ifindex
          (elim (first_error (
            (foreign, Errno.einval)
            ∷ (negative || above, Errno.enodev)
            ∷ (closing, Errno.ebadf)
            ∷ [])) [ some e ↦ some e | none ↦ checked ])
          (if foreign
            then some (err Errno.einval, sys)
            else (if negative
                then some (err Errno.enodev, sys)
                else (if above
                    then some (err Errno.enodev, sys)
                    else (if closing then some (err Errno.ebadf, sys) else (elim checked [
                      | some e ↦ some (err e, sys)
                      | none ↦ rebind cfg sys s ifindex >>= λ sys'. some (ok 0, sys')
                    ])))))
  bind_tests true negative above closing ifindex checked c = (refl, sound)
  bind_tests false true above closing ifindex checked c = (refl, sound)
  bind_tests false false true closing ifindex checked c = (refl, sound)
  bind_tests false false false true ifindex checked c = (refl, sound)
  bind_tests false false false false ifindex checked c = bind_checked ifindex checked c

  -- From a system whose devices account for their entries and hold those of the socket where it is
  -- bound, and where the socket's own filter list, if it has one, is not empty, a bind returns
  -- whatever address it is given. The error is -EINVAL for a foreign address family, else -ENODEV
  -- for an interface index that is negative or above the maximum, else -EBADF for a socket that is
  -- being closed, else that of the check for room, and leaves the system as it was. Without an
  -- error it returns 0, the socket has the index and as many entries as its list takes, its other
  -- fields and the other sockets are as before, all devices account for their entries, those that
  -- the index covers hold one run of that many entries of the socket, and no other device holds any.
  pub raw_bind_total :
      (scan : SockaddrCan)
      → BindReturns cfg sys s scan.can_ifindex (bind_error cfg sys s scan) (raw_bind cfg sys s scan)
  unfolding raw_bind
  raw_bind_total scan =
      bind_tests (not scan.is_af_can) (is_negative scan.can_ifindex)
        (ltb cfg.max_devices scan.can_ifindex) (sys.sockets s).closing scan.can_ifindex
        (check_filter cfg sys.devices (sys.sockets s) scan.can_ifindex (sys.sockets s).flist) refl

  attached_checked :
      (flist : FlistPtr) (checked : Option Errno)
      → IsProper flist
      → check_filter cfg sys.devices (sys.sockets s) (sys.sockets s).ifindex flist ≡ checked
      → is_bound (sys.sockets s) ≡ true
      → ListReturns cfg sys s flist checked (elim checked [
        | some e ↦ some (err e, record sys { freed = flist ∷ sys.freed })
        | none ↦ attach_bound cfg sys s flist
      ])
  unfolding attach_bound
  attached_checked flist (some e) p c b = (refl, sound)
  attached_checked flist none p c b =
      let (after, e, well, reg) = replaced (sys.sockets s).ifindex flist p c in
      (after, rw (b, e) refl, well, rw b reg)

  list_tests :
      (flist : FlistPtr) (b : Bool)
      → is_bound (sys.sockets s) ≡ b
      → IsProper flist
      → ListReturns cfg sys s flist
          (if b
            then check_filter cfg sys.devices (sys.sockets s) (sys.sockets s).ifindex flist
            else none)
          (if b
            then (elim (check_filter cfg sys.devices
                (sys.sockets s)
                (sys.sockets s).ifindex
                flist) [
                  | some e ↦ some (err e, record sys { freed = flist ∷ sys.freed })
                  | none ↦ attach_bound cfg sys s flist
                ])
            else some (attach_unbound sys s flist))
  unfolding attach_unbound
  list_tests flist true b p = attached_checked flist _ p refl b
  list_tests flist false b p = (
    sys.devices,
    rw b refl,
    sound.well,
    rw b (
        subst (IsRegistered cfg sys.devices s (sys.sockets s).ifindex)
          (unbound-held (sys.sockets s) b) sound.registered),
  )

  -- From a system whose devices account for their entries and hold those of the socket where it is
  -- bound, and where the socket's own filter list, if it has one, is not empty, setting a list of
  -- at least one filter, or no filter, returns. On a bound socket the error is that of the check
  -- for room; the system is then left as it was, but for the new list, which is given back. Without
  -- an error it returns 0 and the socket has the new list; a bound socket then has as many entries
  -- as that takes, one run on each device that it is bound to and none on another, an unbound one
  -- has none and stays unbound; the other sockets are as before, and the devices account for their
  -- entries.
  pub set_flist_total :
      (flist : FlistPtr)
      → IsProper flist
      → ListReturns cfg sys s flist (list_error cfg sys s flist) (set_flist cfg sys s flist)
  unfolding set_flist
  set_flist_total flist p = list_tests flist (is_bound (sys.sockets s)) refl p
