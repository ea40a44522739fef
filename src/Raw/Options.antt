-- ===== src/Raw/Options.antt =====
-- `rtcan_raw_setsockopt` of can/rtcan_raw.c, with loopback configured. `none` is a fault.
use rtcan_bb.Base.{
  ℕ, zero, suc, ◌/◌, ◌%◌, Bool, true, false, not, ◌&&◌, ◌||◌, Option, none, some, List, [], ◌∷◌,
  ltb, ◌==◌, if◌then◌else◌, ◌>>=◌, update,
}
use rtcan_bb.Rtcan.Abi.{
  Errno, einval, enomem, efault, enoprotoopt, Ret, ok, err, Filter, can_filter_size,
}
use rtcan_bb.Rtcan.Socket.{Config, FlistPtr, null, no_filter, list, Socket}
use rtcan_bb.Filter.{is_bound, check_filter, replace_filter}
use rtcan_bb.System.{System, Caller, optval_read, fails, first_error}
use rtcan_bb.Raw.{set_socket}

pub data OptName : Type 0 where
  raw_filter raw_err_filter raw_loopback other_option : OptName

-- `struct _rtdm_setsockopt_args`, with what stands at `optval`: an array of filters, or an integer.
pub record SetsockoptArgs : Type 0 where
  pub is_sol_can_raw : Bool
  pub optname : OptName
  pub optlen : ℕ
  pub filters : ℕ → Filter
  pub value : ℕ

-- The `n` filters from number `i` on.
unfoldable pub read_filters : (ℕ → Filter) → ℕ → ℕ → List Filter
read_filters at i zero = []
read_filters at i (suc n) = at i ∷ read_filters at (suc i) n

-- The list of filters to set, or an error; `available` is whether `rtdm_malloc` gives memory.
unfoldable pub new_flist : Config → Caller → Bool → SetsockoptArgs → Option Errno × FlistPtr
unfolding read_filters
new_flist cfg caller available so =
    let flistlen = so.optlen / can_filter_size in
    let bad_length =
      ltb flistlen 1 || ltb cfg.max_receivers flistlen || not (so.optlen % can_filter_size == 0) in
    if so.optlen == 0 then (none, no_filter) else (
      first_error (
          (bad_length, einval) ∷ (not available, enomem) ∷ (fails caller optval_read, efault) ∷ []),
      list (read_filters so.filters 0 flistlen),
    )

abbrev pub is_list : FlistPtr → Bool
is_list null = false
is_list no_filter = false
is_list (list fs) = true

abbrev pub is_null : FlistPtr → Bool
is_null null = true
is_null no_filter = false
is_null (list fs) = false

-- `if (!rtcan_flist_no_filter(flist) && sock->flist) rtdm_free(sock->flist)`
abbrev pub free_old : FlistPtr → FlistPtr → List FlistPtr → List FlistPtr
free_old flist old freed = if is_list flist && not (is_null old) then old ∷ freed else freed

-- The new list takes the place of the old one: on a bound socket, with its entries.
unfoldable pub attach_bound : Config → System → ℕ → FlistPtr → Option (Ret × System)
attach_bound cfg sys s flist =
    let sock = sys.sockets s in
    replace_filter cfg sys.devices s sock flist sock.ifindex >>= λ r. some (
      ok 0,
      record sys {
        devices = r.1;
        sockets = update sys.sockets s (record sock { flist = flist; flistlen = some r.0 });
        freed = free_old flist sock.flist sys.freed;
      },
    )

-- On a socket that is not bound.
unfoldable pub attach_unbound : System → ℕ → FlistPtr → Ret × System
attach_unbound sys s flist =
    let sock = sys.sockets s in
    (
      ok 0,
      record sys {
        sockets = update sys.sockets s (record sock { flist = flist });
        freed = free_old flist sock.flist sys.freed;
      },
    )

-- The part of CAN_RAW_FILTER under the lock.
unfoldable pub set_flist : Config → System → ℕ → FlistPtr → Option (Ret × System)
unfolding attach_bound attach_unbound
set_flist cfg sys s flist =
    let sock = sys.sockets s in
    let checked = check_filter cfg sys.devices sock sock.ifindex flist in
    if is_bound sock
    then (elim checked [
      | some e ↦ some (err e, record sys { freed = flist ∷ sys.freed })
      | none ↦ attach_bound cfg sys s flist
    ])
    else some (attach_unbound sys s flist)

-- The errors of the options that hold an integer of four bytes.
abbrev pub int_option_error : Caller → SetsockoptArgs → Option Errno
int_option_error caller so =
    first_error ((not (so.optlen == 4), einval) ∷ (fails caller optval_read, efault) ∷ [])

abbrev pub set_int : System → ℕ → Socket → Option Errno → Option (Ret × System)
set_int sys s sock (some e) = some (err e, sys)
set_int sys s sock none = some (ok 0, set_socket sys s sock)

unfoldable pub set_filter : Config → System → ℕ → Option Errno × FlistPtr → Option (Ret × System)
unfolding set_flist
set_filter cfg sys s (some efault, flist) =
    some (err efault, record sys { freed = flist ∷ sys.freed })
set_filter cfg sys s (some e, flist) = some (err e, sys)
set_filter cfg sys s (none, flist) = set_flist cfg sys s flist

unfoldable pub set_option :
    Config → System → ℕ → Caller → Bool → SetsockoptArgs → OptName → Option (Ret × System)
unfolding set_filter new_flist
set_option cfg sys s caller available so raw_filter =
    set_filter cfg sys s (new_flist cfg caller available so)
set_option cfg sys s caller available so raw_err_filter =
    let sock = sys.sockets s in
    set_int sys s (record sock { err_mask = so.value }) (int_option_error caller so)
set_option cfg sys s caller available so raw_loopback =
    let sock = sys.sockets s in
    set_int sys s (record sock { loopback = so.value }) (int_option_error caller so)
set_option cfg sys s caller available so other_option = some (err enoprotoopt, sys)

-- `rtcan_raw_setsockopt`
unfoldable pub raw_setsockopt :
    Config → System → ℕ → Caller → Bool → SetsockoptArgs → Option (Ret × System)
unfolding set_option
raw_setsockopt cfg sys s caller available so =
    if so.is_sol_can_raw
    then set_option cfg sys s caller available so so.optname
    else some (err enoprotoopt, sys)
