-- ===== src/Raw.antt =====
-- The life of a raw socket: can/rtcan_socket.c, and `rtcan_raw_socket`, `rtcan_raw_unbind`,
-- `rtcan_raw_close` and `rtcan_raw_bind` of can/rtcan_raw.c. `none` is a fault.
pub mod Options
pub mod Recvmsg
pub mod Sendmsg
pub mod Bind
use rtcan_bb.Base.{
  ℕ, ◌+◌, ◌-◌, ◌^◌, Bool, true, false, not, Option, none, some, List, [], ◌∷◌, ltb, ◌==◌,
  if◌then◌else◌, update, ◌>>=◌,
}
use rtcan_bb.Rtcan.Abi.{Errno, einval, enodev, ebadf, eprotonosupport, Ret, ok, err}
use rtcan_bb.Rtcan.Socket.{
  Config, sem_init, sem_destroy, FlistPtr, null, no_filter, list, Socket, Sockets, timeout_infinite,
}
use rtcan_bb.Rtcan.Device.{Devices}
use rtcan_bb.Registry.{is_negative}
use rtcan_bb.Filter.{is_bound, check_filter, remove_filter, replace_filter}
use rtcan_bb.System.{System, SockaddrCan}

abbrev pub set_socket : System → ℕ → Socket → System
set_socket sys s sock = record sys { sockets = update sys.sockets s sock }

-- `rtcan_socket_init`, in a context that RTDM has just opened.
unfoldable pub socket_init : System → ℕ → System
socket_init sys s =
    let sock = sys.sockets s in
    record sys {
      sockets = update sys.sockets s (record sock {
        recv_sem = sem_init 0 ∷ [];
        recv_head = 0;
        recv_tail = 0;
        ifindex = 0;
        flistlen = none;
        flist = null;
        err_mask = 0;
        rx_buf_full = 0;
        loopback = 1;
        tx_timeout = timeout_infinite;
        rx_timeout = timeout_infinite;
        tx_wait_head = [];
      });
      socket_list = s ∷ sys.socket_list;
    }

-- `list_del` of a socket, if it is in the list.
unfoldable pub unlist : ℕ → List ℕ → List ℕ
unlist s [] = []
unlist s (x ∷ xs) = if x == s then xs else x ∷ unlist s xs

-- The loop of `rtcan_socket_cleanup`: the tasks that it wakes, in order, and the queue after it.
unfoldable pub wake_senders : List ℕ → List ℕ × List ℕ
wake_senders [] = ([], [])
wake_senders (task ∷ tasks) = let (woken, left) = wake_senders tasks in (task ∷ woken, left)

-- `rtcan_socket_cleanup`: the system, and the tasks woken.
unfoldable pub socket_cleanup : System → ℕ → System × List ℕ
unfolding unlist wake_senders
socket_cleanup sys s =
    let sock = sys.sockets s in
    let (woken, left) = wake_senders sock.tx_wait_head in
    (
      record sys {
        sockets =
            update sys.sockets s
              (record sock { tx_wait_head = left; recv_sem = sem_destroy ∷ sock.recv_sem });
        socket_list = unlist s sys.socket_list;
      },
      woken,
    )

-- CAN_RAW, 0, or any other protocol.
pub data Protocol : Type 0 where
  can_raw unspecified other_protocol : Protocol

-- `rtcan_raw_socket`
unfoldable pub raw_socket : System → ℕ → Protocol → Ret × System
unfolding socket_init
raw_socket sys s other_protocol = (err eprotonosupport, sys)
raw_socket sys s can_raw = (ok 0, socket_init sys s)
raw_socket sys s unspecified = (ok 0, socket_init sys s)

-- `if (!rtcan_flist_no_filter(flist) && flist) rtdm_free(flist)`
abbrev pub free_list : FlistPtr → List FlistPtr → List FlistPtr
free_list null freed = freed
free_list no_filter freed = freed
free_list (list fs) freed = list fs ∷ freed

-- `rtcan_raw_unbind`
unfoldable pub raw_unbind : Config → System → ℕ → Option System
raw_unbind cfg sys s =
    let sock = sys.sockets s in
    remove_filter cfg sys.devices s sock >>= λ devs. some (record sys {
      devices = devs;
      sockets = update sys.sockets s (record sock { flist = null; flistlen = none; ifindex = 0 });
      freed = free_list sock.flist sys.freed;
    })

-- `rtcan_raw_close`, with the tasks that it wakes.
unfoldable pub raw_close : Config → System → ℕ → Option (Ret × System × List ℕ)
unfolding raw_unbind socket_cleanup
raw_close cfg sys s =
    (if is_bound (sys.sockets s) then raw_unbind cfg sys s else some sys) >>= λ sys'.
    let (sys'', woken) = socket_cleanup sys' s in some (ok 0, sys'', woken)

-- The part of `rtcan_raw_bind` behind its checks.
unfoldable pub rebind : Config → System → ℕ → ℕ → Option System
rebind cfg sys s ifindex =
    let sock = sys.sockets s in
    replace_filter cfg sys.devices s sock sock.flist ifindex >>= λ r. some (record sys {
      devices = r.1;
      sockets = update sys.sockets s (record sock { flistlen = some r.0; ifindex = ifindex });
    })

-- `rtcan_raw_bind`
unfoldable pub raw_bind : Config → System → ℕ → SockaddrCan → Option (Ret × System)
unfolding rebind
raw_bind cfg sys s scan =
    let sock = sys.sockets s in
    let checked = check_filter cfg sys.devices sock scan.can_ifindex sock.flist in
    let bound = rebind cfg sys s scan.can_ifindex in
    if not scan.is_af_can
    then some (err einval, sys)
    else (if is_negative scan.can_ifindex
        then some (err enodev, sys)
        else (if ltb cfg.max_devices scan.can_ifindex
            then some (err enodev, sys)
            else (if sock.closing then some (err ebadf, sys) else (elim checked [
              | some e ↦ some (err e, sys)
              | none ↦ bound >>= λ sys'. some (ok 0, sys')
            ]))))
