-- ===== src/Raw/Sendmsg.antt =====
-- `rtcan_raw_sendmsg` of can/rtcan_raw.c.
use rtcan_bb.Base.{
  ℕ, ◌+◌, ◌-◌, ◌%◌, ◌^◌, bit_and, Bool, true, false, not, ◌&&◌, ◌||◌, Option, none, some, List, [],
  ◌∷◌, ltb, ◌==◌, if◌then◌else◌, update,
}
use rtcan_bb.Rtcan.Abi.{
  Errno, einval, ebadf, efault, emsgsize, eagain, eidrm, ewouldblock, eopnotsupp, enxio, enetdown,
  ecomm, Ret, ok, err, CanFrame, can_frame_size, can_eff_flag, can_eff_mask, can_sff_mask, CanState,
  is_operating,
}
use rtcan_bb.Rtcan.Socket.{Config, sem_up, sem_timeddown, Socket, timeout_none}
use rtcan_bb.Rtcan.Device.{Device}
use rtcan_bb.Registry.{get_by_index, put_device, dereference}
use rtcan_bb.Receive.{tx_push}
use rtcan_bb.System.{
  System, DeviceOps, Caller, name_read, iov_read, iov_write, base_read, fails, first_error,
  SockaddrCan, Down, down, down_err,
}
use rtcan_bb.Raw.Recvmsg.{MsgFlags, MsgHdr, Reply, is_some}

-- What happens while the sender waits for the controller: the semaphore's answer to the timeout,
-- and whether the socket was closed meanwhile, which takes the task from the wait queue.
pub record Wait : Type 0 where
  pub timeddown : ℕ → Down
  pub closed : Bool

-- The interface to send on: the address's, or the one that the socket is bound to.
abbrev pub target : Socket → Option SockaddrCan → ℕ
target sock none = sock.ifindex
target sock (some scan) = scan.can_ifindex

abbrev pub is_foreign : Option SockaddrCan → Bool
is_foreign none = false
is_foreign (some scan) = not scan.is_af_can

-- The checks on the arguments, up to the frame's copy into the kernel.
unfoldable pub send_checks : ℕ → Caller → MsgFlags → MsgHdr → Socket → List (Bool × Errno)
send_checks sockaddr_size caller flags msg sock =
    let named = is_some msg.msg_name in
    (flags.msg_oob, eopnotsupp)
    ∷ (flags.msg_peek || flags.other_flag, einval)
    ∷ (not (msg.msg_iovlen == 1), emsgsize)
    ∷ (not named && not (msg.msg_namelen == 0), einval)
    ∷ (not named && sock.ifindex == 0, enxio)
    ∷ (named && ltb msg.msg_namelen sockaddr_size, einval)
    ∷ (named && fails caller name_read, efault)
    ∷ (is_foreign msg.msg_name, einval)
    ∷ (fails caller iov_read, efault)
    ∷ (not (msg.iov_len == can_frame_size), emsgsize)
    ∷ (fails caller base_read, efault)
    ∷ (fails caller iov_write, efault)
    ∷ []

-- The checks on the frame: its length code, and the range of a standard identifier.
unfoldable pub frame_checks : CanFrame → List (Bool × Errno)
frame_checks frame =
    (ltb 15 frame.can_dlc, einval)
    ∷ (
      bit_and frame.can_id can_eff_flag == 0
          && ltb (can_sff_mask - 16) (bit_and frame.can_id can_eff_mask),
      einval,
    )
    ∷ []

-- The error codes of the semaphore, as the caller sees them.
unfoldable pub send_error : Errno → Errno
send_error eidrm = enetdown
send_error ewouldblock = eagain
send_error e = e

-- The result of the guarded wait: an error, or access to the controller.
unfoldable pub wait_error : Socket → Wait → ℕ → Option Errno
wait_error sock wait timeout =
    let answer = wait.timeddown timeout in
    if sock.closing
    then some ebadf
    else (if wait.closed then some ebadf else elim answer [ down ↦ none | down_err e ↦ some e ])

-- The reference to a device, given back.
abbrev pub release : Option Device → Option Device
release none = none
release (some dev) = some (dereference dev)

abbrev pub release_device : System → ℕ → System
release_device sys ifindex = record sys {
  devices = update sys.devices (ifindex - 1) (release (sys.devices (ifindex - 1)));
}

abbrev pub is_sleeping : CanState → Bool
is_sleeping CanState.sleeping = true
is_sleeping CanState.active = false
is_sleeping CanState.bus_warning = false
is_sleeping CanState.bus_passive = false
is_sleeping CanState.bus_off = false
is_sleeping CanState.scanning_baudrate = false
is_sleeping CanState.stopped = false

-- The frame is handed to the driver if the controller operates. `dev` is the device with the
-- reference taken, and the frame pushed where the socket wants it looped back.
unfoldable pub transmit : (ℕ → DeviceOps) → System → ℕ → Device → CanFrame → Ret × System
transmit ops sys ifindex dev frame =
    let counted = record dev { tx_count = (dev.tx_count + 1) % 2 ^ 32 } in
    let posted = record dev { tx_sem = sem_up ∷ dev.tx_sem } in
    let (ret, sent) =
      (ops ifindex).hard_start_xmit ifindex frame
        (record sys { devices = put_device sys.devices ifindex counted }) in
    if is_operating dev.state
    then (elim ret [ ok n ↦ if n == 0 then ok can_frame_size else ok n | err e ↦ err e ], sent)
    else (if is_sleeping dev.state
        then (err ecomm, record sys { devices = put_device sys.devices ifindex posted })
        else (err enetdown, record sys { devices = put_device sys.devices ifindex dev }))

-- From the look-up of the device on.
unfoldable pub send_on :
    Config → (ℕ → DeviceOps) → Wait → MsgFlags → System → ℕ → ℕ → CanFrame → Ret × System
unfolding wait_error send_error transmit
send_on cfg ops wait flags sys s ifindex frame =
    let sock = sys.sockets s in
    let timeout = (if flags.msg_dontwait then timeout_none else sock.tx_timeout) in
    elim (get_by_index cfg sys.devices ifindex) [
      | none ↦ (err enxio, sys)
      | some dev ↦
          let asked =
            (if sock.closing then dev else record dev { tx_sem = sem_timeddown ∷ dev.tx_sem }) in
          let pushed = (if sock.loopback == 0 then asked else tx_push asked s frame) in
          let (ret, sent) = transmit ops sys ifindex pushed frame in
          elim (wait_error sock wait timeout) [
            | some e ↦ (
              err (send_error e),
              record sys { devices = put_device sys.devices ifindex (dereference asked) },
            )
            | none ↦ (ret, release_device sent ifindex)
          ]
    ]

-- `rtcan_raw_sendmsg`, with the message header as the caller finds it. The task leaves the wait
-- queue before the call goes on, so the queue is as it was, or as a close has left it.
unfoldable pub raw_sendmsg :
    Config → ℕ → (ℕ → DeviceOps) → Wait → Caller → MsgFlags → MsgHdr → System → ℕ → Reply
unfolding send_checks frame_checks send_on
raw_sendmsg cfg sockaddr_size ops wait caller flags msg sys s =
    let sock = sys.sockets s in
    let (ret, sent) = send_on cfg ops wait flags sys s (target sock msg.msg_name) msg.iov_base in
    let moved = record msg {
      iov_moved = msg.iov_moved + can_frame_size;
      iov_len = msg.iov_len - can_frame_size;
    } in
    elim (first_error (send_checks sockaddr_size caller flags msg sock)) [
      | some e ↦ (err e, sys, msg)
      | none ↦ elim (first_error (frame_checks msg.iov_base)) [
        | some e ↦ (err e, sys, moved)
        | none ↦ (ret, sent, moved)
      ]
    ]
