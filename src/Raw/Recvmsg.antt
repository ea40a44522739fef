-- ===== src/Raw/Recvmsg.antt =====
-- `rtcan_raw_recvmsg` of can/rtcan_raw.c.
pub mod Frame
pub mod Queue
use rtcan_bb.Base.{
  ℕ, ◌+◌, ◌-◌, ◌^◌, bit_and, Bool, true, false, not, ◌&&◌, ◌||◌, Option, none, some, List, [], ◌∷◌,
  ltb, ◌==◌, if◌then◌else◌,
}
use rtcan_bb.Base.Memory.{Bytes, zeroed, load32, load64}
use rtcan_bb.Rtcan.Abi.{
  Errno, einval, ebadf, efault, emsgsize, eagain, eidrm, ewouldblock, Ret, ok, err, can_rtr_flag,
  CanFrame, can_frame_size,
}
use rtcan_bb.Rtcan.Socket.{
  Config, has_timestamp, has_no_timestamp, timestamp_size, sem_up, sem_timeddown, Socket, Sockets,
  timeout_none,
}
use rtcan_bb.Ring.{advance, copy_out}
use rtcan_bb.System.{
  System, Caller, Site, name_write, name_read, iov_read, iov_write, base_write, control_write,
  control_read, base_read, fails, first_error, SockaddrCan, Down, down, down_err,
}
use rtcan_bb.Raw.{set_socket}

-- The flags of a call: the three that the sources know, and whether there is any other.
pub record MsgFlags : Type 0 where
  pub msg_oob : Bool
  pub msg_dontwait : Bool
  pub msg_peek : Bool
  pub other_flag : Bool

-- `struct msghdr` with what its pointers lead to. `iov_base` is the frame there, and `iov_moved` how
-- far the pointer has been advanced.
pub record MsgHdr : Type 0 where
  pub msg_name : Option SockaddrCan
  pub msg_namelen : ℕ
  pub msg_iovlen : ℕ
  pub iov_base : CanFrame
  pub iov_moved : ℕ
  pub iov_len : ℕ
  pub msg_control : Option ℕ
  pub msg_controllen : ℕ

-- The frame that `rtcan_raw_recvmsg` puts together from the ring buffer.
pub record Received : Type 0 where
  pub frame : CanFrame
  pub ifindex : ℕ
  pub can_dlc : ℕ
  pub timestamp : ℕ
  pub recv_buf_index : ℕ

-- From the identifier on, at `recv_head`; `interested` is whether `msg_controllen` is not 0.
unfoldable pub read_frame : Config → Socket → Bool → Received
read_frame cfg sock interested =
    let buf = sock.recv_buf in
    let at0 = sock.recv_head in
    let can_id = load32 (copy_out cfg zeroed 0 buf at0 4) 0 in
    let at1 = advance cfg at0 4 in
    let ifindex = buf at1 in
    let at2 = advance cfg at1 1 in
    let can_dlc = buf at2 in
    let at3 = advance cfg at2 1 in
    let dlc = bit_and can_dlc has_no_timestamp in
    let payload_size = (if ltb 8 dlc then 8 else dlc) in
    let has_data = bit_and can_id can_rtr_flag == 0 && not (payload_size == 0) in
    let payload = (if has_data then copy_out cfg zeroed 0 buf at3 payload_size else zeroed) in
    let at4 = (if has_data then advance cfg at3 payload_size else at3) in
    let stamped = interested && not (bit_and can_dlc has_timestamp == 0) in
    record {
      frame = record { can_id = can_id; can_dlc = dlc; payload = payload };
      ifindex = ifindex;
      can_dlc = can_dlc;
      timestamp = (if stamped then load64 (copy_out cfg zeroed 0 buf at4 timestamp_size) 0 else 0);
      recv_buf_index = (if stamped then advance cfg at4 timestamp_size else at4);
    }

-- The socket after it: a peek leaves the message, and posts the semaphore again.
unfoldable pub consume : Socket → Bool → ℕ → Socket
consume sock peek recv_buf_index =
    if peek
    then record sock { recv_sem = sem_up ∷ sock.recv_sem }
    else record sock { recv_head = recv_buf_index }

abbrev pub is_some {ℓ} : {A : Type ℓ} → Option A → Bool
is_some none = false
is_some (some a) = true

-- The checks before anything is fetched; `sockaddr_size` is `sizeof(struct sockaddr_can)`.
unfoldable pub recv_checks : ℕ → Caller → MsgFlags → MsgHdr → List (Bool × Errno)
recv_checks sockaddr_size caller flags msg =
    let named = is_some msg.msg_name in
    let controlled = is_some msg.msg_control in
    (flags.msg_oob || flags.other_flag, einval)
    ∷ (named && ltb msg.msg_namelen sockaddr_size, einval)
    ∷ (named && fails caller name_read, efault)
    ∷ (not named && not (msg.msg_namelen == 0), einval)
    ∷ (not (msg.msg_iovlen == 1), emsgsize)
    ∷ (fails caller iov_read, efault)
    ∷ (ltb msg.iov_len can_frame_size, emsgsize)
    ∷ (fails caller base_read, efault)
    ∷ (controlled && ltb msg.msg_controllen timestamp_size, einval)
    ∷ (controlled && fails caller control_read, efault)
    ∷ (not controlled && not (msg.msg_controllen == 0), einval)
    ∷ []

-- The error codes of the semaphore, as the caller sees them.
unfoldable pub recv_error : Errno → Errno
recv_error eidrm = ebadf
recv_error ewouldblock = eagain
recv_error e = e

-- What is copied back, one after the other; a failure ends it there.
unfoldable pub put_control : Caller → Received → MsgHdr → Ret × MsgHdr
put_control caller got msg =
    if msg.msg_controllen == 0
    then (ok can_frame_size, msg)
    else (if bit_and got.can_dlc has_timestamp == 0
        then (ok can_frame_size, record msg { msg_controllen = 0 })
        else (if fails caller control_write then (err efault, msg) else (
          ok can_frame_size,
          record msg { msg_control = some got.timestamp; msg_controllen = timestamp_size },
        )))

unfoldable pub put_frame : Caller → Received → MsgHdr → Ret × MsgHdr
unfolding put_control
put_frame caller got msg =
    let with_frame = record msg { iov_base = got.frame } in
    let moved = record msg {
      iov_base = got.frame;
      iov_moved = msg.iov_moved + can_frame_size;
      iov_len = msg.iov_len - can_frame_size;
    } in
    if fails caller base_write
    then (err efault, msg)
    else (if fails caller iov_write then (err efault, with_frame) else put_control caller got moved)

unfoldable pub copy_back : ℕ → Caller → Received → MsgHdr → Ret × MsgHdr
unfolding put_frame
copy_back sockaddr_size caller got msg =
    let addressed = record msg {
      msg_name = some (record { is_af_can = true; can_ifindex = got.ifindex });
      msg_namelen = sockaddr_size;
    } in
    if msg.msg_namelen == 0
    then put_frame caller got msg
    else (if fails caller name_write then (err efault, msg) else put_frame caller got addressed)

-- The timeout that is handed to `rtdm_sem_timeddown`.
abbrev pub recv_timeout : MsgFlags → Socket → ℕ
recv_timeout flags sock = if flags.msg_dontwait then timeout_none else sock.rx_timeout

-- What a call leaves: its result, the system and the message header.
abbrev pub Reply : Type 0
Reply = Ret × System × MsgHdr

unfoldable pub fetch : Config → ℕ → Caller → MsgFlags → MsgHdr → System → ℕ → Reply
unfolding read_frame consume copy_back
fetch cfg sockaddr_size caller flags msg sys s =
    let sock = sys.sockets s in
    let got = read_frame cfg sock (not (msg.msg_controllen == 0)) in
    let sys' = set_socket sys s (consume sock flags.msg_peek got.recv_buf_index) in
    let (ret, msg') = copy_back sockaddr_size caller got msg in (ret, sys', msg')

-- `rtcan_raw_recvmsg`. The semaphore's answer may depend on the timeout; `enable_bus_err` is
-- `rtcan_raw_enable_bus_err`.
unfoldable pub raw_recvmsg :
    Config
    → ℕ
    → (System → ℕ → System)
    → (ℕ → Down)
    → Caller
    → MsgFlags
    → MsgHdr
    → System
    → ℕ
    → Reply
unfolding recv_checks recv_error fetch
raw_recvmsg cfg sockaddr_size enable_bus_err timeddown caller flags msg sys s =
    let enabled = enable_bus_err sys s in
    let sock = enabled.sockets s in
    let waited = set_socket enabled s (record sock { recv_sem = sem_timeddown ∷ sock.recv_sem }) in
    let fetched = fetch cfg sockaddr_size caller flags msg waited s in
    let answer = timeddown (recv_timeout flags sock) in
    elim (first_error (recv_checks sockaddr_size caller flags msg)) [
      | some e ↦ (err e, sys, msg)
      | none ↦ elim answer [ down_err e ↦ (err (recv_error e), waited, msg) | down ↦ fetched ]
    ]
