-- ===== src/Ioctl.antt =====
-- Requests to a device: `rtcan_raw_ioctl_dev_get`, `rtcan_raw_ioctl_dev_set`, `rtcan_raw_ioctl_dev`
-- and `__rtcan_raw_enable_bus_err` of can/rtcan_raw_dev.c, and `rtcan_raw_ioctl` of can/rtcan_raw.c.
-- `none` is a fault: a NULL function is called, or a number divided by zero.
pub mod Baudrate
use rtcan_bb.Base.{
  ℕ, ◌+◌, ◌-◌, ◌*◌, ◌/◌, ◌%◌, ◌^◌, bit_and, Bool, true, false, not, ◌&&◌, ◌||◌, Option, none, some,
  List, ltb, ◌==◌, if◌then◌else◌, ◌>>=◌, update,
}
use rtcan_bb.Rtcan.Abi.{
  Errno, efault, enodev, eopnotsupp, einval, Ret, ok, err, CanState, CanMode, stop, start,
  is_operating,
}
use rtcan_bb.Rtcan.ErrorFrame.{can_err_buserror}
use rtcan_bb.Rtcan.Socket.{Config, Socket}
use rtcan_bb.Rtcan.Device.{BittimeStd, Bittime, std, btr, Device, Devices}
use rtcan_bb.Registry.{get_by_name, put_device, dereference}
use rtcan_bb.Filter.{for_devices, begin_of, rounds_of}
use rtcan_bb.System.{System, DeviceOps, Caller, arg_read, arg_write, name_read, fails, SockaddrCan}
use rtcan_bb.Raw.{set_socket, raw_bind}
use rtcan_bb.Raw.Options.{SetsockoptArgs, raw_setsockopt}
use rtcan_bb.BitTiming.{Timing, timed, failed, div?, u32, calc_bit_time}

-- The requests that read, with SIOCGCANCTRLMODE, and those that write, with what they set.
pub data GetRequest : Type 0 where
  gifindex gcanstate gcanctrlmode gcanbaudrate gcancustombittime : GetRequest

pub data SetRequest : Type 0 where
  scanmode : CanMode → SetRequest
  scanctrlmode : ℕ → SetRequest
  scanbaudrate : ℕ → SetRequest
  scancustombittime : Bittime → SetRequest

pub data Request : Type 0 where
  get : GetRequest → Request
  set : SetRequest → Request
  other_request : Request

-- What a read puts into `struct ifreq`.
pub data Value : Type 0 where
  index : ℕ → Value
  state_value : CanState → Value
  mode_value : ℕ → Value
  rate : ℕ → Value
  bittime : Bittime → Value

-- `if (dev->do_get_state) dev->state = dev->do_get_state(dev)`
unfoldable pub refresh : DeviceOps → Device → Device
refresh ops dev = elim ops.do_get_state [
  | none ↦ dev
  | some get_state ↦ record dev { state = get_state dev }
]

-- `rtcan_raw_ioctl_dev_get`
unfoldable pub ioctl_dev_get : DeviceOps → Device → GetRequest → Device × Value
unfolding refresh
ioctl_dev_get ops dev gifindex = (dev, index dev.ifindex)
ioctl_dev_get ops dev gcanstate = let dev' = refresh ops dev in (dev', state_value dev'.state)
ioctl_dev_get ops dev gcanctrlmode = (dev, mode_value dev.ctrl_mode)
ioctl_dev_get ops dev gcanbaudrate = (dev, rate dev.baudrate)
ioctl_dev_get ops dev gcancustombittime = (dev, bittime dev.bit_time)

-- A call through a pointer.
abbrev pub call_set_mode : DeviceOps → Device → CanMode → Option (Ret × Device)
call_set_mode ops dev mode = ops.do_set_mode >>= λ f. some (f dev mode)

abbrev pub call_set_bit_time : DeviceOps → Device → Bittime → Option (Ret × Device)
call_set_bit_time ops dev bt = ops.do_set_bit_time >>= λ f. some (f dev bt)

abbrev pub is_start : CanMode → Bool
is_start CanMode.start = true
is_start CanMode.stop = false
is_start CanMode.sleep = false

abbrev pub baudrate_unknown : ℕ
baudrate_unknown = 2 ^ 32 - 1

-- The baud rate of a custom bit time.
unfoldable pub custom_baudrate : ℕ → Bittime → Option ℕ
custom_baudrate clock (btr a b) = some baudrate_unknown
custom_baudrate clock (std bt) =
    if bt.brp == 0
    then some baudrate_unknown
    else div? clock (u32 (bt.brp * (1 + bt.prop_seg + bt.phase_seg1 + bt.phase_seg2)))

-- `if (!ret) { … }` behind `do_set_bit_time`.
unfoldable pub keep_bit_time : Bittime → ℕ → Ret × Device → Ret × Device
keep_bit_time bt baud (ok n, dev) =
    if n == 0 then (ok 0, record dev { baudrate = baud; bit_time = bt }) else (ok n, dev)
keep_bit_time bt baud (err e, dev) = (err e, dev)

unfoldable pub keep_custom : Bittime → Ret × Device → Option (Ret × Device)
unfolding custom_baudrate
keep_custom bt (ok n, dev) =
    if n == 0
    then (custom_baudrate dev.can_sys_clock bt >>= λ baud.
        some (ok 0, record dev { bit_time = bt; baudrate = baud }))
    else some (ok n, dev)
keep_custom bt (err e, dev) = some (err e, dev)

-- The third switch; `computed` is the local `bit_time`.
unfoldable pub apply_set : DeviceOps → Bittime → Device → SetRequest → Option (Ret × Device)
unfolding keep_bit_time keep_custom
apply_set ops computed dev (scanmode mode) = elim ops.do_set_mode [
  | none ↦ some (ok 0, dev)
  | some set_mode ↦
      some (if is_start mode && is_operating dev.state then (ok 0, dev) else set_mode dev mode)
]
apply_set ops computed dev (scanctrlmode mode) = some (ok 0, record dev { ctrl_mode = mode })
apply_set ops computed dev (scanbaudrate baud) =
    call_set_bit_time ops dev computed >>= λ r. some (keep_bit_time computed baud r)
apply_set ops computed dev (scancustombittime bt) =
    call_set_bit_time ops dev bt >>= λ r. keep_custom bt r

-- Whether the request stops a running controller for its change.
abbrev pub stops : SetRequest → Bool
stops (scanmode mode) = false
stops (scanctrlmode mode) = true
stops (scanbaudrate baud) = true
stops (scancustombittime bt) = true

-- The `out:` label: a controller that was running is started again, whatever that returns.
unfoldable pub restart : DeviceOps → Ret × Device → Option (Ret × Device)
restart ops (ret, dev) = call_set_mode ops dev start >>= λ r. some (ret, r.1)

-- Behind a stop: the change, unless stopping failed.
unfoldable pub stopped_set : DeviceOps → Bittime → SetRequest → Ret × Device → Option (Ret × Device)
unfolding apply_set restart
stopped_set ops computed request (err e, dev) = restart ops (err e, dev)
stopped_set ops computed request (ok n, dev) =
    let applied = apply_set ops computed dev request >>= λ r. restart ops r in
    if n == 0 then applied else restart ops (ok n, dev)

-- The part under the lock.
unfoldable pub locked_set : DeviceOps → Bittime → Device → SetRequest → Option (Ret × Device)
unfolding refresh stopped_set
locked_set ops computed dev request =
    let dev' = refresh ops dev in
    if stops request && is_operating dev'.state
    then (call_set_mode ops dev' stop >>= λ r. stopped_set ops computed request r)
    else apply_set ops computed dev' request

-- The local `bit_time` behind the first switch; `stack` is what it holds before. A failure only
-- leaves the switch.
abbrev pub computed_bittime : Bittime → Timing → Bittime
computed_bittime stack (timed bt) = std bt
computed_bittime stack (failed e) = stack

-- `rtcan_raw_ioctl_dev_set`. `stack` is what the local `bit_time` holds at first, and `stack_std`
-- the same memory, read as `bit_time.std`.
unfoldable pub ioctl_dev_set :
    DeviceOps → Bittime → BittimeStd → Device → SetRequest → Option (Ret × Device)
unfolding locked_set
ioctl_dev_set ops stack stack_std dev (scanbaudrate baud) =
    let change =
      (calc_bit_time dev baud stack_std >>= λ t.
      locked_set ops (computed_bittime stack t) dev (scanbaudrate baud)) in
    elim ops.do_set_bit_time [ none ↦ some (ok 0, dev) | some f ↦ change ]
ioctl_dev_set ops stack stack_std dev request = locked_set ops stack dev request

-- What a request returns: the code, the system, and what it read.
abbrev pub Answer : Type 0
Answer = Ret × System × Option Value

abbrev pub dispatched : GetRequest → Bool
dispatched gifindex = true
dispatched gcanstate = true
dispatched gcanctrlmode = false
dispatched gcanbaudrate = true
dispatched gcancustombittime = true

-- A device, looked up by name, and given back changed.
abbrev pub write_back : System → ℕ → Device → System
write_back sys i dev = record sys { devices = put_device sys.devices i (dereference dev) }

-- `rtcan_raw_ioctl_dev`, for the device of a name.
unfoldable pub raw_ioctl_dev :
    Config
    → (ℕ → DeviceOps)
    → Caller
    → Bittime
    → BittimeStd
    → List ℕ
    → Request
    → System
    → Option Answer
unfolding ioctl_dev_get ioctl_dev_set
raw_ioctl_dev cfg ops caller stack stack_std name other_request sys =
    some (err eopnotsupp, sys, none)
raw_ioctl_dev cfg ops caller stack stack_std name (get request) sys =
    let served : Answer = elim (get_by_name cfg sys.devices name) [
      | none ↦ (err enodev, sys, none)
      | some (i, dev) ↦
          let (dev', value) = ioctl_dev_get (ops i) dev request in
          if fails caller arg_write
          then (err efault, write_back sys i dev', none)
          else (ok 0, write_back sys i dev', some value)
    ] in
    if dispatched request
    then some (if fails caller arg_read then (err efault, sys, none) else served)
    else some (err eopnotsupp, sys, none)
raw_ioctl_dev cfg ops caller stack stack_std name (set request) sys =
    let served : Option Answer = elim (get_by_name cfg sys.devices name) [
      | none ↦ some (err enodev, sys, none)
      | some (i, dev) ↦ ioctl_dev_set (ops i) stack stack_std dev request >>= λ r.
          some (r.0, write_back sys i r.1, none)
    ] in
    if fails caller arg_read then some (err efault, sys, none) else served

abbrev pub enable_one : DeviceOps → Device → Option Device
enable_one ops dev = elim ops.do_enable_bus_err [
  | none ↦ some dev
  | some enable ↦ some (enable dev)
]

-- `__rtcan_raw_enable_bus_err`; a driver's function depends on the device.
unfoldable pub enable_bus_err : Config → (Device → DeviceOps) → System → ℕ → Option System
enable_bus_err cfg ops sys s =
    let ifindex = (sys.sockets s).ifindex in
    if bit_and (sys.sockets s).err_mask can_err_buserror == 0
    then some sys
    else (for_devices cfg (λ dev. enable_one (ops dev) dev) (rounds_of cfg ifindex)
          (begin_of ifindex) sys.devices
        >>= λ devs. some (record sys { devices = devs }))

-- The requests of `rtcan_raw_ioctl`. A bind comes with the length of its address.
pub data SocketRequest : Type 0 where
  rtioc_bind : ℕ → SockaddrCan → SocketRequest
  rtioc_setsockopt : SetsockoptArgs → SocketRequest
  take_timestamp : Bool → SocketRequest
  rcv_timeout : ℕ → SocketRequest
  snd_timeout : ℕ → SocketRequest
  device_request : List ℕ → Request → SocketRequest

abbrev pub is_user : Caller → Bool
is_user Caller.kernel = false
is_user (Caller.user f) = true

-- `rtcan_raw_ioctl`; the size of the address is checked for a caller in user space only.
unfoldable pub raw_ioctl :
    Config
    → ℕ
    → (ℕ → DeviceOps)
    → Caller
    → Bool
    → Bittime
    → BittimeStd
    → System
    → ℕ
    → SocketRequest
    → Option Answer
unfolding raw_ioctl_dev
raw_ioctl cfg sockaddr_size ops caller available stack stack_std sys s (rtioc_bind addrlen addr) =
    let bound = raw_bind cfg sys s addr >>= λ r. some (r.0, r.1, none) in
    if fails caller arg_read
    then some (err efault, sys, none)
    else (if is_user caller && not (addrlen == sockaddr_size)
        then some (err einval, sys, none)
        else (if fails caller name_read then some (err efault, sys, none) else bound))
raw_ioctl cfg sockaddr_size ops caller available stack stack_std sys s (rtioc_setsockopt so) =
    if fails caller arg_read
    then some (err efault, sys, none)
    else raw_setsockopt cfg sys s caller available so >>= λ r. some (r.0, r.1, none)
raw_ioctl cfg sockaddr_size ops caller available stack stack_std sys s (take_timestamp b) =
    let sock = sys.sockets s in
    some (ok 0, set_socket sys s (record sock { get_timestamp = b }), none)
raw_ioctl cfg sockaddr_size ops caller available stack stack_std sys s (rcv_timeout t) =
    let sock = sys.sockets s in
    if fails caller arg_read
    then some (err efault, sys, none)
    else some (ok 0, set_socket sys s (record sock { rx_timeout = t }), none)
raw_ioctl cfg sockaddr_size ops caller available stack stack_std sys s (snd_timeout t) =
    let sock = sys.sockets s in
    if fails caller arg_read
    then some (err efault, sys, none)
    else some (ok 0, set_socket sys s (record sock { tx_timeout = t }), none)
raw_ioctl cfg sockaddr_size ops caller available stack stack_std sys s (device_request name r) =
    raw_ioctl_dev cfg ops caller stack stack_std name r sys
