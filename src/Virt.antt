-- ===== src/Virt.antt =====
-- The driver of virtual devices: can/rtcan_virt.c. The bus is the table `rtcan_virt_devs`; its
-- devices are the registered ones, so a slot holds the index of a device.
pub mod Bus
pub mod Start
use rtcan_bb.Base.{
  ℕ, zero, suc, ◌+◌, ◌-◌, ◌%◌, ◌^◌, bit_and, Bool, true, false, not, ◌&&◌, Option, none, some, List,
  [], ◌∷◌, ltb, ◌==◌, if◌then◌else◌, ◌>>=◌, update, length,
}
use rtcan_bb.Base.Memory.{Bytes, memcpy, put_byte, store32}
use rtcan_bb.Rtcan.Abi.{
  Errno, enomem, eopnotsupp, Ret, ok, err, CanState, CanMode, stop, start, sleep, CanFrame,
  can_rtr_flag,
}
use rtcan_bb.Rtcan.Socket.RbFrame
use rtcan_bb.Rtcan.Socket.{Config, empty_rb_frame_size, Skb, Sockets, sem_up, sem_init, sem_destroy}
use rtcan_bb.Rtcan.Device.{Device, Devices}
use rtcan_bb.Registry.{put_device, dev_alloc, dev_free, dev_register, dev_unregister}
use rtcan_bb.Receive.{rcv, loopback}
use rtcan_bb.System.{System, DeviceOps}

-- VIRT_TX_BUFS
abbrev pub virt_tx_bufs : ℕ
virt_tx_bufs = 1

-- The frame as the receivers get it; `stack` is the memory of the local `skb`.
unfoldable pub virt_skb : Bytes → CanFrame → Skb
virt_skb stack frame =
    let head =
      store32 (put_byte stack RbFrame.can_dlc_offset (frame.can_dlc % 2 ^ 8)) RbFrame.can_id_offset
        frame.can_id in
    if bit_and frame.can_id can_rtr_flag == 0
    then record {
      rb_frame_size = empty_rb_frame_size + frame.can_dlc;
      rb_frame = memcpy head RbFrame.payload_offset frame.payload 0 frame.can_dlc;
    }
    else record { rb_frame_size = empty_rb_frame_size; rb_frame = head }

abbrev pub is_active : CanState → Bool
is_active CanState.active = true
is_active CanState.bus_warning = false
is_active CanState.bus_passive = false
is_active CanState.bus_off = false
is_active CanState.scanning_baudrate = false
is_active CanState.stopped = false
is_active CanState.sleeping = false

abbrev pub set_ifindex : Skb → ℕ → Skb
set_ifindex skb i = record skb {
  rb_frame = put_byte skb.rb_frame RbFrame.can_ifindex_offset (i % 2 ^ 8);
}

abbrev pub is_pending : Device → Bool
is_pending dev = elim dev.tx_socket [ none ↦ false | some s ↦ true ]

-- A device, found on the bus.
unfoldable pub virt_receive : Config → ℕ → (tx i : ℕ) → Device → System → Skb → System × Skb
virt_receive cfg timestamp tx i dev sys skb =
    let (rx_dev, socks, skb') = rcv cfg timestamp dev sys.sockets (set_ifindex skb dev.ifindex) in
    let (tx_dev, looped) = loopback cfg timestamp dev sys.sockets in
    if not (is_active dev.state)
    then (sys, skb)
    else (if not (i == tx)
        then (record sys { devices = put_device sys.devices i rx_dev; sockets = socks }, skb')
        else (if is_pending dev
            then (record sys { devices = put_device sys.devices i tx_dev; sockets = looped }, skb)
            else (sys, skb)))

unfoldable pub virt_visit : Config → ℕ → (tx i : ℕ) → System → Skb → System × Skb
unfolding virt_receive
virt_visit cfg timestamp tx i sys skb = elim (sys.devices (i - 1)) [
  | none ↦ (sys, skb)
  | some dev ↦ virt_receive cfg timestamp tx i dev sys skb
]

-- The loop over the bus.
unfoldable pub virt_deliver : Config → ℕ → ℕ → List ℕ → System → Skb → System × Skb
unfolding virt_visit
virt_deliver cfg timestamp tx [] sys skb = (sys, skb)
virt_deliver cfg timestamp tx (i ∷ bus) sys skb =
    let (sys', skb') = virt_visit cfg timestamp tx i sys skb in
    virt_deliver cfg timestamp tx bus sys' skb'

abbrev pub post_tx : Option Device → Option Device
post_tx none = none
post_tx (some dev) = some (record dev { tx_sem = sem_up ∷ dev.tx_sem })

-- `rtcan_virt_start_xmit`; one time stands for the readings of the clock.
unfoldable pub virt_start_xmit : Config → ℕ → Bytes → List ℕ → ℕ → CanFrame → System → Ret × System
unfolding virt_skb virt_deliver
virt_start_xmit cfg timestamp stack bus tx frame sys =
    let posted = record sys {
      devices = update sys.devices (tx - 1) (post_tx (sys.devices (tx - 1)));
    } in
    let (sys', skb') = virt_deliver cfg timestamp tx bus posted (virt_skb stack frame) in
    (ok 0, sys')

-- `rtcan_virt_set_mode`
unfoldable pub virt_set_mode : Device → CanMode → Ret × Device
virt_set_mode dev stop =
    (ok 0, record dev { state = CanState.stopped; tx_sem = sem_destroy ∷ dev.tx_sem })
virt_set_mode dev start =
    (ok 0, record dev { state = CanState.active; tx_sem = sem_init virt_tx_bufs ∷ dev.tx_sem })
virt_set_mode dev sleep = (err eopnotsupp, dev)

-- What `rtcan_virt_init_one` puts into a device: two functions, and no other.
abbrev pub virt_ops : Config → ℕ → Bytes → List ℕ → DeviceOps
virt_ops cfg timestamp stack bus = record {
  hard_start_xmit = virt_start_xmit cfg timestamp stack bus;
  do_set_mode = some virt_set_mode;
  do_get_state = none;
  do_set_bit_time = none;
  do_enable_bus_err = none;
}

-- "rtcan%d"
abbrev pub rtcan_dev_name : List ℕ
rtcan_dev_name = b'r' ∷ b't' ∷ b'c' ∷ b'a' ∷ b'n' ∷ b'%' ∷ b'd' ∷ []

-- RTCAN_MAX_VIRT_DEVS
abbrev pub rtcan_max_virt_devs : ℕ
rtcan_max_virt_devs = 8

-- What the start of the module works on: the table of devices, the devices written into
-- `rtcan_virt_devs`, the latest first, and the number of devices that have memory.
pub record Loading : Type 0 where
  pub devices : Devices
  pub made : List Device
  pub allocated : ℕ

-- The devices that a failing start has made so far, given back, the latest first; their pointers
-- stay in the array. `polls` are the reference counts that the wait for the users of a device reads;
-- `none` is a wait that has not ended.
unfoldable pub virt_undo : (ℕ → List ℕ) → List Device → Loading → Option Loading
virt_undo polls [] st = some st
virt_undo polls (dev ∷ made) st = dev_unregister st.devices dev (polls dev.ifindex) >>= λ r.
    virt_undo polls made (record st { devices = r.1; allocated = dev_free st.allocated })

module _ (snprintf : List ℕ → ℕ → List ℕ) where
  -- `rtcan_virt_init_one`; `none` is a write behind the end of `rtcan_virt_devs`.
  unfoldable pub virt_init_one : Config → Bool → Loading → Option (Ret × Loading)
  virt_init_one cfg available st = elim (dev_alloc cfg available) [
    | none ↦ some (err enomem, st)
    | some dev ↦
        let stopped = (virt_set_mode dev stop).1 in
        let (ret, devs, dev') =
          dev_register snprintf cfg st.devices (record stopped { name = rtcan_dev_name }) in
        let allocated = st.allocated + 1 in
        elim ret [
          | ok n ↦
              if ltb (length st.made) rtcan_max_virt_devs
              then some
                  (ok 0, record { devices = devs; made = dev' ∷ st.made; allocated = allocated })
              else none
          | err e ↦ some (err e, record st { devices = devs; allocated = dev_free allocated })
        ]
  ]

  -- `rtcan_virt_init`, for as many more devices as the list has.
  unfoldable pub virt_init : Config → (ℕ → List ℕ) → List Bool → Loading → Option (Ret × Loading)
  unfolding virt_init_one virt_undo
  virt_init cfg polls [] st = some (ok 0, st)
  virt_init cfg polls (available ∷ rest) st = virt_init_one cfg available st >>= λ r. elim r.0 [
    | ok n ↦ virt_init cfg polls rest r.1
    | err e ↦ virt_undo polls r.1.made r.1 >>= λ st'. some (err e, st')
  ]

-- `rtcan_virt_exit`, on the indices of the devices in the order of the array; `none` is a slot
-- without a device too.
unfoldable pub virt_exit : (ℕ → List ℕ) → List ℕ → Loading → Option Loading
virt_exit polls [] st = some st
virt_exit polls (i ∷ bus) st = elim (st.devices (i - 1)) [
  | none ↦ none
  | some dev ↦
      let stopped = (virt_set_mode dev stop).1 in
      dev_unregister (put_device st.devices i stopped) stopped (polls i) >>= λ r.
      virt_exit polls bus (record st { devices = r.1; allocated = dev_free st.allocated })
]
