-- ===== src/Registry.antt =====
-- The table of registered devices: can/rtcan_dev.c. An `int` index is its 32-bit pattern. The
-- locks are held from the look at the table to the change, so each function is one step.
pub mod Register
use rtcan_bb.Base.{
  ℕ, zero, suc, ◌+◌, ◌-◌, ◌^◌, Bool, true, false, ◌&&◌, ◌||◌, Option, none, some, List, [], ◌∷◌,
  ltb, leb, ◌==◌, if◌then◌else◌, update, ◌>>=◌,
}
use rtcan_bb.Base.Memory.{zeroed}
use rtcan_bb.Rtcan.Abi.{Errno, enomem, eexist, ebusy, Ret, ok, err, CanState, is_operating}
use rtcan_bb.Rtcan.Socket.{Config, sem_init, sem_destroy}
use rtcan_bb.Rtcan.Device.{Recv, Bittime, BittimeStd, std, Device, Devices}

-- The sign bit of an `int`.
abbrev pub is_negative : ℕ → Bool
is_negative i = leb (2 ^ 31) i

unfoldable pub reference : Device → Device
reference dev = record dev { refcount = dev.refcount + 1 }

unfoldable pub dereference : Device → Device
dereference dev = record dev { refcount = dev.refcount - 1 }

-- The device is written back to its slot.
unfoldable pub put_device : Devices → ℕ → Device → Devices
put_device devs ifindex dev = update devs (ifindex - 1) (some dev)

-- `rtcan_dev_get_by_index`; the device comes with one more reference.
unfoldable pub get_by_index : Config → Devices → ℕ → Option Device
get_by_index cfg devs ifindex =
    if is_negative ifindex || (ifindex == 0) || ltb cfg.max_devices ifindex
    then none
    else devs (ifindex - 1) >>= λ dev. some (reference dev)

-- `strncmp(a, b, n) == 0` on texts without their terminating zero.
unfoldable pub strn_eq : ℕ → List ℕ → List ℕ → Bool
strn_eq zero a b = true
strn_eq (suc n) [] [] = true
strn_eq (suc n) [] (y ∷ ys) = false
strn_eq (suc n) (x ∷ xs) [] = false
strn_eq (suc n) (x ∷ xs) (y ∷ ys) = x == y && strn_eq n xs ys

-- IFNAMSIZ
abbrev pub ifnamsiz : ℕ
ifnamsiz = 16

abbrev pub has_name : List ℕ → Option Device → Bool
has_name name none = false
has_name name (some dev) = strn_eq ifnamsiz dev.name name

-- `__rtcan_dev_get_by_name`, on `n` slots from `i` on: the slot.
unfoldable pub find_name : Devices → List ℕ → ℕ → ℕ → Option ℕ
find_name devs name i zero = none
find_name devs name i (suc n) = elim (has_name name (devs i)) [
  | true ↦ some i
  | false ↦ find_name devs name (suc i) n
]

-- `rtcan_dev_get_by_name`: the index, and the device with one more reference.
unfoldable pub get_by_name : Config → Devices → List ℕ → Option (ℕ × Device)
unfolding find_name
get_by_name cfg devs name =
    find_name devs name 0 cfg.max_devices >>= λ i. devs i >>= λ dev. some (i + 1, reference dev)

-- `__rtcan_dev_new_index`, on `n` slots from `i` on; `none` is -ENOMEM.
unfoldable pub new_index : Devices → ℕ → ℕ → Option ℕ
new_index devs i zero = none
new_index devs i (suc n) = elim (devs i) [
  | none ↦ some (i + 1)
  | some dev ↦ new_index devs (suc i) n
]

-- The entries that `rtcan_dev_alloc` strings together, all zero.
unfoldable pub fresh_entries : ℕ → List Recv
fresh_entries zero = []
fresh_entries (suc n) =
    record { can_filter = record { can_id = 0; can_mask = 0 }; match_count = 0; sock = 0 }
    ∷ fresh_entries n

-- A bit time that is all zero.
abbrev pub no_bit_time : BittimeStd
no_bit_time = record { brp = 0; prop_seg = 0; phase_seg1 = 0; phase_seg2 = 0; sjw = 0; sam = 0 }

-- `rtcan_dev_alloc`; `available` is whether `kmalloc` gives memory. What `memset` clears is zero.
unfoldable pub dev_alloc : Config → Bool → Option Device
dev_alloc cfg false = none
dev_alloc cfg true = some (record {
  name = [];
  ifindex = 0;
  refcount = 0;
  tx_sem = sem_init 0 ∷ [];
  can_sys_clock = 0;
  baudrate = 0;
  bit_time = std no_bit_time;
  bittiming_const = none;
  state = CanState.active;
  ctrl_mode = 0;
  recv_list = [];
  empty_list = fresh_entries cfg.max_receivers;
  free_entries = cfg.max_receivers;
  tx_count = 0;
  rx_count = 0;
  err_count = 0;
  tx_skb = record { rb_frame_size = 0; rb_frame = zeroed };
  tx_socket = none;
  bus_err_enabled = false;
})

-- `rtcan_dev_free`, on the number of devices that have memory: the device itself is gone.
abbrev pub dev_free : ℕ → ℕ
dev_free allocated = allocated - 1

-- `strchr(name, '%') != NULL`
unfoldable pub has_percent : List ℕ → Bool
has_percent [] = false
has_percent (c ∷ cs) = c == b'%' || has_percent cs

-- `snprintf(buf, IFNAMSIZ, mask, i)` of the kernel's library is a parameter.
module _ (snprintf : List ℕ → ℕ → List ℕ) where
  -- `rtcan_dev_alloc_name`, on `n` numbers from `i` on: the name stays if all are taken.
  unfoldable pub alloc_name : Config → Devices → Device → List ℕ → ℕ → ℕ → Device
  alloc_name cfg devs dev mask i zero = dev
  alloc_name cfg devs dev mask i (suc n) = elim (get_by_name cfg devs (snprintf mask i)) [
    | none ↦ record dev { name = snprintf mask i }
    | some found ↦ alloc_name cfg devs dev mask (suc i) n
  ]

  -- `dev->name` at the test for a name that is taken.
  unfoldable pub named : Config → Devices → Device → Device
  unfolding alloc_name has_percent
  named cfg devs dev =
      if has_percent dev.name then alloc_name cfg devs dev dev.name 0 cfg.max_devices else dev

  -- `rtcan_dev_register`: the code, the table, and the device as it was left.
  unfoldable pub dev_register : Config → Devices → Device → Ret × Devices × Device
  unfolding new_index named find_name
  dev_register cfg devs dev = elim (new_index devs 0 cfg.max_devices) [
    | none ↦ (err enomem, devs, dev)
    | some i ↦
        let dev' = named cfg devs (record dev { ifindex = i }) in
        elim (find_name devs dev'.name 0 cfg.max_devices) [
          | some taken ↦ (err eexist, devs, dev')
          | none ↦ (ok 0, put_device devs i dev', dev')
        ]
  ]

-- The wait of `rtcan_dev_unregister`: the reference counts that it reads, once a second, until one
-- is zero. The result is whether it ended.
unfoldable pub drained : List ℕ → Bool
drained [] = false
drained (refs ∷ polls) = elim (refs == 0) [ true ↦ true | false ↦ drained polls ]

-- `rtcan_dev_unregister`; `none` is a wait that has not ended.
unfoldable pub dev_unregister : Devices → Device → List ℕ → Option (Ret × Devices)
unfolding drained
dev_unregister devs dev polls =
    if is_operating dev.state
    then some (err ebusy, devs)
    else (if drained polls then some (ok 0, update devs (dev.ifindex - 1) none) else none)
