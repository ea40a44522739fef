-- ===== src/Tests/Control.antt =====
-- The theorems on devices at concrete controllers.
use rtcan_bb.Base.{ℕ, ◌+◌, ◌≡◌, refl, none, some, List, [], ◌∷◌, ◌⊎◌}
use rtcan_bb.Rtcan.Abi.{enomem, eexist, Ret, ok, err, CanState}
use rtcan_bb.Rtcan.Socket.{Sockets, sem_init, sem_destroy}
use rtcan_bb.Rtcan.Device.{BittimingConst, BittimeStd, Bittime, std, Device}
use rtcan_bb.System.{DeviceOps}
use rtcan_bb.Registry.{dev_register}
use rtcan_bb.Registry.Register.{IsRegistration, dev_register_lem}
use rtcan_bb.Ioctl.{scanbaudrate, locked_set}
use rtcan_bb.Ioctl.Baudrate.{IsStarted, locked_set-IsStarted}
use rtcan_bb.Receive.{rcv, loopback}
use rtcan_bb.Receive.Delivery.{IsDelivery, rcv-IsDelivery, loopback-IsDelivery}
use rtcan_bb.Virt.{virt_set_mode, rtcan_dev_name}
use rtcan_bb.Tests.{config, bound_socket, used_device, free_device, one_device, skb}

-- The limits of an SJA1000, at 8 MHz.
abbrev limits : BittimingConst
limits = record {
  tseg1_min = 1;
  tseg1_max = 16;
  tseg2_min = 1;
  tseg2_max = 8;
  sjw_max = 4;
  brp_min = 1;
  brp_max = 64;
  brp_inc = 1;
}

abbrev no_timing : BittimeStd
no_timing = record { brp = 0; prop_seg = 0; phase_seg1 = 0; phase_seg2 = 0; sjw = 0; sam = 0 }

abbrev timing : BittimeStd
timing = record { brp = 1; prop_seg = 6; phase_seg1 = 7; phase_seg2 = 2; sjw = 1; sam = 0 }

-- A driver that accepts every bit timing.
abbrev accept_timing : Device → Bittime → Ret × Device
accept_timing dev bt = (ok 0, dev)

abbrev driver : DeviceOps
driver = record {
  hard_start_xmit = λ s f sys. (ok 0, sys);
  do_set_mode = some virt_set_mode;
  do_get_state = none;
  do_set_bit_time = some accept_timing;
  do_enable_bus_err = none;
}

abbrev running : Device
running = record used_device { state = CanState.active }

abbrev request_result : Ret × Device
request_result = (
  ok 0,
  record running {
    state = CanState.active;
    baudrate = 500000;
    bit_time = std timing;
    tx_sem = sem_init 1 ∷ sem_destroy ∷ [];
  },
)

locked_set-IsStarted_example : IsStarted virt_set_mode request_result
unfolding locked_set virt_set_mode
locked_set-IsStarted_example =
    locked_set-IsStarted driver virt_set_mode refl (std timing) running (scanbaudrate 500000)
      request_result refl refl refl

abbrev sockets : Sockets
sockets s = bound_socket

rcv-IsDelivery_example :
    IsDelivery config used_device
      (rcv config 99 used_device sockets skb).0
      sockets
      (rcv config 99 used_device sockets skb).1
rcv-IsDelivery_example = rcv-IsDelivery config 99 used_device sockets skb

loopback-IsDelivery_example :
    IsDelivery config used_device
      (loopback config 99 used_device sockets).0
      sockets
      (loopback config 99 used_device sockets).1
    × ((loopback config 99 used_device sockets).1 5 ≡ sockets 5)
    × ((loopback config 99 used_device sockets).0.tx_socket ≡ none)
loopback-IsDelivery_example = loopback-IsDelivery config 99 used_device sockets 5 refl

-- "rtcan0", "rtcan1", …
abbrev print_name : List ℕ → ℕ → List ℕ
print_name mask i = b'r' ∷ b't' ∷ b'c' ∷ b'a' ∷ b'n' ∷ (48 + i) ∷ []

dev_register_lem_example :
    let r =
      dev_register print_name config
        (one_device used_device)
        (record free_device { name = rtcan_dev_name }) in
    ((r.0 ≡ ok 0) × IsRegistration config (one_device used_device) r.1 r.2)
    ⊎ (((r.0 ≡ err enomem) ⊎ (r.0 ≡ err eexist)) × (r.1 ≡ one_device used_device))
dev_register_lem_example =
    dev_register_lem print_name config (one_device used_device)
      (record free_device { name = rtcan_dev_name })
