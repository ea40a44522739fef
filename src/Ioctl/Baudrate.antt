-- ===== src/Ioctl/Baudrate.antt =====
-- Requests that change a device (can/rtcan_raw_dev.c): how a running controller is treated.
use rtcan_bb.Base.{◌≡◌, refl, true, ◌&&◌, some, arith, ◌==◌}
use rtcan_bb.Base.Partial.{Post, Post-bind, Post-if, Post-some}
use rtcan_bb.Rtcan.Abi.{Ret, ok, err, CanMode, stop, start, is_operating}
use rtcan_bb.Rtcan.Device.{Bittime, Device}
use rtcan_bb.System.{DeviceOps}
use rtcan_bb.Ioctl.{
  SetRequest, call_set_mode, refresh, stops, restart, stopped_set, apply_set, locked_set,
}

-- The last call to the driver has been a start.
abbrev pub IsStarted : (Device → CanMode → Ret × Device) → Ret × Device → Type 0
IsStarted set_mode r = (d : Device) × (r.1 ≡ (set_mode d start).1)

module _ (ops : DeviceOps) (set_mode : Device → CanMode → Ret × Device)
    (there : ops.do_set_mode ≡ some set_mode) where
  restart_lem : (r : Ret × Device) → restart ops r ≡ some (r.0, (set_mode r.1 start).1)
  unfolding restart
  restart_lem r = rw there refl

  restart-IsStarted : (r : Ret × Device) → Post (IsStarted set_mode) (restart ops r)
  restart-IsStarted r = rw (restart_lem r) (r.1, refl)

  stopped_set-IsStarted :
      (computed : Bittime) (request : SetRequest) (r : Ret × Device)
      → Post (IsStarted set_mode) (stopped_set ops computed request r)
  unfolding stopped_set
  stopped_set-IsStarted computed request (err e, dev) = restart-IsStarted (err e, dev)
  stopped_set-IsStarted computed request (ok n, dev) =
      Post-if (IsStarted set_mode) (n == 0) _ _
        (λ zero_returned.
          Post-bind (IsStarted set_mode) (apply_set ops computed dev request) _
            (λ r e. restart-IsStarted r))
        (λ other. restart-IsStarted (ok n, dev))

  -- For a driver that can set modes, a request that changes the bit rate, the bit timing or the
  -- control mode of a running controller, and that returns, leaves the controller with a start as
  -- the last thing done, whichever code it returns: also when the stop or the change has failed.
  pub locked_set-IsStarted :
      (computed : Bittime) (dev : Device) (request : SetRequest) (r : Ret × Device)
      → stops request ≡ true
      → is_operating (refresh ops dev).state ≡ true
      → locked_set ops computed dev request ≡ some r
      → IsStarted set_mode r
  unfolding locked_set
  locked_set-IsStarted computed dev request r s o = Post-some (IsStarted set_mode) _ r (
      Post-if (IsStarted set_mode) (stops request && is_operating (refresh ops dev).state) _ _
        (λ running.
          Post-bind (IsStarted set_mode) (call_set_mode ops (refresh ops dev) stop) _
            (λ q e. stopped_set-IsStarted computed request q))
        (λ idle. absurd (ground (arith, s, o, idle))))
