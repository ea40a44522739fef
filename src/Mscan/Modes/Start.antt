-- ===== src/Mscan/Modes/Start.antt =====
-- The wait of `rtcan_mscan_mode_start` (can/mscan/rtcan_mscan.c), which has no bound of its own.
use rtcan_bb.Base.{ℕ, zero, suc, Bool}
use rtcan_bb.Mscan.{MscanPort, Mscan}
use rtcan_bb.Mscan.Modes.{mscan_is_inactive}

module _ {B : Type 0} (port : MscanPort B) (nap : Mscan B → Mscan B) where
  -- The device at test `i` of the loop, whether the chip still shows one of its modes of rest, and
  -- the device after that test.
  unfoldable pub at_try : ℕ → Mscan B → Mscan B
  at_try zero st = st
  at_try (suc i) st = at_try i (nap (mscan_is_inactive port st).1)

  abbrev pub rests : Mscan B → Bool
  rests st = (mscan_is_inactive port st).0

  abbrev pub after_try : ℕ → Mscan B → Mscan B
  after_try i st = (mscan_is_inactive port (at_try i st)).1
