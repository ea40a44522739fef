-- ===== src/Mscan/Timing.antt =====
-- The bit timing registers: `rtcan_mscan_set_bit_time` of can/mscan/rtcan_mscan.c. The macros
-- BTR0_SET_* and BTR1_SET_* are those of the SJA1000.
use rtcan_bb.Base.{ℕ, ◌+◌, ◌%◌, ◌^◌, ◌≤◌, ◌<◌, ◌≡◌, arith, some}
use rtcan_bb.Rtcan.Device.{Bittime, std, BittimeStd, BittimingConst}
use rtcan_bb.BitTiming.{segments, cia_sample_point, calc_with, timed}
use rtcan_bb.BitTiming.Result.{IsController, IsUsable, calc_with-IsUsable}
use rtcan_bb.Sja1000.{Sja}
use rtcan_bb.Sja1000.Timing.{
  btr_of, sja_set_bit_time, Programmed, IsInLimits, set_bit_time-Programmed,
}
use rtcan_bb.Mscan.{MscanPort, Mscan, mscan_memory, canbtr0, canbtr1, mscan_out}

-- The limits that `rtcan_calc_bit_time` gets.
abbrev pub mscan_bittiming_const : BittimingConst
mscan_bittiming_const = record {
  tseg1_min = 4;
  tseg1_max = 16;
  tseg2_min = 2;
  tseg2_max = 8;
  sjw_max = 4;
  brp_min = 1;
  brp_max = 64;
  brp_inc = 1;
}

-- `rtcan_mscan_set_bit_time`, for the two types of bit time: it returns 0.
unfoldable pub mscan_set_bit_time : {B : Type 0} → MscanPort B → Mscan B → Bittime → Mscan B
unfolding btr_of
mscan_set_bit_time port st bit_time =
    mscan_out port (mscan_out port st canbtr0 ((btr_of bit_time).0 % 2 ^ 8)) canbtr1
      ((btr_of bit_time).1 % 2 ^ 8)

mscan-IsController : IsController mscan_bittiming_const
mscan-IsController = record {
  some_quanta = omega arith;
  tseg1_order = omega arith;
  tseg2_order = omega arith;
  few_quanta = (omega arith, omega arith);
}

-- A controller with the same bit timing registers at other addresses.
twin : Mscan (ℕ → ℕ) → Sja (ℕ → ℕ)
twin st = record {
  bus = st.bus;
  dev = st.dev;
  state_before_sleep = st.state_before_sleep;
  bus_err_on = 0;
}

mscan_set_bit_time-Programmed :
    (st : Mscan (ℕ → ℕ)) (bt : BittimeStd)
    → IsInLimits bt
    → Programmed
        ((mscan_set_bit_time mscan_memory st (std bt)).bus canbtr0)
        ((mscan_set_bit_time mscan_memory st (std bt)).bus canbtr1)
        bt
unfolding mscan_set_bit_time sja_set_bit_time
mscan_set_bit_time-Programmed st bt h =
    let (a, b, c, d, e) = (set_bit_time-Programmed (twin st) bt h).0 in
    (omega (arith, a), omega (arith, b), omega (arith, c), omega (arith, d), omega (arith, e))

-- The first segment keeps to its lower limit too: what the sample point asks for.
tseg1_least :
    (bitrate tseg : ℕ)
    → 6 ≤ tseg
    → tseg ≤ 24
    → 4 ≤ (segments mscan_bittiming_const (cia_sample_point bitrate) tseg).tseg1
unfolding segments
tseg1_least bitrate tseg h h' = ground arith

-- For a bit rate other than 0 in 32 bits: when the bit timing calculated with the limits of the
-- MSCAN succeeds, and its sampling field holds one bit, its first segment has at least four time
-- quanta and its second one at least two, and the registers that `rtcan_mscan_set_bit_time` then
-- writes give the calculated prescaler, jump width, segments and sampling back.
pub mscan_calc_with-Programmed :
    (clock bitrate : ℕ) (bt bt' : BittimeStd) (st : Mscan (ℕ → ℕ))
    → 1 ≤ bitrate
    → bitrate < 2 ^ 32
    → calc_with clock mscan_bittiming_const bitrate bt ≡ some (timed bt')
    → bt'.sam ≤ 1
    → (4 ≤ bt'.prop_seg + bt'.phase_seg1)
      × (2 ≤ bt'.phase_seg2)
      × Programmed
          ((mscan_set_bit_time mscan_memory st (std bt')).bus canbtr0)
          ((mscan_set_bit_time mscan_memory st (std bt')).bus canbtr1)
          bt'
mscan_calc_with-Programmed clock bitrate bt bt' st h h' e s =
    let u : IsUsable clock mscan_bittiming_const bitrate bt' =
      calc_with-IsUsable clock mscan_bittiming_const bitrate bt bt' mscan-IsController h h' e in
    let first : 4 ≤ bt'.prop_seg + bt'.phase_seg1 =
      omega (arith, u.split.3, tseg1_least bitrate u.split.0 u.split.1 u.split.2) in
    (
      first,
      u.tseg2_limits.0,
      mscan_set_bit_time-Programmed st bt' (
        (u.brp_limits.0, u.brp_limits.1),
        (omega (arith, u.jump), omega (arith, u.jump)),
        (omega (arith, first), u.tseg1_limit),
        (omega (arith, u.tseg2_limits.0), u.tseg2_limits.1),
        s,
      ),
    )
