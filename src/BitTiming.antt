-- ===== src/BitTiming.antt =====
-- The bit timing of a baud rate: `can_update_spt` and `rtcan_calc_bit_time` of
-- can/rtcan_raw_dev.c, in the version without XENO_DRIVERS_CAN_CALC_BITTIME_OLD. Unsigned integers
-- have 32 bits, `long` has 64. `none` is a fault: a division by zero.
pub mod Search
pub mod Result
use rtcan_bb.Base.{
  ℕ, zero, suc, ◌+◌, ◌-◌, ◌*◌, ◌/◌, ◌%◌, ◌^◌, Bool, true, false, not, ◌&&◌, ◌||◌, Option, none,
  some, ltb, leb, ◌==◌, if◌then◌else◌, ◌>>=◌,
}
use rtcan_bb.Rtcan.Abi.{Errno, edom, enotsupp}
use rtcan_bb.Rtcan.Device.{BittimingConst, BittimeStd, Device}

abbrev pub u32 : ℕ → ℕ
u32 n = n % 2 ^ 32

abbrev pub sub32 : ℕ → ℕ → ℕ
sub32 a b = (a + 2 ^ 32 - b) % 2 ^ 32

abbrev pub clamp : ℕ → ℕ → ℕ → ℕ
clamp x lo hi = if ltb x lo then lo else (if ltb hi x then hi else x)

-- `abs(a - b)` in 64 bits.
abbrev pub distance : ℕ → ℕ → ℕ
distance a b = if ltb a b then b - a else a - b

-- A division that faults on zero.
abbrev pub div? : ℕ → ℕ → Option ℕ
div? a b = if b == 0 then none else some (a / b)

-- What `can_update_spt` computes: the two segments, and the sample point.
pub record Segments : Type 0 where
  pub tseg1 : ℕ
  pub tseg2 : ℕ

unfoldable pub segments : BittimingConst → ℕ → ℕ → Segments
segments btc sampl_pt tseg =
    let tseg2 =
      clamp (sub32 (tseg + 1) (u32 (sampl_pt * (tseg + 1)) / 1000)) btc.tseg2_min btc.tseg2_max in
    let tseg1 = sub32 tseg tseg2 in
    if ltb btc.tseg1_max tseg1
    then record { tseg1 = btc.tseg1_max; tseg2 = sub32 tseg btc.tseg1_max }
    else record { tseg1 = tseg1; tseg2 = tseg2 }

unfoldable pub sample_point : ℕ → Segments → ℕ
sample_point tseg seg = u32 (1000 * sub32 (tseg + 1) seg.tseg2) / (tseg + 1)

-- The best values so far.
pub record Best : Type 0 where
  pub rate_error : ℕ
  pub spt_error : ℕ
  pub tseg : ℕ
  pub brp : ℕ

abbrev pub no_best : Best
no_best = record { rate_error = 1000000000; spt_error = 1000; tseg = 0; brp = 0 }

-- The prescaler that a round tries, in steps that the system can do.
unfoldable pub try_brp : ℕ → BittimingConst → ℕ → ℕ → Option ℕ
try_brp clock btc bitrate tseg = div? clock (u32 ((1 + tseg / 2) * bitrate)) >>= λ quotient.
    div? (quotient + tseg % 2) btc.brp_inc >>= λ steps. some (steps * btc.brp_inc)

-- The end of a round, with the error of the bit rate: a better one forgets the sample point.
unfoldable pub compare_point : BittimingConst → ℕ → ℕ → Best → ℕ → ℕ → Best × Bool
unfolding segments sample_point
compare_point btc sampl_pt tseg best brp rate_error =
    let best' =
      (if ltb rate_error best.rate_error then record best { spt_error = 1000 } else best) in
    let spt = sample_point (tseg / 2) (segments btc sampl_pt (tseg / 2)) in
    let spt_error = distance sampl_pt spt in
    if ltb best'.spt_error spt_error then (best', false) else (
      record { rate_error = rate_error; spt_error = spt_error; tseg = tseg / 2; brp = brp },
      rate_error == 0 && spt_error == 0,
    )

-- One round of the search: the best values after it, and whether it ends the loop.
unfoldable pub round : ℕ → BittimingConst → ℕ → ℕ → ℕ → Best → Option (Best × Bool)
unfolding try_brp compare_point
round clock btc bitrate sampl_pt tseg best = try_brp clock btc bitrate tseg >>= λ brp.
    if ltb brp btc.brp_min || ltb btc.brp_max brp
    then some (best, false)
    else (div? clock (u32 (brp * (1 + tseg / 2))) >>= λ rate.
        let rate_error = distance bitrate rate in
        if ltb best.rate_error rate_error
        then some (best, false)
        else some (compare_point btc sampl_pt tseg best brp rate_error))

-- `for (tseg = …; tseg >= …; tseg--)`, with `n` rounds left, from `lo + n - 1` down to `lo`.
unfoldable pub search_tseg : ℕ → BittimingConst → ℕ → ℕ → (lo n : ℕ) → Best → Option Best
unfolding round
search_tseg clock btc bitrate sampl_pt lo zero best = some best
search_tseg clock btc bitrate sampl_pt lo (suc n) best =
    round clock btc bitrate sampl_pt (lo + n) best >>= λ r. elim r.1 [
      | true ↦ some r.0
      | false ↦ search_tseg clock btc bitrate sampl_pt lo n r.0
    ]

-- The first and the last `tseg` of the loop.
abbrev pub tseg_low : BittimingConst → ℕ
tseg_low btc = (btc.tseg1_min + btc.tseg2_min) * 2

abbrev pub tseg_high : BittimingConst → ℕ
tseg_high btc = (btc.tseg1_max + btc.tseg2_max) * 2 + 1

-- The sample points that CIA recommends, in thousandths.
abbrev pub cia_sample_point : ℕ → ℕ
cia_sample_point bitrate =
    if ltb 800000 bitrate then 750 else (if ltb 500000 bitrate then 800 else 875)

-- CAN_CALC_MAX_ERROR, in tenths of a percent.
abbrev pub can_calc_max_error : ℕ
can_calc_max_error = 50

pub data Timing : Type 0 where
  timed : BittimeStd → Timing
  failed : Errno → Timing

-- The result from the best values; `sam` keeps what the caller's record holds. The two divisions
-- whose results are only printed can fault too. The segments are stored in fields of 8 bits; `long`
-- has 64, in which the product with 1000 does not wrap, since no error exceeds 10^9.
unfoldable pub finish : ℕ → BittimingConst → ℕ → ℕ → BittimeStd → Best → Option Timing
unfolding segments
finish clock btc bitrate sampl_pt bt best =
    let seg = segments btc sampl_pt best.tseg in
    let prop_seg = seg.tseg1 / 2 % 2 ^ 8 in
    let bt' = record bt {
      prop_seg = prop_seg;
      phase_seg1 = (seg.tseg1 - prop_seg) % 2 ^ 8;
      phase_seg2 = seg.tseg2 % 2 ^ 8;
      sjw = 1;
      brp = best.brp;
    } in
    if not (best.rate_error == 0) && ltb can_calc_max_error (best.rate_error * 1000 / bitrate)
    then some (failed edom)
    else (div? (best.brp * 1000000000) clock >>= λ tq.
        div? clock (u32 (best.brp * (seg.tseg1 + seg.tseg2 + 1))) >>= λ rate. some (timed bt'))

-- The whole search with the limits of a controller.
unfoldable pub calc_with : ℕ → BittimingConst → ℕ → BittimeStd → Option Timing
unfolding search_tseg finish
calc_with clock btc bitrate bt =
    let sampl_pt = cia_sample_point bitrate in
    let rounds = tseg_high btc + 1 - tseg_low btc in
    search_tseg clock btc bitrate sampl_pt (tseg_low btc) rounds no_best >>= λ best.
    finish clock btc bitrate sampl_pt bt best

-- `rtcan_calc_bit_time`
unfoldable pub calc_bit_time : Device → ℕ → BittimeStd → Option Timing
unfolding calc_with
calc_bit_time dev bitrate bt = elim dev.bittiming_const [
  | none ↦ some (failed enotsupp)
  | some btc ↦ calc_with dev.can_sys_clock btc bitrate bt
]
