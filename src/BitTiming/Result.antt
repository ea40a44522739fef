-- ===== src/BitTiming/Result.antt =====
-- What a computed bit timing is worth: `can_update_spt` splits the time quanta within the limits,
-- and a success has an error of the bit rate below the bound.
use rtcan_bb.Base.{
  ℕ, zero, suc, ◌+◌, ◌-◌, ◌*◌, ◌/◌, ◌%◌, ◌^◌, ◌≤◌, ◌<◌, ◌≡◌, refl, sym, ◌∙◌, subst, false, not,
  ◌&&◌, Option, none, some, arith, ◌⊎◌, inl, inr, ltb, ◌==◌,
}
use rtcan_bb.Rtcan.Device.{BittimingConst, BittimeStd}
use rtcan_bb.BitTiming.{
  Segments, segments, u32, distance, div?, Best, no_best, search_tseg, tseg_low, tseg_high,
  cia_sample_point, can_calc_max_error, Timing, timed, failed, finish, calc_with,
}
use native.Mathlib.Nat.{div-add-mod, mod-lt, zero-div}
use rtcan_bb.Base.Partial.{Post, Post-bind, Post-if, Post-some}
use rtcan_bb.BitTiming.Search.{IsSearch, search_tseg-IsSearch}

-- The limits of a controller make sense.
pub record IsController (btc : BittimingConst) : Type 0 where
  pub some_quanta : 1 ≤ btc.tseg1_min + btc.tseg2_min
  pub tseg1_order : btc.tseg1_min ≤ btc.tseg1_max
  pub tseg2_order : btc.tseg2_min ≤ btc.tseg2_max
  pub few_quanta : (btc.tseg1_max < 2 ^ 8) × (btc.tseg2_max < 2 ^ 8)

-- The split of `tseg` time quanta.
abbrev pub IsSplit : BittimingConst → ℕ → Segments → Type 0
IsSplit btc tseg seg =
    (seg.tseg1 + seg.tseg2 ≡ tseg)
    × (seg.tseg1 ≤ btc.tseg1_max)
    × (btc.tseg2_min ≤ seg.tseg2)
    × (seg.tseg2 ≤ btc.tseg2_max)

pub segments-IsSplit :
    (btc : BittimingConst) (sampl_pt tseg : ℕ)
    → IsController btc
    → 1 ≤ u32 (sampl_pt * (tseg + 1)) / 1000
    → u32 (sampl_pt * (tseg + 1)) / 1000 ≤ tseg
    → btc.tseg1_min + btc.tseg2_min ≤ tseg
    → tseg ≤ btc.tseg1_max + btc.tseg2_max
    → IsSplit btc tseg (segments btc sampl_pt tseg)
unfolding segments
segments-IsSplit btc sampl_pt tseg c p p' h h' =
    (ground arith, ground arith, ground arith, ground arith)

cia-IsSplit :
    (btc : BittimingConst) (bitrate tseg : ℕ)
    → IsController btc
    → btc.tseg1_min + btc.tseg2_min ≤ tseg
    → tseg ≤ btc.tseg1_max + btc.tseg2_max
    → IsSplit btc tseg (segments btc (cia_sample_point bitrate) tseg)
cia-IsSplit btc bitrate tseg c h h' =
    segments-IsSplit btc (cia_sample_point bitrate) tseg c low high h h'
  where
    quanta : (1 ≤ tseg) × (tseg < 2 ^ 20)
    quanta = (omega (arith, c.some_quanta), omega (arith, c.few_quanta))

    low : 1 ≤ u32 (cia_sample_point bitrate * (tseg + 1)) / 1000
    low = ground (arith, quanta)

    high : u32 (cia_sample_point bitrate * (tseg + 1)) / 1000 ≤ tseg
    high = ground (arith, quanta)

-- What a success of the last step says.
module _ (clock : ℕ) (btc : BittimingConst) (bitrate sampl_pt : ℕ) (bt : BittimeStd)
    (best : Best) where
  record IsFinished (bt' : BittimeStd) : Type 0 where
    pub small_error : (best.rate_error ≡ 0) ⊎ (best.rate_error * 1000 / bitrate ≤ 50)
    pub prescaler : bt'.brp ≡ best.brp
    pub quanta1 :
        (segments btc sampl_pt best.tseg).tseg1 < 2 ^ 8
        → bt'.prop_seg + bt'.phase_seg1 ≡ (segments btc sampl_pt best.tseg).tseg1
    pub quanta2 : bt'.phase_seg2 ≡ (segments btc sampl_pt best.tseg).tseg2 % 2 ^ 8
    pub jump : bt'.sjw ≡ 1
    pub sampling : bt'.sam ≡ bt.sam

  abbrev Finished : Timing → Type 0
  Finished (failed e) = Unit
  Finished (timed bt') = IsFinished bt'

  abbrev result : BittimeStd
  result =
      let seg = segments btc sampl_pt best.tseg in
      record bt {
        prop_seg = seg.tseg1 / 2 % 2 ^ 8;
        phase_seg1 = (seg.tseg1 - seg.tseg1 / 2 % 2 ^ 8) % 2 ^ 8;
        phase_seg2 = seg.tseg2 % 2 ^ 8;
        sjw = 1;
        brp = best.brp;
      }

  finish-Finished : Post Finished (finish clock btc bitrate sampl_pt bt best)
  unfolding finish
  finish-Finished =
      Post-if Finished
        (not (best.rate_error == 0) && ltb can_calc_max_error (best.rate_error * 1000 / bitrate)) _
        _ (λ large. tt)
        (λ small. Post-bind Finished (div? (best.brp * 1000000000) clock) _ (λ tq e.
          Post-bind Finished
            (div? clock (
              u32 (
                best.brp
                * ((segments btc sampl_pt best.tseg).tseg1
                    + (segments btc sampl_pt best.tseg).tseg2
                    + 1))))
            (λ rate. some (timed result)) (λ rate e'. finished small)))
    where
      is_small : (a b : ℕ) → (not (a == 0) && ltb can_calc_max_error b) ≡ false → (a ≡ 0) ⊎ (b ≤ 50)
      is_small zero b h = inl refl
      is_small (suc a) b h = inr (ground arith)

      finished :
          (not (best.rate_error == 0) && ltb can_calc_max_error (best.rate_error * 1000 / bitrate))
            ≡ false
          → IsFinished result
      finished small = record {
        small_error = is_small best.rate_error (best.rate_error * 1000 / bitrate) small;
        prescaler = refl;
        quanta1 = λ few. omega (arith, few);
        quanta2 = refl;
        jump = refl;
        sampling = refl;
      }

-- A bit timing that a controller can take for a bit rate: its prescaler is a step within the
-- limits, its time quanta keep to the limits and are split at the sample point, the jump width is
-- 1, and the clock gives the bit rate up to 5 %.
pub record IsUsable (clock : ℕ) (btc : BittimingConst) (bitrate : ℕ) (bt : BittimeStd)
    : Type 0 where
  pub brp_limits : (btc.brp_min ≤ bt.brp) × (bt.brp ≤ btc.brp_max)
  pub brp_step : (k : ℕ) × (bt.brp ≡ k * btc.brp_inc)
  pub all_quanta : btc.tseg1_min + btc.tseg2_min ≤ bt.prop_seg + bt.phase_seg1 + bt.phase_seg2
  pub tseg1_limit : bt.prop_seg + bt.phase_seg1 ≤ btc.tseg1_max
  pub tseg2_limits : (btc.tseg2_min ≤ bt.phase_seg2) × (bt.phase_seg2 ≤ btc.tseg2_max)
  pub jump : bt.sjw ≡ 1
  pub split :
      (tseg : ℕ) × (btc.tseg1_min + btc.tseg2_min ≤ tseg)
      × (tseg ≤ btc.tseg1_max + btc.tseg2_max)
      × (bt.prop_seg + bt.phase_seg1 ≡ (segments btc (cia_sample_point bitrate) tseg).tseg1)
  pub rate_known :
      (rate : ℕ) × (div? clock (u32 (bt.brp * (1 + (bt.prop_seg + bt.phase_seg1 + bt.phase_seg2))))
        ≡ some rate)
      × (distance bitrate rate * 1000 / bitrate ≤ 50)

too_large : (bitrate : ℕ) → 1 ≤ bitrate → bitrate < 2 ^ 32 → (1000000000 * 1000 / bitrate ≤ 50) → ⊥
too_large bitrate h h' q =
    grind (arith, div-add-mod 1000000000000 bitrate, mod-lt 1000000000000 {m = bitrate} h)

usable :
    (clock : ℕ) (btc : BittimingConst) (bitrate : ℕ) (bt bt' : BittimeStd) (best : Best)
    → IsController btc
    → 1 ≤ bitrate
    → bitrate < 2 ^ 32
    → IsSearch clock btc bitrate (cia_sample_point bitrate) best
    → IsFinished clock btc bitrate (cia_sample_point bitrate) bt best bt'
    → IsUsable clock btc bitrate bt'
usable clock btc bitrate bt bt' best c h h' (inl unknown) f = absurd (no_result f.small_error)
  where
    no_result : (best.rate_error ≡ 0) ⊎ (best.rate_error * 1000 / bitrate ≤ 50) → ⊥
    no_result (inl e) = omega arith
    no_result (inr q) =
        too_large bitrate h h' (subst (λ (n : ℕ). n * 1000 / bitrate ≤ 50) unknown q)
usable clock btc bitrate bt bt' best c h h' (inr found) f = record {
  brp_limits = (omega arith, omega arith);
  brp_step = (found.brp_step.0, f.prescaler ∙ found.brp_step.1);
  all_quanta = omega (arith, quanta);
  tseg1_limit = omega (arith, split, first);
  tseg2_limits = (omega (arith, split, second), omega (arith, split, second));
  jump = f.jump;
  split = (best.tseg, found.tseg_limits.0, found.tseg_limits.1, first);
  rate_known = (
    found.known.0,
    subst (λ (n : ℕ). div? clock (u32 n) ≡ some found.known.0) product found.known.1,
    bounded f.small_error,
  );
}
  where
    split : IsSplit btc best.tseg (segments btc (cia_sample_point bitrate) best.tseg)
    split = cia-IsSplit btc bitrate best.tseg c found.tseg_limits.0 found.tseg_limits.1

    first :
        bt'.prop_seg + bt'.phase_seg1 ≡ (segments btc (cia_sample_point bitrate) best.tseg).tseg1
    first = f.quanta1 (omega (arith, split, c.few_quanta))

    second : bt'.phase_seg2 ≡ (segments btc (cia_sample_point bitrate) best.tseg).tseg2
    second = omega (arith, f.quanta2, split, c.few_quanta)

    quanta : bt'.prop_seg + bt'.phase_seg1 + bt'.phase_seg2 ≡ best.tseg
    quanta = omega (arith, first, second, split.0)

    product :
        best.brp * (1 + best.tseg)
        ≡ bt'.brp * (1 + (bt'.prop_seg + bt'.phase_seg1 + bt'.phase_seg2))
    product = cc (f.prescaler, quanta)

    bounded :
        (best.rate_error ≡ 0) ⊎ (best.rate_error * 1000 / bitrate ≤ 50)
        → distance bitrate found.known.0 * 1000 / bitrate ≤ 50
    bounded (inl e) =
        subst (λ (n : ℕ). n * 1000 / bitrate ≤ 50) (sym e ∙ found.known.2)
          (omega (arith, zero-div bitrate))
    bounded (inr q) = subst (λ (n : ℕ). n * 1000 / bitrate ≤ 50) found.known.2 q

abbrev Usable : ℕ → BittimingConst → ℕ → Timing → Type 0
Usable clock btc bitrate (failed x) = Unit
Usable clock btc bitrate (timed x) = IsUsable clock btc bitrate x

map_timing :
    {P Q : Timing → Type 0} (m : Option Timing) → ((t : Timing) → P t → Q t) → Post P m → Post Q m
map_timing none f p = tt
map_timing (some t) f p = f t p

finish-Usable :
    (clock : ℕ) (btc : BittimingConst) (bitrate : ℕ) (bt : BittimeStd) (best : Best)
    → IsController btc
    → 1 ≤ bitrate
    → bitrate < 2 ^ 32
    → IsSearch clock btc bitrate (cia_sample_point bitrate) best
    → Post (Usable clock btc bitrate) (finish clock btc bitrate (cia_sample_point bitrate) bt best)
finish-Usable clock btc bitrate bt best c h h' s =
    map_timing {P = Finished clock btc bitrate (cia_sample_point bitrate) bt best} _ each
      (finish-Finished clock btc bitrate (cia_sample_point bitrate) bt best)
  where
    each :
        (t : Timing)
        → Finished clock btc bitrate (cia_sample_point bitrate) bt best t
        → Usable clock btc bitrate t
    each (failed x) f = tt
    each (timed x) f = usable clock btc bitrate bt x best c h h' s f

pub calc_with-IsUsable :
    (clock : ℕ) (btc : BittimingConst) (bitrate : ℕ) (bt bt' : BittimeStd)
    → IsController btc
    → 1 ≤ bitrate
    → bitrate < 2 ^ 32
    → calc_with clock btc bitrate bt ≡ some (timed bt')
    → IsUsable clock btc bitrate bt'
unfolding calc_with
calc_with-IsUsable clock btc bitrate bt bt' c h h' e =
    let sampl_pt : ℕ = cia_sample_point bitrate in
    let rounds : ℕ = tseg_high btc + 1 - tseg_low btc in
    Post-some (Usable clock btc bitrate) (calc_with clock btc bitrate bt) (timed bt')
      (Post-bind (Usable clock btc bitrate)
        (search_tseg clock btc bitrate sampl_pt (tseg_low btc) rounds no_best) _
        (λ best searched. finish-Usable clock btc bitrate bt best c h h' (
          Post-some (IsSearch clock btc bitrate sampl_pt) _ best
            (search_tseg-IsSearch clock btc bitrate sampl_pt rounds no_best
              (omega (arith, c.tseg1_order, c.tseg2_order)) (inl refl))
            searched)))
      e
