-- ===== src/BitTiming/Search.antt =====
-- The search for a prescaler and a number of time quanta keeps to the limits of the controller, and
-- knows the error of what it has found.
use rtcan_bb.Base.{
  ℕ, zero, suc, ◌+◌, ◌*◌, ◌/◌, ◌%◌, ◌≤◌, ◌≡◌, refl, Bool, true, false, ◌||◌, Option, some, arith,
  ◌⊎◌, inl, inr, ltb, if◌then◌else◌,
}
use rtcan_bb.Base.Partial.{Post, Post-bind, Post-if, Post-some}
use rtcan_bb.Rtcan.Device.{BittimingConst}
use rtcan_bb.BitTiming.{
  segments, sample_point, u32, distance, div?, Best, try_brp, compare_point, round, search_tseg,
  tseg_low, tseg_high,
}

module _ (clock : ℕ) (btc : BittimingConst) (bitrate sampl_pt : ℕ) where
  -- Values that a round has found.
  pub record IsFound (best : Best) : Type 0 where
    pub brp_limits : (btc.brp_min ≤ best.brp) × (best.brp ≤ btc.brp_max)
    pub brp_step : (k : ℕ) × (best.brp ≡ k * btc.brp_inc)
    pub tseg_limits :
        (btc.tseg1_min + btc.tseg2_min ≤ best.tseg) × (best.tseg ≤ btc.tseg1_max + btc.tseg2_max)
    pub known :
        (rate : ℕ) × (div? clock (u32 (best.brp * (1 + best.tseg))) ≡ some rate)
        × (best.rate_error ≡ distance bitrate rate)

  -- Nothing has been found, or something has.
  abbrev pub IsSearch : Best → Type 0
  IsSearch best = (best.rate_error ≡ 1000000000) ⊎ IsFound best

  abbrev IsStep : ℕ → Type 0
  IsStep brp = (k : ℕ) × (brp ≡ k * btc.brp_inc)

  try_brp-IsStep : (tseg : ℕ) → Post IsStep (try_brp clock btc bitrate tseg)
  unfolding try_brp
  try_brp-IsStep tseg =
      Post-bind IsStep (div? clock (u32 ((1 + tseg / 2) * bitrate))) _
        (λ q e. Post-bind IsStep (div? (q + tseg % 2) btc.brp_inc) _ (λ steps e'. (steps, refl)))

  either :
      (b : Bool) (x y : Best × Bool) → IsSearch x.0 → IsSearch y.0 → IsSearch (if b then x else y).0
  either true x y p q = p
  either false x y p q = q

  -- Forgetting the sample point's error.
  reset :
      (b : Bool) (best : Best)
      → IsSearch best
      → IsSearch (if b then record best { spt_error = 1000 } else best)
  reset true best (inl n) = inl n
  reset true best (inr f) = inr (record {
    brp_limits = f.brp_limits;
    brp_step = f.brp_step;
    tseg_limits = f.tseg_limits;
    known = f.known;
  })
  reset false best s = s

  compare_point-IsSearch :
      (tseg brp rate rate_error : ℕ) (best : Best)
      → (btc.brp_min ≤ brp) × (brp ≤ btc.brp_max)
      → (k : ℕ) × (brp ≡ k * btc.brp_inc)
      → (btc.tseg1_min + btc.tseg2_min ≤ tseg / 2) × (tseg / 2 ≤ btc.tseg1_max + btc.tseg2_max)
      → div? clock (u32 (brp * (1 + tseg / 2))) ≡ some rate
      → rate_error ≡ distance bitrate rate
      → IsSearch best
      → IsSearch (compare_point btc sampl_pt tseg best brp rate_error).0
  unfolding compare_point
  compare_point-IsSearch tseg brp rate rate_error best limits step quanta e d s =
      let forgotten : Best =
        (if ltb rate_error best.rate_error then record best { spt_error = 1000 } else best) in
      let spt_error : ℕ =
        distance sampl_pt (sample_point (tseg / 2) (segments btc sampl_pt (tseg / 2))) in
      either (ltb forgotten.spt_error spt_error) _ _ (reset (ltb rate_error best.rate_error) best s)
        (inr (record {
          brp_limits = limits;
          brp_step = step;
          tseg_limits = quanta;
          known = (rate, e, d);
        }))

  -- A round keeps what is known.
  abbrev Kept : Best × Bool → Type 0
  Kept r = IsSearch r.0

  round-IsSearch :
      (tseg : ℕ) (best : Best)
      → (btc.tseg1_min + btc.tseg2_min ≤ tseg / 2) × (tseg / 2 ≤ btc.tseg1_max + btc.tseg2_max)
      → IsSearch best
      → Post Kept (round clock btc bitrate sampl_pt tseg best)
  unfolding round
  round-IsSearch tseg best quanta s =
      Post-bind Kept (try_brp clock btc bitrate tseg) _ (λ brp tried.
        Post-if Kept (ltb brp btc.brp_min || ltb btc.brp_max brp) _ _ (λ out. s)
          (λ limits. Post-bind Kept (div? clock (u32 (brp * (1 + tseg / 2)))) _ (λ rate e.
            Post-if Kept (ltb best.rate_error (distance bitrate rate)) _ _ (λ worse. s)
              (λ better.
                compare_point-IsSearch tseg brp rate (distance bitrate rate) best
                  (ground arith, ground arith)
                  (Post-some IsStep (try_brp clock btc bitrate tseg) brp (try_brp-IsStep tseg)
                    tried)
                  quanta e refl s))))

  ends :
      (b : Bool) (best : Best) (rest : Option Best)
      → IsSearch best
      → Post IsSearch rest
      → Post IsSearch (elim b [ true ↦ some best | false ↦ rest ])
  ends true best rest s p = s
  ends false best rest s p = p

  -- And so does the whole search, over values of `tseg` that fit the controller.
  pub search_tseg-IsSearch :
      (n : ℕ) (best : Best)
      → tseg_low btc + n ≤ tseg_high btc + 1
      → IsSearch best
      → Post IsSearch (search_tseg clock btc bitrate sampl_pt (tseg_low btc) n best)
  unfolding search_tseg
  search_tseg-IsSearch zero best h s = s
  search_tseg-IsSearch (suc n) best h s =
      Post-bind IsSearch (round clock btc bitrate sampl_pt (tseg_low btc + n) best) _
        (λ r e. ends r.1 r.0 _ (kept r e) (search_tseg-IsSearch n r.0 (omega arith) (kept r e)))
    where
      kept :
          (r : Best × Bool)
          → round clock btc bitrate sampl_pt (tseg_low btc + n) best ≡ some r
          → IsSearch r.0
      kept r e =
          Post-some Kept (round clock btc bitrate sampl_pt (tseg_low btc + n) best) r
            (round-IsSearch (tseg_low btc + n) best (omega arith, omega arith) s) e
