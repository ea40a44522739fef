-- ===== src/Mscan/Frames/Data.antt =====
-- The data bytes in the message buffers of the MSCAN: two bytes, then two others that are skipped.
use rtcan_bb.Base.{
  ℕ, zero, suc, ◌+◌, ◌-◌, ◌%◌, ◌^◌, ◌≤◌, ◌<◌, ◌≡◌, refl, ap, ◌∙◌, subst, ◌&&◌, arith, ltb, leb,
  if◌then◌else◌, update, ◌⊎◌, inl, inr,
}
use rtcan_bb.Base.Memory.{Bytes, put_byte}
use rtcan_bb.Mscan.{mscan_memory, dsr_of, canrxfg, cantxfg}
use rtcan_bb.Mscan.Frames.{mscan_read_data, mscan_write_data}

-- What stands before the first byte that is written, or behind the last one, is kept.
pub write_data-before :
    (i n : ℕ) (payload : Bytes) (bus : ℕ → ℕ) (r : ℕ)
    → r < dsr_of cantxfg i
    → mscan_write_data mscan_memory i n payload bus r ≡ bus r
unfolding mscan_write_data
write_data-before i zero payload bus r h = refl
write_data-before i (suc n) payload bus r h =
    write_data-before (suc i) n payload (update bus (dsr_of cantxfg i) (payload i % 2 ^ 8)) r
      (omega arith)
    ∙ ground arith

pub write_data-after :
    (i n : ℕ) (payload : Bytes) (bus : ℕ → ℕ) (r : ℕ)
    → dsr_of cantxfg (i + n) ≤ r
    → mscan_write_data mscan_memory i n payload bus r ≡ bus r
unfolding mscan_write_data
write_data-after i zero payload bus r h = refl
write_data-after i (suc n) payload bus r h =
    write_data-after (suc i) n payload (update bus (dsr_of cantxfg i) (payload i % 2 ^ 8)) r
      (omega arith)
    ∙ ground arith

pub write_data-there :
    (i n : ℕ) (payload : Bytes) (bus : ℕ → ℕ) (k : ℕ)
    → i ≤ k
    → k < i + n
    → mscan_write_data mscan_memory i n payload bus (dsr_of cantxfg k) ≡ payload k % 2 ^ 8
unfolding mscan_write_data
write_data-there i zero payload bus k h h' = absurd (omega arith)
write_data-there i (suc n) payload bus k h h' = elim (first i k h) [
  | inl e ↦
      subst
        (λ (j : ℕ).
          mscan_write_data mscan_memory (suc i) n payload
            (update bus (dsr_of cantxfg i) (payload i % 2 ^ 8)) (dsr_of cantxfg j)
          ≡ payload j % 2 ^ 8)
        e
        (write_data-before (suc i) n payload (update bus (dsr_of cantxfg i) (payload i % 2 ^ 8))
            (dsr_of cantxfg i) (omega arith)
          ∙ ground arith)
  | inr l ↦ write_data-there (suc i) n payload _ k l (omega arith)
]
  where
    first : (i k : ℕ) → i ≤ k → (i ≡ k) ⊎ (suc i ≤ k)
    first i k h = ground arith

pub mscan_read_data_lem :
    (i n : ℕ) (frame : Bytes) (bus : ℕ → ℕ)
    → ((mscan_read_data mscan_memory i n frame bus).1 ≡ bus)
      × ((p : ℕ)
          → (mscan_read_data mscan_memory i n frame bus).0 p ≡ (
              if leb (6 + i) p && ltb p (6 + i + n) then bus (dsr_of canrxfg (p - 6)) else frame p))
unfolding mscan_read_data
mscan_read_data_lem i zero frame bus = (refl, λ p. ground arith)
mscan_read_data_lem i (suc n) frame bus =
    let rest =
      mscan_read_data_lem (suc i) n (put_byte frame (6 + i) (bus (dsr_of canrxfg i))) bus in
    (rest.0, λ p. rest.1 p ∙ ground (arith, found p))
  where
    found : (p : ℕ) → p ≡ 6 + i → bus (dsr_of canrxfg (p - 6)) ≡ bus (dsr_of canrxfg i)
    found p e = ap (λ (x : ℕ). bus (dsr_of canrxfg x)) (omega arith)
