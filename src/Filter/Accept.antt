-- ===== src/Filter/Accept.antt =====
-- What a mounted filter accepts.
use rtcan_bb.Base.{
  ℕ, ◌/◌, ◌%◌, ◌^◌, ◌≤◌, ◌<◌, bit_and, bit_or, ◌≡◌, refl, ap, ◌∙◌, sym, true, not, ◌==◌, arith,
}
use rtcan_bb.Base.Bits.{
  bit_and_mask, bit_and_power, bit_and_step, zero-bit_and, bit_and-div, bit_and-bit_or,
  bit_and-bit_or_low, bit_and-mod_low, bit_or_low,
}
use rtcan_bb.Rtcan.Abi.{Filter, can_inv_filter, not_can_inv_filter}
use rtcan_bb.Filter.{accept_msg, mount_filter}

-- The filter with the inversion bit set in its identifier.
abbrev pub inverted : Filter → Filter
inverted f = record f { can_id = bit_or f.can_id can_inv_filter }

low_bit_clear : (x : ℕ) → x < 2 ^ 31 → bit_and x can_inv_filter ≡ 0
low_bit_clear x h = omega (arith, bit_and_power 31 x)

masked_clear : (m : ℕ) → bit_and (bit_and m not_can_inv_filter) can_inv_filter ≡ 0
masked_clear m = low_bit_clear _ (omega (arith, bit_and_mask 31 m))

-- The mask that a plain filter is mounted with, and the one of an inverted filter.
abbrev plain_mask : Filter → ℕ
plain_mask f = bit_and f.can_mask not_can_inv_filter

abbrev inverted_mask : Filter → ℕ
inverted_mask f = bit_or f.can_mask can_inv_filter

accept-mount_plain :
    (can_id : ℕ) (f : Filter)
    → f.can_id < 2 ^ 31
    → accept_msg can_id (mount_filter f)
      ≡ (bit_and can_id (plain_mask f) == bit_and f.can_id (plain_mask f))
unfolding accept_msg mount_filter
accept-mount_plain can_id f h = rw (low_bit_clear f.can_id h) (rw (masked_clear f.can_mask) refl)

inverted_set : (f : Filter) → bit_and (inverted f).can_id can_inv_filter ≡ 2 ^ 31
inverted_set f = bit_and-bit_or 31 f.can_id

inverted_cleared :
    (f : Filter) → f.can_id < 2 ^ 31 → bit_and (inverted f).can_id not_can_inv_filter ≡ f.can_id
inverted_cleared f h = omega (arith, bit_and_mask 31 (inverted f).can_id, bit_or_low 31 f.can_id h)

accept-mount_inverted :
    (can_id : ℕ) (f : Filter)
    → f.can_id < 2 ^ 31
    → accept_msg can_id (mount_filter (inverted f))
      ≡ not (bit_and can_id (inverted_mask f) == bit_and f.can_id (inverted_mask f))
unfolding accept_msg mount_filter
accept-mount_inverted can_id f h =
    rw (inverted_set f) (rw (bit_and-bit_or 31 f.can_mask) (rw (inverted_cleared f h) refl))

same_low :
    (x m : ℕ)
    → x < 2 ^ 31
    → bit_and x (bit_or m can_inv_filter) ≡ bit_and x (bit_and m not_can_inv_filter)
same_low x m h =
    bit_and-bit_or_low 31 x m h
    ∙ sym (bit_and-mod_low 31 x m h)
    ∙ ap (bit_and x) (sym (bit_and_mask 31 m))

-- On identifiers without the flag of extended frames, a filter without the inversion bit and the
-- same filter with it accept complementary sets: the inverted filter accepts exactly what the
-- plain one rejects.
pub accept_inverted :
    (can_id : ℕ) (f : Filter)
    → can_id < 2 ^ 31
    → f.can_id < 2 ^ 31
    → accept_msg can_id (mount_filter (inverted f)) ≡ not (accept_msg can_id (mount_filter f))
accept_inverted can_id f hi hf = rw (
  accept-mount_inverted can_id f hf,
  accept-mount_plain can_id f hf,
  same_low can_id f.can_mask hi,
  same_low f.can_id f.can_mask hf,
)

-- A 32-bit identifier with the flag of extended frames passes the inversion of every filter that
-- has no inversion bit of its own.
pub accept_inverted_extended :
    (can_id : ℕ) (f : Filter)
    → 2 ^ 31 ≤ can_id
    → can_id < 2 ^ 32
    → f.can_id < 2 ^ 31
    → accept_msg can_id (mount_filter (inverted f)) ≡ true
accept_inverted_extended can_id f lo hi hf =
    rw (accept-mount_inverted can_id f hf) (ground (arith, high, low))
  where
    mask : ℕ
    mask = inverted_mask f

    odd : mask / 2 ^ 31 % 2 ≡ 1
    odd = omega (arith, bit_and_power 31 mask, bit_and-bit_or 31 f.can_mask)

    high_digit : can_id / 2 ^ 31 ≡ 1
    high_digit = omega arith

    no_digit : f.can_id / 2 ^ 31 ≡ 0
    no_digit = omega arith

    high : bit_and can_id mask / 2 ^ 31 ≡ 1
    high =
        bit_and-div 31 can_id mask
        ∙ ap (λ (n : ℕ). bit_and n (mask / 2 ^ 31)) high_digit
        ∙ omega (arith, bit_and_step 1 (mask / 2 ^ 31), odd, zero-bit_and (mask / 2 ^ 31 / 2))

    low : bit_and f.can_id mask / 2 ^ 31 ≡ 0
    low =
        bit_and-div 31 f.can_id mask
        ∙ ap (λ (n : ℕ). bit_and n (mask / 2 ^ 31)) no_digit
        ∙ zero-bit_and (mask / 2 ^ 31)
