-- ===== src/Ring/Bytewise.antt =====
-- A valid ring buffer is a queue of bytes: what `store` appends to it, and what `copy_out` reads.
use rtcan_bb.Base.{
  ℕ, ◌+◌, ◌-◌, ◌%◌, ◌≤◌, ◌<◌, ◌≡◌, refl, ap, sym, ◌∙◌, ◌⊎◌, inl, inr, ◌∷◌, arith, ltb, leb,
  if◌then◌else◌, Bool-cases, lt→ltb,
}
use native.Mathlib.Nat.{mod-eq_of_lt, mod-eq-sub-mod}
use rtcan_bb.Base.Memory.{Bytes}
use rtcan_bb.Base.Bits.{bit_and_mask}
use rtcan_bb.Rtcan.Socket.{Config, rxbuf_size, Socket, sem_up}
use rtcan_bb.Ring.{size_free, advance, copy_in, copy_out, store}

-- The remainder of a number below two turns.
abbrev pub wrap : ℕ → ℕ → ℕ
wrap n a = if ltb a n then a else a - n

pub mod-eq-wrap : (n a : ℕ) → a < n + n → a % n ≡ wrap n a
mod-eq-wrap n a h = elim (Bool-cases (ltb a n)) [
  | inl e ↦ rw e (mod-eq_of_lt (ground arith))
  | inr e ↦ rw e (mod-eq-sub-mod {n = a} {m = n} (ground arith) ∙ mod-eq_of_lt (ground arith))
]

-- Head and tail stand inside the buffer.
pub record IsValid (cfg : Config) (s : Socket) : Type 0 where
  pub head_in : s.recv_head < rxbuf_size cfg
  pub tail_in : s.recv_tail < rxbuf_size cfg

-- The number of bytes that wait, and the one at each place of the queue.
abbrev pub used : Config → Socket → ℕ
used cfg s =
    if leb s.recv_head s.recv_tail
    then s.recv_tail - s.recv_head
    else s.recv_tail + rxbuf_size cfg - s.recv_head

abbrev pub pending : Config → Socket → ℕ → ℕ
pending cfg s i = s.recv_buf (wrap (rxbuf_size cfg) (s.recv_head + i))

pub advance-eq-wrap :
    (cfg : Config) (i n : ℕ)
    → i + n < rxbuf_size cfg + rxbuf_size cfg
    → advance cfg i n ≡ wrap (rxbuf_size cfg) (i + n)
unfolding advance
advance-eq-wrap cfg i n h =
    bit_and_mask cfg.rxbuf_bits (i + n) ∙ mod-eq-wrap (rxbuf_size cfg) (i + n) h

-- One byte more than what is used and free is never given away.
pub used-add-free :
    (cfg : Config) (s : Socket) → IsValid cfg s → used cfg s + size_free cfg s ≡ rxbuf_size cfg
unfolding size_free
used-add-free cfg s v = ground arith

copy_in-wrap :
    (cfg : Config) (buf : Bytes) (tail : ℕ) (frame : Bytes) (n i : ℕ)
    → tail < rxbuf_size cfg
    → n < rxbuf_size cfg
    → i < n
    → copy_in cfg buf tail frame n (wrap (rxbuf_size cfg) (tail + i)) ≡ frame i
unfolding copy_in
copy_in-wrap cfg buf tail frame n i ht hn hi = ground arith

copy_in-other :
    (cfg : Config) (buf : Bytes) (tail : ℕ) (frame : Bytes) (n i : ℕ)
    → tail < rxbuf_size cfg
    → i + n < rxbuf_size cfg
    → copy_in cfg buf tail frame n (wrap (rxbuf_size cfg) (tail + n + i))
      ≡ buf (wrap (rxbuf_size cfg) (tail + n + i))
unfolding copy_in
copy_in-other cfg buf tail frame n i ht hn = ground arith

-- A copy never leaves the buffer.
pub copy_in_bounds :
    (cfg : Config) (buf : Bytes) (tail : ℕ) (frame : Bytes) (n i : ℕ)
    → tail < rxbuf_size cfg
    → n < rxbuf_size cfg
    → rxbuf_size cfg ≤ i
    → copy_in cfg buf tail frame n i ≡ buf i
unfolding copy_in
copy_in_bounds cfg buf tail frame n i ht hn hi = ground arith

-- Reading `n` bytes at an index gives the bytes that stand there, round the end.
pub copy_out-wrap :
    (cfg : Config) (to : Bytes) (at : ℕ) (buf : Bytes) (index n i : ℕ)
    → index < rxbuf_size cfg
    → n < rxbuf_size cfg
    → i < n
    → copy_out cfg to at buf index n (at + i) ≡ buf (wrap (rxbuf_size cfg) (index + i))
unfolding copy_out
copy_out-wrap cfg to at buf index n i hi hn h = ground arith

-- Nothing else of the destination is written.
pub copy_out-other :
    (cfg : Config) (to : Bytes) (at : ℕ) (buf : Bytes) (index n i : ℕ)
    → index < rxbuf_size cfg
    → n < rxbuf_size cfg
    → (i < at) ⊎ (at + n ≤ i)
    → copy_out cfg to at buf index n i ≡ to i
unfolding copy_out
copy_out-other cfg to at buf index n i hi hn h = ground arith

-- What `store` does to a valid buffer with room for the frame.
pub record Appended (cfg : Config) (frame : Bytes) (size : ℕ) (s t : Socket) : Type 0 where
  pub valid : IsValid cfg t
  pub more : used cfg t ≡ used cfg s + size
  pub kept : (i : ℕ) → i < used cfg s → pending cfg t i ≡ pending cfg s i
  pub added : (i : ℕ) → i < size → pending cfg t (used cfg s + i) ≡ frame i
  pub inside : (i : ℕ) → rxbuf_size cfg ≤ i → t.recv_buf i ≡ s.recv_buf i
  pub notified : t.recv_sem ≡ sem_up ∷ s.recv_sem

module _ (cfg : Config) (s : Socket) (frame : Bytes) (size : ℕ) (v : IsValid cfg s)
    (room : size < size_free cfg s) where
  stored : Socket
  stored = record s {
    recv_buf = copy_in cfg s.recv_buf s.recv_tail frame size;
    recv_tail = advance cfg s.recv_tail size;
    recv_sem = sem_up ∷ s.recv_sem;
  }

  small : size < rxbuf_size cfg
  small = omega (arith, used-add-free cfg s v)

  new_tail : advance cfg s.recv_tail size ≡ wrap (rxbuf_size cfg) (s.recv_tail + size)
  new_tail = advance-eq-wrap cfg s.recv_tail size (omega (arith, v.tail_in, small))

  stored-IsValid : IsValid cfg stored
  unfolding stored
  stored-IsValid = ground (arith, new_tail, small, v)

  used-stored : used cfg stored ≡ used cfg s + size
  unfolding stored
  used-stored = ground (arith, new_tail, small, used-add-free cfg s v)

  stored-kept : (i : ℕ) → i < used cfg s → pending cfg stored i ≡ pending cfg s i
  unfolding stored
  stored-kept i h = rw place (
      copy_in-other cfg s.recv_buf s.recv_tail frame size (size_free cfg s - size + i) v.tail_in
        (omega (arith, used-add-free cfg s v))
      ∙ ap s.recv_buf (sym place))
    where
      place :
          wrap (rxbuf_size cfg) (s.recv_head + i)
          ≡ wrap (rxbuf_size cfg) (s.recv_tail + size + (size_free cfg s - size + i))
      place = ground (arith, used-add-free cfg s v)

  stored-added : (i : ℕ) → i < size → pending cfg stored (used cfg s + i) ≡ frame i
  unfolding stored
  stored-added i h =
      rw place (copy_in-wrap cfg s.recv_buf s.recv_tail frame size i v.tail_in small h)
    where
      place :
          wrap (rxbuf_size cfg) (s.recv_head + (used cfg s + i))
          ≡ wrap (rxbuf_size cfg) (s.recv_tail + i)
      place = ground (arith, used-add-free cfg s v, small)

  -- A frame that fits into a valid ring buffer is appended: the bytes that wait stay, the frame's
  -- follow them in order, the buffer stays valid, nothing is written beyond its end, and the
  -- semaphore is raised once.
  pub store-Appended : Appended cfg frame size s (store cfg s frame size)
  unfolding store stored
  store-Appended = rw (lt→ltb _ _ room) (record {
    valid = stored-IsValid;
    more = used-stored;
    kept = stored-kept;
    added = stored-added;
    inside = λ i h. copy_in_bounds cfg s.recv_buf s.recv_tail frame size i v.tail_in small h;
    notified = refl;
  })
