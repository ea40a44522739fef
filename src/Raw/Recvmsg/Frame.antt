-- ===== src/Raw/Recvmsg/Frame.antt =====
-- What `rtcan_raw_recvmsg` reads is the message at the head of the ring buffer.
use rtcan_bb.Base.{
  ℕ, ◌+◌, ◌≤◌, ◌<◌, bit_and, ◌≡◌, refl, ap, ◌∙◌, Bool, true, not, ◌&&◌, arith, ltb, ◌==◌,
  if◌then◌else◌, Bool-cases, inl, inr,
}
use rtcan_bb.Base.Memory.{Bytes, load32, load64, zeroed}
use rtcan_bb.Rtcan.Abi.{can_rtr_flag}
use rtcan_bb.Rtcan.Socket.{Config, rxbuf_size, has_timestamp, has_no_timestamp, Socket}
use rtcan_bb.Ring.{advance, copy_out}
use rtcan_bb.Ring.Bytewise.{IsValid, used, pending, wrap, advance-eq-wrap, copy_out-wrap}
use rtcan_bb.Raw.Recvmsg.{Received, read_frame}

-- The parts of a message, from its bytes: the length code, whether it has data bytes and how
-- many, and whether a timestamp is marked.
abbrev pub dlc_of : Bytes → ℕ
dlc_of m = bit_and (m 5) has_no_timestamp

abbrev pub payload_size : Bytes → ℕ
payload_size m = if ltb 8 (dlc_of m) then 8 else dlc_of m

abbrev pub has_data : Bytes → Bool
has_data m = bit_and (load32 m 0) can_rtr_flag == 0 && not (payload_size m == 0)

abbrev pub data_size : Bytes → ℕ
data_size m = if has_data m then payload_size m else 0

abbrev pub is_stamped : Bytes → Bool
is_stamped m = not (bit_and (m 5) has_timestamp == 0)

-- The number of bytes that a reader takes, who wants the timestamp or not.
abbrev pub read_size : Bool → Bytes → ℕ
read_size interested m = 6 + data_size m + (if interested && is_stamped m then 8 else 0)

data_size-le : (m : Bytes) → data_size m ≤ 8
data_size-le m = ground arith

module _ (cfg : Config) (s : Socket) (m : Bytes) (n : ℕ) (v : IsValid cfg s) (fits : n ≤ used cfg s)
    (here : (i : ℕ) → i < n → pending cfg s i ≡ m i) where
  -- The index of the `k`-th byte.
  pub at_index : ℕ → ℕ
  at_index k = wrap (rxbuf_size cfg) (s.recv_head + k)

  advance_at : (k j : ℕ) → k + j ≤ n → advance cfg (at_index k) j ≡ at_index (k + j)
  unfolding at_index
  advance_at k j h = advance-eq-wrap cfg (at_index k) j (ground (arith, v)) ∙ ground (arith, v)

  at_index-zero : s.recv_head ≡ at_index 0
  unfolding at_index
  at_index-zero = ground (arith, v)

  copied :
      (k j i : ℕ)
      → k + j ≤ n
      → i < j
      → copy_out cfg zeroed 0 s.recv_buf (at_index k) j i ≡ m (k + i)
  unfolding at_index
  copied k j i h hi =
      ap (copy_out cfg zeroed 0 s.recv_buf (at_index k) j) (omega arith)
      ∙ copy_out-wrap cfg zeroed 0 s.recv_buf (at_index k) j i (ground (arith, v))
          (ground (arith, v)) hi
      ∙ ap s.recv_buf (ground (arith, v))
      ∙ here (k + i) (omega (arith, h, hi))

  byte_at : (k : ℕ) → k < n → s.recv_buf (at_index k) ≡ m k
  unfolding at_index
  byte_at k h = here k h

  word_at :
      (k : ℕ)
      → k + 4 ≤ n
      → load32 (copy_out cfg zeroed 0 s.recv_buf (at_index k) 4) 0 ≡ load32 (λ i. m (k + i)) 0
  word_at k h = omega (
    arith,
    copied k 4 0 h (omega arith),
    copied k 4 1 h (omega arith),
    copied k 4 2 h (omega arith),
    copied k 4 3 h (omega arith),
  )

  long_at :
      (k : ℕ)
      → k + 8 ≤ n
      → load64 (copy_out cfg zeroed 0 s.recv_buf (at_index k) 8) 0 ≡ load64 (λ i. m (k + i)) 0
  long_at k h = omega (
    arith,
    copied k 8 0 h (omega arith),
    copied k 8 1 h (omega arith),
    copied k 8 2 h (omega arith),
    copied k 8 3 h (omega arith),
    copied k 8 4 h (omega arith),
    copied k 8 5 h (omega arith),
    copied k 8 6 h (omega arith),
    copied k 8 7 h (omega arith),
  )

-- What `read_frame` returns for a message of these bytes that begins at the head.
pub record Reads (cfg : Config) (s : Socket) (m : Bytes) (interested : Bool) (got : Received)
    : Type 0 where
  pub can_id : got.frame.can_id ≡ load32 m 0
  pub ifindex : got.ifindex ≡ m 4
  pub can_dlc : (got.can_dlc ≡ m 5) × (got.frame.can_dlc ≡ dlc_of m)
  pub payload : (i : ℕ) → i < data_size m → got.frame.payload i ≡ m (6 + i)
  pub timestamp :
      interested && is_stamped m ≡ true → got.timestamp ≡ load64 (λ i. m (6 + data_size m + i)) 0
  pub next : got.recv_buf_index ≡ wrap (rxbuf_size cfg) (s.recv_head + read_size interested m)

module _ (cfg : Config) (s : Socket) (m : Bytes) (interested : Bool) (v : IsValid cfg s)
    (fits : read_size interested m ≤ used cfg s)
    (here : (i : ℕ) → i < read_size interested m → pending cfg s i ≡ m i) where
  at : ℕ → ℕ
  at = at_index cfg s m (read_size interested m) v fits here

  step : (k j : ℕ) → k + j ≤ read_size interested m → advance cfg (at k) j ≡ at (k + j)
  unfolding at
  step = advance_at cfg s m (read_size interested m) v fits here

  after_id : advance cfg s.recv_head 4 ≡ at 4
  unfolding at
  after_id =
      ap (λ (i : ℕ). advance cfg i 4) (at_index-zero cfg s m (read_size interested m) v fits here)
      ∙ step 0 4 (omega arith)

  after_ifindex : advance cfg (at 4) 1 ≡ at 5
  after_ifindex = step 4 1 (omega arith)

  after_dlc : advance cfg (at 5) 1 ≡ at 6
  after_dlc = step 5 1 (omega arith)

  the_id : load32 (copy_out cfg zeroed 0 s.recv_buf s.recv_head 4) 0 ≡ load32 m 0
  unfolding at
  the_id =
      ap (λ (i : ℕ). load32 (copy_out cfg zeroed 0 s.recv_buf i 4) 0)
        (at_index-zero cfg s m (read_size interested m) v fits here)
      ∙ word_at cfg s m (read_size interested m) v fits here 0 (omega arith)

  the_ifindex : s.recv_buf (at 4) ≡ m 4
  unfolding at
  the_ifindex = byte_at cfg s m (read_size interested m) v fits here 4 (omega arith)

  the_dlc : s.recv_buf (at 5) ≡ m 5
  unfolding at
  the_dlc = byte_at cfg s m (read_size interested m) v fits here 5 (omega arith)

  after_data :
      (if has_data m then advance cfg (at 6) (payload_size m) else at 6) ≡ at (6 + data_size m)
  after_data = elim (Bool-cases (has_data m)) [
    | inl e ↦ rw e (step 6 (payload_size m) (ground (arith, e)))
    | inr e ↦ rw e refl
  ]

  the_payload :
      (i : ℕ)
      → i < data_size m
      → (if has_data m then copy_out cfg zeroed 0 s.recv_buf (at 6) (payload_size m) else zeroed) i
        ≡ m (6 + i)
  unfolding at
  the_payload i h = elim (Bool-cases (has_data m)) [
    | inl e ↦ rw e (
        copied cfg s m (read_size interested m) v fits here 6 (payload_size m) i (ground (arith, e))
          (ground (arith, e)))
    | inr e ↦ absurd (ground (arith, e))
  ]

  after_stamp :
      (if interested && is_stamped m
        then advance cfg (at (6 + data_size m)) 8
        else at (6 + data_size m))
      ≡ at (read_size interested m)
  after_stamp = elim (Bool-cases (interested && is_stamped m)) [
    | inl e ↦ rw e (step (6 + data_size m) 8 (ground (arith, e)))
    | inr e ↦ rw e (ap at (omega arith))
  ]

  the_timestamp :
      interested && is_stamped m ≡ true
      → load64 (copy_out cfg zeroed 0 s.recv_buf (at (6 + data_size m)) 8) 0
        ≡ load64 (λ i. m (6 + data_size m + i)) 0
  unfolding at
  the_timestamp e =
      long_at cfg s m (read_size interested m) v fits here (6 + data_size m) (ground (arith, e))

  got : Received
  unfolding read_frame
  got = read_frame cfg s interested

  got-can_id : got.frame.can_id ≡ load32 m 0
  unfolding got
  got-can_id = the_id

  got-ifindex : got.ifindex ≡ m 4
  unfolding got
  got-ifindex = simp (after_id, the_ifindex)

  got-can_dlc : (got.can_dlc ≡ m 5) × (got.frame.can_dlc ≡ dlc_of m)
  unfolding got
  got-can_dlc = (simp (after_id, after_ifindex, the_dlc), simp (after_id, after_ifindex, the_dlc))

  got-payload : (i : ℕ) → i < data_size m → got.frame.payload i ≡ m (6 + i)
  unfolding got
  got-payload i h = simp (after_id, after_ifindex, after_dlc, the_dlc, the_id) (the_payload i h)

  got-next : got.recv_buf_index ≡ at (read_size interested m)
  unfolding got
  got-next = simp (after_id, after_ifindex, after_dlc, the_dlc, the_id, after_data) after_stamp

  got-timestamp :
      interested && is_stamped m ≡ true → got.timestamp ≡ load64 (λ i. m (6 + data_size m + i)) 0
  unfolding got
  got-timestamp e =
      simp (after_id, after_ifindex, after_dlc, the_dlc, the_id, after_data)
        (rw e (the_timestamp e))

  -- A message whose bytes, as many as the reader takes, stand at the head of a valid ring buffer
  -- is read as it was written: identifier, interface, length code, data bytes and, if it is there
  -- and asked for, the timestamp; the next index is behind it.
  pub read_frame_lem : Reads cfg s m interested (read_frame cfg s interested)
  unfolding got at at_index
  read_frame_lem = record {
    can_id = got-can_id;
    ifindex = got-ifindex;
    can_dlc = got-can_dlc;
    payload = got-payload;
    timestamp = got-timestamp;
    next = got-next;
  }
