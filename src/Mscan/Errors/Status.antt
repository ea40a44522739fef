-- ===== src/Mscan/Errors/Status.antt =====
-- What `rtcan_mscan_err_interrupt` (can/mscan/rtcan_mscan.c) makes of the two fields of the receiver
-- flag register that give the levels of the error counters.
use rtcan_bb.Base.{
  ℕ, zero, suc, ◌+◌, ◌/◌, ◌%◌, ◌^◌, ◌≤◌, ◌≡◌, refl, sym, ap, ap₂, ◌∙◌, subst, bit_and, Bool, true,
  false, ◌∷◌, max, arith, ltb, ◌==◌, if◌then◌else◌,
}
use rtcan_bb.Base.Bits.{bit_and_mask}
use rtcan_bb.Base.Memory.{Bytes, put_byte, load32}
use rtcan_bb.Rtcan.Socket.{Skb, sem_destroy}
use rtcan_bb.Sja1000.Errors.{has, add_id, put_data, blank_error}
use rtcan_bb.Mscan.{MscanPort, Mscan}
use rtcan_bb.Mscan.Errors.{
  mscan_cscif, mscan_ovrif, mscan_stat_map, read_rstat, read_tstat, mscan_note_state,
  mscan_enter_state, mscan_serve_status, mscan_err_interrupt,
}
use rtcan_bb.Mscan.Frames.Fields.{bit_and_field}

-- The fields by the data sheet: bits 4 and 5 for the receiver, bits 2 and 3 for the transmitter.
abbrev pub receiver_level : ℕ → ℕ
receiver_level flags = flags / 2 ^ 4 % 2 ^ 2

abbrev pub transmitter_level : ℕ → ℕ
transmitter_level flags = flags / 2 ^ 2 % 2 ^ 2

abbrev pub worst_level : ℕ → ℕ
worst_level flags = max (transmitter_level flags) (receiver_level flags)

-- What an error frame says of a level: its identifier, and the byte with the detail.
abbrev pub level_id : ℕ → ℕ
level_id level = 2 ^ 29 + (if level == 0 then 0 else (if level == 3 then 2 ^ 6 else 2 ^ 2))

abbrev pub level_detail : (receiver_worse : Bool) → ℕ → ℕ
level_detail receiver_worse level =
    if level == 1
    then (if receiver_worse then 0x08 else 0x04)
    else (if level == 2 then (if receiver_worse then 0x20 else 0x10) else 0)

rstat_lem : (flags : ℕ) → read_rstat flags ≡ transmitter_level flags
rstat_lem flags = bit_and_mask 2 (bit_and flags 12 / 2 ^ 2) ∙ omega (arith, bit_and_field 2 2 flags)

tstat_lem : (flags : ℕ) → read_tstat flags ≡ receiver_level flags
tstat_lem flags = bit_and_mask 2 (bit_and flags 48 / 2 ^ 4) ∙ omega (arith, bit_and_field 4 2 flags)

-- The frame and the device for a level.
pub record IsReported {B : Type 0} (st st' : Mscan B) (worse : Bool) (level : ℕ) (frame : Bytes)
    : Type 0 where
  pub state : st'.dev.state ≡ mscan_stat_map level
  pub senders : st'.dev.tx_sem ≡ (if level == 3 then sem_destroy ∷ st.dev.tx_sem else st.dev.tx_sem)
  pub can_id : load32 frame 0 ≡ level_id level
  pub detail : frame 7 ≡ level_detail worse level

module _ {B : Type 0} (port : MscanPort B) (st : Mscan B) (stack : Bytes) where
  reported :
      (worse : Bool) (level : ℕ)
      → level ≤ 3
      → IsReported st
          (mscan_enter_state port (mscan_stat_map level) st)
          worse
          level
          (mscan_note_state (mscan_stat_map level) worse (blank_error stack))
  unfolding mscan_enter_state mscan_note_state blank_error
  reported worse zero h = record { state = refl; senders = refl; can_id = refl; detail = refl }
  reported worse (suc zero) h = record {
    state = refl;
    senders = refl;
    can_id = refl;
    detail = refl;
  }
  reported worse (suc (suc zero)) h = record {
    state = refl;
    senders = refl;
    can_id = refl;
    detail = refl;
  }
  reported worse (suc (suc (suc zero))) h = record {
    state = refl;
    senders = refl;
    can_id = refl;
    detail = refl;
  }
  reported worse (suc (suc (suc (suc n)))) h = absurd (omega arith)

  -- The levels that the code reads are those of the data sheet, with their names exchanged.
  at_levels :
      (flags : ℕ)
      → IsReported st
          (mscan_enter_state port (mscan_stat_map (max (read_rstat flags) (read_tstat flags))) st)
          (ltb (transmitter_level flags) (receiver_level flags))
          (worst_level flags)
          (mscan_note_state
            (mscan_stat_map (max (read_rstat flags) (read_tstat flags)))
            (ltb (read_rstat flags) (read_tstat flags))
            (blank_error stack))
  at_levels flags =
      subst
        (λ (levels : ℕ × ℕ).
          IsReported st (mscan_enter_state port (mscan_stat_map (max levels.0 levels.1)) st)
            (ltb (transmitter_level flags) (receiver_level flags)) (worst_level flags)
            (mscan_note_state (mscan_stat_map (max levels.0 levels.1)) (ltb levels.0 levels.1)
              (blank_error stack)))
        (sym (ap₂ (λ (a b : ℕ). (a, b)) (rstat_lem flags) (tstat_lem flags)))
        (reported (ltb (transmitter_level flags) (receiver_level flags)) (worst_level flags)
          (omega arith))

-- The branches on the flags.
status_served :
    {B : Type 0} (port : MscanPort B) (st : Mscan B) (stack : Bytes) (flags : ℕ)
    → has flags mscan_ovrif ≡ false
    → has flags mscan_cscif ≡ true
    → mscan_serve_status port flags (blank_error stack) st ≡ (
      mscan_note_state
          (mscan_stat_map (max (read_rstat flags) (read_tstat flags)))
          (ltb (read_rstat flags) (read_tstat flags))
          (blank_error stack),
      mscan_enter_state port (mscan_stat_map (max (read_rstat flags) (read_tstat flags))) st,
    )
unfolding mscan_serve_status
status_served port st stack flags e e' = rw e (rw e' refl)

overrun_served :
    {B : Type 0} (port : MscanPort B) (st : Mscan B) (stack : Bytes) (flags : ℕ)
    → has flags mscan_ovrif ≡ true
    → mscan_serve_status port flags (blank_error stack) st
      ≡ (put_data 1 1 (add_id (2 ^ 2) (blank_error stack)), st)
unfolding mscan_serve_status
overrun_served port st stack flags e = rw e refl

-- The interface index does not touch what is reported.
with_index :
    {B : Type 0} (st st' : Mscan B) (worse : Bool) (level v : ℕ) (frame : Bytes)
    → IsReported st st' worse level frame
    → IsReported st st' worse level (put_byte frame 4 v)
with_index st st' worse level v frame r = record {
  state = r.state;
  senders = r.senders;
  can_id = r.can_id;
  detail = r.detail;
}

-- A status change without an overrun: the state of the device becomes the worse one of the two
-- levels, a bus-off destroys the semaphore of the senders, and the error frame has the identifier
-- for that level. Its detail is the transmitter's warning or passive code exactly when the level of
-- the receiver is the worse one, and the receiver's code otherwise. With an overrun the device is
-- left as it was, whatever the levels say, and the frame only reports the overrun.
pub mscan_err_interrupt_outcome :
    {B : Type 0} (port : MscanPort B) (st : Mscan B) (skb : Skb) (flags : ℕ)
    → (has flags mscan_ovrif ≡ false
        → has flags mscan_cscif ≡ true
        → IsReported st
            (mscan_err_interrupt port st skb flags).0
            (ltb (transmitter_level flags) (receiver_level flags))
            (worst_level flags)
            (mscan_err_interrupt port st skb flags).1.rb_frame)
      × (has flags mscan_ovrif ≡ true
          → ((mscan_err_interrupt port st skb flags).0 ≡ st)
            × (load32 (mscan_err_interrupt port st skb flags).1.rb_frame 0 ≡ 2 ^ 29 + 2 ^ 2)
            × ((mscan_err_interrupt port st skb flags).1.rb_frame 7 ≡ 1))
unfolding mscan_err_interrupt blank_error
mscan_err_interrupt_outcome port st skb flags = (
  λ e e'.
      subst
        (λ (r : Bytes × Mscan _).
          IsReported st r.1 (ltb (transmitter_level flags) (receiver_level flags))
            (worst_level flags) (put_byte r.0 4 (st.dev.ifindex % 2 ^ 8)))
        (sym (status_served port st skb.rb_frame flags e e'))
        (with_index st _ _ _ (st.dev.ifindex % 2 ^ 8) _ (at_levels port st skb.rb_frame flags)),
  λ e.
      let served = overrun_served port st skb.rb_frame flags e in
      (
        ap (λ r. r.1) served,
        ap (λ r. load32 (put_byte r.0 4 (st.dev.ifindex % 2 ^ 8)) 0) served ∙ refl,
        ap (λ r. r.0 7) served ∙ refl,
      ),
)
