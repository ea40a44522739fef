-- ===== src/Receive/Delivery.antt =====
-- What the delivery of a frame does to the sockets and to the device: `rtcan_rcv` and
-- `rtcan_loopback` of can/rtcan_raw.c.
use rtcan_bb.Base.{
  ℕ, suc, ◌+◌, ◌%◌, ◌^◌, ◌≡◌, ◌≢◌, refl, sym, ap, ◌∙◌, Bool, true, false, none, some, ap₂, List, [],
  ◌∷◌, arith, ltb, ◌==◌, if◌then◌else◌, Bool-cases, inl, inr, update, length,
}
use native.Mathlib.Decide.{ℕ_discrete}
use rtcan_bb.Base.Memory.{load32}
use rtcan_bb.Rtcan.Abi.{Filter}
use rtcan_bb.Rtcan.Socket.RbFrame
use rtcan_bb.Rtcan.Socket.{Config, Skb, Socket, Sockets}
use rtcan_bb.Rtcan.Device.{Recv, Device}
use rtcan_bb.Ring.{mark, cpy_size, size_free, store, rcv_deliver}
use rtcan_bb.Ring.Bytewise.{IsValid, store-Appended}
use rtcan_bb.Filter.Entries.{All, IsNotOf, IsWellFormed}
use rtcan_bb.Receive.{deliver_each, accepts_looped, stamp, rcv, loopback}

-- A delivery keeps a ring buffer valid, whether the frame fits or not.
rcv_deliver-IsValid :
    (cfg : Config) (s : Socket) (skb : Skb) → IsValid cfg s → IsValid cfg (rcv_deliver cfg s skb)
unfolding rcv_deliver store
rcv_deliver-IsValid cfg s skb v = elim (Bool-cases (ltb (cpy_size s skb) (size_free cfg s))) [
  | inl room ↦ (store-Appended cfg s (mark s skb).rb_frame (cpy_size s skb) v (ground arith)).valid
  | inr full ↦ dropped full
]
  where
    dropped :
        ltb (cpy_size s skb) (size_free cfg s) ≡ false
        → IsValid cfg (store cfg s (mark s skb).rb_frame (cpy_size s skb))
    dropped full = rw full (record { head_in = v.head_in; tail_in = v.tail_in })

-- The socket and the filter of each entry.
abbrev pub keys : List Recv → List (ℕ × Filter)
keys [] = []
keys (e ∷ es) = (e.sock, e.can_filter) ∷ keys es

abbrev key : Recv → ℕ × Filter
key e = (e.sock, e.can_filter)

key_kept :
    (b : Bool) (e : Recv)
    → key (if b then record e { match_count = (e.match_count + 1) % 2 ^ 32 } else e) ≡ key e
key_kept true e = refl
key_kept false e = refl

-- What holds of every socket, of the entries and of a socket without an entry after a walk.
module _ (cfg : Config) (accepts : Recv → Sockets → Bool) where
  -- The sockets behind an entry.
  behind : Recv → Sockets → Skb → Sockets
  behind e socks skb =
      if accepts e socks then update socks e.sock (rcv_deliver cfg (socks e.sock) skb) else socks

  behind-IsValid :
      (e : Recv) (socks : Sockets) (skb : Skb)
      → ((t : ℕ) → IsValid cfg (socks t))
      → (t : ℕ) → IsValid cfg (behind e socks skb t)
  unfolding behind
  behind-IsValid e socks skb v t = elim (Bool-cases (accepts e socks)) [
    | inr no_hit ↦ rw no_hit (v t)
    | inl hit ↦ rw hit (at t (e.sock == t))
  ]
    where
      at :
          (t : ℕ) (b : Bool)
          → IsValid cfg (if b then rcv_deliver cfg (socks e.sock) skb else socks t)
      at t true = rcv_deliver-IsValid cfg (socks e.sock) skb (v e.sock)
      at t false = v t

  behind_other :
      (e : Recv) (socks : Sockets) (skb : Skb) (t : ℕ) → e.sock ≢ t → behind e socks skb t ≡ socks t
  unfolding behind
  behind_other e socks skb t ne = ground arith

  pub deliver_each-IsValid :
      (es : List Recv) (socks : Sockets) (skb : Skb)
      → ((t : ℕ) → IsValid cfg (socks t))
      → (t : ℕ) → IsValid cfg ((deliver_each cfg accepts es socks skb).1 t)
  unfolding deliver_each behind
  deliver_each-IsValid [] socks skb v = v
  deliver_each-IsValid (e ∷ es) socks skb v =
      deliver_each-IsValid es _ _ (behind-IsValid e socks skb v)

  pub deliver_each_other :
      (es : List Recv) (socks : Sockets) (skb : Skb) (t : ℕ)
      → All (IsNotOf t) es
      → (deliver_each cfg accepts es socks skb).1 t ≡ socks t
  unfolding deliver_each behind
  deliver_each_other [] socks skb t h = refl
  deliver_each_other (e ∷ es) socks skb t h =
      deliver_each_other es _ _ t h.1 ∙ behind_other e socks skb t h.0

  pub deliver_each-keys :
      (es : List Recv) (socks : Sockets) (skb : Skb)
      → keys (deliver_each cfg accepts es socks skb).0 ≡ keys es
  unfolding deliver_each
  deliver_each-keys [] socks skb = refl
  deliver_each-keys (e ∷ es) socks skb =
      ap₂ ◌∷◌ (key_kept (accepts e socks) e) (deliver_each-keys es _ _)

-- A socket whose entries are all refused, in whatever state the sockets are, gets nothing.
not_sender :
    (cfg : Config) (accepts : Recv → Sockets → Bool) (s : ℕ)
    → ((x : Recv) (t : Sockets) → x.sock ≡ s → accepts x t ≡ false)
    → (es : List Recv) (socks : Sockets) (skb : Skb)
    → (deliver_each cfg accepts es socks skb).1 s ≡ socks s
unfolding deliver_each behind
not_sender cfg accepts s h [] socks skb = refl
not_sender cfg accepts s h (e ∷ es) socks skb = not_sender cfg accepts s h es _ _ ∙ here
  where
    here : behind cfg accepts e socks skb s ≡ socks s
    here = elim (ℕ_discrete e.sock s) [
      | yes o ↦ rw (h e socks o) refl
      | no ne ↦ behind_other cfg accepts e socks skb s ne
    ]

length-keys : (es : List Recv) → length (keys es) ≡ length es
length-keys [] = refl
length-keys (e ∷ es) = ap suc (length-keys es)

same_length : (es es' : List Recv) → keys es ≡ keys es' → length es ≡ length es'
same_length es es' h = sym (length-keys es) ∙ ap length h ∙ length-keys es'

-- What a delivery may change: the counters of the device and of its entries, and the buffers of the
-- sockets that have an entry.
pub record IsDelivery (cfg : Config) (dev dev' : Device) (socks socks' : Sockets) : Type 0 where
  pub same_entries : keys dev'.recv_list ≡ keys dev.recv_list
  pub well_formed : IsWellFormed cfg dev → IsWellFormed cfg dev'
  pub still_valid : ((t : ℕ) → IsValid cfg (socks t)) → (t : ℕ) → IsValid cfg (socks' t)
  pub others : (t : ℕ) → All (IsNotOf t) dev.recv_list → socks' t ≡ socks t

delivery :
    (cfg : Config) (accepts : Recv → Sockets → Bool) (dev dev' : Device) (socks : Sockets)
    (skb : Skb)
    → dev'.recv_list ≡ (deliver_each cfg accepts dev.recv_list socks skb).0
    → dev'.empty_list ≡ dev.empty_list
    → dev'.free_entries ≡ dev.free_entries
    → IsDelivery cfg dev dev' socks (deliver_each cfg accepts dev.recv_list socks skb).1
delivery cfg accepts dev dev' socks skb r e f =
    let kept : keys dev'.recv_list ≡ keys dev.recv_list =
      ap keys r ∙ deliver_each-keys cfg accepts dev.recv_list socks skb in
    record {
      same_entries = kept;
      well_formed = λ w. record {
        counted = omega (arith, f, w.counted, ap length e);
        total = omega (arith, w.total, ap length e, same_length dev'.recv_list dev.recv_list kept);
      };
      still_valid = deliver_each-IsValid cfg accepts dev.recv_list socks skb;
      others = deliver_each_other cfg accepts dev.recv_list socks skb;
    }

-- The reception of a frame by a controller keeps the entries of the reception list, their filters
-- and their order; a device that accounts for its entries still does, valid ring buffers stay
-- valid, whether the frame fits or not, and a socket without an entry on the device is untouched.
pub rcv-IsDelivery :
    (cfg : Config) (timestamp : ℕ) (dev : Device) (socks : Sockets) (skb : Skb)
    → IsDelivery cfg dev
        (rcv cfg timestamp dev socks skb).0
        socks
        (rcv cfg timestamp dev socks skb).1
unfolding rcv
rcv-IsDelivery cfg timestamp dev socks skb = delivery cfg _ dev _ socks _ refl refl refl

-- The loopback of a frame that a socket has sent keeps the entries of the reception list, their
-- filters and their order, the account of entries and the validity of ring buffers, and does not
-- touch the sockets without an entry; the socket that has sent the frame gets nothing, and
-- afterwards no frame waits for its loopback.
pub loopback-IsDelivery :
    (cfg : Config) (timestamp : ℕ) (dev : Device) (socks : Sockets) (s : ℕ)
    → dev.tx_socket ≡ some s
    → IsDelivery cfg dev
        (loopback cfg timestamp dev socks).0
        socks
        (loopback cfg timestamp dev socks).1
      × ((loopback cfg timestamp dev socks).1 s ≡ socks s)
      × ((loopback cfg timestamp dev socks).0.tx_socket ≡ none)
unfolding loopback
loopback-IsDelivery cfg timestamp dev socks s e = (
  delivery cfg _ dev _ socks _ refl refl refl,
  not_sender cfg _ s (λ x t o. refused x t o) dev.recv_list socks _,
  refl,
)
  where
    refused :
        (x : Recv) (t : Sockets)
        → x.sock ≡ s
        → accepts_looped dev.tx_socket
            (load32 (stamp timestamp dev.tx_skb).rb_frame RbFrame.can_id_offset)
            x
            t
          ≡ false
    refused x t o = rw (e, o) (ground (arith))
