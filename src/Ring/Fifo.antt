-- ===== src/Ring/Fifo.antt =====
-- The ring buffer of a socket holds a queue of messages: `rtcan_rcv_deliver` appends one, and moving
-- the head past the first one drops it.
use rtcan_bb.Base.{ℕ, ◌+◌, ◌≤◌, ◌<◌, ◌≡◌, ap, sym, ◌∙◌, subst, List, [], ◌∷◌, ◌++◌, arith}
use native.Mathlib.Nat.{add_assoc}
use rtcan_bb.Base.Memory.{Bytes}
use rtcan_bb.Rtcan.Socket.{Config, rxbuf_size, Socket}
use rtcan_bb.Ring.{size_free, store}
use rtcan_bb.Ring.Bytewise.{IsValid, Appended, used, pending, wrap, store-Appended}

-- A message is its bytes, of which `size` count.
pub record Message : Type 0 where
  pub content : Bytes
  pub size : ℕ

-- From place `k` of the queue of bytes on there stand exactly these messages.
abbrev pub Queued : Config → Socket → ℕ → List Message → Type 0
Queued cfg s k [] = used cfg s ≡ k
Queued cfg s k (m ∷ ms) =
    ((i : ℕ) → i < m.size → pending cfg s (k + i) ≡ m.content i) × Queued cfg s (k + m.size) ms

pub Queued-le :
    (cfg : Config) (s : Socket) (k : ℕ) (ms : List Message) → Queued cfg s k ms → k ≤ used cfg s
Queued-le cfg s k [] q = omega arith
Queued-le cfg s k (m ∷ ms) q = omega (arith, Queued-le cfg s (k + m.size) ms q.1)

Queued-append :
    (cfg : Config) (s t : Socket) (m : Message) (k : ℕ) (ms : List Message)
    → Appended cfg m.content m.size s t
    → Queued cfg s k ms
    → Queued cfg t k (ms ++ m ∷ [])
Queued-append cfg s t m k [] a q = (
  λ i h. ap (λ (n : ℕ). pending cfg t (n + i)) (sym q) ∙ a.added i h,
  a.more ∙ ap (λ (n : ℕ). n + m.size) q,
)
Queued-append cfg s t m k (m' ∷ ms) a q = (
  λ i h. a.kept (k + i) (omega (arith, Queued-le cfg s (k + m'.size) ms q.1)) ∙ q.0 i h,
  Queued-append cfg s t m (k + m'.size) ms a q.1,
)

-- A message that fits is appended to the queue, and the messages before it stay.
pub store-Queued :
    (cfg : Config) (s : Socket) (m : Message) (ms : List Message)
    → IsValid cfg s
    → m.size < size_free cfg s
    → Queued cfg s 0 ms
    → Queued cfg (store cfg s m.content m.size) 0 (ms ++ m ∷ [])
store-Queued cfg s m ms v room q =
    Queued-append cfg s (store cfg s m.content m.size) m 0 ms
      (store-Appended cfg s m.content m.size v room) q

-- The head, moved past `n` bytes.
abbrev pub drop_bytes : Config → Socket → ℕ → Socket
drop_bytes cfg s n = record s { recv_head = wrap (rxbuf_size cfg) (s.recv_head + n) }

pub used-drop_bytes :
    (cfg : Config) (s : Socket) (n : ℕ)
    → IsValid cfg s
    → n ≤ used cfg s
    → used cfg (drop_bytes cfg s n) + n ≡ used cfg s
used-drop_bytes cfg s n v h = ground arith

pending-drop_bytes :
    (cfg : Config) (s : Socket) (n i : ℕ)
    → IsValid cfg s
    → n + i < rxbuf_size cfg
    → pending cfg (drop_bytes cfg s n) i ≡ pending cfg s (n + i)
pending-drop_bytes cfg s n i v h = ap s.recv_buf (ground arith)

pub drop_bytes-IsValid :
    (cfg : Config) (s : Socket) (n : ℕ)
    → IsValid cfg s
    → n ≤ used cfg s
    → IsValid cfg (drop_bytes cfg s n)
drop_bytes-IsValid cfg s n v h = ground arith

Queued-drop :
    (cfg : Config) (s : Socket) (n k : ℕ) (ms : List Message)
    → IsValid cfg s
    → Queued cfg s (n + k) ms
    → Queued cfg (drop_bytes cfg s n) k ms
Queued-drop cfg s n k [] v q = omega (arith, used-drop_bytes cfg s n v (omega arith))
Queued-drop cfg s n k (m ∷ ms) v q = (
  λ i h.
      pending-drop_bytes cfg s n (k + i) v (ground (arith, Queued-le cfg s (n + k + m.size) ms q.1))
      ∙ ap (pending cfg s) (omega arith)
      ∙ q.0 i h,
  Queued-drop cfg s n (k + m.size) ms v (subst (λ j. Queued cfg s j ms) (add_assoc n k m.size) q.1),
)

-- Dropping the bytes of the first message leaves the queue of the others.
pub drop_bytes-Queued :
    (cfg : Config) (s : Socket) (m : Message) (ms : List Message)
    → IsValid cfg s
    → Queued cfg s 0 (m ∷ ms)
    → Queued cfg (drop_bytes cfg s m.size) 0 ms
drop_bytes-Queued cfg s m ms v q =
    Queued-drop cfg s m.size 0 ms v (subst (λ j. Queued cfg s j ms) (omega arith) q.1)
