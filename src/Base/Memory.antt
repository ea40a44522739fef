-- ===== src/Base/Memory.antt =====
-- Bytes in memory: a C array or packed structure is the function from an offset to the byte there.
-- `memcpy` and `memset` change a range, and the accessors of integers are little-endian.
use Prim.Native.Nat.{ℕ, zero, suc, ◌+◌, ◌-◌, ◌*◌, ◌/◌, ◌%◌, ◌^◌, ◌<◌}
use mathlib.Core.Path.{◌≡◌}
use mathlib.Core.Bool.{◌&&◌}
use mathlib.Core.List.{List, [], ◌∷◌}
use native.Mathlib.Omega.{arith}
use rtcan_bb.Base.Tests.{ltb, leb, if◌then◌else◌}

abbrev pub Bytes : Type 0
Bytes = ℕ → ℕ

-- `memcpy(&dst[at], &src[from], n)`
abbrev pub memcpy : Bytes → ℕ → Bytes → ℕ → ℕ → Bytes
memcpy dst at src from n i = if leb at i && ltb i (at + n) then src (from + (i - at)) else dst i

-- The byte at one offset.
abbrev pub put_byte : Bytes → ℕ → ℕ → Bytes
put_byte dst at v = memcpy dst at (λ _. v) 0 1

-- `memset(dst, 0, …)` over a whole object.
abbrev pub zeroed : Bytes
zeroed _ = 0

-- A 32-bit integer in memory, and the bytes of one.
abbrev pub load32 : Bytes → ℕ → ℕ
load32 b at = b at + 2 ^ 8 * b (at + 1) + 2 ^ 16 * b (at + 2) + 2 ^ 24 * b (at + 3)

-- The bytes of an integer, from the lowest.
abbrev pub bytes_of : ℕ → Bytes
bytes_of v i = v / 2 ^ (8 * i) % 2 ^ 8

abbrev pub store32 : Bytes → ℕ → ℕ → Bytes
store32 b at v = memcpy b at (bytes_of v) 0 4

abbrev pub store64 : Bytes → ℕ → ℕ → Bytes
store64 b at v = memcpy b at (bytes_of v) 0 8

abbrev pub load64 : Bytes → ℕ → ℕ
load64 b at = load32 b at + 2 ^ 32 * load32 b (at + 4)

-- The bytes of a 32-bit integer make it up again.
pub load32-bytes_of : (v : ℕ) → v < 2 ^ 32 → load32 (bytes_of v) 0 ≡ v
load32-bytes_of v h = omega arith

pub load64-bytes_of : (v : ℕ) → v < 2 ^ 64 → load64 (bytes_of v) 0 ≡ v
load64-bytes_of v h = omega arith

pub bytes_of-lt : (v i : ℕ) → bytes_of v i < 256
bytes_of-lt v i = omega arith

-- Bytes for tests: those of a list, then zeros.
abbrev pub bytes : List ℕ → Bytes
bytes [] i = 0
bytes (x ∷ xs) zero = x
bytes (x ∷ xs) (suc i) = bytes xs i
