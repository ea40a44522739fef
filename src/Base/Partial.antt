-- ===== src/Base/Partial.antt =====
-- Statements on the result of a computation that may fault.
use mathlib.Core.Path.{◌≡◌, refl, subst}
use mathlib.Core.Bool.{Bool, true, false}
use mathlib.Core.Option.{Option, none, some}
use native.Mathlib.Omega.{arith}
use rtcan_bb.Base.Tests.{if◌then◌else◌, ◌>>=◌}

-- What holds of every result of a computation that may fault, and its rules.
abbrev pub Post {κ} : {A : Type 0} → (A → Type κ) → Option A → Type κ
Post P none = Unit
Post P (some a) = P a

pub Post-bind {κ} :
    {A B : Type 0} (P : B → Type κ) (m : Option A) (f : A → Option B)
    → ((a : A) → m ≡ some a → Post P (f a))
    → Post P (m >>= f)
Post-bind P none f h = tt
Post-bind P (some a) f h = h a refl

pub Post-if {κ} :
    {A : Type 0} (P : A → Type κ) (b : Bool) (x y : Option A)
    → (b ≡ true → Post P x)
    → (b ≡ false → Post P y)
    → Post P (if b then x else y)
Post-if P true x y p q = p refl
Post-if P false x y p q = q refl

pub Post-some {κ} :
    {A : Type 0} (P : A → Type κ) (m : Option A) (a : A) → Post P m → m ≡ some a → P a
Post-some P none a p e = absurd (ground arith)
Post-some P (some b) a p e = let q : b ≡ a = cc e in subst P q p
