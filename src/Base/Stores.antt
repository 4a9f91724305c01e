-- ===== src/Base/Stores.antt =====
-- Maps from addresses that are written at one place, and runs that end in a panic.
use Prim.Native.Nat.{ℕ}
use mathlib.Core.Path.{◌≡◌, refl, sym}
use mathlib.Core.Logic.{◌≢◌}
use mathlib.Core.Bool.{Bool, true, false}
use mathlib.Core.Option.{Option, none, some}
use native.Mathlib.Omega.{arith}
use system_prog.Base.Tests.{◌==◌, if◌then◌else◌}

module _ {ℓ} {A : Type ℓ} where
  abbrev pub update : ℕ → A → (ℕ → A) → ℕ → A
  update a v f x = if x == a then v else f x

pub ==_self : (a : ℕ) → (a == a) ≡ true
==_self a = ground arith

pub ==-false : (a b : ℕ) → a ≢ b → (a == b) ≡ false
==-false a b h = ground (arith, h)

module _ {ℓ} {A : Type ℓ} where
  pub update_self : (a : ℕ) (v : A) (f : ℕ → A) → update a v f a ≡ v
  update_self a v f = rw (==_self a) refl

  pub update_ne : (a : ℕ) (v : A) (f : ℕ → A) (x : ℕ) → a ≢ x → update a v f x ≡ f x
  update_ne a v f x h = rw (==-false x a (λ e. h (sym e))) refl

-- `ASSERT`: the kernel panics where the test fails.
abbrev pub assert {ℓ} : {A : Type ℓ} → Bool → Option A → Option A
assert true k = k
assert false k = none

infixl 10 ◌>>=◌
abbrev pub ◌>>=◌ {ℓ κ} : {A : Type ℓ} {B : Type κ} → Option A → (A → Option B) → Option B
none >>= k = none
some a >>= k = k a
