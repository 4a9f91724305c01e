-- ===== src/Base/Members.antt =====
-- Predicates on all members of a list, and lists without repetition.
use Prim.Native.Nat.{ℕ}
use mathlib.Core.Path.{◌≡◌, refl, sym, subst}
use mathlib.Core.Logic.{◌≢◌, ◌⊎◌, inl, inr}
use mathlib.Core.List.{List, [], ◌∷◌, ◌++◌}
use system_prog.Base.Lists.{All, All-append}

module _ {ℓ κ} {A : Type ℓ} where
  pub All-map : (P Q : A → Type κ) (xs : List A) → ((x : A) → P x → Q x) → All P xs → All Q xs
  All-map P Q [] f h = tt
  All-map P Q (x ∷ xs) f h = (f x h.0, All-map P Q xs f h.1)

  pub All-both : (P Q : A → Type κ) (xs : List A) → All P xs → All Q xs → All (λ x. P x × Q x) xs
  All-both P Q [] h k = tt
  All-both P Q (x ∷ xs) h k = ((h.0, k.0), All-both P Q xs h.1 k.1)

  pub All-split : (P : A → Type κ) (xs ys : List A) → All P (xs ++ ys) → All P xs × All P ys
  All-split P [] ys h = (tt, h)
  All-split P (x ∷ xs) ys h = let (a, b) = All-split P xs ys h.1 in ((h.0, a), b)

-- No two members are the same.
abbrev pub Distinct : List ℕ → Type 0
Distinct [] = Unit
Distinct (x ∷ xs) = All (λ y. x ≢ y) xs × Distinct xs

-- `e` is none of the members.
abbrev pub IsFresh : ℕ → List ℕ → Type 0
IsFresh e = All (λ y. e ≢ y)

pub Distinct-insert :
    (e : ℕ) (xs ys : List ℕ) → Distinct (xs ++ ys) → IsFresh e (xs ++ ys) → Distinct (xs ++ e ∷ ys)
Distinct-insert e [] ys d f = (f, d)
Distinct-insert e (x ∷ xs) ys d f =
    let (a, b) = All-split (λ y. x ≢ y) xs ys d.0 in
    (All-append (λ y. x ≢ y) xs (e ∷ ys) a ((λ q. f.0 (sym q)), b), Distinct-insert e xs ys d.1 f.1)

pub Distinct-remove :
    (e : ℕ) (xs ys : List ℕ) → Distinct (xs ++ e ∷ ys) → Distinct (xs ++ ys) × IsFresh e (xs ++ ys)
Distinct-remove e [] ys d = (d.1, d.0)
Distinct-remove e (x ∷ xs) ys d =
    let (a, b) = All-split (λ y. x ≢ y) xs (e ∷ ys) d.0 in
    let (c, f) = Distinct-remove e xs ys d.1 in
    ((All-append (λ y. x ≢ y) xs ys a b.1, c), ((λ q. b.0 (sym q)), f))

-- The members of the first part are none of the second.
pub Distinct-apart :
    (xs ys : List ℕ) → Distinct (xs ++ ys) → Distinct xs × Distinct ys × All (λ x. IsFresh x ys) xs
Distinct-apart [] ys d = (tt, d, tt)
Distinct-apart (x ∷ xs) ys d =
    let (a, b) = All-split (λ y. x ≢ y) xs ys d.0 in
    let (p, q, r) = Distinct-apart xs ys d.1 in ((a, p), q, (b, r))

abbrev pub Member : ℕ → List ℕ → Type 0
Member x [] = ⊥
Member x (y ∷ ys) = (x ≡ y) ⊎ Member x ys

pub Member-append : (x : ℕ) (xs ys : List ℕ) → Member x xs → Member x (xs ++ ys)
Member-append x [] ys m = absurd m
Member-append x (z ∷ xs) ys (inl e) = inl e
Member-append x (z ∷ xs) ys (inr m) = inr (Member-append x xs ys m)

pub Member-last : (x : ℕ) (xs : List ℕ) → Member x (xs ++ x ∷ [])
Member-last x [] = inl refl
Member-last x (z ∷ xs) = inr (Member-last x xs)

pub All-Member {κ} : (P : ℕ → Type κ) (x : ℕ) (xs : List ℕ) → All P xs → Member x xs → P x
All-Member P x [] h m = absurd m
All-Member P x (y ∷ ys) h (inl e) = subst P (sym e) h.0
All-Member P x (y ∷ ys) h (inr m) = All-Member P x ys h.1 m

pub IsFresh-Member : (x : ℕ) (xs : List ℕ) → IsFresh x xs → Member x xs → ⊥
IsFresh-Member x [] f m = absurd m
IsFresh-Member x (y ∷ ys) f (inl e) = f.0 e
IsFresh-Member x (y ∷ ys) f (inr m) = IsFresh-Member x ys f.1 m
