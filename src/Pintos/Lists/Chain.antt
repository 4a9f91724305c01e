-- ===== src/Pintos/Lists/Chain.antt =====
-- Chains of elements that point to each other, as the lists of Project_3/lib/kernel/list.c are.
use system_prog.Base.{Distinct, IsFresh, ℕ, ◌≡◌, ◌≢◌, sym, ◌∙◌, List, [], ◌∷◌, ◌++◌, All}
use system_prog.Pintos.Lists.{Store, ListHead}

-- The last of `a` and the elements behind it, and all but the last.
abbrev pub final : ℕ → List ℕ → ℕ
final a [] = a
final a (x ∷ xs) = final x xs

abbrev pub front : ℕ → List ℕ → List ℕ
front a [] = []
front a (x ∷ xs) = a ∷ front x xs

pub final-All {κ} : (P : ℕ → Type κ) (a : ℕ) (xs : List ℕ) → All P (a ∷ xs) → P (final a xs)
final-All P a [] h = h.0
final-All P a (x ∷ xs) h = final-All P x xs h.1

pub front-All {κ} : (P : ℕ → Type κ) (a : ℕ) (xs : List ℕ) → All P (a ∷ xs) → All P (front a xs)
front-All P a [] h = tt
front-All P a (x ∷ xs) h = (h.0, front-All P x xs h.1)

pub front-final : (a : ℕ) (xs : List ℕ) → Distinct (a ∷ xs) → IsFresh (final a xs) (front a xs)
front-final a [] d = tt
front-final a (x ∷ xs) d = ((λ q. final-All (λ y. a ≢ y) x xs d.0 (sym q)), front-final x xs d.1)

-- From `a` on, each element points to the next one and is pointed back to by it.
abbrev pub Linked : Store → ℕ → List ℕ → Type 0
Linked st a [] = Unit
Linked st a (x ∷ xs) = (st.next a ≡ x) × ((st.prev x ≡ a) × Linked st x xs)

pub Linked-append :
    (st : Store) (a : ℕ) (xs ys : List ℕ)
    → Linked st a xs
    → Linked st (final a xs) ys
    → Linked st a (xs ++ ys)
Linked-append st a [] ys h k = k
Linked-append st a (x ∷ xs) ys h k = (h.0, (h.1.0, Linked-append st x xs ys h.1.1 k))

pub Linked-split :
    (st : Store) (a : ℕ) (xs ys : List ℕ)
    → Linked st a (xs ++ ys)
    → Linked st a xs × Linked st (final a xs) ys
Linked-split st a [] ys h = (tt, h)
Linked-split st a (x ∷ xs) ys h =
    let (p, q) = Linked-split st x xs ys h.1.1 in ((h.0, (h.1.0, p)), q)

-- The links of a chain stand in the `next` of all but the last and the `prev` of all but the first.
pub Linked-frame :
    (st st' : Store) (a : ℕ) (xs : List ℕ)
    → All (λ x. st'.next x ≡ st.next x) (front a xs)
    → All (λ x. st'.prev x ≡ st.prev x) xs
    → Linked st a xs
    → Linked st' a xs
Linked-frame st st' a [] f g h = tt
Linked-frame st st' a (x ∷ xs) f g h =
    (f.0 ∙ h.0, (g.0 ∙ h.1.0, Linked-frame st st' x xs f.1 g.1 h.1.1))

-- The elements behind the head and up to the tail.
abbrev pub behind_head : ListHead → List ℕ → List ℕ
behind_head l xs = xs ++ l.tail ∷ []

-- The list holds the elements `xs` in this order.
pub record IsList (st : Store) (l : ListHead) (xs : List ℕ) : Type 0 where
  pub before_head : st.prev l.head ≡ 0
  pub behind_tail : st.next l.tail ≡ 0
  pub linked : Linked st l.head (behind_head l xs)
  pub distinct : Distinct (l.head ∷ behind_head l xs)
  pub no_null : IsFresh 0 (l.head ∷ behind_head l xs)
