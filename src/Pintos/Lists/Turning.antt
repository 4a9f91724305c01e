-- ===== src/Pintos/Lists/Turning.antt =====
-- The loop of list_reverse of Project_3/lib/kernel/list.c.
use system_prog.Base.{
  All-both, All-map, All-split, Distinct, Distinct-insert, IsFresh, ==_self, ==-false, update_ne,
  update_self, ℕ, zero, suc, ◌<◌, ◌≡◌, ◌≢◌, refl, sym, ◌∙◌, some, List, [], ◌∷◌, ◌++◌, arith, All,
  All-append, length,
}
use system_prog.Pintos.Lists.{Store, ListHead, list_end, swap_links, reverse_loop}
use system_prog.Pintos.Lists.Chain.{final, front, Linked}
use system_prog.Pintos.Lists.Inserting.{first_of}

-- The elements of `xs` from the last to the first, and then those of `acc`.
abbrev pub reverse_onto : List ℕ → List ℕ → List ℕ
reverse_onto [] acc = acc
reverse_onto (x ∷ xs) acc = reverse_onto xs (x ∷ acc)

abbrev pub reverse : List ℕ → List ℕ
reverse xs = reverse_onto xs []

pub reverse_onto-append :
    (xs ys zs : List ℕ) → reverse_onto xs (ys ++ zs) ≡ reverse_onto xs ys ++ zs
reverse_onto-append [] ys zs = refl
reverse_onto-append (x ∷ xs) ys zs = reverse_onto-append xs (x ∷ ys) zs

pub reverse_onto-All {κ} :
    (P : ℕ → Type κ) (xs acc : List ℕ) → All P (xs ++ acc) → All P (reverse_onto xs acc)
reverse_onto-All P [] acc h = h
reverse_onto-All P (x ∷ xs) acc h =
    let (a, b) = All-split P xs acc h.1 in
    reverse_onto-All P xs (x ∷ acc) (All-append P xs (x ∷ acc) a (h.0, b))

pub reverse_onto-Distinct :
    (xs acc : List ℕ) → Distinct (xs ++ acc) → Distinct (reverse_onto xs acc)
reverse_onto-Distinct [] acc d = d
reverse_onto-Distinct (x ∷ xs) acc d =
    reverse_onto-Distinct xs (x ∷ acc) (Distinct-insert x xs acc d.1 d.0)

-- What stands behind the last element when the elements `a ∷ ys` are turned round before `acc`.
abbrev turned : ℕ → List ℕ → List ℕ → List ℕ
turned a [] acc = acc
turned a (y ∷ ys) acc = turned y ys (a ∷ acc)

pub turned-reverse_onto :
    (a : ℕ) (ys acc : List ℕ) → final a ys ∷ turned a ys acc ≡ reverse_onto (a ∷ ys) acc
turned-reverse_onto a [] acc = refl
turned-reverse_onto a (y ∷ ys) acc = turned-reverse_onto y ys (a ∷ acc)

-- A chain whose pointers are exchanged is the chain in the other order.
pub turned-Linked :
    (st st' : Store) (a : ℕ) (ys acc : List ℕ)
    → Linked st a ys
    → All (λ y. st'.next y ≡ st.prev y) ys
    → All (λ x. st'.prev x ≡ st.next x) (front a ys)
    → Linked st' a acc
    → Linked st' (final a ys) (turned a ys acc)
turned-Linked st st' a [] acc h f g k = k
turned-Linked st st' a (y ∷ ys) acc h f g k =
    turned-Linked st st' y ys (a ∷ acc) h.1.1 f.1 g.1 (f.0 ∙ h.1.0, (g.0 ∙ h.0, k))

-- The pointers of the elements `vs` are exchanged, and no others.
pub record Swapped (st st' : Store) (vs : List ℕ) : Type 0 where
  pub next : All (λ x. st'.next x ≡ st.prev x) vs
  pub prev : All (λ x. st'.prev x ≡ st.next x) vs
  pub other_next : (x : ℕ) → IsFresh x vs → st'.next x ≡ st.next x
  pub other_prev : (x : ℕ) → IsFresh x vs → st'.prev x ≡ st.prev x

-- Each element points to the next one, and the last one to `t`.
abbrev Nexts : Store → ℕ → List ℕ → Type 0
Nexts st t [] = Unit
Nexts st t (v ∷ vs) = (st.next v ≡ first_of vs t) × Nexts st t vs

Nexts-frame :
    (st st' : Store) (t : ℕ) (vs : List ℕ)
    → All (λ x. st'.next x ≡ st.next x) vs
    → Nexts st t vs
    → Nexts st' t vs
Nexts-frame st st' t [] f h = tt
Nexts-frame st st' t (v ∷ vs) f h = (f.0 ∙ h.0, Nexts-frame st st' t vs f.1 h.1)

pub Linked-Nexts : (st : Store) (a t : ℕ) (vs : List ℕ) → Linked st a (vs ++ t ∷ []) → Nexts st t vs
Linked-Nexts st a t [] h = tt
Linked-Nexts st a t (v ∷ []) h = (h.1.1.0, tt)
Linked-Nexts st a t (v ∷ w ∷ vs) h = (h.1.1.0, Linked-Nexts st v t (w ∷ vs) h.1.1)

swap_links-next : (e x : ℕ) (st : Store) → e ≢ x → (swap_links e st).next x ≡ st.next x
unfolding swap_links
swap_links-next e x st h = update_ne e (st.prev e) st.next x h

swap_links-prev : (e x : ℕ) (st : Store) → e ≢ x → (swap_links e st).prev x ≡ st.prev x
unfolding swap_links
swap_links-prev e x st h = update_ne e (st.next e) st.prev x h

swap_links-next_self : (e : ℕ) (st : Store) → (swap_links e st).next e ≡ st.prev e
unfolding swap_links
swap_links-next_self e st = update_self e (st.prev e) st.next

swap_links-prev_self : (e : ℕ) (st : Store) → (swap_links e st).prev e ≡ st.next e
unfolding swap_links
swap_links-prev_self e st = update_self e (st.next e) st.prev

Swapped-step :
    (v : ℕ) (vs : List ℕ) (st st' : Store)
    → IsFresh v vs
    → Swapped (swap_links v st) st' vs
    → Swapped st st' (v ∷ vs)
Swapped-step v vs st st' f w =
    let u = swap_links v st in
    record {
      next = (
        w.other_next v f ∙ swap_links-next_self v st,
        All-map (λ x. (v ≢ x) × (st'.next x ≡ u.prev x)) (λ x. st'.next x ≡ st.prev x) vs
            (λ x h. h.1 ∙ swap_links-prev v x st h.0)
            (All-both (λ x. v ≢ x) (λ x. st'.next x ≡ u.prev x) vs f w.next),
      );
      prev = (
        w.other_prev v f ∙ swap_links-prev_self v st,
        All-map (λ x. (v ≢ x) × (st'.prev x ≡ u.next x)) (λ x. st'.prev x ≡ st.next x) vs
            (λ x h. h.1 ∙ swap_links-next v x st h.0)
            (All-both (λ x. v ≢ x) (λ x. st'.prev x ≡ u.next x) vs f w.prev),
      );
      other_next = λ x h. w.other_next x h.1 ∙ swap_links-next v x st (λ z. h.0 (sym z));
      other_prev = λ x h. w.other_prev x h.1 ∙ swap_links-prev v x st (λ z. h.0 (sym z));
    }

pub reverse_loop-Swapped :
    (fuel : ℕ) (l : ListHead) (vs : List ℕ) (st : Store)
    → length vs < fuel
    → Nexts st l.tail vs
    → Distinct (vs ++ l.tail ∷ [])
    → (st' : Store) × (reverse_loop fuel l (first_of vs l.tail) st ≡ some st') × Swapped st st' vs
unfolding reverse_loop list_end
reverse_loop-Swapped zero l vs st f n d = absurd (omega arith)
reverse_loop-Swapped (suc fuel) l [] st f n d = (
  st,
  rw (==_self l.tail, reverse_loop) refl,
  record { next = tt; prev = tt; other_next = λ x _. refl; other_prev = λ x _. refl },
)
reverse_loop-Swapped (suc fuel) l (v ∷ vs) st f n d =
    let (fv, ft) = All-split (λ y. v ≢ y) vs (l.tail ∷ []) d.0 in
    let u = swap_links v st in
    let (st', r, w) =
      reverse_loop-Swapped fuel l vs u (omega arith)
        (Nexts-frame st u l.tail vs
          (All-map (λ x. v ≢ x) (λ x. u.next x ≡ st.next x) vs (λ x h. swap_links-next v x st h) fv)
          n.1)
        d.1 in
    (
      st',
      rw (==-false v l.tail ft.0, swap_links-prev_self v st, n.0, reverse_loop) r,
      Swapped-step v vs st st' fv w,
    )
