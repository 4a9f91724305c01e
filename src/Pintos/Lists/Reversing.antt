-- ===== src/Pintos/Lists/Reversing.antt =====
-- list_reverse of Project_3/lib/kernel/list.c.
use system_prog.Base.{
  All-both, All-map, All-split, Distinct, Distinct-apart, IsFresh, ==_self, ==-false, update,
  update_ne, update_self, ℕ, ◌<◌, ◌≡◌, ◌≢◌, refl, ap, ap₂, sym, subst, ◌∙◌, some, List, [], ◌∷◌,
  All, length,
}
use system_prog.Pintos.Lists.{
  Store, ListHead, list_end, list_empty, swap_ends, swap_outer, list_reverse,
}
use system_prog.Pintos.Lists.Chain.{
  final, front, final-All, front-All, front-final, Linked, Linked-split, IsList,
}
use system_prog.Pintos.Lists.Inserting.{at_tail}
use system_prog.Pintos.Lists.Walking.{begins}
use system_prog.Pintos.Lists.Turning.{
  reverse_onto-All, reverse, reverse_onto-append, reverse_onto-Distinct, turned-reverse_onto,
  turned-Linked, Swapped, Linked-Nexts, reverse_loop-Swapped,
}

-- What the two exchanges behind the loop make of the links of the outer elements `a` and `z`.
record Exchanged (st st' : Store) (h t a z : ℕ) : Type 0 where
  next_h : st'.next h ≡ z
  prev_t : st'.prev t ≡ a
  next_a : st'.next a ≡ st.prev z
  prev_z : st'.prev z ≡ st.next a
  other_next : (x : ℕ) → a ≢ x → h ≢ x → st'.next x ≡ st.next x
  other_prev : (x : ℕ) → z ≢ x → t ≢ x → st'.prev x ≡ st.prev x

ends-Exchanged :
    (st : Store) (l : ListHead) (a z : ℕ)
    → st.next l.head ≡ a
    → st.prev l.tail ≡ z
    → l.head ≢ a
    → z ≢ l.tail
    → Exchanged st (swap_outer l (swap_ends l st)) l.head l.tail a z
unfolding swap_outer swap_ends
ends-Exchanged st l a z ha ht na nz =
    let mid = swap_ends l st in
    let nexts : (x : ℕ) → mid.next x ≡ update l.head z st.next x =
      λ x. ap (λ v. update l.head v st.next x) ht in
    let prevs : (x : ℕ) → mid.prev x ≡ update l.tail a st.prev x =
      λ x. ap (λ v. update l.tail v st.prev x) ha in
    let first : mid.next l.head ≡ z = nexts l.head ∙ update_self l.head z st.next in
    let last : mid.prev l.tail ≡ a = prevs l.tail ∙ update_self l.tail a st.prev in
    let next_all : (x : ℕ) → (swap_outer l mid).next x ≡ update a (mid.prev z) mid.next x =
      λ x. ap₂ (λ p q. update p (mid.prev q) mid.next x) last first in
    let prev_all : (x : ℕ) → (swap_outer l mid).prev x ≡ update z (mid.next a) mid.prev x =
      λ x. ap₂ (λ p q. update p (mid.next q) mid.prev x) first last in
    record {
      next_h = next_all l.head ∙ update_ne a (mid.prev z) mid.next l.head (λ e. na (sym e)) ∙ first;
      prev_t = prev_all l.tail ∙ update_ne z (mid.next a) mid.prev l.tail nz ∙ last;
      next_a =
          next_all a
          ∙ update_self a (mid.prev z) mid.next
          ∙ prevs z
          ∙ update_ne l.tail a st.prev z (λ e. nz (sym e));
      prev_z =
          prev_all z
          ∙ update_self z (mid.next a) mid.prev
          ∙ nexts a
          ∙ update_ne l.head z st.next a na;
      other_next = λ x p q.
          next_all x
          ∙ update_ne a (mid.prev z) mid.next x p
          ∙ nexts x
          ∙ update_ne l.head z st.next x q;
      other_prev = λ x p q.
          prev_all x
          ∙ update_ne z (mid.next a) mid.prev x p
          ∙ prevs x
          ∙ update_ne l.tail a st.prev x q;
    }

reversed-IsList :
    (st st1 : Store) (l : ListHead) (a : ℕ) (ys : List ℕ)
    → IsList st l (a ∷ ys)
    → Swapped st st1 (a ∷ ys)
    → IsList (swap_outer l (swap_ends l st1)) l (reverse (a ∷ ys))
reversed-IsList st st1 l a ys h w =
    let xs = a ∷ ys in
    let t = l.tail in
    let z = final a ys in
    let st' = swap_outer l (swap_ends l st1) in
    let (hx, ht) = All-split (λ y. l.head ≢ y) xs (t ∷ []) h.distinct.0 in
    let (dx, _, apart) = Distinct-apart xs (t ∷ []) h.distinct.1 in
    let (lx, lt) = Linked-split st l.head xs (t ∷ []) h.linked in
    let tail_apart : IsFresh t xs =
      All-map (λ x. IsFresh x (t ∷ [])) (λ x. t ≢ x) xs (λ x k e. k.0 (sym e)) apart in
    let zt : z ≢ t =
      final-All (λ x. x ≢ t) a ys
        (All-map (λ x. t ≢ x) (λ x. x ≢ t) xs (λ x k e. k (sym e)) tail_apart) in
    let e =
      ends-Exchanged st1 l a z (w.other_next l.head hx ∙ h.linked.0)
        (w.other_prev t tail_apart ∙ lt.1.0) hx.0 zt in
    let first_next : st'.next a ≡ t =
      e.next_a ∙ final-All (λ x. st1.prev x ≡ st.next x) a ys w.prev ∙ lt.0 in
    let last_prev : st'.prev z ≡ l.head = e.prev_z ∙ w.next.0 ∙ h.linked.1.0 in
    let nexts : All (λ y. st'.next y ≡ st.prev y) ys =
      All-map (λ y. ((a ≢ y) × (l.head ≢ y)) × (st1.next y ≡ st.prev y))
        (λ y. st'.next y ≡ st.prev y) ys (λ y k. e.other_next y k.0.0 k.0.1 ∙ k.1)
        (All-both (λ y. (a ≢ y) × (l.head ≢ y)) (λ y. st1.next y ≡ st.prev y) ys
          (All-both (λ y. a ≢ y) (λ y. l.head ≢ y) ys dx.0 hx.1) w.next.1) in
    let prevs : All (λ x. st'.prev x ≡ st.next x) (front a ys) =
      All-map (λ x. ((z ≢ x) × (t ≢ x)) × (st1.prev x ≡ st.next x)) (λ x. st'.prev x ≡ st.next x)
        (front a ys) (λ x k. e.other_prev x k.0.0 k.0.1 ∙ k.1)
        (All-both (λ x. (z ≢ x) × (t ≢ x)) (λ x. st1.prev x ≡ st.next x) (front a ys)
          (All-both (λ x. z ≢ x) (λ x. t ≢ x) (front a ys) (front-final a ys dx)
            (front-All (λ x. t ≢ x) a ys tail_apart))
          (front-All (λ x. st1.prev x ≡ st.next x) a ys w.prev)) in
    let chain =
      turned-Linked st st' a ys (t ∷ []) lx.1.1 nexts prevs (first_next, (e.prev_t, tt)) in
    let all_nodes = turned-reverse_onto a ys (t ∷ []) ∙ reverse_onto-append xs [] (t ∷ []) in
    record {
      before_head =
          e.other_prev l.head
            (final-All (λ x. x ≢ l.head) a ys
              (All-map (λ x. l.head ≢ x) (λ x. x ≢ l.head) xs (λ x k q. k (sym q)) hx))
            (λ q. ht.0 (sym q))
          ∙ w.other_prev l.head hx
          ∙ h.before_head;
      behind_tail =
          e.other_next t (λ q. tail_apart.0 (sym q)) ht.0
          ∙ w.other_next t tail_apart
          ∙ h.behind_tail;
      linked = subst (Linked st' l.head) all_nodes (e.next_h, (last_prev, chain));
      distinct = (
        subst (All (λ y. l.head ≢ y)) (reverse_onto-append xs [] (t ∷ []))
            (reverse_onto-All (λ y. l.head ≢ y) xs (t ∷ []) h.distinct.0),
        subst Distinct (reverse_onto-append xs [] (t ∷ []))
            (reverse_onto-Distinct xs (t ∷ []) h.distinct.1),
      );
      no_null = (
        h.no_null.0,
        subst (All (λ y. 0 ≢ y)) (reverse_onto-append xs [] (t ∷ []))
            (reverse_onto-All (λ y. 0 ≢ y) xs (t ∷ []) h.no_null.1),
      );
    }

-- list_reverse reverses the order of the elements of a list; a round for each element and one more
-- are enough.
pub list_reverse-IsList :
    (fuel : ℕ) (st : Store) (l : ListHead) (xs : List ℕ)
    → IsList st l xs
    → length xs < fuel
    → (st' : Store) × (list_reverse fuel l st ≡ some st') × IsList st' l (reverse xs)
unfolding list_reverse list_empty list_end
list_reverse-IsList fuel st l [] h f = (st, rw (begins st l [] h, ==_self l.tail) refl, h)
list_reverse-IsList fuel st l (a ∷ ys) h f =
    let (st1, r, w) =
      reverse_loop-Swapped fuel l (a ∷ ys) st f (Linked-Nexts st l.head l.tail (a ∷ ys) h.linked)
        h.distinct.1 in
    (
      swap_outer l (swap_ends l st1),
      rw (begins st l (a ∷ ys) h, ==-false a l.tail (at_tail (λ y. a ≢ y) l ys h.distinct.1.0), r)
          refl,
      reversed-IsList st st1 l a ys h w,
    )
