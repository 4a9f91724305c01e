-- ===== src/Pintos/Lists/Inserting.antt =====
-- list_init, list_insert and the pushes of Project_3/lib/kernel/list.c on whole lists.
use system_prog.Base.{
  All-both, All-map, All-split, Distinct, Distinct-apart, Distinct-insert, IsFresh, ==-false,
  update, update_ne, update_self, ℕ, ◌≡◌, ◌≢◌, refl, ap, sym, subst, ◌∙◌, true, ◌||◌, some, List,
  [], ◌∷◌, ◌++◌, append_assoc, append-nil, All, All-append, ◌==◌, Bool-cases, inl, inr,
}
use system_prog.Pintos.Lists.{
  Store, ListHead, is_interior, is_tail, list_init, list_end, link_before, list_insert,
  list_push_back,
}
use system_prog.Pintos.Lists.Chain.{
  final, front, final-All, front-All, front-final, Linked, Linked-append, Linked-split,
  Linked-frame, behind_head, IsList,
}

-- `e` stands between `p` and `b`, and all other links are as before.
pub record Placed (st st' : Store) (p b e : ℕ) : Type 0 where
  pub next_p : st'.next p ≡ e
  pub next_e : st'.next e ≡ b
  pub prev_b : st'.prev b ≡ e
  pub prev_e : st'.prev e ≡ p
  pub other_next : (x : ℕ) → p ≢ x → e ≢ x → st'.next x ≡ st.next x
  pub other_prev : (x : ℕ) → b ≢ x → e ≢ x → st'.prev x ≡ st.prev x

link_before-Placed :
    (st : Store) (p b e : ℕ) → st.prev b ≡ p → e ≢ b → e ≢ p → Placed st (link_before b e st) p b e
unfolding link_before
link_before-Placed st p b e q eb ep =
    let before : update e (st.prev b) st.prev b ≡ p = update_ne e (st.prev b) st.prev b eb ∙ q in
    let mid = update e b st.next in
    record {
      next_p = ap (λ z. update z e mid p) before ∙ update_self p e mid;
      next_e =
          ap (λ z. update z e mid e) before
          ∙ update_ne p e mid e (λ z. ep (sym z))
          ∙ update_self e b st.next;
      prev_b = update_self b e (update e (st.prev b) st.prev);
      prev_e =
          update_ne b e (update e (st.prev b) st.prev) e (λ z. eb (sym z))
          ∙ update_self e (st.prev b) st.prev
          ∙ q;
      other_next = λ x px ex.
          ap (λ z. update z e mid x) before ∙ update_ne p e mid x px ∙ update_ne e b st.next x ex;
      other_prev = λ x bx ex.
          update_ne b e (update e (st.prev b) st.prev) x bx ∙ update_ne e (st.prev b) st.prev x ex;
    }

-- The chain then runs through `e`.
pub Placed-Linked :
    (st st' : Store) (h b e : ℕ) (us ws : List ℕ)
    → Placed st st' (final h us) b e
    → Linked st h us
    → Linked st b ws
    → Distinct (h ∷ us ++ b ∷ ws)
    → IsFresh e (h ∷ us ++ b ∷ ws)
    → Linked st' h (us ++ e ∷ b ∷ ws)
Placed-Linked st st' h b e us ws p l r d f =
    let (du, dw, ap_) = Distinct-apart (h ∷ us) (b ∷ ws) d in
    let (fu, fw) = All-split (λ y. e ≢ y) (h ∷ us) (b ∷ ws) f in
    let last_apart = final-All (λ x. IsFresh x (b ∷ ws)) h us ap_ in
    let nexts_u =
      All-both (λ x. final h us ≢ x) (λ x. e ≢ x) (front h us) (front-final h us du)
        (front-All (λ x. e ≢ x) h us fu) in
    let prevs_u : All (λ x. (b ≢ x) × (e ≢ x)) us =
      All-both (λ x. b ≢ x) (λ x. e ≢ x) us
        (All-map (λ x. IsFresh x (b ∷ ws)) (λ x. b ≢ x) us (λ x a z. a.0 (sym z)) ap_.1) fu.1 in
    let nexts_w =
      All-both (λ x. final h us ≢ x) (λ x. e ≢ x) (front b ws)
        (front-All (λ x. final h us ≢ x) b ws last_apart) (front-All (λ x. e ≢ x) b ws fw) in
    let prevs_w = All-both (λ x. b ≢ x) (λ x. e ≢ x) ws dw.0 fw.1 in
    let first_part =
      Linked-frame st st' h us
        (All-map (λ x. (final h us ≢ x) × (e ≢ x)) (λ x. st'.next x ≡ st.next x) (front h us)
          (λ x k. p.other_next x k.0 k.1) nexts_u)
        (All-map (λ x. (b ≢ x) × (e ≢ x)) (λ x. st'.prev x ≡ st.prev x) us
          (λ x k. p.other_prev x k.0 k.1) prevs_u)
        l in
    let last_part =
      Linked-frame st st' b ws
        (All-map (λ x. (final h us ≢ x) × (e ≢ x)) (λ x. st'.next x ≡ st.next x) (front b ws)
          (λ x k. p.other_next x k.0 k.1) nexts_w)
        (All-map (λ x. (b ≢ x) × (e ≢ x)) (λ x. st'.prev x ≡ st.prev x) ws
          (λ x k. p.other_prev x k.0 k.1) prevs_w)
        r in
    Linked-append st' h us (e ∷ b ∷ ws) first_part
      (p.next_p, (p.prev_e, (p.next_e, (p.prev_b, last_part))))

-- The element that stands first in `vs`, or the tail behind it.
abbrev pub first_of : List ℕ → ℕ → ℕ
first_of [] t = t
first_of (v ∷ vs) t = v

abbrev pub rest_of : List ℕ → ℕ → List ℕ
rest_of [] t = []
rest_of (v ∷ vs) t = vs ++ t ∷ []

pub first_of-rest_of : (vs : List ℕ) (t : ℕ) → vs ++ t ∷ [] ≡ first_of vs t ∷ rest_of vs t
first_of-rest_of [] t = refl
first_of-rest_of (v ∷ vs) t = refl

-- The elements of a list before and behind a place of it.
pub cut_list :
    (l : ListHead) (us vs : List ℕ)
    → behind_head l (us ++ vs) ≡ us ++ first_of vs l.tail ∷ rest_of vs l.tail
cut_list l us vs = append_assoc us vs (l.tail ∷ []) ∙ ap (◌++◌ us) (first_of-rest_of vs l.tail)

pub at_tail {κ} :
    (P : ℕ → Type κ) (l : ListHead) (xs : List ℕ) → All P (behind_head l xs) → P l.tail
at_tail P l xs h = (All-split P xs (l.tail ∷ []) h).1.0

-- The test of `list_insert` holds at every element but the head.
pub may_insert_before :
    (st : Store) (b : ℕ) → 0 ≢ b → 0 ≢ st.prev b → (is_interior st b || is_tail st b) ≡ true
unfolding is_interior is_tail
may_insert_before st b h k = elim (Bool-cases (st.next b == 0)) [
  | inl e ↦ rw (==-false b 0 (λ z. h (sym z)), ==-false (st.prev b) 0 (λ z. k (sym z)), e) refl
  | inr e ↦ rw (==-false b 0 (λ z. h (sym z)), ==-false (st.prev b) 0 (λ z. k (sym z)), e) refl
]

Placed-IsList :
    (st st' : Store) (l : ListHead) (e : ℕ) (us vs : List ℕ)
    → Placed st st' (final l.head us) (first_of vs l.tail) e
    → IsList st l (us ++ vs)
    → 0 ≢ e
    → IsFresh e (l.head ∷ behind_head l (us ++ vs))
    → IsList st' l (us ++ e ∷ vs)
Placed-IsList st st' l e us vs p h n f =
    let b = first_of vs l.tail in
    let ws = rest_of vs l.tail in
    let cut = cut_list l us vs in
    let (hu, hw) = Linked-split st l.head us (b ∷ ws) (subst (Linked st l.head) cut h.linked) in
    let d : Distinct (l.head ∷ us ++ b ∷ ws) = subst (λ z. Distinct (l.head ∷ z)) cut h.distinct in
    let g : IsFresh e (l.head ∷ us ++ b ∷ ws) = subst (λ z. IsFresh e (l.head ∷ z)) cut f in
    let (du, dw, apart) = Distinct-apart (l.head ∷ us) (b ∷ ws) d in
    let joined = cut_list l us (e ∷ vs) ∙ ap (λ z. us ++ e ∷ z) (first_of-rest_of vs l.tail) in
    let last = final-All (λ x. IsFresh x (b ∷ ws)) l.head us apart in
    let zeros =
      All-split (λ y. 0 ≢ y) (l.head ∷ us) (b ∷ ws)
        (subst (λ z. IsFresh 0 (l.head ∷ z)) cut h.no_null) in
    record {
      before_head = p.other_prev l.head (λ z. apart.0.0 (sym z)) f.0 ∙ h.before_head;
      behind_tail =
          p.other_next l.tail
            (at_tail (λ y. final l.head us ≢ y) l vs
              (subst (IsFresh (final l.head us)) (sym (first_of-rest_of vs l.tail)) last))
            (at_tail (λ y. e ≢ y) l (us ++ vs) f.1)
          ∙ h.behind_tail;
      linked =
          subst (Linked st' l.head) (sym joined)
            (Placed-Linked st st' l.head b e us ws p hu hw.1.1 d g);
      distinct =
          subst (λ z. Distinct (l.head ∷ z)) (sym joined)
            (Distinct-insert e (l.head ∷ us) (b ∷ ws) d g);
      no_null =
          subst (λ z. IsFresh 0 (l.head ∷ z)) (sym joined)
            (All-append (λ y. 0 ≢ y) (l.head ∷ us) (e ∷ b ∷ ws) zeros.0 (n, zeros.1));
    }

pub link_before-IsList :
    (st : Store) (l : ListHead) (e : ℕ) (us vs : List ℕ)
    → IsList st l (us ++ vs)
    → 0 ≢ e
    → IsFresh e (l.head ∷ behind_head l (us ++ vs))
    → (list_insert (first_of vs l.tail) e st ≡ some (link_before (first_of vs l.tail) e st))
      × IsList (link_before (first_of vs l.tail) e st) l (us ++ e ∷ vs)
unfolding list_insert
link_before-IsList st l e us vs h n f =
    let b = first_of vs l.tail in
    let ws = rest_of vs l.tail in
    let cut = cut_list l us vs in
    let (hu, hw) = Linked-split st l.head us (b ∷ ws) (subst (Linked st l.head) cut h.linked) in
    let zeros =
      All-split (λ y. 0 ≢ y) (l.head ∷ us) (b ∷ ws)
        (subst (λ z. IsFresh 0 (l.head ∷ z)) cut h.no_null) in
    let fresh =
      All-split (λ y. e ≢ y) (l.head ∷ us) (b ∷ ws) (subst (λ z. IsFresh e (l.head ∷ z)) cut f) in
    let p =
      link_before-Placed st (final l.head us) b e hw.1.0 fresh.1.0
        (final-All (λ y. e ≢ y) l.head us fresh.0) in
    (
      rw
          (
            may_insert_before st b zeros.1.0
                (λ z. final-All (λ y. 0 ≢ y) l.head us zeros.0 (z ∙ hw.1.0)),
            ==-false e 0 (λ z. n (sym z)),
          )
          refl,
      Placed-IsList st (link_before b e st) l e us vs p h n f,
    )

-- Before an element that is in a list, or before its tail, an element that is not in it is inserted
-- at that place, and the rest of the list stays as it is.
pub list_insert-IsList :
    (st : Store) (l : ListHead) (e : ℕ) (us vs : List ℕ)
    → IsList st l (us ++ vs)
    → 0 ≢ e
    → IsFresh e (l.head ∷ behind_head l (us ++ vs))
    → (st' : Store) × (list_insert (first_of vs l.tail) e st ≡ some st')
      × IsList st' l (us ++ e ∷ vs)
list_insert-IsList st l e us vs h n f =
    let (r, k) = link_before-IsList st l e us vs h n f in
    (link_before (first_of vs l.tail) e st, r, k)

-- Before the tail of a list an element is added at its end.
pub list_push_back-IsList :
    (st : Store) (l : ListHead) (e : ℕ) (xs : List ℕ)
    → IsList st l xs
    → 0 ≢ e
    → IsFresh e (l.head ∷ behind_head l xs)
    → (st' : Store) × (list_push_back l e st ≡ some st') × IsList st' l (xs ++ e ∷ [])
unfolding list_push_back list_end
list_push_back-IsList st l e xs h n f =
    list_insert-IsList st l e xs [] (subst (IsList st l) (sym (append-nil xs)) h) n
      (subst (λ z. IsFresh e (l.head ∷ behind_head l z)) (sym (append-nil xs)) f)

pub list_init-IsList :
    (st : Store) (l : ListHead)
    → 0 ≢ l.head
    → 0 ≢ l.tail
    → l.head ≢ l.tail
    → IsList (list_init l st) l []
unfolding list_init
list_init-IsList st l h t d =
    let prevs = update l.head 0 st.prev in
    let nexts = update l.head l.tail st.next in
    record {
      before_head =
          update_ne l.tail l.head prevs l.head (λ z. d (sym z)) ∙ update_self l.head 0 st.prev;
      behind_tail = update_self l.tail 0 nexts;
      linked = (
        update_ne l.tail 0 nexts l.head (λ z. d (sym z)) ∙ update_self l.head l.tail st.next,
        (update_self l.tail l.head prevs, tt),
      );
      distinct = ((d, tt), (tt, tt));
      no_null = (h, (t, tt));
    }
