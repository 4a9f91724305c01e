-- ===== src/Pintos/Lists/Removing.antt =====
-- list_remove, the pops and list_splice of one element of Project_3/lib/kernel/list.c.
use system_prog.Base.{
  All-map, All-split, Distinct, Distinct-apart, Distinct-remove, IsFresh, ==-false, update,
  update_ne, update_self, ℕ, ◌≡◌, ◌≢◌, refl, ap, ap₂, sym, subst, ◌∙◌, true, false, some, List, [],
  ◌∷◌, ◌++◌, All-append,
}
use system_prog.Pintos.Lists.{
  Store, ListHead, is_interior, list_begin, list_end, unlink, list_remove, list_empty, list_front,
  list_pop_front,
}
use system_prog.Pintos.Lists.Chain.{
  final, front, final-All, front-All, front-final, Linked, Linked-append, Linked-split,
  Linked-frame, behind_head, IsList,
}
use system_prog.Pintos.Lists.Inserting.{first_of, rest_of, first_of-rest_of, cut_list, at_tail}

-- `p` and `n` point to each other, and all other links are as before.
pub record Joined (st st' : Store) (p n : ℕ) : Type 0 where
  pub next_p : st'.next p ≡ n
  pub prev_n : st'.prev n ≡ p
  pub other_next : (x : ℕ) → p ≢ x → st'.next x ≡ st.next x
  pub other_prev : (x : ℕ) → n ≢ x → st'.prev x ≡ st.prev x

unlink-Joined :
    (st : Store) (p n e : ℕ) → st.prev e ≡ p → st.next e ≡ n → p ≢ e → Joined st (unlink e st) p n
unfolding unlink
unlink-Joined st p n e hp hn pe =
    let same : update (st.prev e) (st.next e) st.next e ≡ n =
      ap₂ (λ a b. update a b st.next e) hp hn ∙ update_ne p n st.next e pe ∙ hn in
    record {
      next_p = ap₂ (λ a b. update a b st.next p) hp hn ∙ update_self p n st.next;
      prev_n = ap₂ (λ a b. update a b st.prev n) same hp ∙ update_self n p st.prev;
      other_next = λ x k. ap₂ (λ a b. update a b st.next x) hp hn ∙ update_ne p n st.next x k;
      other_prev = λ x k. ap₂ (λ a b. update a b st.prev x) same hp ∙ update_ne n p st.prev x k;
    }

-- The chain then passes from the elements up to `p` to those from `n` on.
pub Joined-Linked :
    (st st' : Store) (h n : ℕ) (us ws : List ℕ)
    → Joined st st' (final h us) n
    → Linked st h us
    → Linked st n ws
    → Distinct (h ∷ us ++ n ∷ ws)
    → Linked st' h (us ++ n ∷ ws)
Joined-Linked st st' h n us ws p l r d =
    let (du, dw, apart) = Distinct-apart (h ∷ us) (n ∷ ws) d in
    let last_apart = final-All (λ x. IsFresh x (n ∷ ws)) h us apart in
    let first_part =
      Linked-frame st st' h us
        (All-map (λ x. final h us ≢ x) (λ x. st'.next x ≡ st.next x) (front h us) p.other_next
          (front-final h us du))
        (All-map (λ x. IsFresh x (n ∷ ws)) (λ x. st'.prev x ≡ st.prev x) us
          (λ x a. p.other_prev x (λ z. a.0 (sym z))) apart.1)
        l in
    let last_part =
      Linked-frame st st' n ws
        (All-map (λ x. final h us ≢ x) (λ x. st'.next x ≡ st.next x) (front n ws) p.other_next
          (front-All (λ x. final h us ≢ x) n ws last_apart))
        (All-map (λ x. n ≢ x) (λ x. st'.prev x ≡ st.prev x) ws p.other_prev dw.0) r in
    Linked-append st' h us (n ∷ ws) first_part (p.next_p, (p.prev_n, last_part))

-- What is known of a list around an element of it.
pub record Around (st : Store) (l : ListHead) (us : List ℕ) (e : ℕ) (vs : List ℕ) : Type 0 where
  pub before : Linked st l.head us
  pub prev_e : st.prev e ≡ final l.head us
  pub next_e : st.next e ≡ first_of vs l.tail
  pub prev_next : st.prev (first_of vs l.tail) ≡ e
  pub behind : Linked st (first_of vs l.tail) (rest_of vs l.tail)
  pub nodes : Distinct (l.head ∷ us ++ e ∷ first_of vs l.tail ∷ rest_of vs l.tail)
  pub prev_null : 0 ≢ final l.head us
  pub null : 0 ≢ e
  pub next_null : 0 ≢ first_of vs l.tail
  pub others : IsFresh 0 (l.head ∷ us ++ first_of vs l.tail ∷ rest_of vs l.tail)

pub IsList-Around :
    (st : Store) (l : ListHead) (us : List ℕ) (e : ℕ) (vs : List ℕ)
    → IsList st l (us ++ e ∷ vs)
    → Around st l us e vs
IsList-Around st l us e vs h =
    let b = first_of vs l.tail in
    let ws = rest_of vs l.tail in
    let cut = cut_list l us (e ∷ vs) ∙ ap (λ z. us ++ e ∷ z) (first_of-rest_of vs l.tail) in
    let (hu, hw) = Linked-split st l.head us (e ∷ b ∷ ws) (subst (Linked st l.head) cut h.linked) in
    let (zu, zw) =
      All-split (λ y. 0 ≢ y) (l.head ∷ us) (e ∷ b ∷ ws)
        (subst (λ z. IsFresh 0 (l.head ∷ z)) cut h.no_null) in
    record {
      before = hu;
      prev_e = hw.1.0;
      next_e = hw.1.1.0;
      prev_next = hw.1.1.1.0;
      behind = hw.1.1.1.1;
      nodes = subst (λ z. Distinct (l.head ∷ z)) cut h.distinct;
      prev_null = final-All (λ y. 0 ≢ y) l.head us zu;
      null = zw.0;
      next_null = zw.1.0;
      others = All-append (λ y. 0 ≢ y) (l.head ∷ us) (b ∷ ws) zu zw.1;
    }

pub interior :
    (st : Store) (l : ListHead) (us : List ℕ) (e : ℕ) (vs : List ℕ)
    → Around st l us e vs
    → is_interior st e ≡ true
unfolding is_interior
interior st l us e vs a =
    rw
      (
        ==-false e 0 (λ z. a.null (sym z)),
        ==-false (st.prev e) 0 (λ z. a.prev_null (sym z ∙ a.prev_e)),
        ==-false (st.next e) 0 (λ z. a.next_null (sym z ∙ a.next_e)),
      )
      refl

Joined-IsList :
    (st st' : Store) (l : ListHead) (e : ℕ) (us vs : List ℕ)
    → Joined st st' (final l.head us) (first_of vs l.tail)
    → IsList st l (us ++ e ∷ vs)
    → IsList st' l (us ++ vs) × IsFresh e (l.head ∷ behind_head l (us ++ vs))
Joined-IsList st st' l e us vs p h =
    let a = IsList-Around st l us e vs h in
    let b = first_of vs l.tail in
    let ws = rest_of vs l.tail in
    let joined = sym (cut_list l us vs) in
    let (d, f) = Distinct-remove e (l.head ∷ us) (b ∷ ws) a.nodes in
    let (du, dw, apart) = Distinct-apart (l.head ∷ us) (b ∷ ws) d in
    let last = final-All (λ x. IsFresh x (b ∷ ws)) l.head us apart in
    (
      record {
        before_head = p.other_prev l.head (λ z. apart.0.0 (sym z)) ∙ h.before_head;
        behind_tail =
            p.other_next l.tail (
              at_tail (λ y. final l.head us ≢ y) l vs
                (subst (IsFresh (final l.head us)) (sym (first_of-rest_of vs l.tail)) last))
            ∙ h.behind_tail;
        linked =
            subst (Linked st' l.head) joined
              (Joined-Linked st st' l.head b us ws p a.before a.behind d);
        distinct = subst (λ z. Distinct (l.head ∷ z)) joined d;
        no_null = subst (λ z. IsFresh 0 (l.head ∷ z)) joined a.others;
      },
      subst (λ z. IsFresh e (l.head ∷ z)) joined f,
    )

-- An element of a list is taken out of it: the element that stood behind it, or the tail, is
-- returned, the other elements keep their order, and the element is in the list no longer.
pub list_remove-IsList :
    (st : Store) (l : ListHead) (e : ℕ) (us vs : List ℕ)
    → IsList st l (us ++ e ∷ vs)
    → (list_remove e st ≡ some (first_of vs l.tail, unlink e st))
      × IsList (unlink e st) l (us ++ vs)
      × IsFresh e (l.head ∷ behind_head l (us ++ vs))
unfolding list_remove
list_remove-IsList st l e us vs h =
    let a = IsList-Around st l us e vs h in
    let b = first_of vs l.tail in
    let (_, _, apart) = Distinct-apart (l.head ∷ us) (e ∷ b ∷ rest_of vs l.tail) a.nodes in
    let last = final-All (λ x. IsFresh x (e ∷ b ∷ rest_of vs l.tail)) l.head us apart in
    let p = unlink-Joined st (final l.head us) b e a.prev_e a.next_e last.0 in
    let (k, f) = Joined-IsList st (unlink e st) l e us vs p h in
    (
      rw (interior st l us e vs a)
          (ap (λ z. some (z, unlink e st)) (p.other_next e last.0 ∙ a.next_e)),
      k,
      f,
    )

list_empty-false :
    (st : Store) (l : ListHead) (x : ℕ) (xs : List ℕ)
    → IsList st l (x ∷ xs)
    → list_empty l st ≡ false
unfolding list_empty list_begin list_end
list_empty-false st l x xs h =
    ==-false (st.next l.head) l.tail
      (λ z. at_tail (λ y. x ≢ y) l xs h.distinct.1.0 (sym h.linked.0 ∙ z))

-- The front element is taken from a list that is not empty, and returned.
pub list_pop_front-IsList :
    (st : Store) (l : ListHead) (x : ℕ) (xs : List ℕ)
    → IsList st l (x ∷ xs)
    → (list_pop_front l st ≡ some (x, unlink x st))
      × IsList (unlink x st) l xs
      × IsFresh x (l.head ∷ behind_head l xs)
unfolding list_pop_front list_front
list_pop_front-IsList st l x xs h =
    let (r, k, f) = list_remove-IsList st l x [] xs h in
    (rw (list_empty-false st l x xs h, h.linked.0, r) refl, k, f)
