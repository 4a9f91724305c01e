-- ===== src/Pintos/Lists/Merging.antt =====
-- inplace_merge of Project_3/lib/kernel/list.c on whole lists.
use system_prog.Base.{
  Distinct, Distinct-apart, IsFresh, ==-false, ℕ, ◌≡◌, ◌≢◌, refl, sym, subst, ◌∙◌, false, some,
  List, [], ◌∷◌, ◌++◌, append_assoc, ◌==◌, All,
}
use system_prog.Pintos.Lists.{
  Store, ListHead, list_next, list_prev, list_splice, cut_out, put_before, unlink, link_before,
}
use system_prog.Pintos.Lists.Chain.{behind_head, IsList}
use system_prog.Pintos.Lists.Inserting.{first_of, link_before-IsList, may_insert_before}
use system_prog.Pintos.Lists.Removing.{IsList-Around, interior, list_remove-IsList}
use system_prog.Pintos.Lists.Walking.{list_next-interior}

pub list_next-Around :
    (st : Store) (l : ListHead) (us : List ℕ) (e : ℕ) (vs : List ℕ)
    → IsList st l (us ++ e ∷ vs)
    → list_next e st ≡ some (first_of vs l.tail)
list_next-Around st l us e vs h =
    let a = IsList-Around st l us e vs h in
    list_next-interior st e (first_of vs l.tail) (interior st l us e vs a) a.next_e

pub list_prev-Around :
    (st : Store) (l : ListHead) (us : List ℕ) (e : ℕ) (vs : List ℕ)
    → IsList st l (us ++ e ∷ vs)
    → list_prev (first_of vs l.tail) st ≡ some e
unfolding list_prev
list_prev-Around st l us e vs h =
    let a = IsList-Around st l us e vs h in
    rw
      (
        may_insert_before st (first_of vs l.tail) a.next_null (λ z. a.null (z ∙ a.prev_next)),
        a.prev_next,
      )
      refl

first_of-All {κ} :
    (P : ℕ → Type κ) (l : ListHead) (ms vs : List ℕ)
    → All P (behind_head l (ms ++ vs))
    → P (first_of vs l.tail)
first_of-All P l [] [] h = h.0
first_of-All P l [] (v ∷ vs) h = h.0
first_of-All P l (m ∷ ms) vs h = first_of-All P l ms vs h.1

-- An element is not the first of those behind it, nor the tail.
pub behind-apart :
    (st : Store) (l : ListHead) (us : List ℕ) (e : ℕ) (ms vs : List ℕ)
    → IsList st l (us ++ e ∷ (ms ++ vs))
    → (e == first_of vs l.tail) ≡ false
behind-apart st l us e ms vs h =
    let (_, d, _) = Distinct-apart (l.head ∷ us) (behind_head l (e ∷ (ms ++ vs))) (
      subst (λ z. Distinct (l.head ∷ z)) (append_assoc us (e ∷ (ms ++ vs)) (l.tail ∷ []))
        h.distinct) in
    ==-false e (first_of vs l.tail) (first_of-All (λ y. e ≢ y) l ms vs d.0)

-- The element `b` is moved before the element `a`, which stands before it.
pub list_splice-IsList :
    (st : Store) (l : ListHead) (us : List ℕ) (a : ℕ) (ms : List ℕ) (b : ℕ) (vs : List ℕ)
    → IsList st l (us ++ a ∷ (ms ++ b ∷ vs))
    → (st' : Store) × (list_splice a b (first_of vs l.tail) st ≡ some st')
      × IsList st' l (us ++ b ∷ a ∷ (ms ++ vs))
unfolding list_splice cut_out put_before unlink link_before
list_splice-IsList st l us a ms b vs h =
    let shape = append_assoc us (a ∷ ms) (b ∷ vs) in
    let h' : IsList st l ((us ++ a ∷ ms) ++ b ∷ vs) = subst (IsList st l) (sym shape) h in
    let x = IsList-Around st l us a (ms ++ b ∷ vs) h in
    let y = IsList-Around st l (us ++ a ∷ ms) b vs h' in
    let (_, k, f) = list_remove-IsList st l b (us ++ a ∷ ms) vs h' in
    let shape' = append_assoc us (a ∷ ms) vs in
    let (_, r) =
      link_before-IsList (unlink b st) l b us (a ∷ (ms ++ vs))
        (subst (IsList (unlink b st) l) shape' k) y.null
        (subst (λ z. IsFresh b (l.head ∷ behind_head l z)) shape' f) in
    (
      link_before a b (unlink b st),
      rw
          (
            interior st l us a (ms ++ b ∷ vs) x,
            behind-apart st l (us ++ a ∷ ms) b [] vs h',
            list_prev-Around st l (us ++ a ∷ ms) b vs h',
            interior st l (us ++ a ∷ ms) b vs y,
          )
          refl,
      r,
    )
