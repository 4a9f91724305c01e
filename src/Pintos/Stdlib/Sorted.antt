-- ===== src/Pintos/Stdlib/Sorted.antt =====
-- sort of Project_3/lib/stdlib.c sorts.
use system_prog.Base.{
  ℕ, zero, suc, ◌/◌, ◌≤◌, ◌<◌, ◌≡◌, refl, ap, sym, subst, ◌∙◌, inl, inr, Option, some, arith,
  ℕ_discrete,
}
use system_prog.Pintos.Stdlib.{Sign, do_swap, build_heap, sort_heap, sort}
use system_prog.Pintos.Stdlib.Heap.{
  IsChild, child-above, Permuted, same, swapped, swap-left, swap-right, swap-other, IsOrder, Le,
  Le-refl, Le-at, IsHeap, Permuted-trans, heapify-Sifted,
}

-- The parent of a place.
parent_of : (x : ℕ) → (p : ℕ) × IsChild x p
parent_of zero = (0, inl (omega arith))
parent_of (suc zero) = (0, inr (omega arith))
parent_of (suc (suc x)) =
    let (p, q) = parent_of x in
    (suc p, elim q [ inl e ↦ inl (omega arith) | inr e ↦ inr (omega arith) ])

module _ {ℓ} {A : Type ℓ} where
  Permuted-wider : (n m : ℕ) (a b : ℕ → A) → n ≤ m → Permuted n a b → Permuted m a b
  Permuted-wider n m a _ h same = same
  Permuted-wider n m a _ h (swapped {b = d} i j p q r) =
      swapped i j (Permuted-wider n m a d h p) (q.0, omega (arith, q.1)) (r.0, omega (arith, r.1))

  -- Exchanges keep what holds of all the elements, and touch no others.
  Permuted-All {κ} :
      (P : A → Type κ) (n : ℕ) (a b : ℕ → A)
      → ((x : ℕ) → 0 < x → x ≤ n → P (a x))
      → Permuted n a b
      → (x : ℕ) → 0 < x
      → x ≤ n
      → P (b x)
  Permuted-All P n a _ h same x z l = h x z l
  Permuted-All P n a _ h (swapped {b = d} i j p q r) x z l =
      let ih = Permuted-All P n a d h p in
      elim (ℕ_discrete j x) [
        | yes e ↦ subst P (sym (ap (do_swap d i j) (sym e) ∙ swap-right d i j)) (ih i q.0 q.1)
        | no e ↦ elim (ℕ_discrete i x) [
          | yes f ↦
              subst P (sym (ap (do_swap d i j) (sym f) ∙ swap-left d i j (λ y. e (sym y ∙ f))))
                (ih j r.0 r.1)
          | no f ↦ subst P (sym (swap-other d i j x f e)) (ih x z l)
        ]
      ]

  Permuted-frame : (n : ℕ) (a b : ℕ → A) → Permuted n a b → (x : ℕ) → n < x → b x ≡ a x
  Permuted-frame n a _ same x h = refl
  Permuted-frame n a _ (swapped {b = d} i j p q r) x h =
      swap-other d i j x (λ e. omega (arith, q.1)) (λ e. omega (arith, r.1))
      ∙ Permuted-frame n a d p x h

  module _ (compare : A → A → Sign) (o : IsOrder compare) where
    -- The array that is left is a heap, or in order, and holds the same elements.
    record Built (cnt : ℕ) (a : ℕ → A) (r : Option (ℕ → A)) : Type ℓ where
      result : ℕ → A
      returns : r ≡ some result
      heap : IsHeap compare o 1 cnt result
      permuted : Permuted cnt a result

    build_heap-Built :
        (i cnt : ℕ) (a : ℕ → A)
        → i ≤ cnt
        → IsHeap compare o (suc i) cnt a
        → Built cnt a (build_heap compare i a cnt)
    unfolding build_heap
    build_heap-Built zero cnt a l h = record {
      result = a;
      returns = refl;
      heap = h;
      permuted = same;
    }
    build_heap-Built (suc i) cnt a l h =
        let s =
          heapify-Sifted compare o (suc i) (suc i) cnt a (omega arith) (omega arith) l (record {
            ordered = λ j c lj k xc n. h j c (omega (arith, n)) k xc;
            bridge =
                λ p c lp k k' xc. absurd (omega (arith, child-above (suc i) p (omega arith) k));
          }) in
        let rest = build_heap-Built i cnt s.result (omega arith) s.heap in
        record {
          result = rest.result;
          returns = rw (s.returns, build_heap) rest.returns;
          heap = rest.heap;
          permuted = Permuted-trans compare o cnt a s.result rest.result s.permuted rest.permuted;
        }

    -- The root of a heap is its largest element.
    root_largest :
        (fuel i : ℕ) (a : ℕ → A) (x : ℕ)
        → IsHeap compare o 1 i a
        → x < fuel
        → 0 < x
        → x ≤ i
        → Le compare o (a x) (a 1)
    root_largest zero i a x h f z l = absurd (omega arith)
    root_largest (suc fuel) i a x h f z l = elim (ℕ_discrete x 1) [
      | yes e ↦ subst (λ y. Le compare o (a y) (a 1)) (sym e) (Le-refl compare o (a 1))
      | no e ↦
          let (p, q) = parent_of x in
          let pz : 0 < p = elim q [ inl y ↦ omega (arith, e) | inr y ↦ omega (arith, e) ] in
          let below = child-above x p pz q in
          o.trans (a x) (a p) (a 1) (h p x pz q l)
            (root_largest fuel i a p h (omega arith) pz (omega arith))
    ]

    -- The elements behind the place `i` are in order, and none of them is smaller than one before.
    record IsTail (i cnt : ℕ) (a : ℕ → A) : Type ℓ where
      behind : (x y : ℕ) → i < x → x < y → y ≤ cnt → Le compare o (a x) (a y)
      across : (x y : ℕ) → 0 < x → x ≤ i → i < y → y ≤ cnt → Le compare o (a x) (a y)

    -- No element of the array is larger than one behind it.
    abbrev pub IsSorted : ℕ → (ℕ → A) → Type 0
    IsSorted cnt a = (x y : ℕ) → 0 < x → x < y → y ≤ cnt → Le compare o (a x) (a y)

    pub record IsResult (cnt : ℕ) (a : ℕ → A) (r : Option (ℕ → A)) : Type ℓ where
      pub array : ℕ → A
      pub returns : r ≡ some array
      pub sorted : IsSorted cnt array
      pub permuted : Permuted cnt a array

    -- The largest element of the heap is put before the tail.
    swap-IsTail :
        (n cnt : ℕ) (a b : ℕ → A)
        → 0 < n
        → suc n ≤ cnt
        → IsHeap compare o 1 (suc n) a
        → IsTail (suc n) cnt a
        → Permuted n (do_swap a 1 (suc n)) b
        → IsTail n cnt b
    swap-IsTail n cnt a b z l h t p =
        let m = suc n in
        let a1 = do_swap a 1 m in
        let fixed : (y : ℕ) → m < y → b y ≡ a y = λ y k.
          Permuted-frame n a1 b p y (omega arith)
          ∙ swap-other a 1 m y (λ e. omega arith) (λ e. omega arith) in
        let last : b m ≡ a 1 = Permuted-frame n a1 b p m (omega arith) ∙ swap-right a 1 m in
        let root : (x : ℕ) → 0 < x → x ≤ m → Le compare o (a x) (a 1) =
          λ x xz xl. root_largest (suc x) m a x h (omega arith) xz xl in
        -- What holds of all elements of the heap holds of those that are left.
        let left : (v : A)
            → ((x : ℕ) → 0 < x → x ≤ m → Le compare o (a x) v)
            → (x : ℕ) → 0 < x
            → x ≤ n
            → Le compare o (b x) v =
          λ v k.
            Permuted-All (λ u. Le compare o u v) n a1 b
              (λ x xz xl. elim (ℕ_discrete 1 x) [
                | yes e ↦
                    Le-at compare o (ap a1 (sym e) ∙ swap-left a 1 m (λ y. omega arith)) refl
                      (k m (omega arith) (omega arith))
                | no e ↦
                    Le-at compare o (swap-other a 1 m x e (λ y. omega arith)) refl
                      (k x xz (omega arith))
              ])
              p in
        record {
          behind = λ x y nx xy yc. elim (ℕ_discrete x m) [
            | yes e ↦
                Le-at compare o (ap b e ∙ last) (fixed y (omega arith))
                  (t.across 1 y (omega arith) (omega arith) (omega arith) yc)
            | no e ↦
                Le-at compare o (fixed x (omega (arith, e))) (fixed y (omega (arith, e)))
                  (t.behind x y (omega (arith, e)) xy yc)
          ];
          across = λ x y xz xn ny yc. elim (ℕ_discrete y m) [
            | yes e ↦
                left (b y) (λ w wz wl. Le-at compare o refl (ap b e ∙ last) (root w wz wl)) x xz xn
            | no e ↦
                left (b y)
                  (λ w wz wl.
                    Le-at compare o refl (fixed y (omega (arith, e)))
                      (t.across w y wz wl (omega (arith, e)) yc))
                  x xz xn
          ];
        }

    sort_heap-IsResult :
        (i cnt : ℕ) (a : ℕ → A)
        → i ≤ cnt
        → IsHeap compare o 1 i a
        → IsTail i cnt a
        → IsResult cnt a (sort_heap compare i a)
    unfolding sort_heap
    sort_heap-IsResult zero cnt a l h t = record {
      array = a;
      returns = refl;
      sorted = λ x y z xy yc. t.behind x y z xy yc;
      permuted = same;
    }
    sort_heap-IsResult (suc zero) cnt a l h t = record {
      array = a;
      returns = refl;
      sorted = λ x y z xy yc. elim (ℕ_discrete x 1) [
        | yes e ↦ t.across x y z (omega arith) (omega arith) yc
        | no e ↦ t.behind x y (omega (arith, e)) xy yc
      ];
      permuted = same;
    }
    sort_heap-IsResult (suc (suc i)) cnt a l h t =
        let n = suc i in
        let a1 = do_swap a 1 (suc n) in
        let s =
          heapify-Sifted compare o 1 1 n a1 (omega arith) (omega arith) (omega arith) (record {
            ordered = λ j c lj k cn j1.
                let above = child-above c j (omega arith) k in
                Le-at compare o (swap-other a 1 (suc n) c (λ e. omega arith) (λ e. omega arith))
                  (swap-other a 1 (suc n) j (λ e. j1 (sym e)) (λ e. omega arith))
                  (h j c lj k (omega arith));
            bridge = λ p c lp k k' cn. absurd (omega (arith, child-above 1 p (omega arith) k));
          }) in
        let rest =
          sort_heap-IsResult (suc i) cnt s.result (omega arith) s.heap
            (swap-IsTail n cnt a s.result (omega arith) l h t s.permuted) in
        record {
          array = rest.array;
          returns = rw (s.returns, sort_heap) rest.returns;
          sorted = rest.sorted;
          permuted =
              Permuted-trans compare o cnt a a1 rest.array
                (swapped 1 (suc n) same (omega arith, omega arith) (omega arith, l))
                (Permuted-trans compare o cnt a1 s.result rest.array
                  (Permuted-wider n cnt a1 s.result (omega arith) s.permuted) rest.permuted);
        }

    -- sort ends, and leaves the elements of the array in order: the array is then the given one with
    -- elements exchanged within it, and no element is larger than one behind it. `compare` has to
    -- order the elements: of two at most one is larger than the other, and not being larger is
    -- transitive.
    pub sort-IsResult : (cnt : ℕ) (a : ℕ → A) → IsResult cnt a (sort compare a cnt)
    unfolding sort
    sort-IsResult cnt a =
        let s =
          build_heap-Built (cnt / 2) cnt a (omega arith)
            (λ j c lj k cn. absurd (elim k [ inl e ↦ omega arith | inr e ↦ omega arith ])) in
        let rest = sort_heap-IsResult cnt cnt s.result (omega arith) s.heap (record {
          behind = λ x y a b c. absurd (omega arith);
          across = λ x y a b c d. absurd (omega arith);
        }) in
        record {
          array = rest.array;
          returns = rw (s.returns, sort) rest.returns;
          sorted = rest.sorted;
          permuted = Permuted-trans compare o cnt a s.result rest.array s.permuted rest.permuted;
        }
