-- ===== src/Pintos/Stdlib/Heap.antt =====
-- heapify of Project_3/lib/stdlib.c restores the order of a heap.
use system_prog.Base.{
  ℕ, zero, suc, ◌+◌, ◌*◌, ◌≤◌, ◌<◌, ◌≡◌, ◌≢◌, refl, ap, ap₂, sym, subst, ◌∙◌, ◌⊎◌, inl, inr, Bool,
  true, false, ◌&&◌, Option, some, arith, leb, ◌==◌, ==_iff, Bool-cases, ℕ_discrete, update,
  update_self, update_ne,
}
use system_prog.Pintos.Stdlib.{
  Sign, is_positive, do_swap, do_compare, larger_left, larger_right, largest, heapify_loop, heapify,
}

-- A child of the place `j` in the heap.
abbrev pub IsChild : ℕ → ℕ → Type 0
IsChild c j = (c ≡ 2 * j) ⊎ (c ≡ 2 * j + 1)

pub child-above : (c j : ℕ) → 0 < j → IsChild c j → j < c
child-above c j h (inl e) = omega arith
child-above c j h (inr e) = omega arith

one_parent : (c j k : ℕ) → IsChild c j → IsChild c k → j ≡ k
one_parent c j k (inl e) (inl f) = omega arith
one_parent c j k (inl e) (inr f) = omega arith
one_parent c j k (inr e) (inl f) = omega arith
one_parent c j k (inr e) (inr f) = omega arith

module _ {ℓ} {A : Type ℓ} where
  pub swap-left : (a : ℕ → A) (i j : ℕ) → i ≢ j → do_swap a i j i ≡ a j
  unfolding do_swap
  swap-left a i j n =
      update_ne j (a i) (update i (a j) a) i (λ q. n (sym q)) ∙ update_self i (a j) a

  pub swap-right : (a : ℕ → A) (i j : ℕ) → do_swap a i j j ≡ a i
  unfolding do_swap
  swap-right a i j = update_self j (a i) (update i (a j) a)

  pub swap-other : (a : ℕ → A) (i j x : ℕ) → i ≢ x → j ≢ x → do_swap a i j x ≡ a x
  unfolding do_swap
  swap-other a i j x n m = update_ne j (a i) (update i (a j) a) x m ∙ update_ne i (a j) a x n

  -- The elements of the places 1 to `cnt`, exchanged one pair after the other.
  pub data Permuted (cnt : ℕ) (a : ℕ → A) : (ℕ → A) → Type ℓ where
    same : Permuted cnt a a
    swapped :
        {b : ℕ → A} (i j : ℕ)
        → Permuted cnt a b
        → (0 < i) × (i ≤ cnt)
        → (0 < j) × (j ≤ cnt)
        → Permuted cnt a (do_swap b i j)

  -- What `compare` has to be: it orders the elements, and elements may be equal.
  pub record IsOrder (compare : A → A → Sign) : Type ℓ where
    pub asym : (x y : A) → is_positive (compare x y) ≡ true → is_positive (compare y x) ≡ false
    pub trans :
        (x y z : A)
        → is_positive (compare x y) ≡ false
        → is_positive (compare y z) ≡ false
        → is_positive (compare x z) ≡ false

  module _ (compare : A → A → Sign) (o : IsOrder compare) where
    -- `x` is not larger than `y`.
    abbrev pub Le : A → A → Type 0
    Le x y = is_positive (compare x y) ≡ false

    pub Le-refl : (x : A) → Le x x
    Le-refl x = elim (Bool-cases (is_positive (compare x x))) [ inl e ↦ o.asym x x e | inr e ↦ e ]

    -- From the place `lo` on no element is larger than its parent, but for the children of `i`; they
    -- are not larger than the parent of `i`.
    pub record IsSifting (lo i cnt : ℕ) (a : ℕ → A) : Type ℓ where
      pub ordered : (j c : ℕ) → lo ≤ j → IsChild c j → c ≤ cnt → j ≢ i → Le (a c) (a j)
      pub bridge : (p c : ℕ) → lo ≤ p → IsChild i p → IsChild c i → c ≤ cnt → Le (a c) (a p)

    abbrev pub IsHeap : ℕ → ℕ → (ℕ → A) → Type 0
    IsHeap lo cnt a = (j c : ℕ) → lo ≤ j → IsChild c j → c ≤ cnt → Le (a c) (a j)

    -- What the two tests choose: no child is larger than the chosen place.
    record Chosen (i cnt m : ℕ) (a : ℕ → A) : Type ℓ where
      where_from : (m ≡ i) ⊎ (IsChild m i × (m ≤ cnt))
      above : Le (a i) (a m)
      most : (c : ℕ) → IsChild c i → c ≤ cnt → Le (a c) (a m)

    test-true : (x cnt : ℕ) (b : Bool) → (leb x cnt && b) ≡ true → (x ≤ cnt) × (b ≡ true)
    test-true x cnt b e = ground (arith, e)

    test-false : (x cnt : ℕ) (b : Bool) → (leb x cnt && b) ≡ false → x ≤ cnt → b ≡ false
    test-false x cnt b e h = ground (arith, e, h)

    left-cases :
        (a : ℕ → A) (i cnt : ℕ)
        → ((larger_left compare a i cnt ≡ i) × (2 * i ≤ cnt → Le (a (2 * i)) (a i)))
          ⊎ ((larger_left compare a i cnt ≡ 2 * i) × (2 * i ≤ cnt) × Le (a i) (a (2 * i)))
    unfolding larger_left do_compare
    left-cases a i cnt =
        let b = is_positive (compare (a (2 * i)) (a i)) in
        elim (Bool-cases (leb (2 * i) cnt && b)) [
          | inl e ↦
              let (l, p) = test-true (2 * i) cnt b e in
              inr (rw e refl, l, o.asym (a (2 * i)) (a i) p)
          | inr e ↦ inl (rw e refl, test-false (2 * i) cnt b e)
        ]

    right-cases :
        (a : ℕ → A) (i cnt m : ℕ)
        → ((larger_right compare a i cnt m ≡ m) × (2 * i + 1 ≤ cnt → Le (a (2 * i + 1)) (a m)))
          ⊎ ((larger_right compare a i cnt m ≡ 2 * i + 1)
              × (2 * i + 1 ≤ cnt)
              × Le (a m) (a (2 * i + 1)))
    unfolding larger_right do_compare
    right-cases a i cnt m =
        let b = is_positive (compare (a (2 * i + 1)) (a m)) in
        elim (Bool-cases (leb (2 * i + 1) cnt && b)) [
          | inl e ↦
              let (l, p) = test-true (2 * i + 1) cnt b e in
              inr (rw e refl, l, o.asym (a (2 * i + 1)) (a m) p)
          | inr e ↦ inl (rw e refl, test-false (2 * i + 1) cnt b e)
        ]

    -- The chosen place of the left test, and what it is above of.
    right-Chosen :
        (a : ℕ → A) (i cnt m : ℕ)
        → (m ≡ i) ⊎ (IsChild m i × (m ≤ cnt))
        → Le (a i) (a m)
        → (2 * i ≤ cnt → Le (a (2 * i)) (a m))
        → Chosen i cnt (larger_right compare a i cnt m) a
    right-Chosen a i cnt m f l k = elim (right-cases a i cnt m) [
      | inl (e, r) ↦
          subst (λ x. Chosen i cnt x a) (sym e)
            (record {
              where_from = f;
              above = l;
              most = λ c q h. elim q [
                | inl z ↦ subst (λ y. Le (a y) (a m)) (sym z) (k (subst (λ y. y ≤ cnt) z h))
                | inr z ↦ subst (λ y. Le (a y) (a m)) (sym z) (r (subst (λ y. y ≤ cnt) z h))
              ];
            })
      | inr (e, s, r) ↦
          subst (λ x. Chosen i cnt x a) (sym e)
            (record {
              where_from = inr (inr refl, s);
              above = o.trans (a i) (a m) (a (2 * i + 1)) l r;
              most = λ c q h. elim q [
                | inl z ↦
                    subst (λ y. Le (a y) (a (2 * i + 1))) (sym z)
                      (o.trans (a (2 * i)) (a m) (a (2 * i + 1)) (k (subst (λ y. y ≤ cnt) z h)) r)
                | inr z ↦ subst (λ y. Le (a y) (a (2 * i + 1))) (sym z) (Le-refl (a (2 * i + 1)))
              ];
            })
    ]

    largest-Chosen : (a : ℕ → A) (i cnt : ℕ) → Chosen i cnt (largest compare a i cnt) a
    unfolding largest
    largest-Chosen a i cnt = elim (left-cases a i cnt) [
      | inl (e, k) ↦
          subst (λ x. Chosen i cnt (larger_right compare a i cnt x) a) (sym e)
            (right-Chosen a i cnt i (inl refl) (Le-refl (a i)) k)
      | inr (e, s, k) ↦
          subst (λ x. Chosen i cnt (larger_right compare a i cnt x) a) (sym e)
            (right-Chosen a i cnt (2 * i) (inr (inl refl, s)) k (λ _. Le-refl (a (2 * i))))
    ]

    pub Le-at : {u v x y : A} → x ≡ u → y ≡ v → Le u v → Le x y
    Le-at e f h = ap₂ (λ p q. is_positive (compare p q)) e f ∙ h

    -- The element goes down to the chosen child, and the order is broken there at most.
    sift-IsSifting :
        (lo i cnt m : ℕ) (a : ℕ → A)
        → 0 < lo
        → lo ≤ i
        → IsChild m i
        → m ≤ cnt
        → Chosen i cnt m a
        → IsSifting lo i cnt a
        → IsSifting lo m cnt (do_swap a i m)
    sift-IsSifting lo i cnt m a z li q mc c h =
        let below = child-above m i (omega arith) q in
        let im : i ≢ m = λ e. omega arith in
        let b = do_swap a i m in
        let l : b i ≡ a m = swap-left a i m im in
        let r : b m ≡ a i = swap-right a i m in
        let other : (x : ℕ) → i ≢ x → m ≢ x → b x ≡ a x = swap-other a i m in
        record {
          ordered = λ j x lj k xc n. elim (ℕ_discrete i j) [
            | yes ij ↦
                let kx : IsChild x i = subst (IsChild x) (sym ij) k in
                let x_above = child-above x i (omega arith) kx in
                elim (ℕ_discrete m x) [
                  | yes mx ↦ Le-at (ap b (sym mx) ∙ r) (ap b (sym ij) ∙ l) c.above
                  | no mx ↦
                      Le-at (other x (λ e. omega arith) mx) (ap b (sym ij) ∙ l) (c.most x kx xc)
                ]
            | no ij ↦
                let fixed : b j ≡ a j = other j ij (λ e. n (sym e)) in
                elim (ℕ_discrete i x) [
                  | yes ix ↦
                      Le-at (ap b (sym ix) ∙ l) fixed
                        (h.bridge j m lj (subst (λ y. IsChild y j) (sym ix) k) q mc)
                  | no ix ↦ elim (ℕ_discrete m x) [
                    | yes mx ↦
                        absurd (ij (one_parent m i j q (subst (λ y. IsChild y j) (sym mx) k)))
                    | no mx ↦ Le-at (other x ix mx) fixed (h.ordered j x lj k xc (λ e. ij (sym e)))
                  ]
                ]
          ];
          bridge = λ p x lp k k' xc.
              let pi = one_parent m p i k q in
              let x_above = child-above x m (omega arith) k' in
              Le-at (other x (λ e. omega arith) (λ e. omega arith)) (ap b pi ∙ l)
                (h.ordered m x (omega arith) k' xc (λ e. im (sym e)));
        }

    -- heapify makes a heap of a heap that is broken at one place, by exchanges within it.
    pub record Sifted (lo cnt : ℕ) (a : ℕ → A) (r : Option (ℕ → A)) : Type ℓ where
      pub result : ℕ → A
      pub returns : r ≡ some result
      pub heap : IsHeap lo cnt result
      pub permuted : Permuted cnt a result

    pub Permuted-trans :
        (cnt : ℕ) (a b c : ℕ → A) → Permuted cnt a b → Permuted cnt b c → Permuted cnt a c
    Permuted-trans cnt a b _ p same = p
    Permuted-trans cnt a b _ p (swapped {b = d} i j q ib jb) =
        swapped i j (Permuted-trans cnt a b d p q) ib jb

    heapify_loop-Sifted :
        (fuel lo i cnt : ℕ) (a : ℕ → A)
        → 0 < lo
        → lo ≤ i
        → i ≤ cnt
        → cnt < fuel + i
        → IsSifting lo i cnt a
        → Sifted lo cnt a (heapify_loop compare fuel a i cnt)
    unfolding heapify_loop
    heapify_loop-Sifted zero lo i cnt a z li ic f h = absurd (omega arith)
    heapify_loop-Sifted (suc fuel) lo i cnt a z li ic f h =
        let m = largest compare a i cnt in
        let c = largest-Chosen a i cnt in
        let stays : (m == i) ≡ true → Sifted lo cnt a (heapify_loop compare (suc fuel) a i cnt) =
          λ e. record {
            result = a;
            returns = rw (e, heapify_loop) refl;
            heap = λ j x lj k xc. elim (ℕ_discrete j i) [
              | yes ji ↦
                  Le-at refl (ap a (ji ∙ sym ((==_iff m i).0 e)))
                    (c.most x (subst (IsChild x) ji k) xc)
              | no ji ↦ h.ordered j x lj k xc ji
            ];
            permuted = same;
          } in
        let goes : (m == i) ≡ false
            → IsChild m i
            → m ≤ cnt
            → Sifted lo cnt a (heapify_loop compare (suc fuel) a i cnt) =
          λ e q mc.
            let below = child-above m i (omega arith) q in
            let rest =
              heapify_loop-Sifted fuel lo m cnt (do_swap a i m) z (omega arith) mc (omega arith)
                (sift-IsSifting lo i cnt m a z li q mc c h) in
            record {
              result = rest.result;
              returns = rw (e, heapify_loop) rest.returns;
              heap = rest.heap;
              permuted =
                  Permuted-trans cnt a (do_swap a i m) rest.result
                    (swapped i m same (omega arith, ic) (omega arith, mc)) rest.permuted;
            } in
        elim (Bool-cases (m == i)) [
          | inl e ↦ stays e
          | inr e ↦ elim c.where_from [
            | inl y ↦ absurd (ground (arith, e, y))
            | inr (q, mc) ↦ goes e q mc
          ]
        ]

    pub heapify-Sifted :
        (lo i cnt : ℕ) (a : ℕ → A)
        → 0 < lo
        → lo ≤ i
        → i ≤ cnt
        → IsSifting lo i cnt a
        → Sifted lo cnt a (heapify compare a i cnt)
    unfolding heapify
    heapify-Sifted lo i cnt a z li ic h =
        heapify_loop-Sifted (suc cnt) lo i cnt a z li ic (omega arith) h
