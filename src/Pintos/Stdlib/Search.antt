-- ===== src/Pintos/Stdlib/Search.antt =====
-- binary_search of Project_3/lib/stdlib.c.
use system_prog.Base.{
  ℕ, zero, suc, ◌+◌, ◌-◌, ◌/◌, ◌≤◌, ◌<◌, ◌≡◌, ◌≢◌, refl, ap, sym, ◌∙◌, ◌⊎◌, inl, inr, false, Option,
  none, some, arith, ltb, Bool-cases, ℕ_discrete, dec_lt,
}
use system_prog.Pintos.Stdlib.{
  Sign, negative, null, positive, is_positive, search_loop, binary_search,
}

Sign-cases : (s : Sign) → (s ≡ negative) ⊎ ((s ≡ null) ⊎ (s ≡ positive))
Sign-cases negative = inl refl
Sign-cases null = inr (inl refl)
Sign-cases positive = inr (inr refl)

module _ {ℓ} {A : Type ℓ} (compare : A → A → Sign) where
  -- The array is in order around the key: what stands before a smaller element is smaller than the
  -- key, and what stands behind a larger one is larger.
  record IsOrdered (key : A) (a : ℕ → A) (cnt : ℕ) : Type ℓ where
    before :
        (x y : ℕ) → x ≤ y → y < cnt → compare key (a y) ≡ positive → compare key (a x) ≡ positive
    behind :
        (x y : ℕ) → x ≤ y → y < cnt → compare key (a x) ≡ negative → compare key (a y) ≡ negative

  -- A match, or the fact that there is none.
  abbrev pub IsFound : A → (ℕ → A) → ℕ → Option ℕ → Type 0
  IsFound key a cnt (some x) = (x < cnt) × (compare key (a x) ≡ null)
  IsFound key a cnt none = (x : ℕ) → x < cnt → compare key (a x) ≢ null

  search_loop-IsFound :
      (fuel : ℕ) (key : A) (a : ℕ → A) (cnt first last : ℕ)
      → IsOrdered key a cnt
      → last ≤ cnt
      → first ≤ last
      → last < fuel + first
      → ((x : ℕ) → x < first → x < cnt → compare key (a x) ≡ positive)
      → ((x : ℕ) → last ≤ x → x < cnt → compare key (a x) ≡ negative)
      → (r : Option ℕ) × (search_loop compare fuel key a first last ≡ some r) × IsFound key a cnt r
  unfolding search_loop
  search_loop-IsFound zero key a cnt first last o l w f p n = absurd (omega arith)
  search_loop-IsFound (suc fuel) key a cnt first last o l w f p n =
      let m = first + (last - first) / 2 in
      elim (Bool-cases (ltb first last)) [
        | inl e ↦
            let fl : first < last = ground (arith, e) in
            let ml : m < last = omega arith in
            let fm : first ≤ m = omega arith in
            elim (Sign-cases (compare key (a m))) [
              | inl s ↦
                  let (r, q, v) =
                    search_loop-IsFound fuel key a cnt first m o (omega arith) fm (omega arith) p
                      (λ x h k. o.behind m x h k s) in
                  (r, rw (e, s, search_loop) q, v)
              | inr (inl s) ↦ (some m, rw (e, s, search_loop) refl, (omega arith, s))
              | inr (inr s) ↦
                  let (r, q, v) =
                    search_loop-IsFound fuel key a cnt (suc m) last o l ml (omega arith)
                      (λ x h k. o.before x m (omega arith) (omega arith) s) n in
                  (r, rw (e, s, search_loop) q, v)
            ]
        | inr e ↦
            let lf : last ≤ first = ground (arith, e) in
            (
              none,
              rw (e, search_loop) refl,
              λ x h z. elim (dec_lt x first) [
                | yes k ↦ ground (arith, z, p x k h)
                | no k ↦ ground (arith, z, n x (omega (arith, k)) h)
              ],
            )
      ]

  -- What `compare` has to be: what is less than an element is less than every element that is not
  -- smaller, and what is larger than an element is larger than every element that is not larger.
  pub record IsComparison : Type ℓ where
    pub less :
        (k x y : A)
        → compare k x ≡ negative
        → is_positive (compare x y) ≡ false
        → compare k y ≡ negative
    pub more :
        (k x y : A)
        → compare k y ≡ positive
        → is_positive (compare x y) ≡ false
        → compare k x ≡ positive

  -- No element of the array is larger than one behind it.
  abbrev pub IsAscending : ℕ → (ℕ → A) → Type 0
  IsAscending cnt a = (x y : ℕ) → x < y → y < cnt → is_positive (compare (a x) (a y)) ≡ false

  ascending-IsOrdered :
      (key : A) (a : ℕ → A) (cnt : ℕ) → IsComparison → IsAscending cnt a → IsOrdered key a cnt
  ascending-IsOrdered key a cnt c s = record {
    before = λ x y h k e. elim (ℕ_discrete x y) [
      | yes q ↦ ap (λ z. compare key (a z)) q ∙ e
      | no q ↦ c.more key (a x) (a y) e (s x y (omega (arith, q)) k)
    ];
    behind = λ x y h k e. elim (ℕ_discrete x y) [
      | yes q ↦ ap (λ z. compare key (a z)) (sym q) ∙ e
      | no q ↦ c.less key (a x) (a y) e (s x y (omega (arith, q)) k)
    ];
  }

  -- binary_search on an array that is in ascending order ends: it returns a place of the array whose
  -- element equals the key, or null when there is none. The comparison has to be one of an order.
  pub binary_search-IsFound :
      (key : A) (a : ℕ → A) (cnt : ℕ)
      → IsComparison
      → IsAscending cnt a
      → (r : Option ℕ) × (binary_search compare key a cnt ≡ some r) × IsFound key a cnt r
  unfolding binary_search
  binary_search-IsFound key a cnt c s =
      search_loop-IsFound (suc cnt) key a cnt 0 cnt (ascending-IsOrdered key a cnt c s)
        (omega arith) (omega arith) (omega arith) (λ x h k. absurd (omega arith))
        (λ x h k. absurd (omega arith))
