-- ===== src/Pintos/Bitmap/Bits.antt =====
-- Single bits of the bitmap of Project_3/lib/kernel/bitmap.c: each operation changes the bit that
-- it is asked for and no other.
use system_prog.Base.{
  subst, ℕ, zero, suc, ◌+◌, ◌/◌, ◌%◌, ◌<◌, ◌≡◌, ◌≢◌, refl, ap, sym, ◌∙◌, Bool, true, false, ◌&&◌,
  ◌||◌, not, some, List, [], ◌∷◌, arith, length, get_elem?, get_or, set, replicate, All, length-set,
  get_or-set_self, get_or-set_ne, ℕ_discrete,
}
use system_prog.Pintos.Bitmap.{
  elem_bits, size_limit, Elem, Bitmap, elem_idx, bit_mask, elem_cnt, zip_digits, differ, complement,
  is_nonzero, combine, bitmap_mark, bitmap_reset, bitmap_flip, bitmap_set, bitmap_test,
}

-- The abstract view: the bit with a number.
abbrev pub bit : Bitmap → ℕ → Bool
bit b i = get_or (get_or b.bits (i / elem_bits) []) (i % elem_bits) false

pub record IsBitmap (b : Bitmap) : Type 0 where
  pub small : b.bit_cnt + 31 < size_limit
  pub size : length b.bits ≡ elem_cnt b.bit_cnt
  pub digits : All (λ e. length e ≡ elem_bits) b.bits

pub elem_idx-lt : (n i : ℕ) → n + 31 < size_limit → i < n → i / elem_bits < elem_cnt n
unfolding elem_cnt
elem_idx-lt n i h k = omega arith

module _ {ℓ} {A : Type ℓ} where
  pub get_elem?-get_or :
      (xs : List A) (i : ℕ) (d : A) → i < length xs → get_elem? xs i ≡ some (get_or xs i d)
  get_elem?-get_or [] i d h = ground (arith, h)
  get_elem?-get_or (x ∷ xs) zero d h = refl
  get_elem?-get_or (x ∷ xs) (suc i) d h = get_elem?-get_or xs i d (omega arith)

  pub All-get_or {κ} :
      (P : A → Type κ) (xs : List A) (i : ℕ) (d : A) → All P xs → i < length xs → P (get_or xs i d)
  All-get_or P [] i d v h = absurd (ground (arith, h))
  All-get_or P (x ∷ xs) zero d v h = v.0
  All-get_or P (x ∷ xs) (suc i) d v h = All-get_or P xs i d v.1 (omega arith)

  pub All-set {κ} :
      (P : A → Type κ) (xs : List A) (i : ℕ) (a : A) → All P xs → P a → All P (set xs i a)
  All-set P [] i a v h = tt
  All-set P (x ∷ xs) zero a v h = (h, v.1)
  All-set P (x ∷ xs) (suc i) a v h = (v.0, All-set P xs i a v.1 h)

  pub get_or-replicate : (n i : ℕ) (a : A) → get_or (replicate n a) i a ≡ a
  get_or-replicate zero i a = refl
  get_or-replicate (suc n) zero a = refl
  get_or-replicate (suc n) (suc i) a = get_or-replicate n i a

pub length-zip_digits :
    (f : Bool → Bool → Bool) (xs ys : Elem)
    → length xs ≡ length ys
    → length (zip_digits f xs ys) ≡ length xs
unfolding zip_digits
length-zip_digits f [] ys h = refl
length-zip_digits f (x ∷ xs) [] h = ground (arith, h)
length-zip_digits f (x ∷ xs) (y ∷ ys) h = ap suc (length-zip_digits f xs ys (omega arith))

pub get_or-zip_digits :
    (f : Bool → Bool → Bool) (xs ys : Elem) (i : ℕ)
    → length xs ≡ length ys
    → i < length xs
    → get_or (zip_digits f xs ys) i false ≡ f (get_or xs i false) (get_or ys i false)
unfolding zip_digits
get_or-zip_digits f [] ys i h k = ground (arith, k)
get_or-zip_digits f (x ∷ xs) [] i h k = ground (arith, h)
get_or-zip_digits f (x ∷ xs) (y ∷ ys) zero h k = refl
get_or-zip_digits f (x ∷ xs) (y ∷ ys) (suc i) h k =
    get_or-zip_digits f xs ys i (omega arith) (omega arith)

length-complement : (xs : Elem) → length (complement xs) ≡ length xs
unfolding complement
length-complement [] = refl
length-complement (x ∷ xs) = ap suc (length-complement xs)

get_or-complement :
    (xs : Elem) (i : ℕ) → i < length xs → get_or (complement xs) i false ≡ not (get_or xs i false)
unfolding complement
get_or-complement [] i h = ground (arith, h)
get_or-complement (x ∷ xs) zero h = refl
get_or-complement (x ∷ xs) (suc i) h = get_or-complement xs i (omega arith)

length-bit_mask : (i : ℕ) → length (bit_mask i) ≡ elem_bits
unfolding bit_mask
length-bit_mask i = length-set (replicate elem_bits false) (i % elem_bits) true

mask_self : (i : ℕ) → get_or (bit_mask i) (i % elem_bits) false ≡ true
unfolding bit_mask
mask_self i = get_or-set_self (replicate elem_bits false) (i % elem_bits) true false (omega arith)

mask_other : (i k : ℕ) → i % elem_bits ≢ k → get_or (bit_mask i) k false ≡ false
unfolding bit_mask
mask_other i k h =
    get_or-set_ne (replicate elem_bits false) (i % elem_bits) k true false h
    ∙ get_or-replicate elem_bits k false

nonzero-none :
    (xs : Elem) (n : ℕ) → is_nonzero (zip_digits (λ x y. x && y) xs (replicate n false)) ≡ false
unfolding is_nonzero zip_digits
nonzero-none [] n = refl
nonzero-none (x ∷ xs) zero = refl
nonzero-none (true ∷ xs) (suc n) = nonzero-none xs n
nonzero-none (false ∷ xs) (suc n) = nonzero-none xs n

nonzero-one :
    (xs : Elem) (n k : ℕ)
    → length xs ≡ n
    → k < n
    → is_nonzero (zip_digits (λ x y. x && y) xs (set (replicate n false) k true))
      ≡ get_or xs k false
unfolding is_nonzero zip_digits
nonzero-one xs zero k h l = ground (arith, l)
nonzero-one [] (suc n) k h l = ground (arith, h)
nonzero-one (x ∷ xs) (suc n) zero h l = ground (arith, nonzero-none xs n)
nonzero-one (x ∷ xs) (suc n) (suc k) h l =
    ground (arith, nonzero-one xs n k (omega arith) (omega arith))

pub bitmap_test-bit :
    (b : Bitmap) (i : ℕ) → IsBitmap b → i < b.bit_cnt → bitmap_test b i ≡ some (bit b i)
unfolding bitmap_test elem_idx bit_mask
bitmap_test-bit b i v h =
    let room : i / elem_bits < length b.bits = rw v.size (elem_idx-lt b.bit_cnt i v.small h) in
    let e = get_or b.bits (i / elem_bits) [] in
    let len = All-get_or (λ d. length d ≡ elem_bits) b.bits (i / elem_bits) [] v.digits room in
    ground (
      arith,
      get_elem?-get_or b.bits (i / elem_bits) [] room,
      nonzero-one e elem_bits (i % elem_bits) len (omega arith),
    )

-- What one write of the value `v` to the bit `i` comes to.
pub record Writes (b : Bitmap) (i : ℕ) (v : Bool) (b' : Bitmap) : Type 0 where
  pub bit_cnt : b'.bit_cnt ≡ b.bit_cnt
  pub good : IsBitmap b'
  pub here : bit b' i ≡ v
  pub there : (j : ℕ) → j ≢ i → bit b' j ≡ bit b j

same_digit : (i j : ℕ) → j ≢ i → j / elem_bits ≡ i / elem_bits → i % elem_bits ≢ j % elem_bits
same_digit i j h e = omega (arith, h, e)

pub combine-Writes :
    (op : Bool → Bool → Bool) (arg : Elem) (i : ℕ) (b : Bitmap)
    → IsBitmap b
    → i < b.bit_cnt
    → length arg ≡ elem_bits
    → ((k : ℕ) → k < elem_bits → i % elem_bits ≢ k → (x : Bool) → op x (get_or arg k false) ≡ x)
    → (b' : Bitmap) × (combine op arg (elem_idx i) b ≡ some b')
      × Writes b i (op (bit b i) (get_or arg (i % elem_bits) false)) b'
unfolding combine elem_idx
combine-Writes op arg i b v h la keep =
    let idx = i / elem_bits in
    let room : idx < length b.bits = rw v.size (elem_idx-lt b.bit_cnt i v.small h) in
    let e = get_or b.bits idx [] in
    let le : length e ≡ elem_bits =
      All-get_or (λ d. length d ≡ elem_bits) b.bits idx [] v.digits room in
    let e' = zip_digits op e arg in
    let same : length e ≡ length arg = omega arith in
    let b' : Bitmap = record b { bits = set b.bits idx e' } in
    let new : get_or (set b.bits idx e') idx [] ≡ e' = get_or-set_self b.bits idx e' [] room in
    (
      b',
      ground (arith, get_elem?-get_or b.bits idx [] room),
      record {
        bit_cnt = refl;
        good = record {
          small = v.small;
          size = length-set b.bits idx e' ∙ v.size;
          digits =
              All-set (λ d. length d ≡ elem_bits) b.bits idx e' v.digits
                (length-zip_digits op e arg same ∙ le);
        };
        here = rw new (get_or-zip_digits op e arg (i % elem_bits) same (omega arith));
        there = λ j ne. elim (ℕ_discrete (j / elem_bits) idx) [
          | no other ↦
              ap (λ w. get_or w (j % elem_bits) false)
                (get_or-set_ne b.bits idx (j / elem_bits) e' [] (λ q. other (sym q)))
          | yes q ↦
              rw (q, new)
                (get_or-zip_digits op e arg (j % elem_bits) same (omega arith)
                  ∙ keep (j % elem_bits) (omega arith) (same_digit i j ne q)
                      (get_or e (j % elem_bits) false))
        ];
      },
    )

or_false : (x : Bool) → (x || false) ≡ x
or_false true = refl
or_false false = refl

or_true : (x : Bool) → (x || true) ≡ true
or_true true = refl
or_true false = refl

pub and_true : (x : Bool) → (x && true) ≡ x
and_true true = refl
and_true false = refl

and_false : (x : Bool) → (x && false) ≡ false
and_false true = refl
and_false false = refl

differ-false : (x : Bool) → differ x false ≡ x
unfolding differ
differ-false true = refl
differ-false false = refl

differ-true : (x : Bool) → differ x true ≡ not x
unfolding differ
differ-true true = refl
differ-true false = refl

pub bitmap_mark-Writes :
    (b : Bitmap) (i : ℕ)
    → IsBitmap b
    → i < b.bit_cnt
    → (b' : Bitmap) × (bitmap_mark b i ≡ some b') × Writes b i true b'
unfolding bitmap_mark
bitmap_mark-Writes b i v h =
    let w =
      combine-Writes (λ x y. x || y) (bit_mask i) i b v h (length-bit_mask i)
        (λ k l ne x. rw (mask_other i k ne) (or_false x)) in
    (w.0, w.1, subst (λ x. Writes b i x w.0) (rw (mask_self i) (or_true (bit b i))) w.2)

not_mask_self : (i : ℕ) → get_or (complement (bit_mask i)) (i % elem_bits) false ≡ false
not_mask_self i =
    get_or-complement (bit_mask i) (i % elem_bits) (rw (length-bit_mask i) (omega arith))
    ∙ ap not (mask_self i)

not_mask_other :
    (i k : ℕ) → k < elem_bits → i % elem_bits ≢ k → get_or (complement (bit_mask i)) k false ≡ true
not_mask_other i k l ne =
    get_or-complement (bit_mask i) k (rw (length-bit_mask i) l) ∙ ap not (mask_other i k ne)

bitmap_reset-Writes :
    (b : Bitmap) (i : ℕ)
    → IsBitmap b
    → i < b.bit_cnt
    → (b' : Bitmap) × (bitmap_reset b i ≡ some b') × Writes b i false b'
unfolding bitmap_reset
bitmap_reset-Writes b i v h =
    let w =
      combine-Writes (λ x y. x && y) (complement (bit_mask i)) i b v h
        (length-complement (bit_mask i) ∙ length-bit_mask i)
        (λ k l ne x. rw (not_mask_other i k l ne) (and_true x)) in
    (w.0, w.1, subst (λ x. Writes b i x w.0) (rw (not_mask_self i) (and_false (bit b i))) w.2)

-- bitmap_flip turns the bit over and leaves every other bit as it was.
pub bitmap_flip-Writes :
    (b : Bitmap) (i : ℕ)
    → IsBitmap b
    → i < b.bit_cnt
    → (b' : Bitmap) × (bitmap_flip b i ≡ some b') × Writes b i (not (bit b i)) b'
unfolding bitmap_flip
bitmap_flip-Writes b i v h =
    let w =
      combine-Writes differ (bit_mask i) i b v h (length-bit_mask i)
        (λ k l ne x. rw (mask_other i k ne) (differ-false x)) in
    (w.0, w.1, subst (λ x. Writes b i x w.0) (rw (mask_self i) (differ-true (bit b i))) w.2)

-- bitmap_set gives the bit the value and leaves every other bit as it was; with bitmap_test this is
-- an array of bits.
pub bitmap_set-Writes :
    (b : Bitmap) (i : ℕ) (value : Bool)
    → IsBitmap b
    → i < b.bit_cnt
    → (b' : Bitmap) × (bitmap_set b i value ≡ some b') × Writes b i value b'
unfolding bitmap_set
bitmap_set-Writes b i true v h =
    let w = bitmap_mark-Writes b i v h in (w.0, ground (arith, w.1), w.2)
bitmap_set-Writes b i false v h =
    let w = bitmap_reset-Writes b i v h in (w.0, ground (arith, w.1), w.2)
