-- ===== src/Pintos/Bitmap/Ranges.antt =====
-- Ranges of bits of the bitmap of Project_3/lib/kernel/bitmap.c: writing, testing, counting and
-- searching them.
use system_prog.Base.{
  subst, ℕ, zero, suc, ◌+◌, ◌≤◌, ◌<◌, ◌≡◌, refl, ◌∙◌, Bool, true, false, not, Option, some, arith,
  dec_le, ◌%◌, Bool-cases, inl, inr, ◌⊎◌,
}
use system_prog.Pintos.Bitmap.{
  size_limit, Bitmap, is_range, set_loop, bitmap_set_multiple, is_same, count_loop, bitmap_count,
  contains_loop, bitmap_contains,
}
use system_prog.Pintos.Bitmap.Bits.{IsBitmap, bit, Writes, bitmap_test-bit, bitmap_set-Writes}

-- The `n` bits from `i` on have the value `v`.
abbrev pub AllAre : Bitmap → (i n : ℕ) → Bool → Type 0
AllAre b i n v = (j : ℕ) → i ≤ j → j < i + n → bit b j ≡ v

-- What a write of the value `v` to the `n` bits from `i` on comes to.
pub record Fills (b : Bitmap) (i n : ℕ) (v : Bool) (b' : Bitmap) : Type 0 where
  pub bit_cnt : b'.bit_cnt ≡ b.bit_cnt
  pub good : IsBitmap b'
  pub inside : AllAre b' i n v
  pub before : (j : ℕ) → j < i → bit b' j ≡ bit b j
  pub behind : (j : ℕ) → i + n ≤ j → bit b' j ≡ bit b j

Fills-step :
    (b b1 b' : Bitmap) (i n : ℕ) (v : Bool)
    → Writes b i v b1
    → Fills b1 (suc i) n v b'
    → Fills b i (suc n) v b'
Fills-step b b1 b' i n v w f = record {
  bit_cnt = f.bit_cnt ∙ w.bit_cnt;
  good = f.good;
  inside = λ j l k. elim (dec_le (suc i) j) [
    | yes above ↦ f.inside j above (omega arith)
    | no at ↦
        let e : i ≡ j = omega (arith, at, l) in
        subst (λ m. bit b' m ≡ v) e (f.before i (omega arith) ∙ w.here)
  ];
  before = λ j k. f.before j (omega arith) ∙ w.there j (omega arith);
  behind = λ j k. f.behind j (omega arith) ∙ w.there j (omega arith);
}

set_loop-Fills :
    (n i : ℕ) (v : Bool) (b : Bitmap)
    → IsBitmap b
    → i + n ≤ b.bit_cnt
    → (b' : Bitmap) × (set_loop n i v b ≡ some b') × Fills b i n v b'
unfolding set_loop
set_loop-Fills zero i v b good h = (
  b,
  refl,
  record {
    bit_cnt = refl;
    good = good;
    inside = λ j l k. absurd (omega (arith, l, k));
    before = λ j k. refl;
    behind = λ j k. refl;
  },
)
set_loop-Fills (suc n) i v b good h =
    let w = bitmap_set-Writes b i v good (omega arith) in
    let f = set_loop-Fills n (suc i) v w.0 w.2.good (rw w.2.bit_cnt (omega arith)) in
    (f.0, ground (arith, w.1, f.1), Fills-step b w.0 f.0 i n v w.2 f.2)

is_range-true : (b : Bitmap) (i n : ℕ) → IsBitmap b → i + n ≤ b.bit_cnt → is_range b i n ≡ true
unfolding is_range
is_range-true b i n good h =
    let k = good.small in
    let e : (i + n) % size_limit ≡ i + n = omega (arith, k, h) in rw e (ground arith)

-- bitmap_set_multiple gives every bit of the range the value and leaves all others as they were.
pub bitmap_set_multiple-Fills :
    (b : Bitmap) (start cnt : ℕ) (value : Bool)
    → IsBitmap b
    → start + cnt ≤ b.bit_cnt
    → (b' : Bitmap) × (bitmap_set_multiple b start cnt value ≡ some b') × Fills b start cnt value b'
unfolding bitmap_set_multiple
bitmap_set_multiple-Fills b start cnt value good h =
    let f = set_loop-Fills cnt start value b good h in
    (f.0, rw (is_range-true b start cnt good h) f.1, f.2)

is_same-cases :
    (x v : Bool) → ((is_same x v ≡ true) × (x ≡ v)) ⊎ ((is_same x v ≡ false) × (x ≡ not v))
unfolding is_same
is_same-cases true true = inl (refl, refl)
is_same-cases true false = inr (refl, refl)
is_same-cases false true = inr (refl, refl)
is_same-cases false false = inl (refl, refl)

-- Some bit of the range has the value, or all have the other one.
abbrev pub Found : Option Bool → Bitmap → (i n : ℕ) → Bool → Type 0
Found o b i n v =
    ((o ≡ some true) × (j : ℕ) × (i ≤ j) × (j < i + n) × (bit b j ≡ v))
    ⊎ ((o ≡ some false) × AllAre b i n (not v))

AllAre-suc :
    (b : Bitmap) (i n : ℕ) (v : Bool) → bit b i ≡ v → AllAre b (suc i) n v → AllAre b i (suc n) v
AllAre-suc b i n v here rest j l k = elim (dec_le (suc i) j) [
  | yes above ↦ rest j above (omega arith)
  | no at ↦ let e : i ≡ j = omega (arith, at, l) in subst (λ m. bit b m ≡ v) e here
]

contains_loop-Found :
    (n i : ℕ) (v : Bool) (b : Bitmap)
    → IsBitmap b
    → i + n ≤ b.bit_cnt
    → Found (contains_loop n i v b) b i n v
unfolding contains_loop
contains_loop-Found zero i v b good h = inr (refl, λ j l k. absurd (omega (arith, l, k)))
contains_loop-Found (suc n) i v b good h =
    let t = bitmap_test-bit b i good (omega arith) in
    elim (is_same-cases (bit b i) v) [
      | inl (s, e) ↦ inl (ground (arith, t, s), i, omega arith, omega arith, e)
      | inr (s, e) ↦ elim (contains_loop-Found n (suc i) v b good (omega arith)) [
        | inl (o, j, l, k, f) ↦ inl (ground (arith, t, s, o), j, omega arith, omega arith, f)
        | inr (o, all) ↦ inr (ground (arith, t, s, o), AllAre-suc b i n (not v) e all)
      ]
    ]

-- bitmap_contains says whether some bit of the range has the value.
pub bitmap_contains-Found :
    (b : Bitmap) (start cnt : ℕ) (value : Bool)
    → IsBitmap b
    → start + cnt ≤ b.bit_cnt
    → Found (bitmap_contains b start cnt value) b start cnt value
unfolding bitmap_contains
bitmap_contains-Found b start cnt value good h =
    rw (is_range-true b start cnt good h) (contains_loop-Found cnt start value b good h)

count_loop-split :
    (n i : ℕ) (b : Bitmap)
    → IsBitmap b
    → i + n ≤ b.bit_cnt
    → (set_cnt : ℕ) × (clear_cnt : ℕ) × (count_loop n i true b ≡ some set_cnt)
      × (count_loop n i false b ≡ some clear_cnt)
      × (set_cnt + clear_cnt ≡ n)
unfolding count_loop is_same
count_loop-split zero i b good h = (0, 0, refl, refl, refl)
count_loop-split (suc n) i b good h =
    let t = bitmap_test-bit b i good (omega arith) in
    let (p, q, e, f, sum) = count_loop-split n (suc i) b good (omega arith) in
    elim (Bool-cases (bit b i)) [
      | inl x ↦ (suc p, q, ground (arith, t, x, e), ground (arith, t, x, f), omega (arith, sum))
      | inr x ↦ (p, suc q, ground (arith, t, x, e), ground (arith, t, x, f), omega (arith, sum))
    ]

-- bitmap_count counts each bit of the range once: the number of its set bits and the number of its
-- clear bits make up its length.
bitmap_count_split :
    (b : Bitmap) (start cnt : ℕ)
    → IsBitmap b
    → start + cnt ≤ b.bit_cnt
    → (set_cnt : ℕ) × (clear_cnt : ℕ) × (bitmap_count b start cnt true ≡ some set_cnt)
      × (bitmap_count b start cnt false ≡ some clear_cnt)
      × (set_cnt + clear_cnt ≡ cnt)
unfolding bitmap_count
bitmap_count_split b start cnt good h =
    rw (is_range-true b start cnt good h) (count_loop-split cnt start b good h)
