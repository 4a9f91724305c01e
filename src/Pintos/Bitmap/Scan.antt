-- ===== src/Pintos/Bitmap/Scan.antt =====
-- The search for free bits in the bitmap of Project_3/lib/kernel/bitmap.c.
use system_prog.Base.{
  subst, ℕ, zero, suc, ◌+◌, ◌-◌, ◌≤◌, ◌<◌, ◌≡◌, ◌≢◌, refl, sym, ◌∙◌, Bool, true, false, not, Option,
  some, arith, dec_le, inl, inr, ◌⊎◌,
}
use system_prog.Pintos.Bitmap.{
  Bitmap, bitmap_error, scan_loop, bitmap_scan, flip_found, bitmap_scan_and_flip,
}
use system_prog.Pintos.Bitmap.Bits.{IsBitmap}
use system_prog.Pintos.Bitmap.Ranges.{
  AllAre, Fills, bitmap_set_multiple-Fills, bitmap_contains-Found,
}

-- No group of `cnt` bits of the value `v` starts at one of the `n` indices from `i` on.
abbrev pub NoGroup : Bitmap → (i n cnt : ℕ) → Bool → Type 0
NoGroup b i n cnt v = (k : ℕ) → i ≤ k → k < i + n → ¬ (AllAre b k cnt v)

-- The first group of the value, or none.
abbrev pub First : Option ℕ → Bitmap → (i n cnt : ℕ) → Bool → Type 0
First o b i n cnt v =
    ((idx : ℕ) × (o ≡ some idx)
      × (i ≤ idx)
      × (idx < i + n)
      × AllAre b idx cnt v
      × NoGroup b i (idx - i) cnt v)
    ⊎ ((o ≡ some bitmap_error) × NoGroup b i n cnt v)

not-differs : (v : Bool) → ¬ (not v ≡ v)
not-differs true h = ground (arith, h)
not-differs false h = ground (arith, h)

not-not : (v : Bool) → not (not v) ≡ v
not-not true = refl
not-not false = refl

NoGroup-suc :
    (b : Bitmap) (i n cnt : ℕ) (v : Bool)
    → ¬ (AllAre b i cnt v)
    → NoGroup b (suc i) n cnt v
    → NoGroup b i (suc n) cnt v
NoGroup-suc b i n cnt v here rest k l m = elim (dec_le (suc i) k) [
  | yes above ↦ rest k above (omega arith)
  | no at ↦ let e : i ≡ k = omega (arith, at, l) in subst (λ x. ¬ (AllAre b x cnt v)) e here
]

scan_loop-First :
    (left i cnt : ℕ) (v : Bool) (b : Bitmap)
    → IsBitmap b
    → (0 < left → i + left + cnt ≤ b.bit_cnt + 1)
    → First (scan_loop left i cnt v b) b i left cnt v
unfolding scan_loop
scan_loop-First zero i cnt v b good h = inr (refl, λ k l m. absurd (omega (arith, l, m)))
scan_loop-First (suc left) i cnt v b good h =
    elim (bitmap_contains-Found b i cnt (not v) good (omega (arith, h (omega arith)))) [
      | inr (o, all) ↦ inl (
        i,
        ground (arith, o),
        omega arith,
        omega arith,
        λ j l k. all j l k ∙ not-not v,
        λ k l m. absurd (omega (arith, l, m)),
      )
      | inl (o, j, l, k, f) ↦
          let none_here : ¬ (AllAre b i cnt v) = λ all. not-differs v (sym f ∙ all j l k) in
          elim (scan_loop-First left (suc i) cnt v b good (λ q. omega (arith, h (omega arith)))) [
            | inl (idx, p, above, below, all, none_before) ↦ inl (
              idx,
              ground (arith, o, p),
              omega arith,
              omega arith,
              all,
              subst (λ n. NoGroup b i n cnt v) (omega arith)
                  (NoGroup-suc b i (idx - suc i) cnt v none_here none_before),
            )
            | inr (p, none_after) ↦
                inr (ground (arith, o, p), NoGroup-suc b i left cnt v none_here none_after)
          ]
    ]

-- bitmap_scan returns the first index at or after `start` from which `cnt` bits have the value and
-- lie in the bitmap, and BITMAP_ERROR only if there is none; it never reads outside the array.
pub bitmap_scan-First :
    (b : Bitmap) (start cnt : ℕ) (value : Bool)
    → IsBitmap b
    → start ≤ b.bit_cnt
    → First (bitmap_scan b start cnt value) b start ((b.bit_cnt + 1) - cnt - start) cnt value
unfolding bitmap_scan
bitmap_scan-First b start cnt value good h = elim (dec_le cnt b.bit_cnt) [
  | no large ↦ inr (ground (arith, large, h), λ k l m. absurd (omega (arith, large, l, m)))
  | yes small ↦
      let n = suc (b.bit_cnt - cnt) - start in
      let e : n ≡ (b.bit_cnt + 1) - cnt - start = omega arith in
      let o : bitmap_scan b start cnt value ≡ scan_loop n start cnt value b = ground arith in
      rw o (
        subst (λ m. First (scan_loop n start cnt value b) b start m cnt value) e
          (scan_loop-First n start cnt value b good (λ q. omega (arith, q, small))))
]

-- What bitmap_scan_and_flip comes to: the first group is turned over, and nothing else; or nothing
-- is changed and the result is BITMAP_ERROR.
pub record Claimed (b : Bitmap) (start cnt : ℕ) (v : Bool) (idx : ℕ) (b' : Bitmap) : Type 0 where
  pub above : start ≤ idx
  pub fits : idx + cnt ≤ b.bit_cnt
  pub were : AllAre b idx cnt v
  pub first : NoGroup b start (idx - start) cnt v
  pub now : Fills b idx cnt (not v) b'

abbrev pub Claims : Option (ℕ × Bitmap) → Bitmap → (start cnt : ℕ) → Bool → Type 0
Claims o b start cnt v =
    ((idx : ℕ) × (b' : Bitmap) × (o ≡ some (idx, b'))
      × (idx ≢ bitmap_error)
      × Claimed b start cnt v idx b')
    ⊎ ((o ≡ some (bitmap_error, b)) × NoGroup b start ((b.bit_cnt + 1) - cnt - start) cnt v)

-- bitmap_scan_and_flip takes the first group of `cnt` bits of the value at or after `start`, turns
-- exactly these bits over and returns its index, which is never BITMAP_ERROR; it fails only if
-- there is no such group, and then leaves the bitmap as it was.
pub bitmap_scan_and_flip_lem :
    (b : Bitmap) (start cnt : ℕ) (value : Bool)
    → IsBitmap b
    → start ≤ b.bit_cnt
    → Claims (bitmap_scan_and_flip b start cnt value) b start cnt value
unfolding bitmap_scan_and_flip flip_found
bitmap_scan_and_flip_lem b start cnt value good h =
    elim (bitmap_scan-First b start cnt value good h) [
      | inr (o, none_there) ↦ inr (ground (arith, o), none_there)
      | inl (idx, o, above, below, all, none_before) ↦
          let small = good.small in
          let fits : idx + cnt ≤ b.bit_cnt = omega (arith, above, below, h) in
          let proper : idx ≢ bitmap_error = omega (arith, fits, small) in
          let f = bitmap_set_multiple-Fills b idx cnt (not value) good fits in
          inl (
            idx,
            f.0,
            ground (arith, o, f.1, proper),
            proper,
            record { above = above; fits = fits; were = all; first = none_before; now = f.2 },
          )
    ]
