-- ===== src/Pintos/FreeMap/Allocation.antt =====
-- What the callers of Project_3/filesys/free-map.c rely on.
use system_prog.Base.{
  ◌-◌, ◌≢◌, ap, Bool, ==-false, subst, ℕ, ◌+◌, ◌≤◌, ◌≡◌, refl, sym, ◌∙◌, true, false, Option, none,
  some, arith, dec_le, Bool-cases, inl, inr, ◌⊎◌,
}
use system_prog.Pintos.Bitmap.{Bitmap, bitmap_all, bitmap_set_multiple, negated, bitmap_error}
use system_prog.Pintos.Bitmap.Files.{FileOps, bitmap_write}
use system_prog.Pintos.Bitmap.Bits.{IsBitmap, bit}
use system_prog.Pintos.Bitmap.Ranges.{
  AllAre, Fills, bitmap_set_multiple-Fills, bitmap_contains-Found,
}
use system_prog.Pintos.Bitmap.Scan.{NoGroup, Claimed, bitmap_scan_and_flip_lem}
use system_prog.Pintos.FreeMap.{
  FreeMap, record_sectors, record_in_file, free_map_allocate, release_if, free_map_release,
}

-- The sectors of two maps are in use alike.
abbrev pub Alike : Bitmap → Bitmap → Type 0
Alike b b' = (j : ℕ) → bit b' j ≡ bit b j

Alike-undone :
    (b b1 b2 : Bitmap) (i n : ℕ)
    → AllAre b i n false
    → Fills b i n true b1
    → Fills b1 i n false b2
    → Alike b b2
Alike-undone b b1 b2 i n were f g j = elim (dec_le i j) [
  | no before ↦ g.before j (omega (arith, before)) ∙ f.before j (omega (arith, before))
  | yes above ↦ elim (dec_le (i + n) j) [
    | yes behind ↦ g.behind j behind ∙ f.behind j behind
    | no inside ↦
        g.inside j above (omega (arith, inside)) ∙ sym (were j above (omega (arith, inside)))
  ]
]

bitmap_all-true :
    (b : Bitmap) (i n : ℕ)
    → IsBitmap b
    → i + n ≤ b.bit_cnt
    → AllAre b i n true
    → bitmap_all b i n ≡ some true
unfolding bitmap_all negated
bitmap_all-true b i n good h all = elim (bitmap_contains-Found b i n false good h) [
  | inl (o, j, l, k, f) ↦ absurd (false_true (sym f ∙ all j l k))
  | inr (o, _) ↦ ground (arith, o)
]
  where
    false_true : ¬ (false ≡ true)
    false_true e = ground (arith, e)

module _ {F : Type 0} (ops : FileOps F) where
  -- Whether the map `b` is recorded, and the file then: without a file there is nothing to do, else the
  -- write of the map says it.
  abbrev pub Recorded : Option F → Bitmap → Bool → Option F → Type 0
  Recorded none b success file' = (success ≡ true) × (file' ≡ none)
  Recorded (some f) b success file' =
      ((bitmap_write ops f b).0 ≡ success) × (file' ≡ some (bitmap_write ops f b).1)

  -- Why a call hands out nothing: there are not enough sectors in a row, and nothing has changed; or
  -- the sectors that were found could not be recorded.
  abbrev pub Refused : FreeMap F → ℕ → FreeMap F → Type 0
  Refused m cnt m' =
      ((m' ≡ m) × NoGroup m.free_map 0 ((m.free_map.bit_cnt + 1) - cnt - 0) cnt false)
      ⊎ ((sector : ℕ) × (b : Bitmap) × Claimed m.free_map 0 cnt false sector b
          × Recorded m.free_map_file b false m'.free_map_file)

  -- What a call of free_map_allocate comes to.
  abbrev pub Allocates : Option (Option ℕ × FreeMap F) → FreeMap F → ℕ → Type 0
  Allocates o m cnt =
      ((sector : ℕ) × (m' : FreeMap F) × (o ≡ some (some sector, m'))
        × Claimed m.free_map 0 cnt false sector m'.free_map
        × Recorded m.free_map_file m'.free_map true m'.free_map_file)
      ⊎ ((m' : FreeMap F) × (o ≡ some (none, m'))
          × IsBitmap m'.free_map
          × Alike m.free_map m'.free_map
          × Refused m cnt m')

  record_sectors-Allocates :
      (cnt sector : ℕ) (m : FreeMap F) (b : Bitmap) (file : Option F)
      → m.free_map_file ≡ file
      → sector ≢ bitmap_error
      → Claimed m.free_map 0 cnt false sector b
      → Allocates (record_sectors ops cnt file (some (sector, b))) m cnt
  unfolding record_sectors record_in_file
  record_sectors-Allocates cnt sector m b none e proper c = inl (
    sector,
    record { free_map = b; free_map_file = none },
    rw (==-false sector bitmap_error proper) refl,
    c,
    subst (λ f. Recorded f b true none) (sym e) (refl, refl),
  )
  record_sectors-Allocates cnt sector m b (some f) e proper c =
      elim (Bool-cases (bitmap_write ops f b).0) [
        | inl w ↦
            let m' : FreeMap F = record {
              free_map = b;
              free_map_file = some (bitmap_write ops f b).1;
            } in
            inl (
              sector,
              m',
              rw (==-false sector bitmap_error proper, w) refl,
              c,
              subst (λ g. Recorded g b true m'.free_map_file) (sym e) (w, refl),
            )
        | inr w ↦
            let undo =
              bitmap_set_multiple-Fills b sector cnt false c.now.good (rw c.now.bit_cnt c.fits) in
            let m' : FreeMap F = record {
              free_map = undo.0;
              free_map_file = some (bitmap_write ops f b).1;
            } in
            inr (
              m',
              rw (==-false sector bitmap_error proper, w, undo.1) refl,
              undo.2.good,
              Alike-undone m.free_map b undo.0 sector cnt c.were c.now undo.2,
              inr (
                sector,
                b,
                c,
                subst (λ g. Recorded g b false m'.free_map_file) (sym e) (w, refl),
              ),
            )
      ]

  no_sectors :
      (cnt : ℕ) (m : FreeMap F)
      → record_sectors ops cnt m.free_map_file (some (bitmap_error, m.free_map)) ≡ some (none, m)
  unfolding record_sectors
  no_sectors cnt m = refl

  -- free_map_allocate hands out the first `cnt` sectors in a row that were free, marks these as in use
  -- and no others, and if the map has a file it has been written with these marks, and the write
  -- succeeded. Or it fails, and then every sector is as it was: because there are no such sectors,
  -- and nothing has changed; or because there is a file and the write of the map with the marks
  -- of these sectors failed.
  pub free_map_allocate_lem :
      (cnt : ℕ) (m : FreeMap F)
      → IsBitmap m.free_map
      → Allocates (free_map_allocate ops cnt m) m cnt
  unfolding free_map_allocate
  free_map_allocate_lem cnt m good =
      elim (bitmap_scan_and_flip_lem m.free_map 0 cnt false good (omega arith)) [
        | inr (o, none_there) ↦ inr (
          m,
          ap (record_sectors ops cnt m.free_map_file) o ∙ no_sectors cnt m,
          good,
          (λ j. refl),
          inl (refl, none_there),
        )
        | inl (sector, b, o, proper, c) ↦
            subst (λ r. Allocates (record_sectors ops cnt m.free_map_file r) m cnt) (sym o)
              (record_sectors-Allocates cnt sector m b m.free_map_file refl proper c)
      ]

  pub allocated :
      (cnt sector : ℕ) (m m' : FreeMap F)
      → IsBitmap m.free_map
      → free_map_allocate ops cnt m ≡ some (some sector, m')
      → Claimed m.free_map 0 cnt false sector m'.free_map
        × Recorded m.free_map_file m'.free_map true m'.free_map_file
  allocated cnt sector m m' good h = elim (free_map_allocate_lem cnt m good) [
    | inr (n, o, _, _, _) ↦ absurd (ground (arith, o, h))
    | inl (s, n, o, c, r) ↦
        let same : (s ≡ sector) × (n ≡ m') = ground (arith, o, h) in
        subst
          (λ k.
            Claimed m.free_map 0 cnt false sector k.free_map
            × Recorded m.free_map_file k.free_map true k.free_map_file)
          same.1 (subst (λ k. Claimed m.free_map 0 cnt false k n.free_map) same.0 c, r)
  ]

  Recorded-file :
      (file : Option F) (f : F) (b : Bitmap) (file' : Option F)
      → file ≡ some f
      → Recorded file b true file'
      → file' ≡ some (bitmap_write ops f b).1
  Recorded-file none f b file' e r = absurd (ground (arith, e))
  Recorded-file (some g) f b file' e r =
      let same : g ≡ f = ground (arith, e) in r.1 ∙ ap (λ k. some (bitmap_write ops k b).1) same

  release_lem :
      (sector cnt : ℕ) (m : FreeMap F) (b : Bitmap) (f : F)
      → bitmap_all m.free_map sector cnt ≡ some true
      → bitmap_set_multiple m.free_map sector cnt false ≡ some b
      → m.free_map_file ≡ some f
      → free_map_release ops sector cnt m
        ≡ some (record { free_map = b; free_map_file = some (bitmap_write ops f b).1 })
  unfolding free_map_release release_if
  release_lem sector cnt m b f a u e = ground (arith, a, u, e)

  -- Sectors that have been allocated can be released once the map has its file: the ASSERT holds,
  -- every sector is again as it was before the allocation, and this map is written to the file.
  pub free_map_release-allocate :
      (cnt sector : ℕ) (m m' : FreeMap F) (f : F)
      → IsBitmap m.free_map
      → m.free_map_file ≡ some f
      → free_map_allocate ops cnt m ≡ some (some sector, m')
      → (m'' : FreeMap F) × (free_map_release ops sector cnt m' ≡ some m'')
        × IsBitmap m''.free_map
        × Alike m.free_map m''.free_map
        × (m''.free_map_file
            ≡ some (bitmap_write ops (bitmap_write ops f m'.free_map).1 m''.free_map).1)
  free_map_release-allocate cnt sector m m' f good e h =
      let (d, r) = allocated cnt sector m m' good h in
      let file = Recorded-file m.free_map_file f m'.free_map m'.free_map_file e r in
      let fits : sector + cnt ≤ m'.free_map.bit_cnt = rw d.now.bit_cnt d.fits in
      let all = bitmap_all-true m'.free_map sector cnt d.now.good fits d.now.inside in
      let undo = bitmap_set_multiple-Fills m'.free_map sector cnt false d.now.good fits in
      let f' = (bitmap_write ops f m'.free_map).1 in
      (
        record { free_map = undo.0; free_map_file = some (bitmap_write ops f' undo.0).1 },
        release_lem sector cnt m' undo.0 f' all undo.1 file,
        undo.2.good,
        Alike-undone m.free_map m'.free_map undo.0 sector cnt d.were d.now undo.2,
        refl,
      )
