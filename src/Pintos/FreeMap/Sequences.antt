-- ===== src/Pintos/FreeMap/Sequences.antt =====
-- Calls of free_map_allocate of Project_3/filesys/free-map.c, one after the other.
use system_prog.Base.{
  subst, ℕ, ◌+◌, ◌≤◌, ◌<◌, ◌≡◌, sym, ◌∙◌, true, false, Option, some, arith, dec_le, inl, inr, ◌⊎◌,
}
use system_prog.Pintos.Bitmap.Files.{FileOps}
use system_prog.Pintos.Bitmap.Bits.{IsBitmap, bit}
use system_prog.Pintos.FreeMap.{FreeMap, free_map_allocate}
use system_prog.Pintos.FreeMap.Allocation.{allocated, free_map_allocate_lem}

module _ {F : Type 0} (ops : FileOps F) where
  -- The states that calls of free_map_allocate lead to, whether they succeed or fail.
  pub data Allocating (m : FreeMap F) : FreeMap F → Type 0 where
    start : Allocating m m
    next :
        {m₁ : FreeMap F} (cnt : ℕ) (r : Option ℕ) (m₂ : FreeMap F)
        → Allocating m m₁
        → free_map_allocate ops cnt m₁ ≡ some (r, m₂)
        → Allocating m m₂

  -- A sector in use stays in use.
  allocate-still :
      (cnt : ℕ) (r : Option ℕ) (m m' : FreeMap F)
      → IsBitmap m.free_map
      → free_map_allocate ops cnt m ≡ some (r, m')
      → IsBitmap m'.free_map × ((j : ℕ) → bit m.free_map j ≡ true → bit m'.free_map j ≡ true)
  allocate-still cnt r m m' good h = elim (free_map_allocate_lem ops cnt m good) [
    | inr (n, o, fine, alike, _) ↦
        let same : n ≡ m' = ground (arith, o, h) in
        subst
          (λ k. IsBitmap k.free_map × ((j : ℕ) → bit m.free_map j ≡ true → bit k.free_map j ≡ true))
          same (fine, λ j u. alike j ∙ u)
    | inl (s, n, o, c, _) ↦
        let same : n ≡ m' = ground (arith, o, h) in
        subst
          (λ k. IsBitmap k.free_map × ((j : ℕ) → bit m.free_map j ≡ true → bit k.free_map j ≡ true))
          same
          (
            c.now.good,
            λ j u. elim (dec_le s j) [
              | no before ↦ c.now.before j (omega (arith, before)) ∙ u
              | yes above ↦ elim (dec_le (s + cnt) j) [
                | yes behind ↦ c.now.behind j behind ∙ u
                | no inside ↦ c.now.inside j above (omega (arith, inside))
              ]
            ],
          )
  ]

  Allocating-still :
      (m m' : FreeMap F)
      → IsBitmap m.free_map
      → Allocating m m'
      → IsBitmap m'.free_map × ((j : ℕ) → bit m.free_map j ≡ true → bit m'.free_map j ≡ true)
  Allocating-still m _ good start = (good, λ j u. u)
  Allocating-still m _ good (next {m₁} cnt r m₂ a h) =
      let (fine, kept) = Allocating-still m m₁ good a in
      let (fine', kept') = allocate-still cnt r m₁ m₂ fine h in (fine', λ j u. kept' j (kept j u))

  -- Two calls of free_map_allocate that both succeed hand out sectors that do not overlap, if in
  -- between there are only calls of free_map_allocate, any number of them, successful or not.
  pub free_map_allocate_apart :
      (cnt₁ cnt₂ sector₁ sector₂ : ℕ) (m m₁ m₂ m₃ : FreeMap F)
      → IsBitmap m.free_map
      → 0 < cnt₁
      → 0 < cnt₂
      → free_map_allocate ops cnt₁ m ≡ some (some sector₁, m₁)
      → Allocating m₁ m₂
      → free_map_allocate ops cnt₂ m₂ ≡ some (some sector₂, m₃)
      → (sector₁ + cnt₁ ≤ sector₂) ⊎ (sector₂ + cnt₂ ≤ sector₁)
  free_map_allocate_apart cnt₁ cnt₂ sector₁ sector₂ m m₁ m₂ m₃ good p₁ p₂ h₁ between h₂ =
      let (c, _) = allocated ops cnt₁ sector₁ m m₁ good h₁ in
      let (fine, kept) = Allocating-still m₁ m₂ c.now.good between in
      let (d, _) = allocated ops cnt₂ sector₂ m₂ m₃ fine h₂ in
      elim (dec_le (sector₁ + cnt₁) sector₂) [
        | yes below ↦ inl below
        | no not_below ↦ elim (dec_le (sector₂ + cnt₂) sector₁) [
          | yes above ↦ inr above
          | no not_above ↦ elim (dec_le sector₁ sector₂) [
            | yes le ↦ absurd (
                true_false (
                  sym (kept sector₂ (c.now.inside sector₂ le (omega (arith, not_below))))
                  ∙ d.were sector₂ (omega arith) (omega arith)))
            | no gt ↦ absurd (
                true_false (
                  sym (kept sector₁ (c.now.inside sector₁ (omega arith) (omega arith)))
                  ∙ d.were sector₁ (omega (arith, gt)) (omega (arith, not_above))))
          ]
        ]
      ]
    where
      true_false : ¬ (true ≡ false)
      true_false e = ground (arith, e)
