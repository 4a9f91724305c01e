-- ===== src/Pintos/Bitmap/Storage.antt =====
-- Making a bitmap and reading it back from a file: Project_3/lib/kernel/bitmap.c.
use system_prog.Base.{
  take-all, ltb, ◌==◌, ℕ, zero, suc, ◌+◌, ◌-◌, ◌/◌, ◌%◌, ◌≤◌, ◌<◌, ◌≡◌, refl, ap, sym, ◌∙◌, true,
  false, ◌&&◌, some, List, [], arith, inl, inr, ◌⊎◌, length, All, get_or, set, get_or-set_self,
  get_or-set_ne, length-replicate, ℕ_discrete,
}
use system_prog.Pintos.Bitmap.{
  elem_bits, size_limit, Elem, Bitmap, elem_cnt, zip_digits, combine, bitmap_size, bitmap_set_all,
  created, bitmap_create, ones, last_mask, byte_cnt,
}
use system_prog.Pintos.Bitmap.Files.{
  FileOps, IsStorage, bytes_of, mask_last, bitmap_read, bitmap_write,
}
use system_prog.Pintos.Bitmap.Bytes.{load_bytes-bytes_of, length-bytes_of}
use system_prog.Pintos.Bitmap.Bits.{
  IsBitmap, bit, get_elem?-get_or, All-get_or, get_or-zip_digits, elem_idx-lt, and_true,
}
use system_prog.Pintos.Bitmap.Ranges.{AllAre, bitmap_set_multiple-Fills}

-- bitmap_create makes a bitmap of the size all of whose bits are clear, whatever the storage held.
pub bitmap_create_clear :
    (elems : List Elem) (bit_cnt : ℕ)
    → bit_cnt + 31 < size_limit
    → length elems ≡ elem_cnt bit_cnt
    → All (λ e. length e ≡ elem_bits) elems
    → (b : Bitmap) × (bitmap_create true (some elems) bit_cnt ≡ some (some b))
      × IsBitmap b
      × (b.bit_cnt ≡ bit_cnt)
      × AllAre b 0 bit_cnt false
unfolding bitmap_create bitmap_set_all created bitmap_size
bitmap_create_clear elems bit_cnt small size digits =
    let raw : Bitmap = record { bit_cnt = bit_cnt; bits = elems } in
    let f =
      bitmap_set_multiple-Fills raw 0 bit_cnt false
        (record { small = small; size = size; digits = digits }) (omega arith) in
    (f.0, ground (arith, f.1), f.2.good, f.2.bit_cnt, f.2.inside)

length-ones : (k n : ℕ) → length (ones k n) ≡ n ⊎ (n < k)
unfolding ones
length-ones zero n = inl (length-replicate n false)
length-ones (suc k) zero = inr (omega arith)
length-ones (suc k) (suc n) = elim (length-ones k n) [
  | inl e ↦ inl (ap suc e)
  | inr h ↦ inr (omega arith)
]

get_or-ones : (k n i : ℕ) → i < k → k ≤ n → get_or (ones k n) i false ≡ true
unfolding ones
get_or-ones zero n i h l = ground (arith, h)
get_or-ones (suc k) zero i h l = ground (arith, l)
get_or-ones (suc k) (suc n) zero h l = refl
get_or-ones (suc k) (suc n) (suc i) h l = get_or-ones k n i (omega arith) (omega arith)

length-last_mask : (b : Bitmap) → length (last_mask b) ≡ elem_bits
unfolding last_mask
length-last_mask b =
    ground (arith, length-ones elem_bits elem_bits, length-ones (b.bit_cnt % elem_bits) elem_bits)

last_mask-true :
    (b : Bitmap) (j : ℕ)
    → b.bit_cnt + 31 < size_limit
    → j < b.bit_cnt
    → j / elem_bits ≡ elem_cnt b.bit_cnt - 1
    → get_or (last_mask b) (j % elem_bits) false ≡ true
unfolding last_mask elem_cnt
last_mask-true b j small h e = elim (ℕ_discrete (b.bit_cnt % elem_bits) 0) [
  | yes full ↦
      ground
        (arith, full, get_or-ones elem_bits elem_bits (j % elem_bits) (omega arith) (omega arith))
  | no part ↦ ground (
    arith,
    part,
    get_or-ones (b.bit_cnt % elem_bits) elem_bits (j % elem_bits) (omega (arith, part, e))
        (omega arith),
  )
]

-- The mask on the last element clears no bit that is in use.
mask_last-bit :
    (b : Bitmap)
    → IsBitmap b
    → 0 < b.bit_cnt
    → (b' : Bitmap) × (mask_last b ≡ some b')
      × (b'.bit_cnt ≡ b.bit_cnt)
      × ((j : ℕ) → j < b.bit_cnt → bit b' j ≡ bit b j)
unfolding mask_last combine
mask_last-bit b good h =
    let last = elem_cnt b.bit_cnt - 1 in
    let size = good.size in
    let pos = elem_idx-lt b.bit_cnt 0 good.small h in
    let room : last < length b.bits = omega (arith, pos, size) in
    let e = get_or b.bits last [] in
    let e' = zip_digits (λ x y. x && y) e (last_mask b) in
    let le : length e ≡ elem_bits =
      All-get_or (λ d. length d ≡ elem_bits) b.bits last [] good.digits room in
    let new : get_or (set b.bits last e') last [] ≡ e' = get_or-set_self b.bits last e' [] room in
    (
      record b { bits = set b.bits last e' },
      ground (arith, get_elem?-get_or b.bits last [] room),
      refl,
      λ j h. elim (ℕ_discrete (j / elem_bits) last) [
        | no other ↦
            ap (λ w. get_or w (j % elem_bits) false)
              (get_or-set_ne b.bits last (j / elem_bits) e' [] (λ q. other (sym q)))
        | yes q ↦
            rw (q, new)
              (get_or-zip_digits (λ x y. x && y) e (last_mask b) (j % elem_bits)
                  (le ∙ sym (length-last_mask b)) (omega (arith, le))
                ∙ ap (λ x. get_or e (j % elem_bits) false && x) (last_mask-true b j good.small h q)
                ∙ and_true (get_or e (j % elem_bits) false))
      ],
    )

-- The bytes of a bitmap fill its part of the file.
length-bits : (b : Bitmap) → IsBitmap b → length (bytes_of b.bits) ≡ byte_cnt b.bit_cnt
unfolding byte_cnt elem_cnt
length-bits b good = ground (arith, length-bytes_of b.bits, good.size, good.small)

module _ {F : Type 0} (ops : FileOps F) (good_file : F → Type 0)
    (storage : IsStorage ops good_file) where
  -- A bitmap is written to a good file, and the write succeeds: then any bitmap of the same size into
  -- which the file is read has its bits.
  pub bitmap_read-bitmap_write :
      (file : F) (b old : Bitmap)
      → good_file file
      → IsBitmap b
      → IsBitmap old
      → old.bit_cnt ≡ b.bit_cnt
      → (bitmap_write ops file b).0 ≡ true
      → (b' : Bitmap) × (bitmap_read ops (bitmap_write ops file b).1 old ≡ some (true, b'))
        × (b'.bit_cnt ≡ b.bit_cnt)
        × ((j : ℕ) → j < b.bit_cnt → bit b' j ≡ bit b j)
  unfolding bitmap_read bitmap_write
  bitmap_read-bitmap_write file b old fine good good' same wrote =
      let text = bytes_of b.bits in
      let file' = (bitmap_write ops file b).1 in
      let full = length-bits b good in
      let size : byte_cnt old.bit_cnt ≡ byte_cnt b.bit_cnt = ap byte_cnt same in
      let counted : (ops.write_at file text (byte_cnt b.bit_cnt) 0).0 ≡ byte_cnt b.bit_cnt =
        ground (arith, wrote) in
      let read : ops.read_at file' (byte_cnt old.bit_cnt) 0 ≡ text =
        ap (λ n. ops.read_at file' n 0) size
        ∙ storage.read-write file text (byte_cnt b.bit_cnt) fine (omega (arith, full)) counted
        ∙ take-all (byte_cnt b.bit_cnt) text (omega (arith, full)) in
      elim (ℕ_discrete b.bit_cnt 0) [
        | yes empty ↦
            (old, ground (arith, empty, same), same, λ j h. absurd (omega (arith, empty, h)))
        | no some_bits ↦
            let new : Bitmap = record old { bits = b.bits } in
            let cnts : length b.bits ≡ elem_cnt old.bit_cnt = good.size ∙ ap elem_cnt (sym same) in
            let (b', m, c, w) =
              mask_last-bit new (record { small = good'.small; size = cnts; digits = good.digits })
                (omega (arith, same, some_bits)) in
            let loaded =
              load_bytes-bytes_of b.bits old.bits (cnts ∙ sym good'.size) good.digits
                good'.digits in
            let pos : ltb 0 old.bit_cnt ≡ true = ground (arith, same, some_bits) in
            let all : (length text == byte_cnt old.bit_cnt) ≡ true = ground (arith, full, size) in
            (
              b',
              rw (pos, read, loaded, m, read, all) refl,
              c ∙ same,
              λ j h. w j (omega (arith, h, same)),
            )
      ]
