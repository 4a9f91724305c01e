-- ===== src/Pintos/Inode/Reading.antt =====
-- inode_read_at of Project_3/filesys/inode.c reads from a flat array of bytes.
use system_prog.Base.{
  ℕ, zero, suc, ◌+◌, ◌-◌, ◌/◌, ◌%◌, ◌≤◌, ◌<◌, ◌≡◌, ◌≢◌, refl, ap, ◌∙◌, true, ◌&&◌, some, List, [],
  ◌∷◌, ◌++◌, Str, arith, dec_lt, min, take, drop, length, length-append, length-take, length-drop,
  get_or, ◌==◌, Bool-cases, inl, inr,
}
use system_prog.Pintos.Inode.{
  block_sector_size, Disk, InodeDisk, byte_to_sector, inode_length, smaller, chunk_size, is_whole,
  sector_of, read_chunk, read_loop, inode_read_at,
}

-- The abstract view: the byte of the file with a number.
abbrev pub byte : InodeDisk → Disk → ℕ → ℕ
byte inode disk k = get_or (disk (inode.start + k / block_sector_size)) (k % block_sector_size) 0

abbrev pub IsDisk : Disk → Type 0
IsDisk disk = (sector : ℕ) → length (disk sector) ≡ block_sector_size

module _ {ℓ} {A : Type ℓ} where
  pub get_or-append_left :
      (xs ys : List A) (i : ℕ) (d : A) → i < length xs → get_or (xs ++ ys) i d ≡ get_or xs i d
  get_or-append_left [] ys i d h = absurd (ground (arith, h))
  get_or-append_left (x ∷ xs) ys zero d h = refl
  get_or-append_left (x ∷ xs) ys (suc i) d h = get_or-append_left xs ys i d (omega arith)

  pub get_or-append_right :
      (xs ys : List A) (i : ℕ) (d : A)
      → length xs ≤ i
      → get_or (xs ++ ys) i d ≡ get_or ys (i - length xs) d
  get_or-append_right [] ys i d h = ap (λ m. get_or ys m d) (omega arith)
  get_or-append_right (x ∷ xs) ys zero d h = absurd (ground (arith, h))
  get_or-append_right (x ∷ xs) ys (suc i) d h =
      get_or-append_right xs ys i d (omega arith) ∙ ap (λ m. get_or ys m d) (omega arith)

  pub get_or-take :
      (n : ℕ) (xs : List A) (i : ℕ) (d : A) → i < n → get_or (take n xs) i d ≡ get_or xs i d
  get_or-take zero xs i d h = absurd (ground (arith, h))
  get_or-take (suc n) [] i d h = refl
  get_or-take (suc n) (x ∷ xs) zero d h = refl
  get_or-take (suc n) (x ∷ xs) (suc i) d h = get_or-take n xs i d (omega arith)

  pub get_or-drop :
      (n : ℕ) (xs : List A) (i : ℕ) (d : A) → get_or (drop n xs) i d ≡ get_or xs (n + i) d
  get_or-drop zero xs i d = ap (λ m. get_or xs m d) (omega arith)
  get_or-drop (suc n) [] i d = refl
  get_or-drop (suc n) (x ∷ xs) i d =
      let e : suc (n + i) ≡ suc n + i = omega arith in
      get_or-drop n xs i d ∙ ap (λ m. get_or (x ∷ xs) m d) e

-- What a read of `size` bytes from `offset` on comes to.
pub record Reads (inode : InodeDisk) (disk : Disk) (size offset : ℕ) (bytes : Str) : Type 0 where
  pub count : length bytes ≡ min size (inode.size - offset)
  pub content : (k : ℕ) → k < length bytes → get_or bytes k 0 ≡ byte inode disk (offset + k)

pub chunk_size-lem :
    (inode : InodeDisk) (size offset : ℕ)
    → let chunk = chunk_size inode size offset in
      (chunk ≤ size)
      × (chunk ≤ inode.size - offset)
      × (chunk ≤ 512 - offset % 512)
      × ((chunk ≡ 0) → min size (inode.size - offset) ≡ 0)
unfolding chunk_size smaller inode_length
chunk_size-lem inode size offset = ground arith

read_chunk-lem :
    (sector : Str) (sector_ofs chunk : ℕ)
    → length sector ≡ 512
    → chunk ≤ 512 - sector_ofs
    → (bytes : Str) × (read_chunk true sector sector_ofs chunk ≡ some bytes)
      × (length bytes ≡ chunk)
      × ((k : ℕ) → k < chunk → get_or bytes k 0 ≡ get_or sector (sector_ofs + k) 0)
unfolding read_chunk is_whole
read_chunk-lem sector sector_ofs chunk len fits =
    elim (Bool-cases ((sector_ofs == 0) && (chunk == block_sector_size))) [
      | inl e ↦
          let z : sector_ofs ≡ 0 = ground arith in
          let w : chunk ≡ 512 = ground arith in
          (
            sector,
            ground (arith, e),
            omega (arith, len, w),
            λ k h. ap (λ m. get_or sector m 0) (omega (arith, z)),
          )
      | inr e ↦ (
        take chunk (drop sector_ofs sector),
        ground (arith, e),
        length-take chunk (drop sector_ofs sector)
            ∙ omega (arith, length-drop sector_ofs sector, len, fits),
        λ k h. get_or-take chunk (drop sector_ofs sector) k 0 h ∙ get_or-drop sector_ofs sector k 0,
      )
    ]

pub byte_to_sector-some :
    (inode : InodeDisk) (pos : ℕ)
    → pos < inode.size
    → byte_to_sector inode pos ≡ some (inode.start + pos / 512)
unfolding byte_to_sector
byte_to_sector-some inode pos h = ground (arith, h)

same_sector :
    (inode : InodeDisk) (disk : Disk) (offset k : ℕ)
    → k < 512 - offset % 512
    → get_or (disk (inode.start + offset / 512)) (offset % 512 + k) 0 ≡ byte inode disk (offset + k)
same_sector inode disk offset k h =
    let d : offset / 512 ≡ (offset + k) / 512 = omega (arith, h) in
    let r : offset % 512 + k ≡ (offset + k) % 512 = omega (arith, h) in
    ap (λ q. get_or (disk (inode.start + q)) (offset % 512 + k) 0) d
    ∙ ap (λ m. get_or (disk (inode.start + (offset + k) / 512)) m 0) r

Reads-append :
    (inode : InodeDisk) (disk : Disk) (size offset chunk : ℕ) (bytes rest : Str)
    → chunk ≤ size
    → chunk ≤ inode.size - offset
    → length bytes ≡ chunk
    → ((k : ℕ) → k < chunk → get_or bytes k 0 ≡ byte inode disk (offset + k))
    → Reads inode disk (size - chunk) (offset + chunk) rest
    → Reads inode disk size offset (bytes ++ rest)
Reads-append inode disk size offset chunk bytes rest a b len here r = record {
  count = let n = r.count in omega (arith, length-append bytes rest, n, len, a, b);
  content = λ k h. elim (dec_lt k chunk) [
    | yes left ↦ get_or-append_left bytes rest k 0 (omega (arith, left, len)) ∙ here k left
    | no right ↦
        get_or-append_right bytes rest k 0 (omega (arith, right, len))
        ∙ ap (λ m. get_or rest (k - m) 0) len
        ∙ r.content (k - chunk) (omega (arith, right, len, h, length-append bytes rest))
        ∙ ap (λ m. byte inode disk m) (omega (arith, right))
  ];
}

read_loop-Reads :
    (f : ℕ) (inode : InodeDisk) (disk : Disk) (size offset : ℕ)
    → IsDisk disk
    → size ≤ f
    → Reads inode disk size offset (read_loop f true inode disk size offset)
unfolding read_loop sector_of
read_loop-Reads zero inode disk size offset good h = record {
  count = omega (arith, h);
  content = λ k l. absurd (omega (arith, l));
}
read_loop-Reads (suc f) inode disk size offset good h =
    elim (Bool-cases (chunk_size inode size offset == 0)) [
      | inl e ↦
          let z : chunk_size inode size offset ≡ 0 = ground arith in
          let m = fits.3 z in
          rw (e, read_loop)
            (record { count = omega (arith, m); content = λ k l. absurd (omega (arith, l)) })
      | inr e ↦
          let sector = disk (inode.start + offset / 512) in
          let chunk = chunk_size inode size offset in
          let pos : chunk ≢ 0 = ground arith in
          let found : byte_to_sector inode offset ≡ some (inode.start + offset / 512) =
            byte_to_sector-some inode offset (omega (arith, fits.1, pos)) in
          let (bytes, got, len, here) =
            read_chunk-lem sector (offset % 512) chunk (good (inode.start + offset / 512)) fits.2 in
          let more =
            read_loop-Reads f inode disk (size - chunk) (offset + chunk) good
              (omega (arith, pos, h)) in
          rw (e, found, got, read_loop, sector_of)
            (Reads-append inode disk size offset chunk bytes _ fits.0 fits.1 len
              (λ k l. here k l ∙ same_sector inode disk offset k (omega (arith, l, fits.2))) more)
    ]
  where
    fits :
        (chunk_size inode size offset ≤ size)
        × (chunk_size inode size offset ≤ inode.size - offset)
        × (chunk_size inode size offset ≤ 512 - offset % 512)
        × ((chunk_size inode size offset ≡ 0) → min size (inode.size - offset) ≡ 0)
    fits = chunk_size-lem inode size offset

-- With a bounce buffer inode_read_at reads all the bytes of the file from the offset on, up to
-- `size`, in order, however they lie in the sectors, and no more rounds are needed than bytes.
pub inode_read_at-Reads :
    (inode : InodeDisk) (disk : Disk) (size offset : ℕ)
    → IsDisk disk
    → Reads inode disk size offset (inode_read_at true inode disk size offset)
unfolding inode_read_at
inode_read_at-Reads inode disk size offset good =
    read_loop-Reads size inode disk size offset good (omega arith)
