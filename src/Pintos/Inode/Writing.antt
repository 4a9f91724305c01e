-- ===== src/Pintos/Inode/Writing.antt =====
-- inode_write_at of Project_3/filesys/inode.c writes into a flat array of bytes.
use system_prog.Base.{
  subst, ℕ, zero, suc, ◌+◌, ◌-◌, ◌/◌, ◌%◌, ◌≤◌, ◌<◌, ◌≡◌, ◌≢◌, refl, ap, sym, ◌∙◌, true, ◌&&◌, ◌||◌,
  some, ◌++◌, Str, arith, dec_lt, min, take, drop, length, length-append, length-take, length-drop,
  get_or, ltb, ◌==◌, Bool-cases, inl, inr, ◌⊎◌, ℕ_discrete,
}
use system_prog.Pintos.Inode.{
  block_sector_size, Disk, InodeDisk, byte_to_sector, chunk_size, is_whole, sector_of, block_write,
  splice, write_chunk, write_to, write_loop, inode_write_at, bytes_to_sectors,
}
use system_prog.Pintos.Inode.Reading.{
  byte, IsDisk, get_or-append_left, get_or-append_right, get_or-take, get_or-drop, chunk_size-lem,
  byte_to_sector-some,
}

-- A sector after the bytes have been written at `ofs`.
record Patched (old : Str) (ofs : ℕ) (bytes : Str) (new : Str) : Type 0 where
  pub size : length new ≡ 512
  pub inside : (k : ℕ) → k < length bytes → get_or new (ofs + k) 0 ≡ get_or bytes k 0
  pub outside :
      (k : ℕ) → k < ofs ⊎ (ofs + length bytes ≤ k) → k < 512 → get_or new k 0 ≡ get_or old k 0

splice-Patched :
    (old : Str) (ofs : ℕ) (bytes : Str)
    → length old ≡ 512
    → ofs + length bytes ≤ 512
    → Patched old ofs bytes (splice old ofs bytes)
unfolding splice
splice-Patched old ofs bytes len fits =
    let front : length (take ofs old) ≡ ofs = length-take ofs old ∙ omega (arith, len, fits) in
    let tail = drop (ofs + length bytes) old in
    let back = length-drop (ofs + length bytes) old in
    record {
      size =
          length-append (take ofs old) (bytes ++ tail)
          ∙ omega (arith, front, back, len, fits, length-append bytes tail);
      inside = λ k h.
          get_or-append_right (take ofs old) (bytes ++ tail) (ofs + k) 0 (omega (arith, front))
          ∙ ap (λ m. get_or (bytes ++ tail) m 0) (omega (arith, front))
          ∙ get_or-append_left bytes tail k 0 h;
      outside = λ k where_k h. elim where_k [
        | inl before ↦
            get_or-append_left (take ofs old) (bytes ++ tail) k 0 (omega (arith, front, before))
            ∙ get_or-take ofs old k 0 before
        | inr behind ↦
            get_or-append_right (take ofs old) (bytes ++ tail) k 0 (omega (arith, front, behind))
            ∙ ap (λ m. get_or (bytes ++ tail) (k - m) 0) front
            ∙ get_or-append_right bytes tail (k - ofs) 0 (omega (arith, behind))
            ∙ get_or-drop (ofs + length bytes) old (k - ofs - length bytes) 0
            ∙ ap (λ m. get_or old m 0) (omega (arith, behind))
      ];
    }

write_chunk-Patched :
    (old : Str) (ofs chunk : ℕ) (bytes : Str)
    → length old ≡ 512
    → ofs + chunk ≤ 512
    → length bytes ≡ chunk
    → (new : Str) × (write_chunk true old ofs chunk bytes ≡ some new) × Patched old ofs bytes new
unfolding write_chunk is_whole
write_chunk-Patched old ofs chunk bytes len fits lb =
    elim (Bool-cases ((ofs == 0) && (chunk == block_sector_size))) [
      | inl e ↦
          let z : ofs ≡ 0 = ground arith in
          let w : chunk ≡ 512 = ground arith in
          (
            bytes,
            ground (arith, e),
            record {
              size = omega (arith, w, lb);
              inside = λ k h. ap (λ m. get_or bytes m 0) (omega (arith, z));
              outside = λ k where_k h. absurd (ground (arith, z, w, lb, where_k, h));
            },
          )
      | inr e ↦ elim (Bool-cases (ltb 0 ofs || ltb chunk (block_sector_size - ofs))) [
        | inl part ↦ (
          splice old ofs bytes,
          ground (arith, e, part),
          splice-Patched old ofs bytes len (omega (arith, lb, fits)),
        )
        | inr full ↦ absurd (ground (arith, e, full, fits))
      ]
    ]

-- The disk after the first `n` bytes of the buffer have been written at `offset`: these bytes and no
-- others of the file have changed, and no sector that is not the file's.
pub record Written (inode : InodeDisk) (buffer : Str) (offset n : ℕ) (disk disk' : Disk)
    : Type 0 where
  pub sectors : IsDisk disk'
  pub inside : (k : ℕ) → k < n → byte inode disk' (offset + k) ≡ get_or buffer k 0
  pub outside : (j : ℕ) → j < offset ⊎ (offset + n ≤ j) → byte inode disk' j ≡ byte inode disk j
  pub elsewhere :
      (s : ℕ) → s < inode.start ⊎ (inode.start + bytes_to_sectors inode.size ≤ s) → disk' s ≡ disk s

block_write_self : (s : ℕ) (bytes : Str) (disk : Disk) → block_write s bytes disk s ≡ bytes
unfolding block_write
block_write_self s bytes disk = ground arith

block_write_other :
    (s k : ℕ) (bytes : Str) (disk : Disk) → k ≢ s → block_write s bytes disk k ≡ disk k
unfolding block_write
block_write_other s k bytes disk h = ground (arith, h)

round-Written :
    (inode : InodeDisk) (bytes new : Str) (offset : ℕ) (disk : Disk)
    → IsDisk disk
    → offset + length bytes ≤ inode.size
    → 0 < length bytes
    → length bytes ≤ 512 - offset % 512
    → Patched (disk (inode.start + offset / 512)) (offset % 512) bytes new
    → Written inode bytes offset
        (length bytes)
        disk
        (block_write (inode.start + offset / 512) new disk)
unfolding bytes_to_sectors
round-Written inode bytes new offset disk good fits pos room p = record {
  sectors = λ s. elim (ℕ_discrete s sec) [
    | yes e ↦ rw (e, block_write_self sec new disk) p.size
    | no ne ↦ rw (block_write_other sec s new disk ne) (good s)
  ];
  inside = λ k h.
      let d : (offset + k) / 512 ≡ offset / 512 = omega (arith, h, room) in
      let r : (offset + k) % 512 ≡ offset % 512 + k = omega (arith, h, room) in
      rw (d, r, block_write_self sec new disk) (p.inside k h);
  outside = λ j where_j. elim (ℕ_discrete (j / 512) (offset / 512)) [
    | no ne ↦
        ap (λ b. get_or b (j % 512) 0)
          (block_write_other sec (inode.start + j / 512) new disk (omega (arith, ne)))
    | yes e ↦
        rw (e, block_write_self sec new disk)
          (p.outside (j % 512)
            (elim where_j [
              | inl before ↦ inl (omega (arith, before, e))
              | inr behind ↦ inr (omega (arith, behind, e))
            ])
            (omega arith))
  ];
  elsewhere = λ s where_s. block_write_other sec s new disk (elim where_s [
    | inl before ↦ omega (arith, before)
    | inr behind ↦ omega (arith, behind, fits, pos)
  ]);
}
  where
    sec : ℕ
    sec = inode.start + offset / 512

Written-append :
    (inode : InodeDisk) (buffer : Str) (offset chunk n : ℕ) (disk d1 d2 : Disk)
    → Written inode (take chunk buffer) offset chunk disk d1
    → Written inode (drop chunk buffer) (offset + chunk) n d1 d2
    → Written inode buffer offset (chunk + n) disk d2
Written-append inode buffer offset chunk n disk d1 d2 a b = record {
  sectors = b.sectors;
  inside = λ k h. elim (dec_lt k chunk) [
    | yes left ↦
        b.outside (offset + k) (inl (omega (arith, left)))
        ∙ a.inside k left
        ∙ get_or-take chunk buffer k 0 left
    | no right ↦
        let e : offset + k ≡ offset + chunk + (k - chunk) = omega (arith, right) in
        let g : chunk + (k - chunk) ≡ k = omega (arith, right) in
        ap (λ m. byte inode d2 m) e
        ∙ b.inside (k - chunk) (omega (arith, right, h))
        ∙ get_or-drop chunk buffer (k - chunk) 0
        ∙ ap (λ m. get_or buffer m 0) g
  ];
  outside = λ j where_j. elim where_j [
    | inl before ↦ b.outside j (inl (omega (arith, before))) ∙ a.outside j (inl before)
    | inr behind ↦
        b.outside j (inr (omega (arith, behind))) ∙ a.outside j (inr (omega (arith, behind)))
  ];
  elsewhere = λ s where_s. b.elsewhere s where_s ∙ a.elsewhere s where_s;
}

-- What a write of `size` bytes at `offset` comes to.
pub record Writes (inode : InodeDisk) (buffer : Str) (size offset : ℕ) (disk : Disk) (r : ℕ × Disk)
    : Type 0 where
  pub count : r.0 ≡ min size (inode.size - offset)
  pub written : Written inode buffer offset r.0 disk r.1

Writes-nothing :
    (inode : InodeDisk) (buffer : Str) (size offset : ℕ) (disk : Disk)
    → IsDisk disk
    → min size (inode.size - offset) ≡ 0
    → Writes inode buffer size offset disk (0, disk)
Writes-nothing inode buffer size offset disk good m = record {
  count = sym m;
  written = record {
    sectors = good;
    inside = λ k h. absurd (omega (arith, h));
    outside = λ j h. refl;
    elsewhere = λ s h. refl;
  };
}

write_loop-Writes :
    (f : ℕ) (inode : InodeDisk) (buffer : Str) (size offset : ℕ) (disk : Disk)
    → IsDisk disk
    → size ≤ f
    → size ≤ length buffer
    → Writes inode buffer size offset disk (write_loop f true inode buffer size offset disk)
unfolding write_loop sector_of write_to
write_loop-Writes zero inode buffer size offset disk good h l =
    Writes-nothing inode buffer size offset disk good (omega (arith, h))
write_loop-Writes (suc f) inode buffer size offset disk good h l =
    elim (Bool-cases (chunk_size inode size offset == 0)) [
      | inl e ↦
          rw (e, write_loop)
            (Writes-nothing inode buffer size offset disk good (fits.3 (ground arith)))
      | inr e ↦
          let chunk = chunk_size inode size offset in
          let s = inode.start + offset / 512 in
          let pos : chunk ≢ 0 = ground arith in
          let found : byte_to_sector inode offset ≡ some s =
            byte_to_sector-some inode offset (omega (arith, fits.1, pos)) in
          let bytes = take chunk buffer in
          let lb : length bytes ≡ chunk = length-take chunk buffer ∙ omega (arith, fits.0, l) in
          let (new, got, patched) =
            write_chunk-Patched (disk s) (offset % 512) chunk bytes (good s) (omega (arith, fits.2))
              lb in
          let d1 = block_write s new disk in
          let one : Written inode bytes offset chunk disk d1 =
            subst (λ n. Written inode bytes offset n disk d1) lb
              (round-Written inode bytes new offset disk good (omega (arith, lb, fits.1, pos))
                (omega (arith, lb, pos)) (omega (arith, lb, fits.2)) patched) in
          let more =
            write_loop-Writes f inode (drop chunk buffer) (size - chunk) (offset + chunk) d1
              one.sectors (omega (arith, pos, h))
              (omega (arith, length-drop chunk buffer, l, fits.0)) in
          let n = more.count in
          rw (e, found, got, found, write_loop)
            (record {
              count = omega (arith, n, fits.0, fits.1);
              written = Written-append inode buffer offset chunk _ disk d1 _ one more.written;
            })
    ]
  where
    fits :
        (chunk_size inode size offset ≤ size)
        × (chunk_size inode size offset ≤ inode.size - offset)
        × (chunk_size inode size offset ≤ 512 - offset % 512)
        × ((chunk_size inode size offset ≡ 0) → min size (inode.size - offset) ≡ 0)
    fits = chunk_size-lem inode size offset

-- With a bounce buffer and no one who denies writes, inode_write_at writes as many of the bytes as
-- the file has room for behind the offset; it leaves every other byte of the file, and every sector
-- that is not the file's, as it was.
pub inode_write_at-Writes :
    (inode : InodeDisk) (buffer : Str) (size offset : ℕ) (disk : Disk)
    → IsDisk disk
    → size ≤ length buffer
    → Writes inode buffer size offset disk (inode_write_at true 0 inode buffer size offset disk)
unfolding inode_write_at
inode_write_at-Writes inode buffer size offset disk good l =
    write_loop-Writes size inode buffer size offset disk good (omega arith) l
