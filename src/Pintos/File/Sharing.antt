-- ===== src/Pintos/File/Sharing.antt =====
-- The files that share an inode: the counts of Project_3/filesys/inode.c against the flags of
-- file.c.
use system_prog.Base.{
  ℕ, ◌+◌, ◌-◌, ◌≤◌, ◌<◌, ◌≡◌, refl, Bool, true, false, Option, some, List, [], ◌∷◌, ◌++◌, Str,
  arith, length, length-append, if◌then◌else◌, Bool-cases, inl, inr,
}
use system_prog.Pintos.FreeMap.{FreeMap}
use system_prog.Pintos.Inode.{Disk, inode_write_at}
use system_prog.Pintos.File.{
  Inode, File, inode_deny_write, inode_allow_write, file_deny_write, file_allow_write,
}

-- How many of the files deny writes.
abbrev pub deniers : List File → ℕ
deniers [] = 0
deniers (f ∷ fs) = (if f.deny_write then 1 else 0) + deniers fs

-- The inode is open for the files and `others` times more, and its count of deniers is the files'.
pub record IsShared (others : ℕ) (i : Inode) (files : List File) : Type 0 where
  pub opened : i.open_cnt ≡ length files + others
  pub denied : i.deny_write_cnt ≡ deniers files

pub deniers-append : (fs gs : List File) → deniers (fs ++ gs) ≡ deniers fs + deniers gs
deniers-append [] gs = omega arith
deniers-append (f ∷ fs) gs = omega (arith, deniers-append fs gs)

deniers-length : (fs : List File) → deniers fs ≤ length fs
deniers-length [] = omega arith
deniers-length (f ∷ fs) = ground (arith, deniers-length fs)

pub write_at-denied :
    (i : Inode) (memory : Bool) (buffer : Str) (size offset : ℕ) (disk : Disk)
    → 0 < i.deny_write_cnt
    → inode_write_at memory i.deny_write_cnt i.data_ buffer size offset disk ≡ (0, disk)
unfolding inode_write_at
write_at-denied i memory buffer size offset disk h = ground (arith, h)

-- What a change of a file's flag comes to.
abbrev pub Flags : ℕ → Inode → Option (File × Inode) → List File → List File → Bool → Type 0
Flags others i o fs gs b =
    (f' : File) × (i' : Inode) × (o ≡ some (f', i'))
    × (f'.deny_write ≡ b)
    × (i'.open_cnt ≡ i.open_cnt)
    × (i'.removed ≡ i.removed)
    × IsShared others i' (fs ++ f' ∷ gs)

pub moved-IsShared :
    (others : ℕ) (i i' : Inode) (fs gs : List File) (f f' : File)
    → IsShared others i (fs ++ f ∷ gs)
    → i'.open_cnt ≡ i.open_cnt
    → i'.deny_write_cnt + deniers (f ∷ []) ≡ i.deny_write_cnt + deniers (f' ∷ [])
    → IsShared others i' (fs ++ f' ∷ gs)
moved-IsShared others i i' fs gs f f' v same moved =
    let d = v.denied in
    let o = v.opened in
    record {
      opened = omega (arith, o, same, length-append fs (f ∷ gs), length-append fs (f' ∷ gs));
      denied = omega (arith, d, moved, deniers-append fs (f ∷ gs), deniers-append fs (f' ∷ gs));
    }

pub file_deny_write-Flags :
    (others : ℕ) (i : Inode) (fs gs : List File) (f : File)
    → IsShared others i (fs ++ f ∷ gs)
    → Flags others i (file_deny_write f i) fs gs true
unfolding file_deny_write inode_deny_write
file_deny_write-Flags others i fs gs f v = elim (Bool-cases f.deny_write) [
  | inl e ↦ (f, i, ground (arith, e), e, refl, refl, v)
  | inr e ↦
      let f' : File = record f { deny_write = true } in
      let i' : Inode = record i { deny_write_cnt = i.deny_write_cnt + 1 } in
      let d = v.denied in
      let o = v.opened in
      let room : i.deny_write_cnt + 1 ≤ i.open_cnt = ground (
        arith,
        e,
        d,
        o,
        deniers-append fs (f ∷ gs),
        length-append fs (f ∷ gs),
        deniers-length fs,
        deniers-length gs,
      ) in
      (
        f',
        i',
        ground (arith, e, room),
        refl,
        refl,
        refl,
        moved-IsShared others i i' fs gs f f' v refl (ground (arith, e)),
      )
]

pub file_allow_write-Flags :
    (others : ℕ) (i : Inode) (fs gs : List File) (f : File)
    → IsShared others i (fs ++ f ∷ gs)
    → Flags others i (file_allow_write f i) fs gs false
unfolding file_allow_write inode_allow_write
file_allow_write-Flags others i fs gs f v = elim (Bool-cases f.deny_write) [
  | inr e ↦ (f, i, ground (arith, e), e, refl, refl, v)
  | inl e ↦
      let f' : File = record f { deny_write = false } in
      let i' : Inode = record i { deny_write_cnt = i.deny_write_cnt - 1 } in
      let d = v.denied in
      let o = v.opened in
      let pos : 0 < i.deny_write_cnt = ground (arith, e, d, deniers-append fs (f ∷ gs)) in
      let room : i.deny_write_cnt ≤ i.open_cnt =
        omega (arith, d, o, deniers-length (fs ++ f ∷ gs)) in
      (
        f',
        i',
        ground (arith, e, pos, room),
        refl,
        refl,
        refl,
        moved-IsShared others i i' fs gs f f' v refl (ground (arith, e, pos)),
      )
]

pub without :
    (fs gs : List File) (f : File)
    → f.deny_write ≡ false
    → deniers (fs ++ f ∷ gs) ≡ deniers (fs ++ gs)
without fs gs f h = ground (arith, h, deniers-append fs (f ∷ gs), deniers-append fs gs)
