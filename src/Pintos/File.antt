-- ===== src/Pintos/File.antt =====
-- Open files and the inode that they share: Project_3/filesys/file.c and the counts of inode.c. A
-- failed ASSERT and the use of a freed inode are `none`.
pub mod Sharing
pub mod Denying
pub mod Stored
use system_prog.Base.{
  ℕ, zero, suc, ◌+◌, ◌-◌, Bool, true, false, Option, none, some, Str, length, ltb, leb, ◌==◌,
  if◌then◌else◌,
}
use system_prog.Pintos.Bitmap.Files.{FileOps}
use system_prog.Pintos.FreeMap.{FreeMap, free_map_release}
use system_prog.Pintos.Inode.{
  Disk, InodeDisk, inode_length, bytes_to_sectors, inode_read_at, inode_write_at,
}

-- `struct inode`; the element of the list of open inodes is left out.
pub record Inode : Type 0 where
  pub sector : ℕ
  pub open_cnt : ℕ
  pub removed : Bool
  pub deny_write_cnt : ℕ
  pub data_ : InodeDisk

-- `struct file`, but for the pointer to the inode, which is an argument.
pub record File : Type 0 where
  pub pos : ℕ
  pub deny_write : Bool

unfoldable pub inode_reopen : Inode → Inode
inode_reopen i = record i { open_cnt = i.open_cnt + 1 }

unfoldable pub inode_remove : Inode → Inode
inode_remove i = record i { removed = true }

unfoldable pub inode_deny_write : Inode → Option Inode
inode_deny_write i =
    if leb (i.deny_write_cnt + 1) i.open_cnt
    then some (record i { deny_write_cnt = i.deny_write_cnt + 1 })
    else none

unfoldable pub inode_allow_write : Inode → Option Inode
inode_allow_write i =
    if ltb 0 i.deny_write_cnt
    then (if leb i.deny_write_cnt i.open_cnt
        then some (record i { deny_write_cnt = i.deny_write_cnt - 1 })
        else none)
    else none

unfoldable pub file_deny_write : File → Inode → Option (File × Inode)
file_deny_write f i = if f.deny_write then some (f, i) else elim (inode_deny_write i) [
  | none ↦ none
  | some i' ↦ some (record f { deny_write = true }, i')
]

unfoldable pub file_allow_write : File → Inode → Option (File × Inode)
file_allow_write f i =
    if f.deny_write
    then elim (inode_allow_write i) [
      | none ↦ none
      | some i' ↦ some (record f { deny_write = false }, i')
    ]
    else some (f, i)

-- `ops` is what the free map does with its file.
module _ {F : Type 0} (ops : FileOps F) where
  -- What the last closer of a removed inode gives back.
  unfoldable pub release_blocks : Inode → FreeMap F → Option (FreeMap F)
  release_blocks i m = elim (free_map_release ops i.sector 1 m) [
    | none ↦ none
    | some m' ↦ free_map_release ops i.data_.start (bytes_to_sectors i.data_.size) m'
  ]

  -- The first part of the result is `none` once the inode is freed.
  unfoldable pub inode_close : Inode → FreeMap F → Option (Option Inode × FreeMap F)
  inode_close i m = elim i.open_cnt [
    | zero ↦ none
    | suc n ↦ elim (n == 0) [
      | false ↦ some (some (record i { open_cnt = n }), m)
      | true ↦ elim i.removed [
        | false ↦ some (none, m)
        | true ↦ elim (release_blocks i m) [ none ↦ none | some m' ↦ some (none, m') ]
      ]
    ]
  ]

  -- `memory` is whether calloc succeeds; without it the reference to the inode is given up.
  unfoldable pub file_open :
      Bool → Option Inode → FreeMap F → Option (Option File × Option Inode × FreeMap F)
  file_open memory none m = some (none, none, m)
  file_open true (some i) m = some (some (record { pos = 0; deny_write = false }), some i, m)
  file_open false (some i) m = elim (inode_close i m) [
    | none ↦ none
    | some (i', m') ↦ some (none, i', m')
  ]

  unfoldable pub file_reopen :
      Bool → Inode → FreeMap F → Option (Option File × Option Inode × FreeMap F)
  file_reopen memory i m = file_open memory (some (inode_reopen i)) m

  unfoldable pub file_close : File → Inode → FreeMap F → Option (Option Inode × FreeMap F)
  file_close f i m = elim (file_allow_write f i) [ none ↦ none | some (f', i') ↦ inode_close i' m ]

unfoldable pub file_read : Bool → File → Inode → Disk → ℕ → Str × File
file_read memory f i disk size =
    let bytes = inode_read_at memory i.data_ disk size f.pos in
    (bytes, record f { pos = f.pos + length bytes })

unfoldable pub file_read_at : Bool → Inode → Disk → (size file_ofs : ℕ) → Str
file_read_at memory i disk size file_ofs = inode_read_at memory i.data_ disk size file_ofs

unfoldable pub file_write : Bool → File → Inode → Str → ℕ → Disk → ℕ × File × Disk
file_write memory f i buffer size disk =
    let (n, disk') = inode_write_at memory i.deny_write_cnt i.data_ buffer size f.pos disk in
    (n, record f { pos = f.pos + n }, disk')

unfoldable pub file_write_at : Bool → Inode → Str → (size file_ofs : ℕ) → Disk → ℕ × Disk
file_write_at memory i buffer size file_ofs disk =
    inode_write_at memory i.deny_write_cnt i.data_ buffer size file_ofs disk

unfoldable pub file_length : Inode → ℕ
file_length i = inode_length i.data_

unfoldable pub file_seek : ℕ → File → File
file_seek new_pos f = record f { pos = new_pos }

unfoldable pub file_tell : File → ℕ
file_tell f = f.pos

-- A file as the bitmaps use it.
abbrev pub file_ops : Bool → FileOps (Inode × Disk)
file_ops memory = record {
  read_at = λ f size file_ofs. file_read_at memory f.0 f.1 size file_ofs;
  write_at = λ f text size file_ofs.
      let (n, disk) = file_write_at memory f.0 text size file_ofs f.1 in (n, (f.0, disk));
}
