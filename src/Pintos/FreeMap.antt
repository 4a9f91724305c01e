-- ===== src/Pintos/FreeMap.antt =====
-- The map of free sectors: Project_3/filesys/free-map.c, on the bitmap of the kernel. A set bit is a
-- sector in use. A failed ASSERT, a PANIC and the use of a null pointer are `none`.
pub mod Allocation
pub mod Sequences
pub mod Initial
use system_prog.Base.{ℕ, Bool, true, false, not, Option, none, some, List, ◌==◌, if◌then◌else◌}
use system_prog.Pintos.Bitmap.{
  Elem, Bitmap, bitmap_create, bitmap_mark, bitmap_scan_and_flip, bitmap_set_multiple, bitmap_all,
  bitmap_error,
}
use system_prog.Pintos.Bitmap.Files.{FileOps, bitmap_read, bitmap_write}

-- FREE_MAP_SECTOR and ROOT_DIR_SECTOR.
abbrev pub free_map_sector : ℕ
free_map_sector = 0

abbrev pub root_dir_sector : ℕ
root_dir_sector = 1

-- The two static variables; the null pointer is `none`.
pub record FreeMap (F : Type 0) : Type 0 where
  pub free_map : Bitmap
  pub free_map_file : Option F

unfoldable pub mark_reserved : {F : Type 0} → Option (Option Bitmap) → Option (FreeMap F)
mark_reserved none = none
mark_reserved (some none) = none
mark_reserved (some (some b)) = elim (bitmap_mark b free_map_sector) [
  | none ↦ none
  | some b' ↦ elim (bitmap_mark b' root_dir_sector) [
    | none ↦ none
    | some b'' ↦ some (record { free_map = b''; free_map_file = none })
  ]
]

unfoldable pub free_map_init : {F : Type 0} → Bool → Option (List Elem) → ℕ → Option (FreeMap F)
free_map_init memory storage size = mark_reserved (bitmap_create memory storage size)

module _ {F : Type 0} (ops : FileOps F) where
  -- What follows the search, when there is a file: the write, and the way back when it fails. The
  -- first part of the result is `*sectorp`, or `none` for the result false.
  unfoldable pub record_in_file : ℕ → ℕ → Bitmap → F → Option (Option ℕ × FreeMap F)
  record_in_file cnt sector b file =
      let (success, file') = bitmap_write ops file b in
      if not success
      then elim (bitmap_set_multiple b sector cnt false) [
        | none ↦ none
        | some b' ↦ some (none, record { free_map = b'; free_map_file = some file' })
      ]
      else some (some sector, record { free_map = b; free_map_file = some file' })

  unfoldable pub record_sectors : ℕ → Option F → Option (ℕ × Bitmap) → Option (Option ℕ × FreeMap F)
  record_sectors cnt file none = none
  record_sectors cnt file (some (sector, b)) =
      if sector == bitmap_error
      then some (none, record { free_map = b; free_map_file = file })
      else elim file [
        | none ↦ some (some sector, record { free_map = b; free_map_file = none })
        | some f ↦ record_in_file cnt sector b f
      ]

  unfoldable pub free_map_allocate : ℕ → FreeMap F → Option (Option ℕ × FreeMap F)
  free_map_allocate cnt m =
      record_sectors cnt m.free_map_file (bitmap_scan_and_flip m.free_map 0 cnt false)

  -- The result of the last write is not used.
  unfoldable pub release_if : Option Bool → ℕ → ℕ → FreeMap F → Option (FreeMap F)
  release_if none sector cnt m = none
  release_if (some false) sector cnt m = none
  release_if (some true) sector cnt m = elim (bitmap_set_multiple m.free_map sector cnt false) [
    | none ↦ none
    | some b ↦ elim m.free_map_file [
      | none ↦ none
      | some f ↦ some (record { free_map = b; free_map_file = some (bitmap_write ops f b).1 })
    ]
  ]

  unfoldable pub free_map_release : ℕ → ℕ → FreeMap F → Option (FreeMap F)
  free_map_release sector cnt m = release_if (bitmap_all m.free_map sector cnt) sector cnt m

  -- `opened` is the result of `file_open`.
  unfoldable pub free_map_open : Option F → FreeMap F → Option (FreeMap F)
  free_map_open none m = none
  free_map_open (some f) m = elim (bitmap_read ops f m.free_map) [
    | none ↦ none
    | some (success, b) ↦
        if success then some (record { free_map = b; free_map_file = some f }) else none
  ]

  -- `created` is the result of `inode_create`.
  unfoldable pub free_map_create : Bool → Option F → FreeMap F → Option (FreeMap F)
  free_map_create false opened m = none
  free_map_create true none m = none
  free_map_create true (some f) m =
      let (success, f') = bitmap_write ops f m.free_map in
      if success then some (record m { free_map_file = some f' }) else none
