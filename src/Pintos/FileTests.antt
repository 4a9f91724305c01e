-- ===== src/Pintos/FileTests.antt =====
-- Tests of the free map and the files of Project_3, and their theorems at concrete inputs.
use system_prog.Base.{
  none, ◌++◌, Str, take, drop, ℕ, ◌+◌, ◌≤◌, ◌<◌, ◌≡◌, refl, true, false, some, [], ◌∷◌, arith,
  replicate, ◌⊎◌,
}
use system_prog.Pintos.Bitmap.{
  Elem, Bitmap, elem_cnt, elem_idx, bit_mask, zip_digits, is_nonzero, combine, byte_cnt,
  bitmap_mark, bitmap_set, bitmap_test, is_range, set_loop, is_same, bitmap_set_multiple,
  contains_loop, bitmap_contains, bitmap_scan, scan_loop, flip_found, bitmap_scan_and_flip,
}
use system_prog.Pintos.Bitmap.Files.{
  FileOps, bitmap_read, bitmap_write, bytes_of, elem_bytes, byte_of,
}
use system_prog.Pintos.Bitmap.Bits.{IsBitmap, bit}
use system_prog.Pintos.Bitmap.Storage.{bitmap_read-bitmap_write}
use system_prog.Pintos.Inode.{
  Disk, InodeDisk, inode_write_at, write_loop, chunk_size, smaller, inode_length, byte_to_sector,
  sector_of, write_chunk, is_whole, splice, write_to, block_write,
}
use system_prog.Pintos.File.{
  Inode, File, file_deny_write, inode_deny_write, file_write, file_write_at, file_open, file_reopen,
  inode_reopen, file_ops,
}
use system_prog.Pintos.File.Sharing.{deniers}
use system_prog.Pintos.File.Denying.{Shares, start, opened, denied, file_write_denied}
use system_prog.Pintos.File.Stored.{IsWritable, file_ops-IsStorage}
use system_prog.Pintos.FreeMap.{
  FreeMap, record_in_file, record_sectors, free_map_allocate, free_map_release,
}
use system_prog.Pintos.FreeMap.Sequences
use system_prog.Pintos.FreeMap.Allocation.{
  Allocates, Alike, free_map_allocate_lem, free_map_release-allocate,
}
use system_prog.Pintos.FreeMap.Sequences.{Allocating, free_map_allocate_apart}

-- Forty bits in two elements, all clear.
abbrev clear_elem : Elem
clear_elem = replicate 32 false

abbrev forty : Bitmap
forty = record { bit_cnt = 40; bits = clear_elem ∷ clear_elem ∷ [] }

forty-IsBitmap : IsBitmap forty
unfolding elem_cnt
forty-IsBitmap = record { small = omega arith; size = refl; digits = (refl, (refl, tt)) }

abbrev disk : Disk
disk = λ sector. replicate 512 sector

abbrev two_sectors : InodeDisk
two_sectors = record { start = 5; size = 700 }

-- The inode of a file that nobody denies writes to.
abbrev plain : Inode
plain = record {
  sector = 4;
  open_cnt = 1;
  removed = false;
  deny_write_cnt = 0;
  data_ = two_sectors;
}

-- Three bits of the forty are set.
abbrev three_set : Elem
three_set = true ∷ true ∷ true ∷ replicate 29 false

abbrev marked : Bitmap
marked = record { bit_cnt = 40; bits = three_set ∷ clear_elem ∷ [] }

marked-IsBitmap : IsBitmap marked
unfolding elem_cnt
marked-IsBitmap = record { small = omega arith; size = refl; digits = (refl, (refl, tt)) }

writes_marked : (bitmap_write (file_ops true) (plain, disk) marked).0 ≡ true
unfolding bitmap_write bytes_of elem_bytes byte_of byte_cnt elem_cnt file_write_at inode_write_at
    write_loop chunk_size smaller inode_length byte_to_sector sector_of write_chunk is_whole splice
    write_to block_write
writes_marked = refl

bitmap_read-bitmap_write_example :
    (b' : Bitmap) × (bitmap_read
        (file_ops true)
        (bitmap_write (file_ops true) (plain, disk) marked).1
        forty
      ≡ some (true, b'))
    × (b'.bit_cnt ≡ 40)
    × ((j : ℕ) → j < 40 → bit b' j ≡ bit marked j)
bitmap_read-bitmap_write_example =
    bitmap_read-bitmap_write (file_ops true) IsWritable file_ops-IsStorage (plain, disk) marked
      forty (record { undenied = refl; disk = λ sector. refl }) marked-IsBitmap forty-IsBitmap refl
      writes_marked

-- A file that is its bytes, and takes every write.
abbrev byte_file : FileOps Str
byte_file = record {
  read_at = λ f size file_ofs. take size (drop file_ofs f);
  write_at =
      λ f text size file_ofs. (size, take file_ofs f ++ take size text ++ drop (file_ofs + size) f);
}

-- A device of forty sectors, before and after allocations of three sectors and of two more.
abbrev device : FreeMap Str
device = record { free_map = forty; free_map_file = some (replicate 8 0) }

free_map_allocate_lem_example : Allocates byte_file (free_map_allocate byte_file 3 device) device 3
free_map_allocate_lem_example = free_map_allocate_lem byte_file 3 device forty-IsBitmap

abbrev after_three : FreeMap Str
after_three = record {
  free_map = marked;
  free_map_file = some (7 ∷ 0 ∷ 0 ∷ 0 ∷ 0 ∷ 0 ∷ 0 ∷ 0 ∷ []);
}

abbrev after_two : FreeMap Str
after_two = record {
  free_map = record {
    bit_cnt = 40;
    bits = (true ∷ true ∷ true ∷ true ∷ true ∷ replicate 27 false) ∷ clear_elem ∷ [];
  };
  free_map_file = some (31 ∷ 0 ∷ 0 ∷ 0 ∷ 0 ∷ 0 ∷ 0 ∷ 0 ∷ []);
}

allocates_three : free_map_allocate byte_file 3 device ≡ some (some 0, after_three)
unfolding free_map_allocate record_sectors record_in_file bitmap_write bytes_of elem_bytes byte_of
    byte_cnt elem_cnt bitmap_scan_and_flip bitmap_scan scan_loop bitmap_contains is_range
    contains_loop bitmap_test elem_idx is_nonzero zip_digits bit_mask is_same flip_found
    bitmap_set_multiple set_loop bitmap_set bitmap_mark combine
allocates_three = refl

-- There is no group of forty free sectors.
allocates_none : free_map_allocate byte_file 40 after_three ≡ some (none, after_three)
unfolding free_map_allocate record_sectors record_in_file bitmap_write bytes_of elem_bytes byte_of
    byte_cnt elem_cnt bitmap_scan_and_flip bitmap_scan scan_loop bitmap_contains is_range
    contains_loop bitmap_test elem_idx is_nonzero zip_digits bit_mask is_same flip_found
    bitmap_set_multiple set_loop bitmap_set bitmap_mark combine
allocates_none = refl

allocates_two : free_map_allocate byte_file 2 after_three ≡ some (some 3, after_two)
unfolding free_map_allocate record_sectors record_in_file bitmap_write bytes_of elem_bytes byte_of
    byte_cnt elem_cnt bitmap_scan_and_flip bitmap_scan scan_loop bitmap_contains is_range
    contains_loop bitmap_test elem_idx is_nonzero zip_digits bit_mask is_same flip_found
    bitmap_set_multiple set_loop bitmap_set bitmap_mark combine
allocates_two = refl

free_map_release-allocate_example :
    (m'' : FreeMap Str) × (free_map_release byte_file 0 3 after_three ≡ some m'')
    × IsBitmap m''.free_map
    × Alike forty m''.free_map
    × (m''.free_map_file
        ≡ some
            (bitmap_write byte_file
              (bitmap_write byte_file (replicate 8 0) marked).1
              m''.free_map).1)
free_map_release-allocate_example =
    free_map_release-allocate byte_file 3 0 device after_three (replicate 8 0) forty-IsBitmap refl
      allocates_three

free_map_allocate_apart_example : (0 + 3 ≤ 3) ⊎ (3 + 2 ≤ 0)
free_map_allocate_apart_example =
    free_map_allocate_apart byte_file 3 2 0 3 device after_three after_three after_two
      forty-IsBitmap (omega arith) (omega arith) allocates_three
      (Sequences.next 40 none after_three Sequences.start allocates_none) allocates_two

-- An inode with two files, of which one denies writes.
abbrev program : Inode
program = record {
  sector = 4;
  open_cnt = 2;
  removed = false;
  deny_write_cnt = 1;
  data_ = two_sectors;
}

abbrev fresh_file : File
fresh_file = record { pos = 0; deny_write = false }

abbrev executable : File
executable = record { pos = 0; deny_write = true }

-- The inode before its files are opened.
abbrev closed_program : Inode
closed_program = record program { open_cnt = 0; deny_write_cnt = 0 }

program-Shares : Shares byte_file 0 program ([] ++ executable ∷ fresh_file ∷ [])
unfolding file_reopen file_open inode_reopen file_deny_write inode_deny_write
program-Shares =
    denied [] (fresh_file ∷ []) fresh_file executable program
      (opened true device device fresh_file (record closed_program { open_cnt = 2 })
        (opened true device device fresh_file (record closed_program { open_cnt = 1 })
          (start closed_program refl refl) refl)
        refl)
      refl

file_write_denied_example :
    (1 ≡ deniers ([] ++ executable ∷ fresh_file ∷ []))
    × (file_write true fresh_file program (7 ∷ []) 1 disk ≡ (0, fresh_file, disk))
    × (file_write_at true program (7 ∷ []) 1 9 disk ≡ (0, disk))
file_write_denied_example =
    file_write_denied byte_file 0 program [] (fresh_file ∷ []) executable fresh_file true (7 ∷ []) 1
      9 disk program-Shares refl
