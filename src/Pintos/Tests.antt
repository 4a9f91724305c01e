-- ===== src/Pintos/Tests.antt =====
-- Tests of the bitmaps and inodes of Project_3, and their theorems at concrete inputs.
use system_prog.Base.{Str, take, ◌≡◌, refl, true, false, some, [], ◌∷◌, arith, replicate}
use system_prog.Pintos.Bitmap.{Elem, Bitmap, elem_cnt, bitmap_set, bitmap_scan_and_flip}
use system_prog.Pintos.Bitmap.Bits.{IsBitmap, Writes, bitmap_set-Writes}
use system_prog.Pintos.Bitmap.Scan.{Claims, bitmap_scan_and_flip_lem}
use system_prog.Pintos.Inode.{Disk, InodeDisk, inode_read_at, inode_write_at}
use system_prog.Pintos.Inode.Reading.{IsDisk, Reads, inode_read_at-Reads}
use system_prog.Pintos.Inode.Writing
use system_prog.Pintos.Inode.Writing.{inode_write_at-Writes}
use system_prog.Pintos.Inode.RoundTrip.{inode_read_at-inode_write_at}

-- Forty bits in two elements, all clear.
abbrev clear_elem : Elem
clear_elem = replicate 32 false

abbrev forty : Bitmap
forty = record { bit_cnt = 40; bits = clear_elem ∷ clear_elem ∷ [] }

forty-IsBitmap : IsBitmap forty
unfolding elem_cnt
forty-IsBitmap = record { small = omega arith; size = refl; digits = (refl, (refl, tt)) }

bitmap_set-Writes_example :
    (b' : Bitmap) × (bitmap_set forty 33 true ≡ some b') × Writes forty 33 true b'
bitmap_set-Writes_example = bitmap_set-Writes forty 33 true forty-IsBitmap (omega arith)

bitmap_scan_and_flip_lem_example : Claims (bitmap_scan_and_flip forty 3 35 false) forty 3 35 false
bitmap_scan_and_flip_lem_example =
    bitmap_scan_and_flip_lem forty 3 35 false forty-IsBitmap (omega arith)

-- A disk whose sectors hold their own number, and a file in its sectors 5 and 6.
abbrev numbered_disk : Disk
numbered_disk = λ sector. replicate 512 sector

numbered-IsDisk : IsDisk numbered_disk
numbered-IsDisk sector = refl

abbrev two_sectors : InodeDisk
two_sectors = record { start = 5; size = 700 }

inode_read_at-Reads_example :
    Reads two_sectors numbered_disk 300 500 (inode_read_at true two_sectors numbered_disk 300 500)
inode_read_at-Reads_example = inode_read_at-Reads two_sectors numbered_disk 300 500 numbered-IsDisk

-- Two sectors and a byte, of which the file takes the first 700 bytes.
abbrev text : Str
text = replicate 1025 120

inode_write_at-Writes_example :
    Writing.Writes two_sectors text 1025 0 numbered_disk
      (inode_write_at true 0 two_sectors text 1025 0 numbered_disk)
inode_write_at-Writes_example =
    inode_write_at-Writes two_sectors text 1025 0 numbered_disk numbered-IsDisk (omega arith)

inode_read_at-inode_write_at_example :
    let (n, disk') = inode_write_at true 0 two_sectors text 1025 0 numbered_disk in
    inode_read_at true two_sectors disk' 1025 0 ≡ take n text
inode_read_at-inode_write_at_example =
    inode_read_at-inode_write_at two_sectors text 1025 0 numbered_disk numbered-IsDisk (omega arith)
