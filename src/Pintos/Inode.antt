-- ===== src/Pintos/Inode.antt =====
-- The data of an inode on the disk: Project_3/filesys/inode.c. A sector is the list of its bytes.
-- Offsets and sizes are not negative and below 2 ^ 31 - 511; `inode_length - offset` stops at 0 here, and where the C
-- number is below 0 both loops end, as they do at 0.
pub mod Reading
pub mod Writing
pub mod RoundTrip
use system_prog.Base.{
  ℕ, zero, suc, ◌+◌, ◌-◌, ◌/◌, ◌%◌, Bool, true, false, ◌&&◌, ◌||◌, Option, none, some, List, [],
  ◌∷◌, ◌++◌, Str, take, drop, replicate, length, ltb, ◌==◌, if◌then◌else◌,
}

-- BLOCK_SECTOR_SIZE
abbrev pub block_sector_size : ℕ
block_sector_size = 512

-- What `block_read` gets from a sector.
abbrev pub Disk : Type 0
Disk = ℕ → Str

-- `start` and `length` of the `struct inode_disk` in the inode.
pub record InodeDisk : Type 0 where
  pub start : ℕ
  pub size : ℕ

unfoldable pub bytes_to_sectors : ℕ → ℕ
bytes_to_sectors size = (size + (block_sector_size - 1)) / block_sector_size

-- `none` for -1.
unfoldable pub byte_to_sector : InodeDisk → ℕ → Option ℕ
byte_to_sector inode pos =
    if ltb pos inode.size then some (inode.start + pos / block_sector_size) else none

unfoldable pub inode_length : InodeDisk → ℕ
inode_length inode = inode.size

unfoldable pub smaller : ℕ → ℕ → ℕ
smaller a b = if ltb a b then a else b

-- How much of the sector is copied in a round.
unfoldable pub chunk_size : InodeDisk → (size offset : ℕ) → ℕ
chunk_size inode size offset =
    smaller size
      (smaller (inode_length inode - offset) (block_sector_size - offset % block_sector_size))

-- A round that fills the whole of a sector goes without the bounce buffer.
unfoldable pub is_whole : (sector_ofs chunk : ℕ) → Bool
is_whole sector_ofs chunk = (sector_ofs == 0) && (chunk == block_sector_size)

unfoldable pub sector_of : Option ℕ → Disk → Str
sector_of none disk = []
sector_of (some sector) disk = disk sector

-- The bytes that a round copies, `none` if there is no memory for the bounce buffer.
unfoldable pub read_chunk : Bool → Str → (sector_ofs chunk : ℕ) → Option Str
read_chunk memory sector sector_ofs chunk =
    if is_whole sector_ofs chunk
    then some sector
    else if memory
    then some (take chunk (drop sector_ofs sector))
    else none

-- The loop of `inode_read_at`; a round copies a byte at least, so `size` rounds are enough. `memory`
-- is whether `malloc` has a bounce buffer.
unfoldable pub read_loop : ℕ → Bool → InodeDisk → Disk → (size offset : ℕ) → Str
read_loop zero memory inode disk size offset = []
read_loop (suc f) memory inode disk size offset =
    let chunk = chunk_size inode size offset in
    let sector = sector_of (byte_to_sector inode offset) disk in
    let rest = read_loop f memory inode disk (size - chunk) (offset + chunk) in
    if chunk == 0 then [] else elim (read_chunk memory sector (offset % block_sector_size) chunk) [
      | none ↦ []
      | some bytes ↦ bytes ++ rest
    ]

-- The bytes in the buffer; their number is the result.
unfoldable pub inode_read_at : Bool → InodeDisk → Disk → (size offset : ℕ) → Str
inode_read_at memory inode disk size offset = read_loop size memory inode disk size offset

unfoldable pub block_write : ℕ → Str → Disk → Disk
block_write sector bytes disk k = if k == sector then bytes else disk k

-- `memcpy(bounce + sector_ofs, bytes, …)`
unfoldable pub splice : Str → ℕ → Str → Str
splice bounce sector_ofs bytes =
    take sector_ofs bounce ++ (bytes ++ drop (sector_ofs + length bytes) bounce)

-- What a round writes to the sector that held `old`.
unfoldable pub write_chunk : Bool → Str → (sector_ofs chunk : ℕ) → Str → Option Str
write_chunk memory old sector_ofs chunk bytes =
    if is_whole sector_ofs chunk
    then some bytes
    else if memory
    then some (
        splice
          (if ltb 0 sector_ofs || ltb chunk (block_sector_size - sector_ofs)
            then old
            else replicate block_sector_size 0)
          sector_ofs bytes)
    else none

unfoldable pub write_to : Option ℕ → Str → Disk → Disk
write_to none bytes disk = disk
write_to (some sector) bytes disk = block_write sector bytes disk

-- The loop of `inode_write_at`, with the part of the buffer that is left. The result is the number
-- of bytes written.
unfoldable pub write_loop :
    ℕ → Bool → InodeDisk → (buffer : Str) → (size offset : ℕ) → Disk → ℕ × Disk
write_loop zero memory inode buffer size offset disk = (0, disk)
write_loop (suc f) memory inode buffer size offset disk =
    let chunk = chunk_size inode size offset in
    let sector = byte_to_sector inode offset in
    elim (chunk == 0) [
      | true ↦ (0, disk)
      | false ↦
          elim (write_chunk memory (sector_of sector disk) (offset % block_sector_size) chunk
            (take chunk buffer)) [
              | none ↦ (0, disk)
              | some bytes ↦
                  let (n, disk') =
                    write_loop f memory inode (drop chunk buffer) (size - chunk) (offset + chunk)
                      (write_to sector bytes disk) in
                  (chunk + n, disk')
            ]
    ]

-- `deny_write_cnt` is the count in the inode.
unfoldable pub inode_write_at : Bool → ℕ → InodeDisk → Str → (size offset : ℕ) → Disk → ℕ × Disk
inode_write_at memory deny_write_cnt inode buffer size offset disk =
    if deny_write_cnt == 0 then write_loop size memory inode buffer size offset disk else (0, disk)
