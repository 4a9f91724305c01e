-- ===== src/Pintos/Bitmap/Files.antt =====
-- Bitmaps in files: bitmap_read and bitmap_write of Project_3/lib/kernel/bitmap.c.
use system_prog.Base.{
  ℕ, zero, suc, ◌+◌, ◌-◌, ◌*◌, ◌/◌, ◌%◌, ◌≤◌, ◌≡◌, Bool, true, ◌&&◌, Option, none, some, List, [],
  ◌∷◌, ◌++◌, Str, length, take, drop, ltb, ◌==◌, if◌then◌else◌,
}
use system_prog.Pintos.Bitmap.{Elem, Bitmap, elem_cnt, byte_cnt, combine, last_mask}

-- What a bitmap needs of its file: file_read_at gives the bytes that it has read, and file_write_at
-- the number of the bytes written and the file behind the write.
pub record FileOps (F : Type 0) : Type 0 where
  pub read_at : F → (size file_ofs : ℕ) → Str
  pub write_at : F → Str → (size file_ofs : ℕ) → ℕ × F

-- A write to the start of a good file can be read back.
pub record IsStorage {F : Type 0} (ops : FileOps F) (good : F → Type 0) : Type 0 where
  pub read-write :
      (f : F) (text : Str) (size : ℕ)
      → good f
      → size ≤ length text
      → (ops.write_at f text size 0).0 ≡ size
      → ops.read_at (ops.write_at f text size 0).1 size 0 ≡ take size text

-- The bytes of an element in the memory, the lowest first.
unfoldable pub byte_of : List Bool → ℕ
byte_of [] = 0
byte_of (d ∷ ds) = (if d then 1 else 0) + 2 * byte_of ds

unfoldable pub digits_of : ℕ → ℕ → List Bool
digits_of zero n = []
digits_of (suc k) n = (n % 2 == 1) ∷ digits_of k (n / 2)

unfoldable pub elem_bytes : Elem → Str
elem_bytes e =
    byte_of (take 8 e)
    ∷ byte_of (take 8 (drop 8 e))
    ∷ byte_of (take 8 (drop 16 e))
    ∷ byte_of (take 8 (drop 24 e))
    ∷ []

-- `b->bits` as the bytes that file_write_at takes.
unfoldable pub bytes_of : List Elem → Str
bytes_of [] = []
bytes_of (e ∷ es) = elem_bytes e ++ bytes_of es

unfoldable pub all_digits : Str → List Bool
all_digits [] = []
all_digits (byte ∷ bytes) = digits_of 8 byte ++ all_digits bytes

-- What file_read_at leaves in `b->bits` when it has read `bytes`: behind these it changes nothing.
unfoldable pub load_elem : Str → Elem → Elem
load_elem bytes e = all_digits bytes ++ drop (8 * length bytes) e

unfoldable pub load_bytes : Str → List Elem → List Elem
load_bytes bytes [] = []
load_bytes bytes (e ∷ es) = load_elem (take 4 bytes) e ∷ load_bytes (drop 4 bytes) es

-- `b->bits[elem_cnt(b->bit_cnt) - 1] &= last_mask(b)`
unfoldable pub mask_last : Bitmap → Option Bitmap
mask_last b = combine (λ x y. x && y) (last_mask b) (elem_cnt b.bit_cnt - 1) b

module _ {F : Type 0} (ops : FileOps F) where
  unfoldable pub bitmap_read : F → Bitmap → Option (Bool × Bitmap)
  bitmap_read file b =
      let bytes = ops.read_at file (byte_cnt b.bit_cnt) 0 in
      if ltb 0 b.bit_cnt
      then elim (mask_last (record b { bits = load_bytes bytes b.bits })) [
        | none ↦ none
        | some b' ↦ some (length bytes == byte_cnt b.bit_cnt, b')
      ]
      else some (true, b)

  unfoldable pub bitmap_write : F → Bitmap → Bool × F
  bitmap_write file b =
      let (count, file') = ops.write_at file (bytes_of b.bits) (byte_cnt b.bit_cnt) 0 in
      (count == byte_cnt b.bit_cnt, file')
