-- ===== src/Pintos/Bitmap.antt =====
-- The bitmap of Project_3/lib/kernel/bitmap.c. A failed ASSERT and an access outside the array are
-- `none`.
pub mod Bits
pub mod Ranges
pub mod Scan
pub mod Files
pub mod Bytes
pub mod Storage
use system_prog.Base.{
  ℕ, zero, suc, ◌+◌, ◌-◌, ◌*◌, ◌/◌, ◌%◌, Bool, true, false, ◌&&◌, ◌||◌, not, Option, none, some,
  List, [], ◌∷◌, length, get_elem?, set, replicate, ltb, leb, ◌==◌, if◌then◌else◌,
}

-- ELEM_BITS: `unsigned long` has 32 bits on the machine of the kernel, and so has `size_t`.
abbrev pub elem_bits : ℕ
elem_bits = 32

abbrev pub size_limit : ℕ
size_limit = 4294967296

-- `elem_type`: the 32 binary digits of the number, the lowest first.
abbrev pub Elem : Type 0
Elem = List Bool

pub record Bitmap : Type 0 where
  pub bit_cnt : ℕ
  pub bits : List Elem

unfoldable pub elem_idx : ℕ → ℕ
elem_idx bit_idx = bit_idx / elem_bits

-- `1 << (bit_idx % ELEM_BITS)`
unfoldable pub bit_mask : ℕ → Elem
bit_mask bit_idx = set (replicate elem_bits false) (bit_idx % elem_bits) true

-- `DIV_ROUND_UP(bit_cnt, ELEM_BITS)`, whose sum wraps around.
unfoldable pub elem_cnt : ℕ → ℕ
elem_cnt bit_cnt = (bit_cnt + (elem_bits - 1)) % size_limit / elem_bits

unfoldable pub byte_cnt : ℕ → ℕ
byte_cnt bit_cnt = (4 * elem_cnt bit_cnt) % size_limit

-- The operators `|`, `&` and `^` on digits.
unfoldable pub zip_digits : (Bool → Bool → Bool) → Elem → Elem → Elem
zip_digits f [] ys = []
zip_digits f (x ∷ xs) [] = []
zip_digits f (x ∷ xs) (y ∷ ys) = f x y ∷ zip_digits f xs ys

unfoldable pub differ : Bool → Bool → Bool
differ a b = if a then not b else b

-- `~mask`
unfoldable pub complement : Elem → Elem
complement [] = []
complement (x ∷ xs) = not x ∷ complement xs

-- `elem != 0`
unfoldable pub is_nonzero : Elem → Bool
is_nonzero [] = false
is_nonzero (x ∷ xs) = x || is_nonzero xs

-- `b->bits[idx] = op(b->bits[idx], arg)`
unfoldable pub combine : (Bool → Bool → Bool) → Elem → ℕ → Bitmap → Option Bitmap
combine op arg idx b = elim (get_elem? b.bits idx) [
  | none ↦ none
  | some e ↦ some (record b { bits = set b.bits idx (zip_digits op e arg) })
]

unfoldable pub bitmap_size : Bitmap → ℕ
bitmap_size b = b.bit_cnt

unfoldable pub bitmap_mark : Bitmap → ℕ → Option Bitmap
bitmap_mark b bit_idx = combine (λ x y. x || y) (bit_mask bit_idx) (elem_idx bit_idx) b

unfoldable pub bitmap_reset : Bitmap → ℕ → Option Bitmap
bitmap_reset b bit_idx =
    combine (λ x y. x && y) (complement (bit_mask bit_idx)) (elem_idx bit_idx) b

unfoldable pub bitmap_flip : Bitmap → ℕ → Option Bitmap
bitmap_flip b bit_idx = combine differ (bit_mask bit_idx) (elem_idx bit_idx) b

unfoldable pub bitmap_set : Bitmap → ℕ → Bool → Option Bitmap
bitmap_set b idx value =
    if ltb idx b.bit_cnt then (if value then bitmap_mark b idx else bitmap_reset b idx) else none

unfoldable pub bitmap_test : Bitmap → ℕ → Option Bool
bitmap_test b idx =
    if ltb idx b.bit_cnt
    then elim (get_elem? b.bits (elem_idx idx)) [
      | none ↦ none
      | some e ↦ some (is_nonzero (zip_digits (λ x y. x && y) e (bit_mask idx)))
    ]
    else none

-- The two ASSERTs on a range; the sum wraps around.
unfoldable pub is_range : Bitmap → ℕ → ℕ → Bool
is_range b start cnt = leb start b.bit_cnt && leb ((start + cnt) % size_limit) b.bit_cnt

-- `left` rounds of the loop, from index `i` on.
unfoldable pub set_loop : (left i : ℕ) → Bool → Bitmap → Option Bitmap
set_loop zero i value b = some b
set_loop (suc left) i value b = elim (bitmap_set b i value) [
  | none ↦ none
  | some b' ↦ set_loop left (suc i) value b'
]

unfoldable pub bitmap_set_multiple : Bitmap → ℕ → ℕ → Bool → Option Bitmap
bitmap_set_multiple b start cnt value =
    if is_range b start cnt then set_loop cnt start value b else none

unfoldable pub bitmap_set_all : Bitmap → Bool → Option Bitmap
bitmap_set_all b value = bitmap_set_multiple b 0 (bitmap_size b) value

unfoldable pub is_same : Bool → Bool → Bool
is_same a b = if a then b else not b

unfoldable pub count_loop : (left i : ℕ) → Bool → Bitmap → Option ℕ
count_loop zero i value b = some 0
count_loop (suc left) i value b = elim (bitmap_test b i) [
  | none ↦ none
  | some x ↦ elim (count_loop left (suc i) value b) [
    | none ↦ none
    | some n ↦ some (if is_same x value then suc n else n)
  ]
]

unfoldable pub bitmap_count : Bitmap → ℕ → ℕ → Bool → Option ℕ
bitmap_count b start cnt value = if is_range b start cnt then count_loop cnt start value b else none

unfoldable pub contains_loop : (left i : ℕ) → Bool → Bitmap → Option Bool
contains_loop zero i value b = some false
contains_loop (suc left) i value b = elim (bitmap_test b i) [
  | none ↦ none
  | some x ↦ elim (is_same x value) [
    | true ↦ some true
    | false ↦ contains_loop left (suc i) value b
  ]
]

unfoldable pub bitmap_contains : Bitmap → ℕ → ℕ → Bool → Option Bool
bitmap_contains b start cnt value =
    if is_range b start cnt then contains_loop cnt start value b else none

unfoldable pub negated : Option Bool → Option Bool
negated none = none
negated (some x) = some (not x)

unfoldable pub bitmap_any : Bitmap → ℕ → ℕ → Option Bool
bitmap_any b start cnt = bitmap_contains b start cnt true

unfoldable pub bitmap_none : Bitmap → ℕ → ℕ → Option Bool
bitmap_none b start cnt = negated (bitmap_contains b start cnt true)

unfoldable pub bitmap_all : Bitmap → ℕ → ℕ → Option Bool
bitmap_all b start cnt = negated (bitmap_contains b start cnt false)

-- BITMAP_ERROR, which is SIZE_MAX.
abbrev pub bitmap_error : ℕ
bitmap_error = 4294967295

-- The loop from `i` to `last`, on a fuel of the rounds that are left.
unfoldable pub scan_loop : (left i cnt : ℕ) → Bool → Bitmap → Option ℕ
scan_loop zero i cnt value b = some bitmap_error
scan_loop (suc left) i cnt value b = elim (bitmap_contains b i cnt (not value)) [
  | none ↦ none
  | some found ↦ elim found [ false ↦ some i | true ↦ scan_loop left (suc i) cnt value b ]
]

unfoldable pub bitmap_scan : Bitmap → ℕ → ℕ → Bool → Option ℕ
bitmap_scan b start cnt value =
    if leb start b.bit_cnt
    then (if leb cnt b.bit_cnt
        then scan_loop (suc (b.bit_cnt - cnt) - start) start cnt value b
        else some bitmap_error)
    else none

unfoldable pub flip_found : Bitmap → ℕ → Bool → ℕ → Option (ℕ × Bitmap)
flip_found b cnt value idx =
    if idx == bitmap_error
    then some (idx, b)
    else elim (bitmap_set_multiple b idx cnt (not value)) [ none ↦ none | some b' ↦ some (idx, b') ]

unfoldable pub bitmap_scan_and_flip : Bitmap → ℕ → ℕ → Bool → Option (ℕ × Bitmap)
bitmap_scan_and_flip b start cnt value = elim (bitmap_scan b start cnt value) [
  | none ↦ none
  | some idx ↦ flip_found b cnt value idx
]

unfoldable pub created : Option Bitmap → Option (Option Bitmap)
created none = none
created (some b) = some (some b)

-- `memory` and `storage` are what the calls of malloc come to; the storage is not cleared. The
-- inner option is the pointer.
unfoldable pub bitmap_create : Bool → Option (List Elem) → ℕ → Option (Option Bitmap)
bitmap_create false storage bit_cnt = some none
bitmap_create true none bit_cnt =
    if bit_cnt == 0
    then created (bitmap_set_all (record { bit_cnt = bit_cnt; bits = [] }) false)
    else some none
bitmap_create true (some elems) bit_cnt =
    created (bitmap_set_all (record { bit_cnt = bit_cnt; bits = elems }) false)

-- The size of a bitmap in a file.
unfoldable pub bitmap_file_size : Bitmap → ℕ
bitmap_file_size b = byte_cnt b.bit_cnt

unfoldable pub ones : ℕ → ℕ → Elem
ones zero n = replicate n false
ones (suc k) zero = []
ones (suc k) (suc n) = true ∷ ones k n

-- `(1 << last_bits) - 1`, or all digits.
unfoldable pub last_mask : Bitmap → Elem
last_mask b =
    let last_bits = b.bit_cnt % elem_bits in
    if last_bits == 0 then ones elem_bits elem_bits else ones last_bits elem_bits
