-- ===== src/Pintos/Bitmap/Bytes.antt =====
-- The elements of a bitmap of Project_3/lib/kernel/bitmap.c as bytes, and back.
use system_prog.Base.{
  take-append-drop, drop-drop, drop-all, length-take, length-drop, ◌≤◌, ℕ, ◌+◌, ◌*◌, ◌/◌, ◌%◌, ◌≡◌,
  refl, ap, ap₂, sym, ◌∙◌, Bool, true, false, List, [], ◌∷◌, ◌++◌, append-nil, arith, length, take,
  drop, All, ◌==◌,
}
use system_prog.Pintos.Bitmap.{elem_bits, Elem}
use system_prog.Pintos.Bitmap.Files.{
  byte_of, digits_of, elem_bytes, bytes_of, all_digits, load_elem, load_bytes,
}

digits_of-byte_of : (ds : List Bool) → digits_of (length ds) (byte_of ds) ≡ ds
unfolding digits_of byte_of
digits_of-byte_of [] = refl
digits_of-byte_of (true ∷ ds) =
    let half : (1 + 2 * byte_of ds) / 2 ≡ byte_of ds = omega arith in
    let low : ((1 + 2 * byte_of ds) % 2 == 1) ≡ true = ground arith in
    ap₂ (λ a b. a ∷ b) low (ap (digits_of (length ds)) half ∙ digits_of-byte_of ds)
digits_of-byte_of (false ∷ ds) =
    let half : (0 + 2 * byte_of ds) / 2 ≡ byte_of ds = omega arith in
    let low : ((0 + 2 * byte_of ds) % 2 == 1) ≡ false = ground arith in
    ap₂ (λ a b. a ∷ b) low (ap (digits_of (length ds)) half ∙ digits_of-byte_of ds)

byte_digits : (ds : List Bool) → length ds ≡ 8 → digits_of 8 (byte_of ds) ≡ ds
byte_digits ds e = ap (λ n. digits_of n (byte_of ds)) (sym e) ∙ digits_of-byte_of ds

-- An element is its four bytes.
quarters : (e : Elem) → length e ≡ elem_bits → all_digits (elem_bytes e) ≡ e
unfolding all_digits elem_bytes
quarters e h =
    let part : (n : ℕ)
        → n + 8 ≤ 32
        → digits_of 8 (byte_of (take 8 (drop n e))) ≡ take 8 (drop n e) =
      λ n l.
        byte_digits (take 8 (drop n e))
          (length-take 8 (drop n e) ∙ ground (arith, length-drop n e, h, l)) in
    let join : (n : ℕ) → take 8 (drop n e) ++ drop (n + 8) e ≡ drop n e =
      λ n. ap (◌++◌ (take 8 (drop n e))) (sym (drop-drop 8 n e)) ∙ take-append-drop 8 (drop n e) in
    let d = part 24 (omega arith) in
    let c = part 16 (omega arith) in
    let b = part 8 (omega arith) in
    let a = part 0 (omega arith) in
    let end : [] ≡ drop 32 e = sym (drop-all 32 e (omega (arith, h))) in
    ap₂ (λ x y. x ++ y) a
      (ap₂ (λ x y. x ++ y) b (ap₂ (λ x y. x ++ y) c (ap₂ (λ x y. x ++ y) d end ∙ join 24) ∙ join 16)
        ∙ join 8)
    ∙ join 0

load_elem-elem_bytes :
    (e old : Elem)
    → length e ≡ elem_bits
    → length old ≡ elem_bits
    → load_elem (elem_bytes e) old ≡ e
unfolding load_elem elem_bytes
load_elem-elem_bytes e old h k =
    ap₂ (λ x y. x ++ y) (quarters e h) (drop-all 32 old (omega (arith, k))) ∙ append-nil e

-- The bytes of the elements of one array are the elements when they are loaded into another of the
-- same length.
pub load_bytes-bytes_of :
    (es olds : List Elem)
    → length es ≡ length olds
    → All (λ e. length e ≡ elem_bits) es
    → All (λ e. length e ≡ elem_bits) olds
    → load_bytes (bytes_of es) olds ≡ es
unfolding load_bytes bytes_of elem_bytes
load_bytes-bytes_of [] [] n h k = refl
load_bytes-bytes_of [] (o ∷ os) n h k = absurd (omega (arith, n))
load_bytes-bytes_of (e ∷ es) [] n h k = absurd (omega (arith, n))
load_bytes-bytes_of (e ∷ es) (o ∷ os) n h k =
    ap₂ (λ x y. x ∷ y) (load_elem-elem_bytes e o h.0 k.0)
      (load_bytes-bytes_of es os (omega (arith, n)) h.1 k.1)

pub length-bytes_of : (es : List Elem) → length (bytes_of es) ≡ 4 * length es
unfolding bytes_of elem_bytes
length-bytes_of [] = refl
length-bytes_of (e ∷ es) = omega (arith, length-bytes_of es)
