-- ===== src/Pintos/Stdlib.antt =====
-- Sorting and searching: Project_3/lib/stdlib.c.
pub mod Heap
pub mod Sorted
pub mod Search
mod Tests
use system_prog.Base.{
  ℕ, zero, suc, ◌+◌, ◌-◌, ◌*◌, ◌/◌, Bool, true, false, ◌&&◌, Option, none, some, leb, ltb, ◌==◌,
  if◌then◌else◌, update,
}

-- The sign of the result of `compare`.
pub data Sign : Type 0 where
  negative null positive : Sign

abbrev pub is_positive : Sign → Bool
is_positive positive = true
is_positive _ = false

-- An array of elements: an element of `size` bytes is one value, and `compare` stands with its
-- auxiliary data. The heap counts the elements from 1.
module _ {ℓ} {A : Type ℓ} where
  -- The loop over the bytes of two elements exchanges them.
  unfoldable pub do_swap : (ℕ → A) → ℕ → ℕ → ℕ → A
  do_swap array a_idx b_idx = update b_idx (array a_idx) (update a_idx (array b_idx) array)

  module _ (compare : A → A → Sign) where
    unfoldable pub do_compare : (ℕ → A) → ℕ → ℕ → Sign
    do_compare array a_idx b_idx = compare (array a_idx) (array b_idx)

    -- `max`, after the first test and after the second.
    unfoldable pub larger_left : (ℕ → A) → ℕ → ℕ → ℕ
    larger_left array i cnt =
        if leb (2 * i) cnt && is_positive (do_compare array (2 * i) i) then 2 * i else i

    unfoldable pub larger_right : (ℕ → A) → ℕ → ℕ → ℕ → ℕ
    larger_right array i cnt max =
        if leb (2 * i + 1) cnt && is_positive (do_compare array (2 * i + 1) max)
        then 2 * i + 1
        else max

    unfoldable pub largest : (ℕ → A) → ℕ → ℕ → ℕ
    largest array i cnt = larger_right array i cnt (larger_left array i cnt)

    -- The place of the element grows in each round, so that the number of elements and one more is
    -- enough fuel.
    unfoldable pub heapify_loop : ℕ → (ℕ → A) → ℕ → ℕ → Option (ℕ → A)
    heapify_loop zero array i cnt = none
    heapify_loop (suc fuel) array i cnt =
        let max = largest array i cnt in
        elim (max == i) [
          | true ↦ some array
          | false ↦ heapify_loop fuel (do_swap array i max) max cnt
        ]

    unfoldable pub heapify : (ℕ → A) → ℕ → ℕ → Option (ℕ → A)
    heapify array i cnt = heapify_loop (suc cnt) array i cnt

    -- `for (i = …; i > 0; i--)`
    unfoldable pub build_heap : ℕ → (ℕ → A) → ℕ → Option (ℕ → A)
    build_heap zero array cnt = some array
    build_heap (suc i) array cnt = elim (heapify array (suc i) cnt) [
      | none ↦ none
      | some array' ↦ build_heap i array' cnt
    ]

    -- `for (i = …; i > 1; i--)`
    unfoldable pub sort_heap : ℕ → (ℕ → A) → Option (ℕ → A)
    sort_heap zero array = some array
    sort_heap (suc zero) array = some array
    sort_heap (suc (suc i)) array = elim (heapify (do_swap array 1 (suc (suc i))) 1 (suc i)) [
      | none ↦ none
      | some array' ↦ sort_heap (suc i) array'
    ]

    unfoldable pub sort : (ℕ → A) → ℕ → Option (ℕ → A)
    sort array cnt = elim (build_heap (cnt / 2) array cnt) [
      | none ↦ none
      | some array' ↦ sort_heap cnt array'
    ]

    -- `first` and `last` count the elements from the start of the array; the range gets smaller in
    -- each round.
    unfoldable pub search_loop : ℕ → A → (ℕ → A) → ℕ → ℕ → Option (Option ℕ)
    search_loop zero key array first last = none
    search_loop (suc fuel) key array first last =
        let middle = first + (last - first) / 2 in
        elim (ltb first last) [
          | false ↦ some none
          | true ↦ elim (compare key (array middle)) [
            | negative ↦ search_loop fuel key array first middle
            | positive ↦ search_loop fuel key array (suc middle) last
            | null ↦ some (some middle)
          ]
        ]

    unfoldable pub binary_search : A → (ℕ → A) → ℕ → Option (Option ℕ)
    binary_search key array cnt = search_loop (suc cnt) key array 0 cnt
