-- ===== src/Pintos/Stdlib/Tests.antt =====
-- Tests of Project_3/lib/stdlib.c, and its theorems at concrete inputs.
use system_prog.Base.{
  ℕ, ◌+◌, ◌*◌, ◌≡◌, refl, Option, none, some, List, [], ◌∷◌, arith, ltb, get_or, if◌then◌else◌,
}
use system_prog.Pintos.Stdlib.{
  Sign, negative, null, positive, sort, build_heap, sort_heap, heapify, heapify_loop, largest,
  larger_left, larger_right, do_compare, do_swap, binary_search, search_loop,
}
use system_prog.Pintos.Stdlib.Heap.{IsOrder}
use system_prog.Pintos.Stdlib.Sorted.{IsResult, sort-IsResult}
use system_prog.Pintos.Stdlib.Search.{IsComparison, IsAscending, IsFound, binary_search-IsFound}

abbrev by_value : ℕ → ℕ → Sign
by_value x y = if ltb x y then negative else if ltb y x then positive else null

by_value-IsOrder : IsOrder by_value
by_value-IsOrder = record {
  asym = λ x y e. ground (arith, e);
  trans = λ x y z e f. ground (arith, e, f);
}

abbrev numbers : ℕ → ℕ
numbers i = get_or (0 ∷ 7 ∷ 3 ∷ 9 ∷ 3 ∷ []) i 0

abbrev first_four : Option (ℕ → ℕ) → List ℕ
first_four none = []
first_four (some a) = a 1 ∷ a 2 ∷ a 3 ∷ a 4 ∷ []

sort_test : first_four (sort by_value numbers 4) ≡ 3 ∷ 3 ∷ 7 ∷ 9 ∷ []
unfolding sort build_heap sort_heap heapify heapify_loop largest larger_left larger_right do_compare
    do_swap
sort_test = refl

sort-IsResult_example : IsResult by_value by_value-IsOrder 4 numbers (sort by_value numbers 4)
sort-IsResult_example = sort-IsResult by_value by_value-IsOrder 4 numbers

abbrev in_order : ℕ → ℕ
in_order i = 2 * i + 1

by_value-IsComparison : IsComparison by_value
by_value-IsComparison = record {
  less = λ k x y e f. ground (arith, e, f);
  more = λ k x y e f. ground (arith, e, f);
}

in_order-IsAscending : IsAscending by_value 5 in_order
in_order-IsAscending x y h k = ground (arith, h)

binary_search_test : binary_search by_value 7 in_order 5 ≡ some (some 3)
unfolding binary_search search_loop
binary_search_test = refl

binary_search-IsFound_example :
    (r : Option ℕ) × (binary_search by_value 7 in_order 5 ≡ some r)
    × IsFound by_value 7 in_order 5 r
binary_search-IsFound_example =
    binary_search-IsFound by_value 7 in_order 5 by_value-IsComparison in_order-IsAscending
