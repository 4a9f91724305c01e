-- ===== src/Pintos/Lists/Tests.antt =====
-- Tests of Project_3/lib/kernel/list.c, and its theorems at concrete inputs.
use mathlib.Core.List.{Permᴰ}
use system_prog.Base.{
  List, Bool, IsFresh, update, ◌>>=◌, ℕ, ◌≡◌, refl, Option, some, [], ◌∷◌, arith, ltb,
}
use system_prog.Pintos.Lists.{
  Store, ListHead, list_insert, list_remove, unlink, list_reverse, list_init, list_push_back,
  list_pop_front, list_begin, list_end, list_front, list_empty, link_before, is_interior, is_tail,
}
use system_prog.Pintos.Lists.Ordered.{list_insert_ordered}
use system_prog.Pintos.Lists.Chain.{behind_head, IsList}
use system_prog.Pintos.Lists.Removing.{list_remove-IsList}
use system_prog.Pintos.Lists.Walking.{IsSorted, list_insert_ordered-IsList}
use system_prog.Pintos.Lists.Reversing.{list_reverse-IsList}
use system_prog.Pintos.Lists.Sorting.{list_sort}
use system_prog.Pintos.Lists.Merged.{IsOrder, Ascending}
use system_prog.Pintos.Lists.Sorted.{list_sort-IsList}

abbrev anchor : ListHead
anchor = record { head = 1; tail = 2 }

-- The elements 5, 7 and 9 in this order.
abbrev three : Store
three = record {
  prev = update 5 1 (update 7 5 (update 9 7 (update 2 9 (λ _. 0))));
  next = update 1 5 (update 5 7 (update 7 9 (update 9 2 (λ _. 0))));
}

three-IsList : IsList three anchor (5 ∷ 7 ∷ 9 ∷ [])
three-IsList = record {
  before_head = refl;
  behind_tail = refl;
  linked = (refl, (refl, (refl, (refl, (refl, (refl, (refl, (refl, tt))))))));
  distinct = ground arith;
  no_null = ground arith;
}

-- A list from its start: two elements are pushed and the first is taken.
unfoldable started : Option (ℕ × ℕ)
started = do
  st1 ← list_push_back anchor 5 (list_init anchor three)
  st2 ← list_push_back anchor 7 st1
  (e, st3) ← list_pop_front anchor st2
  some (e, list_begin anchor st3)

list_test : started ≡ some (5, 7)
unfolding started list_push_back list_init list_pop_front list_begin list_insert list_remove unlink
    list_end list_front list_empty link_before is_interior is_tail
list_test = refl

list_remove-IsList_example :
    (list_remove 7 three ≡ some (9, unlink 7 three))
    × IsList (unlink 7 three) anchor (5 ∷ 9 ∷ [])
    × IsFresh 7 (1 ∷ behind_head anchor (5 ∷ 9 ∷ []))
list_remove-IsList_example = list_remove-IsList three anchor 7 (5 ∷ []) (9 ∷ []) three-IsList

list_insert_ordered-IsList_example :
    (st : Store) × (list_insert_ordered ltb 4 anchor 8 three ≡ some st)
    × IsList st anchor (5 ∷ 7 ∷ 8 ∷ 9 ∷ [])
    × (IsSorted ltb (5 ∷ 7 ∷ 9 ∷ []) → IsSorted ltb (5 ∷ 7 ∷ 8 ∷ 9 ∷ []))
list_insert_ordered-IsList_example =
    list_insert_ordered-IsList ltb 4 three anchor 8 (5 ∷ 7 ∷ 9 ∷ []) (λ a b h. ground arith)
      three-IsList (omega arith) (ground arith) (omega arith)

list_reverse-IsList_example :
    (st : Store) × (list_reverse 4 anchor three ≡ some st) × IsList st anchor (9 ∷ 7 ∷ 5 ∷ [])
list_reverse-IsList_example =
    list_reverse-IsList 4 three anchor (5 ∷ 7 ∷ 9 ∷ []) three-IsList (omega arith)

-- The larger address is the smaller element.
abbrev greater : ℕ → ℕ → Bool
greater a b = ltb b a

greater-IsOrder : IsOrder greater
greater-IsOrder = record {
  asym = λ a b e. ground (arith, e);
  trans = λ a b c e f. ground (arith, e, f);
}

list_sort-IsList_example :
    (ys : List ℕ) × (st : Store) × (list_sort greater 4 anchor three ≡ some st)
    × IsList st anchor ys
    × Permᴰ (5 ∷ 7 ∷ 9 ∷ []) ys
    × Ascending greater ys
list_sort-IsList_example =
    list_sort-IsList greater greater-IsOrder 4 three anchor (5 ∷ 7 ∷ 9 ∷ []) three-IsList
      (omega arith)
