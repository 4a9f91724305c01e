-- ===== src/Pintos/Lists.antt =====
-- Doubly linked lists: Project_3/lib/kernel/list.c.
pub mod Ordered
pub mod Chain
pub mod Inserting
pub mod Removing
pub mod Walking
pub mod Turning
pub mod Reversing
pub mod Sorting
pub mod Merging
pub mod Merged
pub mod Runs
pub mod Passes
pub mod Sorted
mod Tests
use system_prog.Base.{
  assert, update, ◌>>=◌, ℕ, zero, suc, Bool, true, false, not, ◌&&◌, ◌||◌, Option, none, some, List,
  [], ◌∷◌, ◌==◌, if◌then◌else◌,
}

-- The members `prev` and `next` of the elements at all addresses; NULL is 0.
pub record Store : Type 0 where
  pub prev : ℕ → ℕ
  pub next : ℕ → ℕ

-- `struct list`, by the addresses of its two elements.
pub record ListHead : Type 0 where
  pub head : ℕ
  pub tail : ℕ

abbrev pub set_prev : ℕ → ℕ → Store → Store
set_prev a v st = record st { prev = update a v st.prev }

abbrev pub set_next : ℕ → ℕ → Store → Store
set_next a v st = record st { next = update a v st.next }

-- `p != NULL`
abbrev pub non_null : ℕ → Bool
non_null p = not (p == 0)

unfoldable pub is_head : Store → ℕ → Bool
is_head st e = non_null e && not (non_null (st.prev e)) && non_null (st.next e)

unfoldable pub is_interior : Store → ℕ → Bool
is_interior st e = non_null e && non_null (st.prev e) && non_null (st.next e)

unfoldable pub is_tail : Store → ℕ → Bool
is_tail st e = non_null e && non_null (st.prev e) && not (non_null (st.next e))

unfoldable pub list_init : ListHead → Store → Store
list_init l st =
    set_next l.tail 0 (set_prev l.tail l.head (set_next l.head l.tail (set_prev l.head 0 st)))

unfoldable pub list_begin : ListHead → Store → ℕ
list_begin l st = st.next l.head

unfoldable pub list_next : ℕ → Store → Option ℕ
list_next e st = assert (is_head st e || is_interior st e) (some (st.next e))

unfoldable pub list_end : ListHead → ℕ
list_end l = l.tail

unfoldable pub list_rbegin : ListHead → Store → ℕ
list_rbegin l st = st.prev l.tail

unfoldable pub list_prev : ℕ → Store → Option ℕ
list_prev e st = assert (is_interior st e || is_tail st e) (some (st.prev e))

unfoldable pub list_rend : ListHead → ℕ
list_rend l = l.head

unfoldable pub list_head : ListHead → ℕ
list_head l = l.head

unfoldable pub list_tail : ListHead → ℕ
list_tail l = l.tail

-- The four assignments of `list_insert`, in their order.
unfoldable pub link_before : ℕ → ℕ → Store → Store
link_before before elem st =
    let st1 = set_next elem before (set_prev elem (st.prev before) st) in
    set_prev before elem (set_next (st1.prev before) elem st1)

unfoldable pub list_insert : ℕ → ℕ → Store → Option Store
list_insert before elem st =
    assert (is_interior st before || is_tail st before)
      (assert (non_null elem) (some (link_before before elem st)))

-- The assignments that take FIRST through LAST (inclusive) out of their list.
unfoldable pub cut_out : ℕ → ℕ → Store → Store
cut_out first last st =
    let st1 = set_next (st.prev first) (st.next last) st in
    set_prev (st1.next last) (st1.prev first) st1

-- The assignments that put FIRST through LAST (inclusive) before BEFORE.
unfoldable pub put_before : ℕ → ℕ → ℕ → Store → Store
put_before before first last st =
    let st1 = set_next last before (set_prev first (st.prev before) st) in
    set_prev before last (set_next (st1.prev before) first st1)

unfoldable pub list_splice : ℕ → ℕ → ℕ → Store → Option Store
list_splice before first last st = assert (is_interior st before || is_tail st before) (
    if first == last then some st else (do
      end ← list_prev last st
      assert (is_interior st first) (
          assert (is_interior st end) (some (put_before before first end (cut_out first end st))))))

unfoldable pub list_push_front : ListHead → ℕ → Store → Option Store
list_push_front l elem st = list_insert (list_begin l st) elem st

unfoldable pub list_push_back : ListHead → ℕ → Store → Option Store
list_push_back l elem st = list_insert (list_end l) elem st

-- The assignments of `list_remove`, in their order.
unfoldable pub unlink : ℕ → Store → Store
unlink elem st =
    let st1 = set_next (st.prev elem) (st.next elem) st in
    set_prev (st1.next elem) (st1.prev elem) st1

unfoldable pub list_remove : ℕ → Store → Option (ℕ × Store)
list_remove elem st =
    let st' = unlink elem st in assert (is_interior st elem) (some (st'.next elem, st'))

unfoldable pub list_empty : ListHead → Store → Bool
list_empty l st = list_begin l st == list_end l

unfoldable pub list_front : ListHead → Store → Option ℕ
list_front l st = assert (not (list_empty l st)) (some (st.next l.head))

unfoldable pub list_back : ListHead → Store → Option ℕ
list_back l st = assert (not (list_empty l st)) (some (st.prev l.tail))

unfoldable pub list_pop_front : ListHead → Store → Option (ℕ × Store)
list_pop_front l st = do front ← list_front l st; (_, st') ← list_remove front st; some (front, st')

unfoldable pub list_pop_back : ListHead → Store → Option (ℕ × Store)
list_pop_back l st = do back ← list_back l st; (_, st') ← list_remove back st; some (back, st')

-- The loops over a list run on fuel, one more than the elements they pass; `none` is a panic or
-- fuel that does not last.
unfoldable pub size_loop : ℕ → ListHead → ℕ → ℕ → Store → Option ℕ
size_loop zero l e cnt st = none
size_loop (suc fuel) l e cnt st = elim (e == list_end l) [
  | true ↦ some cnt
  | false ↦ do e' ← list_next e st; size_loop fuel l e' (suc cnt) st
]

unfoldable pub list_size : ℕ → ListHead → Store → Option ℕ
list_size fuel l st = size_loop fuel l (list_begin l st) 0 st

-- `swap(&e->prev, &e->next)`
unfoldable pub swap_links : ℕ → Store → Store
swap_links e st = set_next e (st.prev e) (set_prev e (st.next e) st)

unfoldable pub reverse_loop : ℕ → ListHead → ℕ → Store → Option Store
reverse_loop zero l e st = none
reverse_loop (suc fuel) l e st = elim (e == list_end l) [
  | true ↦ some st
  | false ↦ let st' = swap_links e st in reverse_loop fuel l (st'.prev e) st'
]

-- `swap(&list->head.next, &list->tail.prev)`
unfoldable pub swap_ends : ListHead → Store → Store
swap_ends l st = set_prev l.tail (st.next l.head) (set_next l.head (st.prev l.tail) st)

-- `swap(&list->head.next->prev, &list->tail.prev->next)`
unfoldable pub swap_outer : ListHead → Store → Store
swap_outer l st =
    let first = st.next l.head in
    let last = st.prev l.tail in set_next last (st.prev first) (set_prev first (st.next last) st)

unfoldable pub list_reverse : ℕ → ListHead → Store → Option Store
list_reverse fuel l st =
    if list_empty l st
    then some st
    else (do st' ← reverse_loop fuel l (list_begin l st) st; some (swap_outer l (swap_ends l st')))
