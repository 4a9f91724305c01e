-- ===== src/Pintos/FreeMap/Initial.antt =====
-- The map of free sectors at the start: free_map_init of Project_3/filesys/free-map.c.
use system_prog.Base.{none, ℕ, ◌+◌, ◌≤◌, ◌<◌, ◌≡◌, ◌∙◌, true, false, some, List, arith, length, All}
use system_prog.Pintos.Bitmap.{elem_bits, size_limit, Elem, elem_cnt}
use system_prog.Pintos.Bitmap.Bits.{IsBitmap, bit, bitmap_mark-Writes}
use system_prog.Pintos.Bitmap.Storage.{bitmap_create_clear}
use system_prog.Pintos.FreeMap.{
  FreeMap, mark_reserved, free_map_init, free_map_sector, root_dir_sector,
}

-- On a device of two sectors at least, free_map_init marks the two reserved sectors as in use, and
-- every other sector of the device as free, whatever the storage held before.
pub free_map_init_lem :
    {F : Type 0} (elems : List Elem) (sectors : ℕ)
    → 2 ≤ sectors
    → sectors + 31 < size_limit
    → length elems ≡ elem_cnt sectors
    → All (λ e. length e ≡ elem_bits) elems
    → (m : FreeMap F) × (free_map_init true (some elems) sectors ≡ some m)
      × IsBitmap m.free_map
      × (bit m.free_map free_map_sector ≡ true)
      × (bit m.free_map root_dir_sector ≡ true)
      × ((j : ℕ) → 2 ≤ j → j < sectors → bit m.free_map j ≡ false)
unfolding free_map_init mark_reserved
free_map_init_lem elems sectors two small size digits =
    let (b, made, good, cnt, clear) = bitmap_create_clear elems sectors small size digits in
    let (b1, e1, w1) = bitmap_mark-Writes b free_map_sector good (rw cnt (omega arith)) in
    let (b2, e2, w2) = bitmap_mark-Writes b1 root_dir_sector w1.good (rw (w1.bit_cnt ∙ cnt) two) in
    (
      record { free_map = b2; free_map_file = none },
      ground (arith, made, e1, e2),
      w2.good,
      w2.there free_map_sector (omega arith) ∙ w1.here,
      w2.here,
      λ j above below.
          w2.there j (omega arith)
          ∙ (w1.there j (omega arith) ∙ clear j (omega arith) (omega (arith, below))),
    )
