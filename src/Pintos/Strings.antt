-- ===== src/Pintos/Strings.antt =====
-- Memory blocks and C strings: Project_3/lib/string.c.
pub mod Copying
pub mod Moving
pub mod Tokens
pub mod Delimiters
pub mod Splitting
mod Tests
use system_prog.Base.{
  ℕ, zero, suc, ◌+◌, ◌-◌, ◌%◌, Bool, true, false, not, ◌&&◌, Option, none, some, ltb, leb, ◌==◌,
  if◌then◌else◌, update, ◌>>=◌,
}
use system_prog.Pintos.Stdlib.{Sign, negative, null, positive}

-- The byte at each address.
abbrev pub Memory : Type 0
Memory = ℕ → ℕ

-- The functions on blocks: `size` counts down.
unfoldable pub copy_up : ℕ → ℕ → ℕ → Memory → Memory
copy_up dst src zero m = m
copy_up dst src (suc size) m = copy_up (suc dst) (suc src) size (update dst (m src) m)

-- From the last byte to the first.
unfoldable pub copy_down : ℕ → ℕ → ℕ → Memory → Memory
copy_down dst src zero m = m
copy_down dst src (suc size) m = copy_down dst src size (update (dst + size) (m (src + size)) m)

unfoldable pub memcpy : ℕ → ℕ → ℕ → Memory → ℕ × Memory
memcpy dst src size m = (dst, copy_up dst src size m)

-- The result is the pointer that the loop has moved.
unfoldable pub memmove : ℕ → ℕ → ℕ → Memory → ℕ × Memory
memmove dst src size m =
    if ltb dst src then (dst + size, copy_up dst src size m) else (dst, copy_down dst src size m)

unfoldable pub memset : ℕ → ℕ → ℕ → Memory → Memory
memset dst value zero m = m
memset dst value (suc size) m = memset (suc dst) value size (update dst (value % 256) m)

unfoldable pub memcmp : ℕ → ℕ → ℕ → Memory → Sign
memcmp a b zero m = null
memcmp a b (suc size) m =
    let rest = memcmp (suc a) (suc b) size m in
    if not (m a == m b) then (if ltb (m b) (m a) then positive else negative) else rest

unfoldable pub memchr : ℕ → ℕ → ℕ → Memory → Option ℕ
memchr block ch zero m = none
memchr block ch (suc size) m =
    let rest = memchr (suc block) ch size m in if m block == ch % 256 then some block else rest

-- The functions on strings run on fuel, one more than the bytes of the string; `none` is fuel that
-- does not last.
unfoldable pub strlen : ℕ → ℕ → Memory → Option ℕ
strlen zero string m = none
strlen (suc fuel) string m = elim (m string == 0) [
  | true ↦ some 0
  | false ↦ do n ← strlen fuel (suc string) m; some (suc n)
]

unfoldable pub strnlen : ℕ → ℕ → Memory → ℕ
strnlen string zero m = 0
strnlen string (suc maxlen) m =
    let rest = strnlen (suc string) maxlen m in if m string == 0 then 0 else suc rest

unfoldable pub strcmp : ℕ → ℕ → ℕ → Memory → Option Sign
strcmp zero a b m = none
strcmp (suc fuel) a b m = elim (not (m a == 0) && (m a == m b)) [
  | true ↦ strcmp fuel (suc a) (suc b) m
  | false ↦ some (if ltb (m a) (m b) then negative else if ltb (m b) (m a) then positive else null)
]

-- `some none` is the null pointer.
unfoldable pub strchr : ℕ → ℕ → ℕ → Memory → Option (Option ℕ)
strchr zero string c m = none
strchr (suc fuel) string c m = elim (m string == c % 256) [
  | true ↦ some (some string)
  | false ↦ elim (m string == 0) [ true ↦ some none | false ↦ strchr fuel (suc string) c m ]
]

unfoldable pub strrchr : ℕ → ℕ → ℕ → Option ℕ → Memory → Option (Option ℕ)
strrchr zero string c p m = none
strrchr (suc fuel) string c p m = elim (m string == 0) [
  | true ↦ some p
  | false ↦ strrchr fuel (suc string) c (if m string == c % 256 then some string else p) m
]

unfoldable pub strlcpy : ℕ → ℕ → ℕ → ℕ → Memory → Option (ℕ × Memory)
strlcpy fuel dst src size m = do
  src_len ← strlen fuel src m
  let dst_len = if ltb src_len (size - 1) then src_len else size - 1
  some (src_len, (if ltb 0 size then update (dst + dst_len) 0 (memcpy dst src dst_len m).1 else m))

unfoldable pub strlcat : ℕ → ℕ → ℕ → ℕ → Memory → Option (ℕ × Memory)
strlcat fuel dst src size m = do
  src_len ← strlen fuel src m
  dst_len ← strlen fuel dst m
  let left = size - dst_len - 1
  let copy_cnt = if ltb src_len left then src_len else left
  some (
    src_len + dst_len,
    (if ltb 0 size && ltb dst_len size
        then update (dst + dst_len + copy_cnt) 0 (memcpy (dst + dst_len) src copy_cnt m).1
        else m),
  )
