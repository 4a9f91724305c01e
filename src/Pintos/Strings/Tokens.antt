-- ===== src/Pintos/Strings/Tokens.antt =====
-- The functions of Project_3/lib/string.c that look for sets of bytes and for tokens. `n` is the
-- fuel of strchr, one more than the bytes of the set.
use system_prog.Base.{
  ℕ, zero, suc, ◌-◌, Bool, true, false, Option, none, some, leb, ◌==◌, update, ◌>>=◌,
}
use system_prog.Pintos.Stdlib.{negative, null, positive}
use system_prog.Pintos.Strings.{Memory, memcmp, strlen, strchr}

unfoldable pub strcspn : ℕ → ℕ → ℕ → ℕ → Memory → Option ℕ
strcspn n zero string stop m = none
strcspn n (suc fuel) string stop m = elim (m string == 0) [
  | true ↦ some 0
  | false ↦ do
    found ← strchr n stop (m string) m
    elim found [
      | some p ↦ some 0
      | none ↦ do length ← strcspn n fuel (suc string) stop m; some (suc length)
    ]
]

unfoldable pub strpbrk : ℕ → ℕ → ℕ → ℕ → Memory → Option (Option ℕ)
strpbrk n zero string stop m = none
strpbrk n (suc fuel) string stop m = elim (m string == 0) [
  | true ↦ some none
  | false ↦ do
    found ← strchr n stop (m string) m
    elim found [ some p ↦ some (some string) | none ↦ strpbrk n fuel (suc string) stop m ]
]

unfoldable pub strspn : ℕ → ℕ → ℕ → ℕ → Memory → Option ℕ
strspn n zero string skip m = none
strspn n (suc fuel) string skip m = elim (m string == 0) [
  | true ↦ some 0
  | false ↦ do
    found ← strchr n skip (m string) m
    elim found [
      | none ↦ some 0
      | some p ↦ do length ← strspn n fuel (suc string) skip m; some (suc length)
    ]
]

-- `count` places are left, of which the first is `haystack`.
unfoldable pub strstr_loop : ℕ → ℕ → ℕ → ℕ → Memory → Option ℕ
strstr_loop zero haystack needle needle_len m = none
strstr_loop (suc count) haystack needle needle_len m =
    let rest = strstr_loop count (suc haystack) needle needle_len m in
    elim (memcmp haystack needle needle_len m) [
      | null ↦ some haystack
      | negative ↦ rest
      | positive ↦ rest
    ]

unfoldable pub strstr : ℕ → ℕ → ℕ → Memory → Option (Option ℕ)
strstr fuel haystack needle m = do
  haystack_len ← strlen fuel haystack m
  needle_len ← strlen fuel needle m
  some (elim (leb needle_len haystack_len) [
    | true ↦ strstr_loop (suc (haystack_len - needle_len)) haystack needle needle_len m
    | false ↦ none
  ])

-- The first loop of strtok_r: where it stops, and true if the string ends there.
unfoldable pub skip_delimiters : ℕ → ℕ → ℕ → ℕ → Memory → Option (ℕ × Bool)
skip_delimiters n zero s delimiters m = none
skip_delimiters n (suc fuel) s delimiters m = do
  found ← strchr n delimiters (m s) m
  elim found [
    | none ↦ some (s, false)
    | some p ↦ elim (m s == 0) [
      | true ↦ some (s, true)
      | false ↦ skip_delimiters n fuel (suc s) delimiters m
    ]
  ]

-- The second loop.
unfoldable pub skip_token : ℕ → ℕ → ℕ → ℕ → Memory → Option ℕ
skip_token n zero s delimiters m = none
skip_token n (suc fuel) s delimiters m = do
  found ← strchr n delimiters (m s) m
  elim found [ none ↦ skip_token n fuel (suc s) delimiters m | some p ↦ some s ]

-- `s`, or the saved place when `s` is the null pointer.
abbrev pub start_of : Option ℕ → ℕ → ℕ
start_of none save_ptr = save_ptr
start_of (some p) save_ptr = p

-- The token, `*save_ptr` and the memory.
unfoldable pub strtok_r : ℕ → ℕ → Option ℕ → ℕ → ℕ → Memory → Option (Option ℕ × ℕ × Memory)
strtok_r n fuel s delimiters save_ptr m = do
  (token, ended) ← skip_delimiters n fuel (start_of s save_ptr) delimiters m
  elim ended [
    | true ↦ some (none, token, m)
    | false ↦ do
      end ← skip_token n fuel token delimiters m
      some (elim (m end == 0) [
        | true ↦ (some token, end, m)
        | false ↦ (some token, suc end, update end 0 m)
      ])
  ]
