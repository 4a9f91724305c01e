-- ===== src/Yashd/Output.antt =====
-- What the session sends to its client: session_write, session_puts, session_printf and
-- session_prompt of Project 2/yashd/server/src/session.c.
pub mod Delivery
use system_prog.Base.{
  ℕ, zero, suc, ◌-◌, Bool, true, false, List, [], ◌∷◌, ◌++◌, Str, length, take, drop, ltb, ◌==◌,
  if◌then◌else◌,
}
use system_prog.Yash.Types.{max_line}
use system_prog.Yashd.Types.{
  Session, Effect, deliver, Sent, sent, interrupted, broken, emit, yash_prompt,
}

-- The loop of `session_write` on what is left of the buffer. The flag is false for the result -1.
-- `write` never takes more than it is given.
unfoldable pub write_loop : List Sent → Str → Session → Session × Bool
write_loop [] left s = (emit (deliver left ∷ []) (record s { sends = [] }), true)
write_loop (r ∷ rs) left s = elim (length left == 0) [
  | true ↦ (record s { sends = r ∷ rs }, true)
  | false ↦ elim r [
    | interrupted ↦ write_loop rs left s
    | broken ↦ (record s { quit = true; sends = rs }, false)
    | sent n ↦ write_loop rs (drop n left) (emit (deliver (take n left) ∷ []) s)
  ]
]

unfoldable pub session_write : Str → Session → Session × Bool
session_write buf s = write_loop s.sends buf s

unfoldable pub session_puts : Str → Session → Session × Bool
session_puts str s = session_write str s

-- `text` is what the format makes of its arguments; the buffer takes `YASH_MAX_LINE + 128` bytes.
abbrev pub printf_size : ℕ
printf_size = 328

unfoldable pub session_printf : Str → Session → Session × Bool
session_printf text s =
    if length text == 0
    then (s, true)
    else session_write (if ltb (length text) printf_size then text else take (printf_size - 1) text)
        s

unfoldable pub session_prompt : Session → Session × Bool
session_prompt s = session_puts yash_prompt s
