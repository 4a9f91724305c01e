-- ===== src/Yashd/Input.antt =====
-- The session's input buffer: buf_take_line, buf_fill and session_readsocket of
-- Project 2/yashd/server/src/session.c.
pub mod Framing
use system_prog.Base.{
  ℕ, zero, suc, ◌-◌, Bool, true, false, Option, none, some, List, [], ◌∷◌, ◌++◌, Str, length, take,
  leb, ◌==◌, if◌then◌else◌,
}
use system_prog.Yashd.Types.{Session, buf_size}

-- The bytes before the first newline and those after it, as `memchr` finds it.
unfoldable pub split_line : Str → Option (Str × Str)
split_line [] = none
split_line (c ∷ cs) =
    let more = split_line cs in
    if c == 10
    then some ([], cs)
    else elim more [ none ↦ none | some (l, rest) ↦ some (c ∷ l, rest) ]

-- `if (len > 0 && line[len - 1] == '\r') line[len - 1] = '\0';`
unfoldable pub strip_cr : Str → Str
strip_cr [] = []
strip_cr (c ∷ []) = if c == 13 then [] else c ∷ []
strip_cr (c ∷ d ∷ ds) = c ∷ strip_cr (d ∷ ds)

-- `n` is the size of the buffer `line`; a longer line is cut.
unfoldable pub buf_take_line : ℕ → Session → Option (Str × Session)
buf_take_line n s = elim (split_line s.inbuf) [
  | none ↦ none
  | some (l, rest) ↦
      some (strip_cr (if leb n (length l) then take (n - 1) l else l), record s { inbuf = rest })
]

-- What `read` on the socket returns: bytes, 0, -1 with EINTR, or another error.
pub data Read : Type 0 where
  got : Str → Read
  closed interrupted broken : Read

-- What `buf_fill` returns: more than 0, 0, or -1; a -1 of `read` sets errno, and the flag says
-- whether to EINTR. A full buffer is emptied without a system call, so errno stays.
pub data Fill : Type 0 where
  more end_of_file full : Fill
  error : Bool → Fill

unfoldable pub buf_fill : Read → Session → Session × Fill
buf_fill r s = if length s.inbuf == buf_size then (record s { inbuf = [] }, full) else elim r [
  | got text ↦ (record s { inbuf = s.inbuf ++ text }, more)
  | closed ↦ (s, end_of_file)
  | interrupted ↦ (s, error true)
  | broken ↦ (s, error false)
]

-- 1 with the line, 0, and -1.
pub data Line : Type 0 where
  line : Str → Line
  disconnected failed : Line

-- What a round of `session_readsocket` comes to after `buf_fill`: a return, or another round, with
-- whether errno is EINTR.
pub data Next : Type 0 where
  return : Line → Session → Next
  again : Bool → Session → Next

unfoldable pub after_fill : Bool → Session → Fill → Next
after_fill eintr s more = again eintr s
after_fill eintr s end_of_file = return disconnected s
after_fill eintr s (error true) = again true s
after_fill eintr s (error false) = return failed s
after_fill eintr s full = if eintr then again true s else return failed s

-- One call of `read`. Where the buffer is full no call is made: with EINTR in errno the loop goes
-- on with the empty buffer, which holds no line, to the call.
unfoldable pub fill_round : Read → Bool → Session → Next
fill_round r eintr s =
    let (s', f) = buf_fill r s in
    let (s'', g) = buf_fill r s' in
    elim (after_fill eintr s' f) [
      | return l t ↦ return l t
      | again e t ↦ if length s.inbuf == buf_size then after_fill e s'' g else again e t
    ]

-- `session_readsocket` on what the calls of `read` return; `none` is a wait for the client. `eintr`
-- says whether errno is EINTR at the start.
unfoldable pub session_readsocket : List Read → Bool → ℕ → Session → Option (Line × Session)
session_readsocket [] eintr n s = elim (buf_take_line n s) [
  | some (l, s') ↦ some (line l, s')
  | none ↦
      if length s.inbuf == buf_size
      then (if eintr then none else some (failed, record s { inbuf = [] }))
      else none
]
session_readsocket (r ∷ rs) eintr n s = elim (buf_take_line n s) [
  | some (l, s') ↦ some (line l, s')
  | none ↦ elim (fill_round r eintr s) [
    | return l t ↦ some (l, t)
    | again e t ↦ session_readsocket rs e n t
  ]
]
