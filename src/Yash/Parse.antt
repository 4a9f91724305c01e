-- ===== src/Yash/Parse.antt =====
-- The parser: Project 1/yash/src/parse.c.
pub mod Tokens
pub mod Grammar
pub mod Accepts
pub mod Reads
pub mod Sound
pub mod Trim
use system_prog.Base.{
  ℕ, zero, suc, Bool, true, false, ◌||◌, Option, none, some, List, [], ◌∷◌, ◌++◌, Str, str_eq, ltb,
  ◌==◌, if◌then◌else◌, length,
}
use system_prog.Yash.Types.{Cmd, no_cmd, Job, running, max_line, max_tokens, max_args, max_cmds}

-- A delimiter of `strtok_r(s, " \t", &save)`.
unfoldable pub is_blank : ℕ → Bool
is_blank c = (c == b' ') || (c == 9)

-- What `strtok_r` skips, and the token that it then cuts off, with the rest of the text.
unfoldable pub skip_blanks : Str → Str
skip_blanks [] = []
skip_blanks (c ∷ cs) = if is_blank c then skip_blanks cs else c ∷ cs

unfoldable pub cut_token : Str → Str × Str
cut_token [] = ([], [])
cut_token (c ∷ cs) = let (t, rest) = cut_token cs in if is_blank c then ([], cs) else (c ∷ t, rest)

unfoldable pub strtok : Str → Option (Str × Str)
strtok text = elim (skip_blanks text) [ [] ↦ none | c ∷ cs ↦ some (cut_token (c ∷ cs)) ]

-- `tokenize`: `none` for the overflow of -1. The fuel bounds the rounds, `room` is `max - n`.
unfoldable pub take_token :
    (Str → ℕ → Option (List Str)) → Option (Str × Str) → ℕ → Option (List Str)
take_token more none room = some []
take_token more (some (tok, rest)) zero = none
take_token more (some (tok, rest)) (suc room) = elim (more rest room) [
  | none ↦ none
  | some toks ↦ some (tok ∷ toks)
]

unfoldable pub tokenize_loop : ℕ → Str → ℕ → Option (List Str)
tokenize_loop zero text room = some []
tokenize_loop (suc f) text room = take_token (tokenize_loop f) (strtok text) room

unfoldable pub tokenize : Str → ℕ → Option (List Str)
tokenize buf max = tokenize_loop (suc (length buf)) buf max

-- The operator tokens.
abbrev pub lt_tok : Str
lt_tok = b'<' ∷ []

abbrev pub gt_tok : Str
gt_tok = b'>' ∷ []

abbrev pub err_tok : Str
err_tok = b'2' ∷ b'>' ∷ []

abbrev pub bar_tok : Str
bar_tok = b'|' ∷ []

abbrev pub amp_tok : Str
amp_tok = b'&' ∷ []

unfoldable pub is_operator : Str → Bool
is_operator tok =
    str_eq tok lt_tok
    || (str_eq tok gt_tok || (str_eq tok err_tok || (str_eq tok bar_tok || str_eq tok amp_tok)))

-- The field of `cmd_t` that a redirection fills.
pub data Slot : Type 0 where
  input output errors : Slot

unfoldable pub redirect_slot : Str → Option Slot
redirect_slot tok =
    if str_eq tok lt_tok
    then some input
    else if str_eq tok gt_tok
    then some output
    else if str_eq tok err_tok
    then some errors
    else none

-- Reading and writing `*slot`.
abbrev pub read_slot : Slot → Cmd → Option Str
read_slot input c = c.infile
read_slot output c = c.outfile
read_slot errors c = c.errfile

abbrev pub write_slot : Slot → Str → Cmd → Cmd
write_slot input f c = record c { infile = some f }
write_slot output f c = record c { outfile = some f }
write_slot errors f c = record c { errfile = some f }

-- The variables of the loop of `parse_line`: `before` holds `cmds[0..ci)`, `cur` is `cmds[ci]`.
pub record Scan : Type 0 where
  pub before : List Cmd
  pub cur : Cmd
  pub redirect_seen : Bool
  pub background : Bool

-- What one round does: PARSE_ERROR, or the new variables and how many tokens it has used up.
pub data Round : Type 0 where
  fail : Round
  one two : Scan → Round

-- `lookahead` is `tokens[i + 1]`, or `none` at `i + 1 >= ntok`.
unfoldable pub round_redirect : Scan → Slot → Option Str → Round
round_redirect s slot lookahead =
    if length s.cur.argv == 0 then fail else elim (read_slot slot s.cur) [
      | some f ↦ fail
      | none ↦ elim lookahead [
        | none ↦ fail
        | some file ↦
            if is_operator file
            then fail
            else two (record s { cur = write_slot slot file s.cur; redirect_seen = true })
      ]
    ]

unfoldable pub round_bar : Scan → Round
round_bar s =
    if ltb (suc (length s.before)) max_cmds
    then (if length s.cur.argv == 0
        then fail
        else one
            (record s { before = s.before ++ s.cur ∷ []; cur = no_cmd; redirect_seen = false }))
    else fail

unfoldable pub round_amp : Scan → Option Str → Round
round_amp s (some tok) = fail
round_amp s none = if length s.before == 0 then one (record s { background = true }) else fail

unfoldable pub round_word : Scan → Str → Round
round_word s tok =
    if s.redirect_seen
    then fail
    else if length s.cur.argv == max_args
    then fail
    else one (record s { cur = record (s.cur) { argv = s.cur.argv ++ tok ∷ [] } })

unfoldable pub round : Scan → Str → Option Str → Round
round s tok lookahead = elim (redirect_slot tok) [
  | some slot ↦ round_redirect s slot lookahead
  | none ↦
      if str_eq tok bar_tok
      then round_bar s
      else if str_eq tok amp_tok
      then round_amp s lookahead
      else round_word s tok
]

-- The loop over the tokens; `none` is PARSE_ERROR.
unfoldable pub scan : Scan → List Str → Option Scan
scan s [] = some s
scan s (tok ∷ []) = elim (round s tok none) [ fail ↦ none | one s' ↦ some s' | two s' ↦ some s' ]
scan s (tok ∷ next ∷ rest) = elim (round s tok (some next)) [
  | fail ↦ none
  | one s' ↦ scan s' (next ∷ rest)
  | two s' ↦ scan s' rest
]

abbrev pub scan_start : Scan
scan_start = record { before = []; cur = no_cmd; redirect_seen = false; background = false }

-- `while (n > 0 && (cmdline[n - 1] is '&', ' ' or '\t')) n--; cmdline[n] = '\0';`
unfoldable pub is_trailing : ℕ → Bool
is_trailing c = (c == b'&') || ((c == b' ') || (c == 9))

unfoldable pub trim : Str → Str
trim [] = []
trim (c ∷ cs) = elim (trim cs) [ [] ↦ if is_trailing c then [] else c ∷ [] | d ∷ ds ↦ c ∷ d ∷ ds ]

-- PARSE_OK with the job, PARSE_EMPTY and PARSE_ERROR.
pub data Parsed : Type 0 where
  ok : Job → Parsed
  empty error : Parsed

-- What follows the loop.
unfoldable pub finish : Str → Scan → Parsed
finish line s =
    if length s.cur.argv == 0
    then error
    else ok (record {
      jid = 0;
      pgid = 0;
      state = running;
      background = s.background;
      nlive = 0;
      cmds = s.before ++ s.cur ∷ [];
      cmdline = if s.background then trim line else line;
    })

unfoldable pub parse_tokens : Str → List Str → Parsed
parse_tokens line [] = empty
parse_tokens line (tok ∷ toks) = elim (scan scan_start (tok ∷ toks)) [
  | none ↦ error
  | some s ↦ finish line s
]

-- `none` is the null pointer.
unfoldable pub parse_line : Option Str → Parsed
parse_line none = error
parse_line (some line) =
    if ltb max_line (length line)
    then error
    else elim (tokenize line max_tokens) [ none ↦ error | some toks ↦ parse_tokens line toks ]
