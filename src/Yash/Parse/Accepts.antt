-- ===== src/Yash/Parse/Accepts.antt =====
-- The loop of `parse_line` in Project 1/yash/src/parse.c reads every line of the grammar.
use system_prog.Base.{
  ◌+◌, ◌≤◌, ◌<◌, ◌≡◌, ◌≢◌, refl, sym, ap, ◌∙◌, Bool, true, false, Option, none, some, List, [], ◌∷◌,
  ◌++◌, arith, Str, length, length-append, All, append_assoc, append-nil, if◌then◌else◌,
}
use system_prog.Yash.Types.{max_line, max_tokens, Cmd, no_cmd, max_args, Job, running}
use system_prog.Yash.Parse.{
  parse_line, Slot, bar_tok, amp_tok, input, output, errors, read_slot, write_slot, Scan,
  scan_start, one, two, round, round_redirect, round_bar, round_amp, round_word, scan,
  redirect_slot, parse_tokens, finish, trim, ok,
}
use system_prog.Yash.Parse.Tokens.{IsToken, spaced, tokenize-spaced, length-spaced}
use system_prog.Yash.Parse.Grammar.{
  Command, Line, simple, behind, piped, slot_tok, print_redirs, print_command, print_line, IsWord,
  Distinct, IsCommand, IsLine, redirected, cmd_of, cmds_of, is_behind, redirect_slot-slot_tok,
  IsWord-Plain,
}

abbrev pub head_of : List Str → Option Str
head_of [] = none
head_of (t ∷ ts) = some t

pub scan-one :
    (s s' : Scan) (tok : Str) (rest : List Str)
    → round s tok (head_of rest) ≡ one s'
    → scan s (tok ∷ rest) ≡ scan s' rest
unfolding scan
scan-one s s' tok [] h = ground arith
scan-one s s' tok (next ∷ rest) h = ground arith

pub scan-two :
    (s s' : Scan) (tok file : Str) (rest : List Str)
    → round s tok (some file) ≡ two s'
    → scan s (tok ∷ file ∷ rest) ≡ scan s' rest
unfolding scan
scan-two s s' tok file rest h = ground arith

abbrev with_words : Scan → List Str → Scan
with_words s ws = record s { cur = record (s.cur) { argv = s.cur.argv ++ ws } }

round-word :
    (s : Scan) (tok : Str) (la : Option Str)
    → IsWord tok
    → s.redirect_seen ≡ false
    → length s.cur.argv < max_args
    → round s tok la ≡ one (with_words s (tok ∷ []))
unfolding round round_word
round-word s tok la w r k = ground (arith, IsWord-Plain tok w)

scan-words :
    (ws : List Str) (s : Scan) (rest : List Str)
    → All IsWord ws
    → s.redirect_seen ≡ false
    → length s.cur.argv + length ws ≤ max_args
    → scan s (ws ++ rest) ≡ scan (with_words s ws) rest
scan-words [] s rest a r k = rw append-nil
scan-words (w ∷ ws) s rest a r k =
    scan-one s (with_words s (w ∷ [])) w (ws ++ rest)
      (round-word s w (head_of (ws ++ rest)) a.0 r (omega arith))
    ∙ scan-words ws (with_words s (w ∷ [])) rest a.1 r
        (omega (arith, length-append s.cur.argv (w ∷ [])))
    ∙ ap (λ av. scan (record s { cur = record (s.cur) { argv = av } }) rest)
        (append_assoc s.cur.argv (w ∷ []) ws)

-- The slots of the redirections are free.
abbrev Free : Cmd → List (Slot × Str) → Type 0
Free c rs = All (λ r. read_slot r.0 c ≡ none) rs

read_slot-write_ne :
    (a b : Slot) (f : Str) (c : Cmd) → a ≢ b → read_slot a (write_slot b f c) ≡ read_slot a c
read_slot-write_ne input input f c h = absurd (h refl)
read_slot-write_ne input output f c h = refl
read_slot-write_ne input errors f c h = refl
read_slot-write_ne output input f c h = refl
read_slot-write_ne output output f c h = absurd (h refl)
read_slot-write_ne output errors f c h = refl
read_slot-write_ne errors input f c h = refl
read_slot-write_ne errors output f c h = refl
read_slot-write_ne errors errors f c h = absurd (h refl)

pub argv-write_slot : (a : Slot) (f : Str) (c : Cmd) → (write_slot a f c).argv ≡ c.argv
argv-write_slot input f c = refl
argv-write_slot output f c = refl
argv-write_slot errors f c = refl

Free-write :
    (slot : Slot) (f : Str) (c : Cmd) (rs : List (Slot × Str))
    → All (λ r. r.0 ≢ slot) rs
    → Free c rs
    → Free (write_slot slot f c) rs
Free-write slot f c [] a b = tt
Free-write slot f c ((k, g) ∷ rs) a b =
    (read_slot-write_ne k slot f c a.0 ∙ b.0, Free-write slot f c rs a.1 b.1)

abbrev pub is_some_redir : List (Slot × Str) → Bool → Bool
is_some_redir [] b = b
is_some_redir (r ∷ rs) b = true

abbrev with_redirs : Scan → List (Slot × Str) → Scan
with_redirs s rs = record s {
  cur = redirected s.cur rs;
  redirect_seen = is_some_redir rs s.redirect_seen;
}

round-redirect :
    (s : Scan) (slot : Slot) (file : Str)
    → 0 < length s.cur.argv
    → read_slot slot s.cur ≡ none
    → IsWord file
    → round s (slot_tok slot) (some file)
      ≡ two (record s { cur = write_slot slot file s.cur; redirect_seen = true })
unfolding round round_redirect
round-redirect s slot file k r w = rw (redirect_slot-slot_tok slot, round) (ground arith)

is_some_redir-true : (rs : List (Slot × Str)) → is_some_redir rs true ≡ true
is_some_redir-true [] = refl
is_some_redir-true (r ∷ rs) = refl

scan-redirs :
    (rs : List (Slot × Str)) (s : Scan) (rest : List Str)
    → 0 < length s.cur.argv
    → All (λ r. IsWord r.1) rs
    → Distinct rs
    → Free s.cur rs
    → scan s (print_redirs rs ++ rest) ≡ scan (with_redirs s rs) rest
scan-redirs [] s rest k w d f = refl
scan-redirs ((slot, file) ∷ rs) s rest k w d f =
    scan-two s s' (slot_tok slot) file (print_redirs rs ++ rest)
      (round-redirect s slot file k f.0 w.0)
    ∙ scan-redirs rs s' rest (rw (argv-write_slot slot file s.cur) k) w.1 d.1
        (Free-write slot file s.cur rs d.0 f.1)
    ∙ ap (λ b. scan (record s { cur = redirected s'.cur rs; redirect_seen = b }) rest)
        (is_some_redir-true rs)
  where
    s' : Scan
    s' = record s { cur = write_slot slot file s.cur; redirect_seen = true }

Free-empty : (ws : List Str) (rs : List (Slot × Str)) → Free (record no_cmd { argv = ws }) rs
Free-empty ws [] = tt
Free-empty ws ((input, f) ∷ rs) = (refl, Free-empty ws rs)
Free-empty ws ((output, f) ∷ rs) = (refl, Free-empty ws rs)
Free-empty ws ((errors, f) ∷ rs) = (refl, Free-empty ws rs)

-- The loop's variables when a command has been read after `cmds`.
abbrev pub after_command : List Cmd → Command → Scan
after_command cmds c = record {
  before = cmds;
  cur = cmd_of c;
  redirect_seen = is_some_redir c.redirs false;
  background = false;
}

abbrev pub before_command : List Cmd → Scan
before_command cmds = record {
  before = cmds;
  cur = no_cmd;
  redirect_seen = false;
  background = false;
}

scan-command :
    (cmds : List Cmd) (c : Command) (rest : List Str)
    → IsCommand c
    → scan (before_command cmds) (print_command c ++ rest) ≡ scan (after_command cmds c) rest
scan-command cmds c rest v =
    ap (scan (before_command cmds)) (append_assoc c.words (print_redirs c.redirs) rest)
    ∙ scan-words c.words (before_command cmds) (print_redirs c.redirs ++ rest) v.words refl
        (omega arith)
    ∙ scan-redirs c.redirs (with_words (before_command cmds) c.words) rest v.some_word v.files
        v.distinct (Free-empty c.words c.redirs)

argv-redirected : (c : Cmd) (rs : List (Slot × Str)) → (redirected c rs).argv ≡ c.argv
argv-redirected c [] = refl
argv-redirected c ((slot, f) ∷ rs) =
    argv-redirected (write_slot slot f c) rs ∙ argv-write_slot slot f c

pub argv-cmd_of : (c : Command) → (cmd_of c).argv ≡ c.words
argv-cmd_of c = argv-redirected (record no_cmd { argv = c.words }) c.redirs

scan-bar :
    (c : Command) (rest : List Str)
    → IsCommand c
    → scan (after_command [] c) (bar_tok ∷ rest) ≡ scan (before_command (cmd_of c ∷ [])) rest
unfolding round round_bar redirect_slot
scan-bar c rest v =
    scan-one (after_command [] c) (before_command (cmd_of c ∷ [])) bar_tok rest
      (ground (arith, v.some_word, argv-cmd_of c))

scan-amp :
    (c : Command)
    → scan (after_command [] c) (amp_tok ∷ [])
      ≡ some (record (after_command [] c) { background = true })
unfolding scan round round_amp redirect_slot
scan-amp c = refl

-- The loop's variables when a line has been read.
abbrev pub after_line : Line → Scan
after_line (simple c) = after_command [] c
after_line (behind c) = record (after_command [] c) { background = true }
after_line (piped a b) = after_command (cmd_of a ∷ []) b

-- The loop reads every line of the grammar, and its variables hold what the line means.
pub scan-print_line : (l : Line) → IsLine l → scan scan_start (print_line l) ≡ some (after_line l)
unfolding scan
scan-print_line (simple c) v =
    ap (scan scan_start) (sym (append-nil (print_command c))) ∙ scan-command [] c [] v
scan-print_line (behind c) v = scan-command [] c (amp_tok ∷ []) v ∙ scan-amp c
scan-print_line (piped a b) v =
    scan-command [] a (bar_tok ∷ print_command b) v.0
    ∙ scan-bar a (print_command b) v.0
    ∙ ap (scan (before_command (cmd_of a ∷ []))) (sym (append-nil (print_command b)))
    ∙ scan-command (cmd_of a ∷ []) b [] v.1

-- What `parse_line` returns for a line of the grammar, given its text.
abbrev pub job_of : Line → Str → Job
job_of l text = record {
  jid = 0;
  pgid = 0;
  state = running;
  background = is_behind l;
  nlive = 0;
  cmds = cmds_of l;
  cmdline = if is_behind l then trim text else text;
}

finish-after_line :
    (l : Line) (text : Str) → IsLine l → finish text (after_line l) ≡ ok (job_of l text)
unfolding finish
finish-after_line (simple c) text v = ground (arith, v.some_word, argv-cmd_of c)
finish-after_line (behind c) text v = ground (arith, v.some_word, argv-cmd_of c)
finish-after_line (piped a b) text v = ground (arith, (v.1).some_word, argv-cmd_of b)

parse_tokens-of-scan :
    (text : Str) (toks : List Str) (s : Scan)
    → 0 < length toks
    → scan scan_start toks ≡ some s
    → parse_tokens text toks ≡ finish text s
unfolding parse_tokens
parse_tokens-of-scan text [] s k h = absurd (omega arith)
parse_tokens-of-scan text (t ∷ ts) s k h = rw (h, parse_tokens)

length-print_line : (l : Line) → IsLine l → 0 < length (print_line l)
length-print_line (simple c) v =
    omega (arith, v.some_word, length-append c.words (print_redirs c.redirs))
length-print_line (behind c) v = omega (
  arith,
  v.some_word,
  length-append c.words (print_redirs c.redirs),
  length-append (print_command c) (amp_tok ∷ []),
)
length-print_line (piped a b) v = omega (
  arith,
  (v.0).some_word,
  length-append a.words (print_redirs a.redirs),
  length-append (print_command a) (bar_tok ∷ print_command b),
)

-- The tokens of every line of the grammar are parsed to the job that the line means.
pub parse_tokens-print_line :
    (l : Line) (text : Str) → IsLine l → parse_tokens text (print_line l) ≡ ok (job_of l text)
parse_tokens-print_line l text v =
    parse_tokens-of-scan text (print_line l) (after_line l) (length-print_line l v)
      (scan-print_line l v)
    ∙ finish-after_line l text v

-- A line of the grammar, written with one space between its tokens and no longer than
-- YASH_MAX_LINE, is parsed to the job that the line means: PARSE_OK with its commands, arguments,
-- redirections and background flag, and the line (trimmed, if it ends in `&`) as `cmdline`.
pub parse_line-print_line :
    (l : Line)
    → IsLine l
    → All IsToken (print_line l)
    → length (spaced (print_line l)) ≤ max_line
    → parse_line (some (spaced (print_line l))) ≡ ok (job_of l (spaced (print_line l)))
unfolding parse_line
parse_line-print_line l v t k = ground (
  arith,
  tokenize-spaced (print_line l) max_tokens t (omega (arith, length-spaced (print_line l) t)),
  parse_tokens-print_line l (spaced (print_line l)) v,
)
