-- ===== src/Yash/Parse/Reads.antt =====
-- What one round of the loop of `parse_line` in Project 1/yash/src/parse.c adds to what has been
-- read as a line of the grammar.
use system_prog.Base.{
  ◌≤◌, ◌<◌, ◌≡◌, ◌≢◌, refl, sym, ap, ◌∙◌, true, false, Option, none, some, List, [], ◌∷◌, ◌++◌,
  arith, Str, length, length-append, All, All-append, append_assoc, append-nil, subst,
}
use system_prog.Yash.Types.{Cmd, no_cmd, max_args}
use system_prog.Yash.Parse.{
  Slot, bar_tok, amp_tok, input, output, errors, read_slot, write_slot, Scan, one, two,
  round_redirect, round_bar, round_amp, round_word,
}
use system_prog.Yash.Parse.Accepts.{is_some_redir, argv-cmd_of, after_command, after_line}
use system_prog.Yash.Parse.Grammar.{
  Command, Line, simple, behind, piped, slot_tok, print_redirs, print_command, print_line, IsWord,
  Distinct, IsCommand, redirected, cmd_of,
}

-- A command that may still be growing.
pub record IsPartial (c : Command) : Type 0 where
  pub few_words : length c.words ≤ max_args
  pub words : All IsWord c.words
  pub files : All (λ r. IsWord r.1) c.redirs
  pub distinct : Distinct c.redirs

abbrev add_word : Command → Str → Command
add_word c tok = record c { words = c.words ++ tok ∷ [] }

abbrev add_redir : Command → Slot → Str → Command
add_redir c slot file = record c { redirs = c.redirs ++ (slot, file) ∷ [] }

print_redirs-append :
    (rs qs : List (Slot × Str)) → print_redirs (rs ++ qs) ≡ print_redirs rs ++ print_redirs qs
print_redirs-append [] qs = refl
print_redirs-append ((slot, file) ∷ rs) qs =
    ap (λ t. slot_tok slot ∷ file ∷ t) (print_redirs-append rs qs)

redirected-append :
    (c : Cmd) (rs qs : List (Slot × Str))
    → redirected c (rs ++ qs) ≡ redirected (redirected c rs) qs
redirected-append c [] qs = refl
redirected-append c ((slot, file) ∷ rs) qs = redirected-append (write_slot slot file c) rs qs

-- A write never clears a slot.
read_slot-of-write :
    (a b : Slot) (f : Str) (c : Cmd)
    → read_slot a (write_slot b f c) ≡ none
    → (b ≢ a) × (read_slot a c ≡ none)
read_slot-of-write input input f c h = ((λ e. cc), cc)
read_slot-of-write input output f c h = ((λ e. cc), h)
read_slot-of-write input errors f c h = ((λ e. cc), h)
read_slot-of-write output input f c h = ((λ e. cc), h)
read_slot-of-write output output f c h = ((λ e. cc), cc)
read_slot-of-write output errors f c h = ((λ e. cc), h)
read_slot-of-write errors input f c h = ((λ e. cc), h)
read_slot-of-write errors output f c h = ((λ e. cc), h)
read_slot-of-write errors errors f c h = ((λ e. cc), cc)

unread :
    (slot : Slot) (c : Cmd) (rs : List (Slot × Str))
    → read_slot slot (redirected c rs) ≡ none
    → (read_slot slot c ≡ none) × All (λ r. r.0 ≢ slot) rs
unread slot c [] h = (h, tt)
unread slot c ((k, f) ∷ rs) h =
    let later = unread slot (write_slot k f c) rs h in
    let now = read_slot-of-write slot k f c later.0 in (now.1, (now.0, later.1))

Distinct-snoc :
    (rs : List (Slot × Str)) (slot : Slot) (f : Str)
    → Distinct rs
    → All (λ r. r.0 ≢ slot) rs
    → Distinct (rs ++ (slot, f) ∷ [])
Distinct-snoc [] slot f d a = (tt, tt)
Distinct-snoc ((k, g) ∷ rs) slot f d a = (
  All-append (λ r. r.0 ≢ k) rs ((slot, f) ∷ []) d.0 ((λ e. a.0 (sym e)), tt),
  Distinct-snoc rs slot f d.1 a.1,
)

-- What has been read so far: perhaps a finished command and a bar, then a growing command.
abbrev pub prefix : Option Command → List Str
prefix none = []
prefix (some a) = print_command a ++ bar_tok ∷ []

abbrev pub finished : Option Command → List Cmd
finished none = []
finished (some a) = cmd_of a ∷ []

abbrev pub IsFinished : Option Command → Type 0
IsFinished none = Unit
IsFinished (some a) = IsCommand a

pub record Reads (p : List Str) (s : Scan) : Type 0 where
  pub prev : Option Command
  pub cmd : Command
  pub printed : p ≡ prefix prev ++ print_command cmd
  pub vars : s ≡ after_command (finished prev) cmd
  pub left : IsFinished prev
  pub part : IsPartial cmd

-- The same at the end of the line, where the last command may still have no word.
abbrev pub IsOpen : Line → Type 0
IsOpen (simple c) = IsPartial c
IsOpen (behind c) = IsPartial c
IsOpen (piped a b) = IsCommand a × IsPartial b

abbrev pub Final : List Str → Scan → Type 0
Final p s = (l : Line) × (p ≡ print_line l) × (s ≡ after_line l) × IsOpen l

-- One more word.
round_word-one :
    (cmds : List Cmd) (ws : List Str) (rs : List (Slot × Str)) (tok : Str) (s : Scan)
    → length ws ≤ max_args
    → round_word (after_command cmds (record { words = ws; redirs = rs })) tok ≡ one s
    → (rs ≡ [])
      × (length ws < max_args)
      × (s ≡ after_command cmds (record { words = ws ++ tok ∷ []; redirs = rs }))
unfolding round_word
round_word-one cmds ws [] tok s k h = ground arith
round_word-one cmds ws (r ∷ rs) tok s k h = ground arith

print_command-add_word :
    (c : Command) (tok : Str)
    → c.redirs ≡ []
    → print_command (add_word c tok) ≡ print_command c ++ tok ∷ []
print_command-add_word c tok e =
    rw e (append-nil (c.words ++ tok ∷ []) ∙ ap (λ ws. ws ++ tok ∷ []) (sym (append-nil c.words)))

pub read_word :
    (p : List Str) (s s' : Scan) (tok : Str)
    → IsWord tok
    → (r : Reads p s) → round_word (after_command (finished r.prev) r.cmd) tok ≡ one s'
    → Reads (p ++ tok ∷ []) s'
read_word p s s' tok w r h =
    let f = round_word-one (finished r.prev) r.cmd.words r.cmd.redirs tok s' r.part.few_words h in
    record {
      prev = r.prev;
      cmd = add_word r.cmd tok;
      printed =
          ap (λ q. q ++ tok ∷ []) r.printed
          ∙ append_assoc (prefix r.prev) (print_command r.cmd) (tok ∷ [])
          ∙ ap (◌++◌ (prefix r.prev)) (sym (print_command-add_word r.cmd tok f.0));
      vars = f.2;
      left = r.left;
      part = record {
        few_words = omega (arith, f.1, length-append r.cmd.words (tok ∷ []));
        words = All-append IsWord r.cmd.words (tok ∷ []) r.part.words (w, tt);
        files = r.part.files;
        distinct = r.part.distinct;
      };
    }

-- One more redirection.
pub round_redirect-two :
    (s s' : Scan) (slot : Slot) (la : Option Str)
    → round_redirect s slot la ≡ two s'
    → (file : Str) × (la ≡ some file)
      × IsWord file
      × (read_slot slot s.cur ≡ none)
      × (s' ≡ record s { cur = write_slot slot file s.cur; redirect_seen = true })
unfolding round_redirect
round_redirect-two s s' slot none h = ground arith
round_redirect-two s s' slot (some file) h = (file, refl, ground arith, ground arith, ground arith)

pub round_redirect-ne-one :
    (s s' : Scan) (slot : Slot) (la : Option Str) → round_redirect s slot la ≢ one s'
unfolding round_redirect
round_redirect-ne-one s s' slot la h = ground arith

print_command-add_redir :
    (c : Command) (slot : Slot) (file : Str)
    → print_command (add_redir c slot file) ≡ print_command c ++ slot_tok slot ∷ file ∷ []
print_command-add_redir c slot file =
    ap (◌++◌ c.words) (print_redirs-append c.redirs ((slot, file) ∷ []))
    ∙ sym (append_assoc c.words (print_redirs c.redirs) (slot_tok slot ∷ file ∷ []))

is_some_redir-snoc :
    (rs : List (Slot × Str)) (r : Slot × Str) → is_some_redir (rs ++ r ∷ []) false ≡ true
is_some_redir-snoc [] r = refl
is_some_redir-snoc (q ∷ rs) r = refl

after_command-add_redir :
    (cmds : List Cmd) (c : Command) (slot : Slot) (file : Str)
    → record (after_command cmds c) { cur = write_slot slot file (cmd_of c); redirect_seen = true }
      ≡ after_command cmds (add_redir c slot file)
after_command-add_redir cmds c slot file = rw (
  redirected-append (record no_cmd { argv = c.words }) c.redirs ((slot, file) ∷ []),
  is_some_redir-snoc c.redirs (slot, file),
)

pub read_redir :
    (p : List Str) (s s' : Scan) (slot : Slot) (la : Option Str)
    → (r : Reads p s) → round_redirect (after_command (finished r.prev) r.cmd) slot la ≡ two s'
    → (file : Str) × (la ≡ some file) × Reads (p ++ slot_tok slot ∷ file ∷ []) s'
read_redir p s s' slot la r h =
    let f = round_redirect-two (after_command (finished r.prev) r.cmd) s' slot la h in
    let file = f.0 in
    (
      file,
      f.1,
      record {
        prev = r.prev;
        cmd = add_redir r.cmd slot file;
        printed =
            ap (λ q. q ++ slot_tok slot ∷ file ∷ []) r.printed
            ∙ append_assoc (prefix r.prev) (print_command r.cmd) (slot_tok slot ∷ file ∷ [])
            ∙ ap (◌++◌ (prefix r.prev)) (sym (print_command-add_redir r.cmd slot file));
        vars = f.4 ∙ after_command-add_redir (finished r.prev) r.cmd slot file;
        left = r.left;
        part = record {
          few_words = r.part.few_words;
          words = r.part.words;
          files =
              All-append (λ q. IsWord q.1) r.cmd.redirs ((slot, file) ∷ []) r.part.files (f.2, tt);
          distinct =
              Distinct-snoc r.cmd.redirs slot file r.part.distinct
                (unread slot (record no_cmd { argv = r.cmd.words }) r.cmd.redirs f.3).1;
        };
      },
    )

-- A bar: the growing command is finished, and has a word.
round_bar-one :
    (prev : Option Command) (c : Command) (s : Scan)
    → round_bar (after_command (finished prev) c) ≡ one s
    → (prev ≡ none)
      × (0 < length c.words)
      × (s ≡ after_command (cmd_of c ∷ []) (record { words = []; redirs = [] }))
unfolding round_bar
round_bar-one none c s h = ground (arith, argv-cmd_of c)
round_bar-one (some a) c s h = ground arith

pub read_bar :
    (p : List Str) (s s' : Scan)
    → (r : Reads p s) → round_bar (after_command (finished r.prev) r.cmd) ≡ one s'
    → Reads (p ++ bar_tok ∷ []) s'
read_bar p s s' r h =
    let f = round_bar-one r.prev r.cmd s' h in
    record {
      prev = some r.cmd;
      cmd = record { words = []; redirs = [] };
      printed =
          ap (λ q. q ++ bar_tok ∷ []) (r.printed ∙ ap (λ o. prefix o ++ print_command r.cmd) f.0)
          ∙ sym (append-nil (print_command r.cmd ++ bar_tok ∷ []));
      vars = f.2;
      left = record {
        some_word = f.1;
        few_words = r.part.few_words;
        words = r.part.words;
        files = r.part.files;
        distinct = r.part.distinct;
      };
      part = record { few_words = omega arith; words = tt; files = tt; distinct = tt };
    }

-- An ampersand: nothing follows it, and there is no bar before it.
round_amp-one :
    (prev : Option Command) (c : Command) (la : Option Str) (s : Scan)
    → round_amp (after_command (finished prev) c) la ≡ one s
    → (prev ≡ none) × (la ≡ none) × (s ≡ record (after_command [] c) { background = true })
unfolding round_amp
round_amp-one none c none s h = ground arith
round_amp-one none c (some tok) s h = ground arith
round_amp-one (some a) c none s h = ground arith
round_amp-one (some a) c (some tok) s h = ground arith

pub read_amp :
    (p : List Str) (s s' : Scan) (la : Option Str)
    → (r : Reads p s) → round_amp (after_command (finished r.prev) r.cmd) la ≡ one s'
    → (la ≡ none) × Final (p ++ amp_tok ∷ []) s'
read_amp p s s' la r h =
    let f = round_amp-one r.prev r.cmd la s' h in
    (
      f.1,
      (
        behind r.cmd,
        ap (λ q. q ++ amp_tok ∷ []) (r.printed ∙ ap (λ o. prefix o ++ print_command r.cmd) f.0),
        f.2,
        r.part,
      ),
    )

-- At the end of the tokens.
pub Reads-Final : (p : List Str) (s : Scan) → Reads p s → Final p s
Reads-Final p s r = go r.prev refl
  where
    go : (o : Option Command) → r.prev ≡ o → Final p s
    go none e = (
      simple r.cmd,
      r.printed ∙ ap (λ o. prefix o ++ print_command r.cmd) e,
      r.vars ∙ ap (λ o. after_command (finished o) r.cmd) e,
      r.part,
    )
    go (some a) e = (
      piped a r.cmd,
      r.printed
          ∙ ap (λ o. prefix o ++ print_command r.cmd) e
          ∙ append_assoc (print_command a) (bar_tok ∷ []) (print_command r.cmd),
      r.vars ∙ ap (λ o. after_command (finished o) r.cmd) e,
      (subst IsFinished e r.left, r.part),
    )
