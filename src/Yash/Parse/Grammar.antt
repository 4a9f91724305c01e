-- ===== src/Yash/Parse/Grammar.antt =====
-- The command language of yash as a grammar, independent of the loop in
-- Project 1/yash/src/parse.c: what may stand on a line, how it is written and what it means.
use system_prog.Base.{
  ◌≤◌, ◌<◌, ◌≡◌, ◌≢◌, refl, Bool, true, false, none, some, List, [], ◌∷◌, ◌++◌, arith, Str, length,
  All, str_eq, str_eq-eq,
}
use system_prog.Yash.Types.{Cmd, no_cmd, max_args}
use system_prog.Yash.Parse.{
  Slot, input, output, errors, lt_tok, gt_tok, err_tok, bar_tok, amp_tok, is_operator,
  redirect_slot, write_slot,
}

-- Arguments, then redirections.
pub record Command : Type 0 where
  pub words : List Str
  pub redirs : List (Slot × Str)

pub data Line : Type 0 where
  simple behind : Command → Line
  piped : Command → Command → Line

abbrev pub slot_tok : Slot → Str
slot_tok input = lt_tok
slot_tok output = gt_tok
slot_tok errors = err_tok

-- How a line is written.
abbrev pub print_redirs : List (Slot × Str) → List Str
print_redirs [] = []
print_redirs ((slot, file) ∷ rs) = slot_tok slot ∷ file ∷ print_redirs rs

abbrev pub print_command : Command → List Str
print_command c = c.words ++ print_redirs c.redirs

abbrev pub print_line : Line → List Str
print_line (simple c) = print_command c
print_line (behind c) = print_command c ++ amp_tok ∷ []
print_line (piped a b) = print_command a ++ bar_tok ∷ print_command b

-- What may be written: one to YASH_MAX_ARGS words, no operator as a word or a file, and no
-- direction twice.
abbrev pub IsWord : Str → Type 0
IsWord t = is_operator t ≡ false

abbrev pub Distinct : List (Slot × Str) → Type 0
Distinct [] = Unit
Distinct ((slot, file) ∷ rs) = All (λ r. r.0 ≢ slot) rs × Distinct rs

pub record IsCommand (c : Command) : Type 0 where
  pub some_word : 0 < length c.words
  pub few_words : length c.words ≤ max_args
  pub words : All IsWord c.words
  pub files : All (λ r. IsWord r.1) c.redirs
  pub distinct : Distinct c.redirs

abbrev pub IsLine : Line → Type 0
IsLine (simple c) = IsCommand c
IsLine (behind c) = IsCommand c
IsLine (piped a b) = IsCommand a × IsCommand b

-- What a line means.
abbrev pub redirected : Cmd → List (Slot × Str) → Cmd
redirected cmd [] = cmd
redirected cmd ((slot, file) ∷ rs) = redirected (write_slot slot file cmd) rs

abbrev pub cmd_of : Command → Cmd
cmd_of c = redirected (record no_cmd { argv = c.words }) c.redirs

abbrev pub cmds_of : Line → List Cmd
cmds_of (simple c) = cmd_of c ∷ []
cmds_of (behind c) = cmd_of c ∷ []
cmds_of (piped a b) = cmd_of a ∷ cmd_of b ∷ []

abbrev pub is_behind : Line → Bool
is_behind (behind c) = true
is_behind _ = false

-- How the code's tests read the tokens.
pub redirect_slot-slot_tok : (slot : Slot) → redirect_slot (slot_tok slot) ≡ some slot
unfolding redirect_slot
redirect_slot-slot_tok input = refl
redirect_slot-slot_tok output = refl
redirect_slot-slot_tok errors = refl

pub slot_tok-redirect_slot :
    (tok : Str) (slot : Slot) → redirect_slot tok ≡ some slot → tok ≡ slot_tok slot
unfolding redirect_slot
slot_tok-redirect_slot tok slot h =
    ground (arith, str_eq-eq tok lt_tok, str_eq-eq tok gt_tok, str_eq-eq tok err_tok)

-- A word is none of the operators.
pub record Plain (tok : Str) : Type 0 where
  pub no_slot : redirect_slot tok ≡ none
  pub no_bar : str_eq tok bar_tok ≡ false
  pub no_amp : str_eq tok amp_tok ≡ false

pub IsWord-Plain : (tok : Str) → IsWord tok → Plain tok
unfolding is_operator redirect_slot
IsWord-Plain tok h = ground arith

pub Plain-IsWord : (tok : Str) → Plain tok → IsWord tok
unfolding is_operator redirect_slot
Plain-IsWord tok h = ground (arith, h.no_slot)
