-- ===== src/Yash/Parse/Sound.antt =====
-- What `parse_line` in Project 1/yash/src/parse.c accepts is a line of the grammar.
use system_prog.Base.{
  ◌≤◌, ◌<◌, ◌≡◌, refl, sym, ap, ◌∙◌, Option, none, some, List, [], ◌∷◌, ◌++◌, arith, Str, length,
  append_assoc, append-nil, if◌then◌else◌, str_eq, str_eq-eq, Option-cases, Bool-cases, inl, inr,
  ◌⊎◌, subst,
}
use system_prog.Yash.Types.{max_line, max_tokens, Job}
use system_prog.Yash.Parse.{
  Slot, bar_tok, amp_tok, Scan, scan_start, Round, fail, one, two, round, round_redirect, round_bar,
  round_amp, round_word, scan, redirect_slot, parse_tokens, finish, ok, parse_line, tokenize,
}
use system_prog.Yash.Parse.Accepts.{head_of, scan-one, scan-two, argv-cmd_of, after_line, job_of}
use system_prog.Yash.Parse.Grammar.{
  Command, Line, simple, behind, piped, slot_tok, print_line, IsCommand, IsLine,
  slot_tok-redirect_slot, Plain, Plain-IsWord,
}
use system_prog.Yash.Parse.Reads.{
  IsPartial, Reads, Final, IsOpen, read_word, round_redirect-ne-one, read_redir, read_bar, read_amp,
  Reads-Final,
}

-- The tests of a round, as cases.
data Case (s : Scan) (tok : Str) (la : Option Str) (r : Round) : Type 0 where
  at_slot : (slot : Slot) → tok ≡ slot_tok slot → round_redirect s slot la ≡ r → Case s tok la r
  at_bar : tok ≡ bar_tok → round_bar s ≡ r → Case s tok la r
  at_amp : tok ≡ amp_tok → round_amp s la ≡ r → Case s tok la r
  at_word : Plain tok → round_word s tok ≡ r → Case s tok la r

plain-Case :
    (s : Scan) (tok : Str) (la : Option Str)
    → redirect_slot tok ≡ none
    → Case s tok la (
        if str_eq tok bar_tok
        then round_bar s
        else if str_eq tok amp_tok
        then round_amp s la
        else round_word s tok)
plain-Case s tok la e = elim (Bool-cases (str_eq tok bar_tok)) [
  | inl b ↦ rw b (at_bar (str_eq-eq tok bar_tok b) refl)
  | inr b ↦ rw b (elim (Bool-cases (str_eq tok amp_tok)) [
    | inl a ↦ rw a (at_amp (str_eq-eq tok amp_tok a) refl)
    | inr a ↦ rw a (at_word (record { no_slot = e; no_bar = b; no_amp = a }) refl)
  ])
]

round-Case : (s : Scan) (tok : Str) (la : Option Str) → Case s tok la (round s tok la)
unfolding round
round-Case s tok la = elim (Option-cases (redirect_slot tok)) [
  | inl e ↦ rw (e, round) (plain-Case s tok la e)
  | inr (slot, e) ↦ rw (e, round) (at_slot slot (slot_tok-redirect_slot tok slot e) refl)
]

-- After a round that used up one token.
one_step :
    (p : List Str) (s s' : Scan) (tok : Str) (la : Option Str) (r : Round)
    → Reads p s
    → Case s tok la r
    → r ≡ one s'
    → Reads (p ++ tok ∷ []) s' ⊎ ((la ≡ none) × Final (p ++ tok ∷ []) s')
one_step p s s' tok la r v (at_slot slot e h) k =
    absurd (round_redirect-ne-one s s' slot la (h ∙ k))
one_step p s s' tok la r v (at_bar e h) k =
    inl (rw e (read_bar p s s' v (ap (round_bar) (sym v.vars) ∙ h ∙ k)))
one_step p s s' tok la r v (at_amp e h) k =
    inr (rw e (read_amp p s s' la v (ap (λ q. round_amp q la) (sym v.vars) ∙ h ∙ k)))
one_step p s s' tok la r v (at_word e h) k =
    inl (
      read_word p s s' tok (Plain-IsWord tok e) v (ap (λ q. round_word q tok) (sym v.vars) ∙ h ∙ k))

-- After a round that used up two.
two_step :
    (p : List Str) (s s' : Scan) (tok : Str) (la : Option Str) (r : Round)
    → Reads p s
    → Case s tok la r
    → r ≡ two s'
    → (file : Str) × (la ≡ some file) × Reads (p ++ tok ∷ file ∷ []) s'
unfolding round_bar round_amp round_word
two_step p s s' tok la r v (at_slot slot e h) k =
    rw e (read_redir p s s' slot la v (ap (λ q. round_redirect q slot la) (sym v.vars) ∙ h ∙ k))
two_step p s s' tok la r v (at_bar e h) k = absurd (ground arith)
two_step p s s' tok none r v (at_amp e h) k = absurd (ground arith)
two_step p s s' tok (some t) r v (at_amp e h) k = absurd (ground arith)
two_step p s s' tok la r v (at_word e h) k = absurd (ground arith)

Round-cases : (r : Round) → (r ≡ fail) ⊎ (((s : Scan) × (r ≡ one s)) ⊎ ((s : Scan) × (r ≡ two s)))
Round-cases fail = inl refl
Round-cases (one s) = inr (inl (s, refl))
Round-cases (two s) = inr (inr (s, refl))

scan-fail :
    (s : Scan) (tok : Str) (rest : List Str)
    → round s tok (head_of rest) ≡ fail
    → scan s (tok ∷ rest) ≡ none
unfolding scan
scan-fail s tok [] h = ground arith
scan-fail s tok (next ∷ rest) h = ground arith

scan-nil : (s : Scan) → scan s [] ≡ some s
unfolding scan
scan-nil s = refl

-- At the end of the tokens.
end_sound : (p : List Str) (s t : Scan) → Final p s → scan s [] ≡ some t → Final (p ++ []) t
unfolding scan
end_sound p s t f h = subst (λ q. Final q t) (sym (append-nil p)) (subst (Final p) (cc) f)

-- The loop, from what has been read to the whole line.
scan_sound :
    (p : List Str) (s t : Scan) (toks : List Str)
    → Reads p s
    → scan s toks ≡ some t
    → Final (p ++ toks) t
scan_sound p s t [] v h = end_sound p s t (Reads-Final p s v) h
scan_sound p s t (tok ∷ []) v h = elim (Round-cases (round s tok none)) [
  | inl e ↦ absurd (cc (scan-fail s tok [] e))
  | inr (inl (s', e)) ↦
      subst (λ q. Final q t) (append_assoc p (tok ∷ []) [])
        (end_sound (p ++ tok ∷ []) s' t
          (finals (one_step p s s' tok none (round s tok none) v (round-Case s tok none) e))
          (sym (scan-one s s' tok [] e) ∙ h))
  | inr (inr (s', e)) ↦
      absurd (cc ((two_step p s s' tok none (round s tok none) v (round-Case s tok none) e).1))
]
  where
    finals :
        {q : List Str} {u : Scan}
        → Reads q u ⊎ ((◌≡◌ {A = Option Str} none none) × Final q u)
        → Final q u
    finals {q} {u} (inl w) = Reads-Final q u w
    finals (inr w) = w.1
scan_sound p s t (tok ∷ next ∷ rest) v h = elim (Round-cases (round s tok (some next))) [
  | inl e ↦ absurd (cc (scan-fail s tok (next ∷ rest) e))
  | inr (inl (s', e)) ↦
      elim (one_step p s s' tok (some next) (round s tok (some next)) v
        (round-Case s tok (some next)) e) [
          | inl w ↦
              subst (λ q. Final q t) (append_assoc p (tok ∷ []) (next ∷ rest))
                (scan_sound (p ++ tok ∷ []) s' t (next ∷ rest) w
                  (sym (scan-one s s' tok (next ∷ rest) e) ∙ h))
          | inr w ↦ absurd (cc (w.0))
        ]
  | inr (inr (s', e)) ↦
      let w =
        two_step p s s' tok (some next) (round s tok (some next)) v (round-Case s tok (some next))
          e in
      let same : next ≡ w.0 = cc (w.1) in
      subst (λ q. Final q t) (append_assoc p (tok ∷ next ∷ []) rest)
        (scan_sound (p ++ tok ∷ next ∷ []) s' t rest
          (subst (λ f. Reads (p ++ tok ∷ f ∷ []) s') (sym same) w.2)
          (sym (scan-two s s' tok next rest e) ∙ h))
]

start_Reads : Reads [] scan_start
start_Reads = record {
  prev = none;
  cmd = record { words = []; redirs = [] };
  printed = refl;
  vars = refl;
  left = tt;
  part = record { few_words = omega arith; words = tt; files = tt; distinct = tt };
}

closed : (c : Command) → IsPartial c → 0 < length c.words → IsCommand c
closed c v k = record {
  some_word = k;
  few_words = v.few_words;
  words = v.words;
  files = v.files;
  distinct = v.distinct;
}

-- `finish` accepts only if the last command has a word.
finish_sound :
    (text : Str) (l : Line) (j : Job)
    → IsOpen l
    → finish text (after_line l) ≡ ok j
    → IsLine l × (j ≡ job_of l text)
unfolding finish
finish_sound text (simple c) j v h = (closed c v (ground (arith, argv-cmd_of c)), ground arith)
finish_sound text (behind c) j v h = (closed c v (ground (arith, argv-cmd_of c)), ground arith)
finish_sound text (piped a b) j v h =
    ((v.0, closed b v.1 (ground (arith, argv-cmd_of b))), ground arith)

-- What the code accepts is a line of the grammar, and the job is what that line means.
pub parse_tokens_sound :
    (text : Str) (toks : List Str) (j : Job)
    → parse_tokens text toks ≡ ok j
    → (l : Line) × IsLine l × (toks ≡ print_line l) × (j ≡ job_of l text)
unfolding parse_tokens
parse_tokens_sound text [] j h = absurd (ground arith)
parse_tokens_sound text (tok ∷ toks) j h = elim (Option-cases (scan scan_start (tok ∷ toks))) [
  | inl e ↦ absurd (ground arith)
  | inr (s, e) ↦
      let f = scan_sound [] scan_start s (tok ∷ toks) start_Reads e in
      let d = finish_sound text f.0 j f.3 (ground (arith, f.2)) in (f.0, d.0, f.1, d.1)
]

-- Whatever `parse_line` accepts is a line of the grammar: the text is at most YASH_MAX_LINE bytes
-- long, its tokens are those of a line that the grammar allows, and the job is what that line
-- means.
pub parse_line_sound :
    (line : Str) (j : Job)
    → parse_line (some line) ≡ ok j
    → (l : Line) × IsLine l
      × (length line ≤ max_line)
      × (tokenize line max_tokens ≡ some (print_line l))
      × (j ≡ job_of l line)
unfolding parse_line
parse_line_sound line j h = elim (Option-cases (tokenize line max_tokens)) [
  | inl e ↦ absurd (ground arith)
  | inr (toks, e) ↦
      let p = parse_tokens_sound line toks j (ground arith) in
      (p.0, p.1, ground arith, e ∙ ap some p.2, p.3)
]
