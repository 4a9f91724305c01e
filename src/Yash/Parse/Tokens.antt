-- ===== src/Yash/Parse/Tokens.antt =====
-- What `tokenize` of Project 1/yash/src/parse.c makes of a line.
use system_prog.Base.{
  ℕ, zero, suc, ◌+◌, ◌*◌, ◌≤◌, ◌<◌, ◌≡◌, refl, ap, ◌∙◌, ◌⊎◌, inl, inr, true, false, Option, none,
  some, List, [], ◌∷◌, ◌++◌, arith, Str, length, length-append, All, Bool-cases, if◌then◌else◌,
}
use system_prog.Yash.Parse.{
  is_blank, skip_blanks, cut_token, strtok, take_token, tokenize_loop, tokenize,
}
use system_prog.Yash.Types.{max_line, max_tokens}

-- A token is not empty and holds no blank.
abbrev pub IsSolid : Str → Type 0
IsSolid = All (λ c. is_blank c ≡ false)

abbrev pub IsToken : Str → Type 0
IsToken t = (0 < length t) × IsSolid t

-- The text without its blanks.
abbrev pub solid : Str → Str
solid [] = []
solid (c ∷ cs) = if is_blank c then solid cs else c ∷ solid cs

abbrev pub join_all : List Str → Str
join_all [] = []
join_all (t ∷ ts) = t ++ join_all ts

-- What is left after the leading blanks: nothing, or a text that begins with a solid byte.
abbrev Skipped : Str → Str → Type 0
Skipped text [] = solid text ≡ []
Skipped text (c ∷ cs) =
    (is_blank c ≡ false) × (solid text ≡ solid (c ∷ cs)) × (length (c ∷ cs) ≤ length text)

Skipped-cons : (c : ℕ) (cs out : Str) → is_blank c ≡ true → Skipped cs out → Skipped (c ∷ cs) out
Skipped-cons c cs [] b h = ground arith
Skipped-cons c cs (d ∷ ds) b h = ground arith

skip_blanks-Skipped : (text : Str) → Skipped text (skip_blanks text)
unfolding skip_blanks
skip_blanks-Skipped [] = refl
skip_blanks-Skipped (c ∷ cs) = elim (Bool-cases (is_blank c)) [
  | inl b ↦ rw b (Skipped-cons c cs (skip_blanks cs) b (skip_blanks-Skipped cs))
  | inr b ↦ rw b (b, refl, omega arith)
]

-- A cut token is solid; with the rest it holds what the text holds, and a rest costs a blank.
record Cut (text : Str) (out : Str × Str) : Type 0 where
  solid_token : IsSolid out.0
  kept : solid text ≡ out.0 ++ solid out.1
  shorter : (length out.0 + length out.1 + 1 ≡ length text) ⊎ (out.1 ≡ [])
  fits : length out.0 + length out.1 ≤ length text

cut_token-Cut : (text : Str) → Cut text (cut_token text)
unfolding cut_token
cut_token-Cut [] = record { solid_token = tt; kept = refl; shorter = inr refl; fits = omega arith }
cut_token-Cut (c ∷ cs) = ground (arith, cut_token-Cut cs)

-- The cases of `strtok_r`: no token, or a token and a rest.
pub record Took (text tok rest : Str) : Type 0 where
  pub token : IsToken tok
  pub kept : solid text ≡ tok ++ solid rest
  pub shorter : length rest + 2 ≤ length text ⊎ ((rest ≡ []) × (1 ≤ length text))

abbrev pub Taken : Str → Option (Str × Str) → Type 0
Taken text none = solid text ≡ []
Taken text (some r) = Took text r.0 r.1

strtok-cons :
    (text : Str) (c : ℕ) (cs : Str) → Skipped text (c ∷ cs) → Taken text (some (cut_token (c ∷ cs)))
unfolding cut_token
strtok-cons text c cs h = ground (arith, cut_token-Cut cs)

strtok-of-Skipped :
    (text out : Str)
    → Skipped text out
    → Taken text (elim out [ [] ↦ none | c ∷ cs ↦ some (cut_token (c ∷ cs)) ])
strtok-of-Skipped text [] h = h
strtok-of-Skipped text (c ∷ cs) h = strtok-cons text c cs h

pub strtok-Taken : (text : Str) → Taken text (strtok text)
unfolding strtok
strtok-Taken text = strtok-of-Skipped text (skip_blanks text) (skip_blanks-Skipped text)

-- What a run of the loop with `room` free places yields.
abbrev Tokenized : Str → Option (List Str) → Type 0
Tokenized text none = ⊥
Tokenized text (some toks) = All IsToken toks × (solid text ≡ join_all toks)

Tokenized-cons :
    (text tok rest : Str) (out : Option (List Str))
    → Took text tok rest
    → Tokenized rest out
    → Tokenized text (elim out [ none ↦ none | some toks ↦ some (tok ∷ toks) ])
Tokenized-cons text tok rest none took h = h
Tokenized-cons text tok rest (some toks) took h = ((took.token, h.0), took.kept ∙ ap (◌++◌ tok) h.1)

take_token-Tokenized :
    (more : Str → ℕ → Option (List Str)) (text : Str) (o : Option (Str × Str)) (room : ℕ)
    → Taken text o
    → length text < 2 * room + 1
    → ((rest : Str) (r : ℕ)
        → length rest < length text
        → length rest < 2 * r + 1
        → Tokenized rest (more rest r))
    → Tokenized text (take_token more o room)
unfolding take_token
take_token-Tokenized more text none room t k ih = (tt, t)
take_token-Tokenized more text (some (tok, rest)) zero t k ih = absurd (ground (arith, t.shorter))
take_token-Tokenized more text (some (tok, rest)) (suc r) t k ih =
    Tokenized-cons text tok rest (more rest r) t
      (ih rest r (ground (arith, t.shorter)) (ground (arith, t.shorter)))

-- The loop never overflows if the text is shorter than two bytes a place and one more.
tokenize_loop-Tokenized :
    (f : ℕ) (text : Str) (room : ℕ)
    → length text < f
    → length text < 2 * room + 1
    → Tokenized text (tokenize_loop f text room)
unfolding tokenize_loop
tokenize_loop-Tokenized zero text room h k = absurd (omega arith)
tokenize_loop-Tokenized (suc f) text room h k =
    take_token-Tokenized (tokenize_loop f) text (strtok text) room (strtok-Taken text) k
      λ rest r p q. tokenize_loop-Tokenized f rest r (omega arith) q

Tokenized-some :
    (text : Str) (o : Option (List Str))
    → Tokenized text o
    → (toks : List Str) × (o ≡ some toks) × All IsToken toks × (solid text ≡ join_all toks)
Tokenized-some text none h = absurd h
Tokenized-some text (some toks) h = (toks, refl, h.0, h.1)

-- A line of at most YASH_MAX_LINE bytes is cut into tokens with no overflow of the array of
-- YASH_MAX_TOKENS; each token is non-empty and free of blanks, and together they hold exactly the
-- bytes of the line that are not blanks, in order.
pub tokenize_total :
    (line : Str)
    → length line ≤ max_line
    → (toks : List Str) × (tokenize line max_tokens ≡ some toks)
      × All IsToken toks
      × (solid line ≡ join_all toks)
unfolding tokenize
tokenize_total line h =
    Tokenized-some line (tokenize line max_tokens)
      (tokenize_loop-Tokenized (suc (length line)) line max_tokens (omega arith) (omega arith))

-- Tokens written with one space between them.
abbrev pub spaced : List Str → Str
spaced [] = []
spaced (t ∷ []) = t
spaced (t ∷ u ∷ ts) = t ++ b' ' ∷ spaced (u ∷ ts)

cut_token-end : (t : Str) → IsSolid t → cut_token t ≡ (t, [])
unfolding cut_token
cut_token-end [] h = refl
cut_token-end (c ∷ cs) h = ground (arith, cut_token-end cs h.1)

cut_token-space : (t rest : Str) → IsSolid t → cut_token (t ++ b' ' ∷ rest) ≡ (t, rest)
unfolding cut_token is_blank
cut_token-space [] rest h = refl
cut_token-space (c ∷ cs) rest h = ground (arith, cut_token-space cs rest h.1)

strtok-end : (t : Str) → IsToken t → strtok t ≡ some (t, [])
unfolding strtok skip_blanks
strtok-end [] h = absurd (omega arith)
strtok-end (c ∷ cs) h = ground (arith, cut_token-end (c ∷ cs) h.1)

strtok-space : (t rest : Str) → IsToken t → strtok (t ++ b' ' ∷ rest) ≡ some (t, rest)
unfolding strtok skip_blanks
strtok-space [] rest h = absurd (omega arith)
strtok-space (c ∷ cs) rest h = ground (arith, cut_token-space (c ∷ cs) rest h.1)

strtok-nil : strtok [] ≡ none
unfolding strtok skip_blanks
strtok-nil = refl

tokenize_loop-spaced :
    (toks : List Str) (f room : ℕ)
    → length toks < f
    → length toks ≤ room
    → All IsToken toks
    → tokenize_loop f (spaced toks) room ≡ some toks
unfolding tokenize_loop take_token
tokenize_loop-spaced toks zero room h k a = absurd (omega arith)
tokenize_loop-spaced [] (suc f) room h k a = ground (arith, strtok-nil)
tokenize_loop-spaced (t ∷ ts) (suc f) zero h k a = absurd (omega arith)
tokenize_loop-spaced (t ∷ []) (suc f) (suc r) h k a =
    ground (arith, strtok-end t a.0, tokenize_loop-spaced [] f r)
tokenize_loop-spaced (t ∷ u ∷ ts) (suc f) (suc r) h k a = ground (
  arith,
  strtok-space t (spaced (u ∷ ts)) a.0,
  tokenize_loop-spaced (u ∷ ts) f r (omega arith) (omega arith) a.1,
)

pub length-spaced :
    (toks : List Str) → All IsToken toks → 2 * length toks ≤ length (spaced toks) + 1
length-spaced [] a = omega arith
length-spaced (t ∷ []) a = omega arith
length-spaced (t ∷ u ∷ ts) a =
    omega (arith, length-append t (b' ' ∷ spaced (u ∷ ts)), length-spaced (u ∷ ts) a.1)

-- Tokens written with one space between them are read back.
pub tokenize-spaced :
    (toks : List Str) (max : ℕ)
    → All IsToken toks
    → length toks ≤ max
    → tokenize (spaced toks) max ≡ some toks
unfolding tokenize
tokenize-spaced toks max a h =
    tokenize_loop-spaced toks (suc (length (spaced toks))) max (omega (arith, length-spaced toks a))
      h a
