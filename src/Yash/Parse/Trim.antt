-- ===== src/Yash/Parse/Trim.antt =====
-- The job line that `parse_line` in Project 1/yash/src/parse.c keeps for a background job.
use system_prog.Base.{
  ◌≡◌, refl, ap, true, false, [], ◌∷◌, ◌++◌, arith, Str, All, Bool-cases, inl, inr, if◌then◌else◌,
  ℕ,
}
use system_prog.Yash.Parse.{is_trailing, trim}

abbrev pub IsTrailing : Str → Type 0
IsTrailing = All (λ c. is_trailing c ≡ true)

-- A text that is empty, or whose last byte stays.
abbrev pub EndsPlain : Str → Type 0
EndsPlain [] = Unit
EndsPlain (c ∷ []) = is_trailing c ≡ false
EndsPlain (c ∷ d ∷ ds) = EndsPlain (d ∷ ds)

abbrev Trimmed : Str → Str → Type 0
Trimmed text out = (tail : Str) × (text ≡ out ++ tail) × IsTrailing tail × EndsPlain out

abbrev keep_head : ℕ → Str → Str
keep_head c [] = if is_trailing c then [] else c ∷ []
keep_head c (d ∷ ds) = c ∷ d ∷ ds

trim-cons : (c : ℕ) (cs : Str) → trim (c ∷ cs) ≡ keep_head c (trim cs)
unfolding trim
trim-cons c cs = ground arith

keep_head-Trimmed : (c : ℕ) (cs out : Str) → Trimmed cs out → Trimmed (c ∷ cs) (keep_head c out)
keep_head-Trimmed c cs [] h = elim (Bool-cases (is_trailing c)) [
  | inl t ↦ rw t (c ∷ h.0, ap (◌∷◌ c) h.1, (t, h.2), tt)
  | inr f ↦ rw f (h.0, ap (◌∷◌ c) h.1, h.2, f)
]
keep_head-Trimmed c cs (d ∷ ds) h = (h.0, ap (◌∷◌ c) h.1, h.2, h.3)

-- The kept line is the text without its longest ending of blanks and ampersands: what is cut off
-- holds nothing else, and what is left does not end in one.
pub trim_lem :
    (text : Str)
    → (tail : Str) × (text ≡ trim text ++ tail) × IsTrailing tail × EndsPlain (trim text)
unfolding trim
trim_lem [] = ([], refl, tt, tt)
trim_lem (c ∷ cs) = rw (trim-cons c cs) (keep_head-Trimmed c cs (trim cs) (trim_lem cs))

trim-trailing : (tail : Str) → IsTrailing tail → trim tail ≡ []
unfolding trim
trim-trailing [] h = refl
trim-trailing (c ∷ cs) h = ground (arith, trim-trailing cs h.1)

-- Every ampersand at the end of the text is cut off, also one that ends an argument.
pub trim-append : (text tail : Str) → IsTrailing tail → trim (text ++ tail) ≡ trim text
unfolding trim
trim-append [] tail h = trim-trailing tail h
trim-append (c ∷ cs) tail h = ground (arith, trim-append cs tail h)
