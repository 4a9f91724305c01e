-- ===== src/Pintos/Strings/Tests.antt =====
-- Tests of Project_3/lib/string.c, and its theorems at concrete inputs.
use system_prog.Base.{
  ℕ, ◌+◌, ◌≡◌, ◌≢◌, ◌<◌, ◌≤◌, zero, suc, refl, Option, none, some, List, [], ◌∷◌, arith, get_or,
  update, update_self, update_ne, ℕ_discrete, subst, sym, ◌⊎◌,
}
use system_prog.Pintos.Stdlib.{negative, positive}
use system_prog.Pintos.Strings.{
  Memory, memcpy, memmove, copy_up, copy_down, memset, memcmp, memchr, strlen, strnlen, strcmp,
  strchr, strrchr, strlcat,
}
use system_prog.Pintos.Strings.Moving.{Moves, memmove-Moves}
use system_prog.Pintos.Strings.Copying.{IsString}
use system_prog.Pintos.Strings.Tokens.{
  strtok_r, skip_delimiters, skip_token, strstr, strstr_loop, strspn, strcspn, strpbrk,
}
use system_prog.Pintos.Strings.Delimiters.{IsBytes, IsDelimiter}
use system_prog.Pintos.Strings.Splitting.{IsSplit, strtok_r_lem}

-- "abc" at 0 and "xy" at 6.
abbrev bytes : Memory
bytes i = get_or (97 ∷ 98 ∷ 99 ∷ 0 ∷ 5 ∷ 5 ∷ 120 ∷ 121 ∷ 0 ∷ 0 ∷ []) i 7

abbrev first_ten : Memory → List ℕ
first_ten m = m 0 ∷ m 1 ∷ m 2 ∷ m 3 ∷ m 4 ∷ m 5 ∷ m 6 ∷ m 7 ∷ m 8 ∷ m 9 ∷ []

abbrev result : Option (ℕ × Memory) → List ℕ
result none = []
result (some r) = r.0 ∷ first_ten r.1

-- The end of a string is not found by strrchr, and is by strchr.
strrchr_test : strrchr 5 0 0 none bytes ≡ some none
unfolding strrchr
strrchr_test = refl

strchr_test : strchr 5 0 0 bytes ≡ some (some 3)
unfolding strchr
strchr_test = refl

strcmp_test : strcmp 5 0 6 bytes ≡ some negative
unfolding strcmp
strcmp_test = refl

memcmp_test : memcmp 6 0 2 bytes ≡ positive
unfolding memcmp
memcmp_test = refl

memchr_test : memchr 0 5 9 bytes ≡ some 4
unfolding memchr
memchr_test = refl

strnlen_test : strnlen 0 2 bytes ≡ 2
unfolding strnlen
strnlen_test = refl

memset_test : first_ten (memset 1 9 2 bytes) ≡ 97 ∷ 9 ∷ 9 ∷ 0 ∷ 5 ∷ 5 ∷ 120 ∷ 121 ∷ 0 ∷ 0 ∷ []
unfolding memset
memset_test = refl

memmove_test :
    first_ten (memmove 1 0 3 bytes).1 ≡ 97 ∷ 97 ∷ 98 ∷ 99 ∷ 5 ∷ 5 ∷ 120 ∷ 121 ∷ 0 ∷ 0 ∷ []
unfolding memmove copy_down copy_up
memmove_test = refl

strlcat_test :
    result (strlcat 6 0 6 5 bytes) ≡ 5 ∷ 97 ∷ 98 ∷ 99 ∷ 120 ∷ 0 ∷ 5 ∷ 120 ∷ 121 ∷ 0 ∷ 0 ∷ []
unfolding strlcat strlen memcpy copy_up
strlcat_test = refl

memmove-Moves_example :
    Moves 1 0 3 bytes (memmove 1 0 3 bytes).1
    × (0 ≤ 1 → (memmove 1 0 3 bytes).0 ≡ 1)
    × (1 < 0 → (memmove 1 0 3 bytes).0 ≡ 1 + 3)
memmove-Moves_example = memmove-Moves 1 0 3 bytes

-- " ab c" at 0 and " " at 8.
abbrev line : Memory
line = update 0 32 (update 1 97 (update 2 98 (update 3 32 (update 4 99 (update 8 32 (λ _. 0))))))

update-IsBytes : (a v : ℕ) (m : Memory) → v < 256 → IsBytes m → IsBytes (update a v m)
update-IsBytes a v m h k x = elim (ℕ_discrete a x) [
  | yes e ↦ subst (λ z. update a v m z < 256) e (subst (λ z. z < 256) (sym (update_self a v m)) h)
  | no e ↦ subst (λ z. z < 256) (sym (update_ne a v m x e)) (k x)
]

line-IsBytes : IsBytes line
line-IsBytes = update-IsBytes 0 32 _ (omega arith) (
    update-IsBytes 1 97 _ (omega arith) (
      update-IsBytes 2 98 _ (omega arith) (
        update-IsBytes 3 32 _ (omega arith) (
          update-IsBytes 4 99 _ (omega arith)
            (update-IsBytes 8 32 _ (omega arith) (λ x. omega arith))))))

line-bytes : (i : ℕ) → i < 5 → line (0 + i) ≢ 0
line-bytes zero l e = omega (arith, e)
line-bytes (suc zero) l e = omega (arith, e)
line-bytes (suc (suc zero)) l e = omega (arith, e)
line-bytes (suc (suc (suc zero))) l e = omega (arith, e)
line-bytes (suc (suc (suc (suc zero)))) l e = omega (arith, e)
line-bytes (suc (suc (suc (suc (suc i))))) l e = omega (arith, l)

line-IsString : IsString line 0 5
line-IsString = record { bytes = line-bytes; ended = refl }

blank-bytes : (i : ℕ) → i < 1 → line (8 + i) ≢ 0
blank-bytes zero l e = omega (arith, e)
blank-bytes (suc i) l e = omega (arith, l)

blank-IsString : IsString line 8 1
blank-IsString = record { bytes = blank-bytes; ended = refl }

abbrev token : Option (Option ℕ × ℕ × Memory) → List ℕ
token (some (some p, save_ptr, m)) = p ∷ save_ptr ∷ m 3 ∷ []
token _ = []

strtok_r_test : token (strtok_r 2 6 (some 0) 8 0 line) ≡ 1 ∷ 4 ∷ 0 ∷ []
unfolding strtok_r skip_delimiters skip_token strchr
strtok_r_test = refl

strstr_test : strstr 6 0 8 line ≡ some (some 0)
unfolding strstr strstr_loop strlen memcmp
strstr_test = refl

strcspn_test : strcspn 2 6 1 8 line ≡ some 2
unfolding strcspn strchr
strcspn_test = refl

strspn_test : strspn 2 6 0 8 line ≡ some 1
unfolding strspn strchr
strspn_test = refl

strpbrk_test : strpbrk 2 6 1 8 line ≡ some (some 3)
unfolding strpbrk strchr
strpbrk_test = refl

strtok_r_lem_example :
    ((strtok_r 2 6 (some 0) 8 0 line ≡ some (none, 0 + 5, line))
      × ((x : ℕ) → 0 ≤ x → x < 0 + 5 → IsDelimiter line 8 1 (line x)))
    ⊎ ((first last save : ℕ) × (m' : Memory) × (strtok_r 2 6 (some 0) 8 0 line
          ≡ some (some first, save, m'))
        × IsSplit line m' 8 1 0 5 first last save)
strtok_r_lem_example =
    strtok_r_lem line 8 1 2 6 (some 0) 0 5 line-IsBytes blank-IsString (omega arith) line-IsString
      (omega arith)
