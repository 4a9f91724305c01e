-- ===== src/Pintos/Strings/Delimiters.antt =====
-- strchr and the two loops of strtok_r of Project_3/lib/string.c on strings in the memory.
use system_prog.Base.{
  ℕ, zero, suc, ◌+◌, ◌%◌, ◌≤◌, ◌<◌, ◌≡◌, ◌≢◌, refl, ap, sym, subst, ◌∙◌, ◌⊎◌, inl, inr, true, false,
  none, some, ◌>>=◌, ◌==◌, ==-false, Bool-cases, arith, ℕ_discrete,
}
use system_prog.Pintos.Strings.{Memory, strchr}
use system_prog.Pintos.Strings.Copying.{IsString}
use system_prog.Pintos.Strings.Tokens.{skip_delimiters, skip_token}

-- The bytes of the memory are bytes.
abbrev pub IsBytes : Memory → Type 0
IsBytes m = (x : ℕ) → m x < 256

-- A string without its first byte.
IsString-suc : (m : Memory) (p n : ℕ) → IsString m p (suc n) → IsString m (suc p) n
IsString-suc m p n s =
    let next : (i : ℕ) → p + suc i ≡ suc p + i = λ i. omega arith in
    record {
      bytes = λ i h q. s.bytes (suc i) (omega (arith, h)) (ap m (next i) ∙ q);
      ended = ap m (sym (next n)) ∙ s.ended;
    }

IsString-first : (m : Memory) (p n : ℕ) → IsString m p (suc n) → m p ≢ 0
IsString-first m p n s q =
    let first : p + 0 ≡ p = omega arith in s.bytes 0 (omega arith) (ap m first ∙ q)

IsString-none : (m : Memory) (p : ℕ) → IsString m p 0 → m p ≡ 0
IsString-none m p s = let first : p ≡ p + 0 = omega arith in ap m first ∙ s.ended

-- The byte is one of the string's, or the NUL behind it.
abbrev pub IsDelimiter : Memory → ℕ → ℕ → ℕ → Type 0
IsDelimiter m p n c = (c ≡ 0) ⊎ ((i : ℕ) × (i < n) × (m (p + i) ≡ c))

IsDelimiter-suc : (m : Memory) (p n c : ℕ) → IsDelimiter m (suc p) n c → IsDelimiter m p (suc n) c
IsDelimiter-suc m p n c (inl z) = inl z
IsDelimiter-suc m p n c (inr (i, l, q)) =
    let next : p + suc i ≡ suc p + i = omega arith in inr (suc i, omega arith, ap m next ∙ q)

IsDelimiter-rest :
    (m : Memory) (p n c : ℕ) → m p ≢ c → IsDelimiter m p (suc n) c → IsDelimiter m (suc p) n c
IsDelimiter-rest m p n c h (inl z) = inl z
IsDelimiter-rest m p n c h (inr (zero, l, q)) =
    let first : p ≡ p + 0 = omega arith in absurd (h (ap m first ∙ q))
IsDelimiter-rest m p n c h (inr (suc i, l, q)) =
    let next : suc p + i ≡ p + suc i = omega arith in inr (i, omega arith, ap m next ∙ q)

-- What strchr says of a byte.
abbrev Verdict : ℕ → ℕ → ℕ → ℕ → Memory → Type 0
Verdict fuel p n c m =
    ((x : ℕ) × (strchr fuel p c m ≡ some (some x)) × IsDelimiter m p n c)
    ⊎ ((strchr fuel p c m ≡ some none) × (IsDelimiter m p n c → ⊥))

strchr_lem :
    (fuel p n c : ℕ) (m : Memory) → IsString m p n → n < fuel → c < 256 → Verdict fuel p n c m
unfolding strchr
strchr_lem zero p n c m s f b = absurd (omega arith)
strchr_lem (suc fuel) p zero c m s f b =
    let z = IsString-none m p s in
    elim (Bool-cases (m p == c % 256)) [
      | inl e ↦ inl (p, rw (e, strchr) refl, inl (ground (arith, e, z, b)))
      | inr e ↦ inr (
        rw (e, ap (λ v. v == 0) z, strchr) refl,
        λ q. elim q [ inl k ↦ ground (arith, e, z, k) | inr (i, l, k) ↦ omega (arith, l) ],
      )
    ]
strchr_lem (suc fuel) p (suc n) c m s f b = elim (Bool-cases (m p == c % 256)) [
  | inl e ↦
      let first : p + 0 ≡ p = omega arith in
      let same : m p ≡ c = ground (arith, e, b) in
      inl (p, rw (e, strchr) refl, inr (0, omega arith, ap m first ∙ same))
  | inr e ↦
      let other : m p ≢ c = λ q. ground (arith, e, b, q) in
      let z = ==-false (m p) 0 (IsString-first m p n s) in
      elim (strchr_lem fuel (suc p) n c m (IsString-suc m p n s) (omega arith) b) [
        | inl (x, r, d) ↦ inl (x, rw (e, z, strchr) r, IsDelimiter-suc m p n c d)
        | inr (r, d) ↦ inr (rw (e, z, strchr) r, λ q. d (IsDelimiter-rest m p n c other q))
      ]
]

-- The delimiters are a string of `k` bytes, and strchr has fuel for it.
module _ (m : Memory) (d k n : ℕ) (b : IsBytes m) (t : IsString m d k) (g : k < n) where
  pub skip_delimiters_lem :
      (fuel p len : ℕ)
      → IsString m p len
      → len < fuel
      → (e : ℕ) × (p ≤ e)
        × (e ≤ p + len)
        × ((x : ℕ) → p ≤ x → x < e → IsDelimiter m d k (m x))
        × (((skip_delimiters n fuel p d m ≡ some (e, true)) × (e ≡ p + len))
            ⊎ ((skip_delimiters n fuel p d m ≡ some (e, false)) × (IsDelimiter m d k (m e) → ⊥)))
  unfolding skip_delimiters
  skip_delimiters_lem zero p len s f = absurd (omega arith)
  skip_delimiters_lem (suc fuel) p zero s f =
      let z = IsString-none m p s in
      elim (strchr_lem n d k (m p) m t g (b p)) [
        | inl (x, r, q) ↦ (
          p,
          omega arith,
          omega arith,
          (λ y u v. absurd (omega (arith, u, v))),
          inl (rw (r, ap (λ v. v == 0) z, skip_delimiters, ◌>>=◌) refl, omega arith),
        )
        | inr (r, q) ↦ absurd (q (inl z))
      ]
  skip_delimiters_lem (suc fuel) p (suc len) s f =
      let z = ==-false (m p) 0 (IsString-first m p len s) in
      elim (strchr_lem n d k (m p) m t g (b p)) [
        | inl (x, r, q) ↦
            let (e, l1, l2, h, w) =
              skip_delimiters_lem fuel (suc p) len (IsString-suc m p len s) (omega arith) in
            (
              e,
              omega (arith, l1),
              omega (arith, l2),
              (λ y u v. elim (ℕ_discrete y p) [
                | yes c ↦ subst (λ i. IsDelimiter m d k (m i)) (sym c) q
                | no c ↦ h y (omega (arith, c, u)) v
              ]),
              elim w [
                | inl (a, c) ↦ inl (rw (r, z, skip_delimiters, ◌>>=◌) a, omega (arith, c))
                | inr (a, c) ↦ inr (rw (r, z, skip_delimiters, ◌>>=◌) a, c)
              ],
            )
        | inr (r, q) ↦ (
          p,
          omega arith,
          omega arith,
          (λ y u v. absurd (omega (arith, u, v))),
          inr (rw (r, skip_delimiters, ◌>>=◌) refl, q),
        )
      ]

  pub skip_token_lem :
      (fuel p len : ℕ)
      → IsString m p len
      → len < fuel
      → (e : ℕ) × (p ≤ e)
        × (e ≤ p + len)
        × ((x : ℕ) → p ≤ x → x < e → IsDelimiter m d k (m x) → ⊥)
        × (skip_token n fuel p d m ≡ some e)
        × IsDelimiter m d k (m e)
  unfolding skip_token
  skip_token_lem zero p len s f = absurd (omega arith)
  skip_token_lem (suc fuel) p zero s f = elim (strchr_lem n d k (m p) m t g (b p)) [
    | inl (x, r, q) ↦ (
      p,
      omega arith,
      omega arith,
      (λ y u v. absurd (omega (arith, u, v))),
      rw (r, skip_token, ◌>>=◌) refl,
      q,
    )
    | inr (r, q) ↦ absurd (q (inl (IsString-none m p s)))
  ]
  skip_token_lem (suc fuel) p (suc len) s f = elim (strchr_lem n d k (m p) m t g (b p)) [
    | inl (x, r, q) ↦ (
      p,
      omega arith,
      omega arith,
      (λ y u v. absurd (omega (arith, u, v))),
      rw (r, skip_token, ◌>>=◌) refl,
      q,
    )
    | inr (r, q) ↦
        let (e, l1, l2, h, a, w) =
          skip_token_lem fuel (suc p) len (IsString-suc m p len s) (omega arith) in
        (
          e,
          omega (arith, l1),
          omega (arith, l2),
          (λ y u v. elim (ℕ_discrete y p) [
            | yes c ↦ λ i. q (subst (λ j. IsDelimiter m d k (m j)) c i)
            | no c ↦ h y (omega (arith, c, u)) v
          ]),
          rw (r, skip_token, ◌>>=◌) a,
          w,
        )
  ]
