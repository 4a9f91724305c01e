-- ===== src/Pintos/Strings/Splitting.antt =====
-- strtok_r of Project_3/lib/string.c.
use system_prog.Base.{
  ℕ, suc, ◌+◌, ◌-◌, ◌≤◌, ◌<◌, ◌≡◌, ◌≢◌, refl, ap, sym, subst, ◌∙◌, ◌⊎◌, inl, inr, Option, none,
  some, ◌>>=◌, ==-false, arith, update, update_self, update_ne, ℕ_discrete,
}
use system_prog.Pintos.Strings.{Memory}
use system_prog.Pintos.Strings.Copying.{IsString}
use system_prog.Pintos.Strings.Tokens.{start_of, strtok_r}
use system_prog.Pintos.Strings.Delimiters.{
  IsBytes, IsDelimiter, skip_delimiters_lem, skip_token_lem,
}

-- The rest of a string is a string.
IsString-from :
    (m : Memory) (p n e : ℕ) → IsString m p n → p ≤ e → e ≤ p + n → IsString m e (p + n - e)
IsString-from m p n e s l r =
    let shift : (i : ℕ) → p + (e - p + i) ≡ e + i = λ i. omega (arith, l) in
    let whole : e + (p + n - e) ≡ p + n = omega (arith, l, r) in
    record {
      bytes = λ i h q. s.bytes (e - p + i) (omega (arith, l, r, h)) (ap m (shift i) ∙ q);
      ended = ap m whole ∙ s.ended;
    }

-- The string of `n` bytes at `p` has been split: the delimiters up to `first` are skipped, the token
-- ends at `last`, where there is now a NUL, and `save` is where the string goes on.
pub record IsSplit (m m' : Memory) (d k p n first last save : ℕ) : Type 0 where
  pub begun : p ≤ first
  pub not_empty : first < last
  pub inside : last ≤ p + n
  pub skipped : (x : ℕ) → p ≤ x → x < first → IsDelimiter m d k (m x)
  pub kept : (x : ℕ) → first ≤ x → x < last → IsDelimiter m d k (m x) → ⊥
  pub token : IsString m' first (last - first)
  pub rest : IsString m' save (p + n - save)
  pub ended :
      ((last ≡ p + n) × (save ≡ last) × (m' ≡ m))
      ⊎ ((last < p + n) × IsDelimiter m d k (m last) × (save ≡ suc last) × (m' ≡ update last 0 m))

-- A byte of the token is no NUL.
token-IsString :
    (m : Memory) (d k first last : ℕ)
    → ((x : ℕ) → first ≤ x → x < last → IsDelimiter m d k (m x) → ⊥)
    → first ≤ last
    → IsString (update last 0 m) first (last - first)
token-IsString m d k first last h l =
    let whole : first + (last - first) ≡ last = omega (arith, l) in
    record {
      bytes = λ i f q.
          h (first + i) (omega arith) (omega (arith, f, l))
            (inl (sym (update_ne last 0 m (first + i) (λ z. omega (arith, z, f, l))) ∙ q));
      ended = ap (update last 0 m) whole ∙ update_self last 0 m;
    }

-- What is behind the NUL is as before.
behind-IsString : (m : Memory) (e v p n : ℕ) → e < p → IsString m p n → IsString (update e v m) p n
behind-IsString m e v p n l s = record {
  bytes = λ i h q. s.bytes i h (sym (update_ne e v m (p + i) (λ z. omega (arith, z, l))) ∙ q);
  ended = update_ne e v m (p + n) (λ z. omega (arith, z, l)) ∙ s.ended;
}

-- The end of the token is the end of the string exactly if there is a NUL.
end-IsString : (m : Memory) (p n e : ℕ) → IsString m p n → p ≤ e → e ≤ p + n → m e ≡ 0 → e ≡ p + n
end-IsString m p n e s l r z = elim (ℕ_discrete e (p + n)) [
  | yes q ↦ q
  | no q ↦
      let place : p + (e - p) ≡ e = omega (arith, l) in
      absurd (s.bytes (e - p) (omega (arith, l, r, q)) (ap m place ∙ z))
]

-- At the end of the string nothing is written.
last-IsSplit :
    (m : Memory) (d k p n first last : ℕ)
    → IsString m p n
    → p ≤ first
    → first < last
    → last ≤ p + n
    → ((x : ℕ) → p ≤ x → x < first → IsDelimiter m d k (m x))
    → ((x : ℕ) → first ≤ x → x < last → IsDelimiter m d k (m x) → ⊥)
    → m last ≡ 0
    → IsSplit m m d k p n first last last
last-IsSplit m d k p n first last s b l i h f z =
    let e = end-IsString m p n last s (omega arith) i z in
    record {
      begun = b;
      not_empty = l;
      inside = i;
      skipped = h;
      kept = f;
      token =
          subst (λ x. IsString m first (x - first)) (sym e)
            (IsString-from m p n first s b (omega arith));
      rest = IsString-from m p n last s (omega arith) i;
      ended = inl (e, refl, refl);
    }

inner-IsSplit :
    (m : Memory) (d k p n first last : ℕ)
    → IsString m p n
    → p ≤ first
    → first < last
    → last ≤ p + n
    → ((x : ℕ) → p ≤ x → x < first → IsDelimiter m d k (m x))
    → ((x : ℕ) → first ≤ x → x < last → IsDelimiter m d k (m x) → ⊥)
    → IsDelimiter m d k (m last)
    → m last ≢ 0
    → IsSplit m (update last 0 m) d k p n first last (suc last)
inner-IsSplit m d k p n first last s b l i h f q z =
    let whole : last ≢ p + n = λ e. z (ap m e ∙ s.ended) in
    record {
      begun = b;
      not_empty = l;
      inside = i;
      skipped = h;
      kept = f;
      token = token-IsString m d k first last f (omega arith);
      rest =
          behind-IsString m last 0 (suc last) (p + n - suc last) (omega arith)
            (IsString-from m p n (suc last) s (omega arith) (omega (arith, i, whole)));
      ended = inr (omega (arith, i, whole), q, refl, refl);
    }

-- strtok_r, from the string or from the saved place, gives null and saves the string's end if the
-- rest has only delimiters. Else it gives the first byte that is none: the token reaches to the next
-- delimiter or to the end and is a string of its own, which is not empty, and the saved place begins
-- the rest of the string behind it. A NUL in the delimiter's place is all that is written. One more
-- than the string's bytes and the delimiters' bytes is enough fuel.
pub strtok_r_lem :
    (m : Memory) (d k n fuel : ℕ) (s : Option ℕ) (save_ptr len : ℕ)
    → IsBytes m
    → IsString m d k
    → k < n
    → IsString m (start_of s save_ptr) len
    → len < fuel
    → ((strtok_r n fuel s d save_ptr m ≡ some (none, start_of s save_ptr + len, m))
        × ((x : ℕ)
            → start_of s save_ptr ≤ x
            → x < start_of s save_ptr + len
            → IsDelimiter m d k (m x)))
      ⊎ ((first last save : ℕ) × (m' : Memory) × (strtok_r n fuel s d save_ptr m
            ≡ some (some first, save, m'))
          × IsSplit m m' d k (start_of s save_ptr) len first last save)
unfolding strtok_r
strtok_r_lem m d k n fuel s save_ptr len b t g str f =
    let p = start_of s save_ptr in
    let (e, l1, l2, h, w) = skip_delimiters_lem m d k n b t g fuel p len str f in
    elim w [
      | inl (a, c) ↦ inl (
        rw (a, ◌>>=◌) (ap (λ z. some (none, z, m)) c),
        λ x u v. h x u (subst (λ z. x < z) (sym c) v),
      )
      | inr (a, other) ↦
          let (last, k1, k2, hk, a2, dl) =
            skip_token_lem m d k n b t g fuel e (p + len - e) (IsString-from m p len e str l1 l2)
              (omega (arith, l1, f)) in
          let some_bytes : e ≢ last =
            λ z. other (subst (λ x. IsDelimiter m d k (m x)) (sym z) dl) in
          let l : e < last = omega (arith, k1, some_bytes) in
          let i : last ≤ p + len = omega (arith, k2, l2) in
          inr (elim (ℕ_discrete (m last) 0) [
            | yes z ↦ (
              e,
              last,
              last,
              m,
              rw (a, a2, z, ◌>>=◌) refl,
              last-IsSplit m d k p len e last str l1 l i h hk z,
            )
            | no z ↦ (
              e,
              last,
              suc last,
              update last 0 m,
              rw (a, a2, ==-false (m last) 0 z, ◌>>=◌) refl,
              inner-IsSplit m d k p len e last str l1 l i h hk dl z,
            )
          ])
    ]
