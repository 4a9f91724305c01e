-- ===== src/Pintos/Strings/Copying.antt =====
-- strlen, strlcpy and strlcat of Project_3/lib/string.c on strings in the memory.
use system_prog.Base.{
  ℕ, zero, suc, ◌+◌, ◌-◌, ◌≤◌, ◌<◌, ◌≡◌, ◌≢◌, refl, ap, sym, ◌∙◌, ◌⊎◌, inl, inr, some, ltb,
  ==-false, Bool-cases, if◌then◌else◌, arith, update, update_self, update_ne, ◌&&◌,
}
use system_prog.Pintos.Strings.{Memory, memcpy, copy_up, strlen, strlcpy, strlcat}
use system_prog.Pintos.Strings.Moving.{copy_up-Moves}

-- A string of `n` bytes begins at the address.
pub record IsString (m : Memory) (p n : ℕ) : Type 0 where
  pub bytes : (i : ℕ) → i < n → m (p + i) ≢ 0
  pub ended : m (p + n) ≡ 0

pub strlen_lem : (fuel p n : ℕ) (m : Memory) → IsString m p n → n < fuel → strlen fuel p m ≡ some n
unfolding strlen
strlen_lem zero p n m s l = absurd (omega arith)
strlen_lem (suc fuel) p zero m s l =
    let e : p ≡ p + 0 = omega arith in rw (ap m e ∙ s.ended, strlen) refl
strlen_lem (suc fuel) p (suc n) m s l =
    let first : p + 0 ≡ p = omega arith in
    let next : (i : ℕ) → p + suc i ≡ suc p + i = λ i. omega arith in
    let e = ==-false (m p) 0 (λ q. s.bytes 0 (omega arith) (ap m first ∙ q)) in
    let r =
      strlen_lem fuel (suc p) n m
        (record {
          bytes = λ i h q. s.bytes (suc i) (omega (arith, h)) (ap m (next i) ∙ q);
          ended = ap m (sym (next n)) ∙ s.ended;
        })
        (omega arith) in
    rw (e, r, strlen) refl

-- `m'` has the first `k` bytes of the string `src` at `dst`, then a NUL; every other byte is as
-- in `m`.
pub record Copies (dst src k : ℕ) (m m' : Memory) : Type 0 where
  pub copied : (i : ℕ) → i < k → m' (dst + i) ≡ m (src + i)
  pub closed : m' (dst + k) ≡ 0
  pub kept : (x : ℕ) → (x < dst) ⊎ (dst + k < x) → m' x ≡ m x

copy-Copies :
    (dst src k : ℕ) (m : Memory)
    → (dst ≤ src) ⊎ (src + k ≤ dst)
    → Copies dst src k m (update (dst + k) 0 (memcpy dst src k m).1)
unfolding memcpy
copy-Copies dst src k m h =
    let r = copy_up-Moves dst src k m h in
    let m1 = copy_up dst src k m in
    record {
      copied = λ i l. update_ne (dst + k) 0 m1 (dst + i) (λ q. omega (arith, l)) ∙ r.moved i l;
      closed = update_self (dst + k) 0 m1;
      kept = λ x l.
          update_ne (dst + k) 0 m1 x
            (λ q. elim l [ inl z ↦ omega (arith, z) | inr z ↦ omega (arith, z) ])
          ∙ r.kept x (elim l [ inl z ↦ inl z | inr z ↦ inr (omega (arith, z)) ]);
    }

-- How many of `n` bytes there is room for.
unfoldable pub fitting : ℕ → ℕ → ℕ
fitting n room = if ltb n room then n else room

fitting_le : (n room : ℕ) → fitting n room ≤ n
unfolding fitting
fitting_le n room = elim (Bool-cases (ltb n room)) [
  | inl e ↦ rw e (omega arith)
  | inr e ↦ rw e (ground (arith, e))
]

-- For a string of `n` bytes and a buffer of `size` bytes, strlcpy returns `n` and leaves in the buffer
-- the string's first bytes, all of them if `n` is less than `size` and else `size - 1`, with a NUL
-- behind them; it changes nothing else. The string may overlap the buffer unless it begins before
-- the buffer. With a `size` of 0 nothing is written.
pub strlcpy_lem :
    (fuel dst src size n : ℕ) (m : Memory)
    → IsString m src n
    → n < fuel
    → (dst ≤ src) ⊎ (src + n ≤ dst)
    → (m' : Memory) × (strlcpy fuel dst src size m ≡ some (n, m'))
      × (0 < size → Copies dst src (fitting n (size - 1)) m m')
      × (size ≡ 0 → m' ≡ m)
unfolding strlcpy fitting
strlcpy_lem fuel dst src size n m s l h =
    let k = fitting n (size - 1) in
    let c =
      copy-Copies dst src k m
        (elim h [ inl z ↦ inl z | inr z ↦ inr (omega (arith, z, fitting_le n (size - 1))) ]) in
    elim (Bool-cases (ltb 0 size)) [
      | inl e ↦ (
        update (dst + k) 0 (memcpy dst src k m).1,
        rw (strlen_lem fuel src n m s l, e) refl,
        (λ z. c),
        λ z. absurd (ground (arith, e, z)),
      )
      | inr e ↦ (
        m,
        rw (strlen_lem fuel src n m s l, e) refl,
        (λ z. absurd (ground (arith, e, z))),
        λ z. refl,
      )
    ]

-- For a string of `n` bytes and a buffer of `size` bytes that holds a string of `d`, strlcat returns
-- `n + d` and puts behind the buffer's string the first bytes of the other, as many as leave
-- room for a NUL, and the NUL; it changes nothing else. If the buffer's string does not end
-- within `size` bytes nothing is written.
pub strlcat_lem :
    (fuel dst src size n d : ℕ) (m : Memory)
    → IsString m src n
    → IsString m dst d
    → n + d < fuel
    → (dst + d ≤ src) ⊎ (src + n ≤ dst + d)
    → (m' : Memory) × (strlcat fuel dst src size m ≡ some (n + d, m'))
      × (d < size → Copies (dst + d) src (fitting n (size - d - 1)) m m')
      × (size ≤ d → m' ≡ m)
unfolding strlcat fitting
strlcat_lem fuel dst src size n d m s t l h =
    let k = fitting n (size - d - 1) in
    let c =
      copy-Copies (dst + d) src k m
        (elim h [ inl z ↦ inl z | inr z ↦ inr (omega (arith, z, fitting_le n (size - d - 1))) ]) in
    let a = strlen_lem fuel src n m s (omega (arith, l)) in
    let b = strlen_lem fuel dst d m t (omega (arith, l)) in
    elim (Bool-cases (ltb 0 size && ltb d size)) [
      | inl e ↦ (
        update (dst + d + k) 0 (memcpy (dst + d) src k m).1,
        rw (a, b, e) refl,
        (λ z. c),
        λ z. absurd (ground (arith, e, z)),
      )
      | inr e ↦ (m, rw (a, b, e) refl, (λ z. absurd (ground (arith, e, z))), λ z. refl)
    ]
