-- ===== src/Pintos/Strings/Moving.antt =====
-- memcpy and memmove of Project_3/lib/string.c on the memory.
use system_prog.Base.{
  ℕ, zero, suc, ◌+◌, ◌-◌, ◌≤◌, ◌<◌, ◌≡◌, refl, ap, sym, ◌∙◌, ◌⊎◌, inl, inr, arith, ltb, Bool-cases,
  ℕ_discrete, update, update_self, update_ne,
}
use system_prog.Pintos.Strings.{Memory, copy_up, copy_down, memmove}

-- The bytes of the source are at the destination, and every other byte is as before.
pub record Moves (dst src size : ℕ) (m m' : Memory) : Type 0 where
  pub moved : (i : ℕ) → i < size → m' (dst + i) ≡ m (src + i)
  pub kept : (x : ℕ) → (x < dst) ⊎ (dst + size ≤ x) → m' x ≡ m x

-- From the first byte on the copy is right if the source does not begin before the destination and
-- reach into it.
pub copy_up-Moves :
    (dst src size : ℕ) (m : Memory)
    → (dst ≤ src) ⊎ (src + size ≤ dst)
    → Moves dst src size m (copy_up dst src size m)
unfolding copy_up
copy_up-Moves dst src zero m h = record { moved = λ i l. absurd (omega arith); kept = λ x l. refl }
copy_up-Moves dst src (suc n) m h =
    let m1 = update dst (m src) m in
    let r =
      copy_up-Moves (suc dst) (suc src) n m1
        (elim h [ inl e ↦ inl (omega arith) | inr e ↦ inr (omega arith) ]) in
    record {
      moved = λ i l. elim (ℕ_discrete i 0) [
        | yes e ↦
            ap (λ z. copy_up (suc dst) (suc src) n m1 (dst + z)) e
            ∙ ap (copy_up (suc dst) (suc src) n m1) (omega arith)
            ∙ r.kept dst (inl (omega arith))
            ∙ update_self dst (m src) m
            ∙ ap m (omega (arith, e))
        | no e ↦
            ap (copy_up (suc dst) (suc src) n m1) (omega (arith, e))
            ∙ r.moved (i - 1) (omega (arith, e))
            ∙ update_ne dst (m src) m (suc src + (i - 1))
                (λ q. elim h [ inl z ↦ omega (arith, e) | inr z ↦ omega (arith, e) ])
            ∙ ap m (omega (arith, e))
      ];
      kept = λ x l.
          r.kept x (elim l [ inl z ↦ inl (omega arith) | inr z ↦ inr (omega arith) ])
          ∙ update_ne dst (m src) m x (λ q. elim l [ inl z ↦ omega arith | inr z ↦ omega arith ]);
    }

pub copy_down-Moves :
    (dst src size : ℕ) (m : Memory) → src ≤ dst → Moves dst src size m (copy_down dst src size m)
unfolding copy_down
copy_down-Moves dst src zero m h = record {
  moved = λ i l. absurd (omega arith);
  kept = λ x l. refl;
}
copy_down-Moves dst src (suc n) m h =
    let m1 = update (dst + n) (m (src + n)) m in
    let r = copy_down-Moves dst src n m1 h in
    record {
      moved = λ i l. elim (ℕ_discrete i n) [
        | yes e ↦
            ap (λ z. copy_down dst src n m1 (dst + z)) e
            ∙ r.kept (dst + n) (inr (omega arith))
            ∙ update_self (dst + n) (m (src + n)) m
            ∙ ap (λ z. m (src + z)) (sym e)
        | no e ↦
            r.moved i (omega (arith, e))
            ∙ update_ne (dst + n) (m (src + n)) m (src + i) (λ q. omega (arith, e))
      ];
      kept = λ x l.
          r.kept x (elim l [ inl z ↦ inl z | inr z ↦ inr (omega arith) ])
          ∙ update_ne (dst + n) (m (src + n)) m x
              (λ q. elim l [ inl z ↦ omega arith | inr z ↦ omega arith ]);
    }

-- memmove copies right however the blocks overlap, and touches nothing else. It returns the
-- destination only if that does not stand before the source; else it returns the address behind
-- the destination's last byte.
pub memmove-Moves :
    (dst src size : ℕ) (m : Memory)
    → Moves dst src size m (memmove dst src size m).1
      × (src ≤ dst → (memmove dst src size m).0 ≡ dst)
      × (dst < src → (memmove dst src size m).0 ≡ dst + size)
unfolding memmove
memmove-Moves dst src size m = elim (Bool-cases (ltb dst src)) [
  | inl e ↦ rw e (
    copy_up-Moves dst src size m (inl (ground (arith, e))),
    (λ h. absurd (ground (arith, e, h))),
    λ h. refl,
  )
  | inr e ↦ rw e (
    copy_down-Moves dst src size m (ground (arith, e)),
    (λ h. refl),
    λ h. absurd (ground (arith, e, h)),
  )
]
