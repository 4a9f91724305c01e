-- ===== src/Pintos/Lists/Passes.antt =====
-- The passes of list_sort of Project_3/lib/kernel/list.c.
use mathlib.Core.List.{Permᴰ}
use mathlib.Core.List.Permᴰ as PermD
use system_prog.Base.{
  ==_self, ==-false, ℕ, zero, suc, ◌+◌, ◌*◌, ◌<◌, ◌≤◌, ◌≡◌, ◌≢◌, refl, ap, sym, subst, ◌∙◌, Bool,
  false, some, List, [], ◌∷◌, ◌++◌, append_assoc, arith, ◌==◌, Bool-cases, inl, inr, length,
  length-append, if◌then◌else◌, ◌>>=◌,
}
use system_prog.Pintos.Lists.{Store, ListHead, list_end}
use system_prog.Pintos.Lists.Sorting.{find_end_of_run, inplace_merge, pass_loop}
use system_prog.Pintos.Lists.Chain.{IsList}
use system_prog.Pintos.Lists.Inserting.{first_of, at_tail}
use system_prog.Pintos.Lists.Removing.{IsList-Around}
use system_prog.Pintos.Lists.Walking.{IsSorted}
use system_prog.Pintos.Lists.Merged.{
  IsOrder, IsSorted-Ascending, Ascending-IsSorted, IsMerge, merge_loop-IsMerge,
}
use system_prog.Pintos.Lists.Runs.{
  tail-apart, is_sorted-IsSorted, descents, runs, IsRun, find_end_of_run-IsRun,
}

pub Perm-length : {xs ys : List ℕ} → Permᴰ xs ys → length xs ≡ length ys
Perm-length Permᴰ.nil = refl
Perm-length (Permᴰ.cons e d) = ap suc (Perm-length d)
Perm-length (Permᴰ.swap e f) = refl
Perm-length (Permᴰ.trans d f) = Perm-length d ∙ Perm-length f

first_of-null :
    (st : Store) (l : ListHead) (us vs : List ℕ)
    → IsList st l (us ++ vs)
    → (first_of vs l.tail == 0) ≡ false
first_of-null st l us [] h =
    ==-false l.tail 0 (λ z. at_tail (λ y. 0 ≢ y) l (us ++ []) h.no_null.1 (sym z))
first_of-null st l us (v ∷ vs) h =
    let a = IsList-Around st l us v vs h in ==-false v 0 (λ z. a.null (sym z))

module _ (less : ℕ → ℕ → Bool) where
  inplace_merge-IsMerge :
      IsOrder less
      → (fuel : ℕ) (st : Store) (l : ListHead) (us xs ys ws : List ℕ)
      → IsList st l (us ++ (xs ++ (ys ++ ws)))
      → IsSorted less xs
      → IsSorted less ys
      → length xs + length ys < fuel
      → (cs : List ℕ) × (st' : Store) × (inplace_merge less fuel
            (first_of (xs ++ (ys ++ ws)) l.tail)
            (first_of (ys ++ ws) l.tail)
            (first_of ws l.tail)
            st
          ≡ some st')
        × IsList st' l (us ++ (cs ++ ws))
        × IsMerge less xs ys cs
  unfolding inplace_merge
  inplace_merge-IsMerge o fuel st l us xs ys ws h s t f =
      let h2 = subst (IsList st l) (sym (append_assoc us xs (ys ++ ws))) h in
      let h3 = subst (IsList st l) (sym (append_assoc (us ++ xs) ys ws)) h2 in
      let (cs, st', r, k, m) = merge_loop-IsMerge less o fuel st l us xs ys ws h f in
      (
        cs,
        st',
        rw
            (
              first_of-null st l us (xs ++ (ys ++ ws)) h,
              first_of-null st l (us ++ xs) (ys ++ ws) h2,
              first_of-null st l ((us ++ xs) ++ ys) ws h3,
              is_sorted-IsSorted less fuel st l us xs (ys ++ ws) h s (omega arith),
              is_sorted-IsSorted less fuel st l (us ++ xs) ys ws h2 t (omega arith),
            )
            r,
        k,
        m,
      )

  descents-append :
      (x : ℕ) (xs ys : List ℕ)
      → IsSorted less (x ∷ xs)
      → descents less (x ∷ (xs ++ ys)) ≤ runs less ys
  descents-append x [] [] s = omega arith
  descents-append x [] (y ∷ ys) s = elim (Bool-cases (less y x)) [
    | inl e ↦ rw e (omega arith)
    | inr e ↦ rw e (omega arith)
  ]
  descents-append x (z ∷ xs) ys s = rw s.0 (descents-append z xs ys s.1)

  runs-append : (xs ys : List ℕ) → IsSorted less xs → runs less (xs ++ ys) ≤ suc (runs less ys)
  runs-append [] ys s = omega arith
  runs-append (x ∷ xs) ys s = omega (arith, descents-append x xs ys s)

  pub single_run : (xs : List ℕ) → runs less xs ≤ 1 → IsSorted less xs
  single_run [] h = tt
  single_run (x ∷ []) h = tt
  single_run (x ∷ y ∷ ys) h = elim (Bool-cases (less y x)) [
    | inl e ↦ absurd (
        subst
          (λ b. suc (if b then suc (descents less (y ∷ ys)) else descents less (y ∷ ys)) ≤ 1 → ⊥)
          (sym e) (λ q. omega (arith, q)) h)
    | inr e ↦ (
      e,
      single_run (y ∷ ys) (
          subst (λ b. suc (if b then suc (descents less (y ∷ ys)) else descents less (y ∷ ys)) ≤ 1)
            e h),
    )
  ]

  pub runs-length : (xs : List ℕ) → runs less xs ≤ length xs
  runs-length [] = omega arith
  runs-length (x ∷ []) = omega arith
  runs-length (x ∷ y ∷ ys) = elim (Bool-cases (less y x)) [
    | inl e ↦ rw e (omega (arith, runs-length (y ∷ ys)))
    | inr e ↦ rw e (omega (arith, runs-length (y ∷ ys)))
  ]

  -- A pass halves the number of the runs.
  pub record IsPass (xs ys : List ℕ) (cnt : ℕ) : Type 0 where
    pub permuted : Permᴰ xs ys
    pub half : 2 * cnt ≤ suc (runs less xs)
    pub fewer : runs less ys ≤ cnt

  merged-IsPass :
      (e : ℕ) (vs rs : List ℕ) (w : ℕ) (ws rs2 ws2 cs ys : List ℕ) (cnt : ℕ)
      → IsOrder less
      → IsRun less e vs rs (w ∷ ws)
      → IsRun less w ws rs2 ws2
      → IsMerge less (e ∷ rs) (w ∷ rs2) cs
      → IsPass ws2 ys cnt
      → IsPass (e ∷ vs) (cs ++ ys) (suc cnt)
  merged-IsPass e vs rs w ws rs2 ws2 cs ys cnt o r r2 m p =
      let sorted = Ascending-IsSorted less cs (
        m.ascending (IsSorted-Ascending less o (e ∷ rs) r.sorted)
          (IsSorted-Ascending less o (w ∷ rs2) r2.sorted)) in
      let shape : e ∷ vs ≡ (e ∷ rs ++ w ∷ rs2) ++ ws2 =
        ap (◌∷◌ e) (r.parts ∙ ap (λ z. rs ++ w ∷ z) r2.parts)
        ∙ sym (append_assoc (e ∷ rs) (w ∷ rs2) ws2) in
      record {
        permuted =
            subst (λ z. Permᴰ z (cs ++ ys)) (sym shape)
              (PermD.trans (PermD.append_right ws2 m.permuted) (PermD.append_left cs p.permuted));
        half = omega (arith, r.rest, r2.rest, p.half);
        fewer = omega (arith, runs-append cs ys sorted, p.fewer);
      }

  -- What the loop gives for the elements `vs` behind `us`.
  abbrev pub Passed : ℕ → ℕ → Store → ListHead → List ℕ → List ℕ → ℕ → Type 0
  Passed n fuel st l us vs cnt =
      (ys : List ℕ) × (c : ℕ) × (st' : Store) × (pass_loop less n fuel l (first_of vs l.tail) cnt st
        ≡ some (cnt + c, st'))
      × IsList st' l (us ++ ys)
      × IsPass vs ys c

  -- One round of the loop, by what the rounds behind it give.
  pass_round :
      IsOrder less
      → (n fuel : ℕ) (st : Store) (l : ListHead) (us : List ℕ) (e : ℕ) (vs : List ℕ) (cnt : ℕ)
      → ((st : Store) (l : ListHead) (us vs : List ℕ) (cnt : ℕ)
          → IsList st l (us ++ vs)
          → length vs < fuel
          → length vs < n
          → Passed n fuel st l us vs cnt)
      → IsList st l (us ++ e ∷ vs)
      → suc (length vs) < suc fuel
      → suc (length vs) < n
      → (rs ws : List ℕ) → find_end_of_run less n e l.tail st ≡ some (first_of ws l.tail)
      → IsRun less e vs rs ws
      → Passed n (suc fuel) st l us (e ∷ vs) cnt
  unfolding pass_loop list_end
  pass_round o n fuel st l us e vs cnt go h f g rs [] q r = (
    e ∷ vs,
    1,
    st,
    rw (tail-apart st l us e vs h, q, ==_self l.tail, pass_loop, ◌>>=◌)
        (ap (λ z. some (z, st)) (omega arith)),
    h,
    record {
      permuted = PermD.refl (e ∷ vs);
      half = omega (arith, r.rest);
      fewer = omega (arith, r.rest);
    },
  )
  pass_round o n fuel st l us e vs cnt go h f g rs (w ∷ ws) q r =
      let long = ap length r.parts ∙ length-append rs (w ∷ ws) in
      let h1 : IsList st l (us ++ (e ∷ rs ++ w ∷ ws)) =
        subst (λ z. IsList st l (us ++ e ∷ z)) r.parts h in
      let h2 = subst (IsList st l) (sym (append_assoc us (e ∷ rs) (w ∷ ws))) h1 in
      let (rs2, ws2, q2, r2) =
        find_end_of_run-IsRun less n st l (us ++ e ∷ rs) w ws h2 (omega (arith, long)) in
      let long2 = ap length r2.parts ∙ length-append rs2 ws2 in
      let h3 : IsList st l (us ++ (e ∷ rs ++ (w ∷ rs2 ++ ws2))) =
        subst (λ z. IsList st l (us ++ (e ∷ rs ++ w ∷ z))) r2.parts h1 in
      let (cs, st1, q3, k, m) =
        inplace_merge-IsMerge o n st l us (e ∷ rs) (w ∷ rs2) ws2 h3 r.sorted r2.sorted
          (omega (arith, long, long2)) in
      let (ys, c, st2, q4, k4, p) =
        go st1 l (us ++ cs) ws2 (suc cnt) (subst (IsList st1 l) (sym (append_assoc us cs ws2)) k)
          (omega (arith, long, long2)) (omega (arith, long, long2)) in
      (
        cs ++ ys,
        suc c,
        st2,
        rw
            (
              tail-apart st l us e vs h,
              q,
              tail-apart st l (us ++ e ∷ rs) w ws h2,
              q2,
              q3,
              pass_loop,
              ◌>>=◌,
            )
            (q4 ∙ ap (λ z. some (z, st2)) (omega arith)),
        subst (IsList st2 l) (append_assoc us cs ys) k4,
        merged-IsPass e vs rs w ws rs2 ws2 cs ys c o r r2 m p,
      )

  pub pass_loop-IsPass :
      IsOrder less
      → (n fuel : ℕ) (st : Store) (l : ListHead) (us vs : List ℕ) (cnt : ℕ) → IsList st l (us ++ vs)
      → length vs < fuel
      → length vs < n
      → Passed n fuel st l us vs cnt
  unfolding pass_loop list_end
  pass_loop-IsPass o n zero st l us vs cnt h f g = absurd (omega arith)
  pass_loop-IsPass o n (suc fuel) st l us [] cnt h f g = (
    [],
    0,
    st,
    rw (==_self l.tail, pass_loop) (ap (λ z. some (z, st)) (omega arith)),
    h,
    record { permuted = PermD.refl []; half = omega arith; fewer = omega arith },
  )
  pass_loop-IsPass o n (suc fuel) st l us (e ∷ vs) cnt h f g =
      let (rs, ws, q, r) = find_end_of_run-IsRun less n st l us e vs h (omega arith) in
      pass_round o n fuel st l us e vs cnt (pass_loop-IsPass o n fuel) h f g rs ws q r
