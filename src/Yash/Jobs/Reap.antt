-- ===== src/Yash/Jobs/Reap.antt =====
-- What `jobs_reap` of Project 1/yash/src/jobs.c leaves in the table and prints.
use system_prog.Base.{
  ℕ, ◌<◌, ◌≡◌, refl, ap, sym, ◌∙◌, Bool, true, false, ◌||◌, Option, none, some, List, [], ◌∷◌, ◌++◌,
  arith, Str, if◌then◌else◌, append_assoc, subst, ◌≤◌, Bool-cases, inl, inr,
}
use system_prog.Yash.Types.{Job}
use system_prog.Yash.Jobs.{
  Table, jobs_remove, is_live, is_done, current_from, jobs_current, jobs_print_one, done_word,
  done_mark, sweep, jobs_count, jobs_reap, collect, Status,
}
use system_prog.Yash.Jobs.Order.{Above, IsTable, Above-mono, jobs_remove-IsTable, collect-IsTable}

-- The jobs that are not finished, and the lines for those that are, with one mark for all.
abbrev pub kept : Table → Table
kept [] = []
kept (j ∷ js) = if is_done j.state then kept js else j ∷ kept js

abbrev pub done_rows : ℕ → Table → List Str
done_rows mark [] = []
done_rows mark (j ∷ js) =
    if is_done j.state
    then jobs_print_one j mark done_word ∷ done_rows mark js
    else done_rows mark js

abbrev pub any_live : Table → Bool
any_live [] = false
any_live (j ∷ js) = is_live j.state || any_live js

abbrev mark_of : Option Job → ℕ
mark_of none = b'+'
mark_of (some j) = b'-'

abbrev pub mark_for : Bool → ℕ
mark_for live = if live then b'-' else b'+'

mark_from :
    (found : Option Job) (t : Table)
    → mark_of (current_from found t) ≡ (if any_live t then b'-' else mark_of found)
unfolding current_from
mark_from found [] = refl
mark_from found (j ∷ t) = elim (Bool-cases (is_live j.state)) [
  | inl h ↦ rw h (mark_from (some j) t ∙ ground arith)
  | inr h ↦ rw h (mark_from found t)
]

done_mark_lem : (t : Table) → done_mark t ≡ mark_for (any_live t)
unfolding done_mark jobs_current
done_mark_lem t = ground (arith, mark_from none t)

any_live-remove :
    (pre rest : Table) (j : Job)
    → is_done j.state ≡ true
    → any_live (pre ++ j ∷ rest) ≡ any_live (pre ++ rest)
unfolding is_live is_done
any_live-remove [] rest j h = ground arith
any_live-remove (k ∷ pre) rest j h = ap (λ b. is_live k.state || b) (any_live-remove pre rest j h)

Above-lt : (lo : ℕ) (pre rest : Table) (j : Job) → Above lo (pre ++ j ∷ rest) → lo < j.jid
Above-lt lo [] rest j v = v.0
Above-lt lo (k ∷ pre) rest j v = omega (arith, Above-lt k.jid pre rest j v.1)

jobs_remove-middle :
    (lo : ℕ) (pre rest : Table) (j : Job)
    → Above lo (pre ++ j ∷ rest)
    → jobs_remove j.jid (pre ++ j ∷ rest) ≡ pre ++ rest
unfolding jobs_remove
jobs_remove-middle lo [] rest j v = ground arith
jobs_remove-middle lo (k ∷ pre) rest j v =
    ground (arith, Above-lt k.jid pre rest j v.1, jobs_remove-middle k.jid pre rest j v.1)

sweep-done :
    (rest t : Table) (j : Job)
    → is_done j.state ≡ true
    → sweep (j ∷ rest) t ≡ (
      (sweep rest (jobs_remove j.jid t)).0,
      jobs_print_one j (done_mark t) done_word ∷ (sweep rest (jobs_remove j.jid t)).1,
    )
unfolding sweep
sweep-done rest t j h = rw (h, sweep)

sweep-kept :
    (rest t : Table) (j : Job) → is_done j.state ≡ false → sweep (j ∷ rest) t ≡ sweep rest t
unfolding sweep
sweep-kept rest t j h = rw (h, sweep)

snoc-middle : (pre rest : Table) (j : Job) → (pre ++ j ∷ []) ++ rest ≡ pre ++ j ∷ rest
snoc-middle pre rest j = append_assoc pre (j ∷ []) rest

sweep-append :
    (rest pre : Table)
    → IsTable (pre ++ rest)
    → sweep rest (pre ++ rest)
      ≡ (pre ++ kept rest, done_rows (mark_for (any_live (pre ++ rest))) rest)
sweep-append [] pre v = unfold sweep in refl
sweep-append (j ∷ rest) pre v = elim (Bool-cases (is_done j.state)) [
  | inl h ↦
      let gone = jobs_remove-middle 0 pre rest j v.ordered in
      ground (
        arith,
        gone,
        sweep-done rest (pre ++ j ∷ rest) j h,
        sweep-append rest pre (subst IsTable gone (jobs_remove-IsTable j.jid (pre ++ j ∷ rest) v)),
        any_live-remove pre rest j h,
        done_mark_lem (pre ++ j ∷ rest),
      )
  | inr h ↦ ground (
    arith,
    sweep-kept rest (pre ++ j ∷ rest) j h,
    sweep-append rest (pre ++ j ∷ []) (subst IsTable (sym (snoc-middle pre rest j)) v),
    snoc-middle pre rest j,
    snoc-middle pre (kept rest) j,
  )
]

-- `jobs_reap` takes in what `waitpid` reports, then removes exactly the finished jobs, keeps the
-- others in their order, and prints one Done line for each finished job, oldest first. All of
-- these lines carry one mark: `+` if no job is left running or stopped, else `-`.
pub jobs_reap_lem :
    (reports : List (ℕ × Status)) (t : Table)
    → IsTable t
    → let now = collect reports t in
      (jobs_reap reports t ≡ (kept now, done_rows (mark_for (any_live now)) now))
unfolding jobs_reap
jobs_reap_lem reports t v = sweep-append (collect reports t) [] (collect-IsTable reports t v)

Above-kept : (lo : ℕ) (t : Table) → Above lo t → Above lo (kept t)
Above-kept lo [] v = tt
Above-kept lo (j ∷ js) v = ground (arith, Above-kept j.jid js v.1, Above-mono lo j.jid (kept js))

count-kept : (t : Table) → jobs_count (kept t) ≤ jobs_count t
unfolding jobs_count
count-kept [] = omega arith
count-kept (j ∷ js) = ground (arith, count-kept js)

kept-IsTable : (t : Table) → IsTable t → IsTable (kept t)
kept-IsTable t v = record {
  ordered = Above-kept 0 t v.ordered;
  bounded = omega (arith, count-kept t);
}

pub jobs_reap-IsTable :
    (reports : List (ℕ × Status)) (t : Table) → IsTable t → IsTable (jobs_reap reports t).0
jobs_reap-IsTable reports t v =
    rw (jobs_reap_lem reports t v) (kept-IsTable (collect reports t) (collect-IsTable reports t v))
