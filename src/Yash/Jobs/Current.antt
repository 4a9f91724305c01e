-- ===== src/Yash/Jobs/Current.antt =====
-- Which job `fg`, `bg` and the mark `+` mean: the searches of Project 1/yash/src/jobs.c.
use system_prog.Base.{
  ◌≡◌, refl, ap, Bool, true, false, Option, none, some, [], ◌∷◌, ◌++◌, All, Bool-cases, inl, inr,
  if◌then◌else◌, ◌⊎◌, subst, sym,
}
use system_prog.Yash.Types.{Job, JobState}
use system_prog.Yash.Jobs.{
  Table, is_live, is_stopped, current_from, jobs_current, recent_stopped_from, jobs_recent_stopped,
}

-- The last job of the list that passes a test, or none if no job does.
abbrev pub Newest : (JobState → Bool) → Table → Option Job → Type 0
Newest test t none = All (λ j. test j.state ≡ false) t
Newest test t (some j) =
    (before : Table) × (after : Table) × (t ≡ before ++ j ∷ after)
    × (test j.state ≡ true)
    × All (λ k. test k.state ≡ false) after

module _ (test : JobState → Bool) where
  last_from : Option Job → Table → Option Job
  last_from found [] = found
  last_from found (j ∷ js) = last_from (if test j.state then some j else found) js

  -- A search finds the newest job of the list, or keeps what it had.
  abbrev Searched : Option Job → Table → Option Job → Type 0
  Searched found t r =
      (All (λ k. test k.state ≡ false) t × (r ≡ found))
      ⊎ ((j : Job) × (r ≡ some j) × Newest test t (some j))

  last_from-cons :
      (found r : Option Job) (j : Job) (t : Table)
      → Searched (if test j.state then some j else found) t r
      → Searched found (j ∷ t) r
  last_from-cons found r j t (inr (k, e, (b, a, s, h, q))) =
      inr (k, e, (j ∷ b, a, ap (◌∷◌ j) s, h, q))
  last_from-cons found r j t (inl (q, e)) = elim (Bool-cases (test j.state)) [
    | inl h ↦ inr (j, rw h at e, ([], t, refl, h, q))
    | inr h ↦ inl ((h, q), rw h at e)
  ]

  last_from-Searched : (found : Option Job) (t : Table) → Searched found t (last_from found t)
  unfolding last_from
  last_from-Searched found [] = inl (tt, refl)
  last_from-Searched found (j ∷ t) =
      last_from-cons found (last_from found (j ∷ t)) j t
        (last_from-Searched (if test j.state then some j else found) t)

  Searched-Newest : (t : Table) (r : Option Job) → Searched none t r → Newest test t r
  Searched-Newest t none (inl h) = h.0
  Searched-Newest t none (inr (j, e, n)) = cc
  Searched-Newest t (some k) (inl h) = cc (h.1)
  Searched-Newest t (some k) (inr (j, e, n)) = subst (Newest test t) (sym e) n

current_from-eq :
    (found : Option Job) (t : Table) → current_from found t ≡ last_from is_live found t
unfolding current_from last_from
current_from-eq found [] = refl
current_from-eq found (j ∷ t) = current_from-eq (if is_live j.state then some j else found) t

recent_stopped_from-eq :
    (found : Option Job) (t : Table) → recent_stopped_from found t ≡ last_from is_stopped found t
unfolding recent_stopped_from last_from
recent_stopped_from-eq found [] = refl
recent_stopped_from-eq found (j ∷ t) =
    recent_stopped_from-eq (if is_stopped j.state then some j else found) t

-- `jobs_current` returns the newest job that is running or stopped, and NULL only if there is none;
-- `jobs_recent_stopped` does the same for the stopped jobs.
pub jobs_current_lem :
    (t : Table) → Newest is_live t (jobs_current t) × Newest is_stopped t (jobs_recent_stopped t)
unfolding jobs_current jobs_recent_stopped
jobs_current_lem t = (
  rw (current_from-eq none t)
      (Searched-Newest is_live t (last_from is_live none t) (last_from-Searched is_live none t)),
  rw (recent_stopped_from-eq none t) (
      Searched-Newest is_stopped t (last_from is_stopped none t)
        (last_from-Searched is_stopped none t)),
)
