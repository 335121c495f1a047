-- ===== src/Evidence/Creation/Bounds.antt =====
-- The bounds on the jobs that `CreateJob` keeps.
use ovs_webui.Prelude.{
  ℕ, ◌+◌, ◌≤◌, ◌≡◌, refl, sym, subst, ap, ◌∙◌, Bool, true, false, List, [], ◌∷◌, ◌++◌, ◌⊎◌, arith,
  count, length, &&-true,
}
use ovs_webui.Jobs
use ovs_webui.Jobs.{Job, code, queued, running, same_state, max_jobs, max_queued, max_running}
use ovs_webui.Store.{ok-injective, Tables, ok, chain, guard, chain-ok, guard-ok}
use ovs_webui.Evidence.{Budget, occupies}
use ovs_webui.Evidence.Laws.{append-SameRest}
use ovs_webui.Evidence.Creation.{
  Draft, filled, admits, waits, create_job, insert_job, job_limit, is_initial,
}

-- Within the bounds on all jobs, on those that wait, and on those that run.
pub record IsWithin (jobs : List (ℕ × Job)) : Type 0 where
  pub all : length jobs ≤ max_jobs
  pub waiting : count waits jobs ≤ max_queued
  pub occupied : count occupies jobs ≤ max_running

length-snoc : (xs : List (ℕ × Job)) (x : ℕ × Job) → length (xs ++ (x ∷ [])) ≡ length xs + 1
length-snoc [] x = ground arith
length-snoc (y ∷ xs) x = ground (arith, length-snoc xs x)

-- One more entry is counted once, or not.
count_grows :
    (p : ℕ × Job → Bool) (xs : List (ℕ × Job)) (x : ℕ × Job)
    → (p x ≡ true × (count p (xs ++ (x ∷ [])) ≡ count p xs + 1))
      ⊎ (p x ≡ false × (count p (xs ++ (x ∷ [])) ≡ count p xs))
count_grows p [] x = ground arith
count_grows p (y ∷ xs) x = ground (arith, count_grows p xs x)

admitted-IsWithin :
    (j : Job) (jobs : List (ℕ × Job))
    → admits j jobs ≡ true
    → (same_state j.state Jobs.cancel_requested ≡ false)
    → IsWithin jobs
    → IsWithin (jobs ++ ((j.id, j) ∷ []))
unfolding admits job_limit
admitted-IsWithin j jobs h n w =
    let a = length-snoc jobs (j.id, j) in
    let c = count_grows waits jobs (j.id, j) in
    let d = count_grows occupies jobs (j.id, j) in
    record { all = ground arith; waiting = ground arith; occupied = ground arith }

insert_job-jobs :
    (b : Budget) (j : Job) (t u : Tables)
    → insert_job b j t ≡ ok (tt, u)
    → u.jobs ≡ t.jobs ++ ((j.id, j) ∷ [])
unfolding insert_job chain guard
insert_job-jobs b j t u h = ground arith

initial_lem : (s : Jobs.State) → is_initial s ≡ true → same_state s Jobs.cancel_requested ≡ false
unfolding is_initial
initial_lem s h = ground arith

filled_sequence : (d : Draft) → (filled d).sequence ≡ 1
unfolding filled
filled_sequence d = refl

-- A job that `CreateJob` admits keeps the bounds on all jobs, on those that wait and on those that
-- run, and is the last of the jobs, with the sequence 1.
pub create_job-IsWithin :
    (b : Budget) (d : Draft) (t u : Tables) (j : Job)
    → create_job b d t ≡ ok (j, u)
    → IsWithin t.jobs
    → IsWithin u.jobs × (u.jobs ≡ t.jobs ++ ((j.id, j) ∷ [])) × (j.sequence ≡ 1)
unfolding create_job chain
create_job-IsWithin b d t u j h w =
    let (e1, h1) = guard-ok _ _ _ _ h in
    let (e2, h2) = guard-ok _ _ _ _ h1 in
    let (e3, h3) = guard-ok _ _ _ _ h2 in
    let (e4, h4) = guard-ok _ _ _ _ h3 in
    let (_, v, s1, h5) = chain-ok _ _ h4 in
    let (_, x, s2, h6) = chain-ok _ _ h5 in
    let (same, last) = ok-injective h6 in
    let jobs =
      ap (λ z. z.jobs) (sym last)
      ∙ (append-SameRest b _ v x s2).1
      ∙ insert_job-jobs b (filled d) t v s1 in
    let open_state = initial_lem (filled d).state (&&-true _ _ e1).1 in
    let grown = admitted-IsWithin (filled d) t.jobs e2 open_state w in
    (
      subst IsWithin (sym jobs) grown,
      subst (λ z. u.jobs ≡ t.jobs ++ ((z.id, z) ∷ [])) same jobs,
      subst (λ z. z.sequence ≡ 1) same (filled_sequence d),
    )
