-- ===== src/Evidence/Laws.antt =====
-- What a change of a job does to the tables, and what the state machine of jobs admits.
use ovs_webui.Prelude.{
  ℕ, ◌+◌, ◌≡◌, subst, true, false, ◌&&◌, some, arith, lookup, update, ◌==◌, not,
}
use ovs_webui.Jobs
use ovs_webui.Jobs.{Job, Transition, Entry, terminal, same_state, code}
use ovs_webui.Store.{Tables, chain, guard, ok, chain-ok, guard-ok, one-ok, ok-injective}
use ovs_webui.Evidence.{
  Budget, append, change_job, allows, advance, save_job, room, complete_receipts, change_loaded,
}

-- The tables that the journal of evidence and the jobs do not own.
pub record SameRest (t u : Tables) : Type 0 where
  pub executions : u.executions ≡ t.executions
  pub safe_applies : u.safe_applies ≡ t.safe_applies
  pub journal : u.journal ≡ t.journal
  pub protections : u.protections ≡ t.protections
  pub identities : u.identities ≡ t.identities
  pub last_known_good : u.last_known_good ≡ t.last_known_good
  pub resolutions : u.resolutions ≡ t.resolutions

-- A record of evidence changes one table, and no job.
pub append-SameRest :
    (b : Budget) (e : Entry) (t u : Tables)
    → append b e t ≡ ok (tt, u)
    → SameRest t u × (u.jobs ≡ t.jobs)
unfolding append chain guard
append-SameRest b e t u h = ground arith

SameRest-trans : {t u v : Tables} → SameRest t u → SameRest u v → SameRest t v
SameRest-trans a b = ground arith

complete_receipts-rest :
    (j : Job) (now : ℕ) (t u : Tables)
    → complete_receipts j now t ≡ ok (tt, u)
    → SameRest t u × (u.jobs ≡ t.jobs)
unfolding complete_receipts chain guard
complete_receipts-rest j now t u h = ground arith

save_job-rest :
    (b : Budget) (j : Job) (t u : Tables) (saved : Job)
    → save_job b j t ≡ ok (saved, u)
    → (saved ≡ record j { sequence = j.sequence + 1 })
      × SameRest t u
      × (u.jobs ≡ update j.id saved t.jobs)
unfolding save_job chain guard
save_job-rest b j t u saved h = ground arith

module _ (b : Budget) (expected : ℕ) (c : Transition) (now : ℕ) (t u : Tables) (j' : Job) where
  room-same : (j : Job) (to : Jobs.State) (v : Tables) → room b j to t ≡ ok (tt, v) → v ≡ t
  unfolding room chain guard
  room-same j to v h = ground arith

  -- The job that was found, and the tables that are left.
  abbrev pub Parts : Job → Type 0
  Parts j =
      (expected ≡ j.sequence)
      × (terminal j.state ≡ false)
      × (allows j c.state ≡ true)
      × (j' ≡ record (advance j c now) { sequence = j.sequence + 1 })
      × SameRest t u
      × (u.jobs ≡ update j.id j' t.jobs)

  assemble :
      (j saved : Job) (t1 t2 t3 : Tables)
      → (expected == j.sequence) ≡ true
      → not (terminal j.state) ≡ true
      → (allows j c.state && code c.reason) ≡ true
      → saved ≡ record (advance j c now) { sequence = j.sequence + 1 }
      → SameRest t t1
      → t1.jobs ≡ update j.id saved t.jobs
      → SameRest t1 t2
      → t2.jobs ≡ t1.jobs
      → SameRest t2 t3
      → t3.jobs ≡ t2.jobs
      → saved ≡ j'
      → t3 ≡ u
      → Parts j
  assemble j saved t1 t2 t3 e1 e2 e3 k r1 j1 r2 j2 r3 j3 p q = ground arith

  change_loaded-Parts : (j : Job) → change_loaded b j expected c now t ≡ ok (j', u) → Parts j
  unfolding change_loaded
  change_loaded-Parts j h =
      let (e1, h1) = guard-ok _ _ _ _ h in
      let (e2, h2) = guard-ok _ _ _ _ h1 in
      let (e3, h3) = guard-ok _ _ _ _ h2 in
      let (_, t0, s0, h4) = chain-ok _ _ h3 in
      let (saved, t1, s1, h5) = chain-ok _ _ h4 in
      let (_, t2, s2, h6) = chain-ok _ _ h5 in
      let (_, t3, s3, h7) = chain-ok _ _ h6 in
      let (k1, r1, j1) = save_job-rest b (advance j c now) t t1 saved (
        subst (λ x. save_job b (advance j c now) x ≡ ok (saved, t1)) (room-same j c.state t0 s0)
          s1) in
      let (r2, j2) = complete_receipts-rest _ _ t1 t2 s2 in
      let (r3, j3) = append-SameRest b _ t2 t3 s3 in
      let (p, q) = ok-injective h7 in
      assemble j saved t1 t2 t3 e1 e2 e3 (unfold advance in k1) r1 (unfold advance in j1) r2 j2 r3
        j3 p q

module _ (b : Budget) (id expected : ℕ) (c : Transition) (now : ℕ) (t u : Tables) (j' : Job) where
  -- What a successful `ChangeJob` has found and left.
  pub change_job-Parts :
      change_job b id expected c now t ≡ ok (j', u)
      → (j : Job) × (lookup id t.jobs ≡ some j) × Parts b expected c now t u j' j
  unfolding change_job
  change_job-Parts h =
      let (j, found, h1) = one-ok _ _ _ _ h in
      (j, found, change_loaded-Parts b expected c now t u j' j h1)
