-- ===== src/Evidence/Limits.antt =====
-- internal/repository/evidence/write.go: what its two journals promise.
use ovs_webui.Prelude.{
  ℕ, ◌+◌, ◌≡◌, ◌⊎◌, refl, subst, ap, Bool, if◌then◌else◌, true, false, List, [], ◌∷◌, some, count,
  lookup, update,
}
use ovs_webui.Jobs.{Job, Transition, Entry, Collection, event, audit, terminal}
use ovs_webui.Store.{Error, Tables, Result, ok, err}
use ovs_webui.Evidence.{Budget, same_collection, change_job, allows, advance}
use ovs_webui.Evidence.Laws.{change_job-Parts}

-- The entries in the collection of an entry.
unfoldable pub size : Entry → List Entry → ℕ
size e = count (λ x. same_collection e.collection x.collection)

-- An entry that stands for the same evidence: both have one key in one collection.
abbrev pub Repeats : Entry → Entry → Type 0
Repeats e p = (k : ℕ) × (e.dedup ≡ some k) × (p.dedup ≡ some k) × (e.collection ≡ p.collection)

-- The rows of a collection, and those of them that are kept from an entry.
abbrev pub rows : Collection → ℕ
rows event = 100000
rows audit = 500000

abbrev pub reserve : Bool → ℕ
reserve critical = if critical then 0 else 128

-- One of the entries has a property.
abbrev pub One : (Entry → Type 0) → List Entry → Type 0
One P [] = ⊥
One P (x ∷ xs) = P x ⊎ One P xs

-- A change of a job that goes through was asked for with the sequence that the job had, took a job
-- that was not terminal along an edge that is allowed, gave it the next sequence and the state that
-- was asked for, and wrote that job alone.
pub change_job_lem :
    (b : Budget) (id expected : ℕ) (c : Transition) (now : ℕ) (t u : Tables) (j' : Job)
    → change_job b id expected c now t ≡ ok (j', u)
    → (j : Job) × (lookup id t.jobs ≡ some j)
      × (expected ≡ j.sequence)
      × (terminal j.state ≡ false)
      × (allows j c.state ≡ true)
      × (j'.sequence ≡ j.sequence + 1)
      × (j'.state ≡ c.state)
      × (u.jobs ≡ update j.id j' t.jobs)
unfolding advance
change_job_lem b id expected c now t u j' h =
    let (j, found, parts) = change_job-Parts b id expected c now t u j' h in
    let (e, going, edge, eq, same, jobs) = parts in
    (j, found, e, going, edge, ap (λ z. z.sequence) eq, ap (λ z. z.state) eq, jobs)

-- A result that cannot be a success is an error.
failure_of :
    {A : Type 0} (x : Result (A × Tables))
    → ((a : A) → (u : Tables) → x ≡ ok (a, u) → ⊥)
    → (e : Error) × (x ≡ err e)
failure_of (ok (a, u)) h = absurd (h a u refl)
failure_of (err e) h = (e, refl)

-- A terminal job is never changed: every attempt is an error.
pub change_job-terminal :
    (b : Budget) (id expected : ℕ) (c : Transition) (now : ℕ) (t : Tables) (j : Job)
    → lookup id t.jobs ≡ some j
    → terminal j.state ≡ true
    → (e : Error) × (change_job b id expected c now t ≡ err e)
change_job-terminal b id expected c now t j found done =
    failure_of (change_job b id expected c now t) (λ a u h.
      let (k, found', _, going, _, _, _, _) = change_job_lem b id expected c now t u a h in
      let same = subst (λ o. o ≡ some k) found found' in cc)
