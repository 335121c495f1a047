-- ===== src/Executions/Watchdog/Frames.antt =====
-- What the transactions of the watchdog write.
use ovs_webui.Prelude.{
  ℕ, ◌+◌, ◌≡◌, refl, sym, subst, ap, ==_iff, &&-true, Bool, true, false, not, ◌&&◌, Option, none,
  some, arith, lookup, update, ◌==◌, if◌then◌else◌,
}
use ovs_webui.Execution
use ovs_webui.Execution.{Outcome, State}
use ovs_webui.Safety
use ovs_webui.Jobs.{Job}
use ovs_webui.Store.{ok-injective, Tables, ok, chain-ok, guard-ok, one-ok}
use ovs_webui.Evidence.{Budget}
use ovs_webui.Evidence.Laws.{SameRest, append-SameRest, change_job-Parts}
use ovs_webui.Executions.Watchdog.{
  update_safety, save_safety, update_job, write_safety, settle_safety, checked_safety,
  loaded_safety, read_safety,
}
use ovs_webui.Executions.{loaded, release_tables, checked_record, read_record, Engine}

served :
    {A : Type 0} {x y : A} (c : Bool) → (if c then some x else none) ≡ some y → (c ≡ true) × (x ≡ y)
served true h = (refl, cc)
served false h = cc

served_if :
    {A : Type 0} {o : Option A} {y : A} (c : Bool) → (if c then o else none) ≡ some y → o ≡ some y
served_if true h = h
served_if false h = cc

kept : {A : Type 0} {x y : A} (c : Bool) → (if c then none else some x) ≡ some y → x ≡ y
kept true h = cc
kept false h = cc

loaded-checked :
    (id : ℕ) (o : Option Execution.Record) (r : Execution.Record)
    → checked_record id o ≡ some r
    → (r.id ≡ id) × (o ≡ some r)
unfolding checked_record
loaded-checked id none r h = cc
loaded-checked id (some x) r h =
    let (c, e) = served (x.id == id && not (x.sequence == 0)) h in
    (
      subst (λ z. z.id ≡ id) e
          ((==_iff x.id id).0 (&&-true (x.id == id) (not (x.sequence == 0)) c).0),
      ap some e,
    )

safety-checked :
    (o : Option Safety.Record) (s : Safety.Record) → checked_safety o ≡ some s → o ≡ some s
unfolding checked_safety
safety-checked none s h = cc
safety-checked (some x) s h = ap some (kept (x.domain == 0) h)

-- What `load` and `loadSafety` serve is the row of the identifier.
pub loaded-row :
    (id : ℕ) (t : Tables) (r : Execution.Record)
    → loaded id t ≡ some r
    → (r.id ≡ id) × (lookup id t.executions ≡ some r)
unfolding loaded
loaded-row id t r h = loaded-checked id (lookup id t.executions) r h

pub loaded_safety-row :
    (id : ℕ) (t : Tables) (s : Safety.Record)
    → loaded_safety id t ≡ some s
    → lookup id t.safe_applies ≡ some s
unfolding loaded_safety
loaded_safety-row id t s h = safety-checked (lookup id t.safe_applies) s h

pub read_record-row :
    (id : ℕ) (e : Engine) (r : Execution.Record)
    → read_record id e ≡ some r
    → (r.id ≡ id) × (lookup id e.store.tables.executions ≡ some r)
read_record-row id e r h = loaded-row id e.store.tables r (served_if e.store.readable h)

pub read_safety-row :
    (id : ℕ) (e : Engine) (s : Safety.Record)
    → read_safety id e ≡ some s
    → lookup id e.store.tables.safe_applies ≡ some s
read_safety-row id e s h = loaded_safety-row id e.store.tables s (served_if e.store.readable h)

module _ (b : Budget) (t u : Tables) where
  update_job-parts :
      (r : Execution.Record) (s : Safety.Record) (j : Job)
      → update_job b r s j t ≡ ok (tt, u)
      → (v : Tables) × SameRest t v × SameRest (settle_safety r s.state v) u
  unfolding update_job
  update_job-parts r s j h =
      let (j', v, s1, h1) = chain-ok _ _ h in
      let (_, w, s2, h2) = chain-ok _ _ h1 in
      let (_, _, parts) = change_job-Parts b _ _ _ _ t v j' s1 in
      (
        v,
        parts.4,
        subst (λ z. SameRest z u) (sym (ok-injective s2).1) (append-SameRest b _ w u h2).0,
      )

module _ (b : Budget) (t u : Tables) where
  assemble-safe_applies :
      (r r' : Execution.Record) (s : Safety.Record) (v w : Tables)
      → write_safety r' s t ≡ v
      → SameRest v w
      → SameRest (settle_safety r' s.state w) u
      → r'.id ≡ r.id
      → u.safe_applies ≡ update r.id s t.safe_applies
  unfolding write_safety settle_safety release_tables
  assemble-safe_applies r r' s v w a c e f = ground arith

  -- A successful `updateSafety` writes the safety record under the identifier of the execution.
  pub update_safety-safe_applies :
      (r : Execution.Record) (s : Safety.Record) (now : ℕ)
      → update_safety b r s now t ≡ ok (tt, u)
      → u.safe_applies ≡ update r.id s t.safe_applies
  unfolding update_safety
  update_safety-safe_applies r s now h =
      let (e1, h1) = guard-ok _ _ _ _ h in
      let (e2, h2) = guard-ok _ _ _ _ h1 in
      let (e3, h3) = guard-ok _ _ _ _ h2 in
      let (_, w, s1, h4) = chain-ok _ _ h3 in
      let (j, found, h5) = one-ok _ _ _ _ h4 in
      let (v, a, c) = update_job-parts b w u _ s j h5 in
      assemble-safe_applies r _ s w v (ok-injective s1).1 a c refl

  -- What a successful `updateSafety` leaves of the executions, the protections and the identities.
  pub record Updated (r : Execution.Record) (s : Safety.Record) (now : ℕ) : Type 0 where
    pub executions :
        u.executions
        ≡ update r.id (record r { sequence = r.sequence + 1; updated = now }) t.executions
    pub protections :
        u.protections
        ≡ (if Safety.terminal s.state then (release_tables r.id t).protections else t.protections)
    pub identities :
        u.identities
        ≡ (if Safety.terminal s.state then (release_tables r.id t).identities else t.identities)

  assemble-Updated :
      (r : Execution.Record) (s : Safety.Record) (now : ℕ) (v w : Tables)
      → write_safety (record r { sequence = r.sequence + 1; updated = now }) s t ≡ v
      → SameRest v w
      → SameRest (settle_safety (record r { sequence = r.sequence + 1; updated = now }) s.state w) u
      → Updated r s now
  unfolding write_safety settle_safety release_tables
  assemble-Updated r s now v w a c e = ground arith

  pub update_safety-Updated :
      (r : Execution.Record) (s : Safety.Record) (now : ℕ)
      → update_safety b r s now t ≡ ok (tt, u)
      → Updated r s now
  unfolding update_safety
  update_safety-Updated r s now h =
      let (e1, h1) = guard-ok _ _ _ _ h in
      let (e2, h2) = guard-ok _ _ _ _ h1 in
      let (e3, h3) = guard-ok _ _ _ _ h2 in
      let (_, w, s1, h4) = chain-ok _ _ h3 in
      let (j, found, h5) = one-ok _ _ _ _ h4 in
      let (v, a, c) = update_job-parts b w u _ s j h5 in
      assemble-Updated r s now w v (ok-injective s1).1 a c

  -- So does a successful `saveSafety`, and only over the sequence that it was told.
  pub save_safety-safe_applies :
      (r : Execution.Record) (s : Safety.Record) (now : ℕ)
      → save_safety b r s now t ≡ ok (tt, u)
      → u.safe_applies ≡ update r.id s t.safe_applies
  unfolding save_safety
  save_safety-safe_applies r s now h =
      let (current, found, h1) = one-ok _ _ _ _ h in
      let (e, h2) = guard-ok _ _ _ _ h1 in
      rw (sym (loaded-row _ _ _ found).0) (update_safety-safe_applies current s now h2)
