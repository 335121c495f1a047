-- ===== src/Executions/Frames.antt =====
-- What the transactions of executions/engine.go and executions/safety.go do to the tables.
use ovs_webui.Prelude.{
  ℕ, ◌+◌, ◌≡◌, sym, subst, ap, Bool, true, false, not, ◌&&◌, arith, lookup, update, is_some,
  if◌then◌else◌,
}
use ovs_webui.Execution
use ovs_webui.Execution.{Outcome, State}
use ovs_webui.Jobs.{Job}
use ovs_webui.Store.{
  ok-injective, Tables, Tx, ok, chain-ok, guard-ok, pure, fail, ◌>>◌, unavailable, one-ok,
}
use ovs_webui.Evidence.{Budget}
use ovs_webui.Evidence.Laws.{SameRest, append-SameRest, change_job-Parts}
use ovs_webui.Executions.{
  Times, transition, save_outcome, release_tables, parse_sequence, record_outcome, report,
  write_report, settled_safely, damaged,
}

module _ (b : Budget) (t u : Tables) where
  -- `report` on the record that is to be saved.
  report-parts :
      (r r' : Execution.Record) (job : Job) (safe : Bool)
      → report b r job safe t ≡ ok (r', u)
      → (v : Tables) × SameRest t v × SameRest (write_report safe r v) u
  unfolding report
  report-parts r r' job safe h =
      let (j', v, s1, h1) = chain-ok _ _ h in
      let (_, w, s2, h2) = chain-ok _ _ h1 in
      let (_, x, s3, h3) = chain-ok _ _ h2 in
      let (_, _, parts) = change_job-Parts b _ _ _ _ t v j' s1 in
      let after = subst (SameRest w) (ok-injective h3).1 (append-SameRest b _ w x s3).0 in
      (v, parts.4, subst (λ z. SameRest z u) (sym (ok-injective s2).1) after)

  -- What a transition writes: the new record, and nothing of any Safe Apply.
  pub record Reported (r : Execution.Record) (o : Outcome) (state : State) (now : ℕ) : Type 0 where
    pub numbered : parse_sequence r.sequence ≡ true
    pub safe_applies : u.safe_applies ≡ t.safe_applies
    pub executions :
        u.executions
        ≡ update r.id
            (record r { sequence = r.sequence + 1; state = state; outcome = o; updated = now })
            t.executions
    pub protections : u.protections ≡ (
        if Execution.terminal state && not (is_some (lookup r.id t.safe_applies))
        then (release_tables r.id t).protections
        else t.protections)
    pub identities : u.identities ≡ (
        if Execution.terminal state && not (is_some (lookup r.id t.safe_applies))
        then (release_tables r.id t).identities
        else t.identities)

  assemble-Reported :
      (r : Execution.Record) (o : Outcome) (state : State) (now : ℕ) (v : Tables)
      → parse_sequence r.sequence ≡ true
      → SameRest t v
      → SameRest
          (write_report
            (is_some (lookup r.id t.safe_applies))
            (record r { sequence = r.sequence + 1; state = state; outcome = o; updated = now })
            v)
          u
      → Reported r o state now
  unfolding write_report release_tables
  assemble-Reported r o state now v e a c = ground arith

  pub transition-Reported :
      (r r' : Execution.Record) (o : Outcome) (state : State) (now : ℕ)
      → transition b r o state now t ≡ ok (r', u)
      → Reported r o state now
  unfolding transition
  transition-Reported r r' o state now h =
      let (e1, h1) = guard-ok _ _ _ _ h in
      let (e2, h2) = guard-ok _ _ _ _ h1 in
      let (job, found, h3) = one-ok _ _ _ _ h2 in
      let (v, a, c) = report-parts _ r' job _ h3 in assemble-Reported r o state now v e1 a c

  -- What follows of the end of `saveOutcome`.
  pub moved-ok :
      {Q : Type 0} (same : Bool) (r : Execution.Record) (o : Outcome) (state : State) (now : ℕ)
      → (t ≡ u → Q)
      → ((r' : Execution.Record) → transition b r o state now t ≡ ok (r', u) → Q)
      → (if same then pure tt else transition b r o state now >> pure tt) t ≡ ok (tt, u)
      → Q
  moved-ok true r o state now stays moves h = stays (ok-injective h).1
  moved-ok false r o state now stays moves h =
      let (r', v, h1, h2) = chain-ok _ _ h in
      moves r' (subst (λ z. transition b r o state now t ≡ ok (r', z)) (ok-injective h2).1 h1)

  pub branches-ok :
      {Q : Type 0} (done bad settled : Bool) (m : Tx (Unit {0}))
      → (t ≡ u → Q)
      → (m t ≡ ok (tt, u) → Q)
      → (if done then pure tt else if bad then fail unavailable else if settled then pure tt else m)
          t
        ≡ ok (tt, u)
      → Q
  branches-ok true bad settled m stays next h = stays (ok-injective h).1
  branches-ok false true settled m stays next h = cc
  branches-ok false false true m stays next h = stays (ok-injective h).1
  branches-ok false false false m stays next h = next h

  record_outcome-safe_applies :
      (r : Execution.Record) (o : Outcome) (now : Times)
      → record_outcome b r o now t ≡ ok (tt, u)
      → u.safe_applies ≡ t.safe_applies
  unfolding record_outcome
  record_outcome-safe_applies r o now h =
      moved-ok _ r _ _ _ (λ e. ap (λ z. z.safe_applies) (sym e))
        (λ r' m. (transition-Reported r r' _ _ _ m).safe_applies) h

  -- `saveOutcome` leaves every Safe Apply alone.
  pub save_outcome-safe_applies :
      (id : ℕ) (o : Outcome) (now : Times)
      → save_outcome b id o now t ≡ ok (tt, u)
      → u.safe_applies ≡ t.safe_applies
  unfolding save_outcome
  save_outcome-safe_applies id o now h =
      let (r, found, h1) = one-ok _ _ _ _ h in
      branches-ok (Execution.terminal r.state) (damaged (lookup id t.safe_applies))
        (settled_safely (lookup id t.safe_applies)) (record_outcome b r o now)
        (λ e. ap (λ z. z.safe_applies) (sym e)) (record_outcome-safe_applies r o now) h1
