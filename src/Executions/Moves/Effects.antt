-- ===== src/Executions/Moves/Effects.antt =====
-- internal/repository/executions: what each transaction does to the executions, the protections and the
-- identities.
use ovs_webui.Prelude.{
  ℕ, ◌+◌, ◌≡◌, ◌⊎◌, inl, inr, refl, sym, ◌∙◌, subst, Bool, true, false, not, String, ◌&&◌, ltb,
  some, lookup, update, if◌then◌else◌, is_some, arith,
}
use ovs_webui.Execution
use ovs_webui.Execution.{Authorization, Outcome, admitted, same_state, terminal}
use ovs_webui.Safety
use ovs_webui.Store.{Tables, ok, chain, chain-ok, guard-ok, one-ok, ok-injective}
use ovs_webui.Evidence.{Budget}
use ovs_webui.Evidence.Laws.{SameRest, append-SameRest}
use ovs_webui.Executions.{
  Times, save_outcome, record_outcome, release_tables, state_for, loaded, transition,
  settled_safely, damaged,
}
use ovs_webui.Executions.Frames.{transition-Reported, moved-ok, branches-ok}
use ovs_webui.Executions.Watchdog.{save_safety, update_safety}
use ovs_webui.Executions.Watchdog.Frames.{loaded-row, update_safety-Updated}
use ovs_webui.Executions.Admission.{BeforeSend, before_send, intended}
use ovs_webui.Executions.Admission.Checks.{refuse-same, unchanged-ok, safe_ready-same}
use ovs_webui.Executions.Decision
use ovs_webui.Executions.Decision.{
  Choice, decide_tx, confirm, rollback, other, finish, apply_choice, proved, confirmed_record,
  requested_record,
}

-- A transaction that is no admission writes the record of one execution, keeps its identity, and
-- releases what the execution holds or nothing.
pub record Rewritten (old new : Execution.Record) (t u : Tables) : Type 0 where
  pub found : lookup old.id t.executions ≡ some old
  pub executions : u.executions ≡ update old.id new t.executions
  pub same_id : new.id ≡ old.id
  pub same_job : new.job ≡ old.job
  pub released : Bool
  pub protections :
      u.protections ≡ (if released then (release_tables old.id t).protections else t.protections)
  pub identities :
      u.identities ≡ (if released then (release_tables old.id t).identities else t.identities)

-- A new state that is not `admitted`, or the old one.
abbrev pub Onward : Execution.Record → Execution.Record → Type 0
Onward old new = (same_state new.state admitted ≡ false) ⊎ (new.state ≡ old.state)

abbrev pub Written : Tables → Tables → Type 0
Written t u =
    (old : Execution.Record) × (new : Execution.Record) × Rewritten old new t u × Onward old new

found_own :
    (id : ℕ) (t : Tables) (r : Execution.Record)
    → loaded id t ≡ some r
    → lookup r.id t.executions ≡ some r
found_own id t r found =
    let (own, row) = loaded-row id t r found in
    subst (λ i. lookup i t.executions ≡ some r) (sym own) row

module _ (b : Budget) (t u : Tables) where
  transition-Rewritten :
      (id : ℕ) (r r' : Execution.Record) (o : Outcome) (state : Execution.State) (now : ℕ)
      → loaded id t ≡ some r
      → transition b r o state now t ≡ ok (r', u)
      → Rewritten r
          (record r { sequence = r.sequence + 1; state = state; outcome = o; updated = now })
          t
          u
  transition-Rewritten id r r' o state now found h =
      let x = transition-Reported b t u r r' o state now h in
      record {
        found = found_own id t r found;
        executions = x.executions;
        same_id = refl;
        same_job = refl;
        released = Execution.terminal state && not (is_some (lookup r.id t.safe_applies));
        protections = x.protections;
        identities = x.identities;
      }

  -- The record that is written over may have a new outcome and state.
  update_safety-Rewritten :
      (id : ℕ) (r : Execution.Record) (o : Outcome) (state : Execution.State) (s : Safety.Record)
      (now : ℕ)
      → loaded id t ≡ some r
      → update_safety b (record r { outcome = o; state = state }) s now t ≡ ok (tt, u)
      → Rewritten r
          (record r { sequence = r.sequence + 1; outcome = o; state = state; updated = now })
          t
          u
  update_safety-Rewritten id r o state s now found h =
      let x = update_safety-Updated b t u _ s now h in
      record {
        found = found_own id t r found;
        executions = x.executions;
        same_id = refl;
        same_job = refl;
        released = Safety.terminal s.state;
        protections = x.protections;
        identities = x.identities;
      }

  -- The state that an outcome gives is never the first one.
  pub state_for-admitted :
      (r : Execution.Record) (o : Outcome) (now : ℕ)
      → same_state (state_for r o now) admitted ≡ false
  unfolding state_for
  state_for-admitted r o now = ground arith

  record_outcome-Written :
      (id : ℕ) (r : Execution.Record) (o : Outcome) (now : Times)
      → loaded id t ≡ some r
      → record_outcome b r o now t ≡ ok (tt, u)
      → (t ≡ u) ⊎ Written t u
  unfolding record_outcome
  record_outcome-Written id r o now found h =
      moved-ok b t u _ r _ _ _ inl
        (λ r' m. inr (
          r,
          _,
          transition-Rewritten id r r' _ _ _ found m,
          inl (state_for-admitted r o now.at_state),
        ))
        h

  pub save_outcome-Written :
      (id : ℕ) (o : Outcome) (now : Times)
      → save_outcome b id o now t ≡ ok (tt, u)
      → (t ≡ u) ⊎ Written t u
  unfolding save_outcome
  save_outcome-Written id o now h =
      let (r, found, h1) = one-ok _ _ _ _ h in
      branches-ok b t u (Execution.terminal r.state) (damaged (lookup id t.safe_applies))
        (settled_safely (lookup id t.safe_applies)) (record_outcome b r o now) inl
        (record_outcome-Written id r o now found) h1

  pub save_safety-Written :
      (r : Execution.Record) (s : Safety.Record) (now : ℕ)
      → save_safety b r s now t ≡ ok (tt, u)
      → Written t u
  unfolding save_safety
  save_safety-Written r s now h =
      let (current, found, h1) = one-ok _ _ _ _ h in
      let (e, h2) = guard-ok _ _ _ _ h1 in
      (
        current,
        _,
        update_safety-Rewritten r.id current current.outcome current.state s now found h2,
        inr refl,
      )

Rewritten-later :
    (old new : Execution.Record) (t w u : Tables)
    → Rewritten old new t w
    → SameRest w u
    → Rewritten old new t u
Rewritten-later old new t w u x e = record {
  found = x.found;
  executions = e.executions ∙ x.executions;
  same_id = x.same_id;
  same_job = x.same_job;
  released = x.released;
  protections = e.protections ∙ x.protections;
  identities = e.identities ∙ x.identities;
}

module _ (b : Budget) (v : Decision.Told) (r : Execution.Record) (s : Safety.Record)
    (t u : Tables) where
  finish-Rewritten :
      (next : Safety.Record) (id : ℕ) (current : Execution.Record) (o : Outcome)
      (state : Execution.State) (result : String)
      → loaded id t ≡ some current
      → finish b v r s (record current { outcome = o; state = state }) next result t ≡ ok (tt, u)
      → Rewritten current
          (record current {
            sequence = current.sequence + 1;
            outcome = o;
            state = state;
            updated = v.save_now;
          })
          t
          u
  unfolding finish
  finish-Rewritten next id current o state result found h =
      let (_, w, h1, h2) = chain-ok _ _ h in
      Rewritten-later current _ t w u
        (update_safety-Rewritten b t w id current o state next v.save_now found h1)
        (append-SameRest b _ w u h2).0

  choice-Written :
      (choice : Choice) (id : ℕ) (current : Execution.Record) (o : Outcome)
      → loaded id t ≡ some current
      → apply_choice b v r s choice o current t ≡ ok (tt, u)
      → Written t u
  unfolding apply_choice chain
  choice-Written confirm id current o found h =
      let (e1, h1) = guard-ok _ _ _ _ h in
      let (_, w, s2, h2) = chain-ok _ _ h1 in
      let same = refuse-same v.authority t w s2 in
      (
        current,
        _,
        finish-Rewritten (confirmed_record v s) id current o (state_for current o v.state_now)
            "confirm" found
            (subst
              (λ z.
                finish b v r s (proved v current o) (confirmed_record v s) "confirm" z ≡ ok (tt, u))
              (sym same) h2),
        inl (state_for-admitted b t u current o v.state_now),
      )
  choice-Written rollback id current o found h =
      let (e1, h1) = guard-ok _ _ _ _ h in
      (
        current,
        _,
        finish-Rewritten (requested_record s) id current current.outcome current.state "rollback"
            found h1,
        inr refl,
      )
  choice-Written other id current o found h = cc

pub decide_tx-Written :
    (b : Budget) (v : Decision.Told) (r : Execution.Record) (s : Safety.Record) (t u : Tables)
    (id sequence : ℕ) (choice : Choice) (o : Outcome)
    → decide_tx b v r s id sequence choice o t ≡ ok (tt, u)
    → Written t u
unfolding decide_tx
decide_tx-Written b v r s t u id sequence choice o h =
    let (_, w, s1, h1) = chain-ok _ _ h in
    let (current, found, h2) = one-ok _ _ _ _ h1 in
    let (e, h3) = guard-ok _ _ _ _ h2 in
    subst (λ z. Written z u) (sym (refuse-same v.check t w s1))
      (choice-Written b v r s w u choice id current o found h3)

-- What `beforeSend` finds and writes.
pub record Sending (id : ℕ) (c : Authorization) (v : BeforeSend) (t u : Tables) : Type 0 where
  pub current : Execution.Record
  pub next : Execution.Record
  pub row : lookup id t.executions ≡ some current
  pub own : current.id ≡ id
  pub was : current.state ≡ admitted
  pub committing : next.state ≡ Execution.committing
  pub rewritten : Rewritten current next t u
  pub in_time : ltb v.wall c.expires ≡ true

is_admitted : (s : Execution.State) → same_state s admitted ≡ true → s ≡ admitted
is_admitted s h = ground arith

pub before_send-Sending :
    (b : Budget) (v : BeforeSend) (id : ℕ) (c : Authorization) (safe : Bool) (t u : Tables)
    → before_send b v id c safe t ≡ ok (tt, u)
    → Sending id c v t u
unfolding before_send
before_send-Sending b v id c safe t u h =
    let (_, w, s1, h1) = chain-ok _ _ h in
    let (e, h2) = guard-ok _ _ _ _ h1 in
    let (current, found, h3) = one-ok _ _ _ _ h2 in
    let (was, h4) = guard-ok _ _ _ _ h3 in
    let (_, x, s5, h5) = chain-ok _ _ h4 in
    let (r', y, s6, h6) = chain-ok _ _ h5 in
    let (own, row) = loaded-row id w current found in
    let m =
      subst (λ z. transition b current intended Execution.committing v.now z ≡ ok (r', y))
        (sym (safe_ready-same safe v.clock id w x s5)) s6 in
    let m' =
      subst (λ z. transition b current intended Execution.committing v.now w ≡ ok (r', z))
        (ok-injective h6).1 m in
    subst (λ z. Sending id c v z u) (sym (unchanged-ok v.fresh c t w s1).3)
      (record {
        current = current;
        next = _;
        row = row;
        own = own;
        was = is_admitted current.state was;
        committing = refl;
        rewritten =
            transition-Rewritten b w u id current r' intended Execution.committing v.now found m';
        in_time = e;
      })
