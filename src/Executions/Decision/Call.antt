-- ===== src/Executions/Decision/Call.antt =====
-- internal/repository/executions/safety.go: the whole of `Decide`, with the receipt of its request.
-- It is taken as one turn: while `claimDecision` waits, other calls take theirs.
pub mod Effect
pub mod History
use ovs_webui.Prelude.{ℕ, Bool, true, false, not, ◌&&◌, Option, none, some, if◌then◌else◌, String}
use ovs_webui.Execution
use ovs_webui.Execution.{Outcome}
use ovs_webui.Safety
use ovs_webui.Store.{
  Error, Tables, Store, Result, ok, err, Tx, Fault, pure, ◌>>=◌, ◌>>◌, chain, canceled,
  transaction_busy, safe_apply_capability_unavailable,
}
use ovs_webui.Evidence.{Budget}
use ovs_webui.Receipts.{Ref}
use ovs_webui.Requests
use ovs_webui.Requests.{Command, Mutation, Reply, Digests}
use ovs_webui.Requests.Calls.{replay, execute}
use ovs_webui.Executions.{Engine, claim, claimed, release, read_record, absent}
use ovs_webui.Executions.Watchdog.{read_safety}
use ovs_webui.Executions.Decision
use ovs_webui.Executions.Decision.{Choice, confirm, rollback, other, decision_checks, decide_tx}

-- What one call is told: the answers of `check` before the two replays, whether a watchdog is
-- configured, whether the context ends while the call waits for the claim, and what the checks, the
-- request and its commit meet.
pub record Visit : Type 0 where
  pub first_check : Option Error
  pub second_check : Option Error
  pub configured : Bool
  pub ended : Bool
  pub told : Decision.Told
  pub request : Requests.Told
  pub fault : Fault

abbrev pub Answer : Type 0
Answer = Result Reply × Engine

abbrev pub is_confirm : Choice → Bool
is_confirm confirm = true
is_confirm rollback = false
is_confirm other = false

-- The response of a decision; its body, an empty object, is 0.
abbrev pub response : ℕ → ℕ → Choice → Mutation
response id job choice = record {
  status = 202;
  body = 0;
  body_ok = true;
  resource = some (record { kind = "transaction"; id = id });
  job = some (record { kind = "job"; id = job });
  terminal = is_confirm choice;
  secret_response = false;
}

module _ (g : Digests) (b : Budget) (v : Visit) (c : Command) (id sequence : ℕ)
    (choice : Choice) where
  -- The callback that the request is executed with.
  unfoldable pub decision : Execution.Record → Safety.Record → Outcome → Tx Mutation
  decision r s o = do decide_tx b v.told r s id sequence choice o; pure (response id r.job choice)

  unfoldable pub checked : Execution.Record → Safety.Record → Result Outcome → Engine → Answer
  checked r s (err x) e = (err x, e)
  checked r s (ok o) e =
      let (x, st) = execute g v.request v.fault c (decision r s o) e.store in
      (x, record e { store = st })

  unfoldable pub decided : Option Execution.Record → Option Safety.Record → Engine → Answer
  decided (some r) (some s) e = checked r s (decision_checks v.told sequence choice r s) e
  decided _ _ e = (err (absent id e), e)

  -- The second replay, behind the claim.
  unfoldable pub undecided : Result (Option Reply) → Engine → Answer
  undecided (err x) e = (err x, e)
  undecided (ok (some r)) e = (ok r, e)
  undecided (ok none) e = decided (read_record id e) (read_safety id e) e

  unfoldable pub waiting : Engine → Answer
  waiting e =
      if v.ended
      then (err canceled, e)
      else if claimed id e
      then (err transaction_busy, e)
      else (let (x, e') = undecided (replay g v.second_check c (claim id e).store) (claim id e) in
          (x, release id e'))

  unfoldable pub fresh : Result (Option Reply) → Engine → Answer
  fresh (err x) e = (err x, e)
  fresh (ok (some r)) e = (ok r, e)
  fresh (ok none) e =
      if v.configured && e.store.writable
      then waiting e
      else (err safe_apply_capability_unavailable, e)

  -- `Decide`
  unfoldable pub decide : Engine → Answer
  decide e = fresh (replay g v.first_check c e.store) e
