-- ===== src/Executions/Submit.antt =====
-- internal/repository/executions/engine.go: `submit`, which runs the change itself, and `SubmitSafe`,
-- which leaves that to a worker that holds the claim. What a call is told is the record `Visit`, and
-- what `run` is told is the record `Work`.
pub mod Run
pub mod Ends
pub mod Once
mod Examples
use ovs_webui.Prelude.{
  ℕ, Bool, true, false, not, ◌&&◌, ◌||◌, String, List, [], ◌∷◌, ◌++◌, Option, none, some, ◌==◌,
  if◌then◌else◌, is_some,
}
use ovs_webui.Execution
use ovs_webui.Execution.{Authorization, Plan, Outcome, committed, same_commit}
use ovs_webui.Receipts.{management_id}
use ovs_webui.Store.{
  Error, Store, Result, ok, err, Tx, write, Fault, unavailable, invalid_execution,
  safe_apply_required, safe_apply_capability_unavailable, management_path_unverified,
  execution_busy,
}
use ovs_webui.Evidence.{Budget}
use ovs_webui.Requests
use ovs_webui.Requests.{Command, Mutation, Reply, Digests}
use ovs_webui.Requests.Calls.{replay, execute}
use ovs_webui.Requests.Encoding.{Json, Bytes}
use ovs_webui.Executions.{
  Engine, Call, Times, Sent, claim, claimed, release, in_store, save_outcome,
}
use ovs_webui.Executions.Admission
use ovs_webui.Executions.Admission.{Request, SafeAdmission, BeforeSend, admission, before_send}

-- A Safe Apply comes with the command of its own request.
pub record SafeCall : Type 0 where
  pub command : Command
  pub admission : SafeAdmission

-- `lease` is `none` where there is no lease, and holds the answer of its check. The plan and its
-- graph, which `Prepare` gives unless it fails, are those of `told`.
pub record Visit : Type 0 where
  pub within_budget : Bool
  pub payload : Option Json
  pub first : Result Authorization
  pub replay_check : Option Error
  pub lease : Option (Option Error)
  pub configured : Bool
  pub boot : ℕ
  pub probe_ok : Bool
  pub second : Result Authorization
  pub prepare : Option Error
  pub told : Admission.Told
  pub request : Requests.Told
  pub fault : Fault

abbrev pub Answer : Type 0
Answer = Result Reply × Engine

-- "/api/v1/transactions"
abbrev transactions_uri : Bytes
transactions_uri =
    b'/' ∷ b'a' ∷ b'p' ∷ b'i' ∷ b'/' ∷ b'v' ∷ b'1' ∷ b'/' ∷ b't' ∷ b'r' ∷ b'a' ∷ b'n' ∷ b's' ∷ b'a'
    ∷ b'c' ∷ b't' ∷ b'i' ∷ b'o' ∷ b'n' ∷ b's' ∷ []

pub safe_admission : Option SafeCall → Option SafeAdmission
safe_admission none = none
safe_admission (some s) = some s.admission

-- What `run` is told. `reaches_send` says that `Commit` runs its callback, and `writes` that it
-- then writes the mutation; `reply` is the outcome that it returns.
pub record Work : Type 0 where
  pub lease : Option Error
  pub before : BeforeSend
  pub before_fault : Fault
  pub reaches_send : Bool
  pub writes : Bool
  pub reply : Outcome
  pub reply_times : Times
  pub reply_fault : Fault
  pub observe : Plan → Outcome → Outcome
  pub observed_times : Times
  pub observed_fault : Fault

module _ (b : Budget) (w : Work) (id : ℕ) (c : Authorization) (safe : Bool) (p : Plan) where
  unfoldable pub let_go : Call → Engine
  let_go (err x, e) = e
  let_go (ok u, e) =
      if w.writes
      then record e {
        sent = e.sent ++ (record { transaction = id; rollback = false; plan = p } ∷ []);
      }
      else e

  unfoldable pub lease_checked : Option Error → Engine → Call
  lease_checked (some x) e = (err x, e)
  lease_checked none e =
      in_store (write w.before_fault (before_send b w.before id c safe) e.store) e

  -- `provider.Commit(ctx, p, beforeSend)`
  unfoldable pub provider_commit : Engine → Engine
  provider_commit e = if w.reaches_send then let_go (lease_checked w.lease e) else e

  unfoldable pub reply_observed : Call → Call
  reply_observed (err x, e) = (err x, e)
  reply_observed (ok u, e) =
      if same_commit w.reply.commit committed
      then in_store
          (write w.observed_fault (save_outcome b id (w.observe p w.reply) w.observed_times)
            e.store)
          e
      else (ok tt, e)

  -- `run`
  unfoldable pub run_worker : Engine → Call
  run_worker e =
      let e' = provider_commit e in
      reply_observed
        (in_store (write w.reply_fault (save_outcome b id w.reply w.reply_times) e'.store) e')

  -- `run` and the release of the claim behind it: the worker of a Safe Apply, or else the last step of
  -- `submit`.
  unfoldable pub work : Engine → Call
  work e = let (x, e') = run_worker e in (x, release id e')

module _ (g : Digests) (b : Budget) (v : Visit) (q : Request) (safe : Option SafeCall)
    (w : Work) where
  unfoldable pub command_for : Authorization → Option SafeCall → Command
  command_for c (some s) = s.command
  command_for c none = record {
    principal = c.owner;
    epoch = c.epoch;
    domain = "management";
    id = q.id;
    operation = "createTransaction";
    method = "POST";
    uri = transactions_uri;
    precondition = "";
    payload = v.payload;
    sensitive = false;
    key = none;
    secret_response = false;
  }

  -- `authorization`: the authorizer is asked in a read of the store.
  abbrev pub authorization : Result Authorization → Engine → Result Authorization
  authorization a e = if e.store.readable then a else err unavailable

  -- Without a Safe Apply the call waits for `run`, and returns its error.
  unfoldable pub finished : Reply → Call → Answer
  finished r (err x, e) = (err x, e)
  finished r (ok u, e) = (ok r, e)

  -- The claim is handed to the worker of a Safe Apply; without one, `run` is a part of the call.
  unfoldable pub started : Option SafeCall → Authorization → Reply → Engine → Answer
  started (some s) c r e = (ok r, e)
  started none c r e = finished r (work b w v.told.id c false v.told.plan e)

  -- What follows `Execute`
  unfoldable pub accepted : Authorization → Result Reply × Store → Engine → Answer
  accepted c (err x, s) e = (err x, release v.told.id (record e { store = s }))
  accepted c (ok r, s) e =
      if r.replayed
      then (ok r, release v.told.id (record e { store = s }))
      else started safe c r (record e { store = s })

  unfoldable pub claiming : Command → Authorization → Engine → Answer
  claiming command c e =
      if claimed v.told.id e
      then (err execution_busy, e)
      else accepted c
          (execute g v.request v.fault command (admission v.told b q c (safe_admission safe))
            (claim v.told.id e).store)
          (claim v.told.id e)

  unfoldable pub preparing : Command → Option Error → Authorization → Engine → Answer
  preparing command (some x) c e = (err x, e)
  preparing command none c e = claiming command c e

  unfoldable pub granted : Command → Result Authorization → Engine → Answer
  granted command (err x) e = (err x, e)
  granted command (ok c) e = preparing command v.prepare c e

  -- `safetyReady`
  unfoldable pub safety_ready : Option SafeCall → Engine → Result (Unit {0})
  safety_ready none e = ok tt
  safety_ready (some s) e =
      if not (v.configured && e.store.writable) || v.boot == 0
      then err safe_apply_capability_unavailable
      else if v.probe_ok
      then ok tt
      else err management_path_unverified

  unfoldable pub guarded : Command → Result (Unit {0}) → Engine → Answer
  guarded command (err x) e = (err x, e)
  guarded command (ok u) e = granted command (authorization v.second e) e

  unfoldable pub leased : Command → Option (Option Error) → Engine → Answer
  leased command none e = (err safe_apply_required, e)
  leased command (some (some x)) e = (err x, e)
  leased command (some none) e = guarded command (safety_ready safe e) e

  unfoldable pub replayed : Command → Result (Option Reply) → Engine → Answer
  replayed command (err x) e = (err x, e)
  replayed command (ok (some r)) e = (ok r, e)
  replayed command (ok none) e = leased command v.lease e

  unfoldable pub authorized : Result Authorization → Engine → Answer
  authorized (err x) e = (err x, e)
  authorized (ok c) e =
      replayed (command_for c safe) (replay g v.replay_check (command_for c safe) e.store) e

  -- `submit`
  unfoldable pub submit : Engine → Answer
  submit e =
      if not (v.within_budget && management_id q.validation)
      then (err invalid_execution, e)
      else authorized (authorization v.first e) e
