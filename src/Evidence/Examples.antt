-- ===== src/Evidence/Examples.antt =====
-- The journals of evidence with one job and one entry.
use ovs_webui.Prelude.{
  ◌+◌, arith, ◌+◌, ◌≡◌, refl, true, false, [], ◌∷◌, ◌++◌, none, some, lookup, update,
}
use ovs_webui.Jobs
use ovs_webui.Jobs.{Job, Transition, Entry, terminal}
use ovs_webui.Store.{Error, Tables, ok, err}
use ovs_webui.Evidence.{Budget, append, change_job, allows, capacity}
use ovs_webui.Evidence.Limits.{change_job_lem}
use ovs_webui.Evidence.Creation.{Draft, filled, create_job}
use ovs_webui.Evidence.Creation.Bounds.{IsWithin, create_job-IsWithin}

abbrev budget : Budget
budget = record {
  entry_fits = λ e. true;
  job_fits = λ j. true;
  execution_fits = λ r. true;
  safety_fits = λ s. true;
}

abbrev waiting : Job
waiting = record {
  id = 5;
  sequence = 2;
  state = Jobs.queued;
  operation = "tls-activation";
  owner = 1;
  transaction = none;
  cancellable = true;
  cancel_requested = false;
  dispatch = Jobs.not_started;
  business = Jobs.Business.unknown;
  commit = none;
  applied = none;
  confirmation = none;
  reason = "queued";
  handler = some Jobs.tls_activation;
  created = 100;
  updated = 120;
  completed_at = none;
}

abbrev finished : Job
finished = record waiting { state = Jobs.succeeded; completed_at = some 120 }

abbrev note : Entry
note = record {
  collection = Jobs.audit;
  operation = "login";
  result = "accepted";
  reason = "";
  job = none;
  transaction = none;
  created = 130;
  critical = false;
  dedup = some 8;
  digest = 4;
}

abbrev with_job : Job → Tables
with_job j = record {
  executions = [];
  safe_applies = [];
  journal = [];
  jobs = (5, j) ∷ [];
  protections = [];
  identities = [];
  receipts = [];
  entries = [];
  last_known_good = none;
  resolutions = [];
  safe_requests = [];
  anchors = [];
  revision = 0;
  authority_epoch = 1;
  high_watermark = 0;
}

abbrev noted : Tables
noted = record (with_job waiting) { entries = note ∷ [] }

abbrev start : Transition
start = record {
  state = Jobs.running;
  dispatch = none;
  business = none;
  commit = none;
  applied = none;
  confirmation = none;
  reason = "started";
}

abbrev started : Job
started = record waiting { sequence = 3; state = Jobs.running; reason = "started"; updated = 130 }

abbrev running_tables : Tables
running_tables = record (with_job started) {
  revision = 1;
  entries =
      record {
        collection = Jobs.event;
        operation = "job-state-changed";
        result = "running";
        reason = "started";
        job = some 5;
        transaction = none;
        created = 130;
        critical = true;
        dedup = none;
        digest = 0;
      }
      ∷ [];
}

change_job_lem_example :
    (j : Job) × (lookup 5 (with_job waiting).jobs ≡ some j)
    × (2 ≡ j.sequence)
    × (terminal j.state ≡ false)
    × (allows j start.state ≡ true)
    × (started.sequence ≡ j.sequence + 1)
    × (started.state ≡ start.state)
    × (running_tables.jobs ≡ update j.id started (with_job waiting).jobs)
unfolding change_job ovs_webui.Store.chain ovs_webui.Store.one ovs_webui.Store.guard allows
    Jobs.code ovs_webui.Evidence.advance append
change_job_lem_example =
    change_job_lem budget 5 2 start 130 (with_job waiting) running_tables started refl

abbrev draft : Draft
draft = record {
  id = 6;
  operation = "decideTransaction";
  owner = 1;
  transaction = some 3;
  cancellable = false;
  cancel_requested = false;
  state = some Jobs.running;
  dispatch = none;
  business = none;
  commit = none;
  applied = none;
  confirmation = none;
  reason = "";
  handler = none;
  created = 140;
}

abbrev created_tables : Tables
created_tables = elim (create_job budget draft (with_job waiting)) [
  | ok (_, u) ↦ u
  | err _ ↦ with_job waiting
]

waiting-IsWithin : IsWithin (with_job waiting).jobs
waiting-IsWithin = record { all = ground arith; waiting = ground arith; occupied = ground arith }

create_job-IsWithin_example :
    IsWithin created_tables.jobs
    × (created_tables.jobs ≡ (with_job waiting).jobs ++ ((6, filled draft) ∷ []))
    × ((filled draft).sequence ≡ 1)
unfolding create_job ovs_webui.Store.chain ovs_webui.Store.guard Jobs.code filled
    ovs_webui.Evidence.Creation.admits Jobs.control_operation ovs_webui.Evidence.Creation.insert_job
    append
create_job-IsWithin_example =
    create_job-IsWithin budget draft (with_job waiting) created_tables (filled draft) refl
      waiting-IsWithin
