-- ===== src/Executions/Decision/Examples.antt =====
-- The watchdog finds the management path healthy, and the user confirms.
use ovs_webui.Prelude.{◌≡◌, ◌≤◌, refl, true, false, List, [], ◌∷◌, none, some, inl, lookup, arith}
use ovs_webui.Safety
use ovs_webui.Safety.{same_state}
use ovs_webui.Prelude.Int.{pos}
use ovs_webui.Store.{stored}
use ovs_webui.Requests.{Command}
use ovs_webui.Requests.Examples.{digests, put, version_7}
use ovs_webui.Executions.Examples.{budget, engine, safe_apply, revoked, done}
use ovs_webui.Executions.Watchdog.{Env}
use ovs_webui.Executions.Watchdog.Effect.{rows}
use ovs_webui.Executions.Watchdog.Run.{watchdog, sends}
use ovs_webui.Executions.Decision.{confirm}
use ovs_webui.Executions.Decision.Call.{Visit}
use ovs_webui.Executions.Decision.Call.History.{Act, worker, user, history, history-exclusive}

abbrev healthy_path : Env
healthy_path = record revoked { authorized = true }

abbrev visit : Visit
visit = record {
  first_check = none;
  second_check = none;
  configured = true;
  ended = false;
  told = record {
    first_clock = record { boot = 7; ns = pos 70; wall = 160 };
    domain = 9;
    observed = done;
    probe_ok = true;
    check = none;
    deadline_clock = record { boot = 7; ns = pos 71; wall = 161 };
    updated_clock = record { boot = 7; ns = pos 72; wall = 162 };
    last_clock = record { boot = 7; ns = pos 73; wall = 163 };
    confirmed_clock = record { boot = 7; ns = pos 74; wall = 164 };
    state_now = 165;
    save_now = 166;
    audit_now = 167;
    authority = none;
  };
  request = record { outer = none; inner = none; now = 168; correlation = 3 };
  fault = stored;
}

abbrev confirmation : Command
confirmation = record put { epoch = 1; id = version_7 0; operation = "confirmTransaction" }

abbrev acts : List Act
acts = worker (watchdog healthy_path 1) ∷ user visit confirmation 1 5 confirm ∷ []

history-exclusive_example :
    (s' : Safety.Record) × (lookup 1 (rows (history digests budget acts engine)) ≡ some s')
    × (sends 1 (history digests budget acts engine).sent ≤ 1)
    × (same_state s'.state Safety.confirmed ≡ true
        → sends 1 (history digests budget acts engine).sent ≡ 0)
unfolding sends
history-exclusive_example =
    history-exclusive digests budget acts 1 engine safe_apply refl (inl refl) (ground arith)
