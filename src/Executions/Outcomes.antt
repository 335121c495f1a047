-- ===== src/Executions/Outcomes.antt =====
-- internal/repository/executions/engine.go: what an outcome of the provider makes of a record.
use ovs_webui.Prelude.{ℕ, ◌≡◌, refl, true, some}
use ovs_webui.Execution
use ovs_webui.Execution.{Outcome, State, Commit, Applied, terminal, same_state}
use ovs_webui.Store.{Tables, ok, one, chain}
use ovs_webui.Evidence.{Budget}
use ovs_webui.Executions.{save_outcome, Times, loaded}

-- A record that has reached a terminal state keeps it: no outcome changes the tables.
pub save_outcome-terminal :
    (b : Budget) (id : ℕ) (o : Outcome) (now : Times) (t : Tables) (r : Execution.Record)
    → loaded id t ≡ some r
    → terminal r.state ≡ true
    → save_outcome b id o now t ≡ ok (tt, t)
unfolding save_outcome chain one
save_outcome-terminal b id o now t r found done = rw found (rw done refl)
