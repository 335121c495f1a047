-- ===== src/Ipc/Examples.antt =====
-- Two calls of a class that runs one and lets none wait.
use ovs_webui.Prelude.{ℕ, false, ◌*◌, ◌≤◌, ◌≡◌, refl, List, [], ◌∷◌, length, count, arith}
use ovs_webui.Ipc.{
  Tokens, Budget, Phase, arriving, missed, running, refused, Turn, here, there, Turns, stop, then_,
  move, on_active, on_waiting, or_else, put_token, take_token,
}
use ovs_webui.Ipc.Bounds.{IsWithin, Turns-IsWithin, refused_full, is_waiting}
use ovs_webui.Ipc.Moves.{made}
use ovs_webui.Ipc.Progress.{Drained, calls_end}

abbrev narrow : Budget
narrow = record { active = 1; waiting = 0 }

abbrev start : Tokens × List Phase
start = (record { active = 0; waiting = 0 }, arriving ∷ arriving ∷ [])

abbrev one_runs : Tokens × List Phase
one_runs = (record { active = 1; waiting = 0 }, running ∷ missed ∷ [])

abbrev one_refused : Tokens × List Phase
one_refused = (record { active = 1; waiting = 0 }, running ∷ refused ∷ [])

start-IsWithin : IsWithin narrow start
start-IsWithin = record {
  active = refl;
  waiting = refl;
  active_bound = omega arith;
  waiting_bound = omega arith;
}

run_to_refusal : Turns narrow 2 start one_runs
unfolding move on_active on_waiting or_else put_token take_token
run_to_refusal = then_ (here false refl) (then_ (there running (here false refl)) stop)

refusal : Turn narrow one_runs one_refused
unfolding move on_active on_waiting or_else put_token take_token
refusal = there running (here false refl)

Turns-IsWithin_example : IsWithin narrow one_runs
Turns-IsWithin_example = Turns-IsWithin narrow run_to_refusal start-IsWithin

refused_full_example : count is_waiting one_runs.1 ≡ 0
refused_full_example = refused_full narrow start-IsWithin run_to_refusal refusal (omega arith)

calls_end_example :
    ((i : ℕ) → made i run_to_refusal ≤ 5) × (2 ≤ 5 * length start.1) × Drained narrow one_runs
calls_end_example = calls_end narrow (omega arith) start-IsWithin run_to_refusal
