-- ===== src/Executions/Admission/Checks.antt =====
-- internal/repository/executions/engine.go: the checks of an admission and of a dispatch change
-- nothing.
use ovs_webui.Prelude.{ℕ, ◌≡◌, refl, Bool, true, false, Option, none, some}
use ovs_webui.Execution.{Authorization}
use ovs_webui.Safety
use ovs_webui.Store.{
  Error, Tables, Result, ok, err, guard, execution_authority_changed, ok-injective,
}
use ovs_webui.Requests.{refuse}
use ovs_webui.Executions.Watchdog.{loaded_safety}
use ovs_webui.Executions.Admission.{same_authorization, unchanged, safe_ready, ready}

checked : (c : Bool) (e : Error) (t u : Tables) → guard c e t ≡ ok (tt, u) → (c ≡ true) × (t ≡ u)
unfolding guard
checked true e t u h = (refl, (ok-injective h).1)
checked false e t u h = cc

pub refuse-same : (o : Option Error) (t u : Tables) → refuse o t ≡ ok (tt, u) → t ≡ u
unfolding refuse
refuse-same none t u h = (ok-injective h).1
refuse-same (some e) t u h = cc

pub unchanged-ok :
    (f : Result Authorization) (c : Authorization) (t u : Tables)
    → unchanged f c t ≡ ok (tt, u)
    → (a : Authorization) × (f ≡ ok a) × (same_authorization a c ≡ true) × (t ≡ u)
unfolding unchanged guard
unchanged-ok (err e) c t u h = cc
unchanged-ok (ok a) c t u h =
    let (e, same) = checked (same_authorization a c) execution_authority_changed t u h in
    (a, refl, e, same)

ready-same :
    (clock : Safety.Clock) (o : Option Safety.Record) (t u : Tables)
    → ready clock o t ≡ ok (tt, u)
    → t ≡ u
unfolding ready
ready-same clock none t u h = cc
ready-same clock (some s) t u h = (checked _ _ t u h).1

pub safe_ready-same :
    (safe : Bool) (clock : Safety.Clock) (id : ℕ) (t u : Tables)
    → safe_ready safe clock id t ≡ ok (tt, u)
    → t ≡ u
unfolding safe_ready
safe_ready-same false clock id t u h = (ok-injective h).1
safe_ready-same true clock id t u h = ready-same clock (loaded_safety id t) t u h
