-- ===== src/Executions/Moves.antt =====
-- internal/repository/executions: the transactions that write the journal of executions, each of which
-- went through: the admission, the one before the bytes are sent, the outcome, the watchdog's and the
-- user's. A run of them, in any order, of any executions, keeps the list of what was sent.
pub mod Effects
pub mod Dispatch
pub mod Sound
use ovs_webui.Prelude.{ℕ, ◌+◌, Bool, List, [], ◌∷◌, Option, ◌≡◌, ◌==◌, count}
use ovs_webui.Execution
use ovs_webui.Execution.{Authorization, Outcome}
use ovs_webui.Safety
use ovs_webui.Store.{Tables, ok}
use ovs_webui.Evidence.{Budget}
use ovs_webui.Requests.{Mutation}
use ovs_webui.Executions.{Times, save_outcome}
use ovs_webui.Executions.Watchdog.{save_safety}
use ovs_webui.Executions.Decision
use ovs_webui.Executions.Decision.{Choice, decide_tx}
use ovs_webui.Executions.Admission
use ovs_webui.Executions.Admission.{Request, SafeAdmission, BeforeSend, admission, before_send}

module _ (b : Budget) where
  pub data Move (t u : Tables) : Type 0 where
    admits :
        (v : Admission.Told) (q : Request) (c : Authorization) (safe : Option SafeAdmission)
        (m : Mutation)
        → admission v b q c safe t ≡ ok (m, u)
        → Move t u
    sends :
        (v : BeforeSend) (id : ℕ) (c : Authorization) (safe : Bool)
        → before_send b v id c safe t ≡ ok (tt, u)
        → Move t u
    reports :
        (id : ℕ) (o : Outcome) (now : Times) → save_outcome b id o now t ≡ ok (tt, u) → Move t u
    watches :
        (r : Execution.Record) (s : Safety.Record) (now : ℕ)
        → save_safety b r s now t ≡ ok (tt, u)
        → Move t u
    decides :
        (v : Decision.Told) (r : Execution.Record) (s : Safety.Record) (id sequence : ℕ)
        (choice : Choice) (o : Outcome)
        → decide_tx b v r s id sequence choice o t ≡ ok (tt, u)
        → Move t u

  -- The executions whose bytes a move lets go.
  pub sent_by : {t u : Tables} → Move t u → List ℕ
  sent_by (admits v q c safe m h) = []
  sent_by (sends v id c safe h) = id ∷ []
  sent_by (reports id o now h) = []
  sent_by (watches r s now h) = []
  sent_by (decides v r s id sequence choice o h) = []

  pub data Run : Tables → Tables → Type 0 where
    done : {t : Tables} → Run t t
    after : {t u w : Tables} → Move t u → Run u w → Run t w

  -- How often a run lets the bytes of an execution go.
  pub dispatches : {t u : Tables} → ℕ → Run t u → ℕ
  dispatches id done = 0
  dispatches id (after m r) = count (λ j. j == id) (sent_by m) + dispatches id r
