-- ===== src/Jobs.antt =====
-- internal/repository/evidence/types.go: jobs, and the records of the event and audit collections.
use Prim.Native.Char.{code as code_point}
use ovs_webui.Prelude.{
  ℕ, Bool, true, false, ◌&&◌, ◌||◌, String, str_eq, List, [], ◌∷◌, Option, leb, ◌==◌, length, every,
}
use ovs_webui.Execution.{Commit, Applied}

pub data State : Type 0 where
  queued running cancel_requested needs_attention succeeded failed cancelled : State

pub data Dispatch : Type 0 where
  not_started prepared sent unknown completed : Dispatch

pub data Business : Type 0 where
  unknown success failure cancelled : Business

-- `none` is "not-applicable", here and for the outcomes of a job.
pub data Confirmation : Type 0 where
  pending confirmed expired : Confirmation

pub data Handler : Type 0 where
  tls_activation provider field_execution : Handler

-- An optional identifier or time is `none` where the source has "" or nil.
pub record Job : Type 0 where
  pub id : ℕ
  pub sequence : ℕ
  pub state : State
  pub operation : String
  pub owner : ℕ
  pub transaction : Option ℕ
  pub cancellable : Bool
  pub cancel_requested : Bool
  pub dispatch : Dispatch
  pub business : Business
  pub commit : Option Commit
  pub applied : Option Applied
  pub confirmation : Option Confirmation
  pub reason : String
  pub handler : Option Handler
  pub created : ℕ
  pub updated : ℕ
  pub completed_at : Option ℕ

-- `Transition`: an empty field leaves the job's value.
pub record Transition : Type 0 where
  pub state : State
  pub dispatch : Option Dispatch
  pub business : Option Business
  pub commit : Option Commit
  pub applied : Option Applied
  pub confirmation : Option Confirmation
  pub reason : String

pub data Collection : Type 0 where
  event audit : Collection

-- What the journal of evidence keeps; `dedup` is the deduplication key, `digest` the fingerprint.
pub record Entry : Type 0 where
  pub collection : Collection
  pub operation : String
  pub result : String
  pub reason : String
  pub job : Option ℕ
  pub transaction : Option ℕ
  pub created : ℕ
  pub critical : Bool
  pub dedup : Option ℕ
  pub digest : ℕ

abbrev pub max_jobs : ℕ
max_jobs = 100000

abbrev pub max_events : ℕ
max_events = 100000

abbrev pub max_audit : ℕ
max_audit = 500000

abbrev pub max_queued : ℕ
max_queued = 16

abbrev pub max_running : ℕ
max_running = 2

abbrev pub reserved_control_records : ℕ
reserved_control_records = 128

-- `Terminal`
abbrev pub terminal : State → Bool
terminal succeeded = true
terminal failed = true
terminal State.cancelled = true
terminal _ = false

is_alphanumeric : ℕ → Bool
is_alphanumeric c =
    (leb b'a' c && leb c b'z') || (leb b'A' c && leb c b'Z') || (leb b'0' c && leb c b'9')

is_code_character : ℕ → Bool
is_code_character c = is_alphanumeric c || c == b'_' || c == b'.' || c == b':' || c == b'-'

code_points : String → List ℕ
code_points String.[] = []
code_points (String.◌∷◌ c s) = code_point c ∷ code_points s

matches_code : List ℕ → Bool
matches_code [] = false
matches_code (c ∷ cs) = is_alphanumeric c && every is_code_character cs && leb (length cs) 127

-- `code`: ^[A-Za-z0-9][A-Za-z0-9_.:-]{0,127}$
unfoldable pub code : String → Bool
unfolding is_alphanumeric is_code_character code_points matches_code
code s = matches_code (code_points s)

-- `ControlOperation`
unfoldable pub control_operation : String → Bool
control_operation op =
    str_eq op "cancelJob"
    || str_eq op "confirmCertificate"
    || str_eq op "decideTransaction"
    || str_eq op "reconcileTransaction"

abbrev pub same_state : State → State → Bool
same_state queued queued = true
same_state running running = true
same_state cancel_requested cancel_requested = true
same_state needs_attention needs_attention = true
same_state succeeded succeeded = true
same_state failed failed = true
same_state State.cancelled State.cancelled = true
same_state _ _ = false

abbrev pub state_name : State → String
state_name queued = "queued"
state_name running = "running"
state_name cancel_requested = "cancel-requested"
state_name needs_attention = "needs-attention"
state_name succeeded = "succeeded"
state_name failed = "failed"
state_name State.cancelled = "cancelled"
