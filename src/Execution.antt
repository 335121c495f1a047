-- ===== src/Execution.antt =====
-- internal/execution/types.go: the plan, outcome and journal record of a field execution.
-- Identifiers and digests are numbers.
use ovs_webui.Prelude.{ℕ, Bool, true, false, ◌&&◌, String, str_eq, Option, none, some, ◌==◌}

-- What the journal keeps of a plan: its identity and the digest of all the rest.
pub record Plan : Type 0 where
  pub id : ℕ
  pub generation : ℕ
  pub root : ℕ
  pub marker : ℕ
  pub digest : ℕ

pub data Commit : Type 0 where
  not_sent unknown committed rejected : Commit

pub data Applied : Type 0 where
  not_applied unknown pending applied : Applied

pub record Outcome : Type 0 where
  pub commit : Commit
  pub applied : Applied
  pub reason : String
  pub target : Option ℕ
  pub current : Option ℕ
  pub observed : Option ℕ

pub record Authorization : Type 0 where
  pub owner : ℕ
  pub credential : ℕ
  pub epoch : ℕ
  pub policy : ℕ
  pub provider_policy : ℕ
  pub change_set : ℕ
  pub validation : ℕ
  pub scope : ℕ
  pub expires : ℕ
  pub field_capabilities : ℕ

pub data State : Type 0 where
  admitted committing applying succeeded failed recovery_required : State

pub record Record : Type 0 where
  pub id : ℕ
  pub sequence : ℕ
  pub state : State
  pub owner : ℕ
  pub request_id : ℕ
  pub job : ℕ
  pub correlation : ℕ
  pub validation : ℕ
  pub candidate : ℕ
  pub candidate_revision : ℕ
  pub generation : ℕ
  pub created : ℕ
  pub updated : ℕ
  pub outcome : Outcome
  pub authorization : Authorization
  pub plan : Plan

abbrev pub applied_for : ℕ
applied_for = 15000000000

abbrev pub same_commit : Commit → Commit → Bool
same_commit not_sent not_sent = true
same_commit Commit.unknown Commit.unknown = true
same_commit committed committed = true
same_commit rejected rejected = true
same_commit _ _ = false

abbrev pub same_applied : Applied → Applied → Bool
same_applied not_applied not_applied = true
same_applied Applied.unknown Applied.unknown = true
same_applied pending pending = true
same_applied applied applied = true
same_applied _ _ = false

abbrev same_option : Option ℕ → Option ℕ → Bool
same_option none none = true
same_option (some a) (some b) = a == b
same_option _ _ = false

-- `sameOutcome` of executions/engine.go: the time of the observation does not count.
unfoldable pub same_outcome : Outcome → Outcome → Bool
same_outcome a b =
    same_commit a.commit b.commit
    && same_applied a.applied b.applied
    && str_eq a.reason b.reason
    && same_option a.target b.target
    && same_option a.current b.current

abbrev pub same_plan : Plan → Plan → Bool
same_plan a b =
    a.id == b.id
    && a.generation == b.generation
    && a.root == b.root
    && a.marker == b.marker
    && a.digest == b.digest

abbrev pub same_state : State → State → Bool
same_state admitted admitted = true
same_state committing committing = true
same_state applying applying = true
same_state succeeded succeeded = true
same_state failed failed = true
same_state recovery_required recovery_required = true
same_state _ _ = false

abbrev pub state_name : State → String
state_name admitted = "admitted"
state_name committing = "committing"
state_name applying = "applying"
state_name succeeded = "succeeded"
state_name failed = "failed"
state_name recovery_required = "recovery-required"

-- `terminal` of executions/engine.go
abbrev pub terminal : State → Bool
terminal succeeded = true
terminal failed = true
terminal _ = false
