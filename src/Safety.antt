-- ===== src/Safety.antt =====
-- internal/safety/types.go and internal/tlscontrol/types.go: clock readings, deadlines and the
-- private record of a Safe Apply. Times are nanoseconds since 1970; identifiers are
-- numbers, and 0 is the empty string.
pub mod Expiry
mod Examples
use ovs_webui.Prelude.{
  ℕ, ◌+◌, Bool, true, false, ◌||◌, String, Option, none, some, ltb, leb, ◌==◌, not,
}
use ovs_webui.Prelude.Int.{ℤ, ltb_ℤ, add_int64}
use ovs_webui.Execution.{Plan, Outcome}

pub record Clock : Type 0 where
  pub boot : ℕ
  pub ns : ℤ
  pub wall : ℕ

pub record Deadline : Type 0 where
  pub boot : ℕ
  pub start : ℤ
  pub end : ℤ
  pub started : ℕ
  pub wall : ℕ

abbrev pub confirmation_window : ℕ
confirmation_window = 120000000000

abbrev pub preparation_budget : ℕ
preparation_budget = 30000000000

-- `NewDeadline`
unfoldable pub new_deadline : Clock → ℕ → Deadline
new_deadline c duration = record {
  boot = c.boot;
  start = c.ns;
  end = add_int64 c.ns duration;
  started = c.wall;
  wall = c.wall + duration;
}

-- `Deadline.Expired`
unfoldable pub expired : Deadline → Clock → Bool
expired d c =
    d.boot == 0
    || not (c.boot == d.boot)
    || ltb_ℤ c.ns d.start
    || not (ltb_ℤ c.ns d.end)
    || ltb c.wall d.started
    || not (ltb c.wall d.wall)

pub data State : Type 0 where
  preparing awaiting_confirmation confirmed : State
  rollback_requested rolling_back rolled_back rollback_conflict : State
  recovery_required not_committed : State

pub record Record : Type 0 where
  pub last_wall : ℕ
  pub state : State
  pub reason : String
  pub domain : ℕ
  pub reservation : ℕ
  pub fingerprint : ℕ
  pub trigger : String
  pub preparation : Deadline
  pub confirmation : Option Deadline
  pub healthy_at : Option ℕ
  pub probe_failures : ℕ
  pub rollback : Option Plan
  pub outcome : Outcome

-- `Terminal`
abbrev pub terminal : State → Bool
terminal confirmed = true
terminal rolled_back = true
terminal not_committed = true
terminal _ = false

abbrev pub same_state : State → State → Bool
same_state preparing preparing = true
same_state awaiting_confirmation awaiting_confirmation = true
same_state confirmed confirmed = true
same_state rollback_requested rollback_requested = true
same_state rolling_back rolling_back = true
same_state rolled_back rolled_back = true
same_state rollback_conflict rollback_conflict = true
same_state recovery_required recovery_required = true
same_state not_committed not_committed = true
same_state _ _ = false

-- The state as the journal and the audit spell it.
abbrev pub state_name : State → String
state_name preparing = "preparing"
state_name awaiting_confirmation = "awaiting-confirmation"
state_name confirmed = "confirmed"
state_name rollback_requested = "rollback-requested"
state_name rolling_back = "rolling-back"
state_name rolled_back = "rolled-back"
state_name rollback_conflict = "rollback-conflict"
state_name recovery_required = "recovery-required"
state_name not_committed = "not-committed"
