-- ===== src/SpanningTree/Transition.antt =====
-- internal/spanningtree/transition.go: `AssessTransition`, for a change that keeps the protocol.
use ovs_webui.Prelude.{
  ◌-◌, ◌*◌, Bool, true, false, not, ◌&&◌, ◌||◌, str_eq, List, [], ◌∷◌, ◌++◌, Option, none, some,
  ltb, if◌then◌else◌,
}
use ovs_webui.SpanningTree.Parameters.{State, valid, validate}
use ovs_webui.SpanningTree.Runtime.{
  Configuration, Timers, LocalParameters, Protocol, stp, rstp, disabled, unknown, Runtime,
  runtime_name, values, same_local,
}

pub data Reason : Type 0 where
  transition_parameters_unproven protocol_transition_unproven installed_original_mismatch : Reason
  rstp_forward_timer_order_unproven rstp_rollback_timer_order_unproven : Reason
  rstp_initial_timer_order_unproven : Reason

pub data Verdict : Type 0 where
  compatible blocked : Verdict

pub record Transition : Type 0 where
  pub state : Verdict
  pub checks : List Reason

abbrev pub block : Reason → Transition
block r = record { state = blocked; checks = r ∷ [] }

abbrev is_valid : State → Bool
is_valid valid = true
is_valid _ = false

-- `Validate(c.STP, c.RSTP, c.Other).State == "valid"`
unfoldable pub admitted : Configuration → Bool
admitted c = is_valid (validate c.stp c.rstp c.other).state

flag : Option Bool → Bool
flag none = false
flag (some b) = b

-- The closure `protocol`, on a configuration that is valid: its flags are not nil.
unfoldable pub protocol_of_valid : Configuration → Protocol
unfolding flag
protocol_of_valid c = if flag c.stp then stp else if flag c.rstp then rstp else disabled

abbrev pub same_protocol : Protocol → Protocol → Bool
same_protocol stp stp = true
same_protocol rstp rstp = true
same_protocol disabled disabled = true
same_protocol unknown unknown = true
same_protocol _ _ = false

-- next.MaxAge > 2*(old.ForwardDelay-1)
abbrev pub out_of_order : Timers → Timers → Bool
out_of_order next old = ltb (2 * (old.forward_delay - 1)) next.max_age

-- The two checks of the order in which the native setters run.
unfoldable pub order_checks : Protocol → Timers → Timers → List Reason
order_checks rstp b a =
    (if out_of_order a b then rstp_forward_timer_order_unproven ∷ [] else [])
    ++ (if out_of_order b a then rstp_rollback_timer_order_unproven ∷ [] else [])
order_checks _ b a = []

conclude : List Reason → Transition
conclude [] = record { state = compatible; checks = [] }
conclude (r ∷ rs) = record { state = blocked; checks = r ∷ rs }

-- The rest of `AssessTransition`, once the protocol is settled.
assess_values : Protocol → LocalParameters → LocalParameters → Runtime → Transition
unfolding conclude
assess_values p b0 a installed =
    let b = record b0 { system_id = installed.local.system_id } in
    if not (same_local b installed.local) || str_eq installed.local.system_id ""
    then block installed_original_mismatch
    else conclude (order_checks p b.timers a.timers)

unfoldable pub assess_transition : Configuration → Configuration → Runtime → Transition
unfolding assess_values
assess_transition before after installed =
    if not (admitted before && admitted after)
    then block transition_parameters_unproven
    else let p = protocol_of_valid before in
      if same_protocol p disabled
        || not (same_protocol (protocol_of_valid after) p)
        || not (same_protocol installed.protocol p)
        || not (runtime_name installed.bridge_name)
      then block protocol_transition_unproven
      else assess_values p (values p before) (values p after) installed
