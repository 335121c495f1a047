-- ===== src/SpanningTree/Execution.antt =====
-- internal/spanningtree/execution.go: `AssessExecutionTransition` and `AssessSetterOrder`, for a
-- change that may also enable, disable or switch the protocol.
pub mod Install
use ovs_webui.Prelude.{ℕ, Bool, true, false, not, ◌&&◌, ◌||◌, List, [], ◌∷◌, ltb, if◌then◌else◌}
use ovs_webui.SpanningTree.Runtime.{
  Configuration, Protocol, rstp, disabled, Runtime, runtime_name, protocol, expected_local,
}
use ovs_webui.SpanningTree.Transition.{
  Transition, Verdict, compatible, block, admitted, same_protocol, out_of_order,
  transition_parameters_unproven, installed_original_mismatch, rstp_forward_timer_order_unproven,
  rstp_rollback_timer_order_unproven, rstp_initial_timer_order_unproven, assess_transition,
}

abbrev pub pass : Transition
pass = record { state = compatible; checks = [] }

-- `Protocol(c) == "rstp" && ExpectedLocal(c).MaxAge > 28`
initial_order : Configuration → Bool
initial_order c = same_protocol (protocol c) rstp && ltb 28 (expected_local c).timers.max_age

-- The timers of two rstp configurations, in the order of the native setters.
rstp_order : Configuration → Configuration → Transition
rstp_order before after =
    let old = (expected_local before).timers in
    let next = (expected_local after).timers in
    if out_of_order next old
    then block rstp_forward_timer_order_unproven
    else if out_of_order old next
    then block rstp_rollback_timer_order_unproven
    else pass

-- `AssessSetterOrder`
unfoldable pub assess_setter_order : Configuration → Configuration → Transition
unfolding initial_order rstp_order
assess_setter_order before after =
    if not (admitted before && admitted after)
    then block transition_parameters_unproven
    else if same_protocol (protocol before) (protocol after)
    then if same_protocol (protocol before) rstp then rstp_order before after else pass
    else if initial_order before || initial_order after
    then block rstp_initial_timer_order_unproven
    else pass

is_compatible : Verdict → Bool
is_compatible compatible = true
is_compatible _ = false

-- What is left once the original is known to be installed.
settle : Configuration → Configuration → Runtime → Transition
settle before after installed =
    if same_protocol (protocol before) (protocol after)
      && not (same_protocol (protocol before) disabled)
    then assess_transition before after installed
    else assess_setter_order before after

settle_installed : Transition → Configuration → Configuration → Runtime → Transition
unfolding is_compatible settle
settle_installed check before after installed =
    if not (is_compatible check.state) then check else settle before after installed

-- `AssessExecutionTransition`
unfoldable pub assess_execution_transition : Configuration → Configuration → Runtime → Transition
unfolding settle_installed settle
assess_execution_transition before after installed =
    if not (admitted before && admitted after)
    then block transition_parameters_unproven
    else if not (same_protocol (protocol before) disabled)
    then settle_installed (assess_transition before before installed) before after installed
    else if not (same_protocol installed.protocol disabled)
        || not (runtime_name installed.bridge_name)
    then block installed_original_mismatch
    else settle before after installed
