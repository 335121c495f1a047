-- ===== src/SpanningTree/Examples.antt =====
-- Spanning tree settings at concrete configurations.
use ovs_webui.Prelude.{
  str_eq, ℕ, ◌-◌, ◌*◌, ◌≤◌, ◌≡◌, ◌≢◌, ◌⊎◌, inl, refl, true, false, [], ◌∷◌, none, some, arith, leb,
  if◌then◌else◌,
}
use ovs_webui.SpanningTree.Parameters.{
  Raw, Other, validate, valid, unavailable, validate_rstp, validate_stp, relate, read, reading,
  caveat,
}
use ovs_webui.SpanningTree.Decimal.{parse_uint, value}
use ovs_webui.SpanningTree.Parameters.Spec.{
  Settings, IsAdmissible, validate_sound, validate_complete,
}
use ovs_webui.SpanningTree.Runtime.{
  Configuration, Timers, rstp, Runtime, protocol, expected_local, runtime_name, values, number,
  atoi,
}
use ovs_webui.SpanningTree.Transition.{assess_transition, admitted, protocol_of_valid, order_checks}
use ovs_webui.SpanningTree.Execution.{assess_execution_transition}
use ovs_webui.SpanningTree.Execution.Install.{
  Setters, install, assess_transition_installs, assess_execution_transition_installs,
}

abbrev slow : Other
slow key = if str_eq key "rstp-forward-delay" then some (Raw.text (b'2' ∷ b'0' ∷ [])) else none

validate_sound_example : (s : Settings) × IsAdmissible false true slow s
unfolding validate validate_rstp relate read reading parse_uint value validate_stp caveat
    unavailable
validate_sound_example = validate_sound false true slow refl

abbrev settings : Settings
settings = record {
  stp_priority = 32768;
  stp_hello = 2;
  stp_age = 20;
  stp_delay = 15;
  rstp_priority = 32768;
  rstp_age = 20;
  rstp_delay = 20;
}

settings-IsAdmissible : IsAdmissible false true slow settings
unfolding value
settings-IsAdmissible = record {
  one_protocol = inl refl;
  reads = record {
    stp_priority = (refl, omega arith);
    stp_hello = (refl, omega arith, omega arith);
    stp_age = (refl, omega arith, omega arith);
    stp_delay = (refl, omega arith, omega arith);
    rstp_priority = (refl, omega arith);
    rstp_age = (refl, omega arith, omega arith);
    rstp_delay = ((omega arith, omega arith, refl, refl), omega arith, omega arith);
  };
  hello_age = omega arith;
  stp_age_delay = omega arith;
  hello_native = inl refl;
  priority_grid = refl;
  rstp_age_delay = omega arith;
}

validate_complete_example : validate (some false) (some true) (some slow) ≡ unavailable valid
validate_complete_example = validate_complete false true slow settings settings-IsAdmissible

-- Setters that refuse a value that its peer does not admit.
abbrev checked_age : ℕ → Timers → Timers
checked_age age t = if leb age (2 * (t.forward_delay - 1)) then record t { max_age = age } else t

abbrev checked_delay : ℕ → Timers → Timers
checked_delay delay t =
    if leb t.max_age (2 * (delay - 1)) then record t { forward_delay = delay } else t

checked_age_installs :
    (age : ℕ) (t : Timers)
    → age ≤ 2 * (t.forward_delay - 1)
    → checked_age age t ≡ record t { max_age = age }
checked_age_installs age t h = ground arith

checked_delay_installs :
    (delay : ℕ) (t : Timers)
    → t.max_age ≤ 2 * (delay - 1)
    → checked_delay delay t ≡ record t { forward_delay = delay }
checked_delay_installs delay t h = ground arith

abbrev daemon : Setters
daemon = record {
  set_max_age = checked_age;
  set_forward_delay = checked_delay;
  created = record { hello_time = 2; max_age = 20; forward_delay = 15 };
  max_age_installs = checked_age_installs;
  forward_delay_installs = checked_delay_installs;
  created_delay = refl;
  created_hello = refl;
}

abbrev original : Configuration
original = record { stp = some false; rstp = some true; other = some (λ key. none) }

abbrev disabled_original : Configuration
disabled_original = record { stp = some false; rstp = some false; other = some (λ key. none) }

abbrev candidate : Configuration
candidate = record { stp = some false; rstp = some true; other = some slow }

abbrev installed : Runtime
installed = record {
  protocol = rstp;
  bridge_name = b'b' ∷ b'r' ∷ b'0' ∷ [];
  local = record {
    priority = 32768;
    system_id = "02:00:00:00:00:01";
    timers = record { hello_time = 2; max_age = 20; forward_delay = 15 };
  };
  operational_timers = none;
}

assess_transition_installs_example :
    (protocol candidate ≡ rstp)
    × (installed.local.timers ≡ (expected_local original).timers)
    × (install daemon (expected_local candidate).timers (expected_local original).timers
        ≡ (expected_local candidate).timers)
    × (install daemon (expected_local original).timers (expected_local candidate).timers
        ≡ (expected_local original).timers)
unfolding validate validate_rstp relate read reading validate_stp caveat unavailable parse_uint
    value admitted protocol_of_valid runtime_name values number order_checks atoi expected_local
    protocol assess_transition
assess_transition_installs_example =
    assess_transition_installs daemon original candidate installed refl refl

assess_execution_transition_installs_example :
    ((protocol original ≡ rstp)
      × (installed.local.timers ≡ (expected_local original).timers)
      × (install daemon (expected_local candidate).timers installed.local.timers
          ≡ (expected_local candidate).timers))
    ⊎ ((protocol original ≢ rstp)
        × (install daemon (expected_local candidate).timers daemon.created
            ≡ (expected_local candidate).timers))
unfolding validate validate_rstp relate read reading validate_stp caveat unavailable parse_uint
    value admitted protocol_of_valid runtime_name values number order_checks atoi expected_local
    protocol assess_transition assess_execution_transition
assess_execution_transition_installs_example =
    assess_execution_transition_installs daemon original candidate installed refl refl
