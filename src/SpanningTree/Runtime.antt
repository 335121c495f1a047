-- ===== src/SpanningTree/Runtime.antt =====
-- internal/spanningtree/runtime.go, transition.go and execution.go: configurations, what the daemon
-- reports, and the local parameters that a configuration asks for.
use ovs_webui.Prelude.{
  ℕ, Bool, true, false, ◌&&◌, ◌||◌, String, str_eq, List, [], ◌∷◌, Option, none, some, leb, ◌==◌,
  if◌then◌else◌, length, every,
}
use ovs_webui.SpanningTree.Decimal.{is_decimal, value}
use ovs_webui.SpanningTree.Parameters.{Raw, Other}

pub record Configuration : Type 0 where
  pub stp : Option Bool
  pub rstp : Option Bool
  pub other : Option Other

pub record Timers : Type 0 where
  pub hello_time : ℕ
  pub max_age : ℕ
  pub forward_delay : ℕ

pub record LocalParameters : Type 0 where
  pub priority : ℕ
  pub system_id : String
  pub timers : Timers

pub data Protocol : Type 0 where
  stp rstp disabled unknown : Protocol

pub record Runtime : Type 0 where
  pub protocol : Protocol
  pub bridge_name : List ℕ
  pub local : LocalParameters
  pub operational_timers : Option Timers

abbrev is_alphanumeric : ℕ → Bool
is_alphanumeric c =
    (leb b'a' c && leb c b'z') || (leb b'A' c && leb c b'Z') || (leb b'0' c && leb c b'9')

abbrev is_punctuation : ℕ → Bool
is_punctuation c = c == b'_' || c == b'-' || c == b'.'

-- `RuntimeName`, over the bytes of the name; a byte of a longer rune is never admitted.
unfoldable pub runtime_name : List ℕ → Bool
runtime_name [] = false
runtime_name (c ∷ cs) =
    leb (length (c ∷ cs)) 15
    && is_alphanumeric c
    && every (λ d. is_alphanumeric d || is_punctuation d) cs

of_flags : Option Bool → Option Bool → Protocol
of_flags (some true) (some true) = unknown
of_flags (some true) (some false) = stp
of_flags (some false) (some true) = rstp
of_flags (some false) (some false) = disabled
of_flags _ _ = unknown

-- `Protocol`
unfoldable pub protocol : Configuration → Protocol
unfolding of_flags
protocol c = of_flags c.stp c.rstp

-- `n, _ := strconv.Atoi(raw)` on the digits that `Validate` has admitted.
unfoldable pub atoi : List ℕ → ℕ
atoi t = if is_decimal t then value t else 0

number_in : Option Raw → ℕ → ℕ
number_in none fallback = fallback
number_in (some Raw.other) fallback = fallback
number_in (some (Raw.text t)) fallback = atoi t

get : Option Other → String → Option Raw
get none key = none
get (some m) key = m key

-- The closure `number`: a nil map has no key.
unfoldable pub number : Option Other → String → ℕ → ℕ
unfolding number_in get
number m key fallback = number_in (get m key) fallback

-- p + "-priority" and so on
abbrev pub priority_key : Protocol → String
priority_key stp = "stp-priority"
priority_key rstp = "rstp-priority"
priority_key disabled = "disabled-priority"
priority_key unknown = "unknown-priority"

abbrev pub max_age_key : Protocol → String
max_age_key stp = "stp-max-age"
max_age_key rstp = "rstp-max-age"
max_age_key disabled = "disabled-max-age"
max_age_key unknown = "unknown-max-age"

abbrev pub forward_delay_key : Protocol → String
forward_delay_key stp = "stp-forward-delay"
forward_delay_key rstp = "rstp-forward-delay"
forward_delay_key disabled = "disabled-forward-delay"
forward_delay_key unknown = "unknown-forward-delay"

hello_of : Protocol → Option Other → ℕ
hello_of stp m = number m "stp-hello-time" 2
hello_of _ m = 2

-- The closure `values` under the protocol `p`; the system identifier is left empty.
unfoldable pub values : Protocol → Configuration → LocalParameters
unfolding hello_of
values p c = record {
  priority = number c.other (priority_key p) 32768;
  system_id = "";
  timers = record {
    hello_time = hello_of p c.other;
    max_age = number c.other (max_age_key p) 20;
    forward_delay = number c.other (forward_delay_key p) 15;
  };
}

-- `ExpectedLocal`
unfoldable pub expected_local : Configuration → LocalParameters
unfolding values
expected_local c = values (protocol c) c

abbrev pub same_timers : Timers → Timers → Bool
same_timers a b =
    a.hello_time == b.hello_time && a.max_age == b.max_age && a.forward_delay == b.forward_delay

-- Go's `==` on the struct.
abbrev pub same_local : LocalParameters → LocalParameters → Bool
same_local a b =
    a.priority == b.priority && str_eq a.system_id b.system_id && same_timers a.timers b.timers
