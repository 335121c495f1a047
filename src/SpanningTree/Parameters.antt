-- ===== src/SpanningTree/Parameters.antt =====
-- internal/spanningtree/parameters.go: `Validate` over the seven basic Bridge parameters. A map of
-- native values is a function from keys; a value that is no string is `Raw.other`. A nil pointer
-- or map is `none`.
pub mod Spec
use ovs_webui.Prelude.{
  ℕ, zero, suc, ◌+◌, ◌-◌, ◌*◌, ◌%◌, ◌≤◌, ◌<◌, ◌≡◌, refl, Bool, true, false, not, ◌&&◌, ◌||◌, String,
  List, [], ◌∷◌, ◌++◌, Option, none, some, arith, leb, ltb, ◌==◌, if◌then◌else◌, length, is_some,
}
use ovs_webui.SpanningTree.Decimal.{is_decimal, parse_uint}

pub data Raw : Type 0 where
  text : List ℕ → Raw
  other : Raw

abbrev pub Other : Type 0
Other = String → Option Raw

pub data Code : Type 0 where
  stp_rstp_mutually_exclusive integer_required parameter_range : Code
  stp_max_age_hello_relation stp_forward_delay_max_age_relation : Code
  stp_hello_time_native_unit_caveat : Code
  rstp_priority_multiple_4096 rstp_forward_delay_max_age_relation : Code

pub data State : Type 0 where
  valid invalid unknown runtime_unverified : State

pub record Check : Type 0 where
  pub code : Code
  pub fields : List String

pub record Validation : Type 0 where
  pub version : String
  pub scope : String
  pub state : State
  pub checks : List Check

unfoldable pub unavailable : State → Validation
unavailable s = record {
  version = "bridge-basic-v1";
  scope = "bridge-basic-parameters";
  state = s;
  checks = [];
}

-- The closure `add`.
unfoldable pub add : Code → List String → Validation → Validation
add c fields v = record v {
  checks = v.checks ++ (record { code = c; fields = fields } ∷ []);
  state = invalid;
}

-- What the closure `read` finds under a key, before it reports.
pub data Reading : Type 0 where
  good : ℕ → Reading
  no_integer out_of_range : Reading

in_range : ℕ → ℕ → Option ℕ → Reading
in_range lo hi none = out_of_range
in_range lo hi (some n) = if ltb n lo || ltb hi n then out_of_range else good n

unfoldable pub reading : Option Raw → ℕ → ℕ → ℕ → Reading
unfolding in_range
reading none fallback lo hi = good fallback
reading (some other) fallback lo hi = no_integer
reading (some (text t)) fallback lo hi =
    if length t == 0 || ltb 128 (length t) || not (is_decimal t)
    then no_integer
    else in_range lo hi (parse_uint t)

abbrev pub number : Reading → Option ℕ
number (good n) = some n
number _ = none

report : Reading → String → Validation → Validation
report (good _) key v = v
report no_integer key v = add integer_required (key ∷ []) v
report out_of_range key v = add parameter_range (key ∷ []) v

-- The closure `read`: `none` is the pair (0, false).
unfoldable pub read : Other → String → ℕ → ℕ → ℕ → Validation → Option ℕ × Validation
unfolding report
read m key fallback lo hi v = let r = reading (m key) fallback lo hi in (number r, report r key v)

-- `if aOK && bOK && bad(a, b) { add(code, fields...) }`
unfoldable pub relate :
    Option ℕ → Option ℕ → (ℕ → ℕ → Bool) → Code → List String → Validation → Validation
relate (some a) (some b) bad c fields v = if bad a b then add c fields v else v
relate _ _ bad c fields v = v

-- age < 2*(hello+1)
abbrev pub age_below_hello : ℕ → ℕ → Bool
age_below_hello hello age = ltb age (2 * (hello + 1))

-- age > 2*(delay-1); a delay that `read` admits is at least 4
abbrev pub age_above_delay : ℕ → ℕ → Bool
age_above_delay age delay = ltb (2 * (delay - 1)) age

abbrev pub off_grid : ℕ → ℕ → Bool
off_grid priority _ = not (priority % 4096 == 0)

abbrev pub is_valid : State → Bool
is_valid valid = true
is_valid _ = false

-- The caveat on an explicit hello time other than 1.
unfoldable pub caveat : Option Raw → Option ℕ → Validation → Validation
caveat explicit none v = v
caveat explicit (some hello) v =
    if is_some explicit && not (hello == 1)
    then record v {
      checks =
          v.checks
          ++ (record { code = stp_hello_time_native_unit_caveat; fields = "stp-hello-time" ∷ [] }
              ∷ []);
      state = if is_valid v.state then runtime_unverified else v.state;
    }
    else v

exclusive : Bool → Bool → Validation → Validation
exclusive stp rstp v =
    if stp && rstp then add stp_rstp_mutually_exclusive ("stp_enable" ∷ "rstp_enable" ∷ []) v else v

unfoldable pub validate_stp : Other → Validation → Validation
validate_stp m v0 =
    let (_, v1) = read m "stp-priority" 32768 0 65535 v0 in
    let (hello, v2) = read m "stp-hello-time" 2 1 10 v1 in
    let (age, v3) = read m "stp-max-age" 20 6 40 v2 in
    let (delay, v4) = read m "stp-forward-delay" 15 4 30 v3 in
    let v5 =
      relate hello age age_below_hello stp_max_age_hello_relation
        ("stp-max-age" ∷ "stp-hello-time" ∷ []) v4 in
    let v6 =
      relate age delay age_above_delay stp_forward_delay_max_age_relation
        ("stp-forward-delay" ∷ "stp-max-age" ∷ []) v5 in
    caveat (m "stp-hello-time") hello v6

unfoldable pub validate_rstp : Other → Validation → Validation
validate_rstp m v0 =
    let (priority, v1) = read m "rstp-priority" 32768 0 61440 v0 in
    let v2 =
      relate priority priority off_grid rstp_priority_multiple_4096 ("rstp-priority" ∷ []) v1 in
    let (age, v3) = read m "rstp-max-age" 20 6 40 v2 in
    let (delay, v4) = read m "rstp-forward-delay" 15 4 30 v3 in
    relate age delay age_above_delay rstp_forward_delay_max_age_relation
      ("rstp-forward-delay" ∷ "rstp-max-age" ∷ []) v4

unfoldable pub validate : Option Bool → Option Bool → Option Other → Validation
unfolding exclusive
validate (some stp) (some rstp) (some m) =
    validate_rstp m (validate_stp m (exclusive stp rstp (unavailable valid)))
validate _ _ _ = unavailable unknown
