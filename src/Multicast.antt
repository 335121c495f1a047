-- ===== src/Multicast.antt =====
-- internal/multicast/config.go: the multicast snooping settings of a Bridge. Go's strconv is the
-- parameter `Numbers`; a nil value of the map is `none`.
pub mod Laws
mod Examples
pub mod Groups
use ovs_webui.Prelude.{
  ℕ, Bool, true, false, not, ◌&&◌, ◌||◌, String, str_eq, List, [], ◌∷◌, Option, none, some, ◌==◌,
  if◌then◌else◌, find, assign, is_some, length,
}
use ovs_webui.Prelude.Int.{ℤ, pos, ltb_ℤ}

pub record Configuration : Type 0 where
  pub enabled : Bool
  pub parameters : List (String × Option String)

pub data Code : Type 0 where
  configuration_invalid boolean_invalid integer_invalid integer_out_of_range : Code
  parameter_unsupported : Code

-- strconv.ParseInt(s, 10, 32), where an error is `none`, and strconv.FormatInt(n, 10).
pub record Numbers : Type 0 where
  pub parse_int32 : String → Option ℤ
  pub format_int : ℤ → String

abbrev pub aging_time : String
aging_time = "mcast-snooping-aging-time"

abbrev pub table_size : String
table_size = "mcast-snooping-table-size"

abbrev pub disable_flood : String
disable_flood = "mcast-snooping-disable-flood-unregistered"

abbrev pub keys : List String
keys = aging_time ∷ table_size ∷ disable_flood ∷ []

-- The first error, if any.
abbrev pub first_error : Option Code → Option Code → Option Code
first_error none next = next
first_error (some e) next = some e

unfoldable pub check_boolean : String → Option Code
check_boolean s =
    if not (str_eq s "true") && not (str_eq s "false") then some boolean_invalid else none

module _ (g : Numbers) where
  check_parsed : String → ℤ → ℤ → Option ℤ → Option Code
  check_parsed s lo hi none = some integer_invalid
  check_parsed s lo hi (some n) =
      if not (str_eq (g.format_int n) s)
      then some integer_invalid
      else if ltb_ℤ n lo || ltb_ℤ hi n
      then some integer_out_of_range
      else none

  unfoldable pub check_integer : String → ℤ → ℤ → Option Code
  unfolding check_parsed
  check_integer s lo hi = check_parsed s lo hi (g.parse_int32 s)

  unfoldable pub check_value : String → String → Option Code
  check_value key s =
      if str_eq key disable_flood
      then check_boolean s
      else if str_eq key table_size
      then check_integer s (pos 10) (pos 1000000)
      else check_integer s (pos 15) (pos 3600)

  -- One turn of the loop of `Validate`: a missing key, a nil value, and a value.
  unfoldable pub check_key : String → Option (Option String) → Option Code
  check_key key none = some configuration_invalid
  check_key key (some none) = none
  check_key key (some (some s)) = check_value key s

  check_keys : List String → List (String × Option String) → Option Code
  check_keys [] m = none
  check_keys (k ∷ ks) m = first_error (check_key k (find k m)) (check_keys ks m)

  -- `Validate`; `none` is the nil error.
  unfoldable pub validate : Configuration → Option Code
  unfolding check_keys
  validate c =
      if not (length c.parameters == length keys)
      then some configuration_invalid
      else check_keys keys c.parameters

  -- The loop of `Merge` over the parameters of the request.
  unfoldable pub merge_parameters :
      List (String × Option String)
      → List (String × Option String)
      → Option (List (String × Option String))
  merge_parameters [] m = some m
  merge_parameters ((k, v) ∷ r) m =
      let rest = merge_parameters r (assign k v m) in if is_some (find k m) then rest else none

  merged : Bool → Option (List (String × Option String)) → Option Code × Option Configuration
  merged enabled none = (some parameter_unsupported, none)
  merged enabled (some m) =
      let c : Configuration = record { enabled = enabled; parameters = m } in (validate c, some c)

  after_check : Option Code → Configuration → Configuration → Option Code × Option Configuration
  unfolding merged
  after_check (some e) original request = (some e, none)
  after_check none original request =
      merged request.enabled (merge_parameters request.parameters original.parameters)

  -- `Merge`: the error, and the configuration, where an empty one is `none`.
  unfoldable pub merge : Configuration → Configuration → Option Code × Option Configuration
  unfolding after_check
  merge original request = after_check (validate original) original request
