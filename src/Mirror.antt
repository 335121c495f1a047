-- ===== src/Mirror.antt =====
-- internal/mirror/config.go: the configuration of a Mirror. A text is the list of its bytes.
pub mod Native
pub mod Laws
mod Examples
use ovs_webui.Prelude.{
  ℕ, zero, suc, ◌+◌, ◌-◌, ◌*◌, Bool, true, false, not, ◌&&◌, ◌||◌, String, List, [], ◌∷◌, ◌++◌,
  Option, none, some, ltb, leb, ◌==◌, if◌then◌else◌, length, any, every, find, is_some,
}

abbrev pub Bytes : Type 0
Bytes = List ℕ

abbrev pub same : Bytes → Bytes → Bool
same [] [] = true
same (c ∷ cs) (d ∷ ds) = c == d && same cs ds
same _ _ = false

abbrev pub contains : List Bytes → Bytes → Bool
contains l v = any (same v) l

-- `none` is Go's nil, which no slice that was decoded is.
pub record Configuration : Type 0 where
  pub select_all : Bool
  pub source_ports : Option (List Bytes)
  pub destination_ports : Option (List Bytes)
  pub vlans : Option (List Bytes)
  pub output_port : Option Bytes
  pub output_vlan : Option Bytes
  pub snaplen : Option Bytes

pub data Code : Type 0 where
  selector_budget_or_unknown port_reference_invalid selection_empty select_all_conflict : Code
  vlan_selector_invalid exactly_one_output_required output_port_conflict : Code
  output_vlan_conflict snaplen_invalid : Code
  configuration_unknown port_binding_unproven advanced_filter_unqualified : Code

abbrev pub max_selected_ports : ℕ
max_selected_ports = 32

abbrev pub max_selected_vlans : ℕ
max_selected_vlans = 256

abbrev is_digit : ℕ → Bool
is_digit c = leb b'0' c && leb c b'9'

-- `UUID` of apitypes/types.go: dashes stand at four places, lower-case hexadecimal digits elsewhere,
-- of which the fifteenth byte is the version and the twentieth has the variant.
unfoldable pub uuid_at : ℕ → Bytes → Bool
uuid_at n [] = n == 36
uuid_at n (c ∷ cs) =
    let rest = uuid_at (suc n) cs in
    let hex = is_digit c || (leb b'a' c && leb c b'f') in
    (if n == 8 || n == 13 || n == 18 || n == 23
      then c == b'-'
      else if n == 14
      then leb b'1' c && leb c b'8'
      else if n == 19
      then c == b'8' || c == b'9' || c == b'a' || c == b'b'
      else hex)
    && rest

unfoldable pub uuid : Bytes → Bool
uuid s = uuid_at 0 s

-- The byte at a place.
abbrev at : ℕ → Bytes → Option ℕ
at n [] = none
at zero (c ∷ cs) = some c
at (suc n) (c ∷ cs) = at n cs

unfoldable pub is_four : Option ℕ → Bool
is_four none = false
is_four (some c) = c == b'4'

-- `ManagementID`
unfoldable pub management_id : Bytes → Bool
management_id s = uuid s && is_four (at 14 s)

-- The loop over the digits.
unfoldable pub read_digits : ℕ → Bytes → Option ℕ
read_digits n [] = some n
read_digits n (c ∷ cs) =
    let rest = read_digits (n * 10 + (c - b'0')) cs in if is_digit c then rest else none

unfoldable pub leading_zero : Bytes → Bool
leading_zero [] = false
leading_zero (c ∷ cs) = ltb 0 (length cs) && c == b'0'

-- `decimal`
unfoldable pub decimal : Bytes → ℕ → ℕ → Bool
decimal v lo hi =
    if length v == 0 || ltb 5 (length v) || leading_zero v
    then false
    else elim (read_digits 0 v) [ none ↦ false | some n ↦ leb lo n && leb n hi ]

-- Whether all values pass the test and none stands twice.
unfoldable pub each_once : (Bytes → Bool) → List Bytes → List Bytes → Bool
each_once ok seen [] = true
each_once ok seen (v ∷ vs) =
    let rest = each_once ok (v ∷ seen) vs in ok v && not (contains seen v) && rest

unfoldable pub output_port_ok : List Bytes → List Bytes → Option Bytes → Bool
output_port_ok src dst none = true
output_port_ok src dst (some p) = management_id p && not (contains src p) && not (contains dst p)

unfoldable pub output_vlan_ok : List Bytes → Option Bytes → Bool
output_vlan_ok vlans none = true
output_vlan_ok vlans (some v) = decimal v 1 4094 && not (contains vlans v)

unfoldable pub snaplen_ok : Option Bytes → Bool
snaplen_ok none = true
snaplen_ok (some v) = decimal v 14 65535

unfoldable pub unless : Bool → Code → Option Code → Option Code
unless true e rest = rest
unless false e rest = some e

unfoldable pub validate_selected :
    Configuration → List Bytes → List Bytes → List Bytes → Option Code
validate_selected c src dst vlans =
    unless
      (leb (length src) max_selected_ports
        && leb (length dst) max_selected_ports
        && leb (length vlans) max_selected_vlans)
      selector_budget_or_unknown
      (unless (each_once management_id [] src && each_once management_id [] dst)
        port_reference_invalid
        (unless (c.select_all || not (length src + length dst == 0)) selection_empty (
          unless (not c.select_all || length src + length dst == 0) select_all_conflict (
            unless (each_once (λ v. decimal v 0 4094) [] vlans) vlan_selector_invalid (
              unless
                (if is_some c.output_port
                  then not (is_some c.output_vlan)
                  else is_some c.output_vlan)
                exactly_one_output_required
                (unless (output_port_ok src dst c.output_port) output_port_conflict (
                  unless (output_vlan_ok vlans c.output_vlan) output_vlan_conflict
                    (unless (snaplen_ok c.snaplen) snaplen_invalid none))))))))

-- `Validate`: the first error.
unfoldable pub validate_lists :
    Configuration → Option (List Bytes) → Option (List Bytes) → Option (List Bytes) → Option Code
validate_lists c (some src) (some dst) (some vlans) = validate_selected c src dst vlans
validate_lists c _ _ _ = some selector_budget_or_unknown

unfoldable pub validate : Configuration → Option Code
validate c = validate_lists c c.source_ports c.destination_ports c.vlans
