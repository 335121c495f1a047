-- ===== src/Multicast/Examples.antt =====
-- Multicast snooping settings, over three numbers.
use ovs_webui.Prelude.{
  ◌≡◌, refl, true, false, String, str_eq, [], ◌∷◌, Option, none, some, if◌then◌else◌, find, ◌==◌,
}
use ovs_webui.Prelude.Int.{ℤ, pos, negsuc}
use ovs_webui.Multicast.{
  Configuration, Numbers, validate, merge, aging_time, table_size, disable_flood,
}
use ovs_webui.Multicast.Laws.{merge-keeps}

abbrev parse : String → Option ℤ
parse s =
    if str_eq s "300" then some (pos 300) else if str_eq s "2048" then some (pos 2048) else none

abbrev print : ℤ → String
print (pos n) = if n == 300 then "300" else "2048"
print (negsuc n) = "-1"

abbrev numbers : Numbers
numbers = record { parse_int32 = parse; format_int = print }

abbrev original : Configuration
original = record {
  enabled = false;
  parameters = (aging_time, some "300") ∷ (table_size, some "2048") ∷ (disable_flood, none) ∷ [];
}

abbrev request : Configuration
request = record { enabled = true; parameters = (disable_flood, some "true") ∷ [] }

abbrev after : Configuration
after = record {
  enabled = true;
  parameters =
      (disable_flood, some "true") ∷ (aging_time, some "300") ∷ (table_size, some "2048") ∷ [];
}

merge-keeps_example :
    (validate numbers after ≡ none)
    × (after.enabled ≡ request.enabled)
    × (find table_size after.parameters ≡ find table_size original.parameters)
unfolding merge validate ovs_webui.Multicast.check_key ovs_webui.Multicast.check_value
    ovs_webui.Multicast.check_integer ovs_webui.Multicast.merge_parameters
    ovs_webui.Multicast.check_boolean
merge-keeps_example = merge-keeps numbers original request after table_size refl refl
