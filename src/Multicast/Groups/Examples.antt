-- ===== src/Multicast/Groups/Examples.antt =====
-- A reply with one group and one router, under Go's functions on its three lines.
use ovs_webui.Prelude.{
  ℕ, ◌≡◌, ◌↔◌, refl, true, false, String, str_eq, List, [], ◌∷◌, Option, none, some, ◌==◌,
  if◌then◌else◌,
}
use ovs_webui.Multicast.Groups.{
  Go, Group, same_group, read_fields, read_port, read_vlan, read_age, read_address, decode_groups,
  decode_lines, decode_rows, add_group, with_rows, is_wire, is_control, built, exact,
  multicast_address,
}
use ovs_webui.Multicast.Groups.Laws.{WholeReply, decode_groups_exact}

abbrev split : String → List String
split s =
    if str_eq s "2 0 IGMPv2 239.192.0.7 3"
    then "2" ∷ "0" ∷ "IGMPv2" ∷ "239.192.0.7" ∷ "3" ∷ []
    else if str_eq s "LOCAL 10 UNKNOWN querier 15"
    then "LOCAL" ∷ "10" ∷ "UNKNOWN" ∷ "querier" ∷ "15" ∷ []
    else s ∷ []

abbrev parse : String → Option ℕ
parse s =
    if str_eq s "2"
    then some 2
    else if str_eq s "0"
    then some 0
    else if str_eq s "3"
    then some 3
    else if str_eq s "10"
    then some 10
    else if str_eq s "15"
    then some 15
    else none

abbrev print : ℕ → String
print n =
    if n == 2
    then "2"
    else if n == 0
    then "0"
    else if n == 3
    then "3"
    else if n == 10
    then "10"
    else "15"

abbrev head : List String → String
head [] = ""
head (s ∷ _) = s

abbrev go : Go
go = record {
  valid = λ bytes. true;
  trimmed_lines = λ bytes.
      "port VLAN protocol GROUP Age" ∷ "2 0 IGMPv2 239.192.0.7 3" ∷ "LOCAL 10 UNKNOWN querier 15"
      ∷ [];
  fields = split;
  join = head;
  parse_uint = λ s bits. parse s;
  format_uint = print;
  parse_address = λ s. some (record { zone = ""; is_multicast = true; is_4 = true; text = s });
}

abbrev groups : List Group
groups =
    (record {
      port = 2;
      vlan = 0;
      protocol = "IGMPv2";
      address = "239.192.0.7";
      router = false;
      age = 3;
    })
    ∷ (record {
      port = 65534;
      vlan = 10;
      protocol = "UNKNOWN";
      address = "";
      router = true;
      age = 15;
    })
    ∷ []

decoded : decode_groups go (b'p' ∷ []) ≡ some groups
unfolding decode_groups decode_lines decode_rows add_group with_rows is_wire is_control built exact
    multicast_address read_fields read_port read_vlan read_age read_address same_group
decoded = refl

decode_groups_exact_example :
    (decode_groups go (b'p' ∷ []) ≡ some groups) ↔ WholeReply go (b'p' ∷ []) groups
decode_groups_exact_example = decode_groups_exact go (b'p' ∷ []) groups
