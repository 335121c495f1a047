-- ===== src/Mirror/Examples.antt =====
-- A Mirror of what one Port receives, into a VLAN.
use ovs_webui.Prelude.{◌≡◌, refl, sym, false, [], ◌∷◌, some, none}
use ovs_webui.Mirror.{
  Bytes, Configuration, validate, validate_lists, validate_selected, unless, each_once,
  management_id, uuid, uuid_at, is_four, decimal, read_digits, leading_zero, output_port_ok,
  output_vlan_ok, snaplen_ok,
}
use ovs_webui.Mirror.Native.{
  Raw, Resolve, text, list, boolean, decode, fields, ok, fields_of, checked_fields, and_then,
  write_texts, write_text, write_plain, cons_element, members, write_optional,
}
use ovs_webui.Mirror.Laws.{decode-fields}

abbrev port : Bytes
port =
    b'0' ∷ b'0' ∷ b'0' ∷ b'0' ∷ b'0' ∷ b'0' ∷ b'0' ∷ b'0' ∷ b'-' ∷ b'0' ∷ b'0' ∷ b'0' ∷ b'0' ∷ b'-'
    ∷ b'4' ∷ b'0' ∷ b'0' ∷ b'0' ∷ b'-' ∷ b'8' ∷ b'0' ∷ b'0' ∷ b'0' ∷ b'-' ∷ b'0' ∷ b'0' ∷ b'0'
    ∷ b'0' ∷ b'0' ∷ b'0' ∷ b'0' ∷ b'0' ∷ b'0' ∷ b'0' ∷ b'0' ∷ b'1' ∷ []

abbrev mirror : Configuration
mirror = record {
  select_all = false;
  source_ports = some (port ∷ []);
  destination_ports = some [];
  vlans = some [];
  output_port = none;
  output_vlan = some (b'1' ∷ b'0' ∷ []);
  snaplen = none;
}

abbrev itself : Resolve
itself v = some v

abbrev columns : Raw
columns =
    ("select_all", boolean false)
    ∷ ("select_src_port", list (text port ∷ []))
    ∷ ("select_dst_port", list [])
    ∷ ("select_vlan", list [])
    ∷ ("output_port", list [])
    ∷ ("output_vlan", list (text (b'1' ∷ b'0' ∷ []) ∷ []))
    ∷ ("snaplen", list [])
    ∷ []

decode-fields_example : decode columns itself ≡ ok mirror
unfolding fields fields_of checked_fields validate validate_lists validate_selected unless each_once
    management_id uuid uuid_at is_four decimal read_digits leading_zero output_port_ok
    output_vlan_ok snaplen_ok and_then write_texts write_text write_plain cons_element members
    write_optional
decode-fields_example = decode-fields mirror itself itself (λ id n h. sym h) columns refl
