-- ===== src/Mirror/Native.antt =====
-- internal/mirror/native.go: the native columns of a Mirror. Where several of them are wrong, Go's order
-- of a map decides which error is reported; here it is the order in which they are written down.
use ovs_webui.Prelude.{
  Bool, String, List, [], ◌∷◌, Option, none, some, leb, if◌then◌else◌, length, find,
}
use ovs_webui.Mirror.{
  Bytes, Configuration, Code, configuration_unknown, port_binding_unproven,
  advanced_filter_unqualified, max_selected_vlans, validate, uuid,
}

-- A native value, as far as the columns are read.
pub data Element : Type 0 where
  text : Bytes → Element
  other : Element

pub data Value : Type 0 where
  boolean : Bool → Value
  list : List Element → Value
  other : Value

abbrev pub Raw : Type 0
Raw = List (String × Value)

pub data Decoded (A : Type 0) : Type 0 where
  ok : A → Decoded A
  err : Code → Decoded A

abbrev pub Resolve : Type 0
Resolve = Bytes → Option Bytes

-- The identity of a native Port, or the other way round.
unfoldable pub proven : Option Bytes → Decoded Bytes
proven none = err port_binding_unproven
proven (some v) = ok v

unfoldable pub read_text : Resolve → Element → Decoded Bytes
read_text resolve (text v) = proven (resolve v)
read_text resolve other = err configuration_unknown

unfoldable pub cons_text : Decoded Bytes → Decoded (List Bytes) → Decoded (List Bytes)
cons_text (ok v) (ok vs) = ok (v ∷ vs)
cons_text (ok v) (err e) = err e
cons_text (err e) vs = err e

unfoldable pub read_texts : Resolve → List Element → Decoded (List Bytes)
read_texts resolve [] = ok []
read_texts resolve (v ∷ vs) = cons_text (read_text resolve v) (read_texts resolve vs)

-- A column that is a set of texts.
unfoldable pub read_list : Resolve → Option Value → Decoded (List Bytes)
read_list resolve (some (list values)) =
    if leb (length values) max_selected_vlans
    then read_texts resolve values
    else err configuration_unknown
read_list resolve _ = err configuration_unknown

unfoldable pub optional : Decoded Bytes → Decoded (Option Bytes)
optional (ok v) = ok (some v)
optional (err e) = err e

-- A column that is at most one text.
unfoldable pub read_optional : Resolve → Option Value → Decoded (Option Bytes)
read_optional resolve (some (list [])) = ok none
read_optional resolve (some (list (v ∷ []))) = optional (read_text resolve v)
read_optional resolve _ = err configuration_unknown

unfoldable pub read_boolean : Option Value → Decoded Bool
read_boolean (some (boolean b)) = ok b
read_boolean _ = err configuration_unknown

-- The column that only newer schemas have.
unfoldable pub read_filter : Option Value → Decoded (Unit {0})
read_filter none = ok tt
read_filter (some (list [])) = ok tt
read_filter (some (list (text [] ∷ []))) = ok tt
read_filter (some (list (text (c ∷ cs) ∷ []))) = err advanced_filter_unqualified
read_filter _ = err configuration_unknown

unfoldable pub and_then : {A B : Type 0} → Decoded A → (A → Decoded B) → Decoded B
and_then (ok a) f = f a
and_then (err e) f = err e

unfoldable pub validated : Option Code → Configuration → Decoded Configuration
validated none c = ok c
validated (some e) c = err e

unfoldable pub keep_text : Resolve
keep_text v = some v

-- `Decode`
unfoldable pub decode : Raw → Resolve → Decoded Configuration
decode raw resolve = and_then (read_boolean (find "select_all" raw)) (λ all.
    and_then (read_list resolve (find "select_src_port" raw)) (λ src.
      and_then (read_list resolve (find "select_dst_port" raw)) (λ dst.
        and_then (read_list keep_text (find "select_vlan" raw)) (λ vlans.
          and_then (read_optional resolve (find "output_port" raw)) (λ port.
            and_then (read_optional keep_text (find "output_vlan" raw)) (λ vlan.
              and_then (read_optional keep_text (find "snaplen" raw)) (λ snaplen.
                and_then (read_filter (find "filter" raw)) (λ _.
                  let c : Configuration = record {
                    select_all = all;
                    source_ports = some src;
                    destination_ports = some dst;
                    vlans = some vlans;
                    output_port = port;
                    output_vlan = vlan;
                    snaplen = snaplen;
                  } in
                  validated (validate c) c))))))))

unfoldable pub write_text : Resolve → Bytes → Decoded Element
write_text resolve v = elim (resolve v) [
  | none ↦ err port_binding_unproven
  | some n ↦ if uuid n then ok (text n) else err port_binding_unproven
]

unfoldable pub write_plain : Bytes → Decoded Element
write_plain v = ok (text v)

unfoldable pub cons_element : Decoded Element → Decoded (List Element) → Decoded (List Element)
cons_element (ok v) (ok vs) = ok (v ∷ vs)
cons_element (ok v) (err e) = err e
cons_element (err e) vs = err e

unfoldable pub write_texts : (Bytes → Decoded Element) → List Bytes → Decoded (List Element)
write_texts write [] = ok []
write_texts write (v ∷ vs) = cons_element (write v) (write_texts write vs)

unfoldable pub members : Option (List Bytes) → List Bytes
members none = []
members (some l) = l

unfoldable pub write_optional : (Bytes → Decoded Element) → Option Bytes → Decoded (List Element)
write_optional write none = ok []
write_optional write (some v) = cons_element (write v) (ok [])

-- `Fields`
unfoldable pub fields_of : Resolve → Configuration → Decoded Raw
fields_of resolve c = and_then (write_texts (write_text resolve) (members c.source_ports)) (λ src.
    and_then (write_texts (write_text resolve) (members c.destination_ports)) (λ dst.
      and_then (write_texts write_plain (members c.vlans)) (λ vlans.
        and_then (write_optional (write_text resolve) c.output_port) (λ port.
          and_then (write_optional write_plain c.output_vlan) (λ vlan.
            and_then (write_optional write_plain c.snaplen) (λ snaplen. ok (
              ("select_all", boolean c.select_all)
              ∷ ("select_src_port", list src)
              ∷ ("select_dst_port", list dst)
              ∷ ("select_vlan", list vlans)
              ∷ ("output_port", list port)
              ∷ ("output_vlan", list vlan)
              ∷ ("snaplen", list snaplen)
              ∷ [])))))))

unfoldable pub checked_fields : Resolve → Configuration → Option Code → Decoded Raw
checked_fields resolve c (some e) = err e
checked_fields resolve c none = fields_of resolve c

unfoldable pub fields : Configuration → Resolve → Decoded Raw
fields c resolve = checked_fields resolve c (validate c)
