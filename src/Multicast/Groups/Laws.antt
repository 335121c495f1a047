-- ===== src/Multicast/Groups/Laws.antt =====
-- internal/multicast/groups.go: a reply is read whole or not at all.
use ovs_webui.Prelude.{
  ℕ, ◌+◌, ◌≤◌, ◌≡◌, ◌↔◌, refl, sym, ap, subst, ◌∙◌, Bool, true, List, [], ◌∷◌, String, str_eq,
  Option, none, some, length, if◌then◌else◌, arith,
}
use ovs_webui.Multicast.Groups.{
  Group, Go, decode_rows, decode_lines, decode_groups, is_wire, max_groups,
}
use ovs_webui.Multicast.Groups.Rows.{Read, decode_rows-Added, decode_rows_bounded, Read-decode_rows}

abbrev pub title : String
title = "port VLAN protocol GROUP Age"

-- A reply that is a text with the title line and then one row for each built, in this order, where no
-- two groups have one key.
pub record WholeReply (go : Go) (bytes : List ℕ) (gs : List Group) : Type 0 where
  pub first : String
  pub rows : List String
  pub wire : is_wire go bytes ≡ true
  pub lines : go.trimmed_lines bytes ≡ first ∷ rows
  pub header : str_eq (go.join (go.fields first)) title ≡ true
  pub reads : Read go rows [] gs
  pub small : length gs ≤ max_groups

guarded :
    (c : Bool) (o : Option (List Group)) (r : List Group)
    → (if c then o else none) ≡ some r
    → (c ≡ true) × (o ≡ some r)
guarded c o r h = ground arith

open_guard : (c : Bool) (o : Option (List Group)) → c ≡ true → (if c then o else none) ≡ o
open_guard c o h = ground arith

at_start : (n : ℕ) → n ≤ max_groups → 0 + n ≤ max_groups
at_start n h = ground arith

decode_lines-WholeReply :
    (go : Go) (bytes : List ℕ) (lines : List String) (gs : List Group)
    → is_wire go bytes ≡ true
    → go.trimmed_lines bytes ≡ lines
    → decode_lines go lines ≡ some gs
    → WholeReply go bytes gs
unfolding decode_lines
decode_lines-WholeReply go bytes [] gs w e h = cc
decode_lines-WholeReply go bytes (first ∷ rows) gs w e h =
    let (t, k) = guarded _ (decode_rows go rows []) gs h in
    let (new, same, reads) = decode_rows-Added go rows [] gs k in
    record {
      first = first;
      rows = rows;
      wire = w;
      lines = e;
      header = t;
      reads = subst (λ z. Read go rows [] z) (sym same) reads;
      small = decode_rows_bounded go rows [] gs k (ground arith);
    }

decode_groups-WholeReply :
    (go : Go) (bytes : List ℕ) (gs : List Group)
    → decode_groups go bytes ≡ some gs
    → WholeReply go bytes gs
unfolding decode_groups
decode_groups-WholeReply go bytes gs h =
    let (w, k) = guarded (is_wire go bytes) (decode_lines go (go.trimmed_lines bytes)) gs h in
    decode_lines-WholeReply go bytes (go.trimmed_lines bytes) gs w refl k

WholeReply-decode_groups :
    (go : Go) (bytes : List ℕ) (gs : List Group)
    → WholeReply go bytes gs
    → decode_groups go bytes ≡ some gs
unfolding decode_groups decode_lines
WholeReply-decode_groups go bytes gs k =
    open_guard (is_wire go bytes) (decode_lines go (go.trimmed_lines bytes)) k.wire
    ∙ ap (λ z. decode_lines go z) k.lines
    ∙ open_guard _ (decode_rows go k.rows []) k.header
    ∙ Read-decode_rows go k.rows [] gs k.reads (at_start (length gs) k.small)

-- A reply is decoded to a list of groups exactly if it is a text within its bounds, starts with the
-- title line, and its rows are read to these groups one by one, at most 256, of which no two have the
-- same key. So a reply that is not understood in full gives no list, and never a part of one.
pub decode_groups_exact :
    (go : Go) (bytes : List ℕ) (gs : List Group)
    → (decode_groups go bytes ≡ some gs) ↔ WholeReply go bytes gs
decode_groups_exact go bytes gs =
    (decode_groups-WholeReply go bytes gs, WholeReply-decode_groups go bytes gs)
