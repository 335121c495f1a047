-- ===== src/Mirror/Laws.antt =====
-- internal/mirror/native.go: what `Fields` writes, `Decode` reads.
use ovs_webui.Prelude.{
  ℕ, suc, ◌≤◌, Bool, true, false, ◌&&◌, List, [], ◌∷◌, Option, none, some, leb, if◌then◌else◌,
  length, ◌≡◌, refl, sym, ap, ◌∙◌, subst, arith,
}
use ovs_webui.Mirror.{
  max_selected_vlans, Bytes, Configuration, Code, port_binding_unproven, validate, validate_lists,
  validate_selected, unless, uuid,
}
use ovs_webui.Mirror.Native.{
  Element, text, list, boolean, Raw, Decoded, ok, err, Resolve, proven, read_text, cons_text,
  read_texts, read_list, optional, read_optional, read_boolean, read_filter, and_then, validated,
  keep_text, decode, write_text, write_plain, cons_element, write_texts, members, write_optional,
  fields_of, checked_fields, fields,
}

and_then-ok :
    {A B : Type 0} (m : Decoded A) (f : A → Decoded B) {b : B}
    → and_then m f ≡ ok b
    → (a : A) × (m ≡ ok a) × (f a ≡ ok b)
unfolding and_then
and_then-ok (ok a) f h = (a, refl, h)
and_then-ok (err e) f h = cc

ok-equal : {A : Type 0} {a b : A} → ◌≡◌ {A = Decoded A} (ok a) (ok b) → a ≡ b
ok-equal h = cc

ok-if :
    {A : Type 0} (b : Bool) (x y : A) (e : Code)
    → ◌≡◌ {A = Decoded A} (if b then ok x else err e) (ok y)
    → x ≡ y
ok-if true x y e h = ok-equal h
ok-if false x y e h = cc

cons_element-ok :
    (a : Decoded Element) (b : Decoded (List Element)) (es : List Element)
    → cons_element a b ≡ ok es
    → (x : Element) × (xs : List Element) × (a ≡ ok x) × (b ≡ ok xs) × (es ≡ x ∷ xs)
unfolding cons_element
cons_element-ok (ok x) (ok xs) es h = (x, xs, refl, refl, sym (ok-equal h))
cons_element-ok (ok x) (err e) es h = cc
cons_element-ok (err e) b es h = cc

within :
    (m n k : ℕ) (e : Code) (rest : Option Code)
    → unless (leb m 32 && leb n 32 && leb k 256) e rest ≡ none
    → (m ≤ 256) × (n ≤ 256) × (k ≤ 256)
unfolding unless
within m n k e rest h = ground arith

-- A reader takes back what a writer wrote.
abbrev Inverse : (Bytes → Decoded Element) → Resolve → Type 0
Inverse write resolve = (v : Bytes) (e : Element) → write v ≡ ok e → read_text resolve e ≡ ok v

write_text-Inverse :
    (to from : Resolve)
    → ((id n : Bytes) → to id ≡ some n → from n ≡ some id)
    → Inverse (write_text to) from
unfolding write_text read_text proven
write_text-Inverse to from back v e h = at (to v) refl h
  where
    at :
        (o : Option Bytes)
        → to v ≡ o
        → elim o [
          | none ↦ err port_binding_unproven
          | some n ↦ if uuid n then ok (text n) else err port_binding_unproven
        ]
          ≡ ok e
        → read_text from e ≡ ok v
    at none q k = cc
    at (some n) q k =
        subst (λ z. read_text from z ≡ ok v) (ok-if (uuid n) (text n) e port_binding_unproven k)
          (ap proven (back v n q))

write_plain-Inverse : Inverse write_plain keep_text
unfolding write_plain read_text proven keep_text
write_plain-Inverse v e h = subst (λ z. read_text keep_text z ≡ ok v) (ok-equal h) refl

read-write_texts :
    (write : Bytes → Decoded Element) (resolve : Resolve) (l : List Bytes) (es : List Element)
    → Inverse write resolve
    → write_texts write l ≡ ok es
    → (read_texts resolve es ≡ ok l) × (length es ≡ length l)
unfolding write_texts read_texts cons_element cons_text
read-write_texts write resolve [] es i h =
    subst (λ z. (read_texts resolve z ≡ ok []) × (length z ≡ 0)) (ok-equal h) (refl, refl)
read-write_texts write resolve (v ∷ vs) es i h =
    let (x, xs, e1, e2, e3) = cons_element-ok (write v) (write_texts write vs) es h in
    let (r, l) = read-write_texts write resolve vs xs i e2 in
    subst (λ z. (read_texts resolve z ≡ ok (v ∷ vs)) × (length z ≡ suc (length vs))) (sym e3)
      (rw (i v x e1) (rw r refl), ap suc l)

read-write_optional :
    (write : Bytes → Decoded Element) (resolve : Resolve) (o : Option Bytes) (es : List Element)
    → Inverse write resolve
    → write_optional write o ≡ ok es
    → read_optional resolve (some (list es)) ≡ ok o
unfolding write_optional read_optional cons_element optional
read-write_optional write resolve none es i h =
    subst (λ z. read_optional resolve (some (list z)) ≡ ok none) (ok-equal h) refl
read-write_optional write resolve (some v) es i h =
    let (x, xs, e1, e2, e3) = cons_element-ok (write v) (ok []) es h in
    subst (λ z. read_optional resolve (some (list z)) ≡ ok (some v))
      (ap (λ z. x ∷ z) (ok-equal e2) ∙ sym e3) (ap optional (i v x e1))

-- A valid configuration has its lists, which are within their bounds.
validate_lists-bounds :
    (c : Configuration) (p q r : Option (List Bytes))
    → validate_lists c p q r ≡ none
    → (p ≡ some (members p))
      × (q ≡ some (members q))
      × (r ≡ some (members r))
      × (length (members p) ≤ 256)
      × (length (members q) ≤ 256)
      × (length (members r) ≤ 256)
unfolding validate_lists validate_selected members
validate_lists-bounds c (some src) (some dst) (some vlans) h =
    let (p, q, r) = within (length src) (length dst) (length vlans) _ _ h in
    (refl, refl, refl, p, q, r)
validate_lists-bounds c none q r h = cc
validate_lists-bounds c (some p) none r h = cc
validate_lists-bounds c (some p) (some q) none h = cc

leb-true : (n : ℕ) → n ≤ 256 → leb n max_selected_vlans ≡ true
leb-true n h = ground arith

read_list-ok :
    (resolve : Resolve) (es : List Element) (l : List Bytes)
    → read_texts resolve es ≡ ok l
    → length es ≡ length l
    → length l ≤ 256
    → read_list resolve (some (list es)) ≡ ok l
unfolding read_list
read_list-ok resolve es l h e b = rw (leb-true (length es) (subst (λ n. n ≤ 256) (sym e) b)) h

module _ (c : Configuration) (to from : Resolve)
    (back : (id n : Bytes) → to id ≡ some n → from n ≡ some id) where
  checked-none :
      (raw : Raw) (o : Option Code)
      → checked_fields to c o ≡ ok raw
      → (o ≡ none) × (fields_of to c ≡ ok raw)
  unfolding checked_fields
  checked-none raw none h = (refl, h)
  checked-none raw (some e) h = cc

  rebuilt :
      c.source_ports ≡ some (members c.source_ports)
      → c.destination_ports ≡ some (members c.destination_ports)
      → c.vlans ≡ some (members c.vlans)
      → record c {
        source_ports = some (members c.source_ports);
        destination_ports = some (members c.destination_ports);
        vlans = some (members c.vlans);
      }
        ≡ c
  rebuilt p q r =
      λ i. record c { source_ports = sym p i; destination_ports = sym q i; vlans = sym r i }

  -- The columns that were written are read back.
  decode-columns :
      (src dst vlans port vlan snaplen : List Element)
      → validate c ≡ none
      → read_list from (some (list src)) ≡ ok (members c.source_ports)
      → read_list from (some (list dst)) ≡ ok (members c.destination_ports)
      → read_list keep_text (some (list vlans)) ≡ ok (members c.vlans)
      → read_optional from (some (list port)) ≡ ok c.output_port
      → read_optional keep_text (some (list vlan)) ≡ ok c.output_vlan
      → read_optional keep_text (some (list snaplen)) ≡ ok c.snaplen
      → decode
          (("select_all", boolean c.select_all)
            ∷ ("select_src_port", list src)
            ∷ ("select_dst_port", list dst)
            ∷ ("select_vlan", list vlans)
            ∷ ("output_port", list port)
            ∷ ("output_vlan", list vlan)
            ∷ ("snaplen", list snaplen)
            ∷ [])
          from
        ≡ ok c
  unfolding decode and_then read_boolean read_filter validated
  decode-columns src dst vlans port vlan snaplen v h1 h2 h3 h4 h5 h6 =
      let (p, q, r, _, _, _) =
        validate_lists-bounds c c.source_ports c.destination_ports c.vlans (unfold validate in v) in
      rw h1 (
        rw h2 (
          rw h3 (
            rw h4 (
              rw h5 (
                rw h6 (
                  ap (λ z. validated (validate z) z) (rebuilt p q r)
                  ∙ ap (λ o. validated o c) v))))))

  -- What `Fields` writes of a configuration, `Decode` reads, if it finds the identity of every native Port
  -- that was written.
  pub decode-fields : (raw : Raw) → fields c to ≡ ok raw → decode raw from ≡ ok c
  unfolding fields fields_of
  decode-fields raw h =
      let (v, h0) = checked-none raw (validate c) h in
      let (src, e1, h1) = and_then-ok _ _ h0 in
      let (dst, e2, h2) = and_then-ok _ _ h1 in
      let (vlans, e3, h3) = and_then-ok _ _ h2 in
      let (port, e4, h4) = and_then-ok _ _ h3 in
      let (vlan, e5, h5) = and_then-ok _ _ h4 in
      let (snaplen, e6, h6) = and_then-ok _ _ h5 in
      let ports = write_text-Inverse to from back in
      let (r1, l1) = read-write_texts (write_text to) from (members c.source_ports) src ports e1 in
      let (r2, l2) =
        read-write_texts (write_text to) from (members c.destination_ports) dst ports e2 in
      let (r3, l3) =
        read-write_texts write_plain keep_text (members c.vlans) vlans write_plain-Inverse e3 in
      let (_, _, _, b1, b2, b3) =
        validate_lists-bounds c c.source_ports c.destination_ports c.vlans (unfold validate in v) in
      subst (λ z. decode z from ≡ ok c) (ok-equal h6)
        (decode-columns src dst vlans port vlan snaplen v
          (read_list-ok from src (members c.source_ports) r1 l1 b1)
          (read_list-ok from dst (members c.destination_ports) r2 l2 b2)
          (read_list-ok keep_text vlans (members c.vlans) r3 l3 b3)
          (read-write_optional (write_text to) from c.output_port port ports e4)
          (read-write_optional write_plain keep_text c.output_vlan vlan write_plain-Inverse e5)
          (read-write_optional write_plain keep_text c.snaplen snaplen write_plain-Inverse e6))
