-- ===== src/Tunnel/Laws.antt =====
-- internal/tunnel/config.go: what `Merge` keeps and changes, and the range of a key.
use ovs_webui.Prelude.{
  arith, length, ◌≤◌, find, find-delete_self, find-delete_ne, ◌≡◌, refl, sym, ◌∙◌, subst, ap, Bool,
  true, false, String, str_eq, eq_iff, List, [], ◌∷◌, ◌++◌, Option, none, some, if◌then◌else◌,
}
use ovs_webui.Tunnel.{
  decode, decode_options, decoded, decode_bounded, Raw, text, other, Configuration, Request, Go, ok,
  Code, set_option, merge_options, merge, merged, verdict, validate, keys, contains,
}

some-eq : {A : Type 0} {x y : A} → some x ≡ some y → x ≡ y
some-eq h = cc

taken :
    {A : Type 0} (c : Bool) {o : Option A} {y : A}
    → (if c then o else none) ≡ some y
    → (c ≡ true) × (o ≡ some y)
taken true h = (refl, h)
taken false h = cc

found_not :
    {A : Type 0} (c : Bool) (x : A) {o : Option A}
    → (if c then some x else o) ≡ none
    → (c ≡ false) × (o ≡ none)
found_not true x h = cc
found_not false x h = (refl, h)

module _ (g : Go) where
  set_option-find_self :
      (k : String) (v : Option String) (m : List (String × String))
      → find k (set_option g k v m) ≡ v
  unfolding set_option
  set_option-find_self k none m = find-delete_self k m
  set_option-find_self k (some v) m = rw ((eq_iff k k).1 refl) refl

  set_option-find_ne :
      (k j : String) (v : Option String) (m : List (String × String))
      → str_eq j k ≡ false
      → find k (set_option g j v m) ≡ find k m
  unfolding set_option
  set_option-find_ne k j none m n = find-delete_ne k j m n
  set_option-find_ne k j (some v) m n = rw n (find-delete_ne k j m n)

  -- An option that the request does not mention keeps its value.
  merge_options-find :
      (k : String) (r : List (String × Option String)) (m after : List (String × String))
      → merge_options g r m ≡ some after
      → find k r ≡ none
      → find k after ≡ find k m
  unfolding merge_options
  merge_options-find k [] m after h n = ap (find k) (some-eq (sym h))
  merge_options-find k ((j, v) ∷ r) m after h n =
      let (differs, rest) = found_not (str_eq j k) v n in
      merge_options-find k r (set_option g j v m) after (taken (contains j keys) h).1 rest
      ∙ set_option-find_ne k j v m differs

  -- The last mention of an option wins.
  merge_options-last :
      (k : String) (v : Option String) (r1 r2 : List (String × Option String))
      (m after : List (String × String))
      → merge_options g (r1 ++ ((k, v) ∷ r2)) m ≡ some after
      → find k r2 ≡ none
      → find k after ≡ v
  unfolding merge_options
  merge_options-last k v [] r2 m after h n =
      merge_options-find k r2 (set_option g k v m) after (taken (contains k keys) h).1 n
      ∙ set_option-find_self k v m
  merge_options-last k v ((j, w) ∷ r1) r2 m after h n =
      merge_options-last k v r1 r2 (set_option g j w m) after (taken (contains j keys) h).1 n

  verdict-ok :
      (c after : Configuration) (e : Option Code)
      → verdict g c e ≡ ok after
      → (c ≡ after) × (e ≡ none)
  unfolding verdict
  verdict-ok c after none h = (cc, refl)
  verdict-ok c after (some e) h = cc

  merged-ok :
      (kind : String) (o : Option (List (String × String))) (after : Configuration)
      → merged g kind o ≡ ok after
      → (o ≡ some after.options) × (after.kind ≡ kind) × (validate g after ≡ none)
  unfolding merged
  merged-ok kind none after h = cc
  merged-ok kind (some m) after h =
      let (same, good) = verdict-ok _ after _ h in
      (
        ap (λ c. some c.options) same,
        sym (ap (λ c. c.kind) same),
        subst (λ c. validate g c ≡ none) same good,
      )

-- A merge that succeeds gives a valid configuration, of the type that is asked for, in which an
-- option that the request does not mention has the value that it had.
pub merge-preserves :
    (g : Go) (before : Configuration) (r : Request) (after : Configuration) (k : String)
    → merge g before r ≡ ok after
    → find k r.options ≡ none
    → (validate g after ≡ none)
      × (after.kind ≡ (if str_eq r.kind "" then before.kind else r.kind))
      × (find k after.options ≡ find k before.options)
unfolding merge
merge-preserves g before r after k h n =
    let (made, kind, good) = merged-ok g _ _ after h in
    (good, kind, merge_options-find g k r.options before.options after.options made n)

-- A merge that succeeds gives each option the value of its last mention in the request, and removes
-- it where that is null.
pub merge-applies :
    (g : Go) (before : Configuration) (kind k : String) (v : Option String)
    (r1 r2 : List (String × Option String)) (after : Configuration)
    → merge g before (record { kind = kind; options = r1 ++ ((k, v) ∷ r2) }) ≡ ok after
    → find k r2 ≡ none
    → find k after.options ≡ v
unfolding merge
merge-applies g before kind k v r1 r2 after h n =
    let (made, _, good) = merged-ok g _ _ after h in
    merge_options-last g k v r1 r2 before.options after.options made n

-- The native values of a list of options.
abbrev pub raw_of : List (String × String) → List (String × Raw)
raw_of [] = []
raw_of ((k, v) ∷ m) = (k, text v) ∷ raw_of m

refused :
    {A : Type 0} (c : Bool) {o : Option A} {y : A} → (if c then none else o) ≡ some y → o ≡ some y
refused true h = cc
refused false h = h

decoded-ok :
    (k s : String) (rest : Option (List (String × String))) (o : List (String × String))
    → decoded k s rest ≡ some o
    → (m : List (String × String)) × (rest ≡ some m) × (o ≡ (k, s) ∷ m)
decoded-ok k s none o h = cc
decoded-ok k s (some m) o h = (m, refl, some-eq (sym h))

decode_options-raw :
    (g : Go) (m : List (String × Raw)) (o : List (String × String))
    → decode_options g m ≡ some o
    → m ≡ raw_of o
unfolding decode_options
decode_options-raw g [] o h = ap raw_of (some-eq h)
decode_options-raw g ((k, other) ∷ m) o h = cc
decode_options-raw g ((k, text s) ∷ m) o h =
    let (rest, made, e) = decoded-ok k s _ o (refused _ h) in
    ap (λ z. (k, text s) ∷ z) (decode_options-raw g m rest made) ∙ ap raw_of (sym e)

decode_bounded-ok :
    (g : Go) (kind : String) (large : Bool) (o : Option (List (String × String)))
    (c : Configuration)
    → decode_bounded g kind large o ≡ (none, some c)
    → (large ≡ false) × (o ≡ some c.options) × (c.kind ≡ kind) × (validate g c ≡ none)
unfolding decode_bounded
decode_bounded-ok g kind true o c h = cc
decode_bounded-ok g kind false none c h = cc
decode_bounded-ok g kind false (some m) c h =
    let same : record { kind = kind; options = m } ≡ c = cc in
    (
      refl,
      ap (λ z. some z.options) same,
      sym (ap (λ z. z.kind) same),
      subst (λ z. validate g z ≡ none) same (ap (λ z. z.0) h),
    )

-- What `Decode` accepts is a map of at most 128 strings, and the configuration that it gives is
-- valid, has the type that was asked for, and holds exactly the values of the map.
pub decode-exact :
    (g : Go) (kind : String) (m : List (String × Raw)) (c : Configuration)
    → decode g kind (some m) ≡ (none, some c)
    → (m ≡ raw_of c.options) × (length m ≤ 128) × (c.kind ≡ kind) × (validate g c ≡ none)
unfolding decode
decode-exact g kind m c h =
    let (small, made, same, good) = decode_bounded-ok g kind _ _ c h in
    (decode_options-raw g m c.options made, ground arith, same, good)
