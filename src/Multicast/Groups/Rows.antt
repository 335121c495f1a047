-- ===== src/Multicast/Groups/Rows.antt =====
-- internal/multicast/groups.go: what the rows of a reply add to the groups before them.
use ovs_webui.Prelude.{
  ℕ, ◌+◌, ◌≤◌, ◌≡◌, refl, sym, ap, subst, ◌∙◌, Bool, false, List, [], ◌∷◌, ◌++◌, map, String,
  Option, none, some, leb, length, any, if◌then◌else◌, arith,
}
use ovs_webui.Multicast.Groups.{
  Group, Go, same_group, read_fields, add_group, decode_rows, with_rows, max_groups,
}

-- No group has the key of an earlier one, nor of one that stands before all.
abbrev pub Fresh : List Group → List Group → Type 0
Fresh before [] = Unit
Fresh before (g ∷ gs) = (any (same_group g) before ≡ false) × Fresh (before ++ (g ∷ [])) gs

++_assoc : (xs : List Group) (g : Group) (ys : List Group) → (xs ++ (g ∷ [])) ++ ys ≡ xs ++ (g ∷ ys)
++_assoc [] g ys = refl
++_assoc (x ∷ xs) g ys = ap (λ z. x ∷ z) (++_assoc xs g ys)

length-++ : (xs ys : List Group) → length (xs ++ ys) ≡ length xs + length ys
length-++ [] ys = ground arith
length-++ (x ∷ xs) ys = ground (arith, length-++ xs ys)

not_refused :
    (c : Bool) (x y : List Group) → (if c then none else some x) ≡ some y → (c ≡ false) × (x ≡ y)
not_refused c x y h = ground arith

within :
    (n : ℕ) (o : Option (List Group)) (r : List Group)
    → (if leb max_groups n then none else o) ≡ some r
    → (o ≡ some r) × (n + 1 ≤ max_groups)
within n o r h = ground arith

has_room :
    (n : ℕ) (o : Option (List Group))
    → n + 1 ≤ max_groups
    → (if leb max_groups n then none else o) ≡ o
has_room n o h = ground arith

with_rows-add_group :
    (o : Option (List Group)) (f : List Group → Option (List Group)) (x : List Group)
    → o ≡ some x
    → with_rows o f ≡ f x
unfolding with_rows
with_rows-add_group o f x h = ap (λ z. with_rows z f) h

some_injective : (x y : List Group) → some x ≡ some y → x ≡ y
some_injective x y h = ground arith

both : (a b : Option Group) (xs ys : List (Option Group)) → a ≡ b → xs ≡ ys → (a ∷ xs) ≡ (b ∷ ys)
both a b xs ys e h = cc

heads :
    (a b : Option Group) (xs ys : List (Option Group)) → (a ∷ xs) ≡ (b ∷ ys) → (a ≡ b) × (xs ≡ ys)
heads a b xs ys h = ground arith

add_group-some :
    (out : List Group) (o : Option Group) (next : List Group)
    → add_group out o ≡ some next
    → (g : Group) × (o ≡ some g) × (any (same_group g) out ≡ false) × (next ≡ out ++ (g ∷ []))
unfolding add_group
add_group-some out none next h = ground arith
add_group-some out (some g) next h =
    let (fresh, e) = not_refused (any (same_group g) out) (out ++ (g ∷ [])) next h in
    (g, refl, fresh, sym e)

some-add_group :
    (out : List Group) (o : Option Group) (g : Group)
    → o ≡ some g
    → any (same_group g) out ≡ false
    → add_group out o ≡ some (out ++ (g ∷ []))
unfolding add_group
some-add_group out o g h fresh = ground arith

with_rows-some :
    (o : Option (List Group)) (f : List Group → Option (List Group)) (r : List Group)
    → with_rows o f ≡ some r
    → (x : List Group) × (o ≡ some x) × (f x ≡ some r)
unfolding with_rows
with_rows-some none f r h = ground arith
with_rows-some (some x) f r h = (x, refl, h)

-- What the rows add to the groups that stand before them.
abbrev pub Read : Go → List String → List Group → List Group → Type 0
Read go rows before new =
    (map (λ l. read_fields go (go.fields l)) rows ≡ map some new) × Fresh before new

abbrev pub Added : Go → List String → List Group → List Group → Type 0
Added go rows before r = (new : List Group) × (r ≡ before ++ new) × Read go rows before new

++_nil : (xs : List Group) → xs ≡ xs ++ []
++_nil [] = refl
++_nil (x ∷ xs) = ap (λ z. x ∷ z) (++_nil xs)

pub decode_rows-Added :
    (go : Go) (rows : List String) (before r : List Group)
    → decode_rows go rows before ≡ some r
    → Added go rows before r
unfolding decode_rows
decode_rows-Added go [] before r h =
    ([], sym (some_injective before r h) ∙ ++_nil before, (refl, tt))
decode_rows-Added go (l ∷ ls) before r h =
    let o = read_fields go (go.fields l) in
    let (next, a, h') =
      with_rows-some (add_group before o) (λ x. decode_rows go ls x) r
        (within (length before) _ r h).0 in
    let (g, e, fresh, same) = add_group-some before o next a in
    let (new, k, (reads, f)) = decode_rows-Added go ls next r h' in
    (
      g ∷ new,
      k ∙ ap (λ z. z ++ new) same ∙ ++_assoc before g new,
      (both o (some g) _ _ e reads, (fresh, subst (λ z. Fresh z new) same f)),
    )

pub decode_rows_bounded :
    (go : Go) (rows : List String) (before r : List Group)
    → decode_rows go rows before ≡ some r
    → length before ≤ max_groups
    → length r ≤ max_groups
unfolding decode_rows
decode_rows_bounded go [] before r h n =
    subst (λ z. length z ≤ max_groups) (some_injective before r h) n
decode_rows_bounded go (l ∷ ls) before r h n =
    let o = read_fields go (go.fields l) in
    let (h1, room) = within (length before) _ r h in
    let (next, a, h') = with_rows-some (add_group before o) (λ x. decode_rows go ls x) r h1 in
    let (g, e, fresh, same) = add_group-some before o next a in
    decode_rows_bounded go ls next r h' (
      subst (λ z. length z ≤ max_groups) (sym same)
        (subst (λ k. k ≤ max_groups) (sym (length-++ before (g ∷ []))) room))

pub Read-decode_rows :
    (go : Go) (rows : List String) (before new : List Group)
    → Read go rows before new
    → length before + length new ≤ max_groups
    → decode_rows go rows before ≡ some (before ++ new)
unfolding decode_rows
Read-decode_rows go [] before [] k n = ap some (++_nil before)
Read-decode_rows go [] before (g ∷ new) (reads, f) n = cc
Read-decode_rows go (l ∷ ls) before [] (reads, f) n = cc
Read-decode_rows go (l ∷ ls) before (g ∷ new) (reads, (fresh, f)) n =
    let o = read_fields go (go.fields l) in
    let (e, reads') = heads o (some g) _ _ reads in
    has_room (length before) _ (ground arith)
    ∙ with_rows-add_group (add_group before o) (λ x. decode_rows go ls x) (before ++ (g ∷ []))
        (some-add_group before o g e fresh)
    ∙ Read-decode_rows go ls (before ++ (g ∷ [])) new (reads', f)
        (subst (λ k. k + length new ≤ max_groups) (sym (length-++ before (g ∷ []))) (ground arith))
    ∙ ap some (++_assoc before g new)
