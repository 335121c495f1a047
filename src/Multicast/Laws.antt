-- ===== src/Multicast/Laws.antt =====
-- internal/multicast/config.go: what `Validate` admits, and what `Merge` keeps.
use ovs_webui.Prelude.{
  ℕ, ◌≤◌, ◌≡◌, refl, sym, ◌∙◌, subst, ap, Bool, true, false, String, str_eq, eq_iff, List, [], ◌∷◌,
  Option, none, some, arith, if◌then◌else◌, find, assign, find-delete_ne, is_some,
}
use ovs_webui.Prelude.Int.{ℤ, pos, negsuc}
use ovs_webui.Multicast.{
  Configuration, Numbers, Code, validate, check_key, check_keys, check_value, check_integer,
  check_parsed, merge, merged, merge_parameters, after_check, table_size, aging_time, first_error,
}

taken :
    {A : Type 0} (c : Bool) {o : Option A} {y : A}
    → (if c then o else none) ≡ some y
    → (c ≡ true) × (o ≡ some y)
taken true h = (refl, h)
taken false h = cc

found_not :
    {A : Type 0} (c : Bool) (x : A) {o : Option A}
    → (if c then some x else o) ≡ none
    → (c ≡ false) × (o ≡ none)
found_not true x h = cc
found_not false x h = (refl, h)

first_none : (a b : Option Code) → first_error a b ≡ none → (a ≡ none) × (b ≡ none)
first_none none b h = (refl, h)
first_none (some e) b h = cc

assign-find_ne :
    {A : Type 0} (k j : String) (v : A) (m : List (String × A))
    → str_eq j k ≡ false
    → find k (assign j v m) ≡ find k m
assign-find_ne k j v m n = rw n (find-delete_ne k j m n)

module _ (g : Numbers) where
  check_parsed-none :
      (s : String) (lo hi : ℕ) (o : Option ℤ)
      → check_parsed g s (pos lo) (pos hi) o ≡ none
      → (n : ℕ) × (o ≡ some (pos n)) × (lo ≤ n) × (n ≤ hi) × (g.format_int (pos n) ≡ s)
  unfolding check_parsed
  check_parsed-none s lo hi none h = cc
  check_parsed-none s lo hi (some (pos n)) h =
      (n, refl, ground arith, ground arith, (eq_iff (g.format_int (pos n)) s).0 (ground arith))
  check_parsed-none s lo hi (some (negsuc n)) h = ground arith

  merge_parameters-find :
      (k : String) (r m after : List (String × Option String))
      → merge_parameters g r m ≡ some after
      → find k r ≡ none
      → find k after ≡ find k m
  unfolding merge_parameters
  merge_parameters-find k [] m after h n = cc
  merge_parameters-find k ((j, v) ∷ r) m after h n =
      let (other, rest) = found_not (str_eq j k) v n in
      merge_parameters-find k r (assign j v m) after (taken (is_some (find j m)) h).1 rest
      ∙ assign-find_ne k j v m other

  merged-none :
      (enabled : Bool) (o : Option (List (String × Option String))) (after : Configuration)
      → merged g enabled o ≡ (none, some after)
      → (o ≡ some after.parameters) × (after.enabled ≡ enabled) × (validate g after ≡ none)
  unfolding merged
  merged-none enabled none after h = cc
  merged-none enabled (some m) after h =
      let same : record { enabled = enabled; parameters = m } ≡ after = cc in
      (
        ap (λ c. some c.parameters) same,
        sym (ap (λ c. c.enabled) same),
        subst (λ c. validate g c ≡ none) same (ap (λ z. z.0) h),
      )

  after_check-none :
      (e : Option Code) (original request after : Configuration)
      → after_check g e original request ≡ (none, some after)
      → merged g request.enabled (merge_parameters g request.parameters original.parameters)
        ≡ (none, some after)
  unfolding after_check
  after_check-none none original request after h = h
  after_check-none (some e) original request after h = cc

  check_keys-none :
      (c : Configuration)
      → validate g c ≡ none
      → (check_key g aging_time (find aging_time c.parameters) ≡ none)
        × (check_key g table_size (find table_size c.parameters) ≡ none)
  unfolding validate check_keys
  check_keys-none c h = ground arith

  key_none :
      (key : String) (o : Option (Option String)) (s : String) (lo hi : ℕ)
      → check_key g key o ≡ none
      → o ≡ some (some s)
      → check_value g key s ≡ check_integer g s (pos lo) (pos hi)
      → (n : ℕ) × (g.parse_int32 s ≡ some (pos n))
        × (lo ≤ n)
        × (n ≤ hi)
        × (g.format_int (pos n) ≡ s)
  unfolding check_key check_integer
  key_none key o s lo hi h e v =
      check_parsed-none s lo hi (g.parse_int32 s)
        (sym v ∙ subst (λ z. check_key g key z ≡ none) e h)

-- A configuration that is valid and sets both numbers sets them to decimal numbers in the range of
-- each, in the form that Go prints.
pub validate-bounds :
    (g : Numbers) (c : Configuration) (age size : String)
    → validate g c ≡ none
    → find aging_time c.parameters ≡ some (some age)
    → find table_size c.parameters ≡ some (some size)
    → ((n : ℕ) × (g.parse_int32 age ≡ some (pos n))
        × (15 ≤ n)
        × (n ≤ 3600)
        × (g.format_int (pos n) ≡ age))
      × ((n : ℕ) × (g.parse_int32 size ≡ some (pos n))
          × (10 ≤ n)
          × (n ≤ 1000000)
          × (g.format_int (pos n) ≡ size))
unfolding check_value
validate-bounds g c age size h a z =
    let (first, second) = check_keys-none g c h in
    (
      key_none g aging_time _ age 15 3600 first a refl,
      key_none g table_size _ size 10 1000000 second z refl,
    )

-- A merge without an error gives a valid configuration, enabled as the request says, in which a
-- parameter that the request does not mention has the value that it had.
pub merge-keeps :
    (g : Numbers) (original request after : Configuration) (k : String)
    → merge g original request ≡ (none, some after)
    → find k request.parameters ≡ none
    → (validate g after ≡ none)
      × (after.enabled ≡ request.enabled)
      × (find k after.parameters ≡ find k original.parameters)
unfolding merge
merge-keeps g original request after k h n =
    let made = after_check-none g _ original request after h in
    let (parameters, enabled, good) = merged-none g _ _ after made in
    (
      good,
      enabled,
      merge_parameters-find g k request.parameters original.parameters after.parameters parameters
          n,
    )
