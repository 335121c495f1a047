-- ===== src/Prelude/Maps.antt =====
-- Go's maps with strings for keys, as association lists.
use Prim.Native.String.{String}
use mathlib.Core.Path.{◌≡◌, refl, sym, subst}
use mathlib.Core.Logic.{inl, inr}
use mathlib.Core.Bool.{false}
use mathlib.Core.Option.{Option, none, some}
use mathlib.Core.List.{List, [], ◌∷◌}
use native.Mathlib.Omega.{arith}
use text.Mathlib.Text.{◌==◌ as str_eq}
use text.Mathlib.TextEquality.{eq_iff}
use ovs_webui.Prelude.Tests.{if◌then◌else◌, Bool-cases}

-- A map has one value for each key: an assignment replaces it, `delete` removes it.
module _ {A : Type 0} where
  abbrev pub find : String → List (String × A) → Option A
  find k [] = none
  find k ((j, v) ∷ m) = if str_eq j k then some v else find k m

  abbrev pub delete : String → List (String × A) → List (String × A)
  delete k [] = []
  delete k ((j, v) ∷ m) = let rest = delete k m in if str_eq j k then rest else (j, v) ∷ rest

  abbrev pub assign : String → A → List (String × A) → List (String × A)
  assign k v m = (k, v) ∷ delete k m

  pub find-delete_self : (k : String) (m : List (String × A)) → find k (delete k m) ≡ none
  find-delete_self k [] = refl
  find-delete_self k ((j, v) ∷ m) = ground (arith, find-delete_self k m)

  pub find-delete_ne :
      (k j : String) (m : List (String × A)) → str_eq j k ≡ false → find k (delete j m) ≡ find k m
  find-delete_ne k j [] n = refl
  find-delete_ne k j ((i, v) ∷ m) n = elim (Bool-cases (str_eq i j)) [
    | inl same ↦
        let e = (eq_iff i j).0 same in
        rw same (rw (subst (λ z. str_eq z k ≡ false) (sym e) n) (find-delete_ne k j m n))
    | inr other ↦ ground (arith, find-delete_ne k j m n)
  ]
