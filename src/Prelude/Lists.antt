-- ===== src/Prelude/Lists.antt =====
-- Lists measured and indexed by native numbers, under the library's names, and tables keyed by
-- numbers.
use Prim.Native.Nat.{ℕ, suc}
use mathlib.Core.Path.{◌≡◌, refl}
use mathlib.Core.Logic.{◌≢◌}
use mathlib.Core.Bool.{Bool, true, false, ◌&&◌, ◌||◌}
use mathlib.Core.List.{List, [], ◌∷◌}
use mathlib.Core.Option.{Option, none, some}
use native.Mathlib.Omega.{arith}
use ovs_webui.Prelude.Tests.{◌==◌, if◌then◌else◌}

module _ {ℓ} {A : Type ℓ} where
  abbrev pub length : List A → ℕ
  length [] = 0
  length (x ∷ xs) = suc (length xs)

  abbrev pub count : (A → Bool) → List A → ℕ
  count p [] = 0
  count p (x ∷ xs) = let rest = count p xs in if p x then suc rest else rest

  abbrev pub keep : (A → Bool) → List A → List A
  keep p [] = []
  keep p (x ∷ xs) = let rest = keep p xs in if p x then x ∷ rest else rest

  abbrev pub any : (A → Bool) → List A → Bool
  any p [] = false
  any p (x ∷ xs) = p x || any p xs

  abbrev pub every : (A → Bool) → List A → Bool
  every p [] = true
  every p (x ∷ xs) = p x && every p xs

abbrev pub All {ℓ κ} : {A : Type ℓ} → (A → Type κ) → List A → Type κ
All P [] = Unit
All P (x ∷ xs) = P x × All P xs

-- A table with one row for each key.
module _ {ℓ} {V : Type ℓ} where
  abbrev pub lookup : ℕ → List (ℕ × V) → Option V
  lookup k [] = none
  lookup k ((j, v) ∷ m) = if j == k then some v else lookup k m

  -- `UPDATE … WHERE id = k`: the row with the key, if there is one.
  abbrev pub update : ℕ → V → List (ℕ × V) → List (ℕ × V)
  update k v [] = []
  update k v ((j, w) ∷ m) = if j == k then (j, v) ∷ m else (j, w) ∷ update k v m

  pub lookup-update_self :
      (k : ℕ) (v old : V) (m : List (ℕ × V))
      → lookup k m ≡ some old
      → lookup k (update k v m) ≡ some v
  lookup-update_self k v old [] h = ground arith
  lookup-update_self k v old ((j, w) ∷ m) h = ground (arith, lookup-update_self k v old m)

  pub lookup-update_ne :
      (j k : ℕ) (v : V) (m : List (ℕ × V)) → j ≢ k → lookup j (update k v m) ≡ lookup j m
  lookup-update_ne j k v [] h = refl
  lookup-update_ne j k v ((i, w) ∷ m) h = ground (arith, lookup-update_ne j k v m h)

pub every_lem {ℓ} :
    {A : Type ℓ} (p : A → Bool) (xs : List A) → every p xs ≡ true → All (λ x. p x ≡ true) xs
every_lem p [] h = tt
every_lem p (x ∷ xs) h = ground (arith, every_lem p xs)
