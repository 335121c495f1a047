-- ===== src/Requests/Once/Rows.antt =====
-- internal/repository/requests/requests.go: the rows that transactions and `Prune` leave.
use ovs_webui.Prelude.{
  ℕ, zero, suc, Bool, true, false, List, [], ◌∷◌, ◌++◌, Option, none, some, if◌then◌else◌, ◌≡◌,
  refl, subst, ◌⊎◌, inl, arith, sym,
}
use ovs_webui.Receipts.{Row}
use ovs_webui.Requests.{Command, has_key, find_row, milliseconds}
use ovs_webui.Requests.Retention.{remove_at, remove_oldest, earliest}

some-inj : (r q : Row) → ◌≡◌ {A = Option Row} (some r) (some q) → r ≡ q
some-inj r q h = cc

-- The row stands under the same key, and was not completed but now.
pub record RowKept (now : ℕ) (r q : Row) : Type 0 where
  pub principal : q.principal ≡ r.principal
  pub epoch : q.epoch ≡ r.epoch
  pub domain : q.domain ≡ r.domain
  pub request : q.request ≡ r.request
  pub completed : (q.completed_at ≡ r.completed_at) ⊎ (q.completed_at ≡ some (milliseconds now))

unfoldable pub RowsKept : ℕ → List Row → List Row → Type 0
RowsKept now [] [] = Unit
RowsKept now (r ∷ rs) (q ∷ qs) = RowKept now r q × RowsKept now rs qs
RowsKept now _ _ = ⊥

has_key-RowKept : (c : Command) (now : ℕ) (r q : Row) → RowKept now r q → has_key c q ≡ has_key c r
has_key-RowKept c now r q k = rw k.principal (rw k.epoch (rw k.domain (rw k.request refl)))

kept_at :
    (now : ℕ) (r q row : Row) (b b' : Bool) (o o' : Option Row)
    → b' ≡ b
    → RowKept now r q
    → (o ≡ some row → (x : Row) × (o' ≡ some x) × RowKept now row x)
    → (if b then some r else o) ≡ some row
    → (x : Row) × ((if b' then some q else o') ≡ some x) × RowKept now row x
kept_at now r q row true true o o' e k ih h =
    (q, refl, subst (λ z. RowKept now z q) (some-inj r row h) k)
kept_at now r q row false false o o' e k ih h = ih h
kept_at now r q row true false o o' e k ih h = cc
kept_at now r q row false true o o' e k ih h = cc

-- What was found is still there.
pub find_row-RowsKept :
    (c : Command) (now : ℕ) (rs qs : List Row) (row : Row)
    → RowsKept now rs qs
    → find_row c rs ≡ some row
    → (q : Row) × (find_row c qs ≡ some q) × RowKept now row q
unfolding RowsKept find_row
find_row-RowsKept c now [] qs row k h = cc
find_row-RowsKept c now (r ∷ rs) [] row k h = absurd k
find_row-RowsKept c now (r ∷ rs) (q ∷ qs) row (k, ks) h =
    kept_at now r q row (has_key c r) (has_key c q) (find_row c rs) (find_row c qs)
      (has_key-RowKept c now r q k) k (find_row-RowsKept c now rs qs row ks) h

pub find_row-append_old :
    (c : Command) (rows more : List Row) (row : Row)
    → find_row c rows ≡ some row
    → find_row c (rows ++ more) ≡ some row
unfolding find_row
find_row-append_old c [] more row h = cc
find_row-append_old c (r ∷ rows) more row h = ground (arith, find_row-append_old c rows more row)

find_row-remove_at :
    (c : Command) (p : Row → Bool) (at : ℕ) (rows : List Row) (row : Row)
    → find_row c rows ≡ some row
    → p row ≡ false
    → find_row c (remove_at p at rows) ≡ some row
unfolding find_row remove_at
find_row-remove_at c p at [] row h n = cc
find_row-remove_at c p at (r ∷ rows) row h n = ground (arith, find_row-remove_at c p at rows row)

oldest_at :
    (c : Command) (n : ℕ) (p : Row → Bool) (rows : List Row) (row : Row) (o : Option ℕ)
    → find_row c rows ≡ some row
    → ((at : ℕ) → find_row c (remove_oldest n p (remove_at p at rows)) ≡ some row)
    → find_row c (elim o [ none ↦ rows | some at ↦ remove_oldest n p (remove_at p at rows) ])
      ≡ some row
oldest_at c n p rows row none h ih = h
oldest_at c n p rows row (some at) h ih = ih at

-- `Prune` leaves what it may not remove.
pub find_row-remove_oldest :
    (c : Command) (n : ℕ) (p : Row → Bool) (rows : List Row) (row : Row)
    → find_row c rows ≡ some row
    → p row ≡ false
    → find_row c (remove_oldest n p rows) ≡ some row
unfolding remove_oldest
find_row-remove_oldest c zero p rows row h e = h
find_row-remove_oldest c (suc n) p rows row h e =
    oldest_at c n p rows row (earliest p rows) h (λ at.
      find_row-remove_oldest c n p (remove_at p at rows) row
        (find_row-remove_at c p at rows row h e) e)

pub RowsKept-refl : (now : ℕ) (rows : List Row) → RowsKept now rows rows
unfolding RowsKept
RowsKept-refl now [] = tt
RowsKept-refl now (r ∷ rows) = (
  record { principal = refl; epoch = refl; domain = refl; request = refl; completed = inl refl },
  RowsKept-refl now rows,
)

none_at :
    (r q : Row) (b b' : Bool) (o o' : Option Row)
    → b' ≡ b
    → (o' ≡ none → o ≡ none)
    → (if b' then some q else o') ≡ none
    → (if b then some r else o) ≡ none
none_at r q true true o o' e ih h = cc
none_at r q false false o o' e ih h = ih h
none_at r q true false o o' e ih h = cc
none_at r q false true o o' e ih h = cc

-- No key is lost and none is new.
pub find_row-RowsKept-none :
    (c : Command) (now : ℕ) (rs qs : List Row)
    → RowsKept now rs qs
    → find_row c rs ≡ none
    → find_row c qs ≡ none
unfolding RowsKept find_row
find_row-RowsKept-none c now [] [] k h = refl
find_row-RowsKept-none c now [] (q ∷ qs) k h = absurd k
find_row-RowsKept-none c now (r ∷ rs) [] k h = absurd k
find_row-RowsKept-none c now (r ∷ rs) (q ∷ qs) (k, ks) h =
    none_at q r (has_key c q) (has_key c r) (find_row c qs) (find_row c rs)
      (sym (has_key-RowKept c now r q k)) (find_row-RowsKept-none c now rs qs ks) h

pub find_row-RowsKept_old :
    (c : Command) (now : ℕ) (rs qs : List Row)
    → RowsKept now rs qs
    → find_row c qs ≡ none
    → find_row c rs ≡ none
unfolding RowsKept find_row
find_row-RowsKept_old c now [] [] k h = refl
find_row-RowsKept_old c now [] (q ∷ qs) k h = absurd k
find_row-RowsKept_old c now (r ∷ rs) [] k h = absurd k
find_row-RowsKept_old c now (r ∷ rs) (q ∷ qs) (k, ks) h =
    none_at r q (has_key c r) (has_key c q) (find_row c rs) (find_row c qs)
      (has_key-RowKept c now r q k) (find_row-RowsKept_old c now rs qs ks) h
