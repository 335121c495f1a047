-- ===== src/Requests/Retention.antt =====
-- internal/repository/requests/requests.go: `Prune`.
use ovs_webui.Prelude.{
  ℕ, zero, suc, ◌-◌, Bool, false, not, ◌&&◌, List, [], ◌∷◌, Option, none, some, ltb, leb, ◌==◌,
  if◌then◌else◌,
}
use ovs_webui.Receipts.{Row}
use ovs_webui.Store.{Tables, Tx, modify}
use ovs_webui.Requests.{durable_ref, milliseconds}

abbrev pub retention : ℕ
retention = 2592000000000000

-- Whether `Prune` may remove the row; `cited` says that a record of evidence names the request.
unfoldable pub is_prunable : (ℕ → Bool) → ℕ → Tables → Row → Bool
unfolding durable_ref
is_prunable cited now t r =
    elim r.completed_at [ none ↦ false | some at ↦ ltb at (milliseconds (now - retention)) ]
    && not (durable_ref r.receipt.job t)
    && not (cited r.request)

abbrev completion : Row → ℕ
completion r = elim r.completed_at [ none ↦ 0 | some at ↦ at ]

-- The earliest completion of the rows that pass the test.
unfoldable pub earliest : (Row → Bool) → List Row → Option ℕ
earliest p [] = none
earliest p (r ∷ rs) =
    let rest = earliest p rs in
    if p r
    then elim rest [
      | none ↦ some (completion r)
      | some at ↦ some (if leb (completion r) at then completion r else at)
    ]
    else rest

-- Without the first row that passes the test and completed at that time.
unfoldable pub remove_at : (Row → Bool) → ℕ → List Row → List Row
remove_at p at [] = []
remove_at p at (r ∷ rs) =
    let rest = remove_at p at rs in if p r && completion r == at then rs else r ∷ rest

-- ORDER BY completed_at_ms LIMIT n
unfoldable pub remove_oldest : ℕ → (Row → Bool) → List Row → List Row
unfolding earliest remove_at
remove_oldest zero p rows = rows
remove_oldest (suc n) p rows = elim (earliest p rows) [
  | none ↦ rows
  | some at ↦ remove_oldest n p (remove_at p at rows)
]

-- `Prune`
unfoldable pub prune : (ℕ → Bool) → ℕ → Tx (Unit {0})
prune cited now =
    modify (λ t. record t { receipts = remove_oldest 256 (is_prunable cited now t) t.receipts })
