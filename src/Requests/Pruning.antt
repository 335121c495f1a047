-- ===== src/Requests/Pruning.antt =====
-- internal/repository/requests/requests.go: what `Prune` removes.
use ovs_webui.Prelude.{
  ℕ, zero, suc, ◌+◌, ◌≤◌, Bool, true, false, not, List, [], ◌∷◌, Option, none, some, length, every,
  ◌≡◌, refl, ap, subst, ◌⊎◌, inl, inr, arith,
}
use ovs_webui.Receipts.{Row}
use ovs_webui.Store.{Tables, ok, ok-injective}
use ovs_webui.Requests.{Command, find_row}
use ovs_webui.Requests.Retention.{remove_at, remove_oldest, earliest, is_prunable, prune}
use ovs_webui.Requests.Once.Rows.{find_row-remove_oldest}

remove_at-length :
    (p : Row → Bool) (rows : List Row) (at : ℕ)
    → earliest p rows ≡ some at
    → length rows ≡ suc (length (remove_at p at rows))
unfolding earliest remove_at
remove_at-length p [] at h = cc
remove_at-length p (r ∷ rs) at h = ground (arith, remove_at-length p rs at)

earliest-none :
    (p : Row → Bool) (rows : List Row) → earliest p rows ≡ none → every (λ r. not (p r)) rows ≡ true
unfolding earliest
earliest-none p [] h = refl
earliest-none p (r ∷ rs) h = ground (arith, earliest-none p rs)

-- The rows that `n` removals leave: `n` fewer, or none that may be removed.
abbrev pub Swept : ℕ → (Row → Bool) → List Row → List Row → Type 0
Swept n p rows out =
    (length rows ≡ length out + n)
    ⊎ ((length out ≤ length rows)
        × (length rows ≤ length out + n)
        × (every (λ r. not (p r)) out ≡ true))

oldest_at :
    (n : ℕ) (p : Row → Bool) (rows : List Row) (o : Option ℕ)
    → earliest p rows ≡ o
    → ((l : List Row) → Swept n p l (remove_oldest n p l))
    → Swept
        (suc n)
        p
        rows
        (elim o [ none ↦ rows | some at ↦ remove_oldest n p (remove_at p at rows) ])
oldest_at n p rows none e ih = inr (omega arith, omega arith, earliest-none p rows e)
oldest_at n p rows (some at) e ih =
    let l = remove_at-length p rows at e in
    elim (ih (remove_at p at rows)) [
      | inl s ↦ inl (omega arith)
      | inr (a, b, c) ↦ inr (omega arith, omega arith, c)
    ]

pub remove_oldest-length :
    (n : ℕ) (p : Row → Bool) (rows : List Row) → Swept n p rows (remove_oldest n p rows)
unfolding remove_oldest
remove_oldest-length zero p rows = inl (omega arith)
remove_oldest-length (suc n) p rows =
    oldest_at n p rows (earliest p rows) refl (remove_oldest-length n p)

-- What `Prune` leaves of the receipts: it removes at most 256, all that it may remove if these are
-- fewer, and finds for each key what it found, unless that may be removed.
pub prune-leaves :
    (cited : ℕ → Bool) (now : ℕ) (t u : Tables)
    → prune cited now t ≡ ok (tt, u)
    → Swept 256 (is_prunable cited now t) t.receipts u.receipts
      × ((c : Command)
          → (row : Row) → find_row c t.receipts ≡ some row
          → is_prunable cited now t row ≡ false
          → find_row c u.receipts ≡ some row)
unfolding prune
prune-leaves cited now t u h =
    let p = is_prunable cited now t in
    let e = ap (λ z. z.receipts) (ok-injective h).1 in
    (
      subst (Swept 256 p t.receipts) e (remove_oldest-length 256 p t.receipts),
      λ c row f n.
          subst (λ l. find_row c l ≡ some row) e
            (find_row-remove_oldest c 256 p t.receipts row f n),
    )
