-- ===== src/Requests/Replays.antt =====
-- internal/repository/requests/requests.go: what a request that went through leaves behind, and what
-- a request with the same key is answered.
use ovs_webui.Prelude.{
  ℕ, ◌+◌, true, false, not, String, str_eq, eq_iff, List, [], ◌∷◌, ◌++◌, Option, none, some, ltb,
  ◌==◌, if◌then◌else◌, length, is_some, ◌≡◌, refl, sym, ◌∙◌, subst, ◌⊎◌, inl, inr, arith,
}
use ovs_webui.Receipts.{Row}
use ovs_webui.Store.{
  Error, Tables, ok, err, Tx, chain, guard, chain-ok, guard-ok, ok-injective, idempotency_mismatch,
}
use ovs_webui.Requests.{
  Command, Mutation, Reply, Told, has_key, find_row, replay_of, refuse, is_current, receipt_limit,
  row_for, reply_for, insert_receipt, admit, execute_tx, milliseconds, resume,
}

str_eq_refl : (s : String) → str_eq s s ≡ true
str_eq_refl s = (eq_iff s s).1 refl

pub find_row-append :
    (c : Command) (r : Row) (rows : List Row)
    → find_row c rows ≡ none
    → has_key c r ≡ true
    → find_row c (rows ++ (r ∷ [])) ≡ some r
unfolding find_row
find_row-append c r [] n h = rw h refl
find_row-append c r (q ∷ rows) n h = ground (arith, find_row-append c r rows)

absent : (o : Option Row) → not (is_some o) ≡ true → o ≡ none
absent none h = refl
absent (some r) h = cc

refuse-ok : (o : Option Error) (t u : Tables) {x : Unit {0}} → refuse o t ≡ ok (x, u) → t ≡ u
unfolding refuse
refuse-ok none t u h = (ok-injective h).1
refuse-ok (some e) t u h = cc

module _ (v : Told) (c : Command) (d key : ℕ) where
  pub row_for-has_key : (m : Mutation) → has_key c (row_for v c d key m) ≡ true
  unfolding row_for
  row_for-has_key m = ground (arith, str_eq_refl c.domain)

  -- The tables with the row of the request and the watermark.
  abbrev pub inserted : Mutation → Tables → Tables
  inserted m t = record t {
    receipts = t.receipts ++ (row_for v c d key m ∷ []);
    high_watermark =
        if ltb t.high_watermark (milliseconds v.now) then milliseconds v.now else t.high_watermark;
  }

  -- What a request that is admitted has passed, and what it leaves.
  abbrev pub Admitted : Tx Mutation → Tables → Reply → Tables → Type 0
  Admitted mutate t r u =
      (m : Mutation) × (t1 : Tables) × (mutate t ≡ ok (m, t1))
      × ((t.authority_epoch == c.epoch) ≡ true)
      × (not (ltb (milliseconds v.now + 120000) t.high_watermark) ≡ true)
      × (is_current v.now key ≡ true)
      × (ltb (length t.receipts) (receipt_limit c.operation) ≡ true)
      × (find_row c t1.receipts ≡ none)
      × (r ≡ reply_for v c d key m)
      × (u ≡ inserted m t1)

  pub insert_receipt-ok :
      (m : Mutation) (t u : Tables) {x : Unit {0}}
      → insert_receipt v c d key m t ≡ ok (x, u)
      → (find_row c t.receipts ≡ none) × (u ≡ inserted m t)
  unfolding insert_receipt chain
  insert_receipt-ok m t u h =
      let (e, h1) = guard-ok _ _ _ _ h in
      (absent (find_row c t.receipts) e, sym (ok-injective (unfold chain in h1)).1)

  pub admit-ok :
      (mutate : Tx Mutation) (t u : Tables) (r : Reply)
      → admit v c d key mutate t ≡ ok (r, u)
      → Admitted mutate t r u
  unfolding admit chain
  admit-ok mutate t u r h =
      let (e1, h1) = guard-ok _ _ _ _ h in
      let (e2, h2) = guard-ok _ _ _ _ h1 in
      let (e3, h3) = guard-ok _ _ _ _ h2 in
      let (e4, h4) = guard-ok _ _ _ _ h3 in
      let (m, t1, e5, h5) = chain-ok _ _ h4 in
      let (e6, h6) = guard-ok _ _ _ _ h5 in
      let (e7, h7) = guard-ok _ _ _ _ h6 in
      let (_, t2, e8, h8) = chain-ok _ _ h7 in
      let (e9, e10) = insert_receipt-ok m t1 t2 e8 in
      (m, t1, e5, e1, e2, e3, e4, e9, sym (ok-injective h8).0, sym (ok-injective h8).1 ∙ e10)

  -- The row that a request was answered from.
  abbrev pub Replayed : Tables → Reply → Tables → Type 0
  Replayed t r u =
      (row : Row) × (find_row c t.receipts ≡ some row)
      × ((row.fingerprint == d) ≡ true)
      × (r ≡ replay_of row)
      × (u ≡ t)

  resume-ok :
      (mutate : Tx Mutation) (o : Option Row) (t u : Tables) (r : Reply)
      → find_row c t.receipts ≡ o
      → resume v c d key mutate o t ≡ ok (r, u)
      → Replayed t r u ⊎ Admitted mutate t r u
  unfolding resume chain
  resume-ok mutate none t u r e h = inr (admit-ok mutate t u r h)
  resume-ok mutate (some row) t u r e h =
      let (e1, h1) = guard-ok _ _ _ _ h in
      let (e2, e3) = ok-injective h1 in inl (row, e, e1, sym e2, sym e3)

  -- A request that goes through is answered from its row, or is admitted.
  pub execute_tx-ok :
      (mutate : Tx Mutation) (t u : Tables) (r : Reply)
      → execute_tx v c d key mutate t ≡ ok (r, u)
      → Replayed t r u ⊎ Admitted mutate t r u
  unfolding execute_tx
  execute_tx-ok mutate t u r h =
      let (_, t1, e1, h1) = chain-ok _ _ h in
      let e2 = refuse-ok v.inner t t1 e1 in
      resume-ok mutate (find_row c t.receipts) t u r refl (
        subst (λ z. resume v c d key mutate (find_row c z.receipts) z ≡ ok (r, u)) (sym e2)
          (unfold chain in h1))

  -- A request that has a row with its fingerprint changes nothing and is answered from the row.
  pub execute_tx-find_row :
      (mutate : Tx Mutation) (t : Tables) (row : Row)
      → v.inner ≡ none
      → find_row c t.receipts ≡ some row
      → (row.fingerprint == d) ≡ true
      → execute_tx v c d key mutate t ≡ ok (replay_of row, t)
  unfolding execute_tx refuse chain resume guard
  execute_tx-find_row mutate t row n found same = rw n (rw found (rw same refl))

  -- A row with another fingerprint refuses the request.
  pub execute_tx-mismatch :
      (mutate : Tx Mutation) (t : Tables) (row : Row)
      → v.inner ≡ none
      → find_row c t.receipts ≡ some row
      → (row.fingerprint == d) ≡ false
      → execute_tx v c d key mutate t ≡ err idempotency_mismatch
  unfolding execute_tx refuse chain resume guard
  execute_tx-mismatch mutate t row n found other = rw n (rw found (rw other refl))
