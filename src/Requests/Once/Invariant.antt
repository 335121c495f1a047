-- ===== src/Requests/Once/Invariant.antt =====
-- internal/repository/requests/requests.go: what holds of a key while requests and prunings go on.
use ovs_webui.Prelude.{
  ℕ, suc, ◌+◌, ◌-◌, ◌*◌, ◌≤◌, ◌<◌, Bool, true, false, eq_iff, List, [], ◌∷◌, Option, none, some,
  ==_iff, if◌then◌else◌, count, ◌≡◌, refl, sym, ap, ◌∙◌, subst, ◌⊎◌, inl, inr, arith, ltb,
  Bool-cases, &&-true,
}
use ovs_webui.Receipts.{Row, request_time}
use ovs_webui.Store.{Tables, Result, ok, err, Tx}
use ovs_webui.Requests.{
  Command, Mutation, Reply, Told, execute_tx, find_row, has_key, is_current, milliseconds, row_for,
  reply_for, replay_of,
}
use ovs_webui.Requests.Retention.{prune, is_prunable, retention}
use ovs_webui.Requests.Replays.{inserted, execute_tx-ok, find_row-append, row_for-has_key}
use ovs_webui.Requests.Once.{
  World, drift, later, serve, sweep, Completes, Step, request, pruning, Steps, done, after,
  same_key,
}
use ovs_webui.Requests.Once.Rows.{
  RowKept, RowsKept, find_row-RowsKept, find_row-append_old, find_row-remove_oldest,
}

-- The row was not completed long before the time of its key.
abbrev pub Late : ℕ → Row → Type 0
Late key row =
    (row.completed_at ≡ none) ⊎ ((at : ℕ) × (row.completed_at ≡ some at) × (key ≤ at + 1209720001))

-- The key was not used; it was used and has a row; or its time is over.
pub data Once (c : Command) (key : ℕ) (w : World) : Type 0 where
  unused : count (same_key c) w.served ≡ 0 → Once c key w
  held :
      count (same_key c) w.served ≡ 1
      → key * 1000000 ≤ w.clock + 120000000000
      → (row : Row) → find_row c w.tables.receipts ≡ some row
      → Late key row
      → Once c key w
  over :
      count (same_key c) w.served ≡ 1
      → key * 1000000 + 300000000000 + drift < w.clock
      → Once c key w

later_ge : (a b : ℕ) → (a ≤ later a b) × (b ≤ later a b)
later_ge a b = ground arith

is_current-bounds :
    (now key : ℕ)
    → is_current now key ≡ true
    → (now ≤ key * 1000000 + 300000000000) × (key * 1000000 ≤ now + 120000000000)
unfolding is_current
is_current-bounds now key h = ground arith

none-some : {A : Type 0} {a : A} → ◌≡◌ {A = Option A} none (some a) → ⊥
none-some h = cc

some-equal : (a b : ℕ) → ◌≡◌ {A = Option ℕ} (some a) (some b) → a ≡ b
some-equal a b h = cc

too_late :
    {now clock key key' : ℕ}
    → now ≤ key' * 1000000 + 300000000000
    → key' ≡ key
    → key * 1000000 + 300000000000 + drift < clock
    → clock ≤ now + drift
    → ⊥
too_late k e g b = omega arith

module _ (c : Command) (key : ℕ) where
  clock-Once :
      (w : World) (now : ℕ) → Once c key w → Once c key (record w { clock = later w.clock now })
  clock-Once w now (unused n) = unused n
  clock-Once w now (held n k row f l) =
      let (g, _) = later_ge w.clock now in held n (omega arith) row f l
  clock-Once w now (over n k) = let (g, _) = later_ge w.clock now in over n (omega arith)

  same_key-equal :
      (c' : Command)
      → same_key c c' ≡ true
      → (c'.principal ≡ c.principal)
        × (c'.epoch ≡ c.epoch)
        × (c'.domain ≡ c.domain)
        × (c'.id ≡ c.id)
  same_key-equal c' h =
      let (h1, i) = &&-true _ _ h in
      let (h2, d) = &&-true _ _ h1 in
      let (p, e) = &&-true _ _ h2 in
      (
        (==_iff c'.principal c.principal).0 p,
        (==_iff c'.epoch c.epoch).0 e,
        (eq_iff c'.domain c.domain).0 d,
        (==_iff c'.id c.id).0 i,
      )

  same_key-has_key : (c' : Command) (r : Row) → same_key c c' ≡ true → has_key c r ≡ has_key c' r
  same_key-has_key c' r h = let (p, e, d, i) = same_key-equal c' h in rw p (rw e (rw d (rw i refl)))

  same_key-find_row :
      (c' : Command) (rows : List Row) → same_key c c' ≡ true → find_row c rows ≡ find_row c' rows
  unfolding find_row
  same_key-find_row c' [] h = refl
  same_key-find_row c' (r ∷ rows) h =
      rw (same_key-has_key c' r h) (rw (same_key-find_row c' rows h) refl)

  row_for-same_key :
      (v : Told) (c' : Command) (d key' : ℕ) (m : Mutation)
      → has_key c (row_for v c' d key' m) ≡ same_key c c'
  unfolding row_for
  row_for-same_key v c' d key' m = refl

  late_at :
      (now : ℕ) (b : Bool)
      → key * 1000000 ≤ now + 120000000000
      → ((if b then some (milliseconds now) else none) ≡ none)
        ⊎ ((at : ℕ) × ((if b then some (milliseconds now) else none) ≡ some at)
            × (key ≤ at + 1209720001))
  late_at now true h = inr (milliseconds now, refl, omega arith)
  late_at now false h = inl refl

  row_for-Late :
      (v : Told) (c' : Command) (d key' : ℕ) (m : Mutation)
      → is_current v.now key ≡ true
      → Late key (row_for v c' d key' m)
  unfolding row_for
  row_for-Late v c' d key' m h = late_at v.now m.terminal (is_current-bounds v.now key h).1

  RowKept-Late :
      (now clock : ℕ) (r q : Row)
      → RowKept now r q
      → clock ≤ now + drift
      → key * 1000000 ≤ clock + 120000000000
      → Late key r
      → Late key q
  RowKept-Late now clock r q k b e l = elim k.completed [
    | inl same ↦ elim l [ inl n ↦ inl (same ∙ n) | inr (at, f, g) ↦ inr (at, same ∙ f, g) ]
    | inr new ↦ inr (milliseconds now, new, omega arith)
  ]

  count_step :
      (c' : Command) (l : List Command) (b : Bool)
      → same_key c c' ≡ b
      → count (same_key c) (c' ∷ l)
        ≡ (if b then suc (count (same_key c) l) else count (same_key c) l)
  count_step c' l b h = ap (λ z. if z then suc (count (same_key c) l) else count (same_key c) l) h

  -- The key of a request that is admitted was not used.
  module _ (v : Told) (c' : Command) (d key' : ℕ) (mutate : Tx Mutation) (w : World) where
    fresh :
        (t1 : Tables) (m : Mutation)
        → request_time c.id ≡ some key
        → request_time c'.id ≡ some key'
        → same_key c c' ≡ true
        → w.clock ≤ v.now + drift
        → is_current v.now key' ≡ true
        → RowsKept v.now w.tables.receipts t1.receipts
        → find_row c' t1.receipts ≡ none
        → Once c key w
        → count (same_key c) w.served ≡ 0
    fresh t1 m ek ek' same b cur kept miss (unused n) = n
    fresh t1 m ek ek' same b cur kept miss (held n g row f l) =
        let (q, e, _) = find_row-RowsKept c v.now w.tables.receipts t1.receipts row kept f in
        absurd (none-some (sym miss ∙ sym (same_key-find_row c' t1.receipts same) ∙ e))
    fresh t1 m ek ek' same b cur kept miss (over n g) =
        let (_, _, _, i) = same_key-equal c' same in
        let e = some-equal key' key (sym ek' ∙ ap request_time i ∙ ek) in
        let (k, _) = is_current-bounds v.now key' cur in absurd (too_late k e g b)

    -- The world after a request that was admitted.
    abbrev admission : Tables → Mutation → World
    admission t1 m = record {
      tables = inserted v c' d key' m t1;
      clock = later w.clock v.now;
      served = c' ∷ w.served;
    }

    admission_same :
        (t1 : Tables) (m : Mutation)
        → request_time c.id ≡ some key
        → request_time c'.id ≡ some key'
        → same_key c c' ≡ true
        → is_current v.now key' ≡ true
        → find_row c' t1.receipts ≡ none
        → count (same_key c) w.served ≡ 0
        → Once c key (admission t1 m)
    admission_same t1 m ek ek' same cur miss n =
        let (_, _, _, i) = same_key-equal c' same in
        let e = some-equal key' key (sym ek' ∙ ap request_time i ∙ ek) in
        let cur' = subst (λ z. is_current v.now z ≡ true) e cur in
        let (_, late) = is_current-bounds v.now key cur' in
        let (_, g) = later_ge w.clock v.now in
        held (count_step c' w.served true same ∙ ap suc n) (omega arith) (row_for v c' d key' m)
          (same_key-find_row c' (inserted v c' d key' m t1).receipts same
            ∙ find_row-append c' (row_for v c' d key' m) t1.receipts miss
                (row_for-has_key v c' d key' m))
          (row_for-Late v c' d key' m cur')

    admission_other :
        (t1 : Tables) (m : Mutation)
        → same_key c c' ≡ false
        → w.clock ≤ v.now + drift
        → RowsKept v.now w.tables.receipts t1.receipts
        → Once c key w
        → Once c key (admission t1 m)
    admission_other t1 m other b kept (unused n) = unused (count_step c' w.served false other ∙ n)
    admission_other t1 m other b kept (held n g row f l) =
        let (q, e, k) = find_row-RowsKept c v.now w.tables.receipts t1.receipts row kept f in
        let (h, _) = later_ge w.clock v.now in
        held (count_step c' w.served false other ∙ n) (omega arith) q
          (find_row-append_old c t1.receipts (row_for v c' d key' m ∷ []) q e)
          (RowKept-Late v.now w.clock row q k b g l)
    admission_other t1 m other b kept (over n g) =
        let (h, _) = later_ge w.clock v.now in
        over (count_step c' w.served false other ∙ n) (omega arith)

    admission-Once :
        (t1 : Tables) (m : Mutation)
        → request_time c.id ≡ some key
        → request_time c'.id ≡ some key'
        → w.clock ≤ v.now + drift
        → is_current v.now key' ≡ true
        → RowsKept v.now w.tables.receipts t1.receipts
        → find_row c' t1.receipts ≡ none
        → Once c key w
        → Once c key (admission t1 m)
    admission-Once t1 m ek ek' b cur kept miss h = elim (Bool-cases (same_key c c')) [
      | inl same ↦
          admission_same t1 m ek ek' same cur miss (fresh t1 m ek ek' same b cur kept miss h)
      | inr other ↦ admission_other t1 m other b kept h
    ]

    settled :
        {r : Reply} {u : Tables} (q : Reply) (t : Tables)
        → r ≡ q
        → u ≡ t
        → Once c key (serve true c' v.now (ok (q, t)) w)
        → Once c key (serve true c' v.now (ok (r, u)) w)
    settled q t e f h =
        subst (λ z. Once c key (serve true c' v.now (ok z) w)) (sym (λ i. (e i, f i))) h

    -- The transaction of a request.
    serve-Once :
        (stored : Bool) (x : Result (Reply × Tables))
        → request_time c.id ≡ some key
        → request_time c'.id ≡ some key'
        → w.clock ≤ v.now + drift
        → Completes v.now mutate
        → execute_tx v c' d key' mutate w.tables ≡ x
        → Once c key w
        → Once c key (serve stored c' v.now x w)
    unfolding serve replay_of reply_for
    serve-Once false x ek ek' b k e h = clock-Once w v.now h
    serve-Once true (err z) ek ek' b k e h = clock-Once w v.now h
    serve-Once true (ok (r, u)) ek ek' b k e h =
        elim (execute_tx-ok v c' d key' mutate w.tables u r e) [
          | inl (row, e1, e2, e3, e4) ↦
              settled (replay_of row) w.tables e3 e4 (clock-Once w v.now h)
          | inr (m, t1, e1, e2, e3, e4, e5, e6, e7, e8) ↦
              settled (reply_for v c' d key' m) (inserted v c' d key' m t1) e7 e8
                (admission-Once t1 m ek ek' b e4 (k w.tables m t1 e1) e6 h)
        ]

  -- What may be removed is so old that the time of its key is over.
  old_enough :
      (now clock : ℕ) (o : Option ℕ)
      → elim o [ none ↦ false | some at ↦ ltb at (milliseconds (now - retention)) ] ≡ true
      → (o ≡ none) ⊎ ((at : ℕ) × (o ≡ some at) × (key ≤ at + 1209720001))
      → now ≤ clock
      → key * 1000000 + 300000000000 + drift < clock
  old_enough now clock none h l b = cc
  old_enough now clock (some at) h (inl e) b = cc
  old_enough now clock (some at) h (inr (at', e, g)) b =
      let e' = some-equal at at' e in ground arith

  -- `Prune`
  sweep-Once :
      (w : World) (stored : Bool) (cited : ℕ → Bool) (now : ℕ)
      → w.clock ≤ now + drift
      → Once c key w
      → Once c key (sweep stored now (prune cited now w.tables) w)
  unfolding sweep prune is_prunable
  sweep-Once w false cited now b h = clock-Once w now h
  sweep-Once w true cited now b (unused n) = unused n
  sweep-Once w true cited now b (over n g) =
      let (k, _) = later_ge w.clock now in over n (omega arith)
  sweep-Once w true cited now b (held n g row f l) =
      elim (Bool-cases (is_prunable cited now w.tables row)) [
        | inl gone ↦
            let (_, k') = later_ge w.clock now in
            over n (
              old_enough now (later w.clock now) row.completed_at
                (&&-true _ _ (&&-true _ _ gone).0).0 l k')
        | inr stays ↦
            let (k, _) = later_ge w.clock now in
            held n (omega arith) row
              (find_row-remove_oldest c 256 (is_prunable cited now w.tables) w.tables.receipts row f
                stays)
              l
      ]

  step-Once :
      {w w1 : World} → request_time c.id ≡ some key → Step w w1 → Once c key w → Once c key w1
  step-Once ek (request {w} stored v c' d key' mutate b ek' k) h =
      serve-Once v c' d key' mutate w stored (execute_tx v c' d key' mutate w.tables) ek ek' b k
        refl h
  step-Once ek (pruning {w} stored cited now b) h = sweep-Once w stored cited now b h

  pub steps-Once :
      {w w1 : World} → request_time c.id ≡ some key → Steps w w1 → Once c key w → Once c key w1
  steps-Once ek done h = h
  steps-Once ek (after s ss) h = steps-Once ek ss (step-Once ek s h)

bounded : {c : Command} {key : ℕ} {w : World} → Once c key w → count (same_key c) w.served ≤ 1
bounded (unused n) = omega arith
bounded (held n b row f l) = omega arith
bounded (over n b) = omega arith
