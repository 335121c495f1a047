-- ===== src/Requests/Retry.antt =====
-- internal/repository/requests/requests.go: a request that is sent again, with the same document or
-- with another one.
use ovs_webui.Prelude.{
  ℕ, Bool, true, false, ◌||◌, Option, none, some, ◌==◌, ==_refl, if◌then◌else◌, ◌≡◌, refl, sym, ap,
  ◌∙◌, subst, ◌⊎◌, inl, inr,
}
use ovs_webui.Receipts.{Row, Body, of_receipt, request_time}
use ovs_webui.Store.{
  Error, Tables, Store, unavailable, degrade, Result, ok, err, Tx, Fault, stored, write, settle,
  invalid_request,
}
use ovs_webui.Requests.{
  Command, Mutation, Reply, Told, Digests, find_row, replay_of, row_for, reply_for, fingerprint,
  execute_tx,
}
use ovs_webui.Requests.Calls.{is_command, execute_known, execute_asked, execute_at, execute}
use ovs_webui.Requests.Replays.{execute_tx-ok, find_row-append, row_for-has_key}

module _ (g : Digests) (c : Command) where
  -- A command that reaches the database, with its time and its fingerprint.
  abbrev pub Reaches : ℕ → ℕ → Type 0
  Reaches key d = (request_time c.id ≡ some key) × (is_command c ≡ true) × (fingerprint g c ≡ ok d)

  -- What the answer of `reauthorize` outside the transaction leaves to do.
  asked_at :
      (v : Told) (f : Fault) (mutate : Tx Mutation) (s : Store) (key d : ℕ) (o : Option Error)
      → fingerprint g c ≡ ok d
      → o ≡ none
      → execute_asked g v f c key mutate o s ≡ write f (execute_tx v c d key mutate) s
  unfolding execute_asked execute_known
  asked_at v f mutate s key d none p o = rw p refl
  asked_at v f mutate s key d (some e) p o = cc

  pub execute-write :
      (v : Told) (f : Fault) (mutate : Tx Mutation) (s : Store) (key d : ℕ)
      → Reaches key d
      → v.outer ≡ none
      → execute g v f c mutate s ≡ write f (execute_tx v c d key mutate) s
  unfolding execute execute_at
  execute-write v f mutate s key d (k, e, p) o =
      rw k (rw e (asked_at v f mutate s key d v.outer p o))

  module _ (v : Told) (f : Fault) (mutate : Tx Mutation) (s : Store) where
    abbrev Refused : Result Reply × Store → Type 0
    Refused x = (e : Error) × (x ≡ (err e, s))

    known-cases :
        (key : ℕ) (x : Result ℕ)
        → Refused (execute_known g v f c key mutate x s) ⊎ ((d : ℕ) × (x ≡ ok d))
    unfolding execute_known
    known-cases key (err e) = inl (e, refl)
    known-cases key (ok d) = inr (d, refl)

    asked-cases :
        (key : ℕ) (o : Option Error)
        → Refused (execute_asked g v f c key mutate o s)
          ⊎ ((d : ℕ) × (fingerprint g c ≡ ok d) × (o ≡ none))
    unfolding execute_asked
    asked-cases key (some e) = inl (e, refl)
    asked-cases key none = elim (known-cases key (fingerprint g c)) [
      | inl q ↦ inl q
      | inr (d, e) ↦ inr (d, e, refl)
    ]

    at-cases :
        (o : Option ℕ) (b : Bool)
        → is_command c ≡ b
        → Refused (execute_at g v f c mutate o s)
          ⊎ ((key : ℕ) × (d : ℕ) × (o ≡ some key)
              × (b ≡ true)
              × (fingerprint g c ≡ ok d)
              × (v.outer ≡ none))
    unfolding execute_at
    at-cases none b e = inl (invalid_request, refl)
    at-cases (some key) false e = inl (invalid_request, rw e refl)
    at-cases (some key) true e = elim (asked-cases key v.outer) [
      | inl (x, q) ↦ inl (x, rw e q)
      | inr (d, p, o) ↦ inr (key, d, refl, refl, p, o)
    ]

    -- What is refused before the database is asked changes nothing.
    pub execute-cases :
        Refused (execute g v f c mutate s)
        ⊎ ((key : ℕ) × (d : ℕ) × Reaches key d × (v.outer ≡ none))
    unfolding execute
    execute-cases = elim (at-cases (request_time c.id) (is_command c) refl) [
      | inl q ↦ inl q
      | inr (key, d, k, e, p, o) ↦ inr (key, d, (k, e, p), o)
    ]

-- The answer to a request that is sent again: the receipt, with the same document, or, where the
-- document is secret, with the receipt in its place.
abbrev pub SameAnswer : Reply → Reply → Type 0
SameAnswer r q =
    (q.replayed ≡ true)
    × (q.receipt ≡ r.receipt)
    × (((q.status ≡ r.status) × (q.body ≡ r.body))
        ⊎ ((q.status ≡ 200) × (q.body ≡ of_receipt r.receipt)))

choice :
    (secret : Bool) (n : ℕ) (x y : Body)
    → (((if secret then 200 else n) ≡ n) × ((if secret then y else x) ≡ x))
      ⊎ (((if secret then 200 else n) ≡ 200) × ((if secret then y else x) ≡ y))
choice true n x y = inr (refl, refl)
choice false n x y = inl (refl, refl)

module _ (v : Told) (c : Command) (d key : ℕ) where
  pub row_for-SameAnswer :
      (m : Mutation) → SameAnswer (reply_for v c d key m) (replay_of (row_for v c d key m))
  unfolding row_for reply_for replay_of
  row_for-SameAnswer m = (refl, refl, choice (c.secret_response || m.secret_response) m.status _ _)

  -- A row under the key, with the fingerprint, that gives the answer again.
  abbrev pub Kept : Reply → Tables → Type 0
  Kept r u =
      (row : Row) × (find_row c u.receipts ≡ some row)
      × ((row.fingerprint == d) ≡ true)
      × SameAnswer r (replay_of row)

  pub execute_tx-Kept :
      (mutate : Tx Mutation) (t u : Tables) (r : Reply)
      → execute_tx v c d key mutate t ≡ ok (r, u)
      → Kept r u
  unfolding replay_of row_for
  execute_tx-Kept mutate t u r h = elim (execute_tx-ok v c d key mutate t u r h) [
    | inl (row, e1, e2, e3, e4) ↦ (
      row,
      rw e4 e1,
      e2,
      subst (λ z. SameAnswer z (replay_of row)) (sym e3) (refl, refl, inl (refl, refl)),
    )
    | inr (m, t1, e1, e2, e3, e4, e5, e6, e7, e8) ↦ (
      row_for v c d key m,
      rw e8 (find_row-append c (row_for v c d key m) t1.receipts e6 (row_for-has_key v c d key m)),
      ==_refl d,
      subst (λ z. SameAnswer z (replay_of (row_for v c d key m))) (sym e7) (row_for-SameAnswer m),
    )
  ]

pub write-stored :
    {A : Type 0} (m : Tx A) (s : Store) {a : A}
    → s.writable ≡ true
    → m s.tables ≡ ok (a, s.tables)
    → write stored m s ≡ (ok a, s)
unfolding write settle
write-stored m s w h =
    ap (λ b. if b then settle stored s (m s.tables) else (err unavailable, s)) w
    ∙ ap (settle stored s) h

module _ (g : Digests) (c : Command) (v w : Told) (f : Fault) (mutate other : Tx Mutation)
    (s later : Store) where
  -- The request had no effect, or it is answered again with nothing changed.
  abbrev pub Repeatable : Result Reply × Store → Type 0
  Repeatable z =
      ((z.1.tables ≡ s.tables) × (e : Error) × (z.0 ≡ err e))
      ⊎ ((r : Reply) × (q : Reply) × (execute g w stored c other later ≡ (ok q, later))
          × SameAnswer r q
          × ((z.0 ≡ ok r) ⊎ (z.1.writable ≡ false)))

pub write-err :
    {A : Type 0} (f : Fault) (m : Tx A) (s : Store) (e : Error)
    → s.writable ≡ true
    → m s.tables ≡ err e
    → write f m s ≡ (err e, degrade e s)
unfolding write settle
write-err f m s e w h =
    ap (λ b. if b then settle f s (m s.tables) else (err unavailable, s)) w ∙ ap (settle f s) h
