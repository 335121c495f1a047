-- ===== src/Requests/Committed.antt =====
-- internal/repository/requests/requests.go: what `Execute` leaves of the tables, for its callers.
use ovs_webui.Prelude.{ℕ, ◌≡◌, ◌⊎◌, inl, inr, sym, ap, ◌∙◌, subst, true, false}
use ovs_webui.Store.{Tables, Store, ok, Tx, Fault, write-Written, write-ok}
use ovs_webui.Requests.{Command, Mutation, Reply, Told, Digests, execute_tx, replay_of, reply_for}
use ovs_webui.Requests.Calls.{execute}
use ovs_webui.Requests.Replays.{inserted, execute_tx-ok}
use ovs_webui.Requests.Retry.{execute-cases, execute-write}

-- The tables are as they were, or the transaction of the caller and the row of the request were
-- committed together.
abbrev pub Committed : Told → Command → Tx Mutation → Tables → Tables → Type 0
Committed v c mutate t u =
    (u ≡ t)
    ⊎ ((d : ℕ) × (key : ℕ) × (m : Mutation) × (t1 : Tables) × (mutate t ≡ ok (m, t1))
        × (u ≡ inserted v c d key m t1))

tx-Committed :
    (v : Told) (c : Command) (d key : ℕ) (mutate : Tx Mutation) (t u : Tables) (r : Reply)
    → execute_tx v c d key mutate t ≡ ok (r, u)
    → Committed v c mutate t u
tx-Committed v c d key mutate t u r h = elim (execute_tx-ok v c d key mutate t u r h) [
  | inl (row, e1, e2, e3, e4) ↦ inl e4
  | inr (m, t1, e1, e2, e3, e4, e5, e6, e7, e8) ↦ inr (d, key, m, t1, e1, e8)
]

pub execute-Committed :
    (g : Digests) (v : Told) (f : Fault) (c : Command) (mutate : Tx Mutation) (s : Store)
    → Committed v c mutate s.tables (execute g v f c mutate s).1.tables
execute-Committed g v f c mutate s = elim (execute-cases g c v f mutate s) [
  | inl (e, q) ↦ inl (ap (λ x. x.1.tables) q)
  | inr (key, d, h, o) ↦
      let step = execute-write g c v f mutate s key d h o in
      subst (λ x. Committed v c mutate s.tables x.1.tables) (sym step)
        (elim (write-Written f (execute_tx v c d key mutate) s) [
          | inl (same, x, z) ↦ inl same
          | inr (r, m, z) ↦ tx-Committed v c d key mutate s.tables _ r m
        ])
]

-- The answer of a request and what it stands for: a replay, that changed nothing, or the transaction of
-- the caller, that was committed with the row of the request.
abbrev pub Answered : Told → Command → Tx Mutation → Reply → Tables → Tables → Type 0
Answered v c mutate r t u =
    ((r.replayed ≡ true) × (u ≡ t))
    ⊎ ((r.replayed ≡ false)
        × (d : ℕ) × (key : ℕ) × (m : Mutation) × (t1 : Tables) × (mutate t ≡ ok (m, t1))
        × (u ≡ inserted v c d key m t1))

tx-Answered :
    (v : Told) (c : Command) (d key : ℕ) (mutate : Tx Mutation) (t u : Tables) (r : Reply)
    → execute_tx v c d key mutate t ≡ ok (r, u)
    → Answered v c mutate r t u
unfolding replay_of reply_for
tx-Answered v c d key mutate t u r h = elim (execute_tx-ok v c d key mutate t u r h) [
  | inl (row, e1, e2, e3, e4) ↦ inl (ap (λ z. z.replayed) e3, e4)
  | inr (m, t1, e1, e2, e3, e4, e5, e6, e7, e8) ↦
      inr (ap (λ z. z.replayed) e7, d, key, m, t1, e1, e8)
]

pub execute-Answered :
    (g : Digests) (v : Told) (f : Fault) (c : Command) (mutate : Tx Mutation) (s s' : Store)
    (r : Reply)
    → execute g v f c mutate s ≡ (ok r, s')
    → Answered v c mutate r s.tables s'.tables
execute-Answered g v f c mutate s s' r h = elim (execute-cases g c v f mutate s) [
  | inl (e, q) ↦ cc
  | inr (key, d, k, o) ↦ tx-Answered v c d key mutate s.tables s'.tables r (
      write-ok f (execute_tx v c d key mutate) s s' r
        (sym (execute-write g c v f mutate s key d k o) ∙ h))
]
