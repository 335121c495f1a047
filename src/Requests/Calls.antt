-- ===== src/Requests/Calls.antt =====
-- internal/repository/requests/requests.go: `Execute`, `Replay` and `Find` on the store.
use ovs_webui.Prelude.{
  ℕ, ◌≡◌, arith, Bool, true, false, not, ◌&&◌, String, str_eq, Option, none, some, leb, ◌==◌,
  if◌then◌else◌, length, is_some,
}
use ovs_webui.Receipts.{Ref, Receipt, Row, request_time, management_id, uuid}
use ovs_webui.Store.{
  Error, Store, Result, ok, err, Tx, write, Fault, not_found, unavailable, idempotency_mismatch,
  invalid_request,
}
use ovs_webui.Requests.{
  Command, Digests, Mutation, Reply, Told, execute_tx, find_row, fingerprint, replay_of,
}

-- The checks on the command alone.
unfoldable pub is_command : Command → Bool
is_command c =
    is_some (request_time c.id)
    && management_id c.principal
    && management_id c.epoch
    && str_eq c.domain "management"
    && not (str_eq c.operation "")
    && leb (length c.uri) 4096
    && is_some c.payload

module _ (g : Digests) where
  unfoldable pub execute_known :
      Told → Fault → Command → ℕ → Tx Mutation → Result ℕ → Store → Result Reply × Store
  execute_known v f c key mutate (err e) s = (err e, s)
  execute_known v f c key mutate (ok d) s = write f (execute_tx v c d key mutate) s

  unfoldable pub execute_asked :
      Told → Fault → Command → ℕ → Tx Mutation → Option Error → Store → Result Reply × Store
  execute_asked v f c key mutate (some e) s = (err e, s)
  execute_asked v f c key mutate none s = execute_known v f c key mutate (fingerprint g c) s

  unfoldable pub execute_at :
      Told → Fault → Command → Tx Mutation → Option ℕ → Store → Result Reply × Store
  execute_at v f c mutate none s = (err invalid_request, s)
  execute_at v f c mutate (some key) s =
      if not (is_command c)
      then (err invalid_request, s)
      else execute_asked v f c key mutate v.outer s

  -- `Execute`
  unfoldable pub execute : Told → Fault → Command → Tx Mutation → Store → Result Reply × Store
  unfolding execute_at
  execute v f c mutate s = execute_at v f c mutate (request_time c.id) s

  replay_row : ℕ → Option Row → Result (Option Reply)
  replay_row d none = ok none
  replay_row d (some r) =
      if r.fingerprint == d then ok (some (replay_of r)) else err idempotency_mismatch

  replay_known : Command → Result ℕ → Store → Result (Option Reply)
  unfolding replay_row
  replay_known c (err e) s = err e
  replay_known c (ok d) s =
      if s.readable then replay_row d (find_row c s.tables.receipts) else err unavailable

  -- `Replay`
  unfoldable pub replay : Option Error → Command → Store → Result (Option Reply)
  unfolding replay_known
  replay (some e) c s = err e
  replay none c s = replay_known c (fingerprint g c) s

  row-replayed :
      (d : ℕ) (o : Option Row) (r : Reply) → replay_row d o ≡ ok (some r) → r.replayed ≡ true
  unfolding replay_row replay_of
  row-replayed d none r h = cc
  row-replayed d (some x) r h = ground arith

  branch-replayed :
      (b : Bool) (d : ℕ) (o : Option Row) (r : Reply)
      → (if b then replay_row d o else err unavailable) ≡ ok (some r)
      → r.replayed ≡ true
  branch-replayed true d o r h = row-replayed d o r h
  branch-replayed false d o r h = cc

  known-replayed :
      (c : Command) (x : Result ℕ) (s : Store) (r : Reply)
      → replay_known c x s ≡ ok (some r)
      → r.replayed ≡ true
  unfolding replay_known
  known-replayed c (err e) s r h = cc
  known-replayed c (ok d) s r h = branch-replayed s.readable d _ r h

  -- What `Replay` answers is marked as a replay.
  pub replay-replayed :
      (o : Option Error) (c : Command) (s : Store) (r : Reply)
      → replay o c s ≡ ok (some r)
      → r.replayed ≡ true
  unfolding replay
  replay-replayed (some e) c s r h = cc
  replay-replayed none c s r h = known-replayed c (fingerprint g c) s r h

reply_to : Option Error → Row → Result Receipt
reply_to none r = ok r.receipt
reply_to (some e) r = err e

-- `Find`; `authorize` is asked about the operation and the resource of the receipt.
unfoldable pub find : (String → Option Ref → Option Error) → Command → Store → Result Receipt
unfolding reply_to
find authorize c s =
    if not (management_id c.principal && management_id c.epoch && uuid c.id)
    then err invalid_request
    else if s.readable
    then elim (find_row c s.tables.receipts) [
      | none ↦ err not_found
      | some r ↦ reply_to (authorize r.operation r.receipt.resource) r
    ]
    else err unavailable
