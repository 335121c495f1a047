-- ===== src/Requests/Documents.antt =====
-- internal/repository/requests/requests.go: which document a key stands for, once it has been used.
use ovs_webui.Prelude.{
  ℕ, ◌≡◌, ◌≢◌, sym, ap, subst, ◌∙◌, true, false, none, some, ◌==◌, ==_refl, arith,
}
use ovs_webui.Receipts.{Row, request_time}
use ovs_webui.Store.{Store, Result, ok, err, Tx, Fault, stored, idempotency_mismatch, degrade}
use ovs_webui.Requests.{
  Command, Mutation, Message, Digests, Told, digest, fingerprint, find_row, execute_tx, replay_of,
}
use ovs_webui.Requests.Calls.{execute, is_command}
use ovs_webui.Requests.Encoding.{Json, canonical_value}
use ovs_webui.Requests.Replays.{execute_tx-find_row, execute_tx-mismatch}
use ovs_webui.Requests.Retry.{Reaches, execute-write, write-err, write-stored}

-- The document of a command that is not sensitive: its operation, method, address and precondition,
-- and its payload up to the spelling.
pub record Documented (g : Digests) (c : Command) (m : Message) : Type 0 where
  pub json : Json
  pub payload : c.payload ≡ some json
  pub canonical : canonical_value g.parse_int32 json ≡ some m.payload
  pub operation : m.operation ≡ c.operation
  pub method : m.method ≡ c.method
  pub uri : m.uri ≡ c.uri
  pub precondition : m.precondition ≡ c.precondition
  pub plain : c.sensitive ≡ false

message-plain :
    (g : Digests) (c : Command) (m : Message)
    → Documented g c m
    → digest g c (some m.payload) ≡ ok (g.plain m)
unfolding digest
message-plain g c m k = rw k.plain (
    ap (λ z. ok (g.plain z))
      (λ i. record {
        operation = sym k.operation i;
        method = sym k.method i;
        uri = sym k.uri i;
        precondition = sym k.precondition i;
        payload = m.payload;
      }))

Documented-fingerprint :
    (g : Digests) (c : Command) (m : Message) → Documented g c m → fingerprint g c ≡ ok (g.plain m)
unfolding fingerprint
Documented-fingerprint g c m k = rw k.payload (rw k.canonical (message-plain g c m k))

fingerprint-equal : (a b : ℕ) → ◌≡◌ {A = Result ℕ} (ok a) (ok b) → a ≡ b
fingerprint-equal a b h = cc

differs : (a b : ℕ) → a ≢ b → (a == b) ≡ false
differs a b h = ground arith

module _ (g : Digests) (used c : Command) (before now : Message) (v : Told) (mutate : Tx Mutation)
    (s : Store) (key : ℕ) (row : Row) where
  -- A key that has a receipt is sent with a document again, and nothing else is in its way. If the
  -- digests of the two documents agree only where the documents do, then the same document, however
  -- its numbers are spelled, is answered from the receipt, and any other one is refused, whatever the
  -- fault. Neither changes anything.
  pub execute-Documented :
      Documented g used before
      → fingerprint g used ≡ ok row.fingerprint
      → Documented g c now
      → (g.plain before ≡ g.plain now → before ≡ now)
      → request_time c.id ≡ some key
      → is_command c ≡ true
      → find_row c s.tables.receipts ≡ some row
      → s.writable ≡ true
      → v.outer ≡ none
      → v.inner ≡ none
      → (before ≡ now → execute g v stored c mutate s ≡ (ok (replay_of row), s))
        × (before ≢ now → (f : Fault) → execute g v f c mutate s ≡ (err idempotency_mismatch, s))
  unfolding degrade
  execute-Documented first left again apart time good found up o n =
      let d = g.plain now in
      let h : Reaches g c key d = (time, good, Documented-fingerprint g c now again) in
      let kept =
        fingerprint-equal row.fingerprint (g.plain before)
          (sym left ∙ Documented-fingerprint g used before first) in
      (
        λ same.
            execute-write g c v stored mutate s key d h o
            ∙ write-stored (execute_tx v c d key mutate) s up (
                execute_tx-find_row v c d key mutate s.tables row n found (
                  subst (λ z. (z == d) ≡ true) (sym (kept ∙ ap (λ z. g.plain z) same))
                    (==_refl d))),
        λ other f.
            execute-write g c v f mutate s key d h o
            ∙ write-err f (execute_tx v c d key mutate) s idempotency_mismatch up (
                execute_tx-mismatch v c d key mutate s.tables row n found
                  (differs row.fingerprint d (λ e. other (apart (sym kept ∙ e))))),
      )
