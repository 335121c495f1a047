-- ===== src/Requests/Ledger.antt =====
-- internal/repository/requests/requests.go: the table of receipts as a map from the keys of requests to
-- answers, which forgets the order of its rows.
use ovs_webui.Prelude.{ℕ, true, false, Option, none, some, ◌==◌, ◌≡◌}
use ovs_webui.Receipts.{Row}
use ovs_webui.Store.{Tables}
use ovs_webui.Requests.{Command, Reply, find_row, replay_of}
use ovs_webui.Requests.Retry.{SameAnswer}
use ovs_webui.Requests.Once.{same_key}
use ovs_webui.Requests.Once.Rows.{RowKept}

-- What is kept for the key of each request.
abbrev pub Ledger : Type 0
Ledger = Command → Option Row

abbrev pub ledger : Tables → Ledger
ledger t c = find_row c t.receipts

-- A request whose key is known is answered from it and changes nothing; one whose key is new is
-- added with an answer that can be given again, and leaves the other keys, whose rows are at most
-- completed.
pub data Answered (now : ℕ) (c : Command) (d : ℕ) (a b : Ledger) (r : Reply) : Type 0 where
  known :
      (row : Row)
      → a c ≡ some row
      → (row.fingerprint == d) ≡ true
      → r ≡ replay_of row
      → ((x : Command) → b x ≡ a x)
      → Answered now c d a b r
  added :
      (row : Row)
      → a c ≡ none
      → b c ≡ some row
      → (row.fingerprint == d) ≡ true
      → r.replayed ≡ false
      → SameAnswer r (replay_of row)
      → ((x : Command)
          → (old : Row) → a x ≡ some old
          → (kept : Row) × (b x ≡ some kept) × RowKept now old kept)
      → ((x : Command) → same_key x c ≡ false → a x ≡ none → b x ≡ none)
      → Answered now c d a b r
