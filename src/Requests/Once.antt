-- ===== src/Requests/Once.antt =====
-- internal/repository/requests/requests.go: a request has its effect at most once. Requests and
-- prunings come in any order, from clocks that disagree by less than fourteen days.
pub mod Rows
pub mod Invariant
use ovs_webui.Prelude.{
  ℕ, suc, ◌+◌, ◌*◌, ◌≤◌, ◌<◌, Bool, true, false, ◌&&◌, String, str_eq, List, [], ◌∷◌, Option, none,
  some, ◌==◌, if◌then◌else◌, count, ◌≡◌, refl, ◌⊎◌, inl, inr, ltb,
}
use ovs_webui.Receipts.{Row, request_time}
use ovs_webui.Store.{Tables, Result, ok, err, Tx}
use ovs_webui.Requests.{Command, Mutation, Reply, Told, execute_tx}
use ovs_webui.Requests.Retention.{prune}
use Rows.{RowsKept}

-- The tables, the latest time that was read, and the requests whose effects were committed.
pub record World : Type 0 where
  pub tables : Tables
  pub clock : ℕ
  pub served : List Command

abbrev pub drift : ℕ
drift = 1209600000000000

abbrev pub later : ℕ → ℕ → ℕ
later a b = if ltb a b then b else a

-- The transaction of `Execute` ends; `stored` says that its commit reached the disk.
unfoldable pub serve : Bool → Command → ℕ → Result (Reply × Tables) → World → World
serve true c now (ok (r, u)) w = record {
  tables = u;
  clock = later w.clock now;
  served = if r.replayed then w.served else c ∷ w.served;
}
serve _ c now _ w = record w { clock = later w.clock now }

unfoldable pub sweep : Bool → ℕ → Result (Unit {0} × Tables) → World → World
sweep true now (ok (x, u)) w = record w { tables = u; clock = later w.clock now }
sweep _ now _ w = record w { clock = later w.clock now }

-- What the services' transactions do to the rows: they complete some of them.
abbrev pub Completes : ℕ → Tx Mutation → Type 0
Completes now mutate =
    (t : Tables) (m : Mutation) (u : Tables)
    → mutate t ≡ ok (m, u)
    → RowsKept now t.receipts u.receipts

pub data Step : World → World → Type 0 where
  request :
      {w : World} (stored : Bool) (v : Told) (c : Command) (d key : ℕ) (mutate : Tx Mutation)
      → w.clock ≤ v.now + drift
      → request_time c.id ≡ some key
      → Completes v.now mutate
      → Step w (serve stored c v.now (execute_tx v c d key mutate w.tables) w)
  pruning :
      {w : World} (stored : Bool) (cited : ℕ → Bool) (now : ℕ)
      → w.clock ≤ now + drift
      → Step w (sweep stored now (prune cited now w.tables) w)

pub data Steps : World → World → Type 0 where
  done : {w : World} → Steps w w
  after : {w w1 w2 : World} → Step w w1 → Steps w1 w2 → Steps w w2

-- Requests with the same key.
abbrev pub same_key : Command → Command → Bool
same_key c c' =
    c'.principal == c.principal && c'.epoch == c.epoch && str_eq c'.domain c.domain && c'.id == c.id
