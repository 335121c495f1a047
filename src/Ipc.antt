-- ===== src/Ipc.antt =====
-- internal/ipc/budget.go, and `acquire` of internal/repository/sqlite/store.go, which is the same: the
-- calls of one class, of which some run and some wait. A channel of Go is the number of its
-- tokens; a put_token blocks when they reach its capacity, a take_token when there is none.
pub mod Bounds
pub mod Moves
pub mod Progress
mod Examples
use ovs_webui.Prelude.{
  ℕ, zero, suc, ◌+◌, ◌-◌, Bool, true, false, List, [], ◌∷◌, Option, none, some, ◌≡◌, ltb,
  if◌then◌else◌,
}

-- The tokens in the two channels.
pub record Tokens : Type 0 where
  pub active : ℕ
  pub waiting : ℕ

-- `budget`: the capacities of the two channels.
pub record Budget : Type 0 where
  pub active : ℕ
  pub waiting : ℕ

pub data Class : Type 0 where
  auth control read heavy : Class

-- `defaultBudgets`
abbrev pub default_budget : Class → Budget
default_budget auth = record { active = 4; waiting = 8 }
default_budget control = record { active = 4; waiting = 8 }
default_budget read = record { active = 8; waiting = 16 }
default_budget heavy = record { active = 2; waiting = 16 }

-- Where a call stands in `acquire` and behind it: before the first test; past the first `select`,
-- with no token; blocked in the last `select`; behind it with a token of each channel; on the way
-- out of it without one; between `acquire` and the release; and at its end.
pub data Phase : Type 0 where
  arriving missed queued granted leaving running done refused canceled : Phase

unfoldable pub put_token : (capacity tokens : ℕ) → Option ℕ
put_token capacity tokens = if ltb tokens capacity then some (suc tokens) else none

unfoldable pub take_token : ℕ → Option ℕ
take_token zero = none
take_token (suc n) = some n

-- A put_token or a take_token on a channel, and where it leads, if it is possible.
unfoldable pub on_active : Option ℕ → Tokens → Phase → Option (Phase × Tokens)
on_active none t p = none
on_active (some n) t p = some (p, record t { active = n })

unfoldable pub on_waiting : Option ℕ → Tokens → Phase → Option (Phase × Tokens)
on_waiting none t p = none
on_waiting (some n) t p = some (p, record t { waiting = n })

unfoldable pub or_else : Option (Phase × Tokens) → Phase × Tokens → Option (Phase × Tokens)
or_else none q = some q
or_else (some r) q = some r

-- The next move of a call, whose context has ended if `ended`; `none` where it blocks.
unfoldable pub move : Budget → Bool → Phase → Tokens → Option (Phase × Tokens)
move b true arriving t = some (canceled, t)
move b false arriving t = or_else (on_active (put_token b.active t.active) t running) (missed, t)
move b ended missed t = or_else (on_waiting (put_token b.waiting t.waiting) t queued) (refused, t)
move b true queued t = some (leaving, t)
move b false queued t = on_active (put_token b.active t.active) t granted
move b true granted t = on_active (take_token t.active) t leaving
move b false granted t = on_waiting (take_token t.waiting) t running
move b ended leaving t = on_waiting (take_token t.waiting) t canceled
move b ended running t = on_active (take_token t.active) t done
move b ended done t = none
move b ended refused t = none
move b ended canceled t = none

-- One call of many makes its move.
pub data Turn (b : Budget) : Tokens × List Phase → Tokens × List Phase → Type 0 where
  here :
      {t u : Tokens} {p q : Phase} {ps : List Phase} (ended : Bool)
      → move b ended p t ≡ some (q, u)
      → Turn b (t, p ∷ ps) (u, q ∷ ps)
  there :
      {t u : Tokens} {ps qs : List Phase} (p : Phase)
      → Turn b (t, ps) (u, qs)
      → Turn b (t, p ∷ ps) (u, p ∷ qs)

-- `n` moves.
pub data Turns (b : Budget) : ℕ → Tokens × List Phase → Tokens × List Phase → Type 0 where
  stop : {s : Tokens × List Phase} → Turns b 0 s s
  then_ :
      {n : ℕ} {s s1 s2 : Tokens × List Phase} → Turn b s s1 → Turns b n s1 s2 → Turns b (suc n) s s2
