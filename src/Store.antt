-- ===== src/Store.antt =====
-- internal/repository/sqlite/store.go and internal/migrations/manager: the tables of the manager's
-- database that the modelled parts use, and a transaction over them. Times are nanoseconds.
use ovs_webui.Prelude.{
  ℕ, Bool, true, false, String, List, Option, none, some, ◌≡◌, ◌⊎◌, inl, inr, refl, arith,
  if◌then◌else◌,
}
use ovs_webui.Execution
use ovs_webui.Safety
use ovs_webui.Candidate.{Binding}
use ovs_webui.Jobs.{Job, Entry}
use ovs_webui.Receipts.{Row}

pub data Error : Type 0 where
  not_found unavailable canceled commit_unknown : Error
  job_revision_changed job_terminal invalid_job_transition job_running_capacity_reached : Error
  job_sequence_invalid job_budget_exceeded invalid_job job_capacity_reached : Error
  invalid_evidence evidence_dedup_mismatch evidence_capacity_reached evidence_budget_exceeded :
      Error
  execution_record_budget transaction_version_changed transaction_settled : Error
  safe_apply_already_resolved management_path_protected safe_clock_unavailable : Error
  safe_apply_capability_unavailable decision_expired confirmation_evidence_unavailable : Error
  rollback_already_dispatched rollback_checkpoint_changed authority_revoked : Error
  field_protected execution_capacity_reached execution_authority_changed : Error
  conflict execution_already_dispatched safe_apply_expired execution_busy : Error
  idempotency_mismatch request_epoch_changed clock_unsafe request_key_expired : Error
  resource_budget_exceeded invalid_service_response job_not_durable invalid_request : Error
  auth_unavailable secretstore_unavailable transaction_busy : Error
  identity_registry_full creation_identity_consumed : Error
  invalid_creation_reservation invalid_restoration_reservation : Error
  multicast_graph_reservation_required isolation_graph_reservation_required : Error
  spanning_tree_graph_reservation_required management_path_unverified : Error
  safe_apply_required invalid_execution reservation_required invalid_decision : Error

-- `transaction_journal`
pub record JournalRow : Type 0 where
  pub sequence : ℕ
  pub state : String

-- `operation_protections`
pub record Protection : Type 0 where
  pub resource : ℕ
  pub field : String
  pub transaction : ℕ

pub data IdentityState : Type 0 where
  pending active tombstone : IdentityState

-- `identities` joined with `identity_creations`: `creation` is the transaction.
pub record Identity : Type 0 where
  pub binding : Binding
  pub state : IdentityState
  pub creation : Option ℕ
  pub marker : ℕ

-- `request_receipts`, the transport's receipts, of which there is one for each execution.
pub record Anchor : Type 0 where
  pub transaction : ℕ
  pub correlation : ℕ
  pub owner : ℕ
  pub candidate : ℕ
  pub candidate_revision : ℕ
  pub scope : ℕ
  pub created_at : ℕ

-- `last_known_good`
pub record Checkpoint : Type 0 where
  pub transaction : ℕ
  pub generation : ℕ
  pub confirmed_at : ℕ
  pub plan : Execution.Plan

-- `safe_resolutions`, and the columns of `safe_applies` of the same names
pub record Resolution : Type 0 where
  pub owner : ℕ
  pub epoch : ℕ
  pub request : ℕ

-- Tables with one row for each identifier are kept by it. `jobs` stands for `jobs` and
-- `evidence_jobs`, which are always written together.
pub record Tables : Type 0 where
  pub executions : List (ℕ × Execution.Record)
  pub safe_applies : List (ℕ × Safety.Record)
  pub journal : List (ℕ × JournalRow)
  pub jobs : List (ℕ × Job)
  pub protections : List Protection
  pub identities : List Identity
  pub receipts : List Row
  pub entries : List Entry
  pub last_known_good : Option Checkpoint
  pub resolutions : List Resolution
  pub safe_requests : List (ℕ × Resolution)
  pub anchors : List Anchor
  pub revision : ℕ
  pub authority_epoch : ℕ
  pub high_watermark : ℕ

pub data Result (A : Type 0) : Type 0 where
  ok : A → Result A
  err : Error → Result A

-- A transaction: an error discards what was written.
abbrev pub Tx : Type 0 → Type 0
Tx A = Tables → Result (A × Tables)

module _ {A : Type 0} where
  abbrev pub pure : A → Tx A
  pure a t = ok (a, t)

  abbrev pub fail : Error → Tx A
  fail e t = err e

  abbrev pub gets : (Tables → A) → Tx A
  gets f t = ok (f t, t)

  -- A query of one row.
  unfoldable pub one : Option A → Error → Tx A
  one none e t = err e
  one (some a) e t = ok (a, t)

unfoldable pub chain : {A B : Type 0} → Result (A × Tables) → (A → Tx B) → Result (B × Tables)
chain (ok (a, t)) f = f a t
chain (err e) f = err e

infixl 5 ◌>>=◌ ◌>>◌
abbrev pub ◌>>=◌ : {A B : Type 0} → Tx A → (A → Tx B) → Tx B
◌>>=◌ m f t = chain (m t) f

abbrev pub ◌>>◌ : {A B : Type 0} → Tx A → Tx B → Tx B
m >> k = m >>= λ _. k

unfoldable pub guard : Bool → Error → Tx (Unit {0})
guard true e t = ok (tt, t)
guard false e t = err e

-- An `if` between two transactions.
unfoldable pub choose : {A : Type 0} → Bool → Tx A → Tx A → Tx A
choose true m n = m
choose false m n = n

-- A step that looks at the tables.
abbrev pub reads : {B : Type 0} → (Tables → Tx B) → Tx B
reads f t = f t t

abbrev pub modify : (Tables → Tables) → Tx (Unit {0})
modify f t = ok (tt, f t)

-- The store of a running process. A commit whose outcome is unknown retires the writer.
pub record Store : Type 0 where
  pub tables : Tables
  pub readable : Bool
  pub writable : Bool

-- What becomes of a transaction whose callback returned: it is stored, refused before the commit
-- (with the store closed, if it is `broken`), or its commit fails and is lost or kept.
pub data Fault : Type 0 where
  stored refused broken lost kept : Fault

-- `failure`: an error that is no rejection of the request closes the store.
unfoldable pub degrade : Error → Store → Store
degrade unavailable s = record s { readable = false; writable = false }
degrade _ s = s

unfoldable pub settle : {A : Type 0} → Fault → Store → Result (A × Tables) → Result A × Store
unfolding degrade
settle f s (err e) = (err e, degrade e s)
settle stored s (ok (a, t)) = (ok a, record s { tables = t })
settle refused s (ok (a, t)) = (err unavailable, s)
settle broken s (ok (a, t)) = (err unavailable, degrade unavailable s)
settle lost s (ok (a, t)) = (err commit_unknown, record s { writable = false })
settle kept s (ok (a, t)) =
    (err commit_unknown, record { tables = t; readable = s.readable; writable = false })

-- `Store.Write`
unfoldable pub write : {A : Type 0} → Fault → Tx A → Store → Result A × Store
unfolding settle
write f m s = if s.writable then settle f s (m s.tables) else (err unavailable, s)

-- Inversion of a step of a transaction that went through.
pub chain-ok :
    {A B : Type 0} (m : Result (A × Tables)) (f : A → Tx B) {b : B} {u : Tables}
    → chain m f ≡ ok (b, u)
    → (a : A) × (t : Tables) × (m ≡ ok (a, t)) × (f a t ≡ ok (b, u))
unfolding chain
chain-ok (ok (a, t)) f h = (a, t, refl, h)
chain-ok (err e) f h = cc

pub guard-ok :
    {B : Type 0} (c : Bool) (e : Error) (t : Tables) (f : Unit {0} → Tx B) {b : B} {u : Tables}
    → chain (guard c e t) f ≡ ok (b, u)
    → (c ≡ true) × (f tt t ≡ ok (b, u))
unfolding chain guard
guard-ok true e t f h = (refl, h)
guard-ok false e t f h = cc

-- What both branches give, their choice gives.
pub choose-ok :
    {A : Type 0} {Q : Type 0} (c : Bool) (m n : Tx A) (t : Tables) {a : A} {u : Tables}
    → (m t ≡ ok (a, u) → Q)
    → (n t ≡ ok (a, u) → Q)
    → choose c m n t ≡ ok (a, u)
    → Q
unfolding choose
choose-ok true m n t f g h = f h
choose-ok false m n t f g h = g h

pub one-ok :
    {A B : Type 0} (o : Option A) (e : Error) (t : Tables) (f : A → Tx B) {b : B} {u : Tables}
    → chain (one o e t) f ≡ ok (b, u)
    → (a : A) × (o ≡ some a) × (f a t ≡ ok (b, u))
unfolding chain one
one-ok (some a) e t f h = (a, refl, h)
one-ok none e t f h = cc

pub ok-injective :
    {A : Type 0} {a a' : A} {t u : Tables}
    → ◌≡◌ {A = Result (A × Tables)} (ok (a, t)) (ok (a', u))
    → (a ≡ a') × (t ≡ u)
ok-injective h = (cc, cc)

-- What a write may leave: the tables as they were, with an error; or those of the transaction,
-- with its result, or with a writer that is retired.
abbrev pub Written : {A : Type 0} → Tx A → Store → Result A × Store → Type 0
Written {A} m s (x, s') =
    ((s'.tables ≡ s.tables) × (e : Error) × (x ≡ err e))
    ⊎ ((a : A) × (m s.tables ≡ ok (a, s'.tables)) × ((x ≡ ok a) ⊎ (s'.writable ≡ false)))

degrade-tables : (e : Error) (s : Store) → (degrade e s).tables ≡ s.tables
unfolding degrade
degrade-tables e s = ground arith

settle-Written :
    {A : Type 0} (f : Fault) (m : Tx A) (s : Store) (x : Result (A × Tables))
    → m s.tables ≡ x
    → Written m s (settle f s x)
unfolding settle
settle-Written f m s (err e) h = inl (degrade-tables e s, e, refl)
settle-Written stored m s (ok (a, t)) h = inr (a, h, inl refl)
settle-Written refused m s (ok (a, t)) h = inl (refl, unavailable, refl)
settle-Written broken m s (ok (a, t)) h = inl (degrade-tables unavailable s, unavailable, refl)
settle-Written lost m s (ok (a, t)) h = inl (refl, commit_unknown, refl)
settle-Written kept m s (ok (a, t)) h = inr (a, h, inr refl)

branch-Written :
    {A : Type 0} (f : Fault) (m : Tx A) (s : Store) (w : Bool)
    → Written m s (if w then settle f s (m s.tables) else (err unavailable, s))
branch-Written f m s true = settle-Written f m s (m s.tables) refl
branch-Written f m s false = inl (refl, unavailable, refl)

pub write-Written : {A : Type 0} (f : Fault) (m : Tx A) (s : Store) → Written m s (write f m s)
unfolding write
write-Written f m s = branch-Written f m s s.writable

-- A retired writer refuses every transaction.
pub write_retired :
    {A : Type 0} (f : Fault) (m : Tx A) (s : Store)
    → s.writable ≡ false
    → write f m s ≡ (err unavailable, s)
unfolding write
write_retired f m s h = rw h

settle-ok :
    {A : Type 0} (f : Fault) (s s' : Store) (x : Result (A × Tables)) (a : A)
    → settle f s x ≡ (ok a, s')
    → x ≡ ok (a, s'.tables)
unfolding settle
settle-ok f s s' (err e) a h = cc
settle-ok stored s s' (ok (c, t)) a h = cc
settle-ok refused s s' (ok (c, t)) a h = cc
settle-ok broken s s' (ok (c, t)) a h = cc
settle-ok lost s s' (ok (c, t)) a h = cc
settle-ok kept s s' (ok (c, t)) a h = cc

branch-ok :
    {A : Type 0} (f : Fault) (m : Tx A) (s s' : Store) (w : Bool) (a : A)
    → (if w then settle f s (m s.tables) else (err unavailable, s)) ≡ (ok a, s')
    → m s.tables ≡ ok (a, s'.tables)
branch-ok f m s s' true a h = settle-ok f s s' (m s.tables) a h
branch-ok f m s s' false a h = cc

-- A write that returns a result has committed it.
pub write-ok :
    {A : Type 0} (f : Fault) (m : Tx A) (s s' : Store) (a : A)
    → write f m s ≡ (ok a, s')
    → m s.tables ≡ ok (a, s'.tables)
unfolding write
write-ok f m s s' a h = branch-ok f m s s' s.writable a h
