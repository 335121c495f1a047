-- ===== src/Requests.antt =====
-- internal/repository/requests/requests.go: the receipts of API requests in the manager's database,
-- whose domain is "management". `mutate` is the callback of the caller, any transaction. SHA-256 and
-- its keyed form are the parameter `Digests`, Go's strconv.ParseInt is `parse_int32`.
pub mod Encoding
pub mod Calls
pub mod Retention
pub mod Numbers
pub mod Replays
pub mod Retry
pub mod Documents
pub mod Once
pub mod Pruning
pub mod Committed
pub mod Ledger
pub mod Examples
use ovs_webui.Prelude.{
  ℕ, zero, suc, ◌+◌, ◌-◌, ◌*◌, ◌/◌, Bool, true, false, not, ◌&&◌, ◌||◌, String, str_eq, List, [],
  ◌∷◌, ◌++◌, Option, none, some, ltb, leb, ◌==◌, if◌then◌else◌, length, lookup, is_some, keep,
}
use ovs_webui.Prelude.Int.{ℤ}
use ovs_webui.Jobs.{control_operation, reserved_control_records}
use ovs_webui.Receipts.{
  Ref, Receipt, Row, Body, document, of_accepted, of_receipt, accepted, completed, linked_resource,
  Effect, request_time, management_id, uuid,
}
use ovs_webui.Store.{
  Error, Tables, Store, Result, ok, err, Tx, pure, fail, gets, one, ◌>>=◌, ◌>>◌, guard, modify,
  chain, write, Fault, not_found, unavailable, conflict, idempotency_mismatch,
  request_epoch_changed, clock_unsafe, request_key_expired, resource_budget_exceeded,
  invalid_service_response, job_not_durable, invalid_request, secretstore_unavailable,
}
use ovs_webui.Requests.Encoding.{Json, CanonicalValue, canonical_value, Bytes}

abbrev pub max_receipts : ℕ
max_receipts = 100000

-- `payload` is `none` where the document is empty, too long or no JSON, and `key` where the
-- fingerprint key is shorter than 32 bytes.
pub record Command : Type 0 where
  pub principal : ℕ
  pub epoch : ℕ
  pub domain : String
  pub id : ℕ
  pub operation : String
  pub method : String
  pub uri : Bytes
  pub precondition : String
  pub payload : Option Json
  pub sensitive : Bool
  pub key : Option ℕ
  pub secret_response : Bool

-- `body_ok` says that the body is valid JSON of at most 65536 bytes.
pub record Mutation : Type 0 where
  pub status : ℕ
  pub body : ℕ
  pub body_ok : Bool
  pub resource : Option Ref
  pub job : Option Ref
  pub terminal : Bool
  pub secret_response : Bool

-- `apitypes.Result`
pub record Reply : Type 0 where
  pub status : ℕ
  pub body : Body
  pub receipt : Receipt
  pub replayed : Bool

pub record Message : Type 0 where
  pub operation : String
  pub method : String
  pub uri : Bytes
  pub precondition : String
  pub payload : CanonicalValue

pub record Digests : Type 0 where
  pub parse_int32 : Bytes → Option ℤ
  pub plain : Message → ℕ
  pub keyed : ℕ → Message → ℕ

module _ (g : Digests) where
  unfoldable pub digest : Command → Option CanonicalValue → Result ℕ
  digest c none = err invalid_request
  digest c (some payload) =
      let m : Message = record {
        operation = c.operation;
        method = c.method;
        uri = c.uri;
        precondition = c.precondition;
        payload = payload;
      } in
      if c.sensitive
      then elim c.key [ none ↦ err secretstore_unavailable | some k ↦ ok (g.keyed k m) ]
      else ok (g.plain m)

  -- `fingerprint`
  unfoldable pub fingerprint : Command → Result ℕ
  unfolding digest
  fingerprint c = elim c.payload [
    | none ↦ err invalid_request
    | some v ↦ digest c (canonical_value g.parse_int32 v)
  ]

-- WHERE principal_id=? AND epoch=? AND domain=? AND request_id=?
abbrev pub has_key : Command → Row → Bool
has_key c r =
    r.principal == c.principal
    && r.epoch == c.epoch
    && str_eq r.domain c.domain
    && r.request == c.id

unfoldable pub find_row : Command → List Row → Option Row
find_row c [] = none
find_row c (r ∷ rs) = let rest = find_row c rs in if has_key c r then some r else rest

-- The reply of a request that has a receipt.
unfoldable pub replay_of : Row → Reply
replay_of r = record { status = r.status; body = r.response; receipt = r.receipt; replayed = true }

-- What one call is told: the two answers of `reauthorize`, the clock in nanoseconds, and the new
-- correlation identifier.
pub record Told : Type 0 where
  pub outer : Option Error
  pub inner : Option Error
  pub now : ℕ
  pub correlation : ℕ

abbrev pub milliseconds : ℕ → ℕ
milliseconds t = t / 1000000

unfoldable pub refuse : Option Error → Tx (Unit {0})
refuse none t = ok (tt, t)
refuse (some e) t = err e

abbrev is_job : Option Ref → Bool
is_job none = false
is_job (some r) = str_eq r.kind "job" && management_id r.id

abbrev is_resource : Option Ref → Bool
is_resource none = false
is_resource (some r) = management_id r.id

-- The response of a service that may be stored.
unfoldable pub is_response : Mutation → Bool
is_response m =
    leb 200 m.status
    && leb m.status 299
    && not (m.status == 204)
    && m.body_ok
    && (not (m.status == 202) || (is_job m.job && is_resource m.resource))

unfoldable pub durable_ref : Option Ref → Tables → Bool
durable_ref none t = false
durable_ref (some r) t = is_some (lookup r.id t.jobs)

-- A response 202 names a job that is in the database.
unfoldable pub is_durable : Mutation → Tables → Bool
unfolding durable_ref
is_durable m t = not (m.status == 202) || durable_ref m.job t

id_of : Option Ref → ℕ
id_of none = 0
id_of (some r) = r.id

-- The age of the request's identifier, a time in milliseconds, is at most five minutes, and it is at
-- most two minutes ahead.
unfoldable pub is_current : ℕ → ℕ → Bool
is_current now key =
    not (ltb (key * 1000000 + 300000000000) now) && not (ltb (now + 120000000000) (key * 1000000))

unfoldable pub receipt_limit : String → ℕ
receipt_limit operation =
    if control_operation operation then max_receipts else max_receipts - reserved_control_records

module _ (v : Told) (c : Command) (fingerprint : ℕ) (key : ℕ) where
  receipt_for : Mutation → Receipt
  receipt_for m = record {
    request = c.id;
    domain = c.domain;
    epoch = c.epoch;
    stage = if m.terminal then completed else accepted;
    effect = if is_some m.resource then linked_resource else Effect.unknown;
    resource = m.resource;
    job = m.job;
    correlation = v.correlation;
  }

  body_for : Mutation → Body
  unfolding id_of
  body_for m =
      if m.status == 202
      then of_accepted (record {
        request = c.id;
        domain = c.domain;
        epoch = c.epoch;
        job = id_of m.job;
        resource = m.resource;
        correlation = v.correlation;
      })
      else document m.body

  abbrev is_secret : Mutation → Bool
  is_secret m = c.secret_response || m.secret_response

  -- The row that is inserted; a secret response is not stored.
  unfoldable pub row_for : Mutation → Row
  unfolding receipt_for body_for
  row_for m = record {
    principal = c.principal;
    epoch = c.epoch;
    domain = c.domain;
    request = c.id;
    fingerprint = fingerprint;
    initial_status = m.status;
    status = if is_secret m then 200 else m.status;
    response = if is_secret m then of_receipt (receipt_for m) else body_for m;
    receipt = receipt_for m;
    created_at = milliseconds v.now;
    completed_at = if m.terminal then some (milliseconds v.now) else none;
    operation = c.operation;
  }

  unfoldable pub reply_for : Mutation → Reply
  unfolding receipt_for body_for
  reply_for m = record {
    status = m.status;
    body = body_for m;
    receipt = receipt_for m;
    replayed = false;
  }

  -- INSERT INTO api_receipts, whose primary key refuses a second row, and the watermark.
  unfoldable pub insert_receipt : Mutation → Tx (Unit {0})
  insert_receipt m = do
    rows ← gets (λ t. t.receipts)
    guard (not (is_some (find_row c rows))) conflict
    modify (λ t. record t {
      receipts = t.receipts ++ (row_for m ∷ []);
      high_watermark =
          if ltb t.high_watermark (milliseconds v.now)
          then milliseconds v.now
          else t.high_watermark;
    })

  -- A request that has no receipt.
  unfoldable pub admit : Tx Mutation → Tx Reply
  unfolding receipt_limit
  admit mutate = do
    t ← gets (λ t. t)
    guard (t.authority_epoch == c.epoch) request_epoch_changed
    guard (not (ltb (milliseconds v.now + 120000) t.high_watermark)) clock_unsafe
    guard (is_current v.now key) request_key_expired
    guard (ltb (length t.receipts) (receipt_limit c.operation)) resource_budget_exceeded
    m ← mutate
    guard (is_response m) invalid_service_response
    u ← gets (λ u. u)
    guard (is_durable m u) job_not_durable
    insert_receipt m
    pure (reply_for m)

  unfoldable pub resume : Tx Mutation → Option Row → Tx Reply
  resume mutate (some r) = do
    guard (r.fingerprint == fingerprint) idempotency_mismatch
    pure (replay_of r)
  resume mutate none = admit mutate

  -- The transaction of `Execute`.
  unfoldable pub execute_tx : Tx Mutation → Tx Reply
  unfolding resume
  execute_tx mutate = do
    refuse v.inner
    prior ← gets (λ t. find_row c t.receipts)
    resume mutate prior
