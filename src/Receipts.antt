-- ===== src/Receipts.antt =====
-- internal/apitypes/types.go and the table `api_receipts` of the manager's database: what is kept of
-- a request. A UUID is its 128-bit number, and 0 the empty string.
use ovs_webui.Prelude.{
  ℕ, ◌+◌, ◌*◌, ◌/◌, ◌%◌, ◌^◌, ◌<◌, Bool, ◌&&◌, String, Option, none, some, ◌==◌, leb, if◌then◌else◌,
  arith, ◌≡◌,
}

pub record Ref : Type 0 where
  pub kind : String
  pub id : ℕ

pub data Stage : Type 0 where
  accepted completed : Stage

pub data Effect : Type 0 where
  unknown linked_resource : Effect

-- `Receipt`
pub record Receipt : Type 0 where
  pub request : ℕ
  pub domain : String
  pub epoch : ℕ
  pub stage : Stage
  pub effect : Effect
  pub resource : Option Ref
  pub job : Option Ref
  pub correlation : ℕ

-- `Accepted`
pub record Accepted : Type 0 where
  pub request : ℕ
  pub domain : String
  pub epoch : ℕ
  pub job : ℕ
  pub resource : Option Ref
  pub correlation : ℕ

-- A response: the document of a service, known by its digest, or one of the two above.
pub data Body : Type 0 where
  document : ℕ → Body
  of_accepted : Accepted → Body
  of_receipt : Receipt → Body

-- A row of `api_receipts`; times are milliseconds.
pub record Row : Type 0 where
  pub principal : ℕ
  pub epoch : ℕ
  pub domain : String
  pub request : ℕ
  pub fingerprint : ℕ
  pub initial_status : ℕ
  pub status : ℕ
  pub response : Body
  pub receipt : Receipt
  pub created_at : ℕ
  pub completed_at : Option ℕ
  pub operation : String

-- The version and the variant of a UUID.
abbrev version : ℕ → ℕ
version u = u / 2 ^ 76 % 16

abbrev variant : ℕ → ℕ
variant u = u / 2 ^ 62 % 4

-- `UUID`, of the number of a UUID that is spelled as one
unfoldable pub uuid : ℕ → Bool
uuid u = variant u == 2 && leb 1 (version u) && leb (version u) 8

-- `RequestTime`, in milliseconds
unfoldable pub request_time : ℕ → Option ℕ
unfolding uuid
request_time u = if uuid u && version u == 7 then some (u / 2 ^ 80) else none

-- `ManagementID`
unfoldable pub management_id : ℕ → Bool
unfolding uuid
management_id u = uuid u && version u == 4

-- `RequestID`, from the time in milliseconds and sixteen random bytes
unfoldable pub request_id : ℕ → ℕ → ℕ
request_id now random =
    now % 2 ^ 48 * 2 ^ 80
    + 7 * 2 ^ 76
    + random / 2 ^ 64 % 2 ^ 12 * 2 ^ 64
    + 2 * 2 ^ 62
    + random % 2 ^ 62

-- A new identifier is a request's, and its time is that of its making.
pub request_time-request_id :
    (now random : ℕ) → now < 2 ^ 48 → request_time (request_id now random) ≡ some now
unfolding request_time request_id uuid
request_time-request_id now random h = ground arith
