-- ===== src/Requests/Examples.antt =====
-- A request of one client, sent twice, and its pruning.
use ovs_webui.Prelude.{
  ℕ, ◌+◌, ◌*◌, ◌^◌, ◌≡◌, ◌≢◌, ◌↔◌, inl, inr, refl, Option, true, false, [], ◌∷◌, none, some, arith,
  subst,
}
use ovs_webui.Receipts.{request_id, request_time-request_id, Row, request_time, of_receipt}
use ovs_webui.Store.{
  Tables, Store, Result, ok, err, Tx, Fault, stored, kept, ok-injective, idempotency_mismatch,
}
use ovs_webui.Requests.{
  Command, Message, Mutation, Reply, Told, Digests, execute_tx, replay_of, find_row, row_for,
}
use ovs_webui.Requests.Calls.{execute}
use ovs_webui.Requests.Retention.{prune, is_prunable}
use ovs_webui.Prelude.Int.{ℤ, pos}
use ovs_webui.Requests.Encoding.{null, boolean, Bytes, CanonicalValue, canonical_number}
use ovs_webui.Requests.Numbers.Texts.{Parts, IsNumber, SameValue, text, canonical_number-SameValue}
use ovs_webui.Requests.Documents.{Documented, execute-Documented}
use ovs_webui.Requests.Pruning.{Swept, prune-leaves}
use ovs_webui.Requests.Once.{World, request, pruning, Steps, done, after, serve, sweep, Completes}
use ovs_webui.Requests.Once.Rows.{RowsKept, RowsKept-refl}

abbrev pub digests : Digests
digests = record { parse_int32 = λ s. none; plain = λ m. 7; keyed = λ k m. k + 7 }

-- The UUID of version 4 and that of version 7 with the time.
abbrev pub version_4 : ℕ → ℕ
version_4 n = 4 * 2 ^ 76 + 2 * 2 ^ 62 + n

abbrev pub version_7 : ℕ → ℕ
version_7 t = t * 2 ^ 80 + 7 * 2 ^ 76 + 2 * 2 ^ 62

abbrev pub put : Command
put = record {
  principal = version_4 1;
  epoch = version_4 2;
  domain = "management";
  id = version_7 5000;
  operation = "bridge-create";
  method = "POST";
  uri = [];
  precondition = "";
  payload = some null;
  sensitive = false;
  key = none;
  secret_response = false;
}

abbrev pub mutation : Mutation
mutation = record {
  status = 200;
  body = 9;
  body_ok = true;
  resource = none;
  job = none;
  terminal = true;
  secret_response = false;
}

abbrev pub mutate : Tx Mutation
mutate t = ok (mutation, t)

abbrev at : ℕ → Told
at now = record { outer = none; inner = none; now = now; correlation = 3 }

abbrev empty : Tables
empty = record {
  executions = [];
  safe_applies = [];
  journal = [];
  jobs = [];
  protections = [];
  identities = [];
  receipts = [];
  entries = [];
  last_known_good = none;
  resolutions = [];
  safe_requests = [];
  anchors = [];
  revision = 1;
  authority_epoch = version_4 2;
  high_watermark = 0;
}

abbrev open_store : Store
open_store = record { tables = empty; readable = true; writable = true }

abbrev first : Told
first = at 5001000000

-- The commit of the first request is kept, but its outcome is not known.
abbrev after_first : Result Reply × Store
after_first = execute digests first kept put mutate open_store

abbrev reopened : Store
reopened = record { tables = after_first.1.tables; readable = true; writable = true }

abbrev row : Row
row = row_for first put 7 5000 mutation

abbrev with_row : Tables
with_row = record empty { receipts = row ∷ [] }

abbrev payload_digest : CanonicalValue → ℕ
payload_digest null = 7
payload_digest _ = 8

abbrev by_payload : Digests
by_payload = record {
  parse_int32 = λ s. none;
  plain = λ m. payload_digest m.payload;
  keyed = λ k m. k + 7;
}

abbrev message : CanonicalValue → Message
message p = record {
  operation = "bridge-create";
  method = "POST";
  uri = [];
  precondition = "";
  payload = p;
}

-- Another document under the same key.
abbrev changed : Command
changed = record put { payload = some (boolean true) }

put-Documented : Documented by_payload put (message null)
unfolding ovs_webui.Requests.Encoding.canonical_value
put-Documented = record {
  json = null;
  payload = refl;
  canonical = refl;
  operation = refl;
  method = refl;
  uri = refl;
  precondition = refl;
  plain = refl;
}

changed-Documented : Documented by_payload changed (message (boolean true))
unfolding ovs_webui.Requests.Encoding.canonical_value
changed-Documented = record {
  json = boolean true;
  payload = refl;
  canonical = refl;
  operation = refl;
  method = refl;
  uri = refl;
  precondition = refl;
  plain = refl;
}

seven_eight : ◌≡◌ {A = ℕ} 7 8 → message null ≡ message (boolean true)
seven_eight h = ground arith

execute-Documented_example :
    (message null ≡ message (boolean true)
      → execute by_payload first stored changed mutate (record open_store { tables = with_row })
        ≡ (ok (replay_of row), record open_store { tables = with_row }))
    × (message null ≢ message (boolean true)
        → (f : Fault)
        → execute by_payload first f changed mutate (record open_store { tables = with_row })
          ≡ (err idempotency_mismatch, record open_store { tables = with_row }))
unfolding request_time ovs_webui.Requests.Calls.is_command ovs_webui.Receipts.management_id
    ovs_webui.Requests.fingerprint ovs_webui.Requests.digest
    ovs_webui.Requests.Encoding.canonical_value find_row row_for
execute-Documented_example =
    execute-Documented by_payload put changed (message null) (message (boolean true)) first mutate
      (record open_store { tables = with_row }) 5000 row put-Documented refl changed-Documented
      seven_eight refl refl refl refl refl refl

mutate-Completes : Completes 5001000000 mutate
mutate-Completes t m u h =
    subst (λ z. RowsKept 5001000000 t.receipts z.receipts) (ok-injective h).1
      (RowsKept-refl 5001000000 t.receipts)

abbrev start : World
start = record { tables = empty; clock = 0; served = [] }

abbrev served : World
served = serve true put 5001000000 (execute_tx first put 7 5000 mutate empty) start

abbrev twice : World
twice = serve true put 5001000000 (execute_tx first put 7 5000 mutate served.tables) served

abbrev pruned : World
pruned = sweep true 9000000000000000 (prune (λ r. false) 9000000000000000 twice.tables) twice

run : Steps start pruned
unfolding request_time serve execute_tx ovs_webui.Store.chain ovs_webui.Requests.refuse find_row
    ovs_webui.Requests.admit ovs_webui.Store.guard ovs_webui.Requests.is_current
    ovs_webui.Jobs.control_operation ovs_webui.Requests.is_response ovs_webui.Requests.is_durable
    ovs_webui.Requests.insert_receipt row_for
run = after (request {w = start} true first put 7 5000 mutate (omega arith) refl mutate-Completes) (
    after (request {w = served} true first put 7 5000 mutate (omega arith) refl mutate-Completes)
      (after (pruning {w = twice} true (λ r. false) 9000000000000000 (omega arith)) done))

prune-leaves_example :
    Swept 256 (is_prunable (λ r. false) 9000000000000000 with_row) (row ∷ []) []
    × ((c : Command)
        → (r : Row) → find_row c (row ∷ []) ≡ some r
        → is_prunable (λ r. false) 9000000000000000 with_row r ≡ false
        → find_row c [] ≡ some r)
unfolding prune ovs_webui.Requests.Retention.remove_oldest is_prunable row_for
prune-leaves_example =
    prune-leaves (λ r. false) 9000000000000000 with_row (record with_row { receipts = [] }) refl

-- 10 and 0.100E2
abbrev plain_ten : Parts
plain_ten = record { negative = false; whole = b'1' ∷ b'0' ∷ []; fraction = none; exponent = none }

abbrev scaled_ten : Parts
scaled_ten = record {
  negative = false;
  whole = b'0' ∷ [];
  fraction = some (b'1' ∷ b'0' ∷ b'0' ∷ []);
  exponent = some (true, b'2' ∷ []);
}

abbrev read_two : Bytes → Option ℤ
read_two s = some (pos 2)

plain_ten-IsNumber : IsNumber read_two plain_ten (pos 0)
plain_ten-IsNumber = record {
  digit = b'1';
  more = b'0' ∷ [];
  filled = refl;
  whole = refl;
  fraction = refl;
  exponent = inl (refl, refl);
}

scaled_ten-IsNumber : IsNumber read_two scaled_ten (pos 2)
scaled_ten-IsNumber = record {
  digit = b'0';
  more = [];
  filled = refl;
  whole = refl;
  fraction = refl;
  exponent = inr (true, b'2' ∷ [], refl, refl);
}

canonical_number-SameValue_example :
    (canonical_number read_two (text plain_ten) ≡ canonical_number read_two (text scaled_ten))
    ↔ SameValue plain_ten (pos 0) scaled_ten (pos 2)
canonical_number-SameValue_example =
    canonical_number-SameValue read_two plain_ten scaled_ten (pos 0) (pos 2) plain_ten-IsNumber
      scaled_ten-IsNumber

request_time-request_id_example : request_time (request_id 5000 77) ≡ some 5000
request_time-request_id_example = request_time-request_id 5000 77 (omega arith)
