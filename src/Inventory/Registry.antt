-- ===== src/Inventory/Registry.antt =====
-- internal/repository/inventory/registry.go: `Classify`, which decides from the evidence about the
-- database of Open vSwitch whether it is the one that was known. Identifiers, digests and endpoints
-- are numbers, and 0 is the empty string.
pub mod Laws
use ovs_webui.Prelude.{
  ℕ, ◌-◌, Bool, true, false, not, ◌&&◌, ◌||◌, String, List, ltb, ◌==◌, if◌then◌else◌, any,
}

-- `FileWitness`
pub record FileWitness : Type 0 where
  pub available : Bool
  pub server_has_file : Bool
  pub device : ℕ
  pub inode : ℕ
  pub prior_matches : Bool

pub record Evidence : Type 0 where
  pub endpoint : ℕ
  pub database : ℕ
  pub schema : ℕ
  pub root : ℕ
  pub anchors : List ℕ
  pub peer : ℕ
  pub boot : ℕ
  pub file : FileWitness
  pub observed_at : ℕ
  pub continuous : Bool

pub data Standing : Type 0 where
  confirmed reconciliation_required new continued : Standing

abbrev pub needs_review : Standing → Bool
needs_review reconciliation_required = true
needs_review _ = false

-- `Decision`
pub record Decision : Type 0 where
  pub generation : ℕ
  pub state : Standing
  pub reason : String
  pub evidence : Evidence

abbrev pub continuity_gap : ℕ
continuity_gap = 30000000000

abbrev pub shares_anchor : List ℕ → List ℕ → Bool
shares_anchor old now = any (λ a. any (λ c. c == a) now) old

unfoldable pub classify_root : Evidence → Evidence → Standing × String
classify_root p e =
    if p.root == e.root || (p.root == 0 && e.continuous)
    then if not (p.peer == e.peer)
      then (continued, "process-restarted-database-continued")
      else if not e.continuous
      then (continued, "database-reconnected")
      else (continued, "monitor-continuity")
    else (reconciliation_required, "identity-evidence-insufficient")

unfoldable pub classify_file : Evidence → Evidence → Standing × String
classify_file p e =
    if not e.file.available || not e.file.server_has_file || not p.file.available
    then (reconciliation_required, "file-evidence-unavailable")
    else if not (p.file.device == e.file.device)
        || not (p.file.inode == e.file.inode)
        || not e.file.prior_matches
    then (reconciliation_required, "database-file-replaced-or-rewound")
    else classify_root p e

unfoldable pub classify_continuity : Evidence → Evidence → Standing × String
classify_continuity p e =
    if not (p.schema == e.schema)
    then (reconciliation_required, "schema-changed")
    else if not (p.root == 0) && e.root == 0
    then (reconciliation_required, "root-disappeared")
    else if not (p.boot == e.boot)
    then (reconciliation_required, "host-restarted")
    else if ltb e.observed_at p.observed_at || ltb continuity_gap (e.observed_at - p.observed_at)
    then (reconciliation_required, "observation-gap")
    else classify_file p e

unfoldable pub classify_evidence : Evidence → Evidence → Standing × String
classify_evidence p e =
    if not (p.endpoint == e.endpoint) || not (p.database == e.database)
    then (reconciliation_required, "endpoint-changed")
    else if not (p.root == 0) && not (e.root == 0) && not (p.root == e.root)
    then if shares_anchor p.anchors e.anchors
      then (reconciliation_required, "root-anchor-conflict")
      else (new, "native-identity-break")
    else classify_continuity p e

-- `Classify`
unfoldable pub classify : Decision → Evidence → Bool → Standing × String
classify old e restored =
    if old.generation == 0
    then (new, "initial-discovery")
    else if restored
    then (reconciliation_required, "management-restore")
    else if needs_review old.state
    then (old.state, old.reason)
    else classify_evidence old.evidence e
