-- ===== src/Inventory/Registry/Laws.antt =====
-- internal/repository/inventory/registry.go: when the database is taken for the one that was known,
-- and when for a new one.
use ovs_webui.Prelude.{◌+◌, ◌≤◌, ◌≡◌, ◌≢◌, ◌⊎◌, ◌↔◌, inl, inr, ap, ◌∙◌, Bool, true, false, arith}
use ovs_webui.Inventory.Registry.{
  Evidence, Decision, new, continued, needs_review, shares_anchor, continuity_gap, classify,
  classify_evidence, classify_continuity, classify_file, classify_root,
}

-- The evidence of two observations of the same database: the same endpoint, schema and boot, a root
-- that did not change or was found by a monitor that never broke off, a gap of at most thirty seconds
-- in time that runs forwards, and the same file, which the server has open and which holds what it
-- held.
pub record SameDatabase (p e : Evidence) : Type 0 where
  pub endpoint : p.endpoint ≡ e.endpoint
  pub database : p.database ≡ e.database
  pub schema : p.schema ≡ e.schema
  pub boot : p.boot ≡ e.boot
  pub root : (p.root ≡ e.root) ⊎ ((p.root ≡ 0) × (e.continuous ≡ true))
  pub forwards : p.observed_at ≤ e.observed_at
  pub gap : e.observed_at ≤ p.observed_at + continuity_gap
  pub available : (p.file.available ≡ true) × (e.file.available ≡ true)
  pub server : e.file.server_has_file ≡ true
  pub device : p.file.device ≡ e.file.device
  pub inode : p.file.inode ≡ e.file.inode
  pub prior : e.file.prior_matches ≡ true

-- The evidence of another database behind the same endpoint.
abbrev pub OtherDatabase : Evidence → Evidence → Type 0
OtherDatabase p e =
    (p.endpoint ≡ e.endpoint)
    × (p.database ≡ e.database)
    × (p.root ≢ 0)
    × (e.root ≢ 0)
    × (p.root ≢ e.root)
    × (shares_anchor p.anchors e.anchors ≡ false)

abbrev pub Reviewed : Decision → Bool → Type 0
Reviewed old restored = (old.generation ≢ 0) × (restored ≡ false) × (needs_review old.state ≡ false)

classify_evidence-SameDatabase :
    (p e : Evidence) → (classify_evidence p e).0 ≡ continued → SameDatabase p e
unfolding classify_evidence classify_continuity classify_file classify_root
classify_evidence-SameDatabase p e h = ground arith

SameDatabase-continued : (p e : Evidence) → SameDatabase p e → (classify_evidence p e).0 ≡ continued
unfolding classify_evidence classify_continuity classify_file classify_root
SameDatabase-continued p e k = ground arith

classify_evidence-new : (p e : Evidence) → ((classify_evidence p e).0 ≡ new) ↔ OtherDatabase p e
unfolding classify_evidence classify_continuity classify_file classify_root
classify_evidence-new p e = ground arith

classify-Reviewed :
    (old : Decision) (e : Evidence) (restored : Bool)
    → (classify old e restored).0 ≡ continued
    → Reviewed old restored × ((classify_evidence old.evidence e).0 ≡ continued)
unfolding classify
classify-Reviewed old e restored h = ground arith

Reviewed-classify :
    (old : Decision) (e : Evidence) (restored : Bool)
    → Reviewed old restored
    → classify old e restored ≡ classify_evidence old.evidence e
unfolding classify
Reviewed-classify old e restored k = ground arith

-- The database is taken for the one that was known exactly if a generation is known, no backup was
-- restored, no review is pending, and the evidence is that of the same database.
pub classify-continued :
    (old : Decision) (e : Evidence) (restored : Bool)
    → ((classify old e restored).0 ≡ continued)
      ↔ (Reviewed old restored × SameDatabase old.evidence e)
classify-continued old e restored = (
  λ h.
      let (k, s) = classify-Reviewed old e restored h in
      (k, classify_evidence-SameDatabase old.evidence e s),
  λ (k, s).
      ap (λ z. z.0) (Reviewed-classify old e restored k) ∙ SameDatabase-continued old.evidence e s,
)

classify-fresh :
    (old : Decision) (e : Evidence) (restored : Bool)
    → (classify old e restored).0 ≡ new
    → (old.generation ≡ 0) ⊎ (Reviewed old restored × ((classify_evidence old.evidence e).0 ≡ new))
unfolding classify
classify-fresh old e restored h = ground arith

first-classify :
    (old : Decision) (e : Evidence) (restored : Bool)
    → old.generation ≡ 0
    → (classify old e restored).0 ≡ new
unfolding classify
first-classify old e restored h = ground arith

-- `Classify` answers that the database is a new one exactly if no generation is known, or if no backup
-- was restored, no review is pending, and behind the same endpoint there is another root that shares
-- no anchor with the one that was known.
pub classify-new :
    (old : Decision) (e : Evidence) (restored : Bool)
    → ((classify old e restored).0 ≡ new)
      ↔ ((old.generation ≡ 0) ⊎ (Reviewed old restored × OtherDatabase old.evidence e))
classify-new old e restored = (
  λ h. elim (classify-fresh old e restored h) [
    | inl z ↦ inl z
    | inr (k, s) ↦ inr (k, (classify_evidence-new old.evidence e).0 s)
  ],
  λ x. elim x [
    | inl z ↦ first-classify old e restored z
    | inr (k, s) ↦
        ap (λ z. z.0) (Reviewed-classify old e restored k)
        ∙ (classify_evidence-new old.evidence e).1 s
  ],
)
