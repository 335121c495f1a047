-- ===== src/Executions/Moves/Dispatch.antt =====
-- internal/repository/executions/engine.go: an execution is sent at most once.
use ovs_webui.Prelude.{
  ℕ, ◌+◌, ◌≤◌, ◌≡◌, ◌≢◌, ◌⊎◌, inl, inr, refl, ap, ◌∙◌, subst, Bool, List, [], ◌∷◌, ◌++◌, Option,
  none, some, lookup, lookup-update_self, lookup-update_ne, ◌==◌, count, if◌then◌else◌, arith,
}
use ovs_webui.Execution
use ovs_webui.Execution.{Authorization, Outcome, admitted, same_state}
use ovs_webui.Store.{Tables, ok}
use ovs_webui.Evidence.{Budget}
use ovs_webui.Executions.{Times, save_outcome}
use ovs_webui.Executions.Admission.{BeforeSend, before_send}
use ovs_webui.Executions.Admission.Steps.{admission-Admitted}
use ovs_webui.Executions.Moves.{
  Move, admits, sends, reports, watches, decides, sent_by, Run, done, after, dispatches,
}
use ovs_webui.Executions.Moves.Effects.{
  Rewritten, Onward, Written, Sending, save_outcome-Written, save_safety-Written, decide_tx-Written,
  before_send-Sending,
}

-- Whether the execution has left its first state.
unfoldable pub begun : Option Execution.Record → ℕ
begun none = 0
begun (some r) = if same_state r.state admitted then 0 else 1

pub begun_most : (o : Option Execution.Record) → begun o ≤ 1
unfolding begun
begun_most o = ground arith

abbrev pub row : ℕ → Tables → Option Execution.Record
row id t = lookup id t.executions

begun-Onward : (old new : Execution.Record) → Onward old new → begun (some old) ≤ begun (some new)
unfolding begun
begun-Onward old new (inl n) = rw n (ground arith)
begun-Onward old new (inr e) = rw e (ground arith)

pub begun-append :
    (id : ℕ) (rows more : List (ℕ × Execution.Record))
    → begun (lookup id rows) ≤ begun (lookup id (rows ++ more))
unfolding begun
begun-append id [] more = ground arith
begun-append id ((j, r) ∷ rows) more = ground (arith, begun-append id rows more)

same_or_other : (j id : ℕ) → (j ≡ id) ⊎ (j ≢ id)
same_or_other j id = ground arith

row_here :
    (old new : Execution.Record) (t u : Tables)
    → Rewritten old new t u
    → (row old.id t ≡ some old) × (row old.id u ≡ some new)
row_here old new t u x = (
  x.found,
  ap (lookup old.id) x.executions ∙ lookup-update_self old.id new old t.executions x.found,
)

row_there :
    (id : ℕ) (old new : Execution.Record) (t u : Tables)
    → Rewritten old new t u
    → id ≢ old.id
    → row id u ≡ row id t
row_there id old new t u x n =
    ap (lookup id) x.executions ∙ lookup-update_ne id old.id new t.executions n

Written-begun : (id : ℕ) (t u : Tables) → Written t u → begun (row id t) ≤ begun (row id u)
Written-begun id t u (old, new, x, onward) = elim (same_or_other id old.id) [
  | inl e ↦ let (a, c) = row_here old new t u x in rw e (rw a (rw c (begun-Onward old new onward)))
  | inr n ↦ rw (row_there id old new t u x n) (ground arith)
]

begun_first : (r : Execution.Record) → r.state ≡ admitted → begun (some r) ≡ 0
unfolding begun
begun_first r e = rw e refl

begun_next : (r : Execution.Record) → r.state ≡ Execution.committing → begun (some r) ≡ 1
unfolding begun
begun_next r e = rw e refl

unsent : {m n : ℕ} → m ≤ n → 0 + m ≤ n
unsent h = omega arith

module _ (b : Budget) (id : ℕ) where
  Sending-pays :
      (t u : Tables) (v : BeforeSend) (j : ℕ) (c : Authorization) (x : Sending j c v t u)
      → (id ≡ x.current.id) ⊎ (id ≢ x.current.id)
      → count (λ k. k == id) (j ∷ []) + begun (row id t) ≤ begun (row id u)
  Sending-pays t u v j c x (inl e) =
      let (old, new) = row_here x.current x.next t u x.rewritten in
      let before = begun_first x.current x.was in
      let now = begun_next x.next x.committing in
      rw e (rw old (rw new (rw before (rw now (ground arith)))))
  Sending-pays t u v j c x (inr n) =
      let other = subst (λ i. id ≢ i) x.own n in
      rw (row_there id x.current x.next t u x.rewritten n) (ground arith)

  pub before_send-pays :
      (v : BeforeSend) (j : ℕ) (c : Authorization) (safe : Bool) (t u : Tables)
      → before_send b v j c safe t ≡ ok (tt, u)
      → (if j == id then 1 else 0) + begun (row id t) ≤ begun (row id u)
  before_send-pays v j c safe t u h =
      let x = before_send-Sending b v j c safe t u h in
      Sending-pays t u v j c x (same_or_other id x.current.id)

  pub outcome-begun :
      (t u : Tables) (j : ℕ) (o : Outcome) (now : Times)
      → save_outcome b j o now t ≡ ok (tt, u)
      → begun (row id t) ≤ begun (row id u)
  outcome-begun t u j o now h = elim (save_outcome-Written b t u j o now h) [
    | inl e ↦ rw e (ground arith)
    | inr w ↦ Written-begun id t u w
  ]

  move-pays :
      {t u : Tables} (m : Move b t u)
      → count (λ j. j == id) (sent_by b m) + begun (row id t) ≤ begun (row id u)
  unfolding sent_by begun
  move-pays {t} {u} (admits v q c safe m h) =
      let x = admission-Admitted v b q c safe t u m h in
      rw x.executions (unsent (begun-append id t.executions _))
  move-pays {t} {u} (sends v j c safe h) = before_send-pays v j c safe t u h
  move-pays {t} {u} (reports j o now h) = unsent (outcome-begun t u j o now h)
  move-pays {t} {u} (watches r s now h) =
      unsent (Written-begun id t u (save_safety-Written b t u r s now h))
  move-pays {t} {u} (decides v r s j sequence choice o h) =
      unsent (Written-begun id t u (decide_tx-Written b v r s t u j sequence choice o h))

  run-pays :
      {t u : Tables} (r : Run b t u) → dispatches b id r + begun (row id t) ≤ begun (row id u)
  unfolding dispatches
  run-pays done = ground arith
  run-pays (after m r) = ground (arith, move-pays m, run-pays r)

  -- In any run of the transactions the bytes of an execution are let go at most once, and never of
  -- one that had left its first state before.
  pub dispatched_once :
      {t u : Tables} (r : Run b t u) → dispatches b id r + begun (lookup id t.executions) ≤ 1
  dispatched_once {t} {u} r =
      let paid = run-pays r in let most = begun_most (row id u) in omega arith
