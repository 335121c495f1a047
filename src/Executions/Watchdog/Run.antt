-- ===== src/Executions/Watchdog/Run.antt =====
-- Runs of the two workers of executions/engine.go and executions/safety.go: the reconciler and the
-- watchdog, on any executions and in any order, against any answers, clocks and faults.
use ovs_webui.Prelude.{
  ℕ, ◌+◌, ◌≤◌, ◌≡◌, ◌≢◌, ◌⊎◌, inl, inr, refl, sym, ◌∙◌, subst, ap, ◌&&◌, List, [], ◌∷◌, ◌++◌,
  Option, none, some, arith, lookup, ◌==◌, is_some, if◌then◌else◌, count,
}
use ovs_webui.Execution
use ovs_webui.Execution.{Plan, Outcome}
use ovs_webui.Safety.{Record}
use ovs_webui.Store.{Fault, ok}
use ovs_webui.Evidence.{Budget}
use ovs_webui.Executions.{Engine, Sent, Call, Times, claim, claimed, reconcile, reconcile_record}
use ovs_webui.Executions.Watchdog.{Env, step}
use ovs_webui.Executions.Watchdog.Effect.{
  rows, rollback_of, Evolves, Evolves-refl, Dispatched, Effect,
}
use ovs_webui.Executions.Watchdog.Rollback.{if_holds, some-injective, Evolves-trans}
use ovs_webui.Executions.Watchdog.Once.{Untouched, Stepped, step-Stepped, outcome-Untouched}

decide : (j id : ℕ) → (j ≡ id) ⊎ (j ≢ id)
decide j id = ground arith

-- The rollbacks of a transaction that have been sent.
unfoldable pub sends : ℕ → List Sent → ℕ
sends j = count (λ m. m.rollback && m.transaction == j)

-- Whether the row of a Safe Apply holds the plan of its rollback.
unfoldable pub intent : Option Record → ℕ
intent none = 0
intent (some s) = if is_some s.rollback then 1 else 0

sends_one :
    (j : ℕ) (l : List Sent) (p : Plan) → sends j (l ++ (rollback_of j p ∷ [])) ≡ sends j l + 1
unfolding sends
sends_one j [] p = ground arith
sends_one j (x ∷ xs) p = ground (arith, sends_one j xs p)

sends_other :
    (j id : ℕ) (l : List Sent) (p : Plan)
    → j ≢ id
    → sends j (l ++ (rollback_of id p ∷ [])) ≡ sends j l
unfolding sends
sends_other j id [] p n = ground arith
sends_other j id (x ∷ xs) p n = ground (arith, sends_other j id xs p n)

-- The intents pay for what has been sent.
abbrev pub Paid : ℕ → Engine → Engine → Type 0
Paid j e e' =
    sends j e'.sent + intent (lookup j (rows e)) ≤ sends j e.sent + intent (lookup j (rows e'))

intent_kept : (s s' : Record) → Evolves s s' → intent (some s) ≤ intent (some s')
unfolding intent
intent_kept s s' v = ground arith

-- What a dispatch adds to the rollbacks that were sent is added to the intent.
Dispatched-paid :
    (j : ℕ) (s s' : Record) (l l' : List Sent)
    → Dispatched j s s' l l'
    → (sends j l' ≡ sends j l)
      ⊎ ((sends j l' ≡ sends j l + 1) × (intent (some s) ≡ 0) × (intent (some s') ≡ 1))
unfolding intent
Dispatched-paid j s s' l l' (inl h) = inl (ap (sends j) h)
Dispatched-paid j s s' l l' (inr (p, fresh, now, grown)) =
    inr (ap (sends j) grown ∙ sends_one j l p, rw fresh refl, rw now refl)

paid :
    (j : ℕ) (e e' : Engine) (s s' : Record)
    → lookup j (rows e) ≡ some s
    → lookup j (rows e') ≡ some s'
    → intent (some s) ≤ intent (some s')
    → ((sends j e'.sent ≡ sends j e.sent)
        ⊎ ((sends j e'.sent ≡ sends j e.sent + 1) × (intent (some s) ≡ 0) × (intent (some s') ≡ 1)))
    → Paid j e e'
paid j e e' s s' h h' le d = rw h (rw h' (ground arith))

sends_others :
    (j id : ℕ) (s s' : Record) (l l' : List Sent)
    → j ≢ id
    → Dispatched id s s' l l'
    → sends j l' ≡ sends j l
sends_others j id s s' l l' n (inl h) = ap (sends j) h
sends_others j id s s' l l' n (inr (p, fresh, now, grown)) =
    ap (sends j) grown ∙ sends_other j id l p n

Effect-Paid_self :
    (j : ℕ) (s : Record) (e e' : Engine)
    → lookup j (rows e) ≡ some s
    → Effect j s e.sent (rows e) e'
    → Paid j e e'
Effect-Paid_self j s e e' h x =
    paid j e e' _ _ h x.here (intent_kept s x.next x.evolves)
      (Dispatched-paid j s x.next e.sent e'.sent x.dispatched)

Effect-Paid_other :
    (j id : ℕ) (s : Record) (e e' : Engine) → j ≢ id → Effect id s e.sent (rows e) e' → Paid j e e'
Effect-Paid_other j id s e e' n x =
    rw (x.others j n) (rw (sends_others j id s x.next e.sent e'.sent n x.dispatched) (ground arith))

Untouched-Paid : (j : ℕ) (e e' : Engine) → Untouched e e' → Paid j e e'
Untouched-Paid j e e' (same, kept) = rw same (rw kept (ground arith))

Stepped-Paid : (b : Budget) (v : Env) (id j : ℕ) (e e' : Engine) → Stepped b v id e e' → Paid j e e'
Stepped-Paid b v id j e e' (inl h) = Untouched-Paid j e e' h
Stepped-Paid b v id j e e' (inr (s, here, x)) = elim (decide j id) [
  | inl same ↦
      Effect-Paid_self j s e e' (subst (λ i. lookup i (rows e) ≡ some s) (sym same) here)
        (subst (λ i. Effect i s e.sent (rows e) e') (sym same) x)
  | inr other ↦ Effect-Paid_other j id s e e' other x
]

-- A record that is there stays, and evolves.
abbrev pub Kept : ℕ → Record → Engine → Type 0
Kept j s e = (s' : Record) × (lookup j (rows e) ≡ some s') × Evolves s s'

Stepped-Kept :
    (b : Budget) (v : Env) (id j : ℕ) (e e' : Engine) (s : Record)
    → Stepped b v id e e'
    → lookup j (rows e) ≡ some s
    → Kept j s e'
Stepped-Kept b v id j e e' s (inl h) here = (s, rw h.1 here, Evolves-refl s)
Stepped-Kept b v id j e e' s (inr (t, row, x)) here = elim (decide j id) [
  | inl same ↦
      let t-s = some-injective (sym row ∙ subst (λ i. lookup i (rows e) ≡ some s) same here) in
      (
        x.next,
        subst (λ i. lookup i (rows e') ≡ some x.next) (sym same) x.here,
        subst (λ z. Evolves z x.next) t-s x.evolves,
      )
  | inr other ↦ (s, x.others j other ∙ here, Evolves-refl s)
]

record_call-Untouched :
    (b : Budget) (o : Option Execution.Record) (observe : Plan → Outcome → Outcome) (now : Times)
    (f : Fault) (id : ℕ) (e : Engine)
    → Untouched e (reconcile_record b o observe now f id e).1
unfolding reconcile_record
record_call-Untouched b none observe now f id e = (refl, refl)
record_call-Untouched b (some r) observe now f id e =
    if_holds {A = Call} (λ y. Untouched e y.1) (Execution.terminal r.state) (ok tt, e) _
      (refl, refl) (outcome-Untouched b f id _ now e)

reconcile-Untouched :
    (b : Budget) (observe : Plan → Outcome → Outcome) (now : Times) (f : Fault) (id : ℕ)
    (e : Engine)
    → Untouched e (reconcile b observe now f id e).1
unfolding reconcile
reconcile-Untouched b observe now f id e =
    if_holds {A = Call} (λ y. Untouched e y.1) (claimed id e) (ok tt, e) _ (refl, refl)
      (record_call-Untouched b _ observe now f id (claim id e))

-- A turn of a worker on one execution, with all that it is told.
pub data Turn : Type 0 where
  watchdog : Env → ℕ → Turn
  reconciler : (Plan → Outcome → Outcome) → Times → Fault → ℕ → Turn

unfoldable pub turn : Budget → Turn → Engine → Engine
turn b (watchdog v id) e = (step b v id e).1
turn b (reconciler observe now f id) e = (reconcile b observe now f id e).1

unfoldable pub run : Budget → List Turn → Engine → Engine
unfolding turn
run b [] e = e
run b (a ∷ turns) e = run b turns (turn b a e)

pub turn-Paid : (b : Budget) (a : Turn) (j : ℕ) (e : Engine) → Paid j e (turn b a e)
unfolding turn
turn-Paid b (watchdog v id) j e = Stepped-Paid b v id j e (step b v id e).1 (step-Stepped b v id e)
turn-Paid b (reconciler observe now f id) j e =
    Untouched-Paid j e (reconcile b observe now f id e).1 (reconcile-Untouched b observe now f id e)

pub turn-Kept :
    (b : Budget) (a : Turn) (j : ℕ) (e : Engine) (s : Record)
    → lookup j (rows e) ≡ some s
    → Kept j s (turn b a e)
unfolding turn
turn-Kept b (watchdog v id) j e s here =
    Stepped-Kept b v id j e (step b v id e).1 s (step-Stepped b v id e) here
turn-Kept b (reconciler observe now f id) j e s here =
    (s, rw (reconcile-Untouched b observe now f id e).1 here, Evolves-refl s)

intent_le_one : (o : Option Record) → intent o ≤ 1
unfolding intent
intent_le_one none = ground arith
intent_le_one (some s) = ground arith

-- Over any run of the two workers, under any clocks, answers of the provider and of the probe,
-- and faults of the store: from an engine that has sent no rollback of a transaction without its
-- durable plan, at most one rollback of the transaction is ever sent, and only once its plan is in
-- the journal.
pub run-rollback_once :
    (b : Budget) (turns : List Turn) (j : ℕ) (e : Engine)
    → sends j e.sent ≤ intent (lookup j (rows e))
    → (sends j (run b turns e).sent ≤ intent (lookup j (rows (run b turns e))))
      × (sends j (run b turns e).sent ≤ 1)
unfolding run
run-rollback_once b [] j e h = (h, ground (arith, intent_le_one (lookup j (rows e))))
run-rollback_once b (a ∷ turns) j e h =
    run-rollback_once b turns j (turn b a e) (ground (arith, turn-Paid b a j e))

-- Over any run of the two workers a Safe Apply that is in the journal stays there. Its probe
-- policy and preparation deadline stay what they were, a confirmation deadline or a rollback plan
-- that is there is never replaced, no worker confirms it or takes a confirmation back, and a planned
-- rollback and a confirmation, given or awaited, exclude each other if they did before.
pub run-Evolves :
    (b : Budget) (turns : List Turn) (j : ℕ) (e : Engine) (s : Record)
    → lookup j (rows e) ≡ some s
    → (s' : Record) × (lookup j (rows (run b turns e)) ≡ some s') × Evolves s s'
unfolding run
run-Evolves b [] j e s here = (s, here, Evolves-refl s)
run-Evolves b (a ∷ turns) j e s here =
    let (t, row, first) = turn-Kept b a j e s here in
    let (u, last, rest) = run-Evolves b turns j (turn b a e) t row in
    (u, last, Evolves-trans first rest)
