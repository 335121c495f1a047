-- ===== src/Executions/Decision/Call/History.antt =====
-- internal/repository/executions: the reconciler, the watchdog and the decisions of users, on any
-- executions and in any order.
use ovs_webui.Prelude.{
  ℕ, ◌≤◌, ◌≡◌, ◌≢◌, ◌⊎◌, inl, inr, refl, sym, ◌∙◌, subst, ap, true, List, [], ◌∷◌, some, arith,
  lookup, update, lookup-update_self, lookup-update_ne,
}
use ovs_webui.Safety
use ovs_webui.Safety.{same_state}
use ovs_webui.Evidence.{Budget}
use ovs_webui.Requests.{Command, Digests}
use ovs_webui.Executions.{Engine}
use ovs_webui.Executions.Watchdog.Effect.{rows, Apart}
use ovs_webui.Executions.Watchdog.Rollback.{some-injective}
use ovs_webui.Executions.Watchdog.Run.{Turn, turn, sends, intent, Paid, turn-Paid, turn-Kept}
use ovs_webui.Executions.Decision.{Choice}
use ovs_webui.Executions.Decision.Call.{Visit, decide}
use ovs_webui.Executions.Decision.Call.Effect.{Decided, decide-Decided}

-- A turn of a worker, or a decision of a user, with all that it is told.
pub data Act : Type 0 where
  worker : Turn → Act
  user : Visit → Command → (id sequence : ℕ) → Choice → Act

unfoldable pub act : Digests → Budget → Act → Engine → Engine
act g b (worker a) e = turn b a e
act g b (user v c id sequence choice) e = (decide g b v c id sequence choice e).1

unfoldable pub history : Digests → Budget → List Act → Engine → Engine
history g b [] e = e
history g b (a ∷ acts) e = history g b acts (act g b a e)

same_or_other : (j id : ℕ) → (j ≡ id) ⊎ (j ≢ id)
same_or_other j id = ground arith

same_intent :
    (s next : Safety.Record) → next.rollback ≡ s.rollback → intent (some next) ≡ intent (some s)
unfolding intent
same_intent s next h = rw h refl

-- The row of one execution after a decision on another one or on itself.
Decided-row :
    (id j : ℕ) (e e' : Engine)
    → Decided id e e'
    → intent (lookup j (rows e')) ≡ intent (lookup j (rows e))
Decided-row id j e e' (sent, inl same) = ap (λ l. intent (lookup j l)) same
Decided-row id j e e' (sent, inr (s, next, here, wrote, planned, apart)) =
    elim (same_or_other j id) [
      | inl same ↦
          ap (λ l. intent (lookup j l)) wrote
          ∙ ap (λ i. intent (lookup i (update id next (rows e)))) same
          ∙ ap intent (lookup-update_self id next s (rows e) here)
          ∙ same_intent s next planned
          ∙ ap intent (sym here)
          ∙ ap (λ i. intent (lookup i (rows e))) (sym same)
      | inr other ↦
          ap (λ l. intent (lookup j l)) wrote
          ∙ ap intent (lookup-update_ne j id next (rows e) other)
    ]

Decided-Paid : (id j : ℕ) (e e' : Engine) → Decided id e e' → Paid j e e'
Decided-Paid id j e e' d =
    let row = Decided-row id j e e' d in let sent = ap (sends j) d.0 in omega arith

-- The row of an execution whose rollback and confirmation exclude each other.
abbrev pub Exclusive : ℕ → Engine → Type 0
Exclusive j e = (s : Safety.Record) × (lookup j (rows e) ≡ some s) × Apart s

Decided-Exclusive : (id j : ℕ) (e e' : Engine) → Decided id e e' → Exclusive j e → Exclusive j e'
Decided-Exclusive id j e e' (sent, inl same) (s, here, a) = (s, ap (lookup j) same ∙ here, a)
Decided-Exclusive id j e e' (sent, inr (t, next, row, wrote, planned, apart)) (s, here, a) =
    elim (same_or_other j id) [
      | inl same ↦
          let e1 = some-injective (sym here ∙ ap (λ i. lookup i (rows e)) same ∙ row) in
          (
            next,
            ap (lookup j) wrote
                ∙ ap (λ i. lookup i (update id next (rows e))) same
                ∙ lookup-update_self id next t (rows e) row,
            apart (subst Apart e1 a),
          )
      | inr other ↦ (s, ap (lookup j) wrote ∙ lookup-update_ne j id next (rows e) other ∙ here, a)
    ]

module _ (g : Digests) (b : Budget) (j : ℕ) where
  act-Paid : (a : Act) (e : Engine) → Paid j e (act g b a e)
  unfolding act
  act-Paid (worker a) e = turn-Paid b a j e
  act-Paid (user v c id sequence choice) e =
      Decided-Paid id j e (decide g b v c id sequence choice e).1
        (decide-Decided g b v c id sequence choice e)

  act-Exclusive : (a : Act) (e : Engine) → Exclusive j e → Exclusive j (act g b a e)
  unfolding act
  act-Exclusive (worker a) e (s, here, x) =
      let (s', row, evolves) = turn-Kept b a j e s here in (s', row, evolves.apart x)
  act-Exclusive (user v c id sequence choice) e x =
      Decided-Exclusive id j e (decide g b v c id sequence choice e).1
        (decide-Decided g b v c id sequence choice e) x

  kept_history :
      (acts : List Act) (e : Engine)
      → sends j e.sent ≤ intent (lookup j (rows e))
      → Exclusive j e
      → (sends j (history g b acts e).sent ≤ intent (lookup j (rows (history g b acts e))))
        × Exclusive j (history g b acts e)
  unfolding history
  kept_history [] e h x = (h, x)
  kept_history (a ∷ acts) e h x =
      kept_history acts (act g b a e) (let p = act-Paid a e in omega arith) (act-Exclusive a e x)

unsent :
    (s : Safety.Record) (n : ℕ)
    → Apart s
    → n ≤ intent (some s)
    → (n ≤ 1) × (same_state s.state Safety.confirmed ≡ true → n ≡ 0)
unfolding intent
unsent s n a h = ground arith

-- Over any run of the two workers and of decisions of users: from an engine that has sent no rollback
-- of a Safe Apply without its durable plan, and where it is not both planned and confirmed or
-- awaiting a confirmation, at most one rollback of it is ever sent, and none of one that is
-- confirmed in the end.
pub history-exclusive :
    (g : Digests) (b : Budget) (acts : List Act) (j : ℕ) (e : Engine) (s : Safety.Record)
    → lookup j (rows e) ≡ some s
    → Apart s
    → sends j e.sent ≤ intent (lookup j (rows e))
    → (s' : Safety.Record) × (lookup j (rows (history g b acts e)) ≡ some s')
      × (sends j (history g b acts e).sent ≤ 1)
      × (same_state s'.state Safety.confirmed ≡ true → sends j (history g b acts e).sent ≡ 0)
history-exclusive g b acts j e s here a h =
    let (le, (s', row, apart)) = kept_history g b j acts e h (s, here, a) in
    let (one, none_sent) =
      unsent s' (sends j (history g b acts e).sent) apart
        (subst (λ o. sends j (history g b acts e).sent ≤ intent o) row le) in
    (s', row, one, none_sent)
