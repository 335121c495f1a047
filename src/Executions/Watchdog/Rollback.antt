-- ===== src/Executions/Watchdog/Rollback.antt =====
-- `rollback` and the branches of `safetyStep` that reach it, by their effect on the Safe Apply.
use ovs_webui.Prelude.{
  ℕ, ◌≡◌, ◌⊎◌, inl, inr, refl, sym, ◌∙◌, subst, ap, Bool, true, false, String, List, [], ◌∷◌, ◌++◌,
  Option, none, some, arith, lookup, update, if◌then◌else◌, lookup-update_self, lookup-update_ne,
}
use ovs_webui.Execution
use ovs_webui.Execution.{Plan, Outcome, same_commit}
use ovs_webui.Safety.{Record, same_state, State}
use ovs_webui.Store.{ok, err, Fault, write_retired, unavailable}
use ovs_webui.Evidence.{Budget}
use ovs_webui.Executions.{Engine, Sent, Call, read_record}
use ovs_webui.Executions.Watchdog.{
  Env, hold, save, save_safety, rolling, replied, reread, send, commit, read_safety,
}
use ovs_webui.Executions.Watchdog.Frames.{read_record-row, read_safety-row}
use ovs_webui.Executions.Watchdog.Effect.{
  rows, rollback_of, Evolves, Dispatched, Effect, idle-Effect, Saved, save-Saved, Saved-Effect,
}

pub some-injective : {A : Type 0} {x y : A} → some x ≡ some y → x ≡ y
some-injective h = cc

pub Evolves-trans : {s t u : Record} → Evolves s t → Evolves t u → Evolves s u
Evolves-trans a b = record {
  domain = b.domain ∙ a.domain;
  preparation = b.preparation ∙ a.preparation;
  confirmation = ground arith;
  rollback = ground arith;
  confirmed = b.confirmed ∙ a.confirmed;
  apart = λ x. b.apart (a.apart x);
}

durable-Dispatched :
    (id : ℕ) (p : Plan) (s t u : Record) (l l1 l2 : List Sent)
    → s.rollback ≡ none
    → t.rollback ≡ some p
    → ((t.rollback ≡ none) ⊎ (u.rollback ≡ t.rollback))
    → ((l1 ≡ l) ⊎ (l1 ≡ l ++ (rollback_of id p ∷ [])))
    → Dispatched id t u l1 l2
    → Dispatched id s u l l2
durable-Dispatched id p s t u l l1 l2 a c d (inl f) g = ground arith
durable-Dispatched id p s t u l l1 l2 a c d (inr f) (inl g) = inr (p, a, ground arith, g ∙ f)
durable-Dispatched id p s t u l l1 l2 a c d (inr f) (inr g) = ground arith

-- The same effect, from engines with the same rows and the same calls.
pub from-Effect :
    (id : ℕ) (s : Record) (e e1 e2 : Engine)
    → e1.sent ≡ e.sent
    → rows e1 ≡ rows e
    → Effect id s e1.sent (rows e1) e2
    → Effect id s e.sent (rows e) e2
from-Effect id s e e1 e2 a c x =
    subst (λ l. Effect id s l (rows e) e2) a (subst (λ m. Effect id s e1.sent m e2) c x)

-- A property of both branches is one of the conditional.
pub if_holds :
    {A : Type 0} (P : A → Type 0) (c : Bool) (x y : A) → P x → P y → P (if c then x else y)
if_holds P true x y p q = p
if_holds P false x y p q = q

module _ (b : Budget) where
  -- A write of a record that follows the one of the row.
  pub save-Effect :
      (f : Fault) (r : Execution.Record) (s s' : Record) (now : ℕ) (e : Engine)
      → lookup r.id (rows e) ≡ some s
      → Evolves s s'
      → Effect r.id s e.sent (rows e) (save b f r s' now e).1
  save-Effect f r s s' now e h v =
      Saved-Effect r.id s s' e (save b f r s' now e) h v (save-Saved b f r s' now e)

  -- `holdSafety` of a record that follows the one of the row.
  pub hold-Effect :
      (f : Fault) (r : Execution.Record) (s s' : Record) (to : State) (why : String) (now : ℕ)
      (e : Engine)
      → lookup r.id (rows e) ≡ some s
      → Evolves s s'
      → same_state to State.confirmed ≡ same_state s.state State.confirmed
      → (same_state to State.awaiting_confirmation ≡ false)
        × (same_state to State.confirmed ≡ false)
      → Effect r.id s e.sent (rows e) (hold b f r s' to why now e).1
  unfolding hold
  hold-Effect f r s s' to why now e h v c w =
      if_holds {A = Call} (λ y. Effect r.id s e.sent (rows e) y.1) _ (ok tt, e)
        (save b f r (record s' { state = to; reason = why; healthy_at = none }) now e)
        (idle-Effect r.id s e h)
        (save-Effect f r s _ now e h (record {
          domain = v.domain;
          preparation = v.preparation;
          confirmation = v.confirmation;
          rollback = v.rollback;
          confirmed = c;
          apart = λ x. inr w;
        }))

  -- The journal is read again, and the reply is saved over what is found.
  reread-Effect :
      (v : Env) (id : ℕ) (s : Record) (e : Engine) (o : Option Execution.Record) (q : Option Record)
      → lookup id (rows e) ≡ some s
      → Evolves s (replied b s v.reply)
      → read_record id e ≡ o
      → read_safety id e ≡ q
      → Effect id s e.sent (rows e) (reread b v id o q e).1
  unfolding reread
  reread-Effect v id s e (some r) (some q) h ev found row =
      let same = some-injective (sym h ∙ read_safety-row id e q row) in
      let own = (read_record-row id e r found).0 in
      subst
        (λ i.
          Effect i s e.sent (rows e)
            (save b v.second_fault r (replied b q v.reply) v.second_save e).1)
        own
        (save-Effect v.second_fault r s (replied b q v.reply) v.second_save e
          (subst (λ i. lookup i (rows e) ≡ some s) (sym own) h)
          (subst (λ z. Evolves s (replied b z v.reply)) same ev))
  reread-Effect v id s e (some r) none h ev found row = idle-Effect id s e h
  reread-Effect v id s e none q h ev found row = idle-Effect id s e h

  module _ (v : Env) (r : Execution.Record) (s0 s : Record) (p : Plan) (e : Engine)
      (here : lookup r.id (rows e) ≡ some s0) (before : Evolves s0 s) (fresh : s0.rollback ≡ none)
      (open_state : same_state s0.state State.confirmed ≡ false) where
    rolling-Evolves : Evolves s0 (rolling b s p)
    unfolding rolling
    rolling-Evolves = record {
      domain = before.domain;
      preparation = before.preparation;
      confirmation = before.confirmation;
      rollback = inl fresh;
      confirmed = sym open_state;
      apart = λ x. inr (refl, refl);
    }

    rolling-plan : (rolling b s p).rollback ≡ some p
    unfolding rolling
    rolling-plan = refl

    held-Evolves : Evolves s0 (record (rolling b s p) { rollback = none })
    unfolding rolling
    held-Evolves = record {
      domain = before.domain;
      preparation = before.preparation;
      confirmation = before.confirmation;
      rollback = inl fresh;
      confirmed = sym open_state;
      apart = λ x. inl refl;
    }

    replied-Evolves : Evolves (rolling b s p) (replied b (rolling b s p) v.reply)
    unfolding rolling replied
    replied-Evolves =
        if_holds (Evolves (rolling b s p)) (same_commit v.reply.commit Execution.Commit.rejected) _
          _
          (record {
            domain = refl;
            preparation = refl;
            confirmation = inr refl;
            rollback = inr refl;
            confirmed = refl;
            apart = λ x. inr (refl, refl);
          })
          (record {
            domain = refl;
            preparation = refl;
            confirmation = inr refl;
            rollback = inr refl;
            confirmed = refl;
            apart = λ x. inr (refl, refl);
          })

    -- After the rollback's intent is durable.
    durable-Effect :
        (e1 e2 : Engine)
        → rows e1 ≡ update r.id (rolling b s p) (rows e)
        → (e1.sent ≡ e.sent) ⊎ (e1.sent ≡ e.sent ++ (rollback_of r.id p ∷ []))
        → Effect r.id (rolling b s p) e1.sent (rows e1) e2
        → Effect r.id s0 e.sent (rows e) e2
    durable-Effect e1 e2 wrote sent x = record {
      others = λ j n. x.others j n ∙ ap (lookup j) wrote ∙ lookup-update_ne j r.id _ (rows e) n;
      next = x.next;
      here = x.here;
      evolves = Evolves-trans rolling-Evolves x.evolves;
      dispatched =
          durable-Dispatched r.id p s0 (rolling b s p) x.next e.sent e1.sent e2.sent fresh
            rolling-plan x.evolves.rollback sent x.dispatched;
    }

    durable-row :
        (e1 : Engine)
        → rows e1 ≡ update r.id (rolling b s p) (rows e)
        → lookup r.id (rows e1) ≡ some (rolling b s p)
    durable-row e1 wrote = rw wrote (lookup-update_self r.id (rolling b s p) s0 (rows e) here)

    replied-Effect :
        (e1 : Engine)
        → rows e1 ≡ update r.id (rolling b s p) (rows e)
        → (e1.sent ≡ e.sent) ⊎ (e1.sent ≡ e.sent ++ (rollback_of r.id p ∷ []))
        → Effect r.id s0 e.sent
            (rows e)
            (reread b v r.id (read_record r.id e1) (read_safety r.id e1) e1).1
    replied-Effect e1 wrote sent = durable-Effect e1 _ wrote sent (
        reread-Effect v r.id (rolling b s p) e1 _ _ (durable-row e1 wrote) replied-Evolves refl
          refl)

    retired-save :
        (s' : Record) (e1 : Engine)
        → e1.store.writable ≡ false
        → Effect r.id s0 e.sent (rows e) e1
        → Effect r.id s0 e.sent (rows e) (save b v.second_fault r s' v.second_save e1).1
    unfolding save
    retired-save s' e1 off x =
        rw (write_retired v.second_fault (save_safety b r s' v.second_save) e1.store off) x

    -- A retired writer holds nothing.
    retired-Effect :
        (e1 : Engine)
        → rows e1 ≡ update r.id (rolling b s p) (rows e)
        → e1.sent ≡ e.sent
        → e1.store.writable ≡ false
        → Effect r.id s0 e.sent
            (rows e)
            (hold b v.second_fault r
              (record (rolling b s p) { rollback = none })
              State.recovery_required
              "rollback-not-dispatched"
              v.second_save
              e1).1
    unfolding hold save
    retired-Effect e1 wrote sent off =
        let idle =
          durable-Effect e1 e1 wrote (inl sent)
            (idle-Effect r.id (rolling b s p) e1 (durable-row e1 wrote)) in
        if_holds {A = Call} (λ y. Effect r.id s0 e.sent (rows e) y.1) _ (ok tt, e1)
          (save b v.second_fault r
            (record (rolling b s p) {
              rollback = none;
              state = State.recovery_required;
              reason = "rollback-not-dispatched";
              healthy_at = none;
            })
            v.second_save e1)
          idle (retired-save _ e1 off idle)

    -- What `Commit` leaves, from what `beforeSend` left.
    send-Effect :
        (y : Call)
        → Saved r.id (rolling b s p) e y
        → Effect r.id s0 e.sent (rows e) (send b v r s p y).1
    unfolding send
    send-Effect (ok x, e1) saved = elim saved.wrote [
      | inl w ↦ cc
      | inr w ↦
          if_holds
            (λ z.
              Effect r.id s0 e.sent (rows e)
                (reread b v r.id (read_record r.id z) (read_safety r.id z) z).1)
            v.writes (record e1 { sent = e1.sent ++ (rollback_of r.id p ∷ []) }) e1
            (replied-Effect (record e1 { sent = e1.sent ++ (rollback_of r.id p ∷ []) }) w.0
              (inr (ap (λ l. l ++ (rollback_of r.id p ∷ [])) saved.sent)))
            (replied-Effect e1 w.0 (inl saved.sent))
    ]
    send-Effect (err x, e1) saved = elim saved.wrote [
      | inl w ↦ from-Effect r.id s0 e e1 _ saved.sent w.0 (
          hold-Effect v.second_fault r s0 _ _ _ v.second_save e1 (rw w.0 here) held-Evolves
            (sym open_state) (refl, refl))
      | inr w ↦ elim w.1 [ inl h ↦ cc | inr off ↦ retired-Effect e1 w.0 saved.sent off ]
    ]

    pub commit-Effect : Effect r.id s0 e.sent (rows e) (commit b v r s p e).1
    unfolding commit
    commit-Effect =
        if_holds {A = Call} (λ y. Effect r.id s0 e.sent (rows e) y.1) v.reaches_send _ _
          (send-Effect (save b v.first_fault r (rolling b s p) v.first_save e)
            (save-Saved b v.first_fault r (rolling b s p) v.first_save e))
          (send-Effect (err unavailable, e)
            (record { sent = refl; wrote = inl (refl, unavailable, refl) }))
