-- ===== src/Executions/Watchdog/Effect.antt =====
-- What one call of the watchdog may do to the rows of Safe Applies and to the provider.
use ovs_webui.Prelude.{
  ℕ, ◌≡◌, ◌≢◌, ◌⊎◌, inl, inr, refl, sym, ap, true, false, List, [], ◌∷◌, ◌++◌, none, some, lookup,
  update, lookup-update_self, lookup-update_ne,
}
use ovs_webui.Execution
use ovs_webui.Execution.{Plan, Outcome}
use ovs_webui.Safety.{Record, same_state, State}
use ovs_webui.Store.{
  ok-injective, Error, Tables, Tx, guard-ok, one-ok, Result, ok, err, Store, Fault, write,
  write-Written, Written,
}
use ovs_webui.Evidence.{Budget}
use ovs_webui.Executions.{Engine, Sent, Call, in_store}
use ovs_webui.Executions.Watchdog.{save, save_safety, refresh}
use ovs_webui.Executions.Watchdog.Frames.{save_safety-safe_applies}

abbrev pub Rows : Type 0
Rows = List (ℕ × Record)

-- The rows of Safe Applies of an engine.
abbrev pub rows : Engine → Rows
rows e = e.store.tables.safe_applies

abbrev pub rollback_of : ℕ → Plan → Sent
rollback_of id p = record { transaction = id; rollback = true; plan = p }

-- A Safe Apply whose rollback is planned neither waits for a confirmation nor has one.
abbrev pub Apart : Record → Type 0
Apart s =
    (s.rollback ≡ none)
    ⊎ ((same_state s.state State.awaiting_confirmation ≡ false)
        × (same_state s.state State.confirmed ≡ false))

-- How a record may change: the probe policy and the preparation deadline stay, a confirmation
-- deadline and a rollback plan are kept once they are there, it is not confirmed, and a planned
-- rollback and a confirmation exclude each other if they did before.
pub record Evolves (s s' : Record) : Type 0 where
  pub domain : s'.domain ≡ s.domain
  pub preparation : s'.preparation ≡ s.preparation
  pub confirmation : (s.confirmation ≡ none) ⊎ (s'.confirmation ≡ s.confirmation)
  pub rollback : (s.rollback ≡ none) ⊎ (s'.rollback ≡ s.rollback)
  pub confirmed : same_state s'.state State.confirmed ≡ same_state s.state State.confirmed
  pub apart : Apart s → Apart s'

-- What has been sent since: nothing, or one rollback of a record that had none, now with its plan.
abbrev pub Dispatched : ℕ → Record → Record → List Sent → List Sent → Type 0
Dispatched id s s' l l' =
    (l' ≡ l)
    ⊎ ((p : Plan) × (s.rollback ≡ none)
        × (s'.rollback ≡ some p)
        × (l' ≡ l ++ (rollback_of id p ∷ [])))

-- The effect of a call on the Safe Apply `s` of the identifier.
pub record Effect (id : ℕ) (s : Record) (l : List Sent) (m : Rows) (e : Engine) : Type 0 where
  pub others : (j : ℕ) → j ≢ id → lookup j (rows e) ≡ lookup j m
  pub next : Record
  pub here : lookup id (rows e) ≡ some next
  pub evolves : Evolves s next
  pub dispatched : Dispatched id s next l e.sent

pub Evolves-refl : (s : Record) → Evolves s s
Evolves-refl s = record {
  domain = refl;
  preparation = refl;
  confirmation = inr refl;
  rollback = inr refl;
  confirmed = refl;
  apart = λ x. x;
}

-- A call that leaves the rows and the provider alone.
pub idle-Effect :
    (id : ℕ) (s : Record) (e : Engine) → lookup id (rows e) ≡ some s → Effect id s e.sent (rows e) e
idle-Effect id s e h = record {
  others = λ j n. refl;
  next = s;
  here = h;
  evolves = Evolves-refl s;
  dispatched = inl refl;
}

-- One write of a record, with what its result says.
pub record Saved (id : ℕ) (s : Record) (e : Engine) (y : Call) : Type 0 where
  pub sent : y.1.sent ≡ e.sent
  pub wrote :
      ((rows y.1 ≡ rows e) × (x : Error) × (y.0 ≡ err x))
      ⊎ ((rows y.1 ≡ update id s (rows e)) × ((y.0 ≡ ok tt) ⊎ (y.1.store.writable ≡ false)))

Written-Saved :
    (id : ℕ) (s : Record) (e : Engine) (m : Tx (Unit {0})) (y : Result (Unit {0}) × Store)
    → ((u : Tables)
        → m e.store.tables ≡ ok (tt, u)
        → u.safe_applies ≡ update id s e.store.tables.safe_applies)
    → Written m e.store y
    → Saved id s e (in_store y e)
Written-Saved id s e m (x, st) effect (inl (same, er, h)) = record {
  sent = refl;
  wrote = inl (ap (λ z. z.safe_applies) same, er, h);
}
Written-Saved id s e m (x, st) effect (inr (tt, done, h)) = record {
  sent = refl;
  wrote = inr (effect st.tables done, h);
}

pub save-Saved :
    (b : Budget) (f : Fault) (r : Execution.Record) (s : Record) (now : ℕ) (e : Engine)
    → Saved r.id s e (save b f r s now e)
unfolding save
save-Saved b f r s now e =
    Written-Saved r.id s e (save_safety b r s now) (write f (save_safety b r s now) e.store)
      (λ u. save_safety-safe_applies b e.store.tables u r s now)
      (write-Written f (save_safety b r s now) e.store)

refresh-safe_applies :
    (b : Budget) (r : Execution.Record) (s : Record) (t u : Tables)
    → refresh b r s t ≡ ok (tt, u)
    → u.safe_applies ≡ update r.id s t.safe_applies
unfolding refresh
refresh-safe_applies b r s t u h =
    let (current, found, h1) = one-ok _ _ _ _ h in
    let (e, h2) = guard-ok _ _ _ _ h1 in ap (λ z. z.safe_applies) (sym (ok-injective h2).1)

pub refresh-Saved :
    (b : Budget) (f : Fault) (r : Execution.Record) (s : Record) (e : Engine)
    → Saved r.id s e (in_store (write f (refresh b r s) e.store) e)
refresh-Saved b f r s e =
    Written-Saved r.id s e (refresh b r s) (write f (refresh b r s) e.store)
      (refresh-safe_applies b r s e.store.tables) (write-Written f (refresh b r s) e.store)

-- A write of a record that follows the one that is there.
pub Saved-Effect :
    (id : ℕ) (s s' : Record) (e : Engine) (y : Call)
    → lookup id (rows e) ≡ some s
    → Evolves s s'
    → Saved id s' e y
    → Effect id s e.sent (rows e) y.1
Saved-Effect id s s' e y h v saved = elim saved.wrote [
  | inl w ↦ record {
    others = λ j n. ap (lookup j) w.0;
    next = s;
    here = rw w.0 h;
    evolves = Evolves-refl s;
    dispatched = inl saved.sent;
  }
  | inr w ↦ record {
    others = λ j n. rw w.0 (lookup-update_ne j id s' (rows e) n);
    next = s';
    here = rw w.0 (lookup-update_self id s' s (rows e) h);
    evolves = v;
    dispatched = inl saved.sent;
  }
]
