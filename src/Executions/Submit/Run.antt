-- ===== src/Executions/Submit/Run.antt =====
-- internal/repository/executions/engine.go: what `run` sends, and that it leaves the claims alone.
use ovs_webui.Prelude.{
  ℕ, ◌≡◌, refl, ap, ◌⊎◌, inl, inr, Bool, true, false, List, [], ◌∷◌, ◌++◌, Option, none, some,
  if◌then◌else◌,
}
use ovs_webui.Execution.{Authorization, Plan, committed, same_commit}
use ovs_webui.Store.{Error, Result, ok, err, write}
use ovs_webui.Evidence.{Budget}
use ovs_webui.Executions.{Engine, Call, Sent, release, in_store}
use ovs_webui.Executions.Submit.{
  Work, let_go, lease_checked, provider_commit, reply_observed, run_worker, work,
}

-- The change of a plan, as it is sent.
abbrev pub planned : ℕ → Plan → Sent
planned id p = record { transaction = id; rollback = false; plan = p }

-- The claims are those given, and at most the planned change was sent.
abbrev pub Ran : ℕ → Plan → Engine → List ℕ → Engine → Type 0
Ran id p e active e' =
    ((e'.sent ≡ e.sent) ⊎ (e'.sent ≡ e.sent ++ (planned id p ∷ []))) × (e'.active ≡ active)

either : {A : Type 0} (P : A → Type 0) (k : Bool) (x y : A) → P x → P y → P (if k then x else y)
either P true x y h h' = h
either P false x y h h' = h'

module _ (b : Budget) (w : Work) (id : ℕ) (c : Authorization) (safe : Bool) (p : Plan) where
  Ran-refl : (e : Engine) → Ran id p e e.active e
  Ran-refl e = (inl refl, refl)

  let_go-Ran :
      (e : Engine) (x : Result (Unit {0}) × ovs_webui.Store.Store)
      → Ran id p e e.active (let_go b w id c safe p (in_store x e))
  unfolding let_go
  let_go-Ran e (err y, s) = (inl refl, refl)
  let_go-Ran e (ok u, s) =
      either (Ran id p e e.active) w.writes _ _ (inr refl, refl) (inl refl, refl)

  lease_checked-Ran :
      (e : Engine) (o : Option Error)
      → Ran id p e e.active (let_go b w id c safe p (lease_checked b w id c safe p o e))
  unfolding lease_checked let_go
  lease_checked-Ran e (some x) = Ran-refl e
  lease_checked-Ran e none = let_go-Ran e _

  commit-Ran : (e : Engine) → Ran id p e e.active (provider_commit b w id c safe p e)
  unfolding provider_commit
  commit-Ran e =
      either (Ran id p e e.active) w.reaches_send _ _ (lease_checked-Ran e w.lease) (Ran-refl e)

  observed-Ran :
      (e : Engine) (x : Call)
      → Ran id p e e.active x.1
      → Ran id p e e.active (reply_observed b w id c safe p x).1
  unfolding reply_observed
  observed-Ran e (err y, e') h = h
  observed-Ran e (ok u, e') h =
      either (λ (z : Call). Ran id p e e.active z.1) (same_commit w.reply.commit committed) _ _ h h

  -- `run` sends the planned change at most once, and nothing else; the claim is given back.
  pub work-Ran : (e : Engine) → Ran id p e (release id e).active (work b w id c safe p e).1
  unfolding work run_worker
  work-Ran e =
      let (sent, active) = observed-Ran e _ (commit-Ran e) in
      (sent, ap (λ z. (release id (record e { active = z })).active) active)
