-- ===== src/SpanningTree/Execution/Install.antt =====
-- What a compatible verdict promises. The daemon is not part of the repository: its RSTP setters
-- are a parameter, with the behaviour that the comments in internal/spanningtree rely on.
use ovs_webui.Prelude.{
  String, ℕ, ◌-◌, ◌*◌, ◌≤◌, ◌≡◌, refl, subst, ◌≢◌, ap, ◌∙◌, sym, ◌⊎◌, inl, inr, Bool, true, [],
  Option, none, some, arith,
}
use ovs_webui.SpanningTree.Parameters.{Other, validate, valid, unavailable}
use ovs_webui.SpanningTree.Parameters.Spec.{Denotes, Settings, IsAdmissible, validate_sound}
use ovs_webui.SpanningTree.Runtime.{
  Configuration, Timers, Protocol, stp, rstp, disabled, unknown, Runtime, protocol, number, atoi,
  values, expected_local,
}
use ovs_webui.SpanningTree.Transition.{
  compatible, admitted, protocol_of_valid, order_checks, same_protocol, assess_transition,
}
use ovs_webui.SpanningTree.Execution.{assess_setter_order, assess_execution_transition}

-- The native RSTP setters. Each checks the value that its peer has at the time, and an engine that
-- is created has the forward delay 15.
pub record Setters : Type 0 where
  pub set_max_age : ℕ → Timers → Timers
  pub set_forward_delay : ℕ → Timers → Timers
  pub created : Timers
  pub max_age_installs :
      (age : ℕ) (t : Timers)
      → age ≤ 2 * (t.forward_delay - 1)
      → set_max_age age t ≡ record t { max_age = age }
  pub forward_delay_installs :
      (delay : ℕ) (t : Timers)
      → t.max_age ≤ 2 * (delay - 1)
      → set_forward_delay delay t ≡ record t { forward_delay = delay }
  pub created_delay : created.forward_delay ≡ 15
  pub created_hello : created.hello_time ≡ 2

-- The order in which the daemon installs a configuration.
abbrev pub install : Setters → Timers → Timers → Timers
install d target t = d.set_forward_delay target.forward_delay (d.set_max_age target.max_age t)

-- Numbers read by `number` are those that the configuration denotes.
number-Denotes :
    (m : Other) (key : String) (fallback n : ℕ)
    → Denotes (m key) fallback n
    → number (some m) key fallback ≡ n
unfolding number atoi
number-Denotes m key fallback n d = ground arith

-- A configuration that passed validation: its flags, its map and its numbers.
record IsChecked (c : Configuration) (s : Settings) : Type 0 where
  stp_flag : Bool
  rstp_flag : Bool
  map_of : Other
  stp_eq : c.stp ≡ some stp_flag
  rstp_eq : c.rstp ≡ some rstp_flag
  other_eq : c.other ≡ some map_of
  rules : IsAdmissible stp_flag rstp_flag map_of s

checked :
    (a b : Option Bool) (m : Option Other)
    → (validate a b m).state ≡ valid
    → (s : Settings) × IsChecked (record { stp = a; rstp = b; other = m }) s
checked (some a) (some b) (some m) h =
    let (s, r) = validate_sound a b m h in
    (
      s,
      record {
        stp_flag = a;
        rstp_flag = b;
        map_of = m;
        stp_eq = refl;
        rstp_eq = refl;
        other_eq = refl;
        rules = r;
      },
    )
checked (some a) (some b) none h = unfold validate unavailable in cc
checked (some a) none m h = unfold validate unavailable in cc
checked none b m h = unfold validate unavailable in cc

admitted-valid :
    (c : Configuration) → admitted c ≡ true → (validate c.stp c.rstp c.other).state ≡ valid
unfolding admitted
admitted-valid c h = ground arith

admitted-IsChecked : (c : Configuration) → admitted c ≡ true → (s : Settings) × IsChecked c s
admitted-IsChecked c h = checked c.stp c.rstp c.other (admitted-valid c h)

-- On what validation admits, the two readings of the flags agree.
protocol-eq-of_valid :
    (c : Configuration) {s : Settings} → IsChecked c s → protocol c ≡ protocol_of_valid c
unfolding protocol protocol_of_valid
protocol-eq-of_valid c h = ground (arith, h.rules.one_protocol)

rstp_timers :
    (c : Configuration) {s : Settings}
    → IsChecked c s
    → values rstp c ≡ record {
      priority = s.rstp_priority;
      system_id = "";
      timers = record { hello_time = 2; max_age = s.rstp_age; forward_delay = s.rstp_delay };
    }
unfolding values
rstp_timers c {s} h =
    let r = h.rules.reads in
    rw (
      h.other_eq,
      number-Denotes h.map_of "rstp-priority" 32768 _ r.rstp_priority.0,
      number-Denotes h.map_of "rstp-max-age" 20 _ r.rstp_age.0,
      number-Denotes _ _ _ _ r.rstp_delay.0,
    )

install_lem :
    (d : Setters) (target t : Timers)
    → target.hello_time ≡ t.hello_time
    → target.max_age ≤ 2 * (t.forward_delay - 1)
    → target.max_age ≤ 2 * (target.forward_delay - 1)
    → install d target t ≡ target
install_lem d target t hello peer own =
    ap (d.set_forward_delay target.forward_delay) (d.max_age_installs target.max_age t peer)
    ∙ (d.forward_delay_installs target.forward_delay (record t { max_age = target.max_age }) own
        ∙ ground arith)

same_protocol-eq : (p q : Protocol) → same_protocol p q ≡ true → p ≡ q
same_protocol-eq p q h = ground arith

-- What `AssessTransition` has checked where it says compatible.
record Facts (before after : Configuration) (installed : Runtime) (p : Protocol) : Type 0 where
  before_admitted : admitted before ≡ true
  after_admitted : admitted after ≡ true
  before_protocol : protocol_of_valid before ≡ p
  after_protocol : protocol_of_valid after ≡ p
  installed_protocol : installed.protocol ≡ p
  installed_timers : installed.local.timers ≡ (values p before).timers
  ordered : order_checks p (values p before).timers (values p after).timers ≡ []

compatible-Facts :
    (before after : Configuration) (installed : Runtime)
    → (assess_transition before after installed).state ≡ compatible
    → Facts before after installed (protocol_of_valid before)
unfolding assess_transition
compatible-Facts before after installed h = ground arith

order_checks-rstp :
    (b a : Timers)
    → order_checks rstp b a ≡ []
    → (a.max_age ≤ 2 * (b.forward_delay - 1)) × (b.max_age ≤ 2 * (a.forward_delay - 1))
unfolding order_checks
order_checks-rstp b a h = ground arith

-- The timers of an admitted rstp configuration fit one another.
abbrev AreOwn : Timers → Type 0
AreOwn t = (t.hello_time ≡ 2) × (t.max_age ≤ 2 * (t.forward_delay - 1))

rstp_own : (c : Configuration) → admitted c ≡ true → AreOwn (values rstp c).timers
rstp_own c h =
    let (s, k) = admitted-IsChecked c h in
    rw (rstp_timers c k) (refl, omega (arith, k.rules.rstp_age_delay))

-- The order checks on the numbers of two admitted configurations let each image be installed over
-- the other.
round_trip :
    (d : Setters) (before after : Configuration)
    → admitted before ≡ true
    → admitted after ≡ true
    → let b = (values rstp before).timers in
      let a = (values rstp after).timers in
      order_checks rstp b a ≡ [] → (install d a b ≡ a) × (install d b a ≡ b)
round_trip d before after hb ha ordered =
    let (b2, bd) = rstp_own before hb in
    let (a2, ad) = rstp_own after ha in
    let (forward, back) = order_checks-rstp _ _ ordered in
    (
      install_lem d (values rstp after).timers (values rstp before).timers (a2 ∙ sym b2) forward ad,
      install_lem d (values rstp before).timers (values rstp after).timers (b2 ∙ sym a2) back bd,
    )

expected_local-rstp : (c : Configuration) → protocol c ≡ rstp → expected_local c ≡ values rstp c
unfolding expected_local
expected_local-rstp c p = ap (λ q. values q c) p

protocol_of_admitted : (c : Configuration) → admitted c ≡ true → protocol c ≡ protocol_of_valid c
protocol_of_admitted c h = protocol-eq-of_valid c (admitted-IsChecked c h).1

-- A change of an rstp configuration that `AssessTransition` calls compatible starts from the timers
-- that the daemon reports; the setters install the new image over them, and restore the old one.
pub assess_transition_installs :
    (d : Setters) (before after : Configuration) (installed : Runtime)
    → (assess_transition before after installed).state ≡ compatible
    → protocol before ≡ rstp
    → let old = (expected_local before).timers in
      let new = (expected_local after).timers in
      (protocol after ≡ rstp)
      × (installed.local.timers ≡ old)
      × (install d new old ≡ new)
      × (install d old new ≡ old)
assess_transition_installs d before after installed h p =
    let f0 = compatible-Facts before after installed h in
    let q = sym (protocol_of_admitted before f0.before_admitted) ∙ p in
    let f = subst (Facts before after installed) q f0 in
    let pa = protocol_of_admitted after f.after_admitted ∙ f.after_protocol in
    let (forward, back) = round_trip d before after f.before_admitted f.after_admitted f.ordered in
    rw (expected_local-rstp before p, expected_local-rstp after pa)
      (pa, f.installed_timers, forward, back)

-- What `AssessSetterOrder` has checked where it says compatible.
setter_order_created :
    (before after : Configuration)
    → (assess_setter_order before after).state ≡ compatible
    → protocol before ≢ rstp
    → protocol after ≡ rstp
    → (admitted after ≡ true) × ((expected_local after).timers.max_age ≤ 28)
unfolding assess_setter_order
setter_order_created before after h n p = ground arith

-- A switch to rstp that `AssessSetterOrder` calls compatible: the setters, run once on the engine
-- that the daemon has just created, install exactly the timers of the new image.
pub assess_setter_order_installs :
    (d : Setters) (before after : Configuration)
    → (assess_setter_order before after).state ≡ compatible
    → protocol before ≢ rstp
    → protocol after ≡ rstp
    → install d (expected_local after).timers d.created ≡ (expected_local after).timers
assess_setter_order_installs d before after h n p =
    let (ha, bound) = setter_order_created before after h n p in
    let e = expected_local-rstp after p in
    let (two, own) = rstp_own after ha in
    rw e (
      install_lem d (values rstp after).timers d.created (two ∙ sym d.created_hello)
        (omega (arith, d.created_delay, rw e at bound)) own)

execution_same :
    (before after : Configuration) (installed : Runtime)
    → (assess_execution_transition before after installed).state ≡ compatible
    → protocol before ≡ rstp
    → protocol after ≡ rstp
    → (assess_transition before after installed).state ≡ compatible
unfolding assess_execution_transition
execution_same before after installed h p q = ground arith

execution_switch :
    (before after : Configuration) (installed : Runtime)
    → (assess_execution_transition before after installed).state ≡ compatible
    → protocol before ≢ rstp
    → protocol after ≡ rstp
    → (assess_setter_order before after).state ≡ compatible
unfolding assess_execution_transition
execution_switch before after installed h p q = ground arith

rstp-cases : (p : Protocol) → (p ≡ rstp) ⊎ (p ≢ rstp)
rstp-cases rstp = inl refl
rstp-cases stp = inr (λ e. cc)
rstp-cases disabled = inr (λ e. cc)
rstp-cases unknown = inr (λ e. cc)

-- A change to an rstp image that `AssessExecutionTransition` calls compatible is installed exactly
-- by one run of the setters: over the timers that the daemon reports, which are those of the
-- original, if the original is rstp too; and over the defaults of a new engine otherwise.
pub assess_execution_transition_installs :
    (d : Setters) (before after : Configuration) (installed : Runtime)
    → (assess_execution_transition before after installed).state ≡ compatible
    → protocol after ≡ rstp
    → let new = (expected_local after).timers in
      ((protocol before ≡ rstp)
        × (installed.local.timers ≡ (expected_local before).timers)
        × (install d new installed.local.timers ≡ new))
      ⊎ ((protocol before ≢ rstp) × (install d new d.created ≡ new))
assess_execution_transition_installs d before after installed h q =
    elim (rstp-cases (protocol before)) [
      | inl p ↦
          let (_, same, forward, _) =
            assess_transition_installs d before after installed
              (execution_same before after installed h p q) p in
          inl (
            p,
            same,
            subst (λ t. install d (expected_local after).timers t ≡ (expected_local after).timers)
                (sym same) forward,
          )
      | inr n ↦ inr (
        n,
        assess_setter_order_installs d before after (execution_switch before after installed h n q)
            n q,
      )
    ]
