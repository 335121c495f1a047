-- ===== src/Ipc/Bounds.antt =====
-- internal/ipc/budget.go: how many calls run and wait.
use ovs_webui.Prelude.{
  ℕ, ◌+◌, ◌≤◌, ◌<◌, Bool, true, false, List, ◌∷◌, some, ◌≡◌, sym, ◌∙◌, count, arith, Bool-cases,
  inl, inr,
}
use ovs_webui.Ipc.{
  Tokens, Budget, Phase, queued, granted, leaving, running, refused, move, Turn, here, there, Turns,
  stop, then_, put_token, take_token, on_active, on_waiting, or_else,
}

-- The phases in which a call has a token of the channel.
abbrev pub is_active : Phase → Bool
is_active granted = true
is_active running = true
is_active _ = false

abbrev pub is_waiting : Phase → Bool
is_waiting queued = true
is_waiting granted = true
is_waiting leaving = true
is_waiting _ = false

abbrev pub unit_of : Bool → ℕ
unit_of true = 1
unit_of false = 0

-- A move keeps the tokens and their holders in step, and the channels within their capacities.
abbrev pub Balanced : Budget → Tokens → Tokens → ℕ → ℕ → ℕ → ℕ → Type 0
Balanced b t u a a' w w' =
    (u.active + a ≡ t.active + a')
    × (u.waiting + w ≡ t.waiting + w')
    × (t.active ≤ b.active → u.active ≤ b.active)
    × (t.waiting ≤ b.waiting → u.waiting ≤ b.waiting)

move-Balanced :
    (b : Budget) (ended : Bool) (p q : Phase) (t u : Tokens)
    → move b ended p t ≡ some (q, u)
    → Balanced b t u
        (unit_of (is_active p))
        (unit_of (is_active q))
        (unit_of (is_waiting p))
        (unit_of (is_waiting q))
unfolding move put_token take_token on_active on_waiting or_else
move-Balanced b ended p q t u h = ground arith

count_unit :
    (f : Phase → Bool) (p : Phase) (ps : List Phase) → count f (p ∷ ps) ≡ unit_of (f p) + count f ps
count_unit f p ps = ground arith

abbrev active_calls : List Phase → ℕ
active_calls ps = count is_active ps

abbrev waiting_calls : List Phase → ℕ
waiting_calls ps = count is_waiting ps

Turn-Balanced :
    (b : Budget) {s s' : Tokens × List Phase}
    → Turn b s s'
    → Balanced b s.0 s'.0
        (active_calls s.1)
        (active_calls s'.1)
        (waiting_calls s.1)
        (waiting_calls s'.1)
Turn-Balanced b (here {t} {u} {p} {q} {ps} ended h) =
    let (a, w, i, j) = move-Balanced b ended p q t u h in
    let a1 = count_unit is_active p ps in
    let a2 = count_unit is_active q ps in
    let w1 = count_unit is_waiting p ps in
    let w2 = count_unit is_waiting q ps in (omega arith, omega arith, i, j)
Turn-Balanced b (there {t} {u} {ps} {qs} p s) =
    let (a, w, i, j) = Turn-Balanced b s in
    let a1 = count_unit is_active p ps in
    let a2 = count_unit is_active p qs in
    let w1 = count_unit is_waiting p ps in
    let w2 = count_unit is_waiting p qs in (omega arith, omega arith, i, j)

-- Each token has one holder, and the channels are within their capacities.
pub record IsWithin (b : Budget) (s : Tokens × List Phase) : Type 0 where
  pub active : s.0.active ≡ count is_active s.1
  pub waiting : s.0.waiting ≡ count is_waiting s.1
  pub active_bound : s.0.active ≤ b.active
  pub waiting_bound : s.0.waiting ≤ b.waiting

pub Turn-IsWithin :
    (b : Budget) {s s' : Tokens × List Phase} → Turn b s s' → IsWithin b s → IsWithin b s'
Turn-IsWithin b h w =
    let (a, c, i, j) = Turn-Balanced b h in
    record {
      active = (let e = w.active in omega arith);
      waiting = (let e = w.waiting in omega arith);
      active_bound = i w.active_bound;
      waiting_bound = j w.waiting_bound;
    }

-- Over any run of calls in any order, the tokens in the channels are those of the calls that hold
-- them, and neither channel is over its capacity.
pub Turns-IsWithin :
    (b : Budget) {n : ℕ} {s s' : Tokens × List Phase}
    → Turns b n s s'
    → IsWithin b s
    → IsWithin b s'
Turns-IsWithin b stop w = w
Turns-IsWithin b (then_ h hs) w = Turns-IsWithin b hs (Turn-IsWithin b h w)

abbrev pub is_refused : Phase → Bool
is_refused refused = true
is_refused _ = false

move-refused :
    (b : Budget) (ended : Bool) (p q : Phase) (t u : Tokens)
    → move b ended p t ≡ some (q, u)
    → is_refused p ≡ false
    → is_refused q ≡ true
    → t.waiting ≤ b.waiting
    → t.waiting ≡ b.waiting
unfolding move on_active on_waiting or_else put_token take_token
move-refused b ended p q t u h n r w = ground arith

move-is_refused :
    (b : Budget) (ended : Bool) (p q : Phase) (t u : Tokens)
    → move b ended p t ≡ some (q, u)
    → is_refused p ≡ false
unfolding move on_active on_waiting or_else put_token take_token
move-is_refused b ended p q t u h = ground arith

no_change :
    (b b' : Bool) (n m k : ℕ)
    → b ≡ false
    → b' ≡ false
    → n ≡ unit_of b + k
    → m ≡ unit_of b' + k
    → n < m
    → ⊥
no_change b b' n m k p q e f l = ground arith

Turn-refused :
    (b : Budget) {s s' : Tokens × List Phase}
    → Turn b s s'
    → s.0.waiting ≤ b.waiting
    → count is_refused s.1 < count is_refused s'.1
    → s.0.waiting ≡ b.waiting
Turn-refused b (here {t} {u} {p} {q} {ps} ended h) w c =
    let n = move-is_refused b ended p q t u h in
    elim (Bool-cases (is_refused q)) [
      | inl r ↦ move-refused b ended p q t u h n r w
      | inr r ↦
          let c1 = count_unit is_refused p ps in
          let c2 = count_unit is_refused q ps in
          absurd (no_change (is_refused p) (is_refused q) _ _ _ n r c1 c2 c)
    ]
Turn-refused b (there {t} {u} {ps} {qs} p s) w c =
    let c1 = count_unit is_refused p ps in
    let c2 = count_unit is_refused p qs in Turn-refused b s w (omega arith)

-- A call of a run is refused only where as many calls wait as the queue holds.
pub refused_full :
    (b : Budget) {n : ℕ} {s s1 s2 : Tokens × List Phase}
    → IsWithin b s
    → Turns b n s s1
    → Turn b s1 s2
    → count is_refused s1.1 < count is_refused s2.1
    → count is_waiting s1.1 ≡ b.waiting
refused_full b w hs h c =
    let w1 = Turns-IsWithin b hs w in sym w1.waiting ∙ Turn-refused b h w1.waiting_bound c
