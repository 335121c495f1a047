-- ===== src/Ipc/Progress.antt =====
-- internal/ipc/budget.go: calls do not block each other for ever.
use ovs_webui.Prelude.{
  ℕ, zero, suc, ◌*◌, ◌≤◌, ◌<◌, Bool, true, false, not, ◌||◌, List, [], ◌∷◌, Option, none, some, ◌≡◌,
  refl, count, length, any, every, arith, Bool-cases, inl, inr,
}
use ovs_webui.Ipc.{
  Tokens, Budget, Phase, queued, move, Turn, here, there, Turns, stop, then_, put_token, take_token,
  on_active, on_waiting, or_else,
}
use ovs_webui.Ipc.Bounds.{is_active, is_waiting, IsWithin, Turn-IsWithin, Turns-IsWithin}
use ovs_webui.Ipc.Moves.{
  all_moves, is_ended, Turn-all_moves, Turns-all_moves, made, Turns-left_at, left_at_le, moves_le,
}

abbrev is_queued : Phase → Bool
is_queued queued = true
is_queued _ = false

abbrev pub Next : Budget → Tokens × List Phase → Type 0
Next b s = (s' : Tokens × List Phase) × Turn b s s'

abbrev is_ready : Phase → Bool
is_ready p = not (is_queued p || is_ended p)

abbrev Can : Budget → Phase → Tokens → Type 0
Can b p t = (q : Phase) × (u : Tokens) × (move b false p t ≡ some (q, u))

offered :
    (b : Budget) (p : Phase) (t : Tokens) (o : Option (Phase × Tokens))
    → move b false p t ≡ o
    → (o ≡ none → ⊥)
    → Can b p t
offered b p t none e n = absurd (n refl)
offered b p t (some (q, u)) e n = (q, u, e)

ready_move :
    (b : Budget) (p : Phase) (t : Tokens)
    → is_ready p ≡ true
    → (is_active p ≡ true → 0 < t.active)
    → (is_waiting p ≡ true → 0 < t.waiting)
    → move b false p t ≡ none
    → ⊥
unfolding move on_active on_waiting or_else put_token take_token
ready_move b p t r a w h = ground arith

queued_move :
    (b : Budget) (p : Phase) (t : Tokens)
    → is_queued p ≡ true
    → t.active < b.active
    → move b false p t ≡ none
    → ⊥
unfolding move on_active on_waiting or_else put_token take_token
queued_move b p t r a h = ground arith

count_head : (f : Phase → Bool) (p : Phase) (ps : List Phase) → f p ≡ true → 0 < count f (p ∷ ps)
count_head f p ps h = ground arith

count_tail :
    (f : Phase → Bool) (p : Phase) (ps : List Phase) → 0 < count f ps → 0 < count f (p ∷ ps)
count_tail f p ps h = ground arith

tail_any : (a b : Bool) → (a || b) ≡ true → a ≡ false → b ≡ true
tail_any a b h n = ground arith

-- A move of a call that can make one, wherever it stands.
turn_at :
    (b : Budget) (f : Phase → Bool) (t : Tokens) (ps : List Phase)
    → any f ps ≡ true
    → ((p : Phase)
        → f p ≡ true
        → (is_active p ≡ true → 0 < count is_active ps)
        → (is_waiting p ≡ true → 0 < count is_waiting ps)
        → Can b p t)
    → Next b (t, ps)
turn_at b f t [] h can = cc
turn_at b f t (p ∷ ps) h can = elim (Bool-cases (f p)) [
  | inl y ↦
      let (q, u, e) = can p y (count_head is_active p ps) (count_head is_waiting p ps) in
      ((u, q ∷ ps), here false e)
  | inr n ↦
      let rest = turn_at b f t ps (tail_any (f p) (any f ps) h n) (λ q y a w.
        can q y (λ e. count_tail is_active p ps (a e)) (λ e. count_tail is_waiting p ps (w e))) in
      let ((u, qs), s) = rest in ((u, p ∷ qs), there p s)
]

count_none : (ps : List Phase) → any is_ready ps ≡ false → count is_active ps ≡ 0
count_none [] h = refl
count_none (p ∷ ps) h = ground (arith, count_none ps)

some_queued :
    (ps : List Phase)
    → any is_ready ps ≡ false
    → every is_ended ps ≡ false
    → any is_queued ps ≡ true
some_queued [] r e = cc
some_queued (p ∷ ps) r e = ground (arith, some_queued ps)

-- As long as a call has not ended, one of them can go on.
pub goes_on :
    (b : Budget) (s : Tokens × List Phase)
    → 0 < b.active
    → IsWithin b s
    → every is_ended s.1 ≡ false
    → Next b s
goes_on b (t, ps) c w e = elim (Bool-cases (any is_ready ps)) [
  | inl r ↦ turn_at b is_ready t ps r (λ p y a v. offered b p t (move b false p t) refl (
      ready_move b p t y (λ z. let n = a z in let k = w.active in omega arith)
        (λ z. let n = v z in let k = w.waiting in omega arith)))
  | inr r ↦
      let k = count_none ps r in
      let l = w.active in
      turn_at b is_queued t ps (some_queued ps r e)
        (λ p y a v. offered b p t (move b false p t) refl (queued_move b p t y (omega arith)))
]

-- The run of a state in which every call has ended.
abbrev pub Drained : Budget → Tokens × List Phase → Type 0
Drained b s = (n : ℕ) × (s' : Tokens × List Phase) × Turns b n s s' × (every is_ended s'.1 ≡ true)

no_moves : (ps : List Phase) → all_moves ps ≤ 0 → every is_ended ps ≡ true
no_moves [] h = refl
no_moves (p ∷ ps) h = ground (arith, no_moves ps)

drain :
    (b : Budget) (fuel : ℕ) (s : Tokens × List Phase)
    → 0 < b.active
    → all_moves s.1 ≤ fuel
    → IsWithin b s
    → Drained b s
drain b zero s c l w = (0, s, stop, no_moves s.1 (omega arith))
drain b (suc fuel) s c l w = elim (Bool-cases (every is_ended s.1)) [
  | inl e ↦ (0, s, stop, e)
  | inr e ↦
      let (s1, h) = goes_on b s c w e in
      let m = Turn-all_moves b h in
      let (n, s2, hs, e2) = drain b fuel s1 c (omega arith) (Turn-IsWithin b h w) in
      (suc n, s2, then_ h hs, e2)
]

length-all_moves : (ps : List Phase) → all_moves ps ≤ 5 * length ps
length-all_moves [] = omega arith
length-all_moves (p ∷ ps) = let h = length-all_moves ps in let m = moves_le p in omega arith

-- However the calls take their turns, each of them makes no more than five moves, and so all of them
-- no more than five times their number; and from wherever they are, if the class admits any call at
-- all, they can go on until all have ended.
pub calls_end :
    (b : Budget) {n : ℕ} {s s1 : Tokens × List Phase}
    → 0 < b.active
    → IsWithin b s
    → (hs : Turns b n s s1) → ((i : ℕ) → made i hs ≤ 5) × (n ≤ 5 * length s.1) × Drained b s1
calls_end b {n} {s} {s1} c w hs =
    let m = Turns-all_moves b hs in
    let k = length-all_moves s.1 in
    (
      λ i. let l = Turns-left_at b i hs in let a = left_at_le i s.1 in omega arith,
      omega arith,
      drain b (all_moves s1.1) s1 c (omega arith) (Turns-IsWithin b hs w),
    )
