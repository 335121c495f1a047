-- ===== src/Ipc/Moves.antt =====
-- internal/ipc/budget.go: how many moves the calls make.
use ovs_webui.Prelude.{
  ℕ, zero, suc, ◌+◌, ◌≤◌, ◌<◌, Bool, true, false, List, [], ◌∷◌, some, ◌≡◌, ◌==◌, if◌then◌else◌,
  arith,
}
use ovs_webui.Ipc.{
  Tokens, Budget, Phase, arriving, missed, queued, granted, leaving, running, move, Turn, here,
  there, Turns, stop, then_, put_token, take_token, on_active, on_waiting, or_else,
}

-- The moves that a call has before it, at most.
abbrev pub moves : Phase → ℕ
moves arriving = 5
moves missed = 4
moves queued = 3
moves granted = 2
moves leaving = 1
moves running = 1
moves _ = 0

abbrev pub all_moves : List Phase → ℕ
all_moves [] = 0
all_moves (p ∷ ps) = moves p + all_moves ps

abbrev pub is_ended : Phase → Bool
is_ended p = elim (moves p) [ zero ↦ true | suc n ↦ false ]

move-moves :
    (b : Budget) (ended : Bool) (p q : Phase) (t u : Tokens)
    → move b ended p t ≡ some (q, u)
    → moves q < moves p
unfolding move on_active on_waiting or_else put_token take_token
move-moves b ended p q t u h = ground arith

pub Turn-all_moves :
    (b : Budget) {s s' : Tokens × List Phase} → Turn b s s' → all_moves s'.1 < all_moves s.1
Turn-all_moves b (here {t} {u} {p} {q} {ps} ended h) =
    let l = move-moves b ended p q t u h in omega arith
Turn-all_moves b (there p s) = let l = Turn-all_moves b s in omega arith

-- A run is no longer than the moves of its calls.
pub Turns-all_moves :
    (b : Budget) {n : ℕ} {s s' : Tokens × List Phase}
    → Turns b n s s'
    → n + all_moves s'.1 ≤ all_moves s.1
Turns-all_moves b stop = omega arith
Turns-all_moves b (then_ h hs) =
    let l = Turn-all_moves b h in let m = Turns-all_moves b hs in omega arith

pub moves_le : (p : Phase) → moves p ≤ 5
moves_le p = ground arith

-- The place of the call that makes the move.
abbrev pub mover : {b : Budget} {s s' : Tokens × List Phase} → Turn b s s' → ℕ
mover (here ended h) = 0
mover (there p h) = suc (mover h)

-- How many of the moves of a run the call at a place makes.
pub made : {b : Budget} {n : ℕ} {s s' : Tokens × List Phase} → ℕ → Turns b n s s' → ℕ
made i stop = 0
made i (then_ h hs) = (if mover h == i then 1 else 0) + made i hs

-- The moves that the call at a place has before it.
abbrev pub left_at : ℕ → List Phase → ℕ
left_at i [] = 0
left_at zero (p ∷ ps) = moves p
left_at (suc i) (p ∷ ps) = left_at i ps

Turn-left_at :
    (b : Budget) (i : ℕ) {s s' : Tokens × List Phase} (h : Turn b s s')
    → (if mover h == i then 1 else 0) + left_at i s'.1 ≤ left_at i s.1
Turn-left_at b zero (here {t} {u} {p} {q} {ps} ended h) =
    let l = move-moves b ended p q t u h in ground arith
Turn-left_at b (suc i) (here {t} {u} {p} {q} {ps} ended h) = ground arith
Turn-left_at b zero (there p h) = ground arith
Turn-left_at b (suc i) (there p h) = let l = Turn-left_at b i h in ground arith

pub Turns-left_at :
    (b : Budget) (i : ℕ) {n : ℕ} {s s' : Tokens × List Phase} (hs : Turns b n s s')
    → made i hs + left_at i s'.1 ≤ left_at i s.1
unfolding made
Turns-left_at b i stop = omega arith
Turns-left_at b i (then_ h hs) =
    let l = Turn-left_at b i h in let m = Turns-left_at b i hs in omega arith

pub left_at_le : (i : ℕ) (ps : List Phase) → left_at i ps ≤ 5
left_at_le i [] = ground arith
left_at_le zero (p ∷ ps) = moves_le p
left_at_le (suc i) (p ∷ ps) = left_at_le i ps
