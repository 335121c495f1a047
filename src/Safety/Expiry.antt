-- ===== src/Safety/Expiry.antt =====
-- internal/safety/types.go: when a deadline holds.
use ovs_webui.Prelude.{ℕ, ◌+◌, ◌^◌, ◌≤◌, ◌<◌, ◌≡◌, ◌≢◌, ◌↔◌, true, false, arith}
use ovs_webui.Prelude.Int.{pos, add_int64}
use ovs_webui.Safety.{Clock, new_deadline, expired}

abbrev pub reading : ℕ → ℕ → ℕ → Clock
reading boot n w = record { boot = boot; ns = pos n; wall = w }

-- A deadline set at a clock reading of a known boot, whose sum does not overflow, is open for
-- exactly `duration`: it holds at a later reading of that boot if and only if neither clock has gone
-- that far.
pub new_deadline_window :
    (boot n w duration passed elapsed : ℕ)
    → boot ≢ 0
    → n + duration < 2 ^ 63
    → (expired (new_deadline (reading boot n w) duration) (reading boot (n + passed) (w + elapsed))
        ≡ false)
      ↔ ((passed < duration) × (elapsed < duration))
unfolding new_deadline expired add_int64
new_deadline_window boot n w duration passed elapsed known fits =
    (λ h. ground arith, λ h. ground arith)

-- Where the sum overflows, the deadline is never open: it fails closed.
pub new_deadline_overflow :
    (boot n w duration : ℕ) (c : Clock)
    → n < 2 ^ 63
    → duration < 2 ^ 63
    → 2 ^ 63 ≤ n + duration
    → expired (new_deadline (reading boot n w) duration) c ≡ true
unfolding new_deadline expired add_int64
new_deadline_overflow boot n w duration c small short over = ground arith
