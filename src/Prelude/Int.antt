-- ===== src/Prelude/Int.antt =====
-- Signed machine integers over the native numbers.
use ovs_webui.Prelude.{ℕ, suc, ◌+◌, ◌-◌, ◌^◌, Bool, ltb, if◌then◌else◌}

-- `negsuc n` is -(n + 1).
pub data ℤ : Type 0 where
  pos : ℕ → ℤ
  negsuc : ℕ → ℤ

abbrev pub pos_part : ℤ → ℕ
pos_part (pos n) = n
pos_part (negsuc n) = 0

abbrev pub neg_part : ℤ → ℕ
neg_part (pos n) = 0
neg_part (negsuc n) = suc n

abbrev pub ltb_ℤ : ℤ → ℤ → Bool
ltb_ℤ a b = ltb (pos_part a + neg_part b) (pos_part b + neg_part a)

-- Go's `n + int64(d)` for a duration `d` below 2^63: it wraps at 2^63.
unfoldable pub add_int64 : ℤ → ℕ → ℤ
add_int64 (pos n) d = if ltb (n + d) (2 ^ 63) then pos (n + d) else negsuc (2 ^ 64 - (n + d) - 1)
add_int64 (negsuc n) d = if ltb n d then pos (d - n - 1) else negsuc (n - d)

-- Sums with a natural number, where nothing wraps.
abbrev pub add_nat : ℤ → ℕ → ℤ
add_nat (pos n) d = pos (n + d)
add_nat (negsuc n) d = if ltb n d then pos (d - n - 1) else negsuc (n - d)

abbrev pub sub_nat : ℤ → ℕ → ℤ
sub_nat (pos n) d = if ltb n d then negsuc (d - n - 1) else pos (n - d)
sub_nat (negsuc n) d = negsuc (n + d)
