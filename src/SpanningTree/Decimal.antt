-- ===== src/SpanningTree/Decimal.antt =====
-- Decimal text, as strconv.ParseUint(text, 10, 64) and strconv.Atoi read it. A text is its bytes.
use ovs_webui.Prelude.{
  ℕ, ◌+◌, ◌-◌, ◌*◌, ◌^◌, ◌<◌, ◌≡◌, Bool, ◌&&◌, List, [], ◌∷◌, Option, none, some, arith, leb, ltb,
  if◌then◌else◌, every,
}

-- '0' <= c && c <= '9'
abbrev pub is_digit : ℕ → Bool
is_digit c = leb b'0' c && leb c b'9'

abbrev pub is_decimal : List ℕ → Bool
is_decimal = every is_digit

-- The number that a row of digits stands for, most significant digit first.
pub value_from : ℕ → List ℕ → ℕ
value_from acc [] = acc
value_from acc (c ∷ cs) = value_from (acc * 10 + (c - b'0')) cs

unfoldable pub value : List ℕ → ℕ
unfolding value_from
value = value_from 0

-- `n, err := strconv.ParseUint(text, 10, 64)` on digits: an error exactly on overflow.
unfoldable pub parse_uint : List ℕ → Option ℕ
parse_uint text = if ltb (value text) (2 ^ 64) then some (value text) else none

pub parse_uint-value : (t : List ℕ) {n : ℕ} → parse_uint t ≡ some n → value t ≡ n
unfolding parse_uint
parse_uint-value t h = ground arith

pub parse_uint_small : (t : List ℕ) → value t < 2 ^ 64 → parse_uint t ≡ some (value t)
unfolding parse_uint
parse_uint_small t h = ground arith
