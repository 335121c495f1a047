-- ===== src/Requests/Numbers.antt =====
-- internal/repository/requests/requests.go: the numbers that texts of digits stand for.
pub mod Digits
pub mod Unique
pub mod Canonical
pub mod Cutting
pub mod Texts
use ovs_webui.Prelude.{
  ℕ, zero, suc, ◌+◌, ◌-◌, ◌*◌, ◌^◌, ◌≤◌, ◌<◌, ◌%◌, Bool, true, false, ◌&&◌, List, [], ◌∷◌, ◌++◌,
  Option, none, some, ◌==◌, if◌then◌else◌, length, leb, every, ◌≡◌, ◌⊎◌, refl, arith,
}
use ovs_webui.Prelude.Int.{ℤ, add_nat}
use ovs_webui.Requests.Encoding.{Bytes, Decimal, unsigned, read_number, trim_left, normalize}
use Digits.{value}

-- A sign, digits and a power of ten: the same number in two spellings.
pub record Spelling : Type 0 where
  pub negative : Bool
  pub digits : Bytes
  pub exponent : ℤ

-- Both times a power of ten, they are the same at one exponent; and they have the same sign, but
-- for zero.
abbrev pub SameNumber : Spelling → Spelling → Type 0
SameNumber a b =
    ((j : ℕ) × (k : ℕ) × (value a.digits * 10 ^ j ≡ value b.digits * 10 ^ k)
      × (add_nat a.exponent k ≡ add_nat b.exponent j))
    × ((a.negative ≡ b.negative) ⊎ (value a.digits ≡ 0))

module _ (parse_int32 : Bytes → Option ℤ) where
  unfoldable pub spelled : Bool → Option (Bytes × ℤ) → Option Spelling
  spelled negative none = none
  spelled negative (some (digits, e)) =
      some (record { negative = negative; digits = digits; exponent = e })

  -- What `canonicalValue` reads before it normalizes it.
  unfoldable pub spelling : Bytes → Option Spelling
  spelling s =
      let (negative, digits) = unsigned s in spelled negative (read_number parse_int32 digits)
