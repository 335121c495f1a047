-- ===== src/Requests/Encoding.antt =====
-- internal/repository/requests/requests.go: `canonicalValue` and `fingerprint`. A number is the bytes
-- of its JSON text. The canonical text of a number is its sign, its digits, "e" and its exponent,
-- which are the three fields of `Decimal`. Go's strconv.ParseInt is a parameter.
use ovs_webui.Prelude.{
  ℕ, ◌-◌, Bool, true, false, ◌&&◌, ◌||◌, String, List, [], ◌∷◌, ◌++◌, Option, none, some, ◌==◌,
  if◌then◌else◌, length,
}
use ovs_webui.Prelude.Int.{ℤ, pos, add_nat, sub_nat}

abbrev pub Bytes : Type 0
Bytes = List ℕ

-- A decoded JSON value.
mutual
  pub data Json : Type 0 where
    null : Json
    boolean : Bool → Json
    number : Bytes → Json
    text : String → Json
    array : Items → Json
    object : Fields → Json

  pub data Items : Type 0 where
    no_items : Items
    item : Json → Items → Items

  pub data Fields : Type 0 where
    no_fields : Fields
    field : String → Json → Fields → Fields

pub record Decimal : Type 0 where
  pub negative : Bool
  pub digits : Bytes
  pub exponent : ℤ

-- The tagged values that `canonicalValue` gives.
mutual
  pub data CanonicalValue : Type 0 where
    null : CanonicalValue
    boolean : Bool → CanonicalValue
    number : Decimal → CanonicalValue
    text : String → CanonicalValue
    array : CanonicalItems → CanonicalValue
    object : CanonicalFields → CanonicalValue

  pub data CanonicalItems : Type 0 where
    no_items : CanonicalItems
    item : CanonicalValue → CanonicalItems → CanonicalItems

  pub data CanonicalFields : Type 0 where
    no_fields : CanonicalFields
    field : String → CanonicalValue → CanonicalFields → CanonicalFields

-- What stands before the first byte that passes the test, and what stands behind it.
unfoldable pub cut : (ℕ → Bool) → Bytes → Bytes × Option Bytes
cut p [] = ([], none)
cut p (c ∷ cs) =
    let (before, after) = cut p cs in if p c then ([], some cs) else (c ∷ before, after)

abbrev pub is_zero : ℕ → Bool
is_zero c = c == b'0'

unfoldable pub trim_left : Bytes → Bytes
trim_left [] = []
trim_left (c ∷ cs) = let rest = trim_left cs in if is_zero c then rest else c ∷ cs

abbrev pub is_empty : Bytes → Bool
is_empty [] = true
is_empty (c ∷ cs) = false

unfoldable pub trim_right : Bytes → Bytes
trim_right [] = []
trim_right (c ∷ cs) =
    let rest = trim_right cs in if is_zero c && is_empty rest then [] else c ∷ rest

-- strings.TrimPrefix(text, "-"), and whether there was one
unfoldable pub unsigned : Bytes → Bool × Bytes
unsigned [] = (false, [])
unsigned (c ∷ cs) = if c == b'-' then (true, cs) else (false, c ∷ cs)

-- The digits without the point, and the exponent without the digits behind it.
unfoldable pub pointless : Bytes × Option Bytes → ℤ → Bytes × ℤ
pointless (whole, none) e = (whole, e)
pointless (whole, some fraction) e = (whole ++ fraction, sub_nat e (length fraction))

unfoldable pub normalize : Bool → Bytes → ℤ → Decimal
normalize negative [] e = record { negative = false; digits = b'0' ∷ []; exponent = pos 0 }
normalize negative (c ∷ cs) e =
    let trimmed = trim_right (c ∷ cs) in
    record {
      negative = negative;
      digits = trimmed;
      exponent = add_nat e (length (c ∷ cs) - length trimmed);
    }

module _ (parse_int32 : Bytes → Option ℤ) where
  unfoldable pub exponent_of : Option Bytes → Option ℤ
  exponent_of none = some (pos 0)
  exponent_of (some s) = parse_int32 s

  -- The digits of a number and its exponent, before they are trimmed.
  unfoldable pub read_number : Bytes → Option (Bytes × ℤ)
  unfolding exponent_of
  read_number s =
      let (mantissa, exponent) = cut (λ c. c == b'e' || c == b'E') s in
      elim (exponent_of exponent) [
        | none ↦ none
        | some e ↦ some (pointless (cut (λ c. c == b'.') mantissa) e)
      ]

  unfoldable pub normalized : Bool → Option (Bytes × ℤ) → Option Decimal
  normalized negative none = none
  normalized negative (some (digits, e)) = some (normalize negative (trim_left digits) e)

  -- The case of json.Number
  unfoldable pub canonical_number : Bytes → Option Decimal
  canonical_number s =
      let (negative, digits) = unsigned s in normalized negative (read_number digits)

  of_number : Option Decimal → Option CanonicalValue
  of_number none = none
  of_number (some d) = some (number d)

  of_items : Option CanonicalItems → Option CanonicalValue
  of_items none = none
  of_items (some l) = some (array l)

  of_fields : Option CanonicalFields → Option CanonicalValue
  of_fields none = none
  of_fields (some l) = some (object l)

  cons_item : Option CanonicalValue → Option CanonicalItems → Option CanonicalItems
  cons_item (some v) (some l) = some (item v l)
  cons_item _ _ = none

  cons_field : String → Option CanonicalValue → Option CanonicalFields → Option CanonicalFields
  cons_field k (some v) (some l) = some (field k v l)
  cons_field k _ _ = none

  -- `canonicalValue`
  unfoldable mutual
    unfolding of_number of_items of_fields cons_item cons_field

    pub canonical_value : Json → Option CanonicalValue
    canonical_value null = some null
    canonical_value (boolean b) = some (boolean b)
    canonical_value (number s) = of_number (canonical_number s)
    canonical_value (text s) = some (text s)
    canonical_value (array l) = of_items (canonical_items l)
    canonical_value (object l) = of_fields (canonical_fields l)

    pub canonical_items : Items → Option CanonicalItems
    canonical_items no_items = some no_items
    canonical_items (item v l) = cons_item (canonical_value v) (canonical_items l)

    pub canonical_fields : Fields → Option CanonicalFields
    canonical_fields no_fields = some no_fields
    canonical_fields (field k v l) = cons_field k (canonical_value v) (canonical_fields l)
