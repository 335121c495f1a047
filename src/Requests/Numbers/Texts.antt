-- ===== src/Requests/Numbers/Texts.antt =====
-- internal/repository/requests/requests.go: the texts of JSON numbers, and what they stand for.
use ovs_webui.Prelude.{
  ℕ, ◌+◌, ◌*◌, ◌^◌, Bool, true, false, not, ◌||◌, [], ◌∷◌, ◌++◌, Option, none, some, ◌==◌,
  if◌then◌else◌, length, every, ◌≡◌, ◌↔◌, ◌⊎◌, inl, inr, refl, sym, ap, ◌∙◌, subst, arith, &&-true,
}
use ovs_webui.Prelude.Int.{ℤ, pos, negsuc, add_nat, sub_nat}
use ovs_webui.Requests.Encoding.{
  Bytes, cut, unsigned, pointless, read_number, canonical_number, exponent_of,
}
use ovs_webui.Requests.Numbers.{Spelling, SameNumber, spelling, spelled}
use ovs_webui.Requests.Numbers.Digits.{is_digit, value}
use ovs_webui.Requests.Numbers.Canonical.{canonical_number-SameNumber}
use ovs_webui.Requests.Numbers.Cutting.{cut-none, cut_at, every-++, value-++, ++_nil}

-- The parts of a number: the digits before the point, those behind it, if there is one, and the text
-- behind the letter of the exponent, if there is one, which may be a capital.
pub record Parts : Type 0 where
  pub negative : Bool
  pub whole : Bytes
  pub fraction : Option Bytes
  pub exponent : Option (Bool × Bytes)

abbrev pub sign_text : Bool → Bytes
sign_text negative = if negative then b'-' ∷ [] else []

abbrev pub fraction_text : Option Bytes → Bytes
fraction_text none = []
fraction_text (some f) = b'.' ∷ f

abbrev pub exponent_text : Option (Bool × Bytes) → Bytes
exponent_text none = []
exponent_text (some (capital, e)) = (if capital then b'E' else b'e') ∷ e

abbrev pub text : Parts → Bytes
text a = sign_text a.negative ++ ((a.whole ++ fraction_text a.fraction) ++ exponent_text a.exponent)

abbrev pub behind_point : Option Bytes → Bytes
behind_point none = []
behind_point (some f) = f

abbrev pub places : Parts → ℕ
places a = length (behind_point a.fraction)

-- The number without its point: it stands for this, times ten to the power of the exponent less the
-- places behind the point.
abbrev pub mantissa : Parts → ℕ
mantissa a = value a.whole * 10 ^ places a + value (behind_point a.fraction)

-- `n` is the exponent that is read, and the rest is digits.
pub record IsNumber (parse_int32 : Bytes → Option ℤ) (a : Parts) (n : ℤ) : Type 0 where
  pub digit : ℕ
  pub more : Bytes
  pub filled : a.whole ≡ digit ∷ more
  pub whole : every is_digit a.whole ≡ true
  pub fraction : every is_digit (behind_point a.fraction) ≡ true
  pub exponent :
      ((a.exponent ≡ none) × (n ≡ pos 0))
      ⊎ ((capital : Bool) × (e : Bytes) × (a.exponent ≡ some (capital, e))
          × (parse_int32 e ≡ some n))

-- The same number, by its parts: times powers of ten, the mantissas are equal where the exponents are;
-- and the signs are equal, but for zero.
abbrev pub SameValue : Parts → ℤ → Parts → ℤ → Type 0
SameValue a m b n =
    ((j : ℕ) × (k : ℕ) × (mantissa a * 10 ^ j ≡ mantissa b * 10 ^ k)
      × (add_nat m (k + places b) ≡ add_nat n (j + places a)))
    × ((a.negative ≡ b.negative) ⊎ (mantissa a ≡ 0))

abbrev is_letter : ℕ → Bool
is_letter c = c == b'e' || c == b'E'

abbrev is_point : ℕ → Bool
is_point c = c == b'.'

digits-letter : (xs : Bytes) → every is_digit xs ≡ true → every (λ c. not (is_letter c)) xs ≡ true
digits-letter [] h = refl
digits-letter (x ∷ xs) h = ground (arith, digits-letter xs)

digits-point : (xs : Bytes) → every is_digit xs ≡ true → every (λ c. not (is_point c)) xs ≡ true
digits-point [] h = refl
digits-point (x ∷ xs) h = ground (arith, digits-point xs)

shift_exponent :
    (x y : ℤ) (p q j k : ℕ)
    → (add_nat (sub_nat x p) k ≡ add_nat (sub_nat y q) j) ↔ (add_nat x (k + q) ≡ add_nat y (j + p))
shift_exponent x y p q j k = ground arith

unsigned-text :
    (negative : Bool) (d : ℕ) (ds : Bytes)
    → is_digit d ≡ true
    → unsigned (sign_text negative ++ (d ∷ ds)) ≡ (negative, d ∷ ds)
unfolding unsigned
unsigned-text true d ds h = refl
unsigned-text false d ds h = ground arith

cut-fraction :
    (whole : Bytes) (o : Option Bytes)
    → every is_digit whole ≡ true
    → cut is_point (whole ++ fraction_text o) ≡ (whole, o)
cut-fraction whole none h =
    ap (cut is_point) (++_nil whole) ∙ cut-none is_point whole (digits-point whole h)
cut-fraction whole (some f) h = cut_at is_point whole b'.' f (digits-point whole h) refl

fraction-letter :
    (whole : Bytes) (o : Option Bytes)
    → every is_digit whole ≡ true
    → every is_digit (behind_point o) ≡ true
    → every (λ c. not (is_letter c)) (whole ++ fraction_text o) ≡ true
fraction-letter whole none h k = every-++ _ whole [] (digits-letter whole h) refl
fraction-letter whole (some f) h k =
    every-++ _ whole (b'.' ∷ f) (digits-letter whole h) (digits-letter f k)

module _ (parse_int32 : Bytes → Option ℤ) where
  abbrev joined_to : Bytes → Option ℤ → Option (Bytes × ℤ)
  joined_to m o = elim o [ none ↦ none | some e ↦ some (pointless (cut is_point m) e) ]

  abbrev exponent_read : Bytes × Option Bytes → Option (Bytes × ℤ)
  exponent_read r = joined_to r.0 (exponent_of parse_int32 r.1)

  exponent_read-parts :
      (m whole : Bytes) (o x : Option Bytes) (n : ℤ)
      → exponent_of parse_int32 x ≡ some n
      → cut is_point m ≡ (whole, o)
      → exponent_read (m, x) ≡ some (pointless (whole, o) n)
  exponent_read-parts m whole o x n e k =
      ap (joined_to m) e ∙ ap (λ (c : Bytes × Option Bytes). some (pointless c n)) k

  read-parts :
      (m whole : Bytes) (o x : Option Bytes) (t : Bytes) (n : ℤ)
      → cut is_letter t ≡ (m, x)
      → exponent_of parse_int32 x ≡ some n
      → cut is_point m ≡ (whole, o)
      → read_number parse_int32 t ≡ some (pointless (whole, o) n)
  unfolding read_number
  read-parts m whole o x t n h e k = ap exponent_read h ∙ exponent_read-parts m whole o x n e k

  cut-exponent :
      (m : Bytes) (o : Option (Bool × Bytes)) (n : ℤ)
      → every (λ c. not (is_letter c)) m ≡ true
      → ((o ≡ none) × (n ≡ pos 0))
        ⊎ ((capital : Bool) × (e : Bytes) × (o ≡ some (capital, e)) × (parse_int32 e ≡ some n))
      → (x : Option Bytes) × (cut is_letter (m ++ exponent_text o) ≡ (m, x))
        × (exponent_of parse_int32 x ≡ some n)
  unfolding exponent_of
  cut-exponent m o n h (inl (e, z)) =
      (none, rw e (ap (cut is_letter) (++_nil m) ∙ cut-none is_letter m h), ap some (sym z))
  cut-exponent m o n h (inr (true, t, e, z)) = (some t, rw e (cut_at is_letter m b'E' t h refl), z)
  cut-exponent m o n h (inr (false, t, e, z)) = (some t, rw e (cut_at is_letter m b'e' t h refl), z)

  -- What the code reads, by the parts.
  abbrev read_parts : Parts → ℤ → Spelling
  read_parts a n = record {
    negative = a.negative;
    digits = (pointless (a.whole, a.fraction) n).0;
    exponent = (pointless (a.whole, a.fraction) n).1;
  }

  spelling-text :
      (a : Parts) (n : ℤ)
      → IsNumber parse_int32 a n
      → spelling parse_int32 (text a) ≡ some (read_parts a n)
  unfolding spelling spelled
  spelling-text a n k =
      let rest = (a.whole ++ fraction_text a.fraction) ++ exponent_text a.exponent in
      let (d, _) = &&-true _ _ (subst (λ z. every is_digit z ≡ true) k.filled k.whole) in
      let signed : unsigned (text a) ≡ (a.negative, rest) =
        subst
          (λ z.
            unsigned (
              sign_text a.negative ++ ((z ++ fraction_text a.fraction) ++ exponent_text a.exponent))
            ≡ (a.negative, (z ++ fraction_text a.fraction) ++ exponent_text a.exponent))
          (sym k.filled) (unsigned-text a.negative k.digit _ d) in
      let (x, split, e) =
        cut-exponent (a.whole ++ fraction_text a.fraction) a.exponent n
          (fraction-letter a.whole a.fraction k.whole k.fraction) k.exponent in
      ap (λ (r : Bool × Bytes). spelled parse_int32 r.0 (read_number parse_int32 r.1)) signed
      ∙ ap (spelled parse_int32 a.negative) (
          read-parts (a.whole ++ fraction_text a.fraction) a.whole a.fraction x rest n split e
            (cut-fraction a.whole a.fraction k.whole))

  pointless-digits :
      (whole : Bytes) (o : Option Bytes) (n : ℤ)
      → every is_digit whole ≡ true
      → every is_digit (behind_point o) ≡ true
      → every is_digit (pointless (whole, o) n).0 ≡ true
  unfolding pointless
  pointless-digits whole none n h k = h
  pointless-digits whole (some f) n h k = every-++ is_digit whole f h k

  pointless-value :
      (whole : Bytes) (o : Option Bytes) (n : ℤ)
      → value (pointless (whole, o) n).0
        ≡ value whole * 10 ^ length (behind_point o) + value (behind_point o)
  unfolding pointless
  pointless-value whole none n = omega arith
  pointless-value whole (some f) n = value-++ whole f

  sub_zero : (n : ℤ) → n ≡ sub_nat n 0
  sub_zero (pos n) = ground arith
  sub_zero (negsuc n) = ground arith

  pointless-exponent :
      (whole : Bytes) (o : Option Bytes) (n : ℤ)
      → (pointless (whole, o) n).1 ≡ sub_nat n (length (behind_point o))
  unfolding pointless
  pointless-exponent whole none n = sub_zero n
  pointless-exponent whole (some f) n = refl

  Same-parts :
      (a b : Parts) (m n : ℤ) → SameNumber (read_parts a m) (read_parts b n) ↔ SameValue a m b n
  Same-parts a b m n = rw (pointless-value a.whole a.fraction m) (
      rw (pointless-value b.whole b.fraction n) (
        rw (pointless-exponent a.whole a.fraction m) (
          rw (pointless-exponent b.whole b.fraction n) (
            λ ((j, k, v, x), s). ((j, k, v, (shift_exponent m n (places a) (places b) j k).0 x), s),
            λ ((j, k, v, x), s). ((j, k, v, (shift_exponent m n (places a) (places b) j k).1 x), s),
          ))))

  -- Two texts of JSON numbers have one canonical number exactly if they stand for the same number, that
  -- is, if their digits with the point left out are the same, times powers of ten that make up for the
  -- exponents and for the places behind the point, and their signs are the same, but for zero. (The
  -- exponents are small enough to be read.)
  pub canonical_number-SameValue :
      (a b : Parts) (m n : ℤ)
      → IsNumber parse_int32 a m
      → IsNumber parse_int32 b n
      → (canonical_number parse_int32 (text a) ≡ canonical_number parse_int32 (text b))
        ↔ SameValue a m b n
  canonical_number-SameValue a b m n k l =
      let (to, from) =
        canonical_number-SameNumber parse_int32 (text a) (text b) (read_parts a m) (read_parts b n)
          (spelling-text a m k) (spelling-text b n l)
          (pointless-digits a.whole a.fraction m k.whole k.fraction)
          (pointless-digits b.whole b.fraction n l.whole l.fraction) in
      let (there, back) = Same-parts a b m n in (λ h. there (to h), λ h. from (back h))
