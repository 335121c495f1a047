-- ===== src/Requests/Numbers/Canonical.antt =====
-- internal/repository/requests/requests.go: two texts have one canonical number exactly if they stand
-- for the same number.
use ovs_webui.Prelude.{
  ℕ, ◌+◌, ◌-◌, ◌*◌, ◌^◌, ◌%◌, ◌≤◌, ◌<◌, Bool, true, false, [], ◌∷◌, Option, none, some, every, ◌≡◌,
  refl, sym, ap, ◌∙◌, subst, arith, ◌⊎◌, inl, inr, ◌↔◌,
}
use native.Mathlib.Nat.{mul_assoc, mul-le-mul_right, one-le-pow}
use ovs_webui.Prelude.Int.{ℤ, pos, add_nat, pos_part, neg_part}
use ovs_webui.Requests.Encoding.{
  Bytes, Decimal, is_empty, trim_left, trim_right, normalize, canonical_number, normalized,
  unsigned, read_number,
}
use ovs_webui.Requests.Numbers.{Spelling, SameNumber, spelling, spelled}
use ovs_webui.Requests.Numbers.Digits.{
  is_digit, value, pow-add, value-trim_left, value-trim_right, is_led-trim_left,
  is_ended-trim_right, is_led-trim_right, digits-trim_left, digits-trim_right, is_led,
}
use ovs_webui.Requests.Numbers.Unique.{IsNormal, same_number, normal-mod}

abbrev zero_decimal : Decimal
zero_decimal = record { negative = false; digits = b'0' ∷ []; exponent = pos 0 }

-- The normalized spelling.
abbrev pub normal : Spelling → Decimal
normal a = normalize a.negative (trim_left a.digits) a.exponent

-- What was cut off a number that is not zero.
record Cut (a : Spelling) (d : Decimal) : Type 0 where
  sign : d.negative ≡ a.negative
  is_normal : IsNormal d.digits
  power : ℕ
  same : value a.digits ≡ value d.digits * 10 ^ power
  shifted : d.exponent ≡ add_nat a.exponent power

monus : (n m j : ℕ) → n ≡ m + j → n - m ≡ j
monus n m j h = omega arith

trim_right-is_empty :
    (c : ℕ) (cs : Bytes) → is_led (c ∷ cs) ≡ true → is_empty (trim_right (c ∷ cs)) ≡ false
unfolding trim_right
trim_right-is_empty c cs h = ground arith

normalize-cases :
    (a : Spelling) (t : Bytes)
    → trim_left a.digits ≡ t
    → every is_digit a.digits ≡ true
    → ((value a.digits ≡ 0) × (normalize a.negative t a.exponent ≡ zero_decimal))
      ⊎ Cut a (normalize a.negative t a.exponent)
unfolding normalize
normalize-cases a [] e h = inl (sym (value-trim_left a.digits) ∙ ap value e, refl)
normalize-cases a (c ∷ cs) e h =
    let (j, l, v) = value-trim_right (c ∷ cs) in
    let led = subst (λ z. is_led z ≡ true) e (is_led-trim_left a.digits) in
    let digits = subst (λ z. every is_digit z ≡ true) e (digits-trim_left a.digits h) in
    inr (record {
      sign = refl;
      is_normal = record {
        digits = digits-trim_right (c ∷ cs) digits;
        led = is_led-trim_right (c ∷ cs) led;
        ended = is_ended-trim_right (c ∷ cs);
        filled = trim_right-is_empty c cs led;
      };
      power = j;
      same = sym (value-trim_left a.digits) ∙ ap value e ∙ v;
      shifted = ap (add_nat a.exponent) (monus _ _ j l);
    })

shift_int :
    (x y : ℤ) (p q j k : ℕ) → add_nat x k ≡ add_nat y j → p + j ≡ q + k → add_nat x p ≡ add_nat y q
shift_int x y p q j k e f = ground arith

common_int : (x y : ℤ) → add_nat x (pos_part y + neg_part x) ≡ add_nat y (pos_part x + neg_part y)
common_int x y = ground arith

zeros : (m n : ℕ) → 0 * m ≡ 0 * n
zeros m n = omega arith

mod-positive : (v : ℕ) → 0 < v % 10 → 1 ≤ v
mod-positive v h = omega arith

joined : (v w n m : ℕ) → w ≡ v * 10 ^ n → w * 10 ^ m ≡ v * 10 ^ (n + m)
joined v w n m e =
    ap (λ z. z * 10 ^ m) e ∙ mul_assoc v (10 ^ n) (10 ^ m) ∙ ap (λ z. v * z) (sym (pow-add 10 n m))

plus_comm : (m n : ℕ) → m + n ≡ n + m
plus_comm m n = omega arith

zero_times : (v n : ℕ) → v ≡ 0 → v * n ≡ 0
zero_times v n e = ap (λ z. z * n) e ∙ zeros n 0

some-equal : {d e : Decimal} → ◌≡◌ {A = Option Decimal} (some d) (some e) → d ≡ e
some-equal h = cc

positive : (v w n m : ℕ) → 0 < v % 10 → w ≡ v * 10 ^ n → w * 10 ^ m ≡ 0 → ⊥
positive v w n m h e f =
    let a = one-le-pow (n + m) 10 (omega arith) in
    let b = mul-le-mul_right (10 ^ (n + m)) (mod-positive v h) in
    let c = joined v w n m e in omega arith

true-false : ◌≡◌ {A = Bool} true false → ⊥
true-false h = cc

zero-led : {s : Bytes} → b'0' ∷ [] ≡ s → is_led s ≡ true → ⊥
zero-led e h = true-false (sym (subst (λ z. is_led z ≡ true) (sym e) h))

module _ (a b : Spelling) (ha : every is_digit a.digits ≡ true)
    (hb : every is_digit b.digits ≡ true) where
  both_zero : value a.digits ≡ 0 → value b.digits ≡ 0 → SameNumber a b
  both_zero x y =
      let j = pos_part a.exponent + neg_part b.exponent in
      let k = pos_part b.exponent + neg_part a.exponent in
      (
        (
          j,
          k,
          ap (λ z. z * 10 ^ j) x ∙ zeros (10 ^ j) (10 ^ k) ∙ sym (ap (λ z. z * 10 ^ k) y),
          common_int a.exponent b.exponent,
        ),
        inr x,
      )

  same_of_normal : (d e : Decimal) → Cut a d → Cut b e → d ≡ e → SameNumber a b
  same_of_normal d e p q h = (
    (
      q.power,
      p.power,
      joined (value d.digits) (value a.digits) p.power q.power p.same
          ∙ ap (λ z. value z.digits * 10 ^ (p.power + q.power)) h
          ∙ ap (λ z. value e.digits * 10 ^ z) (plus_comm p.power q.power)
          ∙ sym (joined (value e.digits) (value b.digits) q.power p.power q.same),
      sym p.shifted ∙ ap (λ z. z.exponent) h ∙ q.shifted,
    ),
    inl (sym p.sign ∙ ap (λ z. z.negative) h ∙ q.sign),
  )

  Cut-sign :
      (d e : Decimal)
      → Cut a d
      → Cut b e
      → (a.negative ≡ b.negative) ⊎ (value a.digits ≡ 0)
      → d.negative ≡ e.negative
  Cut-sign d e p q (inl s) = p.sign ∙ s ∙ sym q.sign
  Cut-sign d e p q (inr z) = absurd (
      positive (value d.digits) (value a.digits) p.power 0 (normal-mod d.digits p.is_normal) p.same
        (zero_times (value a.digits) (10 ^ 0) z))

  normal_of_same : (d e : Decimal) → Cut a d → Cut b e → SameNumber a b → d ≡ e
  normal_of_same d e p q ((j, k, v, x), s) =
      let (digits, powers) =
        same_number d.digits e.digits (p.power + j) (q.power + k) p.is_normal q.is_normal (
          sym (joined (value d.digits) (value a.digits) p.power j p.same)
          ∙ v
          ∙ joined (value e.digits) (value b.digits) q.power k q.same) in
      let sign = Cut-sign d e p q s in
      let exponent =
        p.shifted ∙ shift_int a.exponent b.exponent p.power q.power j k x powers ∙ sym q.shifted in
      λ i. record { negative = sign i; digits = digits i; exponent = exponent i }

  -- Two spellings have one normal form exactly if they are the same number.
  normal-SameNumber : (normal a ≡ normal b) ↔ SameNumber a b
  normal-SameNumber = elim (normalize-cases a (trim_left a.digits) refl ha) [
    | inl (x, e) ↦ elim (normalize-cases b (trim_left b.digits) refl hb) [
      | inl (y, f) ↦ (λ h. both_zero x y, λ h. e ∙ sym f)
      | inr q ↦ (
        λ h. absurd (zero-led (ap (λ z. z.digits) (sym e ∙ h)) q.is_normal.led),
        λ ((j, k, v, u), s). absurd (
            positive (value (normal b).digits) (value b.digits) q.power k
              (normal-mod (normal b).digits q.is_normal) q.same
              (sym v ∙ zero_times (value a.digits) (10 ^ j) x)),
      )
    ]
    | inr p ↦ elim (normalize-cases b (trim_left b.digits) refl hb) [
      | inl (y, f) ↦ (
        λ h. absurd (zero-led (ap (λ z. z.digits) (sym f ∙ sym h)) p.is_normal.led),
        λ ((j, k, v, u), s). absurd (
            positive (value (normal a).digits) (value a.digits) p.power j
              (normal-mod (normal a).digits p.is_normal) p.same
              (v ∙ zero_times (value b.digits) (10 ^ k) y)),
      )
      | inr q ↦ (same_of_normal (normal a) (normal b) p q, normal_of_same (normal a) (normal b) p q)
    ]
  ]

some-spelling : {d e : Spelling} → ◌≡◌ {A = Option Spelling} (some d) (some e) → d ≡ e
some-spelling h = cc

spelled-normalized :
    (parse_int32 : Bytes → Option ℤ) (negative : Bool) (o : Option (Bytes × ℤ)) (a : Spelling)
    → spelled parse_int32 negative o ≡ some a
    → normalized parse_int32 negative o ≡ some (normal a)
unfolding normalized spelled
spelled-normalized parse_int32 negative none a h = cc
spelled-normalized parse_int32 negative (some (digits, e)) a h =
    ap some (ap normal (some-spelling h))

canonical_number-spelling :
    (parse_int32 : Bytes → Option ℤ) (s : Bytes) (a : Spelling)
    → spelling parse_int32 s ≡ some a
    → canonical_number parse_int32 s ≡ some (normal a)
unfolding spelling canonical_number normalized spelled
canonical_number-spelling parse_int32 s a h =
    spelled-normalized parse_int32 (unsigned s).0 (read_number parse_int32 (unsigned s).1) a h

-- Two texts of numbers have the same canonical number exactly if they spell the same number.
pub canonical_number-SameNumber :
    (parse_int32 : Bytes → Option ℤ) (s t : Bytes) (a b : Spelling)
    → spelling parse_int32 s ≡ some a
    → spelling parse_int32 t ≡ some b
    → every is_digit a.digits ≡ true
    → every is_digit b.digits ≡ true
    → (canonical_number parse_int32 s ≡ canonical_number parse_int32 t) ↔ SameNumber a b
canonical_number-SameNumber parse_int32 s t a b es et ha hb =
    let e = canonical_number-spelling parse_int32 s a es in
    let f = canonical_number-spelling parse_int32 t b et in
    let (to, from) = normal-SameNumber a b ha hb in
    (λ h. to (some-equal (sym e ∙ h ∙ f)), λ h. e ∙ ap some (from h) ∙ sym f)
