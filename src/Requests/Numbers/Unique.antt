-- ===== src/Requests/Numbers/Unique.antt =====
-- internal/repository/requests/requests.go: digits without zeros in front and at the end are the only
-- ones of their number.
use ovs_webui.Prelude.{
  ℕ, zero, suc, ◌+◌, ◌-◌, ◌*◌, ◌^◌, ◌≤◌, ◌<◌, ◌%◌, Bool, true, false, not, [], ◌∷◌, length, every,
  ◌≡◌, refl, sym, ap, ◌∙◌, subst, arith, ◌⊎◌, inl, inr, &&-true,
}
use native.Mathlib.Nat.{pow-suc, pow-zero, mul_assoc, mul-le-mul_right, pow-le-pow_right}
use ovs_webui.Requests.Encoding.{Bytes, is_zero, is_empty}
use ovs_webui.Requests.Numbers.Digits.{is_digit, value, value-bound, is_led, is_ended}

nonzero_digit : (c : ℕ) → is_digit c ≡ true → is_zero c ≡ false → 1 ≤ c - b'0'
nonzero_digit c h n = ground arith

unended : (c : ℕ) → is_ended (c ∷ []) ≡ true → is_zero c ≡ false
unended c h = ground arith

last_digit : (c : ℕ) → is_digit c ≡ true → is_zero c ≡ false → 0 < value (c ∷ []) % 10
last_digit c h n = ground arith

cons-nil : (c : ℕ) (cs : Bytes) → ◌≡◌ {A = Bytes} (c ∷ cs) [] → ⊥
cons-nil c cs h = cc

tens : (a b v : ℕ) → a ≡ b * 10 → 0 < v % 10 → 0 < (a + v) % 10
tens a b v e h = omega arith

value-positive :
    (c : ℕ) (cs : Bytes)
    → every is_digit (c ∷ cs) ≡ true
    → is_zero c ≡ false
    → 10 ^ length cs ≤ value (c ∷ cs)
value-positive c cs h n =
    let (d, ds) = &&-true _ _ h in
    let m = mul-le-mul_right (10 ^ length cs) (nonzero_digit c d n) in omega arith

-- Ten does not divide the number of digits without a zero at the end.
value-mod :
    (s : Bytes) → every is_digit s ≡ true → is_ended s ≡ true → (s ≡ []) ⊎ (0 < value s % 10)
value-mod [] h e = inl refl
value-mod (c ∷ []) h e =
    let (d, _) = &&-true _ _ h in let z = pow-zero 10 in inr (last_digit c d (unended c e))
value-mod (c ∷ d ∷ ds) h e =
    let (_, ds') = &&-true _ _ h in
    let (e', _) = &&-true _ _ e in
    elim (value-mod (d ∷ ds) ds' e') [
      | inl p ↦ absurd (cons-nil d ds p)
      | inr p ↦
          let a =
            ap (λ z. (c - b'0') * z) (pow-suc 10 (length ds))
            ∙ sym (mul_assoc (c - b'0') (10 ^ length ds) 10) in
          inr (tens _ _ _ a p)
    ]

not_less : (a b p r s : ℕ) → r < p → a < b → a * p + r ≡ b * p + s → ⊥
not_less a b p r s k l e = let m = mul-le-mul_right p l in omega arith

order : (a b : ℕ) → (a < b) ⊎ ((b < a) ⊎ (a ≡ b))
order a b = ground arith

-- Equal sums of a multiple of `p` and a rest below it.
split : (a b p r s : ℕ) → r < p → s < p → a * p + r ≡ b * p + s → (a ≡ b) × (r ≡ s)
split a b p r s k l' e = elim (order a b) [
  | inl l ↦ absurd (not_less a b p r s k l e)
  | inr (inl l) ↦ absurd (not_less b a p s r l' l (sym e))
  | inr (inr q) ↦ (q, (let m = ap (λ z. z * p) q in omega arith))
]

suc-equal : (m n : ℕ) → suc m ≡ suc n → m ≡ n
suc-equal m n h = omega arith

same_digit : (c d : ℕ) → is_digit c ≡ true → is_digit d ≡ true → c - b'0' ≡ d - b'0' → c ≡ d
same_digit c d p q h = ground arith

same_length :
    (s t : Bytes)
    → every is_digit s ≡ true
    → every is_digit t ≡ true
    → length s ≡ length t
    → value s ≡ value t
    → s ≡ t
same_length [] [] h k l e = refl
same_length [] (d ∷ ds) h k l e = absurd (omega arith)
same_length (c ∷ cs) [] h k l e = absurd (omega arith)
same_length (c ∷ cs) (d ∷ ds) h k l e =
    let (p, ps) = &&-true _ _ h in
    let (q, qs) = &&-true _ _ k in
    let n = suc-equal (length cs) (length ds) l in
    let b = value-bound ds qs in
    let (x, y) =
      split (c - b'0') (d - b'0') (10 ^ length cs) (value cs) (value ds) (value-bound cs ps)
        (subst (λ z. value ds < 10 ^ z) (sym n) b)
        (subst (λ z. value (c ∷ cs) ≡ (d - b'0') * 10 ^ z + value ds) (sym n) e) in
    let r = same_length cs ds ps qs n y in λ i. same_digit c d p q x i ∷ r i

-- A text of digits that is not empty and has no zero in front or at its end.
pub record IsNormal (s : Bytes) : Type 0 where
  pub digits : every is_digit s ≡ true
  pub led : is_led s ≡ true
  pub ended : is_ended s ≡ true
  pub filled : is_empty s ≡ false

true-false : ◌≡◌ {A = Bool} true false → ⊥
true-false h = cc

not-false : {b : Bool} → not b ≡ true → b ≡ false
not-false h = ground arith

pub normal-mod : (s : Bytes) → IsNormal s → 0 < value s % 10
normal-mod s n = elim (value-mod s n.digits n.ended) [
  | inl e ↦ absurd (true-false (sym (ap is_empty e) ∙ n.filled))
  | inr h ↦ h
]

tens_mod : (v w p : ℕ) → v ≡ w * (p * 10) → 0 < v % 10 → ⊥
tens_mod v w p e h = let a = mul_assoc w p 10 in omega arith

unit_power : (v : ℕ) {n : ℕ} → v * 10 ^ 0 ≡ n → v ≡ n
unit_power v e = let z = pow-zero 10 in omega arith

tens_out : (v a : ℕ) → v * 10 ^ a * 10 ≡ v * 10 ^ suc a
tens_out v a = mul_assoc v (10 ^ a) 10 ∙ ap (λ z. v * z) (sym (pow-suc 10 a))

cancel_ten : (a b : ℕ) → a * 10 ≡ b * 10 → a ≡ b
cancel_ten a b h = omega arith

same_power : (v w a b : ℕ) → 0 < v % 10 → 0 < w % 10 → v * 10 ^ a ≡ w * 10 ^ b → (v ≡ w) × (a ≡ b)
same_power v w zero zero h k e = ((let z = pow-zero 10 in grind arith), refl)
same_power v w zero (suc b) h k e =
    absurd (tens_mod v w (10 ^ b) (unit_power v e ∙ ap (λ z. w * z) (pow-suc 10 b)) h)
same_power v w (suc a) zero h k e =
    absurd (tens_mod w v (10 ^ a) (unit_power w (sym e) ∙ ap (λ z. v * z) (pow-suc 10 a)) k)
same_power v w (suc a) (suc b) h k e =
    let (x, y) =
      same_power v w a b h k
        (cancel_ten (v * 10 ^ a) (w * 10 ^ b) (tens_out v a ∙ e ∙ sym (tens_out w b))) in
    (x, ap suc y)

value-less :
    (c : ℕ) (cs t : Bytes)
    → IsNormal (c ∷ cs)
    → every is_digit t ≡ true
    → length t ≤ length cs
    → value (c ∷ cs) ≡ value t
    → ⊥
value-less c cs t n d l e =
    let p = value-positive c cs n.digits (not-false n.led) in
    let b = value-bound t d in let m = pow-le-pow_right {n = 10} (omega arith) l in omega arith

same_value : (s t : Bytes) → IsNormal s → IsNormal t → value s ≡ value t → s ≡ t
same_value [] t n m e = absurd (true-false n.filled)
same_value (c ∷ cs) [] n m e = absurd (true-false m.filled)
same_value (c ∷ cs) (d ∷ ds) n m e = elim (order (length cs) (length ds)) [
  | inl l ↦ absurd (value-less d ds (c ∷ cs) m n.digits l (sym e))
  | inr (inl l) ↦ absurd (value-less c cs (d ∷ ds) n m.digits l e)
  | inr (inr l) ↦ same_length (c ∷ cs) (d ∷ ds) n.digits m.digits (ap suc l) e
]

-- Normal digits and the power of ten are those of the number.
pub same_number :
    (s t : Bytes) (a b : ℕ)
    → IsNormal s
    → IsNormal t
    → value s * 10 ^ a ≡ value t * 10 ^ b
    → (s ≡ t) × (a ≡ b)
same_number s t a b n m e =
    let (v, p) = same_power (value s) (value t) a b (normal-mod s n) (normal-mod t m) e in
    (same_value s t n m v, p)
