-- ===== src/Requests/Numbers/Digits.antt =====
-- internal/repository/requests/requests.go: decimal digits and the zeros that are cut off them.
use ovs_webui.Prelude.{
  ℕ, zero, suc, ◌+◌, ◌-◌, ◌*◌, ◌^◌, ◌≤◌, ◌<◌, Bool, true, false, not, ◌&&◌, [], ◌∷◌, if◌then◌else◌,
  length, leb, every, ◌≡◌, refl, sym, ap, ◌∙◌, arith, &&-true,
}
use native.Mathlib.Nat.{pow-suc, pow-zero, mul_assoc, mul-le-mul_right}
use ovs_webui.Requests.Encoding.{Bytes, trim_left, trim_right, is_zero, is_empty}

abbrev pub is_digit : ℕ → Bool
is_digit c = leb b'0' c && leb c b'9'

-- The number of a text of digits.
abbrev pub value : Bytes → ℕ
value [] = 0
value (c ∷ cs) = (c - b'0') * 10 ^ length cs + value cs

pub value-trim_left : (s : Bytes) → value (trim_left s) ≡ value s
unfolding trim_left
value-trim_left [] = refl
value-trim_left (c ∷ cs) = ground (arith, value-trim_left cs)

digit_le : (c : ℕ) → is_digit c ≡ true → suc (c - b'0') ≤ 10
digit_le c h = ground arith

pub value-bound : (s : Bytes) → every is_digit s ≡ true → value s < 10 ^ length s
value-bound [] h = omega arith
value-bound (c ∷ cs) h =
    let (d, ds) = &&-true _ _ h in
    let l = value-bound cs ds in
    let p = digit_le c d in
    let m = mul-le-mul_right (10 ^ length cs) p in let e = pow-suc 10 (length cs) in omega arith

plus_zero : (m : ℕ) → m + 0 ≡ m
plus_zero m = omega arith

plus_suc : (m n : ℕ) → m + suc n ≡ suc (m + n)
plus_suc m n = omega arith

pub pow-add : (b m n : ℕ) → b ^ (m + n) ≡ b ^ m * b ^ n
pow-add b m zero = let e = ap (λ n. b ^ n) (plus_zero m) in let f = pow-zero b in grind arith
pow-add b m (suc n) =
    ap (λ z. b ^ z) (plus_suc m n)
    ∙ pow-suc b (m + n)
    ∙ ap (λ z. z * b) (pow-add b m n)
    ∙ mul_assoc (b ^ m) (b ^ n) b
    ∙ ap (λ z. b ^ m * z) (sym (pow-suc b n))

shift :
    (c : ℕ) (rest cs : Bytes) (j : ℕ)
    → length cs ≡ length rest + j
    → value cs ≡ value rest * 10 ^ j
    → value (c ∷ cs) ≡ value (c ∷ rest) * 10 ^ j
shift c rest cs j l v =
    let e = ap (λ n. 10 ^ n) l in let f = pow-add 10 (length rest) j in grind arith

zero_digit : (c : ℕ) → is_zero c ≡ true → c - b'0' ≡ 0
zero_digit c h = ground arith

-- One digit before a text that was trimmed.
right_at :
    (c : ℕ) (cs rest : Bytes) (b : Bool)
    → is_zero c ≡ b
    → (j : ℕ) → length cs ≡ length rest + j
    → value cs ≡ value rest * 10 ^ j
    → let out = (if b && is_empty rest then [] else c ∷ rest) in
      (k : ℕ) × (length (c ∷ cs) ≡ length out + k) × (value (c ∷ cs) ≡ value out * 10 ^ k)
right_at c cs [] true z j l v =
    let e = zero_digit c z in
    (suc (length cs), omega arith, (let d = ap (λ n. n * 10 ^ length cs) e in omega arith))
right_at c cs (d ∷ rest) true z j l v = (j, omega arith, shift c (d ∷ rest) cs j l v)
right_at c cs rest false z j l v = (j, omega arith, shift c rest cs j l v)

-- What `trim_right` cuts off are factors of ten.
pub value-trim_right :
    (s : Bytes)
    → (j : ℕ) × (length s ≡ length (trim_right s) + j) × (value s ≡ value (trim_right s) * 10 ^ j)
unfolding trim_right
value-trim_right [] = (0, refl, refl)
value-trim_right (c ∷ cs) =
    let (j, l, v) = value-trim_right cs in right_at c cs (trim_right cs) (is_zero c) refl j l v

-- A text without a zero in front, and one without a zero at its end.
abbrev pub is_led : Bytes → Bool
is_led [] = true
is_led (c ∷ cs) = not (is_zero c)

abbrev pub is_ended : Bytes → Bool
is_ended [] = true
is_ended (c ∷ cs) = is_ended cs && not (is_zero c && is_empty cs)

pub is_led-trim_left : (s : Bytes) → is_led (trim_left s) ≡ true
unfolding trim_left
is_led-trim_left [] = refl
is_led-trim_left (c ∷ cs) = ground (arith, is_led-trim_left cs)

pub is_ended-trim_right : (s : Bytes) → is_ended (trim_right s) ≡ true
unfolding trim_right
is_ended-trim_right [] = refl
is_ended-trim_right (c ∷ cs) = ground (arith, is_ended-trim_right cs)

pub is_led-trim_right : (s : Bytes) → is_led s ≡ true → is_led (trim_right s) ≡ true
unfolding trim_right
is_led-trim_right [] h = refl
is_led-trim_right (c ∷ cs) h = ground arith

pub digits-trim_left : (s : Bytes) → every is_digit s ≡ true → every is_digit (trim_left s) ≡ true
unfolding trim_left
digits-trim_left [] h = refl
digits-trim_left (c ∷ cs) h = ground (arith, digits-trim_left cs)

pub digits-trim_right : (s : Bytes) → every is_digit s ≡ true → every is_digit (trim_right s) ≡ true
unfolding trim_right
digits-trim_right [] h = refl
digits-trim_right (c ∷ cs) h = ground (arith, digits-trim_right cs)
