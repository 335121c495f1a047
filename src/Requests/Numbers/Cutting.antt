-- ===== src/Requests/Numbers/Cutting.antt =====
-- internal/repository/requests/requests.go: where the text of a number is cut, and what it is joined of.
use ovs_webui.Prelude.{
  ℕ, ◌+◌, ◌*◌, ◌^◌, Bool, true, false, not, [], ◌∷◌, ◌++◌, Option, none, some, if◌then◌else◌,
  length, every, ◌≡◌, refl, ap, ◌∙◌, arith, &&-true,
}
use ovs_webui.Requests.Encoding.{Bytes, cut}
use ovs_webui.Requests.Numbers.Digits.{value, pow-add}

keep_on :
    (b : Bool) (x : ℕ) (r : Bytes × Option Bytes) (xs : Bytes) (o : Option Bytes)
    (z : Bytes × Option Bytes)
    → not b ≡ true
    → r ≡ (xs, o)
    → (if b then z else (x ∷ r.0, r.1)) ≡ (x ∷ xs, o)
keep_on true x r xs o z h e = cc
keep_on false x r xs o z h e = ap (λ (q : Bytes × Option Bytes). (x ∷ q.0, q.1)) e

pub cut-none :
    (p : ℕ → Bool) (xs : Bytes) → every (λ c. not (p c)) xs ≡ true → cut p xs ≡ (xs, none)
unfolding cut
cut-none p [] h = refl
cut-none p (x ∷ xs) h =
    let (b, rest) = &&-true _ _ h in keep_on (p x) x _ xs none _ b (cut-none p xs rest)

pub cut_at :
    (p : ℕ → Bool) (xs : Bytes) (c : ℕ) (ys : Bytes)
    → every (λ c. not (p c)) xs ≡ true
    → p c ≡ true
    → cut p (xs ++ (c ∷ ys)) ≡ (xs, some ys)
unfolding cut
cut_at p [] c ys h k = rw k refl
cut_at p (x ∷ xs) c ys h k =
    let (b, rest) = &&-true _ _ h in keep_on (p x) x _ xs (some ys) _ b (cut_at p xs c ys rest k)

pub every-++ :
    (p : ℕ → Bool) (xs ys : Bytes)
    → every p xs ≡ true
    → every p ys ≡ true
    → every p (xs ++ ys) ≡ true
every-++ p [] ys h k = k
every-++ p (x ∷ xs) ys h k = ground (arith, every-++ p xs ys)

length-++ : (xs ys : Bytes) → length (xs ++ ys) ≡ length xs + length ys
length-++ [] ys = omega arith
length-++ (x ∷ xs) ys = ground (arith, length-++ xs ys)

pub value-++ : (xs ys : Bytes) → value (xs ++ ys) ≡ value xs * 10 ^ length ys + value ys
value-++ [] ys = omega arith
value-++ (x ∷ xs) ys =
    let e = ap (λ n. 10 ^ n) (length-++ xs ys) ∙ pow-add 10 (length xs) (length ys) in
    let v = value-++ xs ys in grind arith

pub ++_nil : (xs : Bytes) → xs ++ [] ≡ xs
++_nil [] = refl
++_nil (x ∷ xs) = ap (λ z. x ∷ z) (++_nil xs)
