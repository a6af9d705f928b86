-- ===== src/Base/Text/Decimal.antt =====
-- `String(n)` for a natural number, the reader of `/^[1-9]\d*$/` texts, and their round trip.
use Prim.Native.Char.{Char, code}
use ai_agent_runner.Base.{
  ℕ, zero, suc, ◌+◌, ◌-◌, ◌*◌, ◌/◌, ◌%◌, ◌<◌, ◌^◌, String, ◌≡◌, refl, ap, ◌∙◌, Bool, true, List, [],
  ◌∷◌, arith, nat_beq, if◌then◌else◌, Bool-cases, inl, inr,
}
use ai_agent_runner.Base.Text.{codes, Matcher, digit, between, one, star, finish}

abbrev digit_char : ℕ → Char
digit_char zero = "0"
digit_char (suc zero) = "1"
digit_char (suc (suc zero)) = "2"
digit_char (suc (suc (suc zero))) = "3"
digit_char (suc (suc (suc (suc zero)))) = "4"
digit_char (suc (suc (suc (suc (suc zero))))) = "5"
digit_char (suc (suc (suc (suc (suc (suc zero)))))) = "6"
digit_char (suc (suc (suc (suc (suc (suc (suc zero))))))) = "7"
digit_char (suc (suc (suc (suc (suc (suc (suc (suc zero)))))))) = "8"
digit_char n = "9"

-- The digits of `n` in front of `acc`, with fuel.
digits_onto : ℕ → ℕ → String → String
digits_onto zero n acc = acc
digits_onto (suc f) n acc =
    let acc' = String.◌∷◌ (digit_char (n % 10)) acc in
    let rest = digits_onto f (n / 10) acc' in if nat_beq (n / 10) 0 then acc' else rest

-- `String(n)`.
unfoldable pub decimal : ℕ → String
unfolding digits_onto
decimal n = digits_onto (suc n) n ""

-- The value of a text of digits, from the left.
abbrev value_from : ℕ → List ℕ → ℕ
value_from n [] = n
value_from n (c ∷ cs) = value_from (n * 10 + (c - 48)) cs

-- `Number(raw)` for a text of digits. Above 2 ^ 53 the source rounds to a double.
unfoldable pub number_of : String → ℕ
number_of s = value_from 0 (codes s)

-- `^[1-9]\d*$`
unfoldable pub is_positive_decimal : String → Bool
is_positive_decimal s = one (λ c. between 49 57 c) (star digit finish) (codes s)

abbrev pub max_safe_integer : ℕ
max_safe_integer = 2 ^ 53 - 1

decimal_tests : (decimal 0 ≡ "0") × (decimal 9070 ≡ "9070") × (number_of "9070" ≡ 9070)
unfolding decimal number_of
decimal_tests = (refl, refl, refl)

code-digit_char : (n : ℕ) → n < 10 → code (digit_char n) ≡ 48 + n
code-digit_char zero h = omega arith
code-digit_char (suc zero) h = omega arith
code-digit_char (suc (suc zero)) h = omega arith
code-digit_char (suc (suc (suc zero))) h = omega arith
code-digit_char (suc (suc (suc (suc zero)))) h = omega arith
code-digit_char (suc (suc (suc (suc (suc zero))))) h = omega arith
code-digit_char (suc (suc (suc (suc (suc (suc zero)))))) h = omega arith
code-digit_char (suc (suc (suc (suc (suc (suc (suc zero))))))) h = omega arith
code-digit_char (suc (suc (suc (suc (suc (suc (suc (suc zero)))))))) h = omega arith
code-digit_char (suc (suc (suc (suc (suc (suc (suc (suc (suc zero))))))))) h = omega arith
code-digit_char (suc (suc (suc (suc (suc (suc (suc (suc (suc (suc n)))))))))) h =
    absurd (omega arith)

value_from-digits_onto :
    (f n : ℕ) (acc : String)
    → n < f
    → value_from 0 (codes (digits_onto f n acc)) ≡ value_from n (codes acc)
unfolding digits_onto
value_from-digits_onto zero n acc h = absurd (omega arith)
value_from-digits_onto (suc f) n acc h = elim (Bool-cases (nat_beq (n / 10) 0)) [
  | inl last ↦
      rw (last, code-digit_char (n % 10) (omega arith))
        (ap (λ v. value_from v (codes acc)) (ground arith))
  | inr more ↦ rw more (
      value_from-digits_onto f (n / 10) (String.◌∷◌ (digit_char (n % 10)) acc) (ground arith)
      ∙ rw (code-digit_char (n % 10) (omega arith))
          (ap (λ v. value_from v (codes acc)) (omega arith)))
]

-- Reading the text of a number gives the number.
pub number_of-decimal : (n : ℕ) → number_of (decimal n) ≡ n
unfolding number_of decimal
number_of-decimal n = value_from-digits_onto (suc n) n "" (omega arith)

abbrev all_digits : Matcher
all_digits = star digit finish

all_digits-digits_onto :
    (f n : ℕ) (acc : String)
    → n < f
    → all_digits (codes acc) ≡ true
    → (0 < n → one (λ c. between 49 57 c) all_digits (codes (digits_onto f n acc)) ≡ true)
unfolding digits_onto
all_digits-digits_onto zero n acc h k pos = absurd (omega arith)
all_digits-digits_onto (suc f) n acc h k pos = elim (Bool-cases (nat_beq (n / 10) 0)) [
  | inl last ↦ rw (last, code-digit_char (n % 10) (omega arith)) (ground arith)
  | inr more ↦ rw more (
      all_digits-digits_onto f (n / 10) (String.◌∷◌ (digit_char (n % 10)) acc) (ground arith)
        (rw (code-digit_char (n % 10) (omega arith)) (ground arith)) (ground arith))
]

-- The text of a positive number has the form that the readers demand.
pub is_positive_decimal-decimal : (n : ℕ) → 0 < n → is_positive_decimal (decimal n) ≡ true
unfolding is_positive_decimal decimal
is_positive_decimal-decimal n h = all_digits-digits_onto (suc n) n "" (omega arith) refl h
