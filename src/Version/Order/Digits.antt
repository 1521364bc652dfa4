-- ===== src/Version/Order/Digits.antt =====
-- compareDigits orders digit strings of any length by their value.
use native.Mathlib.Nat.{pow-suc, pow-le-pow_right}
use sandbox_kit_spec.Base.{
  ℕ, ◌+◌, ◌-◌, ◌*◌, ◌^◌, ◌≤◌, ◌<◌, compare, ◌≡◌, refl, true, false, [], ◌∷◌, length, all, Text,
  compare_text, trim_left, is_digit, ◌==◌, arith, ap,
}
use sandbox_kit_spec.Version.Order.{all_digits, is_zero, compare_trimmed, compare_digits}

-- The number that a digit string writes in base ten.
unfoldable pub value : Text → ℕ
value [] = 0
value (c ∷ s) = (c - b'0') * 10 ^ length s + value s

add_mul_lt : (a b p x y : ℕ) → a < b → x < p → a * p + x < b * p + y
add_mul_lt a b p x y h k = grind arith

value-lt : (s : Text) → all is_digit s ≡ true → value s < 10 ^ length s
unfolding value is_digit
value-lt [] h = omega arith
value-lt (c ∷ s) h =
    rw pow-suc (grind (arith, value-lt s, add_mul_lt (c - b'0') 10 (10 ^ length s) (value s) 0))

value-trim : (s : Text) → value (trim_left is_zero s) ≡ value s
unfolding value trim_left
value-trim [] = refl
value-trim (c ∷ s) = ground (arith, value-trim s)

pub all-trim : (s : Text) → all is_digit s ≡ true → all is_digit (trim_left is_zero s) ≡ true
unfolding trim_left
all-trim [] h = refl
all-trim (c ∷ s) h = ground (arith, all-trim s)

-- Digit strings of one length compare by value.
compare_text-digits :
    (s t : Text)
    → all is_digit s ≡ true
    → all is_digit t ≡ true
    → length s ≡ length t
    → compare_text s t ≡ compare (value s) (value t)
unfolding value is_digit compare_text
compare_text-digits [] [] h k e = refl
compare_text-digits [] (d ∷ t) h k e = absurd (omega arith)
compare_text-digits (c ∷ s) [] h k e = absurd (omega arith)
compare_text-digits (c ∷ s) (d ∷ t) h k e =
    let same : length s ≡ length t = omega arith in
    rw same (
      ground (
        arith,
        compare_text-digits s t,
        value-lt s,
        value-lt t,
        ap (λ n. 10 ^ n) same,
        add_mul_lt (c - b'0') (d - b'0') (10 ^ length t) (value s) (value t),
        add_mul_lt (d - b'0') (c - b'0') (10 ^ length t) (value t) (value s),
      ))

-- No zero stands first.
abbrev pub IsStripped : Text → Type 0
IsStripped [] = Unit
IsStripped (c ∷ s) = (c == b'0') ≡ false

pub trim-IsStripped : (s : Text) → IsStripped (trim_left is_zero s)
unfolding trim_left
trim-IsStripped [] = tt
trim-IsStripped (c ∷ s) = ground (arith, trim-IsStripped s)

le-mul-add : (a p x : ℕ) → 1 ≤ a → p ≤ a * p + x
le-mul-add a p x h = grind arith

value-ge :
    (c : ℕ) (s : Text)
    → all is_digit (c ∷ s) ≡ true
    → IsStripped (c ∷ s)
    → 10 ^ length s ≤ value (c ∷ s)
unfolding value is_digit
value-ge c s h k = ground (arith, le-mul-add (c - b'0') (10 ^ length s) (value s))

-- A longer one without leading zeros is larger.
value-lt_of_length :
    (s t : Text)
    → all is_digit s ≡ true
    → all is_digit t ≡ true
    → IsStripped t
    → length s < length t
    → value s < value t
value-lt_of_length s [] h k z l = absurd (omega arith)
value-lt_of_length s (d ∷ t) h k z l = omega (
  arith,
  value-lt s h,
  value-ge d t k z,
  pow-le-pow_right {n = 10} (omega arith) {i = length s} {j = length t} (omega arith),
)

compare_trimmed-digits :
    (s t : Text)
    → all is_digit s ≡ true
    → all is_digit t ≡ true
    → IsStripped s
    → IsStripped t
    → compare_trimmed s t ≡ compare (value s) (value t)
compare_trimmed-digits s t h k y z =
    ground (
      arith,
      compare_text-digits s t h k,
      value-lt_of_length s t h k z,
      value-lt_of_length t s k h y,
    )

pub all_digits-all : (s : Text) → all_digits s ≡ true → all is_digit s ≡ true
unfolding all_digits
all_digits-all [] h = cc
all_digits-all (c ∷ s) h = h

-- Two digit strings, of any length and with any leading zeros, compare as the numbers they write.
pub compare_digits-value :
    (a b : Text)
    → all_digits a ≡ true
    → all_digits b ≡ true
    → compare_digits a b ≡ compare (value a) (value b)
unfolding compare_digits
compare_digits-value a b h k =
    rw (← value-trim a, ← value-trim b)
      (compare_trimmed-digits (trim_left is_zero a) (trim_left is_zero b)
        (all-trim a (all_digits-all a h)) (all-trim b (all_digits-all b k)) (trim-IsStripped a)
        (trim-IsStripped b))
