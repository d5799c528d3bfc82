-- ===== src/Serializer/RoundTrip.antt =====
-- The answer to a cancellation, sent back as a request, asks for the same cancellation.
use native.Mathlib.Nat.{pow-suc}
use basicmatch.Base.{
  ℕ, zero, suc, ◌+◌, ◌/◌, ◌%◌, ◌^◌, ◌<◌, ◌≤◌, ◌≡◌, true, some, [], ◌∷◌, ◌++◌, Text, arith, refl,
  length, take, ap, codes,
}
use basicmatch.Types.{OrderAction, cancel}
use basicmatch.Serializer.{
  decimal, decimal_digits, digits_value, is_digit, all_chars, is_number, words, add_char, stoi,
  convert, deserialize, parse_cancel,
}

decimal_digits-value :
    (f n : ℕ) (rest : Text)
    → n < 10 ^ f
    → digits_value 0 (decimal_digits f n rest) ≡ digits_value n rest
unfolding decimal_digits digits_value
decimal_digits-value zero n rest h = ap (λ k. digits_value k rest) (omega arith)
decimal_digits-value (suc f) n rest h =
    ground (arith, decimal_digits-value f (n / 10) ((48 + n % 10) ∷ rest), pow-suc 10 f)

decimal_digits-is_digit :
    (f n : ℕ) (rest : Text)
    → all_chars is_digit rest ≡ true
    → all_chars is_digit (decimal_digits f n rest) ≡ true
unfolding decimal_digits all_chars is_digit
decimal_digits-is_digit zero n rest h = h
decimal_digits-is_digit (suc f) n rest h =
    ground (arith, decimal_digits-is_digit f (n / 10) ((48 + n % 10) ∷ rest))

length-decimal_digits : (f n : ℕ) (rest : Text) → length (decimal_digits f n rest) ≤ f + length rest
unfolding decimal_digits
length-decimal_digits zero n rest = omega arith
length-decimal_digits (suc f) n rest =
    ground (arith, length-decimal_digits f (n / 10) ((48 + n % 10) ∷ rest))

decimal_digits-ne-nil :
    (f n : ℕ) (rest : Text) → 0 < length rest → 0 < length (decimal_digits f n rest)
unfolding decimal_digits
decimal_digits-ne-nil zero n rest h = h
decimal_digits-ne-nil (suc f) n rest h =
    ground (arith, decimal_digits-ne-nil f (n / 10) ((48 + n % 10) ∷ rest))

-- A text of digits is one word.
words-digits : (s : Text) → all_chars is_digit s ≡ true → words s ≡ s ∷ []
unfolding words all_chars is_digit
words-digits [] h = refl
words-digits (c ∷ s) h = ground (arith, words-digits s)

take-all : (n : ℕ) (s : Text) → length s ≤ n → take n s ≡ s
take-all zero [] h = refl
take-all zero (c ∷ s) h = absurd (omega arith)
take-all (suc n) [] h = refl
take-all (suc n) (c ∷ s) h = ap (◌∷◌ c) (take-all n s (omega arith))

is_number-digits : (s : Text) → 0 < length s → all_chars is_digit s ≡ true → is_number s ≡ true
unfolding is_number
is_number-digits [] h k = absurd (omega arith)
is_number-digits (c ∷ s) h k = k

decimal-ne-nil : (n : ℕ) → 0 < length (decimal n)
unfolding decimal
decimal-ne-nil n = ground (arith, decimal_digits-ne-nil 19 (n / 10) ((48 + n % 10) ∷ []))

decimal-digits : (n : ℕ) → all_chars is_digit (decimal n) ≡ true
unfolding decimal
decimal-digits n = decimal_digits-is_digit 20 n [] (unfold all_chars in refl)

length-decimal : (n : ℕ) → length (decimal n) ≤ 20
unfolding decimal
length-decimal n = omega (arith, length-decimal_digits 20 n [])

stoi-decimal : (n : ℕ) → n < 2 ^ 31 → stoi (decimal n) ≡ some n
unfolding stoi decimal
stoi-decimal n h =
    rw (decimal_digits-value 20 n [] (omega arith)) (unfold digits_value in ground arith)

parse_cancel-decimal :
    (stod : Text → ℕ) (n : ℕ) → n < 2 ^ 31 → parse_cancel stod (decimal n) ≡ some (cancel n)
unfolding parse_cancel
parse_cancel-decimal stod n h =
    rw (is_number-digits (decimal n) (decimal-ne-nil n) (decimal-digits n), stoi-decimal n h)

deserialize-cancel :
    (stod : Text → ℕ) (s : Text) (a : OrderAction)
    → all_chars is_digit s ≡ true
    → parse_cancel stod s ≡ some a
    → deserialize stod (codes "X " ++ s) ≡ (a, true)
unfolding deserialize words add_char
deserialize-cancel stod s a d e = rw (words-digits s d, e)

-- The printed cancellation of an id below 2^31 is a line that is read as that cancellation, however
-- prices are shown and read.
pub deserialize-convert :
    (stod : Text → ℕ) (show_price : ℕ → Text) (id : ℕ)
    → id < 2 ^ 31
    → (line : Text) × (convert show_price (cancel id) ≡ some line)
      × (deserialize stod line ≡ (cancel id, true))
unfolding convert
deserialize-convert stod show_price id h = (
  codes "X " ++ decimal id,
  ap some (take-all 127 (codes "X " ++ decimal id) (omega (arith, length-decimal id))),
  deserialize-cancel stod (decimal id) (cancel id) (decimal-digits id)
      (parse_cancel-decimal stod id h),
)
