-- ===== src/Serializer.antt =====
-- serializer.h and serializer.cpp: lines of text to actions, and actions to lines of text.
pub mod RoundTrip
use mathlib.Core.Option
use basicmatch.Base.{
  ℕ, zero, suc, ◌+◌, ◌-◌, ◌*◌, ◌/◌, ◌%◌, ◌^◌, ◌<◌, Bool, true, false, not, ◌&&◌, ◌||◌, List, [],
  ◌∷◌, ◌++◌, Option, none, some, Text, Text-discrete, take, ltb, leb, ◌==◌, if◌then◌else◌, length,
  map, codes, ite,
}
use basicmatch.Types.{
  Side, OrderInfo, ErrorInfo, OrderAction, error, cancel, submit, filled, printed, print_all,
}

abbrev pub space : ℕ
space = 32

unfoldable pub is_digit : ℕ → Bool
is_digit c = leb b'0' c && leb c b'9'

unfoldable pub is_symbol_char : ℕ → Bool
unfolding is_digit
is_symbol_char c = is_digit c || (leb b'a' c && leb c b'z') || (leb b'A' c && leb c b'Z')

unfoldable pub all_chars : (ℕ → Bool) → Text → Bool
all_chars p [] = true
all_chars p (c ∷ cs) = p c && all_chars p cs

-- A character in front of the first word.
unfoldable pub add_char : ℕ → List Text → List Text
add_char c [] = (c ∷ []) ∷ []
add_char c (w ∷ ws) = (c ∷ w) ∷ ws

-- No group of the expressions matches a space, so a line that matches is its words.
unfoldable pub words : Text → List Text
unfolding add_char
words [] = [] ∷ []
words (c ∷ cs) = if c == space then [] ∷ words cs else add_char c (words cs)

-- \d+
unfoldable pub is_number : Text → Bool
unfolding all_chars is_digit
is_number [] = false
is_number (c ∷ cs) = all_chars is_digit (c ∷ cs)

-- [0-9a-zA-Z]{0,8}
unfoldable pub is_symbol : Text → Bool
unfolding all_chars is_symbol_char
is_symbol s = all_chars is_symbol_char s && leb (length s) 8

-- [0-9]{0,5} to the end
unfoldable pub is_fraction : Text → Bool
unfolding all_chars is_digit
is_fraction s = all_chars is_digit s && leb (length s) 5

-- [0-9]{0,n}\.?[0-9]{0,5} to the end: a digit is read as one of the first group as long as that has
-- room, and the second group takes five more at most.
unfoldable pub is_magnitude : ℕ → Text → Bool
unfolding is_fraction is_digit
is_magnitude n [] = true
is_magnitude zero (c ∷ cs) = if c == b'.' then is_fraction cs else is_fraction (c ∷ cs)
is_magnitude (suc n) (c ∷ cs) =
    if c == b'.' then is_fraction cs else is_digit c && is_magnitude n cs

-- [-+]?[0-9]{0,7}\.?[0-9]{0,5}
unfoldable pub is_price : Text → Bool
unfolding is_magnitude
is_price [] = true
is_price (c ∷ cs) = if c == b'-' || (c == b'+') then is_magnitude 7 cs else is_magnitude 7 (c ∷ cs)

unfoldable pub has_digit : Text → Bool
unfolding is_digit
has_digit [] = false
has_digit (c ∷ cs) = is_digit c || has_digit cs

unfoldable pub digits_value : ℕ → Text → ℕ
digits_value acc [] = acc
digits_value acc (c ∷ cs) = digits_value (acc * 10 + (c - b'0')) cs

-- std::stoi on digits, which throws above INT_MAX.
unfoldable pub stoi : Text → Option ℕ
unfolding digits_value
stoi s = let n = digits_value 0 s in if ltb n (2 ^ 31) then some n else none

unfoldable pub parse_side : Text → Option Side
parse_side (c ∷ []) =
    if c == b'B' then some Side.buy else if c == b'S' then some Side.sell else none
parse_side s = none

abbrev pub invalid_input : OrderAction
invalid_input = error (record { id = 0; msg = codes "invalid input" })

-- `stod` gives the rank of the double nearest to a decimal with a digit in it; without one it
-- throws.
module _ (stod : Text → ℕ) where
  -- The groups of `submit_fmt_`, with `none` where a group does not match or a conversion throws.
  unfoldable pub parse_submit : Text → Text → Text → Text → Text → Option OrderAction
  unfolding is_number is_symbol is_price has_digit stoi parse_side Option.bind
  parse_submit id symbol side qty price =
      if is_number id && is_symbol symbol && is_number qty && is_price price && has_digit price
      then Option.bind (parse_side side) (λ s. Option.bind (stoi qty) (λ q.
        Option.map
          (λ i.
            submit
              (record { id = i; symbol = symbol; side = s; qty = q % 2 ^ 16; price = stod price }))
          (stoi id)))
      else none

  unfoldable pub parse_cancel : Text → Option OrderAction
  unfolding is_number stoi
  parse_cancel id = if is_number id then Option.map cancel (stoi id) else none

  -- By the number of words, and then by the first of them.
  unfoldable pub parse_words : List Text → Option OrderAction
  unfolding parse_submit parse_cancel Text-discrete
  parse_words (w ∷ []) = ite (Text-discrete w (codes "P")) (some print_all) none
  parse_words (w ∷ id ∷ []) = ite (Text-discrete w (codes "X")) (parse_cancel id) none
  parse_words (w ∷ id ∷ symbol ∷ side ∷ qty ∷ price ∷ []) =
      ite (Text-discrete w (codes "O")) (parse_submit id symbol side qty price) none
  parse_words ws = none

  unfoldable pub deserialize : Text → OrderAction × Bool
  unfolding words parse_words
  deserialize line = elim (parse_words (words line)) [
    | none ↦ (invalid_input, false)
    | some a ↦ (a, true)
  ]

-- %u of a number below 10^20.
unfoldable pub decimal_digits : ℕ → ℕ → Text → Text
decimal_digits zero n rest = rest
decimal_digits (suc f) n rest =
    let more = decimal_digits f (n / 10) ((b'0' + n % 10) ∷ rest) in
    if ltb n 10 then (b'0' + n) ∷ rest else more

unfoldable pub decimal : ℕ → Text
unfolding decimal_digits
decimal n = decimal_digits 20 n []

unfoldable pub side_char : Side → ℕ
side_char Side.none = 0
side_char Side.buy = b'B'
side_char Side.sell = b'S'

-- snprintf cuts off at 127 characters. `none` is the assertion.
module _ (show_price : ℕ → Text) where
  unfoldable pub convert : OrderAction → Option Text
  unfolding decimal side_char
  convert (error e) = some (take 127 (codes "E " ++ decimal e.id ++ space ∷ e.msg))
  convert (filled o) = some (
      take 127 (
        codes "F "
        ++ decimal o.id
        ++ space ∷ o.symbol
        ++ space ∷ decimal o.qty
        ++ space ∷ show_price o.price))
  convert (cancel id) = some (take 127 (codes "X " ++ decimal id))
  convert (printed o) = some (
      take 127 (
        codes "P "
        ++ decimal o.id
        ++ space ∷ o.symbol
        ++ space ∷ side_char o.side ∷ space ∷ decimal o.qty
        ++ space ∷ show_price o.price))
  convert _ = none

  unfoldable pub serialize : List OrderAction → Option (List Text)
  unfolding convert Option.bind
  serialize [] = some []
  serialize (a ∷ rest) = Option.bind (convert a) (λ line. Option.map (◌∷◌ line) (serialize rest))
