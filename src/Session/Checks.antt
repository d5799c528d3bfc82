-- ===== src/Session/Checks.antt =====
-- ls_autobahn.cpp: the checks of a message's elements, which throw.
use basicmatch.Base.{
  ℕ, zero, suc, Bool, true, false, ◌||◌, List, [], ◌∷◌, Option, none, some, Text, if◌then◌else◌,
  ◌==◌,
}
use basicmatch.Session.State.{
  ObjectType, positive_integer, str, array, dictionary, other_type, Msgpack, protocol_error,
  msgpack_error, Action, pure, require, or_throw, or_undefined, ◌>>=◌, ◌>>◌,
}
use basicmatch.Session.Packing.{
  MsgCode, publish_code, subscribe_code, unsubscribe, call_code, register, unregister, code_value,
}

abbrev pub same_type : ObjectType → ObjectType → Bool
same_type positive_integer positive_integer = true
same_type str str = true
same_type array array = true
same_type dictionary dictionary = true
same_type other_type other_type = true
same_type _ _ = false

-- The enumerator with a value, if there is one.
abbrev pub find_code : List MsgCode → ℕ → Option MsgCode
find_code [] n = none
find_code (c ∷ cs) n = if code_value c == n then some c else find_code cs n

abbrev pub get_elem? : {A : Type 0} → List A → ℕ → Option A
get_elem? [] i = none
get_elem? (x ∷ xs) zero = some x
get_elem? (x ∷ xs) (suc i) = get_elem? xs i

-- m.find(k), which the handlers look up before they know that they will use it.
abbrev pub or_bogus : {C A : Type 0} → Option A → Text → Action C A
or_bogus o text = or_throw o (protocol_error text)

-- as<T>() and convert(), which throw.
abbrev pub converted : {C A : Type 0} → Option A → Action C A
converted o = or_throw o msgpack_error

-- The types of a request that an ERROR may answer.
abbrev pub is_request_type : ℕ → Bool
is_request_type n =
    (n == code_value call_code)
    || (n == code_value register)
    || (n == code_value unregister)
    || (n == code_value publish_code)
    || (n == code_value subscribe_code)
    || (n == code_value unsubscribe)

module _ {O : Type 0} (mp : Msgpack O) where
  abbrev pub is_type : ObjectType → O → Bool
  is_type t o = same_type (mp.type_of o) t

  -- msg[i] of a type that is checked, with a message for another.
  abbrev pub checked : {C : Type 0} → ℕ → ObjectType → Text → List O → Action C O
  checked i t text msg = do o ← or_undefined (get_elem? msg i); require (is_type t o) text; pure o
