-- ===== src/Session/State.antt =====
-- ls_autobahn.h: the state of a session, the user's callbacks, and what msgpack does for it.
use basicmatch.Base.{
  ℕ, ◌==◌, Bool, true, false, List, [], Option, none, some, Text, IdMap, empty_map, if◌then◌else◌,
}
use basicmatch.Session.Buffer.{Buffer, new_buffer}

-- The types of a msgpack object that the session asks for.
pub data ObjectType : Type 0 where
  positive_integer str array dictionary other_type : ObjectType

-- A call of the packer.
pub data Packed (O : Type 0) : Type 0 where
  pack_array : ℕ → Packed O
  pack_map : ℕ → Packed O
  pack_int : ℕ → Packed O
  pack_uint64 : ℕ → Packed O
  pack_str : Text → Packed O
  pack_object : O → Packed O

-- Keyword arguments: std::map<std::string, object>, in the order of its keys.
abbrev pub Kwargs : Type 0 → Type 0
Kwargs O = List (Text × O)

-- What the session calls of msgpack. A conversion that throws is `none`.
pub record Msgpack (O : Type 0) : Type 0 where
  pub type_of : O → ObjectType
  pub as_int : O → Option ℕ
  pub as_uint64 : O → Option ℕ
  pub as_string : O → Option Text
  pub as_vector : O → Option (List O)
  pub as_kwargs : O → Option (Kwargs O)
  -- object()
  pub nil : O
  -- The writes to the buffer that a call of the packer makes.
  pub writes : Packed O → List (List ℕ)
  -- msgpack::unpack(&result, buf, size, &off): the object and the new offset.
  pub unpack : List ℕ → ℕ → ℕ → Option (O × ℕ)

-- A procedure with the type of its endpoint.
pub data Endpoint (C : Type 0) : Type 0 where
  endpoint : C → Endpoint C
  endpoint_v : C → Endpoint C
  endpoint_m : C → Endpoint C
  endpoint_vm : C → Endpoint C

-- `C` is the delegates of the user. `sent` is what was handed to ::send.
pub record Session (C : Type 0) : Type 0 where
  pub buf : Buffer
  pub jcb : Option C
  pub secb : C
  pub realm : Text
  pub session_id : ℕ
  pub request_id : ℕ
  pub stopped : Bool
  pub leaving : Bool
  pub pending_subscriptions : IdMap C
  pub subscriptions : IdMap C
  pub calls : IdMap C
  pub pending_procs : IdMap (Endpoint C)
  pub procs : IdMap (Endpoint C)
  pub sent : List (List ℕ)

pub data Error : Type 0 where
  protocol_error : Text → Error
  no_session_error : Error
  msgpack_error : Error
  user_error : Error

-- How a call ends: with a value, with an exception and the state at the throw, in undefined
-- behaviour, or still running when the fuel is gone.
pub data Outcome (C A : Type 0) : Type 0 where
  returned : A → Session C → Outcome C A
  threw : Error → Session C → Outcome C A
  undefined : Outcome C A
  running : Outcome C A

abbrev pub Action : Type 0 → Type 0 → Type 0
Action C A = Session C → Outcome C A

-- The user's code behind the delegates: it may call the session, and it may throw.
pub record User (O C : Type 0) : Type 0 where
  pub on_join : C → ℕ → Action C (Unit {0})
  pub on_end : C → Text → Action C (Unit {0})
  pub on_event : C → List O → Kwargs O → Action C (Unit {0})
  pub on_result : C → O → Action C (Unit {0})
  pub on_call : C → List O → Kwargs O → Action C O
  pub on_call_v : C → List O → Kwargs O → Action C (List O)
  pub on_call_m : C → List O → Kwargs O → Action C (Kwargs O)
  pub on_call_vm : C → List O → Kwargs O → Action C (List O × Kwargs O)

module _ {C : Type 0} where
  abbrev pub pure : {A : Type 0} → A → Action C A
  pure a s = returned a s

  abbrev pub raise : {A : Type 0} → Error → Action C A
  raise e s = threw e s

  abbrev pub gets : {A : Type 0} → (Session C → A) → Action C A
  gets f s = returned (f s) s

  abbrev pub modify : (Session C → Session C) → Action C (Unit {0})
  modify f s = returned tt (f s)

  abbrev pub when : Bool → Action C (Unit {0}) → Action C (Unit {0})
  when true m s = m s
  when false m s = returned tt s

  abbrev pub require : Bool → Text → Action C (Unit {0})
  require true text s = returned tt s
  require false text s = threw (protocol_error text) s

  -- it == end()
  abbrev pub or_throw : {A : Type 0} → Option A → Error → Action C A
  or_throw none e s = threw e s
  or_throw (some a) e s = returned a s

  -- An element of a vector, which `[]` does not check.
  abbrev pub or_undefined : {A : Type 0} → Option A → Action C A
  or_undefined none s = undefined
  or_undefined (some a) s = returned a s

  -- catch (...)
  abbrev pub catch_all : Action C (Unit {0}) → Action C (Unit {0})
  catch_all m s = elim (m s) [
    | returned a s' ↦ returned a s'
    | threw e s' ↦ returned tt s'
    | undefined ↦ undefined
    | running ↦ running
  ]

-- std::unordered_map::emplace, which leaves a key that is there alone.
abbrev pub emplace : {V : Type 0} → ℕ → V → IdMap V → IdMap V
emplace k v m j = elim (m j) [ none ↦ if k == j then some v else none | some w ↦ some w ]

infixl 5 ◌>>=◌ ◌>>◌
abbrev pub ◌>>=◌ : {C A B : Type 0} → Action C A → (A → Action C B) → Action C B
◌>>=◌ m f s = elim (m s) [
  | returned a s' ↦ f a s'
  | threw e s' ↦ threw e s'
  | undefined ↦ undefined
  | running ↦ running
]

abbrev pub ◌>>◌ : {C A B : Type 0} → Action C A → Action C B → Action C B
m >> k = m >>= λ _. k

-- The constructor, before it connects.
unfoldable pub new_session : {C : Type 0} → Text → Option C → C → Session C
unfolding new_buffer
new_session realm jcb secb = record {
  buf = new_buffer 256;
  jcb = jcb;
  secb = secb;
  realm = realm;
  session_id = 0;
  request_id = 0;
  stopped = false;
  leaving = false;
  pending_subscriptions = empty_map;
  subscriptions = empty_map;
  calls = empty_map;
  pending_procs = empty_map;
  procs = empty_map;
  sent = [];
}
