-- ===== src/Tests/Sample.antt =====
-- A small instance of msgpack, callbacks that leave the session alone, and a joined session.
use basicmatch.Base.{
  ℕ, suc, ◌+◌, List, [], ◌∷◌, ◌==◌, Option, some, none, Text, codes, length, map, true, false,
  empty_map, ltb,
}
use basicmatch.Session.Buffer.{Buffer}
use basicmatch.Session.State.{
  ObjectType, positive_integer, str, array, dictionary, Msgpack, Packed, pack_array, pack_map,
  pack_int, pack_uint64, pack_str, pack_object, Kwargs, Session, returned, threw, user_error, User,
}

-- Objects: numbers, words, lists of numbers and tables of numbers.
pub data Sample : Type 0 where
  num : ℕ → Sample
  word : Text → Sample
  nums : List ℕ → Sample
  table : List (Text × ℕ) → Sample

unfoldable pub sample_type : Sample → ObjectType
sample_type (num n) = positive_integer
sample_type (word t) = str
sample_type (nums ns) = array
sample_type (table kvs) = dictionary

abbrev pub as_number : Sample → Option ℕ
as_number (num n) = some n
as_number _ = none

abbrev pub as_word : Sample → Option Text
as_word (word t) = some t
as_word _ = none

abbrev pub as_nums : Sample → Option (List Sample)
as_nums (nums ns) = some (map num ns)
as_nums _ = none

abbrev pub as_table : Sample → Option (Kwargs Sample)
as_table (table kvs) = some (map (λ (k, n). (k, num n)) kvs)
as_table _ = none

abbrev pub sample_writes : Packed Sample → List (List ℕ)
sample_writes (pack_array n) = ((144 + n) ∷ []) ∷ []
sample_writes (pack_map n) = ((128 + n) ∷ []) ∷ []
sample_writes (pack_int n) = (n ∷ []) ∷ []
sample_writes (pack_uint64 n) = (n ∷ []) ∷ []
sample_writes (pack_str t) = ((160 + length t) ∷ []) ∷ t ∷ []
sample_writes (pack_object o) = (1 ∷ []) ∷ []

-- Every byte is a number.
abbrev pub sample_unpack : List ℕ → ℕ → ℕ → Option (Sample × ℕ)
sample_unpack buf size off = elim (ltb off size) [ true ↦ some (num off, suc off) | false ↦ none ]

abbrev pub sample : Msgpack Sample
sample = record {
  type_of = sample_type;
  as_int = as_number;
  as_uint64 = as_number;
  as_string = as_word;
  as_vector = as_nums;
  as_kwargs = as_table;
  nil = word [];
  writes = sample_writes;
  unpack = sample_unpack;
}

-- Callbacks that leave the session alone; procedure 9 throws.
abbrev pub calm : User Sample ℕ
calm = record {
  on_join = λ c id s. returned tt s;
  on_end = λ c why s. returned tt s;
  on_event = λ c args kw s. returned tt s;
  on_result = λ c o s. returned tt s;
  on_call = λ c args kw s. elim (c == 9) [ true ↦ threw user_error s | false ↦ returned (num 5) s ];
  on_call_v = λ c args kw s. returned [] s;
  on_call_m = λ c args kw s. returned [] s;
  on_call_vm = λ c args kw s. returned ([], []) s;
}

abbrev pub fresh_buffer : Buffer
fresh_buffer = record { bufsize = 260; bytes = [] }

abbrev pub joined_session : Session ℕ
joined_session = record {
  buf = fresh_buffer;
  jcb = none;
  secb = 0;
  realm = codes "realm1";
  session_id = 77;
  request_id = 4;
  stopped = false;
  leaving = false;
  pending_subscriptions = empty_map;
  subscriptions = empty_map;
  calls = empty_map;
  pending_procs = empty_map;
  procs = empty_map;
  sent = [];
}
