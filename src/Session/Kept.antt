-- ===== src/Session/Kept.antt =====
-- A predicate of the state that an operation of a session keeps, however the operation ends.
use basicmatch.Base.{ℕ, List, Text}
use basicmatch.Session.State.{Kwargs, Session, Outcome, returned, threw, undefined, running, User}

module _ {C : Type 0} (I : Session C → Type 0) where
  abbrev pub Keeps : {A : Type 0} → Outcome C A → Type 0
  Keeps (returned a s) = I s
  Keeps (threw e s) = I s
  Keeps undefined = Unit
  Keeps running = Unit

  -- The user's code keeps the predicate.
  pub record IsKeeping {O : Type 0} (user : User O C) : Type 0 where
    pub join : (c : C) (id : ℕ) (s : Session C) → I s → Keeps (user.on_join c id s)
    pub end : (c : C) (why : Text) (s : Session C) → I s → Keeps (user.on_end c why s)
    pub event :
        (c : C) (args : List O) (kw : Kwargs O) (s : Session C)
        → I s
        → Keeps (user.on_event c args kw s)
    pub result : (c : C) (o : O) (s : Session C) → I s → Keeps (user.on_result c o s)
    pub call :
        (c : C) (args : List O) (kw : Kwargs O) (s : Session C)
        → I s
        → Keeps (user.on_call c args kw s)
    pub call_v :
        (c : C) (args : List O) (kw : Kwargs O) (s : Session C)
        → I s
        → Keeps (user.on_call_v c args kw s)
    pub call_m :
        (c : C) (args : List O) (kw : Kwargs O) (s : Session C)
        → I s
        → Keeps (user.on_call_m c args kw s)
    pub call_vm :
        (c : C) (args : List O) (kw : Kwargs O) (s : Session C)
        → I s
        → Keeps (user.on_call_vm c args kw s)
