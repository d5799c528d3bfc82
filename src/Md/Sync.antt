-- ===== src/Md/Sync.antt =====
-- The feed handler against the numbers of the messages: in order they make the book, and after a
-- gap they wait for a snapshot.
use mathlib.Core.Option
use mathlib.Core.Option.{bind-eq-some_iff}
use basicmatch.Base.{
  ℕ, ◌+◌, ◌^◌, ◌<◌, ◌≡◌, ◌∙◌, Bool, false, List, [], ◌∷◌, ◌++◌, Option, some, Text, arith, refl, ap,
  Option-cases, inl, inr, Ensures, Ensures-some, Bool-cases, ◌==◌, ltb, All, All-append,
}
use basicmatch.Types.{ActionType, Side, trade}
use basicmatch.LevelBook.{
  Half, LevelBook, BookEvent, level_update, snapshot, Told, told_level, told_all, told_nothing,
  tell, add, best, add_half, remove_half, submit, remove, trade_at, cancel, set_half, half,
  new_level_book,
}
use basicmatch.Md.{
  Md, Deferred, Effect, Stepped, sub64, store_book, get_book, apply_action, on_action, publish,
  on_level_update, on_new_levels, pub_recover, send_request, close_snap,
}

-- The actions of one symbol, one after the other.
unfoldable pub on_actions : Bool → Text → List Deferred → Md → Stepped
on_actions connects s [] md = some (md, [])
on_actions connects s (d ∷ ds) md =
    Option.bind (on_action connects s d md) (λ (md', out).
      Option.map (λ (md'', more). (md'', out ++ more)) (on_actions connects s ds md'))

-- The book alone, without numbers and without publications.
unfoldable pub apply_all : List Deferred → LevelBook → Option LevelBook
apply_all [] b = some b
apply_all (d ∷ ds) b = Option.bind (apply_action d b) (λ (b', es). apply_all ds b')

abbrev pub IsConsecutive : ℕ → List Deferred → Type 0
IsConsecutive t [] = Unit
IsConsecutive t (d ∷ ds) = (d.txn_id ≡ t + 1) × (d.txn_id < 2 ^ 64) × IsConsecutive d.txn_id ds

abbrev pub last_txn : ℕ → List Deferred → ℕ
last_txn t [] = t
last_txn t (d ∷ ds) = last_txn d.txn_id ds

-- A book keeps its symbol.
tell-symbol :
    (s : Side) (p q : ℕ) (t : ActionType) (b : LevelBook) (told : Told)
    → (tell s p q t b told).0.symbol ≡ b.symbol
unfolding tell
tell-symbol s p q t b told_level = refl
tell-symbol s p q t b told_all = refl
tell-symbol s p q t b told_nothing = refl

set_half-symbol : (s : Side) (h : Half) (b : LevelBook) → (set_half s h b).symbol ≡ b.symbol
unfolding set_half
set_half-symbol Side.none h b = refl
set_half-symbol Side.buy h b = refl
set_half-symbol Side.sell h b = refl

pub get_book-store_book :
    (b : LevelBook) (bs : List LevelBook) → get_book b.symbol (store_book b bs) ≡ b
unfolding get_book store_book
get_book-store_book b [] = ground arith
get_book-store_book b (c ∷ cs) = ground (arith, get_book-store_book b cs)

pub get_book-symbol : (s : Text) (bs : List LevelBook) → (get_book s bs).symbol ≡ s
unfolding get_book
get_book-symbol s [] = unfold new_level_book in refl
get_book-symbol s (b ∷ bs) = ground (arith, get_book-symbol s bs)

changes-symbol :
    (s : Side) (p q : ℕ) (t : ActionType) (b : LevelBook)
    → Ensures (λ x. x.0.symbol ≡ b.symbol) (remove s p q t b)
unfolding remove
changes-symbol s p q t b = elim (Option-cases (remove_half s p q (half s b))) [
  | inl n ↦ rw n tt
  | inr ((h, told), e) ↦ rw e (tell-symbol s p q t (set_half s h b) told ∙ set_half-symbol s h b)
]

pub add-symbol : (s : Side) (p q : ℕ) (b : LevelBook) → (add s p q b).0.symbol ≡ b.symbol
unfolding add
add-symbol s p q b =
    tell-symbol s p q ActionType.submit _ (add_half s p q (half s b)).1
    ∙ set_half-symbol s (add_half s p q (half s b)).0 b

submit-symbol : (s : Side) (p q : ℕ) (b : LevelBook) → (submit s p q b).0.symbol ≡ b.symbol
unfolding submit
submit-symbol Side.none p q b = add-symbol Side.sell p q b
submit-symbol Side.buy p q b = add-symbol Side.buy p q b
submit-symbol Side.sell p q b = add-symbol Side.sell p q b

trade_at-symbol : (p q : ℕ) (b : LevelBook) → Ensures (λ x. x.0.symbol ≡ b.symbol) (trade_at p q b)
unfolding trade_at
trade_at-symbol p q b = elim (Bool-cases (p == best Side.sell b.sells.slots)) [
  | inl k ↦ rw k (changes-symbol Side.sell p q trade b)
  | inr k ↦ rw k (changes-symbol Side.buy p q trade b)
]

cancel-symbol : (p q : ℕ) (b : LevelBook) → Ensures (λ x. x.0.symbol ≡ b.symbol) (cancel p q b)
unfolding cancel
cancel-symbol p q b = elim (Bool-cases (ltb p (best Side.sell b.sells.slots))) [
  | inl k ↦ rw k (changes-symbol Side.buy p q ActionType.cancel b)
  | inr k ↦ rw k (changes-symbol Side.sell p q ActionType.cancel b)
]

pub apply_as-symbol :
    (d : Deferred) (b : LevelBook) (a : ActionType)
    → d.action ≡ a
    → Ensures (λ x. x.0.symbol ≡ b.symbol) (apply_action d b)
unfolding apply_action
apply_as-symbol d b ActionType.submit e = rw e (submit-symbol d.side d.price d.qty b)
apply_as-symbol d b ActionType.cancel e = rw e (cancel-symbol d.price d.qty b)
apply_as-symbol d b ActionType.fill e = rw e (trade_at-symbol d.price d.qty b)
apply_as-symbol d b ActionType.none e = rw e (trade_at-symbol d.price d.qty b)
apply_as-symbol d b ActionType.err e = rw e (trade_at-symbol d.price d.qty b)
apply_as-symbol d b ActionType.print e = rw e (trade_at-symbol d.price d.qty b)

-- What a handler sends that asks for nothing: publications of its books.
abbrev pub IsPublication : Effect → Type 0
IsPublication (pub_recover b) = ⊥
IsPublication (send_request r) = ⊥
IsPublication close_snap = ⊥
IsPublication _ = Unit

on_level_update-IsPublication :
    (s : Text) (id : ℕ) (side : Side) (q p : ℕ) (a : ActionType)
    → All IsPublication (on_level_update false s id side q p a)
unfolding on_level_update
on_level_update-IsPublication s id side q p ActionType.submit = (tt, tt)
on_level_update-IsPublication s id side q p ActionType.cancel = (tt, tt)
on_level_update-IsPublication s id side q p ActionType.fill = (tt, tt)
on_level_update-IsPublication s id side q p ActionType.none = (tt, tt)
on_level_update-IsPublication s id side q p ActionType.err = (tt, tt)
on_level_update-IsPublication s id side q p ActionType.print = (tt, tt)

publish-IsPublication :
    (b : LevelBook) (es : List BookEvent) → All IsPublication (publish false b es)
unfolding publish on_new_levels
publish-IsPublication b [] = tt
publish-IsPublication b (level_update id side q p a ∷ es) =
    All-append IsPublication (on_level_update false b.symbol id side q p a) (publish false b es)
      (on_level_update-IsPublication b.symbol id side q p a) (publish-IsPublication b es)
publish-IsPublication b (snapshot id ∷ es) = (tt, publish-IsPublication b es)

-- The next action changes the book, and no snapshot is asked for.
on_action-next :
    (connects : Bool) (s : Text) (d : Deferred) (md : Md) (b : LevelBook) (es : List BookEvent)
    → md.recovering ≡ false
    → d.txn_id ≡ md.txn_id + 1
    → d.txn_id < 2 ^ 64
    → apply_action d (get_book s md.books) ≡ some (b, es)
    → on_action connects s d md
      ≡ some (record md { txn_id = d.txn_id; books = store_book b md.books }, publish false b es)
unfolding on_action sub64
on_action-next connects s d md b es r n t e =
    let near : ltb 1 (sub64 d.txn_id md.txn_id) ≡ false = ground arith in rw (r, near, e) refl

stored :
    (s : Text) (d : Deferred) (md : Md) (b : LevelBook) (es : List BookEvent)
    → apply_action d (get_book s md.books) ≡ some (b, es)
    → get_book s (store_book b md.books) ≡ b
stored s d md b es e =
    let same : b.symbol ≡ s =
      Ensures-some (λ x. x.0.symbol ≡ (get_book s md.books).symbol)
        (apply_action d (get_book s md.books)) e
        (apply_as-symbol d (get_book s md.books) d.action refl)
      ∙ get_book-symbol s md.books in
    rw (← same) (get_book-store_book b md.books)

-- Where a handler is not recovering, and actions of one symbol come that are numbered one after the
-- other from the last number it has seen: the symbol's book becomes the one that the actions make
-- of it, where they are defined, the handler has seen the last number, it is not recovering, and
-- what it sends is publications alone: no snapshot is asked for.
pub on_actions-IsConsecutive :
    (connects : Bool) (s : Text) (ds : List Deferred) (md : Md) (b : LevelBook)
    → md.recovering ≡ false
    → md.txn_id < 2 ^ 64
    → IsConsecutive md.txn_id ds
    → apply_all ds (get_book s md.books) ≡ some b
    → (md' : Md) × (out : List Effect) × (on_actions connects s ds md ≡ some (md', out))
      × (md'.recovering ≡ false)
      × (md'.txn_id ≡ last_txn md.txn_id ds)
      × (get_book s md'.books ≡ b)
      × All IsPublication out
unfolding on_actions apply_all Option.bind
on_actions-IsConsecutive connects s [] md b r t c e = (md, [], refl, r, refl, cc, tt)
on_actions-IsConsecutive connects s (d ∷ ds) md b r t c e =
    let ((b', es), k, e') =
      (bind-eq-some_iff (apply_action d (get_book s md.books)) (λ x. apply_all ds x.0)).0 e in
    let next : Md = record md { txn_id = d.txn_id; books = store_book b' md.books } in
    let later : apply_all ds (get_book s next.books) ≡ some b =
      ap (apply_all ds) (stored s d md b' es k) ∙ e' in
    let (md', out, f, r', t', g, pubs) =
      on_actions-IsConsecutive connects s ds next b r c.1 c.2 later in
    (
      md',
      publish false b' es ++ out,
      rw (on_action-next connects s d md b' es r c.0 c.1 k, f) refl,
      r',
      t',
      g,
      All-append IsPublication (publish false b' es) out (publish-IsPublication b' es) pubs,
    )
