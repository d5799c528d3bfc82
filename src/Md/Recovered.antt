-- ===== src/Md/Recovered.antt =====
-- md.cpp: the end of a recovery, with the actions that waited for the snapshot.
use mathlib.Core.Option
use mathlib.Core.Option.{bind-eq-some_iff}
use basicmatch.Base.{
  ℕ, ◌≡◌, Bool, false, List, [], ◌∷◌, ◌++◌, some, arith, refl, ap, ◌∙◌, sym, ltb, Bool-cases, inl,
  inr, if◌then◌else◌, Ensures-some,
}
use basicmatch.Msg.{SnapResponse}
use basicmatch.LevelBook.{LevelBook, clear}
use basicmatch.Md.{
  Md, Deferred, Effect, apply_action, replay, on_snapshot, get_book, store_book, publish,
  load_levels, deferred_of, drop_deferred, on_new_levels, close_snap,
}
use basicmatch.Md.Sync.{apply_all, apply_as-symbol, get_book-store_book, get_book-symbol}
use basicmatch.Md.Loaded.{clear-symbol, load_levels-symbol}

-- The actions with a greater number.
abbrev pub later : ℕ → List Deferred → List Deferred
later t [] = []
later t (d ∷ ds) = if ltb t d.txn_id then d ∷ later t ds else later t ds

replay-later :
    (r : Bool) (t : ℕ) (ds : List Deferred) (b b' : LevelBook)
    → apply_all (later t ds) b ≡ some b'
    → (out : List Effect) × (replay r t ds b ≡ some (b', out))
unfolding replay apply_all Option.bind
replay-later r t [] b b' e = ([], ap (λ x. Option.map (λ c. (c, [])) x) e)
replay-later r t (d ∷ ds) b b' e = elim (Bool-cases (ltb t d.txn_id)) [
  | inl z ↦
      let ((c, es), k, e') =
        (bind-eq-some_iff (apply_action d b) (λ x. apply_all (later t ds) x.0)).0 (rw z at e) in
      let (out, f) = replay-later r t ds c b' e' in (publish r c es ++ out, rw (z, k, f) refl)
  | inr z ↦ let (out, f) = replay-later r t ds b b' (rw z at e) in (out, rw z f)
]

apply_all-symbol :
    (ds : List Deferred) (b b' : LevelBook) → apply_all ds b ≡ some b' → b'.symbol ≡ b.symbol
unfolding apply_all Option.bind
apply_all-symbol [] b b' e = ground arith
apply_all-symbol (d ∷ ds) b b' e =
    let ((c, es), k, e') = (bind-eq-some_iff (apply_action d b) (λ x. apply_all ds x.0)).0 e in
    apply_all-symbol ds c b' e'
    ∙ Ensures-some (λ x. x.0.symbol ≡ b.symbol) (apply_action d b) k
        (apply_as-symbol d b d.action refl)

-- The level book that a snapshot makes, before the actions that waited.
abbrev pub loaded : SnapResponse → Md → LevelBook
loaded m md = (load_levels md.recovering m.levels (clear (get_book m.symbol md.books))).0

pub on_snapshot-later :
    (m : SnapResponse) (md : Md) (b : LevelBook)
    → apply_all (later m.txn_id (deferred_of m.symbol md.deferred)) (loaded m md) ≡ some b
    → (md' : Md) × (out : List Effect) × (on_snapshot m md ≡ some (md', out))
      × (md'.recovering ≡ false)
      × (md'.txn_id ≡ m.txn_id)
      × (get_book m.symbol md'.books ≡ b)
unfolding on_snapshot
on_snapshot-later m md b e =
    let (out, f) =
      replay-later md.recovering m.txn_id (deferred_of m.symbol md.deferred) (loaded m md) b e in
    let same : b.symbol ≡ m.symbol =
      apply_all-symbol (later m.txn_id (deferred_of m.symbol md.deferred)) (loaded m md) b e
      ∙ load_levels-symbol md.recovering m.levels (clear (get_book m.symbol md.books))
      ∙ clear-symbol (get_book m.symbol md.books)
      ∙ get_book-symbol m.symbol md.books in
    let next : Md = record {
      txn_id = m.txn_id;
      recovering = false;
      deferred = drop_deferred m.symbol md.deferred;
      books = store_book b md.books;
    } in
    let before = (load_levels md.recovering m.levels (clear (get_book m.symbol md.books))).1 in
    (
      next,
      before ++ out ++ close_snap ∷ on_new_levels false b,
      rw f refl,
      refl,
      refl,
      ap (λ s. get_book s (store_book b md.books)) (sym same) ∙ get_book-store_book b md.books,
    )
