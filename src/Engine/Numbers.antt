-- ===== src/Engine/Numbers.antt =====
-- The numbers that the engine's callbacks carry.
use basicmatch.Base.{
  ℕ, ◌≡◌, ◌≢◌, ◌⊎◌, ◌∙◌, ◌==◌, ◌||◌, not, List, [], ◌∷◌, ◌++◌, Text, Text-discrete, arith, refl,
  sym, ap, append_assoc, append-nil, Ensures, Ensures-map, Ensures-bind, Ensures-any, erase, insert,
  Bool-cases, Option-cases, inl, inr, ltb,
}
use basicmatch.Types.{OrderInfo, Side, OrderAction, submit, cancel, print_all, crosses}
use basicmatch.Book.{
  Node, Levels, Book, new_book, set_side, add_order, place, own, opposite, remove_order,
  remove_side, side_levels,
}
use basicmatch.Match.{
  Event, Run, fill_event, submit_event, cancel_event, next64, match, match_level, fill, bump_txn,
  after_level,
}
use basicmatch.Engine.{
  Engine, Executed, store_book, get_book, start_run, settle, filled_order, rest_order, accept,
  handle_submit, handle_cancel, cancel_at, deref, execute,
}

abbrev pub txn_of : Event → ℕ
txn_of (fill_event s t q p) = t
txn_of (submit_event s t i d q p) = t
txn_of (cancel_event s t q p) = t

-- Events that are numbered one after the other from `t` on, with `t'` as the next number.
abbrev pub IsNumbered : ℕ → List Event → ℕ → Type 0
IsNumbered t [] t' = t ≡ t'
IsNumbered t (e ∷ es) t' = (txn_of e ≡ t) × IsNumbered (next64 t) es t'

IsNumbered-append :
    (t t' t'' : ℕ) (es fs : List Event)
    → IsNumbered t es t'
    → IsNumbered t' fs t''
    → IsNumbered t (es ++ fs) t''
IsNumbered-append t t' t'' [] fs h k = rw h k
IsNumbered-append t t' t'' (e ∷ es) fs h k = (h.0, IsNumbered-append (next64 t) t' t'' es fs h.1 k)

-- A run that goes on numbers what it appends.
abbrev Extends : Run → Run → Type 0
Extends r r' = (es : List Event) × (r'.events ≡ r.events ++ es) × IsNumbered r.txn_id es r'.txn_id

Extends-refl : (r : Run) → Extends r r
Extends-refl r = ([], sym (append-nil r.events), refl)

Extends-trans : (r r' r'' : Run) → Extends r r' → Extends r' r'' → Extends r r''
Extends-trans r r' r'' (es, e, h) (fs, f, k) = (
  es ++ fs,
  f ∙ ap (λ x. x ++ fs) e ∙ append_assoc r.events es fs,
  IsNumbered-append r.txn_id r'.txn_id r''.txn_id es fs h k,
)

fill-Extends :
    (small large : OrderInfo) (p : ℕ) (r : Run)
    → Extends r (fill small large p r.txn_id (bump_txn r)).0
unfolding fill bump_txn
fill-Extends small large p r =
    (fill_event large.symbol r.txn_id small.qty p ∷ [], refl, (refl, refl))

match_level-Extends :
    (p : ℕ) (l : List Node) (o : OrderInfo) (r : Run) → Extends r (match_level o p l r).0
unfolding match_level
match_level-Extends p [] o r = Extends-refl r
match_level-Extends p (n ∷ ns) o r = elim (Bool-cases (o.qty == 0)) [
  | inl z ↦ rw z (Extends-refl r)
  | inr z ↦ elim (Bool-cases (ltb o.qty n.order.qty)) [
    | inl k ↦ rw (z, k) (fill-Extends o n.order p r)
    | inr k ↦
        let c = fill n.order o p r.txn_id (bump_txn r) in
        rw (z, k)
          (Extends-trans r c.0 (match_level c.2 p ns c.0).0 (fill-Extends n.order o p r)
            (match_level-Extends p ns c.2 c.0))
  ]
]

after_level-Extends :
    (p : ℕ) (ls : Levels) (r : Run) (here : Run × OrderInfo × List Node)
    (next : Run × OrderInfo × Levels)
    → Extends r here.0
    → Extends here.0 next.0
    → Extends r (after_level p ls here next).0
unfolding after_level
after_level-Extends p ls r (r', o, []) next h k = Extends-trans r r' next.0 h k
after_level-Extends p ls r (r', o, n ∷ ns) next h k = h

match-Extends : (ls : Levels) (o : OrderInfo) (r : Run) → Extends r (match o ls r).0
unfolding match
match-Extends [] o r = Extends-refl r
match-Extends ((p, l) ∷ ls) o r = elim (Bool-cases (o.qty == 0 || not (crosses o p))) [
  | inl z ↦ rw z (Extends-refl r)
  | inr z ↦
      let here = match_level o p l r in
      rw z (
        after_level-Extends p ls r here (match here.1 ls here.0) (match_level-Extends p l o r)
          (match-Extends ls here.1 here.0))
]

pub find_book-store_book :
    (s : Text) (b : Book) (bs : List Book) → b.symbol ≡ s → get_book s (store_book b bs) ≡ b
unfolding get_book store_book
find_book-store_book s b [] k = ground (arith, k)
find_book-store_book s b (c ∷ cs) k = ground (arith, find_book-store_book s b cs k)

get_book-others :
    (s : Text) (b : Book) (bs : List Book)
    → b.symbol ≢ s
    → get_book s (store_book b bs) ≡ get_book s bs
unfolding get_book store_book
get_book-others s b [] k = ground (arith, k)
get_book-others s b (c ∷ cs) k = ground (arith, get_book-others s b cs k)

pub get_book-symbol : (s : Text) (bs : List Book) → (get_book s bs).symbol ≡ s
unfolding get_book new_book
get_book-symbol s [] = refl
get_book-symbol s (b ∷ bs) = ground (arith, get_book-symbol s bs)

-- A call numbers its callbacks from the next number of one book on, and leaves the other books.
abbrev pub CountsAt : Text → Engine → Executed → Type 0
CountsAt s e (e', out) =
    IsNumbered (get_book s e.books).txn_id out.events (get_book s e'.books).txn_id
    × ((s' : Text) → (s ≡ s') ⊎ (get_book s' e'.books ≡ get_book s' e.books))

stored-CountsAt :
    (s : Text) (b : Book) (e : Engine) (out : Executed)
    → b.symbol ≡ s
    → out.0.books ≡ store_book b e.books
    → IsNumbered (get_book s e.books).txn_id out.1.events b.txn_id
    → CountsAt s e out
stored-CountsAt s b e out k m h = (
  rw (m, find_book-store_book s b e.books k) h,
  λ s'. elim (Text-discrete s s') [
    | yes q ↦ inl q
    | no n ↦ inr (rw m (get_book-others s' b e.books (λ q. n (sym k ∙ q))))
  ],
)

pub set_side-symbol : (s : Side) (ls : Levels) (b : Book) → (set_side s ls b).symbol ≡ b.symbol
unfolding set_side
set_side-symbol Side.none ls b = refl
set_side-symbol Side.buy ls b = refl
set_side-symbol Side.sell ls b = refl

set_side-txn_id : (s : Side) (ls : Levels) (b : Book) → (set_side s ls b).txn_id ≡ b.txn_id
unfolding set_side
set_side-txn_id Side.none ls b = refl
set_side-txn_id Side.buy ls b = refl
set_side-txn_id Side.sell ls b = refl

pub add_order-symbol : (n : Node) (b : Book) → (add_order n b).symbol ≡ b.symbol
unfolding add_order place
add_order-symbol n b = set_side-symbol (own n.order.side) _ b

settle-CountsAt :
    (s : Text) (side : Side) (b : Book) (e : Engine) (m : Run × OrderInfo × Levels)
    → b.symbol ≡ s
    → IsNumbered (get_book s e.books).txn_id m.0.events m.0.txn_id
    → CountsAt s e (settle side b e m)
unfolding settle filled_order rest_order
settle-CountsAt s side b e (r, o, ls) k h =
    let same : (set_side side ls b).symbol ≡ s = set_side-symbol side ls b ∙ k in
    elim (Bool-cases (o.qty == 0)) [
      | inl z ↦ rw z (
          stored-CountsAt s (record (set_side side ls b) { txn_id = r.txn_id }) e
            (filled_order r (set_side side ls b) e) same refl h)
      | inr z ↦
          let node : Node = record { ref = e.next_ref; order = o } in
          rw z (
            stored-CountsAt s
              (record (add_order node (set_side side ls b)) { txn_id = next64 r.txn_id }) e
              (rest_order r o (set_side side ls b) e)
              (add_order-symbol node (set_side side ls b) ∙ same) refl
              (IsNumbered-append (get_book s e.books).txn_id r.txn_id (next64 r.txn_id) r.events
                (submit_event o.symbol r.txn_id o.id o.side o.qty o.price ∷ []) h (refl, refl)))
    ]

accept-CountsAt : (o : OrderInfo) (e : Engine) → CountsAt o.symbol e (accept o e)
unfolding accept
accept-CountsAt o e =
    let b = get_book o.symbol e.books in
    let ls = side_levels (opposite o.side) b in
    let (es, k, h) = match-Extends ls o (start_run e b) in
    settle-CountsAt o.symbol (opposite o.side) b e (match o ls (start_run e b))
      (get_book-symbol o.symbol e.books) (rw k h)

pub handle_submit-CountsAt : (o : OrderInfo) (e : Engine) → CountsAt o.symbol e (handle_submit o e)
unfolding handle_submit
handle_submit-CountsAt o e = ground (arith, accept-CountsAt o e)

remove_side-keeps :
    (s : Side) (p r : ℕ) (b : Book)
    → Ensures (λ b'. (b'.symbol ≡ b.symbol) × (b'.txn_id ≡ b.txn_id)) (remove_side s p r b)
unfolding remove_side
remove_side-keeps s p r b =
    Ensures-map (λ _. Unit) _ _ (remove_order p r (side_levels s b))
      (λ ls _. (set_side-symbol s ls b, set_side-txn_id s ls b))
      (Ensures-any (remove_order p r (side_levels s b)))

cancel_at-CountsAt :
    (id ref : ℕ) (o : OrderInfo) (e : Engine)
    → Ensures (λ x. (s : Text) × CountsAt s e x) (cancel_at id ref o e)
unfolding cancel_at
cancel_at-CountsAt id ref o e =
    let b = get_book o.symbol e.books in
    let counted : Book = record b { txn_id = next64 b.txn_id } in
    Ensures-map (λ b'. (b'.symbol ≡ counted.symbol) × (b'.txn_id ≡ counted.txn_id))
      (λ x. (s : Text) × CountsAt s e x) _ (remove_side (own o.side) o.price ref counted)
      (λ b' k. (
        o.symbol,
        stored-CountsAt o.symbol b' e
            (
              record e {
                orders = erase id e.orders;
                completed = insert id e.completed;
                books = store_book b' e.books;
              },
              record {
                results = cancel id ∷ [];
                events = cancel_event o.symbol b.txn_id o.qty o.price ∷ [];
              },
            )
            (k.0 ∙ get_book-symbol o.symbol e.books) refl (refl, sym k.1),
      ))
      (remove_side-keeps (own o.side) o.price ref counted)

handle_cancel-CountsAt :
    (id : ℕ) (e : Engine) → Ensures (λ x. (s : Text) × CountsAt s e x) (handle_cancel id e)
unfolding handle_cancel
handle_cancel-CountsAt id e = elim (Option-cases (e.orders id)) [
  | inl n ↦ rw (n, handle_cancel) ([], (refl, λ s. inr refl))
  | inr (ref, k) ↦
      rw (k, handle_cancel)
        (Ensures-bind (λ x. (s : Text) × CountsAt s e x) (deref ref e.books)
          (λ o. cancel_at id ref o e) (λ o. cancel_at-CountsAt id ref o e))
]

-- What a request sends out is numbered: its callbacks carry the numbers of one book, one after the
-- other from the book's next number on, and the book's next number is the one behind them; the other
-- books are as they were. This is so for every request, where it is defined.
pub execute-CountsAt :
    (a : OrderAction) (e : Engine) → Ensures (λ x. (s : Text) × CountsAt s e x) (execute a e)
unfolding execute
execute-CountsAt (submit o) e = (o.symbol, handle_submit-CountsAt o e)
execute-CountsAt (cancel id) e = handle_cancel-CountsAt id e
execute-CountsAt print_all e = ([], (refl, λ s. inr refl))
execute-CountsAt _ e = tt
