-- ===== src/Engine/Registry/Tracked.antt =====
-- The register and the books agree after every request, so following an address is always defined.
use basicmatch.Base.{
  ℕ, ◌+◌, ◌-◌, ◌<◌, ◌≡◌, List, none, some, Text, arith, refl, sym, ap, ◌∙◌, All, IdMap, put,
}
use basicmatch.Types.{OrderInfo, Side}
use basicmatch.Book.{Node, Levels, Book, own, opposite, place, add_order, side_levels, set_side}
use basicmatch.Match.{Run}
use basicmatch.Engine.{Engine, get_book, store_book}
use basicmatch.Engine.Numbers.{get_book-symbol}
use basicmatch.Engine.Registry.Count.{
  hit, in_levels, in_book, in_books, weigh_book, weigh_books, Counts,
}
use basicmatch.Engine.Registry.Places.{ArePlaced, push_order-ArePlaced}
use basicmatch.Engine.Registry.Books.{
  IsHome, IsDistinct, new_book-IsHome, get_book-All, store_book-All, store_book-IsDistinct,
  store_book-count, get_book-count-le, set_side-count, side_levels-count-le,
}

pub record IsTracked (e : Engine) : Type 0 where
  pub homes : All IsHome e.books
  pub distinct : IsDistinct e.books
  pub counted : Counts e.orders (λ i r. in_books i r e.books)
  pub injective : (i j r : ℕ) → e.orders i ≡ some r → e.orders j ≡ some r → i ≡ j
  pub fresh : (i r : ℕ) → e.orders i ≡ some r → r < e.next_ref

pub own-own : (s : Side) → own (own s) ≡ own s
unfolding own
own-own Side.none = refl
own-own Side.buy = refl
own-own Side.sell = refl

pub own-opposite : (s : Side) → own (opposite s) ≡ opposite s
unfolding own opposite
own-opposite Side.none = refl
own-opposite Side.buy = refl
own-opposite Side.sell = refl

pub side_levels-ArePlaced :
    (s : Side) (b : Book) → IsHome b → ArePlaced b.symbol (own s) (side_levels s b)
unfolding side_levels own
side_levels-ArePlaced Side.none b h = h.sells
side_levels-ArePlaced Side.buy b h = h.buys
side_levels-ArePlaced Side.sell b h = h.sells

pub set_side-IsHome :
    (s : Side) (ls : Levels) (b : Book)
    → ArePlaced b.symbol (own s) ls
    → IsHome b
    → IsHome (set_side s ls b)
unfolding set_side own
set_side-IsHome Side.none ls b k h = record { sells = k; buys = h.buys }
set_side-IsHome Side.buy ls b k h = record { sells = h.sells; buys = k }
set_side-IsHome Side.sell ls b k h = record { sells = k; buys = h.buys }

pub with_txn-IsHome : (t : ℕ) (b : Book) → IsHome b → IsHome (record b { txn_id = t })
with_txn-IsHome t b h = record { sells = h.sells; buys = h.buys }

pub add_order-IsHome :
    (n : Node) (b : Book) → n.order.symbol ≡ b.symbol → IsHome b → IsHome (add_order n b)
unfolding add_order place
add_order-IsHome n b e h =
    let s = own n.order.side in
    set_side-IsHome s _ b
      (push_order-ArePlaced b.symbol (own s) s n.order.price n (side_levels s b)
        (e, sym (own-own n.order.side), refl) (side_levels-ArePlaced s b h))
      h

-- A book that is stored: the nodes are those of the other books and its own.
pub stored-count :
    (w : Node → ℕ) (b' : Book) (s : Text) (bs : List Book)
    → b'.symbol ≡ s
    → weigh_books w (store_book b' bs)
      ≡ (weigh_books w bs - weigh_book w (get_book s bs)) + weigh_book w b'
stored-count w b' s bs e =
    let same = ap (λ x. weigh_book w (get_book x bs)) e in
    omega (arith, store_book-count w b' bs, same, get_book-count-le w s bs)

-- The nodes that are not on a side of the book of a symbol.
abbrev pub elsewhere : Text → Side → List Book → ℕ → ℕ → ℕ
elsewhere sy s bs i k = in_books i k bs - in_levels i k (side_levels s (get_book sy bs))

pub here_and_elsewhere :
    (sy : Text) (s : Side) (bs : List Book) (i k : ℕ)
    → elsewhere sy s bs i k + in_levels i k (side_levels s (get_book sy bs)) ≡ in_books i k bs
here_and_elsewhere sy s bs i k =
    omega
      (arith, get_book-count-le (hit i k) sy bs, side_levels-count-le (hit i k) s (get_book sy bs))

-- With another side stored in the book.
pub elsewhere-set_side :
    (sy : Text) (s : Side) (ls : Levels) (bs : List Book) (i k : ℕ)
    → (in_books i k bs - in_book i k (get_book sy bs))
        + in_book i k (set_side s ls (get_book sy bs))
      ≡ elsewhere sy s bs i k + in_levels i k ls
elsewhere-set_side sy s ls bs i k = omega (
  arith,
  get_book-count-le (hit i k) sy bs,
  side_levels-count-le (hit i k) s (get_book sy bs),
  set_side-count (hit i k) s ls (get_book sy bs),
)

pub put-Counts :
    (e : Engine) (m : Run) (o : OrderInfo) (held : ℕ → ℕ → ℕ)
    → m.orders o.id ≡ none
    → Counts m.orders held
    → Counts
        (put o.id e.next_ref m.orders)
        (λ i k. held i k + hit i k (record { ref = e.next_ref; order = o }))
put-Counts e m o held u h i k = let here = h i k in ground (arith, here, u)

-- A new entry at an address that no entry has.
pub put-injective :
    (e : Engine) (orders : IdMap ℕ) (k : ℕ)
    → ((i r : ℕ) → orders i ≡ some r → e.orders i ≡ some r)
    → IsTracked e
    → (i j r : ℕ) → put k e.next_ref orders i ≡ some r
    → put k e.next_ref orders j ≡ some r
    → i ≡ j
put-injective e orders k fewer t i j r p q =
    ground (arith, t.injective i j r, t.fresh i r, t.fresh j r, fewer i r, fewer j r)

pub put-fresh :
    (e : Engine) (orders : IdMap ℕ) (k : ℕ)
    → ((i r : ℕ) → orders i ≡ some r → e.orders i ≡ some r)
    → IsTracked e
    → (i r : ℕ) → put k e.next_ref orders i ≡ some r
    → r < e.next_ref + 1
put-fresh e orders k fewer t i r p = ground (arith, t.fresh i r, fewer i r)

-- Looking a book up, and making it where there is none, changes no node.
pub looked_up-IsTracked :
    (symbol : Text) (e : Engine)
    → IsTracked e
    → IsTracked (record e { books = store_book (get_book symbol e.books) e.books })
looked_up-IsTracked symbol e t =
    let b = get_book symbol e.books in
    record {
      homes =
          store_book-All IsHome b e.books
            (get_book-All IsHome symbol e.books (new_book-IsHome symbol) t.homes) t.homes;
      distinct = store_book-IsDistinct b e.books t.distinct;
      counted = λ i k.
          omega (
            arith,
            stored-count (hit i k) b symbol e.books (get_book-symbol symbol e.books),
            get_book-count-le (hit i k) symbol e.books,
          )
          ∙ t.counted i k;
      injective = t.injective;
      fresh = t.fresh;
    }
