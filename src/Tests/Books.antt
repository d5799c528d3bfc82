-- ===== src/Tests/Books.antt =====
-- The theorems of the level book at small books.
use basicmatch.Base.{ℕ, ◌+◌, ◌-◌, List, ◌≡◌, some, codes, refl, arith}
use basicmatch.Types.{Side, ActionType}
use basicmatch.LevelBook.{LevelBook, BookEvent, new_level_book, submit, remove}
use basicmatch.LevelBook.Refines.{
  IsSoundBook, quantity, set_quantity, Sets, new_level_book-IsSoundBook, submit-refines,
  remove-refines,
}

abbrev empty : LevelBook
empty = new_level_book (codes "IBM")

empty-quantity : quantity Side.buy 98 empty ≡ 0
empty-quantity = (new_level_book-IsSoundBook (codes "IBM") Side.buy 98).1

submit-refines_example :
    let b' = (submit Side.buy 98 14 empty).0 in
    IsSoundBook b'
    × ((s' : Side) (p' : ℕ)
        → quantity s' p' b'
          ≡ set_quantity Side.buy 98 (quantity Side.buy 98 empty + 14) empty s' p')
submit-refines_example =
    submit-refines Side.buy 98 14 empty refl (omega (arith, empty-quantity))
      (new_level_book-IsSoundBook (codes "IBM") Side.buy 98).0

abbrev one_level : LevelBook
one_level = (submit Side.buy 98 14 empty).0

one_level-quantity : quantity Side.buy 98 one_level ≡ 14
unfolding submit new_level_book basicmatch.Book.ahead
one_level-quantity = refl

remove-refines_example :
    (out : LevelBook × List BookEvent) × (remove Side.buy 98 14 ActionType.cancel one_level
      ≡ some out)
    × Sets Side.buy 98 (quantity Side.buy 98 one_level - 14) one_level out.0
remove-refines_example =
    remove-refines Side.buy 98 14 ActionType.cancel one_level refl
      (omega (arith, one_level-quantity)) (omega (arith, one_level-quantity))
      submit-refines_example.0
