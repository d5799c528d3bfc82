-- ===== src/LevelBook/Print.antt =====
-- level_book.h: the slots of a book as `dump` prints them.
use mathlib.Core.List.{reverse}
use basicmatch.Base.{ℕ, List, ◌++◌, map}
use basicmatch.LevelBook.{Level, LevelBook}

-- quantity@price
unfoldable pub shown : Level → ℕ × ℕ
shown l = (l.qty, l.price)

-- The sells from the last slot up to the best, then the buys from the best down.
unfoldable pub dump : LevelBook → List (ℕ × ℕ)
unfolding shown
dump b = map shown (reverse b.sells.slots) ++ map shown b.buys.slots
