-- ===== src/Types.antt =====
-- types.h: sides, action types, orders and actions. A price is the rank of its double among the
-- doubles that are not NaN, so that comparing ranks is comparing prices; -0.0 and 0.0 share a rank.
use basicmatch.Base.{ℕ, ◌+◌, Bool, Text, leb}

pub data ActionType : Type 0 where
  none err cancel submit fill print : ActionType

-- TRADE = FILL
abbrev pub trade : ActionType
trade = ActionType.fill

pub data Side : Type 0 where
  none buy sell : Side

-- The rank of -infinity, of zero and of infinity: 0x7ff0... is the bit pattern of infinity, and the
-- finite doubles above zero are the bit patterns below it.
abbrev pub neg_infinity : ℕ
neg_infinity = 0

abbrev pub price_zero : ℕ
price_zero = 0x7ff0_0000_0000_0000

abbrev pub infinity : ℕ
infinity = price_zero + price_zero

pub record OrderInfo : Type 0 where
  pub id : ℕ
  pub symbol : Text
  pub side : Side
  pub qty : ℕ
  pub price : ℕ

-- (side_ == BUY) ? price <= price_ : price >= price_
unfoldable pub crosses : OrderInfo → ℕ → Bool
crosses o price = elim o.side [ Side.buy ↦ leb price o.price | _ ↦ leb o.price price ]

pub record ErrorInfo : Type 0 where
  pub id : ℕ
  pub msg : Text

-- The tag with the union's member that the tag's users read. A CANCEL carries an id alone; a PRINT
-- carries an order in the results and nothing in a request.
pub data OrderAction : Type 0 where
  error : ErrorInfo → OrderAction
  cancel : ℕ → OrderAction
  submit : OrderInfo → OrderAction
  filled : OrderInfo → OrderAction
  printed : OrderInfo → OrderAction
  print_all : OrderAction
