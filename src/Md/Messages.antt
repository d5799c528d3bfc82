-- ===== src/Md/Messages.antt =====
-- The receive loop of the feed handler over the bytes of messages that were sent.
use native.Mathlib.Nat.{add-sub_cancel_left}
use basicmatch.Base.{
  All, ℕ, zero, suc, ◌+◌, ◌<◌, ◌≤◌, ◌≡◌, ◌==◌, ◌∙◌, Bool, false, List, [], ◌∷◌, ◌++◌, none, some,
  drop, length, arith, refl, Text, ltb, true,
}
use basicmatch.Wire.{fixed_str, has_nul}
use basicmatch.Wire.Laws.{has_nul-fixed_str}
use basicmatch.Msg.{
  Trade, Submit, Cancel, trade_bytes, submit_bytes, cancel_bytes, read_submit, read_cancel,
  msg_size,
}
use basicmatch.Msg.RoundTrip.{
  IsTrade, IsSubmit, IsCancel, read_trade-trade_bytes, read_submit-submit_bytes,
  read_cancel-cancel_bytes,
}
use basicmatch.Recv.{Loop, finished, faulted, recv_loop, after}
use basicmatch.Md.{
  Md, Effect, Feed, Stepped, on_trade, on_submit, on_cancel, feed_message, recv_cb, handled,
}

-- The messages of the feed.
pub data FeedMsg : Type 0 where
  traded : Trade → FeedMsg
  submitted : Submit → FeedMsg
  cancelled : Cancel → FeedMsg

abbrev pub feed_bytes : FeedMsg → List ℕ
feed_bytes (traded m) = trade_bytes m
feed_bytes (submitted m) = submit_bytes m
feed_bytes (cancelled m) = cancel_bytes m

abbrev pub feed_size : FeedMsg → ℕ
feed_size (traded m) = 38
feed_size (submitted m) = 44
feed_size (cancelled m) = 38

abbrev pub IsFeedMsg : FeedMsg → Type 0
IsFeedMsg (traded m) = IsTrade m
IsFeedMsg (submitted m) = IsSubmit m
IsFeedMsg (cancelled m) = IsCancel m

abbrev pub on_message : Bool → FeedMsg → Md → Stepped
on_message connects (traded m) = on_trade connects m
on_message connects (submitted m) = on_submit connects m
on_message connects (cancelled m) = on_cancel connects m

drop-fixed_str : (n : ℕ) (s rest : Text) → drop (suc n) (fixed_str n s ++ rest) ≡ rest
unfolding fixed_str
drop-fixed_str zero s rest = refl
drop-fixed_str (suc n) [] rest = drop-fixed_str n [] rest
drop-fixed_str (suc n) (c ∷ s) rest = drop-fixed_str n s rest

drop-feed_bytes :
    (m : FeedMsg) (rest : List ℕ)
    → drop (msg_size (feed_bytes m ++ rest)) (feed_bytes m ++ rest) ≡ rest
unfolding trade_bytes submit_bytes cancel_bytes msg_size
drop-feed_bytes (traded m) rest = drop-fixed_str 15 m.symbol rest
drop-feed_bytes (submitted m) rest = drop-fixed_str 15 m.symbol rest
drop-feed_bytes (cancelled m) rest = drop-fixed_str 15 m.symbol rest

msg_size-feed_bytes : (m : FeedMsg) (rest : List ℕ) → msg_size (feed_bytes m ++ rest) ≡ feed_size m
unfolding trade_bytes submit_bytes cancel_bytes msg_size
msg_size-feed_bytes (traded m) rest = refl
msg_size-feed_bytes (submitted m) rest = refl
msg_size-feed_bytes (cancelled m) rest = refl

-- No type reads the bytes of another.
submit-not-trade :
    (m : Trade) (rest : List ℕ) (bytes : ℕ) → read_submit (trade_bytes m ++ rest) bytes ≡ none
unfolding read_submit trade_bytes
submit-not-trade m rest bytes = ground arith

submit-not-cancel :
    (m : Cancel) (rest : List ℕ) (bytes : ℕ) → read_submit (cancel_bytes m ++ rest) bytes ≡ none
unfolding read_submit cancel_bytes
submit-not-cancel m rest bytes = ground arith

cancel-not-trade :
    (m : Trade) (rest : List ℕ) (bytes : ℕ) → read_cancel (trade_bytes m ++ rest) bytes ≡ none
unfolding read_cancel trade_bytes
cancel-not-trade m rest bytes = ground arith

-- The symbol of a message that was sent ends inside it.
trade-has_nul : (m : Trade) (rest : List ℕ) → has_nul (drop 22 (trade_bytes m ++ rest)) ≡ true
unfolding trade_bytes
trade-has_nul m rest = has_nul-fixed_str 15 m.symbol rest

submit-has_nul : (m : Submit) (rest : List ℕ) → has_nul (drop 28 (submit_bytes m ++ rest)) ≡ true
unfolding submit_bytes
submit-has_nul m rest = has_nul-fixed_str 15 m.symbol rest

cancel-has_nul : (m : Cancel) (rest : List ℕ) → has_nul (drop 22 (cancel_bytes m ++ rest)) ≡ true
unfolding cancel_bytes
cancel-has_nul m rest = has_nul-fixed_str 15 m.symbol rest

feed_message-feed_bytes :
    (connects : Bool) (m : FeedMsg) (rest : List ℕ) (bytes : ℕ) (md : Md) (out : List Effect)
    → IsFeedMsg m
    → feed_size m ≤ bytes
    → feed_message connects (feed_bytes m ++ rest) bytes (md, out)
      ≡ handled out (on_message connects m md)
unfolding feed_message
feed_message-feed_bytes connects (traded m) rest bytes md out v h = rw (
  submit-not-trade m rest bytes,
  cancel-not-trade m rest bytes,
  read_trade-trade_bytes m rest bytes v h,
  trade-has_nul m rest,
  feed_message,
)
feed_message-feed_bytes connects (submitted m) rest bytes md out v h =
    rw (read_submit-submit_bytes m rest bytes v h, submit-has_nul m rest, feed_message)
feed_message-feed_bytes connects (cancelled m) rest bytes md out v h = rw (
  submit-not-cancel m rest bytes,
  read_cancel-cancel_bytes m rest bytes v h,
  cancel-has_nul m rest,
  feed_message,
)

-- What goes on after a step: with its publications behind those before, or not at all.
abbrev pub resume : (Feed → Loop Feed) → List Effect → Stepped → Loop Feed
resume k out none = faulted
resume k out (some (md, more)) = k (md, out ++ more)

-- The messages in turn; the result is that of a loop that has used all its bytes.
pub on_messages : Bool → List FeedMsg → Feed → Loop Feed
on_messages connects [] s = finished s 0
on_messages connects (m ∷ ms) (md, out) =
    resume (on_messages connects ms) out (on_message connects m md)

abbrev pub total_size : List FeedMsg → ℕ
total_size [] = 0
total_size (m ∷ ms) = feed_size m + total_size ms

abbrev pub all_bytes : List FeedMsg → List ℕ
all_bytes [] = []
all_bytes (m ∷ ms) = feed_bytes m ++ all_bytes ms

size_ne : (m : FeedMsg) (n : ℕ) → (feed_size m + n == 0) ≡ false
size_ne (traded m) n = ground arith
size_ne (submitted m) n = ground arith
size_ne (cancelled m) n = ground arith

after-handled :
    (st : Stepped) (out : List Effect) (k : Feed → Loop Feed) (s : Feed) (n : ℕ)
    → after (handled out st) k s n ≡ resume k out st
after-handled none out k s n = refl
after-handled (some (md, more)) out k s n = refl

recv_cb-cons :
    (connects : Bool) (fuel : ℕ) (m : FeedMsg) (rest : List ℕ) (n : ℕ) (md : Md) (out : List Effect)
    → IsFeedMsg m
    → recv_cb connects (suc fuel) (feed_bytes m ++ rest) (feed_size m + n) (md, out)
      ≡ resume (recv_cb connects fuel rest n) out (on_message connects m md)
unfolding recv_cb recv_loop
recv_cb-cons connects fuel m rest n md out v =
    rw
      (
        size_ne m n,
        feed_message-feed_bytes connects m rest (feed_size m + n) md out v (omega arith),
        drop-feed_bytes m rest,
        msg_size-feed_bytes m rest,
        few,
        add-sub_cancel_left (feed_size m) n,
      )
      (after-handled (on_message connects m md) out (recv_cb connects fuel rest n) (md, out)
        (feed_size m + n))
  where
    few : ltb (feed_size m + n) (feed_size m) ≡ false
    few = ground arith

-- Messages that were sent one after the other, each well formed, are handled one after the other,
-- and with more rounds than messages none of their bytes is left: the loop is finished, or it has
-- met undefined behaviour where the handlers do.
pub recv_cb-all_bytes :
    (connects : Bool) (ms : List FeedMsg) (fuel : ℕ) (s : Feed)
    → All IsFeedMsg ms
    → length ms < fuel
    → recv_cb connects fuel (all_bytes ms) (total_size ms) s ≡ on_messages connects ms s
recv_cb-all_bytes connects ms zero s v h = absurd (omega arith)
recv_cb-all_bytes connects [] (suc fuel) s v h = unfold recv_cb recv_loop on_messages in refl
recv_cb-all_bytes connects (m ∷ ms) (suc fuel) (md, out) v h =
    recv_cb-cons connects fuel m (all_bytes ms) (total_size ms) md out v.0
    ∙ resume_congr (λ x. recv_cb-all_bytes connects ms fuel x v.1 (omega arith))
        (on_message connects m md)
    ∙ (unfold on_messages in refl)
  where
    resume_congr :
        {k k' : Feed → Loop Feed}
        → ((x : Feed) → k x ≡ k' x)
        → (st : Stepped) → resume k out st ≡ resume k' out st
    resume_congr e none = refl
    resume_congr e (some (md', more)) = e (md', out ++ more)
