-- ===== src/BasicMatch/Lines.antt =====
-- Whatever line a client sends, the engine's books stay in order.
use mathlib.Core.Option
use basicmatch.Base.{
  ℕ, Option, none, some, List, Text, arith, Ensures, Ensures-map, Ensures-some, Ensures-any, inl,
  inr, Bool-cases, Option-cases, [], ◌∷◌,
}
use basicmatch.Engine.{Engine, Executed, execute}
use basicmatch.Engine.Orderly.{AreOrderly, Fits, execute-AreOrderly}
use basicmatch.Serializer.{
  parse_submit, parse_cancel, parse_words, words, deserialize, serialize, convert,
}
use basicmatch.Match.{Event}
use basicmatch.BasicMatch.{action}

module _ (stod : Text → ℕ) where
  parse_submit-Fits :
      (id symbol side qty price : Text) → Ensures Fits (parse_submit stod id symbol side qty price)
  unfolding parse_submit
  parse_submit-Fits id symbol side qty price = ground (arith)

  parse_cancel-Fits : (id : Text) → Ensures Fits (parse_cancel stod id)
  unfolding parse_cancel
  parse_cancel-Fits id = ground arith

  pub parse_words-Fits : (ws : List Text) → Ensures Fits (parse_words stod ws)
  unfolding parse_words
  parse_words-Fits (w ∷ []) = ground arith
  parse_words-Fits (w ∷ id ∷ []) = ground (arith, parse_cancel-Fits id)
  parse_words-Fits (w ∷ id ∷ symbol ∷ side ∷ qty ∷ price ∷ []) =
      ground (arith, parse_submit-Fits id symbol side qty price)
  parse_words-Fits _ = tt

  -- A quantity that is read fits 16 bits.
  deserialize-Fits : (line : Text) → Fits (deserialize stod line).0
  unfolding deserialize
  deserialize-Fits line = elim (Option-cases (parse_words stod (words line))) [
    | inl n ↦ rw (n, deserialize) tt
    | inr (a, e) ↦ rw (e, deserialize) (Ensures-some Fits _ e (parse_words-Fits (words line)))
  ]

  -- Whatever the text of a line, and however prices are read and shown: where the books of the
  -- engine are in order before the line is acted on, and acting on it is defined, they are so after
  -- it.
  pub action-AreOrderly :
      (show_price : ℕ → Text) (line : Text) (e : Engine)
      → AreOrderly e.books
      → Ensures (λ x. AreOrderly x.0.books) (action stod show_price line e)
  unfolding action
  action-AreOrderly show_price line e h = elim (Bool-cases (deserialize stod line).1) [
    | inl ok ↦ rw ok (
        executed (execute (deserialize stod line).0 e)
          (execute-AreOrderly _ e (deserialize-Fits line) h))
    | inr bad ↦ rw bad (
        Ensures-map (λ _. Unit) _ _ (convert show_price (deserialize stod line).0) (λ text k. h)
          (Ensures-any (convert show_price (deserialize stod line).0)))
  ]
    where
      executed :
          (m : Option Executed)
          → Ensures (λ x. AreOrderly x.0.books) m
          → Ensures
              (λ (x : Engine × List Text × List Event). AreOrderly x.0.books)
              (Option.bind m (λ (e', out).
                Option.map (λ lines. (e', lines, out.events)) (serialize show_price out.results)))
      executed none k = tt
      executed (some (e', out)) k =
          Ensures-map (λ _. Unit) _ _ (serialize show_price out.results) (λ lines z. k)
            (Ensures-any (serialize show_price out.results))
