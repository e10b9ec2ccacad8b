-- ===== src/Database/Escape/Literal.antt =====
-- What the database makes of the escaped message: a string literal of MySQL in single quotes, where
-- a backslash takes the next character and a doubled quote is a quote.
use Prim.Native.Char.{Char, code}
use game_database_server.Prelude.{
  suc, length, arith, ◌≡◌, refl, Bool, true, false, List, [], ◌∷◌, ◌++◌, Option, none, some, ◌==◌,
  if◌then◌else◌, Bool-cases, inl, inr,
}
use game_database_server.Database.Escape.{is_quote, escape_loop}
use game_database_server.Database.Escape.Quotes.{escaped, escape_loop_lem, escape_loop-escaped}

abbrev pub is_backslash : Char → Bool
is_backslash c = code c == 92

-- The state of the reader: in the text, behind a backslash, or behind a quote that ends the literal
-- unless a quote follows.
pub data Reader : Type 0 where
  inside behind_backslash behind_quote : Reader

-- What stands behind the literal whose opening quote has been read; `none` where it does not end.
abbrev pub after_literal : Reader → List Char → Option (List Char)
after_literal Reader.inside [] = none
after_literal Reader.inside (c ∷ s) =
    let quoted = after_literal Reader.behind_quote s in
    let slashed = after_literal Reader.behind_backslash s in
    let rest = after_literal Reader.inside s in
    if is_quote c then quoted else if is_backslash c then slashed else rest
after_literal Reader.behind_backslash [] = none
after_literal Reader.behind_backslash (c ∷ s) = after_literal Reader.inside s
after_literal Reader.behind_quote [] = some []
after_literal Reader.behind_quote (c ∷ s) =
    let rest = after_literal Reader.inside s in if is_quote c then rest else some (c ∷ s)

abbrev pub has_backslash : List Char → Bool
has_backslash [] = false
has_backslash (c ∷ s) = let rest = has_backslash s in if is_backslash c then true else rest

clean : (b c : Bool) → (if b then true else c) ≡ false → (b ≡ false) × (c ≡ false)
clean true c h = cc
clean false c h = (refl, h)

escaped-stays_inside :
    (s : List Char) (c : Char) (behind : List Char)
    → is_quote c ≡ false
    → has_backslash s ≡ false
    → after_literal Reader.inside (escaped s ++ "'" ∷ c ∷ behind) ≡ some (c ∷ behind)
unfolding is_quote
escaped-stays_inside [] c behind q h = rw q
escaped-stays_inside (x ∷ s) c behind q h = elim (Bool-cases (is_quote x)) [
  | inl a ↦ rw a (escaped-stays_inside s c behind q (clean (is_backslash x) (has_backslash s) h).1)
  | inr b ↦
      rw (b, b, (clean (is_backslash x) (has_backslash s) h).0)
        (escaped-stays_inside s c behind q (clean (is_backslash x) (has_backslash s) h).1)
]

escaped-leaves :
    (x : Char) (s behind : List Char)
    → after_literal Reader.inside (escaped ("\\" ∷ "'" ∷ x ∷ s) ++ behind)
      ≡ some (escaped (x ∷ s) ++ behind)
unfolding is_quote
escaped-leaves x s behind = elim (Bool-cases (is_quote x)) [
  | inl a ↦ rw a refl
  | inr b ↦ rw (b, b) refl
]

-- Without a backslash of its own, a message stays in its literal when it is escaped: what stands
-- behind the literal is what the statement has there.
pub escape_loop-stays_inside :
    (s e : List Char) (c : Char) (behind : List Char)
    → is_quote c ≡ false
    → has_backslash s ≡ false
    → escape_loop (suc (length s)) s 0 ≡ some e
    → after_literal Reader.inside (e ++ "'" ∷ c ∷ behind) ≡ some (c ∷ behind)
escape_loop-stays_inside s e c behind q h loop =
    rw (escape_loop-escaped s e loop) (escaped-stays_inside s c behind q h)

-- A message that starts with a backslash, a quote and another character leaves its literal when it
-- is escaped: the rest of the message stands behind the literal, as a part of the statement.
pub escape_loop-leaves :
    (x : Char) (s e behind : List Char)
    → escape_loop (suc (length ("\\" ∷ "'" ∷ x ∷ s))) ("\\" ∷ "'" ∷ x ∷ s) 0 ≡ some e
    → (rest : List Char) × (after_literal Reader.inside (e ++ behind) ≡ some (rest ++ behind))
      × (escape_loop (suc (length (x ∷ s))) (x ∷ s) 0 ≡ some rest)
escape_loop-leaves x s e behind loop = (
  escaped (x ∷ s),
  rw (escape_loop-escaped ("\\" ∷ "'" ∷ x ∷ s) e loop) (escaped-leaves x s behind),
  escape_loop_lem (x ∷ s) [] _ (omega arith),
)
