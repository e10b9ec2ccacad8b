-- ===== src/Database/Escape/Quotes.antt =====
-- The loop of HandlePlayerChatRequest against a recursion on the message.
use Prim.Native.Char.{Char}
use game_database_server.Prelude.{
  ℕ, zero, suc, ◌+◌, ◌<◌, ◌≡◌, refl, sym, inl, inr, true, false, List, [], ◌∷◌, ◌++◌, none, some,
  String, if◌then◌else◌, length, length-append, append_assoc, arith, Bool-cases,
}
use game_database_server.Text.{chars, of_chars}
use game_database_server.Database.Escape.{
  is_quote, find_quote, replace_quote, escape_loop, escape_message,
}

-- Every quote with a backslash before it, every other character as it is.
abbrev pub escaped : List Char → List Char
escaped [] = []
escaped (c ∷ s) = let rest = escaped s in if is_quote c then "\\" ∷ "'" ∷ rest else c ∷ rest

abbrev escaped_quote : List Char
escaped_quote = "\\" ∷ "'" ∷ []

find_quote-none : (pre : List Char) → find_quote (length pre) (pre ++ []) ≡ none
unfolding find_quote is_quote
find_quote-none [] = refl
find_quote-none (x ∷ pre) = rw (find_quote-none pre)

find_quote-here :
    (pre : List Char) (c : Char) (s : List Char)
    → is_quote c ≡ true
    → find_quote (length pre) (pre ++ c ∷ s) ≡ some (length pre)
unfolding find_quote is_quote
find_quote-here [] c s q = rw q
find_quote-here (x ∷ pre) c s q = rw (find_quote-here pre c s q)

find_quote-skip :
    (pre : List Char) (c : Char) (s : List Char)
    → is_quote c ≡ false
    → find_quote (length pre) (pre ++ c ∷ s) ≡ find_quote (suc (length pre)) (pre ++ c ∷ s)
unfolding find_quote is_quote
find_quote-skip [] c s q = rw q
find_quote-skip (x ∷ pre) c s q = rw (find_quote-skip pre c s q)

replace_quote-here :
    (pre : List Char) (c : Char) (s : List Char)
    → replace_quote (length pre) (pre ++ c ∷ s) ≡ pre ++ "\\" ∷ "'" ∷ s
unfolding replace_quote
replace_quote-here [] c s = refl
replace_quote-here (x ∷ pre) c s = rw (replace_quote-here pre c s)

-- One round, where the search from either position has the same result.
escape_loop-cong :
    (fuel : ℕ) (s : List Char) (i j : ℕ)
    → find_quote i s ≡ find_quote j s
    → escape_loop (suc fuel) s i ≡ escape_loop (suc fuel) s j
unfolding escape_loop
escape_loop-cong fuel s i j e = rw (escape_loop, e)

escape_loop-quote :
    (fuel : ℕ) (pre : List Char) (c : Char) (s : List Char)
    → is_quote c ≡ true
    → escape_loop (suc fuel) (pre ++ c ∷ s) (length pre)
      ≡ escape_loop fuel (pre ++ "\\" ∷ "'" ∷ s) (length pre + 2)
unfolding escape_loop
escape_loop-quote fuel pre c s q =
    rw (escape_loop, find_quote-here pre c s q, replace_quote-here pre c s)

escape_loop-end :
    (fuel : ℕ) (pre : List Char)
    → escape_loop (suc fuel) (pre ++ []) (length pre) ≡ some (pre ++ [])
unfolding escape_loop
escape_loop-end fuel pre = rw (escape_loop, find_quote-none pre)

-- A prefix that grows by a list.
moved : (pre more : List Char) → length pre + length more ≡ length (pre ++ more)
moved pre more = sym (length-append pre more)

skipped : (pre : List Char) (c : Char) → suc (length pre) ≡ length (pre ++ c ∷ [])
skipped pre c = omega (arith, length-append pre (c ∷ []))

pub escape_loop_lem :
    (s pre : List Char) (fuel : ℕ)
    → length s < fuel
    → escape_loop fuel (pre ++ s) (length pre) ≡ some (pre ++ escaped s)
escape_loop_lem [] pre zero enough = absurd (omega arith)
escape_loop_lem [] pre (suc fuel) enough = escape_loop-end fuel pre
escape_loop_lem (c ∷ s) pre zero enough = absurd (omega arith)
escape_loop_lem (c ∷ s) pre (suc fuel) enough = elim (Bool-cases (is_quote c)) [
  | inl q ↦
      rw (escape_loop-quote fuel pre c s q, moved pre escaped_quote, q)
        (cc (
          escape_loop_lem s (pre ++ escaped_quote) fuel (omega arith),
          append_assoc pre escaped_quote s,
          append_assoc pre escaped_quote (escaped s),
        ))
  | inr q ↦
      let one = c ∷ [] in
      rw (escape_loop-cong fuel (pre ++ c ∷ s) _ _ (find_quote-skip pre c s q), skipped pre c, q)
        (cc (
          escape_loop_lem s (pre ++ one) (suc fuel) (omega arith),
          append_assoc pre one s,
          append_assoc pre one (escaped s),
        ))
]

-- The loop as HandlePlayerChatRequest runs it has this result and no other.
pub escape_loop-escaped :
    (s e : List Char) → escape_loop (suc (length s)) s 0 ≡ some e → e ≡ escaped s
escape_loop-escaped s e h = cc (h, escape_loop_lem s [] (suc (length s)) (omega arith))

-- A chat message always leaves the loop, and it is the message with a backslash before every
-- quote and no other change.
pub escape_message_lem : (s : String) → escape_message s ≡ some (of_chars (escaped (chars s)))
unfolding escape_message
escape_message_lem s = rw (escape_loop_lem (chars s) [] (suc (length (chars s))) (omega arith)) refl
