-- ===== src/Database/Escape.antt =====
-- DatabaseThread.cpp, HandlePlayerChatRequest: the quotes of a message get a backslash, in place.
pub mod Quotes
pub mod Literal
use Prim.Native.Char.{Char, code}
use mathlib.Core.Option
use game_database_server.Prelude.{
  ℕ, zero, suc, ◌+◌, ◌≡◌, refl, Bool, List, [], ◌∷◌, Option, none, some, String, ◌==◌,
  if◌then◌else◌, length,
}
use game_database_server.Text.{chars, of_chars}

unfoldable pub is_quote : Char → Bool
is_quote c = code c == 39

-- `s.find("'", pos)`
unfoldable pub find_quote : ℕ → List Char → Option ℕ
unfolding is_quote
find_quote pos [] = none
find_quote zero (c ∷ s) =
    let later = Option.map suc (find_quote zero s) in if is_quote c then some 0 else later
find_quote (suc pos) (c ∷ s) = Option.map suc (find_quote pos s)

-- `s.replace(pos, 1, "\\'")`
unfoldable pub replace_quote : ℕ → List Char → List Char
replace_quote pos [] = []
replace_quote zero (c ∷ s) = "\\" ∷ "'" ∷ s
replace_quote (suc pos) (c ∷ s) = c ∷ replace_quote pos s

-- The loop, with fuel; `none` means that the fuel ran out.
unfoldable pub escape_loop : ℕ → List Char → ℕ → Option (List Char)
unfolding find_quote replace_quote
escape_loop zero s pos = none
escape_loop (suc fuel) s pos = elim (find_quote pos s) [
  | none ↦ some s
  | some i ↦ escape_loop fuel (replace_quote i s) (i + 2)
]

-- The message as it goes into the statement. A message has at most `length` quotes, and the last
-- round finds none.
unfoldable pub escape_message : String → Option String
unfolding escape_loop
escape_message s = Option.map of_chars (escape_loop (suc (length (chars s))) (chars s) 0)

escape_message-some : escape_message "it's 'me'" ≡ some "it\\'s \\'me\\'"
unfolding escape_message
escape_message-some = refl
