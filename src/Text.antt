-- ===== src/Text.antt =====
-- std::string as the sources use it: numbers put into a stream, and std::stoul.
-- A text is a native `String`; `size()` is `len`, the bytes of its UTF-8.
pub mod Numbers
use Prim.Native.Char.{Char, code}
use game_database_server.Prelude.{
  ℕ, zero, suc, ◌+◌, ◌-◌, ◌*◌, ◌/◌, ◌%◌, ◌^◌, ◌≡◌, refl, Bool, true, false, ◌&&◌, ◌||◌, List, [],
  ◌∷◌, Option, none, some, String, ◌<>◌, ltb, leb, ◌==◌, if◌then◌else◌,
}

digit : ℕ → String
digit n =
    if n == 0
    then "0"
    else if n == 1
    then "1"
    else if n == 2
    then "2"
    else if n == 3
    then "3"
    else if n == 4
    then "4"
    else if n == 5
    then "5"
    else if n == 6
    then "6"
    else if n == 7
    then "7"
    else if n == 8
    then "8"
    else "9"

-- Each round writes the last digit; a number below 10 ^ fuel has at most `fuel` digits.
digits : ℕ → ℕ → String → String
unfolding digit
digits zero n acc = acc
digits (suc fuel) n acc =
    let acc' = digit (n % 10) <> acc in
    let rest = digits fuel (n / 10) acc' in if n / 10 == 0 then acc' else rest

-- `stream << n` and std::to_string(n) for an unsigned number of at most 64 bits (20 digits).
unfoldable pub show : ℕ → String
unfolding digits
show n = digits 20 n ""

abbrev pub chars : String → List Char
chars String.[] = []
chars (String.◌∷◌ c s) = c ∷ chars s

abbrev pub of_chars : List Char → String
of_chars [] = ""
of_chars (c ∷ cs) = String.◌∷◌ c (of_chars cs)

-- The white space that strtoul skips: space, and the control characters 9 to 13.
is_space : Char → Bool
is_space c = code c == 32 || (leb 9 (code c) && leb (code c) 13)

is_digit : Char → Bool
is_digit c = leb 48 (code c) && leb (code c) 57

skip_space : List Char → List Char
unfolding is_space
skip_space [] = []
skip_space (c ∷ cs) = if is_space c then skip_space cs else c ∷ cs

-- The longest run of digits in front, as a number; `none` if there is no digit.
read_digits : Option ℕ → List Char → Option ℕ
unfolding is_digit
read_digits acc [] = acc
read_digits acc (c ∷ cs) =
    let n : ℕ = elim acc [ none ↦ 0 | some a ↦ a ] in
    let rest = read_digits (some (n * 10 + (code c - 48))) cs in if is_digit c then rest else acc

abbrev pub ulong_mod : ℕ
ulong_mod = 2 ^ 32

-- strtoul negates a number with a minus sign modulo 2 ^ 32; std::stoul throws where there is no
-- digit, and where the digits name a number that `unsigned long` (32 bits on Windows) cannot hold.
bounded : Bool → Option ℕ → Option ℕ
bounded negative none = none
bounded negative (some n) =
    if ltb n ulong_mod
    then (if negative then some ((ulong_mod - n) % ulong_mod) else some n)
    else none

signed : List Char → Option ℕ
unfolding read_digits bounded
signed [] = none
signed (c ∷ cs) =
    if code c == 45
    then bounded true (read_digits none cs)
    else if code c == 43
    then bounded false (read_digits none cs)
    else bounded false (read_digits none (c ∷ cs))

-- std::stoul; `none` is the exception.
unfoldable pub stoul : String → Option ℕ
unfolding skip_space signed
stoul s = signed (skip_space (chars s))

-- What a C string keeps of a text: the part before its first NUL.
unfoldable pub c_str : String → String
c_str String.[] = ""
c_str (String.◌∷◌ c s) = if code c == 0 then "" else String.◌∷◌ c (c_str s)

show_some : show 4294967295 ≡ "4294967295"
unfolding show
show_some = refl

stoul-some : (stoul " 42x" ≡ some 42) × (stoul "-5" ≡ some 4294967291) × (stoul "x" ≡ none)
unfolding stoul
stoul-some = (refl, refl, refl)
