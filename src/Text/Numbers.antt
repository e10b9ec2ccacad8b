-- ===== src/Text/Numbers.antt =====
-- Numbers put into the text of a statement, and read from the text of a row.
use Prim.Native.Char.{Char, code}
use text.Mathlib.TextLemmas.{cons-append, nil-append}
use game_database_server.Prelude.{
  ℕ, zero, suc, ◌+◌, ◌-◌, ◌*◌, ◌/◌, ◌%◌, ◌^◌, ◌<◌, ◌≡◌, refl, ap, ◌∙◌, true, false, List, ◌∷◌,
  Option, none, some, String, ◌<>◌, ◌==◌, Bool-cases, arith, inl, inr, ==_iff, lt→ltb,
}
use game_database_server.Text.{
  digit, digits, show, chars, is_space, is_digit, skip_space, read_digits, signed, bounded, stoul,
}

-- The number read so far.
abbrev so_far : Option ℕ → ℕ
so_far none = 0
so_far (some a) = a

-- The text starts with a digit.
abbrev IsNumeral : List Char → Type 0
IsNumeral cs = (c : Char) × (rest : List Char) × (cs ≡ c ∷ rest) × (is_digit c ≡ true)

chars-append : (c : Char) (s : String) → chars (String.◌∷◌ c "" <> s) ≡ c ∷ chars s
chars-append c s = ap chars (cons-append c "" s ∙ ap (String.◌∷◌ c) (nil-append s))

-- A digit is the character with the code 48 + d.
digit-code :
    (d : ℕ) (s : String)
    → d < 10
    → (c : Char) × (chars (digit d <> s) ≡ c ∷ chars s) × (code c ≡ 48 + d)
unfolding digit
digit-code zero s h = ("0", chars-append "0" s, refl)
digit-code (suc zero) s h = ("1", chars-append "1" s, refl)
digit-code (suc (suc zero)) s h = ("2", chars-append "2" s, refl)
digit-code (suc (suc (suc zero))) s h = ("3", chars-append "3" s, refl)
digit-code (suc (suc (suc (suc zero)))) s h = ("4", chars-append "4" s, refl)
digit-code (suc (suc (suc (suc (suc zero))))) s h = ("5", chars-append "5" s, refl)
digit-code (suc (suc (suc (suc (suc (suc zero)))))) s h = ("6", chars-append "6" s, refl)
digit-code (suc (suc (suc (suc (suc (suc (suc zero))))))) s h = ("7", chars-append "7" s, refl)
digit-code (suc (suc (suc (suc (suc (suc (suc (suc zero)))))))) s h =
    ("8", chars-append "8" s, refl)
digit-code (suc (suc (suc (suc (suc (suc (suc (suc (suc zero))))))))) s h =
    ("9", chars-append "9" s, refl)
digit-code (suc (suc (suc (suc (suc (suc (suc (suc (suc (suc d)))))))))) s h =
    absurd (omega (arith, h))

code-is_digit : (c : Char) (d : ℕ) → code c ≡ 48 + d → d < 10 → is_digit c ≡ true
unfolding is_digit
code-is_digit c d e h = ground arith

digit-IsNumeral : (d : ℕ) (s : String) → d < 10 → IsNumeral (chars (digit d <> s))
digit-IsNumeral d s h = let (c, e, k) = digit-code d s h in (c, chars s, e, code-is_digit c d k h)

minus_lem : (d : ℕ) → 48 + d - 48 ≡ d
minus_lem d = omega arith

read_digits-first :
    (c : Char) (cs : List Char) (o : Option ℕ) (d : ℕ)
    → code c ≡ 48 + d
    → d < 10
    → read_digits o (c ∷ cs) ≡ read_digits (some (so_far o * 10 + d)) cs
unfolding read_digits
read_digits-first c cs none d e h = rw (code-is_digit c d e h, e) (rw (minus_lem d) refl)
read_digits-first c cs (some a) d e h = rw (code-is_digit c d e h, e) (rw (minus_lem d) refl)

read_digits-digit :
    (d : ℕ) (o : Option ℕ) (s : String)
    → d < 10
    → read_digits o (chars (digit d <> s)) ≡ read_digits (some (so_far o * 10 + d)) (chars s)
read_digits-digit d o s h =
    let (c, e, k) = digit-code d s h in ap (read_digits o) e ∙ read_digits-first c (chars s) o d k h

digits-IsNumeral : (fuel n : ℕ) (s : String) → IsNumeral (chars (digits (suc fuel) n s))
unfolding digits
digits-IsNumeral zero n s = elim (Bool-cases (n / 10 == 0)) [
  | inl e ↦ rw (e) (digit-IsNumeral (n % 10) s (omega arith))
  | inr e ↦ rw (e) (digit-IsNumeral (n % 10) s (omega arith))
]
digits-IsNumeral (suc fuel) n s = elim (Bool-cases (n / 10 == 0)) [
  | inl e ↦ rw (e) (digit-IsNumeral (n % 10) s (omega arith))
  | inr e ↦ rw (e) (digits-IsNumeral fuel (n / 10) (digit (n % 10) <> s))
]

small_lem : (n : ℕ) → n < 10 → ¬ ((n / 10 == 0) ≡ false)
small_lem n h e = ground arith

read_digits-last :
    (n : ℕ) (s : String)
    → (n / 10 == 0) ≡ true
    → read_digits none (chars (digit (n % 10) <> s)) ≡ read_digits (some n) (chars s)
read_digits-last n s e =
    read_digits-digit (n % 10) none s (omega arith)
    ∙ ap (λ m. read_digits (some m) (chars s)) (omega (arith, (==_iff (n / 10) 0).0 e))

read_digits-digits :
    (fuel n : ℕ) (s : String)
    → n < 10 ^ suc fuel
    → read_digits none (chars (digits (suc fuel) n s)) ≡ read_digits (some n) (chars s)
unfolding digits
read_digits-digits zero n s h = elim (Bool-cases (n / 10 == 0)) [
  | inl e ↦ rw (e) (read_digits-last n s e)
  | inr e ↦ absurd (small_lem n h e)
]
read_digits-digits (suc fuel) n s h = elim (Bool-cases (n / 10 == 0)) [
  | inl e ↦ rw (e) (read_digits-last n s e)
  | inr e ↦ rw (e) (
      read_digits-digits fuel (n / 10) (digit (n % 10) <> s) (omega (arith, h))
      ∙ read_digits-digit (n % 10) (some (n / 10)) s (omega arith)
      ∙ ap (λ m. read_digits (some m) (chars s)) (omega arith))
]

not_space : (c : Char) → is_digit c ≡ true → is_space c ≡ false
unfolding is_space is_digit
not_space c d = ground arith

not_minus : (c : Char) → is_digit c ≡ true → (code c == 45) ≡ false
unfolding is_digit
not_minus c d = ground arith

not_plus : (c : Char) → is_digit c ≡ true → (code c == 43) ≡ false
unfolding is_digit
not_plus c d = ground arith

stoul-numeral :
    (s : String) → IsNumeral (chars s) → stoul s ≡ bounded false (read_digits none (chars s))
unfolding stoul skip_space signed is_space is_digit
stoul-numeral s (c, rest, e, d) = rw (e, not_space c d, d, not_minus c d, not_plus c d) refl

show_lem : (n : ℕ) → show n ≡ digits 20 n ""
unfolding show digits
show_lem n = refl

bounded_lem : (n : ℕ) → n < 2 ^ 32 → bounded false (some n) ≡ some n
unfolding bounded
bounded_lem n h = rw (lt→ltb n (2 ^ 32) h) refl

-- A number of 32 bits that is written into a text is read back from it.
pub stoul-show : (n : ℕ) → n < 2 ^ 32 → stoul (show n) ≡ some n
unfolding read_digits
stoul-show n h =
    ap stoul (show_lem n)
    ∙ stoul-numeral (digits 20 n "") (digits-IsNumeral 19 n "")
    ∙ ap (bounded false) (read_digits-digits 19 n "" (omega (arith, h)))
    ∙ bounded_lem n h
