-- ===== src/Common/Text.antt =====
-- Texts that the program walks: their characters as code points, ASCII classes, searching, and the
-- decimal notation of a number.
use Prim.Native.Nat.{ℕ, zero, suc, ◌+◌, ◌-◌, ◌/◌, ◌%◌, compare, Ordering}
use Prim.Native.Char.{Char, code}
use Prim.Native.String
use Prim.Native.String.{String, char_at}
use text.Mathlib.Text.{◌==◌ as str_eq}
use mathlib.Core.Bool.{Bool, true, false, ◌&&◌, ◌||◌, cond}
use mathlib.Core.List.{List, [], ◌∷◌}

abbrev leb : ℕ → ℕ → Bool
leb a b = elim (compare a b) [ Ordering.gt ↦ false | _ ↦ true ]

abbrev eqb : ℕ → ℕ → Bool
eqb a b = elim (compare a b) [ Ordering.eq ↦ true | _ ↦ false ]

-- The code points of a text.
unfoldable pub codes : String → List ℕ
codes (String.◌∷◌ letter rest) = code letter ∷ codes rest
codes String.[] = []

infixr 65 ◌<>◌
-- `a + b` of texts
abbrev pub ◌<>◌ : String → String → String
a <> b = String.◌++◌ a b

unfoldable pub is_lower : ℕ → Bool
is_lower c = leb b'a' c && leb c b'z'

unfoldable pub is_upper : ℕ → Bool
is_upper c = leb b'A' c && leb c b'Z'

unfoldable pub is_digit : ℕ → Bool
is_digit c = leb b'0' c && leb c b'9'

-- ASCII lower case; other characters stay.
unfoldable pub fold_case : ℕ → ℕ
unfolding is_upper
fold_case c = cond (is_upper c) (c + 32) c

unfoldable pub begins : List ℕ → List ℕ → Bool
begins [] s = true
begins (p ∷ ps) [] = false
begins (p ∷ ps) (c ∷ s) = eqb p c && begins ps s

-- `s.includes(p)`
unfoldable pub contains : List ℕ → List ℕ → Bool
unfolding begins
contains p [] = begins p []
contains p (c ∷ s) = begins p (c ∷ s) || contains p s

digit : ℕ → String
digit n = cond (eqb n 0) "0" (
    cond (eqb n 1) "1" (
      cond (eqb n 2) "2" (
        cond (eqb n 3) "3" (
          cond (eqb n 4) "4" (
            cond (eqb n 5) "5"
              (cond (eqb n 6) "6" (cond (eqb n 7) "7" (cond (eqb n 8) "8" "9"))))))))

decimal : ℕ → ℕ → String
unfolding digit
decimal zero n = ""
decimal (suc f) n = let more = decimal f (n / 10) <> digit (n % 10) in cond (leb n 9) (digit n) more

-- `String(n)`; a number has no more digits than one more than itself.
unfoldable pub to_string : ℕ → String
unfolding decimal
to_string n = decimal (suc n) n

abbrev pub is_char : ℕ → Char → Bool
is_char n c = eqb n (code c)

-- One character at the end of a text.
abbrev pub push : String → Char → String
push s c = s <> String.◌∷◌ c String.[]

-- The text between two marks `n`; always at least one part. `s.split(mark)`
split_from : ℕ → String → String → List String
split_from n part String.[] = part ∷ []
split_from n part (String.◌∷◌ c s) =
    let closed = part ∷ split_from n String.[] s in
    let longer = split_from n (push part c) s in cond (is_char n c) closed longer

unfoldable pub split_on : ℕ → String → List String
unfolding split_from
split_on n s = split_from n String.[] s

-- `s.includes(mark)` for a mark of one character
unfoldable pub has_char : ℕ → String → Bool
has_char n String.[] = false
has_char n (String.◌∷◌ c s) = is_char n c || has_char n s

-- `s.split(mark, 1)[0]`: what stands before the first mark, or the whole text
unfoldable pub before : ℕ → String → String
before n String.[] = String.[]
before n (String.◌∷◌ c s) = cond (is_char n c) String.[] (String.◌∷◌ c (before n s))

-- `s.slice(s.indexOf(mark) + 1)` where the mark is there
unfoldable pub after : ℕ → String → String
after n String.[] = String.[]
after n (String.◌∷◌ c s) = cond (is_char n c) s (after n s)

-- `s.endsWith(t)`
unfoldable pub ends_with : String → String → Bool
ends_with String.[] t = str_eq String.[] t
ends_with (String.◌∷◌ c s) t = str_eq (String.◌∷◌ c s) t || ends_with s t

-- `s.startsWith(mark)` for a mark of one character
abbrev pub starts_with_char : ℕ → String → Bool
starts_with_char n String.[] = false
starts_with_char n (String.◌∷◌ c s) = is_char n c

-- `s.toLowerCase()` of an ASCII text
lower_char : Char → Char
lower_char c = cond (is_upper (code c)) (char_at "abcdefghijklmnopqrstuvwxyz" (code c - b'A')) c

unfoldable pub to_lower : String → String
unfolding lower_char is_upper
to_lower String.[] = String.[]
to_lower (String.◌∷◌ c s) = String.◌∷◌ (lower_char c) (to_lower s)

-- The characters that `trim` takes off, which `\s` matches too.
unfoldable pub is_space : ℕ → Bool
is_space c =
    leb 9 c && leb c 13
    || eqb c 32
    || eqb c 0xa0
    || eqb c 0x1680
    || leb 0x2000 c && leb c 0x200a
    || eqb c 0x2028
    || eqb c 0x2029
    || eqb c 0x202f
    || eqb c 0x205f
    || eqb c 0x3000
    || eqb c 0xfeff

trim_start : String → String
trim_start String.[] = String.[]
trim_start (String.◌∷◌ c s) = cond (is_space (code c)) (trim_start s) (String.◌∷◌ c s)

-- Every character is a space, so nothing is left by `trim`.
unfoldable pub is_blank : String → Bool
unfolding is_space
is_blank String.[] = true
is_blank (String.◌∷◌ c s) = is_space (code c) && is_blank s

trim_end : String → String
trim_end String.[] = String.[]
trim_end (String.◌∷◌ c s) = cond (is_blank (String.◌∷◌ c s)) String.[] (String.◌∷◌ c (trim_end s))

unfoldable pub trim : String → String
unfolding trim_start trim_end is_blank is_space
trim s = trim_end (trim_start s)
