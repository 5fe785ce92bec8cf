-- ===== src/Common/Text.antt =====
-- Python's texts, character by character: `strip`, `find`, slices and `replace`.
use Prim.Native.Nat.{ℕ, zero, suc, ◌+◌, ◌-◌, ◌*◌, ◌/◌, ◌%◌}
use Prim.Native.Char.{code}
use Prim.Native.String.{String}
use mathlib.Core.Bool.{Bool, true, false, ◌&&◌, ◌||◌}
use mathlib.Core.Option.{Option, none, some}
use mathlib.Core.List.{List, [], ◌∷◌}
use agent_roi_console.Common.Tests.{append_text, size, leb, ltb, ◌==◌, if◌then◌else◌}

-- `c.isspace()`, by the code point
abbrev pub is_space : ℕ → Bool
is_space c =
    (leb 9 c && leb c 13)
    || (leb 28 c && leb c 32)
    || c == 133
    || c == 160
    || c == 5760
    || (leb 8192 c && leb c 8202)
    || c == 8232
    || c == 8233
    || c == 8239
    || c == 8287
    || c == 12288

abbrev pub is_blank : String → Bool
is_blank String.[] = true
is_blank (String.◌∷◌ c s) = false

unfoldable pub strip_left : String → String
strip_left String.[] = ""
strip_left (String.◌∷◌ c s) =
    let rest = strip_left s in if is_space (code c) then rest else String.◌∷◌ c s

unfoldable pub strip_right : String → String
strip_right String.[] = ""
strip_right (String.◌∷◌ c s) =
    let rest = strip_right s in if is_blank rest && is_space (code c) then "" else String.◌∷◌ c rest

-- `s.strip()`
unfoldable pub strip : String → String
unfolding strip_left strip_right
strip s = strip_right (strip_left s)

-- `s[:n]`
unfoldable pub take_text : ℕ → String → String
take_text zero s = ""
take_text (suc n) String.[] = ""
take_text (suc n) (String.◌∷◌ c s) = String.◌∷◌ c (take_text n s)

-- `s[n:]`
unfoldable pub drop_text : ℕ → String → String
drop_text zero s = s
drop_text (suc n) String.[] = ""
drop_text (suc n) (String.◌∷◌ c s) = drop_text n s

abbrev pub next_index : Option ℕ → Option ℕ
next_index none = none
next_index (some n) = some (suc n)

-- `s.find(c)` of one character, by its code point; `none` for -1
unfoldable pub find : ℕ → String → Option ℕ
find k String.[] = none
find k (String.◌∷◌ c s) = let later = next_index (find k s) in if code c == k then some 0 else later

abbrev pub or_here : Option ℕ → Bool → Option ℕ
or_here (some n) here = some (suc n)
or_here none true = some 0
or_here none false = none

-- `s.rfind(c)`
unfoldable pub rfind : ℕ → String → Option ℕ
rfind k String.[] = none
rfind k (String.◌∷◌ c s) = or_here (rfind k s) (code c == k)

-- `s.replace("__", ".", 1)`
unfoldable pub replace_first_dunder : String → String
replace_first_dunder String.[] = ""
replace_first_dunder (String.◌∷◌ c String.[]) = String.◌∷◌ c ""
replace_first_dunder (String.◌∷◌ c (String.◌∷◌ d s)) =
    let later = String.◌∷◌ c (replace_first_dunder (String.◌∷◌ d s)) in
    if code c == 95 && code d == 95 then append_text "." s else later

-- `s.startswith(p)`
unfoldable pub starts_with : String → String → Bool
starts_with String.[] s = true
starts_with (String.◌∷◌ c p) String.[] = false
starts_with (String.◌∷◌ c p) (String.◌∷◌ d s) = code c == code d && starts_with p s

-- `p in s`
unfoldable pub has_text : String → String → Bool
unfolding starts_with
has_text p String.[] = starts_with p ""
has_text p (String.◌∷◌ c s) = starts_with p (String.◌∷◌ c s) || has_text p s

-- `s.endswith(p)`
unfoldable pub ends_with : String → String → Bool
unfolding starts_with drop_text
ends_with p s = leb (size p) (size s) && starts_with p (drop_text (size s - size p) s)

-- `s.split(c, 1)[0]`, by the code point of `c`
unfoldable pub before : ℕ → String → String
before k String.[] = ""
before k (String.◌∷◌ c s) = let rest = before k s in if code c == k then "" else String.◌∷◌ c rest

-- The characters of a text, each a text.
abbrev pub characters : String → List String
characters String.[] = []
characters (String.◌∷◌ c s) = String.◌∷◌ c "" ∷ characters s

abbrev pub onto_first : String → List String → List String
onto_first c [] = c ∷ []
onto_first c (part ∷ parts) = append_text c part ∷ parts

-- `s.split(c)`, by the code point of `c`
unfoldable pub split : ℕ → String → List String
split k String.[] = "" ∷ []
split k (String.◌∷◌ c s) =
    let rest = split k s in if code c == k then "" ∷ rest else onto_first (String.◌∷◌ c "") rest

-- `int(s)` of decimal digits, after the digits read before
unfoldable pub read_digits : ℕ → String → ℕ
read_digits n String.[] = n
read_digits n (String.◌∷◌ c s) = read_digits (n * 10 + (code c - 48)) s

unfoldable pub all_digits : String → Bool
all_digits String.[] = true
all_digits (String.◌∷◌ c s) = leb 48 (code c) && leb (code c) 57 && all_digits s

-- The digit of a number below 10.
abbrev digit : ℕ → String
digit n = take_text 1 (drop_text n "0123456789")

-- `str(n)`, given at least as many digits as it has
unfoldable pub digits : ℕ → ℕ → String
unfolding take_text drop_text
digits zero n = ""
digits (suc fuel) n =
    if ltb n 10 then digit n else append_text (digits fuel (n / 10)) (digit (n % 10))

unfoldable pub decimal : ℕ → String
unfolding digits
decimal n = digits (suc n) n
