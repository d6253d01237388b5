-- ===== src/Base/Text.antt =====
-- Go's `strings`, `unicode` and `utf8` functions that the program calls. A text is a sequence of
-- Unicode scalar values, so `len` adds up the widths of their UTF-8 encodings.
use Prim.Native.Nat.{ℕ, suc, ◌+◌}
use Prim.Native.Char.{Char, code}
use Prim.Native.String.{String, [], ◌∷◌}
use mathlib.Core.Bool.{Bool, true, false, ◌&&◌, ◌||◌}
use mathlib.Core.Option.{Option, none, some}
use mathlib.Core.List.{List}
use go_image_service.Base.Equality.{if◌then◌else◌, ltb, leb, ◌==◌, nat_eq}

-- Bytes that encode one scalar value.
abbrev pub width : ℕ → ℕ
width c = if ltb c 0x80 then 1 else if ltb c 0x800 then 2 else if ltb c 0x10000 then 3 else 4

-- `len(s)`
unfoldable pub len : String → ℕ
len [] = 0
len (c ∷ s) = width (code c) + len s

-- `utf8.RuneCountInString(s)`
unfoldable pub rune_count : String → ℕ
rune_count [] = 0
rune_count (c ∷ s) = suc (rune_count s)

-- `strings.CutPrefix(s, prefix)`: the rest after the prefix, if `s` has it. Arguments: prefix, text.
unfoldable pub cut_prefix : String → String → Option String
cut_prefix [] s = some s
cut_prefix (p ∷ ps) [] = none
cut_prefix (p ∷ ps) (c ∷ s) = let rest = cut_prefix ps s in if code p == code c then rest else none

abbrev is_some : Option String → Bool
is_some none = false
is_some (some _) = true

-- `strings.HasPrefix(s, prefix)`
unfoldable pub has_prefix : String → String → Bool
unfolding cut_prefix
has_prefix prefix s = is_some (cut_prefix prefix s)

abbrev or_whole : String → Option String → String
or_whole s none = s
or_whole s (some rest) = rest

-- `strings.TrimPrefix(s, prefix)`
unfoldable pub trim_prefix : String → String → String
unfolding cut_prefix
trim_prefix prefix s = or_whole s (cut_prefix prefix s)

-- `strings.TrimSuffix(s, suffix)` for a suffix of one character.
unfoldable pub trim_suffix_char : Char → String → String
trim_suffix_char x [] = []
trim_suffix_char x (c ∷ []) = if code c == code x then [] else c ∷ []
trim_suffix_char x (c ∷ d ∷ s) = c ∷ trim_suffix_char x (d ∷ s)

abbrev pub prepend : Char → List String → List String
prepend c List.[] = List.◌∷◌ (c ∷ []) List.[]
prepend c (List.◌∷◌ part parts) = List.◌∷◌ (c ∷ part) parts

-- `strings.Split(s, sep)` for a separator of one character.
unfoldable pub split_char : Char → String → List String
split_char x [] = List.◌∷◌ [] List.[]
split_char x (c ∷ s) =
    let parts = split_char x s in if code c == code x then List.◌∷◌ [] parts else prepend c parts

-- `unicode.IsSpace`
unfoldable pub is_space : ℕ → Bool
unfolding nat_eq
is_space c =
    (leb 9 c && leb c 13)
    || c == 0x20
    || c == 0x85
    || c == 0xA0
    || c == 0x1680
    || (leb 0x2000 c && leb c 0x200A)
    || c == 0x2028
    || c == 0x2029
    || c == 0x202F
    || c == 0x205F
    || c == 0x3000

-- Drops leading white space.
unfoldable pub trim_left : String → String
unfolding is_space
trim_left [] = []
trim_left (c ∷ s) = let rest = trim_left s in if is_space (code c) then rest else c ∷ s

abbrev pub push_trimmed : Char → String → String
push_trimmed c [] = if is_space (code c) then [] else c ∷ []
push_trimmed c (d ∷ s) = c ∷ d ∷ s

-- Drops trailing white space.
unfoldable pub trim_right : String → String
unfolding is_space
trim_right [] = []
trim_right (c ∷ s) = push_trimmed c (trim_right s)

-- `strings.TrimSpace(s)`
unfoldable pub trim_space : String → String
unfolding trim_left trim_right
trim_space s = trim_right (trim_left s)
