-- ===== src/Base/TextLaws.antt =====
-- Laws of the text functions: prefixes, suffixes, splitting and trimming.
use Prim.Native.Char.{Char, code}
use Prim.Native.String.{String, [], ◌∷◌, ◌++◌}
use mathlib.Core.Path.{◌≡◌, refl, ap, sym, ◌∙◌}
use mathlib.Core.Logic.{◌≢◌, inl, inr}
use mathlib.Core.Bool.{true, false}
use mathlib.Core.Option.{some}
use mathlib.Core.List.{List}
use native.Mathlib.Omega.{arith}
use text.Mathlib.TextLemmas.{
  nil-append, cons-append, cons-ne-nil, append-ne-nil_of_right_ne-nil, append-nil,
}
use text.Mathlib.TextEquality.{Char-path}
use go_image_service.Base.Lists.{All}
use go_image_service.Base.Equality.{if◌then◌else◌, ◌==◌, nat_eq, ==_refl, ==_ne, ==_iff, Bool-cases}
use go_image_service.Base.Text.{
  cut_prefix, has_prefix, trim_prefix, trim_suffix_char, split_char, prepend, push_trimmed,
  is_space, trim_left, trim_right, trim_space,
}

cons_path : {c d : Char} {s t : String} → c ≡ d → s ≡ t → Path String (c ∷ s) (d ∷ t)
cons_path p q i = p i ∷ q i

pub cut_prefix-append : (p s : String) → cut_prefix p (p ++ s) ≡ some s
unfolding cut_prefix
cut_prefix-append [] s = rw nil-append
cut_prefix-append (c ∷ p) s =
    rw cons-append (unfold cut_prefix in rw (==_refl (code c)) (cut_prefix-append p s))

pub has_prefix-append : (p s : String) → has_prefix p (p ++ s) ≡ true
unfolding has_prefix
has_prefix-append p s = rw cut_prefix-append

pub trim_prefix-append : (p s : String) → trim_prefix p (p ++ s) ≡ s
unfolding trim_prefix
trim_prefix-append p s = rw cut_prefix-append

-- Only a text that begins with the prefix is cut, and what is cut off is the prefix.
pub cut_prefix-eq-some : (p s : String) {rest : String} → cut_prefix p s ≡ some rest → s ≡ p ++ rest
unfolding cut_prefix
cut_prefix-eq-some [] s e = rw nil-append (cc)
cut_prefix-eq-some (c ∷ p) [] e = cc
cut_prefix-eq-some (c ∷ p) (d ∷ s) {rest} e = rw cons-append (elim (Bool-cases (code c == code d)) [
  | inl same ↦
      cons_path (Char-path d c (sym ((==_iff (code c) (code d)).0 same)))
        (cut_prefix-eq-some p s (ground arith))
  | inr differ ↦ ground arith
])

trim_suffix_char-cons :
    (x c : Char) (s : String) → s ≢ [] → trim_suffix_char x (c ∷ s) ≡ c ∷ trim_suffix_char x s
unfolding trim_suffix_char
trim_suffix_char-cons x c [] h = absurd (h refl)
trim_suffix_char-cons x c (d ∷ s) h = refl

-- What stands before the last characters is kept.
pub trim_suffix_char-append_left :
    (x : Char) (p : String) (c : Char) (s : String)
    → trim_suffix_char x (p ++ (c ∷ s)) ≡ p ++ trim_suffix_char x (c ∷ s)
trim_suffix_char-append_left x [] c s = rw (nil-append, nil-append)
trim_suffix_char-append_left x (d ∷ p) c s =
    ap (trim_suffix_char x) (cons-append d p (c ∷ s))
    ∙ trim_suffix_char-cons x d (p ++ (c ∷ s)) (append-ne-nil_of_right_ne-nil p (cons-ne-nil c s))
    ∙ ap (λ t. d ∷ t) (trim_suffix_char-append_left x p c s)
    ∙ sym (cons-append d p (trim_suffix_char x (c ∷ s)))

trim_suffix_char_self : (x : Char) → trim_suffix_char x (x ∷ []) ≡ []
unfolding trim_suffix_char
trim_suffix_char_self x = rw (==_refl (code x))

-- The last character is dropped if it is the suffix.
pub trim_suffix_char-append : (x : Char) (s : String) → trim_suffix_char x (s ++ (x ∷ [])) ≡ s
trim_suffix_char-append x s =
    trim_suffix_char-append_left x s x [] ∙ rw (trim_suffix_char_self x) (append-nil s)

-- The character does not occur in the text.
abbrev pub Lacks : Char → String → Type 0
Lacks x [] = Unit
Lacks x (c ∷ s) = (code c ≢ code x) × Lacks x s

-- A text without the character is not trimmed.
pub trim_suffix_char-Lacks : (x : Char) (s : String) → Lacks x s → trim_suffix_char x s ≡ s
unfolding trim_suffix_char
trim_suffix_char-Lacks x [] h = refl
trim_suffix_char-Lacks x (c ∷ []) h = rw (==_ne (code c) (code x) h.0) refl
trim_suffix_char-Lacks x (c ∷ d ∷ s) h = ap (λ t. c ∷ t) (trim_suffix_char-Lacks x (d ∷ s) h.1)

pub split_char_of_Lacks : (x : Char) (s : String) → Lacks x s → split_char x s ≡ List.◌∷◌ s List.[]
unfolding split_char
split_char_of_Lacks x [] _ = refl
split_char_of_Lacks x (c ∷ s) (h, hs) = rw (==_ne _ _ h, split_char_of_Lacks x s hs)

split_char-cons :
    (x c : Char) (s : String)
    → split_char x (c ∷ s)
      ≡ (if code c == code x then List.◌∷◌ [] (split_char x s) else prepend c (split_char x s))
unfolding split_char
split_char-cons x c s = refl

pub split_char-append :
    (x : Char) (s t : String)
    → Lacks x s
    → split_char x (s ++ (x ∷ t)) ≡ List.◌∷◌ s (split_char x t)
split_char-append x [] t _ = rw nil-append (rw (split_char-cons, ==_refl (code x)))
split_char-append x (c ∷ s) t (h, hs) =
    rw cons-append (rw (split_char-cons, ==_ne _ _ h, split_char-append x s t hs))

Lacks-prepend :
    (x c : Char) (parts : List String)
    → code c ≢ code x
    → All (Lacks x) parts
    → All (Lacks x) (prepend c parts)
Lacks-prepend x c List.[] h a = ((h, tt), tt)
Lacks-prepend x c (List.◌∷◌ part parts) h (a, as_) = ((h, a), as_)

-- No part holds the separator.
pub split_char-Lacks : (x : Char) (s : String) → All (Lacks x) (split_char x s)
split_char-Lacks x [] = unfold split_char in (tt, tt)
split_char-Lacks x (c ∷ s) = elim (Bool-cases (code c == code x)) [
  | inl same ↦ rw (split_char-cons, same) (tt, split_char-Lacks x s)
  | inr differ ↦
      rw (split_char-cons, differ)
        (Lacks-prepend x c _ (λ e. cc (differ, (==_iff (code c) (code x)).1 e))
          (split_char-Lacks x s))
]

-- White space stands neither first nor last.
abbrev pub NoLeading : String → Type 0
NoLeading [] = Unit
NoLeading (c ∷ s) = is_space (code c) ≡ false

abbrev pub NoTrailing : String → Type 0
NoTrailing [] = Unit
NoTrailing (c ∷ []) = is_space (code c) ≡ false
NoTrailing (c ∷ d ∷ s) = NoTrailing (d ∷ s)

abbrev pub IsTrimmed : String → Type 0
IsTrimmed s = NoLeading s × NoTrailing s

trim_left-NoLeading : (s : String) → NoLeading (trim_left s)
unfolding trim_left
trim_left-NoLeading [] = tt
trim_left-NoLeading (c ∷ s) = elim (Bool-cases (is_space (code c))) [
  | inl blank ↦ rw blank (trim_left-NoLeading s)
  | inr solid ↦ rw solid solid
]

push_trimmed-NoTrailing : (c : Char) (t : String) → NoTrailing t → NoTrailing (push_trimmed c t)
push_trimmed-NoTrailing c [] _ = elim (Bool-cases (is_space (code c))) [
  | inl blank ↦ rw blank tt
  | inr solid ↦ rw solid solid
]
push_trimmed-NoTrailing c (d ∷ t) h = h

trim_right-NoTrailing : (s : String) → NoTrailing (trim_right s)
unfolding trim_right
trim_right-NoTrailing [] = tt
trim_right-NoTrailing (c ∷ s) = push_trimmed-NoTrailing c (trim_right s) (trim_right-NoTrailing s)

push_trimmed-NoLeading :
    (c : Char) (t : String) → is_space (code c) ≡ false → NoLeading (push_trimmed c t)
push_trimmed-NoLeading c [] h = rw h h
push_trimmed-NoLeading c (d ∷ t) h = h

trim_right-NoLeading : (s : String) → NoLeading s → NoLeading (trim_right s)
unfolding trim_right
trim_right-NoLeading [] _ = tt
trim_right-NoLeading (c ∷ s) h = push_trimmed-NoLeading c (trim_right s) h

pub trim_space-IsTrimmed : (s : String) → IsTrimmed (trim_space s)
unfolding trim_space
trim_space-IsTrimmed s = (
  trim_right-NoLeading (trim_left s) (trim_left-NoLeading s),
  trim_right-NoTrailing (trim_left s),
)

trim_left_of_NoLeading : (s : String) → NoLeading s → trim_left s ≡ s
unfolding trim_left
trim_left_of_NoLeading [] _ = refl
trim_left_of_NoLeading (c ∷ s) h = rw h

trim_right_of_NoTrailing : (s : String) → NoTrailing s → trim_right s ≡ s
unfolding trim_right
trim_right_of_NoTrailing [] _ = refl
trim_right_of_NoTrailing (c ∷ []) h = rw h
trim_right_of_NoTrailing (c ∷ d ∷ s) h = ap (push_trimmed c) (trim_right_of_NoTrailing (d ∷ s) h)

pub trim_space_of_IsTrimmed : (s : String) → IsTrimmed s → trim_space s ≡ s
unfolding trim_space
trim_space_of_IsTrimmed s (h, k) =
    ap trim_right (trim_left_of_NoLeading s h) ∙ trim_right_of_NoTrailing s k

Lacks-trim_left : (x : Char) (s : String) → Lacks x s → Lacks x (trim_left s)
unfolding trim_left
Lacks-trim_left x [] _ = tt
Lacks-trim_left x (c ∷ s) (h, hs) = elim (Bool-cases (is_space (code c))) [
  | inl blank ↦ rw blank (Lacks-trim_left x s hs)
  | inr solid ↦ rw solid (h, hs)
]

Lacks-push_trimmed :
    (x c : Char) (t : String) → code c ≢ code x → Lacks x t → Lacks x (push_trimmed c t)
Lacks-push_trimmed x c [] h _ = elim (Bool-cases (is_space (code c))) [
  | inl blank ↦ rw blank tt
  | inr solid ↦ rw solid (h, tt)
]
Lacks-push_trimmed x c (d ∷ t) h k = (h, k)

Lacks-trim_right : (x : Char) (s : String) → Lacks x s → Lacks x (trim_right s)
unfolding trim_right
Lacks-trim_right x [] _ = tt
Lacks-trim_right x (c ∷ s) (h, hs) = Lacks-push_trimmed x c _ h (Lacks-trim_right x s hs)

-- Trimming keeps a character out.
pub Lacks-trim_space : (x : Char) (s : String) → Lacks x s → Lacks x (trim_space s)
unfolding trim_space
Lacks-trim_space x s h = Lacks-trim_right x _ (Lacks-trim_left x s h)
