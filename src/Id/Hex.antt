-- ===== src/Id/Hex.antt =====
-- `hex.EncodeToString`, with its length, its alphabet and its inverse.
use Prim.Native.Char.{Char, code}
use go_image_service.Base.{
  ℕ, zero, suc, ◌+◌, ◌-◌, ◌*◌, ◌/◌, ◌%◌, ◌<◌, ◌≡◌, refl, ap, String, Bool, true, List, [], ◌∷◌,
  arith, if◌then◌else◌, leb, len, length, rune_count, sym, ◌∙◌, All, width, ◌&&◌, ◌||◌,
}

-- `hextable`
abbrev hextable : String
hextable = "0123456789abcdef"

abbrev zero_digit : String → Char
zero_digit String.[] = "0"
zero_digit (String.◌∷◌ c s) = c

-- `s[i]`, for an index in range.
char_at : String → ℕ → Char
char_at s zero = zero_digit s
char_at String.[] (suc i) = "0"
char_at (String.◌∷◌ c s) (suc i) = char_at s i

digit : ℕ → Char
unfolding char_at
digit n = char_at hextable n

unfoldable pub hex_encode : List ℕ → String
unfolding digit
hex_encode [] = ""
hex_encode (b ∷ bs) = String.◌∷◌ (digit (b / 16)) (String.◌∷◌ (digit (b % 16)) (hex_encode bs))

-- A byte of the alphabet `0-9a-f`.
abbrev pub is_hex_digit : ℕ → Bool
is_hex_digit c = (leb b'0' c && leb c b'9') || (leb b'a' c && leb c b'f')

-- `hex.DecodeString` reads a digit's value; here over lower case.
abbrev pub digit_value : ℕ → ℕ
digit_value c = if leb c b'9' then c - b'0' else c - 87

-- A test that every number below a bound passes.
abbrev passes : (ℕ → Bool) → ℕ → Bool
passes test zero = true
passes test (suc top) = passes test top && test top

passes-lt : (test : ℕ → Bool) (top i : ℕ) → passes test top ≡ true → i < top → test i ≡ true
passes-lt test zero i _ lt = absurd (omega arith)
passes-lt test (suc top) i all lt = ground (arith, passes-lt test top i)

abbrev digit_ok : ℕ → Bool
digit_ok n =
    is_hex_digit (code (digit n))
    && (leb (digit_value (code (digit n))) n && leb n (digit_value (code (digit n))))

digit_table : passes digit_ok 16 ≡ true
unfolding digit
digit_table = refl

digit_lem :
    (n : ℕ) → n < 16 → (is_hex_digit (code (digit n)) ≡ true) × (digit_value (code (digit n)) ≡ n)
digit_lem n h = ground (arith, passes-lt digit_ok 16 n digit_table h)

-- Every character is a digit of the alphabet.
abbrev pub IsHex : String → Type 0
IsHex String.[] = Unit
IsHex (String.◌∷◌ c s) = (is_hex_digit (code c) ≡ true) × IsHex s

pub hex_encode-IsHex : (bs : List ℕ) → All (λ b. b < 256) bs → IsHex (hex_encode bs)
unfolding hex_encode
hex_encode-IsHex [] _ = tt
hex_encode-IsHex (b ∷ bs) (h, hs) = (
  (digit_lem (b / 16) (omega arith)).0,
  ((digit_lem (b % 16) (omega arith)).0, hex_encode-IsHex bs hs),
)

width_of_hex : (c : ℕ) → is_hex_digit c ≡ true → width c ≡ 1
width_of_hex c h = ground arith

len_of_IsHex : (s : String) → IsHex s → len s ≡ rune_count s
unfolding len rune_count
len_of_IsHex String.[] _ = refl
len_of_IsHex (String.◌∷◌ c s) (h, hs) = omega (arith, width_of_hex (code c) h, len_of_IsHex s hs)

rune_count-hex_encode : (bs : List ℕ) → rune_count (hex_encode bs) ≡ 2 * length bs
unfolding rune_count hex_encode
rune_count-hex_encode [] = refl
rune_count-hex_encode (b ∷ bs) = omega (arith, rune_count-hex_encode bs)

-- Two characters of one byte each for a byte.
pub len-hex_encode : (bs : List ℕ) → All (λ b. b < 256) bs → len (hex_encode bs) ≡ 2 * length bs
len-hex_encode bs h = len_of_IsHex _ (hex_encode-IsHex bs h) ∙ rune_count-hex_encode bs

-- `hex.DecodeString`, over texts of the alphabet.
pub hex_decode : String → List ℕ
hex_decode String.[] = []
hex_decode (String.◌∷◌ c String.[]) = []
hex_decode (String.◌∷◌ c (String.◌∷◌ d s)) =
    (16 * digit_value (code c) + digit_value (code d)) ∷ hex_decode s

pub hex_decode-hex_encode : (bs : List ℕ) → All (λ b. b < 256) bs → hex_decode (hex_encode bs) ≡ bs
unfolding hex_decode hex_encode
hex_decode-hex_encode [] _ = refl
hex_decode-hex_encode (b ∷ bs) (h, hs) =
    cons_eq
      (omega (arith, (digit_lem (b / 16) (omega arith)).1, (digit_lem (b % 16) (omega arith)).1))
      (hex_decode-hex_encode bs hs)
  where
    cons_eq : {x y : ℕ} {xs ys : List ℕ} → x ≡ y → xs ≡ ys → x ∷ xs ≡ y ∷ ys
    cons_eq p q = cc

-- Distinct bytes have distinct encodings.
pub hex_encode_inj :
    (xs ys : List ℕ)
    → All (λ b. b < 256) xs
    → All (λ b. b < 256) ys
    → hex_encode xs ≡ hex_encode ys
    → xs ≡ ys
hex_encode_inj xs ys hx hy e =
    sym (hex_decode-hex_encode xs hx) ∙ ap hex_decode e ∙ hex_decode-hex_encode ys hy
