-- ===== src/Tests/Accounts/Fixtures.antt =====
-- A users table that keeps the last row, and a crypto library that writes everything in the clear.
use mathlib.Core.Path.{ap₂}
use go_image_service.Base.{
  ℕ, zero, suc, nat_eq, eq_of_==, ◌+◌, ◌<◌, ◌≤◌, String, List, [], ◌∷◌, Option, none, some, ◌≡◌,
  refl, ap, ◌∙◌, sym, Bool, true, false, ◌==◌, string_eq, ==_refl, Result, ok, err, Err, sentinel,
  user_not_found, message, if◌then◌else◌, ltb, arith, Bool-cases, inl, inr,
}
use go_image_service.User.{User}
use go_image_service.Auth.{Method, hmac, other, Claims, Crypto, UserRepo, token_ttl}
use go_image_service.Auth.Tokens.{IsCrypto}
use go_image_service.Auth.RoundTrip.{IsUserRepo}

-- The time, and the row that was stored last.
pub record World : Type 0 where
  pub time : ℕ
  pub row : Option User

abbrev pub seven_id : String
seven_id = "07070707070707070707070707070707"

-- What the token "t" says.
abbrev demo_claims : Claims
demo_claims = record { subject = seven_id; issued_at = 100; expires_at = 100 + token_ttl }

abbrev signs : Method → Claims → String → Bool
signs (other _) claims key = false
signs (hmac name) claims key =
    if name == "HS256"
    then if claims.subject == seven_id
      then if claims.issued_at == 100
        then if claims.expires_at == 100 + token_ttl then key == "k" else false
        else false
      else false
    else false

abbrev with_key : ℕ → Result String → Result (Claims × Bool)
with_key now (err e) = err e
with_key now (ok key) =
    if ltb now (100 + token_ttl)
    then if key == "k" then ok (demo_claims, true) else err (message "signature")
    else err (message "expired")

abbrev sevens : ℕ → List ℕ
sevens zero = []
sevens (suc n) = 7 ∷ sevens n

abbrev pub demo_crypto : Crypto World
demo_crypto = record {
  now = λ w. w.time;
  rand_read = λ n w. (ok (sevens n), w);
  generate_from_password = λ password _ w. (ok password, w);
  compare_hash_and_password =
      λ hash password. if hash == password then ok tt else err (message "mismatch");
  signed_string = λ m claims key. if signs m claims key then ok "t" else err (message "key");
  parse_with_claims = λ token f now.
      if token == "t" then with_key now (f (hmac "HS256")) else err (message "malformed");
}

abbrev pub demo_method : String → Method
demo_method token = if token == "t" then hmac "HS256" else other "none"

abbrev find_row : String → Option User → Result User
find_row email none = err (sentinel user_not_found)
find_row email (some u) = if u.email == email then ok u else err (sentinel user_not_found)

abbrev pub demo_users : UserRepo World
demo_users = record {
  create = λ id email hash w.
      (ok tt, record w { row = some (record { id = id; email = email; password_hash = hash }) });
  get_user_by_email = λ email w. (find_row email w.row, w);
}

false_ne_true : false ≡ true → ⊥
false_ne_true e = cc

both : (b c : Bool) → (if b then c else false) ≡ true → (b ≡ true) × (c ≡ true)
both true c h = (refl, h)
both false c h = absurd (false_ne_true h)

claims_eq :
    (claims : Claims)
    → claims.subject ≡ seven_id
    → claims.issued_at ≡ 100
    → claims.expires_at ≡ 100 + token_ttl
    → claims ≡ demo_claims
claims_eq claims p q r =
    ap₂ (λ a (b, c). record { subject = a; issued_at = b; expires_at = c }) p
      (ap₂ (λ b c. (b, c)) q r)

signs-eq :
    (m : Method) (claims : Claims) (key : String)
    → signs m claims key ≡ true
    → (m ≡ hmac "HS256") × (claims ≡ demo_claims) × (key ≡ "k")
signs-eq (other _) claims key h = absurd (false_ne_true h)
signs-eq (hmac name) claims key h =
    let (named, a) = both _ _ h in
    let (subject, b) = both _ _ a in
    let (issued, c) = both _ _ b in
    let (expires, d) = both _ _ c in
    (
      ap hmac (eq_of_== name "HS256" named),
      claims_eq claims (eq_of_== _ _ subject) (eq_of_== _ _ issued) (eq_of_== _ _ expires),
      eq_of_== _ _ d,
    )

signed :
    (b : Bool) (token : String)
    → ◌≡◌ {A = Result String} (if b then ok "t" else err (message "key")) (ok token)
    → (b ≡ true) × (token ≡ "t")
signed true token e = (refl, cc)
signed false token e = cc

early : (now : ℕ) → now < 100 + token_ttl → ltb now (100 + token_ttl) ≡ true
early now h = ground arith

late : (now : ℕ) → 100 + token_ttl ≤ now → ltb now (100 + token_ttl) ≡ false
late now h = ground arith

parse_signed :
    (m : Method) (claims : Claims) (key token : String) (f : Method → Result String) (now : ℕ)
    → demo_crypto.signed_string m claims key ≡ ok token
    → f m ≡ ok key
    → now < claims.expires_at
    → demo_crypto.parse_with_claims token f now ≡ ok (claims, true)
parse_signed m claims key token f now h k lt =
    let (made, text) = signed _ token h in
    let (method, said, secret) = signs-eq m claims key made in
    let asked : f (hmac "HS256") ≡ ok key = ap f (sym method) ∙ k in
    rw (
      text,
      ==_refl {A = String} "t",
      asked,
      early now (rw said at lt),
      secret,
      ==_refl {A = String} "k",
      said,
    )

parse_expired :
    (m : Method) (claims : Claims) (key token : String) (f : Method → Result String) (now : ℕ)
    → demo_crypto.signed_string m claims key ≡ ok token
    → f m ≡ ok key
    → claims.expires_at ≤ now
    → (e : Err) × (demo_crypto.parse_with_claims token f now ≡ err e)
parse_expired m claims key token f now h k le =
    let (made, text) = signed _ token h in
    let (method, said, secret) = signs-eq m claims key made in
    let asked : f (hmac "HS256") ≡ ok key = ap f (sym method) ∙ k in
    (message "expired", rw (text, ==_refl {A = String} "t", asked, late now (rw said at le)))

parse_refused :
    (token : String) (f : Method → Result String) (now : ℕ) (x : Err)
    → f (demo_method token) ≡ err x
    → (e : Err) × (demo_crypto.parse_with_claims token f now ≡ err e)
parse_refused token f now x h = elim (Bool-cases (token == "t")) [
  | inl same ↦ (x, rw (same, rw same at h))
  | inr differ ↦ (message "malformed", rw differ)
]

compare_generate :
    (password : String) (cost : ℕ) (w w' : World) (hash : String)
    → demo_crypto.generate_from_password password cost w ≡ (ok hash, w')
    → demo_crypto.compare_hash_and_password hash password ≡ ok tt
compare_generate password cost w w' hash e = rw (drawn, ==_refl password)
  where
    drawn : hash ≡ password
    drawn = cc

get_create :
    (id email hash : String) (w w' : World)
    → demo_users.create id email hash w ≡ (ok tt, w')
    → (w'' : World) × (demo_users.get_user_by_email email w'
        ≡ (ok (record { id = id; email = email; password_hash = hash }), w''))
get_create id email hash w w' e = (w', rw (sym (ap (λ r. r.1) e), ==_refl email))

pub demo-IsCrypto : IsCrypto demo_crypto demo_method
demo-IsCrypto = record {
  parse-signed = parse_signed;
  parse-expired = parse_expired;
  parse-refused = parse_refused;
  compare-generate = compare_generate;
}

pub demo-IsUserRepo : IsUserRepo demo_users
demo-IsUserRepo = record { get-create = get_create }
