-- ===== src/Transport/Registration.antt =====
-- What `POST /register` answers, and which requests it passes on.
use go_image_service.Base.{
  ◌<◌, ◌≤◌, String, Bool, true, false, ◌||◌, ◌≡◌, ◌≢◌, refl, ◌⊎◌, inl, inr, arith, ◌==◌, string_eq,
  eq_of_==, ne_of_==, ltb, Bool-cases, rune_count, Result, ok, err, Err,
}
use go_image_service.Transport.Http.{Request, Writer, register_response, http_error, write_json}
use go_image_service.Transport.Server.{Server, Credentials}
use go_image_service.Transport.Handlers.{registered, register}
use go_image_service.Transport.Creation.{or-true, or-false}

abbrev is_blank : Credentials → Bool
is_blank req = req.email == "" || req.password == ""

blank-true : (req : Credentials) → is_blank req ≡ true → (req.email ≡ "") ⊎ (req.password ≡ "")
blank-true req h = elim (or-true (req.email == "") (req.password == "") h) [
  | inl p ↦ inl (eq_of_== req.email "" p)
  | inr p ↦ inr (eq_of_== req.password "" p)
]

-- An email, and a password of eight characters or more.
abbrev pub IsAcceptable : Credentials → Type 0
IsAcceptable req = (req.email ≢ "") × (req.password ≢ "") × (8 ≤ rune_count req.password)

module _ {W : Type 0} (s : Server W) (r : Request) (w : Writer) (world : W) where
  pub data RegisterOutcome : Writer × W → Type 0 where
    bad_body :
        (e : Err)
        → s.decode.credentials r.body ≡ err e
        → RegisterOutcome (http_error "invalid JSON body" 400 w, world)
    blank :
        (req : Credentials)
        → s.decode.credentials r.body ≡ ok req
        → (req.email ≡ "") ⊎ (req.password ≡ "")
        → RegisterOutcome (http_error "email and password are required" 400 w, world)
    short :
        (req : Credentials)
        → s.decode.credentials r.body ≡ ok req
        → rune_count req.password < 8
        → RegisterOutcome (http_error "password must be at least 8 characters" 400 w, world)
    failed :
        (req : Credentials) (e : Err) (world' : W)
        → s.decode.credentials r.body ≡ ok req
        → IsAcceptable req
        → s.auth.register req.email req.password world ≡ (err e, world')
        → RegisterOutcome (http_error "could not register" 500 w, world')
    created :
        (req : Credentials) (id : String) (world' : W)
        → s.decode.credentials r.body ≡ ok req
        → IsAcceptable req
        → s.auth.register req.email req.password world ≡ (ok id, world')
        → RegisterOutcome (write_json 201 (register_response id) w, world')

  module _ (req : Credentials) (d : s.decode.credentials r.body ≡ ok req)
      (filled : is_blank req ≡ false) where
    acceptable : ltb (rune_count req.password) 8 ≡ false → IsAcceptable req
    acceptable long =
        let both = or-false (req.email == "") (req.password == "") filled in
        (ne_of_== req.email "" both.0, ne_of_== req.password "" both.1, ground arith)

    auth-go :
        (answer : Result String × W)
        → ltb (rune_count req.password) 8 ≡ false
        → s.auth.register req.email req.password world ≡ answer
        → RegisterOutcome (registered s req r w world)
    unfolding registered
    auth-go (ok id, world') long e =
        rw (filled, long, e) (created req id world' d (acceptable long) e)
    auth-go (err x, world') long e =
        rw (filled, long, e) (failed req x world' d (acceptable long) e)

    filled-RegisterOutcome : RegisterOutcome (registered s req r w world)
    filled-RegisterOutcome = elim (Bool-cases (ltb (rune_count req.password) 8)) [
      | inl few ↦ unfold registered in rw (filled, few) (short req d (ground arith))
      | inr long ↦ auth-go _ long refl
    ]

  registered-RegisterOutcome :
      (req : Credentials)
      → s.decode.credentials r.body ≡ ok req
      → RegisterOutcome (registered s req r w world)
  registered-RegisterOutcome req d = elim (Bool-cases (is_blank req)) [
    | inl gap ↦ unfold registered in rw gap (blank req d (blank-true req gap))
    | inr filled ↦ filled-RegisterOutcome req d filled
  ]

  register-go :
      (body : Result Credentials)
      → s.decode.credentials r.body ≡ body
      → RegisterOutcome (register s r w world)
  register-go (ok req) e = unfold register in rw e (registered-RegisterOutcome req e)
  register-go (err x) e = unfold register in rw e (bad_body x e)

  -- `POST /register` is passed on to the auth service only with an email and a password of eight
  -- characters or more; a success is answered by 201 with the id, and each other request as its case
  -- says, by 400 or 500.
  pub register-RegisterOutcome : RegisterOutcome (register s r w world)
  register-RegisterOutcome = register-go _ refl
