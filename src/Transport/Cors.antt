-- ===== src/Transport/Cors.antt =====
-- CORS: who is told which origin, and what a preflight is answered.
use go_image_service.Base.{
  String, Bool, true, false, not, ◌&&◌, ◌||◌, ◌≡◌, ◌≢◌, refl, sym, ap, ◌∙◌, ◌⊎◌, inl, inr, List, [],
  ◌∷◌, none, some, ◌==◌, string_eq, eq_of_==, ne_of_==, Bool-cases, contains, if_true, if_false,
}
use go_image_service.Transport.Http.{
  Request, Writer, fresh, get_value, set_header, add_header, write_header, without,
}
use go_image_service.Transport.Handlers.{Handler}
use go_image_service.Transport.Middleware.{cors, allow_origin, origin_allowed, preflight}
use go_image_service.Transport.Creation.{or-true, or-false}
use go_image_service.Transport.Status.{status-allow_origin}

origin_allowed-contains :
    (origin : String) (allowed : List String)
    → origin_allowed origin allowed ≡ (contains allowed "*" || contains allowed origin)
unfolding origin_allowed
origin_allowed-contains origin [] = refl
origin_allowed-contains origin (a ∷ allowed) =
    ap (λ b. (a == "*" || a == origin) || b) (origin_allowed-contains origin allowed)
    ∙ shuffle (a == "*") (a == origin) (contains allowed "*") (contains allowed origin)
  where
    shuffle : (a b c d : Bool) → ((a || b) || (c || d)) ≡ ((a || c) || (b || d))
    shuffle true b c d = refl
    shuffle false true true d = refl
    shuffle false true false d = refl
    shuffle false false c d = refl

module _ (allowed : List String) (r : Request) where
  -- The request names an origin, and the list has it or a "*".
  abbrev pub IsPermitted : Type 0
  IsPermitted =
      (get_value "Origin" r.headers ≢ "")
      × ((contains allowed "*" ≡ true) ⊎ (contains allowed (get_value "Origin" r.headers) ≡ true))

  -- The response names the request's origin as allowed if it is permitted, and none otherwise.
  pub record IsCors (w : Writer) : Type 0 where
    pub told :
        IsPermitted
        → get_value "Access-Control-Allow-Origin" w.headers ≡ get_value "Origin" r.headers
    pub untold : ¬ IsPermitted → get_value "Access-Control-Allow-Origin" w.headers ≡ ""

  abbrev test : Bool
  test =
      let origin = get_value "Origin" r.headers in
      not (origin == "") && origin_allowed origin allowed

  abbrev origin : String
  origin = get_value "Origin" r.headers

  test-go :
      (named listed : Bool)
      → (origin == "") ≡ not named
      → origin_allowed origin allowed ≡ listed
      → test ≡ (named && listed)
  test-go named listed e h = rw (e, h) (unnot named listed)
    where
      unnot : (a b : Bool) → (not (not a) && b) ≡ (a && b)
      unnot true b = refl
      unnot false b = refl

  decided : (test ≡ true) × IsPermitted ⊎ (test ≡ false) × ¬ IsPermitted
  decided = elim (Bool-cases (origin == "")) [
    | inl blank ↦ inr (test-go false _ blank refl, λ p. p.0 (eq_of_== origin "" blank))
    | inr named ↦ elim (Bool-cases (origin_allowed origin allowed)) [
      | inl listed ↦ inl (
        test-go true true named listed,
        (
          ne_of_== origin "" named,
          or-true (contains allowed "*") (contains allowed origin)
              (sym (origin_allowed-contains origin allowed) ∙ listed),
        ),
      )
      | inr unlisted ↦ inr (
        test-go true false named unlisted,
        λ p. refused (sym (origin_allowed-contains origin allowed) ∙ unlisted) p.1,
      )
    ]
  ]
    where
      refused : {a b : Bool} → (a || b) ≡ false → ¬ ((a ≡ true) ⊎ (b ≡ true))
      refused {a} {b} h (inl e) = cc (e, (or-false a b h).0)
      refused {a} {b} h (inr e) = cc (e, (or-false a b h).1)

  abbrev added : Writer
  added = add_header "Vary" "Origin" (set_header "Access-Control-Allow-Origin" origin fresh)

  allowed-writer : test ≡ true → allow_origin origin allowed fresh ≡ added
  unfolding allow_origin
  allowed-writer h = if_true test _ fresh h

  refused-writer : test ≡ false → allow_origin origin allowed fresh ≡ fresh
  unfolding allow_origin
  refused-writer h = if_false test added fresh h

  added-IsCors : IsPermitted → IsCors added × IsCors (preflight added)
  unfolding add_header set_header without string_eq preflight get_value write_header
  added-IsCors p = (
    record { told = λ _. refl; untold = λ n. absurd (n p) },
    record { told = λ _. refl; untold = λ n. absurd (n p) },
  )

  fresh-IsCors : ¬ IsPermitted → IsCors fresh × IsCors (preflight fresh)
  unfolding set_header without string_eq preflight get_value write_header
  fresh-IsCors n = (
    record { told = λ p. absurd (n p); untold = λ _. refl },
    record { told = λ p. absurd (n p); untold = λ _. refl },
  )

  allow_origin-IsCors :
      IsCors (allow_origin origin allowed fresh)
      × IsCors (preflight (allow_origin origin allowed fresh))
  allow_origin-IsCors = elim decided [
    | inl (h, p) ↦ rw (allowed-writer h) (added-IsCors p)
    | inr (h, n) ↦ rw (refused-writer h) (fresh-IsCors n)
  ]

module _ {W : Type 0} (allowed : List String) (next : Handler W) (r : Request) (world : W) where
  -- What the middleware may do with a request.
  pub data CorsOutcome : Writer × W → Type 0 where
    answered :
        (w : Writer)
        → r.method ≡ "OPTIONS"
        → IsCors allowed r w
        → w.status ≡ some 204
        → get_value "Access-Control-Allow-Methods" w.headers ≡ "GET, POST, OPTIONS"
        → get_value "Access-Control-Allow-Headers" w.headers ≡ "Authorization, Content-Type"
        → CorsOutcome (w, world)
    passed :
        (w : Writer)
        → r.method ≢ "OPTIONS"
        → IsCors allowed r w
        → w.status ≡ none
        → CorsOutcome (next r w world)

  preflight-lem :
      (w : Writer)
      → w.status ≡ none
      → ((preflight w).status ≡ some 204)
        × (get_value "Access-Control-Allow-Methods" (preflight w).headers ≡ "GET, POST, OPTIONS")
        × (get_value "Access-Control-Allow-Headers" (preflight w).headers
            ≡ "Authorization, Content-Type")
  unfolding preflight set_header write_header get_value without string_eq
  preflight-lem w h = rw h (refl, refl, refl)

  -- A preflight is answered by 204 with the methods and the headers that the API takes, and reaches no
  -- handler; any other request goes on to the handler with nothing sent yet. In both cases the
  -- response names the origin of the request as allowed if the request has one that the list names, or
  -- the list has a "*"; otherwise it names none.
  pub cors-CorsOutcome : CorsOutcome (cors allowed next r fresh world)
  cors-CorsOutcome =
      let w = allow_origin (get_value "Origin" r.headers) allowed fresh in
      let quiet = status-allow_origin (get_value "Origin" r.headers) allowed fresh in
      let (plain, sent) = allow_origin-IsCors allowed r in
      let (code, methods, headers) = preflight-lem w quiet in
      elim (Bool-cases (r.method == "OPTIONS")) [
        | inl e ↦
            unfold cors in
            rw e (answered (preflight w) (eq_of_== r.method "OPTIONS" e) sent code methods headers)
        | inr e ↦ unfold cors in rw e (passed w (ne_of_== r.method "OPTIONS" e) plain quiet)
      ]
