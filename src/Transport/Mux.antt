-- ===== src/Transport/Mux.antt =====
-- `http.ServeMux` for patterns with a method: its routing tree, as lists of what is left of each
-- pattern. Redirects to a cleaned path happen before and are not modelled.
use go_image_service.Base.{
  String, ◌<>◌, List, [], ◌∷◌, Option, none, some, ◌==◌, string_eq, if◌then◌else◌,
}
use go_image_service.Transport.Http.{set_header, http_error}
use go_image_service.Transport.Handlers.{Handler}

-- A literal, `{id}`, or the slash at a pattern's end, which stands for any rest.
pub data Segment : Type 0 where
  literal : String → Segment
  wildcard : Segment
  any_rest : Segment

pub record Route (H : Type 0) : Type 0 where
  pub method : String
  pub pattern : List Segment
  pub handler : H

module _ {H : Type 0} where
  -- The patterns of a method.
  unfoldable pub of_method : String → List (Route H) → List (List Segment × H)
  of_method m [] = []
  of_method m (route ∷ routes) =
      let rest = of_method m routes in
      if route.method == m then (route.pattern, route.handler) ∷ rest else rest

  -- What is left of the patterns that go on with the literal.
  unfoldable pub after_literal : String → List (List Segment × H) → List (List Segment × H)
  after_literal seg [] = []
  after_literal seg ((literal l ∷ p, h) ∷ entries) =
      let rest = after_literal seg entries in if l == seg then (p, h) ∷ rest else rest
  after_literal seg (_ ∷ entries) = after_literal seg entries

  -- What is left of the patterns that go on with a wildcard.
  unfoldable pub after_wildcard : List (List Segment × H) → List (List Segment × H)
  after_wildcard [] = []
  after_wildcard ((wildcard ∷ p, h) ∷ entries) = (p, h) ∷ after_wildcard entries
  after_wildcard (_ ∷ entries) = after_wildcard entries

  -- The pattern that takes any rest.
  unfoldable pub at_any_rest : List (List Segment × H) → Option (H × List String)
  at_any_rest [] = none
  at_any_rest ((any_rest ∷ _, h) ∷ _) = some (h, [])
  at_any_rest (_ ∷ entries) = at_any_rest entries

  -- The pattern that ends here.
  unfoldable pub at_end : List (List Segment × H) → Option (H × List String)
  at_end [] = none
  at_end (([], h) ∷ _) = some (h, [])
  at_end (_ ∷ entries) = at_end entries

  abbrev pub or_else :
      Option (H × List String) → Option (H × List String) → Option (H × List String)
  or_else (some found) _ = some found
  or_else none other = other

  abbrev pub with_match : String → Option (H × List String) → Option (H × List String)
  with_match seg none = none
  with_match seg (some (h, matches)) = some (h, seg ∷ matches)

  -- `matchPath`: a literal first, then a wildcard, which takes no final slash, then any rest.
  unfoldable pub match_path : List String → List (List Segment × H) → Option (H × List String)
  unfolding after_literal after_wildcard at_any_rest at_end
  match_path [] entries = at_end entries
  match_path (seg ∷ path) entries =
      let wild = with_match seg (match_path path (after_wildcard entries)) in
      let rest = at_any_rest entries in
      or_else (match_path path (after_literal seg entries))
        (if seg == "/" then rest else or_else wild rest)

  -- `matchMethodAndPath`: HEAD is also answered by the patterns of GET.
  unfoldable pub find_route : String → List String → List (Route H) → Option (H × List String)
  unfolding match_path of_method
  find_route method path routes =
      or_else (match_path path (of_method method routes))
        (if method == "HEAD" then match_path path (of_method "GET" routes) else none)

  -- The value of `Allow`: the methods that have a route for the path, in order.
  unfoldable pub allowed_methods : List String → List String → List (Route H) → List String
  unfolding find_route
  allowed_methods [] path routes = []
  allowed_methods (m ∷ ms) path routes =
      let rest = allowed_methods ms path routes in
      elim (find_route m path routes) [ none ↦ rest | some _ ↦ m ∷ rest ]

abbrev pub comma_join : List String → String
comma_join [] = ""
comma_join (x ∷ []) = x
comma_join (x ∷ y ∷ xs) = x <> (", " <> comma_join (y ∷ xs))

abbrev pub first_match : List String → String
first_match [] = ""
first_match (m ∷ _) = m

module _ {W : Type 0} where
  abbrev pub no_route : List String → Handler W
  no_route [] r w world = (http_error "404 page not found" 404 w, world)
  no_route (m ∷ ms) r w world =
      (http_error "Method Not Allowed" 405 (set_header "Allow" (comma_join (m ∷ ms)) w), world)

  abbrev pub run_route : Option (Handler W × List String) → List String → Handler W
  run_route none allowed r w world = no_route allowed r w world
  run_route (some (h, matches)) allowed r w world =
      h (record r { path_id = first_match matches }) w world

  -- `ServeHTTP`
  unfoldable pub serve_mux : List (Route (Handler W)) → Handler W
  unfolding find_route allowed_methods
  serve_mux routes r w world =
      run_route (find_route r.method r.segments routes)
        (allowed_methods ("GET" ∷ "HEAD" ∷ "POST" ∷ []) r.segments routes) r w world
