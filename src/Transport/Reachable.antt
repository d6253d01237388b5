-- ===== src/Transport/Reachable.antt =====
-- What holds of every handler of a route table holds of the handler that the multiplexer finds.
use go_image_service.Base.{
  String, Bool, true, false, inl, inr, List, [], ◌∷◌, Option, none, some, ◌==◌, string_eq, All,
  Bool-cases, if◌then◌else◌,
}
use go_image_service.Transport.Mux.{
  Segment, literal, wildcard, any_rest, Route, of_method, after_literal, after_wildcard, at_end,
  at_any_rest, match_path, find_route, or_else, with_match,
}
use go_image_service.Transport.Routes.{routes}

module _ {H : Type 0} (P : H → Type 0) where
  -- The handler that was found, if one was, has the property.
  abbrev pub Holds : Option (H × List String) → Type 0
  Holds none = Unit
  Holds (some (h, _)) = P h

  abbrev Entries : List (List Segment × H) → Type 0
  Entries = All (λ e. P e.1)

  of_method-Entries :
      (m : String) (routes : List (Route H))
      → All (λ route. P route.handler) routes
      → Entries (of_method m routes)
  unfolding of_method
  of_method-Entries m [] _ = tt
  of_method-Entries m (route ∷ routes) (h, hs) = elim (Bool-cases (route.method == m)) [
    | inl same ↦ rw same (h, of_method-Entries m routes hs)
    | inr other ↦ rw other (of_method-Entries m routes hs)
  ]

  after_literal-Entries :
      (seg : String) (entries : List (List Segment × H))
      → Entries entries
      → Entries (after_literal seg entries)
  unfolding after_literal
  after_literal-Entries seg [] _ = tt
  after_literal-Entries seg ((literal l ∷ p, _) ∷ entries) (h, hs) = elim (Bool-cases (l == seg)) [
    | inl same ↦ rw same (h, after_literal-Entries seg entries hs)
    | inr other ↦ rw other (after_literal-Entries seg entries hs)
  ]
  after_literal-Entries seg (_ ∷ entries) (h, hs) = after_literal-Entries seg entries hs

  after_wildcard-Entries :
      (entries : List (List Segment × H)) → Entries entries → Entries (after_wildcard entries)
  unfolding after_wildcard
  after_wildcard-Entries [] _ = tt
  after_wildcard-Entries ((wildcard ∷ p, _) ∷ entries) (h, hs) =
      (h, after_wildcard-Entries entries hs)
  after_wildcard-Entries (_ ∷ entries) (h, hs) = after_wildcard-Entries entries hs

  at_any_rest-Holds :
      (entries : List (List Segment × H)) → Entries entries → Holds (at_any_rest entries)
  unfolding at_any_rest
  at_any_rest-Holds [] _ = tt
  at_any_rest-Holds ((any_rest ∷ _, _) ∷ _) (h, hs) = h
  at_any_rest-Holds (_ ∷ entries) (h, hs) = at_any_rest-Holds entries hs

  at_end-Holds : (entries : List (List Segment × H)) → Entries entries → Holds (at_end entries)
  unfolding at_end
  at_end-Holds [] _ = tt
  at_end-Holds (([], _) ∷ _) (h, hs) = h
  at_end-Holds (_ ∷ entries) (h, hs) = at_end-Holds entries hs

  or_else-Holds : (a b : Option (H × List String)) → Holds a → Holds b → Holds (or_else a b)
  or_else-Holds (some _) b h _ = h
  or_else-Holds none b _ k = k

  with_match-Holds :
      (seg : String) (a : Option (H × List String)) → Holds a → Holds (with_match seg a)
  with_match-Holds seg none _ = tt
  with_match-Holds seg (some _) h = h

  if-Holds :
      (test : Bool) (a b : Option (H × List String))
      → Holds a
      → Holds b
      → Holds (if test then a else b)
  if-Holds true a b h _ = h
  if-Holds false a b _ k = k

  match_path-Holds :
      (path : List String) (entries : List (List Segment × H))
      → Entries entries
      → Holds (match_path path entries)
  unfolding match_path
  match_path-Holds [] entries h = at_end-Holds entries h
  match_path-Holds (seg ∷ path) entries h =
      or_else-Holds _ _ (match_path-Holds path _ (after_literal-Entries seg entries h)) (
        if-Holds (seg == "/") _ _ (at_any_rest-Holds entries h) (
          or_else-Holds _ _
            (with_match-Holds seg _ (match_path-Holds path _ (after_wildcard-Entries entries h)))
            (at_any_rest-Holds entries h)))

  -- Whatever route is found, its handler is one of the table's.
  pub find_route-Holds :
      (method : String) (path : List String) (routes : List (Route H))
      → All (λ route. P route.handler) routes
      → Holds (find_route method path routes)
  unfolding find_route
  find_route-Holds method path routes h =
      or_else-Holds _ _ (match_path-Holds path _ (of_method-Entries method routes h)) (
        if-Holds (method == "HEAD") _ _ (match_path-Holds path _ (of_method-Entries "GET" routes h))
          tt)
