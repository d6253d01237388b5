-- ===== src/Transport/Table.antt =====
-- What a pattern matches, and a walk through a list of patterns, to which the multiplexer's tree is compared.
pub mod Tree
pub mod Lists
pub mod Endpoints
use mathlib.Core.Path.{subst}
use go_image_service.Base.{
  String, Bool, true, false, ◌&&◌, ◌||◌, ◌≡◌, ◌≢◌, refl, sym, ap, ◌∙◌, inl, inr, List, [], ◌∷◌,
  Option, none, some, ◌==◌, string_eq, ==_ne, eq_of_==, ne_of_==, Bool-cases, if◌then◌else◌,
}
use go_image_service.Transport.Server.{Server}
use go_image_service.Transport.Handlers.{
  Handler, health, register, login, create_upload, complete_upload, images, list_images,
  image_status,
}
use go_image_service.Transport.Middleware.{require_auth}
use go_image_service.Transport.Mux.{
  Segment, literal, wildcard, any_rest, Route, of_method, after_literal, after_wildcard,
  at_any_rest, at_end, or_else, with_match, match_path, find_route,
}
use go_image_service.Transport.Routes.{routes}

abbrev pub with_value : String → Option (List String) → Option (List String)
with_value seg none = none
with_value seg (some values) = some (seg ∷ values)

-- The values of a pattern's wildcards where it matches a path.
unfoldable pub matches : List Segment → List String → Option (List String)
matches [] [] = some []
matches (literal l ∷ p) (seg ∷ path) = let rest = matches p path in if l == seg then rest else none
matches (wildcard ∷ p) (seg ∷ path) =
    let rest = matches p path in if seg == "/" then none else with_value seg rest
matches (any_rest ∷ _) (_ ∷ _) = some []
matches _ _ = none

module _ {H : Type 0} where
  abbrev pub leads : H → Option (List String) → Option (H × List String)
  leads h none = none
  leads h (some values) = some (h, values)

  unfoldable pub scan : List String → List (List Segment × H) → Option (H × List String)
  unfolding matches
  scan path [] = none
  scan path ((p, h) ∷ entries) = or_else (leads h (matches p path)) (scan path entries)
