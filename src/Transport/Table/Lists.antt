-- ===== src/Transport/Table/Lists.antt =====
-- The multiplexer's trees of the GET and of the POST patterns agree with their lists.
use mathlib.Core.Path.{subst}
use go_image_service.Base.{
  String, false, ◌≡◌, refl, inl, inr, List, [], ◌∷◌, none, some, ◌==◌, string_eq, eq_of_==,
  Bool-cases,
}
use go_image_service.Transport.Server.{Server}
use go_image_service.Transport.Handlers.{
  Handler, health, register, login, create_upload, complete_upload, images, list_images,
  image_status,
}
use go_image_service.Transport.Middleware.{require_auth}
use go_image_service.Transport.Mux.{
  Segment, literal, wildcard, any_rest, after_literal, after_wildcard, at_any_rest, at_end, or_else,
  match_path,
}
use go_image_service.Transport.Table.{matches, leads, scan}
use go_image_service.Transport.Table.Tree.{
  Agrees, same_if, or_none, or_assoc, nothing, single, end_wildcard, end_wildcards,
}

module _ {W : Type 0} (s : Server W) (web : Handler W) where
  abbrev pub gets : List (List Segment × Handler W)
  gets =
      (literal "health" ∷ [], health s)
      ∷ (literal "images" ∷ [], require_auth s (list_images s))
      ∷ (literal "images" ∷ wildcard ∷ [], require_auth s (images s))
      ∷ (literal "images" ∷ wildcard ∷ literal "status" ∷ [], require_auth s (image_status s))
      ∷ (any_rest ∷ [], web)
      ∷ []

  abbrev pub posts : List (List Segment × Handler W)
  posts =
      (literal "register" ∷ [], register s)
      ∷ (literal "login" ∷ [], login s)
      ∷ (literal "uploads" ∷ [], require_auth s (create_upload s))
      ∷ (literal "uploads" ∷ wildcard ∷ literal "complete" ∷ [], require_auth s (complete_upload s))
      ∷ []

  -- What the two lists of patterns say for each first segment.
  gets_health :
      (path : List String) → match_path ("health" ∷ path) gets ≡ scan ("health" ∷ path) gets
  unfolding match_path scan matches after_literal after_wildcard at_any_rest string_eq Agrees
  gets_health path =
      rw (nothing (Handler W) path, single (Handler W) [] (health s) path)
        (or_assoc (Handler W) (leads (health s) (matches [] path)) none none (some (web, [])))

  gets_images :
      (path : List String) → match_path ("images" ∷ path) gets ≡ scan ("images" ∷ path) gets
  unfolding match_path scan matches after_literal after_wildcard at_any_rest string_eq Agrees
  gets_images path =
      let a = require_auth s (list_images s) in
      let b = require_auth s (images s) in
      let c = require_auth s (image_status s) in
      rw (nothing (Handler W) path, end_wildcards (Handler W) "status" a b c path)
        (or_assoc (Handler W) (leads a (matches [] path)) (leads b (matches (wildcard ∷ []) path))
          (leads c (matches (wildcard ∷ literal "status" ∷ []) path)) (some (web, [])))

  gets_other :
      (seg : String) (path : List String)
      → ("health" == seg) ≡ false
      → ("images" == seg) ≡ false
      → match_path (seg ∷ path) gets ≡ scan (seg ∷ path) gets
  unfolding match_path scan matches after_literal after_wildcard at_any_rest Agrees
  gets_other seg path h i =
      rw (h, i, nothing (Handler W) path) (same_if (Handler W) (seg == "/") (some (web, [])))

  pub gets-Agrees : Agrees (Handler W) gets
  unfolding Agrees match_path scan matches at_end
  gets-Agrees [] = refl
  gets-Agrees (seg ∷ path) = elim (Bool-cases ("health" == seg)) [
    | inl h ↦
        subst (λ seg. match_path (seg ∷ path) gets ≡ scan (seg ∷ path) gets)
          (eq_of_== "health" seg h) (gets_health path)
    | inr h ↦ elim (Bool-cases ("images" == seg)) [
      | inl i ↦
          subst (λ seg. match_path (seg ∷ path) gets ≡ scan (seg ∷ path) gets)
            (eq_of_== "images" seg i) (gets_images path)
      | inr i ↦ gets_other seg path h i
    ]
  ]

  posts_register :
      (path : List String) → match_path ("register" ∷ path) posts ≡ scan ("register" ∷ path) posts
  unfolding match_path scan matches after_literal after_wildcard at_any_rest string_eq Agrees
  posts_register path =
      rw (nothing (Handler W) path, single (Handler W) [] (register s) path)
        (or_none (Handler W) (or_else (leads (register s) (matches [] path)) none))

  posts_login :
      (path : List String) → match_path ("login" ∷ path) posts ≡ scan ("login" ∷ path) posts
  unfolding match_path scan matches after_literal after_wildcard at_any_rest string_eq Agrees
  posts_login path =
      rw (nothing (Handler W) path, single (Handler W) [] (login s) path)
        (or_none (Handler W) (or_else (leads (login s) (matches [] path)) none))

  posts_uploads :
      (path : List String) → match_path ("uploads" ∷ path) posts ≡ scan ("uploads" ∷ path) posts
  unfolding match_path scan matches after_literal after_wildcard at_any_rest string_eq Agrees
  posts_uploads path =
      let a = require_auth s (create_upload s) in
      let b = require_auth s (complete_upload s) in
      rw (nothing (Handler W) path, end_wildcard (Handler W) "complete" a b path)
        (or_none (Handler W) (
          or_else (leads a (matches [] path))
            (or_else (leads b (matches (wildcard ∷ literal "complete" ∷ []) path)) none)))

  posts_other :
      (seg : String) (path : List String)
      → ("register" == seg) ≡ false
      → ("login" == seg) ≡ false
      → ("uploads" == seg) ≡ false
      → match_path (seg ∷ path) posts ≡ scan (seg ∷ path) posts
  unfolding match_path scan matches after_literal after_wildcard at_any_rest Agrees
  posts_other seg path r l u =
      rw (r, l, u, nothing (Handler W) path) (same_if (Handler W) (seg == "/") none)

  pub posts-Agrees : Agrees (Handler W) posts
  unfolding Agrees match_path scan matches at_end
  posts-Agrees [] = refl
  posts-Agrees (seg ∷ path) = elim (Bool-cases ("register" == seg)) [
    | inl r ↦
        subst (λ seg. match_path (seg ∷ path) posts ≡ scan (seg ∷ path) posts)
          (eq_of_== "register" seg r) (posts_register path)
    | inr r ↦ elim (Bool-cases ("login" == seg)) [
      | inl l ↦
          subst (λ seg. match_path (seg ∷ path) posts ≡ scan (seg ∷ path) posts)
            (eq_of_== "login" seg l) (posts_login path)
      | inr l ↦ elim (Bool-cases ("uploads" == seg)) [
        | inl u ↦
            subst (λ seg. match_path (seg ∷ path) posts ≡ scan (seg ∷ path) posts)
              (eq_of_== "uploads" seg u) (posts_uploads path)
        | inr u ↦ posts_other seg path r l u
      ]
    ]
  ]
