-- ===== src/Transport/Table/Tree.antt =====
-- The tree of the multiplexer and the walk agree on the lists of patterns that routes leave.
use go_image_service.Base.{
  String, Bool, true, false, ◌≡◌, refl, inl, inr, List, [], ◌∷◌, Option, none, some, ◌==◌,
  string_eq, Bool-cases, if◌then◌else◌,
}
use go_image_service.Transport.Mux.{
  Segment, literal, wildcard, any_rest, after_literal, after_wildcard, at_any_rest, at_end, or_else,
  with_match, match_path,
}
use go_image_service.Transport.Table.{with_value, matches, leads, scan}

module _ (H : Type 0) where
  pub same_if : (b : Bool) (x : Option (H × List String)) → (if b then x else x) ≡ x
  same_if true x = refl
  same_if false x = refl

  pub or_none : (x : Option (H × List String)) → or_else x none ≡ x
  or_none none = refl
  or_none (some x) = refl

  unfoldable pub Agrees : List (List Segment × H) → Type 0
  Agrees entries = (path : List String) → match_path path entries ≡ scan path entries

  pub nothing : Agrees []
  unfolding Agrees match_path scan at_end after_literal after_wildcard at_any_rest
  nothing [] = refl
  nothing (seg ∷ path) = rw (nothing path, same_if (seg == "/")) refl

  with_value-leads :
      (seg : String) (h : H) (o : Option (List String))
      → with_match seg (leads h o) ≡ leads h (with_value seg o)
  with_value-leads seg h none = refl
  with_value-leads seg h (some values) = refl

  two :
      (seg : String) (a b : H) (o p : Option (List String))
      → or_else (with_match seg (or_else (leads a o) (or_else (leads b p) none))) none
        ≡ or_else (leads a (with_value seg o)) (or_else (leads b (with_value seg p)) none)
  two seg a b (some _) p = refl
  two seg a b none none = refl
  two seg a b none (some _) = refl

  pub or_assoc :
      (x y z r : Option (H × List String))
      → or_else (or_else x (or_else y (or_else z none))) r ≡ or_else x (or_else y (or_else z r))
  or_assoc (some x) y z r = refl
  or_assoc none (some y) z r = refl
  or_assoc none none (some z) r = refl
  or_assoc none none none r = refl

  -- A single pattern.
  pub single : (p : List Segment) (h : H) → Agrees ((p, h) ∷ [])
  unfolding Agrees match_path scan matches at_end after_literal after_wildcard at_any_rest
  single [] h [] = refl
  single [] h (seg ∷ path) = rw (nothing path, same_if (seg == "/")) refl
  single (literal l ∷ p) h [] = refl
  single (literal l ∷ p) h (seg ∷ path) = elim (Bool-cases (l == seg)) [
    | inl e ↦ rw (e, nothing path, single p h path, same_if (seg == "/"), or_none) refl
    | inr e ↦ rw (e, nothing path, same_if (seg == "/")) refl
  ]
  single (wildcard ∷ p) h [] = refl
  single (wildcard ∷ p) h (seg ∷ path) = elim (Bool-cases (seg == "/")) [
    | inl e ↦ rw (e, nothing path) refl
    | inr e ↦
        rw (e, nothing path, single p h path)
          (rw (or_none (leads h (matches p path)), with_value-leads seg h (matches p path)) refl)
  ]
  single (any_rest ∷ p) h [] = refl
  single (any_rest ∷ p) h (seg ∷ path) = rw (nothing path) (same_if (seg == "/") (some (h, [])))

  -- A pattern that ends here, and one that goes on with a literal.
  end_literal : (l : String) (a b : H) → Agrees (([], a) ∷ (literal l ∷ [], b) ∷ [])
  unfolding Agrees match_path scan matches at_end after_literal after_wildcard at_any_rest
  end_literal l a b [] = refl
  end_literal l a b (seg ∷ path) = elim (Bool-cases (l == seg)) [
    | inl e ↦ rw (e, nothing path, single [] b path, same_if (seg == "/"), or_none) refl
    | inr e ↦ rw (e, nothing path, same_if (seg == "/")) refl
  ]

  -- The patterns after `/uploads`.
  pub end_wildcard : (l : String) (a b : H) → Agrees (([], a) ∷ (wildcard ∷ literal l ∷ [], b) ∷ [])
  unfolding Agrees match_path scan matches at_end after_literal after_wildcard at_any_rest
  end_wildcard l a b [] = refl
  end_wildcard l a b (seg ∷ path) = elim (Bool-cases (seg == "/")) [
    | inl e ↦ rw (e, nothing path) refl
    | inr e ↦
        rw (e, nothing path, single (literal l ∷ []) b path)
          (rw
            (
              or_none (leads b (matches (literal l ∷ []) path)),
              with_value-leads seg b (matches (literal l ∷ []) path),
            )
            refl)
  ]

  -- The patterns after `/images`.
  pub end_wildcards :
      (l : String) (a b c : H)
      → Agrees (([], a) ∷ (wildcard ∷ [], b) ∷ (wildcard ∷ literal l ∷ [], c) ∷ [])
  unfolding Agrees match_path scan matches at_end after_literal after_wildcard at_any_rest
  end_wildcards l a b c [] = refl
  end_wildcards l a b c (seg ∷ path) = elim (Bool-cases (seg == "/")) [
    | inl e ↦ rw (e, nothing path) refl
    | inr e ↦
        rw (e, nothing path, end_literal l b c path)
          (two seg b c (matches [] path) (matches (literal l ∷ []) path))
  ]
