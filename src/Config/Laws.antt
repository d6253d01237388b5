-- ===== src/Config/Laws.antt =====
-- Lists of the environment: what `getenvList` reads back, and what every entry looks like.
use go_image_service.Base.{
  String, ◌<>◌, ◌≡◌, ◌≢◌, refl, ap, ◌∙◌, List, [], ◌∷◌, ◌==◌, string_eq, ==_ne, ==_iff, Bool-cases,
  inl, inr, All, split_char, trim_space,
}
use text.Mathlib.TextLemmas.{append-ne-nil_of_right_ne-nil, cons-ne-nil}
use go_image_service.Base.TextLaws.{
  Lacks-trim_space, split_char-Lacks, Lacks, IsTrimmed, split_char_of_Lacks, split_char-append,
  trim_space-IsTrimmed, trim_space_of_IsTrimmed,
}
use go_image_service.Config.{nonblank, or_default, getenv_list}

-- An entry of the list: not blank, trimmed, without a comma.
abbrev pub IsEntry : String → Type 0
IsEntry s = (s ≢ "") × IsTrimmed s × Lacks "," s

-- The entries with commas between them.
abbrev pub join : List String → String
join [] = ""
join (x ∷ []) = x
join (x ∷ y ∷ xs) = x <> String.◌∷◌ "," (join (y ∷ xs))

split_char-join :
    (x : String) (xs : List String) → All IsEntry (x ∷ xs) → split_char "," (join (x ∷ xs)) ≡ x ∷ xs
split_char-join x [] (h, _) = split_char_of_Lacks "," x h.2
split_char-join x (y ∷ xs) (h, hs) =
    split_char-append "," x (join (y ∷ xs)) h.2 ∙ ap (λ t. x ∷ t) (split_char-join y xs hs)

nonblank_of_IsEntry : (xs : List String) → All IsEntry xs → nonblank xs ≡ xs
unfolding nonblank
nonblank_of_IsEntry [] _ = refl
nonblank_of_IsEntry (x ∷ xs) (h, hs) =
    rw (trim_space_of_IsTrimmed x h.1, ==_ne _ _ h.0, nonblank_of_IsEntry xs hs)

IsEntry-ne-nil : (x : String) (xs : List String) → All IsEntry (x ∷ xs) → join (x ∷ xs) ≢ ""
IsEntry-ne-nil x [] (h, _) = h.0
IsEntry-ne-nil x (y ∷ xs) _ = append-ne-nil_of_right_ne-nil x (cons-ne-nil "," (join (y ∷ xs)))

nonblank-IsEntry : (parts : List String) → All (Lacks ",") parts → All IsEntry (nonblank parts)
unfolding nonblank
nonblank-IsEntry [] _ = tt
nonblank-IsEntry (part ∷ parts) (h, hs) = elim (Bool-cases (trim_space part == "")) [
  | inl blank ↦ rw blank (nonblank-IsEntry parts hs)
  | inr solid ↦ rw solid (
    (
      (λ e. cc (solid, (==_iff (trim_space part) "").1 e)),
      trim_space-IsTrimmed part,
      Lacks-trim_space "," part h,
    ),
    nonblank-IsEntry parts hs,
  )
]

-- A list of entries that is not empty.
abbrev pub IsAllowlist : List String → Type 0
IsAllowlist xs = (xs ≢ []) × All IsEntry xs

or_default-IsAllowlist :
    (fallback xs : List String)
    → IsAllowlist fallback
    → All IsEntry xs
    → IsAllowlist (or_default fallback xs)
or_default-IsAllowlist fallback [] h _ = h
or_default-IsAllowlist fallback (x ∷ xs) _ h = ((λ e. cc), h)

module _ (env : String → String) (key : String) where
  -- One or more entries that are joined by commas are read back as they are, if each is not blank,
  -- trimmed and free of commas.
  pub getenv_list-join :
      (x : String) (xs fallback : List String)
      → All IsEntry (x ∷ xs)
      → env key ≡ join (x ∷ xs)
      → getenv_list env key fallback ≡ x ∷ xs
  unfolding getenv_list
  getenv_list-join x xs fallback h e =
      rw (
        e,
        ==_ne _ _ (IsEntry-ne-nil x xs h),
        split_char-join x xs h,
        nonblank_of_IsEntry (x ∷ xs) h,
      )

  -- Whatever the environment holds, the list read is not empty and each entry is trimmed, not blank
  -- and free of commas, if the fallback is such a list.
  pub getenv_list-IsAllowlist :
      (fallback : List String) → IsAllowlist fallback → IsAllowlist (getenv_list env key fallback)
  unfolding getenv_list
  getenv_list-IsAllowlist fallback h = elim (Bool-cases (env key == "")) [
    | inl unset ↦ rw unset h
    | inr present ↦
        rw present (
          or_default-IsAllowlist fallback _ h (nonblank-IsEntry _ (split_char-Lacks "," (env key))))
  ]
