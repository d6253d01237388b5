-- ===== src/Pipeline/Workflow/Lifecycle.antt =====
-- The status of an upload while its workflow runs, and when it ends.
use mathlib.Core.Path.{subst}
use go_image_service.Base.{
  ℕ, String, ◌≡◌, ◌≢◌, refl, sym, ◌∙◌, ◌⊎◌, inl, inr, List, [], ◌∷◌, Option, none, some, Err,
  Result, ok, err, M, ltb, Bool-cases,
}
use go_image_service.Metadata.{update_status}
use go_image_service.Pipeline.Activities as Acts
use go_image_service.Pipeline.Activities.{
  Activities, ValidateInput, ResizeInput, object_key, max_image_bytes, reject, check_size,
  check_type, image_type,
}
use go_image_service.Base.Hoare.{Landed, Hoare, Hoare-bind, Hoare-either, Hoare-weaken}

-- The status is one of these.
abbrev pub OneOf : List String → Option String → Type 0
OneOf [] st = ⊥
OneOf (x ∷ xs) st = (st ≡ some x) ⊎ OneOf xs st

OneOf-ne-none : (xs : List String) (st : Option String) → OneOf xs st → st ≢ none
OneOf-ne-none (x ∷ xs) st (inl e) n = cc
OneOf-ne-none (x ∷ xs) st (inr h) n = OneOf-ne-none xs st h n
OneOf-ne-none [] st h n = h

-- What the code relies on in the table and in the object store, for the status of the row `id`: an
-- update of an existing row that succeeds sets it, one that fails set it or left it, and the calls of the
-- object store and the image service leave it.
pub record IsStatus {W : Type 0} (a : Activities W) (id : String) (status : W → Option String)
    : Type 0 where
  pub update_ok :
      (s : String) (w : W)
      → status w ≢ none
      → (update_status a.repo id s w).0 ≡ ok tt
      → status (update_status a.repo id s w).1 ≡ some s
  pub update_err :
      (s : String) (w : W) (e : Err)
      → status w ≢ none
      → (update_status a.repo id s w).0 ≡ err e
      → (status (update_status a.repo id s w).1 ≡ status w)
        ⊎ (status (update_status a.repo id s w).1 ≡ some s)
  pub status-get : (key : String) (w : W) → status (a.objects.get key w).1 ≡ status w
  pub status-sniff :
      (key : String) (n : ℕ) (w : W) → status (a.objects.get_first_n_bytes key n w).1 ≡ status w
  pub status-head : (key : String) (w : W) → status (a.objects.head key w).1 ≡ status w
  pub status-put :
      (key content_type : String) (content : List ℕ) (w : W)
      → status (a.objects.put key content content_type w).1 ≡ status w
  pub status-delete : (key : String) (w : W) → status (a.objects.delete key w).1 ≡ status w
  pub status-resize :
      (content : List ℕ) (x y : ℕ) (w : W) → status (a.resize content x y w).1 ≡ status w

module _ {W : Type 0} (a : Activities W) (id : String) (status : W → Option String)
    (table : IsStatus a id status) where
  abbrev pub Is : String → W → Type 0
  Is s w = status w ≡ some s

  abbrev pub In : List String → W → Type 0
  In xs w = OneOf xs (status w)

  update-go :
      (xs : List String) (s : String)
      → ((w : W) → Is s w → In xs w)
      → (w : W) → In xs w
      → (r : Result (Unit {0})) → (update_status a.repo id s w).0 ≡ r
      → Landed (Is s) (In xs) r (update_status a.repo id s w).1
  update-go xs s inside w h (ok _) e = table.update_ok s w (OneOf-ne-none xs (status w) h) e
  update-go xs s inside w h (err x) e =
      elim (table.update_err s w x (OneOf-ne-none xs (status w) h) e) [
        | inl same ↦ subst (OneOf xs) (sym same) h
        | inr moved ↦ inside _ moved
      ]

  -- An update lands in the new status, or fails within any set that holds it.
  pub Hoare-update :
      (xs : List String) (s : String)
      → ((w : W) → Is s w → In xs w)
      → Hoare (In xs) (update_status a.repo id s) (Is s) (In xs)
  Hoare-update xs s inside = record {
    at = λ w h. update-go xs s inside w h (update_status a.repo id s w).0 refl;
  }

  module _ {A : Type 0} (m : M W A) (keeps : (w : W) → status (m w).1 ≡ status w) where
    keep-go :
        (T : Option String → Type 0) (w : W) (r : Result A)
        → T (status (m w).1)
        → Landed (λ w. T (status w)) (λ w. T (status w)) r (m w).1
    keep-go T w (ok _) h = h
    keep-go T w (err _) h = h

    -- A call that keeps the status keeps every statement about it.
    pub Hoare-keep :
        (T : Option String → Type 0)
        → Hoare (λ w. T (status w)) m (λ w. T (status w)) (λ w. T (status w))
    Hoare-keep T = record { at = λ w h. keep-go T w (m w).0 (subst T (sym (keeps w)) h) }

  abbrev pub checking : List String
  checking = "pending" ∷ "validating" ∷ "rejected" ∷ []

  pub In-checking : (w : W) → Is "validating" w → In checking w
  In-checking w e = inr (inl e)

  Hoare-reject :
      (key reason : String)
      → Hoare (Is "validating") (reject a id key reason) (Is "validating") (In checking)
  unfolding reject
  Hoare-reject key reason = record {
    at = λ w h.
        Hoare-either (In checking) (Hoare-update checking "rejected" (λ _ e. inr (inr (inl e))))
          (λ _ e. inr (inr (inl e))) (λ _ e. e) _ (In-checking _ (table.status-delete key w ∙ h));
  }

  Hoare-check_size :
      (info : ℕ × String)
      → Hoare (Is "validating") (check_size a id info) (Is "validating") (In checking)
  unfolding check_size
  Hoare-check_size (size, ct) = elim (Bool-cases (ltb max_image_bytes size)) [
    | inl big ↦ rw big (Hoare-reject (object_key id "original") "image too large")
    | inr small ↦ rw small (record { at = λ _ h. h })
  ]

  Hoare-check_type :
      (sniffed : Option String)
      → Hoare (Is "validating") (check_type a id sniffed) (Is "validating") (In checking)
  unfolding check_type
  Hoare-check_type none = Hoare-reject (object_key id "original") "unsupported content type"
  Hoare-check_type (some _) =
      Hoare-bind
        (Hoare-weaken
          (Hoare-keep (a.objects.head (object_key id "original")) (table.status-head _)
            (λ st. st ≡ some "validating"))
          In-checking)
        Hoare-check_size

  pub Hoare-validate :
      (ct : String)
      → Hoare
          (In checking)
          (Acts.validate a (record { id = id; content_type = ct }))
          (Is "validating")
          (In checking)
  unfolding Acts.validate
  Hoare-validate ct = Hoare-bind (Hoare-update checking "validating" In-checking) (λ _.
      Hoare-bind
        (Hoare-weaken
          (Hoare-keep (a.objects.get_first_n_bytes (object_key id "original") 512)
            (table.status-sniff _ 512) (λ st. st ≡ some "validating"))
          In-checking)
        (λ sniff. Hoare-check_type (image_type sniff)))
