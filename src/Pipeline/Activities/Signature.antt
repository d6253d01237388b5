-- ===== src/Pipeline/Activities/Signature.antt =====
-- The first bytes of the images that `Validate` accepts.
use go_image_service.Base.{
  ℕ, String, true, false, ◌≡◌, refl, ◌⊎◌, inl, inr, List, [], ◌∷◌, ◌++◌, Option, none, some, ◌==◌,
  nat_eq, Bool-cases, eq_of_==, ==_refl,
}
use go_image_service.Pipeline.Activities.{starts, image_type}

abbrev jpeg : List ℕ
jpeg = 0xFF ∷ 0xD8 ∷ 0xFF ∷ []

abbrev png : List ℕ
png = 0x89 ∷ 0x50 ∷ 0x4E ∷ 0x47 ∷ 0x0D ∷ 0x0A ∷ 0x1A ∷ 0x0A ∷ []

-- The start of a JPEG or a PNG image.
abbrev pub IsImage : List ℕ → Type 0
IsImage bytes =
    ((rest : List ℕ) × (bytes ≡ 0xFF ∷ 0xD8 ∷ 0xFF ∷ rest))
    ⊎ ((rest : List ℕ) × (bytes ≡ 0x89 ∷ 0x50 ∷ 0x4E ∷ 0x47 ∷ 0x0D ∷ 0x0A ∷ 0x1A ∷ 0x0A ∷ rest))

starts-eq : (ps bs : List ℕ) → starts ps bs ≡ true → (rest : List ℕ) × (bs ≡ ps ++ rest)
starts-eq [] bs h = (bs, refl)
starts-eq (p ∷ ps) [] h = cc
starts-eq (p ∷ ps) (b ∷ bs) h = elim (Bool-cases (p == b)) [
  | inl same ↦
      let (rest, e) = starts-eq ps bs (rw same at h) in (rest, rw (← eq_of_== p b same, e) refl)
  | inr differ ↦ absurd (no (rw differ at h))
]
  where
    no : false ≡ true → ⊥
    no e = cc

starts-append : (ps rest : List ℕ) → starts ps (ps ++ rest) ≡ true
starts-append [] rest = refl
starts-append (p ∷ ps) rest = rw (==_refl p, starts-append ps rest) refl

pub image_type-some :
    (bytes : List ℕ) (type : String) → image_type bytes ≡ some type → IsImage bytes
unfolding image_type
image_type-some bytes type h = elim (Bool-cases (starts jpeg bytes)) [
  | inl e ↦ inl (starts-eq jpeg bytes e)
  | inr e ↦ elim (Bool-cases (starts png bytes)) [
    | inl f ↦ inr (starts-eq png bytes f)
    | inr f ↦ absurd (none_ne_some (rw (e, f) at h))
  ]
]
  where
    none_ne_some : ◌≡◌ {A = Option String} none (some type) → ⊥
    none_ne_some e = cc

pub image_type-none : (bytes : List ℕ) → image_type bytes ≡ none → ¬ IsImage bytes
unfolding image_type nat_eq
image_type-none bytes h (inl (rest, e)) = cc (rw e at h)
image_type-none bytes h (inr (rest, e)) = cc (rw e at h)
