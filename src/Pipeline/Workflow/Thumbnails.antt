-- ===== src/Pipeline/Workflow/Thumbnails.antt =====
-- What the resizing activities of a fan-out do to the object store, however they interleave.
use mathlib.Core.Path.{subst}
use text.Mathlib.TextLemmas.{append_cancel_left}
use go_image_service.Base.{
  ℕ, String, ◌<>◌, ◌≡◌, ◌≢◌, refl, sym, ap, ◌∙◌, ◌⊎◌, inl, inr, List, some, ne_of_==, string_eq, ok,
}
use go_image_service.Metadata.{update_status}
use go_image_service.Storage.Contents.{Contents, Unchanged, IsStore}
use go_image_service.Pipeline.Activities as Acts
use go_image_service.Pipeline.Activities.{
  Activities, ResizeInput, object_key, image_type, reject, check_size, check_type,
}
use go_image_service.Pipeline.Activities.Resizing.{
  IsResized, Changed, resize-Changed, resize-IsResized,
}
use go_image_service.Pipeline.Workflow.{Call, resize, run, UploadInput, ResizeSpec}

-- An object that was uploaded, in a store that the table and the image service leave as it is.
pub record Source {W : Type 0} (a : Activities W) : Type 0 where
  pub stored : W → Contents
  pub store : IsStore a.objects stored
  pub resize_same :
      (content : List ℕ) (x y : ℕ) (w : W)
      → Unchanged (stored w) (stored (a.resize content x y w).1)
  pub update_same :
      (id s : String) (w : W) → Unchanged (stored w) (stored (update_status a.repo id s w).1)
  pub content : List ℕ
  pub content_type : String

-- The thumbnails have keys of their own.
key_inj : (id name name' : String) → object_key id name ≡ object_key id name' → name ≡ name'
key_inj id name name' e =
    append_cancel_left "/" name name' (append_cancel_left id ("/" <> name) ("/" <> name') e)

key_ne : (id name name' : String) → name ≢ name' → object_key id name ≢ object_key id name'
key_ne id name name' differ e = differ (key_inj id name name' e)

words :
    (◌≢◌ {A = String} "original" "12x12")
    × (◌≢◌ {A = String} "original" "25x25")
    × (◌≢◌ {A = String} "12x12" "25x25")
unfolding string_eq
words = (
  ne_of_== "original" "12x12" refl,
  ne_of_== "original" "25x25" refl,
  ne_of_== "12x12" "25x25" refl,
)

abbrev pub small : ResizeSpec
small = record { name = "12x12"; w = 12; h = 12 }

abbrev pub large : ResizeSpec
large = record { name = "25x25"; w = 25; h = 25 }

module _ {W : Type 0} (a : Activities W) (i : UploadInput) (o : Source a) where
  abbrev pub Uploaded : W → Type 0
  Uploaded w = o.stored w (object_key i.id "original") ≡ some (o.content, o.content_type)

  abbrev pub input : ResizeSpec → ResizeInput
  input s = record {
    id = i.id;
    content_type = i.content_type;
    name = s.name;
    width = s.w;
    height = s.h;
  }

  -- The object `{id}/{name}` is what the image service made of the original for this size, with the content
  -- type of the upload.
  abbrev pub IsThumbnail : ResizeSpec → W → Type 0
  IsThumbnail s w = IsResized a o.stored o.store o.resize_same o.content o.content_type (input s) w

  -- A call of the fan-out.
  abbrev pub IsResize : Call → Type 0
  IsResize c = (c ≡ resize (input small)) ⊎ (c ≡ resize (input large))

  abbrev pub Reached : Call → W → Type 0
  Reached c w = (s : ResizeSpec) → c ≡ resize (input s) → IsThumbnail s w

  resize_inj : (r r' : ResizeInput) → ◌≡◌ {A = Call} (resize r) (resize r') → r ≡ r'
  resize_inj r r' e = cc

  changed :
      (s : ResizeSpec) (w : W)
      → Uploaded w
      → (k : String)
      → Changed a o.stored o.store o.resize_same o.content o.content_type
          (input s)
          w
          (Acts.resize a (input s) w).1
          k
  changed s w h k =
      resize-Changed a o.stored o.store o.resize_same o.content o.content_type (input s) w h k

  keep_resize :
      (s : ResizeSpec) (w : W)
      → "original" ≢ s.name
      → Uploaded w
      → Uploaded (Acts.resize a (input s) w).1
  keep_resize s w differ h = elim (changed s w h (object_key i.id "original")) [
    | inl same ↦ same ∙ h
    | inr (k, _) ↦ absurd (key_ne i.id "original" s.name differ k)
  ]

  pub keep : (c : Call) → IsResize c → (w : W) → Uploaded w → Uploaded (run a c w).1
  keep c (inl e) w h = rw e (keep_resize _ w words.0 h)
  keep c (inr e) w h = rw e (keep_resize _ w words.1 h)

  pub land :
      (c : Call)
      → IsResize c
      → (w : W) → Uploaded w
      → (run a c w).0 ≡ ok tt
      → Reached c (run a c w).1
  land c _ w h good s e =
      subst (λ c. (run a c w).0 ≡ ok tt → IsThumbnail s (run a c w).1) (sym e)
        (λ g.
          resize-IsResized a o.stored o.store o.resize_same o.content o.content_type (input s) w _ h
            (ap (λ r. (r, (Acts.resize a (input s) w).1)) g))
        good

  pub carry :
      (s : ResizeSpec) (w w' : W)
      → o.stored w' (object_key i.id s.name) ≡ o.stored w (object_key i.id s.name)
      → IsThumbnail s w
      → IsThumbnail s w'
  carry s w w' same h = record {
    bytes = h.bytes;
    before = h.before;
    after = h.after;
    made = h.made;
    kept = same ∙ h.kept;
  }

  stay_resize :
      (s s' : ResizeSpec) (w : W)
      → Uploaded w
      → (s'.name ≡ s.name → input s' ≡ input s)
      → IsThumbnail s' w
      → IsThumbnail s' (Acts.resize a (input s) w).1
  stay_resize s s' w h same thumbnail = elim (changed s w h (object_key i.id s'.name)) [
    | inl unchanged ↦ carry s' w _ unchanged thumbnail
    | inr (k, other) ↦
        subst
          (λ r.
            IsResized a o.stored o.store o.resize_same o.content o.content_type r
              (Acts.resize a (input s) w).1)
          (sym (same (key_inj i.id s'.name s.name k))) other
  ]

  name_of : (s s' : ResizeSpec) → input s ≡ input s' → s.name ≡ s'.name
  name_of s s' e = ap (λ (r : ResizeInput). r.name) e

  pub stay :
      (c c' : Call)
      → IsResize c
      → IsResize c'
      → (w : W) → Uploaded w
      → Reached c' w
      → Reached c' (run a c w).1
  stay c c' (inl k) kind w h q s e = rw k (
      stay_resize small s w h
        (λ n. elim kind [
          | inl k' ↦ resize_inj _ _ (sym e ∙ k')
          | inr k' ↦ absurd (words.2 (sym n ∙ name_of s large (resize_inj _ _ (sym e ∙ k'))))
        ])
        (q s e))
  stay c c' (inr k) kind w h q s e = rw k (
      stay_resize large s w h
        (λ n. elim kind [
          | inl k' ↦ absurd (words.2 (sym (name_of s small (resize_inj _ _ (sym e ∙ k'))) ∙ n))
          | inr k' ↦ resize_inj _ _ (sym e ∙ k')
        ])
        (q s e))
