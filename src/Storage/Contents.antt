-- ===== src/Storage/Contents.antt =====
-- What an object store holds.
use go_image_service.Base.{
  ℕ, String, ◌≡◌, ◌⊎◌, List, Option, some, ◌==◌, string_eq, if◌then◌else◌, ok, err, Err,
}
use go_image_service.Storage.{ObjectStore}

-- The bytes of each key and their content type.
abbrev pub Contents : Type 0
Contents = String → Option (List ℕ × String)

abbrev pub IsPut : String → List ℕ → String → Contents → Contents → Type 0
IsPut key content content_type c c' =
    (k : String) → c' k ≡ (if k == key then some (content, content_type) else c k)

abbrev pub Unchanged : Contents → Contents → Type 0
Unchanged c c' = (k : String) → c' k ≡ c k

-- What the code relies on in the object store, where `stored` is what a world holds: a read gives the
-- bytes of the key and changes nothing; a write that fails took effect or did not.
pub record IsStore {W : Type 0} (o : ObjectStore W) (stored : W → Contents) : Type 0 where
  pub get_ok :
      (key : String) (w w' : W) (bytes : List ℕ)
      → o.get key w ≡ (ok bytes, w')
      → (content_type : String) × (stored w key ≡ some (bytes, content_type))
  pub get_same : (key : String) (w : W) → Unchanged (stored w) (stored (o.get key w).1)
  pub sniff_same :
      (key : String) (n : ℕ) (w : W) → Unchanged (stored w) (stored (o.get_first_n_bytes key n w).1)
  pub head_same : (key : String) (w : W) → Unchanged (stored w) (stored (o.head key w).1)
  pub put_ok :
      (key content_type : String) (content : List ℕ) (w w' : W)
      → o.put key content content_type w ≡ (ok tt, w')
      → IsPut key content content_type (stored w) (stored w')
  pub put_err :
      (key content_type : String) (content : List ℕ) (w w' : W) (e : Err)
      → o.put key content content_type w ≡ (err e, w')
      → Unchanged (stored w) (stored w') ⊎ IsPut key content content_type (stored w) (stored w')
