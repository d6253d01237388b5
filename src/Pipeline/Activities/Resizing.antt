-- ===== src/Pipeline/Activities/Resizing.antt =====
-- What `Resize` does to the object store.
use mathlib.Core.Path.{subst}
use go_image_service.Base.{
  ℕ, String, ◌≡◌, refl, sym, ap, ◌∙◌, ◌⊎◌, inl, inr, List, some, ◌==◌, string_eq, ==_refl, eq_of_==,
  Bool-cases, if_true, if_false, Result, ok, err, M, ◌>>=◌,
}
use go_image_service.Base.Inversion.{bind-IsBound}
use go_image_service.Storage.Contents.{Contents, IsPut, Unchanged, IsStore}
use go_image_service.Pipeline.Activities.{Activities, ResizeInput, object_key, resize}

module _ {W : Type 0} (a : Activities W) (stored : W → Contents) (store : IsStore a.objects stored)
    (resize_same : (content : List ℕ) (x y : ℕ) (w : W)
      → Unchanged (stored w) (stored (a.resize content x y w).1))
    (original : List ℕ) (original_type : String) where
  -- The object that was uploaded under an id.
  abbrev pub IsOriginal : String → W → Type 0
  IsOriginal id w = stored w (object_key id "original") ≡ some (original, original_type)

  -- The object of the input's key is what the image service made of the original.
  pub record IsResized (r : ResizeInput) (w : W) : Type 0 where
    pub bytes : List ℕ
    pub before : W
    pub after : W
    pub made : a.resize original r.width r.height before ≡ (ok bytes, after)
    pub kept : stored w (object_key r.id r.name) ≡ some (bytes, r.content_type)

  -- A key holds what it held, or is the input's and holds the resized original.
  abbrev pub Changed : ResizeInput → W → W → String → Type 0
  Changed r w w' k = (stored w' k ≡ stored w k) ⊎ ((k ≡ object_key r.id r.name) × IsResized r w')

  put-Changed :
      (r : ResizeInput) (bytes : List ℕ) (before w w' : W)
      → a.resize original r.width r.height before ≡ (ok bytes, w)
      → IsPut (object_key r.id r.name) bytes r.content_type (stored w) (stored w')
      → (k : String) → Changed r w w' k
  put-Changed r bytes before w w' made put k = elim (Bool-cases (k == object_key r.id r.name)) [
    | inr other ↦ inl (put k ∙ if_false _ _ _ other)
    | inl same ↦ inr (
      eq_of_== k (object_key r.id r.name) same,
      record {
        bytes = bytes;
        before = before;
        after = w;
        made = made;
        kept = put (object_key r.id r.name) ∙ if_true _ _ _ (==_refl (object_key r.id r.name));
      },
    )
  ]

  put-go :
      (r : ResizeInput) (bytes : List ℕ) (before w : W) (p : Result (Unit {0}) × W)
      → a.resize original r.width r.height before ≡ (ok bytes, w)
      → a.objects.put (object_key r.id r.name) bytes r.content_type w ≡ p
      → (k : String) → Changed r w p.1 k
  put-go r bytes before w (ok _, w') made e k =
      put-Changed r bytes before w w' made (store.put_ok _ _ bytes w w' e) k
  put-go r bytes before w (err x, w') made e k = elim (store.put_err _ _ bytes w w' x e) [
    | inl same ↦ inl (same k)
    | inr put ↦ put-Changed r bytes before w w' made put k
  ]

  earlier :
      (r : ResizeInput) (w v w' : W) (k : String)
      → stored v k ≡ stored w k
      → Changed r v w' k
      → Changed r w w' k
  earlier r w v w' k same (inl e) = inl (e ∙ same)
  earlier r w v w' k same (inr h) = inr h

  abbrev resize_step : ResizeInput → List ℕ → M W (Unit {0})
  resize_step r content = do
    resized ← a.resize content r.width r.height
    a.objects.put (object_key r.id r.name) resized r.content_type

  resize-go :
      (r : ResizeInput) (w : W) (p : Result (List ℕ) × W)
      → a.resize original r.width r.height w ≡ p
      → (k : String) → Changed r w (resize_step r original w).1 k
  resize-go r w (ok bytes, v) e k =
      rw e (earlier r w v _ k (same_after k) (put-go r bytes w v _ e refl k))
    where
      same_after : Unchanged (stored w) (stored v)
      same_after k = ap (λ q. stored q.1 k) (sym e) ∙ resize_same original r.width r.height w k
  resize-go r w (err x, v) e k =
      rw e (inl (ap (λ q. stored q.1 k) (sym e) ∙ resize_same original r.width r.height w k))

  same_original :
      (id : String) (w : W) (bytes : List ℕ) (type : String)
      → stored w (object_key id "original") ≡ some (bytes, type)
      → IsOriginal id w
      → bytes ≡ original
  same_original id w bytes type e h = cc

  get-go :
      (r : ResizeInput) (w : W) (p : Result (List ℕ) × W)
      → IsOriginal r.id w
      → a.objects.get (object_key r.id "original") w ≡ p
      → (k : String) → Changed r w (resize a r w).1 k
  unfolding resize
  get-go r w (ok bytes, v) h e k =
      let (type, found) = store.get_ok _ w v bytes e in
      rw (e, same_original r.id w bytes type found h)
        (earlier r w v _ k
          (ap (λ q. stored q.1 k) (sym e) ∙ store.get_same (object_key r.id "original") w k)
          (resize-go r v _ refl k))
  get-go r w (err x, v) h e k =
      rw e (inl (ap (λ q. stored q.1 k) (sym e) ∙ store.get_same (object_key r.id "original") w k))

  -- `Resize` changes no object but that of its key, and stores there only what the image service made of
  -- the original.
  pub resize-Changed :
      (r : ResizeInput) (w : W) → IsOriginal r.id w → (k : String) → Changed r w (resize a r w).1 k
  resize-Changed r w h k = get-go r w _ h refl k

  -- Where it succeeds it has done so.
  pub resize-IsResized :
      (r : ResizeInput) (w w' : W) → IsOriginal r.id w → resize a r w ≡ (ok tt, w') → IsResized r w'
  unfolding resize
  resize-IsResized r w w' h e =
      let got = bind-IsBound (a.objects.get (object_key r.id "original")) (resize_step r) w e in
      let (type, found) = store.get_ok _ w got.world got.value got.first in
      let same = same_original r.id w got.value type found h in
      let made =
        bind-IsBound (a.resize got.value r.width r.height)
          (λ resized. a.objects.put (object_key r.id r.name) resized r.content_type) got.world
          got.second in
      let key = object_key r.id r.name in
      record {
        bytes = made.value;
        before = got.world;
        after = made.world;
        made =
            subst (λ bytes. a.resize bytes r.width r.height got.world ≡ (ok made.value, made.world))
              same made.first;
        kept =
            store.put_ok key r.content_type made.value made.world w' made.second key
            ∙ if_true (key == key) _ _ (==_refl key);
      }
