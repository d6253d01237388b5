-- ===== src/Pipeline/Activities/Validated.antt =====
-- The outcomes of `Validate`.
use go_image_service.Base.{
  ℕ, ◌<◌, ◌≤◌, String, ◌≡◌, refl, inl, inr, List, Option, none, some, arith, ltb, Bool-cases,
  Result, ok, err, Err, non_retryable, catch, fail,
}
use go_image_service.Metadata.{update_status}
use go_image_service.Pipeline.Activities.{
  Activities, ValidateInput, object_key, image_type, max_image_bytes, reject, check_size,
  check_type, validate,
}
use go_image_service.Pipeline.Activities.Signature.{IsImage, image_type-some, image_type-none}

module _ {W : Type 0} (a : Activities W) (i : ValidateInput) where
  abbrev pub original : String
  original = object_key i.id "original"

  -- The first bytes of the object, read once the row is marked as validating.
  pub record IsRead (w : W) (bytes : List ℕ) (read_world : W) : Type 0 where
    pub marked_world : W
    pub marked : update_status a.repo i.id "validating" w ≡ (ok tt, marked_world)
    pub read : a.objects.get_first_n_bytes original 512 marked_world ≡ (ok bytes, read_world)

  -- An image by its first bytes, and the size that the store knows.
  pub record IsSized (w : W) (size : ℕ) (sized_world : W) : Type 0 where
    pub bytes : List ℕ
    pub read_world : W
    pub first : IsRead w bytes read_world
    pub image : IsImage bytes
    pub stored_type : String
    pub sized : a.objects.head original read_world ≡ (ok (size, stored_type), sized_world)

  -- Where the calls lead that delete the object and then mark the row as rejected. Their errors are dropped.
  abbrev pub rejected_world : W → W
  rejected_world w = (update_status a.repo i.id "rejected" (a.objects.delete original w).1).1

  pub data ValidateOutcome (w : W) : Result (Unit {0}) × W → Type 0 where
    unmarked :
        (e : Err) (w' : W)
        → update_status a.repo i.id "validating" w ≡ (err e, w')
        → ValidateOutcome w (err e, w')
    unread :
        (e : Err) (v w' : W)
        → update_status a.repo i.id "validating" w ≡ (ok tt, v)
        → a.objects.get_first_n_bytes original 512 v ≡ (err e, w')
        → ValidateOutcome w (err e, w')
    no_image :
        (bytes : List ℕ) (v : W)
        → IsRead w bytes v
        → ¬ IsImage bytes
        → ValidateOutcome w
            (err (non_retryable "unsupported content type" "rejected"), rejected_world v)
    unsized :
        (bytes : List ℕ) (e : Err) (v w' : W)
        → IsRead w bytes v
        → IsImage bytes
        → a.objects.head original v ≡ (err e, w')
        → ValidateOutcome w (err e, w')
    too_large :
        (size : ℕ) (v : W)
        → IsSized w size v
        → 209715200 < size
        → ValidateOutcome w (err (non_retryable "image too large" "rejected"), rejected_world v)
    valid :
        (size : ℕ) (w' : W) → IsSized w size w' → size ≤ 209715200 → ValidateOutcome w (ok tt, w')

  size-go :
      (w v : W) (size : ℕ) (stored_type : String)
      → IsSized w size v
      → ValidateOutcome w (check_size a i.id (size, stored_type) v)
  unfolding check_size reject
  size-go w v size stored_type h = elim (Bool-cases (ltb max_image_bytes size)) [
    | inl big ↦ rw big (too_large size v h (ground arith))
    | inr small ↦ rw small (valid size v h (ground arith))
  ]

  head-go :
      (w v : W) (bytes : List ℕ) (type : String) (r : Result (ℕ × String) × W)
      → IsRead w bytes v
      → IsImage bytes
      → a.objects.head original v ≡ r
      → ValidateOutcome w (check_type a i.id (some type) v)
  unfolding check_type
  head-go w v bytes type (ok (size, stored_type), w') h image e = rw e (
      size-go w w' size stored_type (record {
        bytes = bytes;
        read_world = v;
        first = h;
        image = image;
        stored_type = stored_type;
        sized = e;
      }))
  head-go w v bytes type (err x, w') h image e = rw e (unsized bytes x v w' h image e)

  type-go :
      (w v : W) (bytes : List ℕ) (sniffed : Option String)
      → IsRead w bytes v
      → image_type bytes ≡ sniffed
      → ValidateOutcome w (check_type a i.id sniffed v)
  type-go w v bytes none h e =
      unfold check_type reject in no_image bytes v h (image_type-none bytes e)
  type-go w v bytes (some type) h e = head-go w v bytes type _ h (image_type-some bytes type e) refl

  read-go :
      (w v : W) (r : Result (List ℕ) × W)
      → update_status a.repo i.id "validating" w ≡ (ok tt, v)
      → a.objects.get_first_n_bytes original 512 v ≡ r
      → ValidateOutcome w (catch r (λ sniff w. check_type a i.id (image_type sniff) w) fail)
  read-go w v (ok bytes, w') m e =
      type-go w w' bytes _ (record { marked_world = v; marked = m; read = e }) refl
  read-go w v (err x, w') m e = unread x v w' m e

  mark-go :
      (w : W) (r : Result (Unit {0}) × W)
      → update_status a.repo i.id "validating" w ≡ r
      → ValidateOutcome w (
          catch r
            (λ _ w.
              catch
                (a.objects.get_first_n_bytes original 512 w)
                (λ sniff w. check_type a i.id (image_type sniff) w)
                fail)
            fail)
  mark-go w (ok _, v) e = read-go w v _ e refl
  mark-go w (err x, v) e = unmarked x v e

  -- A validation succeeds only for an object that starts with the three bytes of a JPEG or the eight bytes of
  -- a PNG image and whose size is at most 200 MB (209715200 bytes). For other first bytes or a
  -- larger size it calls for the deletion of the object and then for the mark of the row as rejected, drops the
  -- errors of these two calls, and answers an error that is not retried. Where the first mark, the
  -- read or the lookup of the size fails, it answers that error and makes no further call.
  pub validate-ValidateOutcome : (w : W) → ValidateOutcome w (validate a i w)
  validate-ValidateOutcome w =
      unfold validate in mark-go w (update_status a.repo i.id "validating" w) refl
