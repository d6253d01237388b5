-- ===== src/Storage/Endpoints.antt =====
-- Which of the two minio clients each operation of a `MinioStore` uses.
use mathlib.Core.Path.{subst}
use go_image_service.Base.{
  ℕ, String, Bool, ◌≡◌, ◌≢◌, Err, refl, List, string_eq, Result, ok, err, ◌>>=◌, length,
}
use go_image_service.Storage.{
  Options, Minio, MinioStore, whole, new_minio_store, with_ops, presign, get, put, head, delete,
}

module _ {W Client Object : Type 0} (m : Minio W Client Object)
    (internal_endpoint public_endpoint access_key secret_key bucket : String) (use_ssl : Bool) where
  abbrev pub opts : Options
  opts = record {
    access_key = access_key;
    secret_key = secret_key;
    secure = use_ssl;
    region = "us-east-1";
  }

  -- A client of the internal endpoint that works on the objects, and a client of the public endpoint
  -- that presigns, both for the bucket.
  pub record IsSplit (store : MinioStore Client) : Type 0 where
    pub ops : Client
    pub presigner : Client
    pub internal : m.new_client internal_endpoint opts ≡ ok ops
    pub public : m.new_client public_endpoint opts ≡ ok presigner
    pub presign-put :
        (key : String) (ttl : ℕ) (w : W)
        → presign m store key "PUT" ttl w ≡ m.presigned_put_object presigner bucket key ttl w
    pub presign-get :
        (key : String) (ttl : ℕ) (w : W)
        → presign m store key "GET" ttl w ≡ m.presigned_get_object presigner bucket key ttl w
    pub get-ops :
        (key : String) (w : W)
        → get m store key w ≡ (m.get_object ops bucket key whole >>= m.read_all) w
    pub put-ops :
        (key content_type : String) (content : List ℕ) (w : W)
        → put m store key content content_type w
          ≡ m.put_object ops bucket key content (length content) content_type w
    pub head-ops : (key : String) (w : W) → head m store key w ≡ m.stat_object ops bucket key w
    pub delete-ops :
        (key : String) (w : W) → delete m store key w ≡ m.remove_object ops bucket key w

  abbrev built : Client → Client → MinioStore Client
  built o p = record { ops = o; presigner = p; bucket = bucket }

  built-IsSplit :
      (o p : Client)
      → m.new_client internal_endpoint opts ≡ ok o
      → m.new_client public_endpoint opts ≡ ok p
      → IsSplit (built o p)
  unfolding presign get put head delete string_eq
  built-IsSplit o p i e = record {
    ops = o;
    presigner = p;
    internal = i;
    public = e;
    presign-put = λ _ _ _. refl;
    presign-get = λ _ _ _. refl;
    get-ops = λ _ _. refl;
    put-ops = λ _ _ _ _. refl;
    head-ops = λ _ _. refl;
    delete-ops = λ _ _. refl;
  }

  ok_inj : (s t : MinioStore Client) → ◌≡◌ {A = Result (MinioStore Client)} (ok s) (ok t) → s ≡ t
  ok_inj s t e = cc

  err_ne_ok :
      (x : Err) (t : MinioStore Client) → ◌≢◌ {A = Result (MinioStore Client)} (err x) (ok t)
  err_ne_ok x t e = cc

  public-go :
      (o : Client) (r : Result Client) (store : MinioStore Client)
      → m.new_client internal_endpoint opts ≡ ok o
      → m.new_client public_endpoint opts ≡ r
      → with_ops m public_endpoint bucket opts o ≡ ok store
      → IsSplit store
  public-go o (ok p) store i q e =
      subst IsSplit (ok_inj _ _ (rw (q, with_ops) at e)) (built-IsSplit o p i q)
  public-go o (err x) store i q e = absurd (err_ne_ok x store (rw (q, with_ops) at e))

  internal-go :
      (r : Result Client) (store : MinioStore Client)
      → m.new_client internal_endpoint opts ≡ r
      → new_minio_store m internal_endpoint public_endpoint access_key secret_key bucket use_ssl
        ≡ ok store
      → IsSplit store
  unfolding new_minio_store
  internal-go (ok o) store i e = public-go o _ store i refl (rw (i, new_minio_store) at e)
  internal-go (err x) store i e = absurd (err_ne_ok x store (rw (i, new_minio_store) at e))

  -- A store that was made reads, writes, inspects and deletes objects of its bucket through a client of
  -- the internal endpoint only, and presigns for the bucket through a client of the public endpoint only, which
  -- clients have the same credentials and region.
  pub new_minio_store-IsSplit :
      (store : MinioStore Client)
      → new_minio_store m internal_endpoint public_endpoint access_key secret_key bucket use_ssl
        ≡ ok store
      → IsSplit store
  new_minio_store-IsSplit store e = internal-go _ store refl e
