-- ===== src/Cmd/Joined/Dialling.antt =====
-- What a main function gives to `client.Dial`, and when it ensures the bucket.
use go_image_service.Base.{
  Bool, true, false, ◌≡◌, ◌≢◌, refl, sym, ap, ◌∙◌, inl, inr, none, some, Result, ok, err, ◌==◌,
  string_eq, eq_of_==, ne_of_==, Bool-cases, if◌then◌else◌, pure, fail, catch, message, ◌<>◌,
  error_text,
}
use go_image_service.Base.Inversion.{bind-IsBound}
use go_image_service.Config.{Config}
use go_image_service.Storage.{Minio, MinioStore, ensure_bucket}
use go_image_service.TemporalClient.{ClientOptions, options}
use go_image_service.Cmd.Wiring.{ensured}

-- Without an API key, neither credentials nor TLS; with one, both.
pub data IsOptions (cfg : Config) (o : ClientOptions) : Type 0 where
  without_key :
      cfg.temporal_api_key ≡ ""
      → o ≡ record {
        host_port = cfg.temporal_address;
        namespace = cfg.temporal_namespace;
        credentials = none;
        tls = false;
      }
      → IsOptions cfg o
  with_key :
      cfg.temporal_api_key ≢ ""
      → o ≡ record {
        host_port = cfg.temporal_address;
        namespace = cfg.temporal_namespace;
        credentials = some cfg.temporal_api_key;
        tls = true;
      }
      → IsOptions cfg o

pub options-IsOptions : (cfg : Config) → IsOptions cfg (options cfg)
unfolding options
options-IsOptions cfg = elim (Bool-cases (cfg.temporal_api_key == "")) [
  | inl k ↦ without_key (eq_of_== cfg.temporal_api_key "" k) (rw (k) refl)
  | inr k ↦ with_key (ne_of_== cfg.temporal_api_key "" k) (rw (k) refl)
]

-- The bucket is looked up, and made where it is missing, only if the configuration asks for it.
pub data IsEnsured {W Client Object : Type 0} (m : Minio W Client Object) (cfg : Config)
    (store : MinioStore Client) (w w' : W) : Type 0 where
  not_asked : cfg.object_store_ensure_bucket ≡ false → w' ≡ w → IsEnsured m cfg store w w'
  there :
      cfg.object_store_ensure_bucket ≡ true
      → m.bucket_exists store.ops store.bucket w ≡ (ok true, w')
      → IsEnsured m cfg store w w'
  made :
      (v : W)
      → cfg.object_store_ensure_bucket ≡ true
      → m.bucket_exists store.ops store.bucket w ≡ (ok false, v)
      → m.make_bucket store.ops store.bucket v ≡ (ok tt, w')
      → IsEnsured m cfg store w w'

module _ {W Client Object : Type 0} (m : Minio W Client Object) (cfg : Config)
    (store : MinioStore Client) where
  world_eq : {w w' : W} → ◌≡◌ {A = Result (Unit {0}) × W} (ok tt, w) (ok tt, w') → w' ≡ w
  world_eq e = ap (λ p. p.1) (sym e)

  -- What was not fatal succeeded.
  succeeded :
      (r : Result (Unit {0}) × W) {w' : W}
      → catch {X = Result (Unit {0}) × W} r pure
          (λ e. fail (message ("ensure bucket: " <> error_text e)))
        ≡ (ok tt, w')
      → r ≡ (ok tt, w')
  succeeded (ok tt, _) e = e
  succeeded (err _, _) e = cc

  looked_up :
      (b : Bool) (w v w' : W)
      → cfg.object_store_ensure_bucket ≡ true
      → m.bucket_exists store.ops store.bucket w ≡ (ok b, v)
      → (if b then pure tt else m.make_bucket store.ops store.bucket) v ≡ (ok tt, w')
      → IsEnsured m cfg store w w'
  looked_up true w v w' k h e = there k (h ∙ ap (λ v. (ok true, v)) (sym (world_eq e)))
  looked_up false w v w' k h e = made v k h e

  -- An `ensured` that succeeds has done so.
  pub ensured-IsEnsured :
      (w w' : W) → ensured m cfg store w ≡ (ok tt, w') → IsEnsured m cfg store w w'
  unfolding ensure_bucket
  ensured-IsEnsured w w' e = elim (Bool-cases cfg.object_store_ensure_bucket) [
    | inl k ↦
        let b =
          bind-IsBound (m.bucket_exists store.ops store.bucket) _ w
            (succeeded (ensure_bucket m store w) (rw (k) at e)) in
        looked_up b.value w b.world w' k b.first b.second
    | inr k ↦ not_asked k (world_eq (rw (k) at e))
  ]
