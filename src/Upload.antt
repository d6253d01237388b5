-- ===== src/Upload.antt =====
-- internal/upload/upload.go: negotiating an upload, and passing its completion on.
pub mod Outcome
pub mod Ids
pub mod Framing
use go_image_service.Base.{
  ℕ, ◌*◌, String, ◌<>◌, List, M, ◌>>=◌, ◌>>◌, pure, annotate, Result, ok, err, catch, wrapped,
}
use go_image_service.Id.{new_id}

-- `presignTTL`: fifteen minutes, in seconds.
abbrev pub presign_ttl : ℕ
presign_ttl = 15 * 60

-- `PresignTTLSeconds`
abbrev pub presign_ttl_seconds : ℕ
presign_ttl_seconds = presign_ttl

-- `Repository`: id, file name, content type, status, user id.
pub record Repository (W : Type 0) : Type 0 where
  pub create : String → String → String → String → String → M W (Unit {0})

-- `Presigner`
pub record Presigner (W : Type 0) : Type 0 where
  pub presign : String → String → ℕ → M W String

-- `Pipeline`: `start` takes the id, the content type and the file name.
pub record Pipeline (W : Type 0) : Type 0 where
  pub start : String → String → String → M W (Unit {0})
  pub signal : String → M W (Unit {0})

-- `Service`, with the source of random bytes that `id.New` reads.
pub record Service (W : Type 0) : Type 0 where
  pub repo : Repository W
  pub objects : Presigner W
  pub pipe : Pipeline W
  pub rand_read : ℕ → M W (List ℕ)

module _ {W : Type 0} (s : Service W) where
  -- `Negotiate`
  unfoldable pub negotiate : String → String → String → M W (String × String)
  unfolding new_id
  negotiate filename content_type user_id = do
    id ← new_id s.rand_read
    annotate "create metadata" (s.repo.create id filename content_type "pending" user_id)
    annotate "start workflow" (s.pipe.start id content_type filename)
    url ← annotate "presign" (s.objects.presign (id <> "/original") "PUT" presign_ttl)
    pure (id, url)

  -- `Complete`
  unfoldable pub complete : String → M W (Unit {0})
  complete id = s.pipe.signal id
