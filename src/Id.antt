-- ===== src/Id.antt =====
-- internal/id/id.go: new ids. `crypto/rand` is the argument `rand_read`; the hex encoding is that of
-- the standard library's `encoding/hex`.
pub mod Hex
pub mod Shape
pub mod Drawn
use go_image_service.Base.{ℕ, String, List, M, ◌>>=◌, pure}
use Hex.{hex_encode}

-- `id.New`: 16 random bytes in hex.
unfoldable pub new_id : {W : Type 0} → (ℕ → M W (List ℕ)) → M W String
new_id rand_read = do b ← rand_read 16; pure (hex_encode b)
