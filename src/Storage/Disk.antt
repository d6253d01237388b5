-- ===== src/Storage/Disk.antt =====
-- internal/storage/storage.go: images under a root directory on disk. The calls of os and filepath are
-- the interface `Files`.
use go_image_service.Base.{
  ℕ, String, ◌<>◌, List, [], ◌∷◌, sentinel, image_not_found, M, ◌>>=◌, ◌>>◌, pure, fail,
}

-- `filepath.Join` and `filepath.Glob`, `os.MkdirAll`, `os.WriteFile` and `os.ReadFile`.
pub record Files (W : Type 0) : Type 0 where
  pub join : List String → String
  pub glob : String → M W (List String)
  pub mkdir_all : String → M W (Unit {0})
  pub write_file : String → List ℕ → M W (Unit {0})
  pub read_file : String → M W (List ℕ)

-- `Store`
pub record DiskStore : Type 0 where
  pub root : String

module _ {W : Type 0} (f : Files W) where
  -- `New`
  unfoldable pub new_disk_store : String → M W DiskStore
  new_disk_store root = do f.mkdir_all root; pure (record { root = root })

  abbrev first_match : List String → M W String
  first_match [] = fail (sentinel image_not_found)
  first_match (p ∷ _) = pure p

  module _ (s : DiskStore) where
    -- `Save`
    unfoldable pub save : String → String → String → List ℕ → M W (Unit {0})
    save id name ext content =
        let dir = f.join (s.root ∷ id ∷ []) in
        f.mkdir_all dir >> f.write_file (f.join (dir ∷ (name <> ext) ∷ [])) content

    -- `Read`
    unfoldable pub read : String → String → String → M W (List ℕ)
    read id name ext = f.read_file (f.join (s.root ∷ id ∷ (name <> ext) ∷ []))

    -- `Path`
    unfoldable pub path : String → String → M W String
    path id size = f.glob (f.join (s.root ∷ id ∷ (size <> ".*") ∷ [])) >>= first_match
