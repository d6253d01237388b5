-- ===== src/Id/Shape.antt =====
-- What a new id looks like.
use go_image_service.Base.{
  ℕ, ◌<◌, String, ◌≡◌, ap, ◌∙◌, List, All, ok, M, pure, len, length, sym, ◌*◌,
}
use go_image_service.Base.Inversion.{bind-IsBound}
use go_image_service.Id.{new_id}
use go_image_service.Id.Hex.{hex_encode, IsHex, hex_encode-IsHex, len-hex_encode, hex_encode_inj}

-- `crypto/rand` fills the buffer with bytes.
pub record IsRandom {W : Type 0} (rand_read : ℕ → M W (List ℕ)) : Type 0 where
  pub length-read : (n : ℕ) (w w' : W) (bs : List ℕ) → rand_read n w ≡ (ok bs, w') → length bs ≡ n
  pub bytes : (n : ℕ) (w w' : W) (bs : List ℕ) → rand_read n w ≡ (ok bs, w') → All (λ b. b < 256) bs

module _ {W : Type 0} (rand_read : ℕ → M W (List ℕ)) (random : IsRandom rand_read) where
  -- The bytes of an id.
  pub record IsId (id : String) (w w' : W) : Type 0 where
    pub drawn : List ℕ
    pub read : rand_read 16 w ≡ (ok drawn, w')
    pub encoded : id ≡ hex_encode drawn

  pub new_id-IsId : {id : String} {w w' : W} → new_id rand_read w ≡ (ok id, w') → IsId id w w'
  unfolding new_id
  new_id-IsId {w} e =
      let parts = bind-IsBound (rand_read 16) (λ b. pure (hex_encode b)) w e in
      record {
        drawn = parts.value;
        read = cc (parts.first, parts.second);
        encoded = cc parts.second;
      }

  -- A new id is 32 bytes long, as the handlers demand of every id, and written in `0-9a-f`; two ids
  -- are equal only if the same 16 bytes were drawn. The random source is assumed to answer as many bytes as it is
  -- asked for.
  pub new_id-shape :
      (id id' : String) (v v' w w' : W)
      → new_id rand_read v ≡ (ok id, v')
      → new_id rand_read w ≡ (ok id', w')
      → (len id ≡ 32) × IsHex id × (id ≡ id' → (rand_read 16 v).0 ≡ (rand_read 16 w).0)
  new_id-shape id id' v v' w w' p q =
      let a = new_id-IsId p in
      let b = new_id-IsId q in
      let bytes = random.bytes 16 v v' a.drawn a.read in
      (
        rw a.encoded (
            len-hex_encode a.drawn bytes
            ∙ ap (λ n. 2 * n) (random.length-read 16 v v' a.drawn a.read)),
        rw a.encoded (hex_encode-IsHex a.drawn bytes),
        λ same. cc (
          a.read,
          b.read,
          hex_encode_inj a.drawn b.drawn bytes (random.bytes 16 w w' b.drawn b.read)
              (sym a.encoded ∙ same ∙ b.encoded),
        ),
      )
