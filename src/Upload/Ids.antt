-- ===== src/Upload/Ids.antt =====
-- The ids that `Negotiate` answers.
use mathlib.Core.Path.{subst}
use go_image_service.Base.{String, ◌<>◌, ◌≡◌, ok, M, ◌>>=◌, ◌>>◌, pure, annotate, len}
use go_image_service.Base.Inversion.{bind-IsBound}
use go_image_service.Id.{new_id}
use go_image_service.Id.Hex.{IsHex}
use go_image_service.Id.Shape.{IsRandom, new_id-shape}
use go_image_service.Upload.{Service, negotiate, presign_ttl}

module _ {W : Type 0} (s : Service W) (filename content_type user_id : String) where
  -- The steps that follow the drawing of the id.
  abbrev url_step : String → M W (String × String)
  url_step id = do
    url ← annotate "presign" (s.objects.presign (id <> "/original") "PUT" presign_ttl)
    pure (id, url)

  abbrev start_step : String → M W (String × String)
  start_step id = annotate "start workflow" (s.pipe.start id content_type filename) >> url_step id

  abbrev create_step : String → M W (String × String)
  create_step id =
      annotate "create metadata" (s.repo.create id filename content_type "pending" user_id)
      >> start_step id

  id-create_step :
      (id id' url : String) (w w' : W) → create_step id w ≡ (ok (id', url), w') → id ≡ id'
  id-create_step id id' url w w' e =
      let stored =
        bind-IsBound
          (annotate "create metadata" (s.repo.create id filename content_type "pending" user_id))
          (λ _. start_step id) w e in
      let begun =
        bind-IsBound (annotate "start workflow" (s.pipe.start id content_type filename))
          (λ _. url_step id) stored.world stored.second in
      let signed =
        bind-IsBound (annotate "presign" (s.objects.presign (id <> "/original") "PUT" presign_ttl))
          (λ url. pure (id, url)) begun.world begun.second in
      cc signed.second

  -- The id that a negotiation answers is 32 bytes long, as the handlers demand of an id, and written in
  -- `0-9a-f`, if the random source answers as many bytes as it is asked for.
  pub negotiate-IsHex :
      IsRandom s.rand_read
      → (id url : String) (w w' : W)
      → negotiate s filename content_type user_id w ≡ (ok (id, url), w')
      → (len id ≡ 32) × IsHex id
  unfolding negotiate
  negotiate-IsHex random id url w w' e =
      let drawn = bind-IsBound (new_id s.rand_read) create_step w e in
      let same = id-create_step drawn.value id url drawn.world w' drawn.second in
      let shape =
        new_id-shape s.rand_read random drawn.value drawn.value w drawn.world w drawn.world
          drawn.first drawn.first in
      subst (λ i. (len i ≡ 32) × IsHex i) same (shape.0, shape.1)
