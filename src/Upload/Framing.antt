-- ===== src/Upload/Framing.antt =====
-- What a negotiation leaves alone.
use go_image_service.Base.{String, ◌<>◌}
use go_image_service.Base.Keeps.{Keeps, bind-Keeps, annotate-Keeps, pure-Keeps}
use go_image_service.Id.Drawn.{new_id-Keeps}
use go_image_service.Upload.{Service, negotiate, presign_ttl}

module _ {W : Type 0} (s : Service W) {P : W → Type 0} where
  pub negotiate-Keeps :
      (filename content_type user_id : String)
      → Keeps P (s.rand_read 16)
      → ((id : String) → Keeps P (s.repo.create id filename content_type "pending" user_id))
      → ((id : String) → Keeps P (s.pipe.start id content_type filename))
      → ((key : String) → Keeps P (s.objects.presign key "PUT" presign_ttl))
      → Keeps P (negotiate s filename content_type user_id)
  unfolding negotiate
  negotiate-Keeps filename content_type user_id rand create start presign =
      bind-Keeps (new_id-Keeps s.rand_read rand) (λ id.
        bind-Keeps (annotate-Keeps "create metadata" (create id)) (λ _.
          bind-Keeps (annotate-Keeps "start workflow" (start id)) (λ _.
            bind-Keeps (annotate-Keeps "presign" (presign (id <> "/original")))
              (λ url. pure-Keeps (id, url)))))
