-- ===== src/Transport/Framing.antt =====
-- What every request leaves alone: a property of the world that the services keep is kept by the server.
use go_image_service.Base.{
  ◌<>◌, String, ◌≡◌, ◌≢◌, inl, inr, ◌==◌, string_eq, nat_eq, len, Bool-cases, Result, ok, err,
  errors_is, invalid_credentials, ◌||◌, ltb, rune_count,
}
use go_image_service.Base.Keeps.{Keeps, ended}
use go_image_service.Transport.Http.{Request, Writer, get_value}
use go_image_service.Transport.Server.{Server, Credentials}
use go_image_service.Transport.Handlers.{
  Handler, with_body, when_owner, health, register, registered, login, logged_in, login_failed,
  complete_upload, images, serve_object, list_images, image_status, require_owner, caller_id,
  is_image_size,
}
use go_image_service.Transport.Creation.{IsImageType}

module _ {W : Type 0} (s : Server W) where
  -- The auth service names the user for some token.
  pub record IsUser (user_id : String) : Type 0 where
    pub token : String
    pub before : W
    pub after : W
    pub accepted : s.auth.verify token before ≡ (ok user_id, after)

  module _ (P : W → Type 0) where
    -- What the calls of the handlers keep. An upload is negotiated for a user, with a file name and
    -- an image type.
    pub record IsServing : Type 0 where
      pub register-Keeps : (email password : String) → Keeps P (s.auth.register email password)
      pub login-Keeps : (email password : String) → Keeps P (s.auth.login email password)
      pub verify-Keeps : (token : String) → Keeps P (s.auth.verify token)
      pub negotiate-Keeps :
          (filename content_type user_id : String)
          → filename ≢ ""
          → IsImageType content_type
          → IsUser user_id
          → Keeps P (s.uploads.negotiate filename content_type user_id)
      pub complete-Keeps : (id : String) → Keeps P (s.uploads.complete id)
      pub get-Keeps : (id : String) → Keeps P (s.reads.get id)
      pub list-Keeps : (user_id : String) → Keeps P (s.reads.list user_id)
      pub object-Keeps : (key : String) → Keeps P (s.objects.get key)

    pub record IsKept (h : Handler W) : Type 0 where
      pub at : (r : Request) (w : Writer) (world : W) → P world → P (h r w world).1

    module _ (k : IsServing) where
      pub health-IsKept : IsKept (health s)
      unfolding health
      health-IsKept = record { at = λ r w world h. h }

      logged_in-IsKept : (req : Credentials) → IsKept (logged_in s req)
      unfolding logged_in login_failed
      logged_in-IsKept req = record {
        at = λ r w world h.
            ended (P (logged_in s req r w world).1) (k.login-Keeps req.email req.password) world h
              (λ token v e p. rw e p)
              (λ x v e p. elim (Bool-cases (errors_is x invalid_credentials)) [
                | inl b ↦ rw (e, b) p
                | inr b ↦ rw (e, b) p
              ]);
      }

      registered-IsKept : (req : Credentials) → IsKept (registered s req)
      unfolding registered
      registered-IsKept req = record {
        at = λ r w world h. elim (Bool-cases (req.email == "" || req.password == "")) [
          | inl b ↦ rw b h
          | inr b ↦ elim (Bool-cases (ltb (rune_count req.password) 8)) [
            | inl c ↦ rw (b, c) h
            | inr c ↦
                ended (P (registered s req r w world).1) (k.register-Keeps req.email req.password)
                  world h (λ id v e p. rw (b, c, e) p) (λ x v e p. rw (b, c, e) p)
          ]
        ];
      }

      body-IsKept :
          {A : Type 0} (decoded : Result A) (next : A → Handler W)
          → ((req : A) → IsKept (next req))
          → (r : Request) (w : Writer) (world : W) → P world
          → P (with_body decoded next r w world).1
      body-IsKept (ok req) next kept r w world h = (kept req).at r w world h
      body-IsKept (err _) next kept r w world h = h

      pub register-IsKept : IsKept (register s)
      unfolding register
      register-IsKept = record {
        at = λ r. body-IsKept (s.decode.credentials r.body) (registered s) registered-IsKept r;
      }

      pub login-IsKept : IsKept (login s)
      unfolding login
      login-IsKept = record {
        at = λ r. body-IsKept (s.decode.credentials r.body) (logged_in s) logged_in-IsKept r;
      }

      -- `require_owner` and what follows for the owner.
      owner-IsKept :
          (next : String → String → Writer → W → Writer × W)
          → ((st ct : String) (w : Writer) (world : W) → P world → P (next st ct w world).1)
          → (r : Request) (w : Writer) (world : W) → P world
          → P (when_owner (require_owner s r w r.path_id world) next).1
      unfolding require_owner
      owner-IsKept next kept r w world h =
          ended (P (when_owner (require_owner s r w r.path_id world) next).1)
            (k.get-Keeps r.path_id) world h
            (λ (st, owner, ct) v e p. elim (Bool-cases (owner == caller_id r)) [
              | inl own ↦ rw (e, own) (kept st ct w v p)
              | inr other ↦ rw (e, other) p
            ])
            (λ x v e p. rw e p)

      pub complete_upload-IsKept : IsKept (complete_upload s)
      unfolding complete_upload
      complete_upload-IsKept = record {
        at = λ r w world h. elim (Bool-cases (len r.path_id == 32)) [
          | inr b ↦ rw b h
          | inl b ↦ rw b (
              owner-IsKept _
                (λ st ct w v p.
                  ended _ (k.complete-Keeps r.path_id) v p (λ _ v' e q. rw e q)
                    (λ x v' e q. rw e q))
                r w world h)
        ];
      }

      serve_object-IsKept :
          (r : Request) (ct : String) (w : Writer) (world : W)
          → P world
          → P (serve_object s r ct w world).1
      unfolding serve_object
      serve_object-IsKept r ct w world h =
          elim (Bool-cases (is_image_size (get_value "size" r.query))) [
            | inr b ↦ rw b h
            | inl b ↦
                ended (P (serve_object s r ct w world).1)
                  (k.object-Keeps (r.path_id <> "/" <> get_value "size" r.query)) world h
                  (λ content v e p. rw (b, e) p) (λ x v e p. rw (b, e) p)
          ]

      pub images-IsKept : IsKept (images s)
      unfolding images
      images-IsKept = record {
        at = λ r w world h. elim (Bool-cases (len r.path_id == 32)) [
          | inr b ↦ rw b h
          | inl b ↦ rw b (
              owner-IsKept (λ st ct w world. serve_object s r ct w world)
                (λ st ct w v p. serve_object-IsKept r ct w v p) r w world h)
        ];
      }

      pub image_status-IsKept : IsKept (image_status s)
      unfolding image_status
      image_status-IsKept = record {
        at = λ r w world h. elim (Bool-cases (len r.path_id == 32)) [
          | inr b ↦ rw b h
          | inl b ↦ rw b (owner-IsKept _ (λ st ct w v p. p) r w world h)
        ];
      }

      pub list_images-IsKept : IsKept (list_images s)
      unfolding list_images
      list_images-IsKept = record {
        at = λ r w world h.
            ended (P (list_images s r w world).1) (k.list-Keeps (caller_id r)) world h
              (λ us v e p. rw e p) (λ x v e p. rw e p);
      }
