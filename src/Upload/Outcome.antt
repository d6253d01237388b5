-- ===== src/Upload/Outcome.antt =====
-- The outcomes of `Negotiate`: where it stops, and what was done by then.
use go_image_service.Base.{
  String, ◌<>◌, ◌≡◌, refl, Result, ok, err, Err, wrapped, M, ◌>>=◌, ◌>>◌, pure, annotate, catch,
}
use go_image_service.Id.{new_id}
use go_image_service.Upload.{Service, negotiate, presign_ttl}

module _ {W : Type 0} (s : Service W) (filename content_type user_id : String) (w : W) where
  -- The id was drawn, and its row was stored as pending.
  pub record IsPending (id : String) (pending_world : W) : Type 0 where
    pub drawn_world : W
    pub drawn : new_id s.rand_read w ≡ (ok id, drawn_world)
    pub stored :
        s.repo.create id filename content_type "pending" user_id drawn_world
        ≡ (ok tt, pending_world)

  -- Then the workflow was started.
  pub record IsStarted (id : String) (started_world : W) : Type 0 where
    pub pending_world : W
    pub pending : IsPending id pending_world
    pub started : s.pipe.start id content_type filename pending_world ≡ (ok tt, started_world)

  pub data NegotiateOutcome : Result (String × String) × W → Type 0 where
    no_id : (e : Err) (w' : W) → new_id s.rand_read w ≡ (err e, w') → NegotiateOutcome (err e, w')
    no_row :
        (id : String) (e : Err) (drawn_world w' : W)
        → new_id s.rand_read w ≡ (ok id, drawn_world)
        → s.repo.create id filename content_type "pending" user_id drawn_world ≡ (err e, w')
        → NegotiateOutcome (err (wrapped "create metadata" e), w')
    no_workflow :
        (id : String) (e : Err) (pending_world w' : W)
        → IsPending id pending_world
        → s.pipe.start id content_type filename pending_world ≡ (err e, w')
        → NegotiateOutcome (err (wrapped "start workflow" e), w')
    no_url :
        (id : String) (e : Err) (started_world w' : W)
        → IsStarted id started_world
        → s.objects.presign (id <> "/original") "PUT" presign_ttl started_world ≡ (err e, w')
        → NegotiateOutcome (err (wrapped "presign" e), w')
    negotiated :
        (id url : String) (started_world w' : W)
        → IsStarted id started_world
        → s.objects.presign (id <> "/original") "PUT" presign_ttl started_world ≡ (ok url, w')
        → NegotiateOutcome (ok (id, url), w')

  abbrev then_url : String → M W (String × String)
  then_url id = do
    url ← annotate "presign" (s.objects.presign (id <> "/original") "PUT" presign_ttl)
    pure (id, url)

  abbrev then_start : String → M W (String × String)
  then_start id = do annotate "start workflow" (s.pipe.start id content_type filename); then_url id

  abbrev then_create : String → M W (String × String)
  then_create id = do
    annotate "create metadata" (s.repo.create id filename content_type "pending" user_id)
    then_start id

  url-go :
      (id : String) (v : W) (r : Result String × W)
      → IsStarted id v
      → s.objects.presign (id <> "/original") "PUT" presign_ttl v ≡ r
      → NegotiateOutcome (then_url id v)
  url-go id v (ok url, w') h e = rw e (negotiated id url v w' h e)
  url-go id v (err x, w') h e = rw e (no_url id x v w' h e)

  start-go :
      (id : String) (v : W) (r : Result (Unit {0}) × W)
      → IsPending id v
      → s.pipe.start id content_type filename v ≡ r
      → NegotiateOutcome (then_start id v)
  start-go id v (ok _, w') h e =
      rw e (url-go id w' _ (record { pending_world = v; pending = h; started = e }) refl)
  start-go id v (err x, w') h e = rw e (no_workflow id x v w' h e)

  create-go :
      (id : String) (v : W) (r : Result (Unit {0}) × W)
      → new_id s.rand_read w ≡ (ok id, v)
      → s.repo.create id filename content_type "pending" user_id v ≡ r
      → NegotiateOutcome (then_create id v)
  create-go id v (ok _, w') h e =
      rw e (start-go id w' _ (record { drawn_world = v; drawn = h; stored = e }) refl)
  create-go id v (err x, w') h e = rw e (no_row id x v w' h e)

  id-go :
      (r : Result String × W)
      → new_id s.rand_read w ≡ r
      → NegotiateOutcome (catch r then_create (λ e v. (err e, v)))
  id-go (ok id, v) e = create-go id v _ e refl
  id-go (err x, v) e = no_id x v e

  -- A negotiation draws an id, stores a pending row, starts the workflow and presigns a PUT of
  -- `{id}/original` for fifteen minutes, in this order; it stops at the first step that fails, with
  -- that step's error, and the earlier steps stay done.
  pub negotiate-NegotiateOutcome : NegotiateOutcome (negotiate s filename content_type user_id w)
  negotiate-NegotiateOutcome = unfold negotiate in id-go (new_id s.rand_read w) refl
