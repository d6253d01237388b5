-- ===== src/Cmd/Listed.antt =====
-- The HTTP server over its real components: the list that it answers is that of the table.
use mathlib.Core.Path.{subst, ap₂}
use go_image_service.Base.{
  String, ◌≡◌, refl, sym, ap, ◌∙◌, List, [], ◌∷◌, map, some, none, Result, ok, catch, arith,
}
use go_image_service.Config.{Config}
use go_image_service.Postgres.{Postgres}
use go_image_service.Metadata.{Upload, list}
use go_image_service.Metadata.Table.{
  Row, Table, IsTable, IsListing, ListSpec, listed, unavailable, upload_of,
}
use go_image_service.Metadata.Refinement.{list-ListSpec}
use go_image_service.Transport.Http.{
  Request, Writer, fresh, get_value, write_json, list_images_response, http_error,
}
use go_image_service.Transport.Server.{Server}
use go_image_service.Transport.Handlers.{Handler, list_images, summaries}
use go_image_service.Transport.Middleware.{allow_origin}
use go_image_service.Transport.Mux.{find_route}
use go_image_service.Transport.Routes.{routes}
use go_image_service.Transport.Routing.{find_route-fixed}
use go_image_service.Transport.Admission.{IsAdmitted, serve-IsAdmitted}
use go_image_service.Transport.Disclosure.{get_ne_options}
use go_image_service.Transport.Status.{http_error-ne, status-allow_origin}
use go_image_service.Cmd.HttpServer.{Libraries, server_of, main}
use go_image_service.Cmd.Startup.{IsUp, main-IsUp}
use go_image_service.Cmd.Caller.{IsCaller, IsVerified-IsCaller}

summaries-eq : (us : List Upload) → summaries us ≡ us
unfolding summaries
summaries-eq [] = refl
summaries-eq (u ∷ us) = ap (λ us. u ∷ us) (summaries-eq us)

module _ {W Source Conn Client Object : Type 0} (lib : Libraries W Source Conn Client Object)
    (cfg : Config) (find : W → Table) (r : Request) (world : W) where
  -- The answer lists the rows of the table that belong to the caller.
  pub record IsListed (result : Writer × W) : Type 0 where
    pub user_id : String
    pub verified_world : W
    pub caller : IsCaller lib cfg r world user_id verified_world
    pub rows : List Row
    pub listing : IsListing (find verified_world) user_id rows
    pub read_world : W
    pub response : result ≡ (
      write_json 200
          (list_images_response (map upload_of rows))
          (allow_origin (get_value "Origin" r.headers) cfg.cors_allowed_origins fresh),
      read_world,
    )

  list-go :
      (t : Table) (user_id : String) (w : Writer) (v : W) {result : Result (List Upload)}
      → w.status ≡ none
      → ListSpec t user_id result
      → (catch {X = Writer × W}
          (result, v)
          (λ uploads world. (write_json 200 (list_images_response (summaries uploads)) w, world))
          (λ _ world. (http_error "could not list images" 500 w, world))).0.status
        ≡ some 200
      → (rows : List Row) × IsListing t user_id rows
        × (catch {X = Writer × W}
              (result, v)
              (λ uploads world.
                (write_json 200 (list_images_response (summaries uploads)) w, world))
              (λ _ world. (http_error "could not list images" 500 w, world))
            ≡ (write_json 200 (list_images_response (map upload_of rows)) w, v))
  list-go t user_id w v unsent (listed rows h) e = (
    rows,
    h,
    ap (λ us. (write_json 200 (list_images_response us) w, v)) (summaries-eq (map upload_of rows)),
  )
  list-go t user_id w v unsent (unavailable x) e =
      absurd (http_error-ne "could not list images" 500 200 w unsent (omega arith) e)

  module _ (web : Handler W) (w w' : W) (addr : String) (handler : Handler W)
      (up : IsUp lib web cfg w addr handler w') (table : IsTable up.pool find) where
    abbrev server : Server W
    server = server_of lib cfg up.temporal up.rpc up.pool up.objects

    admitted-IsListed :
        {result : Writer × W}
        → IsAdmitted server web cfg.cors_allowed_origins r world (list_images server) result
        → result.0.status ≡ some 200
        → IsListed result
    unfolding list_images
    admitted-IsListed h e =
        let writer = allow_origin (get_value "Origin" r.headers) cfg.cors_allowed_origins fresh in
        let (rows, listing, response) =
          list-go (find h.verified_world) h.user_id writer _
            (status-allow_origin _ cfg.cors_allowed_origins fresh)
            (list-ListSpec up.pool find table h.verified_world h.user_id)
            (sym (ap (λ (p : Writer × W). p.0.status) h.answer) ∙ e) in
        record {
          user_id = h.user_id;
          verified_world = h.verified_world;
          caller = IsVerified-IsCaller lib cfg r world web w w' addr handler up h.verified;
          rows = rows;
          listing = listing;
          read_world = (list up.pool h.user_id h.verified_world).1;
          response = h.answer ∙ response;
        }

  -- Whatever handler `main` comes up with: its `GET /images` answers 200 only to a user whom the
  -- auth service names for the token, and then with the rows of the uploads table that belong to
  -- this user, all of them and each once, the newest first. The pool is assumed to do to the table
  -- what its statements say.
  pub main-IsListed :
      (web : Handler W) (w w' : W) (addr : String) (handler : Handler W)
      → main lib web cfg w ≡ (ok (addr, handler), w')
      → ((pool : Postgres W) (v v' : W)
          → lib.pool_new cfg.database_url v ≡ (ok pool, v')
          → IsTable pool find)
      → r.method ≡ "GET"
      → r.segments ≡ "images" ∷ []
      → (handler r fresh world).0.status ≡ some 200
      → IsListed (handler r fresh world)
  main-IsListed web w w' addr handler h tables get path e =
      let up = main-IsUp lib web cfg w h in
      let s = server_of lib cfg up.temporal up.rpc up.pool up.objects in
      let same = ap (λ (h : Handler W). h r fresh world) up.same_handler in
      let e' = ap (λ (p : Writer × W). p.0.status) (sym same) ∙ e in
      let found =
        ap₂ (λ m p. find_route m p (routes s web)) get path ∙ (find_route-fixed s web).4 in
      let d =
        serve-IsAdmitted s web cfg.cors_allowed_origins r world (list_images s) 200 (omega arith)
          (λ o. get_ne_options (sym get ∙ o)) found e' in
      subst IsListed (sym same) (
        admitted-IsListed web w w' addr handler up
          (tables up.pool up.dialled_world up.pool_world up.connected) d e')
