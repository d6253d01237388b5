-- ===== src/Cmd/Signup.antt =====
-- The HTTP server and the auth service together: from a registration to the list of one's images.
use mathlib.Core.Path.{subst}
use go_image_service.Base.{
  ◌+◌, ◌<◌, String, ◌<>◌, ◌≡◌, sym, ap, ◌∙◌, List, [], ◌∷◌, map, some, Result, ok, M, sentinel,
  invalid_credentials, if◌then◌else◌, is_unauthenticated, status_code,
}
use text.Mathlib.TextLemmas.{append_cancel_left}
use go_image_service.Base.Inversion.{catch-pure}
use go_image_service.Config.{Config}
use go_image_service.Postgres.{Postgres}
use go_image_service.Metadata.Table.{Row, Table, IsTable, IsListing, upload_of}
use go_image_service.User.Table.{Users}
use go_image_service.Auth.{Method, Crypto, token_ttl}
use go_image_service.Auth.Tokens.{IsCrypto}
use go_image_service.AuthGrpc.{AuthService, client_register, client_login, dial_client}
use go_image_service.AuthGrpc.Faithful.{Delivers}
use go_image_service.Transport.Http.{
  Request, Writer, Chunk, json, fresh, get_value, register_response, login_response,
  list_images_response,
}
use go_image_service.Transport.Server.{Credentials}
use go_image_service.Transport.Handlers.{Handler}
use go_image_service.Transport.Middleware.{allow_origin}
use go_image_service.Transport.Authentication.{authorization}
use go_image_service.Transport.Admission.{without_id}
use go_image_service.Transport.Entry.{
  IsJoined, IsLoggedIn, serve-IsJoined, serve-IsLoggedIn, body-write_json, body-allow_origin,
}
use go_image_service.Transport.Status.{status-allow_origin}
use go_image_service.Transport.Routes.{serve}
use go_image_service.Cmd.HttpServer.{Libraries, server_of, main}
use go_image_service.Cmd.Startup.{main-IsUp}
use go_image_service.Cmd.Listed.{IsListed, main-IsListed}
use go_image_service.Cmd.Accounts.{IsAuthApart, passed, auth_main-accounts}
use go_image_service.Cmd.Services.{auth_main}

module _ {W : Type 0} (rpc svc : AuthService W) (delivered : Delivers rpc svc) where
  -- What the client of the connection answers, the service answered.
  register_through :
      (email password : String) (w : W) {id : String} {v : W}
      → client_register rpc email password w ≡ (ok id, v)
      → svc.register email password w ≡ (ok id, v)
  unfolding client_register
  register_through email password w h =
      sym (delivered.register email password w)
      ∙ sym (catch-pure (rpc.register email password w))
      ∙ h

  login_through :
      (email password : String) (w : W) {token : String} {v : W}
      → client_login rpc email password w ≡ (ok token, v)
      → svc.login email password w ≡ (ok token, v)
  unfolding client_login
  login_through email password w h =
      sym (delivered.login email password w)
      ∙ passed (λ e. if is_unauthenticated (status_code e) then sentinel invalid_credentials else e)
          (rpc.login email password w) h

same_request : {a b : Credentials} → ◌≡◌ {A = Result Credentials} (ok a) (ok b) → a ≡ b
same_request e = cc

same_token :
    {a b : String}
    → ◌≡◌ {A = List Chunk} (json (login_response a) ∷ []) (json (login_response b) ∷ [])
    → a ≡ b
same_token e = cc

same_user :
    {W : Type 0} {a b : String} {u v : W}
    → ◌≡◌ {A = Result String × W} (ok a, u) (ok b, v)
    → (a ≡ b) × (u ≡ v)
same_user e = (cc, cc)

module _ {W Source Conn Client Object : Type 0} (lib : Libraries W Source Conn Client Object)
    (cfg : Config) (uploads : W → Table) (r : Request) (x : W) where
  -- The list is that of the user whom the auth service names for the token.
  listed_of :
      (svc : AuthService W) (handler : Handler W) (token id : String)
      → ((rpc : AuthService W)
          → dial_client lib.new_token_source lib.new_client lib.new_auth_service_client
              cfg.auth_service_addr
            ≡ ok rpc
          → Delivers rpc svc)
      → authorization r ≡ "Bearer " <> token
      → svc.verify token x ≡ (ok id, x)
      → IsListed lib cfg uploads r x (handler r fresh x)
      → (rows : List Row) × IsListing (uploads x) id rows
        × ((handler r fresh x).0.body ≡ json (list_images_response (map upload_of rows)) ∷ [])
  listed_of svc handler token id deliver header named l =
      let who = l.caller in
      let token_eq = append_cancel_left "Bearer " who.token token (sym who.header ∙ header) in
      let answered : svc.verify token x ≡ (ok l.user_id, l.verified_world) =
        sym ((deliver who.rpc who.dialled).verify token x)
        ∙ ap (λ t. who.rpc.verify t x) (sym token_eq)
        ∙ who.verified in
      let (user, world) = same_user (sym answered ∙ named) in
      (
        l.rows,
        subst (λ u. IsListing (uploads x) u l.rows) user
            (subst (λ v. IsListing (uploads v) l.user_id l.rows) world l.listing),
        ap (λ (p : Writer × W). p.0.body) l.response
            ∙ body-write_json 200 (list_images_response (map upload_of l.rows))
                (allow_origin (get_value "Origin" r.headers) cfg.cors_allowed_origins fresh)
                (status-allow_origin _ cfg.cors_allowed_origins fresh)
                (body-allow_origin _ cfg.cors_allowed_origins),
      )

module _ {W Source Conn Client Object Listener : Type 0}
    (lib : Libraries W Source Conn Client Object) (cfg auth_cfg : Config) (uploads : W → Table)
    (listen : String → M W Listener) (c : Crypto W) (pool_new : String → M W (Postgres W))
    (ping : Postgres W → M W (Unit {0})) (fold : String → String) (accounts : W → Users)
    {method_of : String → Method} (crypto : IsCrypto c method_of) where
  -- For the auth service that its `main` serves and the handler that `main` of the HTTP server comes up with, over a
  -- connection that delivers the calls: if `POST /register` is answered by 201, a later `POST /login` with the
  -- same password and email, as the database compares emails, by 200, the account has not changed in
  -- between, and within a day of the login a `GET /images` with the token of its answer is answered
  -- by 200, then the answer to the registration names an id, and the last answer is the list of
  -- the rows of the uploads table that belong to this id, all of them and each once, the newest
  -- first. The pools are assumed to do to the tables what their statements say, the hashing and
  -- the random source to leave the accounts alone, and the crypto library to be lawful.
  pub main-signup :
      (env : String → String) (a a' : W) (lis : Listener) (svc : AuthService W)
      → auth_main listen c pool_new ping env auth_cfg a ≡ (ok (lis, svc), a')
      → ((pool : Postgres W) (v : W)
          → pool_new auth_cfg.database_url a ≡ (ok pool, v)
          → IsAuthApart c fold accounts pool)
      → (web : Handler W) (w w' : W) (addr : String) (handler : Handler W)
      → main lib web cfg w ≡ (ok (addr, handler), w')
      → ((pool : Postgres W) (v v' : W)
          → lib.pool_new cfg.database_url v ≡ (ok pool, v')
          → IsTable pool uploads)
      → ((rpc : AuthService W)
          → dial_client lib.new_token_source lib.new_client lib.new_auth_service_client
              cfg.auth_service_addr
            ≡ ok rpc
          → Delivers rpc svc)
      → (p q r : Request) (first second : Credentials) (u v x : W) (token : String)
      → p.method ≡ "POST"
      → p.segments ≡ "register" ∷ []
      → lib.decoder.credentials p.body ≡ ok first
      → (handler p fresh u).0.status ≡ some 201
      → q.method ≡ "POST"
      → q.segments ≡ "login" ∷ []
      → lib.decoder.credentials q.body ≡ ok second
      → fold second.email ≡ fold first.email
      → second.password ≡ first.password
      → accounts v (fold first.email) ≡ accounts (handler p fresh u).1 (fold first.email)
      → (handler q fresh v).0.status ≡ some 200
      → (handler q fresh v).0.body ≡ json (login_response token) ∷ []
      → c.now x < c.now (handler q fresh v).1 + token_ttl
      → r.method ≡ "GET"
      → r.segments ≡ "images" ∷ []
      → authorization r ≡ "Bearer " <> token
      → (handler r fresh x).0.status ≡ some 200
      → (id : String) × ((handler p fresh u).0.body ≡ json (register_response id) ∷ [])
        × (rows : List Row) × IsListing (uploads x) id rows
        × ((handler r fresh x).0.body ≡ json (list_images_response (map upload_of rows)) ∷ [])
  main-signup env a a' lis svc served quiet web w w' addr handler h tables deliver p q r first
        second u v x token post_p path_p decoded_p created post_q path_q decoded_q alike
        same_password kept logged answer soon get path_r header ok_r =
      let up = main-IsUp lib web cfg w h in
      let s = server_of lib cfg up.temporal up.rpc up.pool up.objects in
      let delivered = deliver up.rpc up.auth in
      let at : (k : Request) (w : W)
          → handler k fresh w ≡ serve s web cfg.cors_allowed_origins k fresh w =
        λ k w. ap (λ (h : Handler W). h k fresh w) up.same_handler in
      let j = subst (IsJoined s (without_id p) u) (sym (at p u)) (
        serve-IsJoined s web cfg.cors_allowed_origins p u post_p path_p
          (ap (λ (o : Writer × W). o.0.status) (sym (at p u)) ∙ created)) in
      let l = subst (IsLoggedIn s (without_id q) v) (sym (at q v)) (
        serve-IsLoggedIn s web cfg.cors_allowed_origins q v post_q path_q
          (ap (λ (o : Writer × W). o.0.status) (sym (at q v)) ∙ logged)) in
      let req_p = same_request (sym j.decoded ∙ decoded_p) in
      let req_q = same_request (sym l.decoded ∙ decoded_q) in
      let joined =
        subst
          (λ (k : Credentials).
            svc.register k.email k.password u ≡ (ok j.id, (handler p fresh u).1))
          req_p (register_through up.rpc svc delivered j.req.email j.req.password u j.registered) in
      let entered =
        subst
          (λ (k : Credentials).
            svc.login k.email k.password v ≡ (ok l.token, (handler q fresh v).1))
          req_q (login_through up.rpc svc delivered l.req.email l.req.password v l.logged_in) in
      let (_, named, _) =
        auth_main-accounts listen c pool_new ping fold accounts crypto env auth_cfg a a' lis svc
          served quiet first.email first.password j.id u (handler p fresh u).1 joined second.email
          "" token v (handler q fresh v).1 x alike kept
          (rw (← same_password, ← same_token (sym l.body ∙ answer)) entered) soon in
      let (rows, listing, body) =
        listed_of lib cfg uploads r x svc handler token j.id deliver header named
          (main-IsListed lib cfg uploads r x web w w' addr handler h tables get path_r ok_r) in
      (j.id, j.body, rows, listing, body)
