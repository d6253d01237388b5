-- ===== src/Cmd/Owners.antt =====
-- The HTTP server over its real components: what it does for the owner of an upload.
pub mod Answered
use mathlib.Core.Path.{subst, ap₂}
use go_image_service.Base.{
  ℕ, String, ◌<>◌, ◌≡◌, ◌≢◌, refl, sym, ap, ◌∙◌, true, List, [], ◌∷◌, some, none, Result, ok, err,
  catch, arith, string_eq, ne_of_==,
}
use go_image_service.Config.{Config}
use go_image_service.Postgres.{Postgres}
use go_image_service.Metadata.Table.{Row, Table, IsTable}
use go_image_service.Metadata.Found.{row_of}
use go_image_service.Metadata.Refinement.{get-GetSpec}
use go_image_service.Upload
use go_image_service.TemporalClient
use go_image_service.Pipeline.Orchestrator
use go_image_service.Pipeline.Orchestrator.{SignalOutcome, signal-SignalOutcome}
use go_image_service.Transport.Http.{
  Request, Writer, fresh, get_value, write_header, write_json, status_response, http_error,
}
use go_image_service.Transport.Server.{Server}
use go_image_service.Transport.Handlers.{Handler, complete_upload, image_status}
use go_image_service.Transport.Middleware.{allow_origin}
use go_image_service.Transport.Mux.{find_route}
use go_image_service.Transport.Routes.{routes}
use go_image_service.Transport.Routing.{find_route-id}
use go_image_service.Transport.Disclosure.{get_ne_options}
use go_image_service.Transport.Granted.{IsGranted, Rest, serve-IsGranted}
use go_image_service.Transport.Status.{http_error-ne-200, status-allow_origin}
use go_image_service.Cmd.HttpServer.{Libraries, server_of, main}
use go_image_service.Cmd.Startup.{IsUp, main-IsUp}
use go_image_service.Cmd.Caller.{IsCaller, verify-eq}

pub post_ne_options : ◌≢◌ {A = String} "POST" "OPTIONS"
unfolding string_eq
post_ne_options = ne_of_== "POST" "OPTIONS" refl

-- What the two handlers do once the owner is known.
abbrev pub report : {W : Type 0} → Rest W
report r st ct w world = (write_json 200 (status_response r.path_id st) w, world)

abbrev pub hand_on : {W : Type 0} → Server W → Rest W
hand_on s r st ct w world =
    catch (s.uploads.complete r.path_id world) (λ _ world. (write_header 200 w, world))
      (λ _ world. (http_error "could not complete upload" 500 w, world))

module _ {W Source Conn Client Object : Type 0} (lib : Libraries W Source Conn Client Object)
    (cfg : Config) (find : W → Table) (r : Request) (id : String) (world : W) where
  -- The auth service names the user who owns the row of the id.
  pub record IsOwner : Type 0 where
    pub row : Row
    pub verified_world : W
    pub caller : IsCaller lib cfg r world row.user_id verified_world
    pub there : find verified_world id ≡ some row

  abbrev started : Writer
  started = allow_origin (get_value "Origin" r.headers) cfg.cors_allowed_origins fresh

  -- The answer is the status of the owner's row.
  pub record IsReported (result : Writer × W) : Type 0 where
    pub owner : IsOwner
    pub read_world : W
    pub response : result ≡ (
      write_json 200
          (status_response id owner.row.status)
          (allow_origin (get_value "Origin" r.headers) cfg.cors_allowed_origins fresh),
      read_world,
    )

  -- The owner's completion was signalled to the workflow of the id.
  pub record IsSignalled (temporal : Orchestrator.TemporalClient W) (result : Writer × W)
      : Type 0 where
    pub owner : IsOwner
    pub read_world : W
    pub signalled_world : W
    pub signalled :
        SignalOutcome
          (record { client = temporal; task_queue = cfg.task_queue })
          id
          read_world
          (ok tt, signalled_world)
    pub response : result ≡ (
      write_header 200 (allow_origin (get_value "Origin" r.headers) cfg.cors_allowed_origins fresh),
      signalled_world,
    )

  module _ (web : Handler W) (w w' : W) (addr : String) (handler : Handler W)
      (up : IsUp lib web cfg w addr handler w') (table : IsTable up.pool find) where
    abbrev server : Server W
    server = server_of lib cfg up.temporal up.rpc up.pool up.objects

    -- The row of the owner, with the status that the handler was given.
    granted-IsOwner :
        (rest : Rest W) {result : Writer × W} (g : IsGranted server rest r world id started result)
        → (o : IsOwner) × (o.row.status ≡ g.status)
    granted-IsOwner rest g =
        let (row, here, status, owner, _) =
          row_of (get-GetSpec up.pool find table g.verified_world id) g.status g.user_id
            g.content_type (ap (λ p. p.0) g.row) in
        (
          record {
            row = row;
            verified_world = g.verified_world;
            caller = record {
              rpc = up.rpc;
              dialled = up.auth;
              token = g.verified.token;
              header = g.verified.header;
              verified =
                  sym (verify-eq up.rpc g.verified.token world)
                  ∙ g.verified.accepted
                  ∙ ap (λ u. (ok u, g.verified_world)) (sym owner);
            };
            there = here;
          },
          status,
        )

    pub granted-IsReported :
        {result : Writer × W}
        → IsGranted server report r world id started result
        → IsReported result
    granted-IsReported g =
        let (owner, status) = granted-IsOwner report g in
        record {
          owner = owner;
          read_world = g.read_world;
          response =
              g.answer
              ∙ ap (λ st. (write_json 200 (status_response id st) started, g.read_world))
                  (sym status);
        }

    -- A success of the handler is one of the signal.
    hand_on-go :
        (v : W) (done : Result (Unit {0}) × W)
        (outcome : SignalOutcome
          (record { client = up.temporal; task_queue = cfg.task_queue })
          id
          v
          done)
        → (catch {X = Writer × W} done
            (λ _ world. (write_header 200 started, world))
            (λ _ world. (http_error "could not complete upload" 500 started, world))).0.status
          ≡ some 200
        → (v' : W) × SignalOutcome
            (record { client = up.temporal; task_queue = cfg.task_queue })
            id
            v
            (ok tt, v')
          × (catch {X = Writer × W} done
                (λ _ world. (write_header 200 started, world))
                (λ _ world. (http_error "could not complete upload" 500 started, world))
              ≡ (write_header 200 started, v'))
    hand_on-go v (ok _, v') outcome e = (v', outcome, refl)
    hand_on-go v (err _, v') outcome e = absurd (
        http_error-ne-200 "could not complete upload" 500 started
          (status-allow_origin _ cfg.cors_allowed_origins fresh) (omega arith) e)

    pub granted-IsSignalled :
        {result : Writer × W}
        → IsGranted server (hand_on server) r world id started result
        → result.0.status ≡ some 200
        → IsSignalled up.temporal result
    unfolding Upload.complete
    granted-IsSignalled g e =
        let (owner, _) = granted-IsOwner (hand_on server) g in
        let (v', signalled, response) =
          hand_on-go g.read_world _ (signal-SignalOutcome _ id g.read_world)
            (sym (ap (λ (p : Writer × W). p.0.status) g.answer) ∙ e) in
        record {
          owner = owner;
          read_world = g.read_world;
          signalled_world = v';
          signalled = signalled;
          response = g.answer ∙ response;
        }
