-- ===== src/Lib.antt =====
-- A model of the image service (module go-image-service), and theorems about it.
--
-- The program takes uploads of images over HTTP and has them resized. An upload is negotiated: a
-- row is stored, a workflow is started and a presigned URL is answered, to which the client sends
-- the bytes; it then signals the workflow, which validates the object, resizes it and keeps the
-- row's status up to date; images are resized by a service behind gRPC. Accounts and tokens
-- belong to an auth service behind gRPC.
--
-- Files, and the code they model:
--   Base           Go's equality, strings and errors, and lemmas that all parts share
--   Id             internal/id/id.go
--   Config         internal/config/config.go
--   GrpcAuth       internal/grpcauth/grpcauth.go
--   Postgres       the connection pool (github.com/jackc/pgx), an interface
--   Metadata       internal/metadata/metadata.go
--   User           internal/user/user.go
--   Storage        internal/storage/objectstore.go, and storage.go (Disk)
--   Upload         internal/upload/upload.go
--   Auth           internal/auth/auth.go, password.go, token.go
--   AuthGrpc       internal/authgrpc/server.go and internal/authclient/client.go
--   Transport      internal/transport: Server (server.go), Handlers (handlers.go), Middleware
--                  (middleware.go), Http (what they use of net/http), Mux (http.ServeMux), Routes (the
--                  table in server.go, and the handler that cmd/httpserver/main.go serves)
--   Pipeline       internal/pipeline: Activities, Workflow and Orchestrator, from activities.go, workflow.go
--                  and orchestrator.go
--   TemporalClient internal/temporalclient/temporalclient.go
--   Cmd            cmd: the main functions of the four binaries (HttpServer, Worker, Services), and what
--                  the parts do together: requests to the server that comes up, the accounts of the auth
--                  service (Accounts), a user from registration to the list (Signup), an image from the
--                  worker to the server (EndToEnd), an upload from the server to the worker (Joined), and requests and activities in any
--                  order (Interleaved)
--   Imaging        internal/imaging: the resizing of imaging.go, the calls that server.go runs at once
--                  (Server), and the client of internal/resizer/resizer.go (Client)
--   Tests          the theorems at concrete inputs, and runs of the code
--
-- A call that may fail or change anything outside the process is a function `W → Result A × W` on
-- a world `W`, which is a parameter; an error returns its world too. What is called outside the
-- repository is a record of such functions: Postgres, Minio, Crypto (bcrypt, the JWT library, the
-- clock, the random source), Codec (image codecs and the scaler), Files (os and
-- filepath), Temporal, TemporalClient, AuthService and Client (the generated gRPC code); Libraries is what
-- a main function calls. What the code relies on in them is a record of laws:
-- IsCrypto, IsUserRepo, IsUserTable, IsRandom, IsTable, IsStore, Source, IsApart, IsHttpApart,
-- IsAuthApart, IsStoreApart, IsTemporal, IsStatus, Delivers, IsDelivered. The Go interfaces of the
-- repository (Authenticator, Uploads, UploadReader, ObjectGetter, UserRepo, Repository,
-- Presigner, Pipeline, ObjectStore) are records too.
--
-- Conventions. A text is a sequence of Unicode scalar values; `len` adds up their widths in
-- UTF-8. Go's zero values beside an error are not kept. Times and durations are in seconds. A
-- JSON body is decoded by a parameter, and an answer is kept as the value that is encoded. A path
-- is the list of its segments. All recursion is structural: there is no fuel.
--
-- Not modelled: log output; redirects of the multiplexer to a cleaned path;
-- http.DetectContentType beyond the two answers that the code accepts; reading of byte ranges of
-- length 0; panics of image.NewRGBA; the closing of connections, and the loops that serve. The two
-- futures of the resizing fan-out are started and awaited by one call, `execute_all`, whose
-- activities interleave attempt by attempt, in any order (the relation Fan). Attempts of one
-- activity do not overlap; where requests and activities meet (the relation Reach of Interleaved), a
-- request and an attempt are one step each. Left out: the demo page (internal/web) and generated code (gen).
pub mod Base
pub mod Id
pub mod Config
pub mod GrpcAuth
pub mod Transport
pub mod Postgres
pub mod Metadata
pub mod User
pub mod Storage
pub mod Upload
pub mod Auth
pub mod AuthGrpc
pub mod Pipeline
pub mod Imaging
pub mod TemporalClient
pub mod Cmd
pub mod Tests
