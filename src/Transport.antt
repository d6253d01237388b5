-- ===== src/Transport.antt =====
-- internal/transport: the HTTP API. `Http` models what it uses of net/http, `Server` the interfaces
-- that it depends on, `Handlers` handlers.go, `Middleware` middleware.go, `Mux` the request
-- multiplexer and `Routes` the route table of server.go.
pub mod Http
pub mod Server
pub mod Handlers
pub mod Middleware
pub mod Mux
pub mod Routes
pub mod Reachable
pub mod Status
pub mod Disclosure
pub mod Granted
pub mod Creation
pub mod Cors
pub mod Admission
pub mod Framing
pub mod Kept
pub mod Once
pub mod Table
pub mod Registration
pub mod Entry
pub mod Gateway
pub mod Ownership
pub mod Routing
pub mod Authentication
