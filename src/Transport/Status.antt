-- ===== src/Transport/Status.antt =====
-- The status codes that the ways of answering send.
use go_image_service.Base.{ℕ, String, ◌≡◌, ◌≢◌, List, none, some, arith}
use go_image_service.Transport.Http.{
  Writer, Chunk, Payload, set_header, add_header, write, http_error, write_json,
}
use go_image_service.Transport.Middleware.{allow_origin}

pub status-http_error :
    (message : String) (code : ℕ) (w : Writer)
    → w.status ≡ none
    → (http_error message code w).status ≡ some code
unfolding http_error
status-http_error message code w h = rw h

pub status-write_json :
    (code : ℕ) (value : Payload) (w : Writer)
    → w.status ≡ none
    → (write_json code value w).status ≡ some code
unfolding write_json
status-write_json code value w h = ground arith

pub status-allow_origin :
    (origin : String) (allowed : List String) (w : Writer)
    → (allow_origin origin allowed w).status ≡ w.status
unfolding allow_origin add_header set_header
status-allow_origin origin allowed w = ground arith

-- The bytes of an object, with a content type.
pub status-write :
    (chunk : Chunk) (key value : String) (w : Writer)
    → w.status ≡ none
    → (write chunk (set_header key value w)).status ≡ some 200
unfolding write set_header
status-write chunk key value w h = ground arith

-- An error answer is no success.
pub http_error-ne-200 :
    (message : String) (code : ℕ) (w : Writer)
    → w.status ≡ none
    → code ≢ 200
    → (http_error message code w).status ≢ some 200
http_error-ne-200 message code w h other e = ground (arith, status-http_error message code w h)

pub http_error-ne :
    (message : String) (code other : ℕ) (w : Writer)
    → w.status ≡ none
    → code ≢ other
    → (http_error message code w).status ≢ some other
http_error-ne message code other w h differ e = ground (arith, status-http_error message code w h)
