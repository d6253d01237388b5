-- ===== src/Transport/Http.antt =====
-- What the handlers use of net/http: a request, and a response writer.
use go_image_service.Base.{
  ℕ, String, ◌<>◌, List, [], ◌∷◌, ◌++◌, Option, none, some, ◌==◌, string_eq, if◌then◌else◌,
}
use go_image_service.Metadata.{Upload}

-- `headers` and `query` hold the first value of each key.
pub record Request : Type 0 where
  pub method : String
  pub segments : List String  -- the cleaned path; a slash at its end is a last segment "/"
  pub headers : List (String × String)
  pub query : List (String × String)
  pub body : String
  pub path_id : String  -- `r.PathValue("id")`
  pub user_id : Option String  -- the context's value for `userIDKey`

-- The first value of a key, or "": `Header.Get`, `url.Values.Get`.
unfoldable pub get_value : String → List (String × String) → String
get_value key [] = ""
get_value key ((k, v) ∷ pairs) = if k == key then v else get_value key pairs

-- The JSON values that are written.
pub data Payload : Type 0 where
  health_response : String → Payload
  register_response : String → Payload
  login_response : String → Payload
  create_upload_response : String → String → ℕ → Payload
  status_response : String → String → Payload
  list_images_response : List Upload → Payload

pub data Chunk : Type 0 where
  text : String → Chunk
  json : Payload → Chunk
  raw : List ℕ → Chunk

-- `http.ResponseWriter`: the headers, the status once it is sent, and what was written.
pub record Writer : Type 0 where
  pub headers : List (String × String)
  pub status : Option ℕ
  pub body : List Chunk

abbrev pub fresh : Writer
fresh = record { headers = []; status = none; body = [] }

unfoldable pub without : String → List (String × String) → List (String × String)
without key [] = []
without key ((k, v) ∷ pairs) =
    let rest = without key pairs in if k == key then rest else (k, v) ∷ rest

-- Headers that change after the status is sent have no effect.
abbrev unsent : Option ℕ → Writer → Writer → Writer
unsent none changed w = changed
unsent (some _) changed w = w

-- `w.Header().Set`
unfoldable pub set_header : String → String → Writer → Writer
set_header key value w =
    unsent w.status (record w { headers = (key, value) ∷ without key w.headers }) w

-- `w.Header().Add`
unfoldable pub add_header : String → String → Writer → Writer
add_header key value w = unsent w.status (record w { headers = w.headers ++ (key, value) ∷ [] }) w

-- `w.Header().Del`
unfoldable pub del_header : String → Writer → Writer
del_header key w = unsent w.status (record w { headers = without key w.headers }) w

-- `w.WriteHeader`: the first call decides.
unfoldable pub write_header : ℕ → Writer → Writer
write_header code w = unsent w.status (record w { status = some code }) w

abbrev append_body : Chunk → Writer → Writer
append_body chunk w = record w { body = w.body ++ chunk ∷ [] }

-- `w.Write`, which sends the status 200 if none was sent.
unfoldable pub write : Chunk → Writer → Writer
unfolding write_header
write chunk w = append_body chunk (write_header 200 w)

-- `http.Error`
unfoldable pub http_error : String → ℕ → Writer → Writer
unfolding write set_header del_header without
http_error message code w = write (text (message <> "\n")) (
    write_header code (
      set_header "X-Content-Type-Options" "nosniff"
        (set_header "Content-Type" "text/plain; charset=utf-8" (del_header "Content-Length" w))))

-- `writeJSON` of server.go.
unfoldable pub write_json : ℕ → Payload → Writer → Writer
unfolding write set_header without
write_json code value w =
    write (json value) (write_header code (set_header "Content-Type" "application/json" w))
