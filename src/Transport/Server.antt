-- ===== src/Transport/Server.antt =====
-- The dependencies of the HTTP server: the four interfaces of server.go and the JSON decoder.
use go_image_service.Base.{ℕ, String, List, Result, M}
use go_image_service.Metadata.{Upload}

-- `registerRequest` and `loginRequest`
pub record Credentials : Type 0 where
  pub email : String
  pub password : String

-- `createUploadRequest`
pub record CreateUploadRequest : Type 0 where
  pub filename : String
  pub content_type : String

-- `Authenticator`
pub record Authenticator (W : Type 0) : Type 0 where
  pub register : String → String → M W String
  pub login : String → String → M W String
  pub verify : String → M W String

-- `Uploads`
pub record Uploads (W : Type 0) : Type 0 where
  pub negotiate : String → String → String → M W (String × String)
  pub complete : String → M W (Unit {0})

-- `UploadReader`: `get` returns the status, the owner and the content type.
pub record UploadReader (W : Type 0) : Type 0 where
  pub get : String → M W (String × String × String)
  pub list : String → M W (List Upload)

-- `ObjectGetter`
pub record ObjectGetter (W : Type 0) : Type 0 where
  pub get : String → M W (List ℕ)

-- `json.NewDecoder(r.Body).Decode(&req)`, for each request type.
pub record Decoder : Type 0 where
  pub credentials : String → Result Credentials
  pub create_upload : String → Result CreateUploadRequest

-- `Server`, with the decoder that its handlers call.
pub record Server (W : Type 0) : Type 0 where
  pub auth : Authenticator W
  pub uploads : Uploads W
  pub reads : UploadReader W
  pub objects : ObjectGetter W
  pub decode : Decoder
