-- ===== src/Dify/Uploads.antt =====
-- internal/dify/api.go, UploadFile: one attempt to send a file. The multipart and MIME libraries, Go's %q,
-- HTTP and JSON are parameters.
use dify_game_gateway.Base.{
  ℕ, [], ◌∷◌, ◌++◌, none, some, false, Text, text, List, Bool, Option, if◌then◌else◌, ◌||◌, ◌&&◌,
  not, ltb, leb, is_empty, trim_space, ◌==◌,
}
use dify_game_gateway.Base.Int.{ℤ}
use dify_game_gateway.Pipeline.Errors.{other, Result, ok, err}
use dify_game_gateway.Dify.{Client, HttpReply, unreachable, answered}

-- No reader is Go's nil; a reader gives the content or fails.
pub record UploadFileReq : Type 0 where
  pub user : Text
  pub filename : Text
  pub reader : Option (Option (List ℕ))
  pub content_type : Text

pub record UploadFileResult : Type 0 where
  pub id : Text
  pub name : Text
  pub size : ℤ

-- The parts of a multipart body.
pub data Part : Type 0 where
  field : (name value : Text) → Part
  file : (content_disposition content_type : Text) (content : List ℕ) → Part

pub record UploadRequest : Type 0 where
  pub url : Text
  pub authorization : Text
  pub content_type : Text
  pub accept : Text
  pub body : List ℕ

has_slash : Text → Bool
has_slash [] = false
has_slash (c ∷ s) = c == b'/' || has_slash s

-- filepath.Ext: the end of the last element of the path from its last dot, if it has one.
unfoldable pub extension : Text → Option Text
unfolding has_slash
extension [] = none
extension (c ∷ s) = elim (extension s) [
  | some ext ↦ some ext
  | none ↦ if c == b'.' && not (has_slash s) then some (c ∷ s) else none
]

unfoldable pub ext_of : Text → Text
unfolding extension
ext_of filename = elim (extension filename) [ some ext ↦ ext | none ↦ [] ]

module _ (type_by_extension : Text → Text) where
  unfoldable pub file_content_type : UploadFileReq → Text
  unfolding ext_of
  file_content_type req =
      let explicit = trim_space req.content_type in
      let inferred = type_by_extension (ext_of req.filename) in
      if not (is_empty explicit)
      then explicit
      else if not (is_empty inferred)
      then inferred
      else text "application/octet-stream"

module _ (type_by_extension quote : Text → Text) where
  unfoldable pub upload_parts : UploadFileReq → List ℕ → List Part
  unfolding file_content_type
  upload_parts req content =
      field (text "user") req.user
      ∷ file (text "form-data; name=\"file\"; filename=" ++ quote req.filename)
          (file_content_type type_by_extension req) content
      ∷ []

unfoldable pub upload_request : Client → List ℕ × Text → UploadRequest
upload_request c (body, content_type) = record {
  url = c.base_url ++ text "/files/upload";
  authorization = text "Bearer " ++ c.api_key;
  content_type = content_type;
  accept = text "application/json";
  body = body;
}

-- `decode` is what the decoder makes of the body of the response.
module _ (decode : UploadRequest → Option UploadFileResult) where
  unfoldable pub upload_result : UploadRequest → HttpReply → Result UploadFileResult
  upload_result request unreachable = err other
  upload_result request (answered status _) =
      if ltb status 200 || leb 300 status
      then err other
      else elim (decode request) [ none ↦ err other | some result ↦ ok result ]

module _ (http : UploadRequest → HttpReply) (decode : UploadRequest → Option UploadFileResult) where
  unfoldable pub send_file : Client → Option (List ℕ × Text) → Result UploadFileResult
  unfolding upload_request upload_result
  send_file c none = err other
  send_file c (some written) =
      let request = upload_request c written in upload_result decode request (http request)

-- `write_parts` gives the body and its content type.
module _ (type_by_extension quote : Text → Text) (write_parts : List Part → Option (List ℕ × Text))
    (http : UploadRequest → HttpReply) (decode : UploadRequest → Option UploadFileResult) where
  unfoldable pub upload_content : Client → UploadFileReq → Option (List ℕ) → Result UploadFileResult
  unfolding upload_parts send_file
  upload_content c req none = err other
  upload_content c req (some content) =
      send_file http decode c (write_parts (upload_parts type_by_extension quote req content))

  unfoldable pub upload_file : Client → UploadFileReq → Result UploadFileResult
  unfolding upload_content
  upload_file c req =
      if is_empty (trim_space req.user)
      then err other
      else if is_empty (trim_space req.filename)
      then err other
      else elim req.reader [ none ↦ err other | some content ↦ upload_content c req content ]
