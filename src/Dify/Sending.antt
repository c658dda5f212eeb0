-- ===== src/Dify/Sending.antt =====
-- internal/dify/api.go: what the upload of a file needs, and the type that it is given.
use dify_game_gateway.Base.{
  ltb, leb, ◌||◌, ℕ, ◌≤◌, ◌<◌, none, some, false, Text, List, Option, ◌≡◌, refl, arith, is_empty,
  trim_space, Bool-cases, inl, inr, ltb, Option-cases,
}
use dify_game_gateway.Pipeline.Errors.{ok}
use dify_game_gateway.Dify.{Client, HttpReply, answered, unreachable}
use dify_game_gateway.Dify.Uploads.{
  UploadFileReq, UploadFileResult, UploadRequest, Part, file_content_type, upload_parts,
  upload_request, upload_result, send_file, upload_content, upload_file,
}

-- A file is never sent without a type.
file_content_type-filled :
    (type_by_extension : Text → Text) (req : UploadFileReq)
    → is_empty (file_content_type type_by_extension req) ≡ false
unfolding file_content_type
file_content_type-filled type_by_extension req = ground arith

module _ (decode : UploadRequest → Option UploadFileResult) where
  -- The upstream has answered the request with success, and its answer is this.
  abbrev IsDone : UploadRequest → HttpReply → UploadFileResult → Type 0
  IsDone request reply result =
      (status : ℕ) × (retry_after : Text) × (reply ≡ answered status retry_after)
      × (200 ≤ status)
      × (status < 300)
      × (decode request ≡ some result)

  upload_result-ok :
      (request : UploadRequest) (reply : HttpReply) (result : UploadFileResult)
      → upload_result decode request reply ≡ ok result
      → IsDone request reply result
  unfolding upload_result
  upload_result-ok request unreachable result h = cc
  upload_result-ok request (answered status retry_after) result h =
      elim (Bool-cases (ltb status 200 || leb 300 status)) [
        | inl e ↦ cc (rw e at h)
        | inr e ↦ (status, retry_after, refl, ground arith, ground arith, ground arith)
      ]

module _ (http : UploadRequest → HttpReply) (decode : UploadRequest → Option UploadFileResult) where
  send_file-ok :
      (c : Client) (written : Option (List ℕ × Text)) (result : UploadFileResult)
      → send_file http decode c written ≡ ok result
      → (w : List ℕ × Text) × (written ≡ some w)
        × IsDone decode (upload_request c w) (http (upload_request c w)) result
  unfolding send_file
  send_file-ok c none result h = cc
  send_file-ok c (some w) result h = (w, refl, upload_result-ok decode _ _ result h)

module _ (type_by_extension quote : Text → Text) (write_parts : List Part → Option (List ℕ × Text))
    (http : UploadRequest → HttpReply) (decode : UploadRequest → Option UploadFileResult) where
  -- The caller gets a result only of a file that is uploaded: when UploadFile returns one, the reader has given
  -- its content, its parts are written, and the upstream has answered the one request that carries them with
  -- success and with this result.
  upload_file-ok :
      (c : Client) (req : UploadFileReq) (result : UploadFileResult)
      → upload_file type_by_extension quote write_parts http decode c req ≡ ok result
      → (content : List ℕ) × (w : List ℕ × Text) × (req.reader ≡ some (some content))
        × (write_parts (upload_parts type_by_extension quote req content) ≡ some w)
        × IsDone decode (upload_request c w) (http (upload_request c w)) result
  unfolding upload_file upload_content
  upload_file-ok c req result h = elim (Bool-cases (is_empty (trim_space req.user))) [
    | inl e ↦ cc (rw e at h)
    | inr e ↦ elim (Bool-cases (is_empty (trim_space req.filename))) [
      | inl f ↦ cc (rw (e, f) at h)
      | inr f ↦ elim (Option-cases req.reader) [
        | inl none_given ↦ cc (rw (e, f, none_given) at h)
        | inr (none, broken) ↦ cc (rw (e, f, broken, upload_content) at h)
        | inr (some content, given) ↦
            let sent : send_file http decode c
                  (write_parts (upload_parts type_by_extension quote req content))
                ≡ ok result =
              rw (e, f, given, upload_content) at h in
            let (w, written, done) = send_file-ok http decode c _ result sent in
            (content, w, given, written, done)
      ]
    ]
  ]
