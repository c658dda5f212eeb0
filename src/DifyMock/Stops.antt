-- ===== src/DifyMock/Stops.antt =====
-- internal/difymock/difymock.go, handleStop, and internal/dify/api.go, Stop: a stop reaches the mock.
use dify_game_gateway.Base.{
  ℕ, ◌<◌, [], ◌∷◌, ◌++◌, none, some, true, false, Text, text, text_eq, eq_of_text_eq, text_eq_refl,
  List, Option, ◌≡◌, refl, ap, arith, is_empty, trim_space, drop_prefix-append, length,
  length-append, Bool-cases, inl, inr,
}
use dify_game_gateway.Dify.{Client, HttpRequest, HttpReply, stop, send_stop, stop_request}
use dify_game_gateway.DifyMock.{
  Mock, Incoming, Course, Fields, ChatBody, authorized, drop_suffix, serve, handle_stop, stop_task,
  record_stop, routed, Response, sanitized,
}
use dify_game_gateway.DifyMock.Upstream.{delivered, answer, upstream_of}

longer_differs : (s t : Text) → length s < length t → text_eq s t ≡ false
longer_differs s t h = elim (Bool-cases (text_eq s t)) [
  | inl same ↦ absurd (omega (arith, ap length (eq_of_text_eq s t same)))
  | inr differ ↦ differ
]

drop_suffix-append : (d : ℕ) (suffix s : Text) → drop_suffix (d ∷ suffix) (s ++ d ∷ suffix) ≡ some s
unfolding drop_suffix
drop_suffix-append d suffix [] = rw (text_eq_refl (d ∷ suffix)) refl
drop_suffix-append d suffix (c ∷ s) =
    let differ =
      longer_differs (d ∷ suffix) (c ∷ s ++ d ∷ suffix)
        (omega (arith, length-append s (d ∷ suffix))) in
    rw (differ, drop_suffix-append d suffix s) refl

module _ (json : Fields → Text) (decode_chat : List ℕ → ChatBody) (unescape : Text → Option Text)
    (decode_user : List ℕ → Text) (redirect : Text → Option Response) (course : Course)
    (marshal : Text → Option (List ℕ)) (escape : Text → Text) where
  -- The upstream of the client: the mock, for one request.
  abbrev pub mocked : Client → Mock → HttpRequest → HttpReply
  mocked c s request =
      upstream_of json decode_chat unescape decode_user redirect course c.base_url s request 1

  -- What the mock gets of a stop.
  abbrev pub stop_of : Client → Mock → Text → List ℕ → Incoming
  stop_of c s task_id body =
      delivered (stop_request marshal escape (mocked c s) c task_id body)
        (text "/chat-messages/" ++ (escape task_id ++ text "/stop"))

  answer-stop :
      (c : Client) (s : Mock) (task_id : Text) (body : List ℕ)
      → redirect (text "/chat-messages/" ++ (escape task_id ++ text "/stop")) ≡ none
      → is_empty (escape task_id) ≡ false
      → unescape (escape task_id) ≡ some task_id
      → authorized s (text "Bearer " ++ c.api_key) ≡ true
      → answer json decode_chat unescape decode_user redirect course (stop_of c s task_id body) s
        ≡ record_stop unescape decode_user (stop_of c s task_id body) s (some task_id)
  unfolding serve text_eq
  answer-stop c s task_id body clean filled back known =
      let route = drop_prefix-append (text "/chat-messages/") (escape task_id ++ text "/stop") in
      let path = drop_suffix-append b'/' (text "stop") (escape task_id) in
      rw (clean, sanitized, route, routed, handle_stop, known, path, stop_task, filled, back) refl

  -- A stop reaches its task: if the task and the user are not blank, the path of the task is clean and can be read back and
  -- the mock knows the client's key, Stop succeeds, and the mock has the call with this task and user behind those
  -- before it.
  pub stop-recorded :
      (c : Client) (s : Mock) (task_id user : Text) (body : List ℕ)
      → is_empty (trim_space task_id) ≡ false
      → is_empty (trim_space user) ≡ false
      → marshal user ≡ some body
      → decode_user body ≡ user
      → redirect (text "/chat-messages/" ++ (escape task_id ++ text "/stop")) ≡ none
      → is_empty (escape task_id) ≡ false
      → unescape (escape task_id) ≡ some task_id
      → authorized s (text "Bearer " ++ c.api_key) ≡ true
      → (stop marshal escape (mocked c s) c task_id user ≡ none)
        × ((answer json decode_chat unescape decode_user redirect course
              (stop_of c s task_id body)
              s).1.stop_calls
            ≡ s.stop_calls ++ record { task_id = task_id; user = user } ∷ [])
  unfolding stop send_stop record_stop
  stop-recorded c s task_id user body task named written read clean filled back known =
      let got = answer-stop c s task_id body clean filled back known in
      let route =
        drop_prefix-append c.base_url
          (text "/chat-messages/" ++ (escape task_id ++ text "/stop")) in
      (
        rw (stop, task, named, written, send_stop, mocked, upstream_of, route, got) refl,
        rw (got, read) refl,
      )
