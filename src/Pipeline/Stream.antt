-- ===== src/Pipeline/Stream.antt =====
-- internal/pipeline/handler.go, HandleChat from the upstream call on: the callbacks of the stream, and
-- what follows its end. The effects of each stage stand before those of the next, as the code makes
-- them; an early return is a branch that goes no further.
use dify_game_gateway.Moderation.{OutputFilter, new_output_filter, Verdict, flush, push}
use dify_game_gateway.Base.{
  [], ◌∷◌, none, some, true, false, Text, List, Bool, ◌++◌, if◌then◌else◌, text, is_empty, Option,
}
use dify_game_gateway.Base.Int.{pos, ltb_ℤ}
use dify_game_gateway.Wire.{chunk, blocked}
use dify_game_gateway.Pipeline.Errors.{
  Failure, message_replace, client_error_code, client_error_message,
}
use dify_game_gateway.Pipeline.Effects.{
  on_event, on_delta, sent, counted, counted_tokens, limiter_record, limiter_record_failure,
  limiter_release, canceled, set_conversation, chat_stream, stop_upstream, ChatResult, Handler,
  ContextState, Answers, StreamEvent, Effect, internal, done_envelope, refuse,
}

abbrev pub user_id : Text → Text → Text
user_id player npc = player ++ b':' ∷ npc

-- What the callbacks of a stream share: the filter, whether it has blocked, and the task id.
pub record Stream : Type 0 where
  pub filter : OutputFilter
  pub output_blocked : Bool
  pub task_id : Text

-- A blocked delta sends the fallback and cancels the stream; a passing one sends what may go out.
unfoldable pub after_push : Text → Stream → Verdict × OutputFilter → List Effect × Stream
after_push id s (v, f) =
    if v.blocked
    then (
      sent (blocked id v.fallback) ∷ counted (text "blocked") ∷ [],
      record s { filter = f; output_blocked = true },
    )
    else (if is_empty v.emit then [] else sent (chunk id v.emit) ∷ [], record s { filter = f })

unfoldable pub callback : Text → Stream → StreamEvent → List Effect × Stream
callback id s (on_event task_id) = ([], record s { task_id = task_id })
callback id s (on_delta delta) =
    if s.output_blocked then ([], s) else after_push id s (push s.filter delta)

unfoldable pub callbacks : Text → Stream → List StreamEvent → List Effect × Stream
callbacks id s [] = ([], s)
callbacks id s (e ∷ es) =
    let (effects, s') = callback id s e in
    let (rest, last) = callbacks id s' es in (effects ++ rest, last)

unfoldable pub start_stream : Handler → Stream
unfolding new_output_filter
start_stream h = record {
  filter = new_output_filter h.moderator;
  output_blocked = false;
  task_id = [];
}

-- The request, as every later stage needs it.
pub record Request : Type 0 where
  pub id : Text
  pub player : Text
  pub npc : Text
  pub query : Text

unfoldable pub stop_effects : Request → Text → List Effect
stop_effects r task_id =
    if is_empty task_id then [] else stop_upstream task_id (user_id r.player r.npc) ∷ []

unfoldable pub persist_effects : Request → Text → List Effect
persist_effects r conversation =
    if is_empty conversation then [] else set_conversation r.player r.npc conversation ∷ []

-- The request context was cancelled by a stop or a disconnect.
unfoldable pub stopped : Request → ChatResult → Stream → List Effect
stopped r result s =
    stop_effects r s.task_id
    ++ (limiter_release
        ∷ (persist_effects r result.conversation_id
            ++ (sent (done_envelope r.id result.conversation_id result.total_tokens)
                ∷ counted (text "stopped")
                ∷ [])))

unfoldable pub upstream_failed : Request → Failure → List Effect
upstream_failed r e =
    limiter_record_failure
    ∷ refuse r.id (client_error_code e) (client_error_message e) (text "error")

unfoldable pub is_canceled : ContextState → Bool
is_canceled canceled = true
is_canceled _ = false

-- ChatStream returned an error.
unfoldable pub on_error : Request → Answers → Stream → Failure → List Effect
on_error r a s e = elim (message_replace e) [
  | some fallback ↦
      limiter_record r.player a.result.total_tokens
      ∷ sent (blocked r.id fallback)
      ∷ counted (text "blocked")
      ∷ []
  | none ↦
      if s.output_blocked
      then limiter_record r.player a.result.total_tokens ∷ []
      else if is_canceled a.context
      then stopped r a.result s
      else upstream_failed r e
]

-- The end of a stream that was not blocked on the way, with what Flush answers.
unfoldable pub after_flush : Request → ChatResult → Verdict × OutputFilter → List Effect
after_flush r result (v, f) =
    if v.blocked
    then sent (blocked r.id v.fallback) ∷ counted (text "blocked") ∷ []
    else (if is_empty v.emit then [] else sent (chunk r.id v.emit) ∷ [])
      ++ (sent (done_envelope r.id result.conversation_id result.total_tokens)
          ∷ counted (text "ok")
          ∷ [])

unfoldable pub finish : Request → Answers → Stream → List Effect
finish r a s = if s.output_blocked then [] else after_flush r a.result (flush s.filter)

unfoldable pub save : Request → Answers → Stream → List Effect
save r a s =
    if is_empty a.result.conversation_id
    then finish r a s
    else set_conversation r.player r.npc a.result.conversation_id ∷ elim a.set_error [
      | some e ↦ internal r.id (text "conversation state unavailable")
      | none ↦ finish r a s
    ]

-- ChatStream returned no error.
unfoldable pub on_success : Request → Answers → Stream → List Effect
on_success r a s = limiter_record r.player a.result.total_tokens ∷ elim a.record_error [
  | some e ↦ internal r.id (text "usage accounting failed")
  | none ↦
      (if ltb_ℤ (pos 0) a.result.total_tokens
        then counted_tokens a.result.total_tokens ∷ []
        else [])
      ++ save r a s
]

unfoldable pub ended : Request → Answers → Stream → Option Failure → List Effect
ended r a s (some e) = on_error r a s e
ended r a s none = on_success r a s

unfoldable pub after_stream : Request → Answers → List Effect × Stream → List Effect
after_stream r a (effects, s) = effects ++ ended r a s a.stream_error

unfoldable pub stream : Handler → Answers → Request → Text → List (Text × Text) → List Effect
stream h a r conversation inputs =
    chat_stream (record {
      query = r.query;
      inputs = inputs;
      user = user_id r.player r.npc;
      conversation_id = conversation;
    })
    ∷ after_stream r a (callbacks r.id (start_stream h) a.events)
