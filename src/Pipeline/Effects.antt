-- ===== src/Pipeline/Effects.antt =====
-- What a handler does to the world, in the order in which it does it, and what the world answers.
-- Every call that a request makes is made at most once, or twice for GetConversation, so its answers
-- are the fields of a record: a theorem for all answers is one for all limiters, stores, contexts and
-- upstreams. The latency histograms and the log are left out.
use dify_game_gateway.Base.{ℕ, ◌%◌, ◌^◌, Text, text, Bool, List, [], ◌∷◌, Option, if◌then◌else◌}
use dify_game_gateway.Base.Int.{ℤ, pos_part, is_negative}
use dify_game_gateway.Wire.{ServerEnvelope, done, error}
use dify_game_gateway.Moderation.{Moderator}
use dify_game_gateway.Pipeline.Errors.{Failure, Result}

pub record ChatReq : Type 0 where
  pub query : Text
  pub inputs : List (Text × Text)
  pub user : Text
  pub conversation_id : Text

pub record ChatResult : Type 0 where
  pub conversation_id : Text
  pub total_tokens : ℤ

-- The calls that ChatStream makes back, on the handler's goroutine.
pub data StreamEvent : Type 0 where
  on_event : (task_id : Text) → StreamEvent
  on_delta : (delta : Text) → StreamEvent

pub data Effect : Type 0 where
  sent : ServerEnvelope → Effect
  counted : (label : Text) → Effect
  counted_tokens : ℤ → Effect
  limiter_allow : (player : Text) → Effect
  limiter_record : (player : Text) (tokens : ℤ) → Effect
  limiter_record_failure : Effect
  limiter_release : Effect
  get_conversation : (player npc : Text) → Effect
  set_conversation : (player npc conversation : Text) → Effect
  delete_conversation : (player npc : Text) → Effect
  acquire_lock : (player npc : Text) (ttl : ℕ) → Effect
  unlock : Effect
  build_context : (player npc : Text) → Effect
  chat_stream : ChatReq → Effect
  stop_upstream : (task_id user : Text) → Effect

-- What ctx.Err() is, once the stream has ended.
pub data ContextState : Type 0 where
  live : ContextState
  canceled : ContextState
  deadline : ContextState

pub record Answers : Type 0 where
  pub allow : Bool × Option Failure
  pub first_get : Result Text
  pub until_deadline : Option ℤ  -- nanoseconds, if the context has a deadline
  pub acquire : Option Failure
  pub second_get : Result Text
  pub build : Result (List (Text × Text))
  pub events : List StreamEvent
  pub result : ChatResult
  pub stream_error : Option Failure
  pub context : ContextState
  pub record_error : Option Failure
  pub set_error : Option Failure

-- The handler: which of its parts are there, its moderator (New puts AllowAll where there is none),
-- and the lifetime of its conversation lock in nanoseconds.
pub record Handler : Type 0 where
  pub has_auth : Bool
  pub has_limiter : Bool
  pub has_store : Bool
  pub has_assembler : Bool
  pub has_dify : Bool
  pub moderator : Moderator
  pub lock_ttl : ℕ

-- done(): a negative number of tokens is sent as 0, any other as a uint32.
unfoldable pub done_envelope : Text → Text → ℤ → ServerEnvelope
done_envelope id conversation tokens =
    done id conversation ((if is_negative tokens then 0 else pos_part tokens) % 2 ^ 32)

-- An error frame and its count, which end a request.
abbrev pub refuse : Text → Text → Text → Text → List Effect
refuse id code message label = sent (error id code message) ∷ counted label ∷ []

abbrev pub bad_request : Text → Text → List Effect
bad_request id message = refuse id (text "BAD_REQUEST") message (text "bad_request")

abbrev pub internal : Text → Text → List Effect
internal id message = refuse id (text "INTERNAL") message (text "error")
