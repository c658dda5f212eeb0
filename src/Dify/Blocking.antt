-- ===== src/Dify/Blocking.antt =====
-- internal/dify/client.go, Chat: a chat that is answered in one piece. The HTTP calls, the JSON library and
-- the sleeps between attempts are parameters.
use dify_game_gateway.Base.{ℕ, [], none, some, Text, text, List, Option}
use dify_game_gateway.Base.Int.{ℤ}
use dify_game_gateway.Pipeline.Errors.{Failure, other, Result, ok, err}
use dify_game_gateway.Retry.{Answer, response, failure, do_request_with_retry}
use dify_game_gateway.Dify.{
  Client, ChatReq, Payload, payload_of, HttpRequest, HttpReply, outcome_of, prepare, chat_request,
}

-- What the body of a response is decoded to.
pub record ResponsePayload : Type 0 where
  pub answer : Text
  pub conversation_id : Text
  pub message_id : Text
  pub total_tokens : ℤ

pub record ChatResult : Type 0 where
  pub answer : Text
  pub conversation_id : Text
  pub message_id : Text
  pub total_tokens : ℤ

unfoldable pub result_of : ResponsePayload → ChatResult
result_of decoded = record {
  answer = decoded.answer;
  conversation_id = decoded.conversation_id;
  message_id = decoded.message_id;
  total_tokens = decoded.total_tokens;
}

-- `decoded` is what the decoder makes of the body of the response that ends the attempts.
module _ (marshal : Payload → Option (List ℕ)) (http : HttpRequest → ℕ → HttpReply)
    (slept : ℕ → Option Failure) (decoded : HttpRequest → Option ResponsePayload) where
  reply_of : Option ResponsePayload → Result ChatResult
  unfolding result_of
  reply_of none = err other
  reply_of (some payload) = ok (result_of payload)

  chat_answer : HttpRequest → Answer → Result ChatResult
  unfolding reply_of
  chat_answer request (failure e) = err e
  chat_answer request response = reply_of (decoded request)

  unfoldable pub send_chat : Client → Option (List ℕ) → List ℕ × Result ChatResult
  unfolding chat_answer
  send_chat c none = ([], err other)
  send_chat c (some body) =
      let request = chat_request c (text "application/json") body in
      let (waits, answer) = do_request_with_retry (λ n. outcome_of (http request n)) slept in
      (waits, chat_answer request answer)

  -- Chat: the waits between its attempts, and what it returns.
  unfoldable pub chat : Client → ChatReq → List ℕ × Result ChatResult
  unfolding send_chat
  chat c req = elim (prepare c req) [
    | some e ↦ ([], err e)
    | none ↦ send_chat c (marshal (payload_of (text "blocking") req))
  ]
