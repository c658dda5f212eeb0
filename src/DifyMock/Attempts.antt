-- ===== src/DifyMock/Attempts.antt =====
-- internal/difymock/difymock.go, handleChat: how the mock answers the attempts of a chat.
use dify_game_gateway.Base.{
  ℕ, zero, suc, ◌+◌, ◌≤◌, [], true, false, Text, text, text_eq, text_eq_refl, List, Option, ◌≡◌,
  refl, ap, ◌∙◌, arith, ◌||◌, leb, is_empty, drop_prefix-append,
}
use dify_game_gateway.Retry.{is_retryable}
use dify_game_gateway.Dify.{Client, HttpRequest, HttpReply, answered, chat_request}
use dify_game_gateway.DifyMock.{
  Mock, Incoming, ChatBehavior, ChatBody, Fields, Course, serve, handle_chat, answer_chat, injects,
  authorized, is_post, Response,
}
use dify_game_gateway.DifyMock.Upstream.{delivered, reply_of, answer, after, upstream_of}

authorized-key :
    (s s' : Mock) (authorization : Text)
    → s.api_key ≡ s'.api_key
    → authorized s authorization ≡ authorized s' authorization
unfolding authorized
authorized-key s s' authorization key = rw key refl

module _ (marshal : Fields → Text) (decode_chat : List ℕ → ChatBody) (unescape : Text → Option Text)
    (decode_user : List ℕ → Text) (redirect : Text → Option Response) (course : Course) where
  -- A chat that the mock does not turn away for what it is.
  abbrev pub IsAccepted : Mock → Incoming → Type 0
  IsAccepted s r =
      (r.path ≡ text "/chat-messages")
      × (is_post r ≡ true)
      × (authorized s r.authorization ≡ true)
      × (is_empty (decode_chat r.body).query ≡ false)
      × (is_empty (decode_chat r.body).user ≡ false)

  answer-accepted :
      (s : Mock) (r : Incoming)
      → IsAccepted s r
      → let (response, s') = answer marshal decode_chat unescape decode_user redirect course r s in
        (response ≡ answer_chat marshal decode_chat course s.behavior (s.chat_n + 1))
        × (s'.behavior ≡ s.behavior)
        × (s'.api_key ≡ s.api_key)
        × (s'.chat_n ≡ s.chat_n + 1)
  unfolding serve handle_chat
  answer-accepted s r (path, post, known, asks, names) =
      let here : text_eq r.path (text "/chat-messages") ≡ true =
        ap (λ p. text_eq p (text "/chat-messages")) path ∙ text_eq_refl (text "/chat-messages") in
      ground (arith, here)

  after-accepted :
      (n : ℕ) (s : Mock) (r : Incoming)
      → IsAccepted s r
      → let s' = after marshal decode_chat unescape decode_user redirect course n r s in
        (s'.behavior ≡ s.behavior) × (s'.api_key ≡ s.api_key) × (s'.chat_n ≡ s.chat_n + n)
  after-accepted zero s r h = (refl, refl, omega arith)
  after-accepted (suc n) s r h =
      let s' = after marshal decode_chat unescape decode_user redirect course n r s in
      let (same, key, counted) = after-accepted n s r h in
      let (path, post, known, asks, names) = h in
      let still : authorized s' r.authorization ≡ true =
        authorized-key s' s r.authorization key ∙ known in
      let (_, same', key', counted') = answer-accepted s' r (path, post, still, asks, names) in
      (same' ∙ same, key' ∙ key, omega arith)

  -- The (n + 1)-th chat since SetChat is answered as the behavior has it for that number.
  answer-after :
      (n : ℕ) (s : Mock) (r : Incoming)
      → IsAccepted s r
      → s.chat_n ≡ 0
      → (answer marshal decode_chat unescape decode_user redirect course r
          (after marshal decode_chat unescape decode_user redirect course n r s)).0
        ≡ answer_chat marshal decode_chat course s.behavior (n + 1)
  answer-after n s r h fresh =
      let s' = after marshal decode_chat unescape decode_user redirect course n r s in
      let (same, key, counted) = after-accepted n s r h in
      let (path, post, known, asks, names) = h in
      let still : authorized s' r.authorization ≡ true =
        authorized-key s' s r.authorization key ∙ known in
      let (response, _, _, _) = answer-accepted s' r (path, post, still, asks, names) in
      let number : s'.chat_n ≡ n = omega arith in response ∙ rw (same, number) refl

  module _ (c : Client) (accept : Text) (body : List ℕ) (s : Mock) where
    abbrev pub request : HttpRequest
    request = chat_request c accept body

    abbrev pub http : HttpRequest → ℕ → HttpReply
    http = upstream_of marshal decode_chat unescape decode_user redirect course c.base_url s

    -- The chat is not turned away, and none has come since SetChat.
    abbrev pub IsFresh : Type 0
    IsFresh = IsAccepted s (delivered request (text "/chat-messages")) × (s.chat_n ≡ 0)

    http-nth :
        (n : ℕ)
        → IsFresh
        → http request (suc n)
          ≡ reply_of (answer_chat marshal decode_chat course s.behavior (suc n))
    unfolding chat_request
    http-nth n (h, fresh) =
        let path = drop_prefix-append c.base_url (text "/chat-messages") in
        let next : n + 1 ≡ suc n = omega arith in
        rw (path, http, upstream_of)
          (rw (answer-after n s (delivered request (text "/chat-messages")) h fresh, next) refl)

    injected :
        (b : ChatBehavior) (n : ℕ)
        → is_retryable b.status ≡ true
        → (b.fail_forever || leb n b.fail_times) ≡ true
        → reply_of (answer_chat marshal decode_chat course b n) ≡ answered b.status b.retry_after
    unfolding answer_chat injects is_retryable
    injected b n busy fails = ground arith

    streamed_at :
        (b : ChatBehavior) (n : ℕ)
        → b.hang ≡ false
        → (b.fail_forever || leb n b.fail_times) ≡ false
        → reply_of (answer_chat marshal decode_chat course b n) ≡ answered 200 []
    unfolding answer_chat injects
    streamed_at b n stays fine = ground arith

    http-at :
        (n : ℕ)
        → 1 ≤ n
        → IsFresh
        → http request n ≡ reply_of (answer_chat marshal decode_chat course s.behavior n)
    http-at zero h fresh = absurd (omega arith)
    http-at (suc n) h fresh = http-nth n fresh

    -- An attempt that the mock refuses for a while, and one that it answers.
    pub http-injected :
        (n : ℕ)
        → 1 ≤ n
        → IsFresh
        → is_retryable s.behavior.status ≡ true
        → (s.behavior.fail_forever || leb n s.behavior.fail_times) ≡ true
        → http request n ≡ answered s.behavior.status s.behavior.retry_after
    http-injected n h fresh busy fails = http-at n h fresh ∙ injected s.behavior n busy fails

    pub http-streamed :
        (n : ℕ)
        → 1 ≤ n
        → IsFresh
        → s.behavior.hang ≡ false
        → (s.behavior.fail_forever || leb n s.behavior.fail_times) ≡ false
        → http request n ≡ answered 200 []
    http-streamed n h fresh stays fine = http-at n h fresh ∙ streamed_at s.behavior n stays fine
