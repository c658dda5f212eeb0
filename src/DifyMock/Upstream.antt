-- ===== src/DifyMock/Upstream.antt =====
-- internal/difymock/difymock.go as the upstream of internal/dify/client.go: each attempt of a request is answered by
-- the mock as the attempts before it have left it.
use dify_game_gateway.Base.{ℕ, zero, suc, [], none, some, Text, text, List, Option, drop_prefix}
use dify_game_gateway.Dify.{HttpRequest, HttpReply, unreachable, answered}
use dify_game_gateway.DifyMock.{
  Mock, Incoming, Response, http_error, success, hanging, streaming, Fields, ChatBody, Course,
  serve,
}

-- What the mock gets of a request on this path; the client only posts.
abbrev pub delivered : HttpRequest → Text → Incoming
delivered request path = record {
  verb = text "POST";
  path = path;
  authorization = request.authorization;
  accept = request.accept;
  body = request.body;
}

-- What the client sees of a response: a mock that hangs ends with the client's deadline.
abbrev pub reply_of : Response → HttpReply
reply_of (http_error status retry_after body) = answered status retry_after
reply_of (success body) = answered 200 []
reply_of hanging = unreachable
reply_of (streaming writes) = answered 200 []

module _ (marshal : Fields → Text) (decode_chat : List ℕ → ChatBody) (unescape : Text → Option Text)
    (decode_user : List ℕ → Text) (redirect : Text → Option Response) (course : Course) where
  abbrev pub answer : Incoming → Mock → Response × Mock
  answer r s = serve marshal decode_chat unescape decode_user redirect course r s

  -- The mock after some requests of the kind.
  abbrev pub after : ℕ → Incoming → Mock → Mock
  after zero r s = s
  after (suc n) r s = (answer r (after n r s)).1

  -- The upstream of a client: the mock stands at this address, and answers the n-th attempt, from 1 on.
  abbrev pub upstream_of : Text → Mock → HttpRequest → ℕ → HttpReply
  upstream_of server s request zero = unreachable
  upstream_of server s request (suc n) = elim (drop_prefix server request.url) [
    | none ↦ unreachable
    | some path ↦ let r = delivered request path in reply_of (answer r (after n r s)).0
  ]
