-- ===== src/TestSupport/Dependencies.antt =====
-- internal/testsupport/testsupport.go: Auth, Limiter, Store and Assembler, the parts that answer nothing of note.
use dify_game_gateway.Base.{[], none, some, true, Text, Option, ◌≡◌, false, refl, arith}
use dify_game_gateway.Pipeline.Errors.{Failure, ok, message_replace}
use dify_game_gateway.Pipeline.Effects.{Answers}
use dify_game_gateway.Pipeline.Ends.{late_failure}

-- Auth.Verify: the token is the player.
unfoldable pub verify : Text → Option Text
verify token = some token

-- What a chat is answered by the Limiter, the Store of this conversation and the Assembler; the rest is the upstream's.
unfoldable pub supported : Text → Answers → Answers
supported conversation a = record a {
  allow = (true, none);
  first_get = ok conversation;
  acquire = none;
  second_get = ok conversation;
  build = ok [];
  record_error = none;
  set_error = none;
}

-- The upstream does not replace the message.
abbrev pub IsPlain : Option Failure → Type 0
IsPlain none = Unit
IsPlain (some e) = message_replace e ≡ none

-- With these parts nothing fails late but the upstream.
pub late_failure-supported :
    (conversation : Text) (a : Answers) (stream_error : Option Failure)
    → IsPlain stream_error
    → late_failure (supported conversation a) stream_error ≡ false
unfolding supported
late_failure-supported conversation a none h = ground arith
late_failure-supported conversation a (some e) h = rw h refl
