-- ===== src/Lib.antt =====
-- The core of dify_game_gateway, a TCP gateway between game clients and a Dify upstream.
--
-- A client speaks length-prefixed frames (internal/codec/frame.go: `Codec`) that carry the envelopes
-- of api/proto/gateway.proto (`Wire`). internal/listener/listener.go accepts the connections and reads the
-- frames of each one after the other (`Listener`): it binds the session by a token (internal/auth/auth.go and
-- internal/session/session.go: `Session`), starts a goroutine for each chat and registers it
-- (internal/mux/mux.go: `Mux`). A chat runs through internal/pipeline/handler.go (`Pipeline`): the
-- guards (internal/limiter/limiter.go: `Limiter`, and the breaker of internal/limiter/circuit.go:
-- `Circuit`), the conversation of internal/store/store.go (`Store`), the variables of
-- internal/context/context.go (`Context`), the moderation of internal/moderation/moderation.go
-- (`Moderation`) around the stream that internal/dify/sse.go reads (`Sse`), after the retries of
-- internal/dify/client.go (`Retry`); `Dify` has the requests and their answers, those of
-- internal/dify/api.go too, and
-- internal/gateway/dify_router.go (`Router`) the App that an NPC is sent to. internal/gateway/runtime.go
-- (`Gateway`) builds the parts from internal/config/config.go (`Config`) and runs them. `Serving` joins
-- the handler with the limiter: a row of chats acts on one limiter. `DifyMock` is the upstream of the tests
-- (internal/difymock/difymock.go), to which the client of `Dify` is joined, and `TestSupport` the game client of
-- the tests and of the load test (internal/testsupport/testsupport.go), which reads what `Pipeline` sends.
--
-- How the code is modelled:
--   - A method that runs under a mutex, and a Lua script, is one step from a state to the next; what
--     the done function of a request does before its lock and after it are steps of their own (`Mux`). The
--     names are those of the code in snake case; a method is split at its branches into functions
--     that stand before it.
--   - The handlers of the pipeline give the row of the effects that they have, in order, for all
--     answers of the parts that they call (`Pipeline.Effects.Answers`). An error is its kind, as far
--     as errors.Is and errors.As tell (`Pipeline.Errors.Failure`).
--   - Redis is an interface (`Limiter.Redis.Redis`) with the documented laws of its commands;
--     `Limiter.Memory` is an implementation in memory. A call of Redis is delivered, lost before it
--     ran, or lost after it ran.
--     An expiry of a plain value ends it (`Store.Values`). A PEXPIRE of a sorted set (`Limiter.Redis`) changes
--     nothing that the scripts read, since at its end every entry has a score that their next purge removes.
--   - The clock is an argument of each method that reads it. Durations and times are natural numbers:
--     nanoseconds in the breaker, milliseconds in the scripts. An int is an unbounded integer where
--     the code keeps it in range and has its wrap-around written out where it may overflow.
--   - A text is its list of runes; where the code compares a length in bytes, `utf8_length` stands.
--     Texts that are not valid UTF-8 are not modelled.
--   - The failure threshold of the breaker is a ratio of integers in place of a float64; with windows
--     below 2^52 / denominator the comparison of the rounded quotients gives the same.
--   - The JWT library, the lower-case table of Unicode, the JSON decoder, protobuf
--     (`Codec.Envelope`, internal/codec/envelope.go), the parsing of PEM keys and of durations and the
--     answers of HTTP calls are parameters.
--
-- Fuel stands in five places: the reading of a whole connection (`Codec.Roundtrip.read_all`), where one
-- more than the number of frames is enough, the read loop of the listener (`Listener.Serve`), where one
-- more than the number of bytes is enough, as each turn takes at least the four bytes of a header, the
-- loop of ReadTurn (`TestSupport.read_turn`), of which the same holds, the
-- digits of a number (`Base.Strings.decimal`), where one more than the number is, and the loop of the
-- retries, which is bounded in the code by its three attempts.
--
-- In `Serving` the calls of one chat are made one after the other, and the chats too; `Limiter` has the
-- scripts under calls of any client.
--
-- Not modelled: logging and metrics (other than the gauges and counters that are fields), sockets and
-- health handlers, HTTP itself, the load test and the entry point.
pub mod Base
pub mod Codec
pub mod Circuit
pub mod Moderation
pub mod TestSupport
pub mod Wire
pub mod Pipeline
pub mod Limiter
pub mod Mux
pub mod Serving
pub mod Config
pub mod Dify
pub mod DifyMock
pub mod Router
pub mod Gateway
pub mod Session
pub mod Listener
pub mod Context
pub mod Store
pub mod Sse
pub mod Retry
