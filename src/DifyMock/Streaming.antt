-- ===== src/DifyMock/Streaming.antt =====
-- internal/difymock/difymock.go, streamSSE, against internal/dify/sse.go, parseSSE: what a script of events makes the
-- client tell its caller.
use dify_game_gateway.Base.{
  ◌==◌, Bool-cases, ltb, ℕ, suc, [], ◌∷◌, ◌++◌, some, true, false, Text, text, text_eq, List, ◌≡◌,
  refl, arith, if◌then◌else◌, is_empty, append_assoc, Lacks, All-append, subst, inl, inr, Option,
  ◌≤◌, utf8_length, utf8_length-append, leb, ap, none,
}
use dify_game_gateway.Base.Int.{pos}
use dify_game_gateway.Pipeline.Errors.{Failure, message_replaced, stream_failed}
use dify_game_gateway.Sse.{
  data_of, SseEvent, Parsing, Parsed, kind_of, message_kind, end_kind, replace_kind, error_kind,
  ignored_kind, skipped, event_read, read_line, finish, before, deltas_of, message_calls,
  message_state, ended, parse_from, start, parse_sse,
}
use dify_game_gateway.Sse.Calls.{kind-cases}
use dify_game_gateway.Sse.Scanning.{
  max_token_size, scan_lines, scan_lines-event, data_of-braced, data_of-empty,
}
use dify_game_gateway.DifyMock.{Event, stream_from, stream_sse, encode_event, fields_of, Fields}
use dify_game_gateway.DifyMock.Json.{Json, event_of, event_of-fields_of, seen_as}
use dify_game_gateway.DifyMock.Script.{
  FitsScanner, steady, joined, ending, answers, told, error_of, tokens_at, Tells,
}

end_kind_iff : (event : Text) → kind_of event ≡ end_kind → text_eq event (text "message_end") ≡ true
unfolding kind_of
end_kind_iff event h = ground arith

other_kind :
    (event : Text) → kind_of event ≡ replace_kind → text_eq event (text "message_end") ≡ false
unfolding kind_of
other_kind event h = ground arith

error_no_end :
    (event : Text) → kind_of event ≡ error_kind → text_eq event (text "message_end") ≡ false
unfolding kind_of
error_no_end event h = ground arith

module _ (j : Json) where
  -- What the mock writes for these fields.
  abbrev written : Fields → Text
  written m = text "data: " ++ (j.marshal m ++ text "\n\n")

  line_fits :
      (m : Fields)
      → utf8_length (written m) ≤ max_token_size
      → leb max_token_size (utf8_length (text "data: " ++ j.marshal m)) ≡ false
  unfolding utf8_length
  line_fits m h =
      let whole = utf8_length-append (text "data: " ++ j.marshal m) (text "\n\n") in
      let same = append_assoc (text "data: ") (j.marshal m) (text "\n\n") in
      ground (arith, whole, ap utf8_length same)

  -- The client's lines of an event that is written before `t`.
  scan_lines-write :
      (m : Fields) (t : Text) (cause : Option Failure)
      → utf8_length (written m) ≤ max_token_size
      → scan_lines (written m ++ t) cause
        ≡ ((text "data: " ++ j.marshal m) ∷ [] ∷ (scan_lines t cause).0, (scan_lines t cause).1)
  scan_lines-write m t cause h =
      let object = j.marshal_braced m in
      let front : Text = text "data: " ++ (b'{' ∷ j.inner m) in
      let lacks : Lacks b'\n' (front ++ b'}' ∷ []) =
        subst (λ (w : Text). Lacks b'\n' (text "data: " ++ w)) object
          (All-append (λ (c : ℕ). (c == b'\n') ≡ false) (text "data: ") (j.marshal m)
            (refl, (refl, (refl, (refl, (refl, (refl, tt)))))) (j.one_line m)) in
      let fits : leb max_token_size (utf8_length (front ++ b'}' ∷ [])) ≡ false =
        subst (λ (w : Text). leb max_token_size (utf8_length (text "data: " ++ w)) ≡ false) object
          (line_fits m h) in
      rw (object, append_assoc) (scan_lines-event front t b'}' cause refl lacks fits)

  read_line-write :
      (m : Fields) → read_line j.decode (text "data: " ++ j.marshal m) ≡ event_read (event_of m)
  unfolding read_line
  read_line-write m =
      let payload : data_of (text "data: " ++ j.marshal m) ≡ some (j.marshal m) =
        rw (j.marshal_braced m) (data_of-braced (j.inner m)) in
      rw (read_line, payload, j.decode-marshal m) refl

  read_line-empty : read_line j.decode [] ≡ skipped
  unfolding read_line
  read_line-empty = rw (read_line, data_of-empty) refl

  -- What the parser does with an event.
  abbrev after_event : Parsing → SseEvent → List Text → Option Failure → Parsed
  after_event s e lines cause = elim (kind_of e.event) [
    | message_kind ↦
        before (message_calls s e) (parse_from j.decode (message_state s e) lines cause)
    | end_kind ↦ ended s e
    | replace_kind ↦ finish s (some (message_replaced e.answer))
    | error_kind ↦ finish s (some (stream_failed e.code))
    | ignored_kind ↦ parse_from j.decode s lines cause
  ]

  parse_from-empty :
      (s : Parsing) (lines : List Text) (cause : Option Failure)
      → parse_from j.decode s ([] ∷ lines) cause ≡ parse_from j.decode s lines cause
  unfolding parse_from
  parse_from-empty s lines cause = rw (parse_from, read_line-empty) refl

  parse_from-event :
      (s : Parsing) (m : Fields) (lines : List Text) (cause : Option Failure)
      → parse_from j.decode s ((text "data: " ++ j.marshal m) ∷ [] ∷ lines) cause
        ≡ after_event s (event_of m) ([] ∷ lines) cause
  unfolding parse_from
  parse_from-event s m lines cause = rw (parse_from, read_line-write m) refl

  abbrev task_after : Text → Event → Text
  task_after task_id e = if is_empty e.task_id then task_id else e.task_id

  abbrev stamped : Text → Event → Event
  stamped task_id e = record e { task_id = task_after task_id e }

  -- The client's parser from a state on, over what the mock still writes.
  abbrev parse_rest : Parsing → List Text → Option Failure → Parsed
  parse_rest s writes cause =
      let (lines, e) = scan_lines (joined writes) cause in parse_from j.decode s lines e

  stream_from-cons :
      (n : ℕ) (task_id : Text) (e : Event) (events : List Event)
      → stream_from j.marshal steady n task_id (e ∷ events)
        ≡ (text "data: " ++ (j.marshal (fields_of (stamped task_id e)) ++ text "\n\n"))
          ∷ stream_from j.marshal steady (suc n) (task_after task_id e) events
  unfolding stream_from encode_event
  stream_from-cons n task_id e events = elim (Bool-cases (ltb 0 e.delay)) [
    | inl later ↦ rw later refl
    | inr now ↦ rw now refl
  ]

  abbrev writes_of : ℕ → Text → List Event → List Text
  writes_of n task_id events = stream_from j.marshal steady n task_id events

  fits-cons :
      (n : ℕ) (task_id : Text) (e : Event) (events : List Event)
      → FitsScanner (writes_of n task_id (e ∷ events))
      → (utf8_length (written (fields_of (stamped task_id e))) ≤ max_token_size)
        × FitsScanner (writes_of (suc n) (task_after task_id e) events)
  fits-cons n task_id e events fits = rw (stream_from-cons n task_id e events) at fits

  -- The parser takes the events of the stream one by one.
  parse_from-cons :
      (s : Parsing) (n : ℕ) (task_id : Text) (e : Event) (events : List Event)
      (cause : Option Failure)
      → FitsScanner (writes_of n task_id (e ∷ events))
      → let (lines, stopped) =
          scan_lines (joined (writes_of (suc n) (task_after task_id e) events)) cause in
        parse_rest s (writes_of n task_id (e ∷ events)) cause
        ≡ after_event s (seen_as (stamped task_id e)) ([] ∷ lines) stopped
  parse_from-cons s n task_id e events cause fits =
      let (short, _) = fits-cons n task_id e events fits in
      let m = fields_of (stamped task_id e) in
      let later = joined (writes_of (suc n) (task_after task_id e) events) in
      rw
        (
          stream_from-cons n task_id e events,
          scan_lines-write m later cause short,
          parse_from-event,
          event_of-fields_of,
        )
        refl

  parse_from-nil :
      (s : Parsing) (n : ℕ) (task_id : Text) (cause : Option Failure)
      → parse_rest s (writes_of n task_id []) cause ≡ finish s (error_of cause none)
  unfolding parse_from stream_from scan_lines
  parse_from-nil s n task_id none = refl
  parse_from-nil s n task_id (some e) = refl

  parse_from-stream_from :
      (s : Parsing) (n : ℕ) (task_id : Text) (events : List Event) (cause : Option Failure)
      → FitsScanner (writes_of n task_id events)
      → Tells
          (if s.event_notified then answers events else told task_id events)
          (error_of cause (ending events))
          (tokens_at s.result.total_tokens (ending events))
          (parse_rest s (writes_of n task_id events) cause)
  unfolding finish ended before message_calls message_state deltas_of
  parse_from-stream_from s n task_id [] cause fits =
      ground (arith, parse_from-nil s n task_id cause)
  parse_from-stream_from s n task_id (e ∷ events) cause fits =
      let step = parse_from-cons s n task_id e events cause fits in
      let (_, rest) = fits-cons n task_id e events fits in
      let task = task_after task_id e in
      elim (kind-cases (kind_of e.event)) [
        | inl message ↦
            let ev = seen_as (stamped task_id e) in
            let later =
              parse_from-stream_from (message_state s ev) (suc n) task events cause rest in
            rw (step, message, after_event, answers, told, ending)
              (rw (parse_from-empty (message_state s ev)) (ground (arith, later)))
        | inr (inl ignored) ↦
            let later = parse_from-stream_from s (suc n) task events cause rest in
            rw (step, ignored, after_event, answers, told, ending, parse_from-empty) later
        | inr (inr (inl over)) ↦
            rw (step, over, after_event, answers, told, ending, end_kind_iff e.event over)
              (ground arith)
        | inr (inr (inr (inl over))) ↦
            rw (step, over, after_event, answers, told, ending, other_kind e.event over)
              (ground arith)
        | inr (inr (inr (inr over))) ↦
            rw (step, over, after_event, answers, told, ending, error_no_end e.event over)
              (ground arith)
      ]

  -- A script of events reaches the caller of the client whole: when the mock streams it, each write has at most the
  -- 4 MiB of the scanner and the client stays, the caller hears of the task of the first message (its own, or the
  -- last one named before it) and then each answer that is not empty, up to the first event that ends the stream,
  -- and nothing after it; it gets the tokens of a message_end with no error, the fallback of a replacement, the code
  -- of an error, and of a script that has no such event that the stream is incomplete, or the error that its reading
  -- failed with.
  pub parse_sse-stream_sse :
      (events : List Event) (cause : Option Failure)
      → FitsScanner (stream_sse j.marshal steady events)
      → let (lines, stopped) = scan_lines (joined (stream_sse j.marshal steady events)) cause in
        Tells
          (told [] events)
          (error_of cause (ending events))
          (tokens_at (pos 0) (ending events))
          (parse_sse j.decode lines stopped)
  unfolding parse_sse stream_sse
  parse_sse-stream_sse events cause fits =
      parse_from-stream_from (start j.decode) 0 [] events cause fits
