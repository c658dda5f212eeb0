-- ===== src/Sse/Calls.antt =====
-- internal/dify/sse.go: what a stream calls back, and what it reports at its end.
use dify_game_gateway.Base.{
  Text, Bool, true, false, List, [], ◌∷◌, ◌++◌, Option, none, if◌then◌else◌, ◌≡◌, ◌≢◌, ◌⊎◌, inl,
  inr, refl, arith, some,
}
use dify_game_gateway.Base.Int.{ℤ, pos}
use mathlib.Core.List.{Memᴰ}
use dify_game_gateway.Pipeline.Errors.{Failure}
use dify_game_gateway.Pipeline.Effects.{StreamEvent, on_event}
use dify_game_gateway.Sse.{
  SseEvent, Parsing, Parsed, Read, Kind, kind_of, message_kind, end_kind, replace_kind, error_kind,
  ignored_kind, skipped, undecodable, event_read, read_line, finish, before, deltas_of,
  message_calls, message_state, ended, parse_from, start, parse_sse,
}

pub kind-cases :
    (k : Kind)
    → (k ≡ message_kind)
      ⊎ ((k ≡ ignored_kind) ⊎ ((k ≡ end_kind) ⊎ ((k ≡ replace_kind) ⊎ (k ≡ error_kind))))
kind-cases message_kind = inl refl
kind-cases ignored_kind = inr (inl refl)
kind-cases end_kind = inr (inr (inl refl))
kind-cases replace_kind = inr (inr (inr (inl refl)))
kind-cases error_kind = inr (inr (inr (inr refl)))

module _ (decode : Text → Option SseEvent) where
  read-cases :
      (r : Read decode)
      → (r ≡ skipped) ⊎ ((r ≡ undecodable) ⊎ ((e : SseEvent) × (r ≡ event_read e)))
  read-cases skipped = inl refl
  read-cases undecodable = inr (inl refl)
  read-cases (event_read e) = inr (inr (e, refl))

  -- The messages that come before the stream ends or breaks.
  abbrev pub messages : List Text → List SseEvent
  messages [] = []
  messages (raw ∷ lines) = elim (read_line decode raw) [
    | skipped ↦ messages lines
    | undecodable ↦ []
    | event_read e ↦ elim (kind_of e.event) [
      | message_kind ↦ e ∷ messages lines
      | end_kind ↦ []
      | replace_kind ↦ []
      | error_kind ↦ []
      | ignored_kind ↦ messages lines
    ]
  ]

  abbrev pub deltas : List SseEvent → List StreamEvent
  deltas [] = []
  deltas (e ∷ es) = deltas_of e ++ deltas es

  -- The task is announced with the first message, before its text.
  abbrev pub calls_of : Bool → List SseEvent → List StreamEvent
  calls_of notified [] = []
  calls_of notified (e ∷ es) =
      (if notified then [] else on_event e.task_id ∷ []) ++ (deltas_of e ++ deltas es)

  notified_calls : (es : List SseEvent) → calls_of true es ≡ deltas es
  notified_calls [] = refl
  notified_calls (e ∷ es) = refl

  parse_from-calls :
      (s : Parsing) (lines : List Text) (cause : Option Failure)
      → (parse_from decode s lines cause).calls ≡ calls_of s.event_notified (messages lines)
  unfolding parse_from finish before message_calls message_state ended
  parse_from-calls s [] none = refl
  parse_from-calls s [] (some e) = refl
  parse_from-calls s (raw ∷ lines) cause = elim (read-cases (read_line decode raw)) [
    | inl skip ↦ rw (skip, parse_from, messages) (parse_from-calls s lines cause)
    | inr (inl bad) ↦ rw (bad, parse_from, messages) refl
    | inr (inr (e, good)) ↦
        rw (good, parse_from, messages)
          (elim (kind-cases (kind_of e.event)) [
            | inl message ↦
                let later = parse_from-calls (message_state s e) lines cause in
                rw message (ground (arith, later, notified_calls (messages lines)))
            | inr (inl ignored) ↦ rw ignored (parse_from-calls s lines cause)
            | inr (inr (inl over)) ↦ rw over refl
            | inr (inr (inr (inl over))) ↦ rw over refl
            | inr (inr (inr (inr over))) ↦ rw over refl
          ])
  ]

  -- The caller hears of a stream exactly its messages up to the end or the first fault, in order: the
  -- task once, with the first message and before any text, and each text that is not empty.
  pub parse_sse-calls :
      (lines : List Text) (cause : Option Failure)
      → (parse_sse decode lines cause).calls ≡ calls_of false (messages lines)
  unfolding parse_sse
  parse_sse-calls lines cause = parse_from-calls (start decode) lines cause

  -- What a parse reports: a success is the end that one of the lines brings, with its tokens; any
  -- other end has the tokens from before.
  abbrev pub Reports : ℤ → List Text → Parsed → Type 0
  Reports tokens lines p =
      ((p.error ≡ none)
        × ((e : SseEvent) × (raw : Text) × Memᴰ raw lines
            × (read_line decode raw ≡ event_read e)
            × (kind_of e.event ≡ end_kind)
            × (p.result.total_tokens ≡ e.total_tokens)))
      ⊎ ((p.error ≢ none) × (p.result.total_tokens ≡ tokens))

  later-Reports :
      (tokens : ℤ) (raw : Text) (lines : List Text) (p : Parsed)
      → Reports tokens lines p
      → Reports tokens (raw ∷ lines) p
  later-Reports tokens raw lines p (inl (fine, (e, line, m, reads, ends, same))) =
      inl (fine, (e, line, Memᴰ.tail m, reads, ends, same))
  later-Reports tokens raw lines p (inr bad) = inr bad

  parse_from-Reports :
      (s : Parsing) (lines : List Text) (cause : Option Failure)
      → Reports s.result.total_tokens lines (parse_from decode s lines cause)
  unfolding parse_from finish before message_state ended
  parse_from-Reports s [] none = (inr (λ h. cc, refl))
  parse_from-Reports s [] (some e) = (inr (λ h. cc, refl))
  parse_from-Reports s (raw ∷ lines) cause = elim (read-cases (read_line decode raw)) [
    | inl skip ↦
        rw (skip, parse_from)
          (later-Reports _ raw lines (parse_from decode s lines cause)
            (parse_from-Reports s lines cause))
    | inr (inl bad) ↦ rw (bad, parse_from) (inr (λ h. cc, refl))
    | inr (inr (e, good)) ↦ elim (kind-cases (kind_of e.event)) [
      | inl message ↦
          let later = parse_from-Reports (message_state s e) lines cause in
          rw (good, message, parse_from)
            (later-Reports s.result.total_tokens raw lines
              (before (message_calls s e) (parse_from decode (message_state s e) lines cause))
              later)
      | inr (inl ignored) ↦
          rw (good, ignored, parse_from)
            (later-Reports _ raw lines (parse_from decode s lines cause)
              (parse_from-Reports s lines cause))
      | inr (inr (inl over)) ↦
          rw (good, over, parse_from) (inl (refl, (e, raw, Memᴰ.head refl, good, over, refl)))
      | inr (inr (inr (inl over))) ↦ rw (good, over, parse_from) (inr (λ h. cc, refl))
      | inr (inr (inr (inr over))) ↦ rw (good, over, parse_from) (inr (λ h. cc, refl))
    ]
  ]

  -- A stream succeeds only by a message_end that one of its lines brings, and reports the tokens that
  -- this event names; on every failure (a failed read, data that is no JSON, an error or replacement,
  -- an end without message_end) it reports none.
  pub parse_sse-tokens :
      (lines : List Text) (cause : Option Failure)
      → Reports (pos 0) lines (parse_sse decode lines cause)
  unfolding parse_sse
  parse_sse-tokens lines cause = parse_from-Reports (start decode) lines cause
