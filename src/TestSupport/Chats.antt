-- ===== src/TestSupport/Chats.antt =====
-- internal/testsupport/testsupport.go, ReadTurn, against internal/pipeline/handler.go, HandleChat.
use dify_game_gateway.Base.{
  Bool-cases, ℕ, suc, [], ◌∷◌, none, some, true, false, Text, List, Bool, Option, ◌≡◌, refl, All,
  arith, ◌||◌, ltb, inl, inr,
}
use dify_game_gateway.Wire.{
  ChatRequest, ServerEnvelope, auth_result, chunk, done, error, pong, blocked,
}
use dify_game_gateway.Codec.{closed}
use dify_game_gateway.Codec.Sequence.{IsWritable, write_each}
use dify_game_gateway.Pipeline.Tally.{count, is_end}
use dify_game_gateway.Pipeline.Order.{is_chunk, IsOrdered, handle_chat-IsOrdered}
use dify_game_gateway.Pipeline.Ends.{late_failure, handle_chat-ends}
use dify_game_gateway.Pipeline.Effects.{Effect, sent, Handler, Answers}
use dify_game_gateway.Pipeline.Chat.{handle_chat}
use dify_game_gateway.TestSupport.{Turn, started, on_envelope, read_turn}
use dify_game_gateway.TestSupport.Dependencies.{supported, IsPlain, late_failure-supported}
use dify_game_gateway.TestSupport.Turns.{turn_of, read_turn-write_each}

-- The frame that an effect sends.
abbrev pub frame_of : Effect → Option ServerEnvelope
frame_of (sent e) = some e
frame_of _ = none

-- The frames of a chat, as they go to the client.
abbrev pub frames_sent : List Effect → List ServerEnvelope
frames_sent [] = []
frames_sent (e ∷ es) = elim (frame_of e) [ some msg ↦ msg ∷ frames_sent es | none ↦ frames_sent es ]

-- A frame that ends a chat well for the client: its end, or a blocked answer.
abbrev pub is_settled : Effect → Bool
is_settled (sent (done _ _ _)) = true
is_settled (sent (blocked _ _)) = true
is_settled _ = false

-- A turn that tells how a chat ended, and whether a part of its answer came.
abbrev pub IsTrue : Turn → Turn → List Effect → Type 0
IsTrue before t es =
    (t.ok ≡ ltb 0 (count is_settled es))
    × (t.saw_token ≡ (before.saw_token || ltb 0 (count is_chunk es)))

settled_ends : (es : List Effect) → count is_end es ≡ 0 → count is_settled es ≡ 0
settled_ends [] h = refl
settled_ends (sent (done _ _ _) ∷ es) h = absurd (omega arith)
settled_ends (sent (blocked _ _) ∷ es) h = absurd (omega arith)
settled_ends (sent (error _ _ _) ∷ es) h = absurd (omega arith)
settled_ends (sent (chunk _ _) ∷ es) h = settled_ends es h
settled_ends (sent (auth_result _ _) ∷ es) h = settled_ends es h
settled_ends (sent pong ∷ es) h = settled_ends es h
settled_ends (e ∷ es) h = settled_ends es h

module _ (since : ℕ → ℕ) where
  sent-IsTrue :
      (n : ℕ) (t : Turn) (msg : ServerEnvelope) (es : List Effect)
      → t.ok ≡ false
      → (is_end (sent msg) ≡ true → count is_chunk es ≡ 0)
      → count is_end (sent msg ∷ es) ≡ 1
      → ((t' : Turn)
          → t'.ok ≡ false
          → count is_end es ≡ 1
          → IsTrue t' (turn_of since (suc n) t' (frames_sent es)) es)
      → IsTrue t (turn_of since n t (msg ∷ frames_sent es)) (sent msg ∷ es)
  unfolding on_envelope
  sent-IsTrue n t (done _ _ _) es fresh now ends later = ground (arith, now refl, settled_ends es)
  sent-IsTrue n t (blocked _ _) es fresh now ends later = ground (arith, now refl, settled_ends es)
  sent-IsTrue n t (error _ _ _) es fresh now ends later = ground (arith, now refl, settled_ends es)
  sent-IsTrue n t (chunk _ _) es fresh now ends later =
      let first : Turn = record t { first_token = since n; saw_token = true } in
      elim (Bool-cases t.saw_token) [
        | inl seen ↦ ground (arith, seen, later t fresh ends)
        | inr unseen ↦ ground (arith, unseen, later first fresh ends)
      ]
  sent-IsTrue n t (auth_result _ _) es fresh now ends later = later t fresh ends
  sent-IsTrue n t pong es fresh now ends later = later t fresh ends

  turn_of-IsTrue :
      (n : ℕ) (t : Turn) (es : List Effect)
      → t.ok ≡ false
      → IsOrdered es
      → count is_end es ≡ 1
      → IsTrue t (turn_of since n t (frames_sent es)) es
  turn_of-IsTrue n t [] fresh ordered ends = absurd (omega arith)
  turn_of-IsTrue n t (sent msg ∷ es) fresh (now, ordered) ends =
      sent-IsTrue n t msg es fresh now ends
        λ t' unsettled left. turn_of-IsTrue (suc n) t' es unsettled ordered left
  turn_of-IsTrue n t (e ∷ es) fresh (now, ordered) ends = turn_of-IsTrue n t es fresh ordered ends

module _ (marshal : ServerEnvelope → Option (List ℕ)) (unmarshal : List ℕ → Option ServerEnvelope)
    (since : ℕ → ℕ) where
  -- A turn tells the truth of a chat: when the frames that HandleChat sends are written one after the other and
  -- protobuf can write each within the limit of a frame and read it back, ReadTurn comes to its end on them; it is
  -- ok exactly if the chat has a done or a blocked frame, and has seen a token exactly if the chat has a chunk, unless
  -- the upstream replaces the message, or the accounting or the storing of a completed stream fails.
  pub read_turn-handle_chat :
      (h : Handler) (a : Answers) (player : Text) (req : ChatRequest)
      → late_failure a a.stream_error ≡ false
      → All (IsWritable marshal unmarshal) (frames_sent (handle_chat h a player req))
      → (t : Turn) × (read_turn unmarshal since (record {
        pending = write_each marshal (frames_sent (handle_chat h a player req)) [];
        ending = closed;
      })
          ≡ some t)
        × (t.ok ≡ ltb 0 (count is_settled (handle_chat h a player req)))
        × (t.saw_token ≡ ltb 0 (count is_chunk (handle_chat h a player req)))
  read_turn-handle_chat h a player req calm writable =
      let es = handle_chat h a player req in
      let (ok, saw) =
        turn_of-IsTrue since 0 started es refl (handle_chat-IsOrdered h a player req)
          (handle_chat-ends h a player req calm) in
      (
        turn_of since 0 started (frames_sent es),
        read_turn-write_each marshal unmarshal since (frames_sent es) writable,
        ok,
        saw,
      )

  -- With the parts of the harness a turn is true of each chat whose message the upstream does not replace.
  read_turn-supported :
      (h : Handler) (conversation : Text) (a : Answers) (player : Text) (req : ChatRequest)
      → IsPlain a.stream_error
      → All
          (IsWritable marshal unmarshal)
          (frames_sent (handle_chat h (supported conversation a) player req))
      → (t : Turn) × (read_turn unmarshal since (record {
        pending =
            write_each marshal
              (frames_sent (handle_chat h (supported conversation a) player req))
              [];
        ending = closed;
      })
          ≡ some t)
        × (t.ok ≡ ltb 0 (count is_settled (handle_chat h (supported conversation a) player req)))
        × (t.saw_token
            ≡ ltb 0 (count is_chunk (handle_chat h (supported conversation a) player req)))
  unfolding supported
  read_turn-supported h conversation a player req plain writable =
      read_turn-handle_chat h (supported conversation a) player req
        (late_failure-supported conversation a a.stream_error plain) writable
