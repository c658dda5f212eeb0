-- ===== src/Codec/Tests.antt =====
-- internal/codec: the framing and the envelopes on small inputs.
use dify_game_gateway.Base.{ℕ, List, [], ◌∷◌, ◌≡◌, refl, arith, take}
use dify_game_gateway.Codec.{closed, err, unexpected_eof, put_uint32, frame, read_frame}
use dify_game_gateway.Codec.Errors.{read_frame_truncated}

abbrev hello : List ℕ
hello = 104 ∷ 101 ∷ 108 ∷ 108 ∷ 111 ∷ []

abbrev three_payloads : List (List ℕ)
three_payloads = hello ∷ [] ∷ (7 ∷ []) ∷ []

frame-hello : frame hello ≡ 0 ∷ 0 ∷ 0 ∷ 5 ∷ hello
unfolding frame put_uint32
frame-hello = refl

read_frame_truncated_example :
    read_frame (record { pending = take 4 (frame hello); ending = closed }) ≡ err unexpected_eof
unfolding frame put_uint32
read_frame_truncated_example = read_frame_truncated hello 4 (omega arith) (omega arith)
