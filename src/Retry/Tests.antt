-- ===== src/Retry/Tests.antt =====
-- internal/dify/client.go: the backoff on small inputs, in nanoseconds.
use dify_game_gateway.Base.{[], ◌∷◌, ◌≡◌, refl}
use dify_game_gateway.Retry.{retry_backoff, backoff_from}

backoffs :
    retry_backoff 0 ∷ retry_backoff 1 ∷ retry_backoff 2 ∷ retry_backoff 9 ∷ []
    ≡ 500_000_000 ∷ 500_000_000 ∷ 1_000_000_000 ∷ 5_000_000_000 ∷ []
unfolding retry_backoff backoff_from
backoffs = refl
