-- ===== src/Mux/Tests.antt =====
-- internal/mux/mux.go: the registry on small inputs.
use dify_game_gateway.Base.{text, [], ◌∷◌, refl, lookup, delete, text_eq, ◌≡◌, true}
use dify_game_gateway.Mux.{Registry, done, inflight_count, member, remove_first}

-- Two requests in flight, and one that is over.
abbrev two : Registry
two = record {
  inflight = (text "a", 1) ∷ (text "b", 2) ∷ [];
  waiting = 2;
  next = 3;
  cancelled = 0 ∷ [];
  finished = 0 ∷ [];
  removed = 0 ∷ [];
  leaving = [];
}

-- A call of the done function takes the request out and counts it off, and a second one changes nothing.
done_once :
    let r = done two (text "a") 1 in
    (r.waiting ≡ 1)
    × (inflight_count r ≡ 1)
    × (member 1 r.cancelled ≡ true)
    × (done r (text "a") 1 ≡ r)
unfolding done inflight_count lookup delete text_eq member remove_first
done_once = (refl, refl, refl, refl)
