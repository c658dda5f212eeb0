-- ===== src/Circuit/Window.antt =====
-- internal/limiter/circuit.go: the sliding window and the whole history of outcomes.
use dify_game_gateway.Base.{
  ℕ, List, Bool, [], ◌≡◌, leb, ◌∷◌, false, dec_lt, ◌++◌, length, ◌-◌, lt→ltb, ◌&&◌, arith, ltb,
  refl, ◌∙◌, if◌then◌else◌, true, Bool-cases, inl, inr, ap, sym, take_last, take_last-append,
}
use dify_game_gateway.Circuit.{
  closed, open_, Settings, last_of_window, Breaker, record_outcome, reaches,
}

-- The reference: the last `window` outcomes of the history since the breaker closed.
abbrev pub recent : ℕ → List Bool → List Bool
recent window history = take_last window history

last_of_window-eq : (w : ℕ) (events : List Bool) → last_of_window w events ≡ recent w events
unfolding last_of_window
last_of_window-eq w events = elim (dec_lt w (length events)) [
  | yes p ↦ rw (lt→ltb _ _ p)
  | no p ↦
      let short : length events - w ≡ 0 = omega arith in
      let test : ltb w (length events) ≡ false = ground arith in rw (test, short)
]

-- The outcomes of the window reach the threshold, and they are enough.
abbrev pub trips : Settings → List Bool → Bool
trips cfg history =
    leb cfg.min_samples (length (recent cfg.window history))
    && reaches cfg (recent cfg.window history)

-- Some history on the way from `history` through `outcomes` trips the breaker.
abbrev pub ever_trips : Settings → List Bool → List Bool → Bool
ever_trips cfg history [] = false
ever_trips cfg history (b ∷ bs) =
    let rest = ever_trips cfg (history ++ b ∷ []) bs in
    if trips cfg (history ++ b ∷ []) then true else rest

-- Outcomes reported one after the other, each with the time that openLocked would read.
abbrev pub record_all : Breaker → List Bool → (ℕ → ℕ) → Breaker
record_all c [] clock = c
record_all c (b ∷ bs) clock = record_all (record_outcome c b (clock (length bs))) bs clock

record_outcome-closed :
    (c : Breaker) (history : List Bool) (b : Bool) (now : ℕ)
    → c.state ≡ closed
    → c.events ≡ recent c.cfg.window history
    → let c' = record_outcome c b now in
      (trips c.cfg (history ++ b ∷ []) ≡ true → (c'.state ≡ open_) × (c'.opened_at ≡ now))
      × (trips c.cfg (history ++ b ∷ []) ≡ false
          → (c'.state ≡ closed) × (c'.events ≡ recent c.cfg.window (history ++ b ∷ [])))
unfolding record_outcome
record_outcome-closed c history b now h e =
    let events : last_of_window c.cfg.window (c.events ++ b ∷ [])
        ≡ recent c.cfg.window (history ++ b ∷ []) =
      last_of_window-eq c.cfg.window (c.events ++ b ∷ [])
      ∙ rw e (take_last-append c.cfg.window history (b ∷ [])) in
    ground (arith, events)

record_outcome-cfg : (c : Breaker) (b : Bool) (now : ℕ) → (record_outcome c b now).cfg ≡ c.cfg
unfolding record_outcome
record_outcome-cfg c b now = ground arith

record_all-open :
    (c : Breaker) (bs : List Bool) (clock : ℕ → ℕ) → c.state ≡ open_ → record_all c bs clock ≡ c
unfolding record_outcome
record_all-open c [] clock h = refl
record_all-open c (b ∷ bs) clock h =
    let same : record_outcome c b (clock (length bs)) ≡ c = ground arith in
    rw (same, record_all) (record_all-open c bs clock h)

-- A closed breaker whose window holds the last outcomes of a history is opened by a row of further
-- outcomes exactly when, at some point of that row, the last `window` outcomes of the whole history
-- number at least `min_samples` and their share of failures reaches the threshold; if not, it ends
-- closed.
pub record_all-state :
    (c : Breaker) (history bs : List Bool) (clock : ℕ → ℕ)
    → c.state ≡ closed
    → c.events ≡ recent c.cfg.window history
    → (record_all c bs clock).state ≡ (if ever_trips c.cfg history bs then open_ else closed)
record_all-state c history [] clock h e = h
record_all-state c history (b ∷ bs) clock h e =
    let now = clock (length bs) in
    let c' = record_outcome c b now in
    let step = record_outcome-closed c history b now h e in
    let cfg = record_outcome-cfg c b now in
    elim (Bool-cases (trips c.cfg (history ++ b ∷ []))) [
      | inl t ↦
          rw t (
            ap (λ (d : Breaker). d.state) (record_all-open c' bs clock (step.0 t).0) ∙ (step.0 t).0)
      | inr f ↦ rw f (
          record_all-state c' (history ++ b ∷ []) bs clock (step.1 f).0
            ((step.1 f).1 ∙ ap (λ (d : Settings). recent d.window (history ++ b ∷ [])) (sym cfg))
          ∙ ap (λ d. if ever_trips d (history ++ b ∷ []) bs then open_ else closed) cfg)
    ]
