-- ===== src/Moderation/Detection.antt =====
-- internal/moderation/moderation.go: the filter as a guard under the keyword policy.
use dify_game_gateway.Moderation.Conservation.{
  push_all, flush-blocked, push-blocked, filter_stream, push-open, flush-open,
}
use dify_game_gateway.Moderation.{
  contains, OutputFilter, free_of, flush, Verdict, push, moderate, drain, drain_selected,
  default_overlap_runes, moderator_of, select, new_policy_moderator, allowed, normalize_words,
  new_keyword_policy, Moderator, check_output, new_output_filter,
}
use dify_game_gateway.Moderation.Search.{contains-append, last_runes-eq}
use dify_game_gateway.Base.{
  [], ◌∷◌, none, some, true, false, inl, inr, refl, suc, Text, Bool, length, ℕ, ◌≤◌, ◌≡◌, arith,
  take_last, ◌++◌, sym, dec_le, List, map, ap, append_assoc, drop, ◌-◌, take, ◌∙◌, take-append-drop,
  length-map, length-drop, subst, append-nil, ap₂, Bool-cases, take_last-append, Option, is_empty,
  trim_space,
}
use mathlib.Core.List.{map-append, Memᴰ}

module _ (lower : ℕ → ℕ) where
  free_of-mem :
      (ws : List Text) (w s : Text) → Memᴰ w ws → free_of lower ws s ≡ true → contains w s ≡ false
  unfolding free_of
  free_of-mem [] w s m h = elim m [ ]
  free_of-mem (v ∷ ws) w s (Memᴰ.head e) h = ground arith
  free_of-mem (v ∷ ws) w s (Memᴰ.tail m) h = free_of-mem ws w s m (ground arith)

  -- The word w, and how much of what went out the filter watches.
  module _ (w : Text) (n : ℕ) (short : length w ≤ suc n) where
    abbrev Lacks : Text → Type 0
    Lacks s = contains w (map lower s) ≡ false

    record Clean (out : Text) (f : OutputFilter) : Type 0 where
      clean : Lacks out
      guarded : (s : Text) → (f.mod_.check_output s).0 ≡ true → Lacks s
      runes : f.overlap_runes ≡ n
      seen : f.blocked ≡ false → f.overlap ≡ take_last n out

    lacks-joined :
        (before overlap after : Text)
        → n ≤ length overlap
        → Lacks (before ++ overlap)
        → Lacks (overlap ++ after)
        → Lacks ((before ++ overlap) ++ after)
    lacks-joined before overlap after enough old new =
        let same = length-map lower overlap in
        rw (append_assoc before overlap after, map-append lower before, map-append lower overlap)
          (contains-append w (map lower before) (map lower overlap) (map lower after) (omega arith)
            (rw (map-append lower before overlap) at old)
            (rw (map-append lower overlap after) at new))

    -- A segment that passed together with the overlap brings no occurrence with it.
    lacks-append :
        (out segment : Text)
        → Lacks out
        → Lacks (take_last n out ++ segment)
        → Lacks (out ++ segment)
    lacks-append out segment old new = elim (dec_le (length out) n) [
      | yes p ↦ let all : length out - n ≡ 0 = omega arith in rw (ap (λ k. drop k out) all) at new
      | no p ↦
          let before : Text = take (length out - n) out in
          let overlap : Text = take_last n out in
          let split : before ++ overlap ≡ out = take-append-drop (length out - n) out in
          let enough = length-drop (length out - n) out in
          subst (λ s. Lacks (s ++ segment)) split
            (lacks-joined before overlap segment (omega arith) (subst Lacks (sym split) old) new)
    ]

    drain_nothing : (out : Text) (f : OutputFilter) → Clean out f → Clean (out ++ []) f
    drain_nothing out f c = subst (λ s. Clean s f) (sym (append-nil out)) c

    moderate-Clean :
        (out segment remainder : Text) (f : OutputFilter) (answer : Bool × Text)
        → f.blocked ≡ false
        → f.mod_.check_output (f.overlap ++ segment) ≡ answer
        → Clean out f
        → let (v, f') = moderate f segment remainder answer in Clean (out ++ v.emit) f'
    unfolding moderate
    moderate-Clean out segment remainder f (false, fb) open_ e c = record {
      clean = rw (append-nil out) c.clean;
      guarded = c.guarded;
      runes = c.runes;
      seen = λ b. cc;
    }
    moderate-Clean out segment remainder f (true, fb) open_ e c = record {
      clean =
          lacks-append out segment c.clean
            (subst (λ s. Lacks (s ++ segment)) (c.seen open_) (c.guarded _ (ap (λ a. a.0) e)));
      guarded = c.guarded;
      runes = c.runes;
      seen = λ _.
          last_runes-eq (f.overlap ++ segment) f.overlap_runes
          ∙ ap₂ (λ k s. take_last k (s ++ segment)) c.runes (c.seen open_)
          ∙ take_last-append n out segment;
    }

    drain-Clean :
        (out : Text) (f : OutputFilter) (final : Bool)
        → f.blocked ≡ false
        → Clean out f
        → let (v, f') = drain f final in Clean (out ++ v.emit) f'
    unfolding drain drain_selected
    drain-Clean out f final open_ c = elim (Bool-cases (is_empty f.buf)) [
      | inl e ↦ rw e (drain_nothing out f c)
      | inr e ↦ rw e (go (select f final))
    ]
      where
        go :
            (o : Option (Text × Text))
            → let (v, f') = drain_selected f o in Clean (out ++ v.emit) f'
        go none = drain_nothing out f c
        go (some (segment, remainder)) = moderate-Clean out segment remainder f _ open_ refl c

    abbrev After : Text → Verdict × OutputFilter → Type 0
    After out (v, f) = Clean (out ++ v.emit) f

    push-Clean :
        (out : Text) (f : OutputFilter) (delta : Text) → Clean out f → After out (push f delta)
    push-Clean out f delta c = elim (Bool-cases f.blocked) [
      | inl b ↦ subst (After out) (sym (push-blocked f delta b)) (drain_nothing out f c)
      | inr b ↦
          let grown = record f { buf = f.buf ++ delta } in
          subst (After out) (sym (push-open f delta b)) (
            drain-Clean out grown false b
              (record { clean = c.clean; guarded = c.guarded; runes = c.runes; seen = c.seen }))
    ]

    flush-Clean : (out : Text) (f : OutputFilter) → Clean out f → After out (flush f)
    flush-Clean out f c = elim (Bool-cases f.blocked) [
      | inl b ↦ subst (After out) (sym (flush-blocked f b)) (drain_nothing out f c)
      | inr b ↦ subst (After out) (sym (flush-open f b)) (drain-Clean out f true b c)
    ]

    push_all-Clean :
        (out : Text) (f : OutputFilter) (deltas : List Text)
        → Clean out f
        → Clean (out ++ (push_all f deltas).0) (push_all f deltas).1
    push_all-Clean out f [] c = drain_nothing out f c
    push_all-Clean out f (delta ∷ deltas) c =
        let (v, f') = push f delta in
        subst (λ s. Clean s (push_all f' deltas).1) (append_assoc out v.emit (push_all f' deltas).0)
          (push_all-Clean (out ++ v.emit) f' deltas (push-Clean out f delta c))

nonempty-cons :
    (v w : Text) (ws : List Text)
    → is_empty v ≡ false
    → (Memᴰ w ws → is_empty w ≡ false)
    → Memᴰ w (v ∷ ws)
    → is_empty w ≡ false
nonempty-cons v w ws e rest (Memᴰ.head h) = ap (λ s. is_empty s) h ∙ e
nonempty-cons v w ws e rest (Memᴰ.tail m) = rest m

normalize_words-nonempty :
    (lower : ℕ → ℕ) (words : List Text) (w : Text)
    → Memᴰ w (normalize_words lower words)
    → is_empty w ≡ false
unfolding normalize_words
normalize_words-nonempty lower [] w m = elim m [ ]
normalize_words-nonempty lower (v ∷ words) w m =
    let rest = normalize_words-nonempty lower words w in
    elim (Bool-cases (is_empty (map lower (trim_space v)))) [
      | inl e ↦ rest (rw e at m)
      | inr e ↦ nonempty-cons _ w _ e rest (rw e at m)
    ]

-- The moderator that the gateway builds from a list of words.
abbrev pub keyword_moderator : (ℕ → ℕ) → List Text → Moderator
keyword_moderator lower words =
    moderator_of (new_policy_moderator (allowed lower (new_keyword_policy lower words)))

keyword_moderator-guards :
    (lower : ℕ → ℕ) (words : List Text) (w : Text)
    → Memᴰ w (new_keyword_policy lower words).banned
    → (s : Text) → ((keyword_moderator lower words).check_output s).0 ≡ true
    → contains w (map lower s) ≡ false
unfolding moderator_of check_output new_policy_moderator allowed
keyword_moderator-guards lower words w m s h =
    free_of-mem lower (new_keyword_policy lower words).banned w (map lower s) m (ground arith)

-- Under the keyword policy no banned word of at most 33 runes reaches the player in the text that is
-- let through, taken together over all its chunks, however the response is cut into deltas and
-- however the filter cuts it into segments. Case is ignored, by the lower-case table.
pub filter_stream-lacks :
    (lower : ℕ → ℕ) (words deltas : List Text) (w : Text)
    → Memᴰ w (new_keyword_policy lower words).banned
    → length w ≤ suc default_overlap_runes
    → contains w (map lower (filter_stream (keyword_moderator lower words) deltas).0) ≡ false
unfolding new_keyword_policy new_output_filter contains
filter_stream-lacks lower words deltas w m short =
    let f = new_output_filter (keyword_moderator lower words) in
    let c : Clean lower w default_overlap_runes short [] f = record {
      clean = normalize_words-nonempty lower words w m;
      guarded = keyword_moderator-guards lower words w m;
      runes = refl;
      seen = λ _. refl;
    } in
    let pushed = push_all-Clean lower w default_overlap_runes short [] f deltas c in
    (flush-Clean lower w default_overlap_runes short _ _ pushed).clean
