-- ===== src/Moderation/Buffer.antt =====
-- internal/moderation/moderation.go: how much the filter holds back.
use mathlib.Core.Option
use dify_game_gateway.Base.{
  [], ◌∷◌, none, some, true, false, inl, inr, refl, suc, zero, Text, Option, ◌≡◌, ◌≤◌, ℕ, Bool,
  ◌++◌, ◌+◌, ◌⊎◌, arith, is_empty, List, All, drop, utf8_length, Bool-cases, length, ltb, leb,
  Option-cases, ◌-◌, ◌&&◌, utf8_length-append,
}
use dify_game_gateway.Moderation.{
  drain, segment_of, select, split_at, moderate, split_keeping_last_token, drain_selected,
  OutputFilter, cut_at_last_terminator, last_index_any, is_blank, is_terminator, push, Moderator,
  new_output_filter, default_max_segment_bytes,
}
use dify_game_gateway.Moderation.Conservation.{push_all, push-open, push-blocked}

utf8_length-drop : (k : ℕ) (s : Text) → utf8_length (drop k s) ≤ utf8_length s
unfolding utf8_length
utf8_length-drop zero s = omega arith
utf8_length-drop (suc k) [] = omega arith
utf8_length-drop (suc k) (c ∷ s) = omega (arith, utf8_length-drop k s)

module _ (member : ℕ → Bool) where
  abbrev IsFree : Text → Type 0
  IsFree s = last_index_any member s ≡ none

  IsFree-tail : (c : ℕ) (s : Text) → IsFree (c ∷ s) → IsFree s
  unfolding last_index_any
  IsFree-tail c s h = ground arith

  IsFree-drop : (k : ℕ) (s : Text) → IsFree s → IsFree (drop k s)
  IsFree-drop zero s h = h
  IsFree-drop (suc k) [] h = h
  IsFree-drop (suc k) (c ∷ s) h = IsFree-drop k s (IsFree-tail c s h)

  -- Nothing of the kind stands behind the last one.
  last_index_any-IsFree :
      (s : Text) (i : ℕ) → last_index_any member s ≡ some i → IsFree (drop (suc i) s)
  unfolding last_index_any
  last_index_any-IsFree [] i h = cc
  last_index_any-IsFree (c ∷ s) i h = elim (Option-cases (last_index_any member s)) [
    | inl none_ ↦ let here : i ≡ 0 = ground (arith, none_) in rw here none_
    | inr (j, at) ↦
        let next : i ≡ suc j = ground (arith, at) in rw next (last_index_any-IsFree s j at)
  ]

  -- The last one stands in what is appended, if there is none before.
  last_index_any-append :
      (s t : Text) (i : ℕ)
      → IsFree s
      → last_index_any member (s ++ t) ≡ some i
      → utf8_length (drop (suc i) (s ++ t)) ≤ utf8_length t
  unfolding last_index_any
  last_index_any-append [] t i free h = utf8_length-drop (suc i) t
  last_index_any-append (c ∷ s) t i free h = elim (Option-cases (last_index_any member (s ++ t))) [
    | inl none_ ↦ absurd (ground (arith, none_))
    | inr (j, at) ↦
        let next : i ≡ suc j = ground (arith, at) in
        rw next (last_index_any-append s t j (IsFree-tail c s free) at)
  ]

-- What the filter holds under a limit m on the segments, for deltas of at most d bytes.
module _ (m d : ℕ) (small : d ≤ m) where
  record Bounded (f : OutputFilter) : Type 0 where
    limit : f.max_segment_bytes ≤ suc m
    unfinished : IsFree is_terminator f.buf
    held : (utf8_length f.buf ≤ m) ⊎ (IsFree is_blank f.buf × (utf8_length f.buf ≤ m + d))

  abbrev Fits : Text → Type 0
  Fits s =
      IsFree is_terminator s × ((utf8_length s ≤ m) ⊎ (IsFree is_blank s × (utf8_length s ≤ m + d)))

  Bounded-moderate :
      (f : OutputFilter) (segment remainder : Text) (answer : Bool × Text)
      → f.max_segment_bytes ≤ suc m
      → Fits remainder
      → Bounded (moderate f segment remainder answer).1
  unfolding moderate last_index_any utf8_length
  Bounded-moderate f segment remainder (true, fb) limit (unfinished, held) = record {
    limit = limit;
    unfinished = unfinished;
    held = held;
  }
  Bounded-moderate f segment remainder (false, fb) limit fits = record {
    limit = limit;
    unfinished = refl;
    held = inl (omega arith);
  }

  empty-Fits : Fits []
  unfolding last_index_any utf8_length
  empty-Fits = (refl, inl (omega arith))

  is_empty-Fits : (s : Text) → is_empty s ≡ true → Fits s
  is_empty-Fits [] e = empty-Fits
  is_empty-Fits (c ∷ s) e = absurd cc

  module _ (old delta : Text) (fits : Fits old) (short : utf8_length delta ≤ d) where
    whole_short : utf8_length (old ++ delta) ≤ utf8_length old + d
    whole_short = omega (arith, utf8_length-append old delta)

    -- What stands behind the last blank: it is of the delta alone, or no longer than a buffer with a blank and a
    -- delta.
    behind_blank :
        (i : ℕ)
        → last_index_any is_blank (old ++ delta) ≡ some i
        → utf8_length (drop (suc i) (old ++ delta)) ≤ m + d
    behind_blank i e =
        let shorter = utf8_length-drop (suc i) (old ++ delta) in
        elim fits.1 [
          | inl few ↦ omega (arith, shorter, whole_short, few)
          | inr (unbroken, few) ↦
              omega (arith, last_index_any-append is_blank old delta i unbroken e, short)
        ]

    -- The tail of a run-on stream that is kept for the next delta.
    tail-Fits :
        (at : Option ℕ)
        → IsFree is_terminator (old ++ delta)
        → last_index_any is_blank (old ++ delta) ≡ at
        → Fits (split_at (old ++ delta) at).1
    unfolding split_at
    tail-Fits none free e = empty-Fits
    tail-Fits (some i) free e =
        let cut = ltb 0 i && ltb i (length (old ++ delta) - 1) in
        elim (Bool-cases cut) [
          | inl inside ↦ rw inside (
            IsFree-drop is_terminator (suc i) (old ++ delta) free,
            inr (last_index_any-IsFree is_blank (old ++ delta) i e, behind_blank i e),
          )
          | inr outside ↦ rw outside empty-Fits
        ]

    -- What is kept behind the last terminator is of the delta.
    after_cut-Fits :
        (i : ℕ)
        → last_index_any is_terminator (old ++ delta) ≡ some i
        → Fits (drop (suc i) (old ++ delta))
    after_cut-Fits i e = (
      last_index_any-IsFree is_terminator (old ++ delta) i e,
      inl (omega (arith, last_index_any-append is_terminator old delta i fits.0 e, short, small)),
    )

  module _ (f : OutputFilter) (bounded : Bounded f) (delta : Text)
      (short : utf8_length delta ≤ d) where
    grown : OutputFilter
    grown = record f { buf = f.buf ++ delta }

    selected-Bounded :
        (at : Option ℕ)
        → last_index_any is_terminator (f.buf ++ delta) ≡ at
        → Bounded (drain_selected grown (segment_of grown (Option.map suc at))).1
    unfolding drain_selected segment_of grown split_keeping_last_token
    selected-Bounded none e =
        let fits : Fits f.buf = (bounded.unfinished, bounded.held) in
        elim (Bool-cases (leb f.max_segment_bytes (utf8_length (f.buf ++ delta)))) [
          | inl full ↦ rw full (
              Bounded-moderate grown _ _ _ bounded.limit (
                tail-Fits f.buf delta fits short (last_index_any is_blank (f.buf ++ delta)) e refl))
          | inr room ↦
              rw room (record { limit = bounded.limit; unfinished = e; held = inl (ground arith) })
        ]
    selected-Bounded (some i) e =
        let fits : Fits f.buf = (bounded.unfinished, bounded.held) in
        Bounded-moderate grown _ _ _ bounded.limit (after_cut-Fits f.buf delta fits short i e)

    drain-Bounded : Bounded (drain grown false).1
    unfolding drain select cut_at_last_terminator grown
    drain-Bounded = elim (Bool-cases (is_empty (f.buf ++ delta))) [
      | inl e ↦
          let (unfinished, held) = is_empty-Fits (f.buf ++ delta) e in
          rw e (record { limit = bounded.limit; unfinished = unfinished; held = held })
      | inr e ↦ rw e (selected-Bounded (last_index_any is_terminator (f.buf ++ delta)) refl)
    ]

    push-Bounded : Bounded (push f delta).1
    unfolding grown
    push-Bounded = elim (Bool-cases f.blocked) [
      | inl b ↦ rw (push-blocked f delta b) bounded
      | inr b ↦ rw (push-open f delta b) drain-Bounded
    ]

  push_all-Bounded :
      (f : OutputFilter) (deltas : List Text)
      → Bounded f
      → All (λ s. utf8_length s ≤ d) deltas
      → Bounded (push_all f deltas).1
  push_all-Bounded f [] bounded short = bounded
  push_all-Bounded f (delta ∷ deltas) bounded (short, shorts) =
      push_all-Bounded (push f delta).1 deltas (push-Bounded f bounded delta short) shorts

-- However a response is cut into deltas and whatever the moderator says, what the filter holds back after a row of
-- them never has the end of a sentence in it, and has at most m + d bytes, if each delta has at most d bytes and m
-- is at least d and at least one less than the cap of a segment.
pub push_all-buffer :
    (mod_ : Moderator) (deltas : List Text) (m d : ℕ)
    → default_max_segment_bytes ≤ suc m
    → d ≤ m
    → All (λ s. utf8_length s ≤ d) deltas
    → let held = (push_all (new_output_filter mod_) deltas).1.buf in
      (last_index_any is_terminator held ≡ none) × (utf8_length held ≤ m + d)
unfolding new_output_filter last_index_any utf8_length
push_all-buffer mod_ deltas m d cap small short =
    let start : Bounded m d small (new_output_filter mod_) = record {
      limit = cap;
      unfinished = refl;
      held = inl (omega arith);
    } in
    let bounded = push_all-Bounded m d small _ deltas start short in
    (
      bounded.unfinished,
      elim bounded.held [ inl few ↦ omega (arith, few) | inr (unbroken, few) ↦ few ],
    )
