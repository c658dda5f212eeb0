-- ===== src/Moderation/Conservation.antt =====
-- internal/moderation/moderation.go: the filter as a buffer.
use dify_game_gateway.Moderation.{
  Verdict, drain, segment_of, select, split_at, moderate, split_keeping_last_token, drain_selected,
  OutputFilter, cut_at_last_terminator, last_index_any, is_blank, push, flush, latched, Moderator,
  new_output_filter,
}
use dify_game_gateway.Base.{
  [], ◌∷◌, none, some, true, false, inl, inr, refl, suc, Text, Option, ◌≡◌, ℕ, Bool, ◌++◌,
  append-nil, Bool-cases, arith, take-append-drop, is_empty, subst, List, sym, ◌∙◌, ap,
  if◌then◌else◌, append_assoc,
}

split_at-append : (s : Text) (at : Option ℕ) → (split_at s at).0 ++ (split_at s at).1 ≡ s
unfolding split_at
split_at-append s none = append-nil s
split_at-append s (some i) = ground (arith, append-nil s, take-append-drop (suc i) s)

segment_of-append :
    (f : OutputFilter) (cut : Option ℕ) (segment remainder : Text)
    → segment_of f cut ≡ some (segment, remainder)
    → segment ++ remainder ≡ f.buf
unfolding segment_of split_keeping_last_token
segment_of-append f (some cut) segment remainder h = ground (arith, take-append-drop cut f.buf)
segment_of-append f none segment remainder h =
    ground (arith, split_at-append f.buf (last_index_any is_blank f.buf))

select-append :
    (f : OutputFilter) (final : Bool) (segment remainder : Text)
    → select f final ≡ some (segment, remainder)
    → segment ++ remainder ≡ f.buf
unfolding select
select-append f true segment remainder h = ground (arith, append-nil f.buf)
select-append f false segment remainder h =
    segment_of-append f (cut_at_last_terminator f.buf) segment remainder h

-- What a moderation does to the text, on each of its answers.
abbrev Kept : Text → Verdict × OutputFilter → Type 0
Kept before (v, f) =
    (v.blocked ≡ false → v.emit ++ f.buf ≡ before)
    × (v.blocked ≡ true → (v.emit ≡ []) × (f.buf ≡ []))
    × (f.blocked ≡ v.blocked)

moderate-Kept :
    (f : OutputFilter) (segment remainder : Text) (answer : Bool × Text)
    → f.blocked ≡ false
    → Kept (segment ++ remainder) (moderate f segment remainder answer)
unfolding moderate
moderate-Kept f segment remainder (true, fb) h = (λ _. refl, λ e. cc, h)
moderate-Kept f segment remainder (false, fb) h = (λ e. cc, λ _. (refl, refl), refl)

drain-Kept : (f : OutputFilter) (final : Bool) → f.blocked ≡ false → Kept f.buf (drain f final)
unfolding drain drain_selected
drain-Kept f final h = elim (Bool-cases (is_empty f.buf)) [
  | inl e ↦ rw e (λ _. refl, λ b. cc, h)
  | inr e ↦ rw e (go (select f final) refl)
]
  where
    go : (o : Option (Text × Text)) → select f final ≡ o → Kept f.buf (drain_selected f o)
    go none e = (λ _. refl, λ b. cc, h)
    go (some (segment, remainder)) e =
        subst (λ t. Kept t (drain_selected f (some (segment, remainder))))
          (select-append f final segment remainder e)
          (moderate-Kept f segment remainder (f.mod_.check_output (f.overlap ++ segment)) h)

pub push-open :
    (f : OutputFilter) (delta : Text)
    → f.blocked ≡ false
    → push f delta ≡ drain (record f { buf = f.buf ++ delta }) false
unfolding push
push-open f delta h =
    ap (λ b. if b then (latched, f) else drain (record f { buf = f.buf ++ delta }) false) h

pub push-blocked :
    (f : OutputFilter) (delta : Text) → f.blocked ≡ true → push f delta ≡ (latched, f)
unfolding push
push-blocked f delta h =
    ap (λ b. if b then (latched, f) else drain (record f { buf = f.buf ++ delta }) false) h

pub flush-open : (f : OutputFilter) → f.blocked ≡ false → flush f ≡ drain f true
unfolding flush
flush-open f h = ap (λ b. if b then (latched, f) else drain f true) h

push-Kept :
    (f : OutputFilter) (delta : Text) → f.blocked ≡ false → Kept (f.buf ++ delta) (push f delta)
push-Kept f delta h =
    subst (Kept (f.buf ++ delta)) (sym (push-open f delta h))
      (drain-Kept (record f { buf = f.buf ++ delta }) false h)

flush-Kept : (f : OutputFilter) → f.blocked ≡ false → Kept f.buf (flush f)
flush-Kept f h = subst (Kept f.buf) (sym (flush-open f h)) (drain-Kept f true h)

-- The text that a row of Push calls lets through, and the filter after it.
abbrev pub push_all : OutputFilter → List Text → Text × OutputFilter
push_all f [] = ([], f)
push_all f (delta ∷ deltas) =
    let (v, f') = push f delta in
    let (emitted, last) = push_all f' deltas in (v.emit ++ emitted, last)

abbrev pub concat : List Text → Text
concat [] = []
concat (s ∷ ss) = s ++ concat ss

-- Once blocked, a filter lets nothing through and stays as it is.
pub push_all-blocked :
    (f : OutputFilter) (deltas : List Text) → f.blocked ≡ true → push_all f deltas ≡ ([], f)
push_all-blocked f [] h = refl
push_all-blocked f (delta ∷ deltas) h =
    rw (push-blocked f delta h, push_all) (rw (push_all-blocked f deltas h))

regroup :
    (emitted out rest middle after old new : Text)
    → out ++ rest ≡ middle ++ after
    → emitted ++ middle ≡ old ++ new
    → (emitted ++ out) ++ rest ≡ old ++ (new ++ after)
regroup emitted out rest middle after old new p q =
    append_assoc emitted out rest
    ∙ ap (λ s. emitted ++ s) p
    ∙ sym (append_assoc emitted middle after)
    ∙ ap (λ s. s ++ after) q
    ∙ append_assoc old new after

-- What comes out is the beginning of what came in: nothing is lost, changed, repeated or put in
-- another order before the point at which the output stops.
pub push_all-IsPrefix :
    (f : OutputFilter) (deltas : List Text)
    → f.blocked ≡ false
    → (rest : Text) × ((push_all f deltas).0 ++ rest ≡ f.buf ++ concat deltas)
      × ((push_all f deltas).1.blocked ≡ false → (push_all f deltas).1.buf ≡ rest)
push_all-IsPrefix f [] h = (f.buf, sym (append-nil f.buf), λ _. refl)
push_all-IsPrefix f (delta ∷ deltas) h = elim (Bool-cases (push f delta).0.blocked) [
  | inl b ↦
      let kept = push-Kept f delta h in
      let same = push_all-blocked (push f delta).1 deltas (kept.2 ∙ b) in
      (f.buf ++ (delta ++ concat deltas), rw same (rw (kept.1 b).0), rw same (λ e. cc (kept.2, b)))
  | inr b ↦
      let kept = push-Kept f delta h in
      let (rest, eq, last) = push_all-IsPrefix (push f delta).1 deltas (kept.2 ∙ b) in
      (
        rest,
        regroup (push f delta).0.emit (push_all (push f delta).1 deltas).0 rest (push f delta).1.buf
            (concat deltas) f.buf delta eq (kept.0 b),
        last,
      )
]

-- A whole response: what its deltas and the flush at its end let through, and whether it was
-- blocked on the way.
abbrev pub filter_stream : Moderator → List Text → Text × Bool
filter_stream m deltas =
    let (emitted, f) = push_all (new_output_filter m) deltas in
    let (v, f') = flush f in (emitted ++ v.emit, v.blocked)

pub flush-empty : (f : OutputFilter) → f.blocked ≡ false → (flush f).1.buf ≡ []
unfolding flush drain drain_selected select moderate
flush-empty f h = ground arith

pub flush-blocked : (f : OutputFilter) → f.blocked ≡ true → flush f ≡ (latched, f)
unfolding flush
flush-blocked f h = ap (λ b. if b then (latched, f) else drain f true) h

-- The flush, after a prefix `out` has been let through and `f` still holds what follows it.
flush-IsPrefix :
    (f : OutputFilter) (out rest all : Text)
    → out ++ rest ≡ all
    → (f.blocked ≡ false → f.buf ≡ rest)
    → (rest' : Text) × ((out ++ (flush f).0.emit) ++ rest' ≡ all)
      × ((flush f).0.blocked ≡ false → rest' ≡ [])
flush-IsPrefix f out rest all eq same = elim (Bool-cases f.blocked) [
  | inl b ↦
      let shut = flush-blocked f b in (rest, rw shut (rw (append-nil out) eq), rw shut (λ e. cc))
  | inr b ↦
      let kept = flush-Kept f b in
      let held = same b in
      elim (Bool-cases (flush f).0.blocked) [
        | inl hit ↦ (rest, rw (kept.1 hit).0 (rw (append-nil out) eq), λ e. cc)
        | inr pass ↦
            let whole : (flush f).0.emit ≡ rest =
              sym (append-nil (flush f).0.emit)
              ∙ ap (λ s. (flush f).0.emit ++ s) (sym (flush-empty f b))
              ∙ kept.0 pass
              ∙ held in
            ([], append-nil _ ∙ ap (λ s. out ++ s) whole ∙ eq, λ _. refl)
      ]
]

-- For every moderator and every way in which a response is cut into deltas, the player sees a
-- beginning of the response, and sees all of it if nothing was blocked.
pub filter_stream-IsPrefix :
    (m : Moderator) (deltas : List Text)
    → (rest : Text) × ((filter_stream m deltas).0 ++ rest ≡ concat deltas)
      × ((filter_stream m deltas).1 ≡ false → rest ≡ [])
unfolding new_output_filter
filter_stream-IsPrefix m deltas =
    let (rest, eq, same) = push_all-IsPrefix (new_output_filter m) deltas refl in
    let (out, f) = push_all (new_output_filter m) deltas in
    flush-IsPrefix f out rest (concat deltas) eq same
