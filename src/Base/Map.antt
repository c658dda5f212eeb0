-- ===== src/Base/Map.antt =====
-- A Go map with string keys, as an association list without order.
use Prim.Native.Nat.{suc}
use mathlib.Core.Logic.{inl, inr}
use mathlib.Core.Bool.{false}
use mathlib.Core.Path.{ap, subst, ◌≡◌, refl}
use mathlib.Core.Option.{Option, none, some}
use mathlib.Core.List.{List, [], ◌∷◌}
use native.Mathlib.Omega.{arith}
use dify_game_gateway.Base.Lists.{length}
use dify_game_gateway.Base.Tests.{Bool-cases, if◌then◌else◌}
use dify_game_gateway.Base.Strings.{eq_of_text_eq, Text, text_eq, text_eq_iff}

module _ {ℓ} {V : Type ℓ} where
  -- `v, ok := m[k]`
  unfoldable pub lookup : Text → List (Text × V) → Option V
  lookup k [] = none
  lookup k ((j, v) ∷ m) = if text_eq j k then some v else lookup k m

  -- `m[k] = v`
  unfoldable pub insert : Text → V → List (Text × V) → List (Text × V)
  insert k v [] = (k, v) ∷ []
  insert k v ((j, w) ∷ m) = if text_eq j k then (k, v) ∷ m else (j, w) ∷ insert k v m

  -- `delete(m, k)`
  unfoldable pub delete : Text → List (Text × V) → List (Text × V)
  delete k [] = []
  delete k ((j, w) ∷ m) = let rest = delete k m in if text_eq j k then rest else (j, w) ∷ rest

  pub lookup-insert :
      (k j : Text) (v : V) (m : List (Text × V))
      → lookup j (insert k v m) ≡ (if text_eq k j then some v else lookup j m)
  unfolding lookup insert
  lookup-insert k j v [] = refl
  lookup-insert k j v ((i, w) ∷ m) =
      ground (arith, text_eq_iff k j, text_eq_iff i k, text_eq_iff i j, lookup-insert k j v m)

  pub lookup-delete :
      (k j : Text) (m : List (Text × V))
      → lookup j (delete k m) ≡ (if text_eq k j then none else lookup j m)
  unfolding lookup delete
  lookup-delete k j [] = ground arith
  lookup-delete k j ((i, w) ∷ m) =
      ground (arith, text_eq_iff k j, text_eq_iff i k, text_eq_iff i j, lookup-delete k j m)

  abbrev pub AbsentKey : Text → List (Text × V) → Type 0
  AbsentKey k [] = Unit
  AbsentKey k ((j, v) ∷ m) = (text_eq j k ≡ false) × AbsentKey k m

  abbrev pub DistinctKeys : List (Text × V) → Type 0
  DistinctKeys [] = Unit
  DistinctKeys ((j, v) ∷ m) = AbsentKey j m × DistinctKeys m

  pub AbsentKey-lookup : (k : Text) (m : List (Text × V)) → lookup k m ≡ none → AbsentKey k m
  unfolding lookup
  AbsentKey-lookup k [] h = tt
  AbsentKey-lookup k ((j, v) ∷ m) h = elim (Bool-cases (text_eq j k)) [
    | inl e ↦ cc (rw e at h)
    | inr e ↦ (e, AbsentKey-lookup k m (rw e at h))
  ]

  AbsentKey-insert :
      (k j : Text) (v : V) (m : List (Text × V))
      → text_eq k j ≡ false
      → AbsentKey j m
      → AbsentKey j (insert k v m)
  unfolding insert
  AbsentKey-insert k j v [] ne a = (ne, tt)
  AbsentKey-insert k j v ((i, w) ∷ m) ne a = elim (Bool-cases (text_eq i k)) [
    | inl e ↦ rw e (ne, a.1)
    | inr e ↦ rw e (a.0, AbsentKey-insert k j v m ne a.1)
  ]

  pub DistinctKeys-insert :
      (k : Text) (v : V) (m : List (Text × V))
      → AbsentKey k m
      → DistinctKeys m
      → DistinctKeys (insert k v m)
  unfolding insert
  DistinctKeys-insert k v [] a d = (tt, tt)
  DistinctKeys-insert k v ((i, w) ∷ m) (ne, a) (b, d) = rw ne (
    AbsentKey-insert k i v m (ground (arith, text_eq_iff i k, text_eq_iff k i)) b,
    DistinctKeys-insert k v m a d,
  )

  -- A write keeps the keys apart, whether its key was there or not.
  pub insert-DistinctKeys :
      (k : Text) (v : V) (m : List (Text × V)) → DistinctKeys m → DistinctKeys (insert k v m)
  unfolding insert
  insert-DistinctKeys k v [] d = (tt, tt)
  insert-DistinctKeys k v ((i, w) ∷ m) (a, d) = elim (Bool-cases (text_eq i k)) [
    | inl e ↦ rw e (subst (λ t. AbsentKey t m) (eq_of_text_eq i k e) a, d)
    | inr e ↦ rw e (
      AbsentKey-insert k i v m (ground (arith, text_eq_iff i k, text_eq_iff k i)) a,
      insert-DistinctKeys k v m d,
    )
  ]

  pub length-insert :
      (k : Text) (v : V) (m : List (Text × V))
      → AbsentKey k m
      → length (insert k v m) ≡ suc (length m)
  unfolding insert
  length-insert k v [] a = refl
  length-insert k v ((i, w) ∷ m) (ne, a) = rw ne (ap suc (length-insert k v m a))

  AbsentKey-delete : (k j : Text) (m : List (Text × V)) → AbsentKey j m → AbsentKey j (delete k m)
  unfolding delete
  AbsentKey-delete k j [] a = tt
  AbsentKey-delete k j ((i, w) ∷ m) (ne, a) = elim (Bool-cases (text_eq i k)) [
    | inl e ↦ rw e (AbsentKey-delete k j m a)
    | inr e ↦ rw e (ne, AbsentKey-delete k j m a)
  ]

  pub DistinctKeys-delete :
      (k : Text) (m : List (Text × V)) → DistinctKeys m → DistinctKeys (delete k m)
  unfolding delete
  DistinctKeys-delete k [] d = tt
  DistinctKeys-delete k ((i, w) ∷ m) (a, d) = elim (Bool-cases (text_eq i k)) [
    | inl e ↦ rw e (DistinctKeys-delete k m d)
    | inr e ↦ rw e (AbsentKey-delete k i m a, DistinctKeys-delete k m d)
  ]

  pub delete_of_AbsentKey : (k : Text) (m : List (Text × V)) → AbsentKey k m → delete k m ≡ m
  unfolding delete
  delete_of_AbsentKey k [] a = refl
  delete_of_AbsentKey k ((i, w) ∷ m) (ne, a) =
      rw ne (ap (λ r. (i, w) ∷ r) (delete_of_AbsentKey k m a))

  pub length-delete :
      (k : Text) (v : V) (m : List (Text × V))
      → DistinctKeys m
      → lookup k m ≡ some v
      → suc (length (delete k m)) ≡ length m
  unfolding lookup delete
  length-delete k v [] d h = cc
  length-delete k v ((i, w) ∷ m) (a, d) h = elim (Bool-cases (text_eq i k)) [
    | inl e ↦
        let same = eq_of_text_eq i k e in
        rw e
          (ap (λ r. suc (length r)) (delete_of_AbsentKey k m (subst (λ t. AbsentKey t m) same a)))
    | inr e ↦ rw e (ap suc (length-delete k v m d (rw e at h)))
  ]
