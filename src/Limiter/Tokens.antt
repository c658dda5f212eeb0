-- ===== src/Limiter/Tokens.antt =====
-- internal/limiter/limiter.go: the members of the sliding windows and the tokens of the leases.
use dify_game_gateway.Base.{
  AllDiffer, ℕ, [], ◌∷◌, ◌++◌, ◌+◌, ◌%◌, ◌^◌, ◌≤◌, ◌<◌, ◌≡◌, refl, sym, ap, ◌∙◌, arith, Text, List,
  false, some, length, decimal, decimal-IsDigit, decimal_injective, IsDigit, after_last,
  after_last-append, after_last_of_tail, Lacks, All, text_eq, eq_of_text_eq, Bool-cases, inl, inr,
}
use dify_game_gateway.Limiter.Redis.{Redis}
use dify_game_gateway.Limiter.Guards.{RedisLimiter, member_of, next_serial}

digits-Lacks_colon : (s : Text) → All IsDigit s → Lacks b':' s
digits-Lacks_colon [] h = tt
digits-Lacks_colon (c ∷ s) (h, hs) = (ground arith, digits-Lacks_colon s hs)

module _ (redis : Redis) where
  member_of-serial :
      (l : RedisLimiter redis) (now_ms : ℕ)
      → after_last b':' (member_of redis l now_ms) ≡ some (decimal (next_serial redis l))
  unfolding member_of
  member_of-serial l now_ms =
      let serial = decimal (next_serial redis l) in
      let lacks = digits-Lacks_colon serial (decimal-IsDigit _) in
      after_last_of_tail b':' l.instance_id _ serial (
        after_last_of_tail b':' (b':' ∷ []) (decimal now_ms ++ b':' ∷ serial) serial
          (after_last-append b':' (decimal now_ms) serial lacks))

  -- Two members that are equal have one serial number.
  member_of_injective :
      (l k : RedisLimiter redis) (now_ms later_ms : ℕ)
      → member_of redis l now_ms ≡ member_of redis k later_ms
      → next_serial redis l ≡ next_serial redis k
  member_of_injective l k now_ms later_ms same =
      let equal =
        sym (member_of-serial l now_ms) ∙ ap (after_last b':') same ∙ member_of-serial k later_ms in
      decimal_injective _ _ (ground (arith, equal))

  abbrev pub next : RedisLimiter redis → RedisLimiter redis
  next l = record l { member_serial = next_serial redis l }

  -- The members that a limiter makes one after the other, at these times.
  abbrev pub members : RedisLimiter redis → List ℕ → List Text
  members l [] = []
  members l (now_ms ∷ times) = member_of redis l now_ms ∷ members (next l) times

  -- A limiter that has made `ahead` members more.
  later-differ :
      (l k : RedisLimiter redis) (now_ms ahead : ℕ) (times : List ℕ)
      → 0 < ahead
      → ahead + length times ≤ 2 ^ 64
      → k.member_serial ≡ (l.member_serial + ahead) % 2 ^ 64
      → All (λ (u : Text). text_eq (member_of redis l now_ms) u ≡ false) (members k times)
  later-differ l k now_ms ahead [] h fits at = tt
  later-differ l k now_ms ahead (time ∷ times) h fits at = (
    elim (Bool-cases (text_eq (member_of redis l now_ms) (member_of redis k time))) [
      | inr differ ↦ differ
      | inl same ↦
          let equal = member_of_injective l k now_ms time (eq_of_text_eq _ _ same) in
          absurd (omega arith)
    ],
    later-differ l (next k) now_ms (ahead + 1) times (omega arith) (omega arith) (omega arith),
  )

  -- The members of a process never collide: of its first 2^64 members, whatever the clock reads for
  -- each, no two are equal.
  pub members-AllDiffer :
      (l : RedisLimiter redis) (times : List ℕ)
      → length times ≤ 2 ^ 64
      → AllDiffer (members l times)
  members-AllDiffer l [] h = tt
  members-AllDiffer l (now_ms ∷ times) h = (
    later-differ l (next l) now_ms 1 times (omega arith) (omega arith) refl,
    members-AllDiffer (next l) times (omega arith),
  )
