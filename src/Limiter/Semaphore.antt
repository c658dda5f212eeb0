-- ===== src/Limiter/Semaphore.antt =====
-- internal/limiter/limiter.go: what the acquire and the release script promise, a counting semaphore, and
-- what the rows of calls need to be answered so.
use dify_game_gateway.Limiter.Entries.{length-without_first, Absent-without, Absent-insert_entry}
use dify_game_gateway.Limiter.Redis.{Absent, Entry, above, without, insert_entry, Distinct}
use dify_game_gateway.Base.{
  [], ◌∷◌, refl, none, some, false, Text, ℕ, Option, length, List, ◌≡◌, ◌-◌, ◌≤◌, ◌<◌, ◌+◌, arith,
  All, text_eq, ltb, if◌then◌else◌,
}
use dify_game_gateway.Base.Int.{pos}

-- A call of one of the two scripts: its clock and, for an acquisition, its lease.
pub data SlotCall : Type 0 where
  take_slot : (now_ms expiry : ℕ) (token : Text) → SlotCall
  give_slot : (now_ms : ℕ) → SlotCall

-- What a component promises that counts slots: a take is answered by the new count, or by nothing if the
-- limit is reached; a give is answered by the count that is left.
abbrev pub semaphore : ℕ → ℕ → SlotCall → Option ℕ × ℕ
semaphore limit n (take_slot _ _ _) = if ltb n limit then (some (n + 1), n + 1) else (none, n)
semaphore limit n (give_slot _) = (some (n - 1), n - 1)

abbrev pub semaphore_replies : ℕ → ℕ → List SlotCall → List (Option ℕ) × ℕ
semaphore_replies limit n [] = ([], n)
semaphore_replies limit n (c ∷ cs) =
    let (reply, n') = semaphore limit n c in
    let (replies, last) = semaphore_replies limit n' cs in (reply ∷ replies, last)

-- No lease that stands at the time `horizon` runs out during the calls.
abbrev pub IsWithin : ℕ → SlotCall → Type 0
IsWithin horizon (take_slot now_ms expiry token) = (now_ms < horizon) × (horizon ≤ expiry)
IsWithin horizon (give_slot now_ms) = now_ms < horizon

-- A token differs from those of the calls, and so do the tokens of the calls from one another.
abbrev pub Differs : Text → List SlotCall → Type 0
Differs t [] = Unit
Differs t (take_slot _ _ u ∷ cs) = (text_eq t u ≡ false) × Differs t cs
Differs t (give_slot _ ∷ cs) = Differs t cs

abbrev pub Apart : List SlotCall → Type 0
Apart [] = Unit
Apart (take_slot _ _ t ∷ cs) = Differs t cs × Apart cs
Apart (give_slot _ ∷ cs) = Apart cs

-- No entry of a set has a token of the calls.
abbrev pub Unused : List Entry → List SlotCall → Type 0
Unused es [] = Unit
Unused es (take_slot _ _ t ∷ cs) = Absent t es × Unused es cs
Unused es (give_slot _ ∷ cs) = Unused es cs

abbrev pub IsLasting : ℕ → List Entry → Type 0
IsLasting horizon es = All (λ (e : Entry). horizon ≤ e.1) es

pub Unused-insert_entry :
    (t : Text) (score : ℕ) (es : List Entry) (cs : List SlotCall)
    → Differs t cs
    → Unused es cs
    → Unused (insert_entry t score es) cs
Unused-insert_entry t score es [] d u = tt
Unused-insert_entry t score es (take_slot _ _ v ∷ cs) (ne, d) (a, u) =
    (Absent-insert_entry t score v es ne a, Unused-insert_entry t score es cs d u)
Unused-insert_entry t score es (give_slot _ ∷ cs) d u = Unused-insert_entry t score es cs d u

pub Unused-without :
    (t : Text) (es : List Entry) (cs : List SlotCall) → Unused es cs → Unused (without t es) cs
Unused-without t es [] u = tt
Unused-without t es (take_slot _ _ v ∷ cs) (a, u) =
    (Absent-without t v es a, Unused-without t es cs u)
Unused-without t es (give_slot _ ∷ cs) u = Unused-without t es cs u

pub above_of_IsLasting :
    (horizon now_ms : ℕ) (es : List Entry)
    → now_ms < horizon
    → IsLasting horizon es
    → above (pos now_ms) es ≡ es
above_of_IsLasting horizon now_ms [] h k = refl
above_of_IsLasting horizon now_ms ((m, s) ∷ es) h k =
    ground (arith, above_of_IsLasting horizon now_ms es)

pub IsLasting-insert_entry :
    (horizon : ℕ) (t : Text) (score : ℕ) (es : List Entry)
    → horizon ≤ score
    → IsLasting horizon es
    → IsLasting horizon (insert_entry t score es)
IsLasting-insert_entry horizon t score [] h k = (h, tt)
IsLasting-insert_entry horizon t score ((m, s) ∷ es) h k =
    ground (arith, IsLasting-insert_entry horizon t score es)

pub IsLasting-without :
    (horizon : ℕ) (t : Text) (es : List Entry)
    → IsLasting horizon es
    → IsLasting horizon (without t es)
IsLasting-without horizon t [] k = tt
IsLasting-without horizon t ((m, s) ∷ es) k = ground (arith, IsLasting-without horizon t es)

pub nil_of_length : (es : List Entry) → length es ≡ 0 → es ≡ []
nil_of_length [] h = refl
nil_of_length (e ∷ es) h = absurd (omega arith)

-- The set without its oldest entry.
abbrev pub without_oldest : List Entry → List Entry
without_oldest [] = []
without_oldest ((m, s) ∷ es) = without m ((m, s) ∷ es)

pub length-without_oldest :
    (es : List Entry) → Distinct es → length (without_oldest es) ≡ length es - 1
length-without_oldest [] d = refl
length-without_oldest ((m, s) ∷ es) d = omega (arith, length-without_first m s es d)
