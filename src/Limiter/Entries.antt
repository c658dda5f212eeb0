-- ===== src/Limiter/Entries.antt =====
-- How the commands of the scripts change the number of entries of a sorted set.
use dify_game_gateway.Limiter.Redis.{Entry, Absent, Distinct, insert_entry, above, without}
use dify_game_gateway.Base.{
  suc, [], ◌∷◌, refl, Text, ℕ, List, text_eq, ◌≡◌, length, arith, text_eq_iff, ◌≤◌, text_eq_refl,
  false,
}
use dify_game_gateway.Base.Int.{ℤ, ◌≤ℤ◌}

pub length-above : (bound : ℤ) (es : List Entry) → length (above bound es) ≤ length es
length-above bound [] = omega arith
length-above bound ((m, score) ∷ es) = ground (arith, length-above bound es)

pub above-above :
    (low high : ℤ) (es : List Entry) → low ≤ℤ high → above high (above low es) ≡ above high es
above-above low high [] h = refl
above-above low high ((m, score) ∷ es) h = ground (arith, above-above low high es)

pub length-insert_entry :
    (member : Text) (score : ℕ) (es : List Entry)
    → length (insert_entry member score es) ≡ suc (length es)
length-insert_entry member score [] = refl
length-insert_entry member score ((m, s) ∷ es) = ground (arith, length-insert_entry member score es)

pub length-above-insert_entry :
    (bound : ℤ) (member : Text) (score : ℕ) (es : List Entry)
    → length (above bound (insert_entry member score es))
      ≡ length (above bound ((member, score) ∷ es))
length-above-insert_entry bound member score [] = refl
length-above-insert_entry bound member score ((m, s) ∷ es) =
    ground (arith, length-above-insert_entry bound member score es)

pub length-without : (member : Text) (es : List Entry) → length (without member es) ≤ length es
length-without member [] = omega arith
length-without member ((m, s) ∷ es) = ground (arith, length-without member es)

pub without_of_Absent :
    (member : Text) (es : List Entry) → Absent member es → without member es ≡ es
without_of_Absent member [] h = refl
without_of_Absent member ((m, s) ∷ es) h = ground (arith, without_of_Absent member es)

absent_flip : (m n : Text) → text_eq m n ≡ text_eq n m
absent_flip m n = ground (arith, text_eq_iff m n, text_eq_iff n m)

-- The first entry is the only one with its member.
pub length-without_first :
    (m : Text) (s : ℕ) (es : List Entry)
    → Distinct ((m, s) ∷ es)
    → length (without m ((m, s) ∷ es)) ≡ length es
length-without_first m s es h = ground (arith, text_eq_refl m, without_of_Absent m es)

pub Absent-above :
    (bound : ℤ) (member : Text) (es : List Entry)
    → Absent member es
    → Absent member (above bound es)
Absent-above bound member [] h = tt
Absent-above bound member ((m, s) ∷ es) h = ground (arith, Absent-above bound member es)

pub Absent-without :
    (gone member : Text) (es : List Entry) → Absent member es → Absent member (without gone es)
Absent-without gone member [] h = tt
Absent-without gone member ((m, s) ∷ es) h = ground (arith, Absent-without gone member es)

pub Absent-insert_entry :
    (new : Text) (score : ℕ) (member : Text) (es : List Entry)
    → text_eq new member ≡ false
    → Absent member es
    → Absent member (insert_entry new score es)
Absent-insert_entry new score member [] h k = (h, tt)
Absent-insert_entry new score member ((m, s) ∷ es) h k =
    ground (arith, Absent-insert_entry new score member es)
