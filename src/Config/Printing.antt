-- ===== src/Config/Printing.antt =====
-- internal/config/config.go, parseAppKeys: it reads back what an operator writes.
use dify_game_gateway.Base.{
  ℕ, [], ◌∷◌, ◌++◌, ◌+◌, some, false, Text, text, List, ◌≡◌, refl, ap, sym, ◌∙◌, is_empty,
  trim_space, cut, split_on, insert, ◌==◌, All, arith, trim_space_of_IsTrimmed, IsTrimmed-append,
  AbsentKey, DistinctKeys, Lacks, cut-append, split_on-append, split_on_of_Lacks, append_assoc,
  append-nil, subst, map, All-append, text_eq, text_eq_iff,
}
use dify_game_gateway.Config.{ok, parse_pairs, parse_app_keys, mapping_of}
use dify_game_gateway.Config.Keys.{IsMapping, IsWord}

-- A pair, and a list of pairs, as an operator writes them.
abbrev pub pair_text : Text × Text → Text
pair_text (name, key) = name ++ b'=' ∷ key

abbrev pub print_keys : List (Text × Text) → Text
print_keys [] = []
print_keys (p ∷ []) = pair_text p
print_keys (p ∷ q ∷ ps) = pair_text p ++ b';' ∷ print_keys (q ∷ ps)

-- A mapping that can be written: a name without `=`, and no `;` in either.
abbrev pub IsPrintable : Text × Text → Type 0
IsPrintable (name, key) = IsMapping (name, key) × Lacks b'=' name × Lacks b';' name × Lacks b';' key

pair_text-IsWord : (name key : Text) → IsMapping (name, key) → IsWord (pair_text (name, key))
pair_text-IsWord [] key ((trimmed, filled), _) = cc
pair_text-IsWord (c ∷ name) key ((trimmed, filled), (trimmed', filled')) =
    (IsTrimmed-append (c ∷ name) key b'=' trimmed trimmed' filled filled', refl)

print_keys-IsWord :
    (p : Text × Text) (ps : List (Text × Text))
    → All IsPrintable (p ∷ ps)
    → IsWord (print_keys (p ∷ ps))
print_keys-IsWord (name, key) [] ((m, _, _, _), _) = pair_text-IsWord name key m
print_keys-IsWord ([], key) (q ∷ ps) ((((_, filled), _), _, _, _), rest) = cc
print_keys-IsWord (c ∷ name, key) (q ∷ ps) ((m, _, _, _), rest) =
    let (trimmed, filled) = pair_text-IsWord (c ∷ name) key m in
    let (trimmed', filled') = print_keys-IsWord q ps rest in
    (
      IsTrimmed-append (pair_text (c ∷ name, key)) (print_keys (q ∷ ps)) b';' trimmed trimmed'
          filled filled',
      refl,
    )

Lacks-pair_text :
    (name key : Text) → Lacks b';' name → Lacks b';' key → Lacks b';' (pair_text (name, key))
Lacks-pair_text name key h k =
    All-append (λ (c : ℕ). (c == b';') ≡ false) name (b'=' ∷ key) h (refl, k)

split_on-print_keys :
    (p : Text × Text) (ps : List (Text × Text))
    → All IsPrintable (p ∷ ps)
    → split_on b';' (print_keys (p ∷ ps)) ≡ map pair_text (p ∷ ps)
split_on-print_keys (name, key) [] ((m, _, ln, lk), _) =
    split_on_of_Lacks b';' (pair_text (name, key)) (Lacks-pair_text name key ln lk)
split_on-print_keys (name, key) (q ∷ ps) ((m, _, ln, lk), rest) =
    split_on-append b';' (pair_text (name, key)) (print_keys (q ∷ ps))
      (Lacks-pair_text name key ln lk)
    ∙ ap (λ parts. pair_text (name, key) ∷ parts) (split_on-print_keys q ps rest)

text_eq_middle :
    (j name key : Text) (acc ps : List (Text × Text))
    → AbsentKey j (acc ++ (name, key) ∷ ps)
    → text_eq name j ≡ false
text_eq_middle j name key [] ps a = a.0
text_eq_middle j name key ((i, v) ∷ acc) ps a = text_eq_middle j name key acc ps a.1

DistinctKeys-AbsentKey :
    (name key : Text) (acc ps : List (Text × Text))
    → DistinctKeys (acc ++ (name, key) ∷ ps)
    → AbsentKey name acc
DistinctKeys-AbsentKey name key [] ps d = tt
DistinctKeys-AbsentKey name key ((i, v) ∷ acc) ps (a, d) = (
  ground (arith, text_eq_middle i name key acc ps a, text_eq_iff name i, text_eq_iff i name),
  DistinctKeys-AbsentKey name key acc ps d,
)

insert_of_AbsentKey :
    (name key : Text) (acc : List (Text × Text))
    → AbsentKey name acc
    → insert name key acc ≡ acc ++ (name, key) ∷ []
unfolding insert
insert_of_AbsentKey name key [] a = refl
insert_of_AbsentKey name key ((i, v) ∷ acc) (ne, a) =
    rw ne (ap (λ r. (i, v) ∷ r) (insert_of_AbsentKey name key acc a))

mapping_of-cut :
    (name key : Text)
    → IsPrintable (name, key)
    → mapping_of (cut (text "=") (trim_space (pair_text (name, key)))) ≡ some (name, key)
unfolding mapping_of
mapping_of-cut name key (m, eq, _, _) =
    let whole = trim_space_of_IsTrimmed _ (pair_text-IsWord name key m).0 in
    let left = trim_space_of_IsTrimmed name m.0.0 in
    let right = trim_space_of_IsTrimmed key m.1.0 in
    rw (whole, cut-append b'=' [] name key eq, left, right, m.0.1, m.1.1) refl

parse_pairs-print :
    (i : ℕ) (acc ps : List (Text × Text))
    → All IsPrintable ps
    → DistinctKeys (acc ++ ps)
    → is_empty (acc ++ ps) ≡ false
    → parse_pairs i acc (map pair_text ps) ≡ ok (acc ++ ps)
unfolding parse_pairs
parse_pairs-print i acc [] h d filled =
    let same = append-nil acc in
    rw (subst (λ (ks : List (Text × Text)). is_empty ks ≡ false) same filled) (ap ok (sym same))
parse_pairs-print i acc ((name, key) ∷ ps) (p, h) d filled =
    let word = pair_text-IsWord name key p.0 in
    let written : is_empty (trim_space (pair_text (name, key))) ≡ false =
      ap is_empty (trim_space_of_IsTrimmed _ word.0) ∙ word.1 in
    let added = insert_of_AbsentKey name key acc (DistinctKeys-AbsentKey name key acc ps d) in
    let same = append_assoc acc ((name, key) ∷ []) ps in
    rw (written, mapping_of-cut name key p, added, ← same)
      (parse_pairs-print (i + 1) (acc ++ (name, key) ∷ []) ps h (subst DistinctKeys (sym same) d)
        (subst (λ (ks : List (Text × Text)). is_empty ks ≡ false) (sym same) filled))

-- Printing and parsing: what an operator writes for one or more keys with distinct names is read back as it is, if no
-- name or key is empty or has a space at an end, no name has `=` and neither has `;`.
pub parse_app_keys-print_keys :
    (keys : List (Text × Text))
    → All IsPrintable keys
    → DistinctKeys keys
    → is_empty keys ≡ false
    → parse_app_keys (print_keys keys) ≡ ok keys
unfolding parse_app_keys
parse_app_keys-print_keys [] h d filled = cc
parse_app_keys-print_keys (p ∷ ps) h d filled =
    let (trimmed, written) = print_keys-IsWord p ps h in
    rw (trim_space_of_IsTrimmed _ trimmed, written, split_on-print_keys p ps h)
      (parse_pairs-print 0 [] (p ∷ ps) h d refl)
