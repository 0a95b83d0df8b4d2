-- ===== src/Reconcile.antt =====
-- app/pipeline/reconcile_names.py: the resolver that never guesses. `str.casefold` followed by
-- NFC normalisation rests on the Unicode character database and is the parameter `fold`; reading
-- a UUID from text is the parameter `parse_uuid`.
pub mod Resolution
pub mod Unique
pub mod Overrides
mod Tests
use payroll_agent.Prelude.{
  ℕ, ◌++◌, Text, codes, list_eq, nat_eq, Bool, true, false, ◌&&◌, ◌||◌, Option, none, some, List,
  [], ◌∷◌, map, ◌==◌, leb, eqb, any, keep, contains, if◌then◌else◌, get_or_else,
}
use payroll_agent.Prelude.Dict.{Dict, lookup, distinct}
use payroll_agent.Roster.{
  Employee, Roster, NameMatchResult, Source, exact, alias, none_found, operator,
}

-- The characters that `str.isspace` accepts.
unfoldable pub is_space : ℕ → Bool
is_space c =
    (leb 9 c && leb c 13)
    || (leb 28 c && leb c 32)
    || eqb c 133
    || eqb c 160
    || eqb c 5760
    || (leb 8192 c && leb c 8202)
    || eqb c 8232
    || eqb c 8233
    || eqb c 8239
    || eqb c 8287
    || eqb c 12288

-- A word before the words that follow it; an empty one is dropped.
abbrev push_word : Text → List Text → List Text
push_word [] ws = ws
push_word (c ∷ w) ws = (c ∷ w) ∷ ws

-- `s.split()`: the first component is the word that the text begins with, if it begins with one.
split_from : Text → Text × List Text
unfolding is_space
split_from [] = ([], [])
split_from (c ∷ s) =
    let (w, ws) = split_from s in if is_space c then ([], push_word w ws) else (c ∷ w, ws)

unfoldable pub split : Text → List Text
unfolding split_from
split s = let (w, ws) = split_from s in push_word w ws

-- `" ".join(words)`
unfoldable pub join_words : List Text → Text
join_words [] = []
join_words (w ∷ []) = w
join_words (w ∷ v ∷ ws) = w ++ (32 ∷ join_words (v ∷ ws))

abbrev pub employee_id : Employee → ℕ
employee_id e = e.id

-- The result for the candidates of a name: exactly one, or none.
unfoldable pub unique_match : Text → List ℕ → List ℕ → Option NameMatchResult
unique_match name exact_ids [] = none
unique_match name exact_ids (matched_id ∷ []) = some (
    if contains matched_id exact_ids
    then record {
      submitted_name = name;
      matched_employee_id = some matched_id;
      source = exact;
      resolved = true;
      reason = codes "exact match";
    }
    else record {
      submitted_name = name;
      matched_employee_id = some matched_id;
      source = alias;
      resolved = true;
      reason = codes "known alias";
    })
unique_match name exact_ids (a ∷ b ∷ rest) = none

-- `_unresolved(name)`
unfoldable pub unresolved : Text → NameMatchResult
unresolved name = record {
  submitted_name = name;
  matched_employee_id = none;
  source = none_found;
  resolved = false;
  reason = codes "no deterministic or stored-alias match";
}

-- An id that is no employee's is ignored.
unfoldable pub on_roster : Roster → Option ℕ → Option ℕ
on_roster roster none = none
on_roster roster (some i) = if contains i (map employee_id roster.employees) then some i else none

-- The id that an operator stated for a name, when it parses and is on the roster.
unfoldable pub valid_override : (Text → Option ℕ) → Text → Roster → Dict Text Text → Option ℕ
unfolding on_roster
valid_override parse_uuid name roster overrides = on_roster roster (elim (lookup name overrides) [
  | none ↦ none
  | some override_id_str ↦ parse_uuid override_id_str
])

module _ (fold : Text → Text) where
  unfoldable pub normalize_name : Text → Text
  unfolding split join_words
  normalize_name name = join_words (split (fold name))

  -- The tests of the two comprehensions over the roster.
  abbrev pub has_full_name : Text → Employee → Bool
  has_full_name norm e = normalize_name e.full_name == norm

  abbrev pub has_alias : Text → Employee → Bool
  has_alias norm e = any (λ a. normalize_name a == norm) e.known_aliases

  unfoldable pub exact_ids : Text → Roster → List ℕ
  exact_ids norm roster = map employee_id (keep (has_full_name norm) roster.employees)

  unfoldable pub alias_ids : Text → Roster → List ℕ
  alias_ids norm roster = map employee_id (keep (has_alias norm) roster.employees)

  -- `set(exact_ids) | set(alias_ids)`
  unfoldable pub candidate_ids : Text → Roster → List ℕ
  unfolding distinct exact_ids alias_ids
  candidate_ids norm roster = distinct (exact_ids norm roster ++ alias_ids norm roster)

  unfoldable pub deterministic_match : Text → Roster → Option NameMatchResult
  unfolding unique_match
  deterministic_match name roster =
      let norm = normalize_name name in
      unique_match name (exact_ids norm roster) (candidate_ids norm roster)

  module _ (parse_uuid : Text → Option ℕ) where
    -- One round of the loop of `reconcile_names`.
    unfoldable pub reconcile_name : Text → Roster → Dict Text Text → NameMatchResult
    unfolding valid_override deterministic_match unresolved
    reconcile_name name roster overrides = elim (valid_override parse_uuid name roster overrides) [
      | some override_id ↦ record {
        submitted_name = name;
        matched_employee_id = some override_id;
        source = operator;
        resolved = true;
        reason = codes "operator-resolved";
      }
      | none ↦ get_or_else (deterministic_match name roster) (unresolved name)
    ]

    unfoldable pub reconcile_names : List Text → Roster → Dict Text Text → List NameMatchResult
    unfolding reconcile_name
    reconcile_names names roster overrides = map (λ n. reconcile_name n roster overrides) names
