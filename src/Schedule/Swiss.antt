-- ===== src/Schedule/Swiss.antt =====
-- The Swiss draw of backend/app/modules/tournaments/scheduling.py: the order of the teams, the
-- orientations of a pair, and the search. `random_order` are the draws of `Random(seed)`, of which
-- only the order is used.
pub mod Draw
pub mod Sound
pub mod Failure
pub mod Conclusive
pub mod Complete
pub mod Built
pub mod Rounds
pub mod Fallback
pub mod Search
mod Tests
use bracket_craft.Prelude.{
  ℕ, zero, suc, ◌+◌, ◌-◌, Bool, true, false, ◌&&◌, ◌||◌, not, Option, none, some, List, [], ◌∷◌,
  Perm, ltb, leb, ◌==◌, if◌then◌else◌, keep, any,
}
use bracket_craft.Prelude.Dict.{Dict, lookup, lookup_or, insert}
use bracket_craft.Prelude.Sort.{sort_by}
use mathlib.Core.List.Perm
use bracket_craft.Prelude.Teams.{Uuid}

-- A row of the standings, as far as it is read
pub record SwissStanding : Type 0 where
  pub team_id : Uuid
  pub points : ℕ
  pub won : ℕ
  pub rank : ℕ

-- The arguments of a draw that do not change while it runs
pub record SwissInput : Type 0 where
  pub team_count : ℕ
  pub standing_by_id : Dict SwissStanding
  pub prior_pairs : List (Uuid × Uuid)
  pub home_target : Option ℕ
  pub away_target : Option ℕ
  pub bye_counts : Dict ℕ
  pub random_order : Dict ℕ
  pub search_limit : ℕ
  pub total_limit : ℕ

-- `home_counts` and `away_counts`
abbrev pub Counts : Type 0
Counts = Dict ℕ

abbrev pub count_of : Uuid → Counts → ℕ
count_of t counts = lookup_or 0 t counts

abbrev pub add_one : Uuid → Counts → Counts
add_one t counts = insert t (count_of t counts + 1) counts

abbrev pub distance : ℕ → ℕ → ℕ
distance a b = (a - b) + (b - a)

-- Whether a count is below its target, which may not be set.
abbrev pub below : Option ℕ → ℕ → Bool
below none n = true
below (some target) n = ltb n target

-- `>= (target if target is not None else 10**9)`
abbrev pub reached : Option ℕ → ℕ → Bool
reached none n = leb 1000000000 n
reached (some target) n = leb target n

module _ (i : SwissInput) where
  abbrev pub points_of : Uuid → ℕ
  points_of t = elim (lookup t i.standing_by_id) [ none ↦ 0 | some row ↦ row.points ]

  abbrev pub won_of : Uuid → ℕ
  won_of t = elim (lookup t i.standing_by_id) [ none ↦ 0 | some row ↦ row.won ]

  abbrev pub rank_of : Uuid → ℕ
  rank_of t = elim (lookup t i.standing_by_id) [ none ↦ i.team_count + 1 | some row ↦ row.rank ]

  abbrev pub random_of : Uuid → ℕ
  random_of t = lookup_or 0 t i.random_order

  -- `score_key(a) <= score_key(b)`
  unfoldable pub score_le : Uuid → Uuid → Bool
  score_le a b =
      if not (points_of a == points_of b)
      then ltb (points_of b) (points_of a)
      else if not (won_of a == won_of b)
      then ltb (won_of b) (won_of a)
      else if not (rank_of a == rank_of b)
      then ltb (rank_of a) (rank_of b)
      else if not (random_of a == random_of b)
      then ltb (random_of a) (random_of b)
      else leb a b

  abbrev pub same_record : Uuid → Uuid → Bool
  same_record a b = points_of a == points_of b && won_of a == won_of b

  -- `candidate_key(first, a) <= candidate_key(first, b)`
  unfoldable pub candidate_le : Uuid → Uuid → Uuid → Bool
  candidate_le first a b =
      if same_record first a && not (same_record first b)
      then true
      else if not (same_record first a) && same_record first b
      then false
      else if not
          (distance (points_of first) (points_of a) == distance (points_of first) (points_of b))
      then ltb (distance (points_of first) (points_of a)) (distance (points_of first) (points_of b))
      else leb (random_of a) (random_of b)

  -- The key of an orientation, smaller or equal
  unfoldable pub orientation_le : Counts → Counts → Uuid × Uuid → Uuid × Uuid → Bool
  orientation_le h a (x, y) (z, w) =
      if not (reached i.home_target (count_of x h)) && reached i.home_target (count_of z h)
      then true
      else if reached i.home_target (count_of x h) && not (reached i.home_target (count_of z h))
      then false
      else if not (reached i.away_target (count_of y a)) && reached i.away_target (count_of w a)
      then true
      else if reached i.away_target (count_of y a) && not (reached i.away_target (count_of w a))
      then false
      else if not
          (distance (count_of x h + 1) (count_of x a) == distance (count_of z h + 1) (count_of z a))
      then ltb (distance (count_of x h + 1) (count_of x a))
          (distance (count_of z h + 1) (count_of z a))
      else leb (random_of x) (random_of z)

  -- The filter of `valid`, which without a target keeps everything
  abbrev pub is_allowed : Counts → Counts → Uuid × Uuid → Bool
  is_allowed h a (x, y) = below i.home_target (count_of x h) && below i.away_target (count_of y a)

  unfoldable pub orientation_options : Uuid → Uuid → Counts → Counts → List (Uuid × Uuid)
  unfolding orientation_le sort_by
  orientation_options first second h a =
      keep (is_allowed h a) (sort_by (orientation_le h a) ((first, second) ∷ (second, first) ∷ []))

  -- `frozenset((first, second)) in prior_pairs`
  abbrev pub has_met : Uuid → Uuid → Bool
  has_met x y = any (λ p. p.0 == x && p.1 == y || p.0 == y && p.1 == x) i.prior_pairs

  -- `candidates`
  abbrev pub candidates_for : Uuid → List Uuid → List Uuid
  unfolding candidate_le sort_by
  candidates_for first others = sort_by (candidate_le first) others

abbrev pub others_than : Uuid → List Uuid → List Uuid
others_than t = keep (λ x. not (x == t))

-- What the search gives: the pairs, `None`, or the exception, with the evaluations so far.
pub data SearchOutcome : Type 0 where
  found : List (Uuid × Uuid) → ℕ → SearchOutcome
  exhausted : ℕ → SearchOutcome
  limit_reached : ℕ → SearchOutcome

-- After a recursive call: `[(home, away), *result]`, the next option, or the exception.
unfoldable pub after_result : Uuid × Uuid → SearchOutcome → (ℕ → SearchOutcome) → SearchOutcome
after_result pair (found pairs n) next = found (pair ∷ pairs) n
after_result pair (exhausted n) next = next n
after_result pair (limit_reached n) next = limit_reached n

-- After the loop over the options of a candidate
unfoldable pub after_options : SearchOutcome → (ℕ → SearchOutcome) → SearchOutcome
after_options (found pairs n) next = found pairs n
after_options (exhausted n) next = next n
after_options (limit_reached n) next = limit_reached n

abbrev pub Search : Type 0
Search = List Uuid → Counts → Counts → ℕ → SearchOutcome

-- The loop over the options; the counts are restored after each call.
unfoldable pub try_options :
    Search → List Uuid → List (Uuid × Uuid) → Counts → Counts → ℕ → SearchOutcome
unfolding after_result
try_options recurse rest [] h a n = exhausted n
try_options recurse rest (pair ∷ options) h a n =
    after_result pair (recurse rest (add_one pair.0 h) (add_one pair.1 a) n)
      (λ m. try_options recurse rest options h a m)

module _ (i : SwissInput) where
  -- The loop over the candidates for `first`
  unfoldable pub try_candidates :
      Search → Uuid → List Uuid → List Uuid → Counts → Counts → ℕ → SearchOutcome
  unfolding try_options after_options orientation_options
  try_candidates recurse first others [] h a n = exhausted n
  try_candidates recurse first others (second ∷ more) h a n =
      let next : ℕ → SearchOutcome = λ m. try_candidates recurse first others more h a m in
      if not (ltb n i.search_limit)
      then limit_reached n
      else if has_met i first second
      then next (n + 1)
      else after_options
          (try_options recurse (others_than second others) (orientation_options i first second h a)
            h a (n + 1))
          next

  -- Each call pairs two teams, so that the number of teams bounds the depth.
  unfoldable pub pair_remaining : ℕ → Search
  unfolding try_candidates candidates_for
  pair_remaining fuel [] h a n = found [] n
  pair_remaining zero (first ∷ others) h a n = exhausted n
  pair_remaining (suc fuel) (first ∷ others) h a n =
      try_candidates (pair_remaining fuel) first others (candidates_for i first others) h a n
