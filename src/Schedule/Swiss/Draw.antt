-- ===== src/Schedule/Swiss/Draw.antt =====
-- `build_swiss_pairings`: the bye, the search, and the greedy fallback when the search has used its
-- share of the budget.
use bracket_craft.Prelude.{
  ℕ, zero, suc, ◌+◌, ◌%◌, Bool, ◌&&◌, not, Option, none, some, List, [], ◌∷◌, ◌++◌, ltb, leb, ◌==◌,
  if◌then◌else◌, length, keep, elem,
}
use bracket_craft.Prelude.Int.{ℤ, pos_part}
use bracket_craft.Prelude.Dict.{Dict, lookup_or, insert}
use bracket_craft.Prelude.Sort.{sort_by}
use bracket_craft.Prelude.Errors.{Result, ok, raise, ◌>>◌, raise_if}
use bracket_craft.Prelude.Teams.{Uuid}
use bracket_craft.Schedule.{
  ScheduleError, negative_seed, bad_swiss_round, no_valid_pairing, budget_exhausted,
  validate_team_ids, is_negative, below_one,
}
use bracket_craft.Schedule.Swiss.{
  SwissStanding, SwissInput, Counts, add_one, points_of, won_of, rank_of, random_of, score_le,
  orientation_options, has_met, candidates_for, others_than, SearchOutcome, found, exhausted,
  limit_reached, pair_remaining,
}

pub record SwissPairing : Type 0 where
  pub home_team_id : Option Uuid
  pub away_team_id : Option Uuid
  pub bye_team_id : Option Uuid

-- `budget`: the limits, and the evaluations that it has counted
pub record PairingBudget : Type 0 where
  pub search_limit : ℕ
  pub total_limit : ℕ
  pub evaluations : ℕ

abbrev pub default_budget : PairingBudget
default_budget = record { search_limit = 40000; total_limit = 50000; evaluations = 0 }

-- What the loop over the candidates of the fallback chooses
pub data Pick : Type 0 where
  picked : Uuid → Uuid × Uuid → ℕ → Pick
  nobody : ℕ → Pick

unfoldable pub first_option : Uuid → List (Uuid × Uuid) → ℕ → Pick → Pick
first_option second [] n next = next
first_option second (pair ∷ options) n next = picked second pair n

pub data Attempt : Type 0 where
  paired : List (Uuid × Uuid) → Option Uuid → ℕ → Attempt
  unpaired : ℕ → Attempt
  stopped : ℕ → Attempt

unfoldable pub prepend : Uuid × Uuid → Attempt → Attempt
prepend pair (paired pairs bye n) = paired (pair ∷ pairs) bye n
prepend pair (unpaired n) = unpaired n
prepend pair (stopped n) = stopped n

module _ (i : SwissInput) where
  unfoldable pub pick_candidate : Uuid → List Uuid → Counts → Counts → ℕ → Pick
  unfolding first_option orientation_options
  pick_candidate first [] h a n = nobody n
  pick_candidate first (second ∷ more) h a n =
      let next = pick_candidate first more h a (n + 1) in
      if not (ltb n i.total_limit)
      then nobody n
      else if has_met i first second
      then next
      else first_option second (orientation_options i first second h a) (n + 1) next

  -- The end of a round of the loop: `return None`, or the pair and the other teams
  unfoldable pub after_pick :
      (List Uuid → Counts → Counts → ℕ → Attempt)
      → Uuid
      → List Uuid
      → Counts
      → Counts
      → Pick
      → Attempt
  unfolding prepend
  after_pick recurse first others h a (nobody n) = unpaired n
  after_pick recurse first others h a (picked second pair n) = prepend pair (
      recurse (keep (λ t. not (t == first) && not (t == second)) (first ∷ others))
        (add_one pair.0 h) (add_one pair.1 a) n)

  -- Each round removes at least one team.
  unfoldable pub greedy : ℕ → List Uuid → Counts → Counts → ℕ → Attempt
  unfolding after_pick pick_candidate candidates_for
  greedy fuel [] h a n = paired [] none n
  greedy fuel (first ∷ []) h a n = unpaired n
  greedy zero (first ∷ second ∷ others) h a n = unpaired n
  greedy (suc fuel) (first ∷ second ∷ others) h a n =
      after_pick (greedy fuel) first (second ∷ others) h a
        (pick_candidate first (candidates_for i first (second ∷ others)) h a n)

  -- The outcome of the search for one bye, or none
  unfoldable pub attempt_of : Option Uuid → SearchOutcome → (ℕ → Attempt) → Attempt
  attempt_of bye (found pairs n) next = paired pairs bye n
  attempt_of bye (exhausted n) next = next n
  attempt_of bye (limit_reached n) next = stopped n

  unfoldable pub search_byes : List Uuid → List Uuid → Counts → Counts → ℕ → Attempt
  unfolding attempt_of pair_remaining
  search_byes ordered [] h a n = unpaired n
  search_byes ordered (bye ∷ more) h a n =
      attempt_of (some bye) (pair_remaining i (length ordered) (others_than bye ordered) h a n)
        (λ m. search_byes ordered more h a m)

  -- The result of the fallback for one bye; `break` when the whole budget is used
  unfoldable pub fallback_of : Uuid → Attempt → (ℕ → Attempt) → Attempt
  fallback_of bye (paired pairs nobody_else n) next = paired pairs (some bye) n
  fallback_of bye (unpaired n) next = if leb i.total_limit n then unpaired n else next n
  fallback_of bye (stopped n) next = stopped n

  unfoldable pub greedy_byes : List Uuid → List Uuid → Counts → Counts → ℕ → Attempt
  unfolding fallback_of greedy
  greedy_byes ordered [] h a n = unpaired n
  greedy_byes ordered (bye ∷ more) h a n =
      fallback_of bye (greedy (length ordered) (others_than bye ordered) h a n)
        (λ m. greedy_byes ordered more h a m)

  -- The key of `bye_candidates`, smaller or equal
  unfoldable pub bye_le : Uuid → Uuid → Bool
  bye_le x y =
      if not (lookup_or 0 x i.bye_counts == lookup_or 0 y i.bye_counts)
      then ltb (lookup_or 0 x i.bye_counts) (lookup_or 0 y i.bye_counts)
      else if not (points_of i x == points_of i y)
      then ltb (points_of i x) (points_of i y)
      else if not (won_of i x == won_of i y)
      then ltb (won_of i x) (won_of i y)
      else if not (rank_of i x == rank_of i y)
      then ltb (rank_of i y) (rank_of i x)
      else leb (random_of i x) (random_of i y)

  abbrev pub bye_candidates : List Uuid → List Uuid
  bye_candidates ordered = sort_by bye_le ordered

  unfoldable pub search_draw : List Uuid → Counts → Counts → ℕ → Attempt
  unfolding search_byes sort_by bye_le
  search_draw ordered h a n =
      if length ordered % 2 == 0
      then attempt_of none (pair_remaining i (length ordered) ordered h a n) (λ m. unpaired m)
      else search_byes ordered (bye_candidates ordered) h a n

  unfoldable pub fallback_draw : List Uuid → Counts → Counts → ℕ → Attempt
  unfolding greedy_byes sort_by bye_le
  fallback_draw ordered h a n =
      if length ordered % 2 == 0
      then greedy (length ordered) ordered h a n
      else greedy_byes ordered (bye_candidates ordered) h a n

  abbrev pub pairings_of : List (Uuid × Uuid) → List SwissPairing
  pairings_of [] = []
  pairings_of (pair ∷ pairs) =
      record { home_team_id = some pair.0; away_team_id = some pair.1; bye_team_id = none }
      ∷ pairings_of pairs

  unfoldable pub assemble : List (Uuid × Uuid) → Option Uuid → List SwissPairing
  assemble pairs none = pairings_of pairs
  assemble pairs (some bye) =
      pairings_of pairs
      ++ record { home_team_id = none; away_team_id = none; bye_team_id = some bye } ∷ []

  -- A failed fallback means that the budget is exhausted.
  unfoldable pub assemble_fallback : Attempt → Result ScheduleError (List SwissPairing)
  unfolding assemble
  assemble_fallback (paired pairs bye n) = ok (assemble pairs bye)
  assemble_fallback (unpaired n) = raise budget_exhausted
  assemble_fallback (stopped n) = raise budget_exhausted

  -- Only a search that was stopped hands over to the fallback, with the same counter.
  unfoldable pub assemble_search :
      List Uuid → Counts → Counts → Attempt → Result ScheduleError (List SwissPairing)
  unfolding assemble assemble_fallback fallback_draw
  assemble_search ordered h a (paired pairs bye n) = ok (assemble pairs bye)
  assemble_search ordered h a (unpaired n) = raise no_valid_pairing
  assemble_search ordered h a (stopped n) = assemble_fallback (fallback_draw ordered h a n)

-- `{row["team_id"]: row for row in standings if row["team_id"] in team_ids}`
abbrev pub rows_of_teams : List Uuid → List SwissStanding → Dict SwissStanding → Dict SwissStanding
rows_of_teams teams [] rows = rows
rows_of_teams teams (row ∷ more) rows =
    rows_of_teams teams more (if elem row.team_id teams then insert row.team_id row rows else rows)

-- `{team_id: rng.random() for team_id in team_ids}`, from the draw `n` on
abbrev pub draw_order : (ℕ → ℕ) → ℕ → List Uuid → Dict ℕ
draw_order random n [] = []
draw_order random n (t ∷ ts) = (t, random n) ∷ draw_order random (n + 1) ts

-- What a draw is asked for, besides the teams and the seed
pub record SwissRequest : Type 0 where
  pub standings : List SwissStanding
  pub prior_pairs : List (Uuid × Uuid)
  pub home_counts : Counts
  pub away_counts : Counts
  pub home_target : Option ℕ
  pub away_target : Option ℕ
  pub bye_counts : Dict ℕ
  pub budget : PairingBudget

abbrev pub input_of : (ℕ → ℕ) → List Uuid → SwissRequest → SwissInput
input_of random teams r = record {
  team_count = length teams;
  standing_by_id = rows_of_teams teams r.standings [];
  prior_pairs = r.prior_pairs;
  home_target = r.home_target;
  away_target = r.away_target;
  bye_counts = r.bye_counts;
  random_order = draw_order random 0 teams;
  search_limit = r.budget.search_limit;
  total_limit = r.budget.total_limit;
}

-- `draws seed n` is the place in the order of the `n`-th `random()` after `Random(seed)`.
unfoldable pub build_swiss_pairings :
    (ℕ → ℕ → ℕ) → List Uuid → ℤ → ℤ → SwissRequest → Result ScheduleError (List SwissPairing)
unfolding validate_team_ids sort_by score_le assemble_search search_draw
build_swiss_pairings draws teams seed round_number r =
    let i : SwissInput = input_of (draws (pos_part seed)) teams r in
    let ordered : List Uuid = sort_by (score_le i) teams in
    do
      validate_team_ids teams 2
      raise_if (is_negative seed) negative_seed
      raise_if (below_one round_number) bad_swiss_round
      assemble_search i ordered r.home_counts r.away_counts
          (search_draw i ordered r.home_counts r.away_counts r.budget.evaluations)
