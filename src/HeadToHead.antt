-- ===== src/HeadToHead.antt =====
-- backend/app/modules/standings/head_to_head.py: the mini-table of a tied group and the order it
-- gives. The state of the loop is the dict of the objects that the loop mutates.
mod Tests
pub mod Order
pub mod Ranking
pub mod Balance
pub mod Complete
use bracket_craft.Prelude.{
  ℕ, ◌+◌, ◌-◌, ◌*◌, ◌/◌, max, min, Bool, true, false, ◌&&◌, ◌||◌, not, Option, none, some, List, [],
  ◌∷◌, ◌++◌, Perm, ltb, leb, ◌==◌, if◌then◌else◌, length, keep, elem,
}
use bracket_craft.Prelude.Int.{ℤ, pos, sub_ℕ, ◌+ℤ◌, leb_ℤ}
use bracket_craft.Prelude.Dict.{Dict, lookup_or, values, modify, enumerate}
use bracket_craft.Prelude.Sort.{sort_by}
use mathlib.Core.List.Perm
use bracket_craft.Prelude.Errors.{Result, ok, ◌>>=◌, ◌>>◌, raise_if}
use bracket_craft.Prelude.Teams.{Uuid}

pub record MatchRecord : Type 0 where
  pub home_team_id : Uuid
  pub away_team_id : Uuid
  pub home_score : ℕ
  pub away_score : ℕ
  pub is_finished : Bool
  pub winner_team_id : Option Uuid

pub record HeadToHeadStats : Type 0 where
  pub team_id : Uuid
  pub points : ℕ
  pub goal_diff : ℤ
  pub goals_for : ℕ

-- `points_system` may name any of the three keys.
pub record PointsUpdate : Type 0 where
  pub win : Option ℕ
  pub draw : Option ℕ
  pub loss : Option ℕ

pub record Scoring : Type 0 where
  pub win : ℕ
  pub draw : ℕ
  pub loss : ℕ

pub data HeadToHeadError : Type 0 where
  bad_rounds : HeadToHeadError

-- `sorted(ids, key=str)`
abbrev pub sorted_ids : List Uuid → List Uuid
sorted_ids = sort_by leb

-- The loop of `_fallback_order`, with its `result` and `seen`, which hold the same teams.
abbrev pub fallback_loop : List Uuid → List Uuid → List Uuid → List Uuid
fallback_loop tied result [] = result
fallback_loop tied result (team_id ∷ rest) =
    fallback_loop tied
      (if elem team_id tied && not (elem team_id result) then result ++ team_id ∷ [] else result)
      rest

unfoldable pub fallback : List Uuid → Option (List Uuid) → List Uuid
fallback tied order =
    let result = fallback_loop tied [] (elim order [ none ↦ [] | some ids ↦ ids ]) in
    result ++ sorted_ids (keep (λ t. not (elem t result)) tied)

-- `{"win": 3, "draw": 1, "loss": 0}` and `scoring.update(points_system)`
abbrev pub value_or : ℕ → Option ℕ → ℕ
value_or d none = d
value_or d (some v) = v

unfoldable pub scoring : Option PointsUpdate → Scoring
scoring none = record { win = 3; draw = 1; loss = 0 }
scoring (some p) = record {
  win = value_or 3 p.win;
  draw = value_or 1 p.draw;
  loss = value_or 0 p.loss;
}

unfoldable pub relevant : List Uuid → MatchRecord → Bool
relevant tied m = m.is_finished && (elem m.home_team_id tied && elem m.away_team_id tied)

-- `frozenset((a, b))` of two identifiers, by its least and its greatest member
abbrev pub Pair : Type 0
Pair = ℕ × ℕ

abbrev pub pair_of : Uuid → Uuid → Pair
pair_of a b = (min a b, max a b)

abbrev pub pair_eq : Pair → Pair → Bool
pair_eq (a, b) (c, d) = a == c && b == d

abbrev pub PairCounts : Type 0
PairCounts = List (Pair × ℕ)

abbrev pub pairs_with : Uuid → List Uuid → PairCounts
pairs_with a [] = []
pairs_with a (b ∷ bs) = (pair_of a b, 0) ∷ pairs_with a bs

-- `pair_counts`, for the sorted teams
unfoldable pub initial_counts : List Uuid → PairCounts
initial_counts [] = []
initial_counts (a ∷ bs) = pairs_with a bs ++ initial_counts bs

-- `pair_counts[pair] += 1`, `none` where the pair is no key
abbrev pub bump : Pair → PairCounts → Option PairCounts
bump p [] = none
bump p ((q, n) ∷ c) =
    let rest = bump p c in
    if pair_eq p q
    then some ((q, n + 1) ∷ c)
    else elim rest [ none ↦ none | some c' ↦ some ((q, n) ∷ c') ]

-- The counting loop; `none` is its `return None`.
unfoldable pub count_pairs : List MatchRecord → PairCounts → Option PairCounts
count_pairs [] c = some c
count_pairs (m ∷ ms) c =
    if m.home_team_id == m.away_team_id
    then none
    else elim (bump (pair_of m.home_team_id m.away_team_id) c) [
      | none ↦ none
      | some c' ↦ count_pairs ms c'
    ]

-- Which side takes the win: by the score, and on equal scores by the named winner.
pub data Verdict : Type 0 where
  home_wins away_wins drawn : Verdict

abbrev pub names : Option Uuid → Uuid → Bool
names none t = false
names (some w) t = w == t

unfoldable pub verdict : MatchRecord → Verdict
verdict m =
    if ltb m.away_score m.home_score
    then home_wins
    else if ltb m.home_score m.away_score
    then away_wins
    else if names m.winner_team_id m.home_team_id
    then home_wins
    else if names m.winner_team_id m.away_team_id
    then away_wins
    else drawn

unfoldable pub home_points : Scoring → Verdict → ℕ
home_points s home_wins = s.win
home_points s away_wins = s.loss
home_points s drawn = s.draw

unfoldable pub away_points : Scoring → Verdict → ℕ
away_points s home_wins = s.loss
away_points s away_wins = s.win
away_points s drawn = s.draw

unfoldable pub credit : ℕ → ℕ → ℕ → HeadToHeadStats → HeadToHeadStats
credit points scored conceded s = record s {
  points = s.points + points;
  goal_diff = s.goal_diff +ℤ sub_ℕ scored conceded;
  goals_for = s.goals_for + scored;
}

abbrev pub Table : Type 0
Table = Dict HeadToHeadStats

-- One round of the scoring loop.
unfoldable pub score_match : Scoring → MatchRecord → Table → Table
score_match s m table =
    modify m.away_team_id (credit (away_points s (verdict m)) m.away_score m.home_score)
      (modify m.home_team_id (credit (home_points s (verdict m)) m.home_score m.away_score) table)

unfoldable pub score_all : Scoring → List MatchRecord → Table → Table
score_all s [] table = table
score_all s (m ∷ ms) table = score_all s ms (score_match s m table)

unfoldable pub empty_table : List Uuid → Table
empty_table [] = []
empty_table (t ∷ ts) =
    (t, record { team_id = t; points = 0; goal_diff = pos 0; goals_for = 0 }) ∷ empty_table ts

abbrev pub all_equal : ℕ → PairCounts → Bool
all_equal r [] = true
all_equal r ((p, n) ∷ c) = n == r && all_equal r c

-- `len(relevant) != expected or any(count != total_rounds_expected)`, negated
unfoldable pub is_complete : List Uuid → List MatchRecord → ℕ → PairCounts → Bool
is_complete tied ms rounds counts =
    length ms == length tied * (length tied - 1) / 2 * rounds && all_equal rounds counts

-- What follows the check of `total_rounds_expected`.
unfoldable pub mini_table : List Uuid → List MatchRecord → ℕ → Option PointsUpdate → Option Table
mini_table tied matches rounds points_system =
    let ms = keep (relevant tied) matches in
    if ltb (length tied) 2
    then some (empty_table tied)
    else elim (count_pairs ms (initial_counts (sorted_ids tied))) [
      | none ↦ none
      | some counts ↦
          if is_complete tied ms rounds counts
          then some (score_all (scoring points_system) ms (empty_table tied))
          else none
    ]

unfoldable pub calculate_head_to_head_stats :
    List Uuid → List MatchRecord → ℕ → Option PointsUpdate → Result HeadToHeadError (Option Table)
calculate_head_to_head_stats tied matches rounds points_system = do
  raise_if (not (rounds == 1 || rounds == 2)) bad_rounds
  ok (mini_table tied matches rounds points_system)

-- The sort key with `reverse=True`: the greater key stands first, and the last component is
-- `-position`, so a smaller position wins.
unfoldable pub ranks_before : Dict ℕ → HeadToHeadStats → HeadToHeadStats → Bool
ranks_before position a b =
    if ltb b.points a.points
    then true
    else if ltb a.points b.points
    then false
    else if not (leb_ℤ a.goal_diff b.goal_diff)
    then true
    else if not (leb_ℤ b.goal_diff a.goal_diff)
    then false
    else if ltb b.goals_for a.goals_for
    then true
    else if ltb a.goals_for b.goals_for
    then false
    else leb (lookup_or 0 a.team_id position) (lookup_or 0 b.team_id position)

abbrev pub team_ids : List HeadToHeadStats → List Uuid
team_ids [] = []
team_ids (s ∷ ss) = s.team_id ∷ team_ids ss

unfoldable pub resolve_head_to_head :
    List Uuid
    → List MatchRecord
    → ℕ
    → Option PointsUpdate
    → Option (List Uuid)
    → Result HeadToHeadError (List Uuid)
resolve_head_to_head tied matches rounds points_system order = do
  stats ← calculate_head_to_head_stats tied matches rounds points_system
  ok (elim stats [
    | none ↦ fallback tied order
    | some table ↦
        team_ids (sort_by (ranks_before (enumerate 0 (fallback tied order))) (values table))
  ])
