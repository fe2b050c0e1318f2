-- ===== src/Standings/Pipeline.antt =====
-- The ranking of backend/app/modules/standings/service.py: `split_bucket`, the pipeline over the
-- buckets of each group, and the ranks. `tie_value` stands for `deterministic_tie_value` on the seed
-- of the stage, a SHA-256 digest; of its text only the order is used.
use bracket_craft.Prelude.{
  ℕ, Bool, ◌&&◌, ◌||◌, not, Option, none, some, List, [], ◌∷◌, ◌++◌, map, ltb, leb, ◌==◌,
  if◌then◌else◌, length,
}
use bracket_craft.Prelude.Int.{ℤ, pos, pos_part, ◌-ℤ◌, leb_ℤ}
use bracket_craft.Prelude.Dict.{lookup}
use bracket_craft.Prelude.Sort.{sort_by}
use bracket_craft.Prelude.Errors.{Result, ok, ◌>>=◌}
use bracket_craft.Prelude.Teams.{Uuid}
use bracket_craft.Prelude.Grouping.{group, group_by}
use bracket_craft.Rules.{Criterion, head_to_head, random_draw, PipelineStep}
use bracket_craft.HeadToHead.{
  MatchRecord, HeadToHeadStats, PointsUpdate, HeadToHeadError, Scoring, Verdict, home_wins,
  away_wins, drawn, names, calculate_head_to_head_stats,
}
use bracket_craft.Standings.{StandingRow, same_group, Records}
use bracket_craft.HeadToHead
use bracket_craft.Rules.Validation.{same_criterion}

abbrev pub Bucket : Type 0
Bucket = List StandingRow

-- Equal keys are those that are at most each other.
abbrev pub same : {K : Type 0} → (K → K → Bool) → K → K → Bool
same le a b = le a b && le b a

-- `[buckets_by_key[key] for key in sorted(buckets_by_key, reverse=True)]`
abbrev pub split_by : {K A : Type 0} → (K → K → Bool) → (A → K) → List A → List (List A)
split_by le key bucket =
    map (λ entry. entry.1) (sort_by (λ a b. le b.0 a.0) (group_by (same le) key bucket))

-- `ranking_value`, but for the draw; `head_to_head` is no key of the item.
unfoldable pub ranking_value : Criterion → StandingRow → ℤ
ranking_value criterion row = elim criterion [
  | Criterion.points ↦ pos row.points
  | Criterion.goal_difference ↦ row.goal_difference
  | Criterion.goals_for ↦ pos row.goals_for
  | Criterion.goals_against ↦ pos 0 -ℤ pos row.goals_against
  | Criterion.fair_play_points ↦ row.fair_play_points
  | _ ↦ pos 0
]

-- `(stats.points, stats.goal_diff, stats.goals_for)`
abbrev pub MiniKey : Type 0
MiniKey = ℕ × (ℤ × ℕ)

abbrev pub mini_le : MiniKey → MiniKey → Bool
mini_le (p, (d, g)) (q, (e, h)) = ltb p q || (p == q && (not (leb_ℤ e d) || (leb_ℤ d e && leb g h)))

-- `h2h_stats[item["team_id"]]`, which has every team of the bucket
abbrev pub stats_key : Option HeadToHeadStats → MiniKey
stats_key none = (0, (pos 0, 0))
stats_key (some s) = (s.points, (s.goal_diff, s.goals_for))

abbrev pub mini_key : HeadToHead.Table → StandingRow → MiniKey
mini_key stats row = stats_key (lookup row.team_id stats)

-- A missing count is rejected as a count of zero is.
abbrev pub rounds_of : Option ℤ → ℕ
rounds_of none = 0
rounds_of (some z) = pos_part z

abbrev pub group_of : Bucket → Option Uuid
group_of [] = none
group_of (row ∷ rest) = row.group_id

abbrev pub ids_of : Bucket → List Uuid
ids_of [] = []
ids_of (row ∷ rest) = row.team_id ∷ ids_of rest

abbrev pub update_of : Scoring → PointsUpdate
update_of s = record { win = some s.win; draw = some s.draw; loss = some s.loss }

-- Without a mini-table the bucket stays whole.
unfoldable pub split_stats : Bucket → Option HeadToHead.Table → List Bucket
unfolding group_by sort_by
split_stats bucket none = bucket ∷ []
split_stats bucket (some table) = split_by mini_le (mini_key table) bucket

module _ (tie_value : Uuid → ℕ) where
  unfoldable pub split_values : Criterion → Bucket → List Bucket
  unfolding group_by sort_by
  split_values criterion bucket =
      if same_criterion criterion random_draw
      then split_by leb (λ row. tie_value row.team_id) bucket
      else split_by leb_ℤ (ranking_value criterion) bucket

  unfoldable pub split_mini_table :
      Scoring → Records → Option ℤ → Bucket → Result HeadToHeadError (List Bucket)
  unfolding group split_stats
  split_mini_table s records rounds bucket = do
    stats ←
        calculate_head_to_head_stats (ids_of bucket) (group same_group (group_of bucket) records)
          (rounds_of rounds) (some (update_of s))
    ok (split_stats bucket stats)

  unfoldable pub split_bucket :
      Scoring → Records → PipelineStep → Bucket → Result HeadToHeadError (List Bucket)
  unfolding split_mini_table split_values
  split_bucket s records step bucket =
      if ltb (length bucket) 2
      then ok (bucket ∷ [])
      else if same_criterion step.criterion head_to_head
      then split_mini_table s records step.total_rounds_expected bucket
      else ok (split_values step.criterion bucket)

  -- `next_buckets`
  unfoldable pub split_buckets :
      Scoring → Records → PipelineStep → List Bucket → Result HeadToHeadError (List Bucket)
  unfolding split_bucket
  split_buckets s records step [] = ok []
  split_buckets s records step (bucket ∷ more) = do
    first ← split_bucket s records step bucket
    rest ← split_buckets s records step more
    ok (first ++ rest)

  unfoldable pub run_pipeline :
      Scoring → Records → List PipelineStep → List Bucket → Result HeadToHeadError (List Bucket)
  unfolding split_buckets
  run_pipeline s records [] buckets = ok buckets
  run_pipeline s records (step ∷ steps) buckets = do
    next ← split_buckets s records step buckets
    run_pipeline s records steps next
