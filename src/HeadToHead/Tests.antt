-- ===== src/HeadToHead/Tests.antt =====
-- Runs of the mini-table, and the theorems at a group of three.
use bracket_craft.Prelude.{
  ℕ, ◌≡◌, refl, inl, true, none, some, List, [], ◌∷◌, Perm, arith, drop, keep,
}
use bracket_craft.Prelude.Int.{ℤ, pos, negsuc, ◌+ℤ◌}
use bracket_craft.Prelude.Dict.{values, enumerate}
use bracket_craft.Prelude.Sort.{insort, sort_by}
use bracket_craft.Prelude.Errors.{ok, raise}
use bracket_craft.Prelude.Teams.{Uuid, SameTeams}
use bracket_craft.HeadToHead.{
  MatchRecord, HeadToHeadStats, bad_rounds, fallback, scoring, relevant, initial_counts,
  count_pairs, verdict, home_points, away_points, credit, Table, score_match, score_all,
  empty_table, is_complete, mini_table, calculate_head_to_head_stats, ranks_before, team_ids,
  resolve_head_to_head,
}
use bracket_craft.HeadToHead.Order.{resolve_head_to_head-SameTeams}
use bracket_craft.HeadToHead.Ranking.{IsRanked, resolve_head_to_head-IsRanked}
use bracket_craft.HeadToHead.Balance.{
  total_diff, total_goals, total_points, goals_scored, points_awarded, mini_table-balanced,
}
use bracket_craft.HeadToHead.Complete.{meetings, mini_table_complete}

abbrev trio : List Uuid
trio = 7 ∷ 3 ∷ 5 ∷ []

abbrev played : Uuid → ℕ → ℕ → Uuid → MatchRecord
played h s c a = record {
  home_team_id = h;
  away_team_id = a;
  home_score = s;
  away_score = c;
  is_finished = true;
  winner_team_id = none;
}

-- 7 beats 3, 3 draws with 5, and 5 beats 7 on penalties.
abbrev round : List MatchRecord
round =
    played 7 2 1 3
    ∷ played 3 0 0 5
    ∷ record {
      home_team_id = 5;
      away_team_id = 7;
      home_score = 1;
      away_score = 1;
      is_finished = true;
      winner_team_id = some 5;
    }
    ∷ played 7 4 0 9
    ∷ []

runs : Unit {0}
unfolding resolve_head_to_head calculate_head_to_head_stats mini_table fallback relevant
    initial_counts count_pairs is_complete scoring score_all score_match credit verdict home_points
    away_points empty_table ranks_before sort_by insort ◌+ℤ◌
runs = tt

order_round : resolve_head_to_head trio round 1 none none ≡ ok (5 ∷ 7 ∷ 3 ∷ [])
unfolding runs
order_round = refl

-- With a match missing the fallback decides.
order_pending :
    resolve_head_to_head trio (drop 1 round) 1 none (some (9 ∷ 7 ∷ 7 ∷ [])) ≡ ok (7 ∷ 3 ∷ 5 ∷ [])
unfolding runs
order_pending = refl

order_rounds : resolve_head_to_head trio round 3 none none ≡ raise bad_rounds
unfolding runs
order_rounds = refl

resolve_head_to_head-SameTeams_example :
    (ranking : List Uuid) × (resolve_head_to_head trio round 1 none none ≡ ok ranking)
    × SameTeams ranking trio
resolve_head_to_head-SameTeams_example =
    resolve_head_to_head-SameTeams trio round 1 none none (refl, (refl, (refl, tt))) (inl refl)

abbrev row : Uuid → ℕ → ℤ → ℕ → Uuid × HeadToHeadStats
row t p d g = (t, record { team_id = t; points = p; goal_diff = d; goals_for = g })

abbrev trio_table : Table
trio_table = row 7 3 (pos 1) 3 ∷ row 3 1 (negsuc 0) 1 ∷ row 5 4 (pos 0) 1 ∷ []

trio_stats : calculate_head_to_head_stats trio round 1 none ≡ ok (some trio_table)
unfolding runs
trio_stats = refl

mini_table-balanced_example :
    (total_diff (values trio_table) ≡ pos 0)
    × (total_goals (values trio_table) ≡ goals_scored (keep (relevant trio) round))
    × (total_points (values trio_table)
        ≡ points_awarded (scoring none) (keep (relevant trio) round))
mini_table-balanced_example =
    mini_table-balanced trio round 1 none trio_table (omega arith) trio_stats

mini_table_complete_example : meetings 3 7 round ≡ 1
mini_table_complete_example =
    mini_table_complete trio round 1 none trio_table 3 7 (omega arith) trio_stats (omega arith) refl
      refl

resolve_head_to_head-IsRanked_example :
    (rows : List HeadToHeadStats) × (resolve_head_to_head trio round 1 none none
      ≡ ok (team_ids rows))
    × Perm rows (values trio_table)
    × IsRanked (enumerate 0 (fallback trio none)) rows
resolve_head_to_head-IsRanked_example =
    resolve_head_to_head-IsRanked trio round 1 none none trio_table (inl refl) trio_stats
