-- ===== src/Standings.antt =====
-- backend/app/modules/standings/service.py: the rows of a stage's table, and what the cards and
-- the confirmed matches put into them. The queries are SQL, and their rows are the arguments here.
pub mod Pipeline
pub mod Recalculate
pub mod Layers
pub mod Tests
pub mod Validated
pub mod Consistent
pub mod Totals
pub mod Ranks
pub mod Once
pub mod Ranking
pub mod Order
pub mod Lexicographic
pub mod Splits
use bracket_craft.Prelude.{
  ℕ, ◌+◌, Bool, true, false, ◌&&◌, Option, none, some, List, [], ◌∷◌, ◌++◌, Perm, ltb, ◌==◌,
  if◌then◌else◌, any,
}
use bracket_craft.Prelude.Int.{ℤ, pos, pos_part, sub_ℕ, ◌-ℤ◌}
use mathlib.Core.List.Perm
use bracket_craft.Prelude.Teams.{Uuid}
use bracket_craft.Rules.{PointsSystem, FairPlayPenalties}
use bracket_craft.HeadToHead.{MatchRecord, Scoring, Verdict, home_wins, away_wins, drawn, names}
use bracket_craft.Prelude.Grouping.{Groups, add_to}

pub record StandingRow : Type 0 where
  pub team_id : Uuid
  pub group_id : Option Uuid
  pub played : ℕ
  pub won : ℕ
  pub drawn_matches : ℕ
  pub lost : ℕ
  pub goals_for : ℕ
  pub goals_against : ℕ
  pub points : ℕ
  pub fair_play_points : ℤ
  pub goal_difference : ℤ

-- A row of `stage_teams`
pub record StageTeam : Type 0 where
  pub team_id : Uuid
  pub group_id : Option Uuid

pub data CardType : Type 0 where
  yellow_card red_card : CardType

-- A row of the query on `match_events`; of `metadata` only the kind of a red card is read.
pub record CardRow : Type 0 where
  pub team_id : Option Uuid
  pub event_type : CardType
  pub is_double_yellow_red : Bool

-- A row of the query on `matches`
pub record MatchRow : Type 0 where
  pub group_id : Option Uuid
  pub home_team_id : Option Uuid
  pub away_team_id : Option Uuid
  pub home_score : Option ℕ
  pub away_score : Option ℕ
  pub winner_team_id : Option Uuid

abbrev pub same_group : Option Uuid → Option Uuid → Bool
same_group none none = true
same_group none (some h) = false
same_group (some g) none = false
same_group (some g) (some h) = g == h

abbrev pub Table : Type 0
Table = List StandingRow

-- Whether the row stands under the key `(team_id, group_id)`
abbrev pub has_key : Uuid → Option Uuid → StandingRow → Bool
has_key t g row = t == row.team_id && same_group g row.group_id

-- `table.get(key) is not None`
abbrev pub has_row : Uuid → Option Uuid → Table → Bool
has_row t g table = any (has_key t g) table

-- The item under a key, changed in place
abbrev pub modify_row : Uuid → Option Uuid → (StandingRow → StandingRow) → Table → Table
modify_row t g f [] = []
modify_row t g f (row ∷ table) =
    if has_key t g row then f row ∷ table else row ∷ modify_row t g f table

unfoldable pub empty_row : StageTeam → StandingRow
empty_row s = record {
  team_id = s.team_id;
  group_id = s.group_id;
  played = 0;
  won = 0;
  drawn_matches = 0;
  lost = 0;
  goals_for = 0;
  goals_against = 0;
  points = 0;
  fair_play_points = pos 0;
  goal_difference = pos 0;
}

-- A key that comes again gets the same empty row at the same place.
unfoldable pub empty_rows : List StageTeam → Table → Table
empty_rows [] table = table
empty_rows (s ∷ more) table =
    empty_rows more
      (if has_row s.team_id s.group_id table then table else table ++ empty_row s ∷ [])

unfoldable pub penalty : FairPlayPenalties → CardRow → ℤ
penalty penalties card = elim card.event_type [
  | yellow_card ↦ penalties.yellow_card
  | red_card ↦
      if card.is_double_yellow_red then penalties.double_yellow_red else penalties.direct_red
]

-- `value["team_id"] == row["team_id"]`
abbrev pub is_team : Option Uuid → StandingRow → Bool
is_team none row = false
is_team (some t) row = row.team_id == t

unfoldable pub fine : ℤ → StandingRow → StandingRow
fine amount row = record row { fair_play_points = row.fair_play_points -ℤ amount }

-- The first row of the team pays, in whichever group it stands.
unfoldable pub penalize : FairPlayPenalties → CardRow → Table → Table
penalize penalties card [] = []
penalize penalties card (row ∷ table) =
    if is_team card.team_id row
    then fine (penalty penalties card) row ∷ table
    else row ∷ penalize penalties card table

unfoldable pub penalize_all : FairPlayPenalties → List CardRow → Table → Table
penalize_all penalties [] table = table
penalize_all penalties (card ∷ cards) table =
    penalize_all penalties cards (penalize penalties card table)

-- The branches on the scores and, when these are level, on the named winner
unfoldable pub match_verdict : MatchRecord → Verdict
match_verdict m =
    if ltb m.away_score m.home_score
    then home_wins
    else if ltb m.home_score m.away_score
    then away_wins
    else if names m.winner_team_id m.home_team_id
    then home_wins
    else if names m.winner_team_id m.away_team_id
    then away_wins
    else drawn

-- `played`, `goals_for` and `goals_against` of one side
unfoldable pub count_match : ℕ → ℕ → StandingRow → StandingRow
count_match scored conceded row = record row {
  played = row.played + 1;
  goals_for = row.goals_for + scored;
  goals_against = row.goals_against + conceded;
}

unfoldable pub add_win : Scoring → StandingRow → StandingRow
add_win s row = record row { won = row.won + 1; points = row.points + s.win }

unfoldable pub add_loss : Scoring → StandingRow → StandingRow
add_loss s row = record row { lost = row.lost + 1; points = row.points + s.loss }

unfoldable pub add_draw : Scoring → StandingRow → StandingRow
add_draw s row = record row { drawn_matches = row.drawn_matches + 1; points = row.points + s.draw }

unfoldable pub home_result : Scoring → Verdict → StandingRow → StandingRow
home_result s home_wins = add_win s
home_result s away_wins = add_loss s
home_result s drawn = add_draw s

unfoldable pub away_result : Scoring → Verdict → StandingRow → StandingRow
away_result s home_wins = add_loss s
away_result s away_wins = add_win s
away_result s drawn = add_draw s

-- The two rows of a match that counts
unfoldable pub apply_match : Scoring → Option Uuid → MatchRecord → Table → Table
unfolding count_match home_result away_result match_verdict
apply_match s g m table =
    modify_row m.away_team_id g
      (λ row. away_result s (match_verdict m) (count_match m.away_score m.home_score row))
      (modify_row m.home_team_id g
        (λ row. home_result s (match_verdict m) (count_match m.home_score m.away_score row)) table)

-- The record of a match that counts: both sides stand in its group and both scores are set.
unfoldable pub record_of :
    Table
    → Option Uuid
    → Option Uuid
    → Option Uuid
    → Option Uuid
    → Option ℕ
    → Option ℕ
    → Option MatchRecord
record_of table g w (some h) (some a) (some x) (some y) =
    if has_row h g table && has_row a g table
    then some (record {
      home_team_id = h;
      away_team_id = a;
      home_score = x;
      away_score = y;
      is_finished = true;
      winner_team_id = w;
    })
    else none
record_of table g w _ _ _ _ = none

unfoldable pub counted : Table → MatchRow → Option MatchRecord
unfolding record_of
counted table m =
    record_of table m.group_id m.winner_team_id m.home_team_id m.away_team_id m.home_score
      m.away_score

abbrev pub Records : Type 0
Records = Groups (Option Uuid) MatchRecord

-- What the loop over the matches holds: `table` and `match_records_by_group`
pub record Tally : Type 0 where
  pub table : Table
  pub records : Records

-- A match that does not count is skipped.
unfoldable pub add_record : Scoring → Option Uuid → Tally → Option MatchRecord → Tally
unfolding apply_match add_to
add_record s g t none = t
add_record s g t (some r) = record {
  table = apply_match s g r t.table;
  records = add_to same_group g r t.records;
}

unfoldable pub tally_match : Scoring → MatchRow → Tally → Tally
unfolding counted add_record
tally_match s m t = add_record s m.group_id t (counted t.table m)

unfoldable pub tally_matches : Scoring → List MatchRow → Tally → Tally
tally_matches s [] t = t
tally_matches s (m ∷ ms) t = tally_matches s ms (tally_match s m t)

unfoldable pub with_difference : StandingRow → StandingRow
with_difference row = record row { goal_difference = sub_ℕ row.goals_for row.goals_against }

-- The validated points are not negative.
abbrev pub scoring_of : PointsSystem → Scoring
scoring_of p = record { win = pos_part p.win; draw = pos_part p.draw; loss = pos_part p.loss }
