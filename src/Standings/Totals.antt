-- ===== src/Standings/Totals.antt =====
-- What the loop over the matches keeps true of the sums of the table.
use bracket_craft.Prelude.{ℕ, ◌+◌, ◌≡◌, refl, ◌∙◌, true, Option, [], ◌∷◌, arith}
use bracket_craft.Prelude.Teams.{Uuid}
use bracket_craft.HeadToHead.{MatchRecord, Scoring, Verdict, home_wins, away_wins, drawn}
use bracket_craft.Standings.{
  StandingRow, Table, has_key, has_row, modify_row, match_verdict, count_match, add_win, add_loss,
  add_draw, home_result, away_result, apply_match,
}

module _ (f : StandingRow → ℕ) where
  abbrev pub total : Table → ℕ
  total [] = 0
  total (row ∷ table) = f row + total table

  total-modify_row :
      (t : Uuid) (g : Option Uuid) (u : StandingRow → StandingRow) (n : ℕ) (table : Table)
      → ((row : StandingRow) → f (u row) ≡ f row + n)
      → has_row t g table ≡ true
      → total (modify_row t g u table) ≡ total table + n
  total-modify_row t g u n [] k h = cc
  total-modify_row t g u n (row ∷ table) k h =
      ground (arith, k row, total-modify_row t g u n table k)

has_row-modify_row :
    (t t' : Uuid) (g g' : Option Uuid) (u : StandingRow → StandingRow) (table : Table)
    → ((row : StandingRow) → has_key t g (u row) ≡ has_key t g row)
    → has_row t g (modify_row t' g' u table) ≡ has_row t g table
has_row-modify_row t t' g g' u [] k = refl
has_row-modify_row t t' g g' u (row ∷ table) k =
    ground (arith, k row, has_row-modify_row t t' g g' u table k)

-- As many wins as losses, and as many goals scored as conceded
pub record Balanced (table : Table) : Type 0 where
  pub wins : total (λ row. row.won) table ≡ total (λ row. row.lost) table
  pub goals : total (λ row. row.goals_for) table ≡ total (λ row. row.goals_against) table

-- Who takes the win, as a number
abbrev home_win : Verdict → ℕ
home_win home_wins = 1
home_win away_wins = 0
home_win drawn = 0

abbrev away_win : Verdict → ℕ
away_win home_wins = 0
away_win away_wins = 1
away_win drawn = 0

-- What an update adds to a row, which stays under its key
record Adds (u : StandingRow → StandingRow) (won lost scored conceded : ℕ) (row : StandingRow)
    : Type 0 where
  key : (t : Uuid) (g : Option Uuid) → has_key t g (u row) ≡ has_key t g row
  won_by : (u row).won ≡ row.won + won
  lost_by : (u row).lost ≡ row.lost + lost
  scored_by : (u row).goals_for ≡ row.goals_for + scored
  conceded_by : (u row).goals_against ≡ row.goals_against + conceded

home_result-Adds :
    (s : Scoring) (v : Verdict) (x y : ℕ) (row : StandingRow)
    → Adds (λ row. home_result s v (count_match x y row)) (home_win v) (away_win v) x y row
unfolding home_result count_match add_win add_loss add_draw
home_result-Adds s home_wins x y row = record {
  key = λ t g. refl;
  won_by = refl;
  lost_by = omega arith;
  scored_by = refl;
  conceded_by = refl;
}
home_result-Adds s away_wins x y row = record {
  key = λ t g. refl;
  won_by = omega arith;
  lost_by = refl;
  scored_by = refl;
  conceded_by = refl;
}
home_result-Adds s drawn x y row = record {
  key = λ t g. refl;
  won_by = omega arith;
  lost_by = omega arith;
  scored_by = refl;
  conceded_by = refl;
}

-- The away side gets what the home side would get for the opposite result.
abbrev opposite : Verdict → Verdict
opposite home_wins = away_wins
opposite away_wins = home_wins
opposite drawn = drawn

away-home_result : (s : Scoring) (v : Verdict) → away_result s v ≡ home_result s (opposite v)
unfolding home_result away_result
away-home_result s home_wins = refl
away-home_result s away_wins = refl
away-home_result s drawn = refl

away_result-Adds :
    (s : Scoring) (v : Verdict) (x y : ℕ) (row : StandingRow)
    → Adds (λ row. away_result s v (count_match x y row)) (away_win v) (home_win v) x y row
away_result-Adds s home_wins x y row = rw away-home_result (home_result-Adds s away_wins x y row)
away_result-Adds s away_wins x y row = rw away-home_result (home_result-Adds s home_wins x y row)
away_result-Adds s drawn x y row = rw away-home_result (home_result-Adds s drawn x y row)

module _ (t : Uuid) (g : Option Uuid) (u : StandingRow → StandingRow) (won lost scored conceded : ℕ)
    (adds : (row : StandingRow) → Adds u won lost scored conceded row) (table : Table)
    (here : has_row t g table ≡ true) where
  total_wins : total (λ row. row.won) (modify_row t g u table) ≡ total (λ row. row.won) table + won
  total_wins = total-modify_row (λ row. row.won) t g u won table (λ row. (adds row).won_by) here

  total_losses :
      total (λ row. row.lost) (modify_row t g u table) ≡ total (λ row. row.lost) table + lost
  total_losses =
      total-modify_row (λ row. row.lost) t g u lost table (λ row. (adds row).lost_by) here

  total_scored :
      total (λ row. row.goals_for) (modify_row t g u table)
      ≡ total (λ row. row.goals_for) table + scored
  total_scored =
      total-modify_row (λ row. row.goals_for) t g u scored table (λ row. (adds row).scored_by) here

  total_conceded :
      total (λ row. row.goals_against) (modify_row t g u table)
      ≡ total (λ row. row.goals_against) table + conceded
  total_conceded =
      total-modify_row (λ row. row.goals_against) t g u conceded table
        (λ row. (adds row).conceded_by) here

pub apply_match-Balanced :
    (s : Scoring) (g : Option Uuid) (m : MatchRecord) (table : Table)
    → has_row m.home_team_id g table ≡ true
    → has_row m.away_team_id g table ≡ true
    → Balanced table
    → Balanced (apply_match s g m table)
unfolding apply_match
apply_match-Balanced s g m table h a b = record {
  wins = omega (
    arith,
    b.wins,
    total_wins m.home_team_id g home _ _ _ _ home_adds table h,
    total_losses m.home_team_id g home _ _ _ _ home_adds table h,
    total_wins m.away_team_id g away _ _ _ _ away_adds next a',
    total_losses m.away_team_id g away _ _ _ _ away_adds next a',
  );
  goals = omega (
    arith,
    b.goals,
    total_scored m.home_team_id g home _ _ _ _ home_adds table h,
    total_conceded m.home_team_id g home _ _ _ _ home_adds table h,
    total_scored m.away_team_id g away _ _ _ _ away_adds next a',
    total_conceded m.away_team_id g away _ _ _ _ away_adds next a',
  );
}
  where
    v : Verdict
    v = match_verdict m

    home : StandingRow → StandingRow
    home row = home_result s v (count_match m.home_score m.away_score row)

    away : StandingRow → StandingRow
    away row = away_result s v (count_match m.away_score m.home_score row)

    next : Table
    next = modify_row m.home_team_id g home table

    home_adds :
        (row : StandingRow) → Adds home (home_win v) (away_win v) m.home_score m.away_score row
    home_adds = home_result-Adds s v m.home_score m.away_score

    away_adds :
        (row : StandingRow) → Adds away (away_win v) (home_win v) m.away_score m.home_score row
    away_adds = away_result-Adds s v m.away_score m.home_score

    a' : has_row m.away_team_id g next ≡ true
    a' =
        has_row-modify_row m.away_team_id m.home_team_id g g home table
          (λ row. (home_adds row).key m.away_team_id g)
        ∙ a
