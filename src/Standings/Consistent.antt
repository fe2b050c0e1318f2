-- ===== src/Standings/Consistent.antt =====
-- The rows of the table: each match of a row is counted once, and its points are those of its results.
use bracket_craft.Prelude.{
  ℕ, ◌+◌, ◌*◌, ◌≡◌, refl, inl, inr, true, Option, none, some, List, [], ◌∷◌, ◌++◌, map, arith,
  Bool-cases, All, All-append,
}
use bracket_craft.Prelude.Int.{ℤ}
use bracket_craft.Prelude.Teams.{Uuid}
use bracket_craft.Rules.{FairPlayPenalties, RulesConfig}
use bracket_craft.HeadToHead.{MatchRecord, Scoring, Verdict, home_wins, away_wins, drawn}
use bracket_craft.Standings.{
  StandingRow, StageTeam, CardRow, MatchRow, Table, has_key, has_row, modify_row, empty_row,
  empty_rows, is_team, fine, penalize, penalize_all, match_verdict, count_match, add_win, add_loss,
  add_draw, home_result, away_result, apply_match, record_of, counted, Tally, tally_match,
  tally_matches, add_record, with_difference, scoring_of,
}
use bracket_craft.Standings.Recalculate.{standings_tally}
use bracket_craft.Standings.Ranks.{final_table}
use bracket_craft.Standings.Totals.{total, Balanced, apply_match-Balanced}

-- Each match of a row is won, drawn or lost, and the points are those of its results.
pub record IsConsistent (s : Scoring) (row : StandingRow) : Type 0 where
  pub results : row.played ≡ row.won + row.drawn_matches + row.lost
  pub scored : row.points ≡ row.won * s.win + row.drawn_matches * s.draw + row.lost * s.loss

suc_times : (a b : ℕ) → (a + 1) * b ≡ a * b + b
suc_times a b = omega arith

module _ (s : Scoring) where
  add_win-IsConsistent :
      (x y : ℕ) (row : StandingRow)
      → IsConsistent s row
      → IsConsistent s (add_win s (count_match x y row))
  unfolding count_match add_win
  add_win-IsConsistent x y row c = record {
    results = omega (arith, c.results);
    scored = omega (arith, c.scored, suc_times row.won s.win);
  }

  add_loss-IsConsistent :
      (x y : ℕ) (row : StandingRow)
      → IsConsistent s row
      → IsConsistent s (add_loss s (count_match x y row))
  unfolding count_match add_loss
  add_loss-IsConsistent x y row c = record {
    results = omega (arith, c.results);
    scored = omega (arith, c.scored, suc_times row.lost s.loss);
  }

  add_draw-IsConsistent :
      (x y : ℕ) (row : StandingRow)
      → IsConsistent s row
      → IsConsistent s (add_draw s (count_match x y row))
  unfolding count_match add_draw
  add_draw-IsConsistent x y row c = record {
    results = omega (arith, c.results);
    scored = omega (arith, c.scored, suc_times row.drawn_matches s.draw);
  }

  home_result-IsConsistent :
      (v : Verdict) (x y : ℕ) (row : StandingRow)
      → IsConsistent s row
      → IsConsistent s (home_result s v (count_match x y row))
  unfolding home_result
  home_result-IsConsistent home_wins = add_win-IsConsistent
  home_result-IsConsistent away_wins = add_loss-IsConsistent
  home_result-IsConsistent drawn = add_draw-IsConsistent

  away_result-IsConsistent :
      (v : Verdict) (x y : ℕ) (row : StandingRow)
      → IsConsistent s row
      → IsConsistent s (away_result s v (count_match x y row))
  unfolding away_result
  away_result-IsConsistent home_wins = add_loss-IsConsistent
  away_result-IsConsistent away_wins = add_win-IsConsistent
  away_result-IsConsistent drawn = add_draw-IsConsistent

modify_row-All :
    (P : StandingRow → Type 0) (t : Uuid) (g : Option Uuid) (f : StandingRow → StandingRow)
    (table : Table)
    → ((row : StandingRow) → P row → P (f row))
    → All P table
    → All P (modify_row t g f table)
modify_row-All P t g f [] k h = tt
modify_row-All P t g f (row ∷ table) k h = elim (Bool-cases (has_key t g row)) [
  | inl e ↦ rw e (k row h.0, h.1)
  | inr e ↦ rw e (h.0, modify_row-All P t g f table k h.1)
]

apply_match-IsConsistent :
    (s : Scoring) (g : Option Uuid) (m : MatchRecord) (table : Table)
    → All (IsConsistent s) table
    → All (IsConsistent s) (apply_match s g m table)
unfolding apply_match
apply_match-IsConsistent s g m table h =
    modify_row-All (IsConsistent s) m.away_team_id g _ _
      (away_result-IsConsistent s (match_verdict m) m.away_score m.home_score)
      (modify_row-All (IsConsistent s) m.home_team_id g _ table
        (home_result-IsConsistent s (match_verdict m) m.home_score m.away_score) h)

-- A match counts only where both of its rows are there.
record_of-rows :
    (table : Table) (g w h a : Option Uuid) (x y : Option ℕ) {r : MatchRecord}
    → record_of table g w h a x y ≡ some r
    → (has_row r.home_team_id g table ≡ true) × (has_row r.away_team_id g table ≡ true)
unfolding record_of
record_of-rows table g w (some h) (some a) (some x) (some y) e = ground arith
record_of-rows table g w none a x y e = cc
record_of-rows table g w (some h) none x y e = cc
record_of-rows table g w (some h) (some a) none y e = cc
record_of-rows table g w (some h) (some a) (some x) none e = cc

-- What holds of the table all along
abbrev pub Sound : Scoring → Table → Type 0
Sound s table = All (IsConsistent s) table × Balanced table

add_record-Sound :
    (s : Scoring) (g : Option Uuid) (t : Tally) (r : Option MatchRecord)
    → ((m : MatchRecord)
        → r ≡ some m
        → (has_row m.home_team_id g t.table ≡ true) × (has_row m.away_team_id g t.table ≡ true))
    → Sound s t.table
    → Sound s (add_record s g t r).table
unfolding add_record
add_record-Sound s g t none rows h = h
add_record-Sound s g t (some r) rows h =
    let (home, away) = rows r refl in
    (apply_match-IsConsistent s g r t.table h.0, apply_match-Balanced s g r t.table home away h.1)

tally_match-Sound :
    (s : Scoring) (m : MatchRow) (t : Tally) → Sound s t.table → Sound s (tally_match s m t).table
unfolding tally_match counted
tally_match-Sound s m t h =
    add_record-Sound s m.group_id t _ (λ r e. record_of-rows t.table m.group_id _ _ _ _ _ e) h

tally_matches-Sound :
    (s : Scoring) (ms : List MatchRow) (t : Tally)
    → Sound s t.table
    → Sound s (tally_matches s ms t).table
unfolding tally_matches
tally_matches-Sound s [] t h = h
tally_matches-Sound s (m ∷ ms) t h =
    tally_matches-Sound s ms (tally_match s m t) (tally_match-Sound s m t h)

-- A row before any match, whatever its cards
record IsBlank (row : StandingRow) : Type 0 where
  not_played : row.played ≡ 0
  no_win : row.won ≡ 0
  no_draw : row.drawn_matches ≡ 0
  no_loss : row.lost ≡ 0
  no_goals : row.goals_for + row.goals_against ≡ 0
  no_points : row.points ≡ 0

fine-IsBlank : (amount : ℤ) (row : StandingRow) → IsBlank row → IsBlank (fine amount row)
unfolding fine
fine-IsBlank amount row b = record {
  not_played = b.not_played;
  no_win = b.no_win;
  no_draw = b.no_draw;
  no_loss = b.no_loss;
  no_goals = b.no_goals;
  no_points = b.no_points;
}

empty_row-IsBlank : (t : StageTeam) → IsBlank (empty_row t)
unfolding empty_row
empty_row-IsBlank t = record {
  not_played = refl;
  no_win = refl;
  no_draw = refl;
  no_loss = refl;
  no_goals = refl;
  no_points = refl;
}

empty_rows-IsBlank :
    (teams : List StageTeam) (table : Table)
    → All IsBlank table
    → All IsBlank (empty_rows teams table)
unfolding empty_rows
empty_rows-IsBlank [] table h = h
empty_rows-IsBlank (t ∷ teams) table h = elim (Bool-cases (has_row t.team_id t.group_id table)) [
  | inl e ↦ rw e (empty_rows-IsBlank teams table h)
  | inr e ↦ rw e (
      empty_rows-IsBlank teams (table ++ empty_row t ∷ [])
        (All-append IsBlank table (empty_row t ∷ []) h (empty_row-IsBlank t, tt)))
]

penalize-IsBlank :
    (p : FairPlayPenalties) (card : CardRow) (table : Table)
    → All IsBlank table
    → All IsBlank (penalize p card table)
unfolding penalize
penalize-IsBlank p card [] h = tt
penalize-IsBlank p card (row ∷ table) h = elim (Bool-cases (is_team card.team_id row)) [
  | inl e ↦ rw e (fine-IsBlank _ row h.0, h.1)
  | inr e ↦ rw e (h.0, penalize-IsBlank p card table h.1)
]

penalize_all-IsBlank :
    (p : FairPlayPenalties) (cards : List CardRow) (table : Table)
    → All IsBlank table
    → All IsBlank (penalize_all p cards table)
unfolding penalize_all
penalize_all-IsBlank p [] table h = h
penalize_all-IsBlank p (card ∷ cards) table h =
    penalize_all-IsBlank p cards (penalize p card table) (penalize-IsBlank p card table h)

IsBlank-Sound : (s : Scoring) (table : Table) → All IsBlank table → Sound s table
IsBlank-Sound s [] h = (tt, record { wins = refl; goals = refl })
IsBlank-Sound s (row ∷ table) (b, h) =
    let (rows, sums) = IsBlank-Sound s table h in
    (
      (
        record {
          results = omega (arith, b.not_played, b.no_win, b.no_draw, b.no_loss);
          scored = rw (b.no_win, b.no_draw, b.no_loss, b.no_points) (omega arith);
        },
        rows,
      ),
      record {
        wins = omega (arith, sums.wins, b.no_win, b.no_loss);
        goals = omega (arith, sums.goals, b.no_goals);
      },
    )

total-with_difference :
    (f : StandingRow → ℕ)
    → ((row : StandingRow) → f (with_difference row) ≡ f row)
    → (table : Table) → total f (map with_difference table) ≡ total f table
total-with_difference f k [] = refl
total-with_difference f k (row ∷ table) = omega (arith, k row, total-with_difference f k table)

with_difference-Sound :
    (s : Scoring) (table : Table) → Sound s table → Sound s (map with_difference table)
unfolding with_difference
with_difference-Sound s table h = (
  rows table h.0,
  record {
    wins = omega (
      arith,
      h.1.wins,
      total-with_difference (λ row. row.won) (λ row. refl) table,
      total-with_difference (λ row. row.lost) (λ row. refl) table,
    );
    goals = omega (
      arith,
      h.1.goals,
      total-with_difference (λ row. row.goals_for) (λ row. refl) table,
      total-with_difference (λ row. row.goals_against) (λ row. refl) table,
    );
  },
)
  where
    rows :
        (table : Table)
        → All (IsConsistent s) table
        → All (IsConsistent s) (map with_difference table)
    rows [] k = tt
    rows (row ∷ more) (c, k) = (record { results = c.results; scored = c.scored }, rows more k)

-- In the table that a recalculation ranks, every row has played as many matches as it has won, drawn
-- and lost, and has the points of its wins, draws and losses; and over the whole table there are as
-- many wins as losses and as many goals scored as conceded.
pub final_table-Sound :
    (config : RulesConfig) (teams : List StageTeam) (cards : List CardRow) (matches : List MatchRow)
    → Sound (scoring_of config.points_system) (final_table config teams cards matches)
unfolding final_table standings_tally
final_table-Sound config teams cards matches = with_difference-Sound _ _ (
    tally_matches-Sound _ matches _
      (IsBlank-Sound _ _ (penalize_all-IsBlank _ cards _ (empty_rows-IsBlank teams [] tt))))
