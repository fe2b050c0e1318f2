-- ===== src/HeadToHead/Balance.antt =====
-- What the scoring loop adds up: goals are balanced and points are handed out per match.
use bracket_craft.Prelude.{
  ℕ, ◌+◌, ◌≤◌, ◌≡◌, refl, ap, ◌∙◌, inl, inr, true, Option, some, List, [], ◌∷◌, arith, ◌==◌,
  Bool-cases, length, keep, All, elem,
}
use bracket_craft.Prelude.Int.{ℤ, pos, sub_ℕ, ◌+ℤ◌, int_laws}
use bracket_craft.Prelude.Dict.{keys, values, modify, keys-modify}
use bracket_craft.Prelude.Errors.{ok}
use bracket_craft.Prelude.Teams.{Uuid}
use bracket_craft.HeadToHead.{
  MatchRecord, HeadToHeadStats, PointsUpdate, Scoring, scoring, relevant, verdict, home_points,
  away_points, credit, Table, score_match, score_all, empty_table, mini_table,
  calculate_head_to_head_stats,
}

abbrev pub total_diff : List HeadToHeadStats → ℤ
total_diff [] = pos 0
total_diff (s ∷ ss) = s.goal_diff +ℤ total_diff ss

abbrev pub total_goals : List HeadToHeadStats → ℕ
total_goals [] = 0
total_goals (s ∷ ss) = s.goals_for + total_goals ss

abbrev pub total_points : List HeadToHeadStats → ℕ
total_points [] = 0
total_points (s ∷ ss) = s.points + total_points ss

-- What the direct matches of the group hold, counted without the table.
abbrev pub goals_scored : List MatchRecord → ℕ
goals_scored [] = 0
goals_scored (m ∷ ms) = m.home_score + m.away_score + goals_scored ms

abbrev pub points_awarded : Scoring → List MatchRecord → ℕ
points_awarded s [] = 0
points_awarded s (m ∷ ms) =
    home_points s (verdict m) + away_points s (verdict m) + points_awarded s ms

regroup : (a b c : ℤ) → a +ℤ (b +ℤ c) ≡ a +ℤ b +ℤ c
regroup a b c = omega int_laws

module _ (k p g c : ℕ) where
  diff-modify :
      (d : Table)
      → elem k (keys d) ≡ true
      → total_diff (values (modify k (credit p g c) d)) ≡ total_diff (values d) +ℤ sub_ℕ g c
  unfolding credit
  diff-modify [] h = cc
  diff-modify ((j, w) ∷ d) h = elim (Bool-cases (k == j)) [
    | inl e ↦ rw e (omega int_laws)
    | inr e ↦ rw e (
        ap (λ z. w.goal_diff +ℤ z) (diff-modify d (ground arith))
        ∙ regroup w.goal_diff (total_diff (values d)) (sub_ℕ g c))
  ]

  sums-modify :
      (d : Table)
      → elem k (keys d) ≡ true
      → (total_goals (values (modify k (credit p g c) d)) ≡ total_goals (values d) + g)
        × (total_points (values (modify k (credit p g c) d)) ≡ total_points (values d) + p)
  unfolding credit
  sums-modify [] h = cc
  sums-modify ((j, w) ∷ d) h = ground (arith, sums-modify d)

-- The sums of a table, with the goals and the points that were put in.
record Sums (d : Table) (goals points : ℕ) : Type 0 where
  balanced : total_diff (values d) ≡ pos 0
  goals_in : total_goals (values d) ≡ goals
  points_in : total_points (values d) ≡ points

cancel : (g c : ℕ) (z : ℤ) → z +ℤ sub_ℕ g c +ℤ sub_ℕ c g ≡ z
unfolding ◌+ℤ◌
cancel g c z = ground arith

keys-score_match : (s : Scoring) (m : MatchRecord) (d : Table) → keys (score_match s m d) ≡ keys d
unfolding score_match
keys-score_match s m d =
    keys-modify m.away_team_id (credit _ m.away_score m.home_score) _
    ∙ keys-modify m.home_team_id (credit _ m.home_score m.away_score) d

score_match-Sums :
    (s : Scoring) (m : MatchRecord) (d : Table) (goals points : ℕ)
    → elem m.home_team_id (keys d) ≡ true
    → elem m.away_team_id (keys d) ≡ true
    → Sums d goals points
    → Sums
        (score_match s m d)
        (goals + (m.home_score + m.away_score))
        (points + (home_points s (verdict m) + away_points s (verdict m)))
unfolding score_match
score_match-Sums s m d goals points kh ka sums =
    let hp = home_points s (verdict m) in
    let ap' = away_points s (verdict m) in
    let d' = modify m.home_team_id (credit hp m.home_score m.away_score) d in
    let ka' : elem m.away_team_id (keys d') ≡ true = rw (keys-modify m.home_team_id _ d) ka in
    let (g1, p1) = sums-modify m.home_team_id hp m.home_score m.away_score d kh in
    let (g2, p2) = sums-modify m.away_team_id ap' m.away_score m.home_score d' ka' in
    record {
      balanced =
          diff-modify m.away_team_id ap' m.away_score m.home_score d' ka'
          ∙ (ap (λ z. z +ℤ sub_ℕ m.away_score m.home_score)
                (diff-modify m.home_team_id hp m.home_score m.away_score d kh)
              ∙ (cancel m.home_score m.away_score (total_diff (values d)) ∙ sums.balanced));
      goals_in = omega (arith, g1, g2, sums.goals_in);
      points_in = omega (arith, p1, p2, sums.points_in);
    }

abbrev Within : List Uuid → MatchRecord → Type 0
Within ids m = (elem m.home_team_id ids ≡ true) × (elem m.away_team_id ids ≡ true)

score_all-Sums :
    (s : Scoring) (ids : List Uuid) (ms : List MatchRecord) (d : Table) (goals points : ℕ)
    → keys d ≡ ids
    → All (Within ids) ms
    → Sums d goals points
    → Sums (score_all s ms d) (goals + goals_scored ms) (points + points_awarded s ms)
unfolding score_all
score_all-Sums s ids [] d goals points e h sums = record {
  balanced = sums.balanced;
  goals_in = omega (arith, sums.goals_in);
  points_in = omega (arith, sums.points_in);
}
score_all-Sums s ids (m ∷ ms) d goals points e h sums =
    let step = score_match-Sums s m d goals points (rw e h.0.0) (rw e h.0.1) sums in
    let rest =
      score_all-Sums s ids ms (score_match s m d) _ _ (keys-score_match s m d ∙ e) h.1 step in
    record {
      balanced = rest.balanced;
      goals_in = omega (arith, rest.goals_in);
      points_in = omega (arith, rest.points_in);
    }

relevant-Within :
    (tied : List Uuid) (ms : List MatchRecord) → All (Within tied) (keep (relevant tied) ms)
unfolding relevant
relevant-Within tied [] = tt
relevant-Within tied (m ∷ ms) = elim (Bool-cases (relevant tied m)) [
  | inl e ↦ rw e ((ground arith, ground arith), relevant-Within tied ms)
  | inr e ↦ rw e (relevant-Within tied ms)
]

keys-empty_table : (tied : List Uuid) → keys (empty_table tied) ≡ tied
unfolding empty_table
keys-empty_table [] = refl
keys-empty_table (t ∷ ts) = ap (◌∷◌ t) (keys-empty_table ts)

empty_table-Sums : (tied : List Uuid) → Sums (empty_table tied) 0 0
unfolding empty_table
empty_table-Sums [] = record { balanced = refl; goals_in = refl; points_in = refl }
empty_table-Sums (t ∷ ts) =
    let rest = empty_table-Sums ts in
    record {
      balanced = rw rest.balanced (omega int_laws);
      goals_in = omega (arith, rest.goals_in);
      points_in = omega (arith, rest.points_in);
    }

scored-Sums :
    (tied : List Uuid) (matches : List MatchRecord) (p : Option PointsUpdate)
    → let ms = keep (relevant tied) matches in
      Sums
        (score_all (scoring p) ms (empty_table tied))
        (0 + goals_scored ms)
        (0 + points_awarded (scoring p) ms)
scored-Sums tied matches p =
    score_all-Sums (scoring p) tied _ (empty_table tied) 0 0 (keys-empty_table tied)
      (relevant-Within tied matches) (empty_table-Sums tied)

-- In the mini-table of two teams or more the goal differences add up to zero, the goals to those
-- of the finished direct matches, and the points to what these matches award under the scoring.
pub mini_table-balanced :
    (tied : List Uuid) (matches : List MatchRecord) (rounds : ℕ) (p : Option PointsUpdate)
    (table : Table)
    → 2 ≤ length tied
    → calculate_head_to_head_stats tied matches rounds p ≡ ok (some table)
    → (total_diff (values table) ≡ pos 0)
      × (total_goals (values table) ≡ goals_scored (keep (relevant tied) matches))
      × (total_points (values table) ≡ points_awarded (scoring p) (keep (relevant tied) matches))
unfolding calculate_head_to_head_stats mini_table
mini_table-balanced tied matches rounds p table long h =
    let sums = scored-Sums tied matches p in
    ground (arith, sums.balanced, sums.goals_in, sums.points_in)
