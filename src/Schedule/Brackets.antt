-- ===== src/Schedule/Brackets.antt =====
-- The brackets of backend/app/modules/tournaments/scheduling.py: entrants, matches, and the links
-- by which the winner or the loser of a match goes on.
use bracket_craft.Prelude.{
  ℕ, zero, suc, ◌+◌, ◌-◌, ◌/◌, ◌^◌, Bool, true, false, Option, none, some, List, [], ◌∷◌, ◌==◌,
  if◌then◌else◌,
}
use bracket_craft.Prelude.Int.{ℤ}
use bracket_craft.Prelude.Teams.{Uuid}

-- `FINAL`, `SF1`, `QF1`, `R16-1`; `W1-1`, `L1-1` and the grand finals of a double elimination
pub data MatchCode : Type 0 where
  final : MatchCode
  semifinal : ℕ → MatchCode
  quarterfinal : ℕ → MatchCode
  round_of : ℕ → ℕ → MatchCode
  winners_match : ℕ → ℕ → MatchCode
  losers_match : ℕ → ℕ → MatchCode
  grand_final : MatchCode
  reset : MatchCode

pub data Outcome : Type 0 where
  winner : Outcome
  loser : Outcome

pub data Lane : Type 0 where
  main winners losers finals : Lane

pub data Side : Type 0 where
  home_side away_side : Side

pub record BracketEntrant : Type 0 where
  pub team_id : Option Uuid
  pub source_match_code : Option MatchCode
  pub source_outcome : Outcome

pub record GeneratedMatch : Type 0 where
  pub code : MatchCode
  pub round_number : ℕ
  pub match_date : ℕ
  pub home : BracketEntrant
  pub away : BracketEntrant
  pub lane : Lane

pub record AdvancementLinkSpec : Type 0 where
  pub source_match_code : MatchCode
  pub target_match_code : MatchCode
  pub target_side : Side
  pub outcome : Outcome

-- `SingleEliminationBracket` without the reset, which only a double elimination has.
pub record Bracket : Type 0 where
  pub seed : ℤ
  pub bracket_size : ℕ
  pub round_count : ℕ
  pub matches : List GeneratedMatch
  pub advancement_links : List AdvancementLinkSpec

-- `BracketEntrant(team_id=team)`
abbrev pub team_entrant : Uuid → BracketEntrant
team_entrant team = record {
  team_id = some team;
  source_match_code = none;
  source_outcome = winner;
}

-- `BracketEntrant(source_match_code=code, source_outcome=outcome)`
abbrev pub from_match : MatchCode → Outcome → BracketEntrant
from_match code outcome = record {
  team_id = none;
  source_match_code = some code;
  source_outcome = outcome;
}

-- The link of one side of a match, if its entrant comes from another match.
unfoldable pub side_link : MatchCode → Side → BracketEntrant → List AdvancementLinkSpec
side_link code side entrant = elim entrant.source_match_code [
  | none ↦ []
  | some source ↦
      record {
        source_match_code = source;
        target_match_code = code;
        target_side = side;
        outcome = entrant.source_outcome;
      }
      ∷ []
]

abbrev pub is_final : MatchCode → Bool
is_final final = true
is_final (semifinal n) = false
is_final (quarterfinal n) = false
is_final (round_of teams n) = false
is_final (winners_match r n) = false
is_final (losers_match r n) = false
is_final grand_final = false
is_final reset = false

-- `int.bit_length`; each step halves the value, so the value itself bounds the steps.
unfoldable pub bit_length_in : ℕ → ℕ → ℕ
bit_length_in zero n = 0
bit_length_in (suc fuel) n = let rest = bit_length_in fuel (n / 2) in if n == 0 then 0 else suc rest

unfoldable pub bit_length : ℕ → ℕ
unfolding bit_length_in
bit_length n = bit_length_in n n

unfoldable pub next_power_of_two : ℕ → ℕ
unfolding bit_length
next_power_of_two n = 2 ^ bit_length (n - 1)

unfoldable pub match_code : ℕ → ℕ → ℕ → MatchCode
match_code round_count round_number match_number =
    let teams_in_round = 2 ^ (round_count - round_number + 1) in
    if round_number == round_count
    then final
    else if teams_in_round == 4
    then semifinal match_number
    else if teams_in_round == 8
    then quarterfinal match_number
    else round_of teams_in_round match_number
