-- ===== src/Schedule/DoubleElimination.antt =====
-- `build_double_elimination_bracket` of backend/app/modules/tournaments/scheduling.py: the rounds of
-- the winners, the minor and major rounds of the losers, and the grand final.
pub mod Rounds
pub mod Losers
pub mod Whole
pub mod Codes
pub mod Built
mod Tests
use bracket_craft.Prelude.{
  ℕ, zero, suc, ◌+◌, ◌-◌, ◌*◌, ◌/◌, ◌%◌, not, List, [], ◌∷◌, ◌++◌, map, ◌==◌, length,
}
use bracket_craft.Prelude.Int.{ℤ, pos_part}
use bracket_craft.Prelude.Errors.{Result, ok, raise, ◌>>=◌, ◌>>◌, raise_if}
use bracket_craft.Prelude.Teams.{Uuid}
use bracket_craft.Schedule.{
  ScheduleError, bad_round_interval, bad_match_interval, negative_seed, not_power_of_two,
  no_losers_bracket, index_error, Shuffler, validate_team_ids, is_negative, below_one,
  schedule_date,
}
use bracket_craft.Schedule.Brackets.{
  MatchCode, winners_match, losers_match, grand_final, reset, Outcome, winner, loser, Lane, winners,
  losers, finals, home_side, away_side, BracketEntrant, GeneratedMatch, AdvancementLinkSpec,
  Bracket, team_entrant, from_match, side_link, bit_length,
}
use bracket_craft.Schedule.RoundRobin.{Dates}

-- The result, which has the second grand final besides what other brackets have.
pub record DoubleBracket : Type 0 where
  pub bracket : Bracket
  pub reset_code : MatchCode
  pub reset_date : ℕ

-- `a & b`; as many steps as `a` are enough for its digits.
unfoldable pub bit_and_in : ℕ → ℕ → ℕ → ℕ
bit_and_in zero a b = 0
bit_and_in (suc fuel) a b = a % 2 * (b % 2) + 2 * bit_and_in fuel (a / 2) (b / 2)

abbrev pub bit_and : ℕ → ℕ → ℕ
unfolding bit_and_in
bit_and a b = bit_and_in a a b

-- The links that `append_match` adds for a match
abbrev pub match_links : GeneratedMatch → List AdvancementLinkSpec
unfolding side_link
match_links m = side_link m.code home_side m.home ++ side_link m.code away_side m.away

abbrev pub links_of_matches : List GeneratedMatch → List AdvancementLinkSpec
links_of_matches [] = []
links_of_matches (m ∷ ms) = match_links m ++ links_of_matches ms

abbrev pub entries_from : Outcome → List GeneratedMatch → List BracketEntrant
entries_from outcome [] = []
entries_from outcome (m ∷ ms) = from_match m.code outcome ∷ entries_from outcome ms

abbrev pub concat_rounds : List (List GeneratedMatch) → List GeneratedMatch
concat_rounds [] = []
concat_rounds (r ∷ rs) = r ++ concat_rounds rs

-- The matches of the losers, the last major round, and the number of the round that follows
pub record LosersBracket : Type 0 where
  pub matches : List GeneratedMatch
  pub previous_major : List GeneratedMatch
  pub losers_round_number : ℕ

module _ (d : Dates) where
  -- The match that `append_match` appends: each match has the date of the first of its round.
  abbrev pub new_match : MatchCode → ℕ → Lane → BracketEntrant → BracketEntrant → GeneratedMatch
  unfolding schedule_date
  new_match code round_number lane home away = record {
    code = code;
    round_number = round_number;
    match_date =
        schedule_date d.start_date round_number 1 d.round_interval_days d.match_interval_hours;
    home = home;
    away = away;
    lane = lane;
  }

  -- A round of adjacent pairs, after `n` matches. An odd entry has no `entries[match_number + 1]`.
  unfoldable pub pair_round :
      (ℕ → ℕ → MatchCode)
      → Lane
      → ℕ
      → ℕ
      → List BracketEntrant
      → Result ScheduleError (List GeneratedMatch)
  pair_round code lane round n [] = ok []
  pair_round code lane round n (x ∷ []) = raise index_error
  pair_round code lane round n (home ∷ away ∷ entries) = do
    rest ← pair_round code lane round (n + 1) entries
    ok (new_match (code round (n + 1)) round lane home away ∷ rest)

  unfoldable pub winners_rounds :
      ℕ → ℕ → List BracketEntrant → Result ScheduleError (List (List GeneratedMatch))
  unfolding pair_round
  winners_rounds zero round entries = ok []
  winners_rounds (suc rounds) round entries = do
    now ← pair_round winners_match winners round 0 entries
    rest ← winners_rounds rounds (round + 1) (entries_from winner now)
    ok (now ∷ rest)

  -- A major round: the winners of the minor round against the losers of a round of the winners.
  unfoldable pub major_round :
      ℕ → ℕ → List GeneratedMatch → List GeneratedMatch → Result ScheduleError (List GeneratedMatch)
  major_round round n [] losing = ok []
  major_round round n (minor ∷ minors) [] = raise index_error
  major_round round n (minor ∷ minors) (m ∷ losing) = do
    rest ← major_round round (n + 1) minors losing
    ok (
        new_match (losers_match round (n + 1)) round losers (from_match minor.code winner)
          (from_match m.code loser)
        ∷ rest)

  unfoldable pub losers_rounds :
      ℕ
      → List GeneratedMatch
      → List BracketEntrant
      → List (List GeneratedMatch)
      → Result ScheduleError LosersBracket
  unfolding pair_round major_round
  losers_rounds round previous_major minor_entries [] =
      ok (record { matches = []; previous_major = previous_major; losers_round_number = round })
  losers_rounds round previous_major minor_entries (w ∷ ws) = do
    minor ← pair_round losers_match losers round 0 minor_entries
    major ← major_round (round + 1) 0 minor w
    rest ← losers_rounds (round + 2) major (entries_from winner major) ws
    ok (record {
      matches = minor ++ major ++ rest.matches;
      previous_major = rest.previous_major;
      losers_round_number = rest.losers_round_number;
    })

  -- The first minor round is between the losers of the first round of the winners.
  unfoldable pub losers_bracket :
      ℕ → List (List GeneratedMatch) → Result ScheduleError LosersBracket
  unfolding losers_rounds
  losers_bracket round [] =
      ok (record { matches = []; previous_major = []; losers_round_number = round })
  losers_bracket round (first ∷ more) = losers_rounds round [] (entries_from loser first) more

  -- `rounds[-1][0]`
  unfoldable pub last_match : List (List GeneratedMatch) → Result ScheduleError GeneratedMatch
  last_match [] = raise index_error
  last_match ([] ∷ []) = raise index_error
  last_match ((m ∷ ms) ∷ []) = ok m
  last_match (r ∷ s ∷ rs) = last_match (s ∷ rs)

  -- `not previous_major`, and `previous_major[0]` otherwise
  unfoldable pub last_loser : List GeneratedMatch → Result ScheduleError GeneratedMatch
  last_loser [] = raise no_losers_bracket
  last_loser (m ∷ ms) = ok m

  unfoldable pub play_double : ℤ → ℕ → ℕ → List Uuid → Result ScheduleError DoubleBracket
  unfolding winners_rounds losers_bracket last_match last_loser schedule_date
  play_double seed bracket_size round_count shuffled = do
    rounds ← winners_rounds round_count 1 (map team_entrant shuffled)
    lost ← losers_bracket (round_count + 1) rounds
    last_major ← last_loser lost.previous_major
    last_winner ← last_match rounds
    let grand_final_round = lost.losers_round_number in
        let matches =
          concat_rounds rounds
          ++ lost.matches
          ++ new_match grand_final grand_final_round finals (from_match last_winner.code winner)
              (from_match last_major.code winner)
            ∷ [] in
        ok (record {
          bracket = record {
            seed = seed;
            bracket_size = bracket_size;
            round_count = grand_final_round + 1;
            matches = matches;
            advancement_links = links_of_matches matches;
          };
          reset_code = reset;
          reset_date =
              schedule_date d.start_date (grand_final_round + 1) 1 d.round_interval_days
                d.match_interval_hours;
        })

module _ (rng : Shuffler) where
  unfoldable pub build_double_elimination_bracket :
      List Uuid → ℤ → Dates → Result ScheduleError DoubleBracket
  unfolding validate_team_ids bit_length play_double
  build_double_elimination_bracket team_ids seed d = do
    validate_team_ids team_ids 4
    raise_if (is_negative seed) negative_seed
    raise_if (below_one d.round_interval_days) bad_round_interval
    raise_if (below_one d.match_interval_hours) bad_match_interval
    raise_if (not (bit_and (length team_ids) (length team_ids - 1) == 0)) not_power_of_two
    play_double d seed (length team_ids) (bit_length (length team_ids) - 1)
        (rng.shuffle (rng.seeded (pos_part seed)) team_ids)
