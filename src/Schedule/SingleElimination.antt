-- ===== src/Schedule/SingleElimination.antt =====
-- `build_single_elimination_bracket` of backend/app/modules/tournaments/scheduling.py: rounds of
-- adjacent pairs, in which an entrant without an opponent goes on by itself.
pub mod Sizes
pub mod Rounds
pub mod Entrants
pub mod Champion
use bracket_craft.Prelude.{
  last, ℕ, zero, suc, ◌+◌, ◌-◌, Bool, false, not, Option, none, some, List, [], ◌∷◌, ◌++◌, map,
  Perm, ltb, length, replicate,
}
use bracket_craft.Prelude.Int.{ℤ, pos_part}
use mathlib.Core.List.Perm
use bracket_craft.Prelude.Errors.{Result, ok, ◌>>=◌, ◌>>◌, raise_if}
use bracket_craft.Prelude.Teams.{Uuid}
use bracket_craft.Schedule.{
  ScheduleError, bad_round_interval, bad_match_interval, negative_seed, too_few_teams,
  too_many_teams, repeated_teams, no_final, Shuffler, all_distinct, is_negative, below_one,
  schedule_date,
}
use bracket_craft.Schedule.Brackets.{
  winner, main, home_side, away_side, BracketEntrant, GeneratedMatch, AdvancementLinkSpec, Bracket,
  team_entrant, from_match, side_link, bit_length, next_power_of_two, match_code, is_final,
}
use bracket_craft.Schedule.RoundRobin.{Dates}

-- What the pairs of a round leave: matches, links, and the entries of the next round.
pub record Played : Type 0 where
  pub matches : List GeneratedMatch
  pub links : List AdvancementLinkSpec
  pub next_entries : List (Option BracketEntrant)

-- The body of the loop for two entrants: the match and its links come first.
unfoldable pub play_match : Dates → ℕ → ℕ → ℕ → BracketEntrant → BracketEntrant → Played → Played
unfolding match_code side_link
play_match d round_count round_number match_number home away rest =
    let code = match_code round_count round_number match_number in
    record {
      matches =
          record {
            code = code;
            round_number = round_number;
            match_date =
                schedule_date d.start_date round_number match_number d.round_interval_days
                  d.match_interval_hours;
            home = home;
            away = away;
            lane = main;
          }
          ∷ rest.matches;
      links = side_link code home_side home ++ side_link code away_side away ++ rest.links;
      next_entries = some (from_match code winner) ∷ rest.next_entries;
    }

-- `home or away`
unfoldable pub either : Option BracketEntrant → Option BracketEntrant → Option BracketEntrant
either (some home) away = some home
either none away = away

abbrev pub pass_on : Option BracketEntrant → Played → Played
pass_on entrant rest = record {
  matches = rest.matches;
  links = rest.links;
  next_entries = entrant ∷ rest.next_entries;
}

-- The pairs of a round, after `match_number` matches. No bracket has an odd number of entries.
unfoldable pub play_entries : Dates → ℕ → ℕ → ℕ → List (Option BracketEntrant) → Played
unfolding play_match either
play_entries d round_count round_number match_number [] = record {
  matches = [];
  links = [];
  next_entries = [];
}
play_entries d round_count round_number match_number (x ∷ []) = record {
  matches = [];
  links = [];
  next_entries = [];
}
play_entries d round_count round_number match_number (some home ∷ some away ∷ entries) =
    play_match d round_count round_number (match_number + 1) home away
      (play_entries d round_count round_number (match_number + 1) entries)
play_entries d round_count round_number match_number (some home ∷ none ∷ entries) =
    pass_on (either (some home) none) (play_entries d round_count round_number match_number entries)
play_entries d round_count round_number match_number (none ∷ away ∷ entries) =
    pass_on (either none away) (play_entries d round_count round_number match_number entries)

-- `rounds` rounds from `round_number` on; the entries left at the end come with the matches.
unfoldable pub play_rounds : Dates → ℕ → ℕ → ℕ → List (Option BracketEntrant) → Played
unfolding play_entries
play_rounds d round_count zero round_number entries = record {
  matches = [];
  links = [];
  next_entries = entries;
}
play_rounds d round_count (suc rounds) round_number entries =
    let now = play_entries d round_count round_number 0 entries in
    let rest = play_rounds d round_count rounds (round_number + 1) now.next_entries in
    record {
      matches = now.matches ++ rest.matches;
      links = now.links ++ rest.links;
      next_entries = rest.next_entries;
    }

-- `not matches or matches[-1].code != "FINAL"`, negated
unfoldable pub ends_in_final : List GeneratedMatch → Bool
ends_in_final [] = false
ends_in_final (m ∷ matches) = is_final (last m matches).code

abbrev pub max_single_elimination_teams : ℕ
max_single_elimination_teams = 512

unfoldable pub initial_entries : ℕ → List Uuid → List (Option BracketEntrant)
initial_entries size teams =
    map (λ t. some (team_entrant t)) teams ++ replicate (size - length teams) none

module _ (rng : Shuffler) where
  unfoldable pub build_single_elimination_bracket :
      List Uuid → ℤ → Dates → Result ScheduleError Bracket
  unfolding next_power_of_two bit_length play_rounds initial_entries ends_in_final all_distinct
  build_single_elimination_bracket team_ids seed d =
      let bracket_size = next_power_of_two (length team_ids) in
      let round_count = bit_length bracket_size - 1 in
      let shuffled = rng.shuffle (rng.seeded (pos_part seed)) team_ids in
      let played =
        play_rounds d round_count round_count 1 (initial_entries bracket_size shuffled) in
      do
        raise_if (ltb (length team_ids) 2) too_few_teams
        raise_if (ltb max_single_elimination_teams (length team_ids)) too_many_teams
        raise_if (not (all_distinct team_ids)) repeated_teams
        raise_if (is_negative seed) negative_seed
        raise_if (below_one d.round_interval_days) bad_round_interval
        raise_if (below_one d.match_interval_hours) bad_match_interval
        raise_if (not (ends_in_final played.matches)) no_final
        ok (record {
          seed = seed;
          bracket_size = bracket_size;
          round_count = round_count;
          matches = played.matches;
          advancement_links = played.links;
        })
