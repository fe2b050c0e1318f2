-- ===== src/Schedule/DoubleElimination/Built.antt =====
-- `build_double_elimination_bracket` from its arguments to its result.
use bracket_craft.Prelude.{
  ℕ, suc, ◌+◌, ◌-◌, ◌*◌, ◌^◌, ◌≤◌, ◌≡◌, refl, ap, ◌∙◌, Bool, true, false, List, [], ◌∷◌, map, arith,
  ◌&&◌, ltb, if◌then◌else◌, length, elem, count,
}
use bracket_craft.Prelude.Int.{ℤ, pos_part}
use bracket_craft.Prelude.Errors.{ok}
use bracket_craft.Prelude.Teams.{Uuid, SameTeams-length, Distinct-count}
use bracket_craft.Schedule.{
  Shuffler, all_distinct, all_distinct→Distinct, validate_team_ids, is_negative, below_one,
}
use bracket_craft.Schedule.Brackets.{
  MatchCode, grand_final, Outcome, winner, loser, GeneratedMatch, team_entrant, bit_length,
}
use bracket_craft.Schedule.RoundRobin.{Dates}
use bracket_craft.Schedule.RoundRobin.Circle.{one_if}
use bracket_craft.Schedule.RoundRobin.Meetings.{tally}
use bracket_craft.Schedule.SingleElimination.Sizes.{pow_suc, pow_pos, bit_length_in-pow}
use bracket_craft.Schedule.SingleElimination.Entrants.{
  is_team, comes_from, link_from, won, sides_with,
}
use bracket_craft.Schedule.DoubleElimination.{
  DoubleBracket, bit_and, build_double_elimination_bracket,
}
use bracket_craft.Schedule.DoubleElimination.Rounds.{entrants_with, is_winners, wins, drops}
use bracket_craft.Schedule.DoubleElimination.Codes.{same_code, play_double-coded}
use bracket_craft.Schedule.DoubleElimination.Whole.{links-sides, bit_and_in-pow, play_double-Whole}

-- Nobody comes from a match at first, and each team is once among the entrants for each time that
-- it is among the teams.
sources-teams :
    (p : MatchCode → Outcome → Bool) (ts : List Uuid)
    → entrants_with (comes_from p) (map team_entrant ts) ≡ 0
sources-teams p [] = refl
sources-teams p (t ∷ ts) = omega (arith, sources-teams p ts)

teams-teams :
    (u : Uuid) (ts : List Uuid) → entrants_with (is_team u) (map team_entrant ts) ≡ count u ts
teams-teams u [] = refl
teams-teams u (t ∷ ts) = ground (arith, teams-teams u ts)

no_winner_is_team : (u : Uuid) (ms : List GeneratedMatch) → tally (wins (is_team u)) ms ≡ 0
no_winner_is_team u [] = refl
no_winner_is_team u (m ∷ ms) = omega (arith, no_winner_is_team u ms)

no_loser_is_team : (u : Uuid) (ms : List GeneratedMatch) → tally (drops (is_team u)) ms ≡ 0
no_loser_is_team u [] = refl
no_loser_is_team u (m ∷ ms) = ground (arith, no_loser_is_team u ms)

-- A match of the winners whose code is chosen for its loser
abbrev pub dropped : (MatchCode → Outcome → Bool) → GeneratedMatch → Bool
dropped p m = is_winners m.lane && p m.code loser

-- The bracket for these teams: its size, where each team starts, and where each match leads
pub record IsDoubleElimination (teams : List Uuid) (b : DoubleBracket) : Type 0 where
  pub count_matches : length b.bracket.matches + 2 ≡ 2 * length teams
  pub codes_apart : (c : MatchCode) → tally (λ m. same_code c m.code) b.bracket.matches ≤ 1
  pub enters_once :
      (t : Uuid) → sides_with (is_team t) b.bracket.matches ≡ (if elem t teams then 1 else 0)
  pub goes_on :
      (p : MatchCode → Outcome → Bool)
      → tally (link_from p) b.bracket.advancement_links + one_if (p grand_final winner)
        ≡ tally (won p) b.bracket.matches + tally (dropped p) b.bracket.matches

pub record DoubleArguments (teams : List Uuid) (seed : ℤ) (d : Dates) : Type 0 where
  pub exponent : ℕ
  pub power_of_two : length teams ≡ 2 ^ suc (suc exponent)
  pub apart : all_distinct teams ≡ true
  pub seed_known : is_negative seed ≡ false
  pub days : below_one d.round_interval_days ≡ false
  pub hours : below_one d.match_interval_hours ≡ false

-- For four teams or a greater power of two, and arguments that pass the other checks, the builder
-- always makes a bracket. It has twice as many matches as teams less two, with different codes;
-- each team is a side of exactly one match by name, and no other team is; and for every choice of
-- codes and outcomes, the links from the chosen ones are as many as the matches whose code is
-- chosen for its winner, the grand final left out, and the matches of the winners whose code is
-- chosen for its loser.
pub build_double_elimination_bracket-IsDoubleElimination :
    (rng : Shuffler) (teams : List Uuid) (seed : ℤ) (d : Dates)
    → DoubleArguments teams seed d
    → (b : DoubleBracket) × (build_double_elimination_bracket rng teams seed d ≡ ok b)
      × IsDoubleElimination teams b
unfolding build_double_elimination_bracket validate_team_ids bit_length bit_and
build_double_elimination_bracket-IsDoubleElimination rng teams seed d a =
    let shuffled = rng.shuffle (rng.seeded (pos_part seed)) teams in
    let same = rng.shuffle-SameTeams (rng.seeded (pos_part seed)) teams in
    let as_many = SameTeams-length shuffled teams same in
    let n = length teams in
    let k = a.exponent in
    let (b, e, w) = play_double-Whole d seed n k shuffled (as_many ∙ a.power_of_two) in
    let enough : ltb n 4 ≡ false =
      ground (arith, a.power_of_two, pow_suc (suc k), pow_suc k, pow_pos k) in
    let rounds : bit_length n - 1 ≡ suc (suc k) = rounds_of k n a.power_of_two in
    let power : bit_and n (n - 1) ≡ 0 = bits_of k n a.power_of_two in
    (
      b,
      rw (enough, a.apart, a.seed_known, a.days, a.hours, power, rounds) e,
      record {
        count_matches = omega (arith, w.count_matches, as_many);
        codes_apart = λ c. play_double-coded d c seed n (suc (suc k)) shuffled e;
        enters_once = λ t.
            omega (
              arith,
              w.sides (is_team t),
              teams-teams t shuffled,
              same t,
              no_winner_is_team t b.bracket.matches,
              no_loser_is_team t b.bracket.matches,
            )
            ∙ Distinct-count t teams (all_distinct→Distinct teams a.apart);
        goes_on = λ p. omega (
          arith,
          w.sides (comes_from p),
          ap (tally (link_from p)) w.links,
          links-sides p b.bracket.matches,
          sources-teams p shuffled,
        );
      },
    )
  where
    rounds_of : (k n : ℕ) → n ≡ 2 ^ suc (suc k) → bit_length n - 1 ≡ suc (suc k)
    rounds_of k n h = rw h (
        ap (λ r. r - 1) (bit_length_in-pow (2 ^ suc (suc k)) (suc (suc k)) (omega arith))
        ∙ omega arith)

    bits_of : (k n : ℕ) → n ≡ 2 ^ suc (suc k) → bit_and n (n - 1) ≡ 0
    bits_of k n h = rw h (bit_and_in-pow (2 ^ suc (suc k)) (suc (suc k)))
