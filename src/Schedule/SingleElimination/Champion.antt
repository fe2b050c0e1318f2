-- ===== src/Schedule/SingleElimination/Champion.antt =====
-- What a single elimination bracket promises: a final, one match less than teams, one first match
-- for each team, and one place in a later match for each winner but the champion.
use bracket_craft.Prelude.{
  ℕ, zero, suc, ◌+◌, ◌-◌, ◌^◌, ◌≤◌, ◌≡◌, refl, sym, ap, ◌∙◌, subst, Bool, true, false, not, Option,
  none, some, List, [], ◌∷◌, ◌++◌, map, arith, ltb, if◌then◌else◌, length, replicate, elem, count,
}
use bracket_craft.Prelude.Int.{ℤ, pos_part}
use bracket_craft.Prelude.Errors.{ok, raise_if, went_on}
use bracket_craft.Prelude.Teams.{Uuid, Distinct-count, SameTeams-length}
use bracket_craft.Schedule.{
  bad_round_interval, bad_match_interval, negative_seed, too_few_teams, too_many_teams,
  repeated_teams, no_final, Shuffler, all_distinct, all_distinct→Distinct, is_negative, below_one,
}
use bracket_craft.Schedule.Brackets.{
  MatchCode, final, Outcome, winner, BracketEntrant, Bracket, team_entrant, from_match, bit_length,
  next_power_of_two,
}
use bracket_craft.Schedule.RoundRobin.{Dates}
use bracket_craft.Schedule.SingleElimination.{
  Played, play_rounds, ends_in_final, max_single_elimination_teams, initial_entries,
  build_single_elimination_bracket,
}
use bracket_craft.Schedule.RoundRobin.Circle.{one_if}
use bracket_craft.Schedule.RoundRobin.Meetings.{tally}
use bracket_craft.Schedule.SingleElimination.Sizes.{size-bounds}
use bracket_craft.Schedule.SingleElimination.Rounds.{Packed, present, Decided, play_rounds-Decided}
use bracket_craft.Schedule.SingleElimination.Entrants.{
  is_team, comes_from, entries_with, sides_with, link_from, won, teams-play_rounds,
  links-play_rounds,
}

present-initial :
    (ts : List Uuid) (n : ℕ)
    → present (map (λ t. some (team_entrant t)) ts ++ replicate n none) ≡ length ts
present-initial [] zero = refl
present-initial [] (suc n) = present-initial [] n
present-initial (t ∷ ts) n = ap suc (present-initial ts n)

Packed-initial :
    (ts : List Uuid) (n : ℕ) → Packed (map (λ t. some (team_entrant t)) ts ++ replicate n none)
Packed-initial [] zero = tt
Packed-initial [] (suc n) = present-initial [] n
Packed-initial (t ∷ ts) n = Packed-initial ts n

length-initial :
    (ts : List Uuid) (n : ℕ)
    → length (map {B = Option BracketEntrant} (λ t. some (team_entrant t)) ts ++ replicate n none)
      ≡ length ts + n
length-initial [] zero = refl
length-initial [] (suc n) = omega (arith, length-initial [] n)
length-initial (t ∷ ts) n = omega (arith, length-initial ts n)

teams-initial :
    (u : Uuid) (ts : List Uuid) (n : ℕ)
    → entries_with (is_team u) (map (λ t. some (team_entrant t)) ts ++ replicate n none)
      ≡ count u ts
teams-initial u [] zero = refl
teams-initial u [] (suc n) = teams-initial u [] n
teams-initial u (t ∷ ts) n = ground (arith, teams-initial u ts n)

sources-initial :
    (p : MatchCode → Outcome → Bool) (ts : List Uuid) (n : ℕ)
    → entries_with (comes_from p) (map (λ t. some (team_entrant t)) ts ++ replicate n none) ≡ 0
sources-initial p [] zero = refl
sources-initial p [] (suc n) = sources-initial p [] n
sources-initial p (t ∷ ts) n = omega (arith, sources-initial p ts n)

-- What the builder needs of its arguments.
pub record BracketArguments (team_ids : List Uuid) (seed : ℤ) (d : Dates) : Type 0 where
  pub two : 2 ≤ length team_ids
  pub not_too_many : length team_ids ≤ 512
  pub apart : all_distinct team_ids ≡ true
  pub seed_known : is_negative seed ≡ false
  pub days : below_one d.round_interval_days ≡ false
  pub hours : below_one d.match_interval_hours ≡ false

module _ (rng : Shuffler) (team_ids : List Uuid) (seed : ℤ) (d : Dates) where
  bracket_rounds : Played
  bracket_rounds =
      let size = next_power_of_two (length team_ids) in
      let rounds = bit_length size - 1 in
      play_rounds d rounds rounds 1
        (initial_entries size (rng.shuffle (rng.seeded (pos_part seed)) team_ids))

  record Whole : Type 0 where
    matches_count : suc (length bracket_rounds.matches) ≡ length team_ids
    in_final : ends_in_final bracket_rounds.matches ≡ true
    teams_once : (t : Uuid) → sides_with (is_team t) bracket_rounds.matches ≡ count t team_ids
    winners_go_on :
        (p : MatchCode → Outcome → Bool)
        → tally (link_from p) bracket_rounds.links + one_if (p final winner)
          ≡ tally (won p) bracket_rounds.matches

  bracket_rounds-Whole : 2 ≤ length team_ids → Whole
  unfolding bracket_rounds initial_entries
  bracket_rounds-Whole two =
      let size = next_power_of_two (length team_ids) in
      let rounds = bit_length size - 1 in
      let shuffled = rng.shuffle (rng.seeded (pos_part seed)) team_ids in
      let same = rng.shuffle-SameTeams (rng.seeded (pos_part seed)) team_ids in
      let as_many = SameTeams-length shuffled team_ids same in
      let (k, size_is, rounds_are, room, needed) = size-bounds (length team_ids) two in
      let entries = initial_entries size shuffled in
      let packed = Packed-initial shuffled (size - length shuffled) in
      let places = length-initial shuffled (size - length shuffled) in
      let here = present-initial shuffled (size - length shuffled) in
      let full : length entries ≡ 2 ^ suc k = omega arith in
      let full' : length entries ≡ 2 ^ rounds = full ∙ ap (λ r. 2 ^ r) (sym rounds_are) in
      let decided : Decided entries (play_rounds d rounds rounds 1 entries) =
        subst (λ r. Decided entries (play_rounds d rounds r 1 entries)) (sym rounds_are)
          (play_rounds-Decided d rounds k 1 entries (omega arith) packed full (omega arith)) in
      let nobody : (q : BracketEntrant → Bool)
          → entries_with q bracket_rounds.next_entries ≡ one_if (q (from_match final winner)) =
        λ q. ap (entries_with q) decided.champion ∙ omega arith in
      record {
        matches_count = omega (arith, decided.played);
        in_final = decided.in_final;
        teams_once = λ t. omega (
          arith,
          teams-play_rounds d rounds t rounds 1 entries packed full',
          nobody (is_team t),
          teams-initial t shuffled (size - length shuffled),
          same t,
        );
        winners_go_on = λ p. omega (
          arith,
          links-play_rounds d rounds p rounds 1 entries packed full',
          nobody (comes_from p),
          sources-initial p shuffled (size - length shuffled),
        );
      }

  bracket_of_rounds : Bracket
  unfolding bracket_rounds
  bracket_of_rounds = record {
    seed = seed;
    bracket_size = next_power_of_two (length team_ids);
    round_count = bit_length (next_power_of_two (length team_ids)) - 1;
    matches = bracket_rounds.matches;
    advancement_links = bracket_rounds.links;
  }

  -- With arguments that pass its checks the builder always makes a bracket, which has a final
  -- and one match less than teams.
  pub build_single_elimination_bracket_total :
      BracketArguments team_ids seed d
      → (bracket : Bracket) × (build_single_elimination_bracket rng team_ids seed d ≡ ok bracket)
        × (ends_in_final bracket.matches ≡ true)
        × (suc (length bracket.matches) ≡ length team_ids)
  unfolding build_single_elimination_bracket bracket_rounds bracket_of_rounds
  build_single_elimination_bracket_total a =
      let whole = bracket_rounds-Whole a.two in
      let few : ltb (length team_ids) 2 ≡ false = ground (arith, a.two) in
      let many : ltb max_single_elimination_teams (length team_ids) ≡ false =
        ground (arith, a.not_too_many) in
      (
        bracket_of_rounds,
        rw (few, many, a.apart, a.seed_known, a.days, a.hours, whole.in_final) refl,
        whole.in_final,
        whole.matches_count,
      )

  bracket_made :
      (bracket : Bracket)
      → build_single_elimination_bracket rng team_ids seed d ≡ ok bracket
      → (2 ≤ length team_ids)
        × (all_distinct team_ids ≡ true)
        × (bracket.matches ≡ bracket_rounds.matches)
        × (bracket.advancement_links ≡ bracket_rounds.links)
  unfolding build_single_elimination_bracket bracket_rounds
  bracket_made bracket returned =
      let (_, few, r1) = went_on (raise_if (ltb (length team_ids) 2) too_few_teams) _ returned in
      let (_, _, r2) =
        went_on (raise_if (ltb max_single_elimination_teams (length team_ids)) too_many_teams) _
          r1 in
      let (_, apart, r3) = went_on (raise_if (not (all_distinct team_ids)) repeated_teams) _ r2 in
      let (_, _, r4) = went_on (raise_if (is_negative seed) negative_seed) _ r3 in
      let (_, _, r5) =
        went_on (raise_if (below_one d.round_interval_days) bad_round_interval) _ r4 in
      let (_, _, r6) =
        went_on (raise_if (below_one d.match_interval_hours) bad_match_interval) _ r5 in
      let (_, _, r7) =
        went_on (raise_if (not (ends_in_final bracket_rounds.matches)) no_final) _ r6 in
      (ground arith, ground arith, cc, cc)

  -- Each team of the phase is a side of exactly one match of the bracket by name, its first, and
  -- no other team is.
  pub build_single_elimination_bracket-enters_once :
      (bracket : Bracket)
      → build_single_elimination_bracket rng team_ids seed d ≡ ok bracket
      → (t : Uuid) → sides_with (is_team t) bracket.matches ≡ (if elem t team_ids then 1 else 0)
  build_single_elimination_bracket-enters_once bracket returned t =
      let (two, apart, matches, _) = bracket_made bracket returned in
      rw matches (
        (bracket_rounds-Whole two).teams_once t
        ∙ Distinct-count t team_ids (all_distinct→Distinct team_ids apart))

  -- For every choice of codes and outcomes, the links from the chosen ones are as many as the
  -- matches whose code is chosen for its winner, the final left out.
  pub build_single_elimination_bracket-winners_go_on :
      (bracket : Bracket)
      → build_single_elimination_bracket rng team_ids seed d ≡ ok bracket
      → (p : MatchCode → Outcome → Bool)
      → tally (link_from p) bracket.advancement_links + one_if (p final winner)
        ≡ tally (won p) bracket.matches
  build_single_elimination_bracket-winners_go_on bracket returned p =
      let (two, _, matches, links) = bracket_made bracket returned in
      rw (matches, links) ((bracket_rounds-Whole two).winners_go_on p)
