-- ===== src/Schedule/RoundRobin.antt =====
-- `build_round_robin_schedule` of backend/app/modules/tournaments/scheduling.py: the circle
-- method. The first place of the rotation stays, the others move on by one in each round.
pub mod Meetings
pub mod Once
pub mod Circle
pub mod Positions
use bracket_craft.Prelude.{
  all_but_last, last, ℕ, zero, suc, ◌+◌, ◌-◌, ◌*◌, ◌/◌, ◌%◌, ◌||◌, not, Option, none, some, List,
  [], ◌∷◌, ◌++◌, map, Perm, ◌==◌, if◌then◌else◌, length,
}
use bracket_craft.Prelude.Int.{ℤ, pos_part}
use mathlib.Core.List.Perm
use bracket_craft.Prelude.Errors.{Result, ok, ◌>>=◌, ◌>>◌, raise_if}
use bracket_craft.Prelude.Teams.{Uuid}
use bracket_craft.Schedule.{
  ScheduleError, bad_legs, bad_round_interval, bad_match_interval, negative_seed, Shuffler,
  validate_team_ids, is_negative, below_one, schedule_date,
}

-- A place of the rotation: a team, or `None`, whose opponent rests.
abbrev pub Place : Type 0
Place = Option Uuid

-- `(rotation[i], rotation[-i - 1])` for the `n` first `i`: the two ends, then what is between.
unfoldable pub round_pairs : ℕ → List Place → List (Place × Place)
round_pairs zero rotation = []
round_pairs (suc n) [] = []
round_pairs (suc n) (x ∷ []) = (x, x) ∷ []
round_pairs (suc n) (x ∷ y ∷ rest) = (x, last y rest) ∷ round_pairs n (all_but_last y rest)

-- `[rotation[0], rotation[-1], *rotation[1:-1]]`
unfoldable pub rotate : List Place → List Place
rotate [] = []
rotate (x ∷ []) = x ∷ x ∷ []
rotate (x ∷ y ∷ rest) = x ∷ last y rest ∷ all_but_last y rest

-- `(round_number, match_number, left, right)`
pub record BaseMatch : Type 0 where
  pub round_number : ℕ
  pub match_number : ℕ
  pub home : Uuid
  pub away : Uuid

unfoldable pub base_match : ℕ → ℕ → ℕ → Uuid → Uuid → BaseMatch
base_match round index number left right =
    if (round + index) % 2 == 0
    then record { round_number = round; match_number = number; home = left; away = right }
    else record { round_number = round; match_number = number; home = right; away = left }

-- The matches of a round, from pair `index` on, after `number` matches.
unfoldable pub round_matches : ℕ → ℕ → ℕ → List (Place × Place) → List BaseMatch
unfolding base_match
round_matches round index number [] = []
round_matches round index number ((some left, some right) ∷ pairs) =
    base_match round index (number + 1) left right
    ∷ round_matches round (index + 1) (number + 1) pairs
round_matches round index number ((some left, none) ∷ pairs) =
    round_matches round (index + 1) number pairs
round_matches round index number ((none, right) ∷ pairs) =
    round_matches round (index + 1) number pairs

-- `rounds` rounds, the first of them numbered `round`.
unfoldable pub base_matches : ℕ → ℕ → List Place → List BaseMatch
unfolding round_matches round_pairs rotate
base_matches zero round rotation = []
base_matches (suc rounds) round rotation =
    round_matches round 0 0 (round_pairs (length rotation / 2) rotation)
    ++ base_matches rounds (round + 1) (rotate rotation)

pub record RoundRobinMatch : Type 0 where
  -- The code is `{code_prefix}{round_number}-{match_number}`.
  pub match_number : ℕ
  pub round_number : ℕ
  pub match_date : ℕ
  pub home_team_id : Uuid
  pub away_team_id : Uuid

pub record RoundRobinSchedule : Type 0 where
  pub seed : ℤ
  pub legs : ℕ
  pub round_count : ℕ
  pub bye_count : ℕ
  pub matches : List RoundRobinMatch

pub record Dates : Type 0 where
  pub start_date : ℕ
  pub round_interval_days : ℤ
  pub match_interval_hours : ℤ

-- One match in leg `leg`, counted from zero: the sides change in the second.
unfoldable pub leg_match : Dates → ℕ → ℕ → BaseMatch → RoundRobinMatch
leg_match d round_count leg m = record {
  match_number = m.match_number;
  round_number = m.round_number + leg * round_count;
  match_date =
      schedule_date d.start_date (m.round_number + leg * round_count) m.match_number
        d.round_interval_days d.match_interval_hours;
  home_team_id = if leg == 0 then m.home else m.away;
  away_team_id = if leg == 0 then m.away else m.home;
}

unfoldable pub leg_matches : Dates → ℕ → ℕ → ℕ → List BaseMatch → List RoundRobinMatch
unfolding leg_match
leg_matches d round_count zero leg base = []
leg_matches d round_count (suc legs) leg base =
    map (leg_match d round_count leg) base ++ leg_matches d round_count legs (leg + 1) base

abbrev pub places : List Uuid → List Place
places [] = []
places (t ∷ ts) = some t ∷ places ts

-- The shuffled teams, and one empty place if their number is odd.
unfoldable pub initial_rotation : List Uuid → List Place
initial_rotation teams = if length teams % 2 == 0 then places teams else places teams ++ none ∷ []

module _ (rng : Shuffler) where
  unfoldable pub build_round_robin_schedule :
      List Uuid → ℤ → Dates → ℕ → Result ScheduleError RoundRobinSchedule
  unfolding validate_team_ids initial_rotation base_matches leg_matches
  build_round_robin_schedule team_ids seed d legs =
      let rotation = initial_rotation (rng.shuffle (rng.seeded (pos_part seed)) team_ids) in
      let round_count = length rotation - 1 in
      do
        validate_team_ids team_ids 2
        raise_if (is_negative seed) negative_seed
        raise_if (not (legs == 1 || legs == 2)) bad_legs
        raise_if (below_one d.round_interval_days) bad_round_interval
        raise_if (below_one d.match_interval_hours) bad_match_interval
        ok (record {
          seed = seed;
          legs = legs;
          round_count = round_count * legs;
          bye_count = if length team_ids % 2 == 0 then 0 else round_count * legs;
          matches = leg_matches d round_count legs 0 (base_matches round_count 1 rotation);
        })
