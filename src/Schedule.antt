-- ===== src/Schedule.antt =====
-- What the builders of backend/app/modules/tournaments/scheduling.py share: the checks of their
-- arguments, dates, and the shuffle of `random.Random`, which is a parameter.
pub mod RoundRobin
pub mod Groups
pub mod Brackets
pub mod Swiss
pub mod SingleElimination
pub mod DoubleElimination
pub mod Tests
use bracket_craft.Prelude.{
  ℕ, ◌+◌, ◌-◌, ◌*◌, ◌≡◌, refl, Bool, true, ◌&&◌, not, List, [], ◌∷◌, Perm, arith, ltb, length, elem,
  Distinct,
}
use bracket_craft.Prelude.Int.{ℤ, pos, pos_part, leb_ℤ}
use mathlib.Core.List.Perm
use bracket_craft.Prelude.Errors.{Result, ◌>>=◌, ◌>>◌, raise_if}
use bracket_craft.Prelude.Teams.{Uuid, SameTeams}

pub data ScheduleError : Type 0 where
  too_few_teams too_many_teams repeated_teams negative_seed bad_group_count bad_heads foreign_heads
        small_group bad_legs bad_round_interval bad_match_interval no_final not_power_of_two
        no_losers_bracket index_error bad_swiss_round no_valid_pairing budget_exhausted :
      ScheduleError

-- `random.Random`: it is seeded, and `shuffle` reorders a list in place and moves its state on.
pub record Shuffler : Type 1 where
  pub State : Type 0
  pub seeded : ℕ → State
  pub shuffle : State → List ℕ → List ℕ
  pub next : State → List ℕ → State
  pub shuffle-SameTeams : (s : State) (xs : List ℕ) → SameTeams (shuffle s xs) xs

-- `len(set(xs)) != len(xs)`, negated
unfoldable pub all_distinct : List ℕ → Bool
all_distinct [] = true
all_distinct (x ∷ xs) = not (elem x xs) && all_distinct xs

unfoldable pub validate_team_ids : List Uuid → ℕ → Result ScheduleError (Unit {0})
validate_team_ids teams minimum = do
  raise_if (ltb (length teams) minimum) too_few_teams
  raise_if (not (all_distinct teams)) repeated_teams

abbrev pub is_negative : ℤ → Bool
is_negative z = not (leb_ℤ (pos 0) z)

abbrev pub below_one : ℤ → Bool
below_one z = not (leb_ℤ (pos 1) z)

-- A date in seconds, for rounds and matches numbered from one and positive intervals.
unfoldable pub schedule_date : ℕ → ℕ → ℕ → ℤ → ℤ → ℕ
schedule_date start round_number match_number round_interval_days match_interval_hours =
    start
    + ((round_number - 1) * pos_part round_interval_days * 86400
        + (match_number - 1) * pos_part match_interval_hours * 3600)

pub all_distinct→Distinct : (xs : List ℕ) → all_distinct xs ≡ true → Distinct xs
unfolding all_distinct
all_distinct→Distinct [] h = tt
all_distinct→Distinct (x ∷ xs) h = (ground arith, all_distinct→Distinct xs (ground arith))

-- A shuffler that keeps the order.
abbrev pub in_order : Shuffler
in_order = record {
  State = ℕ;
  seeded = λ n. n;
  shuffle = λ s xs. xs;
  next = λ s xs. s + 1;
  shuffle-SameTeams = λ s xs t. refl;
}
