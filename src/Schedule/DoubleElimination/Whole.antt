-- ===== src/Schedule/DoubleElimination/Whole.antt =====
-- The bracket that `play_double` puts together.
use bracket_craft.Prelude.{
  ℕ, zero, suc, ◌+◌, ◌-◌, ◌*◌, ◌/◌, ◌%◌, ◌^◌, ◌≡◌, refl, ap, ◌∙◌, Bool, true, false, List, [], ◌∷◌,
  ◌++◌, map, arith, All, All-append, length, length-append,
}
use bracket_craft.Prelude.Int.{ℤ}
use bracket_craft.Prelude.Errors.{ok}
use bracket_craft.Prelude.Teams.{Uuid}
use bracket_craft.Schedule.{schedule_date}
use bracket_craft.Schedule.Brackets.{
  MatchCode, grand_final, reset, Outcome, winner, loser, finals, BracketEntrant, GeneratedMatch,
  from_match, team_entrant, home_side, away_side, side_link,
}
use bracket_craft.Schedule.RoundRobin.{Dates}
use bracket_craft.Schedule.RoundRobin.Circle.{one_if}
use bracket_craft.Schedule.RoundRobin.Meetings.{tally, tally-append}
use bracket_craft.Schedule.SingleElimination.Sizes.{pow_suc, pow_pos}
use bracket_craft.Schedule.SingleElimination.Entrants.{
  comes_from, link_from, sides_with, sides-append, side_link-tally,
}
use bracket_craft.Schedule.DoubleElimination.{
  DoubleBracket, bit_and_in, match_links, links_of_matches, entries_from, concat_rounds, new_match,
  winners_rounds, losers_bracket, last_loser, play_double,
}
use bracket_craft.Schedule.DoubleElimination.Rounds.{
  entrants_with, is_winners, wins, drops, entrants-losers, length-entries_from, drops_nobody, WonBy,
  winners_rounds-WonBy,
}
use bracket_craft.Schedule.DoubleElimination.Losers.{losers_rounds-LostBy}

pub links-sides :
    (p : MatchCode → Outcome → Bool) (ms : List GeneratedMatch)
    → tally (link_from p) (links_of_matches ms) ≡ sides_with (comes_from p) ms
unfolding match_links
links-sides p [] = refl
links-sides p (m ∷ ms) = omega (
  arith,
  tally-append (link_from p) (match_links m) (links_of_matches ms),
  tally-append (link_from p) (side_link m.code home_side m.home)
      (side_link m.code away_side m.away),
  side_link-tally p m.code home_side m.home,
  side_link-tally p m.code away_side m.away,
  links-sides p ms,
)

drops-rounds :
    (rounds : List (List GeneratedMatch))
    → All (λ r. All (λ x. is_winners x.lane ≡ true) r) rounds
    → All (λ x. is_winners x.lane ≡ true) (concat_rounds rounds)
drops-rounds [] a = tt
drops-rounds (r ∷ rs) a =
    All-append (λ x. is_winners x.lane ≡ true) r (concat_rounds rs) a.0 (drops-rounds rs a.1)

pub bit_and_in-pow : (fuel k : ℕ) → bit_and_in fuel (2 ^ k) (2 ^ k - 1) ≡ 0
unfolding bit_and_in
bit_and_in-pow zero k = refl
bit_and_in-pow (suc fuel) zero = ap (λ n. 1 % 2 * (0 % 2) + 2 * n) (bit_and_in-zero fuel)
  where
    bit_and_in-zero : (fuel : ℕ) → bit_and_in fuel (1 / 2) (0 / 2) ≡ 0
    bit_and_in-zero zero = refl
    bit_and_in-zero (suc fuel) = ap (λ n. 0 % 2 * (0 % 2) + 2 * n) (bit_and_in-zero fuel)
bit_and_in-pow (suc fuel) (suc k) =
    let even : 2 ^ suc k % 2 ≡ 0 = omega (arith, pow_suc k) in
    let half : 2 ^ suc k / 2 ≡ 2 ^ k = omega (arith, pow_suc k) in
    let half_less : (2 ^ suc k - 1) / 2 ≡ 2 ^ k - 1 = omega (arith, pow_suc k, pow_pos k) in
    rw (even, half, half_less, bit_and_in-pow fuel k) (omega arith)

-- What the whole bracket has: its matches, and the entrants of their sides
pub record Whole (teams : List Uuid) (b : DoubleBracket) : Type 0 where
  pub count_matches : length b.bracket.matches + 2 ≡ 2 * length teams
  pub links : b.bracket.advancement_links ≡ links_of_matches b.bracket.matches
  pub sides :
      (q : BracketEntrant → Bool)
      → sides_with q b.bracket.matches + one_if (q (from_match grand_final winner))
        ≡ entrants_with q (map team_entrant teams)
          + tally (wins q) b.bracket.matches
          + tally (drops q) b.bracket.matches

module _ (d : Dates) (seed : ℤ) (size : ℕ) where
  sides_of_all :
      (rounds : List (List GeneratedMatch)) (lost : List GeneratedMatch)
      (last_winner last_major final : GeneratedMatch) (q : BracketEntrant → Bool) (teams : ℕ)
      → All (λ r. All (λ x. is_winners x.lane ≡ true) r) rounds
      → All (λ x. is_winners x.lane ≡ false) lost
      → is_winners final.lane ≡ false
      → final.home ≡ from_match last_winner.code winner
      → final.away ≡ from_match last_major.code winner
      → sides_with q (concat_rounds rounds) + one_if (wins q last_winner)
        ≡ teams + tally (wins q) (concat_rounds rounds)
      → sides_with q lost + one_if (wins q last_major)
        ≡ tally (wins q) lost + tally (drops q) (concat_rounds rounds)
      → sides_with q (concat_rounds rounds ++ lost ++ final ∷ []) + one_if (wins q final)
        ≡ teams
          + tally (wins q) (concat_rounds rounds ++ lost ++ final ∷ [])
          + tally (drops q) (concat_rounds rounds ++ lost ++ final ∷ [])
  sides_of_all rounds lost last_winner last_major final q teams w l f home away x y =
      let all = concat_rounds rounds in
      omega (
        arith,
        x,
        y,
        sides-append q (all ++ lost) (final ∷ []),
        sides-append q all lost,
        tally-append (wins q) (all ++ lost) (final ∷ []),
        tally-append (wins q) all lost,
        tally-append (drops q) (all ++ lost) (final ∷ []),
        tally-append (drops q) all lost,
        drops_nobody q lost l,
        drops_nobody q (final ∷ []) (f, tt),
        ap (λ e. one_if (q e)) home,
        ap (λ e. one_if (q e)) away,
      )

  -- The end of `play_double`, for the rounds of the winners and the last match of these
  finished :
      (k : ℕ) (teams : List Uuid) (rounds : List (List GeneratedMatch)) (m : GeneratedMatch)
      → length teams ≡ 2 ^ suc (suc k)
      → winners_rounds d (suc (suc k)) 1 (map team_entrant teams) ≡ ok rounds
      → WonBy d (suc (suc k)) (map team_entrant teams) rounds m
      → (b : DoubleBracket) × (play_double d seed size (suc (suc k)) teams ≡ ok b) × Whole teams b
  unfolding play_double losers_bracket last_loser new_match
  finished k teams [] m h e w = absurd (omega (arith, w.halving))
  finished k teams (first ∷ []) m h e w = absurd (omega (arith, w.halving.1))
  finished k teams (first ∷ second ∷ more) m h e w =
      let (lost, n, f, l) =
        losers_rounds-LostBy d k (suc (suc k) + 1) [] (entries_from loser first) second more
          w.halving.1 w.in_lane.1 (length-entries_from loser first ∙ w.halving.0) in
      let rounds = first ∷ second ∷ more in
      let last =
        new_match d grand_final lost.losers_round_number finals (from_match m.code winner)
          (from_match n.code winner) in
      let matches = concat_rounds rounds ++ lost.matches ++ last ∷ [] in
      (
        record {
          bracket = record {
            seed = seed;
            bracket_size = size;
            round_count = lost.losers_round_number + 1;
            matches = matches;
            advancement_links = links_of_matches matches;
          };
          reset_code = reset;
          reset_date =
              schedule_date d.start_date (lost.losers_round_number + 1) 1 d.round_interval_days
                d.match_interval_hours;
        },
        rw (e, f, l.last, w.last) refl,
        record {
          count_matches = omega (
            arith,
            w.count,
            l.count,
            h,
            length-append (concat_rounds rounds ++ lost.matches) (last ∷ []),
            length-append (concat_rounds rounds) lost.matches,
          );
          links = refl;
          sides = λ q.
              sides_of_all rounds lost.matches m n last q (entrants_with q (map team_entrant teams))
                w.in_lane l.in_lane refl refl refl (w.sides q)
                (omega (
                  arith,
                  l.sides q,
                  entrants-losers q first w.in_lane.0,
                  tally-append (drops q) first (concat_rounds (second ∷ more)),
                ));
        },
      )

  pub play_double-Whole :
      (k : ℕ) (teams : List Uuid)
      → length teams ≡ 2 ^ suc (suc k)
      → (b : DoubleBracket) × (play_double d seed size (suc (suc k)) teams ≡ ok b) × Whole teams b
  play_double-Whole k teams h =
      let (rounds, m, e, w) =
        winners_rounds-WonBy d (suc k) 1 (map team_entrant teams) (length-entrants teams ∙ h) in
      finished k teams rounds m h e w
    where
      length-entrants : (ts : List Uuid) → length (map team_entrant ts) ≡ length ts
      length-entrants [] = refl
      length-entrants (t ∷ ts) = ap suc (length-entrants ts)
