-- ===== src/Schedule/DoubleElimination/Losers.antt =====
-- The rounds of the losers of a double elimination: each major round takes in the losers of one
-- round of the winners.
use bracket_craft.Prelude.{
  ℕ, zero, suc, ◌+◌, ◌^◌, ◌≡◌, refl, ap, Bool, true, false, List, [], ◌∷◌, ◌++◌, arith, All,
  All-append, length, length-append,
}
use bracket_craft.Prelude.Errors.{ok}
use bracket_craft.Schedule.Brackets.{
  losers_match, winner, loser, losers, BracketEntrant, GeneratedMatch, from_match,
}
use bracket_craft.Schedule.RoundRobin.{Dates}
use bracket_craft.Schedule.RoundRobin.Circle.{one_if}
use bracket_craft.Schedule.RoundRobin.Meetings.{tally, tally-append}
use bracket_craft.Schedule.SingleElimination.Sizes.{pow_suc}
use bracket_craft.Schedule.SingleElimination.Entrants.{sides_with, sides-append}
use bracket_craft.Schedule.DoubleElimination.{
  entries_from, concat_rounds, new_match, major_round, LosersBracket, losers_rounds,
}
use bracket_craft.Schedule.DoubleElimination.Rounds.{
  entrants_with, is_winners, wins, drops, entrants-winners, length-entries_from, pair_round-Paired,
  Halving, one_match,
}

abbrev NotWinners : GeneratedMatch → Type 0
NotWinners m = is_winners m.lane ≡ false

module _ (d : Dates) where
  -- The sides of a major round are the winners of the minor round and the losers of the round of
  -- the winners.
  record Merged (minor losing now : List GeneratedMatch) : Type 0 where
    same : length now ≡ length minor
    sides :
        (q : BracketEntrant → Bool)
        → sides_with q now ≡ tally (wins q) minor + tally (drops q) losing
    in_lane : All (λ m. is_winners m.lane ≡ false) now

  merged_sides :
      (q : BracketEntrant → Bool) (x m : GeneratedMatch) (minor losing rest : List GeneratedMatch)
      → is_winners m.lane ≡ true
      → sides_with q rest ≡ tally (wins q) minor + tally (drops q) losing
      → one_if (wins q x) + one_if (q (from_match m.code loser)) + sides_with q rest
        ≡ tally (wins q) (x ∷ minor) + tally (drops q) (m ∷ losing)
  merged_sides q x m minor losing rest lane h = rw lane (omega (arith, h))

  major_round-Merged :
      (round n : ℕ) (minor losing : List GeneratedMatch)
      → length minor ≡ length losing
      → All (λ m. is_winners m.lane ≡ true) losing
      → (now : List GeneratedMatch) × (major_round d round n minor losing ≡ ok now)
        × Merged minor losing now
  unfolding major_round new_match
  major_round-Merged round n [] [] h a =
      ([], refl, record { same = refl; sides = λ q. refl; in_lane = tt })
  major_round-Merged round n [] (m ∷ losing) h a = absurd (omega (arith, h))
  major_round-Merged round n (x ∷ minor) [] h a = absurd (omega (arith, h))
  major_round-Merged round n (x ∷ minor) (m ∷ losing) h a =
      let (rest, e, r) = major_round-Merged round (n + 1) minor losing (omega (arith, h)) a.1 in
      (
        new_match d (losers_match round (n + 1)) round losers (from_match x.code winner)
              (from_match m.code loser)
            ∷ rest,
        rw e refl,
        record {
          same = omega (arith, r.same);
          sides = λ q. merged_sides q x m minor losing rest a.0 (r.sides q);
          in_lane = (refl, r.in_lane);
        },
      )

  -- The rounds of the losers, from these entries to the match that ends them
  pub record LostBy (k : ℕ) (entries : List BracketEntrant) (rounds : List (List GeneratedMatch))
      (b : LosersBracket) (m : GeneratedMatch) : Type 0 where
    pub last : b.previous_major ≡ m ∷ []
    pub sides :
        (q : BracketEntrant → Bool)
        → sides_with q b.matches + one_if (wins q m)
          ≡ entrants_with q entries
            + tally (wins q) b.matches
            + tally (drops q) (concat_rounds rounds)
    pub in_lane : All (λ x. is_winners x.lane ≡ false) b.matches
    pub count : length b.matches + 2 ≡ 2 ^ suc k

  went_on_to :
      (entries : List BracketEntrant) (minor major w rest later : List GeneratedMatch)
      (m : GeneratedMatch) (q : BracketEntrant → Bool)
      → sides_with q minor ≡ entrants_with q entries
      → sides_with q major ≡ tally (wins q) minor + tally (drops q) w
      → sides_with q rest + one_if (wins q m)
        ≡ entrants_with q (entries_from winner major) + tally (wins q) rest + tally (drops q) later
      → sides_with q (minor ++ major ++ rest) + one_if (wins q m)
        ≡ entrants_with q entries
          + tally (wins q) (minor ++ major ++ rest)
          + tally (drops q) (w ++ later)
  went_on_to entries minor major w rest later m q x y z = omega (
    arith,
    x,
    y,
    z,
    sides-append q (minor ++ major) rest,
    sides-append q minor major,
    tally-append (wins q) (minor ++ major) rest,
    tally-append (wins q) minor major,
    tally-append (drops q) w later,
    entrants-winners q major,
  )

  ended :
      (entries : List BracketEntrant) (minor major w : List GeneratedMatch) (m : GeneratedMatch)
      (q : BracketEntrant → Bool)
      → sides_with q minor ≡ entrants_with q entries
      → sides_with q major ≡ tally (wins q) minor + tally (drops q) w
      → tally (wins q) major ≡ tally (wins q) (m ∷ [])
      → sides_with q (minor ++ major ++ []) + one_if (wins q m)
        ≡ entrants_with q entries
          + tally (wins q) (minor ++ major ++ [])
          + tally (drops q) (w ++ [])
  ended entries minor major w m q x y z =
      went_on_to entries minor major w [] [] m q x y (omega (arith, entrants-winners q major, z))

  pub losers_rounds-LostBy :
      (k round : ℕ) (before : List GeneratedMatch) (entries : List BracketEntrant)
      (w : List GeneratedMatch) (ws : List (List GeneratedMatch))
      → Halving d (suc k) (w ∷ ws)
      → All (λ r. All (λ x. is_winners x.lane ≡ true) r) (w ∷ ws)
      → length entries ≡ 2 ^ suc k
      → (b : LosersBracket) × (m : GeneratedMatch) × (losers_rounds d round before entries (w ∷ ws)
          ≡ ok b)
        × LostBy (suc k) entries (w ∷ ws) b m
  unfolding losers_rounds
  losers_rounds-LostBy zero round before entries w [] halving a h =
      let (minor, e, p) =
        pair_round-Paired d losers_match losers round 0 entries (omega (arith, h)) in
      let (major, f, r) =
        major_round-Merged (round + 1) 0 minor w (omega (arith, p.half, h, halving.0)) a.0 in
      let (m, only) = one_match d major (omega (arith, r.same, p.half, h)) in
      (
        record {
          matches = minor ++ major ++ [];
          previous_major = major;
          losers_round_number = round + 2;
        },
        m,
        rw (e, f) refl,
        record {
          last = only;
          sides = λ q.
              ended entries minor major w m q (p.sides q) (r.sides q) (ap (tally (wins q)) only);
          in_lane =
              All-append NotWinners (minor ++ major) []
                (All-append NotWinners minor major p.in_lane r.in_lane) tt;
          count = omega (
            arith,
            p.half,
            h,
            r.same,
            length-append (minor ++ major) [],
            length-append minor major,
          );
        },
      )
  losers_rounds-LostBy zero round before entries w (v ∷ ws) halving a h = absurd halving.1
  losers_rounds-LostBy (suc k) round before entries w [] halving a h =
      absurd (omega (arith, halving.1))
  losers_rounds-LostBy (suc k) round before entries w (v ∷ ws) halving a h =
      let (minor, e, p) =
        pair_round-Paired d losers_match losers round 0 entries
          (omega (arith, h, pow_suc (suc k))) in
      let (major, f, r) =
        major_round-Merged (round + 1) 0 minor w
          (omega (arith, p.half, h, pow_suc (suc k), halving.0)) a.0 in
      let (b, m, g, l) =
        losers_rounds-LostBy k (round + 2) major (entries_from winner major) v ws halving.1 a.1
          (omega (arith, p.half, h, pow_suc (suc k), r.same, length-entries_from winner major)) in
      (
        record {
          matches = minor ++ major ++ b.matches;
          previous_major = b.previous_major;
          losers_round_number = b.losers_round_number;
        },
        m,
        rw (e, f, g) refl,
        record {
          last = l.last;
          sides = λ q.
              went_on_to entries minor major w b.matches (concat_rounds (v ∷ ws)) m q (p.sides q)
                (r.sides q) (l.sides q);
          in_lane =
              All-append NotWinners (minor ++ major) b.matches
                (All-append NotWinners minor major p.in_lane r.in_lane) l.in_lane;
          count = omega (
            arith,
            p.half,
            h,
            pow_suc (suc k),
            r.same,
            l.count,
            length-append (minor ++ major) b.matches,
            length-append minor major,
          );
        },
      )
