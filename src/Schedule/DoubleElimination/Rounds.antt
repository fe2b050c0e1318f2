-- ===== src/Schedule/DoubleElimination/Rounds.antt =====
-- The rounds of the winners of a double elimination: how many matches each has, and where the
-- entrants of their sides come from.
use bracket_craft.Prelude.{
  ℕ, zero, suc, ◌+◌, ◌*◌, ◌%◌, ◌^◌, ◌≡◌, refl, ap, Bool, true, false, List, [], ◌∷◌, arith, ◌&&◌,
  All, length, length-append,
}
use bracket_craft.Prelude.Errors.{ok}
use bracket_craft.Schedule.Brackets.{
  MatchCode, winners_match, Outcome, winner, loser, Lane, main, winners, losers, finals,
  BracketEntrant, GeneratedMatch, from_match,
}
use bracket_craft.Schedule.RoundRobin.{Dates}
use bracket_craft.Schedule.RoundRobin.Circle.{one_if}
use bracket_craft.Schedule.RoundRobin.Meetings.{tally, tally-append}
use bracket_craft.Schedule.SingleElimination.Sizes.{pow_suc}
use bracket_craft.Schedule.SingleElimination.Entrants.{sides_with, sides-append}
use bracket_craft.Schedule.DoubleElimination.{
  entries_from, concat_rounds, new_match, pair_round, winners_rounds, last_match,
}

abbrev pub entrants_with : (BracketEntrant → Bool) → List BracketEntrant → ℕ
entrants_with q [] = 0
entrants_with q (e ∷ es) = one_if (q e) + entrants_with q es

abbrev pub is_winners : Lane → Bool
is_winners main = false
is_winners winners = true
is_winners losers = false
is_winners finals = false

-- Whether `q` chooses the entrant that wins a match.
abbrev pub wins : (BracketEntrant → Bool) → GeneratedMatch → Bool
wins q m = q (from_match m.code winner)

-- Whether `q` chooses the entrant that loses a match of the winners.
abbrev pub drops : (BracketEntrant → Bool) → GeneratedMatch → Bool
drops q m = is_winners m.lane && q (from_match m.code loser)

pub entrants-winners :
    (q : BracketEntrant → Bool) (ms : List GeneratedMatch)
    → entrants_with q (entries_from winner ms) ≡ tally (wins q) ms
entrants-winners q [] = refl
entrants-winners q (m ∷ ms) = omega (arith, entrants-winners q ms)

pub entrants-losers :
    (q : BracketEntrant → Bool) (ms : List GeneratedMatch)
    → All (λ m. is_winners m.lane ≡ true) ms
    → entrants_with q (entries_from loser ms) ≡ tally (drops q) ms
entrants-losers q [] a = refl
entrants-losers q (m ∷ ms) a = ground (arith, entrants-losers q ms a.1, a.0)

pub length-entries_from :
    (o : Outcome) (ms : List GeneratedMatch) → length (entries_from o ms) ≡ length ms
length-entries_from o [] = refl
length-entries_from o (m ∷ ms) = ap suc (length-entries_from o ms)

-- No match of the losers or of the finals drops anybody.
pub drops_nobody :
    (q : BracketEntrant → Bool) (ms : List GeneratedMatch)
    → All (λ m. is_winners m.lane ≡ false) ms
    → tally (drops q) ms ≡ 0
drops_nobody q [] a = refl
drops_nobody q (m ∷ ms) a = ground (arith, drops_nobody q ms a.1, a.0)

module _ (d : Dates) where
  -- A round of pairs has half as many matches as entrants, which are its sides.
  pub record Paired (lane : Lane) (entries : List BracketEntrant) (now : List GeneratedMatch)
      : Type 0 where
    pub half : 2 * length now ≡ length entries
    pub sides : (q : BracketEntrant → Bool) → sides_with q now ≡ entrants_with q entries
    pub in_lane : All (λ m. is_winners m.lane ≡ is_winners lane) now

  pub pair_round-Paired :
      (code : ℕ → ℕ → MatchCode) (lane : Lane) (round n : ℕ) (entries : List BracketEntrant)
      → length entries % 2 ≡ 0
      → (now : List GeneratedMatch) × (pair_round d code lane round n entries ≡ ok now)
        × Paired lane entries now
  unfolding pair_round new_match
  pair_round-Paired code lane round n [] h =
      ([], refl, record { half = refl; sides = λ q. refl; in_lane = tt })
  pair_round-Paired code lane round n (x ∷ []) h = absurd (omega (arith, h))
  pair_round-Paired code lane round n (home ∷ away ∷ entries) h =
      let (rest, e, p) = pair_round-Paired code lane round (n + 1) entries (omega arith) in
      (
        new_match d (code round (n + 1)) round lane home away ∷ rest,
        rw e refl,
        record {
          half = omega (arith, p.half);
          sides = λ q. omega (arith, p.sides q);
          in_lane = (refl, p.in_lane);
        },
      )

  -- The rounds halve down to one match.
  abbrev pub Halving : ℕ → List (List GeneratedMatch) → Type 0
  Halving k [] = k ≡ 0
  Halving zero (r ∷ rs) = ⊥
  Halving (suc k) (r ∷ rs) = (length r ≡ 2 ^ k) × Halving k rs

  -- The rounds of the winners, from these entries to the match that ends them
  pub record WonBy (k : ℕ) (entries : List BracketEntrant) (rounds : List (List GeneratedMatch))
      (m : GeneratedMatch) : Type 0 where
    pub halving : Halving k rounds
    pub last : last_match d rounds ≡ ok m
    pub sides :
        (q : BracketEntrant → Bool)
        → sides_with q (concat_rounds rounds) + one_if (wins q m)
          ≡ entrants_with q entries + tally (wins q) (concat_rounds rounds)
    pub in_lane : All (λ r. All (λ x. is_winners x.lane ≡ true) r) rounds
    pub count : suc (length (concat_rounds rounds)) ≡ 2 ^ k

  pub one_match : (ms : List GeneratedMatch) → length ms ≡ 1 → (m : GeneratedMatch) × (ms ≡ m ∷ [])
  one_match [] h = absurd (omega (arith, h))
  one_match (m ∷ []) h = (m, refl)
  one_match (m ∷ n ∷ ms) h = absurd (omega (arith, h))

  pub winners_rounds-WonBy :
      (k round : ℕ) (entries : List BracketEntrant)
      → length entries ≡ 2 ^ suc k
      → (rounds : List (List GeneratedMatch)) × (m : GeneratedMatch) × (winners_rounds d
            (suc k)
            round
            entries
          ≡ ok rounds)
        × WonBy (suc k) entries rounds m
  unfolding winners_rounds last_match
  winners_rounds-WonBy zero round entries h =
      let (now, e, p) =
        pair_round-Paired winners_match winners round 0 entries (omega (arith, h)) in
      let (m, only) = one_match now (omega (arith, p.half, h)) in
      (
        now ∷ [],
        m,
        rw e refl,
        record {
          halving = (omega (arith, p.half, h), refl);
          last = rw only refl;
          sides = λ q. omega (
            arith,
            p.sides q,
            sides-append q now [],
            tally-append (wins q) now [],
            ap (tally (wins q)) only,
          );
          in_lane = (p.in_lane, tt);
          count = omega (arith, p.half, h, length-append now []);
        },
      )
  winners_rounds-WonBy (suc k) round entries h =
      let (now, e, p) =
        pair_round-Paired winners_match winners round 0 entries
          (omega (arith, h, pow_suc (suc k))) in
      let (rest, m, f, w) =
        winners_rounds-WonBy k (round + 1) (entries_from winner now)
          (omega (arith, p.half, h, pow_suc (suc k), length-entries_from winner now)) in
      (
        now ∷ rest,
        m,
        rw (e, f) refl,
        record {
          halving = (omega (arith, p.half, h, pow_suc (suc k)), w.halving);
          last = after_round now rest w.last;
          sides = λ q. omega (
            arith,
            p.sides q,
            w.sides q,
            sides-append q now (concat_rounds rest),
            tally-append (wins q) now (concat_rounds rest),
            entrants-winners q now,
          );
          in_lane = (p.in_lane, w.in_lane);
          count =
              omega (
                arith,
                w.count,
                p.half,
                h,
                pow_suc (suc k),
                length-append now (concat_rounds rest),
              );
        },
      )
    where
      after_round :
          (r : List GeneratedMatch) (rs : List (List GeneratedMatch)) {m : GeneratedMatch}
          → last_match d rs ≡ ok m
          → last_match d (r ∷ rs) ≡ ok m
      after_round r [] l = cc
      after_round r (s ∷ rs) l = l
