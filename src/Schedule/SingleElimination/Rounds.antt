-- ===== src/Schedule/SingleElimination/Rounds.antt =====
-- How many matches a round of a bracket plays, and what it leaves for the next.
use bracket_craft.Prelude.{
  last, ℕ, zero, suc, ◌+◌, ◌/◌, ◌%◌, ◌^◌, ◌<◌, ◌≡◌, refl, ap, subst, true, Option, none, some, List,
  [], ◌∷◌, ◌++◌, arith, ◌==◌, length, length-append,
}
use bracket_craft.Schedule.Brackets.{
  final, winner, BracketEntrant, GeneratedMatch, from_match, match_code, is_final,
}
use bracket_craft.Schedule.RoundRobin.{Dates}
use bracket_craft.Schedule.SingleElimination.{
  Played, play_match, either, play_entries, play_rounds, ends_in_final,
}
use bracket_craft.Schedule.SingleElimination.Sizes.{pow_suc}

-- The entrants of a round.
abbrev pub present : List (Option BracketEntrant) → ℕ
present [] = 0
present (none ∷ entries) = present entries
present (some e ∷ entries) = suc (present entries)

-- The empty places come last.
abbrev pub Packed : List (Option BracketEntrant) → Type 0
Packed [] = Unit
Packed (none ∷ entries) = present entries ≡ 0
Packed (some e ∷ entries) = Packed entries

Packed-empty : (xs : List (Option BracketEntrant)) → present xs ≡ 0 → Packed xs
Packed-empty [] h = tt
Packed-empty (none ∷ xs) h = h
Packed-empty (some e ∷ xs) h = absurd (omega arith)

module _ (d : Dates) (rounds round : ℕ) where
  -- Half of the entries, rounded down, are the matches; half of them, rounded up, go on.
  pub record Halves (n : ℕ) (xs : List (Option BracketEntrant)) : Type 0 where
    pub played : length (play_entries d rounds round n xs).matches ≡ present xs / 2
    pub going_on : present (play_entries d rounds round n xs).next_entries ≡ (present xs + 1) / 2
    pub places_left : length (play_entries d rounds round n xs).next_entries ≡ length xs / 2
    pub packed : Packed (play_entries d rounds round n xs).next_entries

  pub Packed-Halves :
      (n : ℕ) (xs : List (Option BracketEntrant)) → Packed xs → length xs % 2 ≡ 0 → Halves n xs
  unfolding play_entries play_match either
  Packed-Halves n [] p l = record {
    played = omega arith;
    going_on = omega arith;
    places_left = omega arith;
    packed = tt;
  }
  Packed-Halves n (x ∷ []) p l = absurd (omega arith)
  Packed-Halves n (some e ∷ some f ∷ xs) p l =
      let rest = Packed-Halves (n + 1) xs p (omega arith) in
      record {
        played = omega (arith, rest.played);
        going_on = omega (arith, rest.going_on);
        places_left = omega (arith, rest.places_left);
        packed = rest.packed;
      }
  Packed-Halves n (some e ∷ none ∷ xs) p l =
      let rest = Packed-Halves n xs (Packed-empty xs p) (omega arith) in
      record {
        played = omega (arith, rest.played);
        going_on = omega (arith, rest.going_on);
        places_left = omega (arith, rest.places_left);
        packed = rest.packed;
      }
  Packed-Halves n (none ∷ some f ∷ xs) p l = absurd (omega arith)
  Packed-Halves n (none ∷ none ∷ xs) p l =
      let rest = Packed-Halves n xs (Packed-empty xs p) (omega arith) in
      record {
        played = omega (arith, rest.played);
        going_on = omega (arith, rest.going_on);
        places_left = omega (arith, rest.places_left);
        packed = omega (arith, rest.going_on);
      }

-- One entrant is left at the end, and each match has put one out.
pub record Decided (xs : List (Option BracketEntrant)) (end : Played) : Type 0 where
  pub played : suc (length end.matches) ≡ present xs
  pub in_final : ends_in_final end.matches ≡ true
  pub champion : end.next_entries ≡ some (from_match final winner) ∷ []

ends_in_final-append :
    (xs ys : List GeneratedMatch) → ends_in_final ys ≡ true → ends_in_final (xs ++ ys) ≡ true
unfolding ends_in_final
ends_in_final-append [] ys h = h
ends_in_final-append (x ∷ xs) [] h = absurd (ground arith)
ends_in_final-append (x ∷ xs) (y ∷ ys) h = last_final x xs
  where
    last_final :
        (x : GeneratedMatch) (xs : List GeneratedMatch)
        → is_final (last x (xs ++ y ∷ ys)).code ≡ true
    last_final x [] = h
    last_final x (z ∷ zs) = last_final z zs

match_code-last : (rounds n : ℕ) → match_code rounds rounds n ≡ final
unfolding match_code
match_code-last rounds n = let same : (rounds == rounds) ≡ true = ground arith in rw same refl

final_round :
    (d : Dates) (rounds : ℕ) (xs : List (Option BracketEntrant))
    → length xs ≡ 2
    → 1 < present xs
    → Decided xs (play_rounds d rounds 1 rounds xs)
unfolding play_rounds play_entries play_match ends_in_final
final_round d rounds [] l h = absurd (omega arith)
final_round d rounds (x ∷ []) l h = absurd (omega arith)
final_round d rounds (none ∷ none ∷ []) l h = absurd (omega arith)
final_round d rounds (none ∷ none ∷ x ∷ xs) l h = absurd (omega arith)
final_round d rounds (none ∷ some f ∷ []) l h = absurd (omega arith)
final_round d rounds (none ∷ some f ∷ x ∷ xs) l h = absurd (omega arith)
final_round d rounds (some e ∷ none ∷ []) l h = absurd (omega arith)
final_round d rounds (some e ∷ none ∷ x ∷ xs) l h = absurd (omega arith)
final_round d rounds (some e ∷ some f ∷ x ∷ xs) l h = absurd (omega arith)
final_round d rounds (some e ∷ some f ∷ []) l h = record {
  played = refl;
  in_final = ap is_final (match_code-last rounds 1);
  champion = ap (λ c. some (from_match c winner) ∷ []) (match_code-last rounds 1);
}

pub play_rounds-Decided :
    (d : Dates) (rounds k round : ℕ) (xs : List (Option BracketEntrant))
    → round + k ≡ rounds
    → Packed xs
    → length xs ≡ 2 ^ suc k
    → 2 ^ k < present xs
    → Decided xs (play_rounds d rounds (suc k) round xs)
unfolding play_rounds
play_rounds-Decided d rounds zero round xs e p l h =
    let same : rounds ≡ round = omega arith in
    subst (λ r. Decided xs (play_rounds d rounds 1 r xs)) same (final_round d rounds xs l h)
play_rounds-Decided d rounds (suc k) round xs e p l h =
    let halves = Packed-Halves d rounds round 0 xs p (omega (arith, l, pow_suc (suc k))) in
    let now = play_entries d rounds round 0 xs in
    let rest =
      play_rounds-Decided d rounds k (round + 1) now.next_entries (omega arith) halves.packed
        (omega (arith, halves.places_left, pow_suc (suc k)))
        (omega (arith, halves.going_on, pow_suc k)) in
    let end = play_rounds d rounds (suc k) (round + 1) now.next_entries in
    record {
      played = omega (
        arith,
        halves.played,
        halves.going_on,
        rest.played,
        length-append now.matches end.matches,
      );
      in_final = ends_in_final-append now.matches end.matches rest.in_final;
      champion = rest.champion;
    }
