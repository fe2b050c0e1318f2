-- ===== src/Schedule/SingleElimination/Entrants.antt =====
-- What a round neither loses nor adds: teams that wait for their first match, and matches whose
-- winner has no place yet.
use bracket_craft.Prelude.{
  ℕ, zero, suc, ◌+◌, ◌%◌, ◌^◌, ◌≡◌, refl, Bool, false, Option, none, some, List, [], ◌∷◌, ◌++◌,
  arith, ◌==◌, length,
}
use bracket_craft.Prelude.Teams.{Uuid}
use bracket_craft.Schedule.Brackets.{
  MatchCode, Outcome, winner, Side, home_side, away_side, BracketEntrant, GeneratedMatch,
  AdvancementLinkSpec, side_link, match_code,
}
use bracket_craft.Schedule.RoundRobin.{Dates}
use bracket_craft.Schedule.SingleElimination.{Played, play_match, either, play_entries, play_rounds}
use bracket_craft.Schedule.RoundRobin.Circle.{one_if}
use bracket_craft.Schedule.RoundRobin.Meetings.{tally, tally-append}
use bracket_craft.Schedule.SingleElimination.Sizes.{pow_suc}
use bracket_craft.Schedule.SingleElimination.Rounds.{Packed, Packed-Halves}

abbrev pub is_team : Uuid → BracketEntrant → Bool
is_team t e = elim e.team_id [ none ↦ false | some u ↦ t == u ]

abbrev pub comes_from : (MatchCode → Outcome → Bool) → BracketEntrant → Bool
comes_from p e = elim e.source_match_code [ none ↦ false | some code ↦ p code e.source_outcome ]

abbrev pub entries_with : (BracketEntrant → Bool) → List (Option BracketEntrant) → ℕ
entries_with q [] = 0
entries_with q (none ∷ xs) = entries_with q xs
entries_with q (some e ∷ xs) = one_if (q e) + entries_with q xs

-- The sides of the matches that satisfy `q`.
abbrev pub sides_with : (BracketEntrant → Bool) → List GeneratedMatch → ℕ
sides_with q [] = 0
sides_with q (m ∷ ms) = one_if (q m.home) + one_if (q m.away) + sides_with q ms

abbrev pub link_from : (MatchCode → Outcome → Bool) → AdvancementLinkSpec → Bool
link_from p l = p l.source_match_code l.outcome

abbrev pub won : (MatchCode → Outcome → Bool) → GeneratedMatch → Bool
won p m = p m.code winner

pub sides-append :
    (q : BracketEntrant → Bool) (xs ys : List GeneratedMatch)
    → sides_with q (xs ++ ys) ≡ sides_with q xs + sides_with q ys
sides-append q [] ys = omega arith
sides-append q (x ∷ xs) ys = omega (arith, sides-append q xs ys)

pub side_link-tally :
    (p : MatchCode → Outcome → Bool) (code : MatchCode) (side : Side) (e : BracketEntrant)
    → tally (link_from p) (side_link code side e) ≡ one_if (comes_from p e)
unfolding side_link
side_link-tally p code side e =
    elim e.source_match_code
      as (λ s.
        tally (link_from p) (elim s [
          | none ↦ []
          | some source ↦
              record {
                source_match_code = source;
                target_match_code = code;
                target_side = side;
                outcome = e.source_outcome;
              }
              ∷ []
        ])
        ≡ one_if (elim s [ none ↦ false | some c ↦ p c e.source_outcome ])) [
          | none ↦ refl
          | some source ↦ omega arith
        ]

module _ (d : Dates) (rounds : ℕ) where
  teams-play_entries :
      (t : Uuid) (round n : ℕ) (xs : List (Option BracketEntrant))
      → length xs % 2 ≡ 0
      → sides_with (is_team t) (play_entries d rounds round n xs).matches
          + entries_with (is_team t) (play_entries d rounds round n xs).next_entries
        ≡ entries_with (is_team t) xs
  unfolding play_entries play_match either
  teams-play_entries t round n [] h = refl
  teams-play_entries t round n (x ∷ []) h = absurd (omega arith)
  teams-play_entries t round n (some e ∷ some f ∷ xs) h =
      omega (arith, teams-play_entries t round (n + 1) xs (omega arith))
  teams-play_entries t round n (some e ∷ none ∷ xs) h =
      omega (arith, teams-play_entries t round n xs (omega arith))
  teams-play_entries t round n (none ∷ some f ∷ xs) h =
      omega (arith, teams-play_entries t round n xs (omega arith))
  teams-play_entries t round n (none ∷ none ∷ xs) h =
      omega (arith, teams-play_entries t round n xs (omega arith))

  links-play_match :
      (p : MatchCode → Outcome → Bool) (round n : ℕ) (home away : BracketEntrant) (rest : Played)
      → (tally (link_from p) (play_match d rounds round n home away rest).links
          ≡ one_if (comes_from p home)
            + (one_if (comes_from p away) + tally (link_from p) rest.links))
        × (entries_with (comes_from p) (play_match d rounds round n home away rest).next_entries
            ≡ one_if (p (match_code rounds round n) winner)
              + entries_with (comes_from p) rest.next_entries)
        × (tally (won p) (play_match d rounds round n home away rest).matches
            ≡ one_if (p (match_code rounds round n) winner) + tally (won p) rest.matches)
  unfolding play_match
  links-play_match p round n home away rest =
      let code = match_code rounds round n in
      (
        rw
            (
              tally-append (link_from p)
                  (side_link code home_side home ++ side_link code away_side away) rest.links,
              tally-append (link_from p) (side_link code home_side home)
                  (side_link code away_side away),
              side_link-tally p code home_side home,
              side_link-tally p code away_side away,
            )
            (omega arith),
        refl,
        refl,
      )

  links-play_entries :
      (p : MatchCode → Outcome → Bool) (round n : ℕ) (xs : List (Option BracketEntrant))
      → length xs % 2 ≡ 0
      → tally (link_from p) (play_entries d rounds round n xs).links
          + entries_with (comes_from p) (play_entries d rounds round n xs).next_entries
        ≡ entries_with (comes_from p) xs + tally (won p) (play_entries d rounds round n xs).matches
  unfolding play_entries either
  links-play_entries p round n [] h = refl
  links-play_entries p round n (x ∷ []) h = absurd (omega arith)
  links-play_entries p round n (some e ∷ some f ∷ xs) h =
      let rest = play_entries d rounds round (n + 1) xs in
      let (links, next, played) = links-play_match p round (n + 1) e f rest in
      omega (arith, links, next, played, links-play_entries p round (n + 1) xs (omega arith))
  links-play_entries p round n (some e ∷ none ∷ xs) h =
      omega (arith, links-play_entries p round n xs (omega arith))
  links-play_entries p round n (none ∷ some f ∷ xs) h =
      omega (arith, links-play_entries p round n xs (omega arith))
  links-play_entries p round n (none ∷ none ∷ xs) h =
      omega (arith, links-play_entries p round n xs (omega arith))

  pub teams-play_rounds :
      (t : Uuid) (k round : ℕ) (xs : List (Option BracketEntrant))
      → Packed xs
      → length xs ≡ 2 ^ k
      → sides_with (is_team t) (play_rounds d rounds k round xs).matches
          + entries_with (is_team t) (play_rounds d rounds k round xs).next_entries
        ≡ entries_with (is_team t) xs
  unfolding play_rounds
  teams-play_rounds t zero round xs p l = omega arith
  teams-play_rounds t (suc k) round xs p l =
      let even : length xs % 2 ≡ 0 = omega (arith, l, pow_suc k) in
      let halves = Packed-Halves d rounds round 0 xs p even in
      let now = play_entries d rounds round 0 xs in
      omega (
        arith,
        teams-play_entries t round 0 xs even,
        teams-play_rounds t k (round + 1) now.next_entries halves.packed
            (omega (arith, l, pow_suc k, halves.places_left)),
        sides-append (is_team t) now.matches
            (play_rounds d rounds k (round + 1) now.next_entries).matches,
      )

  pub links-play_rounds :
      (p : MatchCode → Outcome → Bool) (k round : ℕ) (xs : List (Option BracketEntrant))
      → Packed xs
      → length xs ≡ 2 ^ k
      → tally (link_from p) (play_rounds d rounds k round xs).links
          + entries_with (comes_from p) (play_rounds d rounds k round xs).next_entries
        ≡ entries_with (comes_from p) xs + tally (won p) (play_rounds d rounds k round xs).matches
  unfolding play_rounds
  links-play_rounds p zero round xs pk l = omega arith
  links-play_rounds p (suc k) round xs pk l =
      let even : length xs % 2 ≡ 0 = omega (arith, l, pow_suc k) in
      let halves = Packed-Halves d rounds round 0 xs pk even in
      let now = play_entries d rounds round 0 xs in
      let rest = play_rounds d rounds k (round + 1) now.next_entries in
      omega (
        arith,
        links-play_entries p round 0 xs even,
        links-play_rounds p k (round + 1) now.next_entries halves.packed
            (omega (arith, l, pow_suc k, halves.places_left)),
        tally-append (link_from p) now.links rest.links,
        tally-append (won p) now.matches rest.matches,
      )
