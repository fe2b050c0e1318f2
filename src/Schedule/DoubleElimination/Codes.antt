-- ===== src/Schedule/DoubleElimination/Codes.antt =====
-- How often a code stands among the matches of a double elimination.
use bracket_craft.Prelude.{
  ℕ, zero, suc, ◌+◌, ◌≤◌, ◌≡◌, refl, subst, Bool, List, [], ◌∷◌, ◌++◌, map, arith, ◌&&◌, leb, ◌==◌,
}
use bracket_craft.Prelude.Int.{ℤ}
use bracket_craft.Prelude.Errors.{ok, went_on, ok_injective}
use bracket_craft.Prelude.Teams.{Uuid}
use bracket_craft.Schedule.Brackets.{
  MatchCode, final, semifinal, quarterfinal, round_of, winners_match, losers_match, grand_final,
  reset, winner, loser, Lane, winners, losers, finals, BracketEntrant, GeneratedMatch, from_match,
  team_entrant,
}
use bracket_craft.Schedule.RoundRobin.{Dates}
use bracket_craft.Schedule.RoundRobin.Circle.{one_if}
use bracket_craft.Schedule.RoundRobin.Meetings.{tally, tally-append}
use bracket_craft.Schedule.DoubleElimination.{
  DoubleBracket, entries_from, concat_rounds, new_match, pair_round, major_round, LosersBracket,
  winners_rounds, losers_rounds, losers_bracket, last_match, last_loser, play_double,
}

-- Numbers that tell the codes apart: the letter, the round, and the match in the round
abbrev pub code_key : MatchCode → ℕ × ℕ × ℕ
code_key final = (0, 0, 0)
code_key (semifinal n) = (4, 0, n)
code_key (quarterfinal n) = (5, 0, n)
code_key (round_of teams n) = (6, teams, n)
code_key (winners_match r n) = (1, r, n)
code_key (losers_match r n) = (2, r, n)
code_key grand_final = (3, 0, 0)
code_key reset = (7, 0, 0)

abbrev pub same_code : MatchCode → MatchCode → Bool
same_code c e =
    (code_key c).0 == (code_key e).0
    && ((code_key c).1 == (code_key e).1 && (code_key c).2 == (code_key e).2)

module _ (d : Dates) (c : MatchCode) where
  -- How many of these matches have the code
  abbrev coded : List GeneratedMatch → ℕ
  coded ms = tally (λ m. same_code c m.code) ms

  -- Whether the code is one of a round, after `n` matches
  abbrev in_round : ℕ → ℕ → ℕ → Bool
  in_round kind round n =
      (code_key c).0 == kind && ((code_key c).1 == round && leb (n + 1) (code_key c).2)

  one_more :
      (kind round n : ℕ) (m : GeneratedMatch) (rest : List GeneratedMatch)
      → code_key m.code ≡ (kind, round, n + 1)
      → coded rest ≤ one_if (in_round kind round (n + 1))
      → coded (m ∷ rest) ≤ one_if (in_round kind round n)
  one_more kind round n m rest k h = rw k (ground (arith, h))

  pair_round-coded :
      (kind : ℕ) (code : ℕ → ℕ → MatchCode)
      → ((r i : ℕ) → code_key (code r i) ≡ (kind, r, i))
      → (lane : Lane) (round n : ℕ) (entries : List BracketEntrant) {now : List GeneratedMatch}
      → pair_round d code lane round n entries ≡ ok now
      → coded now ≤ one_if (in_round kind round n)
  unfolding pair_round new_match
  pair_round-coded kind code keys lane round n [] e =
      subst (λ now. coded now ≤ one_if (in_round kind round n)) (ok_injective e) (omega arith)
  pair_round-coded kind code keys lane round n (x ∷ []) e = cc
  pair_round-coded kind code keys lane round n (home ∷ away ∷ entries) e =
      let (rest, f, g) = went_on (pair_round d code lane round (n + 1) entries) _ e in
      subst (λ now. coded now ≤ one_if (in_round kind round n)) (ok_injective g)
        (one_more kind round n (new_match d (code round (n + 1)) round lane home away) rest
          (keys round (n + 1)) (pair_round-coded kind code keys lane round (n + 1) entries f))

  major_round-coded :
      (round n : ℕ) (minor losing : List GeneratedMatch) {now : List GeneratedMatch}
      → major_round d round n minor losing ≡ ok now
      → coded now ≤ one_if (in_round 2 round n)
  unfolding major_round new_match
  major_round-coded round n [] losing e =
      subst (λ now. coded now ≤ one_if (in_round 2 round n)) (ok_injective e) (omega arith)
  major_round-coded round n (x ∷ minor) [] e = cc
  major_round-coded round n (x ∷ minor) (m ∷ losing) e =
      let (rest, f, g) = went_on (major_round d round (n + 1) minor losing) _ e in
      subst (λ now. coded now ≤ one_if (in_round 2 round n)) (ok_injective g)
        (one_more 2 round n
          (new_match d (losers_match round (n + 1)) round losers (from_match x.code winner)
            (from_match m.code loser))
          rest refl (major_round-coded round (n + 1) minor losing f))

  -- Whether the code is one of the rounds from this one on
  abbrev in_rounds : ℕ → ℕ → Bool
  in_rounds kind round = (code_key c).0 == kind && leb round (code_key c).1

  winners_rounds-coded :
      (k round : ℕ) (entries : List BracketEntrant) {rounds : List (List GeneratedMatch)}
      → winners_rounds d k round entries ≡ ok rounds
      → coded (concat_rounds rounds) ≤ one_if (in_rounds 1 round)
  unfolding winners_rounds
  winners_rounds-coded zero round entries e =
      subst (λ rs. coded (concat_rounds rs) ≤ one_if (in_rounds 1 round)) (ok_injective e)
        (omega arith)
  winners_rounds-coded (suc k) round entries e =
      let (now, f, g) = went_on (pair_round d winners_match winners round 0 entries) _ e in
      let (rest, h, i) = went_on (winners_rounds d k (round + 1) (entries_from winner now)) _ g in
      subst (λ rs. coded (concat_rounds rs) ≤ one_if (in_rounds 1 round)) (ok_injective i)
        (ground (
          arith,
          pair_round-coded 1 winners_match (λ r j. refl) winners round 0 entries f,
          winners_rounds-coded k (round + 1) (entries_from winner now) h,
          tally-append (λ m. same_code c m.code) now (concat_rounds rest),
        ))

  losers_rounds-coded :
      (round : ℕ) (before : List GeneratedMatch) (entries : List BracketEntrant)
      (ws : List (List GeneratedMatch)) {b : LosersBracket}
      → losers_rounds d round before entries ws ≡ ok b
      → coded b.matches ≤ one_if (in_rounds 2 round)
  unfolding losers_rounds
  losers_rounds-coded round before entries [] e =
      subst (λ b. coded b.matches ≤ one_if (in_rounds 2 round)) (ok_injective e) (omega arith)
  losers_rounds-coded round before entries (w ∷ ws) e =
      let (minor, f, g) = went_on (pair_round d losers_match losers round 0 entries) _ e in
      let (major, h, i) = went_on (major_round d (round + 1) 0 minor w) _ g in
      let (rest, j, k) =
        went_on (losers_rounds d (round + 2) major (entries_from winner major) ws) _ i in
      subst (λ b. coded b.matches ≤ one_if (in_rounds 2 round)) (ok_injective k)
        (ground (
          arith,
          pair_round-coded 2 losers_match (λ r n. refl) losers round 0 entries f,
          major_round-coded (round + 1) 0 minor w h,
          losers_rounds-coded (round + 2) major (entries_from winner major) ws j,
          tally-append (λ m. same_code c m.code) (minor ++ major) rest.matches,
          tally-append (λ m. same_code c m.code) minor major,
        ))

  losers_bracket-coded :
      (round : ℕ) (rounds : List (List GeneratedMatch)) {b : LosersBracket}
      → losers_bracket d round rounds ≡ ok b
      → coded b.matches ≤ one_if ((code_key c).0 == 2)
  unfolding losers_bracket
  losers_bracket-coded round [] e =
      subst (λ b. coded b.matches ≤ one_if ((code_key c).0 == 2)) (ok_injective e) (omega arith)
  losers_bracket-coded round (first ∷ more) e =
      ground (arith, losers_rounds-coded round [] (entries_from loser first) more e)

  pub play_double-coded :
      (seed : ℤ) (size round_count : ℕ) (teams : List Uuid) {b : DoubleBracket}
      → play_double d seed size round_count teams ≡ ok b
      → tally (λ m. same_code c m.code) b.bracket.matches ≤ 1
  unfolding play_double new_match
  play_double-coded seed size round_count teams e =
      let (rounds, f, g) = went_on (winners_rounds d round_count 1 (map team_entrant teams)) _ e in
      let (lost, h, i) = went_on (losers_bracket d (round_count + 1) rounds) _ g in
      let (last_major, j, k) = went_on (last_loser d lost.previous_major) _ i in
      let (last_winner, l, n) = went_on (last_match d rounds) _ k in
      let last =
        new_match d grand_final lost.losers_round_number finals (from_match last_winner.code winner)
          (from_match last_major.code winner) in
      subst (λ b. coded b.bracket.matches ≤ 1) (ok_injective n)
        (ground (
          arith,
          winners_rounds-coded round_count 1 (map team_entrant teams) f,
          losers_bracket-coded (round_count + 1) rounds h,
          tally-append (λ m. same_code c m.code) (concat_rounds rounds ++ lost.matches) (last ∷ []),
          tally-append (λ m. same_code c m.code) (concat_rounds rounds) lost.matches,
        ))
