-- ===== src/Schedule/Swiss/Failure.antt =====
-- The exception `no_valid_pairing`, and the rounds that would have been possible.
use bracket_craft.Prelude.{
  ℕ, ◌%◌, ◌≡◌, refl, sym, ap, ◌∙◌, inl, inr, Bool, true, false, not, Option, none, some, List, [],
  ◌∷◌, arith, ltb, ◌==◌, ==_iff, Bool-cases, length, All, length-keep, elem, Distinct,
}
use bracket_craft.Prelude.Int.{ℤ, pos_part}
use bracket_craft.Prelude.Sort.{sort_by}
use bracket_craft.Prelude.Errors.{Result, raise, ◌>>◌, raise_if}
use bracket_craft.Prelude.Teams.{
  Uuid, SameTeams, count-sort_by, Distinct-count, SameTeams-elem, SameTeams-length,
}
use bracket_craft.Schedule.{
  ScheduleError, negative_seed, too_few_teams, repeated_teams, bad_swiss_round, no_valid_pairing,
  all_distinct, all_distinct→Distinct, validate_team_ids, is_negative, below_one,
}
use bracket_craft.Schedule.Swiss.{
  SwissInput, Counts, score_le, others_than, SearchOutcome, found, exhausted, limit_reached,
  pair_remaining,
}
use bracket_craft.Schedule.Swiss.Sound.{
  teams_of, IsPairing, others_than-count, others_than-Distinct,
}
use bracket_craft.Schedule.Swiss.Draw.{
  SwissPairing, Attempt, paired, unpaired, stopped, attempt_of, search_byes, bye_le, bye_candidates,
  search_draw, fallback_draw, assemble_fallback, assemble_search, SwissRequest, input_of,
  build_swiss_pairings,
}
use bracket_craft.Schedule.Swiss.Fallback.{elem-All}
use bracket_craft.Schedule.Swiss.Complete.{sort_by-All_back, Ended}
use bracket_craft.Schedule.Swiss.Conclusive.{pair_remaining_conclusive}
use bracket_craft.Schedule.Swiss.Rounds.{IsRound}
use bracket_craft.Schedule.Swiss.Built.{sort_by-Distinct, is_odd}

-- An attempt that ended without a pairing
abbrev Failed : Attempt → Type 0
Failed r = (m : ℕ) × (r ≡ unpaired m)

attempt_of-Failed :
    (i : SwissInput) (bye : Option Uuid) (r : SearchOutcome) (next : ℕ → Attempt)
    → Failed (attempt_of i bye r next)
    → Ended r × ((k : ℕ) × Failed (next k))
unfolding attempt_of
attempt_of-Failed i bye (found ps k) next (m, e) = cc
attempt_of-Failed i bye (exhausted k) next e = ((k, refl), (k, e))
attempt_of-Failed i bye (limit_reached k) next (m, e) = cc

search_byes-Failed :
    (i : SwissInput) (ordered byes : List Uuid) (h a : Counts) (n : ℕ)
    → Failed (search_byes i ordered byes h a n)
    → All
        (λ b. (k : ℕ) × Ended (pair_remaining i (length ordered) (others_than b ordered) h a k))
        byes
unfolding search_byes
search_byes-Failed i ordered [] h a n e = tt
search_byes-Failed i ordered (bye ∷ more) h a n e =
    let (here, (k, later)) =
      attempt_of-Failed i (some bye)
        (pair_remaining i (length ordered) (others_than bye ordered) h a n)
        (λ m. search_byes i ordered more h a m) e in
    ((n, here), search_byes-Failed i ordered more h a k later)

module _ (i : SwissInput) (teams : List Uuid) (distinct : Distinct teams) (h a : Counts) where
  bye_member :
      (bye : Uuid) (rest : List Uuid) → SameTeams (bye ∷ rest) teams → elem bye teams ≡ true
  bye_member bye rest same = sym (SameTeams-elem bye (bye ∷ rest) teams same) ∙ ground arith

  without_bye :
      (bye : Uuid) (pairs : List (Uuid × Uuid))
      → IsRound i h a teams pairs (some bye)
      → IsPairing i h a (others_than bye teams) pairs
  without_bye bye pairs r = record {
    once = λ t. ground (
      arith,
      r.once t,
      others_than-count t bye teams,
      Distinct-count t teams distinct,
      ==_iff t bye,
      bye_member bye (teams_of pairs) r.once,
    );
    fresh = r.fresh;
    allowed = r.allowed;
  }

  not_odd : (n : ℕ) → n % 2 ≡ 0 → 1 ≡ n % 2 → ⊥
  not_odd n e f = omega (arith, e, f)

  search_draw_conclusive :
      (n : ℕ) (pairs : List (Uuid × Uuid)) (bye : Option Uuid)
      → Failed (search_draw i teams h a n)
      → IsRound i h a teams pairs bye
      → ⊥
  unfolding search_draw bye_le
  search_draw_conclusive n pairs none e r = elim (Bool-cases (length teams % 2 == 0)) [
    | inl even ↦
        pair_remaining_conclusive i (length teams) teams h a n pairs distinct (omega arith)
          (record { once = r.once; fresh = r.fresh; allowed = r.allowed })
          (attempt_of-Failed i none (pair_remaining i (length teams) teams h a n) (λ m. unpaired m)
            (rw even at e)).0
    | inr odd ↦ omega (arith, is_odd (length teams) odd, r.byes)
  ]
  search_draw_conclusive n pairs (some bye) e r = elim (Bool-cases (length teams % 2 == 0)) [
    | inl even ↦ not_odd (length teams) ((==_iff (length teams % 2) 0).0 even) r.byes
    | inr odd ↦
        let ended =
          elem-All
            (λ b. (k : ℕ) × Ended (pair_remaining i (length teams) (others_than b teams) h a k)) bye
            teams
            (sort_by-All_back (bye_le i)
              (λ b. (k : ℕ) × Ended (pair_remaining i (length teams) (others_than b teams) h a k))
              teams (search_byes-Failed i teams (bye_candidates i teams) h a n (rw odd at e)))
            (bye_member bye (teams_of pairs) r.once) in
        pair_remaining_conclusive i (length teams) (others_than bye teams) h a ended.0 pairs
          (others_than-Distinct bye teams distinct) (length-keep (λ t. not (t == bye)) teams)
          (without_bye bye pairs r) ended.1
  ]

  assemble_search-no_valid_pairing :
      (r : Attempt) → assemble_search i teams h a r ≡ raise no_valid_pairing → Failed r
  unfolding assemble_search assemble_fallback
  assemble_search-no_valid_pairing (paired pairs bye m) e = cc
  assemble_search-no_valid_pairing (unpaired m) e = (m, refl)
  assemble_search-no_valid_pairing (stopped m) e =
      absurd (budget_problem (fallback_draw i teams h a m) e)
    where
      budget_problem : (f : Attempt) → assemble_fallback i f ≡ raise no_valid_pairing → ⊥
      budget_problem (paired pairs bye k) q = cc
      budget_problem (unpaired k) q = cc
      budget_problem (stopped k) q = cc

-- Code that raised another exception passed its guard.
raised_after :
    {Y : Type 0} (bad : Bool) (problem other : ScheduleError) (after : Result ScheduleError Y)
    → (problem ≡ other → ⊥)
    → (raise_if bad problem >> after) ≡ raise other
    → (bad ≡ false) × (after ≡ raise other)
raised_after true problem other after different e = absurd (different (same_problem e))
  where
    same_problem :
        {Y : Type 0} {p q : ScheduleError}
        → ◌≡◌ {A = Result ScheduleError Y} (raise p) (raise q)
        → p ≡ q
    same_problem h = cc
raised_after false problem other after different e = (refl, e)

valid_after :
    {Y : Type 0} (teams : List Uuid) (after : Result ScheduleError Y)
    → (validate_team_ids teams 2 >> after) ≡ raise no_valid_pairing
    → Distinct teams × (after ≡ raise no_valid_pairing)
unfolding validate_team_ids
valid_after {Y} teams after e = elim (Bool-cases (ltb (length teams) 2)) [
  | inl short ↦ absurd (short_raises (rw short at e))
  | inr long ↦ elim (Bool-cases (all_distinct teams)) [
    | inl distinct ↦ (all_distinct→Distinct teams distinct, rw (long, distinct) at e)
    | inr repeated ↦ absurd (repeated_raises (rw (long, repeated) at e))
  ]
]
  where
    short_raises :
        ◌≡◌ {A = Result ScheduleError Y} (raise too_few_teams) (raise no_valid_pairing) → ⊥
    short_raises h = cc

    repeated_raises :
        ◌≡◌ {A = Result ScheduleError Y} (raise repeated_teams) (raise no_valid_pairing) → ⊥
    repeated_raises h = cc

-- There is a round for the teams.
abbrev pub RoundExists : SwissInput → Counts → Counts → List Uuid → Type 0
RoundExists i h a teams =
    (pairs : List (Uuid × Uuid)) × (bye : Option Uuid) × IsRound i h a teams pairs bye

-- When a Swiss draw raises that no pairing is valid, which is not the exception for a used budget,
-- there is no round: no pairs, with a bye when the number of the teams is odd, in which each team
-- stands once, no two teams have met before, and each side is below its target. The search, which
-- cuts the branches of teams that have met and of full sides, has overlooked none.
pub build_swiss_pairings_conclusive :
    (draws : ℕ → ℕ → ℕ) (teams : List Uuid) (seed round_number : ℤ) (r : SwissRequest)
    → build_swiss_pairings draws teams seed round_number r ≡ raise no_valid_pairing
    → ¬ RoundExists (input_of (draws (pos_part seed)) teams r) r.home_counts r.away_counts teams
unfolding build_swiss_pairings
build_swiss_pairings_conclusive draws teams seed round_number r e (pairs, bye, round) =
    let (distinct, e1) = valid_after teams _ e in
    let e2 = raised_after (is_negative seed) negative_seed no_valid_pairing _ (λ q. cc) e1 in
    let e3 =
      raised_after (below_one round_number) bad_swiss_round no_valid_pairing searched (λ q. cc)
        e2.1 in
    search_draw_conclusive i ordered (sort_by-Distinct (score_le i) teams distinct) r.home_counts
      r.away_counts r.budget.evaluations pairs bye
      (assemble_search-no_valid_pairing i ordered (sort_by-Distinct (score_le i) teams distinct)
        r.home_counts r.away_counts
        (search_draw i ordered r.home_counts r.away_counts r.budget.evaluations) e3.1)
      (record {
        once = λ t. round.once t ∙ sym (same t);
        byes = round.byes ∙ ap (λ n. n % 2) (sym (SameTeams-length ordered teams same));
        fresh = round.fresh;
        allowed = round.allowed;
      })
  where
    i : SwissInput
    i = input_of (draws (pos_part seed)) teams r

    ordered : List Uuid
    ordered = sort_by (score_le i) teams

    same : SameTeams ordered teams
    same t = count-sort_by (score_le i) t teams

    searched : Result ScheduleError (List SwissPairing)
    searched =
        assemble_search i ordered r.home_counts r.away_counts
          (search_draw i ordered r.home_counts r.away_counts r.budget.evaluations)
