-- ===== src/Schedule/Swiss/Built.antt =====
-- `build_swiss_pairings` from its arguments to its result.
use bracket_craft.Prelude.{
  ℕ, ◌%◌, ◌≡◌, refl, sym, ap, ◌∙◌, subst, inl, inr, Bool, true, false, not, Option, none, List, [],
  ◌∷◌, arith, ltb, ◌==◌, ==_iff, Bool-cases, length, all, All, elem, count, Distinct,
}
use bracket_craft.Prelude.Int.{ℤ, pos_part}
use bracket_craft.Prelude.Sort.{insort, sort_by, sort_by-All}
use bracket_craft.Prelude.Errors.{Result, ok, ◌>>◌, raise_if, went_on, went_past, ok_injective}
use bracket_craft.Prelude.Teams.{
  Uuid, SameTeams, count-insort, count-sort_by, SameTeams-elem, SameTeams-length,
}
use bracket_craft.Schedule.{
  ScheduleError, negative_seed, too_few_teams, repeated_teams, bad_swiss_round, all_distinct,
  all_distinct→Distinct, validate_team_ids, is_negative, below_one,
}
use bracket_craft.Schedule.Swiss.{
  SwissInput, Counts, score_le, SearchOutcome, found, exhausted, limit_reached, pair_remaining,
}
use bracket_craft.Schedule.Swiss.Sound.{IsPairing}
use bracket_craft.Schedule.Swiss.Search.{pair_remaining-IsPairing}
use bracket_craft.Schedule.Swiss.Draw.{
  SwissPairing, Attempt, paired, unpaired, stopped, attempt_of, bye_le, bye_candidates, search_draw,
  fallback_draw, assemble, assemble_fallback, assemble_search, SwissRequest, input_of,
  build_swiss_pairings,
}
use bracket_craft.Schedule.Swiss.Fallback.{greedy-IsPairing}
use bracket_craft.Schedule.Swiss.Rounds.{
  IsRound, whole-IsRound, IsGood, search_byes-IsGood, greedy_byes-IsGood,
}

pub insort-Distinct :
    (le : ℕ → ℕ → Bool) (x : ℕ) (xs : List ℕ)
    → elem x xs ≡ false
    → Distinct xs
    → Distinct (insort le x xs)
unfolding insort
insort-Distinct le x [] e d = (refl, tt)
insort-Distinct le x (y ∷ ys) e d = elim (Bool-cases (le x y)) [
  | inl h ↦ rw h (e, d)
  | inr h ↦ rw h (
    SameTeams-elem y (insort le x ys) (x ∷ ys) (λ t. count-insort le t x ys)
        ∙ ground (arith, d.0, e, ==_iff x y, ==_iff y x),
    insort-Distinct le x ys (ground arith) d.1,
  )
]

pub sort_by-Distinct : (le : ℕ → ℕ → Bool) (xs : List ℕ) → Distinct xs → Distinct (sort_by le xs)
unfolding sort_by
sort_by-Distinct le [] d = tt
sort_by-Distinct le (x ∷ xs) d =
    insort-Distinct le x (sort_by le xs)
      (SameTeams-elem x (sort_by le xs) xs (λ t. count-sort_by le t xs) ∙ d.0)
      (sort_by-Distinct le xs d.1)

pub members :
    (all xs : List Uuid)
    → ((t : Uuid) → elem t xs ≡ true → elem t all ≡ true)
    → All (λ t. elem t all ≡ true) xs
members all [] f = tt
members all (x ∷ xs) f = (f x (ground arith), members all xs (λ t e. f t (ground arith)))

pub is_odd : (n : ℕ) → (n % 2 == 0) ≡ false → n % 2 ≡ 1
is_odd n h = ground arith

module _ (i : SwissInput) (teams : List Uuid) (distinct : Distinct teams) where
  pub all_candidates : All (λ t. elem t teams ≡ true) (bye_candidates i teams)
  unfolding bye_le
  all_candidates =
      sort_by-All (bye_le i) (λ t. elem t teams ≡ true) teams (members teams teams (λ t e. e))

  whole_search-IsGood :
      (h a : Counts) (r : SearchOutcome)
      → length teams % 2 ≡ 0
      → ((pairs : List (Uuid × Uuid)) (m : ℕ) → r ≡ found pairs m → IsPairing i h a teams pairs)
      → IsGood i teams distinct h a (attempt_of i none r (λ m. unpaired m))
  unfolding attempt_of
  whole_search-IsGood h a (found ps k) even sound pairs bye m e =
      let (same, none_bye, count) = paired_parts e in
      subst (IsRound i h a teams pairs) none_bye (
        subst (λ qs. IsRound i h a teams qs none) same
          (whole-IsRound i teams distinct h a ps even (sound ps k refl)))
    where
      paired_parts :
          {qs : List (Uuid × Uuid)} {b : Option Uuid} {j : ℕ}
          → paired ps none k ≡ paired qs b j
          → (ps ≡ qs) × (none ≡ b) × (k ≡ j)
      paired_parts e = (cc, cc, cc)
  whole_search-IsGood h a (exhausted k) even sound pairs bye m e = cc
  whole_search-IsGood h a (limit_reached k) even sound pairs bye m e = cc

  search_draw-IsGood :
      (h a : Counts) (n : ℕ) → IsGood i teams distinct h a (search_draw i teams h a n)
  unfolding search_draw
  search_draw-IsGood h a n pairs bye m e = elim (Bool-cases (length teams % 2 == 0)) [
    | inl even ↦
        whole_search-IsGood h a (pair_remaining i (length teams) teams h a n)
          ((==_iff (length teams % 2) 0).0 even)
          (λ ps k f. pair_remaining-IsPairing i (length teams) teams distinct h a n ps k f) pairs
          bye m (rw even at e)
    | inr odd ↦
        search_byes-IsGood i teams distinct (bye_candidates i teams) h a n
          (is_odd (length teams) odd) all_candidates pairs bye m (rw odd at e)
  ]

  fallback_draw-IsGood :
      (h a : Counts) (n : ℕ) → IsGood i teams distinct h a (fallback_draw i teams h a n)
  unfolding fallback_draw
  fallback_draw-IsGood h a n pairs bye m e = elim (Bool-cases (length teams % 2 == 0)) [
    | inl even ↦
        let (pairing, no_bye) =
          greedy-IsPairing i (length teams) teams distinct h a n pairs bye m (rw even at e) in
        subst (IsRound i h a teams pairs) (sym no_bye)
          (whole-IsRound i teams distinct h a pairs ((==_iff (length teams % 2) 0).0 even) pairing)
    | inr odd ↦
        greedy_byes-IsGood i teams distinct (bye_candidates i teams) h a n
          (is_odd (length teams) odd) all_candidates pairs bye m (rw odd at e)
  ]

  -- An assembled round
  abbrev Assembled : Counts → Counts → List SwissPairing → Type 0
  Assembled h a result =
      (pairs : List (Uuid × Uuid)) × (bye : Option Uuid) × (result ≡ assemble i pairs bye)
      × IsRound i h a teams pairs bye

  assemble_fallback-Assembled :
      (h a : Counts) (r : Attempt) (result : List SwissPairing)
      → IsGood i teams distinct h a r
      → assemble_fallback i r ≡ ok result
      → Assembled h a result
  unfolding assemble_fallback
  assemble_fallback-Assembled h a (paired pairs bye m) result good e =
      (pairs, bye, sym (ok_injective e), good pairs bye m refl)
  assemble_fallback-Assembled h a (unpaired m) result good e = cc
  assemble_fallback-Assembled h a (stopped m) result good e = cc

  assemble_search-Assembled :
      (h a : Counts) (r : Attempt) (result : List SwissPairing)
      → IsGood i teams distinct h a r
      → assemble_search i teams h a r ≡ ok result
      → Assembled h a result
  unfolding assemble_search
  assemble_search-Assembled h a (paired pairs bye m) result good e =
      (pairs, bye, sym (ok_injective e), good pairs bye m refl)
  assemble_search-Assembled h a (unpaired m) result good e = cc
  assemble_search-Assembled h a (stopped m) result good e =
      assemble_fallback-Assembled h a (fallback_draw i teams h a m) result
        (fallback_draw-IsGood h a m) e

-- The round of these teams that a result stands for
pub record IsSwissRound (i : SwissInput) (h a : Counts) (teams : List Uuid)
    (result : List SwissPairing) : Type 0 where
  pub pairs : List (Uuid × Uuid)
  pub bye : Option Uuid
  pub assembled : result ≡ assemble i pairs bye
  pub is_round : IsRound i h a teams pairs bye

pub validated :
    (teams : List Uuid) {u : Unit {0}} → validate_team_ids teams 2 ≡ ok u → Distinct teams
unfolding validate_team_ids
validated teams h =
    let long = went_past (ltb (length teams) 2) too_few_teams _ h in
    let distinct : not (all_distinct teams) ≡ false = not_raised (all_distinct teams) long.1 in
    all_distinct→Distinct teams (ground (arith, distinct))
  where
    not_raised :
        (b : Bool) {u : Unit {0}}
        → ◌≡◌ {A = Result ScheduleError (Unit {0})} (raise_if (not b) repeated_teams) (ok u)
        → not b ≡ false
    not_raised true h = refl
    not_raised false h = cc

-- A Swiss draw that returns, by the search or by the fallback, gives a round of its teams: each team
-- plays exactly one match or has the bye, which there is when their number is odd and only then; no
-- match is between two teams that have met before; and no team is at home, or away, that had reached
-- the target for that side.
pub build_swiss_pairings-IsSwissRound :
    (draws : ℕ → ℕ → ℕ) (teams : List Uuid) (seed round_number : ℤ) (r : SwissRequest)
    {result : List SwissPairing}
    → build_swiss_pairings draws teams seed round_number r ≡ ok result
    → IsSwissRound
        (input_of (draws (pos_part seed)) teams r)
        r.home_counts
        r.away_counts
        teams
        result
unfolding build_swiss_pairings
build_swiss_pairings-IsSwissRound draws teams seed round_number r {result} e =
    let (u, valid, e1) = went_on (validate_team_ids teams 2) (λ _. drawn_if_valid) e in
    let e2 = went_past (is_negative seed) negative_seed _ e1 in
    let e3 = went_past (below_one round_number) bad_swiss_round searched e2.1 in
    let distinct = sort_by-Distinct (score_le i) teams (validated teams valid) in
    let (pairs, bye, assembled, good) =
      assemble_search-Assembled i ordered distinct r.home_counts r.away_counts
        (search_draw i ordered r.home_counts r.away_counts r.budget.evaluations) result
        (search_draw-IsGood i ordered distinct r.home_counts r.away_counts r.budget.evaluations)
        e3.1 in
    record {
      pairs = pairs;
      bye = bye;
      assembled = assembled;
      is_round = record {
        once = λ t. good.once t ∙ same t;
        byes = good.byes ∙ ap (λ n. n % 2) (SameTeams-length ordered teams same);
        fresh = good.fresh;
        allowed = good.allowed;
      };
    }
  where
    i : SwissInput
    i = input_of (draws (pos_part seed)) teams r

    ordered : List Uuid
    ordered = sort_by (score_le i) teams

    same : SameTeams ordered teams
    same t = count-sort_by (score_le i) t teams

    searched : Result ScheduleError (List SwissPairing)
    searched =
        assemble_search i ordered r.home_counts r.away_counts
          (search_draw i ordered r.home_counts r.away_counts r.budget.evaluations)

    drawn_if_valid : Result ScheduleError (List SwissPairing)
    drawn_if_valid =
        raise_if (is_negative seed) negative_seed
        >> (raise_if (below_one round_number) bad_swiss_round >> searched)
