-- ===== src/Schedule/Swiss/Rounds.antt =====
-- What `build_swiss_pairings` promises: a round in which each team plays once or has the bye, with
-- no repeated match and no side over its target.
use bracket_craft.Prelude.{
  ℕ, suc, ◌%◌, ◌≡◌, sym, ap, ◌∙◌, subst, ◌⊎◌, inl, inr, true, false, Option, none, some, List, [],
  ◌∷◌, ◌++◌, leb, ◌==◌, if◌then◌else◌, Bool-cases, length, All, elem, Distinct,
}
use bracket_craft.Prelude.Teams.{Uuid, SameTeams}
use bracket_craft.Schedule.Swiss.{
  SwissInput, Counts, is_allowed, has_met, others_than, SearchOutcome, found, exhausted,
  limit_reached, pair_remaining,
}
use bracket_craft.Schedule.Swiss.Sound.{teams_of, IsPairing, others_than-Distinct, taken_out}
use bracket_craft.Schedule.Swiss.Search.{pair_remaining-IsPairing}
use bracket_craft.Schedule.Swiss.Draw.{
  Attempt, paired, unpaired, stopped, greedy, attempt_of, search_byes, fallback_of, greedy_byes,
}
use bracket_craft.Schedule.Swiss.Fallback.{greedy-IsPairing}

abbrev pub bye_list : Option Uuid → List Uuid
bye_list none = []
bye_list (some t) = t ∷ []

-- A round for the teams: the pairs, and the bye if their number is odd
pub record IsRound (i : SwissInput) (h a : Counts) (teams : List Uuid) (pairs : List (Uuid × Uuid))
    (bye : Option Uuid) : Type 0 where
  pub once : SameTeams (bye_list bye ++ teams_of pairs) teams
  pub byes : length (bye_list bye) ≡ length teams % 2
  pub fresh : All (λ p. has_met i p.0 p.1 ≡ false) pairs
  pub allowed : All (λ p. is_allowed i h a p ≡ true) pairs

module _ (i : SwissInput) (teams : List Uuid) (distinct : Distinct teams) where
  pub whole-IsRound :
      (h a : Counts) (pairs : List (Uuid × Uuid))
      → length teams % 2 ≡ 0
      → IsPairing i h a teams pairs
      → IsRound i h a teams pairs none
  whole-IsRound h a pairs even p = record {
    once = p.once;
    byes = sym even;
    fresh = p.fresh;
    allowed = p.allowed;
  }

  bye-IsRound :
      (h a : Counts) (bye : Uuid) (pairs : List (Uuid × Uuid))
      → length teams % 2 ≡ 1
      → elem bye teams ≡ true
      → IsPairing i h a (others_than bye teams) pairs
      → IsRound i h a teams pairs (some bye)
  bye-IsRound h a bye pairs odd e p = record {
    once =
        λ t. ap (λ n. if t == bye then suc n else n) (p.once t) ∙ taken_out bye teams distinct e t;
    byes = sym odd;
    fresh = p.fresh;
    allowed = p.allowed;
  }

  -- What an attempt that succeeded gives
  abbrev pub IsGood : Counts → Counts → Attempt → Type 0
  IsGood h a r =
      (pairs : List (Uuid × Uuid)) (bye : Option Uuid) (m : ℕ)
      → r ≡ paired pairs bye m
      → IsRound i h a teams pairs bye

  attempt_of-paired :
      (bye : Option Uuid) (r : SearchOutcome) (next : ℕ → Attempt) (pairs : List (Uuid × Uuid))
      (b : Option Uuid) (m : ℕ)
      → attempt_of i bye r next ≡ paired pairs b m
      → ((r ≡ found pairs m) × (bye ≡ b)) ⊎ ((k : ℕ) × (next k ≡ paired pairs b m))
  unfolding attempt_of
  attempt_of-paired bye (found ps k) next pairs b m e = inl (cc, cc)
  attempt_of-paired bye (exhausted k) next pairs b m e = inr (k, e)
  attempt_of-paired bye (limit_reached k) next pairs b m e = cc

  pub search_byes-IsGood :
      (byes : List Uuid) (h a : Counts) (n : ℕ)
      → length teams % 2 ≡ 1
      → All (λ t. elem t teams ≡ true) byes
      → IsGood h a (search_byes i teams byes h a n)
  unfolding search_byes
  search_byes-IsGood [] h a n odd c pairs b m e = cc
  search_byes-IsGood (bye ∷ more) h a n odd c pairs b m e =
      elim (attempt_of-paired (some bye)
        (pair_remaining i (length teams) (others_than bye teams) h a n)
        (λ k. search_byes i teams more h a k) pairs b m e) [
          | inl (f, same) ↦ subst (IsRound i h a teams pairs) same (
              bye-IsRound h a bye pairs odd c.0 (
                pair_remaining-IsPairing i (length teams) (others_than bye teams)
                  (others_than-Distinct bye teams distinct) h a n pairs m f))
          | inr (k, later) ↦ search_byes-IsGood more h a k odd c.1 pairs b m later
        ]

  fallback_of-paired :
      (bye : Uuid) (r : Attempt) (next : ℕ → Attempt) (pairs : List (Uuid × Uuid)) (b : Option Uuid)
      (m : ℕ)
      → fallback_of i bye r next ≡ paired pairs b m
      → ((c : Option Uuid) × (r ≡ paired pairs c m) × (some bye ≡ b))
        ⊎ ((k : ℕ) × (next k ≡ paired pairs b m))
  unfolding fallback_of
  fallback_of-paired bye (paired ps c k) next pairs b m e = inl (c, cc, cc)
  fallback_of-paired bye (unpaired k) next pairs b m e = elim (Bool-cases (leb i.total_limit k)) [
    | inl used ↦ absurd (unpaired_not (rw used at e))
    | inr left ↦ inr (k, rw left at e)
  ]
    where
      unpaired_not : unpaired k ≡ paired pairs b m → ⊥
      unpaired_not q = cc
  fallback_of-paired bye (stopped k) next pairs b m e = cc

  pub greedy_byes-IsGood :
      (byes : List Uuid) (h a : Counts) (n : ℕ)
      → length teams % 2 ≡ 1
      → All (λ t. elem t teams ≡ true) byes
      → IsGood h a (greedy_byes i teams byes h a n)
  unfolding greedy_byes
  greedy_byes-IsGood [] h a n odd c pairs b m e = cc
  greedy_byes-IsGood (bye ∷ more) h a n odd c pairs b m e =
      elim (fallback_of-paired bye (greedy i (length teams) (others_than bye teams) h a n)
        (λ k. greedy_byes i teams more h a k) pairs b m e) [
          | inl (x, f, same) ↦ subst (IsRound i h a teams pairs) same (
              bye-IsRound h a bye pairs odd c.0
                (greedy-IsPairing i (length teams) (others_than bye teams)
                  (others_than-Distinct bye teams distinct) h a n pairs x m f).0)
          | inr (k, later) ↦ greedy_byes-IsGood more h a k odd c.1 pairs b m later
        ]
