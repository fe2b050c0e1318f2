-- ===== src/HeadToHead/Order.antt =====
-- Who is ranked: the order of a tied group names each team of the group once.
use bracket_craft.Prelude.{
  ℕ, ◌≡◌, refl, sym, ap, ◌∙◌, ◌⊎◌, inl, inr, Bool, true, false, ◌&&◌, ◌||◌, not, Option, none, some,
  List, [], ◌∷◌, ◌++◌, arith, leb, ◌==◌, ==_iff, Bool-cases, keep, elem, count, Distinct,
}
use bracket_craft.Prelude.Dict.{values, modify, enumerate}
use bracket_craft.Prelude.Sort.{insort, sort_by}
use bracket_craft.Prelude.Errors.{ok}
use bracket_craft.Prelude.Teams.{
  Uuid, SameTeams, count-append, count-sort_by, count-chosen_then_rest,
}
use bracket_craft.HeadToHead.{
  MatchRecord, HeadToHeadStats, PointsUpdate, Scoring, sorted_ids, fallback_loop, fallback, scoring,
  relevant, credit, Table, score_match, score_all, empty_table, mini_table,
  calculate_head_to_head_stats, ranks_before, team_ids, resolve_head_to_head,
}

-- What the loop of the fallback keeps of its result.
abbrev Placed : List Uuid → List Uuid → Type 0
Placed tied result = Distinct result × ((t : ℕ) → elem t result ≡ true → elem t tied ≡ true)

elem-snoc : (t x : ℕ) (xs : List ℕ) → elem t (xs ++ x ∷ []) ≡ (elem t xs || t == x)
elem-snoc t x [] = ground arith
elem-snoc t x (y ∷ ys) = ground (arith, elem-snoc t x ys)

Distinct-snoc : (x : ℕ) (xs : List ℕ) → Distinct xs → elem x xs ≡ false → Distinct (xs ++ x ∷ [])
Distinct-snoc x [] d e = (refl, tt)
Distinct-snoc x (y ∷ ys) d e =
    (ground (arith, elem-snoc y x ys), Distinct-snoc x ys d.1 (ground arith))

Placed-snoc :
    (tied result : List Uuid) (x : Uuid)
    → Placed tied result
    → elem x tied ≡ true
    → elem x result ≡ false
    → Placed tied (result ++ x ∷ [])
Placed-snoc tied result x h e f =
    (Distinct-snoc x result h.0 f, λ t m. sub t (elem-snoc t x result ∙ refl) m)
  where
    sub :
        (t : ℕ)
        → elem t (result ++ x ∷ []) ≡ (elem t result || t == x)
        → elem t (result ++ x ∷ []) ≡ true
        → elem t tied ≡ true
    sub t snoc m = ground (arith, h.1 t, ==_iff t x)

fallback_loop-Placed :
    (tied result order : List Uuid)
    → Placed tied result
    → Placed tied (fallback_loop tied result order)
fallback_loop-Placed tied result [] h = h
fallback_loop-Placed tied result (x ∷ rest) h =
    elim (Bool-cases (elem x tied && not (elem x result))) [
      | inl e ↦ rw e (
          fallback_loop-Placed tied (result ++ x ∷ []) rest
            (Placed-snoc tied result x h (ground arith) (ground arith)))
      | inr e ↦ rw e (fallback_loop-Placed tied result rest h)
    ]

pub fallback-SameTeams :
    (tied : List Uuid) (order : Option (List Uuid))
    → Distinct tied
    → SameTeams (fallback tied order) tied
unfolding fallback
fallback-SameTeams tied order d t =
    let ids : List Uuid = elim order [ none ↦ [] | some ids ↦ ids ] in
    let result = fallback_loop tied [] ids in
    let placed = fallback_loop-Placed tied [] ids (tt, λ _ e. cc) in
    let rest = keep (λ x. not (elem x result)) tied in
    count-append t result (sorted_ids rest)
    ∙ (rw (count-sort_by leb t rest) (sym (count-append t result rest))
        ∙ count-chosen_then_rest t result tied placed.0 d placed.1)

team_ids-modify :
    (k p g c : ℕ) (table : Table)
    → team_ids (values (modify k (credit p g c) table)) ≡ team_ids (values table)
unfolding credit
team_ids-modify k p g c [] = refl
team_ids-modify k p g c ((j, s) ∷ table) = ground (arith, team_ids-modify k p g c table)

team_ids-score_all :
    (s : Scoring) (ms : List MatchRecord) (table : Table)
    → team_ids (values (score_all s ms table)) ≡ team_ids (values table)
unfolding score_all score_match
team_ids-score_all s [] table = refl
team_ids-score_all s (m ∷ ms) table =
    team_ids-score_all s ms (score_match s m table)
    ∙ (team_ids-modify m.away_team_id _ _ _ _ ∙ team_ids-modify m.home_team_id _ _ _ table)

team_ids-empty_table : (tied : List Uuid) → team_ids (values (empty_table tied)) ≡ tied
unfolding empty_table
team_ids-empty_table [] = refl
team_ids-empty_table (t ∷ ts) = ap (◌∷◌ t) (team_ids-empty_table ts)

count-team_ids-insort :
    (le : HeadToHeadStats → HeadToHeadStats → Bool) (t : ℕ) (x : HeadToHeadStats)
    (xs : List HeadToHeadStats)
    → count t (team_ids (insort le x xs)) ≡ count t (x.team_id ∷ team_ids xs)
unfolding insort
count-team_ids-insort le t x [] = refl
count-team_ids-insort le t x (y ∷ ys) = ground (arith, count-team_ids-insort le t x ys)

count-team_ids-sort_by :
    (le : HeadToHeadStats → HeadToHeadStats → Bool) (t : ℕ) (xs : List HeadToHeadStats)
    → count t (team_ids (sort_by le xs)) ≡ count t (team_ids xs)
unfolding sort_by
count-team_ids-sort_by le t [] = refl
count-team_ids-sort_by le t (x ∷ xs) =
    ground (arith, count-team_ids-insort le t x (sort_by le xs), count-team_ids-sort_by le t xs)

-- The mini-table, where there is one, has a row for each tied team.
pub mini_table-teams :
    (tied : List Uuid) (ms : List MatchRecord) (rounds : ℕ) (p : Option PointsUpdate)
    (table : Table)
    → mini_table tied ms rounds p ≡ some table
    → team_ids (values table) ≡ tied
unfolding mini_table
mini_table-teams tied ms rounds p table h = ground (
  arith,
  team_ids-empty_table tied,
  team_ids-score_all (scoring p) (keep (relevant tied) ms) (empty_table tied),
)

pub calculates :
    (tied : List Uuid) (ms : List MatchRecord) (rounds : ℕ) (p : Option PointsUpdate)
    → ((rounds ≡ 1) ⊎ (rounds ≡ 2))
    → calculate_head_to_head_stats tied ms rounds p ≡ ok (mini_table tied ms rounds p)
unfolding calculate_head_to_head_stats
calculates tied ms rounds p h = ground arith

-- What is returned, by whether there is a mini-table.
unfoldable pub ranking_of : List Uuid → Option (List Uuid) → Option Table → List Uuid
ranking_of tied order none = fallback tied order
ranking_of tied order (some table) =
    team_ids (sort_by (ranks_before (enumerate 0 (fallback tied order))) (values table))

pub resolves :
    (tied : List Uuid) (ms : List MatchRecord) (rounds : ℕ) (p : Option PointsUpdate)
    (order : Option (List Uuid))
    → ((rounds ≡ 1) ⊎ (rounds ≡ 2))
    → resolve_head_to_head tied ms rounds p order
      ≡ ok (ranking_of tied order (mini_table tied ms rounds p))
unfolding resolve_head_to_head ranking_of
resolves tied ms rounds p order r = rw (calculates tied ms rounds p r) (ground arith)

ranking_of-SameTeams :
    (tied : List Uuid) (ms : List MatchRecord) (rounds : ℕ) (p : Option PointsUpdate)
    (order : Option (List Uuid)) (stats : Option Table)
    → Distinct tied
    → mini_table tied ms rounds p ≡ stats
    → SameTeams (ranking_of tied order stats) tied
unfolding ranking_of
ranking_of-SameTeams tied ms rounds p order none d h = fallback-SameTeams tied order d
ranking_of-SameTeams tied ms rounds p order (some table) d h = λ t.
    count-team_ids-sort_by _ t (values table)
    ∙ ap (count t) (mini_table-teams tied ms rounds p table h)

-- With one or two rounds per pair the call returns, whether or not the direct matches are
-- complete, and its order names each tied team exactly once and nobody else.
pub resolve_head_to_head-SameTeams :
    (tied : List Uuid) (matches : List MatchRecord) (rounds : ℕ) (p : Option PointsUpdate)
    (order : Option (List Uuid))
    → Distinct tied
    → ((rounds ≡ 1) ⊎ (rounds ≡ 2))
    → (ranking : List Uuid) × (resolve_head_to_head tied matches rounds p order ≡ ok ranking)
      × SameTeams ranking tied
resolve_head_to_head-SameTeams tied matches rounds p order d r = (
  ranking_of tied order (mini_table tied matches rounds p),
  resolves tied matches rounds p order r,
  ranking_of-SameTeams tied matches rounds p order _ d refl,
)
