-- ===== src/HeadToHead/Complete.antt =====
-- When there is a mini-table: every pair of the group has met exactly as often as expected.
use bracket_craft.Prelude.{
  ℕ, ◌+◌, ◌≤◌, ◌≡◌, refl, ◌∙◌, ◌≢◌, inl, inr, Bool, true, false, ◌&&◌, ◌||◌, Option, none, some,
  List, [], ◌∷◌, ◌++◌, arith, leb, ◌==◌, if◌then◌else◌, ==_iff, Bool-cases, Option-cases, length,
  keep, elem,
}
use bracket_craft.Prelude.Errors.{ok}
use bracket_craft.Prelude.Teams.{Uuid, count-sort_by, SameTeams-elem}
use bracket_craft.HeadToHead.{
  MatchRecord, PointsUpdate, sorted_ids, relevant, Pair, pair_of, pair_eq, PairCounts, pairs_with,
  initial_counts, bump, count_pairs, Table, all_equal, is_complete, mini_table,
  calculate_head_to_head_stats,
}

abbrev find : Pair → PairCounts → Option ℕ
find p [] = none
find p ((q, n) ∷ c) = if pair_eq p q then some n else find p c

abbrev one_if : Bool → ℕ
one_if true = 1
one_if false = 0

abbrev direct : Pair → List MatchRecord → ℕ
direct p [] = 0
direct p (m ∷ ms) = one_if (pair_eq p (pair_of m.home_team_id m.away_team_id)) + direct p ms

find-bump :
    (p q : Pair) (n : ℕ) (c c' : PairCounts)
    → find p c ≡ some n
    → bump q c ≡ some c'
    → find p c' ≡ some (n + one_if (pair_eq p q))
find-bump p q n [] c' f b = cc
find-bump (p0, p1) (q0, q1) n (((r0, r1), k) ∷ c) c' f b = elim (Option-cases (bump (q0, q1) c)) [
  | inl e ↦ ground arith
  | inr (d, e) ↦ ground (arith, find-bump (p0, p1) (q0, q1) n c d)
]

find-count_pairs :
    (p : Pair) (n : ℕ) (ms : List MatchRecord) (c c' : PairCounts)
    → find p c ≡ some n
    → count_pairs ms c ≡ some c'
    → find p c' ≡ some (n + direct p ms)
unfolding count_pairs
find-count_pairs p n [] c c' f h = ground arith
find-count_pairs p n (m ∷ ms) c c' f h =
    elim (Option-cases (bump (pair_of m.home_team_id m.away_team_id) c)) [
      | inl e ↦ ground arith
      | inr (d, e) ↦ ground (
        arith,
        find-bump p (pair_of m.home_team_id m.away_team_id) n c d f e,
        find-count_pairs p (n + one_if (pair_eq p (pair_of m.home_team_id m.away_team_id))) ms d c',
      )
    ]

find-all_equal :
    (p : Pair) (n r : ℕ) (c : PairCounts) → find p c ≡ some n → all_equal r c ≡ true → n ≡ r
find-all_equal p n r [] f h = cc
find-all_equal p n r ((q, k) ∷ c) f h = ground (arith, find-all_equal p n r c)

abbrev AllZero : PairCounts → Type 0
AllZero [] = Unit
AllZero ((q, n) ∷ c) = (n ≡ 0) × AllZero c

pairs_with-AllZero : (a : Uuid) (bs : List Uuid) → AllZero (pairs_with a bs)
pairs_with-AllZero a [] = tt
pairs_with-AllZero a (b ∷ bs) = (refl, pairs_with-AllZero a bs)

find-pairs_with :
    (a b : Uuid) (bs : List Uuid) → elem b bs ≡ true → find (pair_of a b) (pairs_with a bs) ≡ some 0
find-pairs_with a b [] h = cc
find-pairs_with a b (x ∷ bs) h = elim (Bool-cases (b == x)) [
  | inl e ↦ rw (← (==_iff b x).0 e) (ground arith)
  | inr e ↦ ground (arith, find-pairs_with a b bs)
]

find-append_left : (p : Pair) (c d : PairCounts) → find p c ≡ some 0 → find p (c ++ d) ≡ some 0
find-append_left p [] d h = cc
find-append_left p ((q, n) ∷ c) d h = ground (arith, find-append_left p c d)

find-append_right :
    (p : Pair) (c d : PairCounts) → AllZero c → find p d ≡ some 0 → find p (c ++ d) ≡ some 0
find-append_right p [] d z h = h
find-append_right p ((q, n) ∷ c) d z h = ground (arith, find-append_right p c d z.1 h)

pair_of_comm : (a b : Uuid) → pair_of a b ≡ pair_of b a
pair_of_comm a b = ground arith

-- Every pair of distinct teams of the list is a key, with the count zero.
find-initial_counts :
    (a b : Uuid) (xs : List Uuid)
    → a ≢ b
    → elem a xs ≡ true
    → elem b xs ≡ true
    → find (pair_of a b) (initial_counts xs) ≡ some 0
unfolding initial_counts
find-initial_counts a b [] ne ha hb = cc
find-initial_counts a b (x ∷ xs) ne ha hb = elim (Bool-cases (a == x)) [
  | inl e ↦ rw (← (==_iff a x).0 e) (
      find-append_left (pair_of a b) (pairs_with a xs) (initial_counts xs)
        (find-pairs_with a b xs (ground arith)))
  | inr e ↦ elim (Bool-cases (b == x)) [
    | inl f ↦
        rw (pair_of_comm a b, ← (==_iff b x).0 f)
          (find-append_left (pair_of b a) (pairs_with b xs) (initial_counts xs)
            (find-pairs_with b a xs (ground arith)))
    | inr f ↦
        find-append_right (pair_of a b) (pairs_with x xs) (initial_counts xs)
          (pairs_with-AllZero x xs) (find-initial_counts a b xs ne (ground arith) (ground arith))
  ]
]

-- Two matches of the same two teams, whichever is at home.
abbrev pub between : Uuid → Uuid → Uuid → Uuid → Bool
between a b home away = home == a && away == b || home == b && away == a

-- The finished matches between two teams.
abbrev pub meetings : Uuid → Uuid → List MatchRecord → ℕ
meetings a b [] = 0
meetings a b (m ∷ ms) =
    one_if (m.is_finished && between a b m.home_team_id m.away_team_id) + meetings a b ms

pair_eq-between : (a b h w : Uuid) → pair_eq (pair_of a b) (pair_of h w) ≡ between a b h w
pair_eq-between a b h w = ground arith

between-tied :
    (a b h w : Uuid) (tied : List Uuid)
    → elem a tied ≡ true
    → elem b tied ≡ true
    → between a b h w ≡ true
    → (elem h tied && elem w tied) ≡ true
between-tied a b h w tied ha hb e = ground arith

irrelevant :
    (a b : Uuid) (tied : List Uuid) (m : MatchRecord)
    → elem a tied ≡ true
    → elem b tied ≡ true
    → relevant tied m ≡ false
    → (m.is_finished && between a b m.home_team_id m.away_team_id) ≡ false
unfolding relevant
irrelevant a b tied m ha hb e = elim (Bool-cases (between a b m.home_team_id m.away_team_id)) [
  | inl f ↦ ground (arith, between-tied a b m.home_team_id m.away_team_id tied ha hb f)
  | inr f ↦ rw f (ground arith)
]

relevant-finished :
    (tied : List Uuid) (m : MatchRecord) → relevant tied m ≡ true → m.is_finished ≡ true
unfolding relevant
relevant-finished tied m e = ground arith

direct-eq-meetings :
    (a b : Uuid) (tied : List Uuid) (ms : List MatchRecord)
    → elem a tied ≡ true
    → elem b tied ≡ true
    → direct (pair_of a b) (keep (relevant tied) ms) ≡ meetings a b ms
direct-eq-meetings a b tied [] ha hb = refl
direct-eq-meetings a b tied (m ∷ ms) ha hb = elim (Bool-cases (relevant tied m)) [
  | inl e ↦
      rw (e, pair_eq-between, relevant-finished tied m e)
        (omega (arith, direct-eq-meetings a b tied ms ha hb))
  | inr e ↦
      rw (e, irrelevant a b tied m ha hb e) (omega (arith, direct-eq-meetings a b tied ms ha hb))
]

-- A mini-table of two teams or more is given only when every two of them have met exactly
-- `total_rounds_expected` times in finished matches, whoever was at home.
pub mini_table_complete :
    (tied : List Uuid) (matches : List MatchRecord) (rounds : ℕ) (p : Option PointsUpdate)
    (table : Table) (a b : Uuid)
    → 2 ≤ length tied
    → calculate_head_to_head_stats tied matches rounds p ≡ ok (some table)
    → a ≢ b
    → elem a tied ≡ true
    → elem b tied ≡ true
    → meetings a b matches ≡ rounds
unfolding calculate_head_to_head_stats mini_table is_complete
mini_table_complete tied matches rounds p table a b long h ne ha hb =
    elim (Option-cases (count_pairs ms (initial_counts (sorted_ids tied)))) [
      | inl e ↦ ground arith
      | inr (c, e) ↦
          let found = find-count_pairs (pair_of a b) 0 ms _ c start e in
          let eq =
            find-all_equal (pair_of a b) (0 + direct (pair_of a b) ms) rounds c found
              (ground arith) in
          omega (arith, eq, direct-eq-meetings a b tied matches ha hb)
    ]
  where
    ms : List MatchRecord
    ms = keep (relevant tied) matches

    start : find (pair_of a b) (initial_counts (sorted_ids tied)) ≡ some 0
    start = find-initial_counts a b (sorted_ids tied) ne (member a ha) (member b hb)
      where
        member : (t : Uuid) → elem t tied ≡ true → elem t (sorted_ids tied) ≡ true
        member t h = SameTeams-elem t (sorted_ids tied) tied (λ x. count-sort_by leb x tied) ∙ h
