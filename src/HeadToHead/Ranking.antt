-- ===== src/HeadToHead/Ranking.antt =====
-- How a tied group is ordered: by points, then goal difference, goals scored, and the fallback.
use bracket_craft.Prelude.{
  ℕ, ◌+◌, ◌≤◌, ◌<◌, ◌≡◌, ap, ◌∙◌, ◌⊎◌, inl, inr, Bool, true, false, Option, some, List, [], ◌∷◌,
  Perm, arith, All, All-mono,
}
use bracket_craft.Prelude.Int.{ℤ, pos_part, neg_part, eq_of_parts}
use bracket_craft.Prelude.Dict.{Dict, lookup_or, values, enumerate}
use bracket_craft.Prelude.Sort.{sort_by, IsSorted, sort_by-perm, sort_by-IsSorted}
use bracket_craft.Prelude.Errors.{ok}
use bracket_craft.Prelude.Teams.{Uuid}
use bracket_craft.HeadToHead.{
  MatchRecord, HeadToHeadStats, PointsUpdate, fallback, Table, mini_table,
  calculate_head_to_head_stats, ranks_before, team_ids, resolve_head_to_head,
}
use bracket_craft.HeadToHead.Order.{calculates, ranking_of, resolves}

-- A strictly greater goal difference, on the parts of the integers.
abbrev pub Above : ℤ → ℤ → Type 0
Above x y = pos_part y + neg_part x < pos_part x + neg_part y

compare_ℕ : (x y : ℕ) → (y < x) ⊎ ((x < y) ⊎ (x ≡ y))
compare_ℕ x y = omega arith

compare_ℤ : (x y : ℤ) → Above x y ⊎ (Above y x ⊎ (x ≡ y))
compare_ℤ x y = elim (compare_ℕ (pos_part x + neg_part y) (pos_part y + neg_part x)) [
  | inl more ↦ inl more
  | inr (inl fewer) ↦ inr (inl fewer)
  | inr (inr e) ↦ inr (inr (eq_of_parts x y e))
]

-- The order that the mini-table stands for, without its tests.
abbrev pub Outranks : Dict ℕ → HeadToHeadStats → HeadToHeadStats → Type 0
Outranks position a b =
    (b.points < a.points)
    ⊎ ((a.points ≡ b.points)
        × (Above a.goal_diff b.goal_diff
            ⊎ ((a.goal_diff ≡ b.goal_diff)
                × ((b.goals_for < a.goals_for)
                    ⊎ ((a.goals_for ≡ b.goals_for)
                        × (lookup_or 0 a.team_id position ≤ lookup_or 0 b.team_id position))))))

abbrev pub IsRanked : Dict ℕ → List HeadToHeadStats → Type 0
IsRanked position [] = Unit
IsRanked position (a ∷ rest) = All (Outranks position a) rest × IsRanked position rest

module _ (position : Dict ℕ) where
  ranks_before→Outranks :
      (a b : HeadToHeadStats) → ranks_before position a b ≡ true → Outranks position a b
  unfolding ranks_before
  ranks_before→Outranks a b h = elim (compare_ℕ a.points b.points) [
    | inl more ↦ inl more
    | inr (inl fewer) ↦ absurd (ground arith)
    | inr (inr e) ↦ inr (
      e,
      elim (compare_ℤ a.goal_diff b.goal_diff) [
        | inl more ↦ inl more
        | inr (inl fewer) ↦ absurd (ground arith)
        | inr (inr f) ↦ inr (
          f,
          elim (compare_ℕ a.goals_for b.goals_for) [
            | inl more ↦ inl more
            | inr (inl fewer) ↦ absurd (ground arith)
            | inr (inr g) ↦ inr (g, ground arith)
          ],
        )
      ],
    )
  ]

  ranks_before_total :
      (a b : HeadToHeadStats) → ranks_before position a b ≡ false → ranks_before position b a ≡ true
  unfolding ranks_before
  ranks_before_total a b h = ground arith

  ranks_before_trans :
      (a b c : HeadToHeadStats)
      → ranks_before position a b ≡ true
      → ranks_before position b c ≡ true
      → ranks_before position a c ≡ true
  unfolding ranks_before
  ranks_before_trans a b c h k = ground arith

  IsSorted→IsRanked :
      (rows : List HeadToHeadStats) → IsSorted (ranks_before position) rows → IsRanked position rows
  IsSorted→IsRanked [] h = tt
  IsSorted→IsRanked (a ∷ rest) h =
      (All-mono _ _ rest (ranks_before→Outranks a) h.0, IsSorted→IsRanked rest h.1)

-- Where the direct matches are complete, the order is that of the rows of the mini-table, each
-- row once, and each row outranks all later ones: more points, or as many and a greater goal
-- difference, or that too and more goals, or all three equal and no later in the fallback order.
pub resolve_head_to_head-IsRanked :
    (tied : List Uuid) (matches : List MatchRecord) (rounds : ℕ) (p : Option PointsUpdate)
    (order : Option (List Uuid)) (table : Table)
    → ((rounds ≡ 1) ⊎ (rounds ≡ 2))
    → calculate_head_to_head_stats tied matches rounds p ≡ ok (some table)
    → (rows : List HeadToHeadStats) × (resolve_head_to_head tied matches rounds p order
        ≡ ok (team_ids rows))
      × Perm rows (values table)
      × IsRanked (enumerate 0 (fallback tied order)) rows
unfolding ranking_of
resolve_head_to_head-IsRanked tied matches rounds p order table r h = (
  sort_by le (values table),
  resolves tied matches rounds p order r ∙ ap (λ t. ok (ranking_of tied order t)) stats,
  sort_by-perm le (values table),
  IsSorted→IsRanked position _ (
      sort_by-IsSorted le (ranks_before_total position) (ranks_before_trans position)
        (values table)),
)
  where
    position : Dict ℕ
    position = enumerate 0 (fallback tied order)

    le : HeadToHeadStats → HeadToHeadStats → Bool
    le = ranks_before position

    stats : mini_table tied matches rounds p ≡ some table
    stats = cc (calculates tied matches rounds p r)
