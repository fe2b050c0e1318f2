-- ===== src/Schedule/Groups.antt =====
-- `distribute_groups` of backend/app/modules/tournaments/scheduling.py: the heads first, then the
-- other teams in blocks of one per group, each block dealt in an order of its own.
pub mod Balanced
pub mod Blocks
pub mod Heads
pub mod Draw
use bracket_craft.Prelude.{
  ℕ, zero, suc, ◌&&◌, ◌||◌, not, List, [], ◌∷◌, ◌++◌, map, Perm, ltb, ◌==◌, length, take, drop,
  replicate, keep, any, elem,
}
use bracket_craft.Prelude.Int.{ℤ, pos_part}
use mathlib.Core.List.Perm
use bracket_craft.Prelude.Errors.{Result, ok, ◌>>=◌, ◌>>◌, raise_if}
use bracket_craft.Prelude.Teams.{Uuid}
use bracket_craft.Schedule.{
  ScheduleError, negative_seed, bad_group_count, bad_heads, foreign_heads, small_group, Shuffler,
  all_distinct, validate_team_ids, is_negative,
}

abbrev pub Group : Type 0
Group = List Uuid

-- `groups[index].append(team)`
unfoldable pub append_at : ℕ → Uuid → List Group → List Group
append_at index team [] = []
append_at zero team (g ∷ gs) = (g ++ team ∷ []) ∷ gs
append_at (suc index) team (g ∷ gs) = g ∷ append_at index team gs

-- `for group_index, team_id in zip(order, block)`
unfoldable pub deal_block : List ℕ → List Uuid → List Group → List Group
unfolding append_at
deal_block [] block groups = groups
deal_block (i ∷ order) [] groups = groups
deal_block (i ∷ order) (team ∷ block) groups = deal_block order block (append_at i team groups)

-- `list(range(n))`, from `i` on
unfoldable pub range_from : ℕ → ℕ → List ℕ
range_from i zero = []
range_from i (suc n) = i ∷ range_from (suc i) n

-- One empty group per head, holding it, or `n` empty groups.
unfoldable pub first_groups : ℕ → List Uuid → List Group
first_groups n [] = replicate n []
first_groups n (head ∷ heads) = map (λ t. t ∷ []) (head ∷ heads)

module _ (rng : Shuffler) where
  -- The blocks of `group_count` teams. Each takes at least one, so as many as there are teams
  -- are enough.
  unfoldable pub deal_blocks : ℕ → rng.State → ℕ → List Uuid → List Group → List Group
  unfolding deal_block range_from
  deal_blocks zero state group_count remaining groups = groups
  deal_blocks (suc blocks) state group_count [] groups = groups
  deal_blocks (suc blocks) state group_count (t ∷ rest) groups =
      deal_blocks blocks (rng.next state (range_from 0 group_count)) group_count
        (drop group_count (t ∷ rest))
        (deal_block (rng.shuffle state (range_from 0 group_count)) (take group_count (t ∷ rest))
          groups)

  -- The seed of a `GroupDraw` is the argument; the groups are the result.
  unfoldable pub distribute_groups :
      List Uuid → ℕ → ℤ → List Uuid → Result ScheduleError (List Group)
  unfolding validate_team_ids first_groups deal_blocks all_distinct
  distribute_groups team_ids group_count seed heads =
      let others = keep (λ t. not (elem t heads)) team_ids in
      let state = rng.seeded (pos_part seed) in
      let remaining = rng.shuffle state others in
      let groups =
        deal_blocks (length remaining) (rng.next state others) group_count remaining
          (first_groups group_count heads) in
      do
        validate_team_ids team_ids 2
        raise_if (ltb group_count 2 || ltb (length team_ids) group_count) bad_group_count
        raise_if (is_negative seed) negative_seed
        raise_if (not (length heads == 0) && not (length heads == group_count)) bad_heads
        raise_if (not (all_distinct heads) || any (λ t. not (elem t team_ids)) heads) foreign_heads
        raise_if (any (λ g. ltb (length g) 2) groups) small_group
        ok groups
