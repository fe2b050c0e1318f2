-- ===== src/Standings/Ranks.antt =====
-- What `recalculate` writes: in each group the ranks 1 to n, each team of the group once, in the order
-- of the pipeline.
use bracket_craft.Prelude.{
  ℕ, zero, suc, ◌+◌, ◌≡◌, refl, sym, ap, subst, true, false, Option, none, some, List, [], ◌∷◌,
  ◌++◌, map, Perm, append-nil, arith, length, All, All-append,
}
use mathlib.Core.List.Perm
use bracket_craft.Prelude.Errors.{Result, ok, raise, ◌>>=◌, went_on, ok_injective}
use bracket_craft.Prelude.Teams.{Uuid}
use bracket_craft.Prelude.Grouping.{Groups, group_by}
use bracket_craft.Rules.{PipelineStep, RulesConfig}
use bracket_craft.HeadToHead.{Scoring}
use bracket_craft.Standings.{
  StandingRow, StageTeam, CardRow, MatchRow, same_group, Table, Records, Tally, with_difference,
  scoring_of,
}
use bracket_craft.Standings.Pipeline.{Bucket, run_pipeline}
use bracket_craft.Standings.Lexicographic.{leading, outranks}
use bracket_craft.Standings.Ranking.{InOrder, run_pipeline-InOrder}
use bracket_craft.Standings.Recalculate.{
  bad_rules, bad_head_to_head, reraise, Ranked, number_rows, standings_tally, rank_group,
  rank_groups, rank_table, recalculate,
}
use bracket_craft.Prelude.Grouping.{
  Groups, group_by, flatten, parts, Keyed, Apart, group_by-Keyed, group_by-Apart, group_by-perm,
}
use bracket_craft.Standings.Once.{run_pipeline-perm, run_pipeline-All}
use bracket_craft.Rules.Validation.{validate_rules_config}

abbrev pub rows_of : List Ranked → Bucket
rows_of [] = []
rows_of (r ∷ rs) = r.row ∷ rows_of rs

abbrev pub ranks_of : List Ranked → List ℕ
ranks_of [] = []
ranks_of (r ∷ rs) = r.rank ∷ ranks_of rs

-- `range(start, start + n)`
abbrev pub counting : ℕ → ℕ → List ℕ
counting start zero = []
counting start (suc n) = start ∷ counting (start + 1) n

abbrev pub all_rows : Groups (Option Uuid) Ranked → Bucket
all_rows [] = []
all_rows ((g, ranked) ∷ more) = rows_of ranked ++ all_rows more

rows_of-number_rows : (n : ℕ) (rows : Bucket) → rows_of (number_rows n rows) ≡ rows
unfolding number_rows
rows_of-number_rows n [] = refl
rows_of-number_rows n (row ∷ rows) = ap (◌∷◌ row) (rows_of-number_rows (n + 1) rows)

ranks_of-number_rows :
    (n : ℕ) (rows : Bucket)
    → ranks_of (number_rows n rows) ≡ counting n (length (number_rows n rows))
unfolding number_rows
ranks_of-number_rows n [] = refl
ranks_of-number_rows n (row ∷ rows) = ap (◌∷◌ n) (ranks_of-number_rows (n + 1) rows)

abbrev pub group_ids : {A : Type 0} → Groups (Option Uuid) A → List (Option Uuid)
group_ids [] = []
group_ids ((g, xs) ∷ more) = g ∷ group_ids more

flatten-All :
    {A : Type 0} (P : A → Type 0) (bs : List (List A)) → All (All P) bs → All P (flatten bs)
flatten-All P [] h = tt
flatten-All P (b ∷ bs) h = All-append P b (flatten bs) h.0 (flatten-All P bs h.1)

abbrev pub InGroup : Option Uuid → StandingRow → Type 0
InGroup g row = same_group row.group_id g ≡ true

module _ (tie_value : Uuid → ℕ) where
  -- The ranks of one group
  pub record IsRanking (pipeline : List PipelineStep) (g : Option Uuid) (ranked : List Ranked)
      : Type 0 where
    pub ranks : ranks_of ranked ≡ counting 1 (length ranked)
    pub order : InOrder (outranks tie_value (leading pipeline)) (rows_of ranked)
    pub own_group : All (InGroup g) (rows_of ranked)

  module _ (s : Scoring) (records : Records) (pipeline : List PipelineStep) where
    rank_group-IsRanking :
        (g : Option Uuid) (items : Bucket) {ranked : List Ranked}
        → All (InGroup g) items
        → rank_group tie_value s records pipeline items ≡ ok ranked
        → Perm (rows_of ranked) items × IsRanking pipeline g ranked
    unfolding rank_group
    rank_group-IsRanking g items {ranked} k h =
        let (final, e, f) =
          went_on (run_pipeline tie_value s records pipeline (items ∷ []))
            (λ bs. ok (number_rows 1 (flatten bs))) h in
        let rows = rows_of-number_rows 1 (flatten final) in
        subst (λ r. Perm (rows_of r) items × IsRanking pipeline g r) (ok_injective f)
          (
            subst (λ r. Perm r items) (sym rows)
                (subst (Perm (flatten final)) (append-nil items)
                  (run_pipeline-perm tie_value s records pipeline (items ∷ []) e)),
            record {
              ranks = ranks_of-number_rows 1 (flatten final);
              order =
                  subst (InOrder (outranks tie_value (leading pipeline))) (sym rows)
                    (run_pipeline-InOrder tie_value s records pipeline items e);
              own_group = subst (All (InGroup g)) (sym rows) (
                  flatten-All (InGroup g) final (
                    run_pipeline-All tie_value s records (InGroup g) pipeline (items ∷ []) e
                      (k, tt)));
            },
          )

    rank_groups-IsRanking :
        (groups : Groups (Option Uuid) StandingRow) {ranked : Groups (Option Uuid) Ranked}
        → All (Keyed same_group (λ row. row.group_id)) groups
        → rank_groups tie_value s records pipeline groups ≡ ok ranked
        → Perm (all_rows ranked) (flatten (parts groups))
          × (All (λ e. IsRanking pipeline e.0 e.1) ranked × (group_ids ranked ≡ group_ids groups))
    unfolding rank_groups
    rank_groups-IsRanking [] k h =
        subst
          (λ r.
            Perm (all_rows r) [] × (All (λ e. IsRanking pipeline e.0 e.1) r × (group_ids r ≡ [])))
          (ok_injective h) (Perm.rfl, (tt, refl))
    rank_groups-IsRanking ((g, items) ∷ more) k h =
        let (ranked, e, f) =
          went_on (rank_group tie_value s records pipeline items)
            (λ ranked.
              rank_groups tie_value s records pipeline more >>= (λ rest. ok ((g, ranked) ∷ rest)))
            h in
        let (rest, e', f') =
          went_on (rank_groups tie_value s records pipeline more) (λ rest. ok ((g, ranked) ∷ rest))
            f in
        let (p, q) = rank_group-IsRanking g items k.0 e in
        let (p', (q', ids)) = rank_groups-IsRanking more k.1 e' in
        subst
          (λ r.
            Perm (all_rows r) (items ++ flatten (parts more))
            × (All (λ e. IsRanking pipeline e.0 e.1) r × (group_ids r ≡ g ∷ group_ids more)))
          (ok_injective f') (Perm.append p p', ((q, q'), ap (◌∷◌ g) ids))

same_group_refl : (g : Option Uuid) → same_group g g ≡ true
same_group_refl none = refl
same_group_refl (some g) = ground arith

abbrev pub DistinctGroups : List (Option Uuid) → Type 0
DistinctGroups [] = Unit
DistinctGroups (g ∷ gs) = All (λ h. same_group h g ≡ false) gs × DistinctGroups gs

Apart-DistinctGroups :
    (groups : Groups (Option Uuid) StandingRow)
    → Apart same_group (λ row. row.group_id) groups
    → DistinctGroups (group_ids groups)
Apart-DistinctGroups [] h = tt
Apart-DistinctGroups ((g, xs) ∷ more) h = (ids more h.0, Apart-DistinctGroups more h.1)
  where
    ids :
        (es : Groups (Option Uuid) StandingRow)
        → All (λ e. same_group e.0 g ≡ false) es
        → All (λ i. same_group i g ≡ false) (group_ids es)
    ids [] k = tt
    ids ((i, ys) ∷ es) k = (k.0, ids es k.1)

-- The new standings: every row of the table once, no group twice, and each group ranked.
pub record IsStandings (tie_value : Uuid → ℕ) (pipeline : List PipelineStep) (table : Table)
    (groups : Groups (Option Uuid) Ranked) : Type 0 where
  pub once : Perm (all_rows groups) table
  pub ranked : All (λ e. IsRanking tie_value pipeline e.0 e.1) groups
  pub distinct : DistinctGroups (group_ids groups)

unfoldable pub final_table : RulesConfig → List StageTeam → List CardRow → List MatchRow → Table
unfolding with_difference standings_tally
final_table config teams cards matches =
    map with_difference
      (standings_tally (scoring_of config.points_system) config.discipline.fair_play_penalties teams
        cards matches).table

reraise-ok : {E F A : Type 0} (f : E → F) (r : Result E A) {a : A} → reraise f r ≡ ok a → r ≡ ok a
reraise-ok f (ok x) h = ap ok (ok_injective h)
reraise-ok f (raise e) h = cc

pub recalculate_steps :
    (tie_value : Uuid → ℕ) (config : RulesConfig) (teams : List StageTeam) (cards : List CardRow)
    (matches : List MatchRow) {groups : Groups (Option Uuid) Ranked}
    → recalculate tie_value (some config) teams cards matches ≡ ok groups
    → let scoring = scoring_of config.points_system in
      (validate_rules_config config ≡ ok tt)
      × (rank_table tie_value scoring config.ranking_pipeline
            (standings_tally scoring config.discipline.fair_play_penalties teams cards matches)
          ≡ ok groups)
unfolding recalculate
recalculate_steps tie_value config teams cards matches h =
    let (u, e, f) =
      went_on (reraise bad_rules (validate_rules_config config))
        (λ _. reraise bad_head_to_head (
          rank_table tie_value (scoring_of config.points_system) config.ranking_pipeline (
            standings_tally (scoring_of config.points_system) config.discipline.fair_play_penalties
              teams cards matches)))
        h in
    (reraise-ok bad_rules _ e, reraise-ok bad_head_to_head _ f)

-- A recalculation that returns writes every row of the table of the stage once, split by group with
-- no group twice; in each group the ranks are 1 to the number of rows, and no row is placed before
-- one that is strictly better by the first leading criterion that tells the two apart, where the
-- leading criteria are those of the pipeline before the first head_to_head.
pub recalculate-IsStandings :
    (tie_value : Uuid → ℕ) (config : RulesConfig) (teams : List StageTeam) (cards : List CardRow)
    (matches : List MatchRow) {groups : Groups (Option Uuid) Ranked}
    → recalculate tie_value (some config) teams cards matches ≡ ok groups
    → IsStandings tie_value config.ranking_pipeline (final_table config teams cards matches) groups
unfolding rank_table final_table
recalculate-IsStandings tie_value config teams cards matches {groups} h =
    let (valid, f) = recalculate_steps tie_value config teams cards matches h in
    let (p, (q, ids)) =
      rank_groups-IsRanking tie_value scoring tally.records config.ranking_pipeline grouped
        (group_by-Keyed same_group (λ row. row.group_id) same_group_refl closed) f in
    record {
      once = Perm.trans p (group_by-perm same_group (λ row. row.group_id) closed);
      ranked = q;
      distinct =
          subst DistinctGroups (sym ids)
            (Apart-DistinctGroups grouped (group_by-Apart same_group (λ row. row.group_id) closed));
    }
  where
    scoring : Scoring
    scoring = scoring_of config.points_system

    tally : Tally
    tally = standings_tally scoring config.discipline.fair_play_penalties teams cards matches

    closed : Table
    closed = map with_difference tally.table

    grouped : Groups (Option Uuid) StandingRow
    grouped = group_by same_group (λ row. row.group_id) closed
