-- ===== src/Advancement/Protocol.antt =====
-- The closing of a match as a whole: it locks its targets, and writes only rows that it has locked.
use bracket_craft.Prelude.{
  ◌≡◌, refl, sym, ◌∙◌, subst, inl, inr, Bool, true, ◌&&◌, Option, some, List, [], ◌∷◌, arith, leb,
  Bool-cases, keep, elem, Distinct,
}
use bracket_craft.Prelude.Sort.{IsSorted}
use bracket_craft.Prelude.Errors.{ok, went_on, ok_injective}
use bracket_craft.Prelude.Teams.{Uuid}
use bracket_craft.Advancement.{
  StoredMatch, AdvancementLink, Store, is_grand_final, is_cancelled, same_side, links_of, loser_of,
  advance_from_match, is_stage_reset, activate_double_elimination_reset, advance,
}
use bracket_craft.Advancement.Fills.{Rows, Rows-trans, Rows-refl, RowKept}
use bracket_craft.Advancement.Once.{IsAdvanced, advance_from_match-IsAdvanced}
use bracket_craft.Advancement.Reset.{
  RowActivated, untouched, played_again, IsActivated, dormant_reset,
  activate_double_elimination_reset_once,
}
use bracket_craft.Advancement.Locks.{match_ids, target_ids, lock_targets}
use bracket_craft.Advancement.Locked.{
  LockedOrSame, lock_matches-ok, elem-target_ids, RowKept-LockedOrSame, Rows-map, stored,
  resets_kept,
}

ids_kept :
    (won : Uuid) (lost : Option Uuid) (links : List AdvancementLink) (ms ns : List StoredMatch)
    → Rows (RowKept won lost links) ms ns
    → match_ids ns ≡ match_ids ms
ids_kept won lost links [] [] h = refl
ids_kept won lost links [] (n ∷ ns) h = absurd h
ids_kept won lost links (m ∷ ms) [] h = absurd h
ids_kept won lost links (m ∷ ms) (n ∷ ns) h =
    λ i. h.0.id_kept i ∷ ids_kept won lost links ms ns h.1 i

elem-keep_and :
    (p q : StoredMatch → Bool) (t : Uuid) (ms : List StoredMatch)
    → elem t (match_ids (keep (λ r. p r && q r) ms)) ≡ true
    → elem t (match_ids (keep p ms)) ≡ true
elem-keep_and p q t [] h = h
elem-keep_and p q t (x ∷ ms) h = ground (arith, elem-keep_and p q t ms)

dormant_is_reset :
    (m : StoredMatch) (ms : List StoredMatch) (r : StoredMatch)
    → keep (dormant_reset m) ms ≡ r ∷ []
    → elem r.id (match_ids (keep (is_stage_reset m) ms)) ≡ true
dormant_is_reset m ms r h =
    elem-keep_and (is_stage_reset m) (λ r. is_cancelled r.status) r.id ms
      (subst (λ rs. elem r.id (match_ids rs) ≡ true) (sym h) (ground arith))

module _ (m : StoredMatch) (won : Uuid) (s mid next : Store) (locked : List Uuid)
    (locks : (t : Uuid)
      → elem t locked ≡ (elem t (match_ids s.matches) && elem t (m.id ∷ target_ids m s)))
    (advanced : IsAdvanced m won s mid) where
  links_locked : Rows (LockedOrSame locked) s.matches mid.matches
  links_locked =
      Rows-map (RowKept won (loser_of won m) (links_of m.id s.links)) (LockedOrSame locked)
        (λ r. elem r.id (match_ids s.matches) ≡ true) s.matches mid.matches
        (λ r n p k.
          RowKept-LockedOrSame won (loser_of won m) (links_of m.id s.links) locked r n
            (λ e. locks r.id ∙ rw (p, elem-target_ids m s r.id, e) (ground arith)) k)
        (stored s.matches s.matches (λ t e. e)) advanced.rows

  same_ids : match_ids mid.matches ≡ match_ids s.matches
  same_ids =
      ids_kept won (loser_of won m) (links_of m.id s.links) s.matches mid.matches advanced.rows

  reset_locked :
      is_grand_final m.bracket_code ≡ true
      → IsActivated m mid next
      → Rows (LockedOrSame locked) mid.matches next.matches
  reset_locked g effect =
      Rows-map (RowActivated m effect.reset) (LockedOrSame locked)
        (λ r. elem r.id (match_ids mid.matches) ≡ true) mid.matches next.matches step
        (stored mid.matches mid.matches (λ t e. e)) effect.rows
    where
      step :
          (r n : StoredMatch)
          → elem r.id (match_ids mid.matches) ≡ true
          → RowActivated m effect.reset r n
          → LockedOrSame locked r n
      step r n p (untouched ne e) = inr e
      step r n p (played_again e i st h a) = inl (
          let found : elem r.id (match_ids (keep (is_stage_reset m) s.matches)) ≡ true =
            subst (λ x. elem x.id (match_ids (keep (is_stage_reset m) s.matches)) ≡ true) (sym e)
              (subst (λ ids. elem effect.reset.id ids ≡ true)
                (resets_kept m won (loser_of won m) (links_of m.id s.links) s.matches mid.matches
                  advanced.rows)
                (dormant_is_reset m mid.matches effect.reset effect.only_reset)) in
          locks r.id ∙ rw (← same_ids) (rw (p, elem-target_ids m s r.id, g, found) (ground arith)))

LockedOrSame-trans :
    (locked : List Uuid) (a b c : StoredMatch)
    → LockedOrSame locked a b
    → LockedOrSame locked b c
    → LockedOrSame locked a c
LockedOrSame-trans locked a b c (inl e) h = inl e
LockedOrSame-trans locked a b c (inr e) (inl f) = inl (subst (λ x. elem x.id locked ≡ true) e f)
LockedOrSame-trans locked a b c (inr e) (inr f) = inr (f ∙ e)

-- The activation of a match that is no grand final, or that the away side did not win
activation-Rows :
    (m : StoredMatch) (won : Uuid) (mid : Store) (locked : List Uuid) {next : Store}
    → (is_grand_final m.bracket_code ≡ true
        → same_side (some won) m.away_team_id ≡ true
        → Rows (LockedOrSame locked) mid.matches next.matches)
    → activate_double_elimination_reset m (some won) mid ≡ ok next
    → Rows (LockedOrSame locked) mid.matches next.matches
unfolding activate_double_elimination_reset
activation-Rows m won mid locked {next} active h =
    elim (Bool-cases (is_grand_final m.bracket_code)) [
      | inl g ↦ elim (Bool-cases (same_side (some won) m.away_team_id)) [
        | inl w ↦ active g w
        | inr w ↦ unchanged (ok_injective (rw (g, w) at h))
      ]
      | inr g ↦ unchanged (ok_injective (rw g at h))
    ]
  where
    unchanged : mid ≡ next → Rows (LockedOrSame locked) mid.matches next.matches
    unchanged e =
        subst (λ n. Rows (LockedOrSame locked) mid.matches n.matches) e
          (Rows-refl (LockedOrSame locked) (λ r. inr refl) mid.matches)

-- In a store without repeated identifiers, when a closing has locked its targets and then advances
-- its winner, links and second grand final included, every row that is not locked stays as it was;
-- and the locks were taken in ascending order of the identifiers.
pub advance_writes_locked :
    (m : StoredMatch) (won : Uuid) (s : Store) {locked : List Uuid} {next : Store}
    → Distinct (match_ids s.matches)
    → lock_targets m s ≡ ok locked
    → advance m (some won) s ≡ ok next
    → IsSorted leb locked × Rows (LockedOrSame locked) s.matches next.matches
unfolding lock_targets advance
advance_writes_locked m won s {locked} {next} u l h =
    let (sorted, locks) = lock_matches-ok s.matches (m.id ∷ target_ids m s) l in
    let (mid, e, f) =
      went_on (advance_from_match m (some won) s)
        (λ mid. activate_double_elimination_reset m (some won) mid) h in
    let advanced = advance_from_match-IsAdvanced m won s e in
    let distinct : Distinct (match_ids mid.matches) =
      subst Distinct (sym (same_ids m won s mid next locked locks advanced)) u in
    (
      sorted,
      Rows-trans (LockedOrSame locked) (LockedOrSame locked) (LockedOrSame locked)
          (LockedOrSame-trans locked) s.matches mid.matches next.matches
          (links_locked m won s mid next locked locks advanced)
          (activation-Rows m won mid locked
            (λ g w.
              reset_locked m won s mid next locked locks advanced g
                (activate_double_elimination_reset_once m (some won) mid g w distinct f).0)
            f),
    )
