-- ===== src/Advancement/Locked.antt =====
-- A closing writes only matches that it has locked before.
use bracket_craft.Prelude.{
  ℕ, ◌≡◌, refl, ◌∙◌, subst, ◌⊎◌, inl, inr, true, false, ◌&&◌, ◌||◌, Option, List, [], ◌∷◌, ◌++◌,
  arith, leb, ◌==◌, ==_iff, Bool-cases, keep, all, All, elem,
}
use bracket_craft.Prelude.Sort.{sort_by, IsSorted, sort_by-IsSorted}
use bracket_craft.Prelude.Errors.{ok, went_past, ok_injective}
use bracket_craft.Prelude.Teams.{Uuid, count-sort_by, SameTeams-elem, elem-append}
use bracket_craft.Advancement.{
  Side, home, away, StoredMatch, AdvancementLink, Store, match_not_found, is_grand_final, links_of,
  same_stage, is_stage_reset,
}
use bracket_craft.Advancement.Fills.{Rows, Assigns, Some, SideKept, kept, filled, RowKept}
use bracket_craft.Advancement.Locks.{match_ids, target_match_ids, target_ids, lock_matches}
use bracket_craft.Replay.{unique}

elem-unique :
    (t : Uuid) (seen ids : List Uuid) → elem t (unique seen ids) ≡ (elem t seen || elem t ids)
elem-unique t seen [] = ground arith
elem-unique t seen (x ∷ ids) = elim (Bool-cases (elem x seen)) [
  | inl e ↦ rw e (elem-unique t seen ids ∙ ground (arith, ==_iff t x))
  | inr e ↦
      rw e (elem-unique t (seen ++ x ∷ []) ids ∙ rw (elem-append t seen (x ∷ [])) (ground arith))
]

elem-ascending : (t : Uuid) (ids : List Uuid) → elem t (sort_by leb ids) ≡ elem t ids
elem-ascending t ids = SameTeams-elem t (sort_by leb ids) ids (λ x. count-sort_by leb x ids)

elem-wanted :
    (t : Uuid) (wanted : List Uuid) (ms : List StoredMatch)
    → elem t (match_ids (keep (λ m. elem m.id wanted) ms))
      ≡ (elem t (match_ids ms) && elem t wanted)
elem-wanted t wanted [] = refl
elem-wanted t wanted (m ∷ ms) = elim (Bool-cases (t == m.id)) [
  | inl e ↦ rw (← (==_iff t m.id).0 e) (ground (arith, elem-wanted t wanted ms))
  | inr e ↦ ground (arith, elem-wanted t wanted ms)
]

-- Every wanted match of the store is locked, and the locks are taken in ascending order.
pub lock_matches-ok :
    (ms : List StoredMatch) (ids : List Uuid) {locked : List Uuid}
    → lock_matches ms ids ≡ ok locked
    → IsSorted leb locked × ((t : Uuid) → elem t locked ≡ (elem t (match_ids ms) && elem t ids))
unfolding lock_matches
lock_matches-ok ms ids h =
    let past = went_past _ match_not_found _ h in
    subst (λ ls. IsSorted leb ls × ((t : Uuid) → elem t ls ≡ (elem t (match_ids ms) && elem t ids)))
      (ok_injective past.1)
      (
        sort_by-IsSorted leb leb_total leb_trans found,
        λ t.
            elem-ascending t found ∙ (elem-wanted t (unique [] ids) ms ∙ rw (elem-unique t [] ids)),
      )
  where
    found : List Uuid
    found = match_ids (keep (λ m. elem m.id (unique [] ids)) ms)

    leb_total : (j k : ℕ) → leb j k ≡ false → leb k j ≡ true
    leb_total j k h = ground arith

    leb_trans : (i j k : ℕ) → leb i j ≡ true → leb j k ≡ true → leb i k ≡ true
    leb_trans i j k h g = ground arith

-- The targets: those of the links, and the resets of the stage where the match is a grand final
pub elem-target_ids :
    (m : StoredMatch) (s : Store) (t : Uuid)
    → elem t (target_ids m s) ≡ (
        elem t (target_match_ids (links_of m.id s.links))
        || (is_grand_final m.bracket_code
            && elem t (match_ids (keep (is_stage_reset m) s.matches))))
unfolding target_ids
elem-target_ids m s t = elim (Bool-cases (is_grand_final m.bracket_code)) [
  | inl g ↦ rw g (
      elem-append t (sort_by leb targets) (sort_by leb resets)
      ∙ rw (elem-ascending t targets, elem-ascending t resets))
  | inr g ↦
      rw g (elem-append t (sort_by leb targets) [] ∙ rw (elem-ascending t targets) (ground arith))
]
  where
    targets : List Uuid
    targets = target_match_ids (links_of m.id s.links)

    resets : List Uuid
    resets = match_ids (keep (is_stage_reset m) s.matches)

Assigns-elem :
    (won : Uuid) (lost : Option Uuid) (target : Uuid) (side : Side) (team : Uuid)
    (links : List AdvancementLink)
    → Some (Assigns won lost target side team) links
    → elem target (target_match_ids links) ≡ true
Assigns-elem won lost target side team [] a = absurd a
Assigns-elem won lost target side team (l ∷ links) (inl a) = ground (arith, a.0)
Assigns-elem won lost target side team (l ∷ links) (inr a) =
    ground (arith, Assigns-elem won lost target side team links a)

-- A row that is not locked is the same after.
abbrev pub LockedOrSame : List Uuid → StoredMatch → StoredMatch → Type 0
LockedOrSame locked r n = (elem r.id locked ≡ true) ⊎ (n ≡ r)

stage_fields :
    (r n : StoredMatch)
    → same_stage r n ≡ true
    → (n.tournament_id ≡ r.tournament_id)
      × (n.tournament_version_id ≡ r.tournament_version_id)
      × (n.stage_id ≡ r.stage_id)
stage_fields r n h = (ground arith, ground arith, ground arith)

pub RowKept-LockedOrSame :
    (won : Uuid) (lost : Option Uuid) (links : List AdvancementLink) (locked : List Uuid)
    (r n : StoredMatch)
    → (elem r.id (target_match_ids links) ≡ true → elem r.id locked ≡ true)
    → RowKept won lost links r n
    → LockedOrSame locked r n
RowKept-LockedOrSame won lost links locked r n locks k =
    by_sides (k.sides_kept home) (k.sides_kept away)
  where
    by_sides :
        SideKept won lost links home r n
        → SideKept won lost links away r n
        → LockedOrSame locked r n
    by_sides (filled t st e f a) q = inl (locks (Assigns-elem won lost r.id home t links a))
    by_sides (kept e) (filled t st e' f a) = inl (locks (Assigns-elem won lost r.id away t links a))
    by_sides (kept e) (kept f) = inr (
        let (tournament, version, stage) = stage_fields r n k.stage_kept in
        λ i. record {
          id = k.id_kept i;
          tournament_id = tournament i;
          tournament_version_id = version i;
          stage_id = stage i;
          bracket_code = k.code_kept i;
          status = k.status_kept i;
          home_team_id = e i;
          away_team_id = f i;
        })

-- The rows after a step, from what is known of each row before it
pub Rows-map :
    (R Q : StoredMatch → StoredMatch → Type 0) (P : StoredMatch → Type 0) (ms ns : List StoredMatch)
    → ((r n : StoredMatch) → P r → R r n → Q r n)
    → All P ms
    → Rows R ms ns
    → Rows Q ms ns
Rows-map R Q P [] [] f p h = tt
Rows-map R Q P [] (n ∷ ns) f p h = absurd h
Rows-map R Q P (m ∷ ms) [] f p h = absurd h
Rows-map R Q P (m ∷ ms) (n ∷ ns) f p h = (f m n p.0 h.0, Rows-map R Q P ms ns f p.1 h.1)

pub stored :
    (all ms : List StoredMatch)
    → ((t : Uuid) → elem t (match_ids ms) ≡ true → elem t (match_ids all) ≡ true)
    → All (λ r. elem r.id (match_ids all) ≡ true) ms
stored all [] f = tt
stored all (m ∷ ms) f = (f m.id (ground arith), stored all ms (λ t e. f t (ground arith)))

-- The resets of the stage are the same rows after the links were served.
pub resets_kept :
    (m : StoredMatch) (won : Uuid) (lost : Option Uuid) (links : List AdvancementLink)
    (ms ns : List StoredMatch)
    → Rows (RowKept won lost links) ms ns
    → match_ids (keep (is_stage_reset m) ns) ≡ match_ids (keep (is_stage_reset m) ms)
unfolding is_stage_reset
resets_kept m won lost links [] [] h = refl
resets_kept m won lost links [] (n ∷ ns) h = absurd h
resets_kept m won lost links (r ∷ ms) [] h = absurd h
resets_kept m won lost links (r ∷ ms) (n ∷ ns) h = ground (
  arith,
  resets_kept m won lost links ms ns h.1,
  stage_fields r n h.0.stage_kept,
  h.0.code_kept,
  h.0.id_kept,
)
