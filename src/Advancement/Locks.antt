-- ===== src/Advancement/Locks.antt =====
-- Which matches a closing locks before it writes: `lock_matches` of backend/app/core/locking.py, and
-- `target_ids` and `lock_targets` of backend/app/modules/advancement/service.py.
use bracket_craft.Prelude.{not, List, [], ◌∷◌, ◌++◌, leb, ◌==◌, if◌then◌else◌, length, keep, elem}
use bracket_craft.Prelude.Sort.{sort_by}
use bracket_craft.Prelude.Errors.{Result, ok, ◌>>◌, raise_if}
use bracket_craft.Prelude.Teams.{Uuid}
use bracket_craft.Advancement.{
  StoredMatch, AdvancementLink, Store, AdvancementError, match_not_found, is_grand_final, links_of,
  is_stage_reset,
}
use bracket_craft.Replay.{unique}

-- `ORDER BY id`
abbrev pub ascending : List Uuid → List Uuid
ascending = sort_by leb

abbrev pub match_ids : List StoredMatch → List Uuid
match_ids [] = []
match_ids (m ∷ ms) = m.id ∷ match_ids ms

abbrev pub target_match_ids : List AdvancementLink → List Uuid
target_match_ids [] = []
target_match_ids (l ∷ links) = l.target_match_id ∷ target_match_ids links

-- The second grand final is a target of the first, also when it will not be activated.
unfoldable pub target_ids : StoredMatch → Store → List Uuid
unfolding is_stage_reset sort_by
target_ids m s =
    ascending (target_match_ids (links_of m.id s.links))
    ++ (if is_grand_final m.bracket_code
        then ascending (match_ids (keep (is_stage_reset m) s.matches))
        else [])

unfoldable pub lock_matches : List StoredMatch → List Uuid → Result AdvancementError (List Uuid)
unfolding sort_by
lock_matches ms ids =
    let found = ascending (match_ids (keep (λ m. elem m.id (unique [] ids)) ms)) in
    raise_if (not (length found == length (unique [] ids))) match_not_found >> ok found

unfoldable pub lock_targets : StoredMatch → Store → Result AdvancementError (List Uuid)
unfolding lock_matches target_ids
lock_targets m s = lock_matches s.matches (m.id ∷ target_ids m s)
