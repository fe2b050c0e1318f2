-- ===== src/Advancement/Tests.antt =====
-- The end of a double elimination bracket, and the witnesses of the advance.
use bracket_craft.Prelude.{◌≡◌, refl, Option, none, some, [], ◌∷◌, leb, Distinct}
use bracket_craft.Prelude.Sort.{IsSorted}
use bracket_craft.Prelude.Errors.{ok}
use bracket_craft.Prelude.Teams.{Uuid}
use bracket_craft.Advancement.{
  BracketCode, grand_final, reset, other_code, StoredStatus, scheduled, cancelled, other_status,
  home, away, winner, loser, StoredMatch, Store, advance_from_match,
  activate_double_elimination_reset, advance,
}
use bracket_craft.Advancement.Fills.{Rows}
use bracket_craft.Advancement.Once.{
  IsAdvanced, advance_from_match-IsAdvanced, advance_from_match_once, Raises,
}
use bracket_craft.Advancement.Reset.{IsActivated, activate_double_elimination_reset_once}
use bracket_craft.Advancement.Locks.{match_ids, lock_targets}
use bracket_craft.Advancement.Locked.{LockedOrSame}
use bracket_craft.Advancement.Protocol.{advance_writes_locked}

abbrev a_match : Uuid → Option BracketCode → StoredStatus → Option Uuid → Option Uuid → StoredMatch
a_match id code status h a = record {
  id = id;
  tournament_id = 1;
  tournament_version_id = 1;
  stage_id = 1;
  bracket_code = code;
  status = status;
  home_team_id = h;
  away_team_id = a;
}

abbrev last_round : StoredMatch
last_round = a_match 5 (some other_code) other_status (some 31) (some 32)

-- The final of the losers' bracket leads to the grand final and to the match for third place.
abbrev before_final : Store
before_final = record {
  matches =
      last_round
      ∷ a_match 6 (some grand_final) scheduled (some 33) none
      ∷ a_match 7 (some reset) cancelled none none
      ∷ a_match 8 none scheduled none none
      ∷ [];
  links =
      record { source_match_id = 5; target_match_id = 6; target_side = away; outcome = winner }
      ∷ record { source_match_id = 5; target_match_id = 8; target_side = home; outcome = loser }
      ∷ [];
  outbox = [];
}

abbrev finalists : StoredMatch
finalists = a_match 6 (some grand_final) scheduled (some 33) (some 32)

abbrev after_last_round : Store
after_last_round = record before_final {
  matches =
      last_round
      ∷ finalists
      ∷ a_match 7 (some reset) cancelled none none
      ∷ a_match 8 none scheduled (some 31) none
      ∷ [];
}

abbrev after_final : Store
after_final = record after_last_round {
  matches =
      last_round
      ∷ finalists
      ∷ a_match 7 (some reset) scheduled (some 33) (some 32)
      ∷ a_match 8 none scheduled (some 31) none
      ∷ [];
  outbox = record { match_id = 7; tournament_id = 1 } ∷ [];
}

last_round_runs : advance_from_match last_round (some 32) before_final ≡ ok after_last_round
unfolding advance_from_match
last_round_runs = refl

final_runs : activate_double_elimination_reset finalists (some 32) after_last_round ≡ ok after_final
unfolding activate_double_elimination_reset
final_runs = refl

final_advances : advance finalists (some 32) after_last_round ≡ ok after_final
unfolding advance
final_advances = refl

final_locks : lock_targets finalists after_last_round ≡ ok (6 ∷ 7 ∷ [])
unfolding lock_targets
final_locks = refl

no_repeats : Distinct (match_ids after_last_round.matches)
no_repeats = (refl, (refl, (refl, (refl, tt))))

advance_from_match-IsAdvanced_example : IsAdvanced last_round 32 before_final after_last_round
advance_from_match-IsAdvanced_example =
    advance_from_match-IsAdvanced last_round 32 before_final last_round_runs

advance_from_match_once_example : Raises (advance_from_match last_round (some 31) after_last_round)
advance_from_match_once_example =
    advance_from_match_once last_round (some 32) (some 31) before_final (λ e. cc) last_round_runs

activate_double_elimination_reset_once_example :
    IsActivated finalists after_last_round after_final
    × Raises (activate_double_elimination_reset finalists (some 32) after_final)
activate_double_elimination_reset_once_example =
    activate_double_elimination_reset_once finalists (some 32) after_last_round refl refl no_repeats
      final_runs

advance_writes_locked_example :
    IsSorted leb (6 ∷ 7 ∷ [])
    × Rows (LockedOrSame (6 ∷ 7 ∷ [])) after_last_round.matches after_final.matches
advance_writes_locked_example =
    advance_writes_locked finalists 32 after_last_round no_repeats final_locks final_advances
