-- ===== src/Advancement.antt =====
-- backend/app/modules/advancement/service.py over an explicit store: the matches of the organization,
-- the links between them and the outbox. Every query names the organization and is left with its rows.
pub mod Fills
pub mod Tests
pub mod Protocol
pub mod Locked
pub mod Locks
pub mod Reset
pub mod Once
pub mod Links
use bracket_craft.Prelude.{
  ℕ, Bool, true, false, ◌&&◌, ◌||◌, not, Option, none, some, List, [], ◌∷◌, ◌++◌, Perm, ◌==◌,
  if◌then◌else◌, length, keep,
}
use mathlib.Core.List.Perm
use bracket_craft.Prelude.Errors.{Result, ok, raise, ◌>>=◌, ◌>>◌, raise_if}
use bracket_craft.Prelude.Teams.{Uuid}

-- The bracket codes of backend/app/modules/rule_contract.py; every other code is alike.
pub data BracketCode : Type 0 where
  grand_final reset other_code : BracketCode

-- The statuses that the statements name.
pub data StoredStatus : Type 0 where
  scheduled cancelled other_status : StoredStatus

pub data Side : Type 0 where
  home away : Side

pub data LinkOutcome : Type 0 where
  winner loser : LinkOutcome

-- A row of `matches`
pub record StoredMatch : Type 0 where
  pub id : Uuid
  pub tournament_id : Uuid
  pub tournament_version_id : Uuid
  pub stage_id : Uuid
  pub bracket_code : Option BracketCode
  pub status : StoredStatus
  pub home_team_id : Option Uuid
  pub away_team_id : Option Uuid

-- A row of `advancement_links`
pub record AdvancementLink : Type 0 where
  pub source_match_id : Uuid
  pub target_match_id : Uuid
  pub target_side : Side
  pub outcome : LinkOutcome

-- The payload of a `MATCH_UPDATED` row of `outbox_events`
pub record MatchUpdated : Type 0 where
  pub match_id : Uuid
  pub tournament_id : Uuid

pub record Store : Type 0 where
  pub matches : List StoredMatch
  pub links : List AdvancementLink
  pub outbox : List MatchUpdated

pub data AdvancementError : Type 0 where
  no_winner target_unavailable no_reset several_resets reset_unavailable no_team match_not_found :
      AdvancementError

abbrev pub is_grand_final : Option BracketCode → Bool
is_grand_final (some grand_final) = true
is_grand_final _ = false

abbrev pub is_reset : Option BracketCode → Bool
is_reset (some reset) = true
is_reset _ = false

-- `requires_decisive_winner`
unfoldable pub requires_decisive_winner : Option BracketCode → Bool
requires_decisive_winner code = is_grand_final code || is_reset code

abbrev pub is_scheduled : StoredStatus → Bool
is_scheduled scheduled = true
is_scheduled _ = false

abbrev pub is_cancelled : StoredStatus → Bool
is_cancelled cancelled = true
is_cancelled _ = false

abbrev pub is_null : Option Uuid → Bool
is_null none = true
is_null (some t) = false

-- `==` on sides that may be empty
abbrev pub same_side : Option Uuid → Option Uuid → Bool
same_side none none = true
same_side none (some b) = false
same_side (some a) none = false
same_side (some a) (some b) = a == b

-- A column of a row, by the name that the link gives.
abbrev pub team_at : Side → StoredMatch → Option Uuid
team_at home m = m.home_team_id
team_at away m = m.away_team_id

abbrev pub with_team : Side → Uuid → StoredMatch → StoredMatch
with_team home t m = record m { home_team_id = some t }
with_team away t m = record m { away_team_id = some t }

-- The rows of a query, and the rows and the row count of an update
abbrev pub update_where :
    (StoredMatch → Bool) → (StoredMatch → StoredMatch) → List StoredMatch → List StoredMatch
update_where p f [] = []
update_where p f (m ∷ ms) = if p m then f m ∷ update_where p f ms else m ∷ update_where p f ms

abbrev pub rowcount : (StoredMatch → Bool) → List StoredMatch → ℕ
rowcount p ms = length (keep p ms)

abbrev pub links_of : Uuid → List AdvancementLink → List AdvancementLink
links_of source = keep (λ l. l.source_match_id == source)

-- `WHERE id = … AND status = 'scheduled' AND column IS NULL`
unfoldable pub is_open : Uuid → Side → StoredMatch → Bool
is_open target side m = m.id == target && (is_scheduled m.status && is_null (team_at side m))

-- `str(team_id)` of an empty side is no identifier, and the database rejects it.
abbrev pub link_team : LinkOutcome → Uuid → Option Uuid → Option Uuid
link_team winner won lost = some won
link_team loser won lost = lost

unfoldable pub fill_side :
    Uuid → Side → Option Uuid → List StoredMatch → Result AdvancementError (List StoredMatch)
unfolding is_open
fill_side target side none ms = raise no_team
fill_side target side (some t) ms = do
  raise_if (not (rowcount (is_open target side) ms == 1)) target_unavailable
  ok (update_where (is_open target side) (with_team side t) ms)

-- The loop over the links
unfoldable pub advance_links :
    Uuid
    → Option Uuid
    → List AdvancementLink
    → List StoredMatch
    → Result AdvancementError (List StoredMatch)
unfolding fill_side
advance_links won lost [] ms = ok ms
advance_links won lost (l ∷ links) ms = do
  next ← fill_side l.target_match_id l.target_side (link_team l.outcome won lost) ms
  advance_links won lost links next

unfoldable pub loser_of : Uuid → StoredMatch → Option Uuid
loser_of won m = if same_side (some won) m.home_team_id then m.away_team_id else m.home_team_id

-- Without a link nothing happens, winner or not.
unfoldable pub advance_winner :
    StoredMatch
    → Option Uuid
    → List AdvancementLink
    → List StoredMatch
    → Result AdvancementError (List StoredMatch)
unfolding advance_links loser_of
advance_winner m champion [] ms = ok ms
advance_winner m none (l ∷ links) ms = raise no_winner
advance_winner m (some won) (l ∷ links) ms = advance_links won (loser_of won m) (l ∷ links) ms

-- Each statement reads `m` as it was loaded when the closing began.
unfoldable pub advance_from_match :
    StoredMatch → Option Uuid → Store → Result AdvancementError Store
unfolding advance_winner
advance_from_match m champion s = do
  ms ← advance_winner m champion (links_of m.id s.links) s.matches
  ok (record s { matches = ms })

abbrev pub same_stage : StoredMatch → StoredMatch → Bool
same_stage m r =
    r.tournament_id == m.tournament_id
    && (r.tournament_version_id == m.tournament_version_id && r.stage_id == m.stage_id)

-- `bracket_code = 'GF2'` in the stage of the match, whatever its status
unfoldable pub is_stage_reset : StoredMatch → StoredMatch → Bool
is_stage_reset m r = same_stage m r && is_reset r.bracket_code

-- The row that the update of the activation looks for
unfoldable pub is_dormant : Uuid → StoredMatch → Bool
is_dormant target r =
    r.id == target && (is_cancelled r.status && (is_null r.home_team_id && is_null r.away_team_id))

-- Both sides of the grand final, where both are there
abbrev pub both_teams : Option Uuid → Option Uuid → Result AdvancementError (Uuid × Uuid)
both_teams (some h) (some a) = ok (h, a)
both_teams _ _ = raise no_team

-- `one_or_none()`
abbrev pub one_or_none : List StoredMatch → Result AdvancementError StoredMatch
one_or_none [] = raise no_reset
one_or_none (r ∷ []) = ok r
one_or_none (r ∷ q ∷ more) = raise several_resets

abbrev pub activated : Uuid → Uuid → StoredMatch → StoredMatch
activated h a r = record r { home_team_id = some h; away_team_id = some a; status = scheduled }

-- The update and the row of the outbox
abbrev pub with_reset : StoredMatch → Uuid → Uuid × Uuid → Store → Store
unfolding is_dormant
with_reset m target (h, a) s = record s {
  matches = update_where (is_dormant target) (activated h a) s.matches;
  outbox = s.outbox ++ record { match_id = target; tournament_id = m.tournament_id } ∷ [];
}

unfoldable pub activate_row : StoredMatch → Store → StoredMatch → Result AdvancementError Store
unfolding is_dormant
activate_row m s r = do
  teams ← both_teams m.home_team_id m.away_team_id
  raise_if (not (rowcount (is_dormant r.id) s.matches == 1)) reset_unavailable
  ok (with_reset m r.id teams s)

unfoldable pub activate_reset : StoredMatch → Store → Result AdvancementError Store
unfolding activate_row is_stage_reset
activate_reset m s = do
  r ← one_or_none (keep (λ r. is_stage_reset m r && is_cancelled r.status) s.matches)
  activate_row m s r

unfoldable pub activate_double_elimination_reset :
    StoredMatch → Option Uuid → Store → Result AdvancementError Store
unfolding activate_reset
activate_double_elimination_reset m champion s =
    if not (is_grand_final m.bracket_code) || not (same_side champion m.away_team_id)
    then ok s
    else activate_reset m s

-- The end of a closing: the links, then the second grand final.
unfoldable pub advance : StoredMatch → Option Uuid → Store → Result AdvancementError Store
unfolding advance_from_match activate_double_elimination_reset
advance m champion s = do
  next ← advance_from_match m champion s
  activate_double_elimination_reset m champion next
