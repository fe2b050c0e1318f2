-- ===== src/Rules/Suspensions.antt =====
-- The disciplinary part of backend/app/modules/rules_engine/engine.py: the order of the history,
-- the sanctions of a report, and those already recorded.
pub mod Thresholds
pub mod Steps
pub mod Absorption
pub mod Expulsions
use bracket_craft.Prelude.{
  ℕ, suc, ◌+◌, ◌%◌, Bool, true, false, ◌&&◌, not, Option, none, some, List, [], ◌∷◌, ◌++◌, Perm,
  ltb, leb, ◌==◌, if◌then◌else◌, keep, elem,
}
use bracket_craft.Prelude.Int.{ℤ, pos_part}
use bracket_craft.Prelude.Dict.{Dict, lookup_or, insert}
use bracket_craft.Prelude.Sort.{sort_by}
use mathlib.Core.List.Perm
use bracket_craft.Prelude.Teams.{Uuid}
use bracket_craft.Rules.{DisciplineRules}
use bracket_craft.Events.{EventType, is_yellow_card, is_red_card}

-- A row of the history or of the report. The query of the closing gives every row its match;
-- `double_yellow` is whether `metadata.red_card_type` is "double_yellow_red".
pub record DisciplineEvent : Type 0 where
  pub id : Uuid
  pub event_type : EventType
  pub player_id : Option Uuid
  pub double_yellow : Bool
  pub match_date : Option ℕ
  pub match_id : Uuid
  pub minute : ℕ
  pub added_minute : ℕ

-- A missing date comes first, as minus infinity.
abbrev pub date_key : Option ℕ → ℕ
date_key none = 0
date_key (some seconds) = suc seconds

-- The comparison of two numbers, then of what follows in the key.
abbrev pub then_le : ℕ → ℕ → Bool → Bool
then_le a b more = if a == b then more else ltb a b

-- `discipline_history_order_key(a) <= discipline_history_order_key(b)`
unfoldable pub history_le : DisciplineEvent → DisciplineEvent → Bool
history_le a b = then_le (date_key a.match_date) (date_key b.match_date) (
    then_le a.match_id b.match_id
      (then_le a.minute b.minute (then_le a.added_minute b.added_minute (leb a.id b.id))))

unfoldable pub order_discipline_history : List DisciplineEvent → List DisciplineEvent
unfolding history_le sort_by
order_discipline_history events = sort_by history_le events

pub data Reason : Type 0 where
  yellow_card_accumulation double_yellow_red direct_red_card : Reason

-- Its scope is always the organization.
pub record Suspension : Type 0 where
  pub player_id : Uuid
  pub source_event_id : Uuid
  pub matches_suspended : ℤ
  pub reason : Reason

abbrev pub is_accumulation : Reason → Bool
is_accumulation yellow_card_accumulation = true
is_accumulation _ = false

-- `yellows[player] += 1`
abbrev pub add_yellow : Uuid → Dict ℕ → Dict ℕ
add_yellow player yellows = insert player (lookup_or 0 player yellows + 1) yellows

-- One event of the history: only a yellow card of a known player counts.
unfoldable pub count_yellow : EventType → Option Uuid → Dict ℕ → Dict ℕ
count_yellow kind none yellows = yellows
count_yellow kind (some player) yellows =
    if is_yellow_card kind then add_yellow player yellows else yellows

unfoldable pub count_yellows : List DisciplineEvent → Dict ℕ → Dict ℕ
unfolding count_yellow
count_yellows [] yellows = yellows
count_yellows (e ∷ events) yellows =
    count_yellows events (count_yellow e.event_type e.player_id yellows)

abbrev pub accumulation : DisciplineRules → DisciplineEvent → Uuid → Suspension
accumulation d e player = record {
  player_id = player;
  source_event_id = e.id;
  matches_suspended = d.yellow_card_suspension_matches;
  reason = yellow_card_accumulation;
}

abbrev pub expulsion : DisciplineRules → DisciplineEvent → Uuid → Suspension
expulsion d e player = record {
  player_id = player;
  source_event_id = e.id;
  matches_suspended = d.direct_red_suspension_matches;
  reason = if e.double_yellow then double_yellow_red else direct_red_card;
}

-- What one event adds to the sanctions, after `yellows` has been updated.
unfoldable pub sanctions_of :
    DisciplineRules → DisciplineEvent → Option Uuid → Dict ℕ → List Suspension
sanctions_of d e none yellows = []
sanctions_of d e (some player) yellows =
    if is_yellow_card e.event_type
    then if lookup_or 0 player yellows % pos_part d.yellow_card_limit == 0
      then accumulation d e player ∷ []
      else []
    else if is_red_card e.event_type
    then expulsion d e player ∷ []
    else []

-- The sanctions that the events of the report originate, in their order.
unfoldable pub derive_suspensions :
    DisciplineRules → List DisciplineEvent → Dict ℕ → List Suspension
unfolding sanctions_of count_yellow
derive_suspensions d [] yellows = []
derive_suspensions d (e ∷ events) yellows =
    let now = count_yellow e.event_type e.player_id yellows in
    sanctions_of d e e.player_id now ++ derive_suspensions d events now

abbrev pub sent_off : DisciplineEvent → Option Uuid → List Uuid
sent_off e none = []
sent_off e (some player) = if is_red_card e.event_type && e.double_yellow then player ∷ [] else []

-- The players sent off for two yellow cards in the report.
unfoldable pub double_yellow_players : List DisciplineEvent → List Uuid
double_yellow_players [] = []
double_yellow_players (e ∷ events) = sent_off e e.player_id ++ double_yellow_players events

-- A sanction that the expulsion of its player absorbs.
abbrev pub is_absorbed : List Uuid → Suspension → Bool
is_absorbed players s = is_accumulation s.reason && elem s.player_id players

unfoldable pub evaluate_suspensions :
    DisciplineRules → List DisciplineEvent → List DisciplineEvent → List Suspension
unfolding derive_suspensions count_yellows order_discipline_history double_yellow_players
evaluate_suspensions d current historical =
    keep (λ s. not (is_absorbed (double_yellow_players current) s))
      (derive_suspensions d current (count_yellows (order_discipline_history historical) []))

-- A sanction always has its source event here.
unfoldable pub drop_recorded_red_sanctions : List Suspension → List Uuid → List Suspension
drop_recorded_red_sanctions suspensions recorded =
    keep (λ s. not (elem s.source_event_id recorded)) suspensions
