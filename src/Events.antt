-- ===== src/Events.antt =====
-- The kinds of match event of backend/app/modules/matches/schemas.py (`EventType`), which the
-- substitution engine and the rules engine both read.
use bracket_craft.Prelude.{Bool, true, false}

pub data EventType : Type 0 where
  goal own_goal penalty_goal yellow_card red_card substitution foul : EventType

abbrev pub is_red_card : EventType → Bool
is_red_card red_card = true
is_red_card _ = false

abbrev pub is_yellow_card : EventType → Bool
is_yellow_card yellow_card = true
is_yellow_card _ = false

abbrev pub is_substitution : EventType → Bool
is_substitution substitution = true
is_substitution _ = false

-- `resolution_type` of the close request
pub data ResolutionType : Type 0 where
  regular extra_time penalties walkover administrative : ResolutionType

-- Kinds that count as a goal.
abbrev pub is_goal : EventType → Bool
is_goal goal = true
is_goal own_goal = true
is_goal penalty_goal = true
is_goal _ = false
