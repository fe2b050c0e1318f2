-- ===== src/Substitutions/Canonical.antt =====
-- The derived state does not depend on the order in which the events arrive.
use bracket_craft.Prelude.{
  ℕ, ◌≡◌, refl, true, false, ◌&&◌, List, [], ◌∷◌, Perm, arith, ◌==◌, All, elem, Distinct,
}
use bracket_craft.Prelude.Sort.{NoTies, sort_by-eq_of_perm}
use bracket_craft.Prelude.Teams.{Uuid}
use bracket_craft.Substitutions.{RosterEntry, MatchEvent, event_le, canonical_event_order}
use bracket_craft.Substitutions.Field.{build_on_field}

abbrev pub indexes : List MatchEvent → List ℕ
indexes [] = []
indexes (e ∷ es) = e.index ∷ indexes es

event_le_total : (a b : MatchEvent) → event_le a b ≡ false → event_le b a ≡ true
unfolding event_le
event_le_total a b h = ground arith

event_le_trans :
    (a b c : MatchEvent) → event_le a b ≡ true → event_le b c ≡ true → event_le a c ≡ true
unfolding event_le
event_le_trans a b c h k = ground arith

untied : (a b : MatchEvent) → (a.index == b.index) ≡ false → (event_le a b && event_le b a) ≡ false
unfolding event_le
untied a b h = ground arith

untied-All :
    (a : MatchEvent) (es : List MatchEvent)
    → elem a.index (indexes es) ≡ false
    → All (λ b. (event_le a b && event_le b a) ≡ false) es
untied-All a [] h = tt
untied-All a (b ∷ es) h = (untied a b (ground arith), untied-All a es (ground arith))

indexes-NoTies : (es : List MatchEvent) → Distinct (indexes es) → NoTies event_le es
indexes-NoTies [] h = tt
indexes-NoTies (e ∷ es) h = (untied-All e es h.0, indexes-NoTies es h.1)

events_set : IsSet (List MatchEvent)
events_set = hlevel

canonical_event_order-perm :
    (es es' : List MatchEvent)
    → Perm es es'
    → Distinct (indexes es)
    → canonical_event_order es ≡ canonical_event_order es'
unfolding canonical_event_order
canonical_event_order-perm es es' p d =
    sort_by-eq_of_perm event_le event_le_total event_le_trans events_set p (indexes-NoTies es d)

-- Two lists of the same events, each with its own index in the report, lead to the same state,
-- or to the same refusal, for every roster and team.
pub build_on_field-perm :
    (roster : List RosterEntry) (es es' : List MatchEvent) (team : Uuid)
    → Perm es es'
    → Distinct (indexes es)
    → build_on_field roster es team ≡ build_on_field roster es' team
unfolding build_on_field
build_on_field-perm roster es es' team p d = rw (canonical_event_order-perm es es' p d) refl
