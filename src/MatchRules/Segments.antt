-- ===== src/MatchRules/Segments.antt =====
-- `next_segment_proposal` of backend/app/modules/matches/service.py: which segment of a match may be
-- opened next.
use bracket_craft.Prelude.{
  last, ℕ, suc, ◌+◌, ◌≤◌, ◌<◌, ◌≡◌, refl, sym, ap, ◌∙◌, inl, inr, Bool, true, false, not, Option,
  none, some, List, [], ◌∷◌, arith, ltb, leb, ◌==◌, if◌then◌else◌, Bool-cases, keep, All, All-mono,
}
use bracket_craft.Prelude.Sort.{insort, sort_by, IsSorted, sort_by-IsSorted}
use bracket_craft.Prelude.Teams.{Uuid}

-- The statuses that are told apart.
pub data MatchStatus : Type 0 where
  finished cancelled administrative_resolution other_status : MatchStatus

pub data SegmentStatus : Type 0 where
  interrupted completed active : SegmentStatus

pub record StoredSegment : Type 0 where
  pub id : Uuid
  pub segment_number : ℕ
  pub status : SegmentStatus
  pub minute_end : Option ℕ

-- `created_at` and `id` are compared as texts.
pub record StoredInterruption : Type 0 where
  pub id : ℕ
  pub segment_id : Uuid
  pub minute : ℕ
  pub created_at : ℕ

pub record SegmentProposal : Type 0 where
  pub segment_number : ℕ
  pub minute_start : Option ℕ
  pub derived : Bool

abbrev pub is_terminal : MatchStatus → Bool
is_terminal other_status = false
is_terminal _ = true

-- `_interruption_order(a) < _interruption_order(b)`
unfoldable pub interruption_lt : StoredInterruption → StoredInterruption → Bool
interruption_lt a b =
    if a.minute == b.minute
    then if a.created_at == b.created_at then ltb a.id b.id else ltb a.created_at b.created_at
    else ltb a.minute b.minute

-- `max(own, key=_interruption_order)`: the first of the greatest.
unfoldable pub latest : StoredInterruption → List StoredInterruption → StoredInterruption
unfolding interruption_lt
latest best [] = best
latest best (i ∷ more) = latest (if interruption_lt best i then i else best) more

abbrev pub known : Option ℕ → Bool
known none = false
known (some minute) = true

-- A start is derived exactly when there is one.
abbrev pub proposal : ℕ → Option ℕ → SegmentProposal
proposal number start = record {
  segment_number = number;
  minute_start = start;
  derived = known start;
}

abbrev pub latest_minute : List StoredInterruption → Option ℕ
unfolding latest
latest_minute [] = none
latest_minute (i ∷ own) = some (latest i own).minute

-- The minute that the last segment gives to the next one.
unfoldable pub start_after : SegmentStatus → StoredSegment → List StoredInterruption → Option ℕ
unfolding latest_minute
start_after interrupted segment interruptions =
    latest_minute (keep (λ i. i.segment_id == segment.id) interruptions)
start_after completed segment interruptions = segment.minute_end
start_after active segment interruptions = none

abbrev pub segment_le : StoredSegment → StoredSegment → Bool
segment_le a b = leb a.segment_number b.segment_number

unfoldable pub proposal_after : List StoredSegment → List StoredInterruption → SegmentProposal
unfolding start_after
proposal_after [] interruptions = record {
  segment_number = 1;
  minute_start = some 0;
  derived = true;
}
proposal_after (s ∷ segments) interruptions =
    let final_segment = last s segments in
    proposal (final_segment.segment_number + 1)
      (start_after final_segment.status final_segment interruptions)

-- `published` is whether the version of the tournament is.
unfoldable pub next_segment_proposal :
    MatchStatus → Bool → List StoredSegment → List StoredInterruption → Option SegmentProposal
unfolding proposal_after sort_by
next_segment_proposal match_status published segments interruptions =
    if is_terminal match_status
    then none
    else if not published
    then none
    else some (proposal_after (sort_by segment_le segments) interruptions)

abbrev pub UpTo : ℕ → List StoredSegment → Type 0
UpTo n = All (λ s. s.segment_number ≤ n)

last-UpTo :
    (s : StoredSegment) (segments : List StoredSegment)
    → IsSorted segment_le (s ∷ segments)
    → UpTo (last s segments).segment_number (s ∷ segments)
last-UpTo s [] h = (omega arith, tt)
last-UpTo s (t ∷ segments) h =
    let rest = last-UpTo t segments h.1 in
    let first : s.segment_number ≤ t.segment_number = ground arith in (omega arith, rest)

insort-UpTo :
    (n : ℕ) (s : StoredSegment) (segments : List StoredSegment)
    → UpTo n (insort segment_le s segments)
    → UpTo n (s ∷ segments)
unfolding insort
insort-UpTo n s [] h = h
insort-UpTo n s (t ∷ segments) h = elim (Bool-cases (segment_le s t)) [
  | inl le ↦ rw le at h
  | inr gt ↦
      let (first, more) = rw gt at h in
      let (here, rest) = insort-UpTo n s segments more in (here, (first, rest))
]

sort_by-UpTo :
    (n : ℕ) (segments : List StoredSegment) → UpTo n (sort_by segment_le segments) → UpTo n segments
unfolding sort_by
sort_by-UpTo n [] h = tt
sort_by-UpTo n (s ∷ segments) h =
    let (here, rest) = insort-UpTo n s (sort_by segment_le segments) h in
    (here, sort_by-UpTo n segments rest)

proposal_after-UpTo :
    (segments : List StoredSegment) (interruptions : List StoredInterruption)
    → IsSorted segment_le segments
    → (n : ℕ) × ((proposal_after segments interruptions).segment_number ≡ suc n) × UpTo n segments
unfolding proposal_after
proposal_after-UpTo [] interruptions h = (0, refl, tt)
proposal_after-UpTo (s ∷ segments) interruptions h =
    ((last s segments).segment_number, omega arith, last-UpTo s segments h)

segments-IsSorted :
    (segments : List StoredSegment) → IsSorted segment_le (sort_by segment_le segments)
segments-IsSorted segments =
    sort_by-IsSorted segment_le (λ x y h. ground arith) (λ x y z h k. ground arith) segments

-- A proposal is made only for a match that is not over, of a published version, and its number
-- is above that of every segment of the match.
pub next_segment_proposal-above :
    (match_status : MatchStatus) (published : Bool) (segments : List StoredSegment)
    (interruptions : List StoredInterruption) (p : SegmentProposal)
    → next_segment_proposal match_status published segments interruptions ≡ some p
    → (is_terminal match_status ≡ false)
      × (published ≡ true)
      × All (λ s. s.segment_number < p.segment_number) segments
unfolding next_segment_proposal
next_segment_proposal-above match_status published segments interruptions p h =
    elim (Bool-cases (is_terminal match_status)) [
      | inl over ↦ let none_made = rw over at h in absurd cc
      | inr open_ ↦ elim (Bool-cases published) [
        | inl yes_published ↦
            let made = rw (open_, yes_published) at h in
            let (n, number, below) =
              proposal_after-UpTo (sort_by segment_le segments) interruptions
                (segments-IsSorted segments) in
            let same : proposal_after (sort_by segment_le segments) interruptions ≡ p = cc in
            let next : p.segment_number ≡ suc n = ap (λ q. q.segment_number) (sym same) ∙ number in
            (
              open_,
              yes_published,
              All-mono (λ s. s.segment_number ≤ n) (λ s. s.segment_number < p.segment_number)
                  segments (λ s le. omega (arith, le, next)) (sort_by-UpTo n segments below),
            )
        | inr hidden ↦ let none_made = rw (open_, hidden) at h in absurd cc
      ]
    ]
