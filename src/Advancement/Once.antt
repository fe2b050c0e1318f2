-- ===== src/Advancement/Once.antt =====
-- `advance_from_match`: what it promises to the matches that a finished match leads to.
use bracket_craft.Prelude.{
  ◌≡◌, refl, sym, ◌∙◌, subst, ◌≢◌, inl, Option, none, some, List, [], ◌∷◌, All,
}
use bracket_craft.Prelude.Errors.{Result, ok, raise, went_on, ok_injective}
use bracket_craft.Prelude.Teams.{Uuid}
use bracket_craft.Advancement.{
  StoredMatch, AdvancementLink, Store, AdvancementError, links_of, advance_links, loser_of,
  advance_winner, advance_from_match,
}
use bracket_craft.Advancement.Fills.{Rows, Some, RowKept, advance_links-Rows}
use bracket_craft.Advancement.Links.{
  IsServed, IsShut, advance_links-IsServed, advance_links-IsShut, advance_links_refused,
}

-- The effect of an advance on the store
pub record IsAdvanced (m : StoredMatch) (won : Uuid) (s next : Store) : Type 0 where
  pub rows : Rows (RowKept won (loser_of won m) (links_of m.id s.links)) s.matches next.matches
  pub served : All (IsServed won (loser_of won m) next.matches) (links_of m.id s.links)
  pub links_kept : next.links ≡ s.links
  pub outbox_kept : next.outbox ≡ s.outbox

advance_winner-links :
    (m : StoredMatch) (won : Uuid) (links : List AdvancementLink) (ms : List StoredMatch)
    → advance_winner m (some won) links ms ≡ advance_links won (loser_of won m) links ms
unfolding advance_winner advance_links
advance_winner-links m won [] ms = refl
advance_winner-links m won (l ∷ links) ms = refl

advance_from_match-returned :
    (m : StoredMatch) (champion : Option Uuid) (s : Store) {next : Store}
    → advance_from_match m champion s ≡ ok next
    → (ms : List StoredMatch) × (advance_winner m champion (links_of m.id s.links) s.matches
        ≡ ok ms)
      × (record s { matches = ms } ≡ next)
unfolding advance_from_match
advance_from_match-returned m champion s h =
    let (ms, e, f) =
      went_on (advance_winner m champion (links_of m.id s.links) s.matches)
        (λ ms. ok (with_matches ms s)) h in
    (ms, e, ok_injective f)
  where
    with_matches : List StoredMatch → Store → Store
    with_matches ms s = record s { matches = ms }

-- An advance with a winner that returns gives every link of the match its team on the side that the
-- link names. Each row keeps its identifier, stage, code and status, and each side keeps what it
-- had, unless it was an empty side of a scheduled row: that may hold the team of a link to it. The
-- links and the outbox stay as they were.
pub advance_from_match-IsAdvanced :
    (m : StoredMatch) (won : Uuid) (s : Store) {next : Store}
    → advance_from_match m (some won) s ≡ ok next
    → IsAdvanced m won s next
advance_from_match-IsAdvanced m won s h =
    let (ms, e, f) = advance_from_match-returned m (some won) s h in
    let e' : advance_links won (loser_of won m) (links_of m.id s.links) s.matches ≡ ok ms =
      sym (advance_winner-links m won (links_of m.id s.links) s.matches) ∙ e in
    subst (IsAdvanced m won s) f (record {
      rows = advance_links-Rows won (loser_of won m) (links_of m.id s.links) s.matches e';
      served = advance_links-IsServed won (loser_of won m) (links_of m.id s.links) s.matches e';
      links_kept = refl;
      outbox_kept = refl;
    })

-- A run that raises
abbrev pub Raises : {A : Type 0} → Result AdvancementError A → Type 0
Raises r = (problem : AdvancementError) × (r ≡ raise problem)

Raises-unless : {A : Type 0} (r : Result AdvancementError A) → ((a : A) → r ≡ ok a → ⊥) → Raises r
Raises-unless (ok a) f = absurd (f a refl)
Raises-unless (raise problem) f = (problem, refl)

advance_winner_refused :
    (m : StoredMatch) (champion : Option Uuid) (links : List AdvancementLink)
    (ms : List StoredMatch) {next : List StoredMatch}
    → Some (IsShut ms) links
    → advance_winner m champion links ms ≡ ok next
    → ⊥
unfolding advance_winner
advance_winner_refused m champion [] ms shut h = shut
advance_winner_refused m none (l ∷ links) ms shut h = cc
advance_winner_refused m (some won) (l ∷ links) ms shut h =
    advance_links_refused won (loser_of won m) (l ∷ links) ms shut h

-- If some link of the match leads to a side that is filled already, or to a match that is missing or
-- no longer scheduled, the advance raises, and nothing is written.
pub advance_from_match_refused :
    (m : StoredMatch) (champion : Option Uuid) (s : Store)
    → Some (IsShut s.matches) (links_of m.id s.links)
    → Raises (advance_from_match m champion s)
advance_from_match_refused m champion s shut = Raises-unless _ λ next h.
    let (ms, e, f) = advance_from_match-returned m champion s h in
    advance_winner_refused m champion (links_of m.id s.links) s.matches shut e

first-IsShut :
    (m : StoredMatch) (champion : Option Uuid) (l : AdvancementLink) (links : List AdvancementLink)
    (ms : List StoredMatch) {next : List StoredMatch}
    → advance_winner m champion (l ∷ links) ms ≡ ok next
    → IsShut next l
unfolding advance_winner
first-IsShut m none l links ms h = absurd cc
first-IsShut m (some won) l links ms h = advance_links-IsShut won (loser_of won m) l links ms h

IsShut-links :
    (m : StoredMatch) (champion : Option Uuid) (links : List AdvancementLink)
    (ms : List StoredMatch) {next : List StoredMatch}
    → links ≢ []
    → advance_winner m champion links ms ≡ ok next
    → Some (IsShut next) links
IsShut-links m champion [] ms ne h = absurd (ne refl)
IsShut-links m champion (l ∷ links) ms ne h = inl (first-IsShut m champion l links ms h)

-- A match that has a link and has advanced cannot advance again, with any winner: the second run
-- raises.
pub advance_from_match_once :
    (m : StoredMatch) (champion other : Option Uuid) (s : Store) {next : Store}
    → links_of m.id s.links ≢ []
    → advance_from_match m champion s ≡ ok next
    → Raises (advance_from_match m other next)
advance_from_match_once m champion other s {next} ne h =
    let (ms, e, f) = advance_from_match-returned m champion s h in
    subst (λ n. Raises (advance_from_match m other n)) f
      (advance_from_match_refused m other (record s { matches = ms })
        (IsShut-links m champion (links_of m.id s.links) s.matches ne e))
