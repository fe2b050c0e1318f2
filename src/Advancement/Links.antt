-- ===== src/Advancement/Links.antt =====
-- A finished match advances its teams once: every link is served, and none a second time.
use bracket_craft.Prelude.{
  ◌≤◌, ◌≡◌, refl, sym, ◌∙◌, subst, inl, inr, true, false, Option, none, some, List, [], ◌∷◌, arith,
  Bool-cases, All,
}
use bracket_craft.Prelude.Errors.{ok, went_on}
use bracket_craft.Prelude.Teams.{Uuid}
use bracket_craft.Advancement.{
  scheduled, Side, home, away, StoredMatch, AdvancementLink, is_null, team_at, with_team,
  update_where, rowcount, is_open, link_team, fill_side, advance_links,
}
use bracket_craft.Advancement.Fills.{
  Rows, Some, SideKept, kept, filled, RowKept, open_parts, fill-Rows, fill_side-returned,
  advance_links-Rows,
}

-- Some row of the store has the team of the link on its side.
abbrev pub IsServed : Uuid → Option Uuid → List StoredMatch → AdvancementLink → Type 0
IsServed won lost ms l =
    Some
      (λ m. (m.id ≡ l.target_match_id) × (team_at l.target_side m ≡ link_team l.outcome won lost))
      ms

-- No row of the store is scheduled with this side empty.
abbrev pub IsShut : List StoredMatch → AdvancementLink → Type 0
IsShut ms l = rowcount (is_open l.target_match_id l.target_side) ms ≡ 0

some_shut : (x : Option Uuid) (t : Uuid) → x ≡ some t → is_null x ≡ false
some_shut x t e = rw e

team_at-with_team :
    (side : Side) (t : Uuid) (m : StoredMatch) → team_at side (with_team side t m) ≡ some t
team_at-with_team home t m = refl
team_at-with_team away t m = refl

id-with_team : (side : Side) (t : Uuid) (m : StoredMatch) → (with_team side t m).id ≡ m.id
id-with_team home t m = refl
id-with_team away t m = refl

is_open-with_team :
    (target : Uuid) (side : Side) (t : Uuid) (m : StoredMatch)
    → is_open target side (with_team side t m) ≡ false
unfolding is_open
is_open-with_team target side t m = rw (team_at-with_team side t m) (ground arith)

shut_after :
    (target : Uuid) (side : Side) (t : Uuid) (ms : List StoredMatch)
    → rowcount (is_open target side) (update_where (is_open target side) (with_team side t) ms) ≡ 0
shut_after target side t [] = refl
shut_after target side t (m ∷ ms) = elim (Bool-cases (is_open target side m)) [
  | inl o ↦ rw (o, is_open-with_team target side t m) (shut_after target side t ms)
  | inr o ↦ rw (o) (rw o (shut_after target side t ms))
]

opened :
    (target : Uuid) (side : Side) (m : StoredMatch)
    → m.id ≡ target
    → m.status ≡ scheduled
    → team_at side m ≡ none
    → is_open target side m ≡ true
unfolding is_open
opened target side m i st e = rw e (rw st (ground (arith, i)))

Some-mono :
    {A : Type 0} (P Q : A → Type 0) (xs : List A) → ((x : A) → P x → Q x) → Some P xs → Some Q xs
Some-mono P Q [] f s = s
Some-mono P Q (x ∷ xs) f (inl s) = inl (f x s)
Some-mono P Q (x ∷ xs) f (inr s) = inr (Some-mono P Q xs f s)

module _ (won : Uuid) (lost : Option Uuid) where
  IsServed-after :
      (l : AdvancementLink) (t : Uuid) (ms : List StoredMatch)
      → link_team l.outcome won lost ≡ some t
      → rowcount (is_open l.target_match_id l.target_side) ms ≡ 1
      → IsServed won lost
          (update_where (is_open l.target_match_id l.target_side) (with_team l.target_side t) ms)
          l
  IsServed-after l t [] e one = absurd cc
  IsServed-after l t (m ∷ ms) e one =
      elim (Bool-cases (is_open l.target_match_id l.target_side m)) [
        | inl o ↦ rw o (
            inl (
              id-with_team l.target_side t m ∙ (open_parts l.target_match_id l.target_side m o).0,
              team_at-with_team l.target_side t m ∙ sym e,
            ))
        | inr o ↦ rw o (inr (IsServed-after l t ms e (rw o at one)))
      ]

  -- A side that a team has stays its.
  side_stays :
      (links : List AdvancementLink) (side : Side) (m n : StoredMatch) (t : Uuid)
      → SideKept won lost links side m n
      → team_at side m ≡ some t
      → team_at side n ≡ some t
  side_stays links side m n t (kept e) h = e ∙ h
  side_stays links side m n t (filled team s none_there f q) h = absurd cc

  IsServed-Rows :
      (links : List AdvancementLink) (l : AdvancementLink) (t : Uuid) (ms ns : List StoredMatch)
      → link_team l.outcome won lost ≡ some t
      → Rows (RowKept won lost links) ms ns
      → IsServed won lost ms l
      → IsServed won lost ns l
  IsServed-Rows links l t [] ns e r s = absurd s
  IsServed-Rows links l t (m ∷ ms) [] e r s = absurd r
  IsServed-Rows links l t (m ∷ ms) (n ∷ ns) e r (inl s) = inl (
    r.0.id_kept ∙ s.0,
    side_stays links l.target_side m n t (r.0.sides_kept l.target_side) (s.1 ∙ e) ∙ sym e,
  )
  IsServed-Rows links l t (m ∷ ms) (n ∷ ns) e r (inr s) =
      inr (IsServed-Rows links l t ms ns e r.1 s)

  was_null :
      (links : List AdvancementLink) (side : Side) (m n : StoredMatch)
      → SideKept won lost links side m n
      → team_at side n ≡ none
      → team_at side m ≡ none
  was_null links side m n (kept e) h = sym e ∙ h
  was_null links side m n (filled team s none_there f q) h = none_there

  -- A row that is open after was open before.
  open_before :
      (links : List AdvancementLink) (target : Uuid) (side : Side) (m n : StoredMatch)
      → RowKept won lost links m n
      → is_open target side n ≡ true
      → is_open target side m ≡ true
  open_before links target side m n r o =
      let (i, st, e) = open_parts target side n o in
      opened target side m (sym r.id_kept ∙ i) (sym r.status_kept ∙ st)
        (was_null links side m n (r.sides_kept side) e)

  rowcount-Rows :
      (links : List AdvancementLink) (target : Uuid) (side : Side) (ms ns : List StoredMatch)
      → Rows (RowKept won lost links) ms ns
      → rowcount (is_open target side) ns ≤ rowcount (is_open target side) ms
  rowcount-Rows links target side [] [] r = omega arith
  rowcount-Rows links target side [] (n ∷ ns) r = absurd r
  rowcount-Rows links target side (m ∷ ms) [] r = absurd r
  rowcount-Rows links target side (m ∷ ms) (n ∷ ns) r =
      ground
        (arith, open_before links target side m n r.0, rowcount-Rows links target side ms ns r.1)

  pub advance_links-IsServed :
      (links : List AdvancementLink) (ms : List StoredMatch) {next : List StoredMatch}
      → advance_links won lost links ms ≡ ok next
      → All (IsServed won lost next) links
  unfolding advance_links
  advance_links-IsServed [] ms h = tt
  advance_links-IsServed (l ∷ links) ms {next = final} h =
      let (next, e, f) =
        went_on (fill_side l.target_match_id l.target_side (link_team l.outcome won lost) ms)
          (λ next. advance_links won lost links next) h in
      let (t, g, one, eq) = fill_side-returned won lost l ms e in
      (
        IsServed-Rows links l t next final g (advance_links-Rows won lost links next f)
            (subst (λ ns. IsServed won lost ns l) (sym eq) (IsServed-after l t ms g one)),
        advance_links-IsServed links next f,
      )

  -- What an advance did is closed to the same links.
  pub advance_links-IsShut :
      (l : AdvancementLink) (links : List AdvancementLink) (ms : List StoredMatch)
      {final : List StoredMatch}
      → advance_links won lost (l ∷ links) ms ≡ ok final
      → IsShut final l
  unfolding advance_links
  advance_links-IsShut l links ms {final} h =
      let (next, e, f) =
        went_on (fill_side l.target_match_id l.target_side (link_team l.outcome won lost) ms)
          (λ next. advance_links won lost links next) h in
      let (t, g, one, eq) = fill_side-returned won lost l ms e in
      let shut : IsShut next l =
        subst (λ ns. IsShut ns l) (sym eq) (shut_after l.target_match_id l.target_side t ms) in
      omega (
        arith,
        shut,
        rowcount-Rows links l.target_match_id l.target_side next final
            (advance_links-Rows won lost links next f),
      )

  still-IsShut :
      (k : AdvancementLink) (ms next : List StoredMatch) (l : AdvancementLink) (t : Uuid)
      → next ≡ update_where (is_open l.target_match_id l.target_side) (with_team l.target_side t) ms
      → link_team l.outcome won lost ≡ some t
      → IsShut ms k
      → IsShut next k
  still-IsShut k ms next l t eq g shut =
      let rows : Rows (RowKept won lost (l ∷ [])) ms next =
        subst (Rows (RowKept won lost (l ∷ [])) ms) (sym eq) (fill-Rows won lost l t ms g) in
      omega (arith, shut, rowcount-Rows (l ∷ []) k.target_match_id k.target_side ms next rows)

  pub advance_links_refused :
      (links : List AdvancementLink) (ms : List StoredMatch) {final : List StoredMatch}
      → Some (IsShut ms) links
      → advance_links won lost links ms ≡ ok final
      → ⊥
  unfolding advance_links
  advance_links_refused [] ms s h = s
  advance_links_refused (l ∷ links) ms s h =
      let (next, e, f) =
        went_on (fill_side l.target_match_id l.target_side (link_team l.outcome won lost) ms)
          (λ next. advance_links won lost links next) h in
      let (t, g, one, eq) = fill_side-returned won lost l ms e in
      elim s [
        | inl here ↦ omega (arith, here, one)
        | inr later ↦
            advance_links_refused links next
              (Some-mono _ _ links (λ k z. still-IsShut k ms next l t eq g z) later) f
      ]
