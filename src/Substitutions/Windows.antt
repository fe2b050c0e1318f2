-- ===== src/Substitutions/Windows.antt =====
-- The counters of an accepted report: windows are counted once, and no limit is passed.
use bracket_craft.Prelude.{
  ℕ, suc, ◌≤◌, ◌≡◌, refl, sym, ap, ◌∙◌, subst, inl, inr, true, false, ◌||◌, not, Option, none, some,
  List, [], ◌∷◌, ◌++◌, arith, if◌then◌else◌, ==_iff, Bool-cases, length, keep,
}
use bracket_craft.Prelude.Sort.{insort, sort_by}
use bracket_craft.Prelude.Teams.{Uuid}
use bracket_craft.Substitutions.{Window}
use bracket_craft.Substitutions.Limits.{
  optional_eq, window_eq, window_le, has_window, add_window, window_set, sorted_windows, TeamUsage,
  merge,
}

-- No window twice.
abbrev pub WindowsDistinct : List Window → Type 0
WindowsDistinct [] = Unit
WindowsDistinct (w ∷ ws) = (has_window w ws ≡ false) × WindowsDistinct ws

optional_eq→≡ : (a b : Option Uuid) → optional_eq a b ≡ true → a ≡ b
optional_eq→≡ none none h = refl
optional_eq→≡ none (some b) h = cc
optional_eq→≡ (some a) none h = cc
optional_eq→≡ (some a) (some b) h = ground (arith, ==_iff a b)

optional_eq_refl : (a : Option Uuid) → optional_eq a a ≡ true
optional_eq_refl none = refl
optional_eq_refl (some a) = ground arith

window_eq→≡ : (v w : Window) → window_eq v w ≡ true → v ≡ w
unfolding window_eq
window_eq→≡ v w h = ground (
  arith,
  optional_eq→≡ v.segment_id w.segment_id,
  ==_iff v.minute w.minute,
  ==_iff v.added_minute w.added_minute,
)

window_eq_refl : (w : Window) → window_eq w w ≡ true
unfolding window_eq
window_eq_refl w = ground (arith, optional_eq_refl w.segment_id)

has_window-insort :
    (w v : Window) (ws : List Window)
    → has_window w (insort window_le v ws) ≡ (window_eq w v || has_window w ws)
unfolding insort has_window
has_window-insort w v [] = refl
has_window-insort w v (x ∷ ws) = ground (arith, has_window-insort w v ws)

has_window-sorted :
    (w : Window) (ws : List Window) → has_window w (sort_by window_le ws) ≡ has_window w ws
unfolding sort_by has_window
has_window-sorted w [] = refl
has_window-sorted w (v ∷ ws) =
    ground (arith, has_window-insort w v (sort_by window_le ws), has_window-sorted w ws)

insort-WindowsDistinct :
    (v : Window) (ws : List Window)
    → has_window v ws ≡ false
    → WindowsDistinct ws
    → WindowsDistinct (insort window_le v ws)
unfolding insort has_window
insort-WindowsDistinct v [] f d = (refl, tt)
insort-WindowsDistinct v (x ∷ ws) f d = elim (Bool-cases (window_le v x)) [
  | inl e ↦ rw e (f, d)
  | inr e ↦ rw e (
    ground (arith, has_window-insort x v ws, apart v x, window_eq→≡ x v, window_eq_refl x),
    insort-WindowsDistinct v ws (ground arith) d.1,
  )
]
  where
    apart : (v x : Window) → window_eq x v ≡ true → window_eq v x ≡ true
    apart v x h = subst (λ y. window_eq v y ≡ true) (sym (window_eq→≡ x v h)) (window_eq_refl v)

sort-WindowsDistinct :
    (ws : List Window) → WindowsDistinct ws → WindowsDistinct (sort_by window_le ws)
unfolding sort_by
sort-WindowsDistinct [] d = tt
sort-WindowsDistinct (w ∷ ws) d =
    insort-WindowsDistinct w (sort_by window_le ws) (has_window-sorted w ws ∙ d.0)
      (sort-WindowsDistinct ws d.1)

window_set-WindowsDistinct : (ws : List Window) → WindowsDistinct (window_set ws)
unfolding window_set add_window
window_set-WindowsDistinct [] = tt
window_set-WindowsDistinct (w ∷ ws) = elim (Bool-cases (has_window w (window_set ws))) [
  | inl e ↦ rw e (window_set-WindowsDistinct ws)
  | inr e ↦ rw e (e, window_set-WindowsDistinct ws)
]

length-insort : (v : Window) (ws : List Window) → length (insort window_le v ws) ≡ suc (length ws)
unfolding insort
length-insort v [] = refl
length-insort v (x ∷ ws) = ground (arith, length-insort v ws)

length-sorted : (ws : List Window) → length (sort_by window_le ws) ≡ length ws
unfolding sort_by
length-sorted [] = refl
length-sorted (w ∷ ws) = length-insort w (sort_by window_le ws) ∙ ap suc (length-sorted ws)

has_window-window_set :
    (w : Window) (ws : List Window) → has_window w (window_set ws) ≡ has_window w ws
unfolding window_set add_window has_window
has_window-window_set w [] = refl
has_window-window_set w (v ∷ ws) = elim (Bool-cases (has_window v (window_set ws))) [
  | inl e ↦ rw e (elim (Bool-cases (window_eq w v)) [
    | inl same ↦ rw (same, window_eq→≡ w v same) e
    | inr other ↦ rw other (has_window-window_set w ws)
  ])
  | inr e ↦ rw e (ground (arith, has_window-window_set w ws))
]

has_window-append :
    (w : Window) (xs ys : List Window)
    → has_window w (xs ++ ys) ≡ (has_window w xs || has_window w ys)
unfolding has_window
has_window-append w [] ys = refl
has_window-append w (x ∷ xs) ys = ground (arith, has_window-append w xs ys)

length-add_one :
    (w : Window) (ws : List Window)
    → length (window_set (ws ++ w ∷ [])) ≤ (if has_window w ws then length ws else suc (length ws))
unfolding window_set add_window has_window
length-add_one w [] = omega arith
length-add_one w (v ∷ ws) = elim (Bool-cases (window_eq w v)) [
  | inl same ↦ ground (
    arith,
    length-add_one w ws,
    has_window-window_set v (ws ++ w ∷ []),
    has_window-append v ws (w ∷ []),
    subst (λ x. window_eq x w ≡ true) (window_eq→≡ w v same) (window_eq_refl w),
  )
  | inr other ↦ ground (arith, length-add_one w ws)
]

-- The windows of a usage to which one window is added.
pub length-merge_one :
    (w : Window) (u : TeamUsage) (n : ℕ)
    → length (merge u (record { substitutions = n; windows = w ∷ [] })).windows
      ≤ (if has_window w u.windows then length u.windows else suc (length u.windows))
unfolding merge sorted_windows
length-merge_one w u n = rw length-sorted (length-add_one w u.windows)

pub merge-WindowsDistinct : (u v : TeamUsage) → WindowsDistinct (merge u v).windows
unfolding merge sorted_windows
merge-WindowsDistinct u v =
    sort-WindowsDistinct (window_set (u.windows ++ v.windows))
      (window_set-WindowsDistinct (u.windows ++ v.windows))

absent-keep :
    (w : Window) (ws : List Window)
    → has_window w ws ≡ false
    → length (keep (λ v. not (window_eq w v)) ws) ≡ length ws
unfolding has_window
absent-keep w [] h = refl
absent-keep w (v ∷ ws) h = ground (arith, absent-keep w ws)

-- Taking a window out of distinct windows takes at most one.
pub keep-distinct :
    (w : Window) (ws : List Window)
    → WindowsDistinct ws
    → length ws ≤ suc (length (keep (λ v. not (window_eq w v)) ws))
unfolding has_window
keep-distinct w [] d = omega arith
keep-distinct w (v ∷ ws) d = elim (Bool-cases (window_eq w v)) [
  | inl same ↦ rw same (
      omega (
        arith,
        absent-keep w ws (subst (λ x. has_window x ws ≡ false) (sym (window_eq→≡ w v same)) d.0),
      ))
  | inr other ↦ rw other (omega (arith, keep-distinct w ws d.1))
]
