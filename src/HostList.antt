-- ===== src/HostList.antt =====
-- src/hostlist.cpp: the list of hosts that the user interface shows, searched, sorted and with headings.
pub mod Order
pub mod Sorted
pub mod Listed
use longterm.Base.{
  ℕ, ◌+◌, Bool, true, false, ◌||◌, ◌&&◌, not, Option, none, some, List, [], ◌∷◌, ◌++◌, ◌==◌, ltb,
  if◌then◌else◌, is_empty,
}
use longterm.Base.Text.{Text, same, trimmed}
use longterm.Hosts.Host.{Host}

-- `QString::localeAwareCompare`: below, at or over 0.
pub data Comparison : Type 0 where
  below : Comparison
  tied : Comparison
  above : Comparison

-- Qt's functions: `toLower`, `localeAwareCompare`, `contains` whatever the case, and the time by which
-- `QDateTime` compares. `favorites` and `other` are the translated headings.
pub record Locale : Type 0 where
  pub to_lower : Text → Text
  pub compare_texts : Text → Text → Comparison
  pub has_text : Text → Text → Bool
  pub time : Option ℕ → ℕ
  pub favorites : Text
  pub other : Text

-- A row of the source, and the host that it shows.
pub record Row : Type 0 where
  pub row : ℕ
  pub host : Host

abbrev pub is_below : Comparison → Bool
is_below below = true
is_below _ = false

abbrev pub is_tied : Comparison → Bool
is_tied tied = true
is_tied _ = false

abbrev pub searched_text : Host → Text
searched_text h = h.name ++ b' ' ∷ h.address ++ b' ' ∷ h.user ++ b' ' ∷ h.group

abbrev pub matches : Locale → Text → Host → Bool
matches o search h = is_empty search || o.has_text (searched_text h) search

unfoldable pub matching : Locale → Text → ℕ → List Host → List Row
matching o search row [] = []
matching o search row (h ∷ hs) =
    let rest = matching o search (row + 1) hs in
    if matches o search h then record { row = row; host = h } ∷ rest else rest

unfoldable pub is_headed : List Row → Bool
is_headed [] = false
is_headed (r ∷ rs) = r.host.favorite || not (is_empty r.host.group) || is_headed rs

abbrev pub compare_lower : Locale → Text → Text → Comparison
compare_lower o a b = o.compare_texts (o.to_lower a) (o.to_lower b)

-- The last used first, and then by name.
unfoldable pub is_used_before : Locale → Host → Host → Bool
is_used_before o a b =
    let left = o.time a.last_used in
    let right = o.time b.last_used in
    if not (left == right) then ltb right left else is_below (compare_lower o a.name b.name)

-- Hosts without a group come last.
unfoldable pub is_grouped_before : Locale → Host → Host → Bool
is_grouped_before o a b =
    let groups = compare_lower o a.group b.group in
    if is_empty a.group && not (is_empty b.group) || not (is_empty a.group) && is_empty b.group
    then not (is_empty a.group)
    else if not (is_tied groups)
    then is_below groups
    else is_used_before o a b

-- The order that rebuild gives to std::stable_sort.
unfoldable pub is_before : Locale → Host → Host → Bool
is_before o a b =
    if a.favorite && not b.favorite || not a.favorite && b.favorite
    then a.favorite
    else if not a.favorite
    then is_grouped_before o a b
    else is_used_before o a b

-- std::stable_sort, as what it must give: each row goes in front of the first that is not before it.
unfoldable pub insert_row : Locale → Row → List Row → List Row
insert_row o r [] = r ∷ []
insert_row o r (s ∷ rs) =
    let rest = insert_row o r rs in if is_before o s.host r.host then s ∷ rest else r ∷ s ∷ rs

unfoldable pub stable_sort : Locale → List Row → List Row
stable_sort o [] = []
stable_sort o (r ∷ rs) = insert_row o r (stable_sort o rs)

unfoldable pub rebuild : Locale → Text → List Host → List Row
rebuild o search hosts = stable_sort o (matching o (trimmed search) 0 hosts)

-- `m_headed` after rebuild
unfoldable pub headed : Locale → Text → List Host → Bool
headed o search hosts = is_headed (matching o (trimmed search) 0 hosts)

unfoldable pub section : Locale → Bool → Host → Text
section o is_headed h =
    if h.favorite then o.favorites else if is_empty h.group && is_headed then o.other else h.group

-- `SectionStartRole` of each row, for the section of the row above it.
unfoldable pub starts_from : Locale → Bool → Text → List Row → List Bool
starts_from o is_headed last [] = []
starts_from o is_headed last (r ∷ rs) =
    not (same last (section o is_headed r.host))
    ∷ starts_from o is_headed (section o is_headed r.host) rs

unfoldable pub section_starts : Locale → Bool → List Row → List Bool
section_starts o is_headed [] = []
section_starts o is_headed (r ∷ rs) = true ∷ starts_from o is_headed (section o is_headed r.host) rs
