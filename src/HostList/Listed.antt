-- ===== src/HostList/Listed.antt =====
-- What the user sees after rebuild: which hosts, and in which order.
use Prim.Native.Nat.{zero}
use mathlib.Core.Option.{none}
use longterm.HostList.Order.{IsCollation}
use longterm.HostList.Sorted.{
  stable_sort-All, stable_sort-count, matching-Rising, stable_sort-IsSorted, matching-All,
  MayPrecede, count_row, IsSorted,
}
use longterm.Base.{
  ◌++◌, sym, ◌||◌, if◌then◌else◌, if_intro, ◌∙◌, ◌≤◌, ap, inr, suc, inl, is_empty, get_elem?, ◌+◌,
  ◌<◌, some, [], false, ◌⊎◌, ℕ, Option, ◌∷◌, true, refl, ◌≡◌, arith, List, All,
}
use longterm.HostList.{
  matches, is_below, tied, stable_sort, trimmed, is_used_before, is_grouped_before, rebuild,
  matching, Text, is_before, Row, Host, Locale,
}

-- Two favourites, or two hosts of one group, whatever the case of its letters, or of none.
abbrev pub SameHeading : Locale → Host → Host → Type 0
SameHeading o a b =
    ((a.favorite ≡ true) × (b.favorite ≡ true))
    ⊎ ((a.favorite ≡ false)
        × (b.favorite ≡ false)
        × (is_empty a.group ≡ is_empty b.group)
        × (o.compare_texts (o.to_lower a.group) (o.to_lower b.group) ≡ tied))

-- The row of `a` above the one of `b`. Favourites come first, then hosts with a group, groups in the
-- order of their names, then those without. Below one heading the last used come first, those of one
-- time by name, and those of one name in the order of the store.
pub record Precedes (o : Locale) (a b : Row) : Type 0 where
  pub favorites : b.host.favorite ≡ true → a.host.favorite ≡ true
  pub grouped :
      a.host.favorite ≡ false → is_empty a.host.group ≡ true → is_empty b.host.group ≡ true
  pub groups :
      a.host.favorite ≡ false
      → is_empty a.host.group ≡ is_empty b.host.group
      → is_below (o.compare_texts (o.to_lower b.host.group) (o.to_lower a.host.group)) ≡ false
  pub used : SameHeading o a.host b.host → o.time b.host.last_used ≤ o.time a.host.last_used
  pub named :
      SameHeading o a.host b.host
      → o.time a.host.last_used ≡ o.time b.host.last_used
      → is_below (o.compare_texts (o.to_lower b.host.name) (o.to_lower a.host.name)) ≡ false
  pub stable :
      SameHeading o a.host b.host
      → o.time a.host.last_used ≡ o.time b.host.last_used
      → o.compare_texts (o.to_lower a.host.name) (o.to_lower b.host.name) ≡ tied
      → a.row < b.row

-- Every two rows, not only neighbours.
pub IsListed : Locale → List Row → Type 0
IsListed o [] = Unit {0}
IsListed o (r ∷ rs) = All (Precedes o r) rs × IsListed o rs

is_before-Precedes :
    (o : Locale) (a b : Row) → IsCollation o.compare_texts → MayPrecede o a b → Precedes o a b
unfolding is_before is_grouped_before is_used_before
is_before-Precedes o a b c m =
    let u = m.unswapped in
    let s = m.stable in
    let g = c.ties (o.to_lower a.host.group) (o.to_lower b.host.group) in
    record {
      favorites = λ h. ground (arith, u, h);
      grouped = λ h e. ground (arith, u, h, e);
      groups = λ h e. ground (arith, u, h, e);
      used = λ h. elim h [ inl f ↦ ground (arith, u) | inr f ↦ ground (arith, u, g) ];
      named = λ h e. elim h [ inl f ↦ ground (arith, u) | inr f ↦ ground (arith, u, g) ];
      stable = λ h e n. elim h [ inl f ↦ ground (arith, s) | inr f ↦ ground (arith, s) ];
    }

All-Precedes :
    (o : Locale) (r : Row) (rs : List Row)
    → IsCollation o.compare_texts
    → All (MayPrecede o r) rs
    → All (Precedes o r) rs
All-Precedes o r [] c a = tt
All-Precedes o r (s ∷ rs) c (m, a) = (is_before-Precedes o r s c m, All-Precedes o r rs c a)

IsSorted-IsListed :
    (o : Locale) (rs : List Row) → IsCollation o.compare_texts → IsSorted o rs → IsListed o rs
unfolding IsListed IsSorted
IsSorted-IsListed o [] c s = tt
IsSorted-IsListed o (r ∷ rs) c (a, s) = (All-Precedes o r rs c a, IsSorted-IsListed o rs c s)

-- How often the list shows a host of the store: once where there is no search, or where the search is
-- in its name, address, user and group.
abbrev pub times_shown : Locale → Text → Option Host → ℕ
times_shown o search none = 0
times_shown o search (some h) =
    if is_empty search
      || o.has_text (h.name ++ b' ' ∷ h.address ++ b' ' ∷ h.user ++ b' ' ∷ h.group) search
    then 1
    else 0

count_row-later : (row : ℕ) (rs : List Row) → All (λ t. row < t.row) rs → count_row row rs ≡ 0
unfolding count_row
count_row-later row [] a = refl
count_row-later row (r ∷ rs) (l, a) = ground (arith, l, count_row-later row rs a)

count_row-matching :
    (o : Locale) (search : Text) (from k : ℕ) (hs : List Host)
    → count_row (from + k) (matching o search from hs) ≡ times_shown o search (get_elem? hs k)
unfolding count_row matching
count_row-matching o search from k [] = refl
count_row-matching o search from zero (h ∷ hs) = ground (
  arith,
  count_row-later (from + 0) (matching o search (from + 1) hs)
      (matching-All o search (from + 0) (from + 1) hs (omega arith)),
)
count_row-matching o search from (suc k) (h ∷ hs) =
    let e : from + 1 + k ≡ from + suc k = omega arith in
    ground (
      arith,
      ap (λ n. count_row n (matching o search (from + 1) hs)) e,
      count_row-matching o search (from + 1) k hs,
    )

matching-hosts :
    (o : Locale) (search : Text) (from : ℕ) (all hs : List Host)
    → ((k : ℕ) → get_elem? all (from + k) ≡ get_elem? hs k)
    → All (λ r. get_elem? all r.row ≡ some r.host) (matching o search from hs)
unfolding matching
matching-hosts o search from all [] f = tt
matching-hosts o search from all (h ∷ hs) f =
    let e : from ≡ from + 0 = omega arith in
    let rest = matching-hosts o search (from + 1) all hs (λ k.
      let e' : from + 1 + k ≡ from + suc k = omega arith in ap (get_elem? all) e' ∙ f (suc k)) in
    if_intro (All (λ r. get_elem? all r.row ≡ some r.host)) (matches o search h)
      (record { row = from; host = h } ∷ matching o search (from + 1) hs)
      (matching o search (from + 1) hs) (λ _. (ap (get_elem? all) e ∙ f 0, rest)) (λ _. rest)

-- Where localeAwareCompare is the comparison of an order: each row of the list shows the host of
-- its number in the store, every number is there once where there is no search or its host has the
-- searched text, and not at all elsewhere, and any two rows stand in order: favourites first, then
-- groups by name, then hosts without one, below each heading the last used first, then by name, and
-- those that tie in the order of the store.
pub rebuild-IsListed :
    (o : Locale) (search : Text) (hosts : List Host) (row : ℕ)
    → IsCollation o.compare_texts
    → IsListed o (rebuild o search hosts)
      × (count_row row (rebuild o search hosts)
          ≡ times_shown o (trimmed search) (get_elem? hosts row))
      × All (λ r. get_elem? hosts r.row ≡ some r.host) (rebuild o search hosts)
unfolding rebuild
rebuild-IsListed o search hosts row c =
    let word = trimmed search in
    let rows = matching o word 0 hosts in
    let plus : (k : ℕ) → k ≡ 0 + k = λ k. omega arith in
    (
      IsSorted-IsListed o (stable_sort o rows) c
          (stable_sort-IsSorted o rows c (matching-Rising o word 0 hosts)),
      stable_sort-count o row rows
          ∙ ap (λ n. count_row n rows) (plus row)
          ∙ count_row-matching o word 0 row hosts,
      stable_sort-All o (λ r. get_elem? hosts r.row ≡ some r.host) rows
          (matching-hosts o word 0 hosts hosts (λ k. ap (get_elem? hosts) (sym (plus k)))),
    )
