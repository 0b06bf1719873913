-- ===== src/HostList/Sorted.antt =====
-- What stable_sort gives: the rows that it got, in the order of is_before.
use longterm.HostList.Order.{is_before_one_way, is_before_passes, IsCollation}
use longterm.Base.{
  ◌==◌, if◌then◌else◌, ltb, ◌+◌, if_intro, [], ◌||◌, ◌<◌, ◌∷◌, ℕ, true, false, ◌≡◌, refl, arith,
  List, All,
}
use longterm.Base.Text.{Text}
use longterm.HostList.{matches, Host, is_before, matching, stable_sort, insert_row, Row, Locale}

-- `a` may stand somewhere above `b`.
pub record MayPrecede (o : Locale) (a b : Row) : Type 0 where
  pub unswapped : is_before o b.host a.host ≡ false
  pub stable : is_before o a.host b.host || ltb a.row b.row ≡ true

-- Every two rows, not only neighbours.
unfoldable pub IsSorted : Locale → List Row → Type 0
IsSorted o [] = Unit {0}
IsSorted o (r ∷ rs) = All (MayPrecede o r) rs × IsSorted o rs

insert_row-All :
    (o : Locale) (P : Row → Type 0) (r : Row) (rs : List Row)
    → P r
    → All P rs
    → All P (insert_row o r rs)
unfolding insert_row
insert_row-All o P r [] p a = (p, tt)
insert_row-All o P r (s ∷ rs) p (q, a) =
    if_intro (All P) (is_before o s.host r.host) (s ∷ insert_row o r rs) (r ∷ s ∷ rs)
      (λ _. (q, insert_row-All o P r rs p a)) (λ _. (p, (q, a)))

-- The rows below one that `r` may precede.
all_after :
    (o : Locale) (r s : Row) (rs : List Row)
    → IsCollation o.compare_texts
    → is_before o s.host r.host ≡ false
    → All (MayPrecede o s) rs
    → All (λ t. r.row < t.row) rs
    → All (MayPrecede o r) rs
all_after o r s [] c h a n = tt
all_after o r s (t ∷ rs) c h (m, a) (n, ns) = (
  record {
    unswapped = is_before_passes o t.host s.host r.host c m.unswapped h;
    stable = ground (arith, n);
  },
  all_after o r s rs c h a ns,
)

insert_row-IsSorted :
    (o : Locale) (r : Row) (rs : List Row)
    → IsCollation o.compare_texts
    → All (λ t. r.row < t.row) rs
    → IsSorted o rs
    → IsSorted o (insert_row o r rs)
unfolding insert_row IsSorted
insert_row-IsSorted o r [] c n s = (tt, tt)
insert_row-IsSorted o r (t ∷ rs) c (n, ns) (a, s) =
    if_intro (IsSorted o) (is_before o t.host r.host) (t ∷ insert_row o r rs) (r ∷ t ∷ rs)
      (λ h. (
        insert_row-All o (MayPrecede o t) r rs
            (record {
              unswapped = is_before_one_way o t.host r.host c h;
              stable = ground (arith, h);
            })
            a,
        insert_row-IsSorted o r rs c ns s,
      ))
      (λ h. (
        (record { unswapped = h; stable = ground (arith, n) }, all_after o r t rs c h a ns),
        (a, s),
      ))

-- The rows of a list in the order of the store.
pub Rising : List Row → Type 0
Rising [] = Unit {0}
Rising (r ∷ rs) = All (λ t. r.row < t.row) rs × Rising rs

pub stable_sort-All :
    (o : Locale) (P : Row → Type 0) (rs : List Row) → All P rs → All P (stable_sort o rs)
unfolding stable_sort
stable_sort-All o P [] a = tt
stable_sort-All o P (r ∷ rs) (p, a) =
    insert_row-All o P r (stable_sort o rs) p (stable_sort-All o P rs a)

pub stable_sort-IsSorted :
    (o : Locale) (rs : List Row)
    → IsCollation o.compare_texts
    → Rising rs
    → IsSorted o (stable_sort o rs)
unfolding stable_sort Rising IsSorted
stable_sort-IsSorted o [] c r = tt
stable_sort-IsSorted o (s ∷ rs) c (a, r) =
    insert_row-IsSorted o s (stable_sort o rs) c (stable_sort-All o (λ t. s.row < t.row) rs a)
      (stable_sort-IsSorted o rs c r)

pub matching-All :
    (o : Locale) (search : Text) (row from : ℕ) (hs : List Host)
    → row < from
    → All (λ t. row < t.row) (matching o search from hs)
unfolding matching
matching-All o search row from [] l = tt
matching-All o search row from (h ∷ hs) l =
    let rest = matching-All o search row (from + 1) hs (omega arith) in
    if_intro (All (λ t. row < t.row)) (matches o search h)
      (record { row = from; host = h } ∷ matching o search (from + 1) hs)
      (matching o search (from + 1) hs) (λ _. (l, rest)) (λ _. rest)

pub matching-Rising :
    (o : Locale) (search : Text) (row : ℕ) (hs : List Host) → Rising (matching o search row hs)
unfolding matching Rising
matching-Rising o search row [] = tt
matching-Rising o search row (h ∷ hs) =
    let rest = matching-Rising o search (row + 1) hs in
    if_intro Rising (matches o search h)
      (record { row = row; host = h } ∷ matching o search (row + 1) hs)
      (matching o search (row + 1) hs)
      (λ _. (matching-All o search row (row + 1) hs (omega arith), rest)) (λ _. rest)

-- How often a row is in the list.
unfoldable pub count_row : ℕ → List Row → ℕ
count_row row [] = 0
count_row row (r ∷ rs) = if r.row == row then count_row row rs + 1 else count_row row rs

insert_row-count :
    (o : Locale) (row : ℕ) (r : Row) (rs : List Row)
    → count_row row (insert_row o r rs) ≡ count_row row (r ∷ rs)
unfolding insert_row count_row
insert_row-count o row r [] = refl
insert_row-count o row r (s ∷ rs) = ground (arith, insert_row-count o row r rs)

pub stable_sort-count :
    (o : Locale) (row : ℕ) (rs : List Row) → count_row row (stable_sort o rs) ≡ count_row row rs
unfolding stable_sort count_row
stable_sort-count o row [] = refl
stable_sort-count o row (r ∷ rs) =
    ground (arith, insert_row-count o row r (stable_sort o rs), stable_sort-count o row rs)
