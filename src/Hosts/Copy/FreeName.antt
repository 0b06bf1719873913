-- ===== src/Hosts/Copy/FreeName.antt =====
-- The loop of `duplicateHost` that looks for a name ends, with the first that no host has.
use longterm.Base.{
  ◌==◌, ==→eq, ℕ, zero, suc, ◌+◌, ◌≤◌, ◌<◌, ◌≡◌, refl, sym, ap, ◌∙◌, true, false, ◌||◌, List, [],
  ◌∷◌, arith, if◌then◌else◌, Bool-cases, inl, inr, length,
}
use longterm.Base.Text.{Text, same, same→eq, same_left}
use longterm.Hosts.Host.{Host}
use longterm.Hosts.Store.{has_name}
use longterm.Hosts.Copy.{free_name}

-- The hosts without those of the name.
without_name : Text → List Host → List Host
without_name name [] = []
without_name name (h ∷ hs) =
    let rest = without_name name hs in if same h.name name then rest else h ∷ rest

length-without_name : (name : Text) (hs : List Host) → length (without_name name hs) ≤ length hs
unfolding without_name
length-without_name name [] = omega arith
length-without_name name (h ∷ hs) = ground (arith, length-without_name name hs)

without_name-shorter :
    (name : Text) (hs : List Host)
    → has_name name hs ≡ true
    → length (without_name name hs) < length hs
unfolding without_name has_name
without_name-shorter name [] e = cc
without_name-shorter name (h ∷ hs) e =
    ground (arith, length-without_name name hs, without_name-shorter name hs)

has_name-without_name :
    (name other : Text) (hs : List Host)
    → same name other ≡ false
    → has_name other (without_name name hs) ≡ has_name other hs
unfolding without_name has_name
has_name-without_name name other [] e = refl
has_name-without_name name other (h ∷ hs) e = elim (Bool-cases (same h.name name)) [
  | inl d ↦ rw (d, same_left h.name name other d, e) (has_name-without_name name other hs e)
  | inr d ↦ rw d (ap (λ b. same h.name other || b) (has_name-without_name name other hs e))
]

-- `m` is the first number from `i` on whose name no host has.
pub record IsFirstFree (copy : ℕ → Text) (hosts : List Host) (i m : ℕ) : Type 0 where
  pub from : i ≤ m
  pub free : has_name (copy m) hosts ≡ false
  pub used : (j : ℕ) → i ≤ j → j < m → has_name (copy j) hosts ≡ true

module _ (copy : ℕ → Text) (hosts : List Host)
    (distinct : (i j : ℕ) → copy i ≡ copy j → i ≡ j) where
  names_differ : (i j : ℕ) → i < j → same (copy i) (copy j) ≡ false
  names_differ i j h = elim (Bool-cases (same (copy i) (copy j))) [
    | inl e ↦ absurd (omega (arith, h, distinct i j (same→eq (copy i) (copy j) e)))
    | inr e ↦ e
  ]

  none_before : (i j : ℕ) → i ≤ j → j < i → has_name (copy j) hosts ≡ true
  none_before i j h k = absurd (omega (arith, h, k))

  used_before :
      (i m : ℕ)
      → has_name (copy i) hosts ≡ true
      → IsFirstFree copy hosts (i + 1) m
      → IsFirstFree copy hosts i m
  used_before i m e first = record {
    from = omega (arith, first.from);
    free = first.free;
    used = λ j h k. elim (Bool-cases (i == j)) [
      | inl d ↦ ap (λ n. has_name (copy n) hosts) (sym (==→eq i j d)) ∙ e
      | inr d ↦ first.used j (ground (arith, h, d)) k
    ];
  }

  -- `left` are the hosts whose names can still be among those to try.
  search_ends :
      (rounds i : ℕ) (left : List Host)
      → length left ≤ rounds
      → ((j : ℕ) → i ≤ j → has_name (copy j) hosts ≡ has_name (copy j) left)
      → (m : ℕ) × IsFirstFree copy hosts i m
        × (m ≤ i + length left)
        × (free_name rounds copy hosts i ≡ copy m)
  unfolding free_name has_name
  search_ends zero i [] few same_names = (
    i,
    record { from = omega arith; free = same_names i (omega arith); used = none_before i },
    omega arith,
    refl,
  )
  search_ends zero i (h ∷ left) few same_names = absurd (omega (arith, few))
  search_ends (suc rounds) i left few same_names = elim (Bool-cases (has_name (copy i) hosts)) [
    | inr e ↦
        (i, record { from = omega arith; free = e; used = none_before i }, omega arith, rw e refl)
    | inl e ↦
        let shorter = without_name-shorter (copy i) left (sym (same_names i (omega arith)) ∙ e) in
        let (m, first, bound, equal) =
          search_ends rounds (i + 1) (without_name (copy i) left) (omega (arith, few, shorter))
            (λ j h.
              same_names j (omega (arith, h))
              ∙ sym (
                  has_name-without_name (copy i) (copy j) left
                    (names_differ i j (omega (arith, h))))) in
        (m, used_before i m e first, omega (arith, bound, shorter), rw e equal)
  ]

  -- the loop of `duplicateHost` ends, after at most as many rounds as there are hosts, with the
  -- first of the names that no host has, where the names to try differ
  pub free_name_lem :
      (m : ℕ) × IsFirstFree copy hosts 1 m
      × (m ≤ 1 + length hosts)
      × (free_name (length hosts) copy hosts 1 ≡ copy m)
  free_name_lem = search_ends (length hosts) 1 hosts (omega arith) (λ j h. refl)
