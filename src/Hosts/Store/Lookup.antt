-- ===== src/Hosts/Store/Lookup.antt =====
-- What is found by an id after a change to the list of hosts.
use longterm.Base.{
  map, ◌≡◌, refl, sym, ap, ◌∙◌, true, false, Option, none, some, List, [], ◌∷◌, ◌++◌, arith,
  if◌then◌else◌, Bool-cases, inl, inr, is_empty,
}
use longterm.Base.Text.{same-nil, Text, same, same→eq, same_left, same_apart}
use longterm.Hosts.Host.{Host}
use longterm.Hosts.Store.{find, change, remove_at}

abbrev pub map_found : (Host → Host) → Option Host → Option Host
map_found f none = none
map_found f (some h) = some (f h)

-- A change to the host `i` that leaves its id.
abbrev pub KeepsId : Text → (Host → Host) → Type 0
KeepsId i f = (h : Host) → same h.id i ≡ true → (f h).id ≡ h.id

pub find-change :
    (i j : Text) (f : Host → Host) (hs : List Host)
    → KeepsId i f
    → find j (change i f hs) ≡ (if same i j then map_found f (find i hs) else find j hs)
unfolding find change
find-change i j f [] k = ground arith
find-change i j f (h ∷ hs) k = elim (Bool-cases (same h.id i)) [
  | inl e ↦
      let p : same (f h).id j ≡ same i j = ap (λ x. same x j) (k h e) ∙ same_left h.id i j e in
      let q : same h.id j ≡ same i j = same_left h.id i j e in rw (e, p, q) (ground arith)
  | inr e ↦ elim (Bool-cases (same h.id j)) [
    | inl d ↦ rw (e, d, same_apart h.id i j e d) refl
    | inr d ↦ rw (e, d) (find-change i j f hs k)
  ]
]

pub find-append :
    (j : Text) (hs : List Host) (h : Host)
    → find j (hs ++ h ∷ [])
      ≡ elim (find j hs) [ none ↦ if same h.id j then some h else none | some g ↦ some g ]
unfolding find
find-append j [] h = refl
find-append j (g ∷ hs) h = ground (arith, find-append j hs h)

-- The ids of the hosts differ.
abbrev pub Distinct : List Host → Type 0
Distinct [] = Unit {0}
Distinct (h ∷ hs) = (find h.id hs ≡ none) × Distinct hs

-- Where the first host goes, its id is not found among the others.
removed_first :
    (i j : Text) (h : Host) (hs : List Host)
    → same h.id i ≡ true
    → find h.id hs ≡ none
    → find j (if same h.id i then hs else h ∷ remove_at i hs)
      ≡ (if same i j then none else if same h.id j then some h else find j hs)
removed_first i j h hs e gone = elim (Bool-cases (same i j)) [
  | inl f ↦
      let q : h.id ≡ j = same→eq h.id i e ∙ same→eq i j f in
      rw (e, f) (ap (λ x. find x hs) (sym q) ∙ gone)
  | inr f ↦ rw (e, f, same_left h.id i j e ∙ f) refl
]

pub find-remove_at :
    (i j : Text) (hs : List Host)
    → Distinct hs
    → find j (remove_at i hs) ≡ (if same i j then none else find j hs)
unfolding find remove_at
find-remove_at i j [] d = ground arith
find-remove_at i j (h ∷ hs) (gone, d) = elim (Bool-cases (same h.id i)) [
  | inl e ↦ removed_first i j h hs e gone
  | inr e ↦ elim (Bool-cases (same h.id j)) [
    | inl f ↦ rw (e, f, same_apart h.id i j e f) refl
    | inr f ↦ rw (e, f) (find-remove_at i j hs d)
  ]
]

-- A change to all hosts that leaves their ids.
pub find-map :
    (j : Text) (f : Host → Host) (hs : List Host)
    → ((h : Host) → (f h).id ≡ h.id)
    → find j (map f hs) ≡ map_found f (find j hs)
unfolding find
find-map j f [] k = refl
find-map j f (h ∷ hs) k =
    ap (λ x. if same x j then some (f h) else find j (map f hs)) (k h)
    ∙ elim (Bool-cases (same h.id j)) [ inl e ↦ rw e refl | inr e ↦ rw e (find-map j f hs k) ]

pub empty_differs : (id : Text) → is_empty id ≡ false → same [] id ≡ false
empty_differs [] e = cc
empty_differs (c ∷ id) e = same-nil c id
