-- ===== src/Hosts/Store/Refine.antt =====
-- The store as a map from ids to hosts: what each operation does to the host found by an id.
use longterm.Base.{
  ℕ, ◌≡◌, refl, sym, ap, ◌∙◌, Bool, true, false, ◌&&◌, Option, none, some, List, if◌then◌else◌,
  if_intro, option_intro, Bool-cases, inl, inr,
}
use longterm.Base.Text.{Text, same, same_refl, same→eq}
use longterm.Hosts.Host.{Host}
use longterm.Hosts.Store.{
  Store, find, change_saved, same_flag, set_favorite, set_key, set_system, mark_used,
  set_has_password, ask, remove_password,
}
use longterm.Hosts.Store.Lookup.{map_found, find-change}

-- The map with the host of an id changed.
abbrev pub revised : Text → (Host → Host) → List Host → Text → Option Host
revised id f hs j = if same id j then map_found f (find id hs) else find j hs

pub same-find : (id j : Text) (hs : List Host) → same id j ≡ true → find id hs ≡ find j hs
same-find id j hs e = ap (λ x. find x hs) (same→eq id j e)

revised-none :
    (id : Text) (f : Host → Host) (hs : List Host) (j : Text)
    → find id hs ≡ none
    → find j hs ≡ revised id f hs j
revised-none id f hs j gone = elim (Bool-cases (same id j)) [
  | inl e ↦ rw (e, gone) (sym (same-find id j hs e) ∙ gone)
  | inr e ↦ rw e refl
]

pub revised-same :
    (id : Text) (f : Host → Host) (hs : List Host) (j : Text) (h : Host)
    → find id hs ≡ some h
    → f h ≡ h
    → find j hs ≡ revised id f hs j
revised-same id f hs j h found stays = elim (Bool-cases (same id j)) [
  | inl e ↦ rw (e, found) (sym (same-find id j hs e) ∙ found ∙ ap some (sym stays))
  | inr e ↦ rw e refl
]

same_flag→eq : (a b : Bool) → same_flag a b ≡ true → b ≡ a
same_flag→eq true b e = e
same_flag→eq false true e = cc
same_flag→eq false false e = refl

-- What the operations on one host change of it.
pub data Change : Type 0 where
  sets_favorite : Bool → Change
  sets_key : Text → Change
  sets_system : Text → Text → Change
  is_used : ℕ → Change
  has_password : Bool → Change

abbrev pub carry_out : Change → Text → Store → Store
carry_out (sets_favorite favorite) id s = set_favorite id favorite s
carry_out (sets_key key) id s = set_key id key s
carry_out (sets_system system_id system_name) id s = set_system id system_id system_name s
carry_out (is_used now) id s = mark_used now id s
carry_out (has_password has) id s = set_has_password id has s

-- A host that gets another key has no password.
abbrev pub changed : Change → Host → Host
changed (sets_favorite favorite) h = record h { favorite = favorite }
changed (sets_key key) h =
    if same h.key_id key then h else record h { key_id = key; has_password = false }
changed (sets_system system_id system_name) h = record h {
  system_id = system_id;
  system_name = system_name;
}
changed (is_used now) h = record h { last_used = some now }
changed (has_password has) h = record h { has_password = has }

-- A change that is left out where it changes nothing.
module _ (id : Text) (f : Host → Host) (j : Text) (keeps : (h : Host) → (f h).id ≡ h.id) where
  change_saved-revised : (s : Store) → find j (change_saved id f s).hosts ≡ revised id f s.hosts j
  change_saved-revised s = find-change id j f s.hosts (λ h e. keeps h)

  guarded-revised :
      (test : Host → Bool) (s : Store)
      → ((h : Host) → test h ≡ true → f h ≡ h)
      → let t : Store = elim (find id s.hosts) [
        | none ↦ s
        | some h ↦ if test h then s else change_saved id f s
      ] in
        find j t.hosts ≡ revised id f s.hosts j
  guarded-revised test s stays =
      option_intro (λ (t : Store). find j t.hosts ≡ revised id f s.hosts j) (find id s.hosts)
        (λ gone. revised-none id f s.hosts j gone)
        (λ h found.
          if_intro (λ (t : Store). find j t.hosts ≡ revised id f s.hosts j) (test h) s
            (change_saved id f s) (λ e. revised-same id f s.hosts j h found (stays h e))
            (λ _. change_saved-revised s))

set_favorite-revised :
    (favorite : Bool) (id : Text) (s : Store) (j : Text)
    → find j (set_favorite id favorite s).hosts
      ≡ revised id (changed (sets_favorite favorite)) s.hosts j
unfolding set_favorite
set_favorite-revised favorite id s j =
    guarded-revised id (changed (sets_favorite favorite)) j (λ h. refl)
      (λ h. same_flag h.favorite favorite) s
      (λ h e. ap (λ b. record h { favorite = b }) (same_flag→eq h.favorite favorite e))

pub set_has_password-revised :
    (has : Bool) (id : Text) (s : Store) (j : Text)
    → find j (set_has_password id has s).hosts ≡ revised id (changed (has_password has)) s.hosts j
unfolding set_has_password
set_has_password-revised has id s j =
    guarded-revised id (changed (has_password has)) j (λ h. refl)
      (λ h. same_flag h.has_password has) s
      (λ h e. ap (λ b. record h { has_password = b }) (same_flag→eq h.has_password has e))

both_true : (a b : Bool) → (a && b) ≡ true → (a ≡ true) × (b ≡ true)
both_true true true e = (refl, refl)
both_true true false e = cc
both_true false b e = cc

set_system-revised :
    (a b id : Text) (s : Store) (j : Text)
    → find j (set_system id a b s).hosts ≡ revised id (changed (sets_system a b)) s.hosts j
unfolding set_system
set_system-revised a b id s j =
    guarded-revised id (changed (sets_system a b)) j (λ h. refl)
      (λ h. same h.system_id a && same h.system_name b) s
      (λ h e.
        let (p, q) = both_true (same h.system_id a) (same h.system_name b) e in
        ap (λ x. record h { system_id = x; system_name = b }) (sym (same→eq h.system_id a p))
        ∙ ap (λ x. record h { system_name = x }) (sym (same→eq h.system_name b q)))

mark_used-revised :
    (now : ℕ) (id : Text) (s : Store) (j : Text)
    → find j (mark_used now id s).hosts ≡ revised id (changed (is_used now)) s.hosts j
unfolding mark_used
mark_used-revised now id s j =
    option_intro (λ (t : Store). find j t.hosts ≡ revised id (changed (is_used now)) s.hosts j)
      (find id s.hosts) (λ gone. revised-none id _ s.hosts j gone)
      (λ h found. change_saved-revised id (changed (is_used now)) j (λ h. refl) s)

-- What `setKey` does with a host that has another key: first the key, then the password.
abbrev with_key : Text → Host → Host
with_key key h = record h { key_id = key }

pub revised-equal :
    (id : Text) (f g : Host → Host) (hs : List Host) (j : Text) (h : Host)
    → find id hs ≡ some h
    → f h ≡ g h
    → revised id f hs j ≡ revised id g hs j
revised-equal id f g hs j h found e = rw found (ap (λ x. if same id j then some x else find j hs) e)

-- Two changes of the host one after the other.
pub revised-twice :
    (id : Text) (f g k : Host → Host) (hs gs : List Host) (j : Text) (h : Host)
    → find id hs ≡ some h
    → ((i : Text) → find i gs ≡ revised id f hs i)
    → g (f h) ≡ k h
    → revised id g gs j ≡ revised id k hs j
revised-twice id f g k hs gs j h found first e =
    let there : find id gs ≡ some (f h) = first id ∙ rw (same_refl id, found) refl in
    elim (Bool-cases (same id j)) [
      | inl d ↦ rw (d, there, found) (ap some e)
      | inr d ↦ rw d (first j ∙ rw d refl)
    ]

set_key-new :
    (key : Text) (h : Host)
    → same h.key_id key ≡ false
    → changed (sets_key key) h ≡ record h { key_id = key; has_password = false }
set_key-new key h other = rw other refl

set_key-revised :
    (key id : Text) (s : Store) (j : Text)
    → find j (set_key id key s).hosts ≡ revised id (changed (sets_key key)) s.hosts j
unfolding set_key
set_key-revised key id s j =
    let P : Store → Type 0 = λ t. find j t.hosts ≡ revised id (changed (sets_key key)) s.hosts j in
    let now = change_saved id (with_key key) s in
    let first : (i : Text) → find i now.hosts ≡ revised id (with_key key) s.hosts i =
      λ i. change_saved-revised id (with_key key) i (λ h. refl) s in
    option_intro P (find id s.hosts)
      (λ gone. revised-none id (changed (sets_key key)) s.hosts j gone)
      (λ h found.
        if_intro P (same h.key_id key) s
          (if h.has_password then ask (remove_password id) (set_has_password id false now) else now)
          (λ e. revised-same id (changed (sets_key key)) s.hosts j h found (rw e refl))
          (λ other.
            if_intro P h.has_password (ask (remove_password id) (set_has_password id false now)) now
              (λ _.
                set_has_password-revised false id now j
                ∙ revised-twice id (with_key key) (changed (has_password false))
                    (changed (sets_key key)) s.hosts now.hosts j h found first
                    (sym (set_key-new key h other)))
              (λ e.
                first j
                ∙ revised-equal id (with_key key) (changed (sets_key key)) s.hosts j h found (
                    ap (λ b. record h { key_id = key; has_password = b }) e
                    ∙ sym (set_key-new key h other)))))

-- every operation that changes one host changes just that: what is found by its id is the host
-- with the change, and what is found by another id stays as it was
pub carry_out-revised :
    (c : Change) (id : Text) (s : Store) (j : Text)
    → find j (carry_out c id s).hosts ≡ revised id (changed c) s.hosts j
carry_out-revised (sets_favorite favorite) id s j = set_favorite-revised favorite id s j
carry_out-revised (sets_key key) id s j = set_key-revised key id s j
carry_out-revised (sets_system a b) id s j = set_system-revised a b id s j
carry_out-revised (is_used now) id s j = mark_used-revised now id s j
carry_out-revised (has_password has) id s j = set_has_password-revised has id s j
