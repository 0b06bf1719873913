-- ===== src/Hosts/Store/Saved.antt =====
-- What is found by an id after a host is saved.
use longterm.Base.{
  ◌⊎◌, ◌≡◌, refl, sym, ap, ◌∙◌, Bool, true, false, ◌&&◌, ◌||◌, not, Option, none, some, List, [],
  ◌∷◌, ◌++◌, arith, leb, if◌then◌else◌, if_intro, Bool-cases, Option-cases, inl, inr, length,
  is_empty,
}
use longterm.Base.Text.{Text, same, same_refl, same→eq}
use longterm.Hosts.Host.{Host, Form, edit, new_host, max_hosts}
use longterm.Hosts.Store.{
  Store, find, change, set_has_password, save_host, put_host, save_password, ask, remove_password,
  store_password, save, set_error, no_error,
}
use longterm.Hosts.Store.Lookup.{find-change, find-append}
use longterm.Hosts.Store.Invariant.{edit-id}
use longterm.Hosts.Store.Keeps.{find-id, new_host-id}
use longterm.Hosts.Store.Refine.{
  same-find, revised-same, revised, revised-equal, set_has_password-revised, changed, has_password,
}

-- A host keeps its remembered password where it has no key and the form says so.
abbrev pub kept : Form → Host → Host
kept form h = record h {
  has_password = h.has_password && (is_empty form.key_id && form.remember_password);
}

put_host-keeps :
    (k r p has : Bool)
    → ((k && (r && p)) ≡ true) ⊎ ((((not k || not r) && has)) ≡ false)
    → (has && (k && r)) ≡ has
put_host-keeps k r p has h = ground arith

put_host-forgets : (k r p has : Bool) → ((not k || not r) && has) ≡ true → (has && (k && r)) ≡ false
put_host-forgets k r p has h = ground arith

-- `host` is in the list, and its id is found there.
save_password-found :
    (form : Form) (host : Host) (s : Store) (j : Text)
    → find host.id s.hosts ≡ some host
    → find j (save_password form host s).hosts ≡ revised host.id (kept form) s.hosts j
unfolding save_password
save_password-found form host s j found =
    let P : Store → Type 0 = λ t. find j t.hosts ≡ revised host.id (kept form) s.hosts j in
    let no_key = is_empty form.key_id in
    let asked = form.remember_password in
    let typed = not (is_empty form.password) in
    let with_password : Bool → Host = λ b. record host { has_password = b } in
    let same = revised-same host.id (kept form) s.hosts j host found in
    if_intro P (no_key && (asked && typed)) (ask (store_password host.id form.password) s)
      (if (not no_key || not asked) && host.has_password
        then ask (remove_password host.id) (set_has_password host.id false s)
        else s)
      (λ e. same (ap with_password (put_host-keeps no_key asked typed host.has_password (inl e))))
      (λ _.
        if_intro P ((not no_key || not asked) && host.has_password)
          (ask (remove_password host.id) (set_has_password host.id false s)) s
          (λ e.
            set_has_password-revised false host.id s j
            ∙ revised-equal host.id (changed (has_password false)) (kept form) s.hosts j host found
                (ap with_password (sym (put_host-forgets no_key asked typed host.has_password e))))
          (λ e.
            same (ap with_password (put_host-keeps no_key asked typed host.has_password (inr e)))))

put_host-found :
    (form : Form) (host : Host) (hosts : List Host) (s : Store) (j : Text)
    → find host.id hosts ≡ some host
    → find j (put_host form host hosts s).1.hosts ≡ revised host.id (kept form) hosts j
unfolding put_host
put_host-found form host hosts s j found =
    let now = record s { hosts = hosts } in
    if_intro
      (λ t.
        find j (save_password form host (set_error no_error t)).hosts
        ≡ revised host.id (kept form) hosts j)
      s.batch now (save now) (λ _. save_password-found form host (set_error no_error now) j found)
      (λ _. save_password-found form host (set_error no_error (save now)) j found)

-- What is found by an id after `saveHost`, by what the form makes of the host.
abbrev pub saved_as : Text → Text → Form → List Host → Text → Option Host
saved_as fresh id form hs j = elim (find id hs) [
  | some old ↦ if same id j then some (kept form (edit form old)) else find j hs
  | none ↦
      if leb max_hosts (length hs)
      then find j hs
      else if same fresh j
      then some (edit form (new_host fresh))
      else find j hs
]

put_old :
    (fresh id : Text) (form : Form) (s : Store) (j : Text) (old : Host)
    → find id s.hosts ≡ some old
    → find j (put_host form (edit form old) (change id (λ _. edit form old) s.hosts) s).1.hosts
      ≡ (if same id j then some (kept form (edit form old)) else find j s.hosts)
put_old fresh id form s j old found =
    let host = edit form old in
    let hosts = change id (λ _. host) s.hosts in
    let is_id : host.id ≡ id = edit-id form old ∙ find-id id s.hosts found in
    let there : (i : Text) → find i hosts ≡ (if same id i then some host else find i s.hosts) = λ i.
      find-change id i (λ _. host) s.hosts (λ h e. is_id ∙ sym (same→eq h.id id e))
      ∙ rw found refl in
    let here : find id hosts ≡ some host = there id ∙ rw (same_refl id) refl in
    put_host-found form host hosts s j (ap (λ i. find i hosts) is_id ∙ here)
    ∙ ap (λ i. revised i (kept form) hosts j) is_id
    ∙ elim (Bool-cases (same id j)) [
      | inl e ↦ rw (e, here) refl
      | inr e ↦ rw e (there j ∙ rw e refl)
    ]

append_choice :
    (fresh i : Text) (host : Host) (hs : List Host)
    → find fresh hs ≡ none
    → elim (find i hs) [ none ↦ if same fresh i then some host else none | some g ↦ some g ]
      ≡ (if same fresh i then some host else find i hs)
append_choice fresh i host hs unused = elim (Bool-cases (same fresh i)) [
  | inl e ↦
      ap (λ o. elim o [ none ↦ if same fresh i then some host else none | some g ↦ some g ])
        (sym (same-find fresh i hs e) ∙ unused)
      ∙ rw e refl
  | inr e ↦ elim (Option-cases (find i hs)) [
    | inl gone ↦ rw (gone, e) refl
    | inr (g, there) ↦ rw (there, e) refl
  ]
]

put_new :
    (fresh : Text) (host : Host) (form : Form) (s : Store) (j : Text)
    → host.id ≡ fresh
    → host.has_password ≡ false
    → find fresh s.hosts ≡ none
    → find j (put_host form host (s.hosts ++ host ∷ []) s).1.hosts
      ≡ (if same fresh j then some host else find j s.hosts)
put_new fresh host form s j is_id without unused =
    let hosts = s.hosts ++ host ∷ [] in
    let there : (i : Text) → find i hosts ≡ (if same fresh i then some host else find i s.hosts) =
      λ i.
        find-append i s.hosts host
        ∙ ap
            (λ x. elim (find i s.hosts) [
              | none ↦ if same x i then some host else none
              | some g ↦ some g
            ])
            is_id
        ∙ append_choice fresh i host s.hosts unused in
    let here : find fresh hosts ≡ some host = there fresh ∙ rw (same_refl fresh) refl in
    put_host-found form host hosts s j (ap (λ i. find i hosts) is_id ∙ here)
    ∙ ap (λ i. revised i (kept form) hosts j) is_id
    ∙ elim (Bool-cases (same fresh j)) [
      | inl e ↦
          rw (e, here)
            (ap
                (λ b. some (record host {
                  has_password = b && (is_empty form.key_id && form.remember_password);
                }))
                without
              ∙ ap (λ b. some (record host { has_password = b })) (sym without))
      | inr e ↦ rw e (there j ∙ rw e refl)
    ]

pub new_host-without :
    (form : Form) (fresh : Text) → (edit form (new_host fresh)).has_password ≡ false
unfolding edit new_host
new_host-without form fresh = refl

-- after `saveHost`, with an id that no host has yet: the host it was called for is as the form
-- says, a new host is found by its new id unless there are too many, and every other id finds
-- what it found before
pub save_host-found :
    (fresh id : Text) (form : Form) (s : Store) (j : Text)
    → find fresh s.hosts ≡ none
    → find j (save_host fresh id form s).1.hosts ≡ saved_as fresh id form s.hosts j
unfolding save_host
save_host-found fresh id form s j unused = elim (Option-cases (find id s.hosts)) [
  | inr (old, found) ↦ rw (found, save_host, saved_as) (put_old fresh id form s j old found)
  | inl gone ↦ elim (Bool-cases (leb max_hosts (length s.hosts))) [
    | inl full ↦ rw (gone, full, save_host, saved_as) refl
    | inr room ↦
        rw (gone, room, save_host, saved_as)
          (put_new fresh (edit form (new_host fresh)) form s j
            (edit-id form (new_host fresh) ∙ new_host-id fresh) (new_host-without form fresh)
            unused)
  ]
]
