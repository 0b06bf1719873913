-- ===== src/Hosts/Store/Removed.antt =====
-- What is found after a host is removed, and what is asked of the vault.
use longterm.Base.{
  ◌≡◌, refl, sym, ap, ◌∙◌, false, none, some, List, [], ◌∷◌, ◌++◌, map, if◌then◌else◌, if_intro,
  Bool-cases, inl, inr, All, is_empty, append-nil,
}
use mathlib.Core.Path.{subst}
use longterm.Base.Text.{Text, same}
use longterm.Hosts.Host.{Host}
use longterm.Hosts.Store.{
  Store, find, remove_host, remove_at, without_jump, ask, remove_password, save,
}
use longterm.Hosts.Store.Lookup.{empty_differs, map_found, find-map, find-remove_at}
use longterm.Hosts.Store.Invariant.{IsValid}
use longterm.Hosts.Store.Keeps.{found-IsHost, find-id}
use longterm.Hosts.Store.Changes.{without_jump-Harmless}

without_jump-gone :
    (id : Text) (h : Host) → is_empty id ≡ false → same (without_jump id h).jump_host_id id ≡ false
unfolding without_jump
without_jump-gone id h ne = elim (Bool-cases (same h.jump_host_id id)) [
  | inl e ↦ rw e (empty_differs id ne)
  | inr e ↦ rw e e
]

no_jumps :
    (id : Text) (hs : List Host)
    → is_empty id ≡ false
    → All (λ h. same h.jump_host_id id ≡ false) (map (without_jump id) hs)
no_jumps id [] ne = tt
no_jumps id (h ∷ hs) ne = (without_jump-gone id h ne, no_jumps id hs ne)

remove_host-hosts :
    (id : Text) (s : Store) (old : Host)
    → find id s.hosts ≡ some old
    → (remove_host id s).hosts ≡ map (without_jump id) (remove_at id s.hosts)
unfolding remove_host
remove_host-hosts id s old found =
    let removed = save (record s { hosts = map (without_jump id) (remove_at id s.hosts) }) in
    rw (found, remove_host)
      (if_intro (λ t. t.hosts ≡ removed.hosts) old.has_password (ask (remove_password id) removed)
        removed (λ _. refl) (λ _. refl))

remove_host-requests :
    (id : Text) (s : Store) (old : Host)
    → find id s.hosts ≡ some old
    → (remove_host id s).requests
      ≡ s.requests ++ (if old.has_password then remove_password id ∷ [] else [])
unfolding remove_host
remove_host-requests id s old found =
    let removed = save (record s { hosts = map (without_jump id) (remove_at id s.hosts) }) in
    rw (found, remove_host)
      (if_intro
        (λ t. t.requests ≡ s.requests ++ (if old.has_password then remove_password id ∷ [] else []))
        old.has_password (ask (remove_password id) removed) removed (λ e. rw e refl)
        (λ e. rw e (sym (append-nil s.requests))))

-- `removeHost` of a host that is there, where the hosts are valid: its id finds no host any more,
-- other ids find what they found, no host goes through it any longer, and the vault is asked
-- to forget its password, if it has one
pub remove_host-found :
    (id : Text) (s : Store) (old : Host) (j : Text)
    → IsValid s.hosts
    → find id s.hosts ≡ some old
    → let t = remove_host id s in
      (find j t.hosts ≡ (if same id j then none else map_found (without_jump id) (find j s.hosts)))
      × All (λ h. same h.jump_host_id id ≡ false) t.hosts
      × (t.requests ≡ s.requests ++ (if old.has_password then remove_password id ∷ [] else []))
remove_host-found id s old j v found =
    let hosts = map (without_jump id) (remove_at id s.hosts) in
    let removed : (remove_host id s).hosts ≡ hosts = remove_host-hosts id s old found in
    (
      ap (find j) removed
          ∙ find-map j (without_jump id) (remove_at id s.hosts)
              (λ h. (without_jump-Harmless id h).0)
          ∙ ap (map_found (without_jump id)) (find-remove_at id j s.hosts v.distinct)
          ∙ elim (Bool-cases (same id j)) [ inl e ↦ rw e refl | inr e ↦ rw e refl ],
      subst (All (λ h. same h.jump_host_id id ≡ false)) (sym removed) (
          no_jumps id (remove_at id s.hosts) (
            subst (λ x. is_empty x ≡ false) (find-id id s.hosts found)
              (found-IsHost id s.hosts v.each found).has_id)),
      remove_host-requests id s old found,
    )
