-- ===== src/Hosts/Copy/Restore.antt =====
-- A host that was exported and is restored into another store is the same host.
use longterm.Base.{
  ◌<◌, ◌≡◌, refl, sym, ap, ◌∙◌, Bool, true, false, ◌&&◌, none, some, List, [], ◌∷◌, ◌++◌, arith,
  leb, Bool-cases, inl, inr, length, All, is_empty,
}
use longterm.Hosts.Settings.RoundTrip.{valid_port-pos, seconds-pos}
use longterm.Hosts.Store.Lookup.{find-append, empty_differs}
use longterm.Hosts.Store.Keeps.{new_host-id}
use longterm.Hosts.Store.Saved.{new_host-without}
use longterm.Base.Text.{same_sym, Text, same, same_refl, trimmed}
use longterm.Hosts.Host.{
  max_connect_timeout, max_keep_alive_interval, Host, Form, edit, new_host, single_line,
  single_lines, max_hosts,
}
use longterm.Hosts.Store.{no_error, save_password, Store, find, change, save_host, put_host}
use longterm.Hosts.Copy.{
  Backup, backup_of, restored, restore_host, restore_saved, set_batch, quiet, is_known,
}
use longterm.Hosts.Store.Invariant.{edit-id, IsHost}

-- The text of a host as `saveHost` leaves it, and no jump to itself.
pub record IsClean (h : Host) : Type 0 where
  pub numbers : IsHost h
  pub name : single_line h.name ≡ h.name
  pub named : is_empty (trimmed h.name) ≡ false
  pub address : single_line h.address ≡ h.address
  pub user : single_line h.user ≡ h.user
  pub tmux_session : single_line h.tmux_session ≡ h.tmux_session
  pub mosh_server : single_line h.mosh_server ≡ h.mosh_server
  pub group : single_line h.group ≡ h.group
  pub mac_address : single_line h.mac_address ≡ h.mac_address
  pub local_forwards : single_lines h.local_forwards ≡ h.local_forwards
  pub remote_forwards : single_lines h.remote_forwards ≡ h.remote_forwards
  pub dynamic_forwards : single_lines h.dynamic_forwards ≡ h.dynamic_forwards
  pub environment : single_lines h.environment ≡ h.environment

-- Only the jump and the address are compared with what the host was before.
edit-backup :
    (h g : Host) (has : Bool)
    → IsClean h
    → same h.jump_host_id g.id ≡ false
    → restored (backup_of h h) has (edit (quiet (backup_of h h).form) g)
      ≡ record h { has_password = has && is_empty h.key_id }
unfolding restored backup_of edit
edit-backup h g has c other =
    rw
      (
        other,
        c.name,
        c.address,
        c.user,
        c.tmux_session,
        c.mosh_server,
        c.group,
        c.mac_address,
        c.local_forwards,
        c.remote_forwards,
        c.dynamic_forwards,
        c.environment,
        valid_port-pos h.port c.numbers.port_from c.numbers.port_to,
        seconds-pos h.keep_alive_interval max_keep_alive_interval c.numbers.keep_alive,
        seconds-pos h.connect_timeout max_connect_timeout c.numbers.timeout,
      )
      refl

-- Without a password, and not for a host that has one, nothing is asked of the vault.
put_host-quiet :
    (form : Form) (h : Host) (hosts : List Host) (s : Store)
    → h.has_password ≡ false
    → put_host (quiet form) h hosts (set_batch true s)
      ≡ (h.id, record s { hosts = hosts; batch = true; error = no_error })
unfolding put_host save_password
put_host-quiet form h hosts s e = elim (Bool-cases (is_empty form.key_id)) [
  | inl d ↦ rw d refl
  | inr d ↦ rw (d, e) refl
]

change-append :
    (id : Text) (f : Host → Host) (hs : List Host) (h : Host)
    → find id hs ≡ none
    → h.id ≡ id
    → change id f (hs ++ h ∷ []) ≡ hs ++ f h ∷ []
unfolding change find
change-append id f [] h gone e = rw (ap (λ x. same x id) e ∙ same_refl id) refl
change-append id f (g ∷ hs) h gone e = elim (Bool-cases (same g.id id)) [
  | inl d ↦ let found : some g ≡ none = rw d at gone in cc
  | inr d ↦ rw d (ap (λ x. g ∷ x) (change-append id f hs h (rw d at gone) e))
]

find-nil : (hs : List Host) → All IsHost hs → find [] hs ≡ none
unfolding find
find-nil [] all = refl
find-nil (h ∷ hs) (v, all) = rw (same_sym h.id [] ∙ empty_differs h.id v.has_id) (find-nil hs all)

save_host-quiet :
    (fresh : Text) (form : Form) (s : Store)
    → find [] s.hosts ≡ none
    → length s.hosts < max_hosts
    → save_host fresh [] (quiet form) (set_batch true s) ≡ (
      fresh,
      record s {
        hosts = s.hosts ++ edit (quiet form) (new_host fresh) ∷ [];
        batch = true;
        error = no_error;
      },
    )
unfolding save_host
save_host-quiet fresh form s gone room =
    let host = edit (quiet form) (new_host fresh) in
    let hosts = s.hosts ++ host ∷ [] in
    let few : leb max_hosts (length s.hosts) ≡ false = ground (arith, room) in
    rw (gone, few, save_host)
      (put_host-quiet form host hosts s (new_host-without (quiet form) fresh)
        ∙ ap (λ i. (i, record s { hosts = hosts; batch = true; error = no_error }))
            (edit-id (quiet form) (new_host fresh) ∙ new_host-id fresh))

restore_saved-last :
    (b : Backup) (has : Bool) (g : Host) (s : Store) (hs : List Host)
    → s.hosts ≡ hs ++ g ∷ []
    → find g.id hs ≡ none
    → let hosts = hs ++ restored b has g ∷ [] in
      restore_saved b has g.id s ≡ record s { hosts = hosts; saved = hosts }
unfolding restore_saved
restore_saved-last b has g s hs e gone =
    let there : find g.id s.hosts ≡ some g =
      ap (find g.id) e ∙ find-append g.id hs g ∙ rw gone (rw (same_refl g.id) refl) in
    rw (there, restore_saved)
      (ap (λ l. record s { hosts = l; saved = l })
        (ap (change g.id (restored b has)) e ∙ change-append g.id (restored b has) hs g gone refl))

restore_host-unknown :
    (fresh : Text) (b : Backup) (has : Bool) (s : Store)
    → is_empty b.id ≡ false
    → is_empty (trimmed b.form.name) ≡ false
    → find b.id s.hosts ≡ none
    → find [] s.hosts ≡ none
    → length s.hosts < max_hosts
    → restore_host fresh b has s
      ≡ restore_saved b has fresh (record s {
        hosts = s.hosts ++ edit (quiet b.form) (new_host fresh) ∷ [];
        batch = false;
        error = no_error;
      })
unfolding restore_host
restore_host-unknown fresh b has s has_id named unknown gone room =
    let few : leb max_hosts (length s.hosts) ≡ false = ground (arith, room) in
    rw
      (
        restore_host,
        is_known,
        unknown,
        save_host-quiet fresh b.form s gone room,
        has_id,
        named,
        few,
      )
      refl

-- A clean host that was exported, and whose id the store does not have, is restored last in the
-- store and in its settings file, which are otherwise as they were, where the store has fewer than
-- 1000 hosts, each with an id, and the id made for a new host is neither that of a host nor that of
-- its jump host. All of it is as it was exported, but that it has a password only where the vault
-- got one and it has no key.
pub restore_host-backup_of :
    (fresh : Text) (h : Host) (has : Bool) (s : Store)
    → IsClean h
    → All IsHost s.hosts
    → find h.id s.hosts ≡ none
    → find fresh s.hosts ≡ none
    → same h.jump_host_id fresh ≡ false
    → length s.hosts < max_hosts
    → let hosts = s.hosts ++ record h { has_password = has && is_empty h.key_id } ∷ [] in
      restore_host fresh (backup_of h h) has s
      ≡ record s { hosts = hosts; saved = hosts; batch = false; error = no_error }
unfolding backup_of
restore_host-backup_of fresh h has s c each unknown unused other room =
    let b = backup_of h h in
    let g = edit (quiet b.form) (new_host fresh) in
    let is_fresh : g.id ≡ fresh = edit-id (quiet b.form) (new_host fresh) ∙ new_host-id fresh in
    let t = record s { hosts = s.hosts ++ g ∷ []; batch = false; error = no_error } in
    restore_host-unknown fresh b has s c.numbers.has_id c.named unknown (find-nil s.hosts each) room
    ∙ ap (λ i. restore_saved b has i t) (sym is_fresh)
    ∙ restore_saved-last b has g t s.hosts refl (ap (λ i. find i s.hosts) is_fresh ∙ unused)
    ∙ ap
        (λ k.
          let hosts = s.hosts ++ k ∷ [] in
          record s { hosts = hosts; saved = hosts; batch = false; error = no_error })
        (edit-backup h (new_host fresh) has c
          (ap (same h.jump_host_id) (new_host-id fresh) ∙ other))
