-- ===== src/Hosts/Store.antt =====
-- src/hoststore.cpp: what the store does with its hosts, its settings file and the vault.
pub mod Lookup
pub mod Invariant
pub mod Keeps
pub mod Changes
pub mod Reach
pub mod Refine
pub mod Saved
pub mod Removed
use longterm.Base.{
  ℕ, suc, ◌+◌, Bool, true, false, ◌&&◌, ◌||◌, not, Option, none, some, List, [], ◌∷◌, ◌++◌, map,
  leb, if◌then◌else◌, length, is_empty,
}
use longterm.Base.Text.{Text, same}
use longterm.Hosts.Host.{Host, Form, new_host, edit, max_hosts}

-- `m_vault->store` and `m_vault->remove`, by the host whose password it is.
pub data Request : Type 0 where
  store_password : Text → Text → Request
  remove_password : Text → Request

pub data HostError : Type 0 where
  no_error : HostError
  too_many_hosts : HostError
  not_remembered : Text → HostError

-- `saved` is what the settings file holds, `requests` what was asked of the vault, oldest first.
pub record Store : Type 0 where
  pub hosts : List Host
  pub saved : List Host
  pub batch : Bool
  pub error : HostError
  pub requests : List Request

-- The first host with the id, as `indexOf` and `find` look it up.
unfoldable pub find : Text → List Host → Option Host
find id [] = none
find id (h ∷ hs) = if same h.id id then some h else find id hs

-- A change to `m_hosts[row]`, where `row` is `indexOf(id)`.
unfoldable pub change : Text → (Host → Host) → List Host → List Host
change id f [] = []
change id f (h ∷ hs) = if same h.id id then f h ∷ hs else h ∷ change id f hs

pub remove_at : Text → List Host → List Host
remove_at id [] = []
remove_at id (h ∷ hs) = if same h.id id then hs else h ∷ remove_at id hs

unfoldable pub has_name : Text → List Host → Bool
has_name name [] = false
has_name name (h ∷ hs) = same h.name name || has_name name hs

abbrev pub save : Store → Store
save s = record s { saved = s.hosts }

abbrev pub set_error : HostError → Store → Store
set_error e s = record s { error = e }

abbrev pub ask : Request → Store → Store
ask r s = record s { requests = s.requests ++ r ∷ [] }

abbrev pub same_flag : Bool → Bool → Bool
same_flag true b = b
same_flag false b = not b

-- A change that is saved.
abbrev pub change_saved : Text → (Host → Host) → Store → Store
change_saved id f s = save (record s { hosts = change id f s.hosts })

pub set_has_password : Text → Bool → Store → Store
set_has_password id has s = elim (find id s.hosts) [
  | none ↦ s
  | some host ↦
      if same_flag host.has_password has
      then s
      else change_saved id (λ h. record h { has_password = has }) s
]

-- What `saveHost` does when the hosts are as they are to be.
unfoldable pub save_password : Form → Host → Store → Store
save_password form host s =
    if is_empty form.key_id && (form.remember_password && not (is_empty form.password))
    then ask (store_password host.id form.password) s
    else if (not (is_empty form.key_id) || not form.remember_password) && host.has_password
    then ask (remove_password host.id) (set_has_password host.id false s)
    else s

unfoldable pub put_host : Form → Host → List Host → Store → Text × Store
unfolding save_password
put_host form host hosts s =
    let changed = record s { hosts = hosts } in
    let written = if s.batch then changed else save changed in
    (host.id, save_password form host (set_error no_error written))

-- `fresh` is the id that `QUuid::createUuid` gives; the result is the id, empty on failure.
unfoldable pub save_host : Text → Text → Form → Store → Text × Store
unfolding put_host
save_host fresh id form s = elim (find id s.hosts) [
  | some old ↦ put_host form (edit form old) (change id (λ _. edit form old) s.hosts) s
  | none ↦
      if leb max_hosts (length s.hosts)
      then ([], set_error too_many_hosts s)
      else put_host form (edit form (new_host fresh)) (s.hosts ++ edit form (new_host fresh) ∷ []) s
]

pub remember_password : Text → Text → Store → Store
remember_password id password s = elim (find id s.hosts) [
  | none ↦ s
  | some host ↦
      if not (is_empty host.key_id) || is_empty password
      then s
      else ask (store_password host.id password) s
]

-- The vault's answer to `store_password`, `none` where it succeeded.
pub password_stored : Text → Option Text → Store → Store
password_stored id (some message) s = set_error (not_remembered message) s
password_stored id none s = elim (find id s.hosts) [
  | none ↦ ask (remove_password id) s
  | some _ ↦ set_has_password id true s
]

without_key : Text → Host → Host
without_key key h = if same h.key_id key then record h { key_id = []; forward_agent = false } else h

uses_key : Text → List Host → Bool
uses_key key [] = false
uses_key key (h ∷ hs) = same h.key_id key || uses_key key hs

pub forget_key : Text → Store → Store
forget_key key s =
    if uses_key key s.hosts then save (record s { hosts = map (without_key key) s.hosts }) else s

pub set_system : Text → Text → Text → Store → Store
set_system id system_id system_name s = elim (find id s.hosts) [
  | none ↦ s
  | some host ↦
      if same host.system_id system_id && same host.system_name system_name
      then s
      else change_saved id (λ h. record h { system_id = system_id; system_name = system_name }) s
]

pub without_jump : Text → Host → Host
without_jump id h = if same h.jump_host_id id then record h { jump_host_id = [] } else h

pub remove_host : Text → Store → Store
remove_host id s = elim (find id s.hosts) [
  | none ↦ s
  | some host ↦
      let removed = save (record s { hosts = map (without_jump id) (remove_at id s.hosts) }) in
      if host.has_password then ask (remove_password id) removed else removed
]

pub set_favorite : Text → Bool → Store → Store
set_favorite id favorite s = elim (find id s.hosts) [
  | none ↦ s
  | some host ↦
      if same_flag host.favorite favorite
      then s
      else change_saved id (λ h. record h { favorite = favorite }) s
]

pub set_key : Text → Text → Store → Store
set_key id key s = elim (find id s.hosts) [
  | none ↦ s
  | some host ↦
      let changed = change_saved id (λ h. record h { key_id = key }) s in
      if same host.key_id key
      then s
      else if host.has_password
      then ask (remove_password id) (set_has_password id false changed)
      else changed
]

pub mark_used : ℕ → Text → Store → Store
mark_used now id s = elim (find id s.hosts) [
  | none ↦ s
  | some _ ↦ change_saved id (λ h. record h { last_used = some now }) s
]
