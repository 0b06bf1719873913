-- ===== src/Hosts/Copy.antt =====
-- src/hoststore.cpp: `duplicateHost`, `restoreHost` and the backup that `exportHosts` gives.
pub mod Duplicate
pub mod FreeName
pub mod Restore
use longterm.Base.{
  ℕ, zero, suc, ◌+◌, Bool, true, false, ◌&&◌, ◌||◌, not, Option, none, some, List, [], ◌∷◌, ◌++◌,
  map, leb, if◌then◌else◌, length, is_empty,
}
use longterm.Base.Text.{Text, trimmed}
use longterm.Hosts.Host.{new_host, ℤ, pos, Host, Form, Options, max_hosts}
use longterm.Hosts.Store.{Store, too_many_hosts, find, change, has_name, save, set_error, save_host}

-- `for (int i = 2; indexOfName(name) >= 0; ++i)`, where `copy i` is the i-th name to try.
pub free_name : ℕ → (ℕ → Text) → List Host → ℕ → Text
free_name zero copy hosts i = copy i
free_name (suc rounds) copy hosts i =
    let later = free_name rounds copy hosts (i + 1) in
    if has_name (copy i) hosts then later else copy i

-- The copy has no password, and has not been used.
copied : Text → Text → Host → Host
copied fresh name host = record host {
  id = fresh;
  name = name;
  has_password = false;
  favorite = false;
  last_used = none;
}

-- `copy name i` is the name that the translation of "%1 copy" or "%1 copy %2" gives; one round
-- more than there are hosts is enough.
pub duplicate_host : (Text → ℕ → Text) → Text → Text → Store → Text × Store
unfolding free_name copied
duplicate_host copy fresh id s = elim (find id s.hosts) [
  | none ↦ ([], s)
  | some host ↦
      let name = free_name (length s.hosts) (copy host.name) s.hosts 1 in
      if leb max_hosts (length s.hosts)
      then ([], set_error too_many_hosts s)
      else (fresh, save (record s { hosts = s.hosts ++ copied fresh name host ∷ [] }))
]

-- A map of `exportHosts`, as `restoreHost` reads it.
pub record Backup : Type 0 where
  pub id : Text
  pub form : Form
  pub favorite : Bool
  pub last_used : Option ℕ
  pub system_id : Text
  pub system_name : Text

-- The map of `host()`, and what `exportHosts` adds to it. No password is in it.
pub backup_of : Host → Host → Backup
backup_of found host = record {
  id = host.id;
  form = record {
    name = found.name;
    address = found.address;
    port = pos found.port;
    user = found.user;
    key_id = found.key_id;
    password = [];
    remember_password = true;
    options = record {
      jump_host_id = found.jump_host_id;
      forward_agent = found.forward_agent;
      local_forwards = found.local_forwards;
      remote_forwards = found.remote_forwards;
      dynamic_forwards = found.dynamic_forwards;
      environment = found.environment;
      tmux_session = found.tmux_session;
      keep_alive_interval = pos found.keep_alive_interval;
      connect_timeout = pos found.connect_timeout;
      mosh = found.mosh;
      mosh_server = found.mosh_server;
      group = found.group;
      mac_address = found.mac_address;
      logging = found.logging;
    };
  };
  favorite = found.favorite;
  last_used = host.last_used;
  system_id = host.system_id;
  system_name = host.system_name;
}

-- Of a map that `host()` leaves empty, every value is read as the default.
pub exported : List Host → Host → Backup
exported hosts host = elim (find host.id hosts) [
  | none ↦ backup_of (new_host []) host
  | some found ↦ backup_of found host
]

export_hosts : Store → List Backup
unfolding exported
export_hosts s = map (exported s.hosts) s.hosts

-- What the backup knows and the form does not. The password is asked for only without a key.
pub restored : Backup → Bool → Host → Host
restored b has_password host = record host {
  id = b.id;
  has_password = has_password && is_empty host.key_id;
  favorite = b.favorite;
  last_used = b.last_used;
  system_id = b.system_id;
  system_name = b.system_name;
}

abbrev pub set_batch : Bool → Store → Store
set_batch batch s = record s { batch = batch }

abbrev pub quiet : Form → Form
quiet form = record form { password = []; remember_password = true }

restore_saved : Backup → Bool → Text → Store → Store
unfolding restored
restore_saved b has_password id s = elim (find id s.hosts) [
  | none ↦ s
  | some _ ↦ save (record s { hosts = change id (restored b has_password) s.hosts })
]

abbrev pub is_known : Text → List Host → Bool
is_known id hosts = elim (find id hosts) [ none ↦ false | some _ ↦ true ]

pub restore_host : Text → Backup → Bool → Store → Store
unfolding restore_saved
restore_host fresh b has_password s =
    let (id, written) =
      save_host fresh (if is_known b.id s.hosts then b.id else []) (quiet b.form)
        (set_batch true s) in
    if is_empty b.id || is_empty (trimmed b.form.name)
    then s
    else if not (is_known b.id s.hosts) && leb max_hosts (length s.hosts)
    then s
    else restore_saved b has_password id (set_batch false written)
