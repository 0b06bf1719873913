-- ===== src/Tests/Hosts.antt =====
-- A store with two hosts.
use longterm.Base.{
  ℕ, ◌+◌, ◌≡◌, refl, true, false, none, some, [], ◌∷◌, ◌++◌, arith, All, length, is_empty, ◌≤◌,
  ◌&&◌, if◌then◌else◌,
}
use longterm.Base.Text.{is_space, skip_spaces, trimmed, Text, same}
use longterm.Hosts.Host.{single_lines, single_line, pos, Host, Options, Form, max_hosts}
use longterm.Hosts.Store.{
  Store, find, save_host, remove_host, without_jump, remove_password, no_error,
}
use longterm.Hosts.Store.Lookup.{map_found}
use longterm.Hosts.Store.Invariant.{IsHost, IsValid}
use longterm.Hosts.Store.Reach.{start, Reachable, begins, goes_on, saves, Reachable-IsValid}
use longterm.Hosts.Store.Refine.{sets_key, carry_out, changed, revised, carry_out-revised}
use longterm.Hosts.Store.Saved.{saved_as, save_host-found}
use longterm.Hosts.Store.Removed.{remove_host-found}
use longterm.Hosts.Copy.{free_name, backup_of, restore_host}
use longterm.Hosts.Copy.FreeName.{IsFirstFree, free_name_lem}
use longterm.Hosts.Copy.Restore.{IsClean, restore_host-backup_of}
use longterm.Hosts.Settings.{load_entries, load, save_entries, save_entry, HostEntry}
use longterm.Hosts.Settings.RoundTrip.{load-save_entries, load-bounds}

abbrev no_options : Options
no_options = record {
  jump_host_id = [];
  forward_agent = false;
  local_forwards = [];
  remote_forwards = [];
  dynamic_forwards = [];
  environment = [];
  tmux_session = [];
  keep_alive_interval = pos 0;
  connect_timeout = pos 0;
  mosh = false;
  mosh_server = [];
  group = [];
  mac_address = [];
  logging = false;
}

-- A port out of range, and a password to remember.
abbrev form : Form
form = record {
  name = 0x68 ∷ [];
  address = 0x61 ∷ 0x20 ∷ [];
  port = pos 70000;
  user = [];
  key_id = [];
  password = 0x70 ∷ [];
  remember_password = true;
  options = no_options;
}

-- The host `id`, reached through `jump`.
abbrev host : Text → Text → Text → Host
host id name jump = record {
  id = id;
  name = name;
  address = 0x61 ∷ [];
  port = 22;
  user = [];
  key_id = [];
  has_password = true;
  jump_host_id = jump;
  forward_agent = false;
  local_forwards = [];
  remote_forwards = [];
  dynamic_forwards = [];
  environment = [];
  tmux_session = [];
  keep_alive_interval = 30;
  connect_timeout = 0;
  mosh = false;
  mosh_server = [];
  group = [];
  favorite = false;
  last_used = none;
  mac_address = [];
  logging = false;
  system_id = [];
  system_name = [];
}

abbrev gate : Host
gate = host (1 ∷ []) (0x67 ∷ []) []

abbrev inner : Host
inner = host (2 ∷ []) (0x68 ∷ []) (1 ∷ [])

abbrev store : Store
store = record {
  hosts = gate ∷ inner ∷ [];
  saved = gate ∷ inner ∷ [];
  batch = false;
  error = no_error;
  requests = [];
}

host-IsHost : (id name jump : Text) → is_empty id ≡ false → IsHost (host id name jump)
host-IsHost id name jump e = record {
  has_id = e;
  port_from = omega arith;
  port_to = omega arith;
  keep_alive = omega arith;
  timeout = omega arith;
}

store-IsValid : IsValid store.hosts
unfolding find same
store-IsValid = record {
  few = omega arith;
  distinct = (refl, (refl, tt));
  each = (host-IsHost _ _ _ refl, (host-IsHost _ _ _ refl, tt));
}

first_store : Reachable (save_host (7 ∷ []) [] form (start [])).1
unfolding load load_entries save_entries find
first_store = goes_on begins (saves (7 ∷ []) [] form refl refl)

Reachable-IsValid_example :
    let s = (save_host (7 ∷ []) [] form (start [])).1 in IsValid s.hosts × (s.saved ≡ s.hosts)
Reachable-IsValid_example = Reachable-IsValid (save_host (7 ∷ []) [] form (start [])).1 first_store

carry_out-revised_example :
    find (2 ∷ []) (carry_out (sets_key (9 ∷ [])) (2 ∷ []) store).hosts
    ≡ revised (2 ∷ []) (changed (sets_key (9 ∷ []))) store.hosts (2 ∷ [])
carry_out-revised_example = carry_out-revised (sets_key (9 ∷ [])) (2 ∷ []) store (2 ∷ [])

three_unused : find (3 ∷ []) store.hosts ≡ none
unfolding find same
three_unused = refl

save_host-found_example :
    find (2 ∷ []) (save_host (3 ∷ []) (2 ∷ []) form store).1.hosts
    ≡ saved_as (3 ∷ []) (2 ∷ []) form store.hosts (2 ∷ [])
save_host-found_example = save_host-found (3 ∷ []) (2 ∷ []) form store (2 ∷ []) three_unused

gate_found : find (1 ∷ []) store.hosts ≡ some gate
unfolding find same
gate_found = refl

remove_host-found_example :
    let t = remove_host (1 ∷ []) store in
    (find (2 ∷ []) t.hosts ≡ (
      if same (1 ∷ []) (2 ∷ [])
      then none
      else map_found (without_jump (1 ∷ [])) (find (2 ∷ []) store.hosts)))
    × All (λ h. same h.jump_host_id (1 ∷ []) ≡ false) t.hosts
    × (t.requests ≡ [] ++ (if true then remove_password (1 ∷ []) ∷ [] else []))
remove_host-found_example = remove_host-found (1 ∷ []) store gate (2 ∷ []) store-IsValid gate_found

abbrev copies : ℕ → Text
copies i = (0x66 + i) ∷ []

copies-inj : (i j : ℕ) → copies i ≡ copies j → i ≡ j
copies-inj i j e = let heads : 0x66 + i ≡ 0x66 + j = cc in omega (arith, heads)

free_name_lem_example :
    (m : ℕ) × IsFirstFree copies store.hosts 1 m
    × (m ≤ 1 + length store.hosts)
    × (free_name (length store.hosts) copies store.hosts 1 ≡ copies m)
free_name_lem_example = free_name_lem copies store.hosts copies-inj

load-save_entries_example : load (save_entries store.hosts) ≡ store.hosts
load-save_entries_example = load-save_entries store.hosts store-IsValid

abbrev damaged : HostEntry
damaged = record (save_entry gate) {
  id = some (4 ∷ []);
  port = some (pos 70000);
  connect_timeout = none;
}

load-bounds_example : (length (load (damaged ∷ [])) ≤ max_hosts) × All IsHost (load (damaged ∷ []))
load-bounds_example = load-bounds (damaged ∷ [])

inner-IsClean : IsClean inner
unfolding single_line single_lines trimmed skip_spaces is_space
inner-IsClean = record {
  numbers = host-IsHost _ _ _ refl;
  name = refl;
  named = refl;
  address = refl;
  user = refl;
  tmux_session = refl;
  mosh_server = refl;
  group = refl;
  mac_address = refl;
  local_forwards = refl;
  remote_forwards = refl;
  dynamic_forwards = refl;
  environment = refl;
}

abbrev one_host : Store
one_host = record store { hosts = gate ∷ [] }

two_unused : find (2 ∷ []) one_host.hosts ≡ none
unfolding find same
two_unused = refl

jump_differs : same (1 ∷ []) (3 ∷ []) ≡ false
unfolding same
jump_differs = refl

new_unused : find (3 ∷ []) one_host.hosts ≡ none
unfolding find same
new_unused = refl

restore_host-backup_of_example :
    let hosts =
      one_host.hosts ++ record inner { has_password = true && is_empty inner.key_id } ∷ [] in
    restore_host (3 ∷ []) (backup_of inner inner) true one_host
    ≡ record one_host { hosts = hosts; saved = hosts; batch = false; error = no_error }
restore_host-backup_of_example =
    restore_host-backup_of (3 ∷ []) inner true one_host inner-IsClean (host-IsHost _ _ _ refl, tt)
      two_unused new_unused jump_differs (omega arith)
