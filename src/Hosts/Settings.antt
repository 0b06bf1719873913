-- ===== src/Hosts/Settings.antt =====
-- src/hoststore.cpp: `load` and `save`, over the values that `QSettings` gives.
pub mod RoundTrip
use longterm.Base.{
  ℕ, suc, zero, ◌+◌, Bool, true, false, ◌&&◌, Option, none, some, List, [], ◌∷◌, map, leb,
  if◌then◌else◌, length, take, is_empty,
}
use longterm.Base.Text.{Text}
use longterm.Hosts.Host.{
  ℤ, pos, Host, seconds, valid_port, max_hosts, max_keep_alive_interval, max_connect_timeout,
}

-- The values of an array entry, as they are read: none for a key that is missing.
pub record HostEntry : Type 0 where
  pub id : Option Text
  pub name : Option Text
  pub address : Option Text
  pub port : Option ℤ
  pub user : Option Text
  pub key_id : Option Text
  pub has_password : Option Bool
  pub jump_host_id : Option Text
  pub forward_agent : Option Bool
  pub local_forwards : Option (List Text)
  pub remote_forwards : Option (List Text)
  pub dynamic_forwards : Option (List Text)
  pub environment : Option (List Text)
  pub tmux_session : Option Text
  pub keep_alive_interval : Option ℤ
  pub connect_timeout : Option ℤ
  pub mosh : Option Bool
  pub mosh_server : Option Text
  pub group : Option Text
  pub favorite : Option Bool
  pub last_used : Option (Option ℕ)
  pub mac_address : Option Text
  pub logging : Option Bool
  pub system_id : Option Text
  pub system_name : Option Text

abbrev value {ℓ} : {A : Type ℓ} → A → Option A → A
value fallback none = fallback
value fallback (some a) = a

load_host : HostEntry → Host
load_host e = record {
  id = value [] e.id;
  name = value [] e.name;
  address = value [] e.address;
  port = valid_port (value (pos 22) e.port);
  user = value [] e.user;
  key_id = value [] e.key_id;
  has_password = value false e.has_password;
  jump_host_id = value [] e.jump_host_id;
  forward_agent = value false e.forward_agent;
  local_forwards = value [] e.local_forwards;
  remote_forwards = value [] e.remote_forwards;
  dynamic_forwards = value [] e.dynamic_forwards;
  environment = value [] e.environment;
  tmux_session = value [] e.tmux_session;
  keep_alive_interval = seconds (value (pos 0) e.keep_alive_interval) max_keep_alive_interval;
  connect_timeout = seconds (value (pos 0) e.connect_timeout) max_connect_timeout;
  mosh = value false e.mosh;
  mosh_server = value [] e.mosh_server;
  group = value [] e.group;
  favorite = value false e.favorite;
  last_used = value none e.last_used;
  mac_address = value [] e.mac_address;
  logging = value false e.logging;
  system_id = value [] e.system_id;
  system_name = value [] e.system_name;
}

unfoldable pub load_entries : List HostEntry → List Host
unfolding load_host
load_entries [] = []
load_entries (e ∷ es) =
    let hosts = load_entries es in if is_empty (load_host e).id then hosts else load_host e ∷ hosts

unfoldable pub load : List HostEntry → List Host
unfolding load_entries
load es = load_entries (take max_hosts es)

pub save_entry : Host → HostEntry
save_entry h = record {
  id = some h.id;
  name = some h.name;
  address = some h.address;
  port = some (pos h.port);
  user = some h.user;
  key_id = some h.key_id;
  has_password = some h.has_password;
  jump_host_id = some h.jump_host_id;
  forward_agent = some h.forward_agent;
  local_forwards = some h.local_forwards;
  remote_forwards = some h.remote_forwards;
  dynamic_forwards = some h.dynamic_forwards;
  environment = some h.environment;
  tmux_session = some h.tmux_session;
  keep_alive_interval = some (pos h.keep_alive_interval);
  connect_timeout = some (pos h.connect_timeout);
  mosh = some h.mosh;
  mosh_server = some h.mosh_server;
  group = some h.group;
  favorite = some h.favorite;
  last_used = some h.last_used;
  mac_address = some h.mac_address;
  logging = some h.logging;
  system_id = some h.system_id;
  system_name = some h.system_name;
}

-- `save`: the array, written anew.
unfoldable pub save_entries : List Host → List HostEntry
unfolding save_entry
save_entries hosts = map save_entry hosts
