-- ===== src/Hosts/Host.antt =====
-- src/hoststore.h: `Host`, and how `saveHost` makes one of what was typed.
use longterm.Base.{
  ℕ, Bool, false, ◌&&◌, ◌||◌, Option, none, List, [], ◌∷◌, map, ltb, leb, ◌==◌, if◌then◌else◌,
  is_empty,
}
use longterm.Base.Text.{Text, same, trimmed}

-- `int`, where a negative value can come in: `negsuc n` is -(n + 1).
pub data ℤ : Type 0 where
  pos : ℕ → ℤ
  negsuc : ℕ → ℤ

abbrev pub max_hosts : ℕ
max_hosts = 1000

abbrev pub max_keep_alive_interval : ℕ
max_keep_alive_interval = 3600

abbrev pub max_connect_timeout : ℕ
max_connect_timeout = 300

-- `last_used` is none for a time that is not valid.
pub record Host : Type 0 where
  pub id : Text
  pub name : Text
  pub address : Text
  pub port : ℕ
  pub user : Text
  pub key_id : Text
  pub has_password : Bool
  pub jump_host_id : Text
  pub forward_agent : Bool
  pub local_forwards : List Text
  pub remote_forwards : List Text
  pub dynamic_forwards : List Text
  pub environment : List Text
  pub tmux_session : Text
  pub keep_alive_interval : ℕ
  pub connect_timeout : ℕ
  pub mosh : Bool
  pub mosh_server : Text
  pub group : Text
  pub favorite : Bool
  pub last_used : Option ℕ
  pub mac_address : Text
  pub logging : Bool
  pub system_id : Text
  pub system_name : Text

-- `options`, by the names that `saveHost` reads.
pub record Options : Type 0 where
  pub jump_host_id : Text
  pub forward_agent : Bool
  pub local_forwards : List Text
  pub remote_forwards : List Text
  pub dynamic_forwards : List Text
  pub environment : List Text
  pub tmux_session : Text
  pub keep_alive_interval : ℤ
  pub connect_timeout : ℤ
  pub mosh : Bool
  pub mosh_server : Text
  pub group : Text
  pub mac_address : Text
  pub logging : Bool

-- The other arguments of `saveHost`.
pub record Form : Type 0 where
  pub name : Text
  pub address : Text
  pub port : ℤ
  pub user : Text
  pub key_id : Text
  pub password : Text
  pub remember_password : Bool
  pub options : Options

-- Control characters become spaces.
unfoldable pub plain : ℕ → ℕ
plain c = if leb c 0x1f || c == 0x7f then 0x20 else c

unfoldable pub single_line : Text → Text
unfolding plain
single_line text = trimmed (map plain text)

unfoldable pub single_lines : List Text → List Text
single_lines [] = []
single_lines (entry ∷ value) =
    let line = single_line entry in
    let lines = single_lines value in if is_empty line then lines else line ∷ lines

-- `qBound(0, value, maximum)`
unfoldable pub seconds : ℤ → ℕ → ℕ
seconds (pos n) maximum = if ltb maximum n then maximum else n
seconds (negsuc n) maximum = 0

unfoldable pub valid_port : ℤ → ℕ
valid_port (pos n) = if leb 1 n && leb n 65535 then n else 22
valid_port (negsuc n) = 22

-- What a fresh `Host` holds: the fields without a default are set before they are read.
unfoldable pub new_host : Text → Host
new_host id = record {
  id = id;
  name = [];
  address = [];
  port = 0;
  user = [];
  key_id = [];
  has_password = false;
  jump_host_id = [];
  forward_agent = false;
  local_forwards = [];
  remote_forwards = [];
  dynamic_forwards = [];
  environment = [];
  tmux_session = [];
  keep_alive_interval = 0;
  connect_timeout = 0;
  mosh = false;
  mosh_server = [];
  group = [];
  favorite = false;
  last_used = none;
  mac_address = [];
  logging = false;
  system_id = [];
  system_name = [];
}

-- Another address is another system; a host is no jump host of itself.
unfoldable pub edit : Form → Host → Host
unfolding single_line single_lines seconds valid_port
edit form host =
    let options = form.options in
    let stays = same host.address (single_line form.address) in
    record host {
      name = single_line form.name;
      system_id = if stays then host.system_id else [];
      system_name = if stays then host.system_name else [];
      address = single_line form.address;
      port = valid_port form.port;
      user = single_line form.user;
      key_id = form.key_id;
      jump_host_id = if same options.jump_host_id host.id then [] else options.jump_host_id;
      forward_agent = options.forward_agent;
      local_forwards = single_lines options.local_forwards;
      remote_forwards = single_lines options.remote_forwards;
      dynamic_forwards = single_lines options.dynamic_forwards;
      environment = single_lines options.environment;
      tmux_session = single_line options.tmux_session;
      keep_alive_interval = seconds options.keep_alive_interval max_keep_alive_interval;
      connect_timeout = seconds options.connect_timeout max_connect_timeout;
      mosh = options.mosh;
      mosh_server = single_line options.mosh_server;
      group = single_line options.group;
      mac_address = single_line options.mac_address;
      logging = options.logging;
    }
