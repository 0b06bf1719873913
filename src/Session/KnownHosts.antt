-- ===== src/Session/KnownHosts.antt =====
-- src/sshsession.cpp: trustNewHostKey, on the lines of the known_hosts file, each with its line feed.
use longterm.Base.{ℕ, Bool, false, ◌||◌, not, List, [], ◌∷◌, ◌++◌, ◌==◌, if◌then◌else◌, is_empty}
use longterm.Base.Text.{Text, same}
use longterm.Session.{Session}
use longterm.Session.Worker.{is_disconnected}
use longterm.Session.Event.{reconnect}

-- `line.left(space)`, and `line.mid(space)`, which is empty where there is no space.
unfoldable pub host_part : Text → Text
host_part [] = []
host_part (c ∷ line) = if c == b' ' then [] else c ∷ host_part line

unfoldable pub key_part : Text → Text
key_part [] = []
key_part (c ∷ line) = if c == b' ' then c ∷ line else key_part line

-- QByteArray::split and QList::join for a comma; a text without one is a list of itself.
unfoldable pub comma_add : ℕ → List Text → List Text
comma_add c [] = (c ∷ []) ∷ []
comma_add c (name ∷ names) = (c ∷ name) ∷ names

unfoldable pub comma_split : Text → List Text
comma_split [] = [] ∷ []
comma_split (c ∷ text) = if c == b',' then [] ∷ comma_split text else comma_add c (comma_split text)

unfoldable pub comma_join : List Text → Text
comma_join [] = []
comma_join (name ∷ []) = name
comma_join (name ∷ (other ∷ names)) = name ++ b',' ∷ comma_join (other ∷ names)

unfoldable pub names_host : Text → List Text → Bool
names_host pattern [] = false
names_host pattern (name ∷ names) = same name pattern || names_host pattern names

-- QList::removeAll
unfoldable pub remove_all : Text → List Text → List Text
remove_all pattern [] = []
remove_all pattern (name ∷ names) =
    if same name pattern then remove_all pattern names else name ∷ remove_all pattern names

unfoldable pub add_kept : Text → List Text → List Text → List Text
add_kept rest [] kept = kept
add_kept rest (name ∷ names) kept = (comma_join (name ∷ names) ++ rest) ∷ kept

unfoldable pub kept_line : Text → Text → List Text → List Text
kept_line pattern line kept =
    let names = comma_split (host_part line) in
    if is_empty (key_part line) || (is_empty (host_part line) || not (names_host pattern names))
    then line ∷ kept
    else add_kept (key_part line) (remove_all pattern names) kept

unfoldable pub without_pattern : Text → List Text → List Text
without_pattern pattern [] = []
without_pattern pattern (line ∷ lines) = kept_line pattern line (without_pattern pattern lines)

unfoldable pub trust_new_host_key : Session → Session
trust_new_host_key s =
    if not s.host_key_mismatch || not (is_disconnected s.state)
    then s
    else reconnect (record s { known_hosts = without_pattern s.mismatch_pattern s.known_hosts })
