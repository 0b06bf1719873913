-- ===== src/Session/Options.antt =====
-- src/sshsession.cpp: what startWorker makes of the options of a host.
use longterm.Hosts.Config.Arguments.{before, past}
use longterm.Hosts.Host.{negsuc, pos, ℤ}
use longterm.Base.{
  leb, ℕ, Bool, false, ◌||◌, ◌&&◌, not, Option, none, some, List, [], ◌∷◌, ◌==◌, ltb, if◌then◌else◌,
  is_empty,
}
use longterm.Base.Text.{Text}
use longterm.Hosts.Config.Fields.{has_character, Qt, count_of, after_last, starts_with}

pub record PortForward : Type 0 where
  pub near_port : ℕ
  pub host : Text
  pub far_port : ℕ

-- `toInt` of a text, where it is over 0 and at most 65535.
unfoldable pub port_in : Option ℤ → Option ℕ
port_in none = none
port_in (some (pos n)) = if leb 1 n && leb n 65535 then some n else none
port_in (some (negsuc n)) = none

-- The text up to the last such character, of a text that has one.
unfoldable pub before_last : ℕ → Text → Text
before_last c [] = []
before_last c (d ∷ s) =
    if has_character c s then d ∷ before_last c s else if d == c then [] else d ∷ s

unfoldable pub ends_with : ℕ → Text → Bool
ends_with c [] = false
ends_with c (d ∷ []) = d == c
ends_with c (d ∷ (e ∷ s)) = ends_with c (e ∷ s)

-- `left(size() - 1)` of a text that is not empty.
unfoldable pub all_but_last : Text → Text
all_but_last [] = []
all_but_last (c ∷ []) = []
all_but_last (c ∷ (d ∷ s)) = c ∷ all_but_last (d ∷ s)

-- `mid(1, size() - 2)`
unfoldable pub without_ends : Text → Text
without_ends [] = []
without_ends (c ∷ s) = all_but_last s

-- A bracketed IPv6 address without its brackets.
unfoldable pub unbracket : Text → Text
unbracket host = if starts_with b'[' host && ends_with b']' host then without_ends host else host

unfoldable pub forward_between : Option ℕ → Text → Option ℕ → Option PortForward
forward_between (some near) host (some far) =
    if is_empty host then none else some (record { near_port = near; host = host; far_port = far })
forward_between _ host _ = none

-- An entry "port:host:port", the same for the local and the remote forwards.
unfoldable pub read_forward : Qt → Text → Option PortForward
read_forward qt entry =
    let host = unbracket (before_last b':' (past b':' entry)) in
    if is_empty (before b':' entry) || ltb (count_of b':' entry) 2
    then none
    else forward_between (port_in (qt.to_int (before b':' entry))) host
        (port_in (qt.to_int (after_last b':' entry)))

unfoldable pub add_some {ℓ} : {A : Type ℓ} → Option A → List A → List A
add_some none as' = as'
add_some (some a) as' = a ∷ as'

unfoldable pub forwards : Qt → List Text → List PortForward
forwards qt [] = []
forwards qt (entry ∷ entries) = add_some (read_forward qt entry) (forwards qt entries)

unfoldable pub socks_ports : Qt → List Text → List ℕ
socks_ports qt [] = []
socks_ports qt (entry ∷ entries) = add_some (port_in (qt.to_int entry)) (socks_ports qt entries)

unfoldable pub read_variable : Text → Option (Text × Text)
read_variable entry =
    if has_character b'=' entry && not (is_empty (before b'=' entry))
    then some (before b'=' entry, past b'=' entry)
    else none

unfoldable pub environment : List Text → List (Text × Text)
environment [] = []
environment (entry ∷ entries) = add_some (read_variable entry) (environment entries)
