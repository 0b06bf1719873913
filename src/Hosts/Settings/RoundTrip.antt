-- ===== src/Hosts/Settings/RoundTrip.antt =====
-- What is read from the settings file, and that it is what was written.
use longterm.Base.{
  ℕ, zero, suc, ◌≤◌, ◌≡◌, refl, ap, ◌∙◌, false, List, [], ◌∷◌, map, arith, if◌then◌else◌, if_intro,
  length, take, All, is_empty,
}
use longterm.Hosts.Host.{
  pos, Host, seconds, valid_port, max_hosts, max_keep_alive_interval, max_connect_timeout,
}
use longterm.Hosts.Settings.{
  HostEntry, load_host, load_entries, load, save_entry, save_entries, value,
}
use longterm.Hosts.Store.Invariant.{IsHost, IsValid, valid_port_bounds, seconds-le}

pub valid_port-pos : (n : ℕ) → 1 ≤ n → n ≤ 65535 → valid_port (pos n) ≡ n
unfolding valid_port
valid_port-pos n a b = ground arith

pub seconds-pos : (n m : ℕ) → n ≤ m → seconds (pos n) m ≡ n
unfolding seconds
seconds-pos n m h = ground arith

load_host-save_entry : (h : Host) → IsHost h → load_host (save_entry h) ≡ h
unfolding load_host save_entry
load_host-save_entry h v =
    rw
      (
        valid_port-pos h.port v.port_from v.port_to,
        seconds-pos h.keep_alive_interval _ v.keep_alive,
        seconds-pos h.connect_timeout _ v.timeout,
      )
      refl

load_entries-map : (hs : List Host) → All IsHost hs → load_entries (map save_entry hs) ≡ hs
unfolding load_entries
load_entries-map [] all = refl
load_entries-map (h ∷ hs) (v, all) =
    let rest = load_entries (map save_entry hs) in
    ap (λ g. if is_empty g.id then rest else g ∷ rest) (load_host-save_entry h v)
    ∙ rw v.has_id (ap (λ x. h ∷ x) (load_entries-map hs all))

take-all : (n : ℕ) (es : List HostEntry) → length es ≤ n → take n es ≡ es
take-all zero [] h = refl
take-all (suc n) [] h = refl
take-all zero (e ∷ es) h = absurd (omega (arith, h))
take-all (suc n) (e ∷ es) h = ap (λ x. e ∷ x) (take-all n es (omega (arith, h)))

length-map : (hs : List Host) → length (map save_entry hs) ≡ length hs
length-map [] = refl
length-map (h ∷ hs) = ap suc (length-map hs)

-- Valid hosts that are saved are read back as they were.
pub load-save_entries : (hs : List Host) → IsValid hs → load (save_entries hs) ≡ hs
unfolding load save_entries
load-save_entries hs v =
    ap load_entries (take-all max_hosts (map save_entry hs) (rw (length-map hs) v.few))
    ∙ load_entries-map hs v.each

IsHost-load_host : (e : HostEntry) → is_empty (load_host e).id ≡ false → IsHost (load_host e)
unfolding load_host
IsHost-load_host e ne = record {
  has_id = ne;
  port_from = (valid_port_bounds (value (pos 22) e.port)).0;
  port_to = (valid_port_bounds (value (pos 22) e.port)).1;
  keep_alive = seconds-le (value (pos 0) e.keep_alive_interval) max_keep_alive_interval;
  timeout = seconds-le (value (pos 0) e.connect_timeout) max_connect_timeout;
}

All-load_entries : (es : List HostEntry) → All IsHost (load_entries es)
unfolding load_entries
All-load_entries [] = tt
All-load_entries (e ∷ es) =
    if_intro (All IsHost) (is_empty (load_host e).id) _ _ (λ _. All-load_entries es)
      (λ ne. (IsHost-load_host e ne, All-load_entries es))

length-load_entries : (n : ℕ) (es : List HostEntry) → length (load_entries (take n es)) ≤ n
unfolding load_entries
length-load_entries zero es = omega arith
length-load_entries (suc n) [] = omega arith
length-load_entries (suc n) (e ∷ es) =
    let rest = load_entries (take n es) in
    let few : length rest ≤ n = length-load_entries n es in
    if_intro (λ hs. length hs ≤ suc n) (is_empty (load_host e).id) rest (load_host e ∷ rest)
      (λ _. omega (arith, few)) (λ _. omega (arith, few))

-- Whatever the settings file holds, at most 1000 hosts are read, each with an id and with its
-- numbers in their ranges.
pub load-bounds : (es : List HostEntry) → (length (load es) ≤ max_hosts) × All IsHost (load es)
unfolding load
load-bounds es = (length-load_entries max_hosts es, All-load_entries (take max_hosts es))
