-- ===== src/Hosts/Copy/Duplicate.antt =====
-- The name and the place of a copy of a host.
use longterm.Base.{
  ℕ, ◌≡◌, refl, ap, ◌∙◌, false, none, [], ◌∷◌, ◌++◌, arith, leb, if_intro, option_intro, length,
  is_empty,
}
use longterm.Base.Text.{Text}
use longterm.Hosts.Host.{Host, max_hosts}
use longterm.Hosts.Store.{Store, find, save, set_error, too_many_hosts}
use longterm.Hosts.Store.Invariant.{IsHost, append-IsValid}
use longterm.Hosts.Store.Keeps.{IsGood, set_error-IsGood, found-IsHost}
use longterm.Hosts.Copy.{free_name, copied, duplicate_host}

copied-id : (fresh name : Text) (h : Host) → (copied fresh name h).id ≡ fresh
unfolding copied
copied-id fresh name h = refl

copied-IsHost :
    (fresh name : Text) (h : Host)
    → is_empty fresh ≡ false
    → IsHost h
    → IsHost (copied fresh name h)
unfolding copied
copied-IsHost fresh name h ne v = record {
  has_id = ne;
  port_from = v.port_from;
  port_to = v.port_to;
  keep_alive = v.keep_alive;
  timeout = v.timeout;
}

pub duplicate_host-IsGood :
    (copy : Text → ℕ → Text) (fresh id : Text) (s : Store)
    → is_empty fresh ≡ false
    → find fresh s.hosts ≡ none
    → IsGood s
    → IsGood (duplicate_host copy fresh id s).1
unfolding duplicate_host
duplicate_host-IsGood copy fresh id s ne unused g =
    option_intro (λ (r : Text × Store). IsGood r.1) (find id s.hosts) (λ _. g)
      (λ h found.
        let name = free_name (length s.hosts) (copy h.name) s.hosts 1 in
        if_intro (λ (r : Text × Store). IsGood r.1) (leb max_hosts (length s.hosts))
          ([], set_error too_many_hosts s)
          (fresh, save (record s { hosts = s.hosts ++ copied fresh name h ∷ [] }))
          (λ _. set_error-IsGood too_many_hosts s g)
          (λ more. record {
            valid =
                append-IsValid s.hosts (copied fresh name h) (ground (arith, more))
                  (ap (λ x. find x s.hosts) (copied-id fresh name h) ∙ unused)
                  (copied-IsHost fresh name h ne (found-IsHost id s.hosts g.valid.each found))
                  g.valid;
            written = λ _. refl;
            mode = g.mode;
          }))
