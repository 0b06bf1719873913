-- ===== src/Hosts/Store/Changes.antt =====
-- The operations on a host that is there leave the store valid and written.
use longterm.Base.{
  option_intro, ℕ, ◌≡◌, refl, Bool, true, false, ◌&&◌, ◌||◌, not, Option, none, some, map, if_intro,
  is_empty,
}
use longterm.Base.Text.{Text, same}
use longterm.Hosts.Store.{
  Store, find, remove_at, save, same_flag, remember_password, password_stored, without_key,
  uses_key, forget_key, set_system, without_jump, remove_host, set_favorite, set_key, mark_used,
}
use longterm.Hosts.Store.Invariant.{IsHost, map-IsValid, remove_at-IsValid}
use longterm.Hosts.Store.Keeps.{
  change_saved-IsGood, same-IsHost, map_saved-IsGood, IsGood, set_has_password-IsGood, Harmless,
  set_error-IsGood, ask-IsGood,
}

pub remember_password-IsGood :
    (id password : Text) (s : Store) → IsGood s → IsGood (remember_password id password s)
unfolding remember_password
remember_password-IsGood id password s g =
    option_intro IsGood (find id s.hosts) (λ _. g)
      (λ h _.
        if_intro IsGood (not (is_empty h.key_id) || is_empty password) _ _ (λ _. g)
          (λ _. ask-IsGood _ s g))

pub password_stored-IsGood :
    (id : Text) (answer : Option Text) (s : Store) → IsGood s → IsGood (password_stored id answer s)
unfolding password_stored
password_stored-IsGood id (some message) s g = set_error-IsGood _ s g
password_stored-IsGood id none s g =
    option_intro IsGood (find id s.hosts) (λ _. ask-IsGood _ s g)
      (λ _ _. set_has_password-IsGood id true s g)

without_key-Harmless : (key : Text) → Harmless (without_key key)
unfolding without_key
without_key-Harmless key h =
    if_intro (λ g. (g.id ≡ h.id) × (IsHost h → IsHost g)) (same h.key_id key) _ _
      (λ _. (refl, same-IsHost _ h refl refl refl refl)) (λ _. (refl, λ v. v))

pub without_jump-Harmless : (id : Text) → Harmless (without_jump id)
unfolding without_jump
without_jump-Harmless id h =
    if_intro (λ g. (g.id ≡ h.id) × (IsHost h → IsHost g)) (same h.jump_host_id id) _ _
      (λ _. (refl, same-IsHost _ h refl refl refl refl)) (λ _. (refl, λ v. v))

pub forget_key-IsGood : (key : Text) (s : Store) → IsGood s → IsGood (forget_key key s)
unfolding forget_key
forget_key-IsGood key s g =
    if_intro IsGood (uses_key key s.hosts) _ _
      (λ _. map_saved-IsGood (without_key key) s (without_key-Harmless key) g) (λ _. g)

pub set_system-IsGood :
    (id system_id system_name : Text) (s : Store)
    → IsGood s
    → IsGood (set_system id system_id system_name s)
unfolding set_system
set_system-IsGood id system_id system_name s g =
    option_intro IsGood (find id s.hosts) (λ _. g)
      (λ h _.
        if_intro IsGood (same h.system_id system_id && same h.system_name system_name) _ _ (λ _. g)
          (λ _. change_saved-IsGood id _ s (λ h. (refl, same-IsHost _ h refl refl refl refl)) g))

pub set_favorite-IsGood :
    (id : Text) (favorite : Bool) (s : Store) → IsGood s → IsGood (set_favorite id favorite s)
unfolding set_favorite
set_favorite-IsGood id favorite s g =
    option_intro IsGood (find id s.hosts) (λ _. g)
      (λ h _.
        if_intro IsGood (same_flag h.favorite favorite) _ _ (λ _. g)
          (λ _. change_saved-IsGood id _ s (λ h. (refl, same-IsHost _ h refl refl refl refl)) g))

pub set_key-IsGood : (id key : Text) (s : Store) → IsGood s → IsGood (set_key id key s)
unfolding set_key
set_key-IsGood id key s g =
    option_intro IsGood (find id s.hosts) (λ _. g)
      (λ h _.
        let changed =
          change_saved-IsGood id (λ h. record h { key_id = key }) s
            (λ h. (refl, same-IsHost _ h refl refl refl refl)) g in
        if_intro IsGood (same h.key_id key) _ _ (λ _. g)
          (λ _.
            if_intro IsGood h.has_password _ _
              (λ _. ask-IsGood _ _ (set_has_password-IsGood id false _ changed)) (λ _. changed)))

pub mark_used-IsGood : (now : ℕ) (id : Text) (s : Store) → IsGood s → IsGood (mark_used now id s)
unfolding mark_used
mark_used-IsGood now id s g =
    option_intro IsGood (find id s.hosts) (λ _. g)
      (λ h _. change_saved-IsGood id _ s (λ h. (refl, same-IsHost _ h refl refl refl refl)) g)

pub remove_host-IsGood : (id : Text) (s : Store) → IsGood s → IsGood (remove_host id s)
unfolding remove_host
remove_host-IsGood id s g =
    option_intro IsGood (find id s.hosts) (λ _. g)
      (λ h _.
        let removed : IsGood
            (save (record s { hosts = map (without_jump id) (remove_at id s.hosts) })) =
          record {
            valid =
                map-IsValid (without_jump id) (λ h. (without_jump-Harmless id h).0) _
                  (λ h. (without_jump-Harmless id h).1) (remove_at-IsValid id s.hosts g.valid);
            written = λ _. refl;
            mode = g.mode;
          } in
        if_intro IsGood h.has_password _ _ (λ _. ask-IsGood _ _ removed) (λ _. removed))
