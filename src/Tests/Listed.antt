-- ===== src/Tests/Listed.antt =====
-- Hosts of one group, which two of them spell another way.
use longterm.HostList.Listed.{rebuild-IsListed, times_shown, IsListed}
use longterm.HostList.Sorted.{count_row}
use longterm.HostList.Order.{IsCollation}
use longterm.HostList.{
  is_used_before, is_grouped_before, is_headed, is_before, headed, matching, below, section,
  insert_row, starts_from, stable_sort, above, is_tied, section_starts, rebuild, tied, is_below,
  Locale, Comparison,
}
use longterm.Hosts.Host.{Host}
use longterm.Base.{
  All, get_elem?, map, ◌==◌, ◌+◌, ◌&&◌, ltb, leb, length, if◌then◌else◌, [], ◌∷◌, ℕ, true, false,
  ◌≡◌, refl, arith, List, none, some,
}
use longterm.Base.Text.{same, is_space, skip_spaces, trimmed, Text}

abbrev host_of : Text → Text → ℕ → Host
host_of name group time = record {
  id = name;
  name = name;
  address = [];
  port = 22;
  user = [];
  key_id = [];
  has_password = false;
  jump_host_id = [];
  forward_agent = false;
  local_forwards = [];
  remote_forwards = [];
  dynamic_forwards = [];
  environment = [];
  tmux_session = [];
  keep_alive_interval = 0;
  connect_timeout = 0;
  mosh = false;
  mosh_server = [];
  group = group;
  favorite = false;
  last_used = some time;
  mac_address = [];
  logging = false;
  system_id = [];
  system_name = [];
}

lower : Text → Text
lower [] = []
lower (c ∷ s) = (if leb b'A' c && leb c b'Z' then c + 32 else c) ∷ lower s

compared : ℕ → ℕ → Comparison
compared a b = if ltb a b then below else if a == b then tied else above

-- Texts are compared by their length here.
abbrev locale : Locale
locale = record {
  to_lower = lower;
  compare_texts = λ a b. compared (length a) (length b);
  has_text = λ text search. true;
  time = λ used. elim used [ none ↦ 0 | some t ↦ t ];
  favorites = b'F' ∷ [];
  other = b'O' ∷ [];
}

flipped :
    (a b : ℕ)
    → is_below (compared a b) ≡ false
    → is_tied (compared a b) ≡ false
    → is_below (compared b a) ≡ true
unfolding compared
flipped a b h k = ground arith

one_way : (a b : ℕ) → is_below (compared a b) ≡ true → compared b a ≡ above
unfolding compared
one_way a b h = ground arith

tied_back : (a b : ℕ) → compared a b ≡ tied → compared b a ≡ tied
unfolding compared
tied_back a b h = ground arith

passed :
    (a b c : ℕ)
    → is_below (compared a b) ≡ false
    → is_below (compared b c) ≡ false
    → is_below (compared a c) ≡ false
unfolding compared
passed a b c h k = ground arith

locale-IsCollation : IsCollation locale.compare_texts
locale-IsCollation = record {
  flips = λ a b. flipped (length a) (length b);
  one_way = λ a b. one_way (length a) (length b);
  ties = λ a b. tied_back (length a) (length b);
  passes = λ a b c. passed (length a) (length b) (length c);
}

abbrev hosts : List Host
hosts =
    host_of (1 ∷ []) (b'a' ∷ []) 1
    ∷ host_of (2 ∷ []) [] 9
    ∷ host_of (3 ∷ []) (b'A' ∷ []) 2
    ∷ host_of (4 ∷ []) (b'a' ∷ []) 3
    ∷ []

rebuild-IsListed_example :
    IsListed locale (rebuild locale [] hosts)
    × (count_row 2 (rebuild locale [] hosts) ≡ times_shown locale (trimmed []) (get_elem? hosts 2))
    × All (λ r. get_elem? hosts r.row ≡ some r.host) (rebuild locale [] hosts)
rebuild-IsListed_example = rebuild-IsListed locale [] hosts 2 locale-IsCollation

listed : map (λ r. r.row) (rebuild locale [] hosts) ≡ 3 ∷ 2 ∷ 0 ∷ 1 ∷ []
unfolding rebuild stable_sort insert_row matching is_before is_grouped_before is_used_before trimmed
    skip_spaces is_space lower compared
listed = refl

-- The headings are "a", "A", "a" again, and the one for hosts without a group.
headings_repeat :
    section_starts locale (headed locale [] hosts) (rebuild locale [] hosts)
    ≡ true ∷ true ∷ true ∷ true ∷ []
unfolding section_starts starts_from section headed is_headed rebuild stable_sort insert_row
    matching is_before is_grouped_before is_used_before trimmed skip_spaces is_space lower compared
    same
headings_repeat = refl
