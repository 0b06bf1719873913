-- ===== src/HostList/Order.antt =====
-- The order of the rows is one that std::stable_sort can take: a strict weak order.
use longterm.Base.{◌&&◌, true, false, ◌≡◌, arith}
use longterm.Base.Text.{Text}
use longterm.HostList.{
  above, is_tied, is_below, Host, is_grouped_before, tied, is_used_before, is_before, Comparison,
  Locale,
}

-- What localeAwareCompare is documented to be: the comparison of an order of all texts.
pub record IsCollation (compare_texts : Text → Text → Comparison) : Type 0 where
  pub flips :
      (a b : Text)
      → is_below (compare_texts a b) ≡ false
      → is_tied (compare_texts a b) ≡ false
      → is_below (compare_texts b a) ≡ true
  pub one_way : (a b : Text) → is_below (compare_texts a b) ≡ true → compare_texts b a ≡ above
  pub ties : (a b : Text) → compare_texts a b ≡ tied → compare_texts b a ≡ tied
  pub passes :
      (a b c : Text)
      → is_below (compare_texts a b) ≡ false
      → is_below (compare_texts b c) ≡ false
      → is_below (compare_texts a c) ≡ false

pub is_before_one_way :
    (o : Locale) (a b : Host)
    → IsCollation o.compare_texts
    → is_before o a b ≡ true
    → is_before o b a ≡ false
unfolding is_before is_grouped_before is_used_before
is_before_one_way o a b c h = ground (
  arith,
  c.one_way (o.to_lower a.group) (o.to_lower b.group),
  c.ties (o.to_lower a.group) (o.to_lower b.group),
  c.one_way (o.to_lower a.name) (o.to_lower b.name),
)

is_used_before_passes :
    (o : Locale) (a b d : Host)
    → IsCollation o.compare_texts
    → is_used_before o a b ≡ false
    → is_used_before o b d ≡ false
    → is_used_before o a d ≡ false
unfolding is_used_before
is_used_before_passes o a b d c h k =
    ground (arith, c.passes (o.to_lower a.name) (o.to_lower b.name) (o.to_lower d.name))

-- Of three texts, where none is below the one before: the first and the last are tied only where all
-- three are.
three_tied :
    (compare_texts : Text → Text → Comparison) (a b d : Text)
    → IsCollation compare_texts
    → is_below (compare_texts a b) ≡ false
    → is_below (compare_texts b d) ≡ false
    → is_tied (compare_texts a d) ≡ is_tied (compare_texts a b) && is_tied (compare_texts b d)
three_tied compare_texts a b d c h k = ground (
  arith,
  c.passes a b d h k,
  c.passes b d a k,
  c.passes d a b,
  c.passes d b a,
  c.ties a d,
  c.ties a b,
  c.ties b d,
  c.flips a d,
  c.flips a b h,
  c.flips b d k,
)

is_grouped_before_passes :
    (o : Locale) (a b d : Host)
    → IsCollation o.compare_texts
    → is_grouped_before o a b ≡ false
    → is_grouped_before o b d ≡ false
    → is_grouped_before o a d ≡ false
unfolding is_grouped_before
is_grouped_before_passes o a b d c h k = ground (
  arith,
  is_used_before_passes o a b d c,
  c.passes (o.to_lower a.group) (o.to_lower b.group) (o.to_lower d.group),
  three_tied o.compare_texts (o.to_lower a.group) (o.to_lower b.group) (o.to_lower d.group) c,
)

pub is_before_passes :
    (o : Locale) (a b d : Host)
    → IsCollation o.compare_texts
    → is_before o a b ≡ false
    → is_before o b d ≡ false
    → is_before o a d ≡ false
unfolding is_before
is_before_passes o a b d c h k =
    ground (arith, is_used_before_passes o a b d c, is_grouped_before_passes o a b d c)
