-- ===== src/Mosh/Sender/UserMessage.antt =====
-- What a server reads of a UserMessage, with its fields numbered as in mosh's userinput.proto. The
-- application only writes them, in `userDiff` of src/moshclient.cpp.
use longterm.Mosh.Proto.Field.{
  length-put_uint, length-put_bytes, next-put_uint, put_uint-append, bytes-put_varint,
  next-put_bytes, at,
}
use longterm.Mosh.Proto.{
  int_max, put_uint, put_varint, skip, varint, bytes, put_bytes, while_next, Reader,
}
use longterm.Mosh.Proto.Varint.{varint-put_varint, IsU64}
use longterm.Mosh.Proto.Loop.{
  while_next_done, while_next_round, skip-le, varint-le, bytes-le, Forward,
}
use longterm.Base.{
  length-append, ◌++◌, true, ◌≤◌, ◌∙◌, append-nil, sym, ap, ◌&&◌, [], ◌==◌, ◌^◌, if◌then◌else◌, ◌<◌,
  length, ℕ, ◌≡◌, arith, List, none, some, ◌∷◌, ◌⊎◌, inl, inr,
}
use longterm.Mosh.Sender.{of_keys, UserEvent, Bytes, event_bytes}

-- Keystroke: `bytes keys = 4`
read_keys : ℕ → ℕ → Reader → UserEvent → Reader × UserEvent
read_keys field wire r e =
    if field == 4 && wire == 2
    then ((bytes r).1, elim (bytes r).0 [ none ↦ e | some keys ↦ record e { keys = keys } ])
    else (skip wire r, e)

-- ResizeMessage: `int32 width = 5`, `int32 height = 6`
read_size : ℕ → ℕ → Reader → UserEvent → Reader × UserEvent
read_size field wire r e =
    if field == 5 && wire == 0
    then ((varint r).after, record e { columns = (varint r).value })
    else if field == 6 && wire == 0
    then ((varint r).after, record e { rows = (varint r).value })
    else (skip wire r, e)

-- Instruction: `Keystroke keystroke = 2`, `ResizeMessage resize = 3`
read_input : ℕ → ℕ → Reader → UserEvent → Reader × UserEvent
read_input field wire r e =
    if field == 2 && wire == 2
    then ((bytes r).1, elim (bytes r).0 [ none ↦ e | some bs ↦ (while_next read_keys (at bs) e).1 ])
    else if field == 3 && wire == 2
    then ((bytes r).1, elim (bytes r).0 [ none ↦ e | some bs ↦ (while_next read_size (at bs) e).1 ])
    else (skip wire r, e)

-- UserMessage: `repeated Instruction instruction = 1`
pub read_message : ℕ → ℕ → Reader → List UserEvent → Reader × List UserEvent
read_message field wire r es =
    if field == 1 && wire == 2
    then (
      (bytes r).1,
      elim (bytes r).0 [
        | none ↦ es
        | some bs ↦ es ++ (while_next read_input (at bs) (of_keys [])).1 ∷ []
      ],
    )
    else (skip wire r, es)

-- Keys, or a size without keys, each number within its type.
abbrev pub IsInput : UserEvent → Type 0
IsInput e =
    (length e.keys < 2 ^ 32)
    × (e.columns < 2 ^ 31)
    × (e.rows < 2 ^ 31)
    × ((0 < e.columns) × (e.keys ≡ []) ⊎ (e.columns ≡ 0) × (e.rows ≡ 0))

read_keys-Forward : Forward read_keys
unfolding read_keys
read_keys-Forward field w r i = ground (arith, bytes-le r, skip-le w r)

read_size-Forward : Forward read_size
unfolding read_size
read_size-Forward field w r i = ground (arith, varint-le r, skip-le w r)

read_input-Forward : Forward read_input
unfolding read_input
read_input-Forward field w r i = ground (arith, bytes-le r, skip-le w r)

pub read_message-Forward : Forward read_message
unfolding read_message
read_message-Forward field w r i = ground (arith, bytes-le r, skip-le w r)

keys_read :
    (keys : Bytes) (e : UserEvent)
    → IsU64 (length keys)
    → while_next read_keys (at (put_bytes [] 4 keys)) e ≡ (at [], record e { keys = keys })
keys_read keys e h =
    ap (λ b. while_next read_keys (at b) e) (sym (append-nil (put_bytes [] 4 keys)))
    ∙ while_next_round read_keys read_keys-Forward _ e 4 2 _ (at [], record e { keys = keys })
        (next-put_bytes 4 keys [] (omega arith))
        (unfold read_keys in rw (bytes-put_varint keys [] h))
    ∙ while_next_done read_keys read_keys-Forward true _

columns_part :
    (value : ℕ) (rest : Bytes) (e : UserEvent)
    → IsU64 value
    → read_size 5 0 (at (put_varint [] value ++ rest)) e ≡ (at rest, record e { columns = value })
unfolding read_size
columns_part value rest e h = rw (varint-put_varint value true rest h)

rows_part :
    (value : ℕ) (rest : Bytes) (e : UserEvent)
    → IsU64 value
    → read_size 6 0 (at (put_varint [] value ++ rest)) e ≡ (at rest, record e { rows = value })
unfolding read_size
rows_part value rest e h = rw (varint-put_varint value true rest h)

size_read :
    (columns rows : ℕ) (e : UserEvent)
    → IsU64 columns
    → IsU64 rows
    → while_next read_size (at (put_uint (put_uint [] 5 columns) 6 rows)) e
      ≡ (at [], record e { columns = columns; rows = rows })
size_read columns rows e c r =
    ap (λ b. while_next read_size (at b) e)
      (put_uint-append (put_uint [] 5 columns) 6 rows
        ∙ ap (◌++◌ (put_uint [] 5 columns)) (sym (append-nil (put_uint [] 6 rows))))
    ∙ while_next_round read_size read_size-Forward _ e 5 0 _ _
        (next-put_uint 5 columns (put_uint [] 6 rows ++ []) (omega arith))
        (columns_part columns _ e c)
    ∙ while_next_round read_size read_size-Forward _ _ 6 0 _ _
        (next-put_uint 6 rows [] (omega arith)) (rows_part rows [] _ r)
    ∙ while_next_done read_size read_size-Forward true _

-- One field of bytes, which holds the whole of an `Instruction`.
input_step :
    (field : ℕ) (bs : Bytes) (e f : UserEvent)
    → (1 ≤ field) × (field ≤ int_max)
    → read_input field 2 (at (put_varint [] (length bs) ++ (bs ++ []))) e ≡ (at [], f)
    → while_next read_input (at (put_bytes [] field bs)) e ≡ (at [], f)
input_step field bs e f h step =
    ap (λ b. while_next read_input (at b) e) (sym (append-nil (put_bytes [] field bs)))
    ∙ while_next_round read_input read_input-Forward _ e field 2 _ (at [], f)
        (next-put_bytes field bs [] h) step
    ∙ while_next_done read_input read_input-Forward true _

sized :
    (e : UserEvent)
    → 0 < e.columns
    → event_bytes e ≡ put_bytes [] 3 (put_uint (put_uint [] 5 e.columns) 6 e.rows)
unfolding event_bytes
sized e h = ground arith

keyed : (e : UserEvent) → e.columns ≡ 0 → event_bytes e ≡ put_bytes [] 2 (put_bytes [] 4 e.keys)
unfolding event_bytes
keyed e h = ground arith

size_bytes : ℕ → ℕ → Bytes
size_bytes columns rows = put_uint (put_uint [] 5 columns) 6 rows

length-size_bytes :
    (columns rows : ℕ) → IsU64 columns → IsU64 rows → length (size_bytes columns rows) ≤ 40
unfolding size_bytes
length-size_bytes columns rows c r = omega (
  arith,
  ap length (put_uint-append (put_uint [] 5 columns) 6 rows),
  length-append (put_uint [] 5 columns) (put_uint [] 6 rows),
  length-put_uint 5 columns (omega arith) c,
  length-put_uint 6 rows (omega arith) r,
)

length-event_bytes : (e : UserEvent) → IsInput e → IsU64 (length (event_bytes e))
unfolding size_bytes
length-event_bytes e (k, c, r, inl (pos, empty)) =
    let size = length-size_bytes e.columns e.rows (omega (arith, c)) (omega (arith, r)) in
    rw (sized e pos) (
      omega (
        arith,
        size,
        length-put_bytes 3 (size_bytes e.columns e.rows) (omega arith) (omega (arith, size)),
      ))
length-event_bytes e (k, c, r, inr (no_columns, no_rows)) =
    let keys = length-put_bytes 4 e.keys (omega arith) (omega (arith, k)) in
    rw (keyed e no_columns) (
      omega (
        arith,
        k,
        keys,
        length-put_bytes 2 (put_bytes [] 4 e.keys) (omega arith) (omega (arith, k, keys)),
      ))

-- The `Instruction` of an event is read as the event.
event_read :
    (e : UserEvent)
    → IsInput e
    → while_next read_input (at (event_bytes e)) (of_keys []) ≡ (at [], e)
unfolding read_input size_bytes
event_read e (k, c, r, inl (pos, empty)) =
    let size = length-size_bytes e.columns e.rows (omega (arith, c)) (omega (arith, r)) in
    rw (sized e pos) (
      input_step 3 (size_bytes e.columns e.rows) (of_keys []) e (omega arith) (
        rw
          (
            bytes-put_varint (size_bytes e.columns e.rows) [] (omega (arith, size)),
            size_read e.columns e.rows (of_keys []) (omega (arith, c)) (omega (arith, r)),
          )
          (ap (λ keys. (at [], record e { keys = keys })) (sym empty))))
event_read e (k, c, r, inr (no_columns, no_rows)) =
    let keys = length-put_bytes 4 e.keys (omega arith) (omega (arith, k)) in
    rw (keyed e no_columns) (
      input_step 2 (put_bytes [] 4 e.keys) (of_keys []) e (omega arith) (
        rw
          (
            bytes-put_varint (put_bytes [] 4 e.keys) [] (omega (arith, k, keys)),
            keys_read e.keys (of_keys []) (omega (arith, k)),
          )
          (ap (λ columns. (at [], record e { columns = columns; rows = 0 })) (sym no_columns)
            ∙ ap (λ rows. (at [], record e { rows = rows })) (sym no_rows))))

pub message_step :
    (e : UserEvent) (rest : Bytes) (es : List UserEvent)
    → IsInput e
    → while_next read_message (at (put_bytes [] 1 (event_bytes e) ++ rest)) es
      ≡ while_next read_message (at rest) (es ++ e ∷ [])
message_step e rest es h =
    while_next_round read_message read_message-Forward _ es 1 2 _ (at rest, es ++ e ∷ [])
      (next-put_bytes 1 (event_bytes e) rest (omega arith))
      (unfold read_message in
        rw (bytes-put_varint (event_bytes e) rest (length-event_bytes e h), event_read e h))
