-- ===== src/Mosh/Instruction/RoundTrip.antt =====
-- What `sendInstruction` writes is what `receiveInstruction` reads, whatever the chaff.
use longterm.Base.{ℕ, ◌≤◌, ◌≡◌, ◌∙◌, true, some, [], ◌++◌, arith, length, append_assoc, append-nil}
use longterm.Base.Words.{Bytes}
use longterm.Mosh.Proto.{put_varint, put_uint, put_bytes, skip, while_next}
use longterm.Mosh.Proto.Loop.{
  Forward, varint-le, bytes-le, skip-le, while_next_round, while_next_done,
}
use longterm.Mosh.Proto.Varint.{IsU64, varint-put_varint}
use longterm.Mosh.Proto.Field.{
  at, put_uint-append, put_bytes-append, next-put_uint, next-put_bytes, bytes-put_varint,
}
use longterm.Mosh.Instruction.{
  Instruction, blank, write_instruction, set_number, set_diff, read_field, read_instruction,
}

pub read_field-Forward : Forward read_field
unfolding read_field
read_field-Forward field w r i = ground (arith, varint-le r, bytes-le r, skip-le w r)

varint_part :
    (field value : ℕ) (rest : Bytes) (i : Instruction)
    → 1 ≤ field
    → field ≤ 5
    → IsU64 value
    → read_field field 0 (at (put_varint [] value ++ rest)) i ≡ (at rest, set_number field value i)
unfolding read_field
varint_part field value rest i lo hi h = rw (varint-put_varint value true rest h) (ground arith)

number_step :
    (field value : ℕ) (rest : Bytes) (i : Instruction)
    → 1 ≤ field
    → field ≤ 5
    → IsU64 value
    → while_next read_field (at (put_uint [] field value ++ rest)) i
      ≡ while_next read_field (at rest) (set_number field value i)
number_step field value rest i lo hi h =
    while_next_round read_field read_field-Forward _ i field 0 _ _
      (next-put_uint field value rest (lo, omega arith)) (varint_part field value rest i lo hi h)

diff_step :
    (diff rest : Bytes) (i : Instruction)
    → IsU64 (length diff)
    → while_next read_field (at (put_bytes [] 6 diff ++ rest)) i
      ≡ while_next read_field (at rest) (record i { diff = diff })
diff_step diff rest i h =
    while_next_round read_field read_field-Forward _ i 6 2 _ (at rest, record i { diff = diff })
      (next-put_bytes 6 diff rest (omega arith))
      (unfold read_field set_diff in rw (bytes-put_varint diff rest h))

-- The chaff is a field that is skipped.
chaff_step :
    (chaff rest : Bytes) (i : Instruction)
    → IsU64 (length chaff)
    → while_next read_field (at (put_bytes [] 7 chaff ++ rest)) i
      ≡ while_next read_field (at rest) i
chaff_step chaff rest i h =
    while_next_round read_field read_field-Forward _ i 7 2 _ (at rest, i)
      (next-put_bytes 7 chaff rest (omega arith))
      (unfold read_field skip in rw (bytes-put_varint chaff rest h))

-- A message within the limits of its types.
pub record Fits (i : Instruction) : Type 0 where
  pub version : IsU64 i.version
  pub old_num : IsU64 i.old_num
  pub new_num : IsU64 i.new_num
  pub ack_num : IsU64 i.ack_num
  pub throwaway_num : IsU64 i.throwaway_num
  pub diff : IsU64 (length i.diff)

-- The seven fields, one after the other.
write_instruction_parts :
    (i : Instruction) (chaff : Bytes)
    → write_instruction i chaff
      ≡ put_uint [] 1 i.version
        ++ (put_uint [] 2 i.old_num
            ++ (put_uint [] 3 i.new_num
                ++ (put_uint [] 4 i.ack_num
                    ++ (put_uint [] 5 i.throwaway_num
                        ++ (put_bytes [] 6 i.diff ++ (put_bytes [] 7 chaff ++ []))))))
unfolding write_instruction
write_instruction_parts i chaff =
    let a = put_uint [] 1 i.version in
    let b = put_uint a 2 i.old_num in
    let c = put_uint b 3 i.new_num in
    let d = put_uint c 4 i.ack_num in
    let e = put_uint d 5 i.throwaway_num in
    let f = put_bytes e 6 i.diff in
    rw
      (
        put_bytes-append f 7 chaff,
        put_bytes-append e 6 i.diff,
        put_uint-append d 5 i.throwaway_num,
        put_uint-append c 4 i.ack_num,
        put_uint-append b 3 i.new_num,
        put_uint-append a 2 i.old_num,
      )
      (simp (append_assoc, append-nil))

-- An instruction within the limits of its types is read back as it was written, whatever the
-- chaff of at most 2^64 - 1 bytes behind it.
pub read-write_instruction :
    (i : Instruction) (chaff : Bytes)
    → Fits i
    → IsU64 (length chaff)
    → read_instruction (write_instruction i chaff) ≡ some i
unfolding read_instruction set_number
read-write_instruction i chaff fits h = rw (write_instruction_parts i chaff, whole)
  where
    whole :
        while_next read_field
          (at (
            put_uint [] 1 i.version
            ++ (put_uint [] 2 i.old_num
                ++ (put_uint [] 3 i.new_num
                    ++ (put_uint [] 4 i.ack_num
                        ++ (put_uint [] 5 i.throwaway_num
                            ++ (put_bytes [] 6 i.diff ++ (put_bytes [] 7 chaff ++ []))))))))
          blank
        ≡ (at [], i)
    whole =
        number_step 1 i.version _ _ (omega arith) (omega arith) fits.version
        ∙ number_step 2 i.old_num _ _ (omega arith) (omega arith) fits.old_num
        ∙ number_step 3 i.new_num _ _ (omega arith) (omega arith) fits.new_num
        ∙ number_step 4 i.ack_num _ _ (omega arith) (omega arith) fits.ack_num
        ∙ number_step 5 i.throwaway_num _ _ (omega arith) (omega arith) fits.throwaway_num
        ∙ diff_step i.diff _ _ fits.diff
        ∙ chaff_step chaff [] _ h
        ∙ while_next_done read_field read_field-Forward true _
