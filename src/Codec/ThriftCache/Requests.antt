-- ===== src/Codec/ThriftCache/Requests.antt =====
-- src/codec/thrift_cache.rs: the bytes of the requests.
use rpc_perf.Base.{
  arith, ◌<◌, ◌≡◌, sym, ap, ◌∙◌, true, false, List, [], ◌∷◌, ◌++◌, append_assoc, append-nil, length,
}
use rpc_perf.Base.Bytes.{Bytes, codes}
use rpc_perf.Base.BigEndian.{be16, be32, be64}
use rpc_perf.Codec.Thrift.{
  ThriftBuffer, ◌▷◌, new, protocol_header, method_name, sequence_id, write_bytes, write_i16,
  write_i32,
}
use rpc_perf.Codec.Thrift.Frame.{framing, frame-framing}
use rpc_perf.Codec.ThriftCache.{
  Entry, text, texts, int32, int64, flag, write_items, write_entry, write_entries, message,
}

-- The binary protocol: a string or a binary with its length, and the fields of a struct.
unfoldable pub counted : Bytes → Bytes
counted bytes = be32 (length bytes) ++ bytes

items_wire : List Bytes → Bytes
unfolding counted
items_wire [] = []
items_wire (item ∷ items) = counted item ++ items_wire items

unfoldable pub entry_wire : Entry → Bytes
unfolding counted items_wire
entry_wire (text id bytes) = 11 ∷ (be16 id ++ counted bytes)
entry_wire (texts id items) = 15 ∷ (be16 id ++ (11 ∷ (be32 (length items) ++ items_wire items)))
entry_wire (int32 id value) = 8 ∷ (be16 id ++ be32 value)
entry_wire (int64 id value) = 10 ∷ (be16 id ++ be64 value)
entry_wire (flag id true) = 2 ∷ (be16 id ++ (1 ∷ []))
entry_wire (flag id false) = 2 ∷ (be16 id ++ (0 ∷ []))

unfoldable pub entries_wire : List Entry → Bytes
unfolding entry_wire
entries_wire [] = []
entries_wire (entry ∷ entries) = entry_wire entry ++ entries_wire entries

-- A call of `method`: protocol version 1, sequence id 0, a list of one struct, and two stops.
unfoldable pub call_wire : Bytes → List Entry → Bytes
unfolding counted entries_wire
call_wire method entries =
    (128 ∷ 1 ∷ 0 ∷ 1 ∷ [])
    ++ (counted method
        ++ (be32 0
            ++ ((15 ∷ 0 ∷ 1 ∷ 12 ∷ 0 ∷ 0 ∷ 0 ∷ 1 ∷ []) ++ (entries_wire entries ++ (0 ∷ 0 ∷ [])))))

pub call_wire-long : (method : Bytes) (entries : List Entry) → 0 < length (call_wire method entries)
unfolding call_wire
call_wire-long method entries = omega arith

write_items_lem :
    (items : List Bytes) (b : ThriftBuffer)
    → (write_items items b).buffer ≡ b.buffer ++ items_wire items
unfolding write_items items_wire counted
write_items_lem [] b = sym (append-nil b.buffer)
write_items_lem (item ∷ items) b =
    write_items_lem items _
    ∙ ap (λ t. t ++ items_wire items) (append_assoc b.buffer _ item)
    ∙ append_assoc b.buffer _ (items_wire items)

write_entry_lem :
    (entry : Entry) (b : ThriftBuffer) → (write_entry entry b).buffer ≡ b.buffer ++ entry_wire entry
unfolding write_entry entry_wire counted
write_entry_lem (text id bytes) b = simp (append_assoc)
write_entry_lem (texts id items) b = write_items_lem items _ ∙ simp (append_assoc)
write_entry_lem (int32 id value) b = simp (append_assoc)
write_entry_lem (int64 id value) b = simp (append_assoc)
write_entry_lem (flag id true) b = simp (append_assoc)
write_entry_lem (flag id false) b = simp (append_assoc)

write_entries_lem :
    (entries : List Entry) (b : ThriftBuffer)
    → (write_entries entries b).buffer ≡ b.buffer ++ entries_wire entries
unfolding write_entries entries_wire
write_entries_lem [] b = sym (append-nil b.buffer)
write_entries_lem (entry ∷ entries) b =
    write_entries_lem entries _
    ∙ ap (λ t. t ++ entries_wire entries) (write_entry_lem entry b)
    ∙ append_assoc b.buffer _ (entries_wire entries)

-- Each message is one frame around a call with its fields.
pub message_lem :
    (method key : Bytes) (entries : List Entry)
    → (message method key entries).buffer
      ≡ framing (call_wire method (text 1 (codes "0") ∷ text 2 key ∷ entries))
unfolding message call_wire write_entries
message_lem method key entries =
    frame-framing _ (call_wire method (text 1 (codes "0") ∷ text 2 key ∷ entries))
      (ap (λ t. (t ++ (0 ∷ [])) ++ (0 ∷ [])) fields ∙ simp (append_assoc))
  where
    start : ThriftBuffer
    start =
        new
        ▷ protocol_header
        ▷ method_name method
        ▷ sequence_id 0
        ▷ write_bytes (15 ∷ [])
        ▷ write_i16 1
        ▷ write_bytes (12 ∷ [])
        ▷ write_i32 1

    fields :
        (write_entries (text 1 (codes "0") ∷ text 2 key ∷ entries) start).buffer
        ≡ start.buffer ++ entries_wire (text 1 (codes "0") ∷ text 2 key ∷ entries)
    fields = write_entries_lem (text 1 (codes "0") ∷ text 2 key ∷ entries) start
