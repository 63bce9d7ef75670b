-- ===== src/Tests/Headers.antt =====
-- The theorems about headers and about sending at concrete requests and replies.
use lightcache.Base.{◌≡◌, refl, inl, inr, false, none, some, [], ◌∷◌, arith, ◌==◌, if◌then◌else◌}
use lightcache.Base.Run.{fault, null_pointer, Returns}
use lightcache.Protocol.{Request, need_more, send_completed}
use lightcache.Protocol.Bytes.{decode_header}
use lightcache.Server.State.{Server}
use lightcache.Server.Reading.{too_large, header_received}
use lightcache.Server.Transfer.Transmit.{send_all, IsSent, send_all-IsSent}
use lightcache.Server.Faults.{header_received-null_pointer}
use lightcache.Server.Faults.Limits.{Exceeds, IsHandled, header_received-IsHandled}
use lightcache.Tests.Fields.{Entry, one_entry, reading, key_server}

-- A reply of three bytes after a header of one.
abbrev sending : Server Entry
sending = record key_server { conns = λ c. record (key_server.conns c) { sent = 9 ∷ [] } }

send_all-IsSent_example :
    Returns
      (send_all one_entry sending 0 (7 ∷ 8 ∷ 7 ∷ []) 3 need_more 3)
      λ t. (t.1 ≡ send_completed) × IsSent one_entry t.0 0 (9 ∷ 7 ∷ 8 ∷ 7 ∷ []) 0
send_all-IsSent_example =
    send_all-IsSent one_entry (7 ∷ 8 ∷ 7 ∷ []) (9 ∷ []) sending 0
      (record { taken = refl; count = refl }) (omega arith) (omega arith)

-- A SET with 65535 bytes of data.
abbrev oversized : Request
oversized = record reading { header_bytes = 1 ∷ 3 ∷ 0 ∷ 0 ∷ 0 ∷ 0 ∷ 255 ∷ 255 ∷ 0 ∷ 0 ∷ 0 ∷ 5 ∷ [] }

-- A GET_SETTING without a key.
abbrev keyless : Request
keyless = record reading {
  header_bytes = 3 ∷ 0 ∷ 0 ∷ 0 ∷ 0 ∷ 0 ∷ 0 ∷ 0 ∷ 0 ∷ 0 ∷ 0 ∷ 0 ∷ [];
  rkey = none;
}

abbrev asked : Request → Server Entry
asked q = record key_server { requests = λ r. if r == 7 then some q else none }

oversized-Exceeds : Exceeds (decode_header oversized.header_bytes)
unfolding decode_header
oversized-Exceeds = inr (inl (omega arith))

keyless-fields :
    ((decode_header keyless.header_bytes).opcode ≡ 3)
    × ((decode_header keyless.header_bytes).key_length ≡ 0)
    × (too_large one_entry (decode_header keyless.header_bytes) ≡ false)
unfolding decode_header
keyless-fields = (refl, refl, refl)

header_received-IsHandled_example :
    Returns
      (header_received one_entry (asked oversized) 0)
      (IsHandled one_entry (asked oversized) 0 7 oversized (decode_header oversized.header_bytes))
header_received-IsHandled_example =
    header_received-IsHandled one_entry (asked oversized) 0 7 oversized
      (record { owner = refl; stored = refl }) refl (inr oversized-Exceeds)

header_received-null_pointer_example :
    header_received one_entry (asked keyless) 0 ≡ fault null_pointer
header_received-null_pointer_example =
    header_received-null_pointer one_entry (asked keyless) 0 7 keyless
      (record { owner = refl; stored = refl }) refl keyless-fields.0 keyless-fields.1
      keyless-fields.2
