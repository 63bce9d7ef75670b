-- ===== src/Server/Transfer/Receive.antt =====
-- `read_nbytes` over the bytes of a whole field, one an event.
use lightcache.Base.{
  u32, u64, ℕ, ◌+◌, ◌^◌, ◌<◌, ◌≡◌, ◌∙◌, ap, refl, sym, true, false, Bool-cases, inl, inr, List, [],
  ◌∷◌, ◌++◌, some, length, length-append, set, ltb, ◌==◌, if◌then◌else◌, arith,
}
use mathlib.Core.List.{append_assoc}
use mathlib.Core.Path.{subst}
use lightcache.Base.Run.{Run, ok, ◌>>=◌, Returns}
use lightcache.Protocol.{Request, SocketState, need_more, read_completed}
use lightcache.Server.State.{Env, Server, Holds, load_in-Holds, set_in-Holds, place, set_stats}
use lightcache.Server.Reading.{
  byte, Field, header_field, key_field, data_field, extra_field, buffer_of, with_buffer, write_byte,
  count_read, read_nbytes,
}

rbytes-with_buffer :
    (field : Field) (bs : List ℕ) (q : Request) → (with_buffer field bs q).rbytes ≡ q.rbytes
rbytes-with_buffer header_field bs q = refl
rbytes-with_buffer key_field bs q = refl
rbytes-with_buffer data_field bs q = refl
rbytes-with_buffer extra_field bs q = refl

-- The request with a buffer and a count of bytes read.
abbrev pub with_progress : Field → List ℕ → ℕ → Request → Request
with_progress field bs n q = record (with_buffer field bs q) { rbytes = n }

buffer_of-with_progress :
    (field : Field) (bs : List ℕ) (n : ℕ) (q : Request)
    → buffer_of field (with_progress field bs n q) ≡ some bs
buffer_of-with_progress header_field bs n q = refl
buffer_of-with_progress key_field bs n q = refl
buffer_of-with_progress data_field bs n q = refl
buffer_of-with_progress extra_field bs n q = refl

with_progress_twice :
    (field : Field) (cs bs : List ℕ) (m n : ℕ) (q : Request)
    → with_progress field bs n (with_progress field cs m q) ≡ with_progress field bs n q
with_progress_twice header_field cs bs m n q = refl
with_progress_twice key_field cs bs m n q = refl
with_progress_twice data_field cs bs m n q = refl
with_progress_twice extra_field cs bs m n q = refl

set-append : (pre rest : List ℕ) (x b : ℕ) → set (pre ++ x ∷ rest) (length pre) b ≡ pre ++ b ∷ rest
set-append [] rest x b = refl
set-append (p ∷ pre) rest x b = ap (λ l. p ∷ l) (set-append pre rest x b)

module _ (env : Env) where
  open env use {Table}

  -- The reads of the bytes in turn, with the state and the result of the last.
  unfoldable pub read_all :
      Server Table → ℕ → Field → ℕ → SocketState → List ℕ → Run (Server Table × SocketState)
  read_all s c field total ret [] = ok (s, ret)
  read_all s c field total ret (b ∷ bs) =
      read_nbytes env s c field total (byte b) >>= λ (s', ret'). read_all s' c field total ret' bs

  -- The state after a byte, with the request that it leaves.
  abbrev after_byte : Server Table → ℕ → Request → Server Table
  after_byte s r q =
      record (set_stats s (record s.stats { bytes_read = u64 (s.stats.bytes_read + 1) })) {
        requests = place s.requests r (some q);
      }

  after_byte-Holds :
      (s : Server Table) (c r : ℕ) (q q' : Request)
      → Holds s c r q
      → Holds (after_byte s r q') c r q'
  after_byte-Holds s c r q q' h = record { owner = h.owner; stored = ground arith }

  -- What a byte leads to, with `n` bytes of the field before it.
  abbrev progress : Server Table → ℕ → Request → ℕ → ℕ → Run (Server Table × SocketState)
  progress s r q n total =
      if u32 (n + 1) == total
      then ok (after_byte s r (record q { rbytes = 0 }), read_completed)
      else ok (after_byte s r (record q { rbytes = u32 (n + 1) }), need_more)

  count_byte :
      (s : Server Table) (c r : ℕ) (q q' : Request) (total : ℕ)
      → Holds s c r q
      → count_read env s c q' 1 1 total ≡ progress s r q' q'.rbytes total
  unfolding count_read
  count_byte s c r q q' total h =
      let s' = set_stats s (record s.stats { bytes_read = u64 (s.stats.bytes_read + 1) }) in
      let h' : Holds s' c r q = record { owner = h.owner; stored = h.stored } in
      elim (Bool-cases (u32 (q'.rbytes + 1) == total)) [
        | inl e ↦ rw (e, set_in-Holds s' c r q _ h')
        | inr e ↦ rw (e, set_in-Holds s' c r q _ h')
      ]

  read_byte :
      (s : Server Table) (c r : ℕ) (q : Request) (field : Field) (total b : ℕ) (bs : List ℕ)
      → Holds s c r q
      → buffer_of field q ≡ some bs
      → q.rbytes < length bs
      → read_nbytes env s c field total (byte b)
        ≡ progress s r (with_buffer field (set bs q.rbytes b) q) q.rbytes total
  unfolding read_nbytes
  read_byte s c r q field total b bs h buf inside =
      let q' = with_buffer field (set bs q.rbytes b) q in
      let small : ltb q.rbytes (length bs) ≡ true = ground arith in
      let wrote : write_byte field b q ≡ ok q' = rw (buf, small) in
      let counted : count_read env s c q' 1 1 total ≡ progress s r q' q.rbytes total =
        count_byte s c r q q' total h
        ∙ ap (λ n. progress s r q' n total) (rbytes-with_buffer field (set bs q.rbytes b) q) in
      rw (load_in-Holds s c r q h, wrote) counted

  -- The whole field has arrived: its bytes are in the buffer, and the count is back at 0.
  pub record IsReceived (field : Field) (bs : List ℕ) (s : Server Table) (c r : ℕ) : Type 0 where
    pub final : Request
    pub holds : Holds s c r final
    pub buffer : buffer_of field final ≡ some bs
    pub restarted : final.rbytes ≡ 0

  -- A byte at its place, in a buffer that has `pre` already.
  byte_in_place :
      (pre rest : List ℕ) (x b : ℕ) (s : Server Table) (c r : ℕ) (q : Request) (field : Field)
      (total : ℕ)
      → Holds s c r q
      → buffer_of field q ≡ some (pre ++ x ∷ rest)
      → q.rbytes ≡ length pre
      → read_nbytes env s c field total (byte b)
        ≡ progress s r (with_buffer field (pre ++ b ∷ rest) q) (length pre) total
  byte_in_place pre rest x b s c r q field total h buf count =
      let inside : q.rbytes < length (pre ++ x ∷ rest) =
        omega (arith, length-append pre (x ∷ rest)) in
      read_byte s c r q field total b (pre ++ x ∷ rest) h buf inside
      ∙ ap (λ n. progress s r (with_buffer field (set (pre ++ x ∷ rest) n b) q) n total) count
      ∙ ap (λ l. progress s r (with_buffer field l q) (length pre) total) (set-append pre rest x b)

  receive_rest :
      (pre bs rest : List ℕ) (s : Server Table) (c r : ℕ) (q : Request) (field : Field) (total : ℕ)
      → Holds s c r q
      → buffer_of field q ≡ some (pre ++ rest)
      → q.rbytes ≡ length pre
      → length rest ≡ length bs
      → 0 < length bs
      → length pre + length bs ≡ total
      → total < 2 ^ 32
      → (ret : SocketState)
      → Returns
          (read_all s c field total ret bs)
          λ t. (t.1 ≡ read_completed) × IsReceived field (pre ++ bs) t.0 c r
  unfolding read_all
  receive_rest pre [] rest s c r q field total h buf count same pos sum fits ret =
      absurd (omega arith)
  receive_rest pre (b ∷ bs) [] s c r q field total h buf count same pos sum fits ret =
      absurd (omega arith)
  receive_rest pre (b ∷ []) (x ∷ y ∷ rest) s c r q field total h buf count same pos sum fits ret =
      absurd (omega arith)
  receive_rest pre (b ∷ []) (x ∷ []) s c r q field total h buf count same pos sum fits ret =
      let last : u32 (length pre + 1) == total ≡ true = ground arith in
      let q' = with_progress field (pre ++ b ∷ []) 0 q in
      (
        (after_byte s r q', read_completed),
        rw (byte_in_place pre [] x b s c r q field total h buf count, last),
        (
          refl,
          record {
            final = q';
            holds = after_byte-Holds s c r q q' h;
            buffer = buffer_of-with_progress field (pre ++ b ∷ []) 0 q;
            restarted = refl;
          },
        ),
      )
  receive_rest pre (b ∷ d ∷ bs) (x ∷ rest) s c r q field total h buf count same pos sum fits ret =
      let more : u32 (length pre + 1) == total ≡ false = ground arith in
      let n : u32 (length pre + 1) ≡ length (pre ++ b ∷ []) =
        omega (arith, length-append pre (b ∷ [])) in
      let q' = with_progress field (pre ++ b ∷ rest) (u32 (length pre + 1)) q in
      let s' = after_byte s r q' in
      let buf' : buffer_of field q' ≡ some ((pre ++ b ∷ []) ++ rest) =
        buffer_of-with_progress field (pre ++ b ∷ rest) (u32 (length pre + 1)) q
        ∙ ap some (sym (append_assoc pre (b ∷ []) rest)) in
      let ih =
        receive_rest (pre ++ b ∷ []) (d ∷ bs) rest s' c r q' field total
          (after_byte-Holds s c r q q' h) buf' n (omega arith) (omega arith)
          (omega (arith, length-append pre (b ∷ []))) fits need_more in
      (
        ih.0,
        rw (byte_in_place pre rest x b s c r q field total h buf count, more) ih.1,
        (
          ih.2.0,
          subst (λ l. IsReceived field l ih.0.0 c r) (append_assoc pre (b ∷ []) (d ∷ bs)) ih.2.1,
        ),
      )

  -- A field of `length bs` bytes, read a byte an event into a buffer of that length from its
  -- beginning: the last read reports completion, the buffer is the bytes in their order, and the
  -- count is ready for the next field.
  pub read_all-IsReceived :
      (bs buf : List ℕ) (s : Server Table) (c r : ℕ) (q : Request) (field : Field)
      → Holds s c r q
      → buffer_of field q ≡ some buf
      → q.rbytes ≡ 0
      → length buf ≡ length bs
      → 0 < length bs
      → length bs < 2 ^ 32
      → Returns
          (read_all s c field (length bs) need_more bs)
          λ t. (t.1 ≡ read_completed) × IsReceived field bs t.0 c r
  read_all-IsReceived bs buf s c r q field h e count same pos fits =
      receive_rest [] bs buf s c r q field (length bs) h e count same pos (omega arith) fits
        need_more
