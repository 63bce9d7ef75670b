-- ===== src/Server/Transfer/Transmit.antt =====
-- `send_nbytes` over the bytes of a whole buffer, one an event.
use lightcache.Base.{
  u32, u64, ℕ, zero, suc, ◌+◌, ◌^◌, ◌<◌, ◌≡◌, ◌∙◌, ap, refl, sym, true, false, List, [], ◌∷◌, ◌++◌,
  some, length, length-append, get_elem?, ◌==◌, arith,
}
use mathlib.Core.List.{append_assoc, append-nil}
use mathlib.Core.Path.{subst}
use lightcache.Base.Run.{Run, ok, ◌>>=◌, Returns}
use lightcache.Protocol.{Conn, SocketState, need_more, send_completed}
use lightcache.Server.State.{Env, Server, place, set_conn, set_stats}
use lightcache.Server.Sending.{wrote, byte_at, count_sent, send_nbytes}

pub get_elem?-append :
    (pre rest : List ℕ) (b : ℕ) → get_elem? (pre ++ b ∷ rest) (length pre) ≡ some b
get_elem?-append [] rest b = refl
get_elem?-append (p ∷ pre) rest b = get_elem?-append pre rest b

module _ (env : Env) where
  open env use {Table}

  -- `n` writes in turn that each take a byte, with the state and the result of the last.
  unfoldable pub send_all :
      Server Table → ℕ → List ℕ → ℕ → SocketState → ℕ → Run (Server Table × SocketState)
  send_all s c bytes total ret zero = ok (s, ret)
  send_all s c bytes total ret (suc n) =
      send_nbytes env s c bytes total wrote >>= λ (s', ret'). send_all s' c bytes total ret' n

  -- The state after a byte, with `k` for the new count.
  abbrev after_byte : Server Table → ℕ → ℕ → ℕ → Server Table
  after_byte s c b k =
      let conn = s.conns c in
      set_conn (set_stats s (record s.stats { bytes_written = u64 (s.stats.bytes_written + 1) })) c
        (record conn { out = record conn.out { sbytes = k }; sent = conn.sent ++ b ∷ [] })

  -- The socket of `c` has taken `bytes`, and the count stands at `k`.
  pub record IsSent (s : Server Table) (c : ℕ) (bytes : List ℕ) (k : ℕ) : Type 0 where
    pub taken : (s.conns c).sent ≡ bytes
    pub count : (s.conns c).out.sbytes ≡ k

  place_same : (s : Server Table) (c : ℕ) (conn : Conn) → place s.conns c conn c ≡ conn
  place_same s c conn = ground arith

  after_byte-IsSent :
      (s : Server Table) (c b k m : ℕ) (bytes : List ℕ)
      → IsSent s c bytes m
      → IsSent (after_byte s c b k) c (bytes ++ b ∷ []) k
  after_byte-IsSent s c b k m bytes h =
      let conn = s.conns c in
      let same =
        place_same s c
          (record conn { out = record conn.out { sbytes = k }; sent = conn.sent ++ b ∷ [] }) in
      record {
        taken = ap (λ (v : Conn). v.sent) same ∙ ap (λ l. l ++ b ∷ []) h.taken;
        count = ap (λ (v : Conn). v.out.sbytes) same;
      }

  send_byte :
      (pre rest : List ℕ) (b : ℕ) (s : Server Table) (c total : ℕ) (start : List ℕ)
      → IsSent s c start (length pre)
      → send_nbytes env s c (pre ++ b ∷ rest) total wrote ≡ ok (count_sent env s c (b ∷ []) 1 total)
  unfolding send_nbytes
  send_byte pre rest b s c total start h =
      let byte : byte_at (pre ++ b ∷ rest) (s.conns c).out.sbytes ≡ ok b =
        rw (h.count, byte_at, get_elem?-append pre rest b) in
      rw byte

  count_last :
      (s : Server Table) (c b k total : ℕ) (start : List ℕ)
      → IsSent s c start k
      → u32 (k + 1) == total ≡ true
      → count_sent env s c (b ∷ []) 1 total ≡ (after_byte s c b 0, send_completed)
  unfolding count_sent
  count_last s c b k total start h e =
      let e' : u32 ((s.conns c).out.sbytes + 1) == total ≡ true = rw h.count e in rw e'

  count_more :
      (s : Server Table) (c b k total : ℕ) (start : List ℕ)
      → IsSent s c start k
      → u32 (k + 1) == total ≡ false
      → count_sent env s c (b ∷ []) 1 total ≡ (after_byte s c b (u32 (k + 1)), need_more)
  unfolding count_sent
  count_more s c b k total start h e =
      let e' : u32 ((s.conns c).out.sbytes + 1) == total ≡ false = rw h.count e in
      rw e' (ap (λ m. (after_byte s c b (u32 (m + 1)), need_more)) h.count)

  send_rest :
      (pre rest : List ℕ) (s : Server Table) (c total : ℕ) (ret : SocketState) (start : List ℕ)
      → IsSent s c (start ++ pre) (length pre)
      → 0 < length rest
      → length pre + length rest ≡ total
      → total < 2 ^ 32
      → Returns
          (send_all s c (pre ++ rest) total ret (length rest))
          λ t. (t.1 ≡ send_completed) × IsSent t.0 c (start ++ (pre ++ rest)) 0
  unfolding send_all
  send_rest pre [] s c total ret start h pos sum fits = absurd (omega arith)
  send_rest pre (b ∷ []) s c total ret start h pos sum fits =
      let last : u32 (length pre + 1) == total ≡ true = ground arith in
      (
        (after_byte s c b 0, send_completed),
        rw (
          send_byte pre [] b s c total (start ++ pre) h,
          count_last s c b (length pre) total (start ++ pre) h last,
        ),
        (
          refl,
          subst (λ l. IsSent (after_byte s c b 0) c l 0) (append_assoc start pre (b ∷ []))
              (after_byte-IsSent s c b 0 (length pre) (start ++ pre) h),
        ),
      )
  send_rest pre (b ∷ d ∷ rest) s c total ret start h pos sum fits =
      let more : u32 (length pre + 1) == total ≡ false = ground arith in
      let s' = after_byte s c b (u32 (length pre + 1)) in
      let n : u32 (length pre + 1) ≡ length (pre ++ b ∷ []) =
        omega (arith, length-append pre (b ∷ [])) in
      let h' : IsSent s' c (start ++ (pre ++ b ∷ [])) (length (pre ++ b ∷ [])) =
        subst (λ k. IsSent s' c (start ++ (pre ++ b ∷ [])) k) n
          (subst (λ l. IsSent s' c l (u32 (length pre + 1))) (append_assoc start pre (b ∷ []))
            (after_byte-IsSent s c b (u32 (length pre + 1)) (length pre) (start ++ pre) h)) in
      let ih =
        send_rest (pre ++ b ∷ []) (d ∷ rest) s' c total need_more start h' (omega arith)
          (omega (arith, length-append pre (b ∷ []))) fits in
      let same = append_assoc pre (b ∷ []) (d ∷ rest) in
      (
        ih.0,
        rw
            (
              send_byte pre (d ∷ rest) b s c total (start ++ pre) h,
              count_more s c b (length pre) total (start ++ pre) h more,
            )
            (subst (λ l. send_all s' c l total need_more (length (d ∷ rest)) ≡ ok ih.0) same ih.1),
        (ih.2.0, subst (λ l. IsSent ih.0.0 c (start ++ l) 0) same ih.2.1),
      )

  -- A buffer of `length bytes` bytes, written a byte an event from its beginning: the last write
  -- reports completion, the socket has taken the bytes in their order after what it had taken
  -- before, and the count is ready for the next buffer.
  pub send_all-IsSent :
      (bytes start : List ℕ) (s : Server Table) (c : ℕ)
      → IsSent s c start 0
      → 0 < length bytes
      → length bytes < 2 ^ 32
      → Returns
          (send_all s c bytes (length bytes) need_more (length bytes))
          λ t. (t.1 ≡ send_completed) × IsSent t.0 c (start ++ bytes) 0
  send_all-IsSent bytes start s c h pos fits =
      send_rest [] bytes s c (length bytes) need_more start
        (subst (λ l. IsSent s c l 0) (sym (append-nil start)) h) pos (omega arith) fits
