-- ===== src/Server/Store/Delete.antt =====
-- DELETE on the cache.
use lightcache.Base.{ℕ, ◌≡◌, ◌∙◌, ap, refl, List, Option, none, some}
use lightcache.Base.Run.{ok, Returns}
use lightcache.Protocol.{Request, nothing, success, key_notexists}
use lightcache.Server.State.{Env, Server, load_in-Holds}
use lightcache.Server.Answer.{responded, send_response_run, IsAnswered}
use lightcache.Server.Commands.{execute_delete}
use lightcache.Server.Store.{
  Updates, TableLaws, IsCached, IsStocked, dropped, drop_item_run, dropped-IsStocked, place-same,
}
use lightcache.Server.Store.Answered.{
  HasKey, responded-IsStocked, responded-IsAnswered, dropped-HasKey,
}

module _ (env : Env) (laws : TableLaws env) where
  open env use {Table, Item, hget}

  -- What a DELETE gives, by the value that the key has before.
  abbrev pub IsDeleted :
      Server Table → ℕ → Request → List ℕ → Option (Option ℕ) → Server Table → Type 0
  IsDeleted s c q k none t =
      IsStocked env laws t
      × (t.table ≡ s.table)
      × IsAnswered env s t c q.header.opcode key_notexists 0 nothing
  IsDeleted s c q k (some w) t =
      IsStocked env laws t
      × Updates laws.value s.table t.table k none
      × ((r : ℕ) × (w ≡ some r) × (t.requests r ≡ none))
      × IsAnswered env s t c q.header.opcode success 0 nothing

  module _ (s : Server Table) (c r : ℕ) (q : Request) (k : List ℕ) (is : IsStocked env laws s)
      (has : HasKey s c r q k) where
    found :
        (it : Item) (r' : ℕ) (q' : Request)
        → hget s.table (some k) ≡ ok (some it)
        → laws.At s.table k it (some r')
        → IsCached env laws s k r' q'
        → execute_delete env s c
          ≡ ok (responded env (dropped env laws s it r') c q nothing 0 success)
    unfolding execute_delete
    found it r' q' run at cached =
        let drop =
          drop_item_run env laws s it r' q' (laws.item_val s.table k it (some r') at)
            cached.stored in
        let has' = dropped-HasKey env laws s c r r' q q' k it has cached in
        rw (load_in-Holds s c r q has.holds, has.key, run, drop)
          (send_response_run env (dropped env laws s it r') c r q success has'.holds)

    deleted :
        (w : Option (Option ℕ))
        → laws.value s.table k ≡ w
        → Returns (execute_delete env s c) (IsDeleted s c q k w)
    unfolding execute_delete
    deleted none e =
        let gone = laws.get_none s.table k is.valid has.plain e in
        (
          responded env s c q nothing 0 key_notexists,
          rw (load_in-Holds s c r q has.holds, has.key, gone)
              (send_response_run env s c r q key_notexists has.holds),
          (
            responded-IsStocked env laws s c q nothing 0 key_notexists is,
            refl,
            responded-IsAnswered env laws s s c q nothing 0 key_notexists refl,
          ),
        )
    deleted (some w) e =
        let (r', q', same, cached) = is.stock k w e in
        let (it, run, at) =
          laws.get_some s.table k (some r') is.valid has.plain (e ∙ ap some same) in
        let (is', updates) = dropped-IsStocked env laws s k it r' q' is at cached in
        let s' = dropped env laws s it r' in
        (
          responded env s' c q nothing 0 success,
          found it r' q' run at cached,
          (
            responded-IsStocked env laws s' c q nothing 0 success is',
            updates,
            (r', same, place-same env laws s.requests r' none),
            responded-IsAnswered env laws s s' c q nothing 0 success refl,
          ),
        )

    -- DELETE of a key without a zero byte, on a well-formed cache, returns: for a key that is not there,
    -- the same table and the answer KEY_NOTEXISTS; for a key that is there, a cache without that key, with
    -- all others as before, in which the request of the key is freed, and the answer SUCCESS.
    pub execute_delete-IsDeleted :
        Returns (execute_delete env s c) (IsDeleted s c q k (laws.value s.table k))
    execute_delete-IsDeleted = deleted (laws.value s.table k) refl
