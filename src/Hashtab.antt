-- ===== src/Hashtab.antt =====
-- The hash table of src/hashtab.c and src/hashtab.h.
pub mod Hash
pub mod Items
pub mod Table
pub mod Grow
pub mod Keys
pub mod Chain
pub mod Valid
pub mod Add
pub mod Steps
pub mod Flat
pub mod Move
pub mod Growth
pub mod Set
pub mod Deep
pub mod Map
pub mod Failure
pub mod Enum
use lightcache.Base.{ℕ, ◌+◌, ◌-◌, ◌^◌, u32, Bool, Option, none, some, List, []}

-- `hresult`
pub data HResult : Type 0 where
  hsuccess herror hexists : HResult

-- `struct _hitem`, with its key as the bytes before the final 0; a null key or value is `none`. The
-- field `next` is the order of a chain.
pub record HItem : Type 0 where
  pub key : Option (List ℕ)
  pub klen : ℕ
  pub val : Option ℕ
  pub free : Bool

-- `_htab`. The array is a function of the index, and a chain whose first item was freed is `none`.
pub record Htab : Type 0 where
  pub realsize : ℕ
  pub logsize : ℕ
  pub count : ℕ
  pub mask : ℕ
  pub freecount : ℕ
  pub table : ℕ → Option (List HItem)

-- HSIZE and HMASK
abbrev pub hsize : ℕ → ℕ
hsize n = u32 (2 ^ n)

abbrev pub hmask : ℕ → ℕ
hmask n = u32 (hsize n + 2 ^ 32 - 1)
