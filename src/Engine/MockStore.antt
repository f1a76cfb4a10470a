-- ===== src/Engine/MockStore.antt =====
-- internal/engine/mockstore.go: the in-memory store with expiring values. Times are readings of
-- the injected clock, arguments of each call, since a call may read the clock more than once.
pub mod Expiry
use rout_wire.Base.{
  ℕ, ◌+◌, ◌*◌, ◌^◌, Bool, not, List, [], ◌∷◌, Option, none, some, ltb, ◌==◌, if◌then◌else◌, select,
  map, length,
}
use rout_wire.Base.Bytes.{Bytes, bytes_eq}
use rout_wire.Base.Map.{Map, lookup, insert, delete}

-- type entryValue
pub record Entry : Type 0 where
  pub v : Bytes
  pub exp : ℕ

pub record MockStore : Type 0 where
  pub ttl : ℕ
  pub values : Map (List Entry)

-- 10 minutes, in nanoseconds
abbrev default_ttl : ℕ
default_ttl = 600 * 10 ^ 9

-- func NewMockStore. The source's ttl is signed; a negative one acts as 0.
pub new_mock_store : ℕ → MockStore
new_mock_store ttl = record { ttl = if ttl == 0 then default_ttl else ttl; values = [] }

unfoldable pub or_empty : Option (List Entry) → List Entry
or_empty none = []
or_empty (some es) = es

-- m.values[key], which is empty for a missing key
unfoldable pub entries : Bytes → MockStore → List Entry
unfolding or_empty
entries key s = or_empty (lookup key s.values)

store_live : Bytes → List Entry → Map (List Entry) → Map (List Entry)
store_live key [] m = delete key m
store_live key (e ∷ es) m = insert key (e ∷ es) m

-- e.exp.After(now)
abbrev pub is_live : ℕ → Entry → Bool
is_live now e = ltb now e.exp

-- func (m *MockStore) purgeLocked
pub purge : ℕ → Bytes → MockStore → MockStore
unfolding store_live
purge now key s = record s {
  values = store_live key (select (is_live now) (entries key s)) s.values;
}

-- func (m *MockStore) Get
pub get : ℕ → Bytes → MockStore → List Bytes × MockStore
get now key s = let s' = purge now key s in (map (λ (e : Entry). e.v) (entries key s'), s')

-- The loop of Put that renews an equal value, with the append that follows if there was none.
pub renew : ℕ → Bytes → List Entry → List Entry
renew exp v [] = record { v = v; exp = exp } ∷ []
renew exp v (e ∷ es) =
    let rest = renew exp v es in if bytes_eq e.v v then record e { exp = exp } ∷ es else e ∷ rest

-- func (m *MockStore) Put: the purge and the put each read the clock.
pub put : ℕ → ℕ → Bytes → Bytes → MockStore → MockStore
put purge_now now key v s =
    let s' = purge purge_now key s in
    record s' { values = insert key (renew (now + s'.ttl) v (entries key s')) s'.values }

-- func (m *MockStore) Delete
pub remove : Bytes → Bytes → MockStore → MockStore
remove key v s = record s {
  values = insert key (select (λ e. not (bytes_eq e.v v)) (entries key s)) s.values;
}

-- func (m *MockStore) Len
pub live_count : ℕ → Bytes → MockStore → ℕ × MockStore
live_count now key s = let s' = purge now key s in (length (entries key s'), s')
