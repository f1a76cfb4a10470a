-- ===== src/Mesh/Roster.antt =====
-- internal/mesh/roster.go: the records of all nodes, folded out of the values under one key.
-- A clock reading is a Unix time in seconds; a context that ends between two attempts, or during
-- a pause, is `ended` and `interrupted` of the attempt.
pub mod Newest
pub mod Trust
pub mod Stable
use rout_wire.Base.{
  ℕ, zero, suc, ◌+◌, ◌-◌, Bool, true, false, not, List, [], ◌∷◌, Option, none, some, ltb, leb, ◌==◌,
  if◌then◌else◌,
}
use rout_wire.Base.Bytes.{Bytes, bytes_eq, bytes_lt}
use rout_wire.Base.Int.{ℤ, pos, negsuc, ltb_ℤ}
use rout_wire.Base.Map.{Map, lookup, insert, keys}
use rout_wire.Base.Sort.{stable_sort}
use rout_wire.Engine.Crypto.{Outcome, good, bad, seal_room, unseal_room}
use rout_wire.Engine.Envelope.{Json}
use rout_wire.Engine.Store.{Error, Result, ok, err, Store, publish}
use rout_wire.Mesh.Deriver.{Derivation, Deriver, Cidr, normalize_name, roster_key, roster_box_key}
use rout_wire.Mesh.Record.{Record, decode_record, verify_binding}

-- type Roster, with its store and clock left out
pub record Roster : Type 0 where
  pub deriver : Deriver
  pub cidr : Cidr
  pub me : Bytes
  pub max_age : ℕ

-- func NewRoster, for a network that is not nil; the age is 24 hours
pub new_roster : Deriver → Bytes → Cidr → Roster
new_roster d me cidr = record { deriver = d; cidr = cidr; me = normalize_name me; max_age = 86400 }

-- nowFunc().Add(-maxAge).Unix()
unfoldable pub fresh_before : Roster → ℕ → ℤ
fresh_before ro now =
    if leb ro.max_age now then pos (now - ro.max_age) else negsuc (ro.max_age - now - 1)

-- The end of Fetch's loop body: keep the higher Seq of a name.
keep_newer : Option Record → Record → Map Record → Map Record
keep_newer none rec out = insert rec.name rec out
keep_newer (some cur) rec out = if leb rec.seq cur.seq then out else insert rec.name rec out

unfoldable pub absorb_record : Option Record → Map Record → Map Record
unfolding keep_newer
absorb_record none out = out
absorb_record (some rec) out = keep_newer (lookup rec.name out) rec out

-- One entry of the loop of FetchStable that merges what an attempt found.
merge_entry : Option Record → Bytes → Record → Map Record → Map Record
merge_entry none name rec merged = insert name rec merged
merge_entry (some cur) name rec merged =
    if ltb cur.seq rec.seq then insert name rec merged else merged

unfoldable pub merge_fetched : Map Record → Map Record → Map Record
unfolding merge_entry
merge_fetched [] merged = merged
merge_fetched ((name, rec) ∷ got) merged =
    merge_fetched got (merge_entry (lookup name merged) name rec merged)

-- func Names
unfoldable pub names : Map Record → List Bytes
names peers = stable_sort bytes_lt (keys peers)

module _ (x : Derivation) (ip_string : ℕ → Bytes) (json : Json Record) where
  -- func sealRecord, with the nonce that the random source gave
  unfoldable pub seal_record : Deriver → Option Bytes → Record → Outcome Bytes
  seal_record d salt rec = seal_room x.crypto (roster_box_key x d) salt (json.marshal rec)

  -- The tests of Fetch's loop body on a decoded record.
  unfoldable pub is_trusted : Roster → ℤ → Record → Bool
  is_trusted ro before rec =
      if ltb_ℤ rec.ts before
      then false
      else if bytes_eq rec.name ro.me
      then false
      else verify_binding x ip_string ro.deriver ro.cidr rec

  only_trusted : Roster → ℤ → Option Record → Option Record
  only_trusted ro before none = none
  only_trusted ro before (some rec) = if is_trusted ro before rec then some rec else none

  opened : Outcome Bytes → Option Record
  opened (bad e) = none
  opened (good plain) = decode_record x.crypto json plain

  -- What Fetch's loop body makes of a value: nothing where it continues early.
  unfoldable pub usable : Roster → ℤ → Bytes → Option Record
  unfolding only_trusted opened
  usable ro before v =
      only_trusted ro before (opened (unseal_room x.crypto (roster_box_key x ro.deriver) v))

  -- The loop of Fetch.
  unfoldable pub fold_values : Roster → ℤ → List Bytes → Map Record → Map Record
  fold_values ro before [] out = out
  fold_values ro before (v ∷ vals) out =
      fold_values ro before vals (absorb_record (usable ro before v) out)

  module _ (store : Store) where
    publish_sealed :
        ℕ → (ℕ → Option Error) → Roster → Outcome Bytes → store.State → Option Error × store.State
    publish_sealed retries sleeps ro (bad e) s = (some (Error.backend []), s)
    publish_sealed retries sleeps ro (good sealed) s =
        publish store retries sleeps (roster_key x ro.deriver) sealed s

    -- func (ro *Roster) Publish; a failure to seal is the error of no backend.
    unfoldable pub publish_record :
        ℕ
        → (ℕ → Option Error)
        → Roster
        → Option Bytes
        → Record
        → store.State
        → Option Error × store.State
    unfolding publish_sealed
    publish_record retries sleeps ro salt rec s =
        publish_sealed retries sleeps ro (seal_record ro.deriver salt rec) s

    folded : Roster → ℕ → Result (List Bytes) → Result (Map Record)
    folded ro now (err e) = err e
    folded ro now (ok vals) = ok (fold_values ro (fresh_before ro now) vals [])

    -- func (ro *Roster) Fetch
    unfoldable pub fetch : Roster → ℕ → store.State → Result (Map Record) × store.State
    unfolding folded
    fetch ro now s = let (r, s') = store.get (roster_key x ro.deriver) s in (folded ro now r, s')

-- The merged view and the last error after an attempt of FetchStable.
unfoldable pub after_attempt :
    Result (Map Record) → Map Record × Option Error → Map Record × Option Error
after_attempt (err e) (merged, last) = (merged, some e)
after_attempt (ok got) (merged, last) = (merge_fetched got merged, last)

-- The end of FetchStable.
unfoldable pub settle : Map Record × Option Error → Result (Map Record)
settle ([], some e) = err e
settle ([], none) = ok []
settle (e ∷ merged, last) = ok (e ∷ merged)

module _ {S : Type 0} (fetch_once : ℕ → S → Result (Map Record) × S)
    (ended interrupted : ℕ → Bool) where
  abbrev pub Step : Type 0
  Step = Map Record × Option Error → S → Result (Map Record) × S

  pause_then : Bool → Step → Step
  pause_then stop rest v s = if stop then (ok v.0, s) else rest v s

  -- The loop of FetchStable from attempt i on, with `left` attempts after this one.
  unfoldable pub attempts_from : ℕ → ℕ → Step
  unfolding pause_then
  attempts_from zero i v s =
      if ended i
      then (settle v, s)
      else (settle (after_attempt (fetch_once i s).0 v), (fetch_once i s).1)
  attempts_from (suc left) i v s =
      if ended i
      then (settle v, s)
      else pause_then (interrupted i) (attempts_from left (i + 1))
          (after_attempt (fetch_once i s).0 v) (fetch_once i s).1

  -- func (ro *Roster) FetchStable, over its Fetch; fewer attempts than one are one.
  unfoldable pub fetch_stable : ℕ → S → Result (Map Record) × S
  unfolding attempts_from
  fetch_stable attempts s = attempts_from (attempts - 1) 0 ([], none) s
