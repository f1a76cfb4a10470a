-- ===== src/Engine/Room/Window.antt =====
-- What Reconcile and Send leave behind.
use mathlib.Core.List.Permᴰ
use rout_wire.Base.{
  ℕ, ◌+◌, ◌≤◌, ◌≡◌, refl, List, [], Permᴰ, Memᴰ, Option, none, some, arith, All, length,
  length-perm, inl, inr, All-perm, All-mono, Bool-cases, leb, Ordered, Ordered-mono, ◌++◌, ◌↔◌, ◌%◌,
  ◌^◌, ◌⊎◌, subst,
}
use rout_wire.Base.Bytes.{Bytes}
use rout_wire.Base.Map.{Map}
use rout_wire.Base.Int.{ℤ}
use rout_wire.Engine.Crypto.{Crypto, Outcome, good, bad}
use rout_wire.Engine.Envelope.{WireEnvelope, Json, id, new_envelope, marshal_envelope}
use rout_wire.Engine.Store.{Error, Result, ok, err, Store, publish}
use rout_wire.Engine.Store.Publish.{SeenAt, publish-seen}
use rout_wire.Engine.Window.{keep_top, sort_ascending, dedupe_by_id}
use rout_wire.Engine.Window.Newest.{
  IsEarlier, older-IsEarlier, newer-IsEarlier, keep_top-newest, sort_ascending-IsSorted,
}
use rout_wire.Engine.Window.Dedupe.{last_with, HasUniqueIds, dedupe_by_id-last}
use rout_wire.Engine.Room.{
  Room, decode_all, window_of, absorb, commit, after_read, reconcile, send, send_built, published,
}

module _ (c : Crypto) (json : Json WireEnvelope) (visit : Map WireEnvelope → Map WireEnvelope)
    (visit_perm : (m : Map WireEnvelope) → Permᴰ m (visit m)) where
  -- The envelopes that are the last of those read with their id, in any order, fall into the window and
  -- the dropped ones. The window holds n of them, or all if there are not so many; none in it is
  -- earlier than one before it, and no dropped one is later than one in it.
  pub record IsWindow (n : ℕ) (read window : List WireEnvelope) : Type 0 where
    pub unique : List WireEnvelope
    pub dropped : List WireEnvelope
    pub lasts : (e : WireEnvelope) → Memᴰ e unique ↔ (last_with (id e) read ≡ some e)
    pub unique_ids : HasUniqueIds unique
    pub parts : Permᴰ unique (window ++ dropped)
    pub full : (length window ≡ n) ⊎ ((length window ≤ n) × (dropped ≡ []))
    pub oldest_first : Ordered (λ a b. ¬ IsEarlier b a) window
    pub newest : All (λ a. All (λ b. ¬ IsEarlier a b) dropped) window

  window_of-IsWindow :
      (r : Room) (vals : List Bytes)
      → IsWindow r.window_n (decode_all c json r.room_key vals) (window_of c json visit r vals)
  unfolding window_of
  window_of-IsWindow r vals =
      let read = decode_all c json r.room_key vals in
      let envs = dedupe_by_id visit read in
      let kept = keep_top envs r.window_n in
      let (dropped, parts, few, all, exact, newest) = keep_top-newest envs r.window_n in
      let (same, sorted) = sort_ascending-IsSorted kept in
      let last = dedupe_by_id-last visit visit_perm read in
      record {
        unique = envs;
        dropped = dropped;
        lasts = last.0;
        unique_ids = last.1;
        parts = Permᴰ.trans parts (Permᴰ.append_right dropped same);
        full = elim (Bool-cases (leb r.window_n (length envs))) [
          | inl many ↦ inl (omega (arith, length-perm same, exact (ground arith)))
          | inr fewer ↦ inr (omega (arith, length-perm same, few), all (ground arith))
        ];
        oldest_first = Ordered-mono (λ a b. older-IsEarlier b a) (sort_ascending kept) sorted;
        newest =
            All-perm _ same
              (All-mono (λ a. All-mono (λ b. newer-IsEarlier b a) dropped) kept newest);
      }

  module _ (store : Store) (max_retries : ℕ) (sleeps : ℕ → Option Error) where
    -- A poll whose read fails reports that error, announces nothing and leaves the room as it was.
    -- Any other poll succeeds, whatever its refreshes do. Of the envelopes that the values decode to,
    -- each the last one of its id, it leaves the window_n newest in the window, or all if there are no
    -- more, oldest first.
    pub reconcile-IsWindow :
        (r : Room) (s : store.State)
        → let result = reconcile c json visit store max_retries sleeps r s in
          ((e : Error) × ((store.get r.key s).0 ≡ err e)
            × (result ≡ (some e, r, [], (store.get r.key s).1)))
          ⊎ ((vals : List Bytes) × ((store.get r.key s).0 ≡ ok vals)
              × (result.0 ≡ none)
              × IsWindow r.window_n (decode_all c json r.room_key vals) result.1.window)
    unfolding reconcile absorb commit
    reconcile-IsWindow r s = go (store.get r.key s)
      where
        go :
            (got : Result (List Bytes) × store.State)
            → let result = after_read c json visit store max_retries sleeps r got in
              ((e : Error) × (got.0 ≡ err e) × (result ≡ (some e, r, [], got.1)))
              ⊎ ((vals : List Bytes) × (got.0 ≡ ok vals)
                  × (result.0 ≡ none)
                  × IsWindow r.window_n (decode_all c json r.room_key vals) result.1.window)
        go (err e, t) = inl (e, refl, refl)
        go (ok vals, t) = inr (vals, refl, refl, window_of-IsWindow r vals)

module _ (c : Crypto) (json : Json WireEnvelope) (store : Store) (max_retries : ℕ)
    (sleeps : ℕ → Option Error) where
  abbrev IsStored : Room → Option Bytes × Room × store.State → Type 0
  IsStored r (none, r', t) = Unit
  IsStored r (some message_id, r', t) =
      (e : WireEnvelope) × (id e ≡ message_id)
      × SeenAt store r.key (marshal_envelope c json r.room_key e) t

  published-IsStored :
      (r : Room) (e : WireEnvelope) (s : store.State) (result : Option Error × store.State)
      → publish store max_retries sleeps r.key (marshal_envelope c json r.room_key e) s ≡ result
      → IsStored r (published c json store max_retries sleeps r e result)
  unfolding published
  published-IsStored r e s (none, t) h =
      (e, refl, publish-seen store max_retries sleeps r.key _ s t h)
  published-IsStored r e s (some x, t) h = tt

  send-IsStored :
      (r : Room) (salt : Option Bytes) (now : ℤ) (text : Bytes) (s : store.State)
      → IsStored r (send c json store max_retries sleeps r salt now text s)
  unfolding send
  send-IsStored r salt now text s =
      built (new_envelope c r.me r.name r.token r.room_key salt _ now text)
    where
      r1 : Room
      r1 = record r { seq = (r.seq + 1) % 2 ^ 64 }

      built :
          (out : Outcome WireEnvelope)
          → IsStored r (send_built c json store max_retries sleeps r1 out s)
      built (bad x) = tt
      built (good e) = published-IsStored r1 e s _ refl

  -- Send returns an id only if the last Get that it made on the room's key showed the stored
  -- form of an envelope with that id.
  pub send-stored :
      (r r' : Room) (salt : Option Bytes) (now : ℤ) (text message_id : Bytes) (s t : store.State)
      → send c json store max_retries sleeps r salt now text s ≡ (some message_id, r', t)
      → (e : WireEnvelope) × (id e ≡ message_id)
        × SeenAt store r.key (marshal_envelope c json r.room_key e) t
  send-stored r r' salt now text message_id s t h =
      subst (IsStored r) h (send-IsStored r salt now text s)
