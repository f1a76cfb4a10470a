-- ===== src/Engine/Room.antt =====
-- internal/engine/engine.go: the chat room. The lock is held around each access and no two calls
-- run at once here; the callbacks of RoomEvents are the events that a call returns, both set.
-- Times, nonces and the order in which maps are visited are arguments.
pub mod Window
pub mod Events
use rout_wire.Base.{
  ℕ, ◌+◌, ◌%◌, ◌^◌, Bool, true, false, not, List, [], ◌∷◌, ◌++◌, Option, none, some, ltb,
  if◌then◌else◌, length, take, select,
}
use rout_wire.Base.Bytes.{Bytes, bytes_eq}
use rout_wire.Base.Int.{ℤ}
use rout_wire.Base.Map.{Map, lookup, insert, has_key}
use rout_wire.Engine.Crypto.{Crypto, Outcome, good, bad, derive_room_key, room_key_id}
use rout_wire.Engine.Envelope.{
  WireEnvelope, Json, Identity, id, sender_pk, verify, open_text, new_envelope, marshal_envelope,
  decode_envelope, public_string,
}
use rout_wire.Engine.Window.{keep_top, sort_ascending, dedupe_by_id}
use rout_wire.Engine.Store.{Error, Result, ok, err, Store, publish}

-- type Room, with its store and callbacks left out
pub record Room : Type 0 where
  pub token : Bytes
  pub key : Bytes
  pub room_key : Bytes
  pub me : Identity
  pub name : Bytes
  pub window_n : ℕ
  pub any_member : Bool
  pub seq : ℕ
  pub seen : Map WireEnvelope
  pub window : List WireEnvelope
  pub contact_seen : Map Bool

-- type Message
pub record Message : Type 0 where
  pub message_id : Bytes
  pub kind : Bytes
  pub from : Bytes
  pub from_text : Bytes
  pub name : Bytes
  pub seq : ℕ
  pub ts : ℤ
  pub text : Bytes
  pub verified : Bool
  pub mine : Bool

-- The calls of OnContact and OnMessage.
pub data Event : Type 0 where
  on_contact : Bytes → Bytes → Event
  on_message : Message → Event

module _ (c : Crypto) where
  -- func NewRoom, with the default options; `now` is the clock in nanoseconds
  pub new_room : Bytes → Identity → Bytes → ℕ → Room
  new_room token me name now = record {
    token = token;
    key = room_key_id c token;
    room_key = derive_room_key c token;
    me = me;
    name = name;
    window_n = 20;
    any_member = true;
    seq = now;
    seen = [];
    window = [];
    contact_seen = [];
  }

  -- func shortAddr: "…" and the first eight characters
  pub short_addr : Bytes → Bytes
  short_addr pk = 0xe2 ∷ 0x80 ∷ 0xa6 ∷ take 8 (c.b64 pk)

  abbrev or_false : Option Bool → Bool
  or_false none = false
  or_false (some b) = b

  -- a failed decode leaves the zero key
  abbrev zero_key : Bytes
  zero_key =
      0 ∷ 0 ∷ 0 ∷ 0 ∷ 0 ∷ 0 ∷ 0 ∷ 0 ∷ 0 ∷ 0 ∷ 0 ∷ 0 ∷ 0 ∷ 0 ∷ 0 ∷ 0 ∷ 0 ∷ 0 ∷ 0 ∷ 0 ∷ 0 ∷ 0 ∷ 0 ∷ 0
      ∷ 0 ∷ 0 ∷ 0 ∷ 0 ∷ 0 ∷ 0 ∷ 0 ∷ 0 ∷ []

  abbrev or_zero_key : Option Bytes → Bytes
  or_zero_key none = zero_key
  or_zero_key (some pk) = pk

  decoded : Room → WireEnvelope → Option Bytes → Option Message
  unfolding short_addr
  decoded r e none = none
  decoded r e (some text) = some (record {
    message_id = id e;
    kind = e.kind;
    from = or_zero_key (sender_pk c e);
    from_text = short_addr (or_zero_key (sender_pk c e));
    name = e.name;
    seq = e.seq;
    ts = e.ts;
    text = text;
    verified = or_false (verify c e);
    mine = bytes_eq e.pk (public_string c r.me);
  })

  -- func (r *Room) decode
  unfoldable pub decode : Room → WireEnvelope → Option Message
  unfolding decoded
  decode r e = decoded r e (open_text c r.room_key e)

  -- func (r *Room) HasSeen
  pub has_seen : Room → Bytes → Bool
  has_seen r message_id = has_key message_id r.seen

  messages : Room → List WireEnvelope → List Message
  messages r [] = []
  messages r (e ∷ envs) = elim (decode r e) [
    | none ↦ messages r envs
    | some m ↦ m ∷ messages r envs
  ]

  -- func (r *Room) Current
  unfoldable pub current : Room → List Message
  unfolding messages
  current r = messages r r.window

  -- The loop of Reconcile that finds the contacts not seen before; it reads the map as it was.
  unfoldable pub new_contacts : Map Bool → List WireEnvelope → List (Bytes × Bytes)
  new_contacts contacts [] = []
  new_contacts contacts (e ∷ top) =
      let rest = new_contacts contacts top in
      elim (sender_pk c e) [
        | none ↦ rest
        | some pk ↦ if has_key pk contacts then rest else (pk, e.name) ∷ rest
      ]

  -- The loop of Reconcile that finds the messages not seen before.
  unfoldable pub new_messages : Map WireEnvelope → List WireEnvelope → List WireEnvelope
  new_messages seen top = select (λ e. not (has_key (id e) seen)) top

  unfoldable pub mark_seen : Map WireEnvelope → List WireEnvelope → Map WireEnvelope
  mark_seen seen [] = seen
  mark_seen seen (e ∷ top) = mark_seen (insert (id e) e seen) top

  mark_contacts : Map Bool → List (Bytes × Bytes) → Map Bool
  mark_contacts contacts [] = contacts
  mark_contacts contacts ((pk, name) ∷ rest) = mark_contacts (insert pk true contacts) rest

  contact_events : List (Bytes × Bytes) → List Event
  contact_events [] = []
  contact_events ((pk, name) ∷ rest) = on_contact pk name ∷ contact_events rest

  unfoldable pub message_events : Room → List WireEnvelope → List Event
  message_events r [] = []
  message_events r (e ∷ envs) = elim (decode r e) [
    | none ↦ message_events r envs
    | some m ↦ on_message m ∷ message_events r envs
  ]

  -- The part of Reconcile from the kept window on, up to the events.
  unfoldable pub commit : Room → List WireEnvelope → Room × List Event
  unfolding contact_events mark_contacts
  commit r top =
      let contacts = new_contacts r.contact_seen top in
      let fresh = new_messages r.seen top in
      (
        record r {
          seen = mark_seen r.seen top;
          window = top;
          contact_seen = mark_contacts r.contact_seen contacts;
        },
        contact_events contacts ++ message_events r fresh,
      )

  -- The envelopes that Reconcile publishes again.
  unfoldable pub to_refresh : Room → List WireEnvelope → List WireEnvelope
  to_refresh r top =
      if r.any_member then top else select (λ e. bytes_eq e.pk (public_string c r.me)) top

  module _ (json : Json WireEnvelope) where
    -- The loop that decodes the values read, skipping the foreign ones.
    unfoldable pub decode_all : Bytes → List Bytes → List WireEnvelope
    decode_all room_key [] = []
    decode_all room_key (v ∷ vals) = elim (decode_envelope c json room_key v) [
      | none ↦ decode_all room_key vals
      | some e ↦ e ∷ decode_all room_key vals
    ]

    module _ (visit : Map WireEnvelope → Map WireEnvelope) where
      -- The window that Reconcile builds from the values read.
      unfoldable pub window_of : Room → List Bytes → List WireEnvelope
      window_of r vals =
          sort_ascending (keep_top (dedupe_by_id visit (decode_all r.room_key vals)) r.window_n)

      unfoldable pub absorb : Room → List Bytes → Room × List Event
      absorb r vals = commit r (window_of r vals)

      module _ (store : Store) (max_retries : ℕ) (sleeps : ℕ → Option Error) where
        -- The best-effort refresh: each publish's error is dropped.
        refresh_all : Room → List WireEnvelope → store.State → store.State
        refresh_all r [] s = s
        refresh_all r (e ∷ envs) s =
            refresh_all r envs
              (publish store max_retries sleeps r.key (marshal_envelope c json r.room_key e) s).1

        after_read :
            Room
            → Result (List Bytes) × store.State
            → Option Error × Room × List Event × store.State
        unfolding refresh_all
        after_read r (err e, s) = (some e, r, [], s)
        after_read r (ok vals, s) =
            let (r', events) = absorb r vals in
            (none, r', events, refresh_all r (to_refresh r (window_of r vals)) s)

        -- func (r *Room) Reconcile
        unfoldable pub reconcile :
            Room → store.State → Option Error × Room × List Event × store.State
        unfolding after_read
        reconcile r s = after_read r (store.get r.key s)

    module _ (store : Store) (max_retries : ℕ) (sleeps : ℕ → Option Error) where
      published :
          Room → WireEnvelope → Option Error × store.State → Option Bytes × Room × store.State
      published r e (none, s) = (some (id e), r, s)
      published r e (some x, s) = (none, r, s)

      send_built : Room → Outcome WireEnvelope → store.State → Option Bytes × Room × store.State
      unfolding published
      send_built r (bad x) s = (none, r, s)
      send_built r (good e) s =
          published r e
            (publish store max_retries sleeps r.key (marshal_envelope c json r.room_key e) s)

      -- func (r *Room) Send: the id of the message, or nothing after an error. The counter is an
      -- int64 that is read as a uint64.
      unfoldable pub send :
          Room → Option Bytes → ℤ → Bytes → store.State → Option Bytes × Room × store.State
      unfolding send_built
      send r nonce now text s =
          let seq = (r.seq + 1) % 2 ^ 64 in
          send_built (record r { seq = seq })
            (new_envelope c r.me r.name r.token r.room_key nonce seq now text) s
