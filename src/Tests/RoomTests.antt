-- ===== src/Tests/RoomTests.antt =====
-- Runs of the theorems on the room and the envelopes.
use rout_wire.Base.{◌≡◌, ◌⊎◌, refl, true, false, List, [], ◌∷◌, ◌++◌, none, some, All}
use rout_wire.Base.Bytes.{Bytes, bytes, bytes_eq}
use rout_wire.Base.Decimal.{format_uint}
use rout_wire.Base.Int.{pos}
use rout_wire.Base.Map.{has_key}
use rout_wire.Engine.Store.{Error, ok, err, publish}
use rout_wire.Engine.Store.Publish.{SeenAt}
use rout_wire.Engine.Crypto.{seal_room, seal_deterministic}
use rout_wire.Engine.Envelope.{
  WireEnvelope, Json, id, new_envelope, sign_sealed, new_identity_from_seed, verify, open_text,
  decode_envelope, marshal_envelope,
}
use rout_wire.Engine.Envelope.Delivery.{new_envelope_delivers}
use rout_wire.Engine.Room.{reconcile, send, decode_all}
use rout_wire.Engine.Room.Events.{message_ids, polls, AllDifferent, message_ids-polls}
use rout_wire.Engine.Room.Window.{IsWindow, reconcile-IsWindow, send-stored}
use rout_wire.Tests.Toy.{
  sixteen, thirty_two, toy_crypto, toy_crypto-CryptoLaws, toy_store, no_sleep, toy_envelope,
  toy_json, toy_room, in_order, in_order-perm, sealed_text,
}

abbrev two_reads : List (List Bytes)
two_reads =
    (sealed_text (bytes "a") ∷ sealed_text (bytes "bc") ∷ []) ∷ (sealed_text (bytes "a") ∷ []) ∷ []

message_ids-polls_example :
    AllDifferent (message_ids (polls toy_crypto toy_json in_order in_order-perm toy_room two_reads))
    × All
        (λ k. has_key k toy_room.seen ≡ false)
        (message_ids (polls toy_crypto toy_json in_order in_order-perm toy_room two_reads))
message_ids-polls_example =
    message_ids-polls toy_crypto toy_json in_order in_order-perm toy_room two_reads

abbrev stored : List Bytes
stored = sealed_text (bytes "a") ∷ sealed_text (bytes "bc") ∷ []

reconcile-IsWindow_example :
    ((e : Error) × ((toy_store.get toy_room.key stored).0 ≡ err e)
      × (reconcile toy_crypto toy_json in_order toy_store 1 no_sleep toy_room stored
          ≡ (some e, toy_room, [], (toy_store.get toy_room.key stored).1)))
    ⊎ ((vals : List Bytes) × ((toy_store.get toy_room.key stored).0 ≡ ok vals)
        × ((reconcile toy_crypto toy_json in_order toy_store 1 no_sleep toy_room stored).0 ≡ none)
        × IsWindow toy_crypto toy_json in_order in_order-perm 1
            (decode_all toy_crypto toy_json toy_room.room_key vals)
            (reconcile toy_crypto toy_json in_order toy_store 1 no_sleep toy_room stored).1.window)
reconcile-IsWindow_example =
    reconcile-IsWindow toy_crypto toy_json in_order in_order-perm toy_store 1 no_sleep toy_room
      stored

send-stored_example :
    (e : WireEnvelope) × (id e ≡ thirty_two ++ bytes "#4")
    × SeenAt toy_store
        (bytes "key")
        (marshal_envelope toy_crypto toy_json thirty_two e)
        (send toy_crypto toy_json toy_store 1 no_sleep toy_room
          (some (sixteen ++ bytes "12345678"))
          (pos 5)
          (bytes "hi")
          []).2
unfolding send publish bytes_eq id new_envelope seal_room marshal_envelope seal_deterministic
    sign_sealed format_uint
send-stored_example =
    send-stored toy_crypto toy_json toy_store 1 no_sleep toy_room (record toy_room { seq = 4 })
      (some (sixteen ++ bytes "12345678")) (pos 5) (bytes "hi") (thirty_two ++ bytes "#4") []
      (send toy_crypto toy_json toy_store 1 no_sleep toy_room (some (sixteen ++ bytes "12345678"))
        (pos 5) (bytes "hi") []).2
      refl

abbrev salt : Bytes
salt = sixteen ++ bytes "12345678"

abbrev built : WireEnvelope
built = record toy_envelope {
  name = bytes "ann";
  seq = 7;
  room = bytes "room";
  box = salt ++ (sixteen ++ bytes "hi");
  sig = thirty_two ++ thirty_two;
}

-- A codec of this one envelope.
abbrev one_json : Json WireEnvelope
one_json = record { marshal = λ w. bytes "json"; unmarshal = λ text. some built }

new_envelope_delivers_example :
    (verify toy_crypto built ≡ some true)
    × (open_text toy_crypto thirty_two built ≡ some (bytes "hi"))
    × (decode_envelope toy_crypto one_json thirty_two
          (marshal_envelope toy_crypto one_json thirty_two built)
        ≡ some built)
unfolding new_envelope seal_room sign_sealed new_identity_from_seed
new_envelope_delivers_example =
    new_envelope_delivers toy_crypto toy_crypto-CryptoLaws one_json (bytes "seed") (bytes "ann")
      (bytes "room") thirty_two salt 7 (pos 5) (bytes "hi") built refl refl refl
