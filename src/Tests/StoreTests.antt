-- ===== src/Tests/StoreTests.antt =====
-- Runs of the theorems on the stores, the window and the signed bytes.
use rout_wire.Base.{◌+◌, ◌≤◌, ◌≡◌, refl, List, [], ◌∷◌, ◌++◌, some, arith, length, Memᴰ, ◌↔◌}
use rout_wire.Base.Bytes.{bytes, bytes_eq}
use rout_wire.Base.Int.{pos}
use rout_wire.Engine.Store.{unavailable, visible, publish}
use rout_wire.Engine.Store.Publish.{SeenAt, Because, publish-seen, publish-Because}
use rout_wire.Engine.Store.Effort.{publish-cost}
use rout_wire.Base.{is_some, ◌++◌, if◌then◌else◌}
use rout_wire.Base.Decimal.{format_uint, format_int}
use rout_wire.Engine.MockStore.{MockStore, new_mock_store, put, get}
use rout_wire.Engine.MockStore.Expiry.{
  expiry, still, run, IsValid, Op, expiry-put, visible-get, run-new_mock_store-IsValid,
}
use rout_wire.Engine.Envelope.{WireEnvelope, id, signing_bytes}
use rout_wire.Engine.Envelope.Signing.{signing_bytes-injective, signing_bytes_shift}
use rout_wire.Engine.Window.{dedupe_by_id}
use rout_wire.Engine.Window.Dedupe.{dedupe_by_id-last, last_with, HasUniqueIds}
use rout_wire.Tests.Toy.{toy_envelope, in_order, in_order-perm, toy_store, down_store, no_sleep}

publish-seen_example : SeenAt toy_store (bytes "key") (bytes "v") (bytes "v" ∷ [])
unfolding publish bytes_eq
publish-seen_example =
    publish-seen toy_store 2 no_sleep (bytes "key") (bytes "v") [] (bytes "v" ∷ []) refl

publish-Because_example : Because down_store no_sleep (bytes "key") (bytes "v") unavailable []
unfolding publish
publish-Because_example =
    publish-Because down_store 2 no_sleep (bytes "key") (bytes "v") [] [] unavailable refl

publish-cost_example : length (publish toy_store 2 no_sleep (bytes "key") (bytes "v") []).1 ≤ 3
publish-cost_example =
    publish-cost toy_store (λ s. length s) no_sleep (bytes "key") (bytes "v") 2 []
      (λ s. omega arith, λ s. omega arith)

abbrev two_puts : List Op
two_puts = Op.puts 1 2 (bytes "k") (bytes "v") ∷ Op.puts 3 4 (bytes "k") (bytes "w") ∷ []

abbrev used_store : MockStore
used_store = run (new_mock_store 10) two_puts

run-new_mock_store-IsValid_example : IsValid (run (new_mock_store 10) two_puts)
run-new_mock_store-IsValid_example = run-new_mock_store-IsValid 10 two_puts

expiry-put_example : expiry (put 5 6 (bytes "k") (bytes "v") used_store) (bytes "k") (bytes "w") ≡ (
    if bytes_eq (bytes "k") (bytes "k")
    then (if bytes_eq (bytes "v") (bytes "w")
        then some (6 + used_store.ttl)
        else still 5 (expiry used_store (bytes "k") (bytes "w")))
    else expiry used_store (bytes "k") (bytes "w"))
expiry-put_example =
    expiry-put 5 6 (bytes "k") (bytes "v") (bytes "k") (bytes "w") used_store
      (run-new_mock_store-IsValid 10 two_puts)

visible-get_example :
    visible (bytes "w") (get 12 (bytes "k") used_store).0
    ≡ is_some (still 12 (expiry used_store (bytes "k") (bytes "w")))
visible-get_example =
    visible-get 12 (bytes "k") (bytes "w") used_store (run-new_mock_store-IsValid 10 two_puts)

-- Texts of letters only, so that no byte is NUL or '#'.
abbrev lettered : WireEnvelope
lettered = record toy_envelope { pk = bytes "pk" }

signing_bytes-injective_example :
    (lettered.kind ≡ lettered.kind)
    × (lettered.pk ≡ lettered.pk)
    × (lettered.name ≡ lettered.name)
    × (lettered.seq ≡ lettered.seq)
    × (lettered.ts ≡ lettered.ts)
    × (lettered.room ≡ lettered.room)
    × (lettered.box ≡ lettered.box)
signing_bytes-injective_example =
    signing_bytes-injective lettered lettered (omega arith) (omega arith) refl

signing_bytes_shift_example :
    signing_bytes (record toy_envelope {
      name = bytes "ann";
      seq = 4;
      ts = pos 7;
      room = format_int (pos 5) ++ (0 ∷ bytes "room");
    })
    ≡ signing_bytes (record toy_envelope { name = bytes "ann" ++ (0 ∷ format_uint 4) })
signing_bytes_shift_example =
    signing_bytes_shift (record toy_envelope { name = bytes "ann" ++ (0 ∷ format_uint 4) })
      (bytes "ann") 4 refl

abbrev two_envelopes : List WireEnvelope
two_envelopes = record toy_envelope { seq = 9 } ∷ toy_envelope ∷ []

dedupe_by_id-last_example :
    ((e : WireEnvelope)
      → Memᴰ e (dedupe_by_id in_order two_envelopes) ↔ (last_with (id e) two_envelopes ≡ some e))
    × HasUniqueIds (dedupe_by_id in_order two_envelopes)
dedupe_by_id-last_example = dedupe_by_id-last in_order in_order-perm two_envelopes
