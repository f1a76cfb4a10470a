-- ===== src/Tests/RosterTests.antt =====
-- Runs of the theorems on the roster and the order of dialling.
use rout_wire.Base.{
  ℕ, zero, suc, ◌≡◌, refl, false, List, [], ◌∷◌, ◌++◌, map, Option, some, arith, Memᴰ,
}
use rout_wire.Base.Bytes.{Bytes, bytes, bytes_eq}
use rout_wire.Base.Int.{pos}
use rout_wire.Base.Map.{Map, lookup, insert}
use rout_wire.Base.Text.{trim_space}
use rout_wire.Engine.Crypto.{unseal_room, seal_room}
use rout_wire.Engine.Envelope.{Json, new_identity_from_seed, public_string}
use rout_wire.Engine.Store.{Result, ok}
use rout_wire.Mesh.Deriver.{
  validate_name, normalize_name, overlay_ip, be32, node_identity, public_key_of,
}
use rout_wire.Mesh.Record.{
  Record, Candidate, cand_host, cand_srflx, unsigned, sign, decode_record, verify_binding,
}
use rout_wire.Mesh.Roster.{
  Roster, usable, fold_values, seal_record, fetch_stable, absorb_record, is_trusted,
}
use rout_wire.Mesh.Roster.Newest.{NewestOf, usable_records, fold_values-NewestOf}
use rout_wire.Mesh.Roster.Trust.{IsTrustedOf, fold_values-IsTrustedOf, usable-seal_record}
use rout_wire.Mesh.Roster.Stable.{Answers, state_at, fetch_stable-Answers}
use rout_wire.Mesh.Peers.{Ip4, order_endpoints, same_nat, score_candidate}
use rout_wire.Mesh.Peers.Order.{dialled, order_endpoints-dialled}
use rout_wire.Tests.Toy.{
  sixteen, thirty_two, toy_crypto, toy_crypto-CryptoLaws, toy_derivation, toy_deriver, toy_cidr,
}

abbrev node_record : Record
node_record = record {
  name = bytes "node";
  ip = bytes "10.13.0.0";
  port = pos 51820;
  candidates = [];
  adv = [];
  ts = pos 100;
  seq = 4;
  pk = thirty_two;
  sig = thirty_two ++ thirty_two;
}

abbrev record_json : Json Record
record_json = record { marshal = λ r. bytes "json"; unmarshal = λ text. some node_record }

abbrev toy_ip_string : ℕ → Bytes
toy_ip_string ip = bytes "10.13.0.0"

abbrev toy_roster : Roster
toy_roster = record { deriver = toy_deriver; cidr = toy_cidr; me = bytes "me"; max_age = 86400 }

abbrev salt : Bytes
salt = sixteen ++ bytes "12345678"

abbrev sealed_record : Bytes
sealed_record = salt ++ (sixteen ++ bytes "json")

abbrev found : Map Record
found = (bytes "node", unsigned node_record) ∷ []

fold_values-NewestOf_example :
    NewestOf
      (bytes "node")
      (usable_records toy_derivation toy_ip_string record_json toy_roster
        (pos 50)
        (sealed_record ∷ [])
        [])
      (lookup (bytes "node") (
        fold_values toy_derivation toy_ip_string record_json toy_roster
          (pos 50)
          (sealed_record ∷ [])
          []))
fold_values-NewestOf_example =
    fold_values-NewestOf toy_derivation toy_ip_string record_json toy_roster (pos 50) (bytes "node")
      (sealed_record ∷ [])

fold_values-IsTrustedOf_example :
    (node_record.name ≡ bytes "node")
    × IsTrustedOf toy_derivation toy_ip_string record_json toy_roster
        (pos 50)
        (sealed_record ∷ [])
        (unsigned node_record)
unfolding lookup fold_values usable unseal_room absorb_record decode_record is_trusted bytes_eq
    verify_binding public_key_of validate_name normalize_name trim_space new_identity_from_seed
    overlay_ip insert
fold_values-IsTrustedOf_example =
    fold_values-IsTrustedOf toy_derivation toy_ip_string record_json toy_roster (pos 50)
      (bytes "node") (sealed_record ∷ []) (unsigned node_record) refl

usable-seal_record_example :
    usable toy_derivation toy_ip_string record_json toy_roster (pos 50) sealed_record
    ≡ some (unsigned node_record)
unfolding sign seal_record node_identity validate_name normalize_name trim_space overlay_ip be32
    bytes_eq public_string new_identity_from_seed seal_room
usable-seal_record_example =
    usable-seal_record toy_derivation toy_ip_string record_json toy_roster (pos 50)
      toy_crypto-CryptoLaws (new_identity_from_seed toy_crypto thirty_two) node_record salt
      sealed_record 168624128 refl refl refl refl refl refl refl refl

-- An attempt that finds the record, then attempts that find nothing.
abbrev first_only : ℕ → ℕ → Result (Map Record) × ℕ
first_only i zero = (ok found, 1)
first_only i (suc n) = (ok [], suc (suc n))

fetch_stable-Answers_example :
    Answers 4 (bytes "node") (fetch_stable first_only (λ i. false) (λ i. false) 3 0).0
unfolding state_at
fetch_stable-Answers_example =
    fetch_stable-Answers first_only (λ i. false) (λ i. false) 3 0 (bytes "node")
      (unsigned node_record) found 0 (omega arith) (λ j h. refl) (λ j h. refl) refl (Memᴰ.head refl)

abbrev no_port : Bytes → Option Bytes
no_port s = some s

abbrev toy_to4 : Bytes → Option Ip4
toy_to4 s = some (record { a = 10; b = 0; c = 0; d = 1 })

abbrev my_candidates : List Candidate
my_candidates = record { cand_type = cand_srflx; addr = bytes "1.1.1.1"; score = 0 } ∷ []

abbrev their_candidates : List Candidate
their_candidates =
    record { cand_type = cand_host; addr = bytes "10.0.0.1"; score = 0 }
    ∷ record { cand_type = cand_srflx; addr = bytes "2.2.2.2"; score = 0 }
    ∷ []

order_endpoints-dialled_example :
    order_endpoints no_port toy_to4 my_candidates their_candidates
    ≡ map (score_candidate (same_nat no_port toy_to4 my_candidates their_candidates)) (
        dialled no_port toy_to4
          (same_nat no_port toy_to4 my_candidates their_candidates)
          their_candidates)
order_endpoints-dialled_example =
    order_endpoints-dialled no_port toy_to4 my_candidates their_candidates
