-- ===== src/Tests/DhtTests.antt =====
-- Runs of the theorems on the proxy store and the settings.
use rout_wire.Base.{◌≡◌, refl, true, false, [], ◌∷◌, ◌++◌, none, some}
use rout_wire.Base.Bytes.{Bytes, bytes, bytes_eq}
use rout_wire.Base.Int.{pos}
use rout_wire.Base.Map.{Map, lookup}
use rout_wire.Config.{zero_config, resolve_mesh}
use rout_wire.Config.Layers.{chosen, flag_of, resolve_mesh-chosen}
use rout_wire.Engine.Envelope.{Json}
use rout_wire.Engine.Store.{unavailable}
use rout_wire.Engine.OpenDht.{
  OpenDht, DhtInner, Response, failed, answered, raw, decode_line, put_payload,
}
use rout_wire.Engine.OpenDht.Failover.{Answers, raw-first, decode_line-put_payload}
use rout_wire.Tests.Toy.{toy_crypto, toy_crypto-CryptoLaws}

abbrev two_proxies : OpenDht
two_proxies = record { base = bytes "a" ∷ bytes "b" ∷ []; magic = bytes "m" }

-- The second endpoint answers.
abbrev only_b : Bytes → Response
only_b ep = elim (bytes_eq ep (bytes "b")) [
  | true ↦ answered 200 (bytes "body")
  | false ↦ failed unavailable
]

raw-first_example : Answers only_b (bytes "a" ∷ bytes "b" ∷ []) none (raw only_b two_proxies)
raw-first_example = raw-first only_b two_proxies

abbrev text_json : Json Bytes
text_json = record { marshal = λ text. bytes "o" ++ text; unmarshal = λ text. some (bytes "inner") }

abbrev inner_json : Json DhtInner
inner_json = record {
  marshal = λ i. bytes "inner";
  unmarshal = λ text. some (record { magic = bytes "m"; ts = pos 9; data_text = bytes "v" });
}

decode_line-put_payload_example :
    decode_line toy_crypto text_json inner_json two_proxies
      (put_payload toy_crypto text_json inner_json two_proxies (pos 9) (bytes "v"))
    ≡ some (bytes "v")
unfolding put_payload
decode_line-put_payload_example =
    decode_line-put_payload toy_crypto text_json inner_json two_proxies (pos 9) (bytes "v")
      toy_crypto-CryptoLaws refl refl refl

abbrev some_flags : Map Bytes
some_flags = (bytes "psk", []) ∷ (bytes "name", bytes "n") ∷ []

resolve_mesh-chosen_example :
    ((resolve_mesh none (some (record zero_config { psk = bytes "f" })) [] (some some_flags)).psk
      ≡ chosen
          (flag_of (some some_flags) (bytes "psk"))
          (lookup (bytes "MESH_PSK") [])
          (bytes "f")
          [])
    × ((resolve_mesh none (some (record zero_config { psk = bytes "f" })) [] (some some_flags)).name
        ≡ chosen (flag_of (some some_flags) (bytes "name")) (lookup (bytes "MESH_NAME") []) [] [])
resolve_mesh-chosen_example =
    resolve_mesh-chosen none (some (record zero_config { psk = bytes "f" })) [] (some some_flags)
