-- ===== src/Tests/Toy.antt =====
-- Concrete ciphers, stores and texts at which the theorems are run.
use rout_wire.Base.{
  ℕ, refl, true, List, [], ◌∷◌, ◌++◌, Option, none, some, arith, length, drop, Permᴰ,
}
use mathlib.Core.List.Permᴰ
use rout_wire.Base.Bytes.{Bytes, bytes}
use rout_wire.Base.Int.{pos}
use rout_wire.Base.Map.{Map}
use rout_wire.Engine.Crypto.{Crypto, CryptoLaws}
use rout_wire.Engine.Envelope.{WireEnvelope, Json, Identity}
use rout_wire.Engine.Store.{Error, ok, err, Store}
use rout_wire.Engine.Room.{Room}
use rout_wire.Mesh.Deriver.{Derivation, Deriver, Cidr}

abbrev pub sixteen : Bytes
sixteen = 0 ∷ 0 ∷ 0 ∷ 0 ∷ 0 ∷ 0 ∷ 0 ∷ 0 ∷ 0 ∷ 0 ∷ 0 ∷ 0 ∷ 0 ∷ 0 ∷ 0 ∷ 0 ∷ []

abbrev pub thirty_two : Bytes
thirty_two = sixteen ++ sixteen

-- A cipher that only puts 16 bytes in front of the text.
abbrev pub toy_crypto : Crypto
toy_crypto = record {
  sha256 = λ m. thirty_two;
  box_seal = λ k n m. sixteen ++ m;
  box_open = λ k n m. some (drop 16 m);
  ed_public = λ seed. thirty_two;
  ed_sign = λ seed m. thirty_two ++ thirty_two;
  ed_verify = λ pk m sig. true;
  b64 = λ m. m;
  b64dec = λ m. some m;
  hex_decode = λ m. some m;
}

pub toy_crypto-CryptoLaws : CryptoLaws toy_crypto
toy_crypto-CryptoLaws = record {
  sha256_length = λ m. refl;
  sha256_bytes = λ m. omega arith;
  open_seal = λ k n m. refl;
  seal_length = λ k n m. omega arith;
  public_length = λ seed. refl;
  sign_length = λ seed m. refl;
  verify_sign = λ seed m. refl;
  b64dec_b64 = λ m. refl;
}

abbrev pub toy_derivation : Derivation
toy_derivation = record {
  crypto = toy_crypto;
  hkdf = λ psk salt info n. thirty_two;
  clamp = λ k. k;
  wg_public = λ k. k;
}

abbrev pub toy_deriver : Deriver
toy_deriver = record { psk = bytes "psk" }

-- 10.13.0.0/16
abbrev pub toy_cidr : Cidr
toy_cidr = record { base = some 168624128; ones = 16; bits = 32 }

-- A store that has one key and remembers every value.
abbrev pub toy_store : Store
toy_store = record { State = List Bytes; get = λ key s. (ok s, s); put = λ key v s. (none, v ∷ s) }

-- A store that is unavailable.
abbrev pub down_store : Store
down_store = record {
  State = List Bytes;
  get = λ key s. (err Error.unavailable, s);
  put = λ key v s. (some Error.unavailable, s);
}

abbrev pub no_sleep : ℕ → Option Error
no_sleep i = none

abbrev pub toy_me : Identity
toy_me = record { seed = bytes "seed"; public_key = thirty_two }

abbrev pub toy_envelope : WireEnvelope
toy_envelope = record {
  v = pos 1;
  kind = bytes "chat";
  pk = thirty_two;
  name = bytes "ann";
  seq = 7;
  ts = pos 5;
  room = bytes "room";
  box = thirty_two ++ (sixteen ++ bytes "hi");
  sig = [];
}

-- A codec of one envelope for each length of text.
abbrev pub toy_json : Json WireEnvelope
toy_json = record {
  marshal = λ w. bytes "json";
  unmarshal = λ text. some (record toy_envelope { seq = length text });
}

abbrev pub toy_room : Room
toy_room = record {
  token = bytes "room";
  key = bytes "key";
  room_key = thirty_two;
  me = toy_me;
  name = bytes "ann";
  window_n = 1;
  any_member = true;
  seq = 3;
  seen = [];
  window = [];
  contact_seen = [];
}

abbrev pub in_order : Map WireEnvelope → Map WireEnvelope
in_order m = m

pub in_order-perm : (m : Map WireEnvelope) → Permᴰ m (in_order m)
in_order-perm m = Permᴰ.refl m

-- A value that opens to a text of n bytes.
abbrev pub sealed_text : Bytes → Bytes
sealed_text text = thirty_two ++ (0 ∷ 0 ∷ 0 ∷ 0 ∷ 0 ∷ 0 ∷ 0 ∷ 0 ∷ text)
