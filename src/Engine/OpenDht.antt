-- ===== src/Engine/OpenDht.antt =====
-- internal/engine/opendhtstore.go: the store behind HTTP proxies. What a request to an endpoint
-- gives is a function of the model; the lines are those that bufio.Scanner yields.
pub mod Failover
use rout_wire.Base.{
  ℕ, ◌+◌, Bool, true, false, not, ◌&&◌, ◌||◌, List, [], ◌∷◌, ◌++◌, map, Option, none, some, ltb,
  leb, ◌==◌, if◌then◌else◌, length,
}
use rout_wire.Base.Bytes.{Bytes, bytes, bytes_eq}
use rout_wire.Base.Int.{ℤ}
use rout_wire.Base.Text.{trim_space, trim_right, is_empty}
use rout_wire.Engine.Crypto.{Crypto}
use rout_wire.Engine.Envelope.{Json}
use rout_wire.Engine.Store.{Error, Result, ok, err, unavailable, invalid_key}

-- type OpenDHT, with its client and options left out
pub record OpenDht : Type 0 where
  pub base : List Bytes
  pub magic : Bytes

-- type dhtInner; dhtOuter has one field, the data
pub record DhtInner : Type 0 where
  pub magic : Bytes
  pub ts : ℤ
  pub data_text : Bytes

-- func NewOpenDHT without options
abbrev pub new_open_dht : List Bytes → OpenDht
new_open_dht endpoints = record {
  base = map (λ e. trim_right (λ c. c == b'/') (trim_space e)) endpoints;
  magic = bytes "stunmeshchat-v1";
}

abbrev pub is_hex_byte : ℕ → Bool
is_hex_byte c = leb b'0' c && leb c b'9' || (leb b'a' c && leb c b'f' || leb b'A' c && leb c b'F')

all_hex_bytes : Bytes → Bool
all_hex_bytes [] = true
all_hex_bytes (c ∷ key) = if is_hex_byte c then all_hex_bytes key else false

-- func checkInfoHash: nothing if the key is valid
unfoldable pub check_info_hash : Bytes → Option Error
unfolding all_hex_bytes
check_info_hash key =
    if not (length key == 40)
    then some invalid_key
    else if all_hex_bytes key
    then none
    else some invalid_key

-- What http.NewRequest, Do and ReadAll give for an endpoint.
pub data Response : Type 0 where
  no_request failed : Error → Response
  answered : ℕ → Bytes → Response

abbrev pub or_unavailable : Option Error → Error
or_unavailable none = unavailable
or_unavailable (some e) = e

-- what the loop body of raw makes of a response: it returns, or goes on with a last error
pub data Turn : Type 0 where
  returns : Result Bytes → Turn
  goes_on : Error → Turn

unfoldable pub turn : Bytes → Response → Turn
turn ep (no_request e) = returns (err e)
turn ep (failed e) = goes_on e
turn ep (answered status body) =
    if leb 200 status && ltb status 300 then returns (ok body) else goes_on (Error.backend ep)

raw_after : Turn → (Option Error → Result Bytes) → Result Bytes
raw_after (returns r) rest = r
raw_after (goes_on e) rest = rest (some e)

module _ (request : Bytes → Response) where
  -- The loop of raw over the endpoints, with the last error.
  unfoldable pub raw_from : List Bytes → Option Error → Result Bytes
  unfolding raw_after
  raw_from [] last = err (or_unavailable last)
  raw_from (ep ∷ eps) last = raw_after (turn ep (request ep)) (raw_from eps)

  -- func (o *OpenDHT) raw, for one method, key and body
  unfoldable pub raw : OpenDht → Result Bytes
  unfolding raw_from
  raw o = raw_from o.base none

module _ (c : Crypto) (outer : Json Bytes) (inner : Json DhtInner) where
  open c use {b64, b64dec}

  then_value {ℓ} : {A B : Type ℓ} → Option A → (A → Option B) → Option B
  then_value none f = none
  then_value (some a) f = f a

  -- What the loop body of decodeBody makes of a trimmed line: nothing where it continues early.
  unfoldable pub decode_line : OpenDht → Bytes → Option Bytes
  unfolding then_value
  decode_line o line =
      if is_empty line
      then none
      else then_value (outer.unmarshal line) (λ data_text. then_value (b64dec data_text) (λ text.
        then_value (inner.unmarshal text)
          (λ i. if bytes_eq i.magic o.magic then b64dec i.data_text else none)))

  with_value : Option Bytes → List Bytes → List Bytes
  with_value none out = out
  with_value (some v) out = v ∷ out

  -- func (o *OpenDHT) decodeBody, on the lines of the body; it returns no error
  unfoldable pub decode_body : OpenDht → List Bytes → List Bytes
  unfolding with_value
  decode_body o [] = []
  decode_body o (line ∷ lines) = with_value (decode_line o (trim_space line)) (decode_body o lines)

  -- The payload that Put posts; `now` is the Unix time.
  unfoldable pub put_payload : OpenDht → ℤ → Bytes → Bytes
  put_payload o now v =
      outer.marshal (b64 (inner.marshal (record { magic = o.magic; ts = now; data_text = b64 v })))

  got_body : OpenDht → (Bytes → List Bytes) → Result Bytes → Result (List Bytes)
  got_body o scan (err e) = err e
  got_body o scan (ok body) = ok (decode_body o (scan body))

  or_checked : {A : Type 0} → Option Error → A → (Error → A) → A
  or_checked none a f = a
  or_checked (some e) a f = f e

  -- func (o *OpenDHT) Get, where `request` is a GET of the key
  unfoldable pub get_values :
      (Bytes → List Bytes) → (Bytes → Response) → OpenDht → Bytes → Result (List Bytes)
  unfolding got_body or_checked
  get_values scan request o key =
      or_checked (check_info_hash key) (got_body o scan (raw request o)) err

  error_of : Result Bytes → Option Error
  error_of (ok body) = none
  error_of (err e) = some e

  -- func (o *OpenDHT) Put, where `request payload` is a POST of the payload under the key
  unfoldable pub put_value : (Bytes → Bytes → Response) → OpenDht → ℤ → Bytes → Bytes → Option Error
  unfolding error_of or_checked
  put_value request o now key v =
      or_checked (check_info_hash key) (error_of (raw (request (put_payload o now v)) o)) some
