-- ===== src/Mesh/Record.antt =====
-- internal/mesh/record.go: the signed record of a node. The score of a candidate is not part of
-- its JSON text.
pub mod Binding
pub mod Signed
use rout_wire.Base.{
  ℕ, Bool, true, false, not, List, [], ◌∷◌, Option, none, some, ◌==◌, if◌then◌else◌, length,
}
use rout_wire.Base.Bytes.{Bytes, bytes, bytes_eq}
use rout_wire.Base.Int.{ℤ}
use rout_wire.Engine.Crypto.{Crypto}
use rout_wire.Engine.Envelope.{Json, Identity, public_string}
use rout_wire.Mesh.Deriver.{
  Derivation, Deriver, Checked, valid, bad_name, bad_cidr, Cidr, public_key_of, overlay_ip,
}

abbrev pub cand_host : Bytes
cand_host = bytes "host"

abbrev pub cand_srflx : Bytes
cand_srflx = bytes "srflx"

abbrev pub cand_prflx : Bytes
cand_prflx = bytes "prflx"

-- type Candidate
pub record Candidate : Type 0 where
  pub cand_type : Bytes
  pub addr : Bytes
  pub score : ℕ

-- type Record; `ts` is an int64 and `seq` a uint64
pub record Record : Type 0 where
  pub name : Bytes
  pub ip : Bytes
  pub port : ℤ
  pub candidates : List Candidate
  pub adv : List Bytes
  pub ts : ℤ
  pub seq : ℕ
  pub pk : Bytes
  pub sig : Bytes

abbrev pub unsigned : Record → Record
unsigned r = record r { sig = [] }

module _ (c : Crypto) where
  open c use {ed_sign, ed_verify, b64, b64dec}

  -- func (r *Record) Sign
  unfoldable pub sign : Json Record → Identity → Record → Record
  sign json me r =
      let r = record r { pk = public_string c me; sig = [] } in
      record r { sig = b64 (ed_sign me.seed (json.marshal r)) }

  sized_to : ℕ → Option Bytes → Option Bytes
  sized_to n none = none
  sized_to n (some raw) = if length raw == n then some raw else none

  -- func decodePubKey
  unfoldable pub decode_pub_key : Bytes → Option Bytes
  unfolding sized_to
  decode_pub_key s = sized_to 32 (b64dec s)

  check_signature : Record → Bytes → Option Bytes → Option Bytes → Option Record
  check_signature r b none pk = none
  check_signature r b (some sig) none = none
  check_signature r b (some sig) (some pk) = if ed_verify pk b sig then some r else none

  check_decoded : Json Record → Option Record → Option Record
  unfolding check_signature decode_pub_key sized_to
  check_decoded json none = none
  check_decoded json (some r) =
      check_signature (unsigned r) (json.marshal (unsigned r)) (sized_to 64 (b64dec r.sig))
        (decode_pub_key r.pk)

  -- func DecodeRecord, where every error is `none`
  unfoldable pub decode_record : Json Record → Bytes → Option Record
  unfolding check_decoded
  decode_record json v = check_decoded json (json.unmarshal v)

module _ (x : Derivation) (ip_string : ℕ → Bytes) where
  same_key : Bytes → Option Bytes → Bool
  same_key want none = false
  same_key want (some got) = bytes_eq got want

  same_ip : Bytes → Checked ℕ → Bool
  same_ip ip (valid want) = bytes_eq ip (ip_string want)
  same_ip ip (bad_name e) = false
  same_ip ip bad_cidr = false

  -- func (r *Record) VerifyBinding, where no error is `true`; `ip_string` is net.IP.String
  unfoldable pub verify_binding : Deriver → Cidr → Record → Bool
  unfolding same_key same_ip
  verify_binding d cidr r =
      if not (same_key (public_key_of x d r.name) (decode_pub_key x.crypto r.pk))
      then false
      else same_ip r.ip (overlay_ip x d r.name cidr)
