-- ===== src/Mesh/FakeDevice/Endpoints.antt =====
-- What the fake device says of a peer after the calls.
use rout_wire.Base.{
  ℕ, ◌≡◌, refl, ap, ◌∙◌, Bool, true, false, ◌&&◌, List, [], ◌∷◌, Option, none, some, arith,
  if◌then◌else◌,
}
use rout_wire.Base.Bytes.{Bytes, bytes_eq}
use rout_wire.Base.Map.{Map, lookup, lookup-insert}
use rout_wire.Mesh.FakeDevice.{
  PeerDesire, FakeDevice, with_endpoint, set_endpoints, apply, applied, traffic, traffic_to,
  reaches, handshake, endpoint_of, observed_or,
}

abbrev pub first_of : Option Bytes → Option Bytes → Option Bytes
first_of none old = old
first_of (some ep) old = some ep

-- The endpoint of the last peer of the list that has the key and an endpoint, else the old one.
pub latest : Bytes → List PeerDesire → Option Bytes → Option Bytes
latest key [] old = old
latest key (p ∷ peers) old =
    latest key peers (if bytes_eq p.pub_key key then first_of p.endpoint old else old)

lookup-with_endpoint :
    (k key : Bytes) (ep : Option Bytes) (m : Map Bytes)
    → lookup key (with_endpoint k ep m)
      ≡ (if bytes_eq k key then first_of ep (lookup key m) else lookup key m)
unfolding with_endpoint
lookup-with_endpoint k key none m = ground arith
lookup-with_endpoint k key (some ep) m = lookup-insert k key ep m

lookup-set_endpoints :
    (key : Bytes) (peers : List PeerDesire) (m : Map Bytes)
    → lookup key (set_endpoints peers m) ≡ latest key peers (lookup key m)
unfolding set_endpoints latest
lookup-set_endpoints key [] m = refl
lookup-set_endpoints key (p ∷ peers) m =
    lookup-set_endpoints key peers (with_endpoint p.pub_key p.endpoint m)
    ∙ ap (latest key peers) (lookup-with_endpoint p.pub_key key p.endpoint m)

-- When no error is set, Apply succeeds, and the endpoint of a peer is then the one that was
-- observed for it, if there is one, else the last that the given peers have for its key, else the
-- one that it had.
pub endpoint_of-apply :
    (sort_by_name : List PeerDesire → List PeerDesire) (peers : List PeerDesire) (f : FakeDevice)
    (key : Bytes)
    → f.apply_error ≡ none
    → ((apply sort_by_name peers f).0 ≡ none)
      × (endpoint_of key (apply sort_by_name peers f).1
          ≡ observed_or (lookup key f.observed) (latest key peers (lookup key f.last_endpoint)))
unfolding apply applied endpoint_of
endpoint_of-apply sort_by_name peers f key e = (
  rw e refl,
  rw e (ap (observed_or (lookup key f.observed)) (lookup-set_endpoints key peers f.last_endpoint)),
)

abbrev pub passes : Option (Bytes → Bool) → Option Bytes → Bool
passes test none = false
passes none (some ep) = true
passes (some test) (some ep) = test ep

abbrev pub is_reached : Bytes → FakeDevice → Bool
is_reached key f = passes f.reachable (lookup key f.last_endpoint)

handshake-traffic_to :
    (now : ℕ) (key other : Bytes) (f : FakeDevice) (test : Option (Bytes → Bool))
    (ep : Option Bytes)
    → f.reachable ≡ test
    → lookup other (traffic_to now key ep f).handshakes
      ≡ (if bytes_eq key other && passes test ep then some now else lookup other f.handshakes)
unfolding traffic_to reaches
handshake-traffic_to now key other f test none e = ground arith
handshake-traffic_to now key other f none (some ep) e =
    rw e (lookup-insert key other now f.handshakes ∙ ground arith)
handshake-traffic_to now key other f (some test) (some ep) e =
    rw e (ground (arith, lookup-insert key other now f.handshakes))

-- Traffic gives a peer, and no other, a handshake at the time of the call, if the endpoint that was
-- last applied to it is there and reachable; else it changes no handshake.
pub handshake-traffic :
    (now : ℕ) (key other : Bytes) (f : FakeDevice)
    → handshake other (traffic now key f)
      ≡ (if bytes_eq key other && is_reached key f then some now else handshake other f)
unfolding handshake traffic
handshake-traffic now key other f =
    handshake-traffic_to now key other f f.reachable (lookup key f.last_endpoint) refl
