-- ===== src/Mesh/FakeDevice.antt =====
-- internal/mesh/fake.go and the peer state of device.go: the device of tests and dry runs. Keys
-- and addresses are byte strings, a nil address is none, and the clock is an argument. sort.Slice
-- is not stable; `sort_by_name` is what it does to the peers.
pub mod Endpoints
use rout_wire.Base.{
  ℕ, suc, ◌+◌, Bool, true, false, not, List, [], ◌∷◌, ◌++◌, Option, none, some, if◌then◌else◌,
  length,
}
use rout_wire.Base.Bytes.{Bytes}
use rout_wire.Base.Map.{Map, lookup, insert}

-- type PeerDesire
pub record PeerDesire : Type 0 where
  pub name : Bytes
  pub pub_key : Bytes
  pub endpoint : Option Bytes
  pub allowed_ips : List Bytes
  pub keepalive : ℕ

-- type FakeDevice; a handshake that is not in the map is the zero time
pub record FakeDevice : Type 0 where
  pub setup_key : Option Bytes
  pub setup_count : ℕ
  pub history : List (List PeerDesire)
  pub routes : List Bytes
  pub reachable : Option (Bytes → Bool)
  pub apply_error : Option Bytes
  pub handshakes : Map ℕ
  pub last_endpoint : Map Bytes
  pub observed : Map (Option Bytes)

-- func NewFakeDevice
abbrev pub new_fake_device : FakeDevice
new_fake_device = record {
  setup_key = none;
  setup_count = 0;
  history = [];
  routes = [];
  reachable = none;
  apply_error = none;
  handshakes = [];
  last_endpoint = [];
  observed = [];
}

-- func (f *FakeDevice) Setup
unfoldable pub setup : Bytes → FakeDevice → FakeDevice
setup key f = record f { setup_key = some key; setup_count = f.setup_count + 1 }

with_endpoint : Bytes → Option Bytes → Map Bytes → Map Bytes
with_endpoint key none m = m
with_endpoint key (some ep) m = insert key ep m

-- The loop of Apply.
unfoldable pub set_endpoints : List PeerDesire → Map Bytes → Map Bytes
unfolding with_endpoint
set_endpoints [] m = m
set_endpoints (p ∷ peers) m = set_endpoints peers (with_endpoint p.pub_key p.endpoint m)

applied :
    (List PeerDesire → List PeerDesire)
    → List PeerDesire
    → FakeDevice
    → Option Bytes
    → Option Bytes × FakeDevice
applied sort_by_name peers f (some e) = (some e, f)
applied sort_by_name peers f none = (
  none,
  record f {
    history = f.history ++ (sort_by_name peers ∷ []);
    last_endpoint = set_endpoints peers f.last_endpoint;
  },
)

-- func (f *FakeDevice) Apply
unfoldable pub apply :
    (List PeerDesire → List PeerDesire) → List PeerDesire → FakeDevice → Option Bytes × FakeDevice
unfolding applied
apply sort_by_name peers f = applied sort_by_name peers f f.apply_error

-- func (f *FakeDevice) ApplyRoutes
unfoldable pub apply_routes : List Bytes → FakeDevice → FakeDevice
apply_routes routes f = record f { routes = routes }

reaches : Option (Bytes → Bool) → Bytes → Bool
reaches none ep = true
reaches (some test) ep = test ep

traffic_to : ℕ → Bytes → Option Bytes → FakeDevice → FakeDevice
unfolding reaches
traffic_to now key none f = f
traffic_to now key (some ep) f =
    if reaches f.reachable ep then record f { handshakes = insert key now f.handshakes } else f

-- func (f *FakeDevice) Traffic
unfoldable pub traffic : ℕ → Bytes → FakeDevice → FakeDevice
unfolding traffic_to
traffic now key f = traffic_to now key (lookup key f.last_endpoint) f

-- func (f *FakeDevice) Handshake
unfoldable pub handshake : Bytes → FakeDevice → Option ℕ
handshake key f = lookup key f.handshakes

abbrev pub observed_or : Option (Option Bytes) → Option Bytes → Option Bytes
observed_or (some (some ep)) last = some ep
observed_or (some none) last = last
observed_or none last = last

-- func (f *FakeDevice) Endpoint
unfoldable pub endpoint_of : Bytes → FakeDevice → Option Bytes
endpoint_of key f = observed_or (lookup key f.observed) (lookup key f.last_endpoint)

-- func (f *FakeDevice) SetObserved
unfoldable pub set_observed : Bytes → Option Bytes → FakeDevice → FakeDevice
set_observed key ep f = record f { observed = insert key ep f.observed }

-- func (f *FakeDevice) SetHandshake
unfoldable pub set_handshake : Bytes → ℕ → FakeDevice → FakeDevice
set_handshake key t f = record f { handshakes = insert key t f.handshakes }

-- func (f *FakeDevice) Applies
unfoldable pub applies : FakeDevice → ℕ
applies f = length f.history
