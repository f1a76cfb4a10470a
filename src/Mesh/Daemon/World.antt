-- ===== src/Mesh/Daemon/World.antt =====
-- What internal/mesh/daemon.go talks to: the clock, and the Device and the Router that it is given,
-- which are interfaces in Go too (internal/mesh/device.go and router.go). Everything that goes on
-- outside is in the state, so a pause may change it. Times are in nanoseconds, and the zero time
-- is 0.
use rout_wire.Base.{ℕ, Bool, List, Option}
use rout_wire.Base.Bytes.{Bytes}
use rout_wire.Base.Int.{ℤ}
use rout_wire.Mesh.Deriver.{Cidr}
use rout_wire.Mesh.FakeDevice.{PeerDesire}
use rout_wire.Mesh.Router.Masquerade.{Subnet}

-- What Apply returns: nil, ErrDeviceGone in a chain of errors, or another error.
pub data Applied : Type 0 where
  applied device_gone apply_failed : Applied

-- A *net.UDPAddr that is not nil: its String, whether its IP is not nil, and whether that IP is
-- a link local unicast address.
pub record UdpAddr : Type 0 where
  pub text : Bytes
  pub has_ip : Bool
  pub is_link_local : Bool

-- Of an error of the router only the log speaks; true is a nil error.
pub record World : Type 1 where
  pub State : Type 0
  pub now : State → ℕ
  pub sleep : ℕ → State → State
  -- go dm.probe(ip, port)
  pub probe : Option ℕ → ℤ → State → State
  -- interface Device
  pub apply : List PeerDesire → State → Applied × State
  pub setup : Bytes → ℤ → ℤ → ℕ → Cidr → State → Bool × State
  pub apply_routes : List Bytes → State → Bool × State
  pub handshake : Bytes → State → ℕ
  pub endpoint : Bytes → State → Option UdpAddr
  -- interface Router
  pub forwarding : State → Bool × State
  pub announce_nat : Cidr → List Subnet → State → Bool × State
  pub ensure_port : State → Bool × State
  pub add_source : ℕ → State → Bool × State
  pub remove_source : ℕ → State → Bool × State
