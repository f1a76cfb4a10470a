-- ===== src/Mesh/LinuxDevice.antt =====
-- internal/mesh/device_linux.go: the kernel's WireGuard link. Keys, addresses and subnets are byte
-- strings, and the zero time is 0. A range over a map goes in the order of its list.
pub mod Converged
pub mod Routed
use rout_wire.Base.{
  ℕ, zero, suc, Bool, true, false, not, ◌&&◌, List, [], ◌∷◌, ◌++◌, Option, none, some,
  if◌then◌else◌, ltb, ◌==◌,
}
use rout_wire.Base.Bytes.{Bytes, bytes_eq}
use rout_wire.Base.Int.{ℤ, pos, negsuc}
use rout_wire.Base.Map.{Map, lookup, insert, has_key, keys}
use rout_wire.Mesh.FakeDevice.{PeerDesire}

-- what is read of wgtypes.Peer
pub record WgPeer : Type 0 where
  pub public_key : Bytes
  pub endpoint : Option Bytes
  pub last_handshake : ℕ

-- wgtypes.PeerConfig and wgtypes.Config, as far as they are set
pub record PeerConfig : Type 0 where
  pub public_key : Bytes
  pub endpoint : Option Bytes
  pub allowed_ips : List Bytes
  pub keepalive : Option ℕ
  pub remove : Bool

pub record WgConfig : Type 0 where
  pub private_key : Option Bytes
  pub listen_port : Option ℕ
  pub peers : List PeerConfig

-- netlink.Link
pub record Link : Type 0 where
  pub index : ℕ
  pub link_mtu : ℕ
  pub is_wireguard : Bool

-- What RouteDel returns: nil, an error that says the route does not exist, or another error.
pub data Deleted : Type 0 where
  deleted not_exist del_failed : Deleted

-- The netlink and wgctrl packages; true is a nil error.
pub record Kernel : Type 1 where
  pub State : Type 0
  pub device : Bytes → State → Option (List WgPeer)
  pub configure : Bytes → WgConfig → State → Bool × State
  pub link_by_name : Bytes → State → Option Link
  -- LinkAdd of a WireGuard link with a name and, if there is one, an MTU
  pub link_add : Bytes → Option ℕ → State → Bool × State
  pub link_set_mtu : Link → ℕ → State → Bool × State
  pub link_set_up : Link → State → Bool × State
  -- AddrReplace of an address as a /32
  pub addr_replace : Link → Bytes → State → Bool × State
  pub route_replace : ℕ → Bytes → State → Bool × State
  pub route_del : ℕ → Bytes → State → Deleted × State
  pub link_del : Link → State → Bool × State

-- type LinuxDevice, without its client
pub record LinuxDevice : Type 0 where
  pub iface : Bytes
  pub link : Option Link
  pub routes : List Bytes

-- The errors, and the use of the link before Setup.
pub data DeviceError : Type 0 where
  create_failed find_failed wrong_type mtu_failed configure_failed up_failed : DeviceError
  address_failed route_failed device_gone del_route_failed delete_failed nil_link : DeviceError

-- The map that marks the current peers.
unfoldable pub current_of : List WgPeer → Map Bool → Map Bool
current_of [] m = m
current_of (p ∷ peers) m = current_of peers (insert p.public_key true m)

abbrev pub has_allowed : PeerDesire → Bool
has_allowed p = elim p.allowed_ips [ [] ↦ false | ip ∷ ips ↦ true ]

-- The map that marks the wanted peers.
unfoldable pub want_of : List PeerDesire → Map Bool → Map Bool
want_of [] m = m
want_of (p ∷ peers) m = want_of peers (if has_allowed p then insert p.pub_key true m else m)

abbrev pub wanted_config : PeerDesire → PeerConfig
wanted_config p = record {
  public_key = p.pub_key;
  endpoint = p.endpoint;
  allowed_ips = p.allowed_ips;
  keepalive = some p.keepalive;
  remove = false;
}

-- The configurations of the loop over the desired peers.
unfoldable pub wanted_configs : List PeerDesire → List PeerConfig
wanted_configs [] = []
wanted_configs (p ∷ peers) =
    let rest = wanted_configs peers in if has_allowed p then wanted_config p ∷ rest else rest

abbrev pub removal : Bytes → PeerConfig
removal key = record {
  public_key = key;
  endpoint = none;
  allowed_ips = [];
  keepalive = none;
  remove = true;
}

-- The configurations of the loop over the current peers.
unfoldable pub removals : Map Bool → List Bytes → List PeerConfig
removals want [] = []
removals want (key ∷ current) =
    let rest = removals want current in if has_key key want then rest else removal key ∷ rest

abbrev pub peers_config : List PeerConfig → WgConfig
peers_config configs = record { private_key = none; listen_port = none; peers = configs }

unfoldable pub find_peer : Bytes → List WgPeer → Option WgPeer
find_peer key [] = none
find_peer key (p ∷ peers) = if bytes_eq p.public_key key then some p else find_peer key peers

-- want[key] of ApplyRoutes
unfoldable pub listed : Bytes → List Bytes → Bool
listed r [] = false
listed r (w ∷ want) = if bytes_eq w r then true else listed r want

-- if mtu > 0
abbrev pub positive : ℤ → Option ℕ
positive (pos zero) = none
positive (pos (suc n)) = some (suc n)
positive (negsuc n) = none

abbrev pub failed_as : Bool → DeviceError → Option DeviceError
failed_as true e = none
failed_as false e = some e

module _ (kn : Kernel) where
  open kn use {
    State, device, configure, link_by_name, link_add, link_set_mtu, link_set_up, addr_replace,
    route_replace, route_del, link_del,
  }

  configured : Bytes → List PeerConfig → State → Option DeviceError × State
  configured iface [] s = (none, s)
  configured iface (c ∷ configs) s =
      let (ok, s') = configure iface (peers_config (c ∷ configs)) s in
      (failed_as ok configure_failed, s')

  applied :
      LinuxDevice → List PeerDesire → Option (List WgPeer) → State → Option DeviceError × State
  unfolding configured
  applied ld peers none s = (some device_gone, s)
  applied ld peers (some now) s =
      configured ld.iface
        (wanted_configs peers ++ removals (want_of peers []) (keys (current_of now []))) s

  -- func (ld *LinuxDevice) Apply
  unfoldable pub apply_peers : LinuxDevice → List PeerDesire → State → Option DeviceError × State
  unfolding applied
  apply_peers ld peers s = applied ld peers (device ld.iface s) s

  -- The first loop of ApplyRoutes.
  unfoldable pub replace_routes : ℕ → List Bytes → State → Option DeviceError × State
  replace_routes index [] s = (none, s)
  replace_routes index (r ∷ routes) s =
      let (ok, s') = route_replace index r s in
      if ok then replace_routes index routes s' else (some route_failed, s')

  after_del : (State → Option DeviceError × State) → Deleted × State → Option DeviceError × State
  after_del rest (deleted, s) = rest s
  after_del rest (not_exist, s) = rest s
  after_del rest (del_failed, s) = (some del_route_failed, s)

  -- The second loop of ApplyRoutes, over the routes of the last call.
  unfoldable pub drop_routes : ℕ → List Bytes → List Bytes → State → Option DeviceError × State
  unfolding after_del
  drop_routes index want [] s = (none, s)
  drop_routes index want (prev ∷ routes) s =
      let rest = drop_routes index want routes in
      if listed prev want then rest s else after_del rest (route_del index prev s)

  kept_routes :
      LinuxDevice
      → List Bytes
      → Option DeviceError × State
      → Option DeviceError × LinuxDevice × State
  kept_routes ld routes (some e, s) = (some e, ld, s)
  kept_routes ld routes (none, s) = (none, record ld { routes = routes }, s)

  after_replace :
      LinuxDevice
      → ℕ
      → List Bytes
      → Option DeviceError × State
      → Option DeviceError × LinuxDevice × State
  unfolding kept_routes
  after_replace ld index routes (some e, s) = (some e, ld, s)
  after_replace ld index routes (none, s) =
      kept_routes ld routes (drop_routes index routes ld.routes s)

  -- func (ld *LinuxDevice) ApplyRoutes, with a link; its index is read only where a route is changed
  unfoldable pub apply_routes_on :
      LinuxDevice → ℕ → List Bytes → State → Option DeviceError × LinuxDevice × State
  unfolding after_replace
  apply_routes_on ld index routes s = after_replace ld index routes (replace_routes index routes s)

  routes_of :
      LinuxDevice → Option Link → List Bytes → State → Option DeviceError × LinuxDevice × State
  routes_of ld (some l) routes s = apply_routes_on ld l.index routes s
  routes_of ld none [] s = (none, record ld { routes = [] }, s)
  routes_of ld none (r ∷ routes) s = (some nil_link, ld, s)

  -- func (ld *LinuxDevice) ApplyRoutes; before Setup there are no earlier routes
  unfoldable pub apply_routes :
      LinuxDevice → List Bytes → State → Option DeviceError × LinuxDevice × State
  unfolding routes_of
  apply_routes ld routes s = routes_of ld ld.link routes s

  found_handshake : Option WgPeer → ℕ
  found_handshake none = 0
  found_handshake (some p) = p.last_handshake

  listed_peer : Bytes → Option (List WgPeer) → Option WgPeer
  listed_peer key none = none
  listed_peer key (some peers) = find_peer key peers

  -- func (ld *LinuxDevice) Handshake
  unfoldable pub handshake_time : LinuxDevice → Bytes → State → ℕ
  unfolding found_handshake listed_peer
  handshake_time ld key s = found_handshake (listed_peer key (device ld.iface s))

  found_endpoint : Option WgPeer → Option Bytes
  found_endpoint none = none
  found_endpoint (some p) = p.endpoint

  -- func (ld *LinuxDevice) Endpoint
  unfoldable pub tracked_endpoint : LinuxDevice → Bytes → State → Option Bytes
  unfolding found_endpoint listed_peer
  tracked_endpoint ld key s = found_endpoint (listed_peer key (device ld.iface s))

  -- A step of Setup, and what follows if it succeeds.
  unfoldable pub then_do :
      DeviceError → (State → Option DeviceError × State) → Bool × State → Option DeviceError × State
  then_do e next (true, s) = next s
  then_do e next (false, s) = (some e, s)

  set_mtu :
      Link → Option ℕ → (State → Option DeviceError × State) → State → Option DeviceError × State
  unfolding then_do
  set_mtu l none next s = next s
  set_mtu l (some mtu) next s =
      if l.link_mtu == mtu then next s else then_do mtu_failed next (link_set_mtu l mtu s)

  set_route : Link → Option Bytes → State → Option DeviceError × State
  unfolding then_do
  set_route l none s = (none, s)
  set_route l (some route) s = then_do route_failed (λ u. (none, u)) (route_replace l.index route s)

  -- The part of Setup after ld.link = l.
  unfoldable pub setup_link :
      Bytes
      → Link
      → Bytes
      → ℕ
      → Option ℕ
      → Bytes
      → Option Bytes
      → State
      → Option DeviceError × State
  unfolding then_do set_mtu set_route
  setup_link iface l key port mtu addr route =
      let config : WgConfig = record {
        private_key = some key;
        listen_port = some port;
        peers = [];
      } in
      set_mtu l mtu (λ s0.
        then_do configure_failed
          (λ s1.
            then_do up_failed
              (λ s2. then_do address_failed (set_route l route) (addr_replace l addr s2))
              (link_set_up l s1))
          (configure iface config s0))

  -- What Setup has found: a link to set up, or an error.
  linked :
      LinuxDevice
      → Option Link
      → DeviceError
      → (Link → State → Option DeviceError × State)
      → State
      → Option DeviceError × LinuxDevice × State
  linked ld none e next s = (some e, ld, s)
  linked ld (some l) e next s = let (out, s') = next l s in (out, record ld { link = some l }, s')

  added :
      LinuxDevice
      → (Link → State → Option DeviceError × State)
      → Bool × State
      → Option DeviceError × LinuxDevice × State
  unfolding linked
  added ld next (false, s) = (some create_failed, ld, s)
  added ld next (true, s) = linked ld (link_by_name ld.iface s) find_failed next s

  setup_found :
      LinuxDevice
      → Option ℕ
      → (Link → State → Option DeviceError × State)
      → Option Link
      → State
      → Option DeviceError × LinuxDevice × State
  unfolding added linked
  setup_found ld mtu next none s = added ld next (link_add ld.iface mtu s)
  setup_found ld mtu next (some l) s =
      linked ld (if l.is_wireguard then some l else none) wrong_type next s

  -- func (ld *LinuxDevice) Setup
  unfoldable pub setup_device :
      LinuxDevice
      → Bytes
      → ℕ
      → ℤ
      → Bytes
      → Option Bytes
      → State
      → Option DeviceError × LinuxDevice × State
  unfolding setup_found setup_link
  setup_device ld key port mtu addr route s =
      let m = positive mtu in
      setup_found ld m (λ l. setup_link ld.iface l key port m addr route) (link_by_name ld.iface s)
        s

  delete_link : Option Link → State → Option DeviceError × State
  delete_link none s = (none, s)
  delete_link (some l) s = let (ok, s') = link_del l s in (failed_as ok delete_failed, s')

  -- func (ld *LinuxDevice) Delete
  unfoldable pub delete_device : LinuxDevice → State → Option DeviceError × State
  unfolding delete_link
  delete_device ld s = delete_link (link_by_name ld.iface s) s
