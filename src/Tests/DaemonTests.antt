-- ===== src/Tests/DaemonTests.antt =====
-- Runs of the theorems on the device and the daemon, at a kernel whose state is the
-- list of its peers and a world whose state is a clock.
use rout_wire.Base.{
  ◌++◌, ℕ, ◌+◌, ◌≡◌, ◌<◌, refl, ap, ◌∙◌, inl, inr, true, false, not, ◌&&◌, ◌||◌, List, [], ◌∷◌,
  Option, none, some, arith, if◌then◌else◌, Bool-cases, any, is_some, All,
}
use rout_wire.Base.Bytes.{Bytes, bytes, bytes_eq, bytes_eq_iff}
use rout_wire.Base.Int.{pos}
use rout_wire.Base.Map.{Map, has_key, keys}
use rout_wire.Mesh.FakeDevice.{PeerDesire}
use rout_wire.Mesh.Record.{Record}
use rout_wire.Mesh.Router.Masquerade.{Subnet}
use rout_wire.Mesh.LinuxDevice.{
  WgPeer, PeerConfig, Kernel, LinuxDevice, deleted, apply_peers, apply_routes_on, replace_routes,
  drop_routes, listed,
}
use rout_wire.Mesh.LinuxDevice.Converged.{
  has_peer, present, is_desired, ConfigureLaws, apply_peers-converges, apply_peers-works,
}
use rout_wire.Mesh.LinuxDevice.Routed.{RouteLaws, apply_routes_on-has}
use rout_wire.Mesh.Daemon.Node.Sequence.{issued, Ascending, issued-Ascending}
use rout_wire.Mesh.Daemon.World.{World, applied}
use rout_wire.Mesh.Daemon.Node.{Settings, Daemon, with_defaults, new_daemon}
use rout_wire.Mesh.Deriver.{Checked, valid, bad_name, bad_cidr}
use rout_wire.Mesh.Daemon.Cidrs.{
  parse_cidrs, parse_cidrs-exact, HasUniqueTexts, seen, texts, names_net,
}
use rout_wire.Mesh.Daemon.Plans.{Plan, build_plans}
use rout_wire.Mesh.Daemon.Race.{polls, poll_fuel}
use rout_wire.Mesh.Daemon.Race.Deadline.{try_connect-ends}
use rout_wire.Mesh.Daemon.Spokes.{sync_nat}
use rout_wire.Mesh.Daemon.Spokes.Synced.{sync_nat-tracks, has_address}
use rout_wire.Mesh.Daemon.Tick.{Board, Tools, initial_plans}
use rout_wire.Mesh.Daemon.Tick.Live.{TellsEach, initial_plans-live, told, owner, first_apply-peers}
use rout_wire.Mesh.Spokes.{Disk, Io, missing}
use rout_wire.Tests.Toy.{toy_derivation, toy_deriver, toy_cidr, toy_me, thirty_two}

-- The peers without a key.
abbrev without : Bytes → List WgPeer → List WgPeer
without key [] = []
without key (p ∷ peers) =
    let rest = without key peers in if bytes_eq p.public_key key then rest else p ∷ rest

abbrev configured : List PeerConfig → List WgPeer → List WgPeer
configured [] peers = peers
configured (c ∷ configs) peers = configured configs (
    if c.remove
    then without c.public_key peers
    else record { public_key = c.public_key; endpoint = c.endpoint; last_handshake = 0 } ∷ peers)

abbrev toy_kernel : Kernel
toy_kernel = record {
  State = List WgPeer;
  device = λ iface s. some s;
  configure = λ iface c s. (true, configured c.peers s);
  link_by_name = λ iface s. none;
  link_add = λ iface mtu s. (true, s);
  link_set_mtu = λ l mtu s. (true, s);
  link_set_up = λ l s. (true, s);
  addr_replace = λ l addr s. (true, s);
  route_replace = λ i r s. (true, s);
  route_del = λ i r s. (deleted, s);
  link_del = λ l s. (true, s);
}

has_peer-without :
    (key k : Bytes) (peers : List WgPeer)
    → has_peer key (without k peers) ≡ (not (bytes_eq k key) && has_peer key peers)
has_peer-without key k [] = ground arith
has_peer-without key k (p ∷ peers) = ground (
  arith,
  has_peer-without key k peers,
  bytes_eq_iff p.public_key k,
  bytes_eq_iff p.public_key key,
  bytes_eq_iff k key,
)

has_peer-configured :
    (key : Bytes) (configs : List PeerConfig) (peers : List WgPeer)
    → has_peer key (configured configs peers) ≡ present key configs (has_peer key peers)
has_peer-configured key [] peers = refl
has_peer-configured key (c ∷ configs) peers = elim (Bool-cases c.remove) [
  | inl e ↦ simp e (
      has_peer-configured key configs (without c.public_key peers)
      ∙ ap (present key configs) (ground (arith, has_peer-without key c.public_key peers)))
  | inr e ↦ simp e (has_peer-configured key configs _ ∙ ap (present key configs) (ground arith))
]

or_peers : Option (List WgPeer) → List WgPeer
or_peers none = []
or_peers (some peers) = peers

toy_configure : (iface : Bytes) → ConfigureLaws toy_kernel iface
unfolding or_peers
toy_configure iface = record {
  peers_of = λ s. s;
  device_lists = λ s peers e. ap (λ o. or_peers o) e;
  configure_peers = λ configs key s ok. has_peer-configured key configs s;
}

-- One peer that is wanted, and one that is there and is not.
abbrev two_desires : List PeerDesire
two_desires =
    record {
      name = bytes "n";
      pub_key = bytes "k";
      endpoint = none;
      allowed_ips = bytes "10.99.0.7/32" ∷ [];
      keepalive = 0;
    }
    ∷ record {
      name = bytes "m";
      pub_key = bytes "j";
      endpoint = none;
      allowed_ips = [];
      keepalive = 0;
    }
    ∷ []

abbrev old_peer : List WgPeer
old_peer = record { public_key = bytes "old"; endpoint = none; last_handshake = 0 } ∷ []

abbrev toy_link : LinuxDevice
toy_link = record { iface = bytes "wgmesh0"; link = none; routes = [] }

apply_peers-converges_example :
    has_peer (bytes "old") (apply_peers toy_kernel toy_link two_desires old_peer).1
    ≡ is_desired (bytes "old") two_desires
unfolding toy_configure
apply_peers-converges_example =
    apply_peers-converges toy_kernel toy_link (toy_configure (bytes "wgmesh0")) two_desires
      (bytes "old") old_peer
      (apply_peers-works toy_kernel toy_link (toy_configure (bytes "wgmesh0")) two_desires old_peer
        old_peer refl (λ c. refl))

abbrev pub toy_world : World
toy_world = record {
  State = ℕ;
  now = λ s. s;
  sleep = λ d s. s + d;
  probe = λ ip port s. s;
  apply = λ peers s. (applied, s);
  setup = λ key port mtu ip cidr s. (true, s);
  apply_routes = λ routes s. (true, s);
  handshake = λ key s. 5;
  endpoint = λ key s. none;
  forwarding = λ s. (true, s);
  announce_nat = λ overlay subnets s. (true, s);
  ensure_port = λ s. (true, s);
  add_source = λ ip s. (true, s);
  remove_source = λ ip s. (true, s);
}

abbrev pub toy_settings : Settings
toy_settings = record {
  node_name = bytes "hub";
  iface = bytes "wgmesh0";
  cidr = toy_cidr;
  port = pos 51820;
  mtu = pos 1420;
  poll = pos 15000000000;
  stale_after = pos 180000000000;
  stun_servers = [];
  stun_timeout = pos 800000000;
  announce = bytes "10.0.0.0/8" ∷ [];
  has_spokes_file = true;
}

-- A daemon with one spoke.
abbrev pub toy_daemon : Daemon
toy_daemon = record {
  cfg = toy_settings;
  deriver = toy_deriver;
  identity = toy_me;
  key = thirty_two;
  my_ip = 168624129;
  spoke_src = (bytes "gone", 7) ∷ [];
  spokes = (bytes "phone", true) ∷ [];
  fwd_warned = false;
  seq = 1;
  last_good = [];
}

abbrev pub toy_parse : Bytes → Option Subnet
toy_parse text = some (record { text = text; is_ip4 = true })

abbrev long_after : ℕ
long_after = 1000000000000

try_connect-ends_example : is_some (polls toy_world poll_fuel 3 (bytes "k") 3).0 ≡ true
try_connect-ends_example =
    try_connect-ends toy_world (λ d s. omega arith) (bytes "k") none (pos 51820) 3 (omega arith)

parse_cidrs-exact_example :
    HasUniqueTexts toy_parse (parse_cidrs toy_parse (bytes "a" ∷ bytes " a" ∷ bytes "b" ∷ []))
    × ((text : Bytes)
        → seen text
            (texts toy_parse (parse_cidrs toy_parse (bytes "a" ∷ bytes " a" ∷ bytes "b" ∷ [])))
          ≡ names_net toy_parse text (bytes "a" ∷ bytes " a" ∷ bytes "b" ∷ []))
parse_cidrs-exact_example = parse_cidrs-exact toy_parse (bytes "a" ∷ bytes " a" ∷ bytes "b" ∷ [])

sync_nat-tracks_example :
    has_key (bytes "gone") (sync_nat toy_world toy_derivation toy_parse toy_daemon 3).0.spoke_src
    ≡ (has_key (bytes "gone") toy_daemon.spokes
        && has_address toy_world toy_derivation toy_daemon (bytes "gone"))
sync_nat-tracks_example =
    sync_nat-tracks toy_world toy_derivation (λ ip s. refl) toy_parse toy_daemon 3 (bytes "gone")

abbrev pub toy_io : Io
toy_io = record { mkdir_works = true; write_works = true; partial = missing; rename_works = true }

abbrev pub toy_disk : Disk
toy_disk = record { list = missing; temp = missing }

abbrev pub toy_board : Board toy_world
toy_board = record { publish = λ key v s. (true, s); fetch = λ dm s. (some [], s) }

abbrev toy_record : Record
toy_record = record {
  name = bytes "node";
  ip = bytes "10.13.0.1";
  port = pos 51820;
  candidates = [];
  adv = bytes "192.168.1.0/24" ∷ [];
  ts = pos 5;
  seq = 3;
  pk = [];
  sig = [];
}

abbrev pub toy_tools : Tools
toy_tools = record {
  json = record { marshal = λ r. bytes "json"; unmarshal = λ text. some toy_record };
  ip_string = λ ip. bytes "ip";
  parse_cidr = toy_parse;
  resolve = λ text. some text;
  split_host = λ text. none;
  to4 = λ text. none;
}

abbrev one_node : Map Record
one_node = (bytes "node", toy_record) ∷ []

first_apply-peers_example :
    has_peer thirty_two
      (apply_peers toy_kernel toy_link
        (told toy_world toy_board toy_derivation toy_tools toy_daemon 3 [] one_node)
        old_peer).1
    ≡ (any
          (owner toy_world toy_board toy_derivation toy_tools toy_daemon 3 thirty_two)
          (keys one_node)
        || any
            (owner toy_world toy_board toy_derivation toy_tools toy_daemon 3 thirty_two)
            (keys toy_daemon.spokes))
unfolding toy_configure
first_apply-peers_example =
    first_apply-peers toy_world toy_board toy_derivation toy_tools toy_daemon 3 toy_kernel toy_link
      (toy_configure (bytes "wgmesh0")) old_peer [] one_node thirty_two
      (apply_peers-works toy_kernel toy_link (toy_configure (bytes "wgmesh0"))
        (told toy_world toy_board toy_derivation toy_tools toy_daemon 3 [] one_node) old_peer
        old_peer refl (λ c. refl))

abbrev live_plans : List Plan
live_plans =
    build_plans toy_tools.split_host toy_tools.to4 toy_world toy_derivation toy_tools.ip_string
      toy_parse toy_daemon [] 3 one_node

initial_plans-live_example :
    TellsEach toy_world toy_board toy_derivation toy_tools toy_daemon 1000 180000000000 live_plans
      (initial_plans toy_world toy_board toy_derivation toy_tools toy_daemon 1000 live_plans)
initial_plans-live_example =
    initial_plans-live toy_world toy_board toy_derivation toy_tools toy_daemon 1000 179999999999
      live_plans refl (omega arith)

-- A kernel whose state is the list of its routes.
abbrev without_route : Bytes → List Bytes → List Bytes
without_route r [] = []
without_route r (t ∷ routes) =
    let rest = without_route r routes in if bytes_eq t r then rest else t ∷ rest

abbrev route_kernel : Kernel
route_kernel = record {
  State = List Bytes;
  device = λ iface s. none;
  configure = λ iface c s. (true, s);
  link_by_name = λ iface s. none;
  link_add = λ iface mtu s. (true, s);
  link_set_mtu = λ l mtu s. (true, s);
  link_set_up = λ l s. (true, s);
  addr_replace = λ l addr s. (true, s);
  route_replace = λ i r s. (true, r ∷ s);
  route_del = λ i r s. (deleted, without_route r s);
  link_del = λ l s. (true, s);
}

without_route-has :
    (r t : Bytes) (s : List Bytes)
    → any (λ x. bytes_eq x t) (without_route r s)
      ≡ (not (bytes_eq r t) && any (λ x. bytes_eq x t) s)
without_route-has r t [] = ground arith
without_route-has r t (x ∷ s) =
    ground (arith, without_route-has r t s, bytes_eq_iff x r, bytes_eq_iff x t, bytes_eq_iff r t)

route_laws : RouteLaws route_kernel 4
route_laws = record {
  has_route = λ t s. any (λ x. bytes_eq x t) s;
  replace_adds = λ r t s ok. refl;
  del_takes = λ r t s ok. without_route-has r t s;
}

abbrev routed_link : LinuxDevice
routed_link = record { iface = bytes "wgmesh0"; link = none; routes = bytes "old" ∷ [] }

apply_routes_on-has_example :
    (any
        (λ x. bytes_eq x (bytes "old"))
        (apply_routes_on route_kernel routed_link 4 (bytes "new" ∷ []) (bytes "old" ∷ [])).2
      ≡ (listed (bytes "old") (bytes "new" ∷ [])
          || (any (λ x. bytes_eq x (bytes "old")) (bytes "old" ∷ [])
              && not (listed (bytes "old") (bytes "old" ∷ [])))))
    × ((apply_routes_on route_kernel routed_link 4 (bytes "new" ∷ []) (bytes "old" ∷ [])).1.routes
        ≡ bytes "new" ∷ [])
unfolding route_laws apply_routes_on replace_routes drop_routes listed bytes_eq
apply_routes_on-has_example =
    apply_routes_on-has route_kernel 4 route_laws routed_link (bytes "new" ∷ []) (bytes "old")
      (bytes "old" ∷ []) refl

abbrev or_toy : Checked Daemon → Daemon
or_toy (valid dm) = dm
or_toy (bad_name e) = toy_daemon
or_toy bad_cidr = toy_daemon

abbrev made_at : ℕ → Daemon
made_at nano = or_toy (new_daemon toy_derivation toy_settings toy_deriver toy_disk nano)

made_lem :
    (nano : ℕ)
    → new_daemon toy_derivation toy_settings toy_deriver toy_disk nano ≡ valid (made_at nano)
unfolding new_daemon with_defaults rout_wire.Mesh.Deriver.validate_name
    rout_wire.Mesh.Deriver.normalize_name rout_wire.Base.Text.trim_space
    rout_wire.Mesh.Deriver.node_wg_key rout_wire.Mesh.Deriver.node_identity
    rout_wire.Mesh.Deriver.overlay_ip rout_wire.Mesh.Deriver.be32
made_lem nano = refl

issued-Ascending_example :
    let all = issued (λ i. 9) 5 (made_at 1000) ++ issued (λ i. 9) 3 (made_at 2000) in
    Ascending all × All (λ s. 1000 < s) all
issued-Ascending_example =
    issued-Ascending toy_derivation toy_deriver toy_settings toy_settings toy_disk toy_disk 1000
      2000 (λ i. 9) (λ i. 9) 5 3 (made_at 1000) (made_at 2000) (made_lem 1000) (made_lem 2000)
      (omega arith) (omega arith) (omega arith)
