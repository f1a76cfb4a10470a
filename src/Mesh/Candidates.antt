-- ===== src/Mesh/Candidates.antt =====
-- internal/mesh/stun.go and local.go: the candidates that a node publishes. One STUN exchange is a
-- function of network and server; the tests of net.IP are functions of the model, and so is
-- net.JoinHostPort at our port.
pub mod Unique
use rout_wire.Base.{
  ℕ, suc, ◌+◌, Bool, true, false, not, ◌||◌, List, [], ◌∷◌, ◌++◌, Option, none, some, if◌then◌else◌,
}
use rout_wire.Base.Bytes.{Bytes, bytes, has_prefix}
use rout_wire.Base.Text.{to_lower}
use rout_wire.Mesh.Record.{Candidate, cand_host, cand_srflx}
use rout_wire.Mesh.Peers.{contains_addr}

abbrev pub srflx_candidate : Bytes → Candidate
srflx_candidate addr = record { cand_type = cand_srflx; addr = addr; score = 0 }

-- The end of the loop body of GatherSRFLX, after an exchange.
unfoldable pub add_srflx : Option Bytes → List Candidate → List Candidate
add_srflx none out = out
add_srflx (some addr) out =
    if contains_addr out addr then out else out ++ (srflx_candidate addr ∷ [])

-- `ended i` is whether the context has ended at check i, of which each network has one; the inner
-- loop breaks there, and the next server is tried.
module _ (srflx_one : Bytes → Bytes → Option Bytes) (ended : ℕ → Bool) where
  unfoldable pub gather_server : ℕ → Bytes → List Candidate → List Candidate
  unfolding add_srflx
  gather_server i s out =
      if ended i
      then out
      else let out4 = add_srflx (srflx_one (bytes "udp4") s) out in
        if ended (suc i) then out4 else add_srflx (srflx_one (bytes "udp6") s) out4

  unfoldable pub gather_from : ℕ → List Bytes → List Candidate → List Candidate
  unfolding gather_server
  gather_from i [] out = out
  gather_from i (s ∷ servers) out = gather_from (i + 2) servers (gather_server i s out)

  -- func GatherSRFLX
  unfoldable pub gather_srflx : List Bytes → List Candidate
  unfolding gather_from
  gather_srflx servers = gather_from 0 servers []

-- The prefixes of the names of interfaces that are not announced.
abbrev pub skipped_prefixes : List Bytes
skipped_prefixes =
    bytes "lo"
    ∷ bytes "wg"
    ∷ bytes "docker"
    ∷ bytes "br-"
    ∷ bytes "veth"
    ∷ bytes "virbr"
    ∷ bytes "tun"
    ∷ bytes "tap"
    ∷ bytes "vrf"
    ∷ bytes "zt"
    ∷ []

has_some_prefix : List Bytes → Bytes → Bool
has_some_prefix [] name = false
has_some_prefix (p ∷ ps) name = if has_prefix p name then true else has_some_prefix ps name

-- net.Interface, with the networks that Addrs gives; none where Addrs fails. An address that is no
-- *net.IPNet is none.
pub record Interface : Type 0 where
  pub name : Bytes
  pub is_loopback : Bool
  pub is_point_to_point : Bool
  pub addrs : Option (List (Option Bytes))

-- func announceIface
unfoldable pub announce_iface : Interface → Bool
unfolding has_some_prefix
announce_iface ifc =
    if ifc.is_loopback || ifc.is_point_to_point
    then false
    else not (has_some_prefix skipped_prefixes (to_lower ifc.name))

-- The tests of net.IP.
pub record IpTests : Type 0 where
  pub to4 : Bytes → Option Bytes
  pub loopback : Bytes → Bool
  pub link_local_unicast : Bytes → Bool
  pub unspecified : Bytes → Bool

module _ (t : IpTests) (join_host_port : Bytes → Bytes) where
  abbrev pub skips : Bytes → Bool
  skips ip = t.loopback ip || t.link_local_unicast ip || t.unspecified ip

  skipped : Bytes → Option Bytes → Bool
  skipped ip (some ip4) = skips ip4
  skipped ip none = skips ip

  -- func ipCandidates
  unfoldable pub ip_candidates : List Bytes → List Candidate
  unfolding skipped
  ip_candidates [] = []
  ip_candidates (ip ∷ ips) =
      let rest = ip_candidates ips in
      if skipped ip (t.to4 ip)
      then rest
      else record { cand_type = cand_host; addr = join_host_port ip; score = 0 } ∷ rest

  nets : List (Option Bytes) → List Bytes
  nets [] = []
  nets (none ∷ addrs) = nets addrs
  nets (some ip ∷ addrs) = ip ∷ nets addrs

  or_no_nets : Option (List (Option Bytes)) → List Bytes
  unfolding nets
  or_no_nets none = []
  or_no_nets (some addrs) = nets addrs

  unfoldable pub announced_ips : List Interface → List Bytes
  unfolding or_no_nets
  announced_ips [] = []
  announced_ips (ifc ∷ ifaces) =
      let rest = announced_ips ifaces in
      if announce_iface ifc then or_no_nets ifc.addrs ++ rest else rest

  -- func LocalCandidates; none where net.Interfaces fails
  unfoldable pub local_candidates : Option (List Interface) → List Candidate
  unfolding ip_candidates announced_ips
  local_candidates none = []
  local_candidates (some ifaces) = ip_candidates (announced_ips ifaces)
