-- ===== src/Mesh/Daemon/Plans.antt =====
-- The plans for the peers in internal/mesh/daemon.go: buildPlans, orderedFor, pickInitial and
-- stateWith. The roster's view is an argument; an address is its text.
pub mod Built
use rout_wire.Base.{
  ℕ, zero, suc, Bool, true, false, not, ◌&&◌, ◌||◌, List, [], ◌∷◌, ◌++◌, Option, none, some,
  if◌then◌else◌,
}
use rout_wire.Base.Bytes.{Bytes}
use rout_wire.Base.Int.{ℤ, pos}
use rout_wire.Base.Map.{Map, lookup, has_key, keys}
use rout_wire.Base.Text.{is_empty}
use rout_wire.Mesh.Deriver.{
  Derivation, Checked, valid, bad_name, bad_cidr, node_wg_pub_key, overlay_ip,
}
use rout_wire.Mesh.FakeDevice.{PeerDesire}
use rout_wire.Mesh.Record.{Candidate, Record, cand_prflx}
use rout_wire.Mesh.Peers.{
  Ip4, NatMode, mode_different_sites, mode_shared_nat, mode_unknown, same_nat, order_endpoints,
  is_private_candidate, contains_addr,
}
use rout_wire.Mesh.Roster.{names}
use rout_wire.Mesh.Router.Masquerade.{Subnet}
use rout_wire.Mesh.Daemon.World.{World, UdpAddr}
use rout_wire.Mesh.Daemon.Node.{Daemon}
use rout_wire.Mesh.Daemon.Cidrs.{parse_cidrs, texts}

-- type peerPlan; of the record its port and its announcements are used later
pub record Plan : Type 0 where
  pub peer : Bytes
  pub peer_port : ℤ
  pub adv : List Bytes
  pub pub_key : Bytes
  pub desire : PeerDesire
  pub ordered : List Candidate
  pub winner : Candidate
  pub have_win : Bool
  pub fresh_now : Bool

abbrev pub no_candidate : Candidate
no_candidate = record { cand_type = []; addr = []; score = 0 }

-- dm.lastGood[name]
abbrev pub or_none : Option Candidate → Candidate
or_none none = no_candidate
or_none (some c) = c

abbrev pub is_different_sites : NatMode → Bool
is_different_sites mode_different_sites = true
is_different_sites mode_shared_nat = false
is_different_sites mode_unknown = false

-- 25 * time.Second
abbrev pub keepalive_time : ℕ
keepalive_time = 25000000000

-- The settings of a plan's desire at its start.
abbrev pub desire_of : Bytes → Bytes → List Bytes → PeerDesire
desire_of name key allowed = record {
  name = name;
  pub_key = key;
  endpoint = none;
  allowed_ips = allowed;
  keepalive = keepalive_time;
}

-- Candidate{Type: CandPRFLX, Addr: text}
abbrev pub observed_candidate : Bytes → Candidate
observed_candidate text = record { cand_type = cand_prflx; addr = text; score = 0 }

-- net.ResolveUDPAddr as `resolve`, which gives the text of the address; udpAddrOf ignores its error.
module _ (resolve : Bytes → Option Bytes) where
  -- func pickInitial
  unfoldable pub pick_initial : Plan → Plan
  pick_initial p =
      if p.have_win
      then record p { desire = record p.desire { endpoint = resolve p.winner.addr } }
      else elim p.ordered [
        | [] ↦ p
        | c ∷ cands ↦ record p { desire = record p.desire { endpoint = resolve c.addr } }
      ]

  -- The body of Tick's second loop: pickInitial, and no endpoint for a live session.
  unfoldable pub initial_plan : Plan → Plan
  unfolding pick_initial
  initial_plan p =
      let q = pick_initial p in
      if q.fresh_now then record q { desire = record q.desire { endpoint = none } } else q

-- func stateWith, for the plans before and after the one whose desire is replaced
abbrev pub desires : List Plan → List PeerDesire
desires [] = []
desires (p ∷ plans) = p.desire ∷ desires plans

abbrev pub state_with : List Plan → PeerDesire → List Plan → List PeerDesire
state_with before d after = desires before ++ (d ∷ desires after)

module _ (split_host : Bytes → Option Bytes) (to4 : Bytes → Option Ip4) where
  observed_first : List Candidate → Record → List Candidate → Option UdpAddr → List Candidate
  observed_first mine rec order none = order
  observed_first mine rec order (some ep) =
      if not ep.has_ip || ep.is_link_local
      then order
      else if contains_addr order ep.text
      then order
      else if is_different_sites (same_nat split_host to4 mine rec.candidates)
          && is_private_candidate split_host to4 (observed_candidate ep.text)
      then order
      else observed_candidate ep.text ∷ order

  -- func (dm *Daemon) orderedFor, given what the device's Endpoint returns
  unfoldable pub ordered_for : Option UdpAddr → List Candidate → Record → List Candidate
  unfolding observed_first
  ordered_for ep mine rec =
      observed_first mine rec (order_endpoints split_host to4 mine rec.candidates) ep

  module _ (w : World) (x : Derivation) (ip_string : ℕ → Bytes)
      (parse_cidr : Bytes → Option Subnet) where
    open w use {State, endpoint}

    -- The String of OverlayIPNet.
    abbrev pub host_net : ℕ → Bytes
    host_net ip = ip_string ip ++ (b'/' ∷ b'3' ∷ b'2' ∷ [])

    -- A peer's key and address, if it has both.
    checked_pair : Checked Bytes → Checked ℕ → Option (Bytes × ℕ)
    checked_pair (valid key) (valid ip) = some (key, ip)
    checked_pair (valid key) (bad_name e) = none
    checked_pair (valid key) bad_cidr = none
    checked_pair (bad_name e) ip = none
    checked_pair bad_cidr ip = none

    unfoldable pub key_and_ip : Daemon → Bytes → Option (Bytes × ℕ)
    unfolding checked_pair
    key_and_ip dm name =
        checked_pair (node_wg_pub_key x dm.deriver name) (overlay_ip x dm.deriver name dm.cfg.cidr)

    roster_plan : Daemon → List Candidate → State → Bytes → Record → Bytes × ℕ → Plan
    unfolding ordered_for
    roster_plan dm mine s name rec (key, ip) =
        let last = or_none (lookup name dm.last_good) in
        record {
          peer = name;
          peer_port = rec.port;
          adv = rec.adv;
          pub_key = key;
          desire =
              desire_of name key
                (texts parse_cidr (parse_cidrs parse_cidr rec.adv) ++ (host_net ip ∷ []));
          ordered = ordered_for (endpoint key s) mine rec;
          winner = last;
          have_win = not (is_empty last.addr);
          fresh_now = false;
        }

    planned : (Bytes × ℕ → Plan) → Option (Bytes × ℕ) → List Plan → List Plan
    planned make none rest = rest
    planned make (some v) rest = make v ∷ rest

    -- The body of the loop of buildPlans over the roster; a name that is not there has no plan.
    plan_of : Daemon → List Candidate → State → Bytes → Option Record → List Plan → List Plan
    unfolding planned roster_plan
    plan_of dm mine s name none rest = rest
    plan_of dm mine s name (some rec) rest =
        planned (roster_plan dm mine s name rec) (key_and_ip dm name) rest

    unfoldable pub roster_plans :
        Daemon → List Candidate → State → Map Record → List Bytes → List Plan
    unfolding plan_of
    roster_plans dm mine s peers [] = []
    roster_plans dm mine s peers (name ∷ ns) =
        plan_of dm mine s name (lookup name peers) (roster_plans dm mine s peers ns)

    spoke_plan : Bytes → Bytes × ℕ → Plan
    spoke_plan name (key, ip) = record {
      peer = name;
      peer_port = pos 0;
      adv = [];
      pub_key = key;
      desire = desire_of name key (host_net ip ∷ []);
      ordered = [];
      winner = no_candidate;
      have_win = false;
      fresh_now = false;
    }

    -- The loop of buildPlans over the spokes.
    unfoldable pub spoke_plans : Daemon → Map Record → List Bytes → List Plan
    unfolding planned spoke_plan
    spoke_plans dm peers [] = []
    spoke_plans dm peers (name ∷ ns) =
        let rest = spoke_plans dm peers ns in
        if has_key name peers then rest else planned (spoke_plan name) (key_and_ip dm name) rest

    -- func (dm *Daemon) buildPlans, after FetchStable
    unfoldable pub build_plans : Daemon → List Candidate → State → Map Record → List Plan
    unfolding roster_plans spoke_plans
    build_plans dm mine s peers =
        roster_plans dm mine s peers (names peers) ++ spoke_plans dm peers (keys dm.spokes)
