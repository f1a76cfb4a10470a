-- ===== src/Mesh/Peers.antt =====
-- internal/mesh/peers.go: in what order the candidates of a peer are dialled. net.SplitHostPort
-- and net.ParseIP are functions of the model; of an address the four bytes of To4 are kept, none
-- where it is nil.
pub mod Order
use rout_wire.Base.{
  ℕ, Bool, true, false, not, ◌&&◌, ◌||◌, List, [], ◌∷◌, map, Option, none, some, ltb, leb, ◌==◌,
  if◌then◌else◌, select,
}
use rout_wire.Base.Bytes.{Bytes, bytes_eq}
use rout_wire.Base.Sort.{stable_sort}
use rout_wire.Base.Text.{is_empty}
use rout_wire.Mesh.Record.{Candidate, cand_host, cand_srflx}

-- type natMode
pub data NatMode : Type 0 where
  mode_unknown mode_shared_nat mode_different_sites : NatMode

-- The four bytes of an IPv4 address.
pub record Ip4 : Type 0 where
  pub a : ℕ
  pub b : ℕ
  pub c : ℕ
  pub d : ℕ

-- func isPrivateIP
unfoldable pub is_private_ip : Option Ip4 → Bool
is_private_ip none = false
is_private_ip (some p) =
    p.a == 10
    || (p.a == 172 && leb 16 p.b && leb p.b 31)
    || (p.a == 192 && p.b == 168)
    || (p.a == 100 && leb 64 p.b && leb p.b 127)

-- func containsAddr
unfoldable pub contains_addr : List Candidate → Bytes → Bool
contains_addr [] addr = false
contains_addr (x ∷ cands) addr = if bytes_eq x.addr addr then true else contains_addr cands addr

abbrev pub score_lt : Candidate → Candidate → Bool
score_lt x y = ltb x.score y.score

-- func stableSortCandidates
unfoldable pub stable_sort_candidates : List Candidate → List Candidate
stable_sort_candidates cs = stable_sort score_lt cs

unfoldable pub nat_mode : Bytes → Bytes → NatMode
nat_mode m o =
    if is_empty m || is_empty o
    then mode_unknown
    else if bytes_eq m o
    then mode_shared_nat
    else mode_different_sites

abbrev pub host_score : NatMode → ℕ
host_score mode_shared_nat = 0
host_score mode_unknown = 0
host_score mode_different_sites = 20

abbrev pub srflx_score : NatMode → ℕ
srflx_score mode = 10

abbrev pub is_srflx : Candidate → Bool
is_srflx x = bytes_eq x.cand_type cand_srflx

abbrev pub score_candidate : NatMode → Candidate → Candidate
score_candidate mode x = record x {
  score = if is_srflx x then srflx_score mode else host_score mode;
}

module _ (split_host : Bytes → Option Bytes) (to4 : Bytes → Option Ip4) where
  -- func hostOnly
  unfoldable pub host_only : Bytes → Bytes
  host_only host_port = elim (split_host host_port) [ none ↦ host_port | some h ↦ h ]

  -- func srflxIP
  unfoldable pub srflx_ip : List Candidate → Bytes
  unfolding host_only
  srflx_ip [] = []
  srflx_ip (x ∷ cands) = if is_srflx x then host_only x.addr else srflx_ip cands

  -- func sameNAT, whose second result is whether the first is mode_shared_nat
  unfoldable pub same_nat : List Candidate → List Candidate → NatMode
  unfolding nat_mode srflx_ip
  same_nat mine theirs = nat_mode (srflx_ip mine) (srflx_ip theirs)

  -- func isPrivateCandidate; `to4` is net.ParseIP and then To4
  unfoldable pub is_private_candidate : Candidate → Bool
  unfolding is_private_ip host_only
  is_private_candidate x = is_private_ip (to4 (host_only x.addr))

  -- the candidates that the loop of OrderEndpoints drops
  abbrev pub is_dropped : Candidate → Bool
  is_dropped x = bytes_eq x.cand_type cand_host && is_private_candidate x

  unfoldable pub kept_candidates : NatMode → List Candidate → List Candidate
  kept_candidates mode_different_sites theirs = select (λ x. not (is_dropped x)) theirs
  kept_candidates mode_shared_nat theirs = theirs
  kept_candidates mode_unknown theirs = theirs

  -- func OrderEndpoints
  unfoldable pub order_endpoints : List Candidate → List Candidate → List Candidate
  unfolding kept_candidates stable_sort_candidates same_nat
  order_endpoints mine theirs =
      let mode = same_nat mine theirs in
      stable_sort_candidates (map (score_candidate mode) (kept_candidates mode theirs))
