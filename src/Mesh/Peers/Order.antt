-- ===== src/Mesh/Peers/Order.antt =====
-- The order of dialling.
use rout_wire.Base.{◌≡◌, refl, ap, ◌∙◌, not, List, [], ◌∷◌, ◌++◌, map, Option, arith, select}
use rout_wire.Base.Bytes.{Bytes}
use rout_wire.Base.Sort.{stable_sort, stable_sort-map, stable_sort-halves}
use rout_wire.Mesh.Record.{Candidate}
use rout_wire.Mesh.Peers.{
  NatMode, mode_unknown, mode_shared_nat, mode_different_sites, Ip4, score_lt, is_srflx,
  score_candidate, same_nat, stable_sort_candidates, is_dropped, kept_candidates, order_endpoints,
}

module _ (split_host : Bytes → Option Bytes) (to4 : Bytes → Option Ip4) where
  -- What is dialled in each mode, in this order: for different sites the reflexive candidates and
  -- then those others that are not private host candidates, and else the others and then the
  -- reflexive ones, always in the order in which the peer published them.
  abbrev pub dialled : NatMode → List Candidate → List Candidate
  dialled mode_different_sites theirs =
      let good = select (λ x. not (is_dropped split_host to4 x)) theirs in
      select is_srflx good ++ select (λ x. not (is_srflx x)) good
  dialled mode_shared_nat theirs = select (λ x. not (is_srflx x)) theirs ++ select is_srflx theirs
  dialled mode_unknown theirs = select (λ x. not (is_srflx x)) theirs ++ select is_srflx theirs

  select-not-not :
      (cands : List Candidate) → select (λ x. not (not (is_srflx x))) cands ≡ select is_srflx cands
  select-not-not [] = refl
  select-not-not (x ∷ cands) = ground (arith, select-not-not cands)

  scored-halves :
      (mode : NatMode) (theirs : List Candidate)
      → stable_sort score_lt
          (map (score_candidate mode) (kept_candidates split_host to4 mode theirs))
        ≡ map (score_candidate mode) (dialled mode theirs)
  unfolding kept_candidates
  scored-halves mode_different_sites theirs =
      stable_sort-map (score_candidate mode_different_sites) score_lt _
      ∙ ap (map (score_candidate mode_different_sites))
          (stable_sort-halves is_srflx _ (λ a b. ground arith) _)
  scored-halves mode_shared_nat theirs =
      stable_sort-map (score_candidate mode_shared_nat) score_lt _
      ∙ ap (map (score_candidate mode_shared_nat)) (
          stable_sort-halves (λ x. not (is_srflx x)) _ (λ a b. ground arith) theirs
          ∙ ap (λ xs. select (λ x. not (is_srflx x)) theirs ++ xs) (select-not-not theirs))
  scored-halves mode_unknown theirs =
      stable_sort-map (score_candidate mode_unknown) score_lt _
      ∙ ap (map (score_candidate mode_unknown)) (
          stable_sort-halves (λ x. not (is_srflx x)) _ (λ a b. ground arith) theirs
          ∙ ap (λ xs. select (λ x. not (is_srflx x)) theirs ++ xs) (select-not-not theirs))

  -- OrderEndpoints returns the candidates to dial in the mode that sameNAT finds, each with its
  -- score: for different sites the reflexive ones and then the others without the private host
  -- candidates, else the others and then the reflexive ones, both in the published order.
  pub order_endpoints-dialled :
      (mine theirs : List Candidate)
      → order_endpoints split_host to4 mine theirs
        ≡ map
            (score_candidate (same_nat split_host to4 mine theirs))
            (dialled (same_nat split_host to4 mine theirs) theirs)
  unfolding order_endpoints stable_sort_candidates
  order_endpoints-dialled mine theirs = scored-halves (same_nat split_host to4 mine theirs) theirs
