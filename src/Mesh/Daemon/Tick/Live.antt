-- ===== src/Mesh/Daemon/Tick/Live.antt =====
-- What the first Apply of a tick is told.
use rout_wire.Base.{
  ℕ, suc, ◌+◌, ◌^◌, ◌<◌, ◌⊎◌, ◌≡◌, refl, sym, ap, ◌∙◌, inl, inr, Bool, true, false, ◌||◌, List, [],
  ◌∷◌, Option, none, if◌then◌else◌, arith, any, Bool-cases,
}
use rout_wire.Base.Bytes.{Bytes, bytes_eq}
use rout_wire.Base.Int.{pos}
use rout_wire.Base.Map.{Map, keys}
use rout_wire.Mesh.Deriver.{Derivation}
use rout_wire.Mesh.FakeDevice.{PeerDesire}
use rout_wire.Mesh.LinuxDevice.{has_allowed, Kernel, LinuxDevice, apply_peers}
use rout_wire.Mesh.LinuxDevice.Converged.{
  is_desired, has_peer, ConfigureLaws, apply_peers-converges,
}
use rout_wire.Mesh.Record.{Candidate, Record}
use rout_wire.Mesh.Daemon.World.{World}
use rout_wire.Mesh.Daemon.Node.{Daemon}
use rout_wire.Mesh.Daemon.Plans.{Plan, pick_initial, initial_plan, desires, build_plans}
use rout_wire.Mesh.Daemon.Plans.Built.{owns, build_plans-desired}
use rout_wire.Mesh.Daemon.Tick.{Board, Tools, since, within, mark_fresh, initial_plans}

module _ (w : World) (board : Board w) (x : Derivation) (t : Tools) (dm : Daemon)
    (s : w.State) where
  -- The two parts of a desire that Tick does not choose.
  SamePeer : Plan → Plan → Type 0
  SamePeer p q =
      (q.pub_key ≡ p.pub_key)
      × (q.desire.pub_key ≡ p.desire.pub_key)
      × (q.desire.allowed_ips ≡ p.desire.allowed_ips)
      × (q.fresh_now ≡ p.fresh_now)

  first_candidate-same :
      (p : Plan) (cands : List Candidate)
      → SamePeer p (elim cands [
        | [] ↦ p
        | c ∷ rest ↦ record p { desire = record p.desire { endpoint = t.resolve c.addr } }
      ])
  unfolding SamePeer
  first_candidate-same p [] = (refl, refl, refl, refl)
  first_candidate-same p (c ∷ cands) = (refl, refl, refl, refl)

  pick_initial-same : (p : Plan) → SamePeer p (pick_initial t.resolve p)
  unfolding pick_initial SamePeer
  pick_initial-same p = go p.have_win
    where
      go :
          (b : Bool)
          → SamePeer p (
              if b
              then record p { desire = record p.desire { endpoint = t.resolve p.winner.addr } }
              else elim p.ordered [
                | [] ↦ p
                | c ∷ rest ↦ record p { desire = record p.desire { endpoint = t.resolve c.addr } }
              ])
      go true = (refl, refl, refl, refl)
      go false = first_candidate-same p p.ordered

  initial_plan-same : (p : Plan) → SamePeer p (initial_plan t.resolve p)
  unfolding initial_plan SamePeer
  initial_plan-same p =
      let same = pick_initial-same p in
      elim (Bool-cases (pick_initial t.resolve p).fresh_now) [
        | inl e ↦ rw e (same.0, same.1, same.2, sym e ∙ same.3)
        | inr e ↦ rw e same
      ]

  -- The device has seen a handshake of the key, and it is less than the window ago.
  abbrev pub HasSession : ℕ → Bytes → Type 0
  HasSession window key = (0 < w.handshake key s) × (w.now s < w.handshake key s + window)

  within_cases :
      (window now hs : ℕ)
      → 0 < window
      → window < 2 ^ 63
      → ((within (since now hs) (pos window) ≡ true) × (0 < hs) × (now < hs + window))
        ⊎ ((within (since now hs) (pos window) ≡ false) × ¬ ((0 < hs) × (now < hs + window)))
  within_cases window now hs p b = elim (Bool-cases (within (since now hs) (pos window))) [
    | inl e ↦ inl (e, ground arith, ground arith)
    | inr e ↦ inr (e, λ h. (let seen = h.0 in let late = h.1 in ground arith))
  ]

  -- The address that a plan starts with: that of its last winner, else that of its first candidate.
  abbrev first_of : Option Bytes → List Candidate → Option Bytes
  first_of given [] = given
  first_of given (c ∷ cands) = t.resolve c.addr

  abbrev pub first_address : Plan → Option Bytes
  first_address p =
      if p.have_win then t.resolve p.winner.addr else first_of p.desire.endpoint p.ordered

  pick_initial-first : (p : Plan) → (pick_initial t.resolve p).desire.endpoint ≡ first_address p
  unfolding pick_initial
  pick_initial-first p = elim (Bool-cases p.have_win) [
    | inl e ↦ rw e refl
    | inr e ↦ rw e (ordered_first p.ordered)
  ]
    where
      ordered_first :
          (cands : List Candidate)
          → (elim cands as (λ x. Plan) [
            | [] ↦ p
            | c ∷ rest ↦ record p { desire = record p.desire { endpoint = t.resolve c.addr } }
          ]).desire.endpoint
            ≡ first_of p.desire.endpoint cands
      ordered_first [] = refl
      ordered_first (c ∷ cands) = refl

  -- What the first Apply is told of the endpoint of each plan.
  abbrev pub Tells : ℕ → Plan → Plan → Type 0
  Tells window p q =
      (q.pub_key ≡ p.pub_key)
      × ((HasSession window p.pub_key × (q.desire.endpoint ≡ none))
          ⊎ (¬ HasSession window p.pub_key × (q.desire.endpoint ≡ first_address p)))

  abbrev pub TellsEach : ℕ → List Plan → List Plan → Type 0
  TellsEach window [] [] = Unit
  TellsEach window [] (q ∷ qs) = ⊥
  TellsEach window (p ∷ ps) [] = ⊥
  TellsEach window (p ∷ ps) (q ∷ qs) = Tells window p q × TellsEach window ps qs

  initial_plan-fresh :
      (p : Plan) → p.fresh_now ≡ true → (initial_plan t.resolve p).desire.endpoint ≡ none
  unfolding initial_plan SamePeer
  initial_plan-fresh p e = rw ((pick_initial-same p).3 ∙ e) refl

  initial_plan-idle :
      (p : Plan)
      → p.fresh_now ≡ false
      → (initial_plan t.resolve p).desire.endpoint ≡ first_address p
  unfolding initial_plan SamePeer
  initial_plan-idle p e = rw ((pick_initial-same p).3 ∙ e) (pick_initial-first p)

  -- With a positive stale time that a time.Duration can hold, the first Apply is told no endpoint for a
  -- peer with a session: one whose handshake was seen, less than that time ago. For every other peer it
  -- is told the address of the last winner, or that of the first candidate if there is no winner; with
  -- neither, the endpoint is that of the plan. The peers and their order are those of the plans.
  pub initial_plans-live :
      (n : ℕ) (plans : List Plan)
      → dm.cfg.stale_after ≡ pos (suc n)
      → suc n < 2 ^ 63
      → TellsEach (suc n) plans (initial_plans w board x t dm s plans)
  unfolding initial_plans mark_fresh SamePeer
  initial_plans-live n [] e b = tt
  initial_plans-live n (p ∷ plans) e b =
      let marked = mark_fresh w board x t dm s p in
      let same_key = (initial_plan-same marked).0 in
      let told_of : Tells (suc n) p (initial_plan t.resolve marked) =
        elim (within_cases (suc n) (w.now s) (w.handshake p.pub_key s) (omega arith) b) [
          | inl (live, seen, early) ↦
              (same_key, inl ((seen, early), initial_plan-fresh marked (rw e live)))
          | inr (idle, none_yet) ↦ (same_key, inr (none_yet, initial_plan-idle marked (rw e idle)))
        ] in
      (told_of, initial_plans-live n plans e b)

  allowed_lem : (d e : PeerDesire) → d.allowed_ips ≡ e.allowed_ips → has_allowed d ≡ has_allowed e
  allowed_lem d e same = rw same refl

  initial_plans-desired :
      (key : Bytes) (plans : List Plan)
      → is_desired key (desires (initial_plans w board x t dm s plans))
        ≡ is_desired key (desires plans)
  unfolding initial_plans mark_fresh SamePeer
  initial_plans-desired key [] = refl
  initial_plans-desired key (p ∷ plans) =
      let marked = mark_fresh w board x t dm s p in
      let same = initial_plan-same marked in
      ground (
        arith,
        initial_plans-desired key plans,
        ap (λ k. bytes_eq k key) same.1,
        (allowed_lem (initial_plan t.resolve marked).desire p.desire same.2),
      )

  -- What the first Apply of a tick is told, given the roster's view.
  abbrev pub told : List Candidate → Map Record → List PeerDesire
  told mine peers = desires (
      initial_plans w board x t dm s
        (build_plans t.split_host t.to4 w x t.ip_string t.parse_cidr dm mine s peers))

  abbrev pub owner : Bytes → Bytes → Bool
  owner key = owns t.split_host t.to4 w x t.ip_string t.parse_cidr dm key

  -- If the kernel's link takes the first Apply of a tick, then its peers are exactly the keys of the
  -- names in the roster and of the spokes that have a key and an address.
  pub first_apply-peers :
      (kn : Kernel) (ld : LinuxDevice) (laws : ConfigureLaws kn ld.iface) (u : kn.State)
      (mine : List Candidate) (peers : Map Record) (key : Bytes)
      → (apply_peers kn ld (told mine peers) u).0 ≡ none
      → has_peer key (laws.peers_of (apply_peers kn ld (told mine peers) u).1)
        ≡ (any (owner key) (keys peers) || any (owner key) (keys dm.spokes))
  first_apply-peers kn ld laws u mine peers key e =
      apply_peers-converges kn ld laws (told mine peers) key u e
      ∙ initial_plans-desired key
          (build_plans t.split_host t.to4 w x t.ip_string t.parse_cidr dm mine s peers)
      ∙ build_plans-desired t.split_host t.to4 w x t.ip_string t.parse_cidr dm mine s peers key
