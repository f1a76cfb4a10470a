-- ===== src/Mesh/LinuxDevice/Converged.antt =====
-- Apply leaves exactly the peers that are wanted.
use rout_wire.Base.{
  ◌≡◌, refl, ap, ◌∙◌, inl, inr, Bool, true, false, not, ◌&&◌, ◌||◌, List, [], ◌∷◌, ◌++◌, Option,
  none, some, arith, if◌then◌else◌, Bool-cases, any,
}
use rout_wire.Base.Bytes.{Bytes, bytes_eq, bytes_eq_iff}
use rout_wire.Base.Map.{Map, lookup, insert, has_key, keys, lookup-insert}
use rout_wire.Mesh.FakeDevice.{PeerDesire}
use rout_wire.Mesh.LinuxDevice.{
  WgPeer, PeerConfig, WgConfig, Kernel, LinuxDevice, device_gone, configure_failed, failed_as,
  current_of, want_of, has_allowed, wanted_configs, removals, peers_config, configured, applied,
  apply_peers,
}

abbrev pub has_peer : Bytes → List WgPeer → Bool
has_peer key peers = any (λ (p : WgPeer). bytes_eq p.public_key key) peers

-- Is a key a peer after a list of configurations, if it was one before? Each names a peer, to be
-- removed, or to be added or updated.
abbrev pub present : Bytes → List PeerConfig → Bool → Bool
present key [] before = before
present key (c ∷ configs) before =
    present key configs (if bytes_eq c.public_key key then not c.remove else before)

-- Is a key the key of a desired peer that has allowed addresses?
abbrev pub is_desired : Bytes → List PeerDesire → Bool
is_desired key peers = any (λ (p : PeerDesire). bytes_eq p.pub_key key && has_allowed p) peers

-- What ConfigureDevice promises of an interface where it succeeds.
pub record ConfigureLaws (kn : Kernel) (iface : Bytes) : Type 0 where
  pub peers_of : kn.State → List WgPeer
  pub device_lists :
      (s : kn.State) (peers : List WgPeer) → kn.device iface s ≡ some peers → peers_of s ≡ peers
  pub configure_peers :
      (configs : List PeerConfig) (key : Bytes) (s : kn.State)
      → (kn.configure iface (peers_config configs) s).0 ≡ true
      → has_peer key (peers_of (kn.configure iface (peers_config configs) s).1)
        ≡ present key configs (has_peer key (peers_of s))

has_key-current_of :
    (key : Bytes) (peers : List WgPeer) (m : Map Bool)
    → has_key key (current_of peers m) ≡ (has_peer key peers || has_key key m)
unfolding current_of
has_key-current_of key [] m = refl
has_key-current_of key (p ∷ peers) m = ground (
  arith,
  has_key-current_of key peers (insert p.public_key true m),
  lookup-insert p.public_key key true m,
)

has_key-want_of :
    (key : Bytes) (peers : List PeerDesire) (m : Map Bool)
    → has_key key (want_of peers m) ≡ (is_desired key peers || has_key key m)
unfolding want_of
has_key-want_of key [] m = refl
has_key-want_of key (p ∷ peers) m = elim (Bool-cases (has_allowed p)) [
  | inl e ↦ ground (
    arith,
    has_key-want_of key peers (insert p.pub_key true m),
    lookup-insert p.pub_key key true m,
  )
  | inr e ↦ ground (arith, has_key-want_of key peers m)
]

present-append :
    (key : Bytes) (configs others : List PeerConfig) (before : Bool)
    → present key (configs ++ others) before ≡ present key others (present key configs before)
present-append key [] others before = refl
present-append key (c ∷ configs) others before = present-append key configs others _

present-wanted_configs :
    (key : Bytes) (peers : List PeerDesire) (before : Bool)
    → present key (wanted_configs peers) before ≡ (is_desired key peers || before)
unfolding wanted_configs
present-wanted_configs key [] before = refl
present-wanted_configs key (p ∷ peers) before = elim (Bool-cases (has_allowed p)) [
  | inl e ↦
      ground
        (arith, present-wanted_configs key peers (if bytes_eq p.pub_key key then true else before))
  | inr e ↦ ground (arith, present-wanted_configs key peers before)
]

has_name : Bytes → List Bytes → Bool
has_name key names = any (λ n. bytes_eq n key) names

present-removals :
    (key : Bytes) (want : Map Bool) (names : List Bytes) (before : Bool)
    → present key (removals want names) before
      ≡ (before && (has_key key want || not (has_name key names)))
unfolding removals has_name
present-removals key want [] before = ground arith
present-removals key want (n ∷ names) before = elim (Bool-cases (has_key n want)) [
  | inl e ↦ rw e (ground (arith, present-removals key want names before, bytes_eq_iff n key))
  | inr e ↦ rw e (
      ground (
        arith,
        present-removals key want names (if bytes_eq n key then false else before),
        bytes_eq_iff n key,
      ))
]

has_name-keys : (key : Bytes) (m : Map Bool) → has_name key (keys m) ≡ has_key key m
unfolding lookup has_name
has_name-keys key [] = refl
has_name-keys key ((j, v) ∷ m) = ground (arith, has_name-keys key m)

kept_lem : (w b : Bool) → ((w || b) && ((w || false) || not (b || false))) ≡ w
kept_lem true b = ground arith
kept_lem false b = ground arith

module _ (kn : Kernel) (ld : LinuxDevice) (laws : ConfigureLaws kn ld.iface)
    (peers : List PeerDesire) where
  open kn use {State}
  open laws use {peers_of}

  configured-peers :
      (configs : List PeerConfig) (key : Bytes) (s : State)
      → (configured kn ld.iface configs s).0 ≡ none
      → has_peer key (peers_of (configured kn ld.iface configs s).1)
        ≡ present key configs (has_peer key (peers_of s))
  unfolding configured
  configured-peers [] key s e = refl
  configured-peers (c ∷ configs) key s e = laws.configure_peers (c ∷ configs) key s (ok _ e)
    where
      ok : (b : Bool) → failed_as b configure_failed ≡ none → b ≡ true
      ok true f = refl
      ok false f = cc

  applied-peers :
      (now : Option (List WgPeer)) (key : Bytes) (s : State)
      → kn.device ld.iface s ≡ now
      → (applied kn ld peers now s).0 ≡ none
      → has_peer key (peers_of (applied kn ld peers now s).1) ≡ is_desired key peers
  unfolding applied lookup
  applied-peers none key s e f = cc
  applied-peers (some now) key s e f =
      let want = want_of peers [] in
      let current = current_of now [] in
      let before = has_peer key (peers_of s) in
      let now_same : before ≡ has_peer key now = ap (has_peer key) (laws.device_lists s now e) in
      configured-peers (wanted_configs peers ++ removals want (keys current)) key s f
      ∙ present-append key (wanted_configs peers) (removals want (keys current)) before
      ∙ present-removals key want (keys current) _
      ∙ rw
          (
            present-wanted_configs key peers before,
            has_name-keys key current,
            has_key-current_of key now [],
            has_key-want_of key peers [],
            now_same,
          )
          (kept_lem (is_desired key peers) (has_peer key now))

  -- If Apply returns no error, the peers of the interface are exactly the desired ones that have
  -- allowed addresses.
  pub apply_peers-converges :
      (key : Bytes) (s : State)
      → (apply_peers kn ld peers s).0 ≡ none
      → has_peer key (peers_of (apply_peers kn ld peers s).1) ≡ is_desired key peers
  unfolding apply_peers
  apply_peers-converges key s f = applied-peers (kn.device ld.iface s) key s refl f

  -- Where the interface is gone, Apply says so and does nothing.
  pub apply_peers-gone :
      (s : State) → kn.device ld.iface s ≡ none → apply_peers kn ld peers s ≡ (some device_gone, s)
  unfolding apply_peers applied
  apply_peers-gone s e = ap (λ now. applied kn ld peers now s) e

  configured-works :
      (configs : List PeerConfig) (s : State)
      → ((c : WgConfig) → (kn.configure ld.iface c s).0 ≡ true)
      → (configured kn ld.iface configs s).0 ≡ none
  unfolding configured
  configured-works [] s works = refl
  configured-works (c ∷ configs) s works =
      ap (λ ok. failed_as ok configure_failed) (works (peers_config (c ∷ configs)))

  -- Where the interface is there and can be configured, Apply returns no error.
  pub apply_peers-works :
      (now : List WgPeer) (s : State)
      → kn.device ld.iface s ≡ some now
      → ((c : WgConfig) → (kn.configure ld.iface c s).0 ≡ true)
      → (apply_peers kn ld peers s).0 ≡ none
  unfolding apply_peers applied
  apply_peers-works now s e works =
      ap (λ found. (applied kn ld peers found s).0) e ∙ configured-works _ s works
