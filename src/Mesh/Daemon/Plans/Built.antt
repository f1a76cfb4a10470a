-- ===== src/Mesh/Daemon/Plans/Built.antt =====
-- Which peers buildPlans plans for.
use rout_wire.Base.{
  ℕ, ◌≡◌, refl, sym, ap, ◌∙◌, inl, inr, Bool, true, false, not, ◌&&◌, ◌||◌, List, [], ◌∷◌, ◌++◌,
  Option, none, some, arith, Bool-cases, any, is_some,
}
use rout_wire.Base.Bytes.{Bytes, bytes_eq, bytes_eq_iff, bytes_eq_refl, bytes_lt}
use rout_wire.Base.Map.{Map, lookup, has_key, keys}
use rout_wire.Base.Sort.{place, stable_sort}
use rout_wire.Mesh.Deriver.{Derivation}
use rout_wire.Mesh.LinuxDevice.Converged.{is_desired}
use rout_wire.Mesh.Peers.{Ip4}
use rout_wire.Mesh.Record.{Candidate, Record}
use rout_wire.Mesh.Roster.{names}
use rout_wire.Mesh.Router.Masquerade.{Subnet}
use rout_wire.Mesh.Daemon.World.{World}
use rout_wire.Mesh.Daemon.Node.{Daemon}
use rout_wire.Mesh.Daemon.Cidrs.{parse_cidrs, texts}
use rout_wire.Mesh.Daemon.Plans.{
  Plan, desires, keepalive_time, key_and_ip, planned, plan_of, roster_plan, roster_plans,
  spoke_plan, spoke_plans, build_plans,
}
use rout_wire.Mesh.Daemon.Spokes.Evicted.{named, named-keys}

any-place :
    (p : Bytes → Bool) (x : Bytes) (xs : List Bytes)
    → any p (place bytes_lt x xs) ≡ (p x || any p xs)
unfolding place
any-place p x [] = refl
any-place p x (y ∷ ys) = elim (Bool-cases (bytes_lt y x)) [
  | inl e ↦ simp e (ground (arith, any-place p x ys))
  | inr e ↦ simp e (ground arith)
]

any-stable_sort : (p : Bytes → Bool) (xs : List Bytes) → any p (stable_sort bytes_lt xs) ≡ any p xs
unfolding stable_sort
any-stable_sort p [] = refl
any-stable_sort p (x ∷ xs) =
    ground (arith, any-place p x (stable_sort bytes_lt xs), any-stable_sort p xs)

-- What holds of a name in a list holds of some name of the list.
any_of_named :
    (f : Bytes → Bool) (n : Bytes) (ns : List Bytes)
    → named n ns ≡ true
    → f n ≡ true
    → any f ns ≡ true
any_of_named f n [] e h = cc
any_of_named f n (m ∷ ns) e h = elim (Bool-cases (bytes_eq m n)) [
  | inl same ↦ ground (arith, ap f ((bytes_eq_iff m n).0 same))
  | inr other ↦ ground (arith, any_of_named f n ns (ground arith) h)
]

-- The names of a sublist of a map's keys are in the map.
any-listed :
    {V : Type 0} (f : Bytes → Bool) (m : Map V) (ns : List Bytes)
    → ((n : Bytes) → named n ns ≡ true → has_key n m ≡ true)
    → any (λ n. has_key n m && f n) ns ≡ any f ns
any-listed f m [] h = refl
any-listed f m (n ∷ ns) h =
    ground (arith, h n (rw (bytes_eq_refl n) refl), any-listed f m ns (λ k e. h k (ground arith)))

-- Some name has what is asked for in the one list, or, if it is not in the other, in the second.
any-beside :
    {V : Type 0} (f : Bytes → Bool) (m : Map V) (ns : List Bytes)
    → (any f (keys m) || any (λ n. not (has_key n m) && f n) ns) ≡ (any f (keys m) || any f ns)
any-beside f m [] = refl
any-beside f m (n ∷ ns) = elim (Bool-cases (has_key n m && f n)) [
  | inl e ↦ ground (
    arith,
    any-beside f m ns,
    any_of_named f n (keys m) (named-keys n m ∙ ground arith) (ground arith),
  )
  | inr e ↦ ground (arith, any-beside f m ns)
]

is_desired-append :
    (key : Bytes) (ps qs : List Plan)
    → is_desired key (desires (ps ++ qs))
      ≡ (is_desired key (desires ps) || is_desired key (desires qs))
is_desired-append key [] qs = refl
is_desired-append key (p ∷ ps) qs = ground (arith, is_desired-append key ps qs)

-- A key that a name has.
abbrev pub key_is : Bytes → Option (Bytes × ℕ) → Bool
key_is key none = false
key_is key (some (k, ip)) = bytes_eq k key

module _ (split_host : Bytes → Option Bytes) (to4 : Bytes → Option Ip4) (w : World) (x : Derivation)
    (ip_string : ℕ → Bytes) (parse_cidr : Bytes → Option Subnet) (dm : Daemon) where
  -- Does a name have a key and an address, and is the key this one?
  abbrev pub owns : Bytes → Bytes → Bool
  owns key name = key_is key (key_and_ip split_host to4 w x ip_string parse_cidr dm name)

  planned-desired :
      (key : Bytes) (make : Bytes × ℕ → Plan) (v : Option (Bytes × ℕ)) (rest : List Plan)
      → ((k : Bytes) (ip : ℕ) → is_desired key (desires (make (k, ip) ∷ [])) ≡ bytes_eq k key)
      → is_desired key (desires (planned split_host to4 w x ip_string parse_cidr make v rest))
        ≡ (key_is key v || is_desired key (desires rest))
  unfolding planned
  planned-desired key make none rest h = refl
  planned-desired key make (some (k, ip)) rest h = ground (arith, h k ip)

  allowed_lem :
      (key k name : Bytes) (xs : List Bytes) (y : Bytes) (n : ℕ)
      → is_desired key (
          record {
            name = name;
            pub_key = k;
            endpoint = none;
            allowed_ips = xs ++ (y ∷ []);
            keepalive = n;
          }
          ∷ [])
        ≡ bytes_eq k key
  allowed_lem key k name [] y n = ground arith
  allowed_lem key k name (a ∷ xs) y n = ground arith

  roster_plan-desired :
      (mine : List Candidate) (s : w.State) (name : Bytes) (rec : Record) (key k : Bytes) (ip : ℕ)
      → is_desired key (
          desires
            (roster_plan split_host to4 w x ip_string parse_cidr dm mine s name rec (k, ip) ∷ []))
        ≡ bytes_eq k key
  unfolding roster_plan
  roster_plan-desired mine s name rec key k ip =
      allowed_lem key k name (texts parse_cidr (parse_cidrs parse_cidr rec.adv)) _ keepalive_time

  plan_of-desired :
      (mine : List Candidate) (s : w.State) (name key : Bytes) (rec : Option Record)
      (rest : List Plan)
      → is_desired key
          (desires (plan_of split_host to4 w x ip_string parse_cidr dm mine s name rec rest))
        ≡ ((is_some rec && owns key name) || is_desired key (desires rest))
  unfolding plan_of
  plan_of-desired mine s name key none rest = refl
  plan_of-desired mine s name key (some rec) rest =
      planned-desired key _ (key_and_ip split_host to4 w x ip_string parse_cidr dm name) rest
        (roster_plan-desired mine s name rec key)

  roster_plans-desired :
      (mine : List Candidate) (s : w.State) (peers : Map Record) (key : Bytes) (ns : List Bytes)
      → is_desired key
          (desires (roster_plans split_host to4 w x ip_string parse_cidr dm mine s peers ns))
        ≡ any (λ n. has_key n peers && owns key n) ns
  unfolding roster_plans
  roster_plans-desired mine s peers key [] = refl
  roster_plans-desired mine s peers key (n ∷ ns) =
      plan_of-desired mine s n key (lookup n peers) _
      ∙ ap (λ b. (has_key n peers && owns key n) || b) (roster_plans-desired mine s peers key ns)

  spoke_plans-desired :
      (peers : Map Record) (key : Bytes) (ns : List Bytes)
      → is_desired key (desires (spoke_plans split_host to4 w x ip_string parse_cidr dm peers ns))
        ≡ any (λ n. not (has_key n peers) && owns key n) ns
  unfolding spoke_plans spoke_plan
  spoke_plans-desired peers key [] = refl
  spoke_plans-desired peers key (n ∷ ns) = elim (Bool-cases (has_key n peers)) [
    | inl e ↦ rw e (spoke_plans-desired peers key ns)
    | inr e ↦ rw e (
        planned-desired key _ (key_and_ip split_host to4 w x ip_string parse_cidr dm n) _
          (λ k ip. ground arith)
        ∙ ap (λ b. owns key n || b) (spoke_plans-desired peers key ns))
  ]

  -- A key is the key of a plan, with allowed addresses, exactly if it belongs to a name of the roster
  -- or to a spoke.
  pub build_plans-desired :
      (mine : List Candidate) (s : w.State) (peers : Map Record) (key : Bytes)
      → is_desired key
          (desires (build_plans split_host to4 w x ip_string parse_cidr dm mine s peers))
        ≡ (any (owns key) (keys peers) || any (owns key) (keys dm.spokes))
  unfolding build_plans names
  build_plans-desired mine s peers key =
      is_desired-append key
        (roster_plans split_host to4 w x ip_string parse_cidr dm mine s peers (names peers))
        (spoke_plans split_host to4 w x ip_string parse_cidr dm peers (keys dm.spokes))
      ∙ rw
          (
            roster_plans-desired mine s peers key (names peers),
            spoke_plans-desired peers key (keys dm.spokes),
            any-stable_sort (λ n. has_key n peers && owns key n) (keys peers),
            any-listed (owns key) peers (keys peers) (λ n e. sym (named-keys n peers) ∙ e),
          )
          (any-beside (owns key) peers (keys dm.spokes))
