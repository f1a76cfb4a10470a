-- ===== src/Mesh/Daemon/Spokes/Evicted.antt =====
-- Which spokes evictStaleSpokes drops.
use rout_wire.Base.{ℕ, ◌+◌, ◌≤◌, ◌<◌, ◌≡◌, refl, Bool, List, [], ◌∷◌, arith, any}
use rout_wire.Base.Bytes.{Bytes, bytes_eq}
use rout_wire.Base.Map.{Map, lookup, has_key, keys}
use rout_wire.Mesh.Deriver.{Derivation, Checked, valid, bad_name, bad_cidr, node_wg_pub_key}
use rout_wire.Mesh.Daemon.World.{World}
use rout_wire.Mesh.Daemon.Node.{Daemon}

abbrev pub named : Bytes → List Bytes → Bool
named k names = any (λ n. bytes_eq n k) names

pub named-keys {ℓ} : {V : Type ℓ} (k : Bytes) (m : Map V) → named k (keys m) ≡ has_key k m
unfolding lookup
named-keys k [] = refl
named-keys k ((j, v) ∷ m) = ground (arith, named-keys k m)

module _ (w : World) (x : Derivation) (dm : Daemon) (s : w.State) where
  -- The device has seen a handshake of the key, and it is that number of nanoseconds ago.
  abbrev pub QuietKey : ℕ → Checked Bytes → Type 0
  QuietKey ago (valid key) = (0 < w.handshake key s) × (w.handshake key s + ago ≤ w.now s)
  QuietKey ago (bad_name e) = ⊥
  QuietKey ago bad_cidr = ⊥

  -- A spoke with a key that has been quiet for so long.
  abbrev pub IsQuietFor : ℕ → Bytes → Type 0
  IsQuietFor ago name = QuietKey ago (node_wg_pub_key x dm.deriver name)
