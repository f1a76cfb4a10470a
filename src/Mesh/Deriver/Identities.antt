-- ===== src/Mesh/Deriver/Identities.antt =====
-- The identities of the nodes, as others derive them.
use rout_wire.Base.{◌≡◌, ◌++◌, Option, none, some, ap}
use rout_wire.Base.Bytes.{Bytes, bytes}
use rout_wire.Engine.Envelope.{Identity, new_identity_from_seed}
use rout_wire.Mesh.Deriver.{
  Derivation, Deriver, valid, NameError, node_identity, public_key_of, checked, or_zero,
  validate_name, normalize_name, derive,
}

module _ (x : Derivation) where
  checked-valid : (e : Option NameError) (a me : Identity) → checked x e a ≡ valid me → a ≡ me
  unfolding checked
  checked-valid none a me h = cc
  checked-valid (some e) a me h = cc

  pub public_key_of-node_identity :
      (d : Deriver) (name : Bytes) (me : Identity)
      → node_identity x d name ≡ valid me
      → public_key_of x d name ≡ me.public_key
  unfolding public_key_of or_zero
  public_key_of-node_identity d name me h = ap (or_zero x) h

  pub node_identity-IsMade :
      (d : Deriver) (name : Bytes) (me : Identity)
      → node_identity x d name ≡ valid me
      → new_identity_from_seed x.crypto (derive x d (bytes "id/" ++ normalize_name name) 32) ≡ me
  unfolding node_identity
  node_identity-IsMade d name me e = checked-valid (validate_name (normalize_name name)) _ me e
