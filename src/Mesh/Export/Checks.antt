-- ===== src/Mesh/Export/Checks.antt =====
-- An exported configuration is the counterpart of the hub's own plan for the device.
use rout_wire.Base.{◌≡◌, refl, ap, ◌∙◌, Option, none, some, Bool, ℕ}
use rout_wire.Base.Bytes.{Bytes}
use rout_wire.Mesh.Deriver.{
  Derivation, Deriver, Checked, valid, bad_name, bad_cidr, normalize_name, node_wg_key,
  node_wg_pub_key, overlay_ip,
}
use rout_wire.Mesh.Peers.{Ip4}
use rout_wire.Mesh.Router.Masquerade.{Subnet}
use rout_wire.Mesh.Daemon.World.{World}
use rout_wire.Mesh.Daemon.Node.{Daemon}
use rout_wire.Mesh.Daemon.Plans.{key_and_ip}
use rout_wire.Mesh.Export.{ExportConfInput, Conf, Printer, conf_of, derived}

conf_or : Conf → Option Conf → Conf
conf_or c none = c
conf_or c (some d) = d

pub_key_lem :
    (x : Derivation) (d : Deriver) (name key : Bytes)
    → node_wg_key x d name ≡ valid key
    → node_wg_pub_key x d name ≡ valid (x.wg_public key)
unfolding node_wg_pub_key
pub_key_lem x d name key e = rw e refl

module _ (split_host : Bytes → Option Bytes) (to4 : Bytes → Option Ip4) (w : World) (x : Derivation)
    (ip_string : ℕ → Bytes) (parse_cidr : Bytes → Option Subnet) (pr : Printer)
    (splits : Bytes → Bool) where
  planned_lem :
      (dm : Daemon) (name key : Bytes) (ip : ℕ)
      → node_wg_key x dm.deriver name ≡ valid key
      → overlay_ip x dm.deriver name dm.cfg.cidr ≡ valid ip
      → key_and_ip split_host to4 w x ip_string parse_cidr dm name ≡ some (x.wg_public key, ip)
  unfolding key_and_ip
  planned_lem dm name key ip e f = rw (pub_key_lem x dm.deriver name key e, f) refl

  derived-planned :
      (inp : ExportConfInput) (dm : Daemon) (net : Bytes) (c : Conf) (key : Checked Bytes)
      (ip : Checked ℕ) (hub : Checked Bytes)
      → node_wg_key x dm.deriver (normalize_name inp.remote_name) ≡ key
      → overlay_ip x dm.deriver (normalize_name inp.remote_name) dm.cfg.cidr ≡ ip
      → node_wg_key x dm.deriver (normalize_name inp.local_name) ≡ hub
      → derived x pr parse_cidr splits inp net key ip hub ≡ some c
      → (key_and_ip split_host to4 w x ip_string parse_cidr dm (normalize_name inp.remote_name)
          ≡ some (x.wg_public c.private_key, c.address))
        × (node_wg_pub_key x dm.deriver (normalize_name inp.local_name) ≡ valid c.peer_key)
  unfolding derived conf_or
  derived-planned inp dm net c (valid key) (valid ip) (valid hub) e f g h =
      let conf = ap (conf_or c) h in
      (
        planned_lem dm (normalize_name inp.remote_name) key ip e f
            ∙ ap (λ (d : Conf). some (x.wg_public d.private_key, d.address)) conf,
        pub_key_lem x dm.deriver (normalize_name inp.local_name) hub g
            ∙ ap (λ (d : Conf). valid d.peer_key) conf,
      )
  derived-planned inp dm net c (valid key) (valid ip) (bad_name b) e f g h = cc
  derived-planned inp dm net c (valid key) (valid ip) bad_cidr e f g h = cc
  derived-planned inp dm net c (valid key) (bad_name b) hub e f g h = cc
  derived-planned inp dm net c (valid key) bad_cidr hub e f g h = cc
  derived-planned inp dm net c (bad_name b) ip hub e f g h = cc
  derived-planned inp dm net c bad_cidr ip hub e f g h = cc

  -- The key that the hub plans for is the public key of the exported private key, at the exported
  -- address, and the exported peer key is the hub's public key.
  pub conf_of-planned :
      (inp : ExportConfInput) (dm : Daemon) (net : Bytes) (c : Conf)
      → conf_of x pr parse_cidr splits inp dm.deriver dm.cfg.cidr net ≡ some c
      → (key_and_ip split_host to4 w x ip_string parse_cidr dm (normalize_name inp.remote_name)
          ≡ some (x.wg_public c.private_key, c.address))
        × (node_wg_pub_key x dm.deriver (normalize_name inp.local_name) ≡ valid c.peer_key)
  unfolding conf_of
  conf_of-planned inp dm net c e =
      derived-planned inp dm net c (node_wg_key x dm.deriver (normalize_name inp.remote_name))
        (overlay_ip x dm.deriver (normalize_name inp.remote_name) dm.cfg.cidr)
        (node_wg_key x dm.deriver (normalize_name inp.local_name)) refl refl refl e
