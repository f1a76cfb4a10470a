-- ===== src/Tests/CmdTests.antt =====
-- Runs of the theorems on the command line and the export.
use rout_wire.Base.{ℕ, ◌≡◌, refl, ◌⊎◌, Bool, true, false, List, [], ◌∷◌, Option, none, some, arith}
use rout_wire.Base.Bytes.{Bytes, bytes}
use rout_wire.Base.Int.{pos}
use rout_wire.Mesh.Deriver.{Checked, valid, node_wg_pub_key, overlay_ip, normalize_name}
use rout_wire.Mesh.Daemon.Plans.{key_and_ip}
use rout_wire.Mesh.Export.{ExportConfInput, Conf, Printer, conf_of}
use rout_wire.Mesh.Export.Checks.{conf_of-planned}
use rout_wire.Cmd.Args.{expand_subcommand}
use rout_wire.Cmd.Args.Moved.{NoSubcommand, Moves, expand_subcommand-Moves}
use rout_wire.Tests.Toy.{toy_derivation, toy_deriver, toy_cidr, thirty_two}
use rout_wire.Tests.DaemonTests.{toy_world, toy_daemon, toy_parse}

-- meshd -config file.yaml peek
abbrev peek_args : List Bytes
peek_args = bytes "-config" ∷ bytes "file.yaml" ∷ bytes "peek" ∷ []

expand_subcommand-Moves_example :
    (NoSubcommand none peek_args × (expand_subcommand peek_args ≡ peek_args))
    ⊎ Moves none [] peek_args (expand_subcommand peek_args)
expand_subcommand-Moves_example = expand_subcommand-Moves peek_args

abbrev phone_input : ExportConfInput
phone_input = record {
  deriver = some toy_deriver;
  cidr = some (toy_cidr, bytes "10.13.0.0/16");
  local_name = bytes "hub";
  remote_name = bytes "phone";
  endpoint = bytes "h:1";
  extra_routes = [];
  mtu = pos 0;
}

abbrev plain_printer : Printer
plain_printer = record {
  quote = λ t. t;
  key_string = λ k. k;
  ip_string = λ ip. bytes "ip";
  time_text = bytes "now";
}

abbrev phone_conf : Conf
phone_conf = record {
  private_key = thirty_two;
  address = 168624128;
  conf_mtu = 1420;
  peer_key = thirty_two;
  allowed = bytes "10.13.0.0/16" ∷ [];
}

phone_conf_lem :
    conf_of toy_derivation plain_printer toy_parse
      (λ e. true)
      phone_input
      toy_deriver
      toy_cidr
      (bytes "10.13.0.0/16")
    ≡ some phone_conf
unfolding conf_of rout_wire.Mesh.Deriver.node_wg_key rout_wire.Mesh.Deriver.validate_name
    normalize_name rout_wire.Base.Text.trim_space overlay_ip rout_wire.Mesh.Deriver.be32
    rout_wire.Mesh.Daemon.Cidrs.parse_cidrs
phone_conf_lem = refl

conf_of-planned_example :
    (key_and_ip
        (λ t. none)
        (λ t. none)
        toy_world
        toy_derivation
        (λ ip. bytes "ip")
        toy_parse
        toy_daemon
        (normalize_name (bytes "phone"))
      ≡ some (thirty_two, 168624128))
    × (node_wg_pub_key toy_derivation toy_deriver (normalize_name (bytes "hub")) ≡ valid thirty_two)
conf_of-planned_example =
    conf_of-planned (λ t. none) (λ t. none) toy_world toy_derivation (λ ip. bytes "ip") toy_parse
      plain_printer (λ e. true) phone_input toy_daemon (bytes "10.13.0.0/16") phone_conf
      phone_conf_lem
