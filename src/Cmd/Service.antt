-- ===== src/Cmd/Service.antt =====
-- cmd/meshd/service.go: the system service. The host is a state with commands and files; the texts
-- of the unit and of the init script are parameters. What is printed is left out, and fatalf ends
-- the program with an error.
pub mod Managers
use rout_wire.Base.{
  ℕ, Bool, true, false, not, ◌&&◌, ◌||◌, List, [], ◌∷◌, Option, none, some, if◌then◌else◌,
}
use rout_wire.Base.Bytes.{Bytes, bytes, bytes_eq}
use rout_wire.Base.Text.{trim_space, is_empty}

-- What os.Remove returns: nil, an error that says the file does not exist, or another error.
pub data Removed : Type 0 where
  removed absent remove_failed : Removed

pub record Shell : Type 1 where
  pub State : Type 0
  pub is_root : State → Bool
  -- os.Executable and then filepath.EvalSymlinks
  pub executable : State → Option Bytes
  pub has_file : Bytes → State → Bool
  pub read_file : Bytes → State → Option Bytes
  pub write_file : Bytes → Bytes → State → Bool × State
  pub remove_file : Bytes → State → Removed × State
  -- exec.Command(name, args...).Run; true is a nil error
  pub command : Bytes → List Bytes → State → Bool × State

pub data ServiceError : Type 0 where
  needs_action both_actions bad_system not_root no_binary no_config write_error : ServiceError
  remove_error command_error unknown_manager : ServiceError

abbrev pub systemd : Bytes
systemd = bytes "systemd"

abbrev pub sysvinit : Bytes
sysvinit = bytes "sysvinit"

abbrev pub unit_path : Bytes
unit_path = bytes "/etc/systemd/system/meshd.service"

abbrev pub script_path : Bytes
script_path = bytes "/etc/init.d/meshd"

abbrev pub meshd : Bytes
meshd = bytes "meshd"

-- func checkServiceArgs
unfoldable pub check_service_args : Bool → Bool → Bytes → Option ServiceError
check_service_args install uninstall system =
    if not install && not uninstall
    then some needs_action
    else if install && uninstall
    then some both_actions
    else if is_empty system
        || (bytes_eq system (bytes "auto") || (bytes_eq system systemd || bytes_eq system sysvinit))
    then none
    else some bad_system

module _ (sh : Shell) (systemd_unit sysv_script : Bytes → Bytes → Bytes) where
  open sh use {State, is_root, executable, has_file, read_file, write_file, remove_file, command}

  abbrev pub is_systemd : Option Bytes → Bool
  is_systemd none = false
  is_systemd (some comm) = bytes_eq (trim_space comm) systemd

  -- func detectInitSystem
  unfoldable pub detect_init_system : State → Bytes
  detect_init_system s =
      if has_file (bytes "/run/systemd/system") s
      then systemd
      else if is_systemd (read_file (bytes "/proc/1/comm") s)
      then systemd
      else sysvinit

  -- A step that ends the program where it fails.
  or_die :
      ServiceError
      → (State → Option ServiceError × State)
      → Bool × State
      → Option ServiceError × State
  or_die e next (true, s) = next s
  or_die e next (false, s) = (some e, s)

  -- func runOrDie, and what follows
  run_or_die :
      Bytes
      → List Bytes
      → (State → Option ServiceError × State)
      → State
      → Option ServiceError × State
  unfolding or_die
  run_or_die name args next s = or_die command_error next (command name args s)

  done : State → Option ServiceError × State
  done s = (none, s)

  -- func enableSysVBoot, whose error is only printed
  unfoldable pub enable_sysv_boot : State → State
  enable_sysv_boot s =
      let (ok, s') = command (bytes "update-rc.d") (meshd ∷ bytes "defaults" ∷ []) s in
      if ok then s' else (command (bytes "chkconfig") (meshd ∷ bytes "on" ∷ []) s').1

  -- func installService
  unfoldable pub install_service : Bytes → Bytes → Bytes → State → Option ServiceError × State
  unfolding or_die run_or_die enable_sysv_boot done
  install_service mgr bin conf s =
      if bytes_eq mgr systemd
      then or_die write_error
          (λ s1.
            run_or_die (bytes "systemctl") (bytes "daemon-reload" ∷ [])
              (run_or_die (bytes "systemctl") (bytes "enable" ∷ bytes "--now" ∷ meshd ∷ []) done)
              s1)
          (write_file unit_path (systemd_unit bin conf) s)
      else if bytes_eq mgr sysvinit
      then or_die write_error
          (λ s1. run_or_die script_path (bytes "start" ∷ []) done (enable_sysv_boot s1))
          (write_file script_path (sysv_script bin conf) s)
      else (some unknown_manager, s)

  after_remove : (State → State) → Removed × State → Option ServiceError × State
  after_remove next (removed, s) = (none, next s)
  after_remove next (absent, s) = (none, next s)
  after_remove next (remove_failed, s) = (some remove_error, s)

  -- func uninstallService; the commands' failures are ignored
  unfoldable pub uninstall_service : Bytes → State → Option ServiceError × State
  unfolding after_remove
  uninstall_service mgr s =
      if bytes_eq mgr systemd
      then (let s1 =
            (command (bytes "systemctl") (bytes "disable" ∷ bytes "--now" ∷ meshd ∷ []) s).1 in
          after_remove (λ u. (command (bytes "systemctl") (bytes "daemon-reload" ∷ []) u).1)
            (remove_file unit_path s1))
      else if bytes_eq mgr sysvinit
      then (let s1 = (command script_path (bytes "stop" ∷ []) s).1 in
          let s2 =
            (command (bytes "update-rc.d") (bytes "-f" ∷ meshd ∷ bytes "remove" ∷ []) s1).1 in
          let s3 = (command (bytes "chkconfig") (meshd ∷ bytes "off" ∷ []) s2).1 in
          after_remove (λ u. u) (remove_file script_path s3))
      else (some unknown_manager, s)

  -- The manager that runService picks.
  unfoldable pub manager_of : Bytes → State → Bytes
  unfolding detect_init_system
  manager_of system s =
      if is_empty system || bytes_eq system (bytes "auto") then detect_init_system s else system

  with_binary : Bytes → Bool → Bytes → Option Bytes → State → Option ServiceError × State
  unfolding install_service uninstall_service manager_of
  with_binary config install system none s = (some no_binary, s)
  with_binary config install system (some bin) s =
      let conf = if is_empty config then bytes "/etc/meshd.yaml" else config in
      if install
      then (if has_file conf s
          then install_service (manager_of system s) bin conf s
          else (some no_config, s))
      else uninstall_service (manager_of system s) s

  checked_service : Bytes → Bool → Bytes → Option ServiceError → State → Option ServiceError × State
  unfolding with_binary
  checked_service config install system (some e) s = (some e, s)
  checked_service config install system none s =
      if is_root s then with_binary config install system (executable s) s else (some not_root, s)

  -- func runService
  unfoldable pub run_service : Bytes → Bool → Bool → Bytes → State → Option ServiceError × State
  unfolding checked_service
  run_service config install uninstall system s =
      checked_service config install system (check_service_args install uninstall system) s
