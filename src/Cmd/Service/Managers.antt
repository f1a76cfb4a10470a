-- ===== src/Cmd/Service/Managers.antt =====
-- The manager that runService picks.
use rout_wire.Base.{◌≡◌, refl, inl, inr, Bool, true, ◌||◌, none, arith, Bool-cases}
use rout_wire.Base.Bytes.{Bytes, bytes, bytes_eq}
use rout_wire.Base.Text.{is_empty}
use rout_wire.Cmd.Service.{
  Shell, systemd, sysvinit, check_service_args, detect_init_system, is_systemd, manager_of,
}

abbrev pub is_manager : Bytes → Bool
is_manager mgr = bytes_eq mgr systemd || bytes_eq mgr sysvinit

check_service_args-system :
    (install uninstall : Bool) (system : Bytes)
    → check_service_args install uninstall system ≡ none
    → (is_empty system || (bytes_eq system (bytes "auto") || is_manager system)) ≡ true
unfolding check_service_args
check_service_args-system install uninstall system e = ground arith

module _ (sh : Shell) (unit script : Bytes → Bytes → Bytes) where
  detect_init_system-manager :
      (s : sh.State) → is_manager (detect_init_system sh unit script s) ≡ true
  unfolding detect_init_system bytes_eq
  detect_init_system-manager s = elim (Bool-cases (sh.has_file (bytes "/run/systemd/system") s)) [
    | inl e ↦ rw e refl
    | inr e ↦
        elim (Bool-cases (is_systemd sh unit script (sh.read_file (bytes "/proc/1/comm") s))) [
          | inl f ↦ rw (e, f) refl
          | inr f ↦ rw (e, f) refl
        ]
  ]

  -- Arguments that pass the check lead to a manager that install and uninstall know.
  pub manager_of-known :
      (install uninstall : Bool) (system : Bytes) (s : sh.State)
      → check_service_args install uninstall system ≡ none
      → is_manager (manager_of sh unit script system s) ≡ true
  unfolding manager_of
  manager_of-known install uninstall system s e =
      elim (Bool-cases (is_empty system || bytes_eq system (bytes "auto"))) [
        | inl f ↦ rw f (detect_init_system-manager s)
        | inr f ↦ rw f (ground (arith, check_service_args-system install uninstall system e))
      ]
