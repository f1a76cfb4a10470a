-- ===== src/Mesh/Router/Masquerade.antt =====
-- The masquerades of internal/mesh/router.go: AddSource, RemoveSource and AnnounceNAT. Of an IP
-- the text of its To4 is kept, none where that is nil.
pub mod Owned
pub mod Reconciled
use rout_wire.Base.{
  ℕ, Bool, true, false, not, List, [], ◌∷◌, ◌++◌, Option, none, some, if◌then◌else◌, ◌==◌,
}
use rout_wire.Base.Bytes.{Bytes, bytes}
use rout_wire.Base.Map.{Map, lookup, insert, delete, has_key}
use rout_wire.Mesh.Router.Host.{
  Host, LinuxRouter, RouterError, not_ip4, command_failed, ipt_comment, run,
}
use rout_wire.Mesh.Router.Forwarding.{forwarding}

abbrev pub tagged_masquerade : List Bytes
tagged_masquerade =
    bytes "-m"
    ∷ bytes "comment"
    ∷ bytes "--comment"
    ∷ ipt_comment
    ∷ bytes "-j"
    ∷ bytes "MASQUERADE"
    ∷ []

-- the rule for a spoke: from it, out of our interface
abbrev pub spoke_rule : Bytes → Bytes → List Bytes
spoke_rule iface src = bytes "-s" ∷ src ∷ bytes "-o" ∷ iface ∷ tagged_masquerade

-- the rule for an announced subnet: from the overlay into it
abbrev pub announce_rule : Bytes → Bytes → List Bytes
announce_rule src dst = bytes "-s" ∷ src ∷ bytes "-d" ∷ dst ∷ tagged_masquerade

abbrev pub nat_insert : List Bytes → List Bytes
nat_insert rule = bytes "-I" ∷ bytes "POSTROUTING" ∷ bytes "1" ∷ rule

abbrev pub nat_delete : List Bytes → List Bytes
nat_delete rule = bytes "-D" ∷ bytes "POSTROUTING" ∷ rule

-- *net.IPNet: its String, and whether the To4 of its address is not nil
pub record Subnet : Type 0 where
  pub text : Bytes
  pub is_ip4 : Bool

-- strings.SplitN(key, "|", 2)[0]
unfoldable pub before_bar : Bytes → Bytes
before_bar [] = []
before_bar (c ∷ key) = let rest = before_bar key in if c == b'|' then [] else c ∷ rest

abbrev pub announce_key : Bytes → Bytes → Bytes
announce_key overlay text = overlay ++ (b'|' ∷ text)

-- The loop that fills want.
unfoldable pub wanted : Bytes → List Subnet → Map Bytes → Map Bytes
wanted overlay [] want = want
wanted overlay (sub ∷ subnets) want =
    wanted overlay subnets
      (if sub.is_ip4 then insert (announce_key overlay sub.text) sub.text want else want)

module _ (h : Host) where
  open h use {State}

  after_insert : Bytes → LinuxRouter → Bool × State → Option RouterError × LinuxRouter × State
  after_insert src r (false, s) = (some command_failed, r, s)
  after_insert src r (true, s) = (none, record r { added = insert src true r.added }, s)

  -- AddSource after the call of Forwarding, whose error is dropped.
  unfoldable pub add_masquerade :
      Bytes → Option RouterError × LinuxRouter × State → Option RouterError × LinuxRouter × State
  unfolding after_insert
  add_masquerade src (ignored, r, s) =
      if has_key src r.added
      then (none, r, s)
      else after_insert src r (run h (bytes "nat") (nat_insert (spoke_rule r.iface src)) s)

  -- func (r *linuxRouter) AddSource
  unfoldable pub add_source :
      Option Bytes → LinuxRouter → State → Option RouterError × LinuxRouter × State
  unfolding add_masquerade
  add_source none r s = (some not_ip4, r, s)
  add_source (some ip4) r s = add_masquerade (ip4 ++ bytes "/32") (forwarding h r s)

  after_delete : Bytes → LinuxRouter → Bool × State → Option RouterError × LinuxRouter × State
  after_delete src r (false, s) = (some command_failed, r, s)
  after_delete src r (true, s) = (none, record r { added = delete src r.added }, s)

  -- func (r *linuxRouter) RemoveSource, of a spoke with an IPv4 address
  unfoldable pub remove_masquerade :
      Bytes → LinuxRouter → State → Option RouterError × LinuxRouter × State
  unfolding after_delete
  remove_masquerade src r s =
      if not (has_key src r.added)
      then (none, r, s)
      else after_delete src r (run h (bytes "nat") (nat_delete (spoke_rule r.iface src)) s)

  -- func (r *linuxRouter) RemoveSource
  unfoldable pub remove_source :
      Option Bytes → LinuxRouter → State → Option RouterError × LinuxRouter × State
  unfolding remove_masquerade
  remove_source none r s = (none, r, s)
  remove_source (some ip4) r s = remove_masquerade (ip4 ++ bytes "/32") r s

  -- The map of rules for announcements, and the host.
  abbrev pub Announced : Type 0
  Announced = Map Bytes × State

  -- The body of the loop over the rules there are: the entry goes whether or not its rule does.
  unfoldable pub drop_entry : Map Bytes → Bytes → Bytes → Announced → Announced
  drop_entry want key dst (m, s) = if has_key key want then (m, s) else (
    delete key m,
    (run h (bytes "nat") (nat_delete (announce_rule (before_bar key) dst)) s).1,
  )

  unfoldable pub drop_unwanted : Map Bytes → Map Bytes → Announced → Announced
  unfolding drop_entry
  drop_unwanted want [] v = v
  drop_unwanted want ((key, dst) ∷ entries) v =
      drop_unwanted want entries (drop_entry want key dst v)

  after_announce : Bytes → Bytes → Map Bytes → Bool × State → Announced
  after_announce key dst m (false, s) = (m, s)
  after_announce key dst m (true, s) = (insert key dst m, s)

  -- The body of the loop over the rules that are wanted.
  unfoldable pub add_entry : Bytes → Bytes → Announced → Announced
  unfolding after_announce
  add_entry key dst (m, s) =
      if has_key key m
      then (m, s)
      else after_announce key dst m
          (run h (bytes "nat") (nat_insert (announce_rule (before_bar key) dst)) s)

  unfoldable pub add_wanted : Map Bytes → Announced → Announced
  unfolding add_entry
  add_wanted [] v = v
  add_wanted ((key, dst) ∷ want) v = add_wanted want (add_entry key dst v)

  -- func (r *linuxRouter) AnnounceNAT, which returns no error
  unfoldable pub announce_nat_rules :
      Bytes → List Subnet → LinuxRouter → State → LinuxRouter × State
  unfolding wanted drop_unwanted add_wanted
  announce_nat_rules overlay subnets r s =
      let want = wanted overlay subnets [] in
      let (m, s') = add_wanted want (drop_unwanted want r.announce_nat (r.announce_nat, s)) in
      (record r { announce_nat = m }, s')
