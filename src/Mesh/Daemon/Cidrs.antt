-- ===== src/Mesh/Daemon/Cidrs.antt =====
-- parseCIDRs of internal/mesh/daemon.go, over net.ParseCIDR as a parameter.
use rout_wire.Base.{
  ◌≡◌, ◌∙◌, refl, inl, inr, Bool, true, false, not, ◌||◌, ◌&&◌, List, [], ◌∷◌, Option, none, some,
  if◌then◌else◌, map, any, arith, All, Ordered, Bool-cases,
}
use rout_wire.Base.Bytes.{Bytes, bytes_eq, bytes_eq_iff, bytes_eq_refl}
use rout_wire.Base.Text.{trim_space}
use rout_wire.Mesh.Router.Masquerade.{Subnet}

abbrev pub seen : Bytes → List Bytes → Bool
seen text texts = any (λ t. bytes_eq t text) texts

and_false : (b : Bool) → (b && false) ≡ false
and_false true = refl
and_false false = refl

and_true : (b : Bool) → (b && true) ≡ b
and_true true = refl
and_true false = refl

module _ (parse_cidr : Bytes → Option Subnet) where
  -- The loop body: a subnet whose text is new, with the rest of the loop.
  fresh_net : (List Bytes → List Subnet) → List Bytes → Option Subnet → List Subnet
  fresh_net rest before none = rest before
  fresh_net rest before (some net) =
      let out = rest (net.text ∷ before) in if seen net.text before then rest before else net ∷ out

  -- The loop of parseCIDRs, with the texts that are in `seen`.
  unfoldable pub parse_from : List Bytes → List Bytes → List Subnet
  unfolding fresh_net
  parse_from [] before = []
  parse_from (s ∷ ss) before =
      let rest = parse_from ss in fresh_net rest before (parse_cidr (trim_space s))

  -- func parseCIDRs, and ParseCIDRs
  unfoldable pub parse_cidrs : List Bytes → List Subnet
  unfolding parse_from
  parse_cidrs ss = parse_from ss []

  abbrev pub texts : List Subnet → List Bytes
  texts nets = map (λ (n : Subnet). n.text) nets

  -- Does a string of the list parse to a subnet with the text?
  abbrev pub parses_to : Bytes → Option Subnet → Bool
  parses_to text none = false
  parses_to text (some net) = bytes_eq net.text text

  abbrev pub names_net : Bytes → List Bytes → Bool
  names_net text ss = any (λ s. parses_to text (parse_cidr (trim_space s))) ss

  fresh_net-seen :
      (rest : List Bytes → List Subnet) (ss before : List Bytes) (net : Option Subnet)
      (text : Bytes)
      → ((b : List Bytes) → seen text (texts (rest b)) ≡ (names_net text ss && not (seen text b)))
      → seen text (texts (fresh_net rest before net))
        ≡ ((parses_to text net || names_net text ss) && not (seen text before))
  unfolding fresh_net
  fresh_net-seen rest ss before none text ih = ih before
  fresh_net-seen rest ss before (some net) text ih = elim (Bool-cases (seen net.text before)) [
    | inl e ↦ rw e (ground (arith, ih before, bytes_eq_iff net.text text))
    | inr e ↦ rw e (ground (arith, ih (net.text ∷ before), bytes_eq_iff net.text text))
  ]

  parse_from-seen :
      (ss before : List Bytes) (text : Bytes)
      → seen text (texts (parse_from ss before)) ≡ (names_net text ss && not (seen text before))
  unfolding parse_from
  parse_from-seen [] before text = refl
  parse_from-seen (s ∷ ss) before text =
      fresh_net-seen (parse_from ss) ss before (parse_cidr (trim_space s)) text
        (λ b. parse_from-seen ss b text)

  All-of_unseen :
      (text : Bytes) (ts : List Bytes)
      → seen text ts ≡ false
      → All (λ t. bytes_eq text t ≡ false) ts
  All-of_unseen text [] e = tt
  All-of_unseen text (t ∷ ts) e = (
    ground (arith, bytes_eq_iff t text, bytes_eq_iff text t),
    All-of_unseen text ts (ground arith),
  )

  -- No two subnets with one text.
  abbrev pub HasUniqueTexts : List Subnet → Type 0
  HasUniqueTexts nets = Ordered (λ a b. bytes_eq a b ≡ false) (texts nets)

  fresh_net-HasUniqueTexts :
      (ss before : List Bytes) (net : Option Subnet)
      → ((b : List Bytes) → HasUniqueTexts (parse_from ss b))
      → HasUniqueTexts (fresh_net (parse_from ss) before net)
  unfolding fresh_net
  fresh_net-HasUniqueTexts ss before none ih = ih before
  fresh_net-HasUniqueTexts ss before (some net) ih = elim (Bool-cases (seen net.text before)) [
    | inl e ↦ rw e (ih before)
    | inr e ↦ rw e (
      All-of_unseen net.text _ (
          parse_from-seen ss (net.text ∷ before) net.text
          ∙ rw (bytes_eq_refl net.text) (and_false _)),
      ih (net.text ∷ before),
    )
  ]

  parse_from-HasUniqueTexts : (ss before : List Bytes) → HasUniqueTexts (parse_from ss before)
  unfolding parse_from
  parse_from-HasUniqueTexts [] before = tt
  parse_from-HasUniqueTexts (s ∷ ss) before =
      fresh_net-HasUniqueTexts ss before (parse_cidr (trim_space s)) (parse_from-HasUniqueTexts ss)

  -- parseCIDRs returns no subnet twice, and exactly the subnets that a string of the list, trimmed,
  -- parses to; strings that do not parse are dropped.
  pub parse_cidrs-exact :
      (ss : List Bytes)
      → HasUniqueTexts (parse_cidrs ss)
        × ((text : Bytes) → seen text (texts (parse_cidrs ss)) ≡ names_net text ss)
  unfolding parse_cidrs
  parse_cidrs-exact ss = (
    parse_from-HasUniqueTexts ss [],
    λ text. parse_from-seen ss [] text ∙ and_true (names_net text ss),
  )
