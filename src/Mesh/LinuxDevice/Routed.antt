-- ===== src/Mesh/LinuxDevice/Routed.antt =====
-- What ApplyRoutes leaves of the routes on the link.
use rout_wire.Base.{
  ℕ, ◌≡◌, refl, sym, ap, ◌∙◌, inl, inr, Bool, true, false, not, ◌&&◌, ◌||◌, List, [], ◌∷◌, Option,
  none, some, arith, Bool-cases,
}
use rout_wire.Base.Bytes.{Bytes, bytes_eq, bytes_eq_iff}
use rout_wire.Mesh.LinuxDevice.{
  Kernel, LinuxDevice, DeviceError, Deleted, deleted, not_exist, del_failed, listed, replace_routes,
  after_del, drop_routes, kept_routes, after_replace, apply_routes_on,
}

abbrev pub is_failure : Deleted → Bool
is_failure deleted = false
is_failure not_exist = false
is_failure del_failed = true

-- What RouteReplace and RouteDel promise where they succeed; a route that does not exist counts as
-- deleted.
pub record RouteLaws (kn : Kernel) (index : ℕ) : Type 0 where
  pub has_route : Bytes → kn.State → Bool
  pub replace_adds :
      (r t : Bytes) (s : kn.State)
      → (kn.route_replace index r s).0 ≡ true
      → has_route t (kn.route_replace index r s).1 ≡ (bytes_eq r t || has_route t s)
  pub del_takes :
      (r t : Bytes) (s : kn.State)
      → is_failure (kn.route_del index r s).0 ≡ false
      → has_route t (kn.route_del index r s).1 ≡ (not (bytes_eq r t) && has_route t s)

module _ (kn : Kernel) (index : ℕ) (laws : RouteLaws kn index) where
  open kn use {State}
  open laws use {has_route}

  replace_routes-has :
      (routes : List Bytes) (t : Bytes) (s : State)
      → (replace_routes kn index routes s).0 ≡ none
      → has_route t (replace_routes kn index routes s).1 ≡ (listed t routes || has_route t s)
  unfolding replace_routes listed
  replace_routes-has [] t s e = refl
  replace_routes-has (r ∷ routes) t s e = elim (Bool-cases (kn.route_replace index r s).0) [
    | inr f ↦ absurd_none (rw f at e)
    | inl f ↦ rw f (
        replace_routes-has routes t _ (rw f at e)
        ∙ ap (λ b. listed t routes || b) (laws.replace_adds r t s f)
        ∙ ground arith)
  ]
    where
      absurd_none : {A : Type 0} → some DeviceError.route_failed ≡ none → A
      absurd_none h = cc

  taken_lem :
      (r t : Bytes) (s : State) (v : Deleted × State)
      → kn.route_del index r s ≡ v
      → is_failure v.0 ≡ false
      → has_route t v.1 ≡ (not (bytes_eq r t) && has_route t s)
  taken_lem r t s v e f =
      ap (λ (u : Deleted × State). has_route t u.1) (sym e)
      ∙ laws.del_takes r t s (ap (λ (u : Deleted × State). is_failure u.0) e ∙ f)

  after_del-has :
      (rest : State → Option DeviceError × State) (r t : Bytes) (s : State) (v : Deleted × State)
      (b : Bool)
      → kn.route_del index r s ≡ v
      → ((u : State) → (rest u).0 ≡ none → has_route t (rest u).1 ≡ (has_route t u && b))
      → (after_del kn rest v).0 ≡ none
      → has_route t (after_del kn rest v).1 ≡ ((not (bytes_eq r t) && has_route t s) && b)
  unfolding after_del
  after_del-has rest r t s (deleted, u) b e h f =
      h u f ∙ ap (λ c. c && b) (taken_lem r t s (deleted, u) e refl)
  after_del-has rest r t s (not_exist, u) b e h f =
      h u f ∙ ap (λ c. c && b) (taken_lem r t s (not_exist, u) e refl)
  after_del-has rest r t s (del_failed, u) b e h f = cc

  drop_routes-has :
      (want routes : List Bytes) (t : Bytes) (s : State)
      → (drop_routes kn index want routes s).0 ≡ none
      → has_route t (drop_routes kn index want routes s).1
        ≡ (has_route t s && (listed t want || not (listed t routes)))
  unfolding drop_routes listed
  drop_routes-has want [] t s e = ground arith
  drop_routes-has want (prev ∷ routes) t s e = elim (Bool-cases (listed prev want)) [
    | inl f ↦
        rw f (drop_routes-has want routes t s (rw f at e) ∙ ground (arith, bytes_eq_iff prev t))
    | inr f ↦ rw f (
        after_del-has (drop_routes kn index want routes) prev t s _
          (listed t want || not (listed t routes)) refl (λ u. drop_routes-has want routes t u)
          (rw f at e)
        ∙ ground (arith, bytes_eq_iff prev t))
  ]

  kept_routes-has :
      (ld : LinuxDevice) (routes : List Bytes) (v : Option DeviceError × State)
      → (kept_routes kn ld routes v).0 ≡ none
      → (v.0 ≡ none)
        × ((kept_routes kn ld routes v).1.routes ≡ routes)
        × ((kept_routes kn ld routes v).2 ≡ v.1)
  unfolding kept_routes
  kept_routes-has ld routes (some e, s) f = cc
  kept_routes-has ld routes (none, s) f = (refl, refl, refl)

  after_replace-has :
      (ld : LinuxDevice) (routes : List Bytes) (t : Bytes) (s : State)
      (v : Option DeviceError × State)
      → (after_replace kn ld index routes v).0 ≡ none
      → (v.0 ≡ none → has_route t v.1 ≡ (listed t routes || has_route t s))
      → (has_route t (after_replace kn ld index routes v).2
          ≡ (listed t routes || (has_route t s && not (listed t ld.routes))))
        × ((after_replace kn ld index routes v).1.routes ≡ routes)
  unfolding after_replace
  after_replace-has ld routes t s (some e, u) f h = cc
  after_replace-has ld routes t s (none, u) f h =
      let kept = kept_routes-has ld routes (drop_routes kn index routes ld.routes u) f in
      (
        ap (has_route t) kept.2
            ∙ drop_routes-has routes ld.routes t u kept.0
            ∙ rw (h refl) (ground arith),
        kept.1,
      )

  -- If ApplyRoutes returns no error, the link has the given routes, has lost those of the last call that
  -- are not among them, and has kept every other route; and the device remembers the given routes.
  pub apply_routes_on-has :
      (ld : LinuxDevice) (routes : List Bytes) (t : Bytes) (s : State)
      → (apply_routes_on kn ld index routes s).0 ≡ none
      → (has_route t (apply_routes_on kn ld index routes s).2
          ≡ (listed t routes || (has_route t s && not (listed t ld.routes))))
        × ((apply_routes_on kn ld index routes s).1.routes ≡ routes)
  unfolding apply_routes_on
  apply_routes_on-has ld routes t s e =
      after_replace-has ld routes t s (replace_routes kn index routes s) e
        (replace_routes-has routes t s)
