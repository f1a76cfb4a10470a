-- ===== src/Engine/Window/Dedupe.antt =====
-- dedupeByID keeps one envelope for each id: the last of the given list. (The comment in the
-- source says the newest.)
use rout_wire.Base.{
  ◌≡◌, refl, sym, ap, subst, ◌∙◌, ◌↔◌, false, List, [], ◌∷◌, Memᴰ, Permᴰ, Option, none, some, arith,
  All, Ordered, mem-perm, perm_symm, Ordered-perm, if◌then◌else◌, Option-cases, inl, inr,
}
use rout_wire.Base.Bytes.{Bytes, bytes_eq, bytes_eq_comm}
use rout_wire.Base.Map.{
  Map, lookup, insert, keys, HasUniqueKeys, lookup-insert, insert-HasUniqueKeys, mem_of_lookup,
  lookup_of_mem, delete,
}
use rout_wire.Engine.Envelope.{WireEnvelope, id}
use rout_wire.Engine.Window.{index_by_id, values_of, dedupe_by_id}

or_else : Option WireEnvelope → Option WireEnvelope → Option WireEnvelope
or_else none b = b
or_else (some e) b = some e

-- The last envelope of the list with that id.
pub last_with : Bytes → List WireEnvelope → Option WireEnvelope
unfolding or_else
last_with k [] = none
last_with k (e ∷ envs) = or_else (last_with k envs) (if bytes_eq (id e) k then some e else none)

lookup-index :
    (k : Bytes) (m : Map WireEnvelope) (envs : List WireEnvelope)
    → lookup k (index_by_id m envs) ≡ or_else (last_with k envs) (lookup k m)
unfolding index_by_id last_with
lookup-index k m [] = refl
lookup-index k m (e ∷ envs) =
    ground (arith, lookup-index k (insert (id e) e m) envs, lookup-insert (id e) k e m)

index_unique :
    (m : Map WireEnvelope) (envs : List WireEnvelope)
    → HasUniqueKeys m
    → HasUniqueKeys (index_by_id m envs)
unfolding index_by_id
index_unique m [] h = h
index_unique m (e ∷ envs) h =
    index_unique (insert (id e) e m) envs (insert-HasUniqueKeys (id e) e m h)

-- Each entry stands under its envelope's id.
abbrev IsKeyed : Map WireEnvelope → Type 0
IsKeyed = All (λ (p : Bytes × WireEnvelope). p.0 ≡ id p.1)

delete-IsKeyed : (k : Bytes) (m : Map WireEnvelope) → IsKeyed m → IsKeyed (delete k m)
unfolding delete
delete-IsKeyed k [] h = tt
delete-IsKeyed k ((j, v) ∷ m) h = ground (arith, delete-IsKeyed k m h.1)

index-IsKeyed :
    (m : Map WireEnvelope) (envs : List WireEnvelope) → IsKeyed m → IsKeyed (index_by_id m envs)
unfolding index_by_id
index-IsKeyed m [] h = h
index-IsKeyed m (e ∷ envs) h =
    index-IsKeyed (insert (id e) e m) envs (unfold insert in (refl, delete-IsKeyed (id e) m h))

mem_values :
    (k : Bytes) (e : WireEnvelope) (m : Map WireEnvelope) → Memᴰ (k, e) m → Memᴰ e (values_of m)
mem_values k e [] h = elim h [ ]
mem_values k e ((j, v) ∷ m) (Memᴰ.head p) = Memᴰ.head (ap (λ (q : Bytes × WireEnvelope). q.1) p)
mem_values k e ((j, v) ∷ m) (Memᴰ.tail h) = Memᴰ.tail (mem_values k e m h)

mem_of_values :
    (e : WireEnvelope) (m : Map WireEnvelope) → IsKeyed m → Memᴰ e (values_of m) → Memᴰ (id e, e) m
mem_of_values e [] h m = elim m [ ]
mem_of_values e ((j, v) ∷ m) h (Memᴰ.head p) = Memᴰ.head (cc (h.0, p))
mem_of_values e ((j, v) ∷ m) h (Memᴰ.tail k) = Memᴰ.tail (mem_of_values e m h.1 k)

abbrev pub HasUniqueIds : List WireEnvelope → Type 0
HasUniqueIds = Ordered (λ a b. bytes_eq (id a) (id b) ≡ false)

All-ids :
    (a : Bytes) (m : Map WireEnvelope)
    → IsKeyed m
    → All (λ b. bytes_eq a b ≡ false) (keys m)
    → All (λ e. bytes_eq a (id e) ≡ false) (values_of m)
All-ids a [] h k = tt
All-ids a ((j, e) ∷ m) h k = (rw (h.0) at k.0, All-ids a m h.1 k.1)

ids_unique : (m : Map WireEnvelope) → IsKeyed m → HasUniqueKeys m → HasUniqueIds (values_of m)
ids_unique [] h u = tt
ids_unique ((j, e) ∷ m) h u = (
  subst (λ a. All (λ b. bytes_eq a (id b) ≡ false) (values_of m)) h.0 (All-ids j m h.1 u.0),
  ids_unique m h.1 u.1,
)

values-perm : {m n : Map WireEnvelope} → Permᴰ m n → Permᴰ (values_of m) (values_of n)
values-perm Permᴰ.nil = Permᴰ.nil
values-perm (Permᴰ.cons e p) = Permᴰ.cons (ap (λ (q : Bytes × WireEnvelope). q.1) e) (values-perm p)
values-perm (Permᴰ.swap e f) =
    Permᴰ.swap (ap (λ (q : Bytes × WireEnvelope). q.1) e) (ap (λ (q : Bytes × WireEnvelope). q.1) f)
values-perm (Permᴰ.trans p q) = Permᴰ.trans (values-perm p) (values-perm q)

or_else-none : (o : Option WireEnvelope) → or_else o none ≡ o
unfolding or_else
or_else-none none = refl
or_else-none (some e) = refl

lookup_last :
    (k : Bytes) (envs : List WireEnvelope) → lookup k (index_by_id [] envs) ≡ last_with k envs
unfolding lookup
lookup_last k envs = lookup-index k [] envs ∙ or_else-none (last_with k envs)

module _ (visit : Map WireEnvelope → Map WireEnvelope)
    (visit_perm : (m : Map WireEnvelope) → Permᴰ m (visit m)) (envs : List WireEnvelope) where
  abbrev index : Map WireEnvelope
  index = index_by_id [] envs

  index_perm : Permᴰ (values_of index) (values_of (visit index))
  index_perm = values-perm (visit_perm index)

  kept : (e : WireEnvelope) → Memᴰ e (values_of (visit index)) → last_with (id e) envs ≡ some e
  kept e m =
      sym (lookup_last (id e) envs)
      ∙ lookup_of_mem (id e) e index (index_unique [] envs tt)
          (mem_of_values e index (index-IsKeyed [] envs tt) (mem-perm (perm_symm index_perm) m))

  found : (e : WireEnvelope) → last_with (id e) envs ≡ some e → Memᴰ e (values_of (visit index))
  found e h =
      mem-perm index_perm
        (mem_values (id e) e index (mem_of_lookup (id e) e index (lookup_last (id e) envs ∙ h)))

  -- In whatever order the map is visited, the result holds exactly the envelopes that are the last
  -- of the given list with their id, and no id twice.
  pub dedupe_by_id-last :
      ((e : WireEnvelope) → Memᴰ e (dedupe_by_id visit envs) ↔ (last_with (id e) envs ≡ some e))
      × HasUniqueIds (dedupe_by_id visit envs)
  unfolding dedupe_by_id
  dedupe_by_id-last = (
    λ e. (kept e, found e),
    Ordered-perm _ (λ a b h. bytes_eq_comm (id b) (id a) ∙ h) index_perm
        (ids_unique index (index-IsKeyed [] envs tt) (index_unique [] envs tt)),
  )

pub mem_of_last_with :
    (k : Bytes) (envs : List WireEnvelope) (e : WireEnvelope)
    → last_with k envs ≡ some e
    → Memᴰ e envs
unfolding last_with
mem_of_last_with k [] e h = cc
mem_of_last_with k (d ∷ envs) e h = elim (Option-cases (last_with k envs)) [
  | inl n ↦ Memᴰ.head (ground arith)
  | inr (x, y) ↦ Memᴰ.tail (mem_of_last_with k envs e (ground arith))
]
