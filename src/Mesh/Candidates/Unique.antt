-- ===== src/Mesh/Candidates/Unique.antt =====
-- What GatherSRFLX finds.
use rout_wire.Base.{
  ℕ, suc, ◌+◌, ◌≡◌, ◌⊎◌, refl, inl, inr, Bool, true, false, List, [], ◌∷◌, ◌++◌, Option, none, some,
  arith, All, Ordered, Ordered-append, Memᴰ, Bool-cases, subst, All-mono,
}
use rout_wire.Base.Bytes.{Bytes, bytes, bytes_eq, bytes_eq_refl}
use rout_wire.Mesh.Record.{Candidate}
use rout_wire.Mesh.Peers.{contains_addr}
use rout_wire.Mesh.Candidates.{srflx_candidate, add_srflx, gather_server, gather_from, gather_srflx}

-- No two candidates have one address.
abbrev pub HasUniqueAddrs : List Candidate → Type 0
HasUniqueAddrs = Ordered (λ a b. bytes_eq a.addr b.addr ≡ false)

absent_addr :
    (out : List Candidate) (addr : Bytes)
    → contains_addr out addr ≡ false
    → All (λ x. bytes_eq x.addr addr ≡ false) out
unfolding contains_addr
absent_addr [] addr h = tt
absent_addr (x ∷ out) addr h = (ground arith, absent_addr out addr (ground arith))

contains_addr-append :
    (out more : List Candidate) (addr : Bytes)
    → contains_addr out addr ≡ true
    → contains_addr (out ++ more) addr ≡ true
unfolding contains_addr
contains_addr-append [] more addr h = cc
contains_addr-append (x ∷ out) more addr h = elim (Bool-cases (bytes_eq x.addr addr)) [
  | inl e ↦ rw e refl
  | inr e ↦ rw e (contains_addr-append out more addr (ground arith))
]

contains_addr-last :
    (out : List Candidate) (addr : Bytes)
    → contains_addr (out ++ (srflx_candidate addr ∷ [])) addr ≡ true
unfolding contains_addr
contains_addr-last [] addr = rw (bytes_eq_refl addr) refl
contains_addr-last (x ∷ out) addr = ground (arith, contains_addr-last out addr)

add_srflx-HasUniqueAddrs :
    (o : Option Bytes) (out : List Candidate)
    → HasUniqueAddrs out
    → HasUniqueAddrs (add_srflx o out)
unfolding add_srflx
add_srflx-HasUniqueAddrs none out h = h
add_srflx-HasUniqueAddrs (some addr) out h = elim (Bool-cases (contains_addr out addr)) [
  | inl e ↦ rw e h
  | inr e ↦ rw e (
      Ordered-append _ out (srflx_candidate addr ∷ []) h (tt, tt)
        (All-mono (λ x k. (k, tt)) out (absent_addr out addr e)))
]

add_srflx-keeps :
    (o : Option Bytes) (out : List Candidate) (addr : Bytes)
    → contains_addr out addr ≡ true
    → contains_addr (add_srflx o out) addr ≡ true
unfolding add_srflx
add_srflx-keeps none out addr h = h
add_srflx-keeps (some a) out addr h = elim (Bool-cases (contains_addr out a)) [
  | inl e ↦ rw e h
  | inr e ↦ rw e (contains_addr-append out (srflx_candidate a ∷ []) addr h)
]

add_srflx-adds :
    (addr : Bytes) (out : List Candidate) → contains_addr (add_srflx (some addr) out) addr ≡ true
unfolding add_srflx
add_srflx-adds addr out = elim (Bool-cases (contains_addr out addr)) [
  | inl e ↦ rw e e
  | inr e ↦ rw e (contains_addr-last out addr)
]

module _ (srflx_one : Bytes → Bytes → Option Bytes) (ended : ℕ → Bool) where
  gather_server-HasUniqueAddrs :
      (i : ℕ) (s : Bytes) (out : List Candidate)
      → HasUniqueAddrs out
      → HasUniqueAddrs (gather_server srflx_one ended i s out)
  unfolding gather_server
  gather_server-HasUniqueAddrs i s out h =
      let h4 = add_srflx-HasUniqueAddrs (srflx_one (bytes "udp4") s) out h in
      elim (Bool-cases (ended i)) [
        | inl e ↦ rw e h
        | inr e ↦ rw e (elim (Bool-cases (ended (suc i))) [
          | inl f ↦ rw f h4
          | inr f ↦ rw f (add_srflx-HasUniqueAddrs (srflx_one (bytes "udp6") s) _ h4)
        ])
      ]

  gather_from-HasUniqueAddrs :
      (i : ℕ) (servers : List Bytes) (out : List Candidate)
      → HasUniqueAddrs out
      → HasUniqueAddrs (gather_from srflx_one ended i servers out)
  unfolding gather_from
  gather_from-HasUniqueAddrs i [] out h = h
  gather_from-HasUniqueAddrs i (s ∷ servers) out h =
      gather_from-HasUniqueAddrs (i + 2) servers (gather_server srflx_one ended i s out)
        (gather_server-HasUniqueAddrs i s out h)

  -- GatherSRFLX gives no address twice, whenever the context ends.
  pub gather_srflx-HasUniqueAddrs :
      (servers : List Bytes) → HasUniqueAddrs (gather_srflx srflx_one ended servers)
  unfolding gather_srflx
  gather_srflx-HasUniqueAddrs servers = gather_from-HasUniqueAddrs 0 servers [] tt

  module _ (on : (i : ℕ) → ended i ≡ false) (addr : Bytes) where
    gather_server-keeps :
        (i : ℕ) (s : Bytes) (out : List Candidate)
        → contains_addr out addr ≡ true
        → contains_addr (gather_server srflx_one ended i s out) addr ≡ true
    unfolding gather_server
    gather_server-keeps i s out h = rw (on i) (
        rw (on (suc i)) (
          add_srflx-keeps (srflx_one (bytes "udp6") s) _ addr
            (add_srflx-keeps (srflx_one (bytes "udp4") s) out addr h)))

    gather_server-adds :
        (i : ℕ) (s : Bytes) (out : List Candidate)
        → (srflx_one (bytes "udp4") s ≡ some addr) ⊎ (srflx_one (bytes "udp6") s ≡ some addr)
        → contains_addr (gather_server srflx_one ended i s out) addr ≡ true
    unfolding gather_server
    gather_server-adds i s out (inl e) = rw (on i) (
        rw (on (suc i))
          (add_srflx-keeps (srflx_one (bytes "udp6") s) _ addr (rw e (add_srflx-adds addr out))))
    gather_server-adds i s out (inr e) = rw (on i) (rw (on (suc i)) (rw e (add_srflx-adds addr _)))

    gather_from-keeps :
        (i : ℕ) (servers : List Bytes) (out : List Candidate)
        → contains_addr out addr ≡ true
        → contains_addr (gather_from srflx_one ended i servers out) addr ≡ true
    unfolding gather_from
    gather_from-keeps i [] out h = h
    gather_from-keeps i (s ∷ servers) out h =
        gather_from-keeps (i + 2) servers (gather_server srflx_one ended i s out)
          (gather_server-keeps i s out h)

    gather_from-adds :
        (i : ℕ) (servers : List Bytes) (out : List Candidate) (s : Bytes)
        → Memᴰ s servers
        → (srflx_one (bytes "udp4") s ≡ some addr) ⊎ (srflx_one (bytes "udp6") s ≡ some addr)
        → contains_addr (gather_from srflx_one ended i servers out) addr ≡ true
    unfolding gather_from
    gather_from-adds i [] out s m e = elim m [ ]
    gather_from-adds i (t ∷ servers) out s (Memᴰ.head same) e =
        gather_from-keeps (i + 2) servers (gather_server srflx_one ended i t out) (
          subst (λ k. contains_addr (gather_server srflx_one ended i k out) addr ≡ true) same
            (gather_server-adds i s out e))
    gather_from-adds i (t ∷ servers) out s (Memᴰ.tail m) e =
        gather_from-adds (i + 2) servers (gather_server srflx_one ended i t out) s m e

    -- While the context does not end, every address that some server gives on either network is
    -- among the candidates.
    pub gather_srflx-adds :
        (servers : List Bytes) (s : Bytes)
        → Memᴰ s servers
        → (srflx_one (bytes "udp4") s ≡ some addr) ⊎ (srflx_one (bytes "udp6") s ≡ some addr)
        → contains_addr (gather_srflx srflx_one ended servers) addr ≡ true
    unfolding gather_srflx
    gather_srflx-adds servers s m e = gather_from-adds 0 servers [] s m e
