-- ===== src/Engine/OpenDht/Failover.antt =====
-- Which endpoint answers, and what a stored value is read back as.
use rout_wire.Base.{
  ℕ, ◌≤◌, ◌<◌, ◌≡◌, refl, ap, ◌⊎◌, inl, inr, Bool-cases, false, ◌&&◌, leb, ltb, arith, List, [],
  ◌∷◌, ◌++◌, Option, none, some,
}
use rout_wire.Base.Bytes.{Bytes, bytes_eq_refl}
use rout_wire.Base.Int.{ℤ}
use rout_wire.Base.Text.{is_empty}
use rout_wire.Engine.Crypto.{Crypto, CryptoLaws}
use rout_wire.Engine.Envelope.{Json}
use rout_wire.Engine.Store.{Error, Result, ok, err}
use rout_wire.Engine.OpenDht.{
  OpenDht, DhtInner, Response, no_request, failed, answered, or_unavailable, returns, goes_on, turn,
  raw_after, raw_from, raw, decode_line, then_value, put_payload,
}

-- The endpoint gives no usable answer, for that reason: no answer at all, or a status that is not from
-- 200 to 299.
abbrev pub Refuses : Bytes → Response → Error → Type 0
Refuses ep response e =
    (response ≡ failed e)
    ⊎ ((status : ℕ) × (body : Bytes) × (response ≡ answered status body)
        × ((status < 200) ⊎ (300 ≤ status))
        × (e ≡ Error.backend ep))

-- The endpoint settles the request: with the body of an answer from 200 to 299, or with the error of
-- a request that cannot be built.
abbrev pub Settles : Response → Result Bytes → Type 0
Settles response r =
    ((status : ℕ) × (body : Bytes) × (response ≡ answered status body)
      × (200 ≤ status)
      × (status < 300)
      × (r ≡ ok body))
    ⊎ ((e : Error) × (response ≡ no_request e) × (r ≡ err e))

module _ (request : Bytes → Response) where
  -- All refuse, in their order, and the last reason is the second one, after the first before them.
  pub data AllRefuse : List Bytes → Option Error → Option Error → Type 0 where
    no_more : {last : Option Error} → AllRefuse [] last last
    refused :
        {ep : Bytes} {eps : List Bytes} {e : Error} {last end : Option Error}
        → Refuses ep (request ep) e
        → AllRefuse eps (some e) end
        → AllRefuse (ep ∷ eps) last end

  -- The first endpoint that settles the request.
  pub record FirstSettles (base : List Bytes) (last : Option Error) (r : Result Bytes)
      : Type 0 where
    pub before : List Bytes
    pub ep : Bytes
    pub after : List Bytes
    pub reason : Option Error
    pub splits : base ≡ before ++ (ep ∷ after)
    pub refuse : AllRefuse before last reason
    pub settles : Settles (request ep) r

  -- Some endpoint settles the request, or all of them refuse it.
  abbrev pub Answers : List Bytes → Option Error → Result Bytes → Type 0
  Answers base last r =
      FirstSettles base last r
      ⊎ ((reason : Option Error) × AllRefuse base last reason × (r ≡ err (or_unavailable reason)))

  -- What a response does.
  turn_cases :
      (ep : Bytes) (response : Response)
      → ((r : Result Bytes) × (turn ep response ≡ returns r) × Settles response r)
        ⊎ ((e : Error) × (turn ep response ≡ goes_on e) × Refuses ep response e)
  unfolding turn
  turn_cases ep (no_request e) = inl (err e, refl, inr (e, refl, refl))
  turn_cases ep (failed e) = inr (e, refl, inl refl)
  turn_cases ep (answered status body) = elim (Bool-cases (leb 200 status && ltb status 300)) [
    | inl fine ↦
        inl (ok body, rw fine refl, inl (status, body, refl, ground arith, ground arith, refl))
    | inr other ↦
        inr (
          Error.backend ep,
          rw other refl,
          inr (status, body, refl, status_cases status other, refl),
        )
  ]
    where
      status_cases : (n : ℕ) → (leb 200 n && ltb n 300) ≡ false → (n < 200) ⊎ (300 ≤ n)
      status_cases n h = elim (Bool-cases (leb 200 n)) [
        | inl y ↦ inr (ground arith)
        | inr m ↦ inl (ground arith)
      ]

  raw_from-Answers :
      (eps : List Bytes) (last : Option Error) → Answers eps last (raw_from request eps last)
  unfolding raw_from raw_after
  raw_from-Answers [] last = inr (last, no_more, refl)
  raw_from-Answers (ep ∷ eps) last = elim (turn_cases ep (request ep)) [
    | inl (r, e, settles) ↦ inl (record {
      before = [];
      ep = ep;
      after = eps;
      reason = last;
      splits = refl;
      refuse = no_more;
      settles = rw e settles;
    })
    | inr (x, e, refuses) ↦ elim (raw_from-Answers eps (some x)) [
      | inl f ↦ inl (record {
        before = ep ∷ f.before;
        ep = f.ep;
        after = f.after;
        reason = f.reason;
        splits = ap (λ r. ep ∷ r) f.splits;
        refuse = refused refuses f.refuse;
        settles = rw e f.settles;
      })
      | inr (reason, all, same) ↦ inr (reason, refused refuses all, rw e same)
    ]
  ]

  -- A request goes to the endpoints in order. It gives what the first one that settles it gives: the
  -- body of an answer whose status is from 200 to 299, or the error of a request that cannot be
  -- built. Every endpoint before that one gave no answer, or one with another status. If all endpoints
  -- refuse in this way it gives the reason of the last one, and without endpoints that no store is
  -- available.
  pub raw-first : (o : OpenDht) → Answers o.base none (raw request o)
  unfolding raw
  raw-first o = raw_from-Answers o.base none

-- A line that holds what Put posted is read back as the value, by a store of the same magic, if
-- JSON reads back its two texts and the line is not empty.
pub decode_line-put_payload :
    (c : Crypto) (outer : Json Bytes) (inner : Json DhtInner) (o : OpenDht) (now : ℤ) (v : Bytes)
    → CryptoLaws c
    → inner.unmarshal (inner.marshal (record { magic = o.magic; ts = now; data_text = c.b64 v }))
      ≡ some (record { magic = o.magic; ts = now; data_text = c.b64 v })
    → outer.unmarshal (put_payload c outer inner o now v)
      ≡ some (c.b64 (inner.marshal (record { magic = o.magic; ts = now; data_text = c.b64 v })))
    → is_empty (put_payload c outer inner o now v) ≡ false
    → decode_line c outer inner o (put_payload c outer inner o now v) ≡ some v
unfolding decode_line then_value
decode_line-put_payload c outer inner o now v laws i u filled =
    rw (filled, u, then_value)
      (rw (laws.b64dec_b64, then_value)
        (rw (i, then_value) (rw (bytes_eq_refl o.magic) (laws.b64dec_b64 v))))
