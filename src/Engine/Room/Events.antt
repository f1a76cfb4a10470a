-- ===== src/Engine/Room/Events.antt =====
-- No message is announced twice, in one poll or in a run of polls.
use rout_wire.Base.{
  ◌≡◌, refl, ap, ◌∙◌, true, false, List, [], ◌∷◌, ◌++◌, Permᴰ, some, arith, All, Ordered, All-mono,
  Ordered-perm, Ordered-take, Ordered-select, Ordered-append, select-All, All-append, inl, inr,
  Option-cases, All-select,
}
use rout_wire.Base.Bytes.{Bytes, bytes_eq, bytes_eq_iff, bytes_eq_refl, bytes_eq_comm}
use rout_wire.Base.Map.{Map, insert, has_key, lookup-insert}
use rout_wire.Base.Sort.{stable_sort-perm}
use rout_wire.Engine.Crypto.{Crypto}
use rout_wire.Engine.Envelope.{WireEnvelope, Json, id}
use rout_wire.Engine.Window.{newer, older, keep_top, sort_window, sort_ascending}
use rout_wire.Engine.Window.Dedupe.{HasUniqueIds, dedupe_by_id-last}
use rout_wire.Engine.Room.{
  Room, Message, Event, on_contact, on_message, decode, new_messages, mark_seen, contact_events,
  message_events, commit, decode_all, window_of, absorb, new_contacts,
}

-- The ids of the messages that were announced.
abbrev pub message_ids : List Event → List Bytes
message_ids [] = []
message_ids (on_contact pk name ∷ events) = message_ids events
message_ids (on_message m ∷ events) = m.message_id ∷ message_ids events

abbrev pub AllDifferent : List Bytes → Type 0
AllDifferent = Ordered (λ a b. bytes_eq a b ≡ false)

ids-append : (xs ys : List Event) → message_ids (xs ++ ys) ≡ message_ids xs ++ message_ids ys
ids-append [] ys = refl
ids-append (on_contact pk name ∷ xs) ys = ids-append xs ys
ids-append (on_message m ∷ xs) ys = ap (◌∷◌ m.message_id) (ids-append xs ys)

ids-contact_events :
    (c : Crypto) (contacts : List (Bytes × Bytes)) → message_ids (contact_events c contacts) ≡ []
unfolding contact_events
ids-contact_events c [] = refl
ids-contact_events c ((pk, name) ∷ rest) = ids-contact_events c rest

has_key-insert :
    (k j : Bytes) (e : WireEnvelope) (m : Map WireEnvelope)
    → has_key j m ≡ true
    → has_key j (insert k e m) ≡ true
has_key-insert k j e m h = ground (arith, lookup-insert k j e m)

module _ (c : Crypto) where
  decode-id :
      (r : Room) (e : WireEnvelope) (m : Message) → decode c r e ≡ some m → m.message_id ≡ id e
  unfolding decode
  decode-id r e m h = ground arith

  ids-All :
      (P : Bytes → Type 0) (r : Room) (envs : List WireEnvelope)
      → All (λ e. P (id e)) envs
      → All P (message_ids (message_events c r envs))
  unfolding message_events
  ids-All P r [] h = tt
  ids-All P r (e ∷ envs) h = elim (Option-cases (decode c r e)) [
    | inl d ↦ rw (d, message_ids, All) (ids-All P r envs h.1)
    | inr (m, d) ↦ rw (d, message_ids, All) (rw (decode-id r e m d) h.0, ids-All P r envs h.1)
  ]

  ids-Ordered :
      (r : Room) (envs : List WireEnvelope)
      → HasUniqueIds envs
      → AllDifferent (message_ids (message_events c r envs))
  unfolding message_events
  ids-Ordered r [] h = tt
  ids-Ordered r (e ∷ envs) h = elim (Option-cases (decode c r e)) [
    | inl d ↦ rw (d, message_ids, Ordered) (ids-Ordered r envs h.1)
    | inr (m, d) ↦
        rw (d, message_ids, Ordered)
          (
            rw (decode-id r e m d) (ids-All (λ b. bytes_eq (id e) b ≡ false) r envs h.0),
            ids-Ordered r envs h.1,
          )
  ]

  mark_seen-keeps :
      (seen : Map WireEnvelope) (top : List WireEnvelope) (k : Bytes)
      → has_key k seen ≡ true
      → has_key k (mark_seen c seen top) ≡ true
  unfolding mark_seen
  mark_seen-keeps seen [] k h = h
  mark_seen-keeps seen (e ∷ top) k h =
      mark_seen-keeps (insert (id e) e seen) top k (has_key-insert (id e) k e seen h)

  mark_seen-All :
      (seen : Map WireEnvelope) (top : List WireEnvelope)
      → All (λ e. has_key (id e) (mark_seen c seen top) ≡ true) top
  unfolding mark_seen
  mark_seen-All seen [] = tt
  mark_seen-All seen (e ∷ top) = (
    mark_seen-keeps (insert (id e) e seen) top (id e)
        (ground (arith, lookup-insert (id e) (id e) e seen, bytes_eq_refl (id e))),
    mark_seen-All (insert (id e) e seen) top,
  )

  -- What one commit announces, and what it remembers.
  record Announced (r r' : Room) (ids : List Bytes) : Type 0 where
    different : AllDifferent ids
    fresh : All (λ k. has_key k r.seen ≡ false) ids
    remembered : All (λ k. has_key k r'.seen ≡ true) ids
    keeps : (k : Bytes) → has_key k r.seen ≡ true → has_key k r'.seen ≡ true

  ids-commit :
      (r : Room) (top : List WireEnvelope)
      → message_ids (commit c r top).1
        ≡ message_ids (message_events c r (new_messages c r.seen top))
  unfolding commit
  ids-commit r top =
      ids-append (contact_events c (new_contacts c r.contact_seen top)) _
      ∙ rw (ids-contact_events c (new_contacts c r.contact_seen top)) refl

  commit-Announced :
      (r : Room) (top : List WireEnvelope)
      → HasUniqueIds top
      → Announced r (commit c r top).0 (message_ids (commit c r top).1)
  commit-Announced r top u = rw (ids-commit r top) (
      unfold commit new_messages in
      record {
        different = ids-Ordered r _ (Ordered-select _ _ top u);
        fresh = ids-All _ r _ (All-mono (λ e h. ground arith) _ (select-All _ top));
        remembered = ids-All _ r _ (All-select _ _ top (mark_seen-All r.seen top));
        keeps = λ k h. mark_seen-keeps r.seen top k h;
      })

  module _ (json : Json WireEnvelope) (visit : Map WireEnvelope → Map WireEnvelope)
      (visit_perm : (m : Map WireEnvelope) → Permᴰ m (visit m)) where
    ids_symm :
        (a b : WireEnvelope) → bytes_eq (id a) (id b) ≡ false → bytes_eq (id b) (id a) ≡ false
    ids_symm a b h = bytes_eq_comm (id b) (id a) ∙ h

    pub window_of-HasUniqueIds :
        (r : Room) (vals : List Bytes) → HasUniqueIds (window_of c json visit r vals)
    unfolding window_of sort_ascending keep_top sort_window
    window_of-HasUniqueIds r vals = Ordered-perm _ ids_symm (stable_sort-perm older _) (
        Ordered-take _ r.window_n _ (
          Ordered-perm _ ids_symm (stable_sort-perm newer _)
            (dedupe_by_id-last visit visit_perm (decode_all c json r.room_key vals)).1))

    absorb-Announced :
        (r : Room) (vals : List Bytes)
        → Announced r (absorb c json visit r vals).0 (message_ids (absorb c json visit r vals).1)
    unfolding absorb
    absorb-Announced r vals = commit-Announced r _ (window_of-HasUniqueIds r vals)

    -- A run of polls, each given the values that its Read returned, with all their events.
    pub polls : Room → List (List Bytes) → List Event
    polls r [] = []
    polls r (vals ∷ more) = let (r', events) = absorb c json visit r vals in events ++ polls r' more

    -- Over any run of polls no message id is announced twice, and none that the room had seen
    -- before the run.
    pub message_ids-polls :
        (r : Room) (reads : List (List Bytes))
        → AllDifferent (message_ids (polls r reads))
          × All (λ k. has_key k r.seen ≡ false) (message_ids (polls r reads))
    unfolding polls
    message_ids-polls r [] = (tt, tt)
    message_ids-polls r (vals ∷ more) =
        let now = absorb-Announced r vals in
        let later = message_ids-polls (absorb c json visit r vals).0 more in
        rw (ids-append (absorb c json visit r vals).1 (polls (absorb c json visit r vals).0 more)) (
          Ordered-append _ _ _ now.different later.0 (
              All-mono
                (λ k known. All-mono (λ j unknown. ground (arith, bytes_eq_iff k j)) _ later.1) _
                now.remembered),
          All-append _ _ _ now.fresh
              (All-mono (λ k unknown. ground (arith, now.keeps k)) _ later.1),
        )
