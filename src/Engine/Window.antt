-- ===== src/Engine/Window.antt =====
-- internal/engine/window.go. An envelope is its wire form. A `range` over a Go map visits the
-- entries in an order of its own: `visit` stands for it, and the laws ask that it is a
-- permutation. The window size is the source's int, which must not be negative.
pub mod Newest
pub mod Dedupe
use rout_wire.Base.{ℕ, Bool, List, [], ◌∷◌, if◌then◌else◌, ltb, not, take, Option, none, some}
use rout_wire.Base.Bytes.{Bytes}
use rout_wire.Base.Map.{Map, insert}
use rout_wire.Base.Sort.{stable_sort}
use rout_wire.Base.Int.{ltb_ℤ, eqb_ℤ}
use rout_wire.Engine.Envelope.{WireEnvelope, id}

-- the order test of sortAscending
unfoldable pub older : WireEnvelope → WireEnvelope → Bool
older a b = if not (eqb_ℤ a.ts b.ts) then ltb_ℤ a.ts b.ts else ltb a.seq b.seq

-- the order test of sortWindow
unfoldable pub newer : WireEnvelope → WireEnvelope → Bool
newer a b = if not (eqb_ℤ a.ts b.ts) then ltb_ℤ b.ts a.ts else ltb b.seq a.seq

-- func sortWindow
unfoldable pub sort_window : List WireEnvelope → List WireEnvelope
unfolding newer stable_sort
sort_window = stable_sort newer

-- func keepTop
unfoldable pub keep_top : List WireEnvelope → ℕ → List WireEnvelope
unfolding sort_window
keep_top envs n = take n (sort_window envs)

-- func sortAscending
unfoldable pub sort_ascending : List WireEnvelope → List WireEnvelope
unfolding older stable_sort
sort_ascending = stable_sort older

-- The loop that fills the index: a later envelope replaces an earlier one of the same id.
unfoldable pub index_by_id : Map WireEnvelope → List WireEnvelope → Map WireEnvelope
unfolding insert id
index_by_id index [] = index
index_by_id index (e ∷ envs) = index_by_id (insert (id e) e index) envs

abbrev pub values_of : Map WireEnvelope → List WireEnvelope
values_of [] = []
values_of ((k, e) ∷ m) = e ∷ values_of m

-- func dedupeByID
unfoldable pub dedupe_by_id :
    (Map WireEnvelope → Map WireEnvelope) → List WireEnvelope → List WireEnvelope
unfolding index_by_id
dedupe_by_id visit envs = values_of (visit (index_by_id [] envs))
