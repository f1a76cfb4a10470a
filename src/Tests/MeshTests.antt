-- ===== src/Tests/MeshTests.antt =====
-- Runs of the theorems on the mesh.
use rout_wire.Base.{
  ◌-◌, ◌/◌, ◌^◌, ◌<◌, ◌≤◌, ◌≡◌, ◌≢◌, ◌⊎◌, ◌&&◌, ◌||◌, refl, Bool, true, not, [], ◌∷◌, arith,
}
use rout_wire.Base.Bytes.{bytes, bytes_eq}
use rout_wire.Base.Map.{has_key, lookup, insert}
use rout_wire.Base.Text.{trim_space, split, join}
use rout_wire.Base.Sort.{stable_sort}
use rout_wire.Mesh.Deriver.{validate_name, normalize_name, overlay_ip, be32}
use rout_wire.Mesh.Deriver.Overlay.{overlay_ip-in_network}
use rout_wire.Mesh.Spokes.{
  SpokeSet, Disk, Io, content, missing, saved, parse_spokes, render_spokes, load_spokes,
  save_spokes, add_spoke, remove_spoke,
}
use rout_wire.Mesh.Spokes.Persist.{Loads, save_spokes_atomic, add_spoke-Loads, remove_spoke-Loads}
use rout_wire.Tests.Toy.{toy_derivation, toy_deriver, toy_cidr}

overlay_ip-in_network_example :
    (168624128 / 2 ^ (32 - 16) ≡ 168624128 / 2 ^ (32 - 16))
    × (168624128 ≤ 168624128)
    × (168624128 < 2 ^ 32)
    × (16 ≤ 30)
    × (toy_cidr.bits ≡ 32)
unfolding overlay_ip validate_name normalize_name trim_space be32
overlay_ip-in_network_example =
    overlay_ip-in_network toy_derivation toy_deriver (bytes "node") toy_cidr 168624128 168624128
      refl (omega arith, refl) refl

abbrev works : Io
works = record { mkdir_works = true; write_works = true; partial = missing; rename_works = true }

abbrev empty_disk : Disk
empty_disk = record { list = missing; temp = missing }

abbrev one_spoke : SpokeSet
one_spoke = (bytes "a", true) ∷ []

save_spokes_atomic_example :
    (((save_spokes works true one_spoke empty_disk).0 ≢ saved)
      × ((save_spokes works true one_spoke empty_disk).1.list ≡ empty_disk.list))
    ⊎ (((save_spokes works true one_spoke empty_disk).0 ≡ saved)
        × ((save_spokes works true one_spoke empty_disk).1.list
            ≡ content (render_spokes one_spoke)))
save_spokes_atomic_example = save_spokes_atomic works one_spoke empty_disk

add_spoke-Loads_example :
    Loads
      (record { list = content (bytes "b\n"); temp = missing })
      (λ k. bytes_eq (normalize_name (bytes " B")) k || has_key {V = Bool} k [])
unfolding load_spokes add_spoke normalize_name render_spokes save_spokes lookup insert split
    trim_space bytes_eq join stable_sort
add_spoke-Loads_example =
    add_spoke-Loads works (bytes " B") [] empty_disk
      (record { list = content (bytes "b\n"); temp = missing }) refl refl (refl, (refl, tt)) refl

remove_spoke-Loads_example :
    Loads
      (record { list = content []; temp = missing })
      (λ k. not (bytes_eq (normalize_name (bytes "B")) k) && has_key k ((bytes "b", true) ∷ []))
unfolding load_spokes remove_spoke normalize_name render_spokes save_spokes parse_spokes lookup
    split trim_space bytes_eq join stable_sort
remove_spoke-Loads_example =
    remove_spoke-Loads works (bytes "B") ((bytes "b", true) ∷ [])
      (record { list = content (bytes "b\n"); temp = missing })
      (record { list = content []; temp = missing }) refl refl
