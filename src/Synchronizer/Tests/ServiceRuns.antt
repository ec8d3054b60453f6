-- ===== src/Synchronizer/Tests/ServiceRuns.antt =====
-- Runs of Synchronizer (src/synchronizer.cpp).
use libstored.Prelude.{◌≡◌, refl, true, false, [], ◌∷◌, none, some, map, ◌-◌, arith}
use libstored.Synchronizer.Connection.{to_journal}
use libstored.Synchronizer.Service.{Synchronizer, map_store, unmap_store, is_synchronizing}
use libstored.Synchronizer.Service.Unmap.{id_counts, unmap_store-forgets}
use libstored.Synchronizer.Tests.ConnectionRuns.{registry, party, changed_store}

-- A store that is synchronized over one of two connections.
abbrev service : Synchronizer
service = record {
  registry = registry;
  connections = (1, party true 4 6) ∷ (2, record (party true 4 6) { stores = []; id_in = [] }) ∷ [];
  heap = λ j. changed_store;
}

unmap_example :
    let after = (unmap_store 0 service).connections in
    (is_synchronizing 0 after ≡ false)
    × (to_journal (unmap_store 0 service).registry (97 ∷ 98 ∷ 99 ∷ []) ≡ none)
    × (id_counts 0 after ≡ map (λ n. n - 1) (id_counts 0 service.connections))
    × (id_counts 1 after ≡ id_counts 1 service.connections)
unmap_example = unmap_store-forgets 1 0 service (omega arith)

-- With two ids for the store, as after two Hellos, one of them outlives it.
id_left :
    id_counts 0
      (unmap_store 0 (record service {
        connections = (1, record (party true 4 6) { id_in = (4, 0) ∷ (5, 0) ∷ [] }) ∷ [];
      })).connections
    ≡ 1 ∷ []
unfolding unmap_store libstored.Synchronizer.Connection.Drop.drop
id_left = refl

synchronizing : is_synchronizing 0 service.connections ≡ true
unfolding is_synchronizing
synchronizing = refl

-- The hash can be mapped again.
mapped_again :
    to_journal (map_store 7 (unmap_store 0 service)).registry (97 ∷ 98 ∷ 99 ∷ []) ≡ some 7
unfolding map_store unmap_store to_journal
mapped_again = refl
