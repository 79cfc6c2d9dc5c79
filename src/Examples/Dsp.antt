-- ===== src/Examples/Dsp.antt =====
-- A graph of three packages: an instance of the theorem on its order.
use Prim.Native.String.{String}
use mboot_core.Prelude.{◌≡◌, refl, false, List, [], ◌∷◌}
use mboot_core.Domain.{err, already_exists, Gives}
use mboot_core.Dsp.Graph.{
  DependencyNode, DspDependencyGraph, resolve, topo_sort, in_degrees, count_all, count_dependencies,
  start_queue, release, drain, missing_from, add_package,
}
use mboot_core.Dsp.Order.Drains.{IsOrder}
use mboot_core.Dsp.Order.Resolves.{resolve-IsOrder}

abbrev node : String → List String → DependencyNode
node id dependencies = record { package_id = id; dependencies = dependencies }

abbrev three : DspDependencyGraph
three = record {
  nodes = node "core" [] ∷ node "lib" ("core" ∷ []) ∷ node "app" ("lib" ∷ "core" ∷ []) ∷ [];
  resolution_order = [];
  resolved = false;
  unresolved = [];
}

added_twice : (add_package "core" [] three).1 ≡ err already_exists
unfolding add_package
added_twice = refl

three_in_order : Gives (λ g. g.resolution_order ≡ "app" ∷ "lib" ∷ "core" ∷ []) (resolve three)
unfolding resolve topo_sort in_degrees count_all count_dependencies start_queue release drain
    missing_from
three_in_order = refl

resolve-IsOrder_example :
    Gives (λ g. IsOrder three.nodes g.resolution_order × (g.nodes ≡ three.nodes)) (resolve three)
resolve-IsOrder_example = resolve-IsOrder three (refl, (refl, (refl, tt)))
