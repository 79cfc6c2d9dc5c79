-- ===== src/Dsp/Graph.antt =====
-- lib/include/mbootcore/dsp/DSPDependencyGraph.hpp and lib/src/dsp/DSPDependencyGraph.cpp: the graph.
-- The maps from a package's identifier are a list of nodes, whose order stands for that in which an
-- unordered map is gone through, and a function for the degrees, which is gone through in the order of
-- the nodes. Versions, `m_hasCycle` and `m_cyclePath`, and what else no operation of the graph reads are left out.
use Prim.Native.String.{String}
use text.Mathlib.Text.{◌==◌ as same_text}
use mboot_core.Prelude.{
  ℕ, zero, suc, ◌==◌, ℤ, pos, negsuc, Bool, true, false, ◌||◌, if◌then◌else◌, List, [], ◌∷◌, ◌++◌,
  length,
}
use mboot_core.Domain.{
  Result, ok, err, stuck, ◌>>=◌, unknown, invalid_argument, already_exists, out_of_fuel,
}

pub record DependencyNode : Type 0 where
  pub package_id : String
  pub dependencies : List String

-- The search for a cycle to show, and what it finds, is left out.
pub record DspDependencyGraph : Type 0 where
  pub nodes : List DependencyNode
  pub resolution_order : List String
  pub resolved : Bool
  pub unresolved : List String

unfoldable pub empty_graph : DspDependencyGraph
empty_graph = record { nodes = []; resolution_order = []; resolved = false; unresolved = [] }

-- Whether a list of identifiers has one.
abbrev pub has_id : String → List String → Bool
has_id x [] = false
has_id x (y ∷ ys) = same_text x y || has_id x ys

abbrev pub is_node : String → List DependencyNode → Bool
is_node x [] = false
is_node x (n ∷ ns) = same_text x n.package_id || is_node x ns

-- `m_nodes[id].dependencies`.
abbrev pub dependencies_of : String → List DependencyNode → List String
dependencies_of x [] = []
dependencies_of x (n ∷ ns) =
    if same_text x n.package_id then n.dependencies else dependencies_of x ns

unfoldable pub add_package :
    String → List String → DspDependencyGraph → DspDependencyGraph × Result (Unit {0})
add_package id dependencies g =
    if same_text id ""
    then (g, err invalid_argument)
    else if is_node id g.nodes
    then (g, err already_exists)
    else (
      record g {
        nodes = record { package_id = id; dependencies = dependencies } ∷ g.nodes;
        resolved = false;
      },
      ok tt,
    )

unfoldable pub without_node : String → List DependencyNode → List DependencyNode
without_node x [] = []
without_node x (n ∷ ns) = if same_text x n.package_id then ns else n ∷ without_node x ns

-- `requiredBy`, which is never filled, has nothing to be removed from.
unfoldable pub remove_package : String → DspDependencyGraph → DspDependencyGraph × Result (Unit {0})
unfolding without_node
remove_package id g =
    if is_node id g.nodes
    then (record g { nodes = without_node id g.nodes; resolved = false }, ok tt)
    else (g, err unknown)

-- The degrees, an `int` for each identifier, and the steps by which they change.
abbrev pub Degrees : Type 0
Degrees = String → ℤ

abbrev pub succ : ℤ → ℤ
succ (pos n) = pos (suc n)
succ (negsuc zero) = pos 0
succ (negsuc (suc n)) = negsuc n

abbrev pub pred : ℤ → ℤ
pred (pos zero) = negsuc 0
pred (pos (suc n)) = pos n
pred (negsuc n) = negsuc (suc n)

abbrev pub change : (ℤ → ℤ) → String → Degrees → Degrees
change f x degrees y = if same_text y x then f (degrees y) else degrees y

abbrev pub is_zero : ℤ → Bool
is_zero (pos zero) = true
is_zero (pos (suc n)) = false
is_zero (negsuc n) = false

-- The loops that count the dependents of each node.
unfoldable pub count_dependencies : List DependencyNode → List String → Degrees → Degrees
count_dependencies nodes [] degrees = degrees
count_dependencies nodes (d ∷ ds) degrees =
    if is_node d nodes
    then count_dependencies nodes ds (change succ d degrees)
    else count_dependencies nodes ds degrees

unfoldable pub count_all : (nodes rest : List DependencyNode) → Degrees → Degrees
unfolding count_dependencies
count_all nodes [] degrees = degrees
count_all nodes (n ∷ ns) degrees =
    count_all nodes ns (count_dependencies nodes n.dependencies degrees)

unfoldable pub in_degrees : List DependencyNode → Degrees
unfolding count_all
in_degrees nodes = count_all nodes nodes (λ _. pos 0)

-- The nodes that the queue starts with.
unfoldable pub start_queue : List DependencyNode → Degrees → List String
start_queue [] degrees = []
start_queue (n ∷ ns) degrees =
    if is_zero (degrees n.package_id)
    then n.package_id ∷ start_queue ns degrees
    else start_queue ns degrees

-- The loop over the dependencies of a node that is taken from the queue.
unfoldable pub release :
    List DependencyNode → List String → Degrees → List String → Degrees × List String
release nodes [] degrees queue = (degrees, queue)
release nodes (d ∷ ds) degrees queue = elim (is_node d nodes) [
  | false ↦ release nodes ds degrees queue
  | true ↦
      let next = change pred d degrees in
      elim (is_zero (next d)) [
        | true ↦ release nodes ds next (queue ++ d ∷ [])
        | false ↦ release nodes ds next queue
      ]
]

-- The loop over the queue, with as many rounds as the first argument says.
unfoldable pub drain :
    ℕ → List DependencyNode → Degrees → (queue order : List String) → Result (List String)
unfolding release
drain zero nodes degrees queue order = stuck out_of_fuel
drain (suc n) nodes degrees [] order = ok order
drain (suc n) nodes degrees (id ∷ queue) order =
    let (degrees', queue') = release nodes (dependencies_of id nodes) degrees queue in
    drain n nodes degrees' queue' (order ++ id ∷ [])

unfoldable pub missing_from : List String → List DependencyNode → List String
missing_from order [] = []
missing_from order (n ∷ ns) =
    if has_id n.package_id order
    then missing_from order ns
    else n.package_id ∷ missing_from order ns

-- `topoSort`, and `resolve`.
unfoldable pub topo_sort : DspDependencyGraph → Result DspDependencyGraph
unfolding in_degrees start_queue drain missing_from
topo_sort g =
    let degrees = in_degrees g.nodes in
    drain (suc (length g.nodes)) g.nodes degrees (start_queue g.nodes degrees) [] >>= λ order.
    ok (record g {
      resolution_order = order;
      unresolved = if length order == length g.nodes then [] else missing_from order g.nodes;
      resolved = true;
    })

unfoldable pub resolve : DspDependencyGraph → Result DspDependencyGraph
unfolding topo_sort
resolve g = elim g.nodes [
  | [] ↦ ok (record g { resolution_order = []; resolved = true })
  | n ∷ ns ↦ topo_sort g
]
