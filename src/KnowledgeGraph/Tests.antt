-- ===== src/KnowledgeGraph/Tests.antt =====
-- A small graph, and what its methods return.
use Prim.Native.String.{String}
use text.Mathlib.Text.{◌==◌ as str_eq}
use scalpel_cli.Common.{ℕ, ◌≡◌, refl, inr, List, [], ◌∷◌, map, some, All}
use scalpel_cli.Common.Dict.{lookup, insert}
use scalpel_cli.KnowledgeGraph.{
  Node, Edge, Graph, Update, node_update, edge_update, empty_graph, add_node, add_edge, reindex,
  append_outgoing, remove_from_outgoing, contains, outgoing, apply_update, apply_updates, get_edges,
  get_neighbors,
}
use scalpel_cli.KnowledgeGraph.Index.{Inv, empty_graph-Inv, apply_updates-Inv, count, leaves}
use scalpel_cli.KnowledgeGraph.Reads.{reads_exact}
use scalpel_cli.KnowledgeGraph.History.{Decoder}

abbrev node_called : String → ℕ → Node
node_called name time = record {
  id = name;
  node_type = "IMPROVEMENT_ATTEMPT";
  label = "";
  status = "NEW";
  properties = name;
  created_at = time;
  last_seen = 0;
}

abbrev edge_between : String → String → String → Edge
edge_between name from to = record {
  id = name;
  from = from;
  to = to;
  relationship = "";
  label = "";
  properties = "";
  created_at = 0;
  last_seen = 0;
}

-- Two nodes, an edge that is turned round, and one to a node that is missing.
abbrev some_updates : List Update
some_updates =
    node_update (node_called "a" 3)
    ∷ node_update (node_called "b" 8)
    ∷ edge_update (edge_between "e" "a" "b")
    ∷ edge_update (edge_between "e" "b" "a")
    ∷ edge_update (edge_between "f" "b" "c")
    ∷ []

abbrev small_graph : Graph
small_graph = apply_updates some_updates empty_graph

small_graph-Inv : Inv small_graph
small_graph-Inv = apply_updates-Inv some_updates empty_graph empty_graph-Inv

apply_updates-Inv_example : Inv (apply_updates some_updates empty_graph)
apply_updates-Inv_example = apply_updates-Inv some_updates empty_graph empty_graph-Inv

reads_exact_example :
    (es : List Edge) × (ns : List Node) × (get_edges "b" small_graph ≡ inr es)
    × (get_neighbors "b" small_graph ≡ inr ns)
    × All (λ (e : Edge). (e.from ≡ "b") × (lookup e.id small_graph.edges ≡ some e)) es
    × ((k : String)
        → count k (map (λ (e : Edge). e.id) es) ≡ leaves "b" (lookup k small_graph.edges))
    × (map some ns ≡ map (λ (e : Edge). lookup e.to small_graph.nodes) es)
unfolding apply_updates apply_update empty_graph add_node add_edge lookup insert reindex
    append_outgoing remove_from_outgoing contains outgoing
reads_exact_example = reads_exact "b" small_graph small_graph-Inv refl

-- Every attempt has its own name for a goal.
abbrev by_name : Decoder
by_name = record { goal_objective = λ properties. some properties; equal_fold = str_eq }
