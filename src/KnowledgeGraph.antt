-- ===== src/KnowledgeGraph.antt =====
-- internal/knowledgegraph/knowledgegraph.go: the in-memory graph, with the data of
-- api/schemas/knowledge_graph.go. Every method holds the lock for its whole body, so a method is one
-- function on the state.
pub mod Index
pub mod Reads
pub mod History
mod Tests
use Prim.Native.String.{String}
use text.Mathlib.Text.{◌==◌ as str_eq}
use scalpel_cli.Common.{
  ℕ, ◌≡◌, Bool, true, false, not, ◌||◌, ◌&&◌, List, [], ◌∷◌, ◌++◌, Option, none, some, ◌⊎◌, inl,
  inr, if◌then◌else◌,
}
use scalpel_cli.Common.Dict.{Dict, lookup, insert}

pub record Node : Type 0 where
  pub id : String
  pub node_type : String
  pub label : String
  pub status : String
  pub properties : String
  pub created_at : ℕ
  pub last_seen : ℕ

pub record Edge : Type 0 where
  pub id : String
  pub from : String
  pub to : String
  pub relationship : String
  pub label : String
  pub properties : String
  pub created_at : ℕ
  pub last_seen : ℕ

-- `InMemoryKG`; `outgoing_edges` is the index from a node to its edges.
pub record Graph : Type 0 where
  pub nodes : Dict Node
  pub edges : Dict Edge
  pub outgoing_edges : Dict (List String)

pub data GraphError : Type 0 where
  source_not_found destination_not_found node_not_found edge_not_found : String → GraphError

unfoldable pub empty_graph : Graph
empty_graph = record { nodes = []; edges = []; outgoing_edges = [] }

unfoldable pub add_node : Node → Graph → Graph
add_node n g = record g { nodes = insert n.id n g.nodes }

abbrev pub is_some {ℓ} : {A : Type ℓ} → Option A → Bool
is_some none = false
is_some (some _) = true

abbrev pub or_nil : Option (List String) → List String
or_nil none = []
or_nil (some l) = l

-- A missing key of the index reads as the empty slice.
unfoldable pub outgoing : String → Graph → List String
outgoing n g = or_nil (lookup n g.outgoing_edges)

-- The last element of a slice, for which the head is the last resort.
unfoldable pub last_of : String → List String → String
last_of x [] = x
last_of x (y ∷ ys) = last_of y ys

-- All but the last element.
unfoldable pub front_of : String → List String → List String
front_of x [] = []
front_of x (y ∷ ys) = x ∷ front_of y ys

-- The slice without its element x: the last element takes its place.
unfoldable pub close_gap : List String → List String
close_gap [] = []
close_gap (y ∷ ys) = last_of y ys ∷ front_of y ys

-- The loop of `removeFromOutgoing` over the slice.
unfoldable pub swap_remove : String → List String → List String
swap_remove e [] = []
swap_remove e (x ∷ xs) = if str_eq x e then close_gap xs else x ∷ swap_remove e xs

unfoldable pub contains : String → List String → Bool
contains e [] = false
contains e (x ∷ xs) = if str_eq x e then true else contains e xs

-- `removeFromOutgoing` writes the index only where it finds the edge.
unfoldable pub remove_from_outgoing : (node edge : String) → Graph → Graph
remove_from_outgoing node edge g =
    if contains edge (outgoing node g)
    then record g {
      outgoing_edges = insert node (swap_remove edge (outgoing node g)) g.outgoing_edges;
    }
    else g

-- `kg.outgoingEdges[n] = append(kg.outgoingEdges[n], e)`
unfoldable pub append_outgoing : (node edge : String) → Graph → Graph
append_outgoing node edge g = record g {
  outgoing_edges = insert node (outgoing node g ++ edge ∷ []) g.outgoing_edges;
}

-- The index for an edge whose old version, if there is one, is given.
unfoldable pub reindex : Option Edge → Edge → Graph → Graph
reindex none e g = append_outgoing e.from e.id g
reindex (some old) e g =
    if not (str_eq old.from e.from)
    then append_outgoing e.from e.id (remove_from_outgoing old.from e.id g)
    else g

abbrev pub store_edge : Edge → Graph → Graph
store_edge e g = record g { edges = insert e.id e g.edges }

unfoldable pub add_edge : Edge → Graph → Graph × Option GraphError
add_edge e g =
    if not (is_some (lookup e.from g.nodes))
    then (g, some (GraphError.source_not_found e.from))
    else if not (is_some (lookup e.to g.nodes))
    then (g, some (GraphError.destination_not_found e.to))
    else (store_edge e (reindex (lookup e.id g.edges) e g), none)

abbrev pub or_error {ℓ} : {A : Type ℓ} → GraphError → Option A → GraphError ⊎ A
or_error e none = inl e
or_error e (some a) = inr a

unfoldable pub get_node : String → Graph → GraphError ⊎ Node
get_node id g = or_error (GraphError.node_not_found id) (lookup id g.nodes)

unfoldable pub get_edge : String → Graph → GraphError ⊎ Edge
get_edge id g = or_error (GraphError.edge_not_found id) (lookup id g.edges)

abbrev pub cons_some {ℓ} : {A : Type ℓ} → Option A → List A → List A
cons_some none l = l
cons_some (some a) l = a ∷ l

-- The loop of `GetEdges`: an identifier that is not in the map is passed over.
unfoldable pub edges_of : Dict Edge → List String → List Edge
edges_of edges [] = []
edges_of edges (i ∷ is) = cons_some (lookup i edges) (edges_of edges is)

-- The loop of `GetNeighbors`: so is an edge whose target is not in the map.
abbrev pub target_of : Dict Node → Option Edge → Option Node
target_of nodes none = none
target_of nodes (some e) = lookup e.to nodes

unfoldable pub targets_of : Dict Node → Dict Edge → List String → List Node
targets_of nodes edges [] = []
targets_of nodes edges (i ∷ is) =
    cons_some (target_of nodes (lookup i edges)) (targets_of nodes edges is)

unfoldable pub get_neighbors : String → Graph → GraphError ⊎ List Node
get_neighbors n g =
    if not (is_some (lookup n g.nodes))
    then inl (GraphError.node_not_found n)
    else inr (targets_of g.nodes g.edges (outgoing n g))

unfoldable pub get_edges : String → Graph → GraphError ⊎ List Edge
get_edges n g =
    if not (is_some (lookup n g.nodes))
    then inl (GraphError.node_not_found n)
    else inr (edges_of g.edges (outgoing n g))

-- Code that builds a graph.
pub data Update : Type 0 where
  node_update : Node → Update
  edge_update : Edge → Update

unfoldable pub apply_update : Update → Graph → Graph
apply_update (node_update n) g = add_node n g
apply_update (edge_update e) g = (add_edge e g).0

unfoldable pub apply_updates : List Update → Graph → Graph
apply_updates [] g = g
apply_updates (u ∷ us) g = apply_updates us (apply_update u g)
