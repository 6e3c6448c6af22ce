-- ===== src/KnowledgeGraph/History.antt =====
-- QueryImprovementHistory: a scan of the nodes, sorted by time and cut to a limit.
use Prim.Native.String.{String}
use text.Mathlib.Text.{◌==◌ as str_eq}
use scalpel_cli.Common.{
  ℕ, zero, suc, ◌≤◌, ◌<◌, ◌≡◌, ◌∙◌, refl, Bool, true, false, not, ◌&&◌, ◌||◌, List, [], ◌∷◌, Option,
  none, some, arith, Bool-cases, inl, inr, if◌then◌else◌, All, length, take, ◌⊎◌, ltb, leb,
  length-take,
}
use scalpel_cli.Common.Dict.{Dict}
use scalpel_cli.KnowledgeGraph.{Node, Graph}

-- `json.Unmarshal` into the attempt's properties, of which the goal is used, and `strings.EqualFold`.
pub record Decoder : Type 0 where
  pub goal_objective : String → Option String
  pub equal_fold : String → String → Bool

module _ (k : Decoder) where
  abbrev goal_matches : String → Option String → Bool
  goal_matches goal none = false
  goal_matches goal (some g) = k.equal_fold g goal

  -- The tests of the loop, the early `continue`s included.
  unfoldable pub is_match : String → Node → Bool
  is_match goal n =
      str_eq n.node_type "IMPROVEMENT_ATTEMPT"
      && (not (str_eq n.properties "" || str_eq n.properties "null")
          && goal_matches goal (k.goal_objective n.properties))

  unfoldable pub matching_nodes : String → Dict Node → List Node
  matching_nodes goal [] = []
  matching_nodes goal ((key, n) ∷ d) =
      let rest = matching_nodes goal d in if is_match goal n then n ∷ rest else rest

-- `sort.Slice` by `CreatedAt`, the latest first.
unfoldable pub insert_by_time : Node → List Node → List Node
insert_by_time n [] = n ∷ []
insert_by_time n (m ∷ ms) =
    if leb m.created_at n.created_at then n ∷ (m ∷ ms) else m ∷ insert_by_time n ms

unfoldable pub sort_by_time : List Node → List Node
sort_by_time [] = []
sort_by_time (n ∷ ns) = insert_by_time n (sort_by_time ns)

-- A limit of 0 or less is none.
unfoldable pub cut_to : ℕ → List Node → List Node
cut_to limit ns = if ltb 0 limit && ltb limit (length ns) then take limit ns else ns

unfoldable pub query_improvement_history : Decoder → (goal : String) (limit : ℕ) → Graph → List Node
query_improvement_history k goal limit g =
    cut_to limit (sort_by_time (matching_nodes k goal g.nodes))

-- Each node is at least as late as those behind it.
abbrev pub LatestFirst : List Node → Type 0
LatestFirst [] = Unit {0}
LatestFirst (n ∷ ns) = All (λ (m : Node). m.created_at ≤ n.created_at) ns × LatestFirst ns

All_insert :
    (P : Node → Type 0) (n : Node) (ms : List Node) → P n → All P ms → All P (insert_by_time n ms)
unfolding insert_by_time
All_insert P n [] p h = (p, tt)
All_insert P n (m ∷ ms) p h = elim (Bool-cases (leb m.created_at n.created_at)) [
  | inl e ↦ rw e (p, h)
  | inr e ↦ rw e (h.0, All_insert P n ms p h.1)
]

All_le :
    (a b : ℕ) (ms : List Node)
    → a ≤ b
    → All (λ (m : Node). m.created_at ≤ a) ms
    → All (λ (m : Node). m.created_at ≤ b) ms
All_le a b [] h k = tt
All_le a b (m ∷ ms) h k = (omega (arith, h, k.0), All_le a b ms h k.1)

insert-LatestFirst :
    (n : Node) (ms : List Node) → LatestFirst ms → LatestFirst (insert_by_time n ms)
unfolding insert_by_time
insert-LatestFirst n [] s = (tt, tt)
insert-LatestFirst n (m ∷ ms) s = elim (Bool-cases (leb m.created_at n.created_at)) [
  | inl e ↦
      let le : m.created_at ≤ n.created_at = ground (arith, e) in
      rw e ((le, All_le m.created_at n.created_at ms le s.0), s)
  | inr e ↦ rw e (All_insert _ n ms (ground (arith, e)) s.0, insert-LatestFirst n ms s.1)
]

sort-LatestFirst : (ns : List Node) → LatestFirst (sort_by_time ns)
unfolding sort_by_time
sort-LatestFirst [] = tt
sort-LatestFirst (n ∷ ns) = insert-LatestFirst n (sort_by_time ns) (sort-LatestFirst ns)

sort-All : (P : Node → Type 0) (ns : List Node) → All P ns → All P (sort_by_time ns)
unfolding sort_by_time
sort-All P [] h = tt
sort-All P (n ∷ ns) h = All_insert P n (sort_by_time ns) h.0 (sort-All P ns h.1)

take-All : (P : Node → Type 0) (i : ℕ) (ns : List Node) → All P ns → All P (take i ns)
take-All P zero ns h = tt
take-All P (suc i) [] h = tt
take-All P (suc i) (n ∷ ns) h = (h.0, take-All P i ns h.1)

take-LatestFirst : (i : ℕ) (ns : List Node) → LatestFirst ns → LatestFirst (take i ns)
take-LatestFirst zero ns h = tt
take-LatestFirst (suc i) [] h = tt
take-LatestFirst (suc i) (n ∷ ns) h = (take-All _ i ns h.0, take-LatestFirst i ns h.1)

matching-All :
    (k : Decoder) (goal : String) (d : Dict Node)
    → All (λ (n : Node). is_match k goal n ≡ true) (matching_nodes k goal d)
unfolding matching_nodes
matching-All k goal [] = tt
matching-All k goal ((key, n) ∷ d) = elim (Bool-cases (is_match k goal n)) [
  | inl e ↦ rw e (e, matching-All k goal d)
  | inr e ↦ rw e (matching-All k goal d)
]

-- The number of the nodes that a test accepts.
unfoldable pub how_many : (Node → Bool) → List Node → ℕ
how_many p [] = 0
how_many p (n ∷ ns) = let rest = how_many p ns in if p n then suc rest else rest

insert-how_many :
    (p : Node → Bool) (n : Node) (ms : List Node)
    → how_many p (insert_by_time n ms) ≡ how_many p (n ∷ ms)
unfolding insert_by_time how_many
insert-how_many p n [] = refl
insert-how_many p n (m ∷ ms) = elim (Bool-cases (leb m.created_at n.created_at)) [
  | inl e ↦ rw e refl
  | inr e ↦ let ih = insert-how_many p n ms in rw e (ground (arith, ih))
]

sort-how_many : (p : Node → Bool) (ns : List Node) → how_many p (sort_by_time ns) ≡ how_many p ns
unfolding sort_by_time how_many
sort-how_many p [] = refl
sort-how_many p (n ∷ ns) =
    let ih = sort-how_many p ns in insert-how_many p n (sort_by_time ns) ∙ ground (arith, ih)

-- The values of a map, in its order.
unfoldable pub nodes_of : Dict Node → List Node
nodes_of [] = []
nodes_of ((key, n) ∷ d) = n ∷ nodes_of d

matching-how_many :
    (k : Decoder) (goal : String) (p : Node → Bool) (d : Dict Node)
    → how_many p (matching_nodes k goal d) ≡ how_many (λ n. is_match k goal n && p n) (nodes_of d)
unfolding matching_nodes how_many nodes_of
matching-how_many k goal p [] = refl
matching-how_many k goal p ((key, n) ∷ d) =
    let ih = matching-how_many k goal p d in
    elim (Bool-cases (is_match k goal n)) [ inl e ↦ rw e (ground (arith, ih)) | inr e ↦ rw e ih ]

cut-cases :
    (limit : ℕ) (ns : List Node)
    → ((0 < limit) × (limit < length ns) × (cut_to limit ns ≡ take limit ns))
      ⊎ (((limit ≡ 0) ⊎ (length ns ≤ limit)) × (cut_to limit ns ≡ ns))
unfolding cut_to
cut-cases limit ns = elim (Bool-cases (ltb 0 limit)) [
  | inr e ↦ inr (inl (ground (arith, e)), rw e refl)
  | inl e ↦ elim (Bool-cases (ltb limit (length ns))) [
    | inr f ↦ inr (inr (ground (arith, f)), rw (e, f) refl)
    | inl f ↦ inl (ground (arith, e), ground (arith, f), rw (e, f) refl)
  ]
]

-- The query returns attempts for the goal only, the latest first. Where there is no limit, or there are
-- not more of them than the limit, it returns every attempt for the goal that is in the map, each as
-- often as it is there; else it returns as many as the limit says, and these are the first of a
-- list that has every attempt and stands latest first.
pub query_improvement_history_result :
    (k : Decoder) (goal : String) (limit : ℕ) (g : Graph)
    → All (λ (n : Node). is_match k goal n ≡ true) (query_improvement_history k goal limit g)
      × LatestFirst (query_improvement_history k goal limit g)
      × ((all : List Node) × LatestFirst all
          × ((p : Node → Bool)
              → how_many p all ≡ how_many (λ n. is_match k goal n && p n) (nodes_of g.nodes))
          × (((0 < limit)
                × (length (query_improvement_history k goal limit g) ≡ limit)
                × (query_improvement_history k goal limit g ≡ take limit all))
              ⊎ (((limit ≡ 0) ⊎ (length all ≤ limit))
                  × (query_improvement_history k goal limit g ≡ all))))
unfolding query_improvement_history
query_improvement_history_result k goal limit g =
    let found = matching_nodes k goal g.nodes in
    let all = sort_by_time found in
    let good = sort-All _ found (matching-All k goal g.nodes) in
    let latest = sort-LatestFirst found in
    let counts : ((p : Node → Bool)
        → how_many p all ≡ how_many (λ n. is_match k goal n && p n) (nodes_of g.nodes)) =
      λ p. sort-how_many p found ∙ matching-how_many k goal p g.nodes in
    elim (cut-cases limit all) [
      | inl (pos, more, e) ↦ rw e (
        take-All _ limit all good,
        take-LatestFirst limit all latest,
        (all, latest, counts, inl (pos, ground (arith, length-take limit all), refl)),
      )
      | inr (why, e) ↦ rw e (good, latest, (all, latest, counts, inr (why, refl)))
    ]
