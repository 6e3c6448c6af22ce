-- ===== src/Discovery/Crawl.antt =====
-- The crawl of internal/discovery/engine.go: processAsset, dispatchTasksForAsset, crawlPage, worker and
-- the order in which Start ends.
use Prim.Native.String.{String}
use text.Mathlib.Text.{◌==◌ as str_eq}
use scalpel_cli.Common.{
  ℕ, zero, suc, ◌+◌, ◌-◌, Bool, true, false, List, [], ◌∷◌, ◌++◌, Option, none, some, ◌==◌, ltb,
  length, get_elem?, remove_at, if◌then◌else◌,
}
use scalpel_cli.Discovery.{Url, Net, Scope, normalize_and_validate}
use scalpel_cli.KnowledgeGraph.{Node, Edge, Graph, add_node, add_edge}

pub record CrawlTask : Type 0 where
  pub url : String
  pub depth : ℕ

-- A page that a worker crawls, with the links that are left.
pub record Page : Type 0 where
  pub url : String
  pub depth : ℕ
  pub links : List String

-- The settings that are read; `properties` is the JSON of a node.
pub record Settings : Type 0 where
  pub max_depth : ℕ
  pub queue_cap : ℕ
  pub has_taint : Bool
  pub has_headers : Bool
  pub has_jwt : Bool
  pub properties : ℕ → String → String

-- `Engine` in a session. `waiting` is the count of taskWG, `dispatched` the tasks with their URLs, and
-- `next_id` the number of identifiers that were made.
pub record Engine : Type 0 where
  pub processed : List String
  pub queue : List CrawlTask
  pub waiting : ℕ
  pub crawling : List Page
  pub dispatched : List (String × String)
  pub graph : Graph
  pub next_id : ℕ
  pub is_seeding : Bool
  pub is_closed : Bool
  pub has_panicked : Bool

abbrev pub new_session : Graph → Engine
new_session g = record {
  processed = [];
  queue = [];
  waiting = 0;
  crawling = [];
  dispatched = [];
  graph = g;
  next_id = 0;
  is_seeding = true;
  is_closed = false;
  has_panicked = false;
}

unfoldable pub is_processed : String → List String → Bool
is_processed u [] = false
is_processed u (v ∷ vs) = if str_eq v u then true else is_processed u vs

abbrev when {ℓ} : {A : Type ℓ} → Bool → A → List A
when b x = if b then x ∷ [] else []

-- `dispatchTasksForAsset`
unfoldable pub tasks_for : Settings → String → List (String × String)
tasks_for cfg url =
    when cfg.has_taint ("ANALYZE_WEB_PAGE_TAINT", url)
    ++ when cfg.has_headers ("ANALYZE_HEADERS", url)
    ++ when cfg.has_jwt ("ANALYZE_JWT", url)

abbrev pub node_of : (id type properties : String) → Node
node_of id type properties = record {
  id = id;
  node_type = type;
  label = id;
  status = "new";
  properties = properties;
  created_at = 0;
  last_seen = 0;
}

abbrev pub edge_of : (id from to relationship label : String) → Edge
edge_of id from to relationship label = record {
  id = id;
  from = from;
  to = to;
  relationship = relationship;
  label = label;
  properties = "";
  created_at = 0;
  last_seen = 0;
}

-- The calls of the graph in `processAsset`, whose errors are logged.
unfoldable pub record_asset :
    Scope → (url hostname properties : String) → (host_edge subdomain_edge : String) → Graph → Graph
record_asset s url hostname properties host_edge subdomain_edge g =
    let g₁ = add_node (node_of url "URL" properties) g in
    let g₂ = add_node (node_of hostname "DOMAIN" "") g₁ in
    let g₃ = (add_edge (edge_of host_edge hostname url "HOSTS_URL" "HOSTS_URL") g₂).0 in
    if str_eq hostname s.root_domain
    then g₃
    else (add_edge (edge_of subdomain_edge s.root_domain hostname "HAS_SUBDOMAIN" "HAS_SUBDOMAIN")
        g₃).0

-- A send on a closed channel panics, and a full one drops the task.
unfoldable pub enqueue_task : Settings → CrawlTask → Engine → Engine
enqueue_task cfg t e =
    if e.is_closed
    then record e { has_panicked = true }
    else if ltb (length e.queue) cfg.queue_cap
    then record e { queue = e.queue ++ t ∷ []; waiting = suc e.waiting }
    else e

-- A URL that is new: it is stored, its tasks are dispatched and the graph is told.
unfoldable pub note_asset : Net → Settings → Scope → Url → ℕ → String → Engine → Engine
note_asset net cfg s u depth source e =
    let url = net.print u in
    record e {
      processed = url ∷ e.processed;
      dispatched = e.dispatched ++ tasks_for cfg url;
      graph =
          record_asset s url (net.hostname u.host) (cfg.properties depth source)
            (net.new_id e.next_id) (net.new_id (suc e.next_id)) e.graph;
      next_id = e.next_id + 2;
    }

-- `processAsset`
unfoldable pub process_asset : Net → Settings → Scope → Url → ℕ → String → Engine → Engine
process_asset net cfg s u depth source e =
    let noted = note_asset net cfg s u depth source e in
    if is_processed (net.print u) e.processed
    then e
    else if ltb depth cfg.max_depth
    then enqueue_task cfg (record { url = net.print u; depth = depth }) noted
    else noted

abbrev pub process_if : Net → Settings → Scope → Option Url → ℕ → String → Engine → Engine
process_if net cfg s none depth source e = e
process_if net cfg s (some u) depth source e = process_asset net cfg s u depth source e

-- A seed, or a result of the passive runner, while there are some.
unfoldable pub seed : Net → Settings → Scope → (raw source : String) → Engine → Engine
seed net cfg s raw source e =
    if e.is_seeding
    then process_if net cfg s (normalize_and_validate net s raw "") 0 source e
    else e

abbrev or_no_links : Option (List String) → List String
or_no_links none = []
or_no_links (some links) = links

-- A worker takes a task; `browse` is NavigateAndExtract, with none for its error.
abbrev pub take_task : (String → Option (List String)) → List CrawlTask → Engine → Engine
take_task browse [] e = e
take_task browse (t ∷ ts) e = record e {
  queue = ts;
  crawling =
      record { url = t.url; depth = t.depth; links = or_no_links (browse t.url) } ∷ e.crawling;
}

unfoldable pub worker_takes : (String → Option (List String)) → Engine → Engine
worker_takes browse e = take_task browse e.queue e

-- A page without its next link, or the end of the page.
abbrev pub follow :
    Net → Settings → Scope → (url : String) (depth : ℕ) (links : List String) → Engine → Engine
follow net cfg s url depth [] e = record e { waiting = e.waiting - 1 }
follow net cfg s url depth (l ∷ ls) e =
    process_if net cfg s (normalize_and_validate net s l url) (suc depth) "Crawler"
      (record e { crawling = record { url = url; depth = depth; links = ls } ∷ e.crawling })

-- What `crawlPage` does next in the i-th page that is crawled.
unfoldable pub follow_link : Net → Settings → Scope → ℕ → Engine → Engine
follow_link net cfg s i e = elim (get_elem? e.crawling i) [
  | none ↦ e
  | some p ↦ follow net cfg s p.url p.depth p.links (record e { crawling = remove_at i e.crawling })
]

-- The seeding is over.
unfoldable pub end_seeding : Engine → Engine
end_seeding e = record e { is_seeding = false }

-- The queue is closed when the seeding is over and no task is waited for.
unfoldable pub close_queue : Engine → Engine
close_queue e =
    if e.is_seeding then e else if e.waiting == 0 then record e { is_closed = true } else e

-- `crawlPage` on the links that are left, where no other worker comes between.
unfoldable pub follow_all :
    Net → Settings → Scope → (url : String) (depth : ℕ) → List String → Engine → Engine
follow_all net cfg s url depth [] e = record e { waiting = e.waiting - 1 }
follow_all net cfg s url depth (l ∷ ls) e =
    follow_all net cfg s url depth ls
      (process_if net cfg s (normalize_and_validate net s l url) (suc depth) "Crawler" e)

unfoldable pub crawl_page :
    Net → Settings → Scope → (String → Option (List String)) → CrawlTask → Engine → Engine
crawl_page net cfg s browse t e = follow_all net cfg s t.url t.depth (or_no_links (browse t.url)) e

abbrev pub crawl_next :
    Net → Settings → Scope → (String → Option (List String)) → List CrawlTask → Engine → Engine
crawl_next net cfg s browse [] e = e
crawl_next net cfg s browse (t ∷ ts) e = crawl_page net cfg s browse t (record e { queue = ts })

-- The loop of one worker, for so many tasks.
unfoldable pub crawl :
    Net → Settings → Scope → (String → Option (List String)) → ℕ → Engine → Engine
crawl net cfg s browse zero e = e
crawl net cfg s browse (suc n) e = crawl net cfg s browse n (crawl_next net cfg s browse e.queue e)
