-- ===== src/Discovery/Steps.antt =====
-- The crawl of internal/discovery/engine.go in every order of its steps.
use Prim.Native.String.{String}
use scalpel_cli.Common.{
  ℕ, suc, ◌<◌, ◌≡◌, refl, ap, subst, false, List, [], ◌∷◌, Option, some, inl, inr, All, arith,
  length, get_elem?, remove_at, length-remove_at, ◌==◌, Bool-cases, Option-cases,
}
use scalpel_cli.KnowledgeGraph.{Graph}
use scalpel_cli.Discovery.{Net, Scope, normalize_and_validate}
use scalpel_cli.Discovery.Normal.{StableHosts, accepted-IsNormal}
use scalpel_cli.Discovery.Crawl.{
  CrawlTask, Page, Settings, Engine, new_session, process_if, seed, take_task, worker_takes, follow,
  follow_link, end_seeding, close_queue,
}
use scalpel_cli.Discovery.Invariant.{Inv, new_session-Inv, process_asset-Inv}

pub data Step (net : Net) (cfg : Settings) (s : Scope) : Engine → Engine → Type 0 where
  seeded : (raw source : String) (e : Engine) → Step net cfg s e (seed net cfg s raw source e)
  worker_took :
      (browse : String → Option (List String)) (e : Engine)
      → Step net cfg s e (worker_takes browse e)
  link_followed : (n : ℕ) (e : Engine) → Step net cfg s e (follow_link net cfg s n e)
  seeding_ended : (e : Engine) → Step net cfg s e (end_seeding e)
  queue_closed : (e : Engine) → Step net cfg s e (close_queue e)

pub data Reach (net : Net) (cfg : Settings) (s : Scope) (start : Engine) : Engine → Type 0 where
  here : Reach net cfg s start start
  later : {d e : Engine} → Reach net cfg s start d → Step net cfg s d e → Reach net cfg s start e

module _ (net : Net) (cfg : Settings) (s : Scope) where
  module _ (stable : StableHosts net s) where
    process_if-Inv :
        (raw base : String) (depth : ℕ) (source : String) (e : Engine)
        → e.is_closed ≡ false
        → Inv net cfg s e
        → Inv net cfg s
            (process_if net cfg s (normalize_and_validate net s raw base) depth source e)
    process_if-Inv raw base depth source e c i =
        elim (Option-cases (normalize_and_validate net s raw base)) [
          | inl n ↦ rw (n) i
          | inr (u, n) ↦ rw (n) (
              process_asset-Inv net cfg s stable u depth source e
                (accepted-IsNormal net s stable raw base u n) c i)
        ]

    seed-Inv :
        (raw source : String) (e : Engine)
        → Inv net cfg s e
        → Inv net cfg s (seed net cfg s raw source e)
    unfolding seed
    seed-Inv raw source e i = elim (Bool-cases e.is_seeding) [
      | inl b ↦ simp (b) (process_if-Inv raw "" 0 source e (ground (arith, b, i.closed)) i)
      | inr b ↦ simp (b) i
    ]

    take_task-Inv :
        (browse : String → Option (List String)) (ts : List CrawlTask) (e : Engine)
        → e.queue ≡ ts
        → Inv net cfg s e
        → Inv net cfg s (take_task browse ts e)
    take_task-Inv browse [] e h i = i
    take_task-Inv browse (t ∷ ts) e h i = record {
      counted = omega (arith, i.counted, ap length h);
      closed = i.closed;
      calm = i.calm;
      assets = i.assets;
      depths = (subst (λ q. All (λ (t : CrawlTask). t.depth < cfg.max_depth) q) h i.depths).1;
      once = i.once;
    }

    still_open :
        (n : ℕ) (p : Page) (e : Engine)
        → get_elem? e.crawling n ≡ some p
        → Inv net cfg s e
        → e.is_closed ≡ false
    still_open n p e g i = elim (Bool-cases e.is_closed) [
      | inl c ↦ absurd (omega (arith, i.counted, (i.closed c).1, length-remove_at n e.crawling p g))
      | inr c ↦ c
    ]

    follow-Inv :
        (n : ℕ) (p : Page) (ls : List String) (e : Engine)
        → get_elem? e.crawling n ≡ some p
        → Inv net cfg s e
        → Inv net cfg s
            (follow net cfg s p.url p.depth ls (record e { crawling = remove_at n e.crawling }))
    follow-Inv n p [] e g i =
        let c = still_open n p e g i in
        record {
          counted = omega (arith, i.counted, length-remove_at n e.crawling p g);
          closed = λ h. absurd (ground (arith, c, h));
          calm = i.calm;
          assets = i.assets;
          depths = i.depths;
          once = i.once;
        }
    follow-Inv n p (l ∷ ls) e g i =
        process_if-Inv l p.url (suc p.depth) "Crawler"
          (record e { crawling = record p { links = ls } ∷ remove_at n e.crawling })
          (still_open n p e g i)
          (record {
            counted = omega (arith, i.counted, length-remove_at n e.crawling p g);
            closed = i.closed;
            calm = i.calm;
            assets = i.assets;
            depths = i.depths;
            once = i.once;
          })

    follow_link-Inv :
        (n : ℕ) (e : Engine) → Inv net cfg s e → Inv net cfg s (follow_link net cfg s n e)
    unfolding follow_link
    follow_link-Inv n e i = elim (Option-cases (get_elem? e.crawling n)) [
      | inl g ↦ rw (g, follow_link) i
      | inr (p, g) ↦ rw (g, follow_link) (follow-Inv n p p.links e g i)
    ]

    close_queue-Inv : (e : Engine) → Inv net cfg s e → Inv net cfg s (close_queue e)
    unfolding close_queue
    close_queue-Inv e i = elim (Bool-cases e.is_seeding) [
      | inl b ↦ simp (b) i
      | inr b ↦ elim (Bool-cases (e.waiting == 0)) [
        | inl z ↦
            simp (b, z)
              (record {
                counted = i.counted;
                closed = λ h. (refl, ground (arith, z));
                calm = i.calm;
                assets = i.assets;
                depths = i.depths;
                once = i.once;
              })
        | inr z ↦ simp (b, z) i
      ]
    ]

    Step-Inv : {d e : Engine} → Step net cfg s d e → Inv net cfg s d → Inv net cfg s e
    unfolding worker_takes end_seeding
    Step-Inv (seeded raw source e) i = seed-Inv raw source e i
    Step-Inv (worker_took browse e) i = take_task-Inv browse e.queue e refl i
    Step-Inv (link_followed n e) i = follow_link-Inv n e i
    Step-Inv (seeding_ended e) i = record {
      counted = i.counted;
      closed = λ h. (refl, (i.closed h).1);
      calm = i.calm;
      assets = i.assets;
      depths = i.depths;
      once = i.once;
    }
    Step-Inv (queue_closed e) i = close_queue-Inv e i

    -- In every order of seeds, workers and the links of their pages, where no host in scope has a
    -- port after it was taken off: the count of tasks that are waited for is that of the queue and
    -- of the pages under way, the queue is closed only when the seeding is over and nothing is
    -- waited for, and nothing is sent to it then; every URL that was processed is a normal one in
    -- scope, every task in the queue is below the depth limit, and no task is dispatched twice for
    -- one URL.
    pub crawl-Inv : (g : Graph) {e : Engine} → Reach net cfg s (new_session g) e → Inv net cfg s e
    crawl-Inv g here = new_session-Inv net cfg s g
    crawl-Inv g (later r st) = Step-Inv st (crawl-Inv g r)
