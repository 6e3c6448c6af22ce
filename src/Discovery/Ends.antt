-- ===== src/Discovery/Ends.antt =====
-- That the crawl of internal/discovery/engine.go ends.
use Prim.Native.String.{String}
use mathlib.Core.List.{append-nil, append_assoc}
use scalpel_cli.Common.{
  ℕ, zero, suc, ◌+◌, ◌≤◌, ◌<◌, ◌≡◌, refl, sym, ap, ◌∙◌, subst, List, [], ◌∷◌, ◌++◌, Option, none,
  some, inl, inr, All, All-append, arith, length, ltb, ltb→lt, Bool-cases,
}
use scalpel_cli.Discovery.{Url, Net, Scope, normalize_and_validate}
use scalpel_cli.Discovery.Crawl.{
  CrawlTask, Settings, Engine, is_processed, note_asset, enqueue_task, process_asset, process_if,
  follow_all, crawl_page, crawl_next, crawl,
}

sum_zero : (m : ℕ) → 0 + m ≡ m
sum_zero m = omega arith

sum_suc : (n m : ℕ) → suc n + m ≡ suc (n + m)
sum_suc n m = omega arith

module _ (net : Net) (cfg : Settings) (s : Scope) where
  -- Tasks of a depth from d on, below the limit.
  abbrev Deep : ℕ → List CrawlTask → Type 0
  Deep d q = All (λ (t : CrawlTask). (d ≤ t.depth) × (t.depth < cfg.max_depth)) q

  -- The queue has new tasks of this depth behind it.
  abbrev Grown : ℕ → List CrawlTask → Engine → Type 0
  Grown d q e = (new : List CrawlTask) × (e.queue ≡ q ++ new) × Deep d new

  Grown-trans :
      (d : ℕ) (q : List CrawlTask) (e f : Engine) → Grown d q e → Grown d e.queue f → Grown d q f
  Grown-trans d q e f (xs, h, dx) (ys, k, dy) =
      (xs ++ ys, k ∙ ap (λ z. z ++ ys) h ∙ append_assoc q xs ys, All-append _ xs ys dx dy)

  enqueue-Grown :
      (t : CrawlTask) (e : Engine)
      → t.depth < cfg.max_depth
      → Grown t.depth e.queue (enqueue_task cfg t e)
  unfolding enqueue_task
  enqueue-Grown t e h = elim (Bool-cases e.is_closed) [
    | inl c ↦ simp (c) ([], sym (append-nil e.queue), tt)
    | inr c ↦ elim (Bool-cases (ltb (length e.queue) cfg.queue_cap)) [
      | inl l ↦ simp (c, l) (t ∷ [], refl, ((omega arith, h), tt))
      | inr l ↦ simp (c, l) ([], sym (append-nil e.queue), tt)
    ]
  ]

  process-Grown :
      (u : Url) (d : ℕ) (source : String) (e : Engine)
      → Grown d e.queue (process_asset net cfg s u d source e)
  unfolding process_asset note_asset
  process-Grown u d source e = elim (Bool-cases (is_processed (net.print u) e.processed)) [
    | inl p ↦ simp (p) ([], sym (append-nil e.queue), tt)
    | inr p ↦ elim (Bool-cases (ltb d cfg.max_depth)) [
      | inl l ↦
          simp (p, l)
            (enqueue-Grown (record { url = net.print u; depth = d })
              (note_asset net cfg s u d source e) (ltb→lt d cfg.max_depth l))
      | inr l ↦ simp (p, l) ([], sym (append-nil e.queue), tt)
    ]
  ]

  process_if-Grown :
      (o : Option Url) (d : ℕ) (source : String) (e : Engine)
      → Grown d e.queue (process_if net cfg s o d source e)
  process_if-Grown none d source e = ([], sym (append-nil e.queue), tt)
  process_if-Grown (some u) d source e = process-Grown u d source e

  follow_all-Grown :
      (url : String) (d : ℕ) (ls : List String) (e : Engine)
      → Grown (suc d) e.queue (follow_all net cfg s url d ls e)
  unfolding follow_all
  follow_all-Grown url d [] e = ([], sym (append-nil e.queue), tt)
  follow_all-Grown url d (l ∷ ls) e =
      let next = process_if net cfg s (normalize_and_validate net s l url) (suc d) "Crawler" e in
      Grown-trans (suc d) e.queue next (follow_all net cfg s url d ls next)
        (process_if-Grown (normalize_and_validate net s l url) (suc d) "Crawler" e)
        (follow_all-Grown url d ls next)

  Deep-weaken : (d k : ℕ) (q : List CrawlTask) → d ≤ k → Deep k q → Deep d q
  Deep-weaken d k [] h a = tt
  Deep-weaken d k (t ∷ q) h a = ((omega (arith, h, a.0.0), a.0.1), Deep-weaken d k q h a.1)

  module _ (browse : String → Option (List String)) where
    page-Grown :
        (t : CrawlTask) (e : Engine) → Grown (suc t.depth) e.queue (crawl_page net cfg s browse t e)
    unfolding crawl_page
    page-Grown t e = follow_all-Grown t.url t.depth _ e

    -- After the tasks of one depth, the queue holds deeper ones only.
    generation :
        (d : ℕ) (xs ys : List CrawlTask) (e : Engine)
        → e.queue ≡ xs ++ ys
        → Deep d xs
        → Deep (suc d) ys
        → Deep (suc d) (crawl net cfg s browse (length xs) e).queue
    unfolding crawl
    generation d [] ys e h a b = subst (λ q. Deep (suc d) q) (sym h) b
    generation d (t ∷ xs) ys e h a b =
        let next = crawl_page net cfg s browse t (record e { queue = xs ++ ys }) in
        let (new, grown, deep) = page-Grown t (record e { queue = xs ++ ys }) in
        let on = generation d xs (ys ++ new) next (grown ∙ append_assoc xs ys new) a.1 (
          All-append _ ys new b
            (Deep-weaken (suc d) (suc t.depth) new (omega (arith, a.0.0)) deep)) in
        subst
          (λ q.
            Deep (suc d)
              (crawl net cfg s browse (length xs) (crawl_next net cfg s browse q e)).queue)
          (sym h) on

    crawl-add :
        (n m : ℕ) (e : Engine)
        → crawl net cfg s browse (n + m) e ≡ crawl net cfg s browse m (crawl net cfg s browse n e)
    unfolding crawl
    crawl-add zero m e = ap (λ k. crawl net cfg s browse k e) (sum_zero m)
    crawl-add (suc n) m e =
        ap (λ k. crawl net cfg s browse k e) (sum_suc n m)
        ∙ crawl-add n m (crawl_next net cfg s browse e.queue e)

    none_below : (d : ℕ) (q : List CrawlTask) → cfg.max_depth ≤ d → Deep d q → q ≡ []
    none_below d [] h a = refl
    none_below d (t ∷ q) h a = absurd (omega (arith, h, a.0.0, a.0.1))

    crawl_ends_from :
        (m d : ℕ) (e : Engine)
        → cfg.max_depth ≤ d + m
        → Deep d e.queue
        → (n : ℕ) × ((crawl net cfg s browse n e).queue ≡ [])
    unfolding crawl
    crawl_ends_from zero d e h a = (0, none_below d e.queue (omega (arith, h)) a)
    crawl_ends_from (suc m) d e h a =
        let next = crawl net cfg s browse (length e.queue) e in
        let (n, done) =
          crawl_ends_from m (suc d) next (omega (arith, h))
            (generation d e.queue [] e (sym (append-nil e.queue)) a tt) in
        (length e.queue + n, ap (λ f. f.queue) (crawl-add (length e.queue) n e) ∙ done)

    -- From any state whose queued tasks are below the depth limit, one worker empties the queue
    -- after some number of tasks, whatever the pages link to.
    pub crawl_ends :
        (e : Engine)
        → All (λ (t : CrawlTask). t.depth < cfg.max_depth) e.queue
        → (n : ℕ) × ((crawl net cfg s browse n e).queue ≡ [])
    crawl_ends e a = crawl_ends_from cfg.max_depth 0 e (omega arith) (from_start e.queue a)
      where
        from_start :
            (q : List CrawlTask) → All (λ (t : CrawlTask). t.depth < cfg.max_depth) q → Deep 0 q
        from_start [] b = tt
        from_start (t ∷ q) b = ((omega arith, b.0), from_start q b.1)
