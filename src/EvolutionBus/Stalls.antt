-- ===== src/EvolutionBus/Stalls.antt =====
-- A shutdown that waits for messages nobody can take.
use scalpel_cli.Common.{
  ℕ, zero, suc, ◌≡◌, ◌≢◌, ◌≤◌, ◌<◌, ◌⊎◌, refl, sym, subst, ◌∙◌, inl, inr, true, false, List, [],
  ◌∷◌, some, arith, ◌==◌, length, get_elem?, set, Option-cases, Bool-cases,
}
use scalpel_cli.CognitiveBus.{Channel, Phase, Bus, unique, contains}
use scalpel_cli.CognitiveBus.Closing.{all_subscribers, close_channel, close_all}
use scalpel_cli.CognitiveBus.Counts.{waiting_in, contains-count, count-unique}
use scalpel_cli.CognitiveBus.Safety.{Safe}
use scalpel_cli.EvolutionBus.{emptied, drain, closed_and_drained, shutdown_step}
use scalpel_cli.EvolutionBus.Safety.{shutdown_step-Safe}

get-set-other :
    (ks : List Channel) (i j : ℕ) (k : Channel)
    → (i == j) ≡ false
    → get_elem? (set ks i k) j ≡ get_elem? ks j
get-set-other [] i j k h = refl
get-set-other (x ∷ ks) zero zero k h = absurd (ground (arith, h))
get-set-other (x ∷ ks) zero (suc j) k h = refl
get-set-other (x ∷ ks) (suc i) zero k h = refl
get-set-other (x ∷ ks) (suc i) (suc j) k h = get-set-other ks i j k (ground (arith, h))

get-close_channel :
    (ks : List Channel) (i j : ℕ)
    → (i == j) ≡ false
    → get_elem? (close_channel ks i) j ≡ get_elem? ks j
unfolding close_channel
get-close_channel ks i j h = elim (Option-cases (get_elem? ks i)) [
  | inl e ↦ rw (e, close_channel) refl
  | inr (k, e) ↦ rw (e, close_channel) (get-set-other ks i j _ h)
]

-- A list without a channel.
abbrev Misses : ℕ → List ℕ → Type 0
Misses j chs = contains j chs ≡ false

Misses-head : (j i : ℕ) (chs : List ℕ) → Misses j (i ∷ chs) → ((i == j) ≡ false) × Misses j chs
unfolding contains
Misses-head j i chs h = ground (arith, h)

get-close_all :
    (chs : List ℕ) (ks : List Channel) (j : ℕ)
    → Misses j chs
    → get_elem? (close_all chs ks) j ≡ get_elem? ks j
unfolding close_all
get-close_all [] ks j h = refl
get-close_all (i ∷ chs) ks j h =
    let (n, m) = Misses-head j i chs h in
    get-close_all chs (close_channel ks i) j m ∙ get-close_channel ks i j n

get-drain :
    (chs : List ℕ) (ks : List Channel) (j : ℕ)
    → Misses j chs
    → get_elem? (drain chs ks).0 j ≡ get_elem? ks j
unfolding drain
get-drain [] ks j h = refl
get-drain (i ∷ chs) ks j h =
    let (n, m) = Misses-head j i chs h in
    elim (Option-cases (get_elem? ks i)) [
      | inl e ↦ rw (e, drain) (get-drain chs ks j m)
      | inr (k, e) ↦
          rw (e, drain)
            (get-drain chs (set ks i (emptied k)) j m ∙ get-set-other ks i j (emptied k) n)
    ]

waiting_in-get :
    (ks : List Channel) (i : ℕ) (k : Channel)
    → get_elem? ks i ≡ some k
    → length k.queue ≤ waiting_in ks
unfolding waiting_in
waiting_in-get [] i k h = absurd (ground (arith, h))
waiting_in-get (x ∷ ks) zero k h = ground (arith, h)
waiting_in-get (x ∷ ks) (suc i) k h = omega (arith, waiting_in-get ks i k h)

Misses-unique : (j : ℕ) (chs : List ℕ) → Misses j chs → Misses j (unique chs)
Misses-unique j chs h =
    ground (arith, h, contains-count j chs, contains-count j (unique chs), count-unique j chs)

-- The shutdown waits for the posts or for the consumers, and a channel that no list has holds a message.
abbrev Stalled : ℕ → Channel → Bus → Type 0
Stalled j k b =
    ((b.phase ≡ Phase.stopping) ⊎ (b.phase ≡ Phase.closing))
    × (get_elem? b.channels j ≡ some k)
    × Misses j (all_subscribers b.subscribers)

abbrev listed : Bus → List ℕ
listed b = unique (all_subscribers b.subscribers)

closes :
    (b : Bus)
    → b.phase ≡ Phase.stopping
    → (b.active_posts == 0) ≡ true
    → shutdown_step b ≡ closed_and_drained (drain (listed b) (close_all (listed b) b.channels)) b
unfolding shutdown_step
closes b p e = ground (arith, p, e)

waits_for_posts :
    (b : Bus) → b.phase ≡ Phase.stopping → (b.active_posts == 0) ≡ false → shutdown_step b ≡ b
unfolding shutdown_step
waits_for_posts b p e = ground (arith, p, e)

waits_for_consumers :
    (b : Bus) → b.phase ≡ Phase.closing → (b.processing == 0) ≡ false → shutdown_step b ≡ b
unfolding shutdown_step
waits_for_consumers b p e = ground (arith, p, e)

shutdown_step-Stalled :
    (j : ℕ) (k : Channel) (b : Bus)
    → 0 < length k.queue
    → Safe b
    → Stalled j k b
    → Stalled j k (shutdown_step b)
unfolding all_subscribers contains
shutdown_step-Stalled j k b n v (inl p, g, m) =
    let u = Misses-unique j (all_subscribers b.subscribers) m in
    let kept =
      get-drain (listed b) (close_all (listed b) b.channels) j u
      ∙ get-close_all (listed b) b.channels j u in
    elim (Bool-cases (b.active_posts == 0)) [
      | inl e ↦ subst (Stalled j k) (sym (closes b p e)) (inr refl, kept ∙ g, refl)
      | inr e ↦ subst (Stalled j k) (sym (waits_for_posts b p e)) (inl p, g, m)
    ]
shutdown_step-Stalled j k b n v (inr p, g, m) =
    let o = v.owed in
    let e : (b.processing == 0) ≡ false = ground (arith, o, waiting_in-get b.channels j k g, n) in
    subst (Stalled j k) (sym (waits_for_consumers b p e)) (inr p, g, m)

abbrev pub shutdown_steps : ℕ → Bus → Bus
shutdown_steps zero b = b
shutdown_steps (suc n) b = shutdown_steps n (shutdown_step b)

Stalled-stays :
    (j : ℕ) (k : Channel) (n : ℕ) (b : Bus)
    → 0 < length k.queue
    → Safe b
    → Stalled j k b
    → (shutdown_steps n b).phase ≢ Phase.finished
Stalled-stays j k zero b q v (inl p, g, m) h = ground (arith, p, h)
Stalled-stays j k zero b q v (inr p, g, m) h = ground (arith, p, h)
Stalled-stays j k (suc n) b q v s h =
    Stalled-stays j k n (shutdown_step b) q (shutdown_step-Safe b v)
      (shutdown_step-Stalled j k b q v s) h

-- Once Shutdown of the evolution bus has closed shutdownChan, it never returns, however often it
-- looks, while a channel that no type lists, since its consumer has unsubscribed, holds a message
-- that nobody takes.
pub unsubscribed_stalls :
    (j : ℕ) (k : Channel) (n : ℕ) (b : Bus)
    → Safe b
    → b.phase ≡ Phase.stopping
    → get_elem? b.channels j ≡ some k
    → contains j (all_subscribers b.subscribers) ≡ false
    → 0 < length k.queue
    → (shutdown_steps n b).phase ≢ Phase.finished
unsubscribed_stalls j k n b v p g m q = Stalled-stays j k n b q v (inl p, g, m)
