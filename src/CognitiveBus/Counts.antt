-- ===== src/CognitiveBus/Counts.antt =====
-- How often a channel stands in a list, and the messages that wait in the channels.
use scalpel_cli.Common.{
  ℕ, zero, suc, ◌+◌, ◌-◌, ◌≡◌, ◌∙◌, refl, ap, true, false, List, [], ◌∷◌, ◌++◌, some, arith, ◌==◌,
  if◌then◌else◌, length, get_elem?, set,
}
use scalpel_cli.CognitiveBus.{
  Channel, Posting, entered, delivering, selecting, contains, unique, remove_at,
}
use scalpel_cli.CognitiveBus.Closing.{close_channel, close_all}
use scalpel_cli.CognitiveBus.Subscribers.{without}

unfoldable pub count : ℕ → List ℕ → ℕ
count i [] = 0
count i (j ∷ js) = if j == i then 1 + count i js else count i js

pub count-append : (i : ℕ) (xs ys : List ℕ) → count i (xs ++ ys) ≡ count i xs + count i ys
unfolding count
count-append i [] ys = omega arith
count-append i (x ∷ xs) ys = ground (arith, count-append i xs ys)

pub contains-count :
    (i : ℕ) (xs : List ℕ) → contains i xs ≡ (if count i xs == 0 then false else true)
unfolding contains count
contains-count i [] = refl
contains-count i (x ∷ xs) = ground (arith, contains-count i xs)

pub count-unique : (i : ℕ) (xs : List ℕ) → count i (unique xs) ≡ (if count i xs == 0 then 0 else 1)
unfolding unique count
count-unique i [] = refl
count-unique i (x ∷ xs) = ground (arith, count-unique i xs, contains-count x xs)

pub count-without :
    (i ch : ℕ) (xs : List ℕ) → count i (without ch xs) ≡ count i xs - (if ch == i then 1 else 0)
unfolding without count
count-without i ch [] = ground arith
count-without i ch (x ∷ xs) = ground (arith, count-without i ch xs)

-- The messages in the buffers.
unfoldable pub waiting_in : List Channel → ℕ
waiting_in [] = 0
waiting_in (k ∷ ks) = length k.queue + waiting_in ks

pub waiting_in-append :
    (ks js : List Channel) → waiting_in (ks ++ js) ≡ waiting_in ks + waiting_in js
unfolding waiting_in
waiting_in-append [] js = omega arith
waiting_in-append (k ∷ ks) js = omega (arith, waiting_in-append ks js)

pub waiting_in-set :
    (ks : List Channel) (i : ℕ) (k j : Channel)
    → get_elem? ks i ≡ some k
    → waiting_in (set ks i j) + length k.queue ≡ waiting_in ks + length j.queue
unfolding waiting_in
waiting_in-set [] i k j h = ground arith
waiting_in-set (x ∷ ks) zero k j h = ground arith
waiting_in-set (x ∷ ks) (suc i) k j h = omega (arith, waiting_in-set ks i k j h)

waiting_in-close_channel :
    (ks : List Channel) (i : ℕ) → waiting_in (close_channel ks i) ≡ waiting_in ks
unfolding close_channel waiting_in
waiting_in-close_channel [] i = refl
waiting_in-close_channel (k ∷ ks) zero = refl
waiting_in-close_channel (k ∷ ks) (suc i) = ground (arith, waiting_in-close_channel ks i)

pub waiting_in-close_all :
    (is : List ℕ) (ks : List Channel) → waiting_in (close_all is ks) ≡ waiting_in ks
unfolding close_all
waiting_in-close_all [] ks = refl
waiting_in-close_all (i ∷ is) ks =
    waiting_in-close_all is (close_channel ks i) ∙ waiting_in-close_channel ks i

pub length-remove_at :
    (n : ℕ) (ps : List Posting) {p : Posting}
    → get_elem? ps n ≡ some p
    → suc (length (remove_at n ps)) ≡ length ps
unfolding remove_at
length-remove_at n [] h = ground arith
length-remove_at zero (x ∷ ps) h = refl
length-remove_at (suc n) (x ∷ ps) {p} h = ap suc (length-remove_at n ps {p = p} h)

-- Whether a call of `Post` has counted a message that it has not sent.
abbrev pub unsent_by : Posting → ℕ
unsent_by (entered m) = 0
unsent_by (delivering m chs) = 0
unsent_by (selecting m ch rest) = 1

-- The messages that are counted and not sent.
unfoldable pub unsent_in : List Posting → ℕ
unsent_in [] = 0
unsent_in (p ∷ ps) = unsent_by p + unsent_in ps

pub unsent_in-set :
    (ps : List Posting) (i : ℕ) (p q : Posting)
    → get_elem? ps i ≡ some p
    → unsent_in (set ps i q) + unsent_by p ≡ unsent_in ps + unsent_by q
unfolding unsent_in
unsent_in-set [] i p q h = ground arith
unsent_in-set (x ∷ ps) zero p q h = ground (arith, h)
unsent_in-set (x ∷ ps) (suc i) p q h = omega (arith, unsent_in-set ps i p q h)

pub unsent_in-remove_at :
    (n : ℕ) (ps : List Posting) (p : Posting)
    → get_elem? ps n ≡ some p
    → unsent_in (remove_at n ps) + unsent_by p ≡ unsent_in ps
unfolding unsent_in remove_at
unsent_in-remove_at n [] p h = ground arith
unsent_in-remove_at zero (x ∷ ps) p h = ground (arith, h)
unsent_in-remove_at (suc n) (x ∷ ps) p h = omega (arith, unsent_in-remove_at n ps p h)
