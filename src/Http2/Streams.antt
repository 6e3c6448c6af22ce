-- ===== src/Http2/Streams.antt =====
-- `H2Client.streams`, the map from a stream's number to its object: lookup, update in place, delete.
use scalpel_cli.Common.{
  ℕ, ◌≡◌, ◌≢◌, refl, List, [], ◌∷◌, Option, none, some, arith, ◌==◌, if◌then◌else◌, All,
}
use scalpel_cli.Http2.Types.{Stream, H2Error}

unfoldable pub find : ℕ → List Stream → Option Stream
find i [] = none
find i (s ∷ ss) = if s.id == i then some s else find i ss

-- The object of that number is mutated.
unfoldable pub put : Stream → List Stream → List Stream
put t [] = []
put t (s ∷ ss) = if s.id == t.id then t ∷ ss else s ∷ put t ss

unfoldable pub remove : ℕ → List Stream → List Stream
remove i [] = []
remove i (s ∷ ss) = if s.id == i then ss else s ∷ remove i ss

-- A send on `DoneChan` that does not wait: the first result stays.
unfoldable pub deliver : Option H2Error → Stream → Stream
deliver r s = elim s.done [ none ↦ record s { done = some r } | some _ ↦ s ]

deliver-id : (r : Option H2Error) (s : Stream) → (deliver r s).id ≡ s.id
unfolding deliver
deliver-id r s = ground arith

pub find-id : (i : ℕ) (ss : List Stream) {s : Stream} → find i ss ≡ some s → s.id ≡ i
unfolding find
find-id i [] h = ground arith
find-id i (t ∷ ss) {s} h = ground (arith, find-id i ss {s = s})

module _ {κ} (P : Stream → Type κ) where
  pub find-All : (i : ℕ) (ss : List Stream) {s : Stream} → find i ss ≡ some s → All P ss → P s
  unfolding find
  find-All i [] h k = ground arith
  find-All i (t ∷ ss) {s} h k = ground (arith, find-All i ss {s = s})

  pub put-All : (t : Stream) (ss : List Stream) → P t → All P ss → All P (put t ss)
  unfolding put
  put-All t [] h k = tt
  put-All t (s ∷ ss) h k = ground (arith, put-All t ss h k.1)

  pub remove-All : (i : ℕ) (ss : List Stream) → All P ss → All P (remove i ss)
  unfolding remove
  remove-All i [] k = tt
  remove-All i (s ∷ ss) k = ground (arith, remove-All i ss k.1)

pub find-put :
    (i : ℕ) (t : Stream) (ss : List Stream)
    → find i (put t ss)
      ≡ (if t.id == i then elim (find i ss) [ some _ ↦ some t | none ↦ none ] else find i ss)
unfolding find put
find-put i t [] = ground arith
find-put i t (s ∷ ss) = ground (arith, find-put i t ss)

pub find-remove : (i j : ℕ) (ss : List Stream) → j ≢ i → find j (remove i ss) ≡ find j ss
unfolding find remove
find-remove i j [] h = refl
find-remove i j (s ∷ ss) h = ground (arith, find-remove i j ss h)
