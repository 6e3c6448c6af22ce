-- ===== src/Http2/HeaderBlocks.antt =====
-- writeHeaders.writeFrame: how a header block is cut into HEADERS and CONTINUATION frames.
use scalpel_cli.Common.{
  ℕ, zero, suc, ◌+◌, ◌%◌, ◌==◌, if◌then◌else◌, ◌≤◌, ◌<◌, ◌≡◌, ◌∙◌, refl, ap, Bool, true, false,
  List, [], ◌∷◌, ◌++◌, arith, length, take, drop, length-take, length-drop, take-append-drop, ltb,
  leb,
}
use mathlib.Core.List.{append-nil}
use native.Mathlib.Decide.{dec_le}
use scalpel_cli.Http2.Types.{OutFrame, out_headers, out_continuation, uint32_mod}
use scalpel_cli.Http2.Writes.{continuations, header_frames}

-- The part of a header block that a frame carries.
unfoldable pub fragment : OutFrame → List ℕ
fragment (out_headers i b es eh pad) = b
fragment (out_continuation i eh b) = b
fragment _ = []

unfoldable pub block_of : List OutFrame → List ℕ
block_of [] = []
block_of (f ∷ fs) = fragment f ++ block_of fs

-- CONTINUATION frames of one stream, of which the last alone ends the headers.
pub data Continues (i max : ℕ) : List OutFrame → Type 0 where
  last : (b : List ℕ) → length b ≤ max → Continues i max (out_continuation i true b ∷ [])
  more :
      (b : List ℕ) {fs : List OutFrame}
      → length b ≤ max
      → Continues i max fs
      → Continues i max (out_continuation i false b ∷ fs)

-- A HEADERS frame with the padding and the END_STREAM flag, and CONTINUATION frames behind it where
-- it does not end the headers itself.
pub data WellCut (i max : ℕ) (end_stream : Bool) (pad : ℕ) : List OutFrame → Type 0 where
  whole :
      (b : List ℕ)
      → length b ≤ max
      → WellCut i max end_stream pad (out_headers i b end_stream true pad ∷ [])
  parts :
      (b : List ℕ) {fs : List OutFrame}
      → length b ≤ max
      → Continues i max fs
      → WellCut i max end_stream pad (out_headers i b end_stream false pad ∷ fs)

size_mod : (n : ℕ) → n < uint32_mod → n % uint32_mod ≡ n
size_mod n h = omega arith

take_le : (n : ℕ) (xs : List ℕ) → length (take n xs) ≤ n
take_le n xs = omega (arith, length-take n xs)

take_all : (n : ℕ) (xs : List ℕ) → length xs ≤ n → (take n xs ≡ xs) × (drop n xs ≡ [])
take_all zero [] h = (refl, refl)
take_all zero (x ∷ xs) h = absurd (omega (arith, h))
take_all (suc n) [] h = (refl, refl)
take_all (suc n) (x ∷ xs) h = let r = take_all n xs (omega (arith, h)) in (ap (◌∷◌ x) r.0, r.1)

le→leb : (a b : ℕ) → a ≤ b → leb a b ≡ true
le→leb a b h = ground arith

lt→leb_false : (a b : ℕ) → b < a → leb a b ≡ false
lt→leb_false a b h = ground arith

le→ltb_false : (a b : ℕ) → a ≤ b → ltb b a ≡ false
le→ltb_false a b h = ground arith

lt→ltb_true : (a b : ℕ) → a < b → ltb a b ≡ true
lt→ltb_true a b h = ground arith

-- A block that fits is one last frame; a longer one is a full frame and the rest.
continuations_last :
    (n i : ℕ) (b : ℕ) (bs : List ℕ) (max : ℕ)
    → length (b ∷ bs) < uint32_mod
    → length (b ∷ bs) ≤ max
    → continuations (suc n) i (b ∷ bs) max
      ≡ out_continuation i true (b ∷ bs) ∷ continuations n i [] max
unfolding continuations
continuations_last n i b bs max h k =
    let t = take_all (length (b ∷ bs)) (b ∷ bs) (omega arith) in
    rw (size_mod (length (b ∷ bs)) h, le→leb _ _ k, le→ltb_false _ _ k, t.0, t.1)

continuations_more :
    (n i : ℕ) (b : ℕ) (bs : List ℕ) (max : ℕ)
    → length (b ∷ bs) < uint32_mod
    → max < length (b ∷ bs)
    → continuations (suc n) i (b ∷ bs) max
      ≡ out_continuation i false (take max (b ∷ bs)) ∷ continuations n i (drop max (b ∷ bs)) max
unfolding continuations
continuations_more n i b bs max h k =
    rw (size_mod (length (b ∷ bs)) h, lt→leb_false _ _ k, lt→ltb_true _ _ k)

continuations-nil : (n i max : ℕ) → continuations n i [] max ≡ []
unfolding continuations
continuations-nil zero i max = refl
continuations-nil (suc n) i max = refl

abbrev Good : (i max : ℕ) → List ℕ → List OutFrame → Type 0
Good i max block fs = (block_of fs ≡ block) × Continues i max fs

Good-last :
    (i max : ℕ) (block : List ℕ)
    → length block ≤ max
    → Good i max block (out_continuation i true block ∷ [])
unfolding block_of fragment
Good-last i max block k = (append-nil block, last block k)

Good-more :
    (i max : ℕ) (block : List ℕ) (fs : List OutFrame)
    → Good i max (drop max block) fs
    → Good i max block (out_continuation i false (take max block) ∷ fs)
unfolding block_of fragment
Good-more i max block fs g = (
  ap (◌++◌ (take max block)) g.0 ∙ take-append-drop max block,
  more (take max block) (take_le max block) g.1,
)

continuations-Good :
    (n i : ℕ) (block : List ℕ) (max : ℕ)
    → 0 < max
    → 0 < length block
    → length block ≤ n
    → length block < uint32_mod
    → Good i max block (continuations n i block max)
continuations-Good zero i block max p q l h = absurd (omega (arith, q, l))
continuations-Good (suc n) i [] max p q l h = absurd (omega (arith, q))
continuations-Good (suc n) i (b ∷ bs) max p q l h = elim (dec_le (length (b ∷ bs)) max) [
  | yes k ↦
      rw (continuations_last n i b bs max h k)
        (rw (continuations-nil n i max) (Good-last i max (b ∷ bs) k))
  | no k ↦
      let long : max < length (b ∷ bs) = omega (arith, k) in
      let left = length-drop max (b ∷ bs) in
      rw (continuations_more n i b bs max h long) (
        Good-more i max (b ∷ bs) (continuations n i (drop max (b ∷ bs)) max) (
          continuations-Good n i (drop max (b ∷ bs)) max p (omega (arith, left, long))
            (omega (arith, left, l, p)) (omega (arith, left, h))))
]

-- Padding of a frame, with the octet for its length, which the framer writes where it is not 0.
abbrev pub pad_octets : ℕ → ℕ
pad_octets pad = if pad == 0 then 0 else pad + 1

-- The bytes behind the frame header of a first frame.
abbrev pub first_payload : List OutFrame → ℕ
first_payload (out_headers i b es eh pad ∷ fs) = length b + pad_octets pad
first_payload _ = 0

-- For a header block of less than 2 ^ 32 bytes and a positive frame size, the frames carry the block
-- whole and in order, in fragments that are each within the frame size, HEADERS first with the
-- padding and END_STREAM, then CONTINUATION without padding, and the last alone with END_HEADERS;
-- the payload of the HEADERS frame is its fragment, which fills the frame size where the block is
-- longer, and on top of it the padding, with one octet more where there is any.
pub header_frames_carry :
    (i : ℕ) (block : List ℕ) (end_stream : Bool) (max pad : ℕ)
    → 0 < max
    → length block < uint32_mod
    → (block_of (header_frames i block end_stream max pad) ≡ block)
      × WellCut i max end_stream pad (header_frames i block end_stream max pad)
      × (first_payload (header_frames i block end_stream max pad)
          ≡ (if leb (length block) max then length block else max) + pad_octets pad)
unfolding header_frames block_of fragment
header_frames_carry i block end_stream max pad p h = elim (dec_le (length block) max) [
  | yes k ↦ rw (size_mod (length block) h, le→leb _ _ k) (append-nil block, whole block k, refl)
  | no k ↦
      let long : max < length block = omega (arith, k) in
      let left = length-drop max block in
      let g =
        continuations-Good (length block) i (drop max block) max p (omega (arith, left, long))
          (omega (arith, left)) (omega (arith, left, h)) in
      let full : length (take max block) ≡ max = omega (arith, length-take max block, long) in
      rw (size_mod (length block) h, lt→leb_false _ _ long)
        (
          ap (◌++◌ (take max block)) g.0 ∙ take-append-drop max block,
          parts (take max block) (take_le max block) g.1,
          ap (λ n. n + pad_octets pad) full,
        )
]
