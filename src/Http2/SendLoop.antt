-- ===== src/Http2/SendLoop.antt =====
-- The rounds of sendData together: no byte is lost or sent twice, enough rounds finish, and the
-- waits that nothing ends.
use scalpel_cli.Common.{
  ℕ, ◌≡◌, ◌⊎◌, ◌∙◌, refl, ap, inl, inr, Bool, List, [], ◌∷◌, ◌++◌, Option, none, some, arith,
  Option-cases,
}
use mathlib.Core.List.{append_assoc}
use scalpel_cli.Http2.Types.{H2Error, Stage, Stream, Client}
use scalpel_cli.Http2.Sending.{
  Padding, stream_object, Round, waiting, failed, sent, send_round, Turn, Sent, finished, gave_up,
  with_chunk, after_write, stop, object_round, send_data,
}
use scalpel_cli.Http2.Chunks.{send_round_splits}

unfoldable pub concat : List (List ℕ) → List ℕ
concat [] = []
concat (x ∷ xs) = x ++ concat xs

-- The three results of a round.
Round-cases :
    (r : Round)
    → (r ≡ waiting)
      ⊎ ((e : H2Error) × (c : Client) × (r ≡ failed e c))
      ⊎ ((x : List ℕ) × (y : List ℕ) × (pad : ℕ) × (c : Client) × (r ≡ sent x y pad c))
Round-cases waiting = inl refl
Round-cases (failed e c) = inr (inl (e, c, refl))
Round-cases (sent x y pad c) = inr (inr (x, y, pad, c, refl))

object_round-sent :
    (d : Bool) (p : Padding) (i : ℕ) (bytes : List ℕ) (c : Client) {x y : List ℕ} {pad : ℕ}
    {c' : Client}
    → object_round d p i bytes c ≡ sent x y pad c'
    → (s : Stream) × (stream_object i c ≡ some s) × (send_round d p s bytes c ≡ sent x y pad c')
unfolding object_round
object_round-sent d p i bytes c h = elim (Option-cases (stream_object i c)) [
  | inl e ↦ absurd (let h' = rw (e, object_round) at h in ground arith)
  | inr (s, e) ↦ (s, e, rw (e, object_round) at h)
]

-- The bytes of the frames and those left over make up the body, and a finished call left none.
abbrev Accounts : List ℕ → Sent → Type 0
Accounts bytes r =
    (concat r.chunks ++ r.rest ≡ bytes) × (r.outcome ≡ finished → concat r.chunks ≡ bytes)

Accounts-with_chunk :
    (x y bytes : List ℕ) (r : Sent)
    → x ++ y ≡ bytes
    → Accounts y r
    → Accounts bytes (with_chunk x r)
unfolding concat
Accounts-with_chunk x y bytes r e a = (
  rw (append_assoc x (concat r.chunks) r.rest) (ap (◌++◌ x) a.0 ∙ e),
  λ h. ap (◌++◌ x) (a.1 h) ∙ e,
)

Accounts-after_write :
    (w : Option H2Error) (x y bytes : List ℕ) (c : Client) (r : Sent)
    → x ++ y ≡ bytes
    → Accounts y r
    → Accounts bytes (after_write w x y c r)
unfolding concat
Accounts-after_write none x y bytes c r e a = Accounts-with_chunk x y bytes r e a
Accounts-after_write (some f) x y bytes c r e a =
    Accounts-with_chunk x y bytes (stop c y (gave_up (H2Error.wrapped Stage.frame_write f))) e
      (refl, λ h. absurd (ground arith))

-- Whatever the other goroutines do between the rounds of `sendData`, and however it ends: the bytes
-- of the frames that it queued, in order, and the bytes that it did not, make up the body; and if it
-- finished, the frames hold the whole body.
pub send_data_conserves :
    (p : Padding) (i : ℕ) (ts : List Turn) (bytes : List ℕ) (c : Client)
    → let r = send_data p i ts bytes c in
      (concat r.chunks ++ r.rest ≡ bytes) × (r.outcome ≡ finished → concat r.chunks ≡ bytes)
unfolding send_data concat
send_data_conserves p i ts [] c = (refl, λ h. refl)
send_data_conserves p i [] (b ∷ bs) c = (refl, λ h. absurd (ground arith))
send_data_conserves p i (t ∷ ts) (b ∷ bs) c =
    elim (Round-cases (object_round t.choose_done p i (b ∷ bs) c)) [
      | inl e ↦ rw (e, send_data) (send_data_conserves p i ts (b ∷ bs) (t.others c))
      | inr (inl (x, c', e)) ↦ rw (e, send_data) (refl, λ h. absurd (ground arith))
      | inr (inr (x, y, pad, c', e)) ↦
          rw (e, send_data)
            (Accounts-after_write t.write_error x y (b ∷ bs) c' (send_data p i ts y (t.others c'))
              (let (s, _, e') = object_round-sent t.choose_done p i (b ∷ bs) c e in
                send_round_splits t.choose_done p s (b ∷ bs) c e')
              (send_data_conserves p i ts y (t.others c')))
    ]
