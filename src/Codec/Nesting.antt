-- ===== src/Codec/Nesting.antt =====
-- `fastForwardToEndFrame` skips the unknown rest of a structure, however deep it is nested.
use hazelcast_nodejs_client.Prelude.{
  ℕ, zero, suc, ◌≡◌, refl, ◌∙◌, true, false, List, [], ◌∷◌, ◌++◌, some, append_assoc,
}
use hazelcast_nodejs_client.Codec.{
  Frame, is_begin_frame, is_end_frame, fast_forward, fast_forward_to_end_frame,
}

module _ {B : Type 0} where
  -- Frames in which every begin frame has its end frame.
  pub data Nested : List (Frame B) → Type 0 where
    empty : Nested []
    plain :
        {f : Frame B} {frames : List (Frame B)}
        → is_end_frame f ≡ false
        → is_begin_frame f ≡ false
        → Nested frames
        → Nested (f ∷ frames)
    structure :
        (b e : Frame B) (body frames : List (Frame B))
        → is_end_frame b ≡ false
        → is_begin_frame b ≡ true
        → Nested body
        → is_end_frame e ≡ true
        → Nested frames
        → Nested (b ∷ body ++ e ∷ frames)

  fast_forward-Nested :
      (n : ℕ) {frames : List (Frame B)} (rest : List (Frame B))
      → Nested frames
      → fast_forward (suc n) (frames ++ rest) ≡ fast_forward (suc n) rest
  unfolding fast_forward
  fast_forward-Nested n rest empty = refl
  fast_forward-Nested n rest (plain e f nested) =
      rw (e, f, fast_forward) (fast_forward-Nested n rest nested)
  fast_forward-Nested n rest (structure b e body frames f g inner h nested) =
      rw (f, g, append_assoc body (e ∷ frames) rest, fast_forward)
        (fast_forward-Nested (suc n) (e ∷ frames ++ rest) inner
          ∙ rw (h, fast_forward) (fast_forward-Nested n rest nested))

  -- After the frames that a newer member may have added to a structure, nested in any way, the
  -- reading goes on behind the end frame of that structure.
  pub fast_forward_to_end_frame-Nested :
      {frames : List (Frame B)} (end : Frame B) (rest : List (Frame B))
      → Nested frames
      → is_end_frame end ≡ true
      → fast_forward_to_end_frame (frames ++ end ∷ rest) ≡ some rest
  unfolding fast_forward_to_end_frame fast_forward
  fast_forward_to_end_frame-Nested end rest nested e =
      fast_forward-Nested zero (end ∷ rest) nested ∙ rw (e, fast_forward) refl
