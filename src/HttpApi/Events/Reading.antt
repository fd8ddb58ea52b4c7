-- ===== src/HttpApi/Events/Reading.antt =====
-- What a client applies of a stream that the server has sent, cut off anywhere.
use mathlib.Core.Bool.{Bool, true}
use Prim.Native.Nat.{◌+◌}
use task_worker.Base.{
  All, List, Option, [], false, length, none, refl, some, ℕ, ◌++◌, ◌==◌, ◌∷◌, ◌≡◌, ◌≤◌,
  Bytes-comparable, if◌then◌else◌, Bytes-discrete, ap, arith, ℕ_discrete, ◌∙◌, leb, ltb,
}
use mathlib.Core.List.{append_assoc}
use task_worker.HttpApi.Events.{
  newline, send, comment, lines, Frame, no_frame, FrameDecoders, blank_line, after_blank,
  after_field, read_field, watch_lines, watch_stream, max_stream,
}
use task_worker.HttpApi.Events.Delivery.{
  IsLine, IsLine-append, IsSent, frame_of, lines_first, lines_blank, read_comment, all-IsLine,
  field_step, blank_step, frame_step,
}
use task_worker.HttpApi.Ids.{cursor_id}
use task_worker.Errors.{Error, Outcome, err, ok}
use task_worker.Events.{Cursor}
use task_worker.Text.{Text, bytes}

-- What the server writes: frames, and comments between them.
pub data Sent : Type 0 where
  framed : Cursor → Text → Text → Sent
  noted : Text → Sent

-- A frame as `IsSent` has it, or a comment on one line of at most 100 bytes.
abbrev pub IsGood : FrameDecoders → Sent → Type 0
IsGood d (framed c kind json) = IsSent d c kind json
IsGood d (noted words) = IsLine words × (length words ≤ 100)

unfoldable pub wire : List Sent → Text
wire [] = []
wire (framed c kind json ∷ xs) = send kind (cursor_id c) json ++ wire xs
wire (noted words ∷ xs) = comment words ++ wire xs

-- An unfinished frame: no line of it is blank.
abbrev pub IsUnfinished : Text → Type 0
IsUnfinished t = All (λ (l : Text). (l == []) ≡ false) (lines t)

module _ {A : Type 0} (d : FrameDecoders) (apply : A → Frame → Option Error × A) where
  apply_next : Option Error × A → (A → Option Error × A) → Option Error × A
  apply_next (some e, b) k = (some e, b)
  apply_next (none, b) k = k b

  -- Applying the frames in order, up to the first that the caller refuses.
  unfoldable pub apply_all : A → List Sent → Option Error × A
  unfolding apply_next
  apply_all a [] = (none, a)
  apply_all a (noted words ∷ xs) = apply_all a xs
  apply_all a (framed c kind json ∷ xs) =
      let rest = λ (b : A). apply_all b xs in apply_next (apply a (frame_of c kind json)) rest

  comment_blank : (a : A) → blank_line d apply no_frame a ≡ (none, a)
  unfolding blank_line Bytes-discrete
  comment_blank a = refl

  comment_text :
      (words rest : Text)
      → comment words ++ rest ≡ (bytes ": " ++ words) ++ newline ∷ newline ∷ rest
  unfolding comment
  comment_text words rest = simp append_assoc

  lines-comment :
      (words rest : Text)
      → IsLine words
      → lines (comment words ++ rest) ≡ (bytes ": " ++ words) ∷ [] ∷ lines rest
  unfolding ℕ_discrete
  lines-comment words rest h =
      let line = IsLine-append (bytes ": ") words (all-IsLine (bytes ": ") refl) h in
      ap lines (comment_text words rest)
      ∙ (lines_first (bytes ": " ++ words) (newline ∷ rest) line
          ∙ ap (λ (l : List Text). (bytes ": " ++ words) ∷ l) (lines_blank rest))

  comment_step :
      (words : Text) (a : A) (rest : Text)
      → IsLine words
      → length words ≤ 100
      → watch_lines d apply no_frame 0 a (lines (comment words ++ rest))
        ≡ watch_lines d apply no_frame 0 a (lines rest)
  unfolding after_blank
  comment_step words a rest h n =
      let size = 0 + length (bytes ": " ++ words) in
      ap (watch_lines d apply no_frame 0 a) (lines-comment words rest h)
      ∙ (field_step d apply no_frame no_frame 0 a b':' _ ([] ∷ lines rest)
            (read_comment no_frame words) (omega (arith, n))
          ∙ (blank_step d apply no_frame size a (lines rest) (omega (arith, n))
              ∙ ap (λ m. after_blank d apply m (λ b. watch_lines d apply no_frame 0 b (lines rest)))
                  (comment_blank a)))

  after_field-same :
      (o : Outcome Frame) (a : A) (k : Frame → Error × A)
      → ((g : Frame) → (k g).1 ≡ a)
      → (after_field d apply o a k).1 ≡ a
  unfolding after_field
  after_field-same (err e) a k h = refl
  after_field-same (ok g) a k h = h g

  if-same : (t : Bool) (x y : Error × A) (a : A) → x.1 ≡ a → y.1 ≡ a → (if t then x else y).1 ≡ a
  if-same true x y a h k = h
  if-same false x y a h k = k

  unfinished-same :
      (ls : List Text) (f : Frame) (size : ℕ) (a : A)
      → All (λ (l : Text). (l == []) ≡ false) ls
      → (watch_lines d apply f size a ls).1 ≡ a
  unfolding watch_lines
  unfinished-same [] f size a h = refl
  unfinished-same (l ∷ ls) f size a h =
      let later = λ (g : Frame). unfinished-same ls g (size + length l) a h.1 in
      let field = after_field-same (read_field f l) a _ later in
      rw h.0 (
        if-same (leb max_stream (length l)) _ _ a refl
          (if-same (ltb max_stream (size + length l)) _ _ a refl field))

  after-apply_next :
      (m : Option Error × A) (j : A → Error × A) (k : A → Option Error × A) (t : A → Error × A)
      → ((b : A) → j b ≡ after_blank d apply (k b) t)
      → after_blank d apply m j ≡ after_blank d apply (apply_next m k) t
  unfolding after_blank apply_next
  after-apply_next (some e, b) j k t h = refl
  after-apply_next (none, b) j k t h = h b

  -- A client that reads frames and comments of the server applies the frames in their order, each
  -- once, up to the first that its caller refuses; if it refuses none, the client goes on with
  -- what stands behind them.
  pub watch_lines-wire :
      (items : List Sent) (tail : Text) (a : A)
      → All (IsGood d) items
      → watch_lines d apply no_frame 0 a (lines (wire items ++ tail))
        ≡ after_blank d apply
            (apply_all a items)
            (λ b. watch_lines d apply no_frame 0 b (lines tail))
  unfolding wire apply_all after_blank
  watch_lines-wire [] tail a h = refl
  watch_lines-wire (framed c kind json ∷ xs) tail a h =
      let more = wire xs ++ tail in
      let next = λ (b : A). watch_lines d apply no_frame 0 b (lines more) in
      let end = λ (b : A). watch_lines d apply no_frame 0 b (lines tail) in
      ap (λ (t : Text). watch_lines d apply no_frame 0 a (lines t))
        (append_assoc (send kind (cursor_id c) json) (wire xs) tail)
      ∙ (frame_step d apply c kind json a more h.0
          ∙ after-apply_next (apply a (frame_of c kind json)) next (λ b. apply_all b xs) end
              (λ b. watch_lines-wire xs tail b h.1))
  watch_lines-wire (noted words ∷ xs) tail a h =
      let more = wire xs ++ tail in
      ap (λ (t : Text). watch_lines d apply no_frame 0 a (lines t))
        (append_assoc (comment words) (wire xs) tail)
      ∙ (comment_step words a more h.0.0 h.0.1 ∙ watch_lines-wire xs tail a h.1)

  after-same :
      (m : Option Error × A) (t : A → Error × A)
      → ((b : A) → (t b).1 ≡ b)
      → (after_blank d apply m t).1 ≡ m.1
  unfolding after_blank
  after-same (some e, b) t h = refl
  after-same (none, b) t h = h b

  -- Let a stream be frames and comments of the server, and behind them a tail with no blank line,
  -- which is an unfinished frame. Each frame is a snapshot or an event. It names a cursor, of a
  -- store of 32 lowercase hexadecimal digits and a number that fits a uint64, and its JSON, which
  -- stands on one line, carries that cursor. The JSON of an event has at most 16 MiB, and that of
  -- a snapshot at most 256 MiB. A comment is one line of at most 100 bytes. Then a client that
  -- reads the stream has applied the frames in their order, each once, up to the first that its
  -- caller refuses, and nothing of the tail.
  pub watch_stream_complete :
      (items : List Sent) (tail : Text) (a : A)
      → All (IsGood d) items
      → IsUnfinished tail
      → (watch_stream d apply a (wire items ++ tail)).1 ≡ (apply_all a items).1
  unfolding watch_stream
  watch_stream_complete items tail a h u =
      ap (λ (r : Error × A). r.1) (watch_lines-wire items tail a h)
      ∙ after-same (apply_all a items) _ (λ b. unfinished-same (lines tail) no_frame 0 b u)

  after-stops :
      (m : Option Error × A) (t : A → Error × A) (e : Error)
      → m.0 ≡ some e
      → (after_blank d apply m t).0 ≡ e
  unfolding after_blank
  after-stops (some e', b) t e h = cc
  after-stops (none, b) t e h = cc

  -- If its caller refuses a frame, the client ends with its error.
  pub watch_stream_stops :
      (items : List Sent) (tail : Text) (a : A) (e : Error)
      → All (IsGood d) items
      → (apply_all a items).0 ≡ some e
      → (watch_stream d apply a (wire items ++ tail)).0 ≡ e
  unfolding watch_stream
  watch_stream_stops items tail a e h stops =
      ap (λ (r : Error × A). r.0) (watch_lines-wire items tail a h)
      ∙ after-stops (apply_all a items) _ e stops
