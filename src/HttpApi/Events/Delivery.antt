-- ===== src/HttpApi/Events/Delivery.antt =====
-- How the client reads one frame as the server has written it.
use mathlib.Core.List.{append_assoc}
use task_worker.HttpApi.Ids.RoundTrip.{
  cursor_id-Avoids, IsCursor, parse_cursor_iff, length-cursor_id,
}
use task_worker.HttpApi.Ids.{cursor_id, is_id}
use task_worker.Events.{Cursor}
use task_worker.Base.{
  All-append, Bytes-discrete, List, Option, [], ap, arith, false, length, none, refl, some, ℕ,
  ℕ_discrete, ◌++◌, ◌+◌, ◌<◌, ◌==◌, ◌∙◌, ◌∷◌, ◌≡◌, ℕ-comparable, true, ◌!=◌, ◌≤◌, ◌⊎◌,
  Bytes-comparable, inl, inr, ◌&&◌, all, length-append, ltb,
}
use task_worker.HttpApi.Events.{
  newline, strip_return, scanned, lines, Frame, no_frame, FrameDecoders, read_field, blank_line,
  after_blank, after_field, watch_lines, max_response, max_stream, max_event, refuse_frame, send,
  end_frame,
}
use task_worker.Errors.{Error, ok}
use task_worker.Text.{Text, bytes, has_prefix, cut_prefix, is_hex_digit}
use task_worker.Text.Splits.{Avoids, split_on-ne, split_on_first}

-- A text on one line, with no carriage return.
pub record IsLine (s : Text) : Type 0 where
  pub no_newline : Avoids newline s
  pub no_return : Avoids 13 s

pub IsLine-append : (s t : Text) → IsLine s → IsLine t → IsLine (s ++ t)
IsLine-append s t h k = record {
  no_newline = All-append (λ (c : ℕ). (c == newline) ≡ false) s t h.no_newline k.no_newline;
  no_return = All-append (λ (c : ℕ). (c == 13) ≡ false) s t h.no_return k.no_return;
}

strip_return_none : (s : Text) → Avoids 13 s → strip_return s ≡ s
unfolding strip_return
strip_return_none [] h = refl
strip_return_none (c ∷ []) h = rw h.0 refl
strip_return_none (c ∷ d ∷ cs) h = ap (λ (r : Text). c ∷ r) (strip_return_none (d ∷ cs) h.1)

pub lines_first : (s rest : Text) → IsLine s → lines (s ++ newline ∷ rest) ≡ s ∷ lines rest
unfolding lines scanned
lines_first s rest h =
    let (p, ps, e) = split_on-ne newline rest in
    ap scanned (split_on_first newline s rest h.no_newline)
    ∙ rw e (ap (λ (l : Text). l ∷ scanned (p ∷ ps)) (strip_return_none s h.no_return))

pub lines_blank : (rest : Text) → lines (newline ∷ rest) ≡ [] ∷ lines rest
lines_blank rest = lines_first [] rest (record { no_newline = tt; no_return = tt })

read_id : (f : Frame) (x : Text) → read_field f (bytes "id: " ++ x) ≡ ok (record f { id = x })
unfolding read_field has_prefix cut_prefix ℕ_discrete
read_id f x = refl

read_event :
    (f : Frame) (x : Text) → read_field f (bytes "event: " ++ x) ≡ ok (record f { kind = x })
unfolding read_field has_prefix cut_prefix ℕ_discrete
read_event f x = refl

read_data :
    (f : Frame) (x : Text)
    → f.content ≡ none
    → read_field f (bytes "data: " ++ x) ≡ ok (record f { content = some x })
unfolding read_field has_prefix cut_prefix ℕ_discrete
read_data f x e = rw e refl

pub read_comment : (f : Frame) (x : Text) → read_field f (bytes ": " ++ x) ≡ ok f
unfolding read_field has_prefix ℕ_discrete
read_comment f x = refl

module _ {A : Type 0} (d : FrameDecoders) (apply : A → Frame → Option Error × A) where
  pub field_step :
      (f g : Frame) (size : ℕ) (a : A) (c : ℕ) (line : Text) (rest : List Text)
      → read_field f (c ∷ line) ≡ ok g
      → size + length (c ∷ line) < max_stream
      → watch_lines d apply f size a ((c ∷ line) ∷ rest)
        ≡ watch_lines d apply g (size + length (c ∷ line)) a rest
  unfolding watch_lines after_field
  field_step f g size a c line rest read small = ground (arith, read)

  pub blank_step :
      (f : Frame) (size : ℕ) (a : A) (rest : List Text)
      → size < max_stream
      → watch_lines d apply f size a ([] ∷ rest)
        ≡ after_blank d apply (blank_line d apply f a) (λ b. watch_lines d apply no_frame 0 b rest)
  unfolding watch_lines Bytes-discrete
  blank_step f size a rest small = ground arith

-- A frame that the server sends: a snapshot or an event, written on one line, under its own cursor.
-- An event has at most `max_event` bytes, and any frame at most `max_response`.
pub record IsSent (d : FrameDecoders) (c : Cursor) (kind json : Text) : Type 0 where
  pub named : IsCursor c
  pub kind_is : (kind ≡ bytes "snapshot") ⊎ (kind ≡ bytes "event")
  pub one_line : IsLine json
  pub cursor_is : d.cursor json ≡ some c
  pub event_fits : kind ≡ bytes "event" → length json ≤ max_event
  pub frame_fits : length json ≤ max_response

abbrev pub frame_of : Cursor → Text → Text → Frame
frame_of c kind json = record { kind = kind; id = cursor_id c; content = some json }

send_text :
    (kind id json rest : Text)
    → (id != []) ≡ true
    → send kind id json ++ rest
      ≡ (bytes "id: " ++ id)
        ++ newline
          ∷ ((bytes "event: " ++ kind)
              ++ newline ∷ ((bytes "data: " ++ json) ++ newline ∷ newline ∷ rest))
unfolding send
send_text kind id json rest h = rw h (simp append_assoc)

not_error :
    (kind : Text)
    → (kind ≡ bytes "snapshot") ⊎ (kind ≡ bytes "event")
    → ((kind == bytes "error") ≡ false)
      × ((kind != bytes "snapshot" && kind != bytes "event") ≡ false)
      × ((kind == []) ≡ false)
unfolding Bytes-discrete ℕ_discrete
not_error kind (inl e) = rw e (refl, refl, refl)
not_error kind (inr e) = rw e (refl, refl, refl)

pub all-IsLine : (s : Text) → all (λ b. b != newline && b != 13) s ≡ true → IsLine s
all-IsLine [] h = record { no_newline = tt; no_return = tt }
all-IsLine (b ∷ bs) h =
    let rest = all-IsLine bs (ground (arith, h)) in
    record {
      no_newline = (ground (arith, h), rest.no_newline);
      no_return = (ground (arith, h), rest.no_return);
    }

kind-IsLine : (kind : Text) → (kind ≡ bytes "snapshot") ⊎ (kind ≡ bytes "event") → IsLine kind
unfolding ℕ_discrete
kind-IsLine kind (inl e) = rw e (all-IsLine (bytes "snapshot") refl)
kind-IsLine kind (inr e) = rw e (all-IsLine (bytes "event") refl)

length-kind : (kind : Text) → (kind ≡ bytes "snapshot") ⊎ (kind ≡ bytes "event") → length kind ≤ 8
length-kind kind (inl e) = rw e (omega arith)
length-kind kind (inr e) = rw e (omega arith)

not_empty : (s t : Text) → length s ≡ 32 → (s ++ t != []) ≡ true
unfolding Bytes-discrete
not_empty [] t h = absurd (omega (arith, h))
not_empty (c ∷ cs) t h = refl

module _ (d : FrameDecoders) (c : Cursor) (kind json : Text) (s : IsSent d c kind json) where
  id-IsLine : IsLine (bytes "id: " ++ cursor_id c)
  unfolding ℕ_discrete is_hex_digit
  id-IsLine = IsLine-append (bytes "id: ") (cursor_id c) (all-IsLine (bytes "id: ") refl) (record {
    no_newline = cursor_id-Avoids newline c s.named refl refl refl;
    no_return = cursor_id-Avoids 13 c s.named refl refl refl;
  })

  event-IsLine : IsLine (bytes "event: " ++ kind)
  unfolding ℕ_discrete
  event-IsLine =
      IsLine-append (bytes "event: ") kind (all-IsLine (bytes "event: ") refl)
        (kind-IsLine kind s.kind_is)

  data-IsLine : IsLine (bytes "data: " ++ json)
  unfolding ℕ_discrete
  data-IsLine = IsLine-append (bytes "data: ") json (all-IsLine (bytes "data: ") refl) s.one_line

  event_small : (kind == bytes "event" && ltb max_event (length json)) ≡ false
  unfolding Bytes-discrete ℕ_discrete
  event_small = elim s.kind_is [
    | inl snapshot ↦ rw snapshot refl
    | inr event ↦ let fits = s.event_fits event in rw event (ground (arith, fits))
  ]

  -- The client finds nothing wrong with it.
  accepted : refuse_frame d (frame_of c kind json) ≡ none
  unfolding refuse_frame
  accepted =
      let parsed = (parse_cursor_iff (cursor_id c) c).1 (refl, s.named) in
      let (a, b, e) = not_error kind s.kind_is in
      rw (a, b, parsed, event_small) (ground (arith, s.cursor_is))

  id_given : (cursor_id c != []) ≡ true
  unfolding cursor_id is_id
  id_given = not_empty c.store_id _ (ground (arith, s.named.store_named))

  -- The lines of the frame.
  sent_lines :
      (rest : Text)
      → lines (send kind (cursor_id c) json ++ rest)
        ≡ (bytes "id: " ++ cursor_id c)
          ∷ (bytes "event: " ++ kind)
          ∷ (bytes "data: " ++ json)
          ∷ []
          ∷ lines rest
  sent_lines rest =
      let id = bytes "id: " ++ cursor_id c in
      let event = bytes "event: " ++ kind in
      let data_ = bytes "data: " ++ json in
      ap lines (send_text kind (cursor_id c) json rest id_given)
      ∙ (lines_first id (event ++ newline ∷ (data_ ++ newline ∷ newline ∷ rest)) id-IsLine
          ∙ ap (λ (l : List Text). id ∷ l)
              (lines_first event (data_ ++ newline ∷ newline ∷ rest) event-IsLine
                ∙ ap (λ (l : List Text). event ∷ l)
                    (lines_first data_ (newline ∷ rest) data-IsLine
                      ∙ ap (λ (l : List Text). data_ ∷ l) (lines_blank rest))))

module _ {A : Type 0} (d : FrameDecoders) (apply : A → Frame → Option Error × A) where
  sent_blank :
      (c : Cursor) (kind json : Text) (a : A)
      → IsSent d c kind json
      → blank_line d apply (frame_of c kind json) a ≡ apply a (frame_of c kind json)
  unfolding blank_line end_frame
  sent_blank c kind json a s =
      let (x, y, given) = not_error kind s.kind_is in rw (given, accepted d c kind json s) refl

  -- The frame is applied, and the client goes on with what follows it.
  pub frame_step :
      (c : Cursor) (kind json : Text) (a : A) (rest : Text)
      → IsSent d c kind json
      → watch_lines d apply no_frame 0 a (lines (send kind (cursor_id c) json ++ rest))
        ≡ after_blank d apply
            (apply a (frame_of c kind json))
            (λ b. watch_lines d apply no_frame 0 b (lines rest))
  frame_step c kind json a rest s =
      let id = bytes "id: " ++ cursor_id c in
      let f1 = record no_frame { id = cursor_id c } in
      let f2 = record f1 { kind = kind } in
      let tail = lines rest in
      let data_line = bytes "data: " ++ json in
      let event_line = bytes "event: " ++ kind in
      let n1 = 0 + length id in
      let n2 = n1 + length event_line in
      let short = length-cursor_id c s.named in
      let few = length-kind kind s.kind_is in
      let small : n2 + length data_line < max_stream =
        omega (arith, short, few, s.frame_fits, length-append (bytes "data: ") json) in
      ap (watch_lines d apply no_frame 0 a) (sent_lines d c kind json s rest)
      ∙ (field_step d apply no_frame f1 0 a b'i' _ (event_line ∷ data_line ∷ [] ∷ tail)
            (read_id no_frame (cursor_id c)) (omega (arith, short))
          ∙ (field_step d apply f1 f2 n1 a b'e' _ (data_line ∷ [] ∷ tail) (read_event f1 kind)
                (omega (arith, short, few))
              ∙ (field_step d apply f2 (frame_of c kind json) n2 a b'd' _ ([] ∷ tail)
                    (read_data f2 json refl) small
                  ∙ (blank_step d apply (frame_of c kind json) (n2 + length data_line) a tail small
                      ∙ ap (λ m. after_blank d apply m (λ b. watch_lines d apply no_frame 0 b tail))
                          (sent_blank c kind json a s)))))
