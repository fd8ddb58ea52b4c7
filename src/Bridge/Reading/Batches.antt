-- ===== src/Bridge/Reading/Batches.antt =====
-- What a batch of events holds of the stream that the service has sent.
use task_worker.HttpApi.Events.{FrameDecoders, watch_stream}
use task_worker.Base.{
  List, Option, [], ap, if◌then◌else◌, inl, inr, none, refl, some, suc, sym, take, ℕ, ◌++◌, ◌∙◌,
  ◌∷◌, ◌≡◌, ◌⊎◌, length, ◌+◌, Bool-cases, Bytes-discrete, ℕ_discrete, All, leb, ltb, subst, ◌&&◌,
}
use mathlib.Core.List.{append-nil, append_assoc}
use task_worker.Bridge.Reading.{
  no_batch, on_event, add_item, apply_head, most_events, max_result_bytes, max_bytes, max_events,
  EventHead, EventJson, EventsIn, Batch, stop, inline, filtered,
}
use task_worker.Errors.{Error}
use task_worker.Events.{Cursor}
use task_worker.HttpApi.Events.Reading.{
  IsGood, IsUnfinished, wire, watch_stream_complete, watch_stream_stops, Sent, framed, noted,
  apply_all,
}
use task_worker.HttpApi.Ids.{cursor_id}
use task_worker.Text.{Text, bytes}

module _ (j : EventJson) (i : EventsIn) where
  -- What the service sends after a cursor: events with a head, and comments.
  abbrev pub IsEvent : Sent → Type 0
  IsEvent (framed c kind json) = (kind ≡ bytes "event") × (h : EventHead) × (j.head json ≡ some h)
  IsEvent (noted words) = Unit

  shown_head : Option EventHead → Text → List Text
  shown_head none json = []
  shown_head (some h) json = if filtered j i h then [] else inline j i h json ∷ []

  -- The events of the asked job, as they are answered.
  unfoldable pub shown : List Sent → List Text
  unfolding shown_head
  shown [] = []
  shown (framed c kind json ∷ xs) = shown_head (j.head json) json ++ shown xs
  shown (noted words ∷ xs) = shown xs

  -- The cursor of the last event, whichever job it is of.
  unfoldable pub last_id : Text → List Sent → Text
  last_id id [] = id
  last_id id (framed c kind json ∷ xs) = last_id (cursor_id c) xs
  last_id id (noted words ∷ xs) = last_id id xs

  -- `r` is what comes of the first `count` of the items: none skipped, none twice; and all of them
  -- unless the batch is full.
  pub record Covered (b : Batch) (items : List Sent) (r : Option Error × Batch) : Type 0 where
    pub count : ℕ
    pub events_are : r.1.events ≡ b.events ++ shown (take count items)
    pub next_is : r.1.next ≡ last_id b.next (take count items)
    pub whole : (take count items ≡ items) ⊎ (r.0 ≡ some stop)

  Covered-none :
      (b : Batch) (items : List Sent) (b' : Batch)
      → b'.events ≡ b.events
      → b'.next ≡ b.next
      → Covered b items (some stop, b')
  unfolding shown last_id
  Covered-none b items b' e n = record {
    count = 0;
    events_are = e ∙ sym (append-nil b.events);
    next_is = n;
    whole = inr refl;
  }

  Covered-noted :
      (b : Batch) (words : Text) (xs : List Sent) (r : Option Error × Batch)
      → Covered b xs r
      → Covered b (noted words ∷ xs) r
  unfolding shown last_id
  Covered-noted b words xs r k = record {
    count = suc k.count;
    events_are = k.events_are;
    next_is = k.next_is;
    whole = elim k.whole [
      | inl all_read ↦ inl (ap (λ (ys : List Sent). noted words ∷ ys) all_read)
      | inr full ↦ inr full
    ];
  }

  -- One event more, from a batch `c` that has it.
  Covered-framed :
      (b c : Batch) (id : Cursor) (kind json : Text) (xs : List Sent) (r : Option Error × Batch)
      → c.events ≡ b.events ++ shown_head (j.head json) json
      → c.next ≡ cursor_id id
      → Covered c xs r
      → Covered b (framed id kind json ∷ xs) r
  unfolding shown last_id
  Covered-framed b c id kind json xs r e n k = record {
    count = suc k.count;
    events_are =
        k.events_are
        ∙ (ap (λ t. t ++ shown (take k.count xs)) e
            ∙ append_assoc b.events (shown_head (j.head json) json) (shown (take k.count xs)));
    next_is = k.next_is ∙ ap (λ t. last_id t (take k.count xs)) n;
    whole = elim k.whole [
      | inl all_read ↦ inl (ap (λ (ys : List Sent). framed id kind json ∷ ys) all_read)
      | inr full ↦ inr full
    ];
  }

  module _ (d : FrameDecoders) where
    read_all : Batch → List Sent → Option Error × Batch
    read_all b xs = apply_all d (on_event j i) b xs

    read_framed :
        (b : Batch) (id : Cursor) (json : Text) (xs : List Sent) (h : EventHead)
        → j.head json ≡ some h
        → ((c : Batch) → Covered c xs (read_all c xs))
        → Covered b
            (framed id (bytes "event") json ∷ xs)
            (read_all b (framed id (bytes "event") json ∷ xs))
    unfolding read_all apply_all on_event apply_head add_item Bytes-discrete ℕ_discrete
    read_framed b id json xs h e rest = elim (Bool-cases (filtered j i h)) [
      | inl other ↦
          let c = record b { next = cursor_id id } in
          let same : c.events ≡ b.events ++ shown_head (j.head json) json =
            unfold shown_head in rw (e, other) (sym (append-nil b.events)) in
          rw (e, other)
            (Covered-framed b c id (bytes "event") json xs (read_all c xs) same refl (rest c))
      | inr asked ↦
          let item = inline j i h json in
          let events = b.events ++ item ∷ [] in
          let c = record b { events = events; size = b.size + length item; next = cursor_id id } in
          let full = record c { stopped = max_events } in
          let same : events ≡ b.events ++ shown_head (j.head json) json =
            unfold shown_head in rw (e, asked) refl in
          elim (Bool-cases
            (ltb max_result_bytes (b.size + length item) && ltb 0 (length b.events))) [
              | inl large ↦
                  rw (e, asked, large)
                    (Covered-none b (framed id (bytes "event") json ∷ xs)
                      (record b { stopped = max_bytes }) refl refl)
              | inr fits ↦ elim (Bool-cases (leb (most_events i) (length events))) [
                | inl many ↦
                    rw (e, asked, fits, many)
                      (Covered-framed b full id (bytes "event") json xs (some stop, full) same refl
                        (Covered-none full xs full refl refl))
                | inr few ↦
                    rw (e, asked, fits, few)
                      (Covered-framed b c id (bytes "event") json xs (read_all c xs) same refl
                        (rest c))
              ]
            ]
    ]

    read-Covered :
        (items : List Sent) (b : Batch) → All IsEvent items → Covered b items (read_all b items)
    unfolding read_all apply_all
    read-Covered [] b h = record {
      count = 0;
      events_are = unfold shown in sym (append-nil b.events);
      next_is = unfold last_id in refl;
      whole = inl refl;
    }
    read-Covered (noted words ∷ xs) b h =
        Covered-noted b words xs (read_all b xs) (read-Covered xs b h.1)
    read-Covered (framed id kind json ∷ xs) b h =
        subst (λ k. Covered b (framed id k json ∷ xs) (read_all b (framed id k json ∷ xs)))
          (sym h.0.0) (read_framed b id json xs h.0.1 h.0.2 (λ c. read-Covered xs c h.1))

    -- Let a stream be as `watch_stream_complete` has it, of comments and of events of at most
    -- 16 MiB whose head can be read, with a tail that has no blank line. The batch holds exactly
    -- the events of the asked job among the first so many, in order, and its cursor is that of
    -- the last of them: a reader who goes on there skips none and meets none twice. It holds all
    -- that came unless the watch was stopped because the batch is full.
    pub read_events-Covered :
        (items : List Sent) (tail : Text)
        → All (IsGood d) items
        → All IsEvent items
        → IsUnfinished tail
        → Covered (no_batch i) items (
          some (watch_stream d (on_event j i) (no_batch i) (wire items ++ tail)).0,
          (watch_stream d (on_event j i) (no_batch i) (wire items ++ tail)).1,
        )
    unfolding read_all
    read_events-Covered items tail good events u =
        let k = read-Covered items (no_batch i) events in
        let same = watch_stream_complete d (on_event j i) items tail (no_batch i) good u in
        record {
          count = k.count;
          events_are = ap (λ (b : Batch). b.events) same ∙ k.events_are;
          next_is = ap (λ (b : Batch). b.next) same ∙ k.next_is;
          whole = elim k.whole [
            | inl all_read ↦ inl all_read
            | inr full ↦ inr (
                ap (λ e. some e)
                  (watch_stream_stops d (on_event j i) items tail (no_batch i) stop good full))
          ];
        }
