-- ===== src/Streams/Backlog.antt =====
-- What an observer's backlog holds after any number of pushes.
use task_worker.Base.{
  Bool, Bool-cases, List, [], all, ap, arith, false, inl, inr, leb, length, ltb, refl, some, subst,
  sym, true, ℕ, ◌++◌, ◌+◌, ◌||◌, ◌∙◌, ◌∷◌, ◌≡◌, ◌≤◌, ◌⊎◌, length-append,
}
use task_worker.Streams.{QueuedEvent, Stream, push, slow_consumer}
use task_worker.State.{max_observer_bytes, max_observer_events}
use task_worker.Events.{Event}
use mathlib.Core.List.{append_assoc, append-nil}

-- The events that are pushed one after another, each with its encoded size.
unfoldable pub push_each : List (Event × ℕ) → Stream → Stream
push_each [] s = s
push_each ((e, n) ∷ es) s = push_each es (push e n s).1

abbrev pub queued_events : List QueuedEvent → List Event
queued_events [] = []
queued_events (q ∷ qs) = q.event ∷ queued_events qs

abbrev pub pushed_events : List (Event × ℕ) → List Event
pushed_events [] = []
pushed_events ((e, n) ∷ es) = e ∷ pushed_events es

abbrev pub total_size : List QueuedEvent → ℕ
total_size [] = 0
total_size (q ∷ qs) = q.size + total_size qs

-- An open stream's backlog is counted, and within both limits.
pub record IsBounded (s : Stream) : Type 0 where
  pub open_still : s.closed ≡ false
  pub counted : s.bytes ≡ total_size s.queue
  pub few : length s.queue ≤ max_observer_events
  pub small : s.bytes ≤ max_observer_bytes

-- A stream that was closed for its consumer's slowness.
pub record IsDropped (s : Stream) : Type 0 where
  pub shut : s.closed ≡ true
  pub empty : s.queue ≡ []
  pub reason : s.err ≡ some slow_consumer

queued_events-append :
    (xs ys : List QueuedEvent) → queued_events (xs ++ ys) ≡ queued_events xs ++ queued_events ys
queued_events-append [] ys = refl
queued_events-append (x ∷ xs) ys = ap (λ (l : List Event). x.event ∷ l) (queued_events-append xs ys)

total_size-append :
    (xs ys : List QueuedEvent) → total_size (xs ++ ys) ≡ total_size xs + total_size ys
total_size-append [] ys = omega arith
total_size-append (x ∷ xs) ys = omega (arith, total_size-append xs ys)

-- Too much for the backlog.
abbrev overflows : ℕ → Stream → Bool
overflows n s = leb max_observer_events (length s.queue) || ltb max_observer_bytes (s.bytes + n)

abbrev item : Event → ℕ → QueuedEvent
item e n = record { event = e; size = n }

push-IsDropped :
    (e : Event) (n : ℕ) (s : Stream)
    → s.closed ≡ false
    → overflows n s ≡ true
    → IsDropped (push e n s).1
unfolding push
push-IsDropped e n s c o = record { shut = rw (c, o); empty = rw (c, o); reason = rw (c, o) }

abbrev extended : Event → ℕ → Stream → Stream
extended e n s = record s { queue = s.queue ++ item e n ∷ []; bytes = s.bytes + n; wake = true }

push-extended :
    (e : Event) (n : ℕ) (s : Stream)
    → s.closed ≡ false
    → overflows n s ≡ false
    → push e n s ≡ (true, extended e n s)
unfolding push
push-extended e n s c o = rw (c, o)

extended-IsBounded :
    (e : Event) (n : ℕ) (s : Stream)
    → IsBounded s
    → overflows n s ≡ false
    → IsBounded (extended e n s)
extended-IsBounded e n s b o = record {
  open_still = b.open_still;
  counted = omega (arith, b.counted, total_size-append s.queue (item e n ∷ []));
  few = ground (arith, o, length-append s.queue (item e n ∷ []));
  small = ground (arith, o);
}

push-kept :
    (e : Event) (n : ℕ) (s : Stream)
    → IsBounded s
    → overflows n s ≡ false
    → IsBounded (push e n s).1 × ((push e n s).1.queue ≡ s.queue ++ item e n ∷ [])
push-kept e n s b o =
    let same = push-extended e n s b.open_still o in
    (
      subst (λ (r : Bool × Stream). IsBounded r.1) (sym same) (extended-IsBounded e n s b o),
      ap (λ (r : Bool × Stream). r.1.queue) same,
    )

closed_push : (e : Event) (n : ℕ) (s : Stream) → s.closed ≡ true → push e n s ≡ (false, s)
unfolding push
closed_push e n s c = rw c

push_each-IsDropped :
    (es : List (Event × ℕ)) (s : Stream) → IsDropped s → IsDropped (push_each es s)
unfolding push_each
push_each-IsDropped [] s d = d
push_each-IsDropped ((e, n) ∷ es) s d =
    push_each-IsDropped es _
      (subst IsDropped (sym (ap (λ (r : Bool × Stream). r.1) (closed_push e n s d.shut))) d)

-- A backlog never has a gap: after any pushes onto an open stream within its limits, the backlog is
-- what it was, followed by every event pushed, in order and within the limits; or the stream is
-- closed, empty, with the error of a slow consumer.
pub push_each_complete :
    (es : List (Event × ℕ)) (s : Stream)
    → IsBounded s
    → (IsBounded (push_each es s)
        × (queued_events (push_each es s).queue ≡ queued_events s.queue ++ pushed_events es))
      ⊎ IsDropped (push_each es s)
unfolding push_each
push_each_complete [] s b = inl (b, sym (append-nil (queued_events s.queue)))
push_each_complete ((e, n) ∷ es) s b = elim (Bool-cases (overflows n s)) [
  | inl o ↦ inr (push_each-IsDropped es _ (push-IsDropped e n s b.open_still o))
  | inr o ↦
      let (kept, grown) = push-kept e n s b o in
      elim (push_each_complete es (push e n s).1 kept) [
        | inr d ↦ inr d
        | inl (bounded, all) ↦ inl (
          bounded,
          all
              ∙ (ap (λ (l : List QueuedEvent). queued_events l ++ pushed_events es) grown
                  ∙ (ap (λ (l : List Event). l ++ pushed_events es)
                        (queued_events-append s.queue (item e n ∷ []))
                      ∙ append_assoc (queued_events s.queue) (e ∷ []) (pushed_events es))),
        )
      ]
]
