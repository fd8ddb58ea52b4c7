-- ===== src/Bridge/Framer/Promise/Steps.antt =====
-- Each step of the framer keeps the promise, and so does every run.
use task_worker.Base.{
  Bool-cases, List, Option, [], arith, false, inl, inr, none, not, refl, some, subst, ◌!=◌, ◌&&◌,
  ◌==◌, ◌≡◌, Bytes-comparable, ◌∷◌, true,
}
use task_worker.Bridge.Framer.{
  member, delete, is_empty, Head, Wire, Framer, new_framer, canon_id, cancel, begin, track_head,
  track, pass, respond, write_head, write,
}
use task_worker.Bridge.Framer.Promise.{
  silencing, inbound_head, inbound, answered_head, answered, Promise, all_idle, promise_in,
  promise_by, promise_out, Move, hears, says, promised, run_framer,
}
use task_worker.Bridge.Framer.Promise.Kept.{
  Keeps, Keeps-start, Keeps-cancel, Keeps-ignored, Keeps-end, Keeps-say, Keeps-absent,
  member-delete,
}
use task_worker.Text.{Text, bytes}

Keeps-silencing :
    (w : Wire) (raw : Option Text) (f : Framer) (s : Promise)
    → Keeps f s
    → Keeps (cancel w raw f) (promise_in (silencing w raw) s)
unfolding cancel silencing promise_in
Keeps-silencing w none f s k = k
Keeps-silencing w (some raw) f s k = elim (Bool-cases (raw == [])) [
  | inl bare ↦ rw bare k
  | inr given ↦ elim (Bool-cases (member (canon_id w raw) f.inflight)) [
    | inl flying ↦ rw (given, flying) (Keeps-cancel (canon_id w raw) f s k flying)
    | inr absent ↦ rw (given, absent) (Keeps-ignored (canon_id w raw) f s k absent)
  ]
]

Keeps-begin :
    (w : Wire) (m : Option Head) (f : Framer) (s : Promise)
    → Keeps f s
    → Keeps (track_head w m f) (promise_in (inbound_head w m) s)
unfolding track_head inbound_head begin promise_in
Keeps-begin w none f s k = k
Keeps-begin w (some m) f s k = elim (Bool-cases (m.method == [])) [
  | inl reply ↦ rw reply k
  | inr call ↦ elim (Bool-cases (m.method == bytes "notifications/cancelled")) [
    | inl stop ↦ rw (call, stop) (Keeps-silencing w (w.request_id m.params) f s k)
    | inr other ↦ elim (Bool-cases (m.id != [] && m.id != bytes "null")) [
      | inl named ↦ rw (call, other, named) (Keeps-start (canon_id w m.id) f s k)
      | inr bare ↦ rw (call, other, bare) k
    ]
  ]
]

Keeps-track :
    (w : Wire) (line : Text) (f : Framer) (s : Promise)
    → Keeps f s
    → Keeps (track w line f) (promise_in (inbound w line) s)
unfolding track inbound
Keeps-track w line f s k = Keeps-begin w (w.head line) f s k

unchanged :
    (id : Text) (c : List Text) (x : Text)
    → member id c ≡ false
    → member x c ≡ (not (id == x) && member x c)
unchanged id c x h = elim (Bool-cases (id == x)) [
  | inl same ↦
      let e : id ≡ x = ground (arith, same) in
      let gone = subst (λ z. member z c ≡ false) e h in rw (same, gone) refl
  | inr other ↦ rw other refl
]

Keeps-respond :
    (w : Wire) (id p : Text) (f : Framer) (s : Promise)
    → Keeps f s
    → Keeps (respond w id p f).1 (promise_by (s.phase_of id) id p s)
unfolding respond pass promise_by
Keeps-respond w id p f s k = elim (Bool-cases (member id f.inflight)) [
  | inl flying ↦ elim (Bool-cases (member id f.cancelled)) [
    | inl stopped ↦
        rw (k.phases id, flying, stopped)
          (Keeps-end id f s k (delete id f.cancelled) (λ x. member-delete x id f.cancelled))
    | inr live ↦
        let ended = Keeps-end id f s k f.cancelled (λ x. unchanged id f.cancelled x live) in
        rw (k.phases id, flying, live) (Keeps-say id _ _ ended p)
  ]
  | inr absent ↦ rw (k.phases id, absent) (Keeps-say id _ _ (Keeps-absent id f s k absent) p)
]

Keeps-message :
    (w : Wire) (m : Option Head) (p : Text) (f : Framer) (s : Promise)
    → Keeps f s
    → Keeps (write_head w m p f).1 (promise_out (answered_head w m) p s)
unfolding write_head answered_head promise_out pass
Keeps-message w none p f s k = Keeps-say [] f s k p
Keeps-message w (some m) p f s k = elim (Bool-cases (m.method == [] && m.id != [])) [
  | inl reply ↦ rw reply (Keeps-respond w (canon_id w m.id) p f s k)
  | inr other ↦ rw other (Keeps-say [] f s k p)
]

-- With no request in flight, a message is written with no look at it.
Keeps-idle :
    (w : Wire) (m : Option Text) (p : Text) (f : Framer) (s : Promise)
    → Keeps f s
    → ((id : Text) → member id f.inflight ≡ false)
    → Keeps (pass w p f).1 (promise_out m p s)
unfolding pass promise_out promise_by
Keeps-idle w none p f s k absent = Keeps-say [] f s k p
Keeps-idle w (some id) p f s k absent =
    rw (k.phases id, absent id) (Keeps-say id _ _ (Keeps-absent id f s k (absent id)) p)

empty-member : (xs : List Text) → is_empty xs ≡ true → (id : Text) → member id xs ≡ false
unfolding is_empty member
empty-member [] h id = refl
empty-member (x ∷ xs) h id = absurd (ground (arith, h))

Keeps-write :
    (w : Wire) (p : Text) (f : Framer) (s : Promise)
    → Keeps f s
    → Keeps (write w p f).1 (promise_out (answered w p) p s)
unfolding write answered
Keeps-write w p f s k = elim (Bool-cases (is_empty f.inflight)) [
  | inl none_flying ↦
      rw none_flying (Keeps-idle w (answered w p) p f s k (empty-member f.inflight none_flying))
  | inr some_flying ↦ rw some_flying (Keeps-message w (w.head p) p f s k)
]

Keeps-run :
    (w : Wire) (ms : List Move) (f : Framer) (s : Promise)
    → Keeps f s
    → Keeps (run_framer w f ms) (promised w s ms)
unfolding run_framer promised
Keeps-run w [] f s k = k
Keeps-run w (hears line ∷ ms) f s k =
    Keeps-run w ms (track w line f) (promise_in (inbound w line) s) (Keeps-track w line f s k)
Keeps-run w (says p ∷ ms) f s k =
    Keeps-run w ms (write w p f).1 (promise_out (answered w p) p s) (Keeps-write w p f s k)

-- Whatever the peer sends and the bridge says, in any order: the framer stands where the promise
-- stands. So it has written every message, in order and unchanged, but the one answer to each
-- request that was cancelled in flight; and the answer to a later request under the same id is
-- written again. It holds only requests in flight as cancelled.
pub run_framer-Keeps :
    (w : Wire) (ms : List Move) → Keeps (run_framer w new_framer ms) (promised w all_idle ms)
unfolding member
run_framer-Keeps w ms = Keeps-run w ms new_framer all_idle start
  where
    start : Keeps new_framer all_idle
    start = record {
      consistent = λ x h. absurd (ground (arith, h));
      phases = λ x. refl;
      same_out = refl;
    }
