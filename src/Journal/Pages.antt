-- ===== src/Journal/Pages.antt =====
-- What the pages of `ReadEvents` hold.
use task_worker.Text.{Text}
use task_worker.Base.{
  All, Bool, Bool-cases, List, [], arith, false, inl, inr, leb, length, length-append, ltb, subst,
  true, ℕ, ◌++◌, ◌+◌, ◌<◌, ◌==◌, ◌||◌, ◌∷◌, ◌≡◌, ◌≤◌, ℕ-comparable, All-append, refl,
}
use task_worker.Events.{Event, Cursor}
use task_worker.State.{max_observer_bytes}
use task_worker.Errors.{ok, >>=-eq-ok, Outcome, err}
use task_worker.Worker.{encoded_length}
use task_worker.Journal.{Codec, Index, DiskFile, Journal}
use task_worker.Journal.Replay.{
  Page, add_events, read_records, reread, finish_page, page_refused, read_events, read_page,
}

-- The encoded size of a page.
abbrev pub events_size : Codec → List Event → ℕ
events_size codec [] = 0
events_size codec (e ∷ es) = encoded_length (codec.encoding.event e) + events_size codec es

-- Only events after the cursor, no more than asked for, within the size of a backlog.
pub record IsPage (codec : Codec) (after limit : ℕ) (events : List Event) : Type 0 where
  pub later : All (λ (e : Event). after < e.cursor.sequence) events
  pub few : length events ≤ limit
  pub small : events_size codec events ≤ max_observer_bytes

record IsCounted (codec : Codec) (after limit : ℕ) (page : Page) : Type 0 where
  is_page : IsPage codec after limit page.events
  counted : page.size ≡ events_size codec page.events

events_size-append :
    (codec : Codec) (xs ys : List Event)
    → events_size codec (xs ++ ys) ≡ events_size codec xs + events_size codec ys
events_size-append codec [] ys = omega arith
events_size-append codec (x ∷ xs) ys = omega (arith, events_size-append codec xs ys)

module _ (codec : Codec) (after limit : ℕ) where
  abbrev grown : Page → Event → Page
  grown page e = record {
    events = page.events ++ e ∷ [];
    size = page.size + encoded_length (codec.encoding.event e);
    full = false;
  }

  abbrev overfull : Page → Event → Bool
  overfull page e = ltb max_observer_bytes (page.size + encoded_length (codec.encoding.event e))

  grown-IsCounted :
      (page : Page) (e : Event)
      → IsCounted codec after limit page
      → length page.events < limit
      → ltb after e.cursor.sequence ≡ true
      → overfull page e ≡ false
      → IsCounted codec after limit (grown page e)
  grown-IsCounted page e c room l small =
      let sum = events_size-append codec page.events (e ∷ []) in
      record {
        is_page = record {
          later =
              All-append (λ (x : Event). after < x.cursor.sequence) page.events (e ∷ [])
                c.is_page.later (ground (arith, l), tt);
          few = omega (arith, room, length-append page.events (e ∷ []));
          small = ground (arith, small, sum, c.counted);
        };
        counted = omega (arith, sum, c.counted);
      }

  full-IsCounted :
      (page : Page)
      → IsCounted codec after limit page
      → IsCounted codec after limit (record page { full = true })
  full-IsCounted page c = record { is_page = c.is_page; counted = c.counted }

  add_events-IsCounted :
      (es : List Event) (page : Page)
      → IsCounted codec after limit page
      → length page.events < limit
      → IsCounted codec after limit (add_events codec after limit es page)
  unfolding add_events
  add_events-IsCounted [] page c room = c
  add_events-IsCounted (e ∷ es) page c room = elim (Bool-cases (ltb after e.cursor.sequence)) [
    | inr skip ↦ rw skip (add_events-IsCounted es page c room)
    | inl l ↦ elim (Bool-cases (overfull page e)) [
      | inl o ↦ rw (l, o) (full-IsCounted page c)
      | inr o ↦
          let g = grown-IsCounted page e c room l o in
          elim (Bool-cases (length (grown page e).events == limit)) [
            | inl done ↦ rw (l, o, done) g
            | inr more ↦
                rw (l, o, more)
                  (add_events-IsCounted es (grown page e) g (ground (arith, more, g.is_page.few)))
          ]
    ]
  ]

  read_records-IsCounted :
      (contents : Text) (rs : List Index) (page q : Page)
      → IsCounted codec after limit page
      → read_records codec contents after limit rs page ≡ ok q
      → IsCounted codec after limit q
  unfolding read_records
  read_records-IsCounted contents [] page q c h =
      subst (IsCounted codec after limit) (ground (arith, h)) c
  read_records-IsCounted contents (r ∷ rs) page q c h =
      elim (Bool-cases (page.full || leb limit (length page.events))) [
        | inl stop ↦ subst (IsCounted codec after limit) (ground (arith, stop, h)) c
        | inr go ↦
            let (k, _, rest) = >>=-eq-ok (reread codec contents r) _ (rw go at h) in
            read_records-IsCounted contents rs _ q
              (add_events-IsCounted k.events page c (ground (arith, go))) rest
      ]

module _ {File : Type 0} (disk : DiskFile File) (codec : Codec) where
  finish_page-ok :
      (m : Outcome Page) (j k : Journal File) (es : List Event)
      → finish_page disk codec m j ≡ (ok es, k)
      → (q : Page) × (m ≡ ok q) × (q.events ≡ es) × (k ≡ j)
  unfolding finish_page
  finish_page-ok (ok q) j k es h = (q, refl, ground (arith, h), ground (arith, h))
  finish_page-ok (err e) j k es h = cc

  -- A page that `ReadEvents` answers holds only events after the cursor, no more than asked for, and
  -- no more bytes than an observer's backlog; the journal is left as it was.
  pub read_events-IsPage :
      (ended : Bool) (after : Cursor) (limit : ℕ) (j k : Journal File) (es : List Event)
      → read_events disk codec ended after limit j ≡ (ok es, k)
      → IsPage codec after.sequence limit es × (k ≡ j)
  unfolding read_events read_page
  read_events-IsPage ended after limit j k es h = go (page_refused disk codec ended after limit j) h
    where
      go :
          (m : Outcome (Unit {0}))
          → elim m [ err e ↦ (err e, j) | ok _ ↦ read_page disk codec after limit j ] ≡ (ok es, k)
          → IsPage codec after.sequence limit es × (k ≡ j)
      go (err e) h = cc
      go (ok _) h =
          let (q, run, same, kept) = finish_page-ok _ j k es h in
          let start : IsCounted codec after.sequence limit
              (record { events = []; size = 0; full = false }) =
            record {
              is_page = record { later = tt; few = omega arith; small = omega arith };
              counted = refl;
            } in
          let c = read_records-IsCounted codec after.sequence limit _ _ _ q start run in
          (subst (IsPage codec after.sequence limit) same c.is_page, kept)
