-- ===== src/Bridge/Input/Lines.antt =====
-- The loop reads lines: how a line is cut into chunks does not matter.
use mathlib.Core.Bool.{not, ◌&&◌}
use task_worker.Base.{
  Bool-cases, List, Option, [], arith, false, if◌then◌else◌, inl, inr, length, length-append, ltb,
  refl, true, ℕ, ◌++◌, ◌==◌, ◌∷◌, ◌≡◌, Bytes-comparable, ap, le→ltb_false, sym, ◌∙◌, none, some,
  Bytes-discrete,
}
use mathlib.Core.List.{append-nil, append_assoc}
use task_worker.Bridge.Framer.{Wire}
use task_worker.Bridge.Input.{
  judge, invalid_request, Filter, full, at_newline, at_end, Chunk, Closing, ended, cleared, reply,
  act, flush, add_chunk, on_flushed, Verdict, filter_input, hand_over, message, refused, blank,
}
use task_worker.Errors.{Error}
use task_worker.HttpApi.Ids.{format_uint}
use task_worker.Text.{Text, bytes, concat}

-- A line with its newline, in the pieces that `ReadSlice` gives.
pub record Line : Type 0 where
  pub pieces : List Text
  pub last : Text

unfoldable pub text_of : Line → Text
text_of l = concat l.pieces ++ l.last

chunks : List Text → Chunk → List Chunk → List Chunk
chunks [] c rest = c ∷ rest
chunks (p ∷ ps) c rest = record { content = p; ending = full } ∷ chunks ps c rest

-- The chunks of whole lines, and then a line that the end of the input cuts off.
unfoldable pub chunks_of : List Line → Line → List Chunk
unfolding chunks
chunks_of [] tail = chunks tail.pieces (record { content = tail.last; ending = at_end }) []
chunks_of (l ∷ ls) tail =
    chunks l.pieces (record { content = l.last; ending = at_newline }) (chunks_of ls tail)

module _ (w : Wire) (pipe : List Text → Text → Option Error) (limit : ℕ) where
  -- What becomes of a whole line.
  unfoldable pub deliver : Text → Filter → Option Error × Filter
  unfolding reply act
  deliver text s =
      let too_long = bytes "message exceeds the " ++ (format_uint limit ++ bytes " byte limit") in
      if ltb limit (length text)
      then reply w pipe limit invalid_request too_long s
      else act w pipe limit (judge w.json text) s

  unfoldable pub deliver_all : Filter → List Line → Line → Closing × Filter
  unfolding on_flushed
  deliver_all s [] tail =
      if text_of tail == []
      then (ended, s)
      else on_flushed w pipe limit (deliver (text_of tail) s) (λ u. (ended, u))
  deliver_all s (l ∷ ls) tail =
      on_flushed w pipe limit (deliver (text_of l) s) (λ u. deliver_all u ls tail)

  -- The loop after the bytes `t` of a line.
  after : Filter → Text → Filter
  after s t =
      if ltb limit (length t)
      then record s { line = []; oversized = true }
      else record s { line = t; oversized = false }

  add_chunk-after :
      (s : Filter) (t c : Text) → add_chunk w pipe limit c (after s t) ≡ after s (t ++ c)
  unfolding add_chunk after
  add_chunk-after s t c = elim (Bool-cases (ltb limit (length t))) [
    | inl long ↦
        let still : ltb limit (length (t ++ c)) ≡ true = ground (arith, long, length-append t c) in
        rw (long, still) refl
    | inr short ↦ rw (short, length-append t c) refl
  ]

  flush-after :
      (s : Filter) (t : Text) → flush w pipe limit (after s t) ≡ deliver t (cleared w pipe limit s)
  unfolding flush after deliver cleared reply
  flush-after s t = elim (Bool-cases (ltb limit (length t))) [
    | inl long ↦ rw long refl
    | inr short ↦ rw short refl
  ]

  chunks-after :
      (ps : List Text) (s : Filter) (t : Text) (c : Chunk) (rest : List Chunk)
      → filter_input w pipe limit (after s t) (chunks ps c rest)
        ≡ filter_input w pipe limit (after s (t ++ concat ps)) (c ∷ rest)
  unfolding chunks concat
  chunks-after [] s t c rest =
      ap (λ x. filter_input w pipe limit (after s x) (c ∷ rest)) (sym (append-nil t))
  chunks-after (p ∷ ps) s t c rest =
      read_more
      ∙ (ap (λ x. filter_input w pipe limit x (chunks ps c rest)) (add_chunk-after s t p)
          ∙ (chunks-after ps s (t ++ p) c rest
              ∙ ap (λ x. filter_input w pipe limit (after s x) (c ∷ rest))
                  (append_assoc t p (concat ps))))
    where
      read_more :
          filter_input w pipe limit (after s t) (chunks (p ∷ ps) c rest)
          ≡ filter_input w pipe limit (add_chunk w pipe limit p (after s t)) (chunks ps c rest)
      read_more = unfold filter_input in refl

  after_none : (s : Filter) → after s [] ≡ cleared w pipe limit s
  unfolding after cleared
  after_none s = rw (le→ltb_false limit 0 (omega arith)) refl

  act-cleared :
      (v : Verdict) (s : Filter)
      → (act w pipe limit v (cleared w pipe limit s)).1
        ≡ cleared w pipe limit (act w pipe limit v (cleared w pipe limit s)).1
  unfolding cleared act reply hand_over
  act-cleared blank s = refl
  act-cleared (message text) s = refl
  act-cleared (refused code text) s = refl

  deliver-cleared :
      (t : Text) (s : Filter)
      → (deliver t (cleared w pipe limit s)).1
        ≡ cleared w pipe limit (deliver t (cleared w pipe limit s)).1
  unfolding deliver
  deliver-cleared t s = elim (Bool-cases (ltb limit (length t))) [
    | inl long ↦ rw long (act-cleared (refused invalid_request _) s)
    | inr short ↦ rw short (act-cleared (judge w.json t) s)
  ]

  on_flushed-same :
      (m : Option Error × Filter) (j k : Filter → Closing × Filter)
      → j m.1 ≡ k m.1
      → on_flushed w pipe limit m j ≡ on_flushed w pipe limit m k
  unfolding on_flushed
  on_flushed-same (some e, s) j k h = refl
  on_flushed-same (none, s) j k h = h

  -- The loop at a newline, with the bytes `t` of the line before.
  line_step :
      (s : Filter) (t l : Text) (rest : List Chunk)
      → filter_input w pipe limit (after s t) (record { content = l; ending = at_newline } ∷ rest)
        ≡ on_flushed w pipe limit
            (deliver (t ++ l) (cleared w pipe limit s))
            (λ u. filter_input w pipe limit u rest)
  unfolding filter_input
  line_step s t l rest =
      ap (λ m. on_flushed w pipe limit m (λ u. filter_input w pipe limit u rest))
        (ap (flush w pipe limit) (add_chunk-after s t l) ∙ flush-after s (t ++ l))

  end_after :
      (s : Filter) (x : Text) (m : Closing × Filter)
      → (if (after s x).line == [] && not (after s x).oversized then (ended, after s x) else m)
        ≡ (if x == [] then (ended, cleared w pipe limit s) else m)
  unfolding Bytes-discrete
  end_after s [] m = rw (after_none s) (unfold cleared in refl)
  end_after s (c ∷ cs) m = elim (Bool-cases (ltb limit (length (c ∷ cs)))) [
    | inl long ↦ unfold after in rw long refl
    | inr short ↦ unfold after in rw short refl
  ]

  end_step :
      (s : Filter) (t l : Text)
      → filter_input w pipe limit (after s t) (record { content = l; ending = at_end } ∷ []) ≡ (
          if t ++ l == []
          then (ended, cleared w pipe limit s)
          else on_flushed w pipe limit
              (deliver (t ++ l) (cleared w pipe limit s))
              (λ u. (ended, u)))
  unfolding filter_input
  end_step s t l = rw (add_chunk-after s t l, flush-after s (t ++ l)) (end_after s (t ++ l) _)

  -- The loop reads whole lines: it answers, hands over or leaves each as its bytes decide, in their
  -- order, up to the first that fails, however the lines are cut into chunks.
  pub filter_input-chunks_of :
      (ls : List Line) (tail : Line) (s : Filter)
      → filter_input w pipe limit (cleared w pipe limit s) (chunks_of ls tail)
        ≡ deliver_all (cleared w pipe limit s) ls tail
  unfolding chunks_of deliver_all text_of
  filter_input-chunks_of [] tail s =
      ap (λ x. filter_input w pipe limit x (chunks_of [] tail)) (sym (after_none s))
      ∙ (chunks-after tail.pieces s [] (record { content = tail.last; ending = at_end }) []
          ∙ end_step s (concat tail.pieces) tail.last)
  filter_input-chunks_of (l ∷ ls) tail s =
      let next : Chunk = record { content = l.last; ending = at_newline } in
      let done = deliver (text_of l) (cleared w pipe limit s) in
      let later = λ (u : Filter). filter_input w pipe limit u (chunks_of ls tail) in
      ap (λ x. filter_input w pipe limit x (chunks_of (l ∷ ls) tail)) (sym (after_none s))
      ∙ (chunks-after l.pieces s [] next (chunks_of ls tail)
          ∙ (line_step s (concat l.pieces) l.last (chunks_of ls tail)
              ∙ on_flushed-same done later (λ u. deliver_all u ls tail)
                  (ap later (deliver-cleared (text_of l) s)
                    ∙ (filter_input-chunks_of ls tail done.1
                        ∙ ap (λ u. deliver_all u ls tail) (sym (deliver-cleared (text_of l) s))))))
