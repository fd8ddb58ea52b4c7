-- ===== src/Journal/Restart.antt =====
-- `Open` after a crash at any byte of an `Append`.
use Prim.Native.Nat.{ℕ}
use task_worker.State.Reducer.{apply_commit}
use task_worker.State.{max_commit_bytes}
use task_worker.Errors.{>>-eq-ok, >>=-eq-ok, fail_if, or_fail, ok, fail_if-pass}
use task_worker.Journal.Frames.{IsBody, read_short}
use task_worker.Events.{Commit, Snapshot}
use task_worker.Encoding.{IsDigest}
use task_worker.Text.{Text, hex_encode}
use task_worker.Journal.Scan.{
  Scanned, bad_file_header, empty_state, replay_frame, header, recover_file, scan,
}
use task_worker.Journal.Append.{Planned, plan_append, check_open, over_budget, appended}
use mathlib.Core.List.{append_assoc, append-nil}
use task_worker.Base.{
  ◌≡◌, List, [], ap, arith, drop, false, length, length-append, some, sym, take, ◌++◌, ◌<◌, ◌∙◌,
  ◌∷◌, ◌≤◌, !=-eq_false, drop-append_exact, ltb, refl, subst, take-append_exact, ◌+◌,
  Bytes-comparable, Bool, le→ltb_false, ◌!=◌, ◌||◌, ℕ-comparable, if◌then◌else◌, dec_lt,
  length-take_of, lt→ltb, take_all,
}
use task_worker.Journal.{
  torn, Codec, Journal, header_size, put_uint32, budget_exhausted, first_sequence, frame_size,
  get_uint32, receipts_with, repeats_key, storage_error, frame, decode, prefix, magic, hard_bytes,
  read_frame,
}
use task_worker.Journal.Durability.{
  Replays, done, more, frames, scan-frames, length-frame, read_cut,
}

-- What the journal relies on: JSON reads back what it has written, and writes something; SHA-256
-- gives 32 bytes.
pub record IsCodec (codec : Codec) : Type 0 where
  pub digest : IsDigest codec.encoding.sha256
  pub round_trip : (c : Commit) (b : Text) → codec.encoding.commit c ≡ some b → codec.parse b ≡ ok c
  pub nonempty : (c : Commit) (b : Text) → codec.encoding.commit c ≡ some b → 0 < length b

-- The recovery state of a fresh file, and that of a handle.
abbrev pub origin : Text → Scanned
origin identity = record {
  state = empty_state (hex_encode identity);
  records = [];
  pos = header_size;
}

abbrev pub view : {F : Type 0} → Journal F → Scanned
view j = record { state = j.state; records = j.records; pos = j.size }

Replays-append :
    (codec : Codec) (s t u : Scanned) (bs : List Text) (b : Text)
    → Replays codec s bs t
    → IsBody b
    → replay_frame codec t b ≡ ok u
    → Replays codec s (bs ++ b ∷ []) u
Replays-append codec s t u [] b done v h = more v h done
Replays-append codec s t u (x ∷ bs) b (more {t = m} w k r) v h =
    more w k (Replays-append codec m t u bs b r v h)

frames-append :
    (sha256 : Text → Text) (bs : List Text) (b : Text)
    → frames sha256 (bs ++ b ∷ []) ≡ frames sha256 bs ++ frame sha256 b
frames-append sha256 [] b = append-nil (frame sha256 b)
frames-append sha256 (x ∷ bs) b =
    ap (λ r. frame sha256 x ++ r) (frames-append sha256 bs b)
    ∙ sym (append_assoc (frame sha256 x) (frames sha256 bs) (frame sha256 b))

length-frames : (sha256 : Text → Text) (bs : List Text) → length bs ≤ length (frames sha256 bs)
unfolding frame prefix put_uint32
length-frames sha256 [] = omega arith
length-frames sha256 (x ∷ bs) =
    omega (arith, length-append (frame sha256 x) (frames sha256 bs), length-frames sha256 bs)

neither : (a b : Bool) → a ≡ false → b ≡ false → (a || b) ≡ false
neither a b h k = ground arith

none_of :
    (a b c d : Bool) → a ≡ false → b ≡ false → c ≡ false → d ≡ false → (a || b || c || d) ≡ false
none_of a b c d h k l m = ground arith

module _ (codec : Codec) (laws : IsCodec codec) where
  open codec.encoding use {sha256}

  decode-canonical :
      (c : Commit) (b : Text) → codec.encoding.commit c ≡ some b → decode codec b ≡ ok c
  unfolding decode
  decode-canonical c b h =
      let parsed = laws.round_trip c b h in
      let same = !=-eq_false b b refl in ground (arith, parsed, same, h)

  replay_frame-of :
      (s : Scanned) (b : Text) (c : Commit) (next : Snapshot)
      → decode codec b ≡ ok c
      → apply_commit codec.encoding s.state.snapshot c ≡ ok next
      → repeats_key c.receipt s.state.receipts ≡ false
      → replay_frame codec s b
        ≡ ok (record {
          state = record { snapshot = next; receipts = receipts_with s.state.receipts c.receipt };
          records =
              s.records
              ++ record {
                offset = s.pos;
                length = length b;
                first = first_sequence c.events;
                last = next.cursor.sequence;
              }
                ∷ [];
          pos = s.pos + frame_size + length b;
        })
  unfolding replay_frame
  replay_frame-of s b c next d a r = rw (d, a, r) refl

  -- A planned append replays to the handle that it leaves.
  pub plan_append-replay :
      {F : Type 0} (j : Journal F) (c : Commit) (p : Planned)
      → plan_append codec j c ≡ ok p
      → IsBody p.body × (replay_frame codec (view j) p.body ≡ ok (view (appended codec c p j)))
  unfolding plan_append appended
  plan_append-replay j c p h =
      let (alive, h1) = >>-eq-ok (check_open j) _ h in
      let (b, encoded, h2) =
        >>=-eq-ok (or_fail (codec.encoding.commit c) (storage_error "encoding")) _ h1 in
      let (small, h3) =
        >>-eq-ok (fail_if (ltb max_commit_bytes (length b)) budget_exhausted) _ h2 in
      let (next, applied, h4) = >>=-eq-ok (apply_commit codec.encoding j.state.snapshot c) _ h3 in
      let (new, h5) =
        >>-eq-ok
          (fail_if (repeats_key c.receipt j.state.receipts) (storage_error "duplicate receipt")) _
          h4 in
      let (room, h6) = >>-eq-ok (fail_if (over_budget codec j c b next) budget_exhausted) _ h5 in
      let q : Planned = record { body = b; next = next } in
      let planned : q ≡ p = ground arith in
      let known : codec.encoding.commit c ≡ some b = ground arith in
      let size : length b ≤ max_commit_bytes = ground arith in
      let fresh : repeats_key c.receipt j.state.receipts ≡ false = ground arith in
      subst
        (λ (q : Planned).
          IsBody q.body × (replay_frame codec (view j) q.body ≡ ok (view (appended codec c q j))))
        planned
        (
          (laws.nonempty c b known, size),
          replay_frame-of (view j) b c next (decode-canonical c b known) applied fresh,
        )

  file_header-ok :
      (identity rest : Text)
      → length identity ≡ 16
      → (bad_file_header codec (header codec identity ++ rest) ≡ false)
        × (drop header_size (header codec identity ++ rest) ≡ rest)
        × (take 16 (drop 16 (header codec identity ++ rest)) ≡ identity)
  unfolding header bad_file_header put_uint32 get_uint32
  file_header-ok identity rest h =
      let m = magic ++ (put_uint32 1 ++ (put_uint32 header_size ++ identity)) in
      let all_of = m ++ (sha256 m ++ rest) in
      let shape : header codec identity ++ rest ≡ all_of = append_assoc m (sha256 m) rest in
      let size : length m ≡ 32 = omega arith in
      let sum : take 32 (drop 32 all_of) ≡ sha256 (take 32 all_of) =
        ap (take 32) (drop-append_exact 32 m (sha256 m ++ rest) size)
        ∙ (take-append_exact 32 (sha256 m) rest (laws.digest.length_32 m)
            ∙ ap sha256 (sym (take-append_exact 32 m (sha256 m ++ rest) size))) in
      (
        ap (bad_file_header codec) shape
            ∙ none_of (take 8 all_of != magic) (get_uint32 (drop 8 all_of) != 1)
                (get_uint32 (drop 12 all_of) != header_size)
                (take 32 (drop 32 all_of) != sha256 (take 32 all_of))
                (!=-eq_false {A = Text} magic magic refl) (!=-eq_false {A = ℕ} 1 1 refl)
                (!=-eq_false {A = ℕ} 64 64 refl)
                (!=-eq_false {A = Text} (take 32 (drop 32 all_of)) (sha256 (take 32 all_of)) sum),
        ap (drop header_size) (shape ∙ sym (append_assoc m (sha256 m) rest))
            ∙ drop-append_exact header_size (m ++ sha256 m) rest
                (omega (arith, length-append m (sha256 m), laws.digest.length_32 m)),
        ap (λ f. take 16 (drop 16 f)) shape ∙ take-append_exact 16 identity (sha256 m ++ rest) h,
      )

  file_length :
      (identity rest : Text)
      → length identity ≡ 16
      → length (header codec identity ++ rest) ≡ header_size + length rest
  unfolding header put_uint32
  file_length identity rest h =
      let m = magic ++ (put_uint32 1 ++ (put_uint32 header_size ++ identity)) in
      omega (
        arith,
        length-append (m ++ sha256 m) rest,
        length-append m (sha256 m),
        laws.digest.length_32 m,
      )

  recover_steps :
      (file rest identity : Text) (u : Scanned)
      → bad_file_header codec file ≡ false
      → drop header_size file ≡ rest
      → take 16 (drop 16 file) ≡ identity
      → header_size ≤ length file
      → length file ≤ hard_bytes
      → scan codec (length file) (origin identity) rest ≡ ok u
      → recover_file codec file ≡ ok u
  unfolding recover_file
  recover_steps file rest identity u fine behind id large small scanned =
      let outside = ltb (length file) header_size || ltb hard_bytes (length file) in
      let sized : outside ≡ false =
        neither (ltb (length file) header_size) (ltb hard_bytes (length file))
          (le→ltb_false (length file) header_size large)
          (le→ltb_false hard_bytes (length file) small) in
      fail_if-pass outside (storage_error "invalid journal file size") _ sized
      ∙ (fail_if-pass (bad_file_header codec file) (storage_error "corrupt or unsupported header") _
            fine
          ∙ (ap (λ i. scan codec (length file) (origin i) (drop header_size file)) id
              ∙ (ap (scan codec (length file) (origin identity)) behind ∙ scanned)))

  -- `Open` restores what the whole frames of a file within the hard limit replay to, whatever torn
  -- end follows them.
  pub recover_file-restores :
      (identity tail : Text) (bs : List Text) (u : Scanned)
      → length identity ≡ 16
      → Replays codec (origin identity) bs u
      → read_frame sha256 tail ≡ torn
      → length (header codec identity ++ (frames sha256 bs ++ tail)) ≤ hard_bytes
      → recover_file codec (header codec identity ++ (frames sha256 bs ++ tail)) ≡ ok u
  unfolding recover_file
  recover_file-restores identity tail bs u h r t small =
      let rest = frames sha256 bs ++ tail in
      let file = header codec identity ++ rest in
      let (fine, behind, id) = file_header-ok identity rest h in
      let sized : length file ≡ header_size + length rest = file_length identity rest h in
      let long : length bs ≤ length file =
        omega (arith, length-frames sha256 bs, length-append (frames sha256 bs) tail) in
      recover_steps file rest identity u fine behind id (omega arith) small
        (scan-frames codec laws.digest (length file) (origin identity) u bs tail r t long)

  -- The file with a part of the last frame is no longer than the one with all of it.
  shorter :
      (identity : Text) (bs : List Text) (b : Text) (n : ℕ)
      → length (header codec identity ++ (frames sha256 bs ++ frame sha256 b)) ≤ hard_bytes
      → length (header codec identity ++ (frames sha256 bs ++ take n (frame sha256 b))) ≤ hard_bytes
  shorter identity bs b n small = omega (
    arith,
    length-append (header codec identity) (frames sha256 bs ++ frame sha256 b),
    length-append (frames sha256 bs) (frame sha256 b),
    length-append (header codec identity) (frames sha256 bs ++ take n (frame sha256 b)),
    length-append (frames sha256 bs) (take n (frame sha256 b)),
    length-take_of n (frame sha256 b),
  )

  fits :
      (identity : Text) (bs : List Text) (b : Text)
      → length (header codec identity ++ (frames sha256 bs ++ frame sha256 b)) ≤ hard_bytes
      → length (header codec identity ++ (frames sha256 (bs ++ b ∷ []) ++ [])) ≤ hard_bytes
  fits identity bs b small =
      subst (λ t. length (header codec identity ++ t) ≤ hard_bytes)
        (sym (append-nil (frames sha256 (bs ++ b ∷ [])) ∙ frames-append sha256 bs b)) small

  -- An append is atomic under a crash. For a handle whose state is what the frames of its file replay
  -- to, and a transaction that `Append` accepts and that leaves the file within the hard limit:
  -- after any number `n` of the bytes of the new frame, `Open` restores the handle's state before
  -- the append, or after all of them the state after it.
  pub append_crash :
      {F : Type 0} (identity : Text) (bs : List Text) (j : Journal F) (c : Commit) (p : Planned)
      (n : ℕ)
      → length identity ≡ 16
      → Replays codec (origin identity) bs (view j)
      → plan_append codec j c ≡ ok p
      → length (header codec identity ++ (frames sha256 bs ++ frame sha256 p.body)) ≤ hard_bytes
      → recover_file codec
          (header codec identity ++ (frames sha256 bs ++ take n (frame sha256 p.body)))
        ≡ ok (if ltb n (frame_size + length p.body) then view j else view (appended codec c p j))
  append_crash identity bs j c p n h r planned small =
      let (body, replayed) = plan_append-replay j c p planned in
      elim (dec_lt n (frame_size + length p.body)) [
        | yes early ↦
            recover_file-restores identity (take n (frame sha256 p.body)) bs (view j) h r
              (read_cut codec laws.digest _ (p.body, n, body, early, refl))
              (shorter identity bs p.body n small)
            ∙ ap (λ (b : Bool). ok (if b then view j else view (appended codec c p j)))
                (sym (lt→ltb n (frame_size + length p.body) early))
        | no late ↦
            let u = view (appended codec c p j) in
            let all_of =
              Replays-append codec (origin identity) (view j) u bs p.body r body replayed in
            let full : take n (frame sha256 p.body) ≡ frame sha256 p.body =
              take_all n (frame sha256 p.body)
                (omega (arith, length-frame codec laws.digest p.body)) in
            let shape : frames sha256 bs ++ take n (frame sha256 p.body)
                ≡ frames sha256 (bs ++ p.body ∷ []) ++ [] =
              ap (λ t. frames sha256 bs ++ t) full
              ∙ (sym (frames-append sha256 bs p.body) ∙ sym (append-nil _)) in
            ap (λ t. recover_file codec (header codec identity ++ t)) shape
            ∙ (recover_file-restores identity [] (bs ++ p.body ∷ []) u h all_of
                  (read_short sha256 [] [] (omega arith)) (fits identity bs p.body small)
                ∙ ap (λ (b : Bool). ok (if b then view j else u))
                    (sym (le→ltb_false n (frame_size + length p.body) (omega arith))))
      ]
