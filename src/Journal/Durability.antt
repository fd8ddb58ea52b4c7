-- ===== src/Journal/Durability.antt =====
-- What a restart recovers from the bytes that were written before it.
use task_worker.Errors.{Outcome, ◌>>=◌}
use task_worker.Text.{Text}
use task_worker.Journal.Scan.{Scanned, replay_frame, scan, scan_on}
use task_worker.Encoding.{IsDigest}
use task_worker.Journal.Frames.{IsBody, front-torn, front-whole, read_short, front}
use mathlib.Core.List.{append_assoc}
use task_worker.Base.{
  ◌≡◌, List, [], ap, arith, dec_lt, drop, drop-append_exact, length, length-append, length-take_le,
  refl, suc, sym, take, take-append_exact, take-append_past, zero, ℕ, ◌++◌, ◌+◌, ◌-◌, ◌<◌, ◌∙◌, ◌∷◌,
  ◌≤◌,
}
use task_worker.Journal.{torn, whole, Codec, frame_size, put_uint32, read_frame, frame, ok, prefix}

abbrev pub frames : (Text → Text) → List Text → Text
frames sha256 [] = []
frames sha256 (b ∷ bs) = frame sha256 b ++ frames sha256 bs

-- The loop of `Open` goes through these bodies, one by one.
pub data Replays (codec : Codec) : Scanned → List Text → Scanned → Type 0 where
  done : {s : Scanned} → Replays codec s [] s
  more :
      {s t u : Scanned} {b : Text} {bs : List Text}
      → IsBody b
      → replay_frame codec s b ≡ ok t
      → Replays codec t bs u
      → Replays codec s (b ∷ bs) u

-- The start of a frame, cut off before its end, as a crash during a write leaves it.
abbrev pub IsCut : (Text → Text) → Text → Type 0
IsCut sha256 tail =
    (b : Text) × (n : ℕ) × IsBody b × (n < frame_size + length b) × (tail ≡ take n (frame sha256 b))

module _ (codec : Codec) (laws : IsDigest codec.encoding.sha256) where
  open codec.encoding use {sha256}

  header_part : (b : Text) → length (prefix b ++ (sha256 (prefix b) ++ sha256 b)) ≡ frame_size
  unfolding prefix put_uint32
  header_part b = omega (
    arith,
    length-append (sha256 (prefix b)) (sha256 b),
    length-append (prefix b) (sha256 (prefix b) ++ sha256 b),
    laws.length_32 (prefix b),
    laws.length_32 b,
  )

  regroup :
      (b t : Text) → front sha256 laws b t ≡ (prefix b ++ (sha256 (prefix b) ++ sha256 b)) ++ t
  regroup b t =
      ap (λ x. prefix b ++ x) (sym (append_assoc (sha256 (prefix b)) (sha256 b) t))
      ∙ sym (append_assoc (prefix b) (sha256 (prefix b) ++ sha256 b) t)

  frame-front : (b t : Text) → frame sha256 b ++ t ≡ front sha256 laws b (b ++ t)
  unfolding frame
  frame-front b t =
      append_assoc (prefix b) (sha256 (prefix b) ++ (sha256 b ++ b)) t
      ∙ ap (λ x. prefix b ++ x)
          (append_assoc (sha256 (prefix b)) (sha256 b ++ b) t
            ∙ ap (λ x. sha256 (prefix b) ++ x) (append_assoc (sha256 b) b t))

  pub read_cut : (tail : Text) → IsCut sha256 tail → read_frame sha256 tail ≡ torn
  unfolding frame
  read_cut tail (b, n, body, short, cut) = elim (dec_lt n frame_size) [
    | yes early ↦
        read_short sha256 tail b (omega (arith, ap length cut, length-take_le n (frame sha256 b)))
    | no late ↦
        let h = prefix b ++ (sha256 (prefix b) ++ sha256 b) in
        let t = take (n - length h) b in
        let shape : tail ≡ front sha256 laws b t =
          cut
          ∙ (ap (take n) (regroup b b)
              ∙ (take-append_past n h b (omega (arith, header_part b)) ∙ sym (regroup b t))) in
        ap (read_frame sha256) shape
        ∙ front-torn sha256 laws b t body
            (omega (arith, length-take_le (n - length h) b, header_part b))
  ]

  pub length-frame : (b : Text) → length (frame sha256 b) ≡ frame_size + length b
  unfolding frame
  length-frame b =
      ap length (regroup b b)
      ∙ (length-append (prefix b ++ (sha256 (prefix b) ++ sha256 b)) b
          ∙ ap (λ n. n + length b) (header_part b))

  -- One whole frame in front of anything.
  read_first :
      (b rest : Text)
      → IsBody b
      → (read_frame sha256 (frame sha256 b ++ rest) ≡ whole b)
        × (drop (frame_size + length b) (frame sha256 b ++ rest) ≡ rest)
  unfolding frame
  read_first b rest body = (
    ap (read_frame sha256) (frame-front b rest)
        ∙ front-whole sha256 laws b (b ++ rest) body (omega (arith, length-append b rest))
            (take-append_exact (length b) b rest refl),
    drop-append_exact (frame_size + length b) (frame sha256 b) rest (length-frame b),
  )

  scan_first :
      (fuel : ℕ) (s v : Scanned) (b rest : Text)
      → read_frame sha256 (frame sha256 b ++ rest) ≡ whole b
      → replay_frame codec s b ≡ ok v
      → drop (frame_size + length b) (frame sha256 b ++ rest) ≡ rest
      → scan codec (suc fuel) s (frame sha256 b ++ rest) ≡ scan codec fuel v rest
  unfolding scan
  scan_first fuel s v b rest first step dropped =
      ap (scan_on codec (scan codec fuel) s (frame sha256 b ++ rest)) first
      ∙ (ap
            (λ (o : Outcome Scanned).
              o >>= λ t. scan codec fuel t (drop (frame_size + length b) (frame sha256 b ++ rest)))
            step
          ∙ ap (scan codec fuel v) dropped)

  -- The loop goes through all whole frames and stops at a torn end.
  pub scan-frames :
      (fuel : ℕ) (s u : Scanned) (bs : List Text) (tail : Text)
      → Replays codec s bs u
      → read_frame sha256 tail ≡ torn
      → length bs ≤ fuel
      → scan codec fuel s (frames sha256 bs ++ tail) ≡ ok u
  unfolding scan
  scan-frames zero s u [] tail done t h = refl
  scan-frames zero s u (b ∷ bs) tail r t h = absurd (omega arith)
  scan-frames (suc fuel) s u [] tail done t h = ap (scan_on codec (scan codec fuel) s tail) t
  scan-frames (suc fuel) s u (b ∷ bs) tail (more {t = v} body step r) t h =
      let rest = frames sha256 bs ++ tail in
      let (first, dropped) = read_first b rest body in
      let shape = append_assoc (frame sha256 b) (frames sha256 bs) tail in
      ap (scan codec (suc fuel) s) shape
      ∙ (scan_first fuel s v b rest first step dropped
          ∙ scan-frames fuel v u bs tail r t (omega arith))
