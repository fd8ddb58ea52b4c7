-- ===== src/Journal/Frames.antt =====
-- Reading back the frames that `Append` writes, whole or cut short.
use task_worker.Text.{Text}
use task_worker.State.{max_commit_bytes}
use task_worker.Encoding.{IsDigest}
use mathlib.Core.List.{append_assoc}
use task_worker.Base.{
  ◌≡◌, ap, arith, drop, drop-append_exact, length, length-append, refl, sym, take,
  take-append_exact, ℕ, ◌++◌, ◌+◌, ◌<◌, ◌∙◌, ◌≤◌, !=-eq_false, Bool, false, le→ltb_false, lt→ltb,
  true, ◌-◌, Bytes-comparable,
}
use task_worker.Journal.{
  torn, whole, put_uint32, get_uint32, prefix, read_frame, frame_size, bad_length, judge,
}

-- A number below 2 ^ 32 survives its four bytes.
get-put_uint32 : (n : ℕ) (t : Text) → n < 4294967296 → get_uint32 (put_uint32 n ++ t) ≡ n
unfolding get_uint32 put_uint32
get-put_uint32 n t h = omega arith

length-prefix : (b : Text) → length (prefix b) ≡ 8
unfolding prefix put_uint32
length-prefix b = refl

-- A body that a frame can carry.
abbrev pub IsBody : Text → Type 0
IsBody b = (0 < length b) × (length b ≤ max_commit_bytes)

bad_length-of : (v n m : ℕ) → v ≡ 1 → n ≡ m → 0 < m → m ≤ max_commit_bytes → bad_length v n ≡ false
bad_length-of v n m h k l u = ground arith

judge-short : (a b c d e : Bool) (t : Text) → a ≡ true → judge a b c d e t ≡ torn
unfolding judge
judge-short a b c d e t h = ground arith

judge-torn :
    (a b c d e : Bool) (t : Text)
    → a ≡ false
    → b ≡ false
    → c ≡ false
    → d ≡ true
    → judge a b c d e t ≡ torn
unfolding judge
judge-torn a b c d e t h k l m = ground arith

judge-whole :
    (a b c d e : Bool) (t : Text)
    → a ≡ false
    → b ≡ false
    → c ≡ false
    → d ≡ false
    → e ≡ false
    → judge a b c d e t ≡ whole t
unfolding judge
judge-whole a b c d e t h k l m n = ground arith

-- What a reader finds at the front of the rest of the file, from what stands at each place.
module _ (sha256 : Text → Text) (f b : Text) where
  pub read_short : length f < frame_size → read_frame sha256 f ≡ torn
  unfolding read_frame
  read_short h = judge-short _ _ _ _ _ _ (lt→ltb (length f) frame_size h)

  module _ (intact : sha256 (take 8 f) ≡ take 32 (drop 8 f)) (version : get_uint32 f ≡ 1)
      (size : get_uint32 (drop 4 f) ≡ length b) (body : IsBody b) where
    read_torn :
        frame_size ≤ length f → length f < frame_size + length b → read_frame sha256 f ≡ torn
    unfolding read_frame
    read_torn l h =
        judge-torn _ _ _ _ _ _ (le→ltb_false (length f) frame_size l)
          (!=-eq_false (sha256 (take 8 f)) _ intact)
          (bad_length-of _ _ (length b) version size body.0 body.1)
          (lt→ltb (length f - frame_size) (get_uint32 (drop 4 f)) (omega arith))

    read_whole :
        frame_size + length b ≤ length f
        → take (length b) (drop frame_size f) ≡ b
        → take 32 (drop 40 f) ≡ sha256 b
        → read_frame sha256 f ≡ whole b
    unfolding read_frame
    read_whole l same sum =
        let same' : take (get_uint32 (drop 4 f)) (drop frame_size f) ≡ b =
          ap (λ n. take n (drop frame_size f)) size ∙ same in
        judge-whole _ _ _ _ _ _ (le→ltb_false (length f) frame_size (omega arith))
          (!=-eq_false (sha256 (take 8 f)) _ intact)
          (bad_length-of _ _ (length b) version size body.0 body.1)
          (le→ltb_false (length f - frame_size) (get_uint32 (drop 4 f)) (omega arith))
          (!=-eq_false (sha256 (take (get_uint32 (drop 4 f)) (drop frame_size f))) _
            (ap sha256 same' ∙ sym sum))
        ∙ ap whole same'

module _ (sha256 : Text → Text) (laws : IsDigest sha256) (b : Text) (t : Text) where
  -- A frame's header, and what follows it.
  abbrev pub front : Text
  front = prefix b ++ (sha256 (prefix b) ++ (sha256 b ++ t))

  front-length : length front ≡ frame_size + length t
  front-length = omega (
    arith,
    length-append (prefix b) (sha256 (prefix b) ++ (sha256 b ++ t)),
    length-append (sha256 (prefix b)) (sha256 b ++ t),
    length-append (sha256 b) t,
    length-prefix b,
    laws.length_32 (prefix b),
    laws.length_32 b,
  )

  front-prefix : take 8 front ≡ prefix b
  front-prefix = take-append_exact 8 (prefix b) _ (length-prefix b)

  front-prefix_sum : take 32 (drop 8 front) ≡ sha256 (prefix b)
  front-prefix_sum =
      ap (take 32) (drop-append_exact 8 (prefix b) _ (length-prefix b))
      ∙ take-append_exact 32 (sha256 (prefix b)) _ (laws.length_32 (prefix b))

  front-sum : take 32 (drop 40 front) ≡ sha256 b
  front-sum =
      ap (λ f. take 32 (drop 40 f))
        (sym (append_assoc (prefix b) (sha256 (prefix b)) (sha256 b ++ t)))
      ∙ (ap (take 32) (
            drop-append_exact 40 (prefix b ++ sha256 (prefix b)) (sha256 b ++ t) (
              omega (
                arith,
                length-append (prefix b) (sha256 (prefix b)),
                length-prefix b,
                laws.length_32 (prefix b),
              )))
          ∙ take-append_exact 32 (sha256 b) t (laws.length_32 b))

  front-rest : drop frame_size front ≡ t
  front-rest =
      ap (drop frame_size) (
        sym (append_assoc (prefix b) (sha256 (prefix b)) (sha256 b ++ t))
        ∙ sym (append_assoc (prefix b ++ sha256 (prefix b)) (sha256 b) t))
      ∙ drop-append_exact frame_size ((prefix b ++ sha256 (prefix b)) ++ sha256 b) t (
          omega (
            arith,
            length-append (prefix b ++ sha256 (prefix b)) (sha256 b),
            length-append (prefix b) (sha256 (prefix b)),
            length-prefix b,
            laws.length_32 (prefix b),
            laws.length_32 b,
          ))

  front-version : get_uint32 front ≡ 1
  unfolding prefix get_uint32 put_uint32
  front-version = refl

  front-size : length b < 4294967296 → get_uint32 (drop 4 front) ≡ length b
  unfolding prefix get_uint32 put_uint32
  front-size h = omega arith

  -- A whole frame is read, and a frame that is cut inside its body is torn.
  pub front-torn : IsBody b → length t < length b → read_frame sha256 front ≡ torn
  front-torn v short =
      read_torn sha256 front b (ap sha256 front-prefix ∙ sym front-prefix_sum) front-version
        (front-size (omega arith)) v (omega (arith, front-length)) (omega (arith, front-length))

  pub front-whole :
      IsBody b → length b ≤ length t → take (length b) t ≡ b → read_frame sha256 front ≡ whole b
  front-whole v long same =
      read_whole sha256 front b (ap sha256 front-prefix ∙ sym front-prefix_sum) front-version
        (front-size (omega arith)) v (omega (arith, front-length))
        (ap (take (length b)) front-rest ∙ same) front-sum
