-- ===== src/Audio/Reader/Fifo.antt =====
-- The frames that `read_frames` delivers, against those that the PCM gave.
use android_device_samsung_z.Common.{
  ℕ, zero, suc, ◌+◌, ◌-◌, ◌≤◌, ◌≡◌, refl, sym, ap, ◌∙◌, inl, inr, Bool-cases, true, false, Option,
  some, List, [], ◌++◌, ◌==◌, ltb, length, length-append, take, drop, append-take-drop, drop-drop,
  length-take, length-drop, drop-all, append-nil, append-append, if◌then◌else◌, arith,
}
use mathlib.Core.Path.{subst}
use android_device_samsung_z.Platform.{Ret, success}
use android_device_samsung_z.Audio.Reader.{
  Reader, Source, refill, get_next_buffer, release_buffer, read_loop, read_frames,
}

-- The frames that are read and not handed out yet.
abbrev pub pending : Reader → List ℕ
pending r = drop (r.period_size - r.read_buf_frames) r.read_buf

-- The frames of `count` reads from the one numbered `first` on.
abbrev pub periods : Source → (first count : ℕ) → List ℕ
periods pcm_read first zero = []
periods pcm_read first (suc count) = (pcm_read first).1 ++ periods pcm_read (first + 1) count

-- The buffer is used up, or it holds a period of which the end is pending.
pub data IsReader (r : Reader) : Type 0 where
  used_up : r.read_buf_frames ≡ 0 → length r.read_buf ≤ r.period_size → IsReader r
  holding :
      1 ≤ r.read_buf_frames
      → r.read_buf_frames ≤ r.period_size
      → length r.read_buf ≡ r.period_size
      → r.read_status ≡ success
      → IsReader r

-- Every read succeeds and fills the period, which has a frame.
pub record IsSteady (pcm_read : Source) (period_size : ℕ) : Type 0 where
  pub some_frame : 1 ≤ period_size
  pub succeeds : (k : ℕ) → (pcm_read k).0 ≡ success
  pub fills : (k : ℕ) → length (pcm_read k).1 ≡ period_size

-- A buffer that holds frames, and one that `count` of them are handed out of.
record IsHolding (r : Reader) : Type 0 where
  pub some_left : 1 ≤ r.read_buf_frames
  pub within : r.read_buf_frames ≤ r.period_size
  pub full : length r.read_buf ≡ r.period_size
  pub fine : r.read_status ≡ success

abbrev handed : Reader → ℕ → ℕ
handed r frames = if ltb r.read_buf_frames frames then r.read_buf_frames else frames

self_minus : (n : ℕ) → 0 ≡ n - n
self_minus n = omega arith

module _ (pcm_read : Source) where
  length-handed :
      (r : Reader) (frames : ℕ)
      → IsHolding r
      → length (take (handed r frames) (pending r)) ≡ handed r frames
  length-handed r frames h =
      length-take (handed r frames) (pending r)
        (ground (arith, h, length-drop (r.period_size - r.read_buf_frames) r.read_buf))

  handed-pending :
      (r : Reader) (frames count : ℕ)
      → IsHolding r
      → count ≡ handed r frames
      → pending r
        ≡ take (handed r frames) (pending r)
          ++ pending (record r { read_buf_frames = r.read_buf_frames - count })
  handed-pending r frames count h e =
      let before = r.period_size - r.read_buf_frames in
      let after = r.period_size - (r.read_buf_frames - count) in
      let rest : drop (handed r frames) (pending r) ≡ drop after r.read_buf =
        drop-drop (handed r frames) before after r.read_buf (ground (arith, h, e)) in
      sym (append-take-drop (handed r frames) (pending r))
      ∙ ap (λ xs. take (handed r frames) (pending r) ++ xs) rest

  after_handed :
      (r : Reader) (frames : ℕ)
      → IsHolding r
      → IsReader (record r { read_buf_frames = r.read_buf_frames - handed r frames })
  after_handed r frames h = elim (Bool-cases (r.read_buf_frames - handed r frames == 0)) [
    | inl over ↦ IsReader.used_up (ground (arith, over)) (ground (arith, h))
    | inr left ↦ IsReader.holding (ground (arith, left)) (ground (arith, h)) h.full h.fine
  ]

  -- What the buffer is filled with.
  refilled :
      (r : Reader)
      → IsSteady pcm_read r.period_size
      → refill pcm_read r ≡ record r {
        read_buf = (pcm_read r.reads).1;
        read_status = success;
        reads = r.reads + 1;
        read_buf_frames = r.period_size;
      }
  unfolding refill
  refilled r steady = ground (arith, steady.succeeds r.reads)

  -- The buffer that a round hands out of: that of `r`, or that of a read before it.
  record IsFilled (r f : Reader) (frames count : ℕ) : Type 0 where
    pub hands : get_next_buffer pcm_read r frames ≡ (take (handed f frames) (pending f), f)
    pub holds : IsHolding f
    pub reads : f.reads ≡ r.reads + count
    pub same_period : f.period_size ≡ r.period_size
    pub kept : pending r ++ periods pcm_read r.reads count ≡ pending f

  IsFilled-held : (r : Reader) (frames : ℕ) → IsHolding r → IsFilled r r frames 0
  unfolding get_next_buffer
  IsFilled-held r frames h = record {
    hands = ground (arith, h);
    holds = h;
    reads = omega arith;
    same_period = refl;
    kept = append-nil (pending r);
  }

  IsFilled-read :
      (r : Reader) (frames : ℕ)
      → r.read_buf_frames ≡ 0
      → length r.read_buf ≤ r.period_size
      → IsSteady pcm_read r.period_size
      → IsFilled r (refill pcm_read r) frames 1
  unfolding get_next_buffer
  IsFilled-read r frames used short steady =
      let f = record r {
        read_buf = (pcm_read r.reads).1;
        read_status = success;
        reads = r.reads + 1;
        read_buf_frames = r.period_size;
      } in
      let e = refilled r steady in
      record {
        hands = ground (arith, used, e);
        holds = record {
          some_left = ground (arith, e, steady.some_frame);
          within = ground (arith, e);
          full = ground (arith, e, steady.fills r.reads);
          fine = ground (arith, e);
        };
        reads = ground (arith, e);
        same_period = ground (arith, e);
        kept =
            ap (λ xs. xs ++ periods pcm_read r.reads 1)
              (drop-all (r.period_size - r.read_buf_frames) r.read_buf
                (ground (arith, used, short)))
            ∙ append-nil (pcm_read r.reads).1
            ∙ ap (λ n. drop n (pcm_read r.reads).1) (self_minus r.period_size)
            ∙ sym (ap pending e);
      }

  periods_add :
      (first m n k next : ℕ)
      → k ≡ m + n
      → next ≡ first + m
      → periods pcm_read first k ≡ periods pcm_read first m ++ periods pcm_read next n
  periods_add first zero n k next e f =
      ap (periods pcm_read first) (omega (arith, e))
      ∙ ap (λ i. periods pcm_read i n) (omega (arith, f))
  periods_add first (suc m) n zero next e f = absurd (omega arith)
  periods_add first (suc m) n (suc k) next e f =
      ap (λ xs. (pcm_read first).1 ++ xs)
        (periods_add (first + 1) m n k next (omega arith) (omega arith))
      ∙ sym (
          append-append (pcm_read first).1 (periods pcm_read (first + 1) m)
            (periods pcm_read next n))

  -- What `frames` frames are read to: the frames, and a reader that holds what follows them.
  pub record IsRead (r : Reader) (frames : ℕ) (buffer : List ℕ)
      (result : Option (Ret × List ℕ × Reader)) : Type 0 where
    pub got : List ℕ
    pub after : Reader
    pub count : ℕ
    pub ends : result ≡ some (success, buffer ++ got, after)
    pub all_frames : length got ≡ frames
    pub reads : after.reads ≡ r.reads + count
    pub same_size : after.period_size ≡ r.period_size
    pub in_order : pending r ++ periods pcm_read r.reads count ≡ got ++ pending after
    pub ready : IsReader after

  IsRead-none :
      (r : Reader) (frames : ℕ) (buffer : List ℕ)
      → frames ≡ 0
      → IsReader r
      → IsRead r frames buffer (some (success, buffer, r))
  IsRead-none r frames buffer z h = record {
    got = [];
    after = r;
    count = 0;
    ends = ap (λ xs. some (success, xs, r)) (sym (append-nil buffer));
    all_frames = sym z;
    reads = omega arith;
    same_size = refl;
    in_order = append-nil (pending r);
    ready = h;
  }

  IsReader-IsFilled :
      (r : Reader) (frames : ℕ)
      → IsReader r
      → IsSteady pcm_read r.period_size
      → (f : Reader) × (count : ℕ) × IsFilled r f frames count
  IsReader-IsFilled r frames (IsReader.used_up used short) steady =
      (refill pcm_read r, 1, IsFilled-read r frames used short steady)
  IsReader-IsFilled r frames (IsReader.holding more within full fine) steady = (
    r,
    0,
    IsFilled-held r frames (record { some_left = more; within = within; full = full; fine = fine }),
  )

  read_loop-step :
      (fuel frames : ℕ) (buffer got : List ℕ) (r f : Reader)
      → (frames == 0) ≡ false
      → get_next_buffer pcm_read r frames ≡ (got, f)
      → f.read_status ≡ success
      → read_loop pcm_read (suc fuel) frames buffer r
        ≡ read_loop pcm_read fuel
            (frames - length got)
            (buffer ++ got)
            (release_buffer pcm_read f (length got))
  unfolding read_loop
  read_loop-step fuel frames buffer got r f more e fine = rw (more, e, fine) refl

  -- What a round hands out, and what is read after it.
  join_kept :
      (r f t after : Reader) (got rest : List ℕ) (frames count more : ℕ)
      → pending r ++ periods pcm_read r.reads count ≡ pending f
      → pending f ≡ got ++ pending t
      → t.reads ≡ r.reads + count
      → pending t ++ periods pcm_read t.reads more ≡ rest ++ pending after
      → pending r ++ periods pcm_read r.reads (count + more) ≡ (got ++ rest) ++ pending after
  join_kept r f t after got rest frames count more kept split reads next =
      ap (λ xs. pending r ++ xs) (periods_add r.reads count more (count + more) t.reads refl reads)
      ∙ sym (
          append-append (pending r) (periods pcm_read r.reads count)
            (periods pcm_read t.reads more))
      ∙ ap (λ xs. xs ++ periods pcm_read t.reads more) (kept ∙ split)
      ∙ append-append got (pending t) (periods pcm_read t.reads more)
      ∙ ap (λ xs. got ++ xs) next
      ∙ sym (append-append got rest (pending after))

  IsRead-round :
      (r f : Reader) (frames count : ℕ) (buffer : List ℕ) (result : Option (Ret × List ℕ × Reader))
      → (frames == 0) ≡ false
      → IsFilled r f frames count
      → let got = take (handed f frames) (pending f) in
        IsRead (release_buffer pcm_read f (length got)) (frames - length got) (buffer ++ got) result
        → IsRead r frames buffer result
  IsRead-round r f frames count buffer result more round next =
      let got = take (handed f frames) (pending f) in
      let many = length-handed f frames round.holds in
      record {
        got = got ++ next.got;
        after = next.after;
        count = count + next.count;
        ends =
            next.ends
            ∙ ap (λ xs. some (success, xs, next.after)) (append-append buffer got next.got);
        all_frames =
            length-append got next.got ∙ ground (arith, many, next.all_frames, round.holds, more);
        reads = omega (arith, next.reads, round.reads);
        same_size = next.same_size ∙ round.same_period;
        in_order =
            join_kept r f (release_buffer pcm_read f (length got)) next.after got next.got frames
              count next.count round.kept (handed-pending f frames (length got) round.holds many)
              round.reads next.in_order;
        ready = next.ready;
      }

  read_loop-IsRead :
      (fuel frames : ℕ) (buffer : List ℕ) (r : Reader)
      → frames ≤ fuel
      → IsReader r
      → IsSteady pcm_read r.period_size
      → IsRead r frames buffer (read_loop pcm_read fuel frames buffer r)
  read_loop-IsRead zero frames buffer r le h steady =
      let z : (frames == 0) ≡ true = ground arith in
      unfold read_loop in rw z (IsRead-none r frames buffer (omega arith) h)
  read_loop-IsRead (suc fuel) frames buffer r le h steady = elim (Bool-cases (frames == 0)) [
    | inl z ↦ unfold read_loop in rw z (IsRead-none r frames buffer (ground (arith, z)) h)
    | inr more ↦
        let (f, count, round) = IsReader-IsFilled r frames h steady in
        let got = take (handed f frames) (pending f) in
        let many = length-handed f frames round.holds in
        let left =
          subst (λ n. IsReader (record f { read_buf_frames = f.read_buf_frames - n })) (sym many)
            (after_handed f frames round.holds) in
        let less : frames - length got ≤ fuel = ground (arith, many, more, round.holds, le) in
        subst (IsRead r frames buffer)
          (sym (read_loop-step fuel frames buffer got r f more round.hands round.holds.fine))
          (IsRead-round r f frames count buffer _ more round (
            read_loop-IsRead fuel (frames - length got) (buffer ++ got)
              (release_buffer pcm_read f (length got)) less left
              (subst (IsSteady pcm_read) (sym round.same_period) steady)))
  ]

  -- Where each read of the PCM succeeds and fills a period of at least one frame, and the buffer is
  -- used up or holds the end of a period, `read_frames` without a resampler ends with success and
  -- exactly the frames asked for: the frames pending before and those of the reads that were made
  -- are, in this order, the frames delivered and those pending after. No frame is lost or delivered
  -- twice.
  pub read_frames-IsRead :
      (r : Reader) (frames : ℕ)
      → IsReader r
      → IsSteady pcm_read r.period_size
      → IsRead r frames [] (read_frames pcm_read r frames)
  unfolding read_frames
  read_frames-IsRead r frames h steady = read_loop-IsRead frames frames [] r (omega arith) h steady
