-- ===== src/Audio/Reader.antt =====
-- Reading from a capture without a resampler: `get_next_buffer`, `release_buffer` and
-- `read_frames` of audio/audio_hw.c. A frame is a number, and the buffer is a list of frames.
pub mod Fifo
pub mod Examples
use android_device_samsung_z.Common.{
  ℕ, zero, suc, ◌+◌, ◌-◌, Option, none, some, List, [], ◌++◌, ◌==◌, ltb, not, length, take, drop,
  if◌then◌else◌,
}
use android_device_samsung_z.Platform.{Ret, success, is_zero}

-- What `read_frames` uses of `struct stream_in` once a PCM device is open, and how often
-- `pcm_read` was called.
pub record Reader : Type 0 where
  pub period_size : ℕ
  pub read_buf : List ℕ
  pub read_buf_frames : ℕ
  pub read_status : Ret
  pub reads : ℕ

-- `pcm_read`: the result of each call in turn, and the frames that it leaves in the buffer.
abbrev pub Source : Type 0
Source = ℕ → Ret × List ℕ

module _ (pcm_read : Source) where
  -- The read of a period into the buffer.
  unfoldable pub refill : Reader → Reader
  refill r =
      let (status, frames) = pcm_read r.reads in
      let tried = record r { read_buf = frames; read_status = status; reads = r.reads + 1 } in
      if is_zero status then record tried { read_buf_frames = r.period_size } else tried

  -- The frames of the buffer that are handed out; none with an error.
  unfoldable pub get_next_buffer : Reader → (frame_count : ℕ) → List ℕ × Reader
  get_next_buffer r frame_count =
      let filled = if r.read_buf_frames == 0 then refill r else r in
      let count =
        if ltb filled.read_buf_frames frame_count then filled.read_buf_frames else frame_count in
      let raw = drop (filled.period_size - filled.read_buf_frames) filled.read_buf in
      if r.read_buf_frames == 0
      then if is_zero filled.read_status then (take count raw, filled) else ([], filled)
      else (take count raw, filled)

  abbrev pub release_buffer : Reader → (frame_count : ℕ) → Reader
  release_buffer r frame_count = record r { read_buf_frames = r.read_buf_frames - frame_count }

  -- The loop of `read_frames`: `frames` are still missing behind those in `buffer`. The answer is
  -- the error, if any, with the frames and the reader; `none` is a loop that has not ended.
  unfoldable pub read_loop :
      (fuel frames : ℕ) → (buffer : List ℕ) → Reader → Option (Ret × List ℕ × Reader)
  read_loop zero frames buffer r = if frames == 0 then some (success, buffer, r) else none
  read_loop (suc fuel) frames buffer r =
      let (got, filled) = get_next_buffer r frames in
      let r' = release_buffer filled (length got) in
      let rest = read_loop fuel (frames - length got) (buffer ++ got) r' in
      if frames == 0
      then some (success, buffer, r)
      else if not (is_zero r'.read_status)
      then some (r'.read_status, buffer, r')
      else rest

  -- Each round delivers a frame at least, so `frames` rounds are enough.
  unfoldable pub read_frames : Reader → (frames : ℕ) → Option (Ret × List ℕ × Reader)
  read_frames r frames = read_loop frames frames [] r
