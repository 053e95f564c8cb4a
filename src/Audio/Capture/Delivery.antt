-- ===== src/Audio/Capture/Delivery.antt =====
-- What `in_read` of audio/audio_hw.c delivers from a stream that captures without a resampler.
use android_device_samsung_z.Common.{
  ℕ, ◌+◌, ◌/◌, ◌%◌, ◌^◌, ◌≡◌, sym, ap, ◌∙◌, true, false, some, Option, List, ◌++◌, ◌==◌, length,
  arith,
}
use mathlib.Core.Path.{subst}
use android_device_samsung_z.Platform.{Platform, success}
use android_device_samsung_z.Audio.State.{StreamIn, AudioDevice, Layout}
use android_device_samsung_z.Audio.Reader.{Reader, Source, read_frames}
use android_device_samsung_z.Audio.Reader.Fifo.{
  IsReader, IsSteady, pending, periods, read_frames-IsRead,
}
use android_device_samsung_z.Audio.Capture.{set_in, is_empty}
use android_device_samsung_z.Audio.Capture.Read.{
  in_frame_size, Resampler, reader_of, put_reader, read_and_process_frames, count_read,
  leave_standby, in_read,
}

module _ (p : Platform) (lay : Layout) (pcm_read : Source) (resample : Resampler) where
  -- A stream out of standby whose frames reach the client as they are read.
  pub record IsDirect (i : ℕ) (s : AudioDevice) : Type 0 where
    pub up : (s.ins i).standby ≡ false
    pub direct : (s.ins i).resampler ≡ false
    pub open_pcm : is_empty (s.ins i).pcm_dev_list ≡ false
    pub same_channels : p.channel_count (s.ins i).main_channels ≡ (s.ins i).config.channels
    pub heard : s.mic_mute ≡ false
    pub ready : IsReader (reader_of (s.ins i))

  -- The run ends with whole frames in the order of the reads, and the stream can be read on.
  pub record IsDelivered (i bytes : ℕ) (s : AudioDevice) (run : Option (List ℕ × AudioDevice))
      : Type 0 where
    pub buffer : List ℕ
    pub after : AudioDevice
    pub count : ℕ
    pub ends : run ≡ some (buffer, after)
    pub all_frames : length buffer ≡ bytes / in_frame_size p (s.ins i)
    pub in_order :
        pending (reader_of (s.ins i)) ++ periods pcm_read (s.ins i).reads count
        ≡ buffer ++ pending (reader_of (after.ins i))
    pub counted :
        (after.ins i).frames_read
        ≡ ((s.ins i).frames_read + bytes / in_frame_size p (s.ins i)) % 2 ^ 64
    pub direct : IsDirect i after

  processed_direct :
      (stream : StreamIn) (frames_num : ℕ)
      → stream.resampler ≡ false
      → p.channel_count stream.main_channels ≡ stream.config.channels
      → (got : List ℕ) (after : Reader)
      → read_frames pcm_read (reader_of stream) frames_num ≡ some (success, got, after)
      → read_and_process_frames p pcm_read resample stream frames_num
        ≡ some (success, got, put_reader after stream)
  unfolding read_and_process_frames
  processed_direct stream frames_num direct same got after read =
      let equal : (p.channel_count stream.main_channels == stream.config.channels) ≡ true =
        ground (arith, same) in
      ground (arith, equal, direct, read)

  in_read_up :
      (i bytes : ℕ) (s : AudioDevice) (got : List ℕ) (stream : StreamIn)
      → (s.ins i).standby ≡ false
      → is_empty (s.ins i).pcm_dev_list ≡ false
      → s.mic_mute ≡ false
      → read_and_process_frames p pcm_read resample (s.ins i) (bytes / in_frame_size p (s.ins i))
        ≡ some (success, got, stream)
      → in_read p lay pcm_read resample i bytes s
        ≡ some (got, count_read p i bytes (set_in i stream s))
  unfolding in_read leave_standby
  in_read_up i bytes s got stream up open_pcm heard read = ground (arith, up, open_pcm, heard, read)

  -- Where the stream is not in standby, has open devices, no resampler, no channels to remap and a
  -- buffer that is used up or holds the end of a period, the microphone is not muted, and each read
  -- of the PCM succeeds and fills a period of at least one frame: `in_read` ends with as many whole
  -- frames as the bytes hold, in the order of the reads after those that were pending, counts them,
  -- and leaves a stream that can be read on in the same way.
  pub in_read-IsDelivered :
      (i bytes : ℕ) (s : AudioDevice)
      → IsDirect i s
      → IsSteady pcm_read (s.ins i).config.period_size
      → IsDelivered i bytes s (in_read p lay pcm_read resample i bytes s)
  unfolding count_read
  in_read-IsDelivered i bytes s h steady =
      let stream = s.ins i in
      let frames_rq = bytes / in_frame_size p stream in
      let read = read_frames-IsRead pcm_read (reader_of stream) frames_rq h.ready steady in
      let put = put_reader read.after stream in
      let after = count_read p i bytes (set_in i put s) in
      let same : reader_of (after.ins i) ≡ read.after = ground (arith, read.same_size) in
      let processed =
        processed_direct stream frames_rq h.direct h.same_channels read.got read.after read.ends in
      record {
        buffer = read.got;
        after = after;
        count = read.count;
        ends = in_read_up i bytes s read.got put h.up h.open_pcm h.heard processed;
        all_frames = read.all_frames;
        in_order = read.in_order ∙ ap (λ r. read.got ++ pending r) (sym same);
        counted = ground arith;
        direct = record {
          up = ground (arith, h.up);
          direct = ground (arith, h.direct);
          open_pcm = ground (arith, h.open_pcm);
          same_channels = ground (arith, h.same_channels);
          heard = h.heard;
          ready = subst IsReader (sym same) read.ready;
        };
      }
