-- ===== src/Audio/Capture/Read.antt =====
-- What a client asks of an input stream of audio/audio_hw.c: `in_read`, `in_standby`,
-- `in_set_parameters`, `in_get_capture_position` and the getters. A frame is a number.
use android_device_samsung_z.Common.{
  ℕ, zero, suc, ◌+◌, ◌-◌, ◌*◌, ◌/◌, ◌%◌, ◌^◌, Bool, true, false, Option, none, some, List, [], ◌∷◌,
  ◌++◌, ◌==◌, ◌&&◌, not, bit_and, clear, length, ltb, get_elem?, if◌then◌else◌,
}
use android_device_samsung_z.Platform.{Platform, Call, Ret, success, failed, enosys, is_zero}
use android_device_samsung_z.Audio.State.{StreamIn, AudioDevice, Layout, record_call}
use android_device_samsung_z.Audio.Lookup.{get_usecase_from_id}
use android_device_samsung_z.Audio.Profiles.{get_input_buffer_size}
use android_device_samsung_z.Audio.Select.{select_devices, select_depth}
use android_device_samsung_z.Audio.Playback.{close_loop}
use android_device_samsung_z.Audio.Capture.{set_in, is_empty, stop_input_stream, start_input_stream}
use android_device_samsung_z.Audio.Reader.{Reader, Source, read_frames}

unfoldable pub in_close_pcm_devices : ℕ → AudioDevice → AudioDevice
in_close_pcm_devices i s =
    let (devices, t) = close_loop (s.ins i).pcm_dev_list s in
    set_in i (record (t.ins i) { pcm_dev_list = devices }) t

unfoldable pub do_in_standby_l : ℕ → AudioDevice → AudioDevice
do_in_standby_l i s =
    let t = (stop_input_stream i (in_close_pcm_devices i s)).1 in
    let down = set_in i (record (t.ins i) { read_buf = []; standby = true }) t in
    let still = if (s.ins i).standby then s else down in
    set_in i (record (still.ins i) { last_read_time_us = 0 }) still

-- `in_standby_l`, with the test that comes before the one in `do_in_standby_l`.
unfoldable pub in_standby : ℕ → AudioDevice → AudioDevice
in_standby i s = if (s.ins i).standby then s else do_in_standby_l i s

-- The fields of a stream that `read_frames` uses.
abbrev pub reader_of : StreamIn → Reader
reader_of stream = record {
  period_size = stream.config.period_size;
  read_buf = stream.read_buf;
  read_buf_frames = stream.read_buf_frames;
  read_status = stream.read_status;
  reads = stream.reads;
}

abbrev pub put_reader : Reader → StreamIn → StreamIn
put_reader r stream = record stream {
  read_buf = r.read_buf;
  read_buf_frames = r.read_buf_frames;
  read_status = r.read_status;
  reads = r.reads;
}

-- `resample_from_provider`: the frames that it writes, and the buffer after its calls of
-- `get_next_buffer` and `release_buffer`.
abbrev pub Resampler : Type 0
Resampler = Reader → (frames : ℕ) → List ℕ × Reader

-- The loop of `read_frames` where the stream has a resampler.
unfoldable pub resample_loop :
    Resampler → (fuel frames : ℕ) → (buffer : List ℕ) → Reader → Option (Ret × List ℕ × Reader)
resample_loop resample zero frames buffer r =
    if frames == 0 then some (success, buffer, r) else none
resample_loop resample (suc fuel) frames buffer r =
    let (got, r') = resample r frames in
    let rest = resample_loop resample fuel (frames - length got) (buffer ++ got) r' in
    if frames == 0
    then some (success, buffer, r)
    else if not (is_zero r'.read_status)
    then some (r'.read_status, buffer, r')
    else rest

-- `memset` over whole frames.
unfoldable pub silence : (frames : ℕ) → List ℕ
silence zero = []
silence (suc frames) = 0 ∷ silence frames

unfoldable pub set_input_source : Option ℕ → StreamIn → StreamIn
set_input_source none stream = stream
set_input_source (some val) stream =
    if not (stream.source == val) && not (val == 0) then record stream { source = val } else stream

module _ (p : Platform) where
  abbrev pub in_frame_size : StreamIn → ℕ
  in_frame_size stream = p.frame_size p.format_pcm_16_bit stream.main_channels

  abbrev pub in_get_sample_rate : StreamIn → ℕ
  in_get_sample_rate stream = stream.requested_rate

  abbrev pub in_get_channels : StreamIn → ℕ
  in_get_channels stream = stream.main_channels

  abbrev pub in_get_format : StreamIn → ℕ
  in_get_format stream = p.format_pcm_16_bit

  abbrev pub in_get_buffer_size : StreamIn → AudioDevice → ℕ
  in_get_buffer_size stream s =
      get_input_buffer_size p s.pcm_devices stream.requested_rate (in_get_format stream)
        (p.channel_count stream.main_channels) stream.usecase_type stream.devices

  module _ (pcm_read : Source) (resample : Resampler) where
    -- The status of a read is not positive, so the result is an error unless it is 0. `none` is a
    -- loop that has not ended.
    unfoldable pub read_and_process_frames :
        StreamIn → (frames_num : ℕ) → Option (Ret × List ℕ × StreamIn)
    read_and_process_frames stream frames_num =
        let bytes_per_sample = p.bytes_per_sample (in_get_format stream) in
        let src_channels = stream.config.channels in
        let dst_channels = p.channel_count stream.main_channels in
        let src_buffer_size = frames_num * (src_channels * bytes_per_sample) in
        let needed = not (dst_channels == src_channels) in
        let stream' =
          if needed && ltb stream.proc_buf_size src_buffer_size
          then record stream { proc_buf_size = src_buffer_size }
          else stream in
        let read : Option (Ret × List ℕ × Reader) =
          if stream.resampler
          then resample_loop resample frames_num frames_num [] (reader_of stream')
          else read_frames pcm_read (reader_of stream') frames_num in
        elim read [
          | none ↦ none
          | some (status, frames, r) ↦
              let adjusted =
                if needed && is_zero status
                then p.adjust_channels frames src_channels dst_channels bytes_per_sample
                else frames in
              some (status, adjusted, put_reader r stream')
        ]

  -- The time that the buffer lasts, less what has passed since the last read. The code subtracts
  -- signed numbers and sleeps only for a positive result; `-` stops at 0.
  abbrev pub in_sleep_time : StreamIn → (bytes now : ℕ) → ℕ
  in_sleep_time stream bytes now =
      let whole = bytes * 1_000_000 / in_frame_size stream / stream.requested_rate in
      if stream.last_read_time_us == 0 then whole else whole + stream.last_read_time_us - now

  -- `frames_read` is counted also where the read has failed.
  unfoldable pub count_read : ℕ → (bytes : ℕ) → AudioDevice → AudioDevice
  count_read i bytes s =
      let stream = s.ins i in
      set_in i
        (record stream {
          frames_read = (stream.frames_read + bytes / in_frame_size stream) % 2 ^ 64;
        })
        s

  -- What follows the label `exit` where nothing was read.
  unfoldable pub read_failed : ℕ → (bytes : ℕ) → AudioDevice → List ℕ × AudioDevice
  read_failed i bytes s =
      let s = in_standby i s in
      let now = p.now_us s.log in
      let s = record_call Call.clock_gettime s in
      let sleep_time = in_sleep_time (s.ins i) bytes now in
      let slept = if sleep_time == 0 then s else record_call (Call.usleep sleep_time) s in
      let t = set_in i (record (slept.ins i) { last_read_time_us = now + sleep_time }) slept in
      (silence (bytes / in_frame_size (s.ins i)), count_read i bytes t)

module _ (p : Platform) (lay : Layout) where
  -- The beginning of `in_read`.
  unfoldable pub leave_standby : ℕ → AudioDevice → Ret × AudioDevice
  leave_standby i s =
      let (ret, t) = start_input_stream p lay i s in
      if not (s.ins i).standby
      then (success, s)
      else if not (is_zero ret)
      then (ret, t)
      else (success, set_in i (record (t.ins i) { standby = false }) t)

  -- The frames in the client's buffer, and the state; the result is `bytes` whatever happens.
  -- `none` is a loop of `read_frames` that has not ended.
  unfoldable pub in_read :
      Source → Resampler → ℕ → (bytes : ℕ) → AudioDevice → Option (List ℕ × AudioDevice)
  in_read pcm_read resample i bytes s =
      let (ret, t) = leave_standby i s in
      let frames_rq = bytes / in_frame_size p (s.ins i) in
      let done : Option (List ℕ × AudioDevice) =
        elim (read_and_process_frames p pcm_read resample (t.ins i) frames_rq) [
          | none ↦ none
          | some (status, frames, stream) ↦
              let r = set_in i stream t in
              if is_zero status
              then some (if r.mic_mute then silence frames_rq else frames, count_read p i bytes r)
              else some (read_failed p i bytes r)
        ] in
      if not (is_zero ret)
      then some (read_failed p i bytes t)
      else if is_empty (t.ins i).pcm_dev_list
      then some (read_failed p i bytes t)
      else done

  -- Whether the stream's open PCM cannot record from any of the devices.
  abbrev pub leaves_pcm : (val : ℕ) → StreamIn → AudioDevice → Bool
  leaves_pcm val stream s = elim (get_usecase_from_id s.usecase_list stream.usecase) [
    | none ↦ false
    | some u ↦ elim stream.pcm_dev_list [
      | [] ↦ false
      | d ∷ ds ↦ elim (get_elem? s.pcm_devices d.pcm_profile) [
        | none ↦ false
        | some q ↦ clear (bit_and q.devices val) p.bit_in == 0
      ]
    ]
  ]

  unfoldable pub route_input : ℕ → (val : ℕ) → AudioDevice → AudioDevice
  route_input i val s =
      let routed = set_in i (record (s.ins i) { devices = val }) s in
      if (s.ins i).devices == val
      then s
      else if val == 0
      then s
      else if (s.ins i).standby
      then routed
      else if leaves_pcm val (routed.ins i) routed
      then do_in_standby_l i routed
      else (select_devices p lay select_depth routed (s.ins i).usecase).1

  -- The values of the source's key and of the routing key, if they are there.
  unfoldable pub in_set_parameters :
      ℕ → (source routing : Option ℕ) → AudioDevice → Ret × AudioDevice
  in_set_parameters i source routing s =
      let t = set_in i (set_input_source source (s.ins i)) s in
      (success, elim routing [ none ↦ t | some val ↦ route_input i val t ])

module _ (p : Platform) where
  -- The result with `*frames` and `*time`; the pointers are not NULL. A stream without PCM devices
  -- has no first one, and the code reads through the head of the list: a fault.
  unfoldable pub in_get_capture_position : ℕ → AudioDevice → Ret × Option (ℕ × ℕ) × AudioDevice
  in_get_capture_position i s = elim (s.ins i).pcm_dev_list [
    | [] ↦ (failed enosys, none, record s { fault = true })
    | d ∷ ds ↦ elim d.pcm [
      | none ↦ (failed enosys, none, s)
      | some pcm ↦
          let call = Call.pcm_get_htimestamp pcm in
          let t = record_call call s in
          if is_zero (p.reply s.log call)
          then (
            success,
            some ((s.ins i).frames_read + p.available s.log pcm, p.timestamp s.log pcm),
            t,
          )
          else (failed enosys, none, t)
    ]
  ]

-- `in_set_sample_rate` and `in_set_format`
abbrev pub in_not_supported : Ret
in_not_supported = failed enosys

abbrev pub in_get_input_frames_lost : ℕ
in_get_input_frames_lost = 0
