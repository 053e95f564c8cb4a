-- ===== src/Audio/Playback/Write.antt =====
-- What a client asks of an output stream of audio/audio_hw.c: `out_write`, `out_set_parameters`,
-- `out_set_volume`, `out_get_presentation_position` and the getters.
use android_device_samsung_z.Common.{
  ℕ, ◌+◌, ◌-◌, ◌*◌, ◌/◌, ◌%◌, ◌^◌, Bool, true, false, Option, none, some, List, [], ◌∷◌, ◌==◌, ◌&&◌,
  not, has, length, ltb, get_elem?, if◌then◌else◌,
}
use android_device_samsung_z.Platform.{
  Platform, Call, Ret, success, failed, enosys, enodata, is_zero,
}
use android_device_samsung_z.Audio.State.{
  StreamOut, PcmDevice, PcmProfile, AudioDevice, Layout, record_call, is_in_call,
  is_in_communication, usecase_audio_playback_multi_ch,
}
use android_device_samsung_z.Audio.Select.{select_devices, select_depth}
use android_device_samsung_z.Audio.Voice.{
  start_voice_session_bt_sco, stop_voice_session_bt_sco, start_voice_call, stop_voice_call,
}
use android_device_samsung_z.Audio.Playback.{
  set_out, set_pcm_dev_list, do_out_standby_l, out_standby, start_output_stream,
}

-- `memset(buffer, 0, bytes)`
unfoldable pub blank : List ℕ → List ℕ
blank [] = []
blank (b ∷ bs) = 0 ∷ blank bs

abbrev pub heard : StreamOut → List ℕ → List ℕ
heard out buffer = if out.muted then blank buffer else buffer

-- `pcm_device->pcm_profile->config.channels`
abbrev pub profile_channels : List PcmProfile → PcmDevice → ℕ
profile_channels table d = elim (get_elem? table d.pcm_profile) [
  | none ↦ 0
  | some q ↦ q.config.channels
]

-- The frames of a buffer, counted in a word of 64 bits.
abbrev pub count_written : (bytes : ℕ) → StreamOut → StreamOut
count_written bytes out = record out {
  written = (out.written + bytes / (out.config.channels * 2)) % 2 ^ 64;
}

module _ (p : Platform) where
  -- The call that writes `buffer` to a device, and the stream with room for the remapped channels.
  unfoldable pub device_write : StreamOut → (dst_channels pcm : ℕ) → List ℕ → Call × StreamOut
  device_write out dst_channels pcm buffer =
      let bytes = length buffer in
      let src_channels = p.channel_count out.channel_mask in
      let dest_buffer_size = bytes * dst_channels / src_channels in
      let remapped =
        p.adjust_channels buffer src_channels dst_channels (p.bytes_per_sample out.format) in
      if dst_channels == src_channels then (Call.pcm_write pcm buffer bytes, out) else (
        Call.pcm_write pcm remapped dest_buffer_size,
        if ltb out.proc_buf_size dest_buffer_size
            then record out { proc_buf_size = dest_buffer_size }
            else out,
      )

  -- One round of the loop of `out_write`: the device with its status, and `ret`.
  unfoldable pub write_device :
      ℕ → List ℕ → Ret → PcmDevice → AudioDevice → PcmDevice × Ret × AudioDevice
  write_device o buffer ret d s = elim d.pcm [
    | none ↦ (d, ret, s)
    | some pcm ↦
        let (call, out) = device_write (s.outs o) (profile_channels s.pcm_devices d) pcm buffer in
        let status = p.reply s.log call in
        (
          record d { status = status },
          if is_zero status then ret else status,
          record_call call (set_out o out s),
        )
  ]

  unfoldable pub write_loop :
      ℕ → List ℕ → Ret → List PcmDevice → AudioDevice → List PcmDevice × Ret × AudioDevice
  write_loop o buffer ret [] s = ([], ret, s)
  write_loop o buffer ret (d ∷ ds) s =
      let (written, after, t) = write_device o buffer ret d s in
      let counted =
        if is_zero after then set_out o (count_written (length buffer) (t.outs o)) t else t in
      let (rest, last, r) = write_loop o buffer after ds counted in (written ∷ rest, last, r)

  -- From the test of `muted` to the label `exit`.
  unfoldable pub write_devices : ℕ → List ℕ → AudioDevice → Ret × AudioDevice
  write_devices o buffer s =
      let (devices, ret, t) =
        write_loop o (heard (s.outs o) buffer) success (s.outs o).pcm_dev_list s in
      (ret, set_pcm_dev_list o devices t)

  -- The time that the buffer plays, less what has passed since the last write. The code subtracts
  -- signed numbers and sleeps only for a positive result; `-` stops at 0.
  abbrev pub out_sleep_time : StreamOut → (bytes now : ℕ) → ℕ
  out_sleep_time out bytes now =
      bytes * 1_000_000 / p.frame_size out.format out.channel_mask / out.sample_rate
      + out.last_write_time_us
      - now

  -- What follows the label `exit` where `ret` is not 0.
  unfoldable pub write_failed : ℕ → (bytes : ℕ) → AudioDevice → AudioDevice
  write_failed o bytes s =
      let s = out_standby o s in
      let now = p.now_us s.log in
      let s = record_call Call.clock_gettime s in
      let sleep_time = out_sleep_time (s.outs o) bytes now in
      let slept = if sleep_time == 0 then s else record_call (Call.usleep sleep_time) s in
      set_out o (record (slept.outs o) { last_write_time_us = now + sleep_time }) slept

module _ (p : Platform) (lay : Layout) where
  -- The beginning of `out_write`.
  unfoldable pub leave_standby : ℕ → AudioDevice → Ret × AudioDevice
  leave_standby o s =
      let (ret, t) = start_output_stream p lay o s in
      if not (s.outs o).standby
      then (success, s)
      else if not (is_zero ret)
      then (ret, t)
      else (success, set_out o (record (t.outs o) { standby = false }) t)

  -- The result is `bytes`, whatever happens.
  unfoldable pub out_write : ℕ → List ℕ → AudioDevice → ℕ × AudioDevice
  out_write o buffer s =
      let (started, t) = leave_standby o s in
      let (ret, r) = write_devices p o buffer t in
      if not (is_zero started)
      then (length buffer, write_failed p o (length buffer) t)
      else if not (is_zero ret)
      then (length buffer, write_failed p o (length buffer) r)
      else (length buffer, r)

  -- `out_set_parameters` where the routing key is present and not 0, up to the Bluetooth session.
  unfoldable pub route_stream : ℕ → (val : ℕ) → AudioDevice → AudioDevice
  route_stream o val s =
      let devices_changed = not ((s.outs o).devices == val) in
      let routed = set_out o (record (s.outs o) { devices = val }) s in
      if (s.outs o).standby
      then routed
      else if devices_changed
      then (do_out_standby_l o routed).1
      else (select_devices p lay select_depth routed (s.outs o).usecase).1

  unfoldable pub route_sco : (val : ℕ) → AudioDevice → AudioDevice
  route_sco val s =
      if is_in_communication s.mode
        && (has val p.out_all_sco && (not s.in_call_sco && not s.in_comm_sco))
      then start_voice_session_bt_sco p (record s { in_comm_sco = true })
      else if not (has val p.out_all_sco) && s.in_call_sco
      then stop_voice_session_bt_sco (record s { in_comm_sco = false })
      else s

  abbrev pub is_primary_output : ℕ → AudioDevice → Bool
  is_primary_output o s = elim s.primary_output [ none ↦ false | some q ↦ o == q ]

  unfoldable pub route_call : ℕ → (devices_changed : Bool) → AudioDevice → AudioDevice
  route_call o devices_changed s =
      if is_in_call s.mode && (not s.in_call && is_primary_output o s)
      then (start_voice_call p lay s).1
      else if is_in_call s.mode && (devices_changed && (s.in_call && is_primary_output o s))
      then (start_voice_call p lay (stop_voice_call p s).1).1
      else s

  -- `routing` is the value of the routing key, if `str_parms_get_str` finds it.
  unfoldable pub out_set_parameters : ℕ → (routing : Option ℕ) → AudioDevice → Ret × AudioDevice
  out_set_parameters o none s = (success, s)
  out_set_parameters o (some val) s = if val == 0 then (success, s) else (
    success,
    route_call o (not ((s.outs o).devices == val)) (route_sco val (route_stream o val s)),
  )

-- `left == 0.0f` is decided by the caller.
unfoldable pub out_set_volume : ℕ → (left_is_zero : Bool) → AudioDevice → Ret × AudioDevice
out_set_volume o left_is_zero s =
    if (s.outs o).usecase == usecase_audio_playback_multi_ch
    then (success, set_out o (record (s.outs o) { muted = left_is_zero }) s)
    else (failed enosys, s)

-- The products are `unsigned int`s.
unfoldable pub out_get_latency : StreamOut → ℕ
out_get_latency out =
    out.config.period_count * out.config.period_size * 1000 % 2 ^ 32 / out.config.rate

abbrev pub out_get_sample_rate : StreamOut → ℕ
out_get_sample_rate out = out.sample_rate

abbrev pub out_get_channels : StreamOut → ℕ
out_get_channels out = out.channel_mask

abbrev pub out_get_format : StreamOut → ℕ
out_get_format out = out.format

abbrev pub out_get_buffer_size : Platform → StreamOut → ℕ
out_get_buffer_size p out = out.config.period_size * p.frame_size out.format out.channel_mask

-- `out_set_sample_rate`, `out_set_format` and `out_get_next_write_timestamp`
abbrev pub out_not_supported : Ret
out_not_supported = failed enosys

-- The result, and `*dsp_frames`.
abbrev pub out_get_render_position : Ret × ℕ
out_get_render_position = (failed enodata, 0)

abbrev pub render_latency : (usecase : ℕ) → ℕ
render_latency usecase = 0

-- `signed_frames` where it is not negative: a word of 64 bits read as a signed number, less the
-- latency.
unfoldable pub presented_frames : StreamOut → (avail : ℕ) → Option ℕ
presented_frames out avail =
    let kernel_buffer_size = out.config.period_size * out.config.period_count % 2 ^ 32 in
    let word = (out.written + 2 ^ 64 - kernel_buffer_size + avail) % 2 ^ 64 in
    let latency = render_latency out.usecase * out.sample_rate / 1_000_000 in
    if ltb word (2 ^ 63) && not (ltb word latency) then some (word - latency) else none

module _ (p : Platform) where
  -- The loop over the devices: `*frames` where a device answers, and the log.
  unfoldable pub position_loop : StreamOut → List PcmDevice → List Call → Option ℕ × List Call
  position_loop out [] log = (none, log)
  position_loop out (d ∷ ds) log = elim d.pcm [
    | none ↦ position_loop out ds log
    | some pcm ↦
        let call = Call.pcm_get_htimestamp pcm in
        let here : Option ℕ =
          if is_zero (p.reply log call) then presented_frames out (p.available log pcm) else none in
        elim here [
          | some frames ↦ (some frames, call ∷ log)
          | none ↦ position_loop out ds (call ∷ log)
        ]
  ]

  -- The result with `*frames`, if it is written.
  unfoldable pub out_get_presentation_position : ℕ → AudioDevice → Ret × Option ℕ × AudioDevice
  out_get_presentation_position o s =
      let (frames, log) = position_loop (s.outs o) (s.outs o).pcm_dev_list s.log in
      (elim frames [ none ↦ failed enodata | some n ↦ success ], frames, record s { log = log })
