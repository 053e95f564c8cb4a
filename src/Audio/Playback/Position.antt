-- ===== src/Audio/Playback/Position.antt =====
-- The frames that `out_write` counts and `out_get_presentation_position` reports, of
-- audio/audio_hw.c.
use android_device_samsung_z.Common.{
  ℕ, suc, ◌+◌, ◌-◌, ◌*◌, ◌/◌, ◌%◌, ◌^◌, ◌≤◌, ◌<◌, ◌≡◌, refl, ap, true, some, none, Option-cases,
  List, [], ◌∷◌, if_of, if◌then◌else◌, leb, inl, inr, length, arith,
}
use android_device_samsung_z.Platform.{Call, Platform, Ret, success, failed, enodata, is_zero}
use android_device_samsung_z.Audio.State.{PcmDevice, StreamOut, AudioDevice}
use android_device_samsung_z.Audio.Playback.{set_out}
use android_device_samsung_z.Audio.Playback.Write.{
  blank, heard, profile_channels, count_written, device_write, write_device, write_loop,
  write_devices, presented_frames, position_loop, out_get_presentation_position,
}

word_small :
    (written kernel avail : ℕ)
    → kernel ≤ written + avail
    → written + avail < 2 ^ 63
    → (written + 2 ^ 64 - kernel + avail) % 2 ^ 64 ≡ written + avail - kernel
word_small written kernel avail h small = omega arith

word_large :
    (written kernel avail : ℕ)
    → written + avail < kernel
    → kernel < 2 ^ 32
    → 2 ^ 63 ≤ (written + 2 ^ 64 - kernel + avail) % 2 ^ 64
word_large written kernel avail h small = omega arith

-- Without a wrap of the words: the frames written and available, less the kernel's buffer.
presented_frames_lem :
    (out : StreamOut) (avail : ℕ)
    → out.written + avail < 2 ^ 63
    → let kernel_buffer_size = out.config.period_size * out.config.period_count % 2 ^ 32 in
      presented_frames out avail ≡ (
        if leb kernel_buffer_size (out.written + avail)
        then some (out.written + avail - kernel_buffer_size)
        else none)
unfolding presented_frames
presented_frames_lem out avail h =
    let kernel = out.config.period_size * out.config.period_count in
    ground (
      arith,
      word_small out.written (kernel % 2 ^ 32) avail,
      word_large out.written (kernel % 2 ^ 32) avail,
    )

count_twice :
    (written frames n : ℕ)
    → ((written + frames) % 2 ^ 64 + n * frames) % 2 ^ 64 ≡ (written + suc n * frames) % 2 ^ 64
count_twice written frames n = grind arith

module _ (p : Platform) where
  -- For a stream of one open device whose time stamp is read, with the frames written and available
  -- below 2 ^ 63 in sum: the arithmetic on words of 64 bits gives the frames written and available
  -- less those of the kernel's buffer with 0, or -ENODATA and no frames where this would be
  -- negative.
  pub out_get_presentation_position_lem :
      (o pcm : ℕ) (d : PcmDevice) (s : AudioDevice)
      → (s.outs o).pcm_dev_list ≡ d ∷ []
      → d.pcm ≡ some pcm
      → is_zero (p.reply s.log (Call.pcm_get_htimestamp pcm)) ≡ true
      → (s.outs o).written + p.available s.log pcm < 2 ^ 63
      → let (rc, frames, t) = out_get_presentation_position p o s in
        let out = s.outs o in
        let kernel_buffer_size = out.config.period_size * out.config.period_count % 2 ^ 32 in
        let reached = out.written + p.available s.log pcm in
        (rc ≡ (if leb kernel_buffer_size reached then success else failed enodata))
        × (frames ≡ (
            if leb kernel_buffer_size reached then some (reached - kernel_buffer_size) else none))
  unfolding out_get_presentation_position position_loop
  out_get_presentation_position_lem o pcm d s one open_pcm answered small =
      rw (one, open_pcm)
        (ground (arith, answered, presented_frames_lem (s.outs o) (p.available s.log pcm) small))

  -- A write keeps what the frames are counted by.
  device_write-written :
      (out : StreamOut) (dst_channels pcm : ℕ) (buffer : List ℕ)
      → let t = (device_write p out dst_channels pcm buffer).1 in
        (t.written ≡ out.written) × (t.config ≡ out.config)
  unfolding device_write
  device_write-written out dst_channels pcm buffer = ground arith

  write_device-written :
      (o : ℕ) (buffer : List ℕ) (ret : Ret) (d : PcmDevice) (s : AudioDevice)
      → let (written, after, t) = write_device p o buffer ret d s in
        ((t.outs o).written ≡ (s.outs o).written)
        × ((t.outs o).config ≡ (s.outs o).config)
        × (is_zero after ≡ true → is_zero ret ≡ true)
  unfolding write_device
  write_device-written o buffer ret d s = elim (Option-cases d.pcm) [
    | inl closed ↦ rw (closed, write_device) (refl, refl, λ e. e)
    | inr (pcm, opened) ↦
        rw (opened, write_device)
          (ground
            (arith, device_write-written (s.outs o) (profile_channels s.pcm_devices d) pcm buffer))
  ]

  write_loop-written :
      (o : ℕ) (buffer : List ℕ) (ret : Ret) (ds : List PcmDevice) (s : AudioDevice)
      → (s.outs o).written < 2 ^ 64
      → is_zero (write_loop p o buffer ret ds s).1 ≡ true
      → let t = (write_loop p o buffer ret ds s).2 in
        let out = s.outs o in
        (is_zero ret ≡ true)
        × ((t.outs o).written
            ≡ (out.written + length ds * (length buffer / (out.config.channels * 2))) % 2 ^ 64)
  unfolding write_loop
  write_loop-written o buffer ret [] s h ok = (ok, omega arith)
  write_loop-written o buffer ret (d ∷ ds) s h ok =
      let (written, after, t) = write_device p o buffer ret d s in
      let first = write_device-written o buffer ret d s in
      let counted =
        if is_zero after then set_out o (count_written (length buffer) (t.outs o)) t else t in
      let rest = write_loop-written o buffer after ds counted in
      let bound : (counted.outs o).written < 2 ^ 64 =
        if_of {A = AudioDevice} (λ x. (x.outs o).written < 2 ^ 64) (is_zero after) _ _
          (λ e. ground arith) (λ e. omega (arith, first.0)) in
      let done = rest bound ok in
      let frames = length buffer / ((s.outs o).config.channels * 2) in
      ground (arith, first, done, count_twice (s.outs o).written frames (length ds))

  length-blank : (buffer : List ℕ) → length (blank buffer) ≡ length buffer
  unfolding blank
  length-blank [] = refl
  length-blank (b ∷ bs) = ap suc (length-blank bs)

  -- From a count that is a word of 64 bits, a write that succeeds on all devices adds the frames of
  -- the buffer once for each device of the stream, modulo 2 ^ 64.
  pub write_devices-written :
      (o : ℕ) (buffer : List ℕ) (s : AudioDevice)
      → (s.outs o).written < 2 ^ 64
      → is_zero (write_devices p o buffer s).0 ≡ true
      → let t = (write_devices p o buffer s).1 in
        let out = s.outs o in
        (t.outs o).written
        ≡ (out.written + length out.pcm_dev_list * (length buffer / (out.config.channels * 2)))
          % 2 ^ 64
  unfolding write_devices
  write_devices-written o buffer s h ok =
      let out = s.outs o in
      let bytes : length (heard out buffer) ≡ length buffer =
        if_of {A = List ℕ} (λ b. length b ≡ length buffer) out.muted _ _ (λ e. length-blank buffer)
          (λ e. refl) in
      let done = write_loop-written o (heard out buffer) success out.pcm_dev_list s h ok in
      ground (arith, done.1, bytes)
