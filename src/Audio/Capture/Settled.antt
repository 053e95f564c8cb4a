-- ===== src/Audio/Capture/Settled.antt =====
-- The invariant of one input stream between its requests: in standby its usecase is not in the
-- list, and out of standby it is. It is about `in_read`, `in_standby` and `in_set_parameters` of
-- audio/audio_hw.c.
use android_device_samsung_z.Common.{
  ℕ, ◌/◌, ◌≡◌, refl, sym, ◌∙◌, inl, inr, true, false, not, some, none, Option, Option-cases, List,
  [], if_of, arith,
}
use mathlib.Core.Path.{subst}
use android_device_samsung_z.Platform.{Call, Platform, Ret, is_zero}
use android_device_samsung_z.Audio.State.{pcm_capture, StreamIn, AudioDevice, Layout}
use android_device_samsung_z.Audio.Route.Invariant.{has_id, type_at, IsRouted}
use android_device_samsung_z.Audio.Route.Members.{IsOff, SameRoutes-IsRouted}
use android_device_samsung_z.Audio.Reader.{Source}
use android_device_samsung_z.Audio.Capture.{set_in, is_empty, stop_input_stream, start_input_stream}
use android_device_samsung_z.Audio.Capture.Paths.{
  IsCapture, KeepsRoutes-IsCapture, stop_input_stream-IsOff, start_input_stream-outcome,
}
use android_device_samsung_z.Audio.Capture.Read.{
  in_frame_size, Resampler, in_close_pcm_devices, do_in_standby_l, in_standby,
  read_and_process_frames, read_failed, count_read, leave_standby, in_read,
}
use android_device_samsung_z.Audio.Capture.Standby.{
  in_close-KeepsRoutes, stop_input-SameStandby, start_input-SameStandby,
}

pub record IsSettled (i : ℕ) (s : AudioDevice) : Type 0 where
  pub routed : IsRouted s
  pub capturing :
      (s.ins i).standby ≡ false → type_at s.usecase_list (s.ins i).usecase ≡ some pcm_capture
  pub idle : (s.ins i).standby ≡ true → has_id (s.ins i).usecase s.usecase_list ≡ false

IsOff-IsSettled :
    (i : ℕ) (t : AudioDevice) → IsOff (t.ins i).usecase t → (t.ins i).standby ≡ true → IsSettled i t
IsOff-IsSettled i t h e = record {
  routed = h.routed;
  capturing = λ b. absurd (cc (sym e ∙ b));
  idle = λ b. h.unlisted;
}

-- The routes stay, and so does what a settled stream is judged by.
pub record Quiet (i : ℕ) (s t : AudioDevice) : Type 0 where
  pub counts : t.snd_dev_ref_cnt ≡ s.snd_dev_ref_cnt
  pub usecases : t.usecase_list ≡ s.usecase_list
  pub id : (t.ins i).usecase ≡ (s.ins i).usecase
  pub standby : (t.ins i).standby ≡ (s.ins i).standby

pub Quiet-IsSettled : (i : ℕ) (s t : AudioDevice) → Quiet i s t → IsSettled i s → IsSettled i t
Quiet-IsSettled i s t q h = record {
  routed = SameRoutes-IsRouted s t (q.counts, q.usecases) h.routed;
  capturing = λ b. ground (arith, q.usecases, q.id, q.standby, h.capturing);
  idle = λ b. ground (arith, q.usecases, q.id, q.standby, h.idle);
}

-- The standby of a stream that captures.
pub do_in_standby_l-IsSettled :
    (i : ℕ) (s : AudioDevice)
    → (s.ins i).standby ≡ false
    → IsCapture (s.ins i).usecase s
    → let t = do_in_standby_l i s in
      IsSettled i t × ((t.ins i).standby ≡ true) × ((t.ins i).usecase ≡ (s.ins i).usecase)
unfolding do_in_standby_l
do_in_standby_l-IsSettled i s up h =
    let closed = in_close_pcm_devices i s in
    let kept = in_close-KeepsRoutes i s in
    let on =
      subst (λ id. IsCapture id closed) (sym (kept.usecases i))
        (KeepsRoutes-IsCapture (s.ins i).usecase s closed kept h) in
    let stopped = (stop_input_stream i closed).1 in
    let same = (stop_input-SameStandby i closed).ids i in
    let off = subst (λ id. IsOff id stopped) (sym same) (stop_input_stream-IsOff i closed on) in
    let down = set_in i (record (stopped.ins i) { read_buf = []; standby = true }) stopped in
    let last = set_in i (record (down.ins i) { last_read_time_us = 0 }) down in
    rw (up, do_in_standby_l)
      (
        IsOff-IsSettled i last
            (record {
              routed = SameRoutes-IsRouted stopped last (refl, refl) off.routed;
              unlisted = ground (arith, off.unlisted);
            })
            (ground arith),
        ground arith,
        ground (arith, same, kept.usecases i),
      )

-- A stream that is settled is in standby after `in_standby`, with its usecase out of the list.
pub in_standby-IsSettled :
    (i : ℕ) (s : AudioDevice)
    → IsSettled i s
    → IsSettled i (in_standby i s) × (((in_standby i s).ins i).standby ≡ true)
unfolding in_standby
in_standby-IsSettled i s h =
    if_of (λ t. IsSettled i t × ((t.ins i).standby ≡ true)) (s.ins i).standby _ _ (λ e. (h, e))
      (λ e.
        let on : IsCapture (s.ins i).usecase s = record {
          routed = h.routed;
          listed = h.capturing e;
        } in
        let (settled, down, same) = do_in_standby_l-IsSettled i s e on in (settled, down))

-- What a run leaves, if it ends.
abbrev Ends : (AudioDevice → Type 0) → Option (List ℕ × AudioDevice) → Type 0
Ends P none = Unit
Ends P (some (buffer, t)) = P t

module _ (p : Platform) where
  read_failed-IsSettled :
      (i bytes : ℕ) (s : AudioDevice) → IsSettled i s → IsSettled i (read_failed p i bytes s).1
  unfolding read_failed count_read
  read_failed-IsSettled i bytes s h =
      let (off, down) = in_standby-IsSettled i s h in
      Quiet-IsSettled i (in_standby i s) (read_failed p i bytes s).1
        (record {
          counts = ground arith;
          usecases = ground arith;
          id = ground arith;
          standby = ground arith;
        })
        off

  count_read-IsSettled :
      (i bytes : ℕ) (s : AudioDevice) → IsSettled i s → IsSettled i (count_read p i bytes s)
  unfolding count_read
  count_read-IsSettled i bytes s h =
      Quiet-IsSettled i s (count_read p i bytes s)
        (record { counts = refl; usecases = refl; id = ground arith; standby = ground arith }) h

  -- A read leaves the stream's usecase and its standby.
  processed :
      (pcm_read : Source) (resample : Resampler) (stream : StreamIn) (frames_num : ℕ) (status : Ret)
      (frames : List ℕ) (after : StreamIn)
      → read_and_process_frames p pcm_read resample stream frames_num ≡ some (status, frames, after)
      → (after.usecase ≡ stream.usecase) × (after.standby ≡ stream.standby)
  unfolding read_and_process_frames
  processed pcm_read resample stream frames_num status frames after e = ground (arith, e)

  module _ (lay : Layout) where
    leave_standby-IsSettled :
        ((log : List Call) (in_rate out_rate channels : ℕ)
          → is_zero (p.reply log (Call.create_resampler in_rate out_rate channels)) ≡ true)
        → (i : ℕ) (s : AudioDevice) → IsSettled i s
        → IsSettled i (leave_standby p lay i s).1
    unfolding leave_standby
    leave_standby-IsSettled made i s h =
        let (ret, t) = start_input_stream p lay i s in
        let same = start_input-SameStandby p lay i s in
        let id = same.ids i in
        let left = set_in i (record (t.ins i) { standby = false }) t in
        if_of {A = Ret × AudioDevice} (λ x. IsSettled i x.1) (not (s.ins i).standby) _ _ (λ e. h)
          (λ e.
            let down : (s.ins i).standby ≡ true = ground (arith, e) in
            elim (start_input_stream-outcome p lay i s h.routed (h.idle down)) [
              | inl (ok, on) ↦
                  rw (ok, leave_standby)
                    (record {
                      routed = SameRoutes-IsRouted t left (refl, refl) on.routed;
                      capturing = λ b. ground (arith, on.listed, id);
                      idle = λ b. absurd (ground arith);
                    })
              | inr (inl (bad, off)) ↦
                  rw (bad, leave_standby)
                    (IsOff-IsSettled i t (subst (λ j. IsOff j t) (sym id) off)
                      (same.standbys i ∙ down))
              | inr (inr ((log, a, b, c, broken), bad, on, none_made)) ↦
                  absurd (cc (sym broken ∙ made log a b c))
            ])

    ends_of :
        (P : AudioDevice → Type 0) (run : Option (List ℕ × AudioDevice)) (buffer : List ℕ)
        (t : AudioDevice)
        → Ends P run
        → run ≡ some (buffer, t)
        → P t
    ends_of P run buffer t h e = subst (Ends P) e h

    in_read-Ends :
        ((log : List Call) (in_rate out_rate channels : ℕ)
          → is_zero (p.reply log (Call.create_resampler in_rate out_rate channels)) ≡ true)
        → (pcm_read : Source) (resample : Resampler) (i bytes : ℕ) (s : AudioDevice) → IsSettled i s
        → Ends (IsSettled i) (in_read p lay pcm_read resample i bytes s)
    unfolding in_read
    in_read-Ends made pcm_read resample i bytes s h =
        let (ret, t) = leave_standby p lay i s in
        let frames_rq = bytes / in_frame_size p (s.ins i) in
        let ready = leave_standby-IsSettled made i s h in
        let failed_read = read_failed-IsSettled i bytes t ready in
        if_of (Ends (IsSettled i)) (not (is_zero ret)) _ _ (λ e. failed_read)
          (λ e.
            if_of (Ends (IsSettled i)) (is_empty (t.ins i).pcm_dev_list) _ _ (λ e. failed_read)
              (λ e.
                elim (Option-cases
                  (read_and_process_frames p pcm_read resample (t.ins i) frames_rq)) [
                    | inl endless ↦ rw endless tt
                    | inr ((status, frames, stream), ended) ↦
                        let fields =
                          processed pcm_read resample (t.ins i) frames_rq status frames stream
                            ended in
                        let r = set_in i stream t in
                        let moved : Quiet i t r = record {
                          counts = refl;
                          usecases = refl;
                          id = ground (arith, fields);
                          standby = ground (arith, fields);
                        } in
                        let settled = Quiet-IsSettled i t r moved ready in
                        rw ended (
                          if_of (Ends (IsSettled i)) (is_zero status) _ _
                            (λ e. count_read-IsSettled i bytes r settled)
                            (λ e. read_failed-IsSettled i bytes r settled))
                  ]))

    pub in_read-IsSettled :
        ((log : List Call) (in_rate out_rate channels : ℕ)
          → is_zero (p.reply log (Call.create_resampler in_rate out_rate channels)) ≡ true)
        → (pcm_read : Source) (resample : Resampler) (i bytes : ℕ) (s t : AudioDevice)
          (buffer : List ℕ)
        → IsSettled i s
        → in_read p lay pcm_read resample i bytes s ≡ some (buffer, t)
        → IsSettled i t
    in_read-IsSettled made pcm_read resample i bytes s t buffer h e =
        ends_of (IsSettled i) (in_read p lay pcm_read resample i bytes s) buffer t
          (in_read-Ends made pcm_read resample i bytes s h) e
