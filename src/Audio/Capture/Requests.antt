-- ===== src/Audio/Capture/Requests.antt =====
-- Any sequence of requests to an input stream of audio/audio_hw.c.
use android_device_samsung_z.Common.{
  ℕ, ◌≡◌, refl, inl, inr, true, false, some, none, Option, Option-cases, List, ◌==◌, if_of, arith,
}
use android_device_samsung_z.Platform.{Call, Platform, is_zero}
use android_device_samsung_z.Audio.State.{StreamIn, AudioDevice, Layout}
use android_device_samsung_z.Audio.Select.{select_devices, select_depth}
use android_device_samsung_z.Audio.Select.Keeps.{select_devices-Keeps}
use android_device_samsung_z.Audio.Select.Streams.{select_devices-SameStreams}
use android_device_samsung_z.Audio.Playback.Requests.{has_id-type_at}
use android_device_samsung_z.Audio.Reader.{Source}
use android_device_samsung_z.Audio.Capture.{set_in}
use android_device_samsung_z.Audio.Capture.Read.{
  in_get_capture_position, Resampler, in_standby, in_read, set_input_source, route_input,
  in_set_parameters, leaves_pcm,
}
use android_device_samsung_z.Audio.Capture.Settled.{
  Quiet, Quiet-IsSettled, IsSettled, do_in_standby_l-IsSettled, in_standby-IsSettled,
  in_read-IsSettled,
}

module _ (p : Platform) (lay : Layout) where
  set_input_source-fields :
      (source : Option ℕ) (stream : StreamIn)
      → ((set_input_source source stream).usecase ≡ stream.usecase)
        × ((set_input_source source stream).standby ≡ stream.standby)
  unfolding set_input_source
  set_input_source-fields none stream = (refl, refl)
  set_input_source-fields (some val) stream = ground arith

  select-IsSettled :
      (i uc_id : ℕ) (s : AudioDevice)
      → IsSettled i s
      → IsSettled i (select_devices p lay select_depth s uc_id).1
  select-IsSettled i uc_id s h =
      let t = (select_devices p lay select_depth s uc_id).1 in
      let k = select_devices-Keeps p lay select_depth s uc_id h.routed in
      let same = select_devices-SameStreams p lay select_depth s uc_id in
      let type = k.types (s.ins i).usecase in
      record {
        routed = k.routed;
        capturing = λ b. ground (arith, same.ins, type, h.capturing);
        idle = λ b. ground (
          arith,
          same.ins,
          type,
          h.idle,
          has_id-type_at (s.ins i).usecase s.usecase_list,
          has_id-type_at (s.ins i).usecase t.usecase_list,
        );
      }

  route_input-IsSettled :
      (i val : ℕ) (s : AudioDevice) → IsSettled i s → IsSettled i (route_input p lay i val s)
  unfolding route_input
  route_input-IsSettled i val s h =
      let routed = set_in i (record (s.ins i) { devices = val }) s in
      let set =
        Quiet-IsSettled i s routed
          (record { counts = refl; usecases = refl; id = ground arith; standby = ground arith })
          h in
      if_of (IsSettled i) ((s.ins i).devices == val) _ _ (λ e. h)
        (λ e.
          if_of (IsSettled i) (val == 0) _ _ (λ e. h)
            (λ e.
              if_of (IsSettled i) (s.ins i).standby _ _ (λ e. set)
                (λ up.
                  let still : (routed.ins i).standby ≡ false = ground (arith, up) in
                  if_of (IsSettled i) (leaves_pcm p lay val (routed.ins i) routed) _ _
                    (λ e.
                      (do_in_standby_l-IsSettled i routed still
                        (record { routed = set.routed; listed = set.capturing still })).0)
                    (λ e. select-IsSettled i (s.ins i).usecase routed set))))

  -- A settled stream stays so with any values of the keys.
  pub in_set_parameters-IsSettled :
      (i : ℕ) (source routing : Option ℕ) (s : AudioDevice)
      → IsSettled i s
      → IsSettled i (in_set_parameters p lay i source routing s).1
  unfolding in_set_parameters
  in_set_parameters-IsSettled i source routing s h =
      let stream = set_input_source source (s.ins i) in
      let t = set_in i stream s in
      let fields = set_input_source-fields source (s.ins i) in
      let set =
        Quiet-IsSettled i s t
          (record {
            counts = refl;
            usecases = refl;
            id = ground (arith, fields);
            standby = ground (arith, fields);
          })
          h in
      elim (Option-cases routing) [
        | inl absent ↦ rw absent set
        | inr (val, given) ↦ rw given (route_input-IsSettled i val t set)
      ]

  position-Quiet : (i : ℕ) (s : AudioDevice) → Quiet i s (in_get_capture_position p i s).2
  unfolding in_get_capture_position
  position-Quiet i s = record {
    counts = ground arith;
    usecases = ground arith;
    id = ground arith;
    standby = ground arith;
  }

  -- One request to the stream `i`; a read that ends.
  pub data InputRequest (pcm_read : Source) (resample : Resampler) (i : ℕ)
      : AudioDevice → AudioDevice → Type 0 where
    read :
        (s t : AudioDevice) (bytes : ℕ) (buffer : List ℕ)
        → in_read p lay pcm_read resample i bytes s ≡ some (buffer, t)
        → InputRequest pcm_read resample i s t
    standby : (s : AudioDevice) → InputRequest pcm_read resample i s (in_standby i s)
    parameters :
        (s : AudioDevice) (source routing : Option ℕ)
        → InputRequest pcm_read resample i s (in_set_parameters p lay i source routing s).1
    position :
        (s : AudioDevice) → InputRequest pcm_read resample i s (in_get_capture_position p i s).2

  pub data InputRequests (pcm_read : Source) (resample : Resampler) (i : ℕ) (s : AudioDevice)
      : AudioDevice → Type 0 where
    here : InputRequests pcm_read resample i s s
    next :
        {t u : AudioDevice}
        → InputRequests pcm_read resample i s t
        → InputRequest pcm_read resample i t u
        → InputRequests pcm_read resample i s u

  module _
      (made : (log : List Call) (in_rate out_rate channels : ℕ)
        → is_zero (p.reply log (Call.create_resampler in_rate out_rate channels)) ≡ true)
      (pcm_read : Source) (resample : Resampler) (i : ℕ) where
    InputRequest-IsSettled :
        {s t : AudioDevice} → InputRequest pcm_read resample i s t → IsSettled i s → IsSettled i t
    InputRequest-IsSettled (read s t bytes buffer e) h =
        in_read-IsSettled p lay made pcm_read resample i bytes s t buffer h e
    InputRequest-IsSettled (standby s) h = (in_standby-IsSettled i s h).0
    InputRequest-IsSettled (parameters s source routing) h =
        in_set_parameters-IsSettled i source routing s h
    InputRequest-IsSettled (position s) h = Quiet-IsSettled i s _ (position-Quiet i s) h

    -- Where every `create_resampler` succeeds, no sequence of reads that end, standbys, changes of
    -- the source and the routing, and queries of the position unsettles an input stream: where at
    -- its beginning the counts are the uses, and the stream's usecase is in the list as a capture
    -- unless the stream is in standby, and not there if it is, this holds at its end. PCMs that do
    -- not open and reads that fail are in it.
    pub InputRequests-IsSettled :
        {s t : AudioDevice} → InputRequests pcm_read resample i s t → IsSettled i s → IsSettled i t
    InputRequests-IsSettled here h = h
    InputRequests-IsSettled (next r st) h = InputRequest-IsSettled st (InputRequests-IsSettled r h)
