-- ===== src/Audio/Playback/Requests.antt =====
-- Any sequence of requests to an output stream of audio/audio_hw.c outside a call, and what
-- `out_set_parameters` does in one.
use android_device_samsung_z.Common.{
  ℕ, ◌≡◌, refl, ◌∙◌, Bool, true, false, not, some, none, Option, Option-cases, is_some, List, [],
  ◌∷◌, if_of, ◌==◌, inl, inr, arith,
}
use android_device_samsung_z.Platform.{Platform, Ret}
use android_device_samsung_z.Audio.State.{
  AudioUsecase, AudioDevice, Layout, Stream, of_out, of_in, is_in_call,
}
use android_device_samsung_z.Audio.Lookup.{get_usecase_from_id}
use android_device_samsung_z.Audio.Route.{disable_snd_device}
use android_device_samsung_z.Audio.Route.Invariant.{type_at, has_id}
use android_device_samsung_z.Audio.Route.Members.{IsOff, SameRoutes-IsRouted}
use android_device_samsung_z.Audio.Select.{select_devices, select_depth}
use android_device_samsung_z.Audio.Select.Keeps.{select_devices-Keeps}
use android_device_samsung_z.Audio.Select.Streams.{
  control, select_devices-SameStreams, disable_snd_device-SameStreams,
}
use android_device_samsung_z.Audio.Voice.Frame.{
  SameButSco, start_sco-SameButSco, stop_sco-SameButSco,
}
use android_device_samsung_z.Audio.Playback.{
  set_out, out_close_pcm_devices, uc_release_pcm_devices, disable_output_path_l, do_out_standby_l,
  out_standby,
}
use android_device_samsung_z.Audio.Playback.Paths.{IsOutput, close_loop-log}
use android_device_samsung_z.Audio.Playback.Settled.{
  Quiet, Quiet-IsSettled, IsSettled, do_out_standby_l-IsOff, IsOff-IsSettled, out_write-IsSettled,
  out_standby-IsSettled,
}
use android_device_samsung_z.Audio.Playback.Write.{
  route_stream, route_sco, route_call, out_set_parameters, out_write, out_set_volume,
  out_get_presentation_position,
}

-- A usecase is in the list where it has a type there.
pub has_id-type_at : (id : ℕ) (us : List AudioUsecase) → has_id id us ≡ is_some (type_at us id)
has_id-type_at id [] = refl
has_id-type_at id (u ∷ us) = ground (arith, has_id-type_at id us)

close-control : (o : ℕ) (s : AudioDevice) → control (out_close_pcm_devices o s) ≡ control s
unfolding out_close_pcm_devices
close-control o s = ground (arith, close_loop-log (s.outs o).pcm_dev_list s)

release-control :
    (stream : Stream) (s : AudioDevice) → control (uc_release_pcm_devices stream s) ≡ control s
unfolding uc_release_pcm_devices
release-control (of_out o) s = refl
release-control (of_in i) s = refl

disable_output-control :
    (o : ℕ) (s : AudioDevice) → control (disable_output_path_l o s).1 ≡ control s
unfolding disable_output_path_l
disable_output-control o s =
    elim (Option-cases (get_usecase_from_id s.usecase_list (s.outs o).usecase)) [
      | inl absent ↦ rw (absent, disable_output_path_l) refl
      | inr (u, f) ↦
          let off = (disable_snd_device s u.mixer_list u.out_snd_device).1 in
          rw (f, disable_output_path_l)
            (release-control u.stream off
              ∙ (disable_snd_device-SameStreams s u.mixer_list u.out_snd_device).same_control)
    ]

do_out_standby_l-control : (o : ℕ) (s : AudioDevice) → control (do_out_standby_l o s).1 ≡ control s
unfolding do_out_standby_l
do_out_standby_l-control o s =
    let still = set_out o (record (s.outs o) { standby = true }) s in
    let closed = out_close_pcm_devices o still in
    disable_output-control o closed ∙ close-control o still

module _ (p : Platform) (lay : Layout) where
  -- A selection for a stream that plays.
  select-IsSettled :
      (o : ℕ) (s : AudioDevice) (uc_id : ℕ)
      → IsSettled o s
      → IsSettled o (select_devices p lay select_depth s uc_id).1
  select-IsSettled o s uc_id h =
      let t = (select_devices p lay select_depth s uc_id).1 in
      let k = select_devices-Keeps p lay select_depth s uc_id h.routed in
      let same = select_devices-SameStreams p lay select_depth s uc_id in
      let type = k.types (s.outs o).usecase in
      record {
        routed = k.routed;
        playing = λ b. ground (arith, same.outs, type, h.playing);
        idle = λ b. ground (
          arith,
          same.outs,
          type,
          h.idle,
          has_id-type_at (s.outs o).usecase s.usecase_list,
          has_id-type_at (s.outs o).usecase t.usecase_list,
        );
      }

  pub route_stream-IsSettled :
      (o val : ℕ) (s : AudioDevice)
      → IsSettled o s
      → IsSettled o (route_stream p lay o val s)
        × (control (route_stream p lay o val s) ≡ control s)
  unfolding route_stream
  route_stream-IsSettled o val s h =
      let routed = set_out o (record (s.outs o) { devices = val }) s in
      let set : IsSettled o routed = record {
        routed = SameRoutes-IsRouted s routed (refl, refl) h.routed;
        playing = λ b. ground (arith, h.playing);
        idle = λ b. ground (arith, h.idle);
      } in
      if_of (λ t. IsSettled o t × (control t ≡ control s)) (s.outs o).standby _ _ (λ e. (set, refl))
        (λ e.
          if_of (λ t. IsSettled o t × (control t ≡ control s)) (not ((s.outs o).devices == val)) _ _
            (λ _.
              let on : IsOutput (routed.outs o).usecase routed = record {
                routed = set.routed;
                listed = set.playing (ground (arith, e));
              } in
              let (off, same, down) = do_out_standby_l-IsOff o routed on in
              (
                IsOff-IsSettled o (do_out_standby_l o routed).1 off down,
                do_out_standby_l-control o routed,
              ))
            (λ _. (
              select-IsSettled o routed (s.outs o).usecase set,
              (select_devices-SameStreams p lay select_depth routed
                  (s.outs o).usecase).same_control,
            )))

  SameButSco-IsSettled :
      (o : ℕ) (s t : AudioDevice) → SameButSco s t → IsSettled o s → IsSettled o t
  SameButSco-IsSettled o s t e h = record {
    routed = SameRoutes-IsRouted s t e.routes h.routed;
    playing = λ b. ground (arith, e.outs, e.routes, h.playing);
    idle = λ b. ground (arith, e.outs, e.routes, h.idle);
  }

  pub route_sco-SameButSco : (val : ℕ) (s : AudioDevice) → SameButSco s (route_sco p lay val s)
  unfolding route_sco
  route_sco-SameButSco val s =
      let up = record s { in_comm_sco = true } in
      let down = record s { in_comm_sco = false } in
      ground (arith, start_sco-SameButSco p up, stop_sco-SameButSco down)

  -- Outside a call, a stream that is settled stays so with any value of the routing key.
  pub out_set_parameters-IsSettled :
      (o : ℕ) (routing : Option ℕ) (s : AudioDevice)
      → is_in_call s.mode ≡ false
      → IsSettled o s
      → IsSettled o (out_set_parameters p lay o routing s).1
  unfolding out_set_parameters route_call
  out_set_parameters-IsSettled o none s out h = h
  out_set_parameters-IsSettled o (some val) s out h =
      let a = route_stream p lay o val s in
      let b = route_sco p lay val a in
      let (settled, same) = route_stream-IsSettled o val s h in
      let sco = route_sco-SameButSco val a in
      let mode : is_in_call b.mode ≡ false = ground (arith, sco.mode, same, out) in
      if_of {A = Ret × AudioDevice} (λ r. IsSettled o r.1) (val == 0) _ _ (λ e. h)
        (λ e. rw mode (SameButSco-IsSettled o a b sco settled))

  -- One request to the stream `o`; the routing outside a call only.
  pub data Request (o : ℕ) : AudioDevice → AudioDevice → Type 0 where
    write : (s : AudioDevice) (buffer : List ℕ) → Request o s (out_write p lay o buffer s).1
    standby : (s : AudioDevice) → Request o s (out_standby o s)
    route :
        (s : AudioDevice) (routing : Option ℕ)
        → is_in_call s.mode ≡ false
        → Request o s (out_set_parameters p lay o routing s).1
    volume :
        (s : AudioDevice) (left_is_zero : Bool) → Request o s (out_set_volume o left_is_zero s).1
    position : (s : AudioDevice) → Request o s (out_get_presentation_position p o s).2

  pub data Requests (o : ℕ) (s : AudioDevice) : AudioDevice → Type 0 where
    here : Requests o s s
    next : {t u : AudioDevice} → Requests o s t → Request o t u → Requests o s u

  volume-Quiet : (o : ℕ) (b : Bool) (s : AudioDevice) → Quiet s (out_set_volume o b s).1
  unfolding out_set_volume
  volume-Quiet o b s = record {
    routes = record { routes = ground arith; usecases = λ q. ground arith };
    standby = record { standbys = λ q. ground arith; ids = λ q. ground arith };
  }

  position-Quiet : (o : ℕ) (s : AudioDevice) → Quiet s (out_get_presentation_position p o s).2
  unfolding out_get_presentation_position
  position-Quiet o s = record {
    routes = record { routes = (refl, refl); usecases = λ q. refl };
    standby = record { standbys = λ q. refl; ids = λ q. refl };
  }

  Request-IsSettled : {o : ℕ} {s t : AudioDevice} → Request o s t → IsSettled o s → IsSettled o t
  Request-IsSettled {o} (write s buffer) h = (out_write-IsSettled p lay o buffer s h).1
  Request-IsSettled {o} (standby s) h = (out_standby-IsSettled o s h).0
  Request-IsSettled {o} (route s routing out) h = out_set_parameters-IsSettled o routing s out h
  Request-IsSettled {o} (volume s b) h = Quiet-IsSettled o s _ (volume-Quiet o b s) h
  Request-IsSettled {o} (position s) h = Quiet-IsSettled o s _ (position-Quiet o s) h

  -- No sequence of writes, standbys, changes of the routing outside a call, volumes and queries of
  -- the position unsettles an output stream: where at its beginning the counts are the uses, and
  -- the stream's usecase is in the list as a playback unless the stream is in standby, and not
  -- there if it is, this holds at its end. PCMs that do not open and writes that fail are in it.
  pub Requests-IsSettled :
      {o : ℕ} {s t : AudioDevice} → Requests o s t → IsSettled o s → IsSettled o t
  Requests-IsSettled here h = h
  Requests-IsSettled (next r st) h = Request-IsSettled st (Requests-IsSettled r h)

  -- From there one `out_standby` brings it to standby, with its usecase out of the list.
  pub out_standby-Requests :
      {o : ℕ} {s t : AudioDevice}
      → Requests o s t
      → IsSettled o s
      → let r = out_standby o t in IsOff (r.outs o).usecase r × ((r.outs o).standby ≡ true)
  out_standby-Requests {o} {s} {t} r h =
      let (settled, down, same) = out_standby-IsSettled o t (Requests-IsSettled r h) in
      (record { routed = settled.routed; unlisted = settled.idle down }, down)
