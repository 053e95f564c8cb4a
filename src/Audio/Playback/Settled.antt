-- ===== src/Audio/Playback/Settled.antt =====
-- The invariant of one output stream between its requests: in standby its usecase is not in the
-- list, and out of standby it is. It is about `out_write`, `out_standby` and
-- `out_set_parameters` of audio/audio_hw.c.
use android_device_samsung_z.Common.{
  ℕ, ◌≡◌, refl, sym, ◌∙◌, ◌⊎◌, inl, inr, true, false, not, some, Option-cases, List, [], ◌∷◌, if_of,
  if◌then◌else◌, length, arith,
}
use mathlib.Core.Path.{subst}
use android_device_samsung_z.Platform.{Platform, Ret, success, is_zero}
use android_device_samsung_z.Audio.State.{pcm_playback, PcmDevice, StreamOut, AudioDevice, Layout}
use android_device_samsung_z.Audio.Route.Invariant.{has_id, type_at, IsRouted}
use android_device_samsung_z.Audio.Route.Members.{IsOff, SameRoutes-IsRouted}
use android_device_samsung_z.Audio.Playback.{
  set_out, set_pcm_dev_list, out_close_pcm_devices, disable_output_path_l, do_out_standby_l,
  out_standby, start_output_stream,
}
use android_device_samsung_z.Audio.Playback.Paths.{
  KeepsRoutes, KeepsRoutes-trans, IsOutput, KeepsRoutes-IsOutput, out_close-KeepsRoutes,
  disable_output_path_l-IsOff, start_output_stream-outcome,
}
use android_device_samsung_z.Audio.Playback.Standby.{
  SameStandby, SameStandby-trans, out_close-SameStandby, disable_output-SameStandby,
  start_output-SameStandby,
}
use android_device_samsung_z.Audio.Playback.Write.{
  heard, profile_channels, count_written, device_write, write_device, write_loop, write_devices,
  write_failed, leave_standby, out_write,
}

pub record IsSettled (o : ℕ) (s : AudioDevice) : Type 0 where
  pub routed : IsRouted s
  pub playing :
      (s.outs o).standby ≡ false → type_at s.usecase_list (s.outs o).usecase ≡ some pcm_playback
  pub idle : (s.outs o).standby ≡ true → has_id (s.outs o).usecase s.usecase_list ≡ false

-- A stream that keeps its routes and its standby is as settled as before.
pub SameStandby-IsSettled :
    (o : ℕ) (s t : AudioDevice) → KeepsRoutes s t → SameStandby s t → IsSettled o s → IsSettled o t
SameStandby-IsSettled o s t k e h = record {
  routed = SameRoutes-IsRouted s t k.routes h.routed;
  playing = λ b. ground (arith, k.routes, k.usecases o, e.standbys o, h.playing);
  idle = λ b. ground (arith, k.routes, k.usecases o, e.standbys o, h.idle);
}

-- The standby of a stream that plays.
pub do_out_standby_l-IsOff :
    (o : ℕ) (s : AudioDevice)
    → IsOutput (s.outs o).usecase s
    → let t = (do_out_standby_l o s).1 in
      IsOff (t.outs o).usecase t
      × ((t.outs o).usecase ≡ (s.outs o).usecase)
      × ((t.outs o).standby ≡ true)
unfolding do_out_standby_l
do_out_standby_l-IsOff o s h =
    let still = set_out o (record (s.outs o) { standby = true }) s in
    let closed = out_close_pcm_devices o still in
    let set : KeepsRoutes s still = record {
      routes = (refl, refl);
      usecases = λ q. ground arith;
    } in
    let kept = KeepsRoutes-trans s still closed set (out_close-KeepsRoutes o still) in
    let on =
      subst (λ id. IsOutput id closed) (sym (kept.usecases o))
        (KeepsRoutes-IsOutput (s.outs o).usecase s closed kept h) in
    let (rc, off, same) = disable_output_path_l-IsOff o closed on in
    (
      subst (λ id. IsOff id (disable_output_path_l o closed).1) (sym (same o)) off,
      same o ∙ kept.usecases o,
      (disable_output-SameStandby o closed).standbys o
          ∙ (out_close-SameStandby o still).standbys o
          ∙ ground arith,
    )

pub IsOff-IsSettled :
    (o : ℕ) (t : AudioDevice)
    → IsOff (t.outs o).usecase t
    → (t.outs o).standby ≡ true
    → IsSettled o t
IsOff-IsSettled o t h e = record {
  routed = h.routed;
  playing = λ b. absurd (cc (sym e ∙ b));
  idle = λ b. h.unlisted;
}

IsOutput-IsSettled :
    (o : ℕ) (t : AudioDevice)
    → IsOutput (t.outs o).usecase t
    → (t.outs o).standby ≡ false
    → IsSettled o t
IsOutput-IsSettled o t h e = record {
  routed = h.routed;
  playing = λ b. h.listed;
  idle = λ b. absurd (cc (sym e ∙ b));
}

-- A stream that is settled is in standby after `out_standby`, with its usecase out of the list.
pub out_standby-IsSettled :
    (o : ℕ) (s : AudioDevice)
    → IsSettled o s
    → IsSettled o (out_standby o s)
      × (((out_standby o s).outs o).standby ≡ true)
      × (((out_standby o s).outs o).usecase ≡ (s.outs o).usecase)
unfolding out_standby
out_standby-IsSettled o s h =
    if_of
      (λ t. IsSettled o t × ((t.outs o).standby ≡ true) × ((t.outs o).usecase ≡ (s.outs o).usecase))
      (s.outs o).standby _ _ (λ e. (h, e, refl))
      (λ e.
        let on : IsOutput (s.outs o).usecase s = record {
          routed = h.routed;
          listed = h.playing e;
        } in
        let (off, same, down) = do_out_standby_l-IsOff o s on in
        (IsOff-IsSettled o (do_out_standby_l o s).1 off down, down, same))

-- The routes and the standby of the streams stay.
pub record Quiet (s t : AudioDevice) : Type 0 where
  pub routes : KeepsRoutes s t
  pub standby : SameStandby s t

Quiet-trans : (s t r : AudioDevice) → Quiet s t → Quiet t r → Quiet s r
Quiet-trans s t r f g = record {
  routes = KeepsRoutes-trans s t r f.routes g.routes;
  standby = SameStandby-trans s t r f.standby g.standby;
}

pub Quiet-IsSettled : (o : ℕ) (s t : AudioDevice) → Quiet s t → IsSettled o s → IsSettled o t
Quiet-IsSettled o s t q h = SameStandby-IsSettled o s t q.routes q.standby h

module _ (p : Platform) where
  device_write-fields :
      (out : StreamOut) (dst_channels pcm : ℕ) (buffer : List ℕ)
      → let t = (device_write p out dst_channels pcm buffer).1 in
        (t.usecase ≡ out.usecase) × (t.standby ≡ out.standby)
  unfolding device_write
  device_write-fields out dst_channels pcm buffer = ground arith

  write_device-Quiet :
      (o : ℕ) (buffer : List ℕ) (ret : Ret) (d : PcmDevice) (s : AudioDevice)
      → Quiet s (write_device p o buffer ret d s).2
  unfolding write_device
  write_device-Quiet o buffer ret d s = elim (Option-cases d.pcm) [
    | inl closed ↦
        rw (closed, write_device)
          (record {
            routes = record { routes = (refl, refl); usecases = λ q. refl };
            standby = record { standbys = λ q. refl; ids = λ q. refl };
          })
    | inr (pcm, opened) ↦
        let fields = device_write-fields (s.outs o) (profile_channels s.pcm_devices d) pcm buffer in
        rw (opened, write_device)
          (record {
            routes = record { routes = (refl, refl); usecases = λ q. ground (arith, fields) };
            standby = record {
              standbys = λ q. ground (arith, fields);
              ids = λ q. ground (arith, fields);
            };
          })
  ]

  write_loop-Quiet :
      (o : ℕ) (buffer : List ℕ) (ret : Ret) (ds : List PcmDevice) (s : AudioDevice)
      → Quiet s (write_loop p o buffer ret ds s).2
  unfolding write_loop
  write_loop-Quiet o buffer ret [] s = record {
    routes = record { routes = (refl, refl); usecases = λ q. refl };
    standby = record { standbys = λ q. refl; ids = λ q. refl };
  }
  write_loop-Quiet o buffer ret (d ∷ ds) s =
      let (written, after, t) = write_device p o buffer ret d s in
      let counted =
        if is_zero after then set_out o (count_written (length buffer) (t.outs o)) t else t in
      let count : Quiet t counted = record {
        routes = record { routes = ground arith; usecases = λ q. ground arith };
        standby = record { standbys = λ q. ground arith; ids = λ q. ground arith };
      } in
      Quiet-trans s t _ (write_device-Quiet o buffer ret d s)
        (Quiet-trans t counted _ count (write_loop-Quiet o buffer after ds counted))

  pub write_devices-IsSettled :
      (o : ℕ) (buffer : List ℕ) (s : AudioDevice)
      → IsSettled o s
      → IsSettled o (write_devices p o buffer s).1
  unfolding write_devices
  write_devices-IsSettled o buffer s h =
      let (devices, ret, t) =
        write_loop p o (heard (s.outs o) buffer) success (s.outs o).pcm_dev_list s in
      let moved = write_loop-Quiet o (heard (s.outs o) buffer) success (s.outs o).pcm_dev_list s in
      let set : Quiet t (set_pcm_dev_list o devices t) = record {
        routes = record { routes = (refl, refl); usecases = λ q. ground arith };
        standby = record { standbys = λ q. ground arith; ids = λ q. ground arith };
      } in
      Quiet-IsSettled o s (set_pcm_dev_list o devices t) (Quiet-trans s t _ moved set) h

  write_failed-IsSettled :
      (o bytes : ℕ) (s : AudioDevice)
      → IsSettled o s
      → IsSettled o (write_failed p o bytes s)
        × (((write_failed p o bytes s).outs o).standby ≡ true)
  unfolding write_failed
  write_failed-IsSettled o bytes s h =
      let (off, down, same) = out_standby-IsSettled o s h in
      let t = out_standby o s in
      let slept : Quiet t (write_failed p o bytes s) = record {
        routes = record { routes = ground arith; usecases = λ q. ground arith };
        standby = record { standbys = λ q. ground arith; ids = λ q. ground arith };
      } in
      (Quiet-IsSettled o t (write_failed p o bytes s) slept off, slept.standby.standbys o ∙ down)

module _ (p : Platform) (lay : Layout) where
  leave_standby-IsSettled :
      (o : ℕ) (s : AudioDevice)
      → IsSettled o s
      → let (ret, t) = leave_standby p lay o s in
        IsSettled o t × ((ret ≡ success) ⊎ (is_zero ret ≡ false) × ((t.outs o).standby ≡ true))
  unfolding leave_standby
  leave_standby-IsSettled o s h =
      let (ret, t) = start_output_stream p lay o s in
      let same = start_output-SameStandby p lay o s in
      let id = same.ids o in
      let left = set_out o (record (t.outs o) { standby = false }) t in
      if_of {A = Ret × AudioDevice} Left (not (s.outs o).standby) _ _ (λ e. (h, inl refl))
        (λ e.
          let down : (s.outs o).standby ≡ true = ground (arith, e) in
          elim (start_output_stream-outcome p lay o s h.routed (h.idle down)) [
            | inl (ok, on) ↦
                rw (ok, leave_standby)
                  (
                    record {
                      routed = SameRoutes-IsRouted t left (refl, refl) on.routed;
                      playing = λ b. ground (arith, on.listed, id);
                      idle = λ b. absurd (ground arith);
                    },
                    inl refl,
                  )
            | inr (bad, off) ↦
                rw (bad, leave_standby)
                  (
                    IsOff-IsSettled o t (subst (λ i. IsOff i t) (sym id) off)
                        (same.standbys o ∙ down),
                    inr (bad, same.standbys o ∙ down),
                  )
          ])
    where
      Left : Ret × AudioDevice → Type 0
      Left x =
          IsSettled o x.1
          × ((x.0 ≡ success) ⊎ (is_zero x.0 ≡ false) × ((x.1.outs o).standby ≡ true))

  pub out_write-IsSettled :
      (o : ℕ) (buffer : List ℕ) (s : AudioDevice)
      → IsSettled o s
      → let (bytes, t) = out_write p lay o buffer s in (bytes ≡ length buffer) × IsSettled o t
  unfolding out_write
  out_write-IsSettled o buffer s h =
      let (started, t) = leave_standby p lay o s in
      let (ret, r) = write_devices p o buffer t in
      let ready = leave_standby-IsSettled o s h in
      if_of {A = ℕ × AudioDevice} (λ x. (x.0 ≡ length buffer) × IsSettled o x.1)
        (not (is_zero started)) _ _
        (λ e. (refl, (write_failed-IsSettled p o (length buffer) t ready.0).0))
        (λ e.
          let written = write_devices-IsSettled p o buffer t ready.0 in
          if_of {A = ℕ × AudioDevice} (λ x. (x.0 ≡ length buffer) × IsSettled o x.1)
            (not (is_zero ret)) _ _
            (λ e. (refl, (write_failed-IsSettled p o (length buffer) r written).0))
            (λ e. (refl, written)))
