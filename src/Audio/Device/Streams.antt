-- ===== src/Audio/Device/Streams.antt =====
-- The life of an output stream: `adev_open_output_stream` and `adev_close_output_stream` of
-- audio/audio_hw.c around the requests to it.
use android_device_samsung_z.Common.{
  ℕ, ◌≡◌, refl, sym, ap, ◌∙◌, ◌⊎◌, inl, inr, true, false, Option, none, some, is_some, Option-cases,
  ◌&&◌, has, List, [], ◌∷◌, if◌then◌else◌, if_of, arith,
}
use android_device_samsung_z.Platform.{Platform, Ret, success, failed, eexist, is_zero}
use android_device_samsung_z.Audio.State.{
  pcm_playback, AudioUsecase, StreamOut, AudioDevice, Layout,
}
use android_device_samsung_z.Audio.Lookup.{get_usecase_from_id, get_pcm_device}
use android_device_samsung_z.Audio.Route.Invariant.{IsRouted, has_id}
use android_device_samsung_z.Audio.Route.Members.{IsOff, SameRoutes-IsRouted}
use android_device_samsung_z.Audio.Playback.{set_out}
use android_device_samsung_z.Audio.Playback.Settled.{IsSettled, IsOff-IsSettled}
use android_device_samsung_z.Audio.Playback.Requests.{Requests, out_standby-Requests}
use android_device_samsung_z.Audio.Device.{
  AudioConfig, opened_devices, new_output, claim_output, adev_open_output_stream,
  adev_close_output_stream,
}

absent-has_id :
    (us : List AudioUsecase) (id : ℕ)
    → is_some (get_usecase_from_id us id) ≡ false
    → has_id id us ≡ false
unfolding get_usecase_from_id
absent-has_id [] id h = refl
absent-has_id (u ∷ us) id h = ground (arith, absent-has_id us id)

module _ (p : Platform) where
  claim_output-IsSettled :
      (o : ℕ) (out : StreamOut) (s : AudioDevice)
      → IsRouted s
      → out.standby ≡ true
      → let (rc, t) = claim_output p o out s in
        ((rc ≡ success) × IsSettled o t) ⊎ (rc ≡ failed eexist) × IsRouted t
  unfolding claim_output
  claim_output-IsSettled o out s h down =
      let primary = has out.flags p.output_flag_primary in
      let claimed = if primary then record s { primary_output = some o } else s in
      let t = set_out o out claimed in
      let routed : IsRouted claimed = SameRoutes-IsRouted s claimed (ground arith) h in
      if_of {A = Ret × AudioDevice}
        (λ x. ((x.0 ≡ success) × IsSettled o x.1) ⊎ (x.0 ≡ failed eexist) × IsRouted x.1)
        (primary && is_some s.primary_output) _ _ (λ e. inr (refl, h))
        (λ e.
          if_of {A = Ret × AudioDevice}
            (λ x. ((x.0 ≡ success) × IsSettled o x.1) ⊎ (x.0 ≡ failed eexist) × IsRouted x.1)
            (is_some (get_usecase_from_id s.usecase_list out.usecase)) _ _
            (λ busy. inr (refl, routed))
            (λ free.
              let fresh = absent-has_id s.usecase_list out.usecase free in
              inl (
                refl,
                IsOff-IsSettled o t
                    (record {
                      routed = SameRoutes-IsRouted claimed t (refl, refl) routed;
                      unlisted = ground (arith, fresh);
                    })
                    (ground arith),
              )))

  open_some-IsSettled :
      (o devices flags : ℕ) (config : AudioConfig) (s : AudioDevice)
      → IsRouted s
      → let (rc, stream, filled, t) = adev_open_output_stream p (some o) devices flags config s in
        ((rc ≡ success) × (stream ≡ some o) × IsSettled o t)
        ⊎ (is_zero rc ≡ false) × (stream ≡ none) × IsRouted t
  unfolding adev_open_output_stream
  open_some-IsSettled o devices flags config s h =
      elim (Option-cases (get_pcm_device p s.pcm_devices pcm_playback (opened_devices p devices))) [
        | inl absent ↦ rw (absent, adev_open_output_stream) (inr (refl, refl, h))
        | inr ((place, q), found) ↦
            let out = new_output p devices flags config q in
            elim (claim_output-IsSettled o out s h refl) [
              | inl (ok, settled) ↦
                  rw (found, ok, adev_open_output_stream) (inl (refl, refl, settled))
              | inr (bad, routed) ↦
                  rw (found, bad, adev_open_output_stream) (inr (refl, refl, routed))
            ]
      ]

  -- An open that succeeds.
  pub adev_open_output_stream-IsSettled :
      (memory : Option ℕ) (devices flags : ℕ) (config : AudioConfig) (s : AudioDevice)
      → IsRouted s
      → let (rc, stream, filled, t) = adev_open_output_stream p memory devices flags config s in
        ((rc ≡ success) × ((o : ℕ) × (stream ≡ some o) × IsSettled o t))
        ⊎ (is_zero rc ≡ false) × (stream ≡ none) × IsRouted t
  adev_open_output_stream-IsSettled none devices flags config s h =
      unfold adev_open_output_stream in inr (refl, refl, h)
  adev_open_output_stream-IsSettled (some o) devices flags config s h =
      elim (open_some-IsSettled o devices flags config s h) [
        | inl (ok, own, settled) ↦ inl (ok, (o, own, settled))
        | inr bad ↦ inr bad
      ]

  claim_output-primary :
      (o : ℕ) (out : StreamOut) (s : AudioDevice)
      → let (rc, t) = claim_output p o out s in
        (t.primary_output ≡ s.primary_output)
        ⊎ (s.primary_output ≡ none)
          × (has out.flags p.output_flag_primary ≡ true)
          × (t.primary_output ≡ some o)
          × ((rc ≡ success) ⊎ (rc ≡ failed eexist))
  unfolding claim_output
  claim_output-primary o out s = ground arith

  -- An open of an output stream changes the primary output only from none to the new stream, for
  -- the flag PRIMARY: with success, or with -EEXIST, where the stream is freed and stays the
  -- primary output.
  pub adev_open_output_stream-primary :
      (memory : Option ℕ) (devices flags : ℕ) (config : AudioConfig) (s : AudioDevice)
      → let (rc, stream, filled, t) = adev_open_output_stream p memory devices flags config s in
        (t.primary_output ≡ s.primary_output)
        ⊎ (s.primary_output ≡ none)
          × (has flags p.output_flag_primary ≡ true)
          × (t.primary_output ≡ memory)
          × ((rc ≡ success) × (stream ≡ memory) ⊎ (rc ≡ failed eexist) × (stream ≡ none))
  unfolding adev_open_output_stream
  adev_open_output_stream-primary none devices flags config s = inl refl
  adev_open_output_stream-primary (some o) devices flags config s =
      elim (Option-cases (get_pcm_device p s.pcm_devices pcm_playback (opened_devices p devices))) [
        | inl absent ↦ rw (absent, adev_open_output_stream) (inl refl)
        | inr ((place, q), found) ↦
            let claimed = claim_output-primary o (new_output p devices flags config q) s in
            rw (found, adev_open_output_stream) (ground (arith, claimed))
      ]

module _ (p : Platform) (lay : Layout) where
  -- From counts that are the uses: an output stream that is opened with success, and closed after
  -- any sequence of writes, standbys, changes of the routing outside a call, volumes and queries of
  -- the position, leaves the counts the uses, its usecase out of the list and itself in standby.
  pub adev_close_output_stream-Requests :
      {t : AudioDevice} (o devices flags : ℕ) (config : AudioConfig) (s : AudioDevice)
      → IsRouted s
      → (adev_open_output_stream p (some o) devices flags config s).0 ≡ success
      → Requests p lay o (adev_open_output_stream p (some o) devices flags config s).3 t
      → let r = adev_close_output_stream o t in
        IsOff (r.outs o).usecase r × ((r.outs o).standby ≡ true)
  unfolding adev_close_output_stream
  adev_close_output_stream-Requests o devices flags config s h opened asked =
      elim (open_some-IsSettled p o devices flags config s h) [
        | inl (ok, own, settled) ↦ out_standby-Requests p lay asked settled
        | inr (bad, nothing, routed) ↦ absurd (cc (sym bad ∙ ap is_zero opened))
      ]
