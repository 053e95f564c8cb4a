-- ===== src/Audio/Capture/Paths.antt =====
-- What the start and the end of an input stream do to the usecases and the reference counts.
use android_device_samsung_z.Common.{
  Bool-cases, ℕ, ◌+◌, ◌≡◌, refl, sym, ap, ◌∙◌, ◌⊎◌, inl, inr, true, false, ◌||◌, ◌&&◌, not, is_some,
  Option, none, some, Option-cases, List, [], ◌∷◌, ◌++◌, All, if_of, if◌then◌else◌, arith,
}
use mathlib.Core.Path.{subst}
use android_device_samsung_z.Platform.{
  Call, Platform, Ret, success, failed, eio, usecase_memory, pcm_device_memory, is_zero,
}
use android_device_samsung_z.Audio.State.{
  pcm_capture, PcmConfig, PcmDevice, PcmProfile, AudioDevice, Layout, record_call,
}
use android_device_samsung_z.Audio.Lookup.{get_pcm_device, get_mixer_for_card, remove_usecase}
use android_device_samsung_z.Audio.Route.{disable_snd_device}
use android_device_samsung_z.Audio.Route.Count.{disable-count, disable-list}
use android_device_samsung_z.Audio.Route.Flags.{has_id-remove_self}
use android_device_samsung_z.Audio.Route.Invariant.{
  has_id, Distinct, type_at, IsShaped, IsRouted, held_none, find_facts,
}
use android_device_samsung_z.Audio.Route.Members.{
  IsOff, SameRoutes, SameRoutes-IsRouted, snoc-IsRouted, type_at-snoc, remove-All, remove-Distinct,
  remove_count, found_of_type,
}
use android_device_samsung_z.Audio.Select.{select_depth}
use android_device_samsung_z.Audio.Select.Keeps.{select_devices-Keeps}
use android_device_samsung_z.Audio.Select.Streams.{select_devices-SameStreams}
use android_device_samsung_z.Audio.Voice.{asked_ready, not_ready}
use android_device_samsung_z.Audio.Voice.Sessions.{asked_ready-log}
use android_device_samsung_z.Audio.Capture.{
  set_in, is_empty, stop_input_stream, fast_profile, fast_table, new_input_usecase, free_resampler,
  update_config, error_open, open_input, enable_input, start_capture, start_input_stream,
}

-- The usecase of an input stream is in the list.
pub record IsCapture (uc_id : ℕ) (t : AudioDevice) : Type 0 where
  pub routed : IsRouted t
  pub listed : type_at t.usecase_list uc_id ≡ some pcm_capture

-- The routes stay, and every stream keeps its usecase.
pub record KeepsRoutes (s t : AudioDevice) : Type 0 where
  pub routes : SameRoutes s t
  pub usecases : (i : ℕ) → (t.ins i).usecase ≡ (s.ins i).usecase

pub KeepsRoutes-trans : (s t r : AudioDevice) → KeepsRoutes s t → KeepsRoutes t r → KeepsRoutes s r
KeepsRoutes-trans s t r f g = record {
  routes = (g.routes.0 ∙ f.routes.0, g.routes.1 ∙ f.routes.1);
  usecases = λ i. g.usecases i ∙ f.usecases i;
}

pub KeepsRoutes-IsCapture :
    (uc_id : ℕ) (s t : AudioDevice) → KeepsRoutes s t → IsCapture uc_id s → IsCapture uc_id t
KeepsRoutes-IsCapture uc_id s t k h = record {
  routed = SameRoutes-IsRouted s t k.routes h.routed;
  listed = ap (λ us. type_at us uc_id) k.routes.1 ∙ h.listed;
}

IsOff-active :
    (uc_id : ℕ) (t : AudioDevice) (active : Option ℕ)
    → IsOff uc_id t
    → IsOff uc_id (record t { active_input = active })
IsOff-active uc_id t active h = record {
  routed = record {
    counted = h.routed.counted;
    shaped = h.routed.shaped;
    distinct = h.routed.distinct;
  };
  unlisted = h.unlisted;
}

-- Where the counts are the uses and the stream's usecase is in the list as a capture, after
-- `stop_input_stream` the counts are the uses and the usecase is not there, whether or not the
-- stream had PCM devices.
pub stop_input_stream-IsOff :
    (i : ℕ) (s : AudioDevice)
    → IsCapture (s.ins i).usecase s
    → IsOff (s.ins i).usecase (stop_input_stream i s).1
unfolding stop_input_stream
stop_input_stream-IsOff i s h =
    let uc_id = (s.ins i).usecase in
    let s' = record s { active_input = none } in
    let (u, f) = found_of_type s.usecase_list uc_id pcm_capture h.listed in
    let facts = find_facts s.usecase_list uc_id u f h.routed.shaped in
    let capture : u.type ≡ pcm_capture = cc (sym facts.1 ∙ h.listed) in
    let off = (disable_snd_device s' u.mixer_list u.in_snd_device).1 in
    let kept = disable-list s' u.mixer_list u.in_snd_device in
    let free = record off { usecase_list = remove_usecase uc_id off.usecase_list } in
    let routed : IsRouted free = record {
      counted = λ e. ground (
        arith,
        kept,
        disable-count s' u.mixer_list u.in_snd_device e facts.2.in_named,
        facts.2.capture_only capture,
        remove_count uc_id s u e h.routed f,
        held_none s.usecase_list,
        held_none (remove_usecase uc_id s.usecase_list),
      );
      shaped =
          subst (λ us. All IsShaped (remove_usecase uc_id us)) (sym kept)
            (remove-All uc_id s.usecase_list h.routed.shaped);
      distinct =
          subst (λ us. Distinct (remove_usecase uc_id us)) (sym kept)
            (remove-Distinct uc_id s.usecase_list h.routed.distinct);
    } in
    let unlisted =
      ap (λ us. has_id uc_id (remove_usecase uc_id us)) kept
      ∙ has_id-remove_self uc_id s.usecase_list h.routed.distinct in
    rw (f, stop_input_stream)
      (if_of {A = Ret × AudioDevice} (λ r. IsOff uc_id r.1) (is_empty (free.ins i).pcm_dev_list) _ _
        (λ e. record { routed = routed; unlisted = unlisted })
        (λ e. record {
          routed = record {
            counted = routed.counted;
            shaped = routed.shaped;
            distinct = routed.distinct;
          };
          unlisted = unlisted;
        }))

pub is_zero-success : (ret : Ret) → is_zero ret ≡ true → ret ≡ success
is_zero-success ret h = ground arith

pub free_resampler-KeepsRoutes : (i : ℕ) (s : AudioDevice) → KeepsRoutes s (free_resampler i s)
free_resampler-KeepsRoutes i s = record { routes = ground arith; usecases = λ j. ground arith }

-- A call of `create_resampler` that fails.
abbrev pub Unmade : Platform → Type 0
Unmade p =
    (log : List Call) × (in_rate : ℕ) × (out_rate : ℕ) × (channels : ℕ) × (is_zero
        (p.reply log (Call.create_resampler in_rate out_rate channels))
      ≡ false)

module _ (p : Platform) where
  -- A resampler that could not be made is none.
  pub update_config-KeepsRoutes :
      (i : ℕ) (config : PcmConfig) (s : AudioDevice)
      → let (ret, t) = update_config p i config s in
        KeepsRoutes s t
        × ((ret ≡ success) ⊎ Unmade p × (is_zero ret ≡ false) × ((t.ins i).resampler ≡ false))
  unfolding update_config
  update_config-KeepsRoutes i config s =
      let stream = s.ins i in
      let set = set_in i (record stream { config = config }) s in
      let ret =
        p.reply (free_resampler i set).log
          (Call.create_resampler config.rate stream.requested_rate config.channels) in
      (
        record { routes = ground arith; usecases = λ j. ground arith },
        elim (Bool-cases (is_zero ret)) [
          | inl made ↦ ground (arith, is_zero-success ret made)
          | inr broken ↦
              let unmade : Unmade p = (
                (free_resampler i set).log,
                config.rate,
                stream.requested_rate,
                config.channels,
                broken,
              ) in
              ground (arith, broken, unmade)
        ],
      )

  error_open-IsOff :
      (i : ℕ) (s : AudioDevice)
      → IsCapture (s.ins i).usecase s
      → IsOff (s.ins i).usecase (error_open i s)
  unfolding error_open
  error_open-IsOff i s h =
      let free = free_resampler i s in
      let kept = free_resampler-KeepsRoutes i s in
      let on =
        subst (λ id. IsCapture id free) (sym (kept.usecases i))
          (KeepsRoutes-IsCapture (s.ins i).usecase s free kept h) in
      let off =
        IsOff-active (free.ins i).usecase (stop_input_stream i free).1 none
          (stop_input_stream-IsOff i free on) in
      subst (λ id. IsOff id (error_open i s)) (kept.usecases i) off

  -- The PCM of a capture is opened, or its usecase is gone.
  open_input-outcome :
      (i place : ℕ) (q : PcmProfile) (ret : Ret) (s : AudioDevice)
      → IsCapture (s.ins i).usecase s
      → let (rc, t) = open_input p i place q ret s in
        ((rc ≡ ret) × IsCapture (s.ins i).usecase t × ((t.ins i).resampler ≡ (s.ins i).resampler))
        ⊎ (rc ≡ failed eio) × IsOff (s.ins i).usecase t
  unfolding open_input
  open_input-outcome i place q ret s h =
      let uc_id = (s.ins i).usecase in
      let call = Call.pcm_open q.card q.id (p.pcm_in + p.pcm_monotonic) in
      let pcm = p.pointer s.log call in
      let opened = record_call call s in
      let asked = asked_ready p pcm opened in
      let same = asked_ready-log p pcm opened in
      let closed = record_call (Call.pcm_close pcm) asked in
      let device : PcmDevice = record { pcm_profile = place; pcm = pcm; status = success } in
      let started =
        set_in i
          (record (asked.ins i) {
            pcm_dev_list = device ∷ [];
            proc_buf_size = 0;
            read_buf_size = 0;
            read_buf_frames = 0;
          })
          asked in
      let kept : KeepsRoutes s closed = record {
        routes = ground (arith, same);
        usecases = λ j. ground (arith, same);
      } in
      let on =
        subst (λ id. IsCapture id closed) (sym (kept.usecases i))
          (KeepsRoutes-IsCapture uc_id s closed kept h) in
      let off =
        subst (λ id. IsOff id (error_open i closed)) (kept.usecases i)
          (error_open-IsOff i closed on) in
      let running : AudioDevice =
        if (started.ins i).resampler
        then record_call (Call.reset_resampler i) started
        else started in
      let plays : KeepsRoutes s running = record {
        routes = ground (arith, same);
        usecases = λ j. ground (arith, same);
      } in
      if_of {A = Ret × AudioDevice}
        (λ x.
          ((x.0 ≡ ret) × IsCapture uc_id x.1 × ((x.1.ins i).resampler ≡ (s.ins i).resampler))
          ⊎ (x.0 ≡ failed eio) × IsOff uc_id x.1)
        (not_ready p pcm opened) _ _ (λ e. inr (refl, off))
        (λ e. inl (refl, KeepsRoutes-IsCapture uc_id s running plays h, ground (arith, same)))

module _ (p : Platform) (lay : Layout) where
  enable_input-IsCapture :
      (i place : ℕ) (q : PcmProfile) (s : AudioDevice)
      → IsRouted s
      → has_id (s.ins i).usecase s.usecase_list ≡ false
      → let t = enable_input p lay i place q s in
        IsCapture (s.ins i).usecase t × ((t.ins i).usecase ≡ (s.ins i).usecase)
  unfolding enable_input
  enable_input-IsCapture i place q s h new =
      let uc_id = (s.ins i).usecase in
      let device : PcmDevice = record { pcm_profile = place; pcm = none; status = success } in
      let table = fast_table p (s.ins i) place s.pcm_devices in
      let t = record (set_in i (record (s.ins i) { pcm_dev_list = device ∷ [] }) s) {
        pcm_devices = table;
        fault = s.fault || not (is_some (get_mixer_for_card s.mixer_list q.card));
      } in
      let u = new_input_usecase s i q in
      let listed = record t { usecase_list = t.usecase_list ++ u ∷ [] } in
      let h' : IsRouted t = record {
        counted = h.counted;
        shaped = h.shaped;
        distinct = h.distinct;
      } in
      let k =
        select_devices-Keeps p lay select_depth listed uc_id (snoc-IsRouted t u h' new refl refl) in
      (
        record { routed = k.routed; listed = k.types uc_id ∙ type_at-snoc s.usecase_list u new },
        ap (λ ins. (ins i).usecase) (select_devices-SameStreams p lay select_depth listed uc_id).ins
            ∙ ground arith,
      )

  start_capture-outcome :
      (i place : ℕ) (q : PcmProfile) (s : AudioDevice)
      → IsRouted s
      → has_id (s.ins i).usecase s.usecase_list ≡ false
      → let (rc, t) = start_capture p lay i place q s in
        ((rc ≡ success) × IsCapture (s.ins i).usecase t)
        ⊎ (is_zero rc ≡ false) × IsOff (s.ins i).usecase t
        ⊎ Unmade p
          × (is_zero rc ≡ false)
          × IsCapture (s.ins i).usecase t
          × ((t.ins i).resampler ≡ false)
  unfolding start_capture
  start_capture-outcome i place q s h new =
      let uc_id = (s.ins i).usecase in
      let on = enable_input-IsCapture i place q s h new in
      let t = enable_input p lay i place q s in
      let (ret, r) = update_config p i q.config t in
      let (kept, made) = update_config-KeepsRoutes p i q.config t in
      let same = kept.usecases i ∙ on.1 in
      let ready =
        subst (λ id. IsCapture id r) (sym same) (KeepsRoutes-IsCapture uc_id t r kept on.0) in
      let tried = open_input-outcome p i place q ret r ready in
      let last = (open_input p i place q ret r).1 in
      elim tried [
        | inl (e, held, resampler) ↦
            let listed = subst (λ id. IsCapture id last) same held in
            elim made [
              | inl ok ↦ inl (e ∙ ok, listed)
              | inr (unmade, bad, no_resampler) ↦
                  inr (inr (unmade, ap is_zero e ∙ bad, listed, resampler ∙ no_resampler))
            ]
        | inr (e, off) ↦ inr (inl (ap is_zero e, subst (λ id. IsOff id last) same off))
      ]

  -- From counts that are the uses, where the stream's usecase is not in the list,
  -- `start_input_stream` ends in one of three ways, with counts that are the uses: 0 with the
  -- usecase in the list as a capture; an error with the usecase not there; or an error with the
  -- usecase there, which a `create_resampler` that fails leaves without its resampler.
  pub start_input_stream-outcome :
      (i : ℕ) (s : AudioDevice)
      → IsRouted s
      → has_id (s.ins i).usecase s.usecase_list ≡ false
      → let (rc, t) = start_input_stream p lay i s in
        ((rc ≡ success) × IsCapture (s.ins i).usecase t)
        ⊎ (is_zero rc ≡ false) × IsOff (s.ins i).usecase t
        ⊎ Unmade p
          × (is_zero rc ≡ false)
          × IsCapture (s.ins i).usecase t
          × ((t.ins i).resampler ≡ false)
  unfolding start_input_stream
  start_input_stream-outcome i s h new =
      let active = record s { active_input = some i } in
      let same : IsRouted active = record {
        counted = h.counted;
        shaped = h.shaped;
        distinct = h.distinct;
      } in
      elim (Option-cases
        (get_pcm_device p s.pcm_devices (s.ins i).usecase_type (s.ins i).devices)) [
          | inl none_found ↦
              rw (none_found, start_input_stream)
                (inr (
                  inl (
                    refl,
                    record {
                      routed = record {
                        counted = h.counted;
                        shaped = h.shaped;
                        distinct = h.distinct;
                      };
                      unlisted = new;
                    },
                  )))
          | inr ((place, profile), found) ↦
              elim (Bool-cases
                (p.allocates s.log usecase_memory && p.allocates s.log pcm_device_memory)) [
                  | inl given ↦
                      rw (found, given, start_input_stream)
                        (start_capture-outcome i place (fast_profile p (s.ins i) profile) active
                          same new)
                  | inr missing ↦
                      rw (found, missing, start_input_stream)
                        (inr (
                          inl (
                            refl,
                            record {
                              routed = record {
                                counted = h.counted;
                                shaped = h.shaped;
                                distinct = h.distinct;
                              };
                              unlisted = new;
                            },
                          )))
                ]
        ]
