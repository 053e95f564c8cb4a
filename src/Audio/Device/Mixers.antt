-- ===== src/Audio/Device/Mixers.antt =====
-- The mixers of the audio HAL: `mixer_init` and `free_mixer_list` of audio/audio_hw.c. A mixer_card
-- is named by its card.
use android_device_samsung_z.Common.{
  ℕ, zero, suc, Bool, true, is_some, List, [], ◌∷◌, ◌++◌, not, if◌then◌else◌,
}
use android_device_samsung_z.Platform.{
  Platform, Call, Ret, success, failed, enodev, enomem, is_zero, MixerPaths, vendor_paths,
  system_paths,
}
use android_device_samsung_z.Audio.State.{PcmProfile}
use android_device_samsung_z.Audio.Lookup.{get_mixer_for_card}

abbrev pub retry_number : ℕ
retry_number = 10

abbrev pub retry_us : ℕ
retry_us = 500_000

-- `free_mixer_list`: the list is empty after it.
unfoldable pub free_mixer_list : List ℕ → List Call → List Call
free_mixer_list [] log = log
free_mixer_list (card ∷ cards) log = free_mixer_list cards (Call.audio_route_free card ∷ log)

module _ (p : Platform) where
  -- The loop around `mixer_open`, with the retries that are left: whether the mixer is open.
  unfoldable pub open_mixer : (retries card : ℕ) → List Call → Bool × List Call
  open_mixer zero card log =
      (is_some (p.pointer log (Call.mixer_open card)), Call.mixer_open card ∷ log)
  open_mixer (suc retries) card log =
      let tried = Call.mixer_open card ∷ log in
      let again = open_mixer retries card (Call.usleep retry_us ∷ tried) in
      if is_some (p.pointer log (Call.mixer_open card)) then (true, tried) else again

  -- The file of the mixer paths: the legacy one where the other is not there, whether or not that
  -- one is.
  unfoldable pub find_paths : (audience : Bool) → List Call → MixerPaths × List Call
  find_paths audience log =
      let asked = Call.access (vendor_paths audience) ∷ log in
      if is_zero (p.reply log (Call.access (vendor_paths audience)))
      then (vendor_paths audience, asked)
      else (system_paths audience, Call.access (system_paths audience) ∷ asked)

  -- A card that has no mixer yet. `memory` says whether its `mixer_card` can be allocated.
  unfoldable pub add_mixer :
      (audience memory : Bool) → (card : ℕ) → List ℕ → List Call → Ret × List ℕ × List Call
  add_mixer audience memory card mixers log =
      let (is_open, tried) = open_mixer retry_number card log in
      let (location, asked) = find_paths audience tried in
      let call = Call.audio_route_init card location in
      if not is_open
      then (failed enodev, mixers, tried)
      else if not (is_some (p.pointer asked call))
      then (failed enodev, mixers, call ∷ asked)
      else if not memory
      then (failed enomem, mixers, call ∷ asked)
      else (success, mixers ++ card ∷ [], call ∷ asked)

  -- The loop over `pcm_devices`; an error ends it.
  unfoldable pub mixer_loop :
      (audience : Bool)
      → (memory : ℕ → Bool) → List PcmProfile
      → List ℕ
      → List Call
      → Ret × List ℕ × List Call
  mixer_loop audience memory [] mixers log = (success, mixers, log)
  mixer_loop audience memory (q ∷ qs) mixers log =
      let (ret, more, log') = add_mixer audience (memory q.card) q.card mixers log in
      let present = mixer_loop audience memory qs mixers log in
      let added = mixer_loop audience memory qs more log' in
      if is_some (get_mixer_for_card mixers q.card)
      then present
      else if not (is_zero ret)
      then (ret, more, log')
      else added

  unfoldable pub mixer_init :
      (audience : Bool)
      → (memory : ℕ → Bool) → List PcmProfile
      → List Call
      → Ret × List ℕ × List Call
  mixer_init audience memory table log =
      let (ret, mixers, log') = mixer_loop audience memory table [] log in
      if is_zero ret then (success, mixers, log') else (ret, [], free_mixer_list mixers log')
