-- ===== src/Audio/Device/Retries.antt =====
-- How often `mixer_init` of audio/audio_hw.c asks for the mixer of a card.
use android_device_samsung_z.Common.{
  ℕ, zero, suc, ◌+◌, ◌≤◌, ◌≡◌, refl, ◌⊎◌, Bool, false, is_some, List, [], ◌∷◌, ◌++◌, ◌==◌,
  if◌then◌else◌, arith,
}
use android_device_samsung_z.Platform.{Platform, Call, is_zero}
use android_device_samsung_z.Audio.State.{PcmProfile}
use android_device_samsung_z.Audio.Lookup.{get_mixer_for_card}
use android_device_samsung_z.Audio.Device.Mixers.{
  retry_number, open_mixer, find_paths, add_mixer, mixer_loop, mixer_init, free_mixer_list,
}

-- The calls of `mixer_open` for a card in a log.
abbrev is_open_of : ℕ → Call → ℕ
is_open_of card (Call.mixer_open c) = if c == card then 1 else 0
is_open_of card c = 0

pub opens : ℕ → List Call → ℕ
opens card [] = 0
opens card (c ∷ log) = is_open_of card c + opens card log

free_mixer_list-opens :
    (card : ℕ) (cards : List ℕ) (log : List Call)
    → opens card (free_mixer_list cards log) ≡ opens card log
unfolding free_mixer_list opens
free_mixer_list-opens card [] log = refl
free_mixer_list-opens card (c ∷ cards) log =
    omega (arith, free_mixer_list-opens card cards (Call.audio_route_free c ∷ log))

-- The calls that are left to a card without a mixer.
abbrev allowance : List ℕ → ℕ → ℕ
allowance mixers card = if is_some (get_mixer_for_card mixers card) then 0 else retry_number + 1

allowance-last :
    (mixers : List ℕ) (c card : ℕ)
    → allowance (mixers ++ c ∷ []) card ≡ (if c == card then 0 else allowance mixers card)
unfolding get_mixer_for_card
allowance-last [] c card = ground arith
allowance-last (m ∷ mixers) c card = ground (arith, allowance-last mixers c card)

module _ (p : Platform) (audience : Bool) where
  open_mixer-le :
      (retries c card : ℕ) (log : List Call)
      → opens card (open_mixer p retries c log).1
        ≤ (if c == card then retries + 1 else 0) + opens card log
  unfolding open_mixer opens
  open_mixer-le zero c card log = ground arith
  open_mixer-le (suc retries) c card log =
      ground (arith, open_mixer-le retries c card (Call.usleep 500_000 ∷ Call.mixer_open c ∷ log))

  find_paths-opens :
      (card : ℕ) (log : List Call) → opens card (find_paths p audience log).1 ≡ opens card log
  unfolding find_paths opens
  find_paths-opens card log = ground arith

  -- A card is asked for while it has no mixer, and is given one or is the last.
  add_mixer-le :
      (memory : Bool) (c card : ℕ) (mixers : List ℕ) (log : List Call)
      → let (ret, more, log') = add_mixer p audience memory c mixers log in
        (opens card log' ≤ (if c == card then retry_number + 1 else 0) + opens card log)
        × ((is_zero ret ≡ false) ⊎ (more ≡ mixers ++ c ∷ []))
  unfolding add_mixer opens
  add_mixer-le memory c card mixers log = ground (
    arith,
    open_mixer-le retry_number c card log,
    find_paths-opens card (open_mixer p retry_number c log).1,
  )

  module _ (memory : ℕ → Bool) where
    mixer_loop-le :
        (card : ℕ) (qs : List PcmProfile) (mixers : List ℕ) (log : List Call)
        → opens card (mixer_loop p audience memory qs mixers log).2
          ≤ allowance mixers card + opens card log
    unfolding mixer_loop
    mixer_loop-le card [] mixers log = omega arith
    mixer_loop-le card (q ∷ qs) mixers log =
        let (ret, more, log') = add_mixer p audience (memory q.card) q.card mixers log in
        ground (
          arith,
          mixer_loop-le card qs mixers log,
          mixer_loop-le card qs more log',
          add_mixer-le (memory q.card) q.card card mixers log,
          allowance-last mixers q.card card,
        )

    -- `mixer_init` opens the mixer of a card at most 11 times, whatever `mixer_open` answers and
    -- however many profiles name the card.
    pub mixer_init-le :
        (card : ℕ) (table : List PcmProfile) (log : List Call)
        → opens card (mixer_init p audience memory table log).2 ≤ retry_number + 1 + opens card log
    unfolding mixer_init
    mixer_init-le card table log =
        let (ret, mixers, log') = mixer_loop p audience memory table [] log in
        ground (arith, mixer_loop-le card table [] log, free_mixer_list-opens card mixers log')
