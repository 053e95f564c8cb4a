-- ===== src/Audio/Voice/Handles.antt =====
-- The PCM handles of voice calls in a log: how often each is given, held and closed, and what was
-- answered about them.
use android_device_samsung_z.Common.{
  ℕ, ◌+◌, ◌≡◌, refl, Bool, true, false, Option, none, some, is_some, List, [], ◌∷◌, ◌==◌, ◌||◌, not,
  if◌then◌else◌, arith,
}
use android_device_samsung_z.Platform.{Platform, Call, is_zero}
use android_device_samsung_z.Platform.Pcms.{is_handle, given, closed}
use android_device_samsung_z.Audio.State.{AudioDevice}
use android_device_samsung_z.Audio.Voice.{stop_voice_session_bt_sco}

-- How many of the four handles of a call are `h`.
abbrev pub held : ℕ → AudioDevice → ℕ
held h s =
    is_handle h s.pcm_voice_rx
    + is_handle h s.pcm_voice_tx
    + is_handle h s.pcm_sco_rx
    + is_handle h s.pcm_sco_tx

-- From `s` to `t`, a handle is given as often as it is closed or comes to be held.
pub record IsBalanced (p : Platform) (s t : AudioDevice) : Type 0 where
  pub balance :
      (h : ℕ)
      → given p h t.log + closed h s.log + held h s ≡ given p h s.log + closed h t.log + held h t

pub IsBalanced-trans :
    (p : Platform) (s t r : AudioDevice) → IsBalanced p s t → IsBalanced p t r → IsBalanced p s r
IsBalanced-trans p s t r f g = record { balance = λ h. omega (arith, f.balance h, g.balance h) }

pub balanced : (p : Platform) (s : AudioDevice) → IsBalanced p s s
balanced p s = record { balance = λ h. refl }

-- What the vendor answered last about a handle, and last of all.
abbrev pub answered : Platform → ℕ → List Call → Bool
answered p h [] = false
answered p h (Call.pcm_is_ready pcm ∷ log) =
    if pcm == h then not (is_zero (p.reply log (Call.pcm_is_ready pcm))) else answered p h log
answered p h (_ ∷ log) = answered p h log

abbrev pub last_answer : Platform → List Call → Bool
last_answer p [] = true
last_answer p (Call.pcm_is_ready pcm ∷ log) = not (is_zero (p.reply log (Call.pcm_is_ready pcm)))
last_answer p (_ ∷ log) = last_answer p log

abbrev pub is_ready : Platform → Option ℕ → List Call → Bool
is_ready p none log = true
is_ready p (some pcm) log = answered p pcm log

-- The PCMs that were opened.
abbrev pub opens : List Call → ℕ
opens [] = 0
opens (Call.pcm_open card device flags ∷ log) = 1 + opens log
opens (_ ∷ log) = opens log

-- Three ends of the start of a session: it was running already, it runs, or a PCM was not ready.
pub data IsScoAnswered (p : Platform) (s t : AudioDevice) : Type 0 where
  kept :
      (s.in_call_sco || (is_some s.pcm_sco_rx || is_some s.pcm_sco_tx)) ≡ true
      → t ≡ s
      → IsScoAnswered p s t
  runs :
      (before : List Call)
      → t.in_call_sco ≡ true
      → t.log ≡ Call.pcm_start t.pcm_sco_rx ∷ Call.pcm_start t.pcm_sco_tx ∷ before
      → opens t.log ≡ 2 + opens s.log
      → is_ready p t.pcm_sco_tx t.log ≡ true
      → is_ready p t.pcm_sco_rx t.log ≡ true
      → IsScoAnswered p s t
  failed :
      t.in_call_sco ≡ false
      → t.pcm_sco_rx ≡ none
      → t.pcm_sco_tx ≡ none
      → last_answer p t.log ≡ false
      → IsScoAnswered p s t

pub stop_sco_facts :
    (p : Platform) (s : AudioDevice)
    → let t = stop_voice_session_bt_sco s in
      IsBalanced p s t × (opens t.log ≡ opens s.log) × (t.pcm_sco_rx ≡ none) × (t.pcm_sco_tx ≡ none)
unfolding stop_voice_session_bt_sco
stop_sco_facts p s =
    (record { balance = λ h. ground arith }, ground arith, ground arith, ground arith)
