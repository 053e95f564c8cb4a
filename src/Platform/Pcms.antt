-- ===== src/Platform/Pcms.antt =====
-- The PCM handles of tinyalsa in a log of calls: how often one was given, and how often given back.
use android_device_samsung_z.Common.{
  ℕ, ◌+◌, ◌≡◌, refl, ◌∙◌, Option, none, some, List, [], ◌∷◌, ◌==◌, if◌then◌else◌,
}
use android_device_samsung_z.Platform.Defs.{Platform, Call}

abbrev pub is_handle : ℕ → Option ℕ → ℕ
is_handle h none = 0
is_handle h (some pcm) = if pcm == h then 1 else 0

-- The times that `pcm_open` gave the handle `h`.
abbrev pub given : Platform → ℕ → List Call → ℕ
given p h [] = 0
given p h (Call.pcm_open card device flags ∷ log) =
    is_handle h (p.pointer log (Call.pcm_open card device flags)) + given p h log
given p h (_ ∷ log) = given p h log

-- The times that it was closed.
abbrev pub closed : ℕ → List Call → ℕ
closed h [] = 0
closed h (Call.pcm_close pcm ∷ log) = is_handle h pcm + closed h log
closed h (_ ∷ log) = closed h log

-- Calls that open and close no PCM lie between the two logs.
pub record SamePcms (l m : List Call) : Type 0 where
  pub same_given : (p : Platform) (h : ℕ) → given p h m ≡ given p h l
  pub same_closed : (h : ℕ) → closed h m ≡ closed h l

pub SamePcms-trans : (l m n : List Call) → SamePcms l m → SamePcms m n → SamePcms l n
SamePcms-trans l m n f g = record {
  same_given = λ p h. g.same_given p h ∙ f.same_given p h;
  same_closed = λ h. g.same_closed h ∙ f.same_closed h;
}

pub same_pcms : (l : List Call) → SamePcms l l
same_pcms l = record { same_given = λ p h. refl; same_closed = λ h. refl }
