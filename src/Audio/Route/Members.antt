-- ===== src/Audio/Route/Members.antt =====
-- Usecases that join the list and leave it.
use android_device_samsung_z.Common.{
  ℕ, ◌+◌, ◌≡◌, refl, sym, ap, ◌∙◌, false, ◌==◌, ◌||◌, none, some, Option-cases, List, [], ◌∷◌, ◌++◌,
  All, All-append, inl, inr, arith,
}
use mathlib.Core.Path.{subst}
use android_device_samsung_z.Audio.SndDevice.{SndDevice, snd_device_none}
use android_device_samsung_z.Audio.State.{UsecaseType, AudioUsecase, AudioDevice}
use android_device_samsung_z.Audio.Lookup.{get_usecase_from_id, remove_usecase}
use android_device_samsung_z.Audio.Route.Invariant.{
  held, held_by, has_id, Distinct, type_at, IsShaped, IsRouted, held_split, held-remove,
}

-- `t` has the counts and the usecases of `s`.
abbrev pub SameRoutes : AudioDevice → AudioDevice → Type 0
SameRoutes s t = (t.snd_dev_ref_cnt ≡ s.snd_dev_ref_cnt) × (t.usecase_list ≡ s.usecase_list)

-- A usecase at the end of the list.
pub has_id-snoc :
    (us : List AudioUsecase) (u : AudioUsecase) (id : ℕ)
    → has_id id (us ++ u ∷ []) ≡ (has_id id us || (u.id == id))
has_id-snoc [] u id = ground arith
has_id-snoc (v ∷ us) u id = ground (arith, has_id-snoc us u id)

snoc-Distinct :
    (us : List AudioUsecase) (u : AudioUsecase)
    → has_id u.id us ≡ false
    → Distinct us
    → Distinct (us ++ u ∷ [])
snoc-Distinct [] u h d = (refl, tt)
snoc-Distinct (v ∷ us) u h d = ground (arith, snoc-Distinct us u, has_id-snoc us u v.id)

held-snoc :
    (us : List AudioUsecase) (u : AudioUsecase) (e : SndDevice)
    → held e (us ++ u ∷ []) ≡ held e us + held_by e u
held-snoc [] u e = omega arith
held-snoc (v ∷ us) u e = omega (arith, held-snoc us u e)

pub type_at-snoc :
    (us : List AudioUsecase) (u : AudioUsecase)
    → has_id u.id us ≡ false
    → type_at (us ++ u ∷ []) u.id ≡ some u.type
type_at-snoc [] u h = ground arith
type_at-snoc (v ∷ us) u h = ground (arith, type_at-snoc us u)

-- A usecase that has no device yet joins the others.
pub snoc-IsRouted :
    (s : AudioDevice) (u : AudioUsecase)
    → IsRouted s
    → has_id u.id s.usecase_list ≡ false
    → u.out_snd_device ≡ snd_device_none
    → u.in_snd_device ≡ snd_device_none
    → IsRouted (record s { usecase_list = s.usecase_list ++ u ∷ [] })
snoc-IsRouted s u h new out inp = record {
  counted = λ e. ground (arith, h.counted e, held-snoc s.usecase_list u e);
  shaped = All-append IsShaped s.usecase_list (u ∷ []) h.shaped (
    record {
      out_named = ground arith;
      in_named = ground arith;
      playback_only = λ e. inp;
      capture_only = λ e. out;
    },
    tt,
  );
  distinct = snoc-Distinct s.usecase_list u new h.distinct;
}

pub SameRoutes-IsRouted : (s t : AudioDevice) → SameRoutes s t → IsRouted s → IsRouted t
SameRoutes-IsRouted s t e h = record {
  counted = λ d. ap (λ f. f d) e.0 ∙ h.counted d ∙ ap (held d) (sym e.1);
  shaped = subst (λ us. All IsShaped us) (sym e.1) h.shaped;
  distinct = subst Distinct (sym e.1) h.distinct;
}

pub remove-All :
    (uc_id : ℕ) (us : List AudioUsecase) → All IsShaped us → All IsShaped (remove_usecase uc_id us)
unfolding remove_usecase
remove-All uc_id [] h = tt
remove-All uc_id (u ∷ us) h = ground (arith, remove-All uc_id us)

pub has_id-remove_other :
    (uc_id id : ℕ) (us : List AudioUsecase)
    → has_id id us ≡ false
    → has_id id (remove_usecase uc_id us) ≡ false
unfolding remove_usecase
has_id-remove_other uc_id id [] h = refl
has_id-remove_other uc_id id (u ∷ us) h = ground (arith, has_id-remove_other uc_id id us)

pub remove-Distinct :
    (uc_id : ℕ) (us : List AudioUsecase) → Distinct us → Distinct (remove_usecase uc_id us)
unfolding remove_usecase
remove-Distinct uc_id [] h = tt
remove-Distinct uc_id (u ∷ us) h =
    ground (arith, remove-Distinct uc_id us, has_id-remove_other uc_id u.id us)

-- The uses of a usecase, and those of the list without it.
pub remove_count :
    (uc_id : ℕ) (s : AudioDevice) (u : AudioUsecase) (e : SndDevice)
    → IsRouted s
    → get_usecase_from_id s.usecase_list uc_id ≡ some u
    → s.snd_dev_ref_cnt e ≡ held_by e u + held e (remove_usecase uc_id s.usecase_list)
remove_count uc_id s u e h f = omega (
  arith,
  h.counted e,
  held-remove uc_id e s.usecase_list h.distinct,
  held_split uc_id e s.usecase_list u h.distinct f,
)

pub absent-type_at :
    (us : List AudioUsecase) (id : ℕ) → get_usecase_from_id us id ≡ none → type_at us id ≡ none
unfolding get_usecase_from_id
absent-type_at [] id h = refl
absent-type_at (u ∷ us) id h = ground (arith, absent-type_at us id)

pub found_of_type :
    (us : List AudioUsecase) (id : ℕ) (type : UsecaseType)
    → type_at us id ≡ some type
    → (u : AudioUsecase) × (get_usecase_from_id us id ≡ some u)
found_of_type us id type h = elim (Option-cases (get_usecase_from_id us id)) [
  | inl absent ↦ absurd (cc (sym h ∙ absent-type_at us id absent))
  | inr found ↦ found
]

-- The counts are the uses, and the usecase is not in the list.
pub record IsOff (uc_id : ℕ) (t : AudioDevice) : Type 0 where
  pub routed : IsRouted t
  pub unlisted : has_id uc_id t.usecase_list ≡ false
