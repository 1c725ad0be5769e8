-- ===== src/Obs/Sampler/Examples.antt =====
-- Tests of the sampler, on whole tokens: one line a second and a burst of two.
use feature_flag_service.Common.{
  ◌≡◌, refl, ℕ, ◌+◌, ◌-◌, ◌*◌, ltb, Bytes, codes, str_eq, List, [], ◌∷◌, lookup, insert,
}
use feature_flag_service.Obs.Sampler.{TokenLib, new_sampler, allow, allow_all}
use feature_flag_service.Obs.Sampler.Volume.{calls_for, volume_for, pending, allow_all-volume}

abbrev whole : TokenLib ℕ
whole = record {
  one = 1;
  plus = ◌+◌;
  minus = ◌-◌;
  times = ◌*◌;
  is_less = ltb;
  seconds_from = λ a b. b - a;
}

abbrev broken_flag : Bytes
broken_flag = codes "new-checkout|ERROR"

abbrev asked : List (Bytes × ℕ)
asked =
    (broken_flag, 0)
    ∷ ((broken_flag, 0)
        ∷ ((broken_flag, 0)
            ∷ ((codes "other|ERROR", 0)
                ∷ ((broken_flag, 0) ∷ ((broken_flag, 1) ∷ ((broken_flag, 1) ∷ []))))))

-- Three lines for six calls: the third stands for three, and one call waits for the next.
asked_volume :
    (volume_for broken_flag (allow_all whole asked (new_sampler 1 2 10)).1 ≡ 5)
    × (pending broken_flag (allow_all whole asked (new_sampler 1 2 10)).0 ≡ 1)
unfolding allow_all allow lookup insert str_eq
asked_volume = (refl, refl)

allow_all-volume_example :
    volume_for broken_flag (allow_all whole asked (new_sampler 1 2 10)).1
      + pending broken_flag (allow_all whole asked (new_sampler 1 2 10)).0
    ≡ calls_for broken_flag asked
allow_all-volume_example = allow_all-volume whole 1 2 10 asked broken_flag
