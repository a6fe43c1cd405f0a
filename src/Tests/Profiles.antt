-- ===== src/Tests/Profiles.antt =====
-- Witnesses of the theorems on the list of saved profiles and on the diagnostics.
use linguamesh_linux.Prelude.{◌≡◌, refl, some, if◌then◌else◌, [], ◌∷◌}
use linguamesh_linux.Prelude.Text.{codes}
use linguamesh_linux.Tests.Sample.{sample, Provider}
use linguamesh_linux.Tests.Running.{running}
use linguamesh_linux.Tests.Model.{alpha, beta}
use linguamesh_linux.Model.Profiles.{saved_profile_by_id, upsert_saved_profile, same_id}
use linguamesh_linux.Model.Profiles.Unique.{find-upsert}

-- The profile with another name, which sorts after the other one.
abbrev renamed : Provider
renamed = record alpha { name = codes "Gamma" }

find-upsert_example :
    saved_profile_by_id sample (upsert_saved_profile sample (alpha ∷ beta ∷ []) renamed) (codes "a")
    ≡ (if same_id sample renamed.key (codes "a")
        then some renamed
        else saved_profile_by_id sample (alpha ∷ beta ∷ []) (codes "a"))
unfolding running
find-upsert_example = find-upsert sample (alpha ∷ beta ∷ []) renamed (codes "a") (refl, (refl, tt))
