-- ===== src/Store/Tests.antt =====
-- Examples of the registry.
use cternal.Prelude.{◌≡◌, refl, [], ◌∷◌, codes}
use cternal.Prelude.Int.{pos}
use cternal.Store.{Store, err, max_sessions_reached, create}
use cternal.Samples.{heap}

abbrev full : Store
full = record { sessions = (codes "a", 0) ∷ []; max_sessions = pos 1 }

create-full : create heap full 1 ≡ err max_sessions_reached
unfolding create
create-full = refl
