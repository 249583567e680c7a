-- ===== src/Inventory/Service/Metadata.antt =====
-- What a patch of the tags of an asset keeps.
use ai_sre_platform_for_auto.Common.{none, some, [], ◌∷◌, refl, insert, lookup}
use ai_sre_platform_for_auto.Inventory.Service.{update}
use ai_sre_platform_for_auto.Common.{Dict, Option}
use ai_sre_platform_for_auto.Common.{Text}
use ai_sre_platform_for_auto.Common.{◌≡◌}
use ai_sre_platform_for_auto.Common.{arith}
use ai_sre_platform_for_auto.Common.{lookup-insert}
use ai_sre_platform_for_auto.Common.{text_eq_iff}
use ai_sre_platform_for_auto.Common.{Option-cases}

-- a dictionary holds no key twice
abbrev pub IsDict : Dict Text → Type 0
IsDict [] = Unit
IsDict ((k, v) ∷ e) = (lookup k e ≡ none) × IsDict e

abbrev pub newer : Option Text → Option Text → Option Text
newer none old = old
newer (some v) old = some v

-- After an update a key has the value of the new dictionary, and where that has none the old one.
pub lookup-update :
    (d e : Dict Text) (k : Text)
    → IsDict e
    → lookup k (update d e) ≡ newer (lookup k e) (lookup k d)
unfolding update lookup
lookup-update d [] k h = refl
lookup-update d ((j, v) ∷ e) k (u, h) = ground (
  arith,
  u,
  lookup-update (insert j v d) e k h,
  lookup-insert j k v d,
  text_eq_iff j k,
  Option-cases (lookup k e),
)
