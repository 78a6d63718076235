-- ===== src/Catalog/Tests.antt =====
-- Colours at concrete inputs.
use plan_it.Common.{◌≡◌, refl, some, ok}
use plan_it.Common.Text.{upper, text, strip}
use plan_it.Catalog.{normalize_color, matches_color}

color_run : normalize_color (some (text " #12ab9F ")) ≡ ok (some (text "#12AB9F"))
unfolding normalize_color upper strip matches_color
color_run = refl
