-- ===== src/WebUi/Tests.antt =====
-- The pages of internal/webui/webui.go, and its panic where the document cannot be marshalled.
use go_speedtest.Prelude.{◌≡◌, refl, none}
use go_speedtest.Prelude.Fixed.{Fixed, fixed_double}
use go_speedtest.Config.{defaults}
use go_speedtest.WebUi.{refused, file, asset_cache_control, serve_config, serve_page, handler}

no_post : serve_page "{}" "POST" "/config.json" ≡ refused 405
unfolding serve_page serve_config
no_post = refl

a_file : serve_page "{}" "GET" "/index.html" ≡ file asset_cache_control "/index.html"
unfolding serve_page
a_file = refl

panics : handler (λ u. none) (defaults {F = Fixed}) ≡ none
unfolding handler
panics = refl
