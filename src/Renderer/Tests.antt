-- ===== src/Renderer/Tests.antt =====
-- A webhook body that is rendered.
use Prim.Native.String.{count}
use notify_relay.Prelude.{refl, String, ◌≡◌, ◌≤◌, ◌+◌, false}
use notify_relay.Models.{Channel, Dict}
use notify_relay.Renderer.{Rendered, text, render, render-IsSound, max_rendered_chars}
use notify_relay.Samples.{welcome_1, print_template, never_an_error}

render-IsSound_example :
    (count "{}" + count "" ≤ max_rendered_chars)
    × (◌≡◌ {A = Rendered String} (text "{}") (text "{}"))
    × (◌≡◌ {A = Rendered String} (text "") (text ""))
    × (false ≡ false)
unfolding render
render-IsSound_example =
    render-IsSound print_template never_an_error welcome_1 Dict.empty_dict Channel.webhook
      (record { subject = ""; body = "{}" }) refl
