-- ===== src/Templating/Tests.antt =====
-- Templates that are posted on top of the sample data.
use notify_relay.Prelude.{refl, ◌≡◌, none, some, [], ◌∷◌, arith}
use notify_relay.Models.{Channel, TemplateVersion}
use notify_relay.Templating.{
  TemplateData, NewIds, valid_template, versions_of, created, one, new_version, create, retrieve,
}
use notify_relay.Templating.Numbers.{IsNumbered, create-next, create-IsNumbered}
use notify_relay.Samples.{shop, welcome, welcome_1}

abbrev posted : TemplateData
posted = record {
  name = "welcome";
  channel = Channel.webhook;
  subject_template = "";
  body_template = "[]";
}

abbrev ids : NewIds
ids = record { template = 2; version = 2 }

abbrev welcome_2 : TemplateVersion
welcome_2 = new_version ids none 20 1 2 posted

shop-IsNumbered : IsNumbered shop
shop-IsNumbered = record { at = λ t. ground arith }

create-next_example :
    ((create ids none 20 posted shop).0 ≡ created welcome welcome_2)
    × (retrieve "welcome" (create ids none 20 posted shop).1 ≡ one welcome (some welcome_2))
    × ((create ids none 20 posted shop).1.templates ≡ welcome ∷ [])
    × (versions_of 1 (create ids none 20 posted shop).1.versions ≡ welcome_1 ∷ welcome_2 ∷ [])
unfolding valid_template
create-next_example = create-next ids none 20 posted shop welcome 1 shop-IsNumbered refl refl refl

create-IsNumbered_example : IsNumbered (create ids none 20 posted shop).1
create-IsNumbered_example = create-IsNumbered ids none 20 posted shop shop-IsNumbered refl
