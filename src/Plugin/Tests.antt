-- ===== src/Plugin/Tests.antt =====
-- A plugin that is configured, refuses a request, and begins a refresh.
use cmdcode_go.Base.{◌==◌, none, some, List, [], ◌∷◌, pos, if◌then◌else◌, false}
use cmdcode_go.Config.{Formats, fields_of, invalid_yaml, scalar}
use cmdcode_go.Plugin.{
  Happening, configure_with, refresh_begins, refresh_completes, live, new_plugin,
}
use cmdcode_go.Plugin.Composed.{IsComposed, live-IsComposed}

abbrev formats : Formats
formats = record {
  config_yaml = some;
  base64 = λ s. none;
  document = λ s.
      if s == "bad"
      then invalid_yaml
      else fields_of
          (("models_file", record { kind = scalar; tag = "!!str"; value = s; content = [] }) ∷ []);
  decode_text = λ n. some n.value;
  parse_url = λ s. none;
  parse_duration = λ s. some (pos 5);
}

abbrev history : List Happening
history =
    configure_with "/roster"
    ∷ refresh_begins 10 (some 3)
    ∷ configure_with "bad"
    ∷ refresh_completes 0 20 false none
    ∷ []

live-IsComposed_example : IsComposed formats [] (live formats (new_plugin []) history)
live-IsComposed_example = live-IsComposed formats [] history
