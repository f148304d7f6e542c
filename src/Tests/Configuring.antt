-- ===== src/Tests/Configuring.antt =====
-- config.py on a host with a runtime directory, and with values that are no numbers.
use xrandrw.Prelude.{
  String, true, ◌≡◌, ◌≢◌, ◌∙◌, sym, refl, none, some, [], ◌∷◌, ◌==◌, string_eq, if◌then◌else◌,
}
use mathlib.Core.Path.{subst}
use mathlib.Core.Option.{some-injective}
use xrandrw.Prelude.Int.{pos}
use xrandrw.Prelude.Dict.{lookup, insert, insert_all}
use xrandrw.Config.{
  Host, FloatRead, whole, invalid, overflows, merged, resolve_lock_dir, load_config,
}
use xrandrw.Config.Needs.{Returns}
use xrandrw.Config.Valid.{documented, load_config-Returns}
use xrandrw.Config.Overflow.{load_config-overflows}

abbrev float_int : String → FloatRead
float_int s = if s == "inf" then overflows else if s == "2.5" then whole (pos 2) else invalid

abbrev host : Host
host = record {
  home = "/home/user";
  uid = 1000;
  conf_sys = some "# system\nPOLL_INTERVAL=\"2.5\"\n";
  conf_user = some "LOG_LEVEL=loud\nEXCESS_THRESHOLD=many";
  environ = ("XDG_RUNTIME_DIR", "/run/user/1000") ∷ [];
  is_dir = λ d. d == "/run/user/1000";
  can_mkdir = true;
  float_int = float_int;
}

resolved : resolve_lock_dir host ≡ some "/run/user/1000"
unfolding resolve_lock_dir lookup
resolved = refl

polls : lookup "POLL_INTERVAL" (merged host) ≡ some "2.5"
unfolding merged lookup insert insert_all
polls = refl

distinct : whole (pos 2) ≢ overflows
distinct e = cc

finite : (t : String) → lookup "POLL_INTERVAL" (merged host) ≡ some t → float_int t ≢ overflows
finite t h e =
    distinct (subst (λ s. float_int s ≡ overflows) (sym (some-injective _ _ (sym polls ∙ h))) e)

load_config-Returns_example : Returns (documented "/run/user/1000") (load_config host)
load_config-Returns_example = load_config-Returns host "/run/user/1000" resolved finite

abbrev careless : Host
careless = record host { conf_user = some "POLL_INTERVAL=inf" }

careless_polls : lookup "POLL_INTERVAL" (merged careless) ≡ some "inf"
unfolding merged lookup insert insert_all
careless_polls = refl

load_config-overflows_example : load_config careless ≡ none
load_config-overflows_example = load_config-overflows careless "inf" careless_polls refl
