-- ===== src/Config/Instance.antt =====
-- `Config::GetInstance` of shared/config/config.cpp.
use Prim.Native.String.{String}
use mathlib.Core.Option.{some-injective}
use endless_peak_server.Shared.{◌≡◌, sym, ap, ◌∙◌, Option, none, some, >>=-eq-some}
use endless_peak_server.Config.Load.{Json, Config, load_config, get_instance}

-- The first call that returns gives what the constructor made of its file.
pub get_instance-load_config :
    {J : Type 0} (json : Json J) (filename : String) (r : Config × Option Config)
    → get_instance json filename none ≡ some r
    → load_config json filename ≡ some r.0
unfolding get_instance
get_instance-load_config json filename r e =
    let (config, loaded, e') = >>=-eq-some (load_config json filename) _ e in
    loaded ∙ ap (λ (x : Config × Option Config). some x.0) (some-injective _ _ e')

-- Every later call gives the same, whatever its file.
get_instance_again :
    {J : Type 0} (json : Json J) (first other : String) (r : Config × Option Config)
    → get_instance json first none ≡ some r
    → get_instance json other r.1 ≡ some r
unfolding get_instance
get_instance_again json first other r e =
    let (config, _, e') = >>=-eq-some (load_config json first) _ e in
    let same = some-injective _ _ e' in
    ap (λ (x : Config × Option Config). get_instance json other x.1) (sym same) ∙ ap some same
