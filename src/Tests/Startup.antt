-- ===== src/Tests/Startup.antt =====
-- Passwords and the configuration, as in cryptography and shared/config.
use endless_peak_server.Shared.{
  ◌*◌, ◌≡◌, sym, ap, ◌∙◌, if◌then◌else◌, leb, ltb, ◌&&◌, ◌^◌, none, some, map, take, replicate,
  length, length-replicate, arith, ◌%◌,
}
use mathlib.Core.Option.{some-injective}
use endless_peak_server.Crypto.{OpenSsl, IsDocumented, failure}
use endless_peak_server.Config.{init_map}
use endless_peak_server.Config.Map.{init_map_lem}

-- A stand-in that repeats the length of the password, and random bytes that are not available.
abbrev ssl : OpenSsl
ssl = record {
  pbkdf2 = λ password salt iterations n. some (replicate n (length password));
  rand_bytes = λ n. (failure, replicate n 0);
}

ssl-IsDocumented : IsDocumented ssl
ssl-IsDocumented = record {
  filled = λ password salt iterations n bytes e.
      (ap length (some-injective _ _ (sym e)) ∙ length-replicate n (length password));
}

-- A grid of 25 by 26 cells.
init_map_lem_example : init_map 25 26 (replicate 650 1) ≡ (
    if leb 625 (25 * 26) && ltb (25 * 26) (2 ^ 31)
    then some (map (λ v. v % 256) (take (25 * 26) (replicate 650 1)))
    else none)
init_map_lem_example = init_map_lem 25 26 (replicate 650 1) (omega arith)
