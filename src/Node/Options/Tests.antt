-- ===== src/Node/Options/Tests.antt =====
-- A command line of src/toxrelayer.c, and the theorem on proxies applied to it.
use tox_relayer.Prelude.{
  ℕ, ◌≤◌, ◌<◌, ◌≡◌, refl, ◌⊎◌, true, false, none, some, List, [], ◌∷◌, length,
}
use tox_relayer.Text.{
  codes, strtol, skip_spaces, take_sign, starts_with_digit, scan_digits, parsed_number, clamp_long,
}
use tox_relayer.Misc.{parse_int_range, whole_number, first_is_space, starts_with}
use tox_relayer.Node.Options.{
  Options, proxy_socks5, socks5, no_lan, parse_args, parse_loop, set_option, set_proxy,
  init_tox_options,
}
use tox_relayer.Node.Options.Laws.{parse_args-proxy}

-- A proxy at port 9050, given with `-p`.
abbrev arguments : List (List ℕ)
arguments = codes "toxrelayer" ∷ codes "-p" ∷ codes "host" ∷ codes "9050" ∷ []

abbrev proxied : Options
proxied = record {
  proxy_type = proxy_socks5;
  proxy_host = codes "host";
  proxy_port = 9050;
  disable_udp = true;
  disable_lan = true;
  force_ipv4 = false;
}

parse_args-proxy_example :
    let t = init_tox_options proxied in
    (t.proxy ≡ none)
    ⊎ ((port : ℕ) × (host : List ℕ) × (t.proxy ≡ some (port, host))
        × (t.udp_enabled ≡ false)
        × (1 ≤ port)
        × (port ≤ 65535)
        × (length host < 256))
unfolding parse_args parse_loop set_option set_proxy parse_int_range whole_number first_is_space
    starts_with strtol skip_spaces take_sign starts_with_digit scan_digits parsed_number clamp_long
parse_args-proxy_example =
    parse_args-proxy arguments (no_lan ∷ socks5 (some (codes "host")) 3 ∷ []) proxied refl
