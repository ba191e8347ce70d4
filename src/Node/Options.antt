-- ===== src/Node/Options.antt =====
-- The command line of src/toxrelayer.c: `Options`, `parse_args` and `init_tox_options`. `getopt_long`
-- is the C library's: a step of it is the option that it returns, with the argument and with `optind`
-- afterwards.
pub mod Laws
mod Tests
use tox_relayer.Prelude.{
  ℕ, ◌+◌, ◌-◌, Bool, true, false, not, ◌||◌, Option, none, some, List, [], ◌∷◌, if◌then◌else◌, ltb,
  ◌==◌, length, take, get_or,
}
use tox_relayer.Prelude.Int.{ℤ, pos, negsuc, pos_part}
use tox_relayer.Misc.{parse_int_range, starts_with}

pub data ProxyType : Type 0 where
  proxy_none proxy_http proxy_socks5 : ProxyType

pub record Options : Type 0 where
  pub proxy_type : ProxyType
  pub proxy_host : List ℕ
  pub proxy_port : ℕ
  pub disable_udp : Bool
  pub disable_lan : Bool
  pub force_ipv4 : Bool

-- `set_default_options`.
abbrev pub default_options : Options
default_options = record {
  proxy_type = proxy_none;
  proxy_host = [];
  proxy_port = 0;
  disable_udp = false;
  disable_lan = false;
  force_ipv4 = false;
}

-- A return of `getopt_long`, `none` for a NULL `optarg`.
pub data Opt : Type 0 where
  ipv4 no_lan force_tcp usage : Opt
  socks5 http : (optarg : Option (List ℕ)) (optind : ℕ) → Opt

-- What the loop does with one option: it goes on, or the program exits with success or failure.
pub data Parse : Type 0 where
  going : Options → Parse
  exit_success exit_failure : Parse

abbrev pub max_port_range : ℤ
max_port_range = pos 65535

abbrev pub proxy_host_size : ℕ
proxy_host_size = 256

abbrev pub is_socks5 : ProxyType → Bool
is_socks5 proxy_none = false
is_socks5 proxy_http = false
is_socks5 proxy_socks5 = true

-- The cases 'P' and, by fallthrough, 't', of the options as case 'p' left them.
unfoldable pub set_proxy : List (List ℕ) → Option (List ℕ) → ℕ → Options → Parse
set_proxy argv none optind o = going (record o { proxy_type = proxy_none })
set_proxy argv (some optarg) optind o =
    let kind = if is_socks5 o.proxy_type then proxy_socks5 else proxy_http in
    let port = get_or argv optind [] in
    if ltb (length argv) (optind + 1) || starts_with 45 port
    then exit_failure
    else elim (parse_int_range (some port) (pos 1) max_port_range) [
      | none ↦ exit_failure
      | some parsed ↦ going (record o {
        proxy_type = kind;
        proxy_host = take (proxy_host_size - 1) optarg;
        proxy_port = pos_part parsed;
        disable_udp = true;
      })
    ]

unfoldable pub set_option : List (List ℕ) → Opt → Options → Parse
set_option argv ipv4 o = going (record o { force_ipv4 = true })
set_option argv no_lan o = going (record o { disable_lan = true })
set_option argv force_tcp o = going (record o { disable_udp = true })
set_option argv usage o = exit_success
set_option argv (socks5 optarg optind) o =
    set_proxy argv optarg optind (record o { proxy_type = proxy_socks5 })
set_option argv (http optarg optind) o = set_proxy argv optarg optind o

-- The loop of `parse_args` over what `getopt_long` returns.
unfoldable pub parse_loop : List (List ℕ) → List Opt → Options → Parse
parse_loop argv [] o = going o
parse_loop argv (opt ∷ opts) o = elim (set_option argv opt o) [
  | going o' ↦ parse_loop argv opts o'
  | exit_success ↦ exit_success
  | exit_failure ↦ exit_failure
]

unfoldable pub parse_args : List (List ℕ) → List Opt → Parse
parse_args argv opts = parse_loop argv opts default_options

-- What `init_tox_options` sets; a proxy's host and port are set where there is a proxy.
pub record ToxOptions : Type 0 where
  pub ipv6_enabled : Bool
  pub udp_enabled : Bool
  pub local_discovery_enabled : Bool
  pub proxy_type : ProxyType
  pub proxy : Option (ℕ × List ℕ)

unfoldable pub init_tox_options : Options → ToxOptions
init_tox_options o = record {
  ipv6_enabled = not o.force_ipv4;
  udp_enabled = not o.disable_udp;
  local_discovery_enabled = not o.disable_lan;
  proxy_type = o.proxy_type;
  proxy = elim o.proxy_type [
    | proxy_none ↦ none
    | proxy_http ↦ some (o.proxy_port, o.proxy_host)
    | proxy_socks5 ↦ some (o.proxy_port, o.proxy_host)
  ];
}
