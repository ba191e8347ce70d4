-- ===== src/Node/Options/Laws.antt =====
-- What the command line of src/toxrelayer.c may set.
use tox_relayer.Prelude.{
  ℕ, ◌+◌, ◌-◌, ◌≤◌, ◌<◌, ◌≡◌, refl, ap, ◌⊎◌, inl, inr, true, false, not, ◌||◌, Option, none, some,
  List, [], ◌∷◌, arith, length, length-take, get_or, ltb, if-elim, Option-cases,
}
use tox_relayer.Prelude.Int.{pos}
use tox_relayer.Misc.{parse_int_range, starts_with}
use tox_relayer.Misc.Numbers.{parse_int_range-bounds}
use tox_relayer.Node.Options.{
  ProxyType, proxy_none, proxy_http, proxy_socks5, Options, default_options, Opt, ipv4, no_lan,
  force_tcp, usage, socks5, http, Parse, going, exit_success, exit_failure, max_port_range,
  proxy_host_size, set_proxy, set_option, parse_loop, parse_args, init_tox_options,
}

-- A proxy has a port that fits the field, a host that fits the buffer, and no UDP beside it.
abbrev pub IsSafe : Options → Type 0
IsSafe o =
    (o.proxy_type ≡ proxy_none)
    ⊎ ((o.disable_udp ≡ true)
        × (1 ≤ o.proxy_port)
        × (o.proxy_port ≤ 65535)
        × (length o.proxy_host < 256))

abbrev Safe : Parse → Type 0
Safe (going o) = IsSafe o
Safe exit_success = Unit
Safe exit_failure = Unit

set_proxy-Safe :
    (argv : List (List ℕ)) (optarg : Option (List ℕ)) (optind : ℕ) (o : Options)
    → Safe (set_proxy argv optarg optind o)
unfolding set_proxy
set_proxy-Safe argv none optind o = inl refl
set_proxy-Safe argv (some optarg) optind o =
    if-elim Safe (ltb (length argv) (optind + 1) || starts_with 45 (get_or argv optind []))
      (λ _. tt)
      (λ _.
        elim (Option-cases
          (parse_int_range (some (get_or argv optind [])) (pos 1) max_port_range)) [
            | inl e ↦ rw e tt
            | inr (port, e) ↦ rw e (
                let fits = parse_int_range-bounds _ (pos 1) max_port_range port e in
                inr (
                  refl,
                  ground (arith, fits),
                  ground (arith, fits),
                  omega (arith, length-take (proxy_host_size - 1) optarg),
                ))
          ])

set_option-Safe :
    (argv : List (List ℕ)) (opt : Opt) (o : Options) → IsSafe o → Safe (set_option argv opt o)
unfolding set_option
set_option-Safe argv ipv4 o v = v
set_option-Safe argv no_lan o v = v
set_option-Safe argv force_tcp o (inl e) = inl e
set_option-Safe argv force_tcp o (inr (off, least, most, host)) = inr (refl, least, most, host)
set_option-Safe argv usage o v = tt
set_option-Safe argv (socks5 optarg optind) o v =
    set_proxy-Safe argv optarg optind (record o { proxy_type = proxy_socks5 })
set_option-Safe argv (http optarg optind) o v = set_proxy-Safe argv optarg optind o

parse_loop-Safe :
    (argv : List (List ℕ)) (opts : List Opt) (o : Options)
    → IsSafe o
    → Safe (parse_loop argv opts o)
unfolding parse_loop
parse_loop-Safe argv [] o v = v
parse_loop-Safe argv (opt ∷ opts) o v =
    next (parse_loop-Safe argv opts) (set_option argv opt o) (set_option-Safe argv opt o v)
  where
    next :
        ((o' : Options) → IsSafe o' → Safe (parse_loop argv opts o'))
        → (r : Parse) → Safe r
        → Safe (elim r [
          | going o' ↦ parse_loop argv opts o'
          | exit_success ↦ exit_success
          | exit_failure ↦ exit_failure
        ])
    next rest (going o') w = rest o' w
    next rest exit_success w = tt
    next rest exit_failure w = tt

abbrev Proxied : Options → Type 0
Proxied o =
    let t = init_tox_options o in
    (t.proxy ≡ none)
    ⊎ ((port : ℕ) × (host : List ℕ) × (t.proxy ≡ some (port, host))
        × (t.udp_enabled ≡ false)
        × (1 ≤ port)
        × (port ≤ 65535)
        × (length host < 256))

IsSafe-Proxied : (o : Options) (kind : ProxyType) → o.proxy_type ≡ kind → IsSafe o → Proxied o
unfolding init_tox_options
IsSafe-Proxied o proxy_none e v = rw e (inl refl)
IsSafe-Proxied o proxy_http e (inl n) = absurd (ground (arith, e, n))
IsSafe-Proxied o proxy_http e (inr (off, least, most, host)) =
    rw e (inr (o.proxy_port, o.proxy_host, refl, ap not off, least, most, host))
IsSafe-Proxied o proxy_socks5 e (inl n) = absurd (ground (arith, e, n))
IsSafe-Proxied o proxy_socks5 e (inr (off, least, most, host)) =
    rw e (inr (o.proxy_port, o.proxy_host, refl, ap not off, least, most, host))

-- When the command line is accepted, toxcore gets a proxy only with UDP switched off, with a port from
-- 1 to 65535, and with a host that was cut to the 255 bytes of its buffer; whatever the options,
-- their order and their arguments.
pub parse_args-proxy :
    (argv : List (List ℕ)) (opts : List Opt) (o : Options)
    → parse_args argv opts ≡ going o
    → let t = init_tox_options o in
      (t.proxy ≡ none)
      ⊎ ((port : ℕ) × (host : List ℕ) × (t.proxy ≡ some (port, host))
          × (t.udp_enabled ≡ false)
          × (1 ≤ port)
          × (port ≤ 65535)
          × (length host < 256))
unfolding parse_args init_tox_options
parse_args-proxy argv opts o e =
    IsSafe-Proxied o o.proxy_type refl
      (rw e at (parse_loop-Safe argv opts default_options (inl refl)))
