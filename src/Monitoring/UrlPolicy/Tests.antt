-- ===== src/Monitoring/UrlPolicy/Tests.antt =====
-- Addresses and URLs at concrete inputs.
use link_alive.Common.{
  ℕ, ◌+◌, ◌*◌, ◌^◌, ◌≡◌, ◌≢◌, refl, true, false, none, some, List, [], ◌∷◌, Result, ok, throw, text,
}
use link_alive.Monitoring.Errors.{CheckFailure}
use link_alive.Monitoring.UrlPolicy.Ipv4.{invalid_ipv4, ipv4_to_number}
use link_alive.Monitoring.UrlPolicy.Ipv6.{parse_ipv6, is_public_address}
use link_alive.Monitoring.UrlPolicy.Addresses.{
  may_reach_ipv4, may_reach_ipv6, rule_on, is_public_address-ranges,
}
use link_alive.Monitoring.UrlPolicy.Urls.{
  Url, UrlApi, ResolvedAddress, SafeDestination, resolve_safe_destination,
}
use link_alive.Monitoring.UrlPolicy.Destinations.{
  IsCheckable, IsFrom, resolve_safe_destination-IsCheckable,
}

reads_dotted : ipv4_to_number (text "192.168.1.20") ≡ ok 3232235796
unfolding ipv4_to_number
reads_dotted = refl

refuses_octet : ipv4_to_number (text "10.0.0.256") ≡ throw invalid_ipv4
unfolding ipv4_to_number
refuses_octet = refl

reads_ipv6 : parse_ipv6 (text "::FFFF:10.0.0.1%eth0") ≡ ok (0xffff * 2 ^ 32 + 0x0a000001)
unfolding parse_ipv6
reads_ipv6 = refl

-- Node takes the address for an IPv6 address.
abbrev always_six : List ℕ → ℕ
always_six s = 6

mapped_private : is_public_address always_six (text "::ffff:10.0.0.1") ≡ false
unfolding is_public_address
mapped_private = refl

global : is_public_address always_six (text "2606:4700::1111") ≡ true
unfolding is_public_address
global = refl

is_public_address-ranges_example :
    (always_six (text "2606:4700::1111") ≡ 4
      → is_public_address always_six (text "2606:4700::1111")
        ≡ rule_on (ipv4_to_number (text "2606:4700::1111")) may_reach_ipv4)
    × (always_six (text "2606:4700::1111") ≡ 6
        → is_public_address always_six (text "2606:4700::1111")
          ≡ rule_on (parse_ipv6 (text "2606:4700::1111")) may_reach_ipv6)
    × (always_six (text "2606:4700::1111") ≢ 4
        → always_six (text "2606:4700::1111") ≢ 6
        → is_public_address always_six (text "2606:4700::1111") ≡ false)
is_public_address-ranges_example = is_public_address-ranges always_six (text "2606:4700::1111")

abbrev shop : Url
shop = record {
  protocol = text "https:";
  username = [];
  password = [];
  hostname = text "shop.test";
  rest = text "/";
  search = [];
  hash = text "#top";
}

abbrev api : UrlApi
api = record {
  parse = λ s. some shop;
  join = λ s base. none;
  to_text = λ u. u.hostname;
  is_ip = λ s. 0;
}

abbrev resolver : List ℕ → Result CheckFailure (List ResolvedAddress)
resolver host = ok (
    record { address = text "203.0.113.9"; family = 4 }
    ∷ record { address = text "203.0.113.9"; family = 4 }
    ∷ [])

abbrev destination : SafeDestination
destination = record {
  url = record shop { hash = [] };
  addresses = record { address = text "203.0.113.9"; family = 4 } ∷ [];
}

resolve_safe_destination-IsCheckable_example :
    IsCheckable destination.url × IsFrom resolver destination
unfolding resolve_safe_destination
resolve_safe_destination-IsCheckable_example =
    resolve_safe_destination-IsCheckable api resolver (text "https://shop.test/#top") destination
      refl

-- A name that resolves to the address of the machine itself is not refused.
abbrev loopback : List ℕ → Result CheckFailure (List ResolvedAddress)
loopback host = ok (record { address = text "127.0.0.1"; family = 4 } ∷ [])

resolves_to_loopback :
    resolve_safe_destination api loopback (text "https://shop.test/#top")
    ≡ ok (record {
      url = record shop { hash = [] };
      addresses = record { address = text "127.0.0.1"; family = 4 } ∷ [];
    })
unfolding resolve_safe_destination
resolves_to_loopback = refl

loopback_private : is_public_address (λ s. 4) (text "127.0.0.1") ≡ false
unfolding is_public_address
loopback_private = refl
